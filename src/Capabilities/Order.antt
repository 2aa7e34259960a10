-- ===== src/Capabilities/Order.antt =====
-- Versions against numbers in base 1,000,000.
use jarvis.Prelude.{
  ℕ, ◌+◌, ◌*◌, ◌≤◌, ◌≡◌, refl, Bool, true, false, if◌then◌else◌, ltb, leb, ◌==◌, List, [], ◌∷◌, map,
  any, length, Option, some, none, arith,
}
use mathlib.Core.Path.{subst}
use jarvis.Result.{Result, ok, err}
use jarvis.Capabilities.Version.{
  Library, Version, CapabilityError, version_invalid, digit_limit, Operator, equals, at_least,
  at_most, above, below, compares, int_of, padded, max_digits, version_of, read_version,
  parse_version, version_digits,
}

-- One number for a version.
abbrev pub number_of : Version → ℕ
number_of v = ((v.part_0 * 1000000 + v.part_1) * 1000000 + v.part_2) * 1000000 + v.part_3

abbrev pub compares_numbers : Operator → ℕ → ℕ → Bool
compares_numbers equals m n = m == n
compares_numbers at_least m n = leb n m
compares_numbers at_most m n = leb m n
compares_numbers above m n = ltb n m
compares_numbers below m n = ltb m n

abbrev pub IsBounded : Version → Type 0
IsBounded v = (v.part_0 ≤ 999999) × (v.part_1 ≤ 999999) × (v.part_2 ≤ 999999) × (v.part_3 ≤ 999999)

padded-IsBounded :
    (numbers : List ℕ)
    → any (λ number. ltb 999999 number) numbers ≡ false
    → IsBounded (padded numbers)
padded-IsBounded [] h = ground arith
padded-IsBounded (a ∷ []) h = ground arith
padded-IsBounded (a ∷ b ∷ []) h = ground arith
padded-IsBounded (a ∷ b ∷ c ∷ []) h = ground arith
padded-IsBounded (a ∷ b ∷ c ∷ d ∷ rest) h = ground arith

compares_lem :
    (operator : Operator) (v w : Version)
    → IsBounded v
    → IsBounded w
    → compares operator v w ≡ compares_numbers operator (number_of v) (number_of w)
unfolding compares
compares_lem equals v w b c = ground arith
compares_lem at_least v w b c = ground arith
compares_lem at_most v w b c = ground arith
compares_lem above v w b c = ground arith
compares_lem below v w b c = ground arith

checked-IsBounded :
    (long large : Bool) (u v : Version)
    → (large ≡ false → IsBounded u)
    → ◌≡◌ {A = Result CapabilityError Version}
        (if long then err digit_limit else if large then err version_invalid else ok u)
        (ok v)
    → IsBounded v
checked-IsBounded true large u v bounded returned = absurd cc
checked-IsBounded false true u v bounded returned = absurd cc
checked-IsBounded false false u v bounded returned =
    let same : u ≡ v = cc in subst IsBounded same (bounded refl)

version_of-IsBounded : (parts : List (List ℕ)) (v : Version) → version_of parts ≡ ok v → IsBounded v
version_of-IsBounded parts v =
    checked-IsBounded (any (λ digits. ltb max_digits (length digits)) parts)
      (any (λ number. ltb 999999 number) (map int_of parts)) (padded (map int_of parts)) v
      (padded-IsBounded (map int_of parts))

read_version-IsBounded :
    (digits : Option (List (List ℕ))) (v : Version) → read_version digits ≡ ok v → IsBounded v
read_version-IsBounded none v returned = absurd cc
read_version-IsBounded (some parts) v returned = version_of-IsBounded parts v returned

parse_version-IsBounded :
    (lib : Library) (value : List ℕ) (v : Version) → parse_version lib value ≡ ok v → IsBounded v
unfolding parse_version
parse_version-IsBounded lib value = read_version-IsBounded (version_digits lib value)

-- The operators of a constraint compare versions as they compare the numbers whose digits, in base
-- 1,000,000, are the parts of the versions: no part of a parsed version reaches that base.
pub compares-number_of :
    (lib : Library) (actual expected : List ℕ) (v w : Version) (operator : Operator)
    → parse_version lib actual ≡ ok v
    → parse_version lib expected ≡ ok w
    → compares operator v w ≡ compares_numbers operator (number_of v) (number_of w)
compares-number_of lib actual expected v w operator left right =
    compares_lem operator v w (parse_version-IsBounded lib actual v left)
      (parse_version-IsBounded lib expected w right)
