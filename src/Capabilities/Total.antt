-- ===== src/Capabilities/Total.antt =====
-- The resolver does not raise: a constraint is short enough for `int`.
use jarvis.Prelude.{
  ℕ, suc, ◌+◌, ◌≤◌, ◌≡◌, refl, ap, Bool, true, false, Bool-cases, ltb, leb, ◌==◌, List, [], ◌∷◌,
  map, any, is_empty, is_space, length, sum_of, Option, some, none, String, codes, text_len, inl,
  inr, arith,
}
use mathlib.Core.List.{reverse, reverse_aux}
use jarvis.Result.{Result, ok, err}
use jarvis.Capabilities.Version.{
  Library, Version, CapabilityError, digit_limit, Operator, split_codes, push_code, drop_spaces,
  strip_codes, digits_of, add_digit, add_part, parts_of, version_digits, version_of, max_digits,
  parse_version, read_operator, compare_with, matched_clause, check_clause, check_clauses, and_then,
  constraint_bounded, evaluate_constraint, int_of,
}

length-push_code :
    (c : ℕ) (parts : List (List ℕ)) → sum_of length (push_code c parts) ≡ suc (sum_of length parts)
length-push_code c [] = refl
length-push_code c (part ∷ parts) = omega arith

length-split_codes :
    (separator : ℕ) (cs : List ℕ) → sum_of length (split_codes separator cs) ≤ length cs
length-split_codes separator [] = omega arith
length-split_codes separator (c ∷ cs) =
    let rest = length-split_codes separator cs in
    let pushed = length-push_code c (split_codes separator cs) in
    elim (Bool-cases (c == separator)) [
      | inl here ↦ rw here (omega (arith, rest))
      | inr inside ↦ rw inside (omega (arith, rest, pushed))
    ]

length-reverse_aux : (xs ys : List ℕ) → length (reverse_aux xs ys) ≡ length xs + length ys
length-reverse_aux [] ys = omega arith
length-reverse_aux (x ∷ xs) ys = omega (arith, length-reverse_aux xs (x ∷ ys))

length-drop_spaces : (cs : List ℕ) → length (drop_spaces cs) ≤ length cs
length-drop_spaces [] = omega arith
length-drop_spaces (c ∷ cs) = elim (Bool-cases (is_space c)) [
  | inl space ↦ rw space (omega (arith, length-drop_spaces cs))
  | inr other ↦ rw other (omega arith)
]

length-strip_codes : (cs : List ℕ) → length (strip_codes cs) ≤ length cs
length-strip_codes cs =
    let front = drop_spaces cs in
    let back = drop_spaces (reverse front) in
    omega (
      arith,
      length-drop_spaces cs,
      length-reverse_aux front [],
      length-drop_spaces (reverse front),
      length-reverse_aux back [],
    )

length-read_operator : (cs : List ℕ) → length (read_operator cs).1 ≤ length cs
length-read_operator [] = omega arith
length-read_operator (c ∷ []) = ground arith
length-read_operator (c ∷ d ∷ cs) = ground arith

-- A text that is read has as many digits as it has characters.
abbrev Reads : ℕ → Option (List ℕ) → Type 0
Reads n none = Unit
Reads n (some ds) = length ds ≡ n

add_digit-Reads :
    (n : ℕ) (d : Option ℕ) (ds : Option (List ℕ)) → Reads n ds → Reads (suc n) (add_digit d ds)
add_digit-Reads n none none h = tt
add_digit-Reads n none (some ds) h = tt
add_digit-Reads n (some d) none h = tt
add_digit-Reads n (some d) (some ds) h = ap suc h

digits_of-Reads : (lib : Library) (cs : List ℕ) → Reads (length cs) (digits_of lib cs)
digits_of-Reads lib [] = refl
digits_of-Reads lib (c ∷ cs) =
    add_digit-Reads (length cs) (lib.digit_value c) (digits_of lib cs) (digits_of-Reads lib cs)

abbrev Fits : ℕ → Option (List (List ℕ)) → Type 0
Fits n none = Unit
Fits n (some parts) = sum_of length parts ≤ n

add_part-Fits :
    (m n : ℕ) (part : Option (List ℕ)) (parts : Option (List (List ℕ)))
    → Reads m part
    → Fits n parts
    → Fits (m + n) (add_part part parts)
add_part-Fits m n none none h k = tt
add_part-Fits m n none (some parts) h k = tt
add_part-Fits m n (some part) none h k = tt
add_part-Fits m n (some part) (some parts) h k = elim (Bool-cases (is_empty part)) [
  | inl nothing ↦ rw nothing tt
  | inr digits ↦ rw digits (omega (arith, h, k))
]

parts_of-Fits :
    (lib : Library) (parts : List (List ℕ)) → Fits (sum_of length parts) (parts_of lib parts)
parts_of-Fits lib [] = omega arith
parts_of-Fits lib (part ∷ parts) =
    add_part-Fits (length part) (sum_of length parts) (digits_of lib part) (parts_of lib parts)
      (digits_of-Reads lib part) (parts_of-Fits lib parts)

Fits-mono : (m n : ℕ) (parts : Option (List (List ℕ))) → m ≤ n → Fits m parts → Fits n parts
Fits-mono m n none h k = tt
Fits-mono m n (some parts) h k = omega (arith, h, k)

version_digits-Fits :
    (lib : Library) (value : List ℕ) → Fits (length value) (version_digits lib value)
unfolding version_digits
version_digits-Fits lib value =
    let parts = split_codes 46 value in
    elim (Bool-cases (leb (length parts) 4)) [
      | inl few ↦ rw few (
          Fits-mono (sum_of length parts) (length value) (parts_of lib parts)
            (length-split_codes 46 value) (parts_of-Fits lib parts))
      | inr many ↦ rw many tt
    ]

abbrev pub is_limit {ℓ} : {A : Type ℓ} → Result CapabilityError A → Bool
is_limit (err digit_limit) = true
is_limit _ = false

short_parts :
    (parts : List (List ℕ))
    → sum_of length parts ≤ max_digits
    → any (λ digits. ltb max_digits (length digits)) parts ≡ false
short_parts [] h = refl
short_parts (part ∷ parts) h =
    let rest : sum_of length parts ≤ max_digits = omega (arith, h) in
    ground (arith, h, short_parts parts rest)

version_of-is_limit :
    (parts : List (List ℕ)) → sum_of length parts ≤ max_digits → is_limit (version_of parts) ≡ false
version_of-is_limit parts h =
    elim (Bool-cases (any (λ number. ltb 999999 number) (map int_of parts))) [
      | inl large ↦ rw (short_parts parts h, large) refl
      | inr fine ↦ rw (short_parts parts h, fine) refl
    ]

compare_with-is_limit :
    (actual : Version) (operator : Operator) (read : Result CapabilityError Version)
    → is_limit read ≡ false
    → is_limit (compare_with actual operator read) ≡ false
compare_with-is_limit actual operator (ok v) h = refl
compare_with-is_limit actual operator (err e) h = h

matched_clause-is_limit :
    (actual : Version) (operator : Operator) (parts : Option (List (List ℕ)))
    → Fits max_digits parts
    → is_limit (matched_clause actual operator parts) ≡ false
matched_clause-is_limit actual operator none h = refl
matched_clause-is_limit actual operator (some parts) h =
    compare_with-is_limit actual operator (version_of parts) (version_of-is_limit parts h)

check_clause-is_limit :
    (lib : Library) (actual : Version) (clause : List ℕ)
    → length clause ≤ max_digits
    → is_limit (check_clause lib actual clause) ≡ false
unfolding check_clause
check_clause-is_limit lib actual clause h =
    let read = read_operator clause in
    matched_clause-is_limit actual read.0 (version_digits lib read.1) (
      Fits-mono (length read.1) max_digits (version_digits lib read.1)
        (omega (arith, h, length-read_operator clause)) (version_digits-Fits lib read.1))

and_then-is_limit :
    (first rest : Result CapabilityError Bool)
    → is_limit first ≡ false
    → is_limit rest ≡ false
    → is_limit (and_then first rest) ≡ false
and_then-is_limit (err e) rest h k = h
and_then-is_limit (ok true) rest h k = k
and_then-is_limit (ok false) rest h k = refl

check_clauses-is_limit :
    (lib : Library) (actual : Version) (parts : List (List ℕ))
    → sum_of length parts ≤ max_digits
    → is_limit (check_clauses lib actual (map strip_codes parts)) ≡ false
check_clauses-is_limit lib actual [] h = refl
check_clauses-is_limit lib actual (part ∷ parts) h =
    let rest : sum_of length parts ≤ max_digits = omega (arith, h) in
    and_then-is_limit (check_clause lib actual (strip_codes part))
      (check_clauses lib actual (map strip_codes parts))
      (check_clause-is_limit lib actual (strip_codes part)
        (omega (arith, h, length-strip_codes part)))
      (check_clauses-is_limit lib actual parts rest)

constraint_bounded-text_len :
    (constraint : String) → constraint_bounded constraint ≡ true → text_len constraint ≤ 256
constraint_bounded-text_len constraint h = ground (arith, h)

pub evaluate_constraint-is_limit :
    (lib : Library) (actual constraint : String) (v : Version)
    → parse_version lib (codes actual) ≡ ok v
    → is_limit (evaluate_constraint lib actual constraint) ≡ false
unfolding evaluate_constraint
evaluate_constraint-is_limit lib actual constraint v parsed =
    let parts = split_codes 44 (codes constraint) in
    elim (Bool-cases (constraint_bounded constraint)) [
      | inl bounded ↦
          rw (parsed, bounded)
            (check_clauses-is_limit lib v parts (
              omega (
                arith,
                constraint_bounded-text_len constraint bounded,
                length-split_codes 44 (codes constraint),
              )))
      | inr not_bounded ↦ rw (parsed, not_bounded) refl
    ]
