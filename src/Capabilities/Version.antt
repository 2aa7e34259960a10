-- ===== src/Capabilities/Version.antt =====
-- `_parse_version` and `evaluate_constraint`.
use jarvis.Prelude.{
  ℕ, ◌+◌, ◌*◌, Bool, true, false, not, ◌&&◌, ◌||◌, if◌then◌else◌, ltb, leb, ◌==◌, List, [], ◌∷◌,
  foldl, map, any, is_empty, length, Option, some, none, String, codes, text_len, is_space,
}
use mathlib.Core.List.{reverse}
use jarvis.Result.{Result, ok, err, ◌>>=◌}

-- What the resolver uses of the standard library: the value of a decimal digit (`\d`), str.casefold and
-- the matches of `[^\W_]+`.
pub record Library : Type 0 where
  pub digit_value : ℕ → Option ℕ
  pub casefold : String → String
  pub find_tokens : String → List String

-- A CapabilityValidationError by its code, and the ValueError of `int` for a text that is too long.
pub data CapabilityError : Type 0 where
  version_invalid constraint_invalid digit_limit capability_duplicate : CapabilityError

-- The tuple of four numbers.
pub record Version : Type 0 where
  pub part_0 : ℕ
  pub part_1 : ℕ
  pub part_2 : ℕ
  pub part_3 : ℕ

abbrev pub push_code : ℕ → List (List ℕ) → List (List ℕ)
push_code c [] = (c ∷ []) ∷ []
push_code c (part ∷ parts) = (c ∷ part) ∷ parts

-- value.split(separator)
abbrev pub split_codes : (separator : ℕ) → List ℕ → List (List ℕ)
split_codes separator [] = [] ∷ []
split_codes separator (c ∷ cs) =
    let rest = split_codes separator cs in if c == separator then [] ∷ rest else push_code c rest

abbrev pub drop_spaces : List ℕ → List ℕ
drop_spaces [] = []
drop_spaces (c ∷ cs) = if is_space c then drop_spaces cs else c ∷ cs

-- value.strip()
abbrev pub strip_codes : List ℕ → List ℕ
strip_codes cs = reverse (drop_spaces (reverse (drop_spaces cs)))

abbrev pub add_digit : Option ℕ → Option (List ℕ) → Option (List ℕ)
add_digit (some d) (some ds) = some (d ∷ ds)
add_digit _ _ = none

-- \d*
abbrev pub digits_of : Library → List ℕ → Option (List ℕ)
digits_of lib [] = some []
digits_of lib (c ∷ cs) = add_digit (lib.digit_value c) (digits_of lib cs)

abbrev pub add_part : Option (List ℕ) → Option (List (List ℕ)) → Option (List (List ℕ))
add_part (some part) (some parts) = if is_empty part then none else some (part ∷ parts)
add_part _ _ = none

-- The parts of a version, each \d+.
abbrev pub parts_of : Library → List (List ℕ) → Option (List (List ℕ))
parts_of lib [] = some []
parts_of lib (part ∷ parts) = add_part (digits_of lib part) (parts_of lib parts)

-- _VERSION_RE.fullmatch: the digits of at most four parts.
unfoldable pub version_digits : Library → List ℕ → Option (List (List ℕ))
version_digits lib value =
    let parts = split_codes 46 value in if leb (length parts) 4 then parts_of lib parts else none

-- int(part)
abbrev pub int_of : List ℕ → ℕ
int_of = foldl (λ number digit. 10 * number + digit) 0

abbrev pub max_digits : ℕ
max_digits = 4300

-- tuple(parts + [0] * (4 - len(parts))) for up to four parts
abbrev pub padded : List ℕ → Version
padded [] = record { part_0 = 0; part_1 = 0; part_2 = 0; part_3 = 0 }
padded (a ∷ []) = record { part_0 = a; part_1 = 0; part_2 = 0; part_3 = 0 }
padded (a ∷ b ∷ []) = record { part_0 = a; part_1 = b; part_2 = 0; part_3 = 0 }
padded (a ∷ b ∷ c ∷ []) = record { part_0 = a; part_1 = b; part_2 = c; part_3 = 0 }
padded (a ∷ b ∷ c ∷ d ∷ rest) = record { part_0 = a; part_1 = b; part_2 = c; part_3 = d }

abbrev pub version_of : List (List ℕ) → Result CapabilityError Version
version_of parts =
    let numbers = map int_of parts in
    if any (λ digits. ltb max_digits (length digits)) parts
    then err digit_limit
    else if any (λ number. ltb 999999 number) numbers
    then err version_invalid
    else ok (padded numbers)

abbrev pub read_version : Option (List (List ℕ)) → Result CapabilityError Version
read_version none = err version_invalid
read_version (some parts) = version_of parts

unfoldable pub parse_version : Library → List ℕ → Result CapabilityError Version
parse_version lib value = read_version (version_digits lib value)

pub data Operator : Type 0 where
  equals at_least at_most above below : Operator

abbrev pub version_eq : Version → Version → Bool
version_eq v w =
    v.part_0 == w.part_0 && v.part_1 == w.part_1 && v.part_2 == w.part_2 && v.part_3 == w.part_3

-- v < w, as Python compares tuples: by the first part that differs
abbrev pub version_lt : Version → Version → Bool
version_lt v w =
    ltb v.part_0 w.part_0
    || v.part_0 == w.part_0
      && (ltb v.part_1 w.part_1
          || v.part_1 == w.part_1
            && (ltb v.part_2 w.part_2 || v.part_2 == w.part_2 && ltb v.part_3 w.part_3))

-- comparisons[operator]
unfoldable pub compares : Operator → Version → Version → Bool
compares equals v w = version_eq v w
compares at_least v w = version_lt w v || version_eq v w
compares at_most v w = version_lt v w || version_eq v w
compares above v w = version_lt w v
compares below v w = version_lt v w

-- (>=|<=|==|>|<)? and what follows
abbrev pub read_operator : List ℕ → Operator × List ℕ
read_operator [] = (equals, [])
read_operator (c ∷ []) =
    if c == 62 then (above, []) else if c == 60 then (below, []) else (equals, c ∷ [])
read_operator (c ∷ d ∷ cs) =
    if c == 62 && d == 61
    then (at_least, cs)
    else if c == 60 && d == 61
    then (at_most, cs)
    else if c == 61 && d == 61
    then (equals, cs)
    else if c == 62
    then (above, d ∷ cs)
    else if c == 60
    then (below, d ∷ cs)
    else (equals, c ∷ d ∷ cs)

abbrev pub compare_with :
    Version → Operator → Result CapabilityError Version → Result CapabilityError Bool
compare_with actual operator (ok expected) = ok (compares operator actual expected)
compare_with actual operator (err e) = err e

abbrev pub matched_clause :
    Version → Operator → Option (List (List ℕ)) → Result CapabilityError Bool
matched_clause actual operator none = err constraint_invalid
matched_clause actual operator (some parts) = compare_with actual operator (version_of parts)

-- One clause of a constraint.
unfoldable pub check_clause : Library → Version → List ℕ → Result CapabilityError Bool
check_clause lib actual clause =
    let (operator, rest) = read_operator clause in
    matched_clause actual operator (version_digits lib rest)

-- The loop stops at the first clause that does not hold.
abbrev pub and_then :
    Result CapabilityError Bool → Result CapabilityError Bool → Result CapabilityError Bool
and_then (err e) rest = err e
and_then (ok false) rest = ok false
and_then (ok true) rest = rest

abbrev pub check_clauses : Library → Version → List (List ℕ) → Result CapabilityError Bool
check_clauses lib actual [] = ok true
check_clauses lib actual (clause ∷ clauses) =
    and_then (check_clause lib actual clause) (check_clauses lib actual clauses)

abbrev pub clauses_of : String → List (List ℕ)
clauses_of constraint = map strip_codes (split_codes 44 (codes constraint))

abbrev pub constraint_bounded : String → Bool
constraint_bounded constraint =
    let clauses = clauses_of constraint in
    not (text_len constraint == 0)
    && leb (text_len constraint) 256
    && leb (length clauses) 8
    && not (any is_empty clauses)

unfoldable pub evaluate_constraint : Library → String → String → Result CapabilityError Bool
evaluate_constraint lib actual_version constraint =
    parse_version lib (codes actual_version) >>= λ actual.
    if constraint_bounded constraint
    then check_clauses lib actual (clauses_of constraint)
    else err constraint_invalid
