-- ===== src/RoleTools/JsonSize.antt =====
-- `bounded_stable_json_size`: the size of the canonical JSON text, given up at a limit.
pub mod Limit
use jarvis.Prelude.{
  ℕ, zero, suc, ◌+◌, ◌/◌, ◌%◌, ◌^◌, ◌≤◌, ◌≡◌, Bool, true, false, not, ◌&&◌, ◌||◌, if◌then◌else◌,
  leb, ltb, ◌==◌, all, List, [], ◌∷◌, String, codes, arith, and_parts,
}
use mathlib.Core.Path.{subst}
use jarvis.Json.{
  ℤ, pos, negsuc, Value, Elements, Members, obj, arr, str, int, float, bool, null, no_element,
  element, no_member, member,
}
use jarvis.Result.{Result, err, ok, ◌>>=◌}

-- `value_error` is any ValueError but the first: an int with more digits than `str` writes, or a lone
-- surrogate, which has no UTF-8. The depth at which Python's recursion ends is no bound here.
pub data SizeError : Type 0 where
  overflow not_finite value_error : SizeError

-- The digits of a number: `fuel` is a bound on how many there are.
abbrev pub digit_count : (fuel : ℕ) → ℕ → ℕ
digit_count zero n = 1
digit_count (suc fuel) n =
    let rest = suc (digit_count fuel (n / 10)) in if ltb n 10 then 1 else rest

-- len(str(n))
abbrev pub int_size : ℤ → ℕ
int_size (pos n) = digit_count n n
int_size (negsuc n) = suc (digit_count (suc n) (suc n))

-- sys.int_info.default_max_str_digits
abbrev pub max_str_digits : ℕ
max_str_digits = 4300

-- The digits of the number, without its sign.
abbrev pub digits_of : ℤ → ℕ
digits_of (pos n) = digit_count n n
digits_of (negsuc n) = digit_count (suc n) (suc n)

-- `str(n)` raises.
abbrev pub is_long : ℤ → Bool
is_long n = ltb max_str_digits (digits_of n)

-- math.isfinite of the number with these 64 bits.
abbrev pub is_finite : ℕ → Bool
is_finite bits = not (bits / 2 ^ 52 % 2 ^ 11 == 2047)

-- A lone surrogate.
abbrev pub is_surrogate : ℕ → Bool
is_surrogate c = leb 55296 c && leb c 57343

-- The bytes that the JSON text has for a character that is no surrogate.
abbrev pub char_size : ℕ → ℕ
char_size c =
    if c == 34 || c == 92 || c == 8 || c == 9 || c == 10 || c == 12 || c == 13
    then 2
    else if ltb c 32
    then 6
    else if ltb c 128
    then 1
    else if ltb c 2048
    then 2
    else if ltb c 65536
    then 3
    else 4

module _ (max_bytes : ℕ) where
  -- `add`: the new total.
  unfoldable pub add : ℕ → ℕ → Result SizeError ℕ
  add size total = if ltb max_bytes (total + size) then err overflow else ok (total + size)

  unfoldable pub add_chars : List ℕ → ℕ → Result SizeError ℕ
  add_chars [] total = ok total
  add_chars (c ∷ cs) total =
      (if is_surrogate c then err value_error else add (char_size c) total) >>= add_chars cs

  unfoldable pub add_string : String → ℕ → Result SizeError ℕ
  add_string s total = add 2 total >>= add_chars (codes s)

-- `float_size` is the length of json.dumps of a finite float.
module _ (float_size : ℕ → ℕ) (max_bytes : ℕ) where
  unfoldable mutual
    pub visit : Value → ℕ → Result SizeError ℕ
    visit null total = add max_bytes 4 total
    visit (bool b) total = add max_bytes (if b then 4 else 5) total
    visit (str s) total = add_string max_bytes s total
    visit (int n) total = if is_long n then err value_error else add max_bytes (int_size n) total
    visit (float bits) total =
        if not (is_finite bits) then err not_finite else add max_bytes (float_size bits) total
    visit (obj members) total =
        add max_bytes 1 total >>= visit_members members true >>= add max_bytes 1
    visit (arr elements) total =
        add max_bytes 1 total >>= visit_elements elements true >>= add max_bytes 1

    -- `first` tells whether the index is 0.
    pub visit_elements : Elements → (first : Bool) → ℕ → Result SizeError ℕ
    visit_elements no_element first total = ok total
    visit_elements (element v elements) first total =
        (if first then ok total else add max_bytes 1 total)
        >>= visit v
        >>= visit_elements elements false

    pub visit_members : Members → (first : Bool) → ℕ → Result SizeError ℕ
    visit_members no_member first total = ok total
    visit_members (member key v members) first total =
        (if first then ok total else add max_bytes 1 total)
        >>= add_string max_bytes key
        >>= add max_bytes 1
        >>= visit v
        >>= visit_members members false

  unfoldable pub bounded_stable_json_size : Value → Result SizeError ℕ
  bounded_stable_json_size v = visit v 0

-- The size of the whole text: no limit, and no running total.
abbrev pub chars_size : List ℕ → ℕ
chars_size [] = 0
chars_size (c ∷ cs) = char_size c + chars_size cs

module _ (float_size : ℕ → ℕ) where
  abbrev mutual
    pub json_size : Value → ℕ
    json_size null = 4
    json_size (bool b) = if b then 4 else 5
    json_size (str s) = 2 + chars_size (codes s)
    json_size (int n) = int_size n
    json_size (float bits) = float_size bits
    json_size (obj members) = 2 + members_size members true
    json_size (arr elements) = 2 + elements_size elements true

    pub elements_size : Elements → (first : Bool) → ℕ
    elements_size no_element first = 0
    elements_size (element v elements) first =
        (if first then 0 else 1) + json_size v + elements_size elements false

    pub members_size : Members → (first : Bool) → ℕ
    members_size no_member first = 0
    members_size (member key v members) first =
        (if first then 0 else 1)
        + (3 + chars_size (codes key))
        + json_size v
        + members_size members false

abbrev mutual
  -- It holds no number that is not finite.
  pub require_json : Value → Bool
  require_json (float bits) = is_finite bits
  require_json (obj members) = require_members members
  require_json (arr elements) = require_elements elements
  require_json _ = true

  pub require_elements : Elements → Bool
  require_elements no_element = true
  require_elements (element v elements) = require_json v && require_elements elements

  pub require_members : Members → Bool
  require_members no_member = true
  require_members (member key v members) = require_json v && require_members members

abbrev pub has_utf8 : String → Bool
has_utf8 s = all (λ c. not (is_surrogate c)) (codes s)

abbrev mutual
  -- Its numbers are finite and have a text, and its texts have UTF-8.
  pub is_sizable : Value → Bool
  is_sizable (float bits) = is_finite bits
  is_sizable (int n) = not (is_long n)
  is_sizable (str s) = has_utf8 s
  is_sizable (obj members) = sizable_members members
  is_sizable (arr elements) = sizable_elements elements
  is_sizable _ = true

  pub sizable_elements : Elements → Bool
  sizable_elements no_element = true
  sizable_elements (element v elements) = is_sizable v && sizable_elements elements

  pub sizable_members : Members → Bool
  sizable_members no_member = true
  sizable_members (member key v members) = has_utf8 key && (is_sizable v && sizable_members members)
