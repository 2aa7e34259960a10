-- ===== src/RoleTools/JsonSize/Limit.antt =====
-- `bounded_stable_json_size` against the size of the whole text.
use jarvis.Prelude.{
  ℕ, ◌+◌, ◌≤◌, ◌≡◌, Bool, true, false, if◌then◌else◌, leb, not, all, ◌&&◌, List, [], ◌∷◌, String,
  codes, arith, and_parts,
}
use mathlib.Core.Path.{subst}
use jarvis.Json.{
  Value, Elements, Members, obj, arr, str, int, float, bool, null, no_element, element, no_member,
  member,
}
use jarvis.Result.{Result, err, ok, ◌>>=◌}
use jarvis.RoleTools.JsonSize.{
  is_surrogate, has_utf8, SizeError, overflow, int_size, char_size, add, add_chars, add_string,
  visit, visit_elements, visit_members, chars_size, json_size, elements_size, members_size,
  is_sizable, sizable_elements, sizable_members,
}

-- A total that is within the limit, or else the error.
abbrev within : (max_bytes total : ℕ) → Result SizeError ℕ
within max_bytes total = if leb total max_bytes then ok total else err overflow

abbrev Adds : (max_bytes size : ℕ) → (ℕ → Result SizeError ℕ) → Type 0
Adds max_bytes size f = (total : ℕ) → total ≤ max_bytes → f total ≡ within max_bytes (total + size)

module _ (max_bytes : ℕ) where
  add-Adds : (size : ℕ) → Adds max_bytes size (add max_bytes size)
  unfolding add
  add-Adds size total h = ground arith

  Adds-seq :
      (m n : ℕ) (f g : ℕ → Result SizeError ℕ)
      → Adds max_bytes m f
      → Adds max_bytes n g
      → Adds max_bytes (m + n) (λ total. f total >>= g)
  Adds-seq m n f g hf hg total h = ground (arith, hf total h, hg (total + m))

  add_chars-Adds :
      (cs : List ℕ)
      → all (λ c. not (is_surrogate c)) cs ≡ true
      → Adds max_bytes (chars_size cs) (add_chars max_bytes cs)
  unfolding add_chars
  add_chars-Adds [] h = λ total le. ground arith
  add_chars-Adds (c ∷ cs) h =
      let (here, later) = and_parts (not (is_surrogate c)) (all (λ c. not (is_surrogate c)) cs) h in
      let plain : is_surrogate c ≡ false = ground (arith, here) in
      rw plain (
        Adds-seq (char_size c) (chars_size cs) (add max_bytes (char_size c))
          (add_chars max_bytes cs) (add-Adds (char_size c)) (add_chars-Adds cs later))

  add_string-Adds :
      (s : String)
      → has_utf8 s ≡ true
      → Adds max_bytes (2 + chars_size (codes s)) (add_string max_bytes s)
  unfolding add_string
  add_string-Adds s h =
      Adds-seq 2 (chars_size (codes s)) (add max_bytes 2) (add_chars max_bytes (codes s))
        (add-Adds 2) (add_chars-Adds (codes s) h)

  comma-Adds :
      (first : Bool)
      → Adds max_bytes
          (if first then 0 else 1)
          (λ total. if first then ok total else add max_bytes 1 total)
  unfolding add
  comma-Adds first total h = ground arith

module _ (max_bytes : ℕ) where
  Adds-eq : (m n : ℕ) (f : ℕ → Result SizeError ℕ) → m ≡ n → Adds max_bytes m f → Adds max_bytes n f
  Adds-eq m n f e h = subst (λ k. Adds max_bytes k f) e h

  bracketed :
      (n : ℕ) (f : ℕ → Result SizeError ℕ)
      → Adds max_bytes n f
      → Adds max_bytes (2 + n) (λ total. add max_bytes 1 total >>= f >>= add max_bytes 1)
  bracketed n f h =
      Adds-eq (1 + n + 1) (2 + n) (λ total. add max_bytes 1 total >>= f >>= add max_bytes 1)
        (omega arith)
        (Adds-seq max_bytes (1 + n) 1 (λ total. add max_bytes 1 total >>= f) (add max_bytes 1)
          (Adds-seq max_bytes 1 n (add max_bytes 1) f (add-Adds max_bytes 1) h)
          (add-Adds max_bytes 1))

  key-Adds :
      (first : Bool) (key : String)
      → has_utf8 key ≡ true
      → Adds max_bytes ((if first then 0 else 1) + (3 + chars_size (codes key))) (λ t.
        (if first then ok t else add max_bytes 1 t)
        >>= add_string max_bytes key
        >>= add max_bytes 1)
  key-Adds first key h =
      let comma : ℕ = if first then 0 else 1 in
      Adds-eq (comma + (2 + chars_size (codes key)) + 1) (comma + (3 + chars_size (codes key)))
        (λ t.
          (if first then ok t else add max_bytes 1 t)
          >>= add_string max_bytes key
          >>= add max_bytes 1)
        (omega arith)
        (Adds-seq max_bytes (comma + (2 + chars_size (codes key))) 1
          (λ t. (if first then ok t else add max_bytes 1 t) >>= add_string max_bytes key)
          (add max_bytes 1)
          (Adds-seq max_bytes comma (2 + chars_size (codes key))
            (λ t. if first then ok t else add max_bytes 1 t) (add_string max_bytes key)
            (comma-Adds max_bytes first) (add_string-Adds max_bytes key h))
          (add-Adds max_bytes 1))

module _ (float_size : ℕ → ℕ) (max_bytes : ℕ) where
  mutual
    unfolding visit

    visit-Adds :
        (v : Value)
        → is_sizable v ≡ true
        → Adds max_bytes (json_size float_size v) (visit float_size max_bytes v)
    visit-Adds null h = add-Adds max_bytes 4
    visit-Adds (bool b) h = add-Adds max_bytes (if b then 4 else 5)
    visit-Adds (str s) h = add_string-Adds max_bytes s h
    visit-Adds (int n) h = λ total le. ground (arith, h, add-Adds max_bytes (int_size n) total le)
    visit-Adds (float bits) h =
        λ total le. ground (arith, h, add-Adds max_bytes (float_size bits) total le)
    visit-Adds (obj members) h = λ total le.
        bracketed max_bytes (members_size float_size members true)
          (visit_members float_size max_bytes members true) (members-Adds members true h) total le
    visit-Adds (arr elements) h = λ total le.
        bracketed max_bytes (elements_size float_size elements true)
          (visit_elements float_size max_bytes elements true) (elements-Adds elements true h) total
          le

    elements-Adds :
        (elements : Elements) (first : Bool)
        → sizable_elements elements ≡ true
        → Adds max_bytes
            (elements_size float_size elements first)
            (visit_elements float_size max_bytes elements first)
    elements-Adds no_element first h = λ total le. ground arith
    elements-Adds (element v elements) first h = λ total le.
        let (here, later) = and_parts (is_sizable v) (sizable_elements elements) h in
        Adds-seq max_bytes ((if first then 0 else 1) + json_size float_size v)
          (elements_size float_size elements false)
          (λ t. (if first then ok t else add max_bytes 1 t) >>= visit float_size max_bytes v)
          (visit_elements float_size max_bytes elements false)
          (Adds-seq max_bytes (if first then 0 else 1) (json_size float_size v)
            (λ t. if first then ok t else add max_bytes 1 t) (visit float_size max_bytes v)
            (comma-Adds max_bytes first) (visit-Adds v here))
          (elements-Adds elements false later) total le

    members-Adds :
        (members : Members) (first : Bool)
        → sizable_members members ≡ true
        → Adds max_bytes
            (members_size float_size members first)
            (visit_members float_size max_bytes members first)
    members-Adds no_member first h = λ total le. ground arith
    members-Adds (member key v members) first h = λ total le.
        let (named, inside) =
          and_parts (has_utf8 key) (is_sizable v && sizable_members members) h in
        let (here, later) = and_parts (is_sizable v) (sizable_members members) inside in
        Adds-seq max_bytes
          ((if first then 0 else 1) + (3 + chars_size (codes key)) + json_size float_size v)
          (members_size float_size members false)
          (λ t.
            (if first then ok t else add max_bytes 1 t)
            >>= add_string max_bytes key
            >>= add max_bytes 1
            >>= visit float_size max_bytes v)
          (visit_members float_size max_bytes members false)
          (Adds-seq max_bytes ((if first then 0 else 1) + (3 + chars_size (codes key)))
            (json_size float_size v)
            (λ t.
              (if first then ok t else add max_bytes 1 t)
              >>= add_string max_bytes key
              >>= add max_bytes 1)
            (visit float_size max_bytes v) (key-Adds max_bytes first key named) (visit-Adds v here))
          (members-Adds members false later) total le
