-- ===== src/Prelude/Text.antt =====
-- Whole texts: their order, as Python compares them (by code points), and how often a text
-- stands in a list.
use Prim.Native.Nat.{ℕ, ◌+◌, ◌<◌, Ordering}
use Prim.Native.Char.{Char, code}
use Prim.Native.String.{String, compare}
use mathlib.Core.Path.{◌≡◌, refl}
use mathlib.Core.Bool.{Bool, true, false, ◌||◌, ◌&&◌}
use mathlib.Core.List.{List, [], ◌∷◌, ◌++◌}
use native.Mathlib.Omega.{arith}
use mathlib.Core.Logic.{inl, inr}
use jarvis.Prelude.Tests.{if◌then◌else◌, leb, ◌==◌, Bool-cases}
use text.Mathlib.TextEquality.{eq_iff}
use jarvis.Prelude.Lists.{length, all, any}
pub use text.Mathlib.Text.{◌==◌ as str_eq}

-- s <= t
abbrev pub str_leb : String → String → Bool
str_leb s t = elim (compare s t) [ Ordering.gt ↦ false | _ ↦ true ]

-- x in xs
abbrev pub elem : String → List String → Bool
elem x [] = false
elem x (y ∷ ys) = str_eq y x || elem x ys

-- How often `x` stands in a list.
abbrev pub count : String → List String → ℕ
count x [] = 0
count x (y ∷ ys) = (if str_eq y x then 1 else 0) + count x ys

pub count-append : (x : String) (xs ys : List String) → count x (xs ++ ys) ≡ count x xs + count x ys
count-append x [] ys = omega arith
count-append x (y ∷ xs) ys = omega (arith, count-append x xs ys)

pub elem→count : (x : String) (xs : List String) → elem x xs ≡ true → 0 < count x xs
elem→count x [] h = ground arith
elem→count x (y ∷ ys) h = ground (arith, elem→count x ys)

pub count→elem : (x : String) (xs : List String) → 0 < count x xs → elem x xs ≡ true
count→elem x [] h = ground arith
count→elem x (y ∷ ys) h = ground (arith, count→elem x ys)

-- The code points of a text.
abbrev pub codes : String → List ℕ
codes String.[] = []
codes (String.◌∷◌ c s) = code c ∷ codes s

abbrev pub text_len : String → ℕ
text_len s = length (codes s)

-- str.isspace of one character.
abbrev pub is_space : ℕ → Bool
is_space c =
    leb 9 c && leb c 13
    || leb 28 c && leb c 32
    || c == 133
    || c == 160
    || c == 5760
    || leb 8192 c && leb c 8202
    || c == 8232
    || c == 8233
    || c == 8239
    || c == 8287
    || c == 12288

pub lstrip : String → String
lstrip String.[] = String.[]
lstrip (String.◌∷◌ c s) = let rest = lstrip s in if is_space (code c) then rest else String.◌∷◌ c s

strip_end : Char → String → String
strip_end c String.[] = if is_space (code c) then String.[] else String.◌∷◌ c String.[]
strip_end c (String.◌∷◌ d s) = String.◌∷◌ c (String.◌∷◌ d s)

pub rstrip : String → String
unfolding strip_end
rstrip String.[] = String.[]
rstrip (String.◌∷◌ c s) = strip_end c (rstrip s)

-- s.strip()
unfoldable pub strip : String → String
unfolding lstrip rstrip
strip s = lstrip (rstrip s)

pub elem-append : (x : String) (xs ys : List String) → elem x (xs ++ ys) ≡ (elem x xs || elem x ys)
elem-append x [] ys = refl
elem-append x (y ∷ xs) ys = ground (arith, elem-append x xs ys)

pub all-elem :
    (p : String → Bool) (xs : List String) (x : String)
    → all p xs ≡ true
    → elem x xs ≡ true
    → p x ≡ true
all-elem p [] x h m = cc
all-elem p (y ∷ ys) x h m = ground (arith, eq_iff y x, all-elem p ys x)

pub all-intro :
    (p : String → Bool) (xs : List String)
    → ((x : String) → elem x xs ≡ true → p x ≡ true)
    → all p xs ≡ true
all-intro p [] h = refl
all-intro p (y ∷ ys) h = ground (arith, h y, eq_iff y y, all-intro p ys (λ x m. h x (ground arith)))

pub all-cong :
    (p q : String → Bool) (xs : List String)
    → ((x : String) → elem x xs ≡ true → p x ≡ q x)
    → all p xs ≡ all q xs
all-cong p q [] h = refl
all-cong p q (y ∷ ys) h =
    ground (arith, h y, eq_iff y y, all-cong p q ys (λ x m. h x (ground arith)))

pub any-false :
    (p : String → Bool) (xs : List String) (x : String)
    → any p xs ≡ false
    → elem x xs ≡ true
    → p x ≡ false
any-false p [] x h m = cc
any-false p (y ∷ ys) x h m = ground (arith, eq_iff y x, any-false p ys x)

pub any-true :
    (p : String → Bool) (xs : List String)
    → any p xs ≡ true
    → (x : String) × (elem x xs ≡ true) × (p x ≡ true)
any-true p [] h = cc
any-true p (y ∷ ys) h = elim (Bool-cases (p y)) [
  | inl now ↦ (y, ground (arith, eq_iff y y), now)
  | inr not_now ↦ let (x, m, e) = any-true p ys (ground arith) in (x, ground arith, e)
]
