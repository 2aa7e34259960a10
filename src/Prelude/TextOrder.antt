-- ===== src/Prelude/TextOrder.antt =====
-- The order of texts is total and transitive.
use Prim.Native.Nat.{ℕ, Ordering, compare as compare_ℕ}
use Prim.Native.Char.{Char, code}
use Prim.Native.String.{String, [], ◌∷◌, compare, then}
use Prim.Native.String.compare.{nil-cons, cons-nil, cons-cons}
use mathlib.Core.Path.{◌≡◌, refl, ap, ◌∙◌}
use mathlib.Core.Bool.{Bool, true, false, ◌||◌, ◌&&◌}
use native.Mathlib.Omega.{arith}
use jarvis.Prelude.Tests.{ltb, ◌==◌}
use jarvis.Prelude.Text.{str_leb}

abbrev is_le : Ordering → Bool
is_le Ordering.gt = false
is_le _ = true

then-is_le :
    (m n : ℕ) (o : Ordering) → is_le (then (compare_ℕ m n) o) ≡ (ltb m n || m == n && is_le o)
then-is_le m n o = ground arith

str_leb-cons :
    (c d : Char) (s t : String)
    → str_leb (c ∷ s) (d ∷ t) ≡ (ltb (code c) (code d) || code c == code d && str_leb s t)
str_leb-cons c d s t =
    ap is_le (λ i. cons-cons c d s t i) ∙ then-is_le (code c) (code d) (compare s t)

str_leb-nil : (t : String) → str_leb [] t ≡ true
str_leb-nil [] = refl
str_leb-nil (d ∷ t) = ap is_le (λ i. nil-cons d t i)

str_leb-cons-nil : (c : Char) (s : String) → str_leb (c ∷ s) [] ≡ false
str_leb-cons-nil c s = ap is_le (λ i. cons-nil c s i)

pub str_leb-total : (s t : String) → str_leb s t ≡ false → str_leb t s ≡ true
str_leb-total s [] h = str_leb-nil s
str_leb-total [] (d ∷ t) h = absurd (ground (arith, h, str_leb-nil (d ∷ t)))
str_leb-total (c ∷ s) (d ∷ t) h =
    ground (arith, h, str_leb-cons c d s t, str_leb-cons d c t s, str_leb-total s t)

pub str_leb_trans : (s t u : String) → str_leb s t ≡ true → str_leb t u ≡ true → str_leb s u ≡ true
str_leb_trans [] t u h k = str_leb-nil u
str_leb_trans (c ∷ s) [] u h k = absurd (ground (arith, h, str_leb-cons-nil c s))
str_leb_trans (c ∷ s) (d ∷ t) [] h k = absurd (ground (arith, k, str_leb-cons-nil d t))
str_leb_trans (c ∷ s) (d ∷ t) (e ∷ u) h k = ground (
  arith,
  h,
  k,
  str_leb-cons c d s t,
  str_leb-cons d e t u,
  str_leb-cons c e s u,
  str_leb_trans s t u,
)
