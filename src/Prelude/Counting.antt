-- ===== src/Prelude/Counting.antt =====
-- Lists of texts compared by how often each text stands in them.
use Prim.Native.Nat.{suc, ◌+◌, ◌≤◌, ◌<◌}
use Prim.Native.String.{String}
use mathlib.Core.Path.{◌≡◌}
use mathlib.Core.List.{List, [], ◌∷◌}
use native.Mathlib.Omega.{arith}
use native.Mathlib.Decide.{dec_lt}
use text.Mathlib.TextEquality.{eq_iff}
use jarvis.Prelude.Tests.{if◌then◌else◌}
use jarvis.Prelude.Lists.{length}
use jarvis.Prelude.Text.{str_eq, count}

erase : String → List String → List String
erase x [] = []
erase x (y ∷ ys) = if str_eq y x then ys else y ∷ erase x ys

length-erase :
    (x : String) (ys : List String) → 0 < count x ys → length ys ≡ suc (length (erase x ys))
unfolding erase
length-erase x [] h = ground arith
length-erase x (y ∷ ys) h = ground (arith, length-erase x ys)

count-erase :
    (v x : String) (ys : List String)
    → count v ys ≤ count v (erase x ys) + (if str_eq x v then 1 else 0)
unfolding erase
count-erase v x [] = omega arith
count-erase v x (y ∷ ys) = ground (arith, eq_iff y x, eq_iff y v, eq_iff x v, count-erase v x ys)

-- A list that holds each text at most as often as another is at most as long.
pub count_le→length_le :
    (xs ys : List String) → ((v : String) → count v xs ≤ count v ys) → length xs ≤ length ys
count_le→length_le [] ys h = omega arith
count_le→length_le (x ∷ xs) ys h =
    let here : 0 < count x ys = ground (arith, h x, eq_iff x x) in
    omega (
      arith,
      length-erase x ys here,
      count_le→length_le xs (erase x ys) (λ v. ground (arith, h v, count-erase v x ys)),
    )

-- If it is as long too, it holds each text equally often.
pub count_eq_of_length :
    (xs ys : List String)
    → ((v : String) → count v xs ≤ count v ys)
    → length ys ≤ length xs
    → (v : String) → count v xs ≡ count v ys
count_eq_of_length xs ys h len v = elim (dec_lt (count v xs) (count v ys)) [
  | yes less ↦
      absurd
        (omega (arith, count_le→length_le (v ∷ xs) ys (λ w. ground (arith, h w, eq_iff v w, less))))
  | no ge ↦ omega (arith, h v)
]
