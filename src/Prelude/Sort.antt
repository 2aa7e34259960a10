-- ===== src/Prelude/Sort.antt =====
-- Python's `sorted`: a stable sort by a total comparison, as insertion from the right.
use Prim.Native.Nat.{suc, ◌+◌}
use Prim.Native.String.{String}
use mathlib.Core.Path.{◌≡◌, refl, ◌∙◌, ap}
use mathlib.Core.Bool.{Bool}
use mathlib.Core.List.{List, [], ◌∷◌}
use native.Mathlib.Omega.{arith}
use jarvis.Prelude.Tests.{if◌then◌else◌}
use jarvis.Prelude.Lists.{length}
use jarvis.Prelude.Text.{str_leb, str_eq, count}

module _ {ℓ} {A : Type ℓ} (leq : A → A → Bool) where
  unfoldable pub insert_by : A → List A → List A
  insert_by x [] = x ∷ []
  insert_by x (y ∷ ys) = if leq x y then x ∷ y ∷ ys else y ∷ insert_by x ys

  unfoldable pub sort_by : List A → List A
  unfolding insert_by
  sort_by [] = []
  sort_by (x ∷ xs) = insert_by x (sort_by xs)

  length-insert_by : (x : A) (xs : List A) → length (insert_by x xs) ≡ suc (length xs)
  unfolding insert_by
  length-insert_by x [] = refl
  length-insert_by x (y ∷ ys) = ground (arith, length-insert_by x ys)

  pub length-sort_by : (xs : List A) → length (sort_by xs) ≡ length xs
  unfolding sort_by
  length-sort_by [] = refl
  length-sort_by (x ∷ xs) = omega (arith, length-insert_by x (sort_by xs), length-sort_by xs)

-- sorted(xs) of texts
unfoldable pub sorted : List String → List String
unfolding sort_by
sorted = sort_by str_leb

count-insert :
    (x y : String) (ys : List String) → count x (insert_by str_leb y ys) ≡ count x (y ∷ ys)
unfolding insert_by
count-insert x y [] = refl
count-insert x y (z ∷ zs) = ground (arith, count-insert x y zs)

pub count-sorted : (x : String) (xs : List String) → count x (sorted xs) ≡ count x xs
unfolding sorted
count-sorted x [] = refl
count-sorted x (y ∷ ys) =
    count-insert x y (sort_by str_leb ys)
    ∙ ap (λ n. (if str_eq y x then 1 else 0) + n) (count-sorted x ys)

pub length-sorted : (xs : List String) → length (sorted xs) ≡ length xs
unfolding sorted
length-sorted xs = length-sort_by str_leb xs
