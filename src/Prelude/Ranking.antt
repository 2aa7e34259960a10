-- ===== src/Prelude/Ranking.antt =====
-- What a sorted list is, that `sort_by` answers one, and what its first elements are.
use Prim.Native.Nat.{ℕ, zero, suc, min}
use mathlib.Core.Path.{◌≡◌, subst, sym, ◌∙◌, ap}
use mathlib.Core.Logic.{inl, inr}
use mathlib.Core.Bool.{Bool, true, false}
use mathlib.Core.List.Perm
use mathlib.Core.List.{List, [], ◌∷◌, ◌++◌, Perm}
use jarvis.Prelude.Tests.{Bool-cases}
use jarvis.Prelude.Lists.{length, take, drop, All, length-take, take-append-drop}
use jarvis.Prelude.Sort.{insert_by, sort_by, length-sort_by}

module _ {ℓ κ} {A : Type ℓ} {P Q : A → Type κ} where
  pub All-map : (xs : List A) → ((x : A) → P x → Q x) → All P xs → All Q xs
  All-map [] f h = h
  All-map (x ∷ xs) f (p, h) = (f x p, All-map xs f h)

pub All-take {ℓ κ} :
    {A : Type ℓ} (P : A → Type κ) (n : ℕ) (xs : List A)
    → All P xs
    → All P (take n xs) × All P (drop n xs)
All-take P zero xs h = (tt, h)
All-take P (suc n) [] h = (tt, tt)
All-take P (suc n) (x ∷ xs) (p, h) = let (kept, others) = All-take P n xs h in ((p, kept), others)

module _ {ℓ} {A : Type ℓ} (leq : A → A → Bool) where
  -- No element of a list is below `x`.
  abbrev pub Below : A → List A → Type 0
  Below x xs = All (λ y. leq x y ≡ true) xs

  abbrev pub IsSorted : List A → Type 0
  IsSorted [] = Unit
  IsSorted (x ∷ xs) = Below x xs × IsSorted xs

  -- The first `n` elements of `xs`, in their order; the others are not below any of them.
  abbrev pub IsTop : (n : ℕ) → List A → List A → Type ℓ
  IsTop n xs top =
      (rest : List A) × (Perm (top ++ rest) xs)
      × (IsSorted top)
      × (All (λ x. Below x rest) top)
      × (length top ≡ min n (length xs))

module _ {ℓ} {A : Type ℓ} (leq : A → A → Bool)
    (total : (x y : A) → leq x y ≡ false → leq y x ≡ true)
    (trans : (x y z : A) → leq x y ≡ true → leq y z ≡ true → leq x z ≡ true) where
  Below-insert_by :
      (x y : A) (xs : List A) → leq x y ≡ true → Below leq x xs → Below leq x (insert_by leq y xs)
  unfolding insert_by
  Below-insert_by x y [] h b = (h, b)
  Below-insert_by x y (z ∷ zs) h (b, bs) = elim (Bool-cases (leq y z)) [
    | inl front ↦ rw front (h, (b, bs))
    | inr behind ↦ rw behind (b, Below-insert_by x y zs h bs)
  ]

  IsSorted-insert_by : (x : A) (xs : List A) → IsSorted leq xs → IsSorted leq (insert_by leq x xs)
  unfolding insert_by
  IsSorted-insert_by x [] s = (tt, tt)
  IsSorted-insert_by x (y ∷ ys) (b, s) = elim (Bool-cases (leq x y)) [
    | inl front ↦ rw front ((front, All-map ys (λ z. trans x y z front) b), (b, s))
    | inr behind ↦
        rw behind (Below-insert_by y x ys (total x y behind) b, IsSorted-insert_by x ys s)
  ]

  pub IsSorted-sort_by : (xs : List A) → IsSorted leq (sort_by leq xs)
  unfolding sort_by
  IsSorted-sort_by [] = tt
  IsSorted-sort_by (x ∷ xs) = IsSorted-insert_by x (sort_by leq xs) (IsSorted-sort_by xs)

module _ {ℓ} {A : Type ℓ} (leq : A → A → Bool) where
  Perm-insert_by : (x : A) (xs : List A) → Perm (insert_by leq x xs) (x ∷ xs)
  unfolding insert_by
  Perm-insert_by x [] = Perm.rfl
  Perm-insert_by x (y ∷ ys) = elim (Bool-cases (leq x y)) [
    | inl front ↦ rw front Perm.rfl
    | inr behind ↦ rw behind (Perm.trans (Perm.cons y (Perm-insert_by x ys)) (Perm.swap x y ys))
  ]

  pub Perm-sort_by : (xs : List A) → Perm (sort_by leq xs) xs
  unfolding sort_by
  Perm-sort_by [] = Perm.rfl
  Perm-sort_by (x ∷ xs) =
      Perm.trans (Perm-insert_by x (sort_by leq xs)) (Perm.cons x (Perm-sort_by xs))

  IsSorted-take :
      (n : ℕ) (xs : List A)
      → IsSorted leq xs
      → IsSorted leq (take n xs) × All (λ x. Below leq x (drop n xs)) (take n xs)
  IsSorted-take zero xs s = (tt, tt)
  IsSorted-take (suc n) [] s = (tt, tt)
  IsSorted-take (suc n) (x ∷ xs) (b, s) =
      let (kept, others) = All-take (λ y. leq x y ≡ true) n xs b in
      let (sorted, above) = IsSorted-take n xs s in ((kept, sorted), (others, above))

-- sorted(xs, ...)[:n]
pub IsTop-take-sort_by {ℓ} :
    {A : Type ℓ} (leq : A → A → Bool)
    → ((x y : A) → leq x y ≡ false → leq y x ≡ true)
    → ((x y z : A) → leq x y ≡ true → leq y z ≡ true → leq x z ≡ true)
    → (n : ℕ) (xs : List A) → IsTop leq n xs (take n (sort_by leq xs))
IsTop-take-sort_by leq total trans n xs =
    let ranked = sort_by leq xs in
    let (sorted, above) = IsSorted-take leq n ranked (IsSorted-sort_by leq total trans xs) in
    (
      drop n ranked,
      subst (λ l. Perm l xs) (sym (take-append-drop n ranked)) (Perm-sort_by leq xs),
      sorted,
      above,
      length-take n ranked ∙ ap (min n) (length-sort_by leq xs),
    )
