-- ===== src/EventBus/Subscriptions.antt =====
-- Who is subscribed: how often an id stands in the table, before and after each operation.
use jarvis.Prelude.{
  ℕ, ◌+◌, ◌≤◌, String, ◌≡◌, refl, true, false, not, ◌&&◌, List, [], ◌∷◌, ◌++◌, arith, if◌then◌else◌,
  str_eq, eq_iff, ltb, ◌==◌, length, select, is_empty, Bool-cases, inl, inr,
}
use jarvis.Json.{int, pos}
use jarvis.EventBus.{Subscriber, Table, add_sub, has_id, remove_sub, subs_of, retain}

abbrev pub count_id : ℕ → List Subscriber → ℕ
count_id i [] = 0
count_id i (s ∷ subs) = (if s.id == i then 1 else 0) + count_id i subs

abbrev pub count_once : ℕ → List Subscriber → ℕ
count_once i [] = 0
count_once i (s ∷ subs) = (if s.id == i && s.once then 1 else 0) + count_once i subs

-- How many subscriptions have the id `i`.
abbrev pub subscribed : ℕ → Table → ℕ
subscribed i [] = 0
subscribed i ((u, subs) ∷ table) = count_id i subs + subscribed i table

-- No entry of the table is empty.
abbrev pub NoneEmpty : Table → Type 0
NoneEmpty [] = Unit
NoneEmpty ((u, subs) ∷ table) = (is_empty subs ≡ false) × NoneEmpty table

pub count_id-append :
    (i : ℕ) (xs ys : List Subscriber) → count_id i (xs ++ ys) ≡ count_id i xs + count_id i ys
count_id-append i [] ys = omega arith
count_id-append i (x ∷ xs) ys = omega (arith, count_id-append i xs ys)

pub count_once-append :
    (i : ℕ) (xs ys : List Subscriber) → count_once i (xs ++ ys) ≡ count_once i xs + count_once i ys
count_once-append i [] ys = omega arith
count_once-append i (x ∷ xs) ys = omega (arith, count_once-append i xs ys)

pub add_sub-subscribed :
    (i : ℕ) (t : String) (s : Subscriber) (table : Table)
    → subscribed i (add_sub t s table) ≡ subscribed i table + (if s.id == i then 1 else 0)
unfolding add_sub
add_sub-subscribed i t s [] = ground arith
add_sub-subscribed i t s ((u, subs) ∷ table) =
    ground (arith, add_sub-subscribed i t s table, count_id-append i subs (s ∷ []))

pub add_sub-NoneEmpty :
    (t : String) (s : Subscriber) (table : Table) → NoneEmpty table → NoneEmpty (add_sub t s table)
unfolding add_sub
add_sub-NoneEmpty t s [] h = (refl, tt)
add_sub-NoneEmpty t s ((u, []) ∷ table) h = absurd (ground arith)
add_sub-NoneEmpty t s ((u, x ∷ subs) ∷ table) h = elim (Bool-cases (str_eq u t)) [
  | inl e ↦ rw e (refl, h.1)
  | inr e ↦ rw e (refl, add_sub-NoneEmpty t s table h.1)
]

abbrev others : ℕ → List Subscriber → List Subscriber
others n subs = select (λ s. not (has_id (int (pos n)) s)) subs

count_id-others :
    (i n : ℕ) (subs : List Subscriber)
    → count_id i (others n subs) ≡ (if n == i then 0 else count_id i subs)
count_id-others i n [] = ground arith
count_id-others i n (s ∷ subs) = ground (arith, count_id-others i n subs)

length-others :
    (n : ℕ) (subs : List Subscriber) → length (others n subs) + count_id n subs ≡ length subs
length-others n [] = refl
length-others n (s ∷ subs) = ground (arith, length-others n subs)

empty_count : (i : ℕ) (subs : List Subscriber) → is_empty subs ≡ true → count_id i subs ≡ 0
empty_count i [] h = refl
empty_count i (s ∷ subs) h = cc

pub remove_sub-subscribed :
    (i n : ℕ) (table : Table)
    → subscribed i (remove_sub (int (pos n)) table).0 ≡ (if n == i then 0 else subscribed i table)
unfolding remove_sub
remove_sub-subscribed i n [] = ground arith
remove_sub-subscribed i n ((u, subs) ∷ table) = ground (
  arith,
  remove_sub-subscribed i n table,
  count_id-others i n subs,
  empty_count i (others n subs),
)

pub remove_sub-removed :
    (n : ℕ) (table : Table) → (remove_sub (int (pos n)) table).1 ≡ ltb 0 (subscribed n table)
unfolding remove_sub
remove_sub-removed n [] = refl
remove_sub-removed n ((u, subs) ∷ table) =
    ground (arith, remove_sub-removed n table, length-others n subs)

pub remove_sub-NoneEmpty : (n : ℕ) (table : Table) → NoneEmpty (remove_sub (int (pos n)) table).0
unfolding remove_sub
remove_sub-NoneEmpty n [] = tt
remove_sub-NoneEmpty n ((u, subs) ∷ table) = elim (Bool-cases (is_empty (others n subs))) [
  | inl e ↦ rw e (remove_sub-NoneEmpty n table)
  | inr e ↦ rw e (e, remove_sub-NoneEmpty n table)
]

count_id-lasting :
    (i : ℕ) (subs : List Subscriber)
    → count_id i (select (λ s. not s.once) subs) + count_once i subs ≡ count_id i subs
count_id-lasting i [] = refl
count_id-lasting i (s ∷ subs) = ground (arith, count_id-lasting i subs)

pub retain-subscribed :
    (i : ℕ) (t : String) (table : Table)
    → subscribed i (retain t table) + count_once i (subs_of t table) ≡ subscribed i table
unfolding retain subs_of
retain-subscribed i t [] = refl
retain-subscribed i t ((u, subs) ∷ table) = ground (
  arith,
  retain-subscribed i t table,
  count_id-lasting i subs,
  empty_count i (select (λ s. not s.once) subs),
)

pub retain-NoneEmpty : (t : String) (table : Table) → NoneEmpty table → NoneEmpty (retain t table)
unfolding retain
retain-NoneEmpty t [] h = tt
retain-NoneEmpty t ((u, subs) ∷ table) h = elim (Bool-cases (str_eq u t)) [
  | inl e ↦ elim (Bool-cases (is_empty (select (λ s. not s.once) subs))) [
    | inl gone ↦ rw (e, gone) h.1
    | inr kept ↦ rw (e, kept) (kept, h.1)
  ]
  | inr e ↦ rw e (h.0, retain-NoneEmpty t table h.1)
]

-- Another event type's subscribers stay.
pub subs_of-retain :
    (t u : String) (table : Table)
    → str_eq t u ≡ false
    → subs_of u (retain t table) ≡ subs_of u table
unfolding retain subs_of
subs_of-retain t u [] h = refl
subs_of-retain t u ((v, subs) ∷ table) h =
    ground (arith, eq_iff v t, eq_iff v u, eq_iff t u, subs_of-retain t u table)

pub count_subs_of_le :
    (i : ℕ) (t : String) (table : Table) → count_id i (subs_of t table) ≤ subscribed i table
unfolding subs_of
count_subs_of_le i t [] = omega arith
count_subs_of_le i t ((v, subs) ∷ table) = ground (arith, count_subs_of_le i t table)

pub count_two_subs_of_le :
    (i : ℕ) (t u : String) (table : Table)
    → str_eq t u ≡ false
    → count_id i (subs_of t table) + count_id i (subs_of u table) ≤ subscribed i table
unfolding subs_of
count_two_subs_of_le i t u [] h = omega arith
count_two_subs_of_le i t u ((v, subs) ∷ table) h = ground (
  arith,
  eq_iff v t,
  eq_iff v u,
  eq_iff t u,
  count_two_subs_of_le i t u table,
  count_subs_of_le i t table,
  count_subs_of_le i u table,
)
