-- ===== src/ContextBudget/Monitor.antt =====
-- `ContextBudgetMonitor`. The program's floats are a parameter.
use jarvis.Prelude.{
  ℕ, ◌≤◌, ◌<◌, ◌≡◌, ◌≢◌, refl, sym, Bool, true, false, Bool-cases, inl, inr, ◌⊎◌, ◌&&◌,
  if◌then◌else◌, List, [], ◌∷◌, Option, some, none, arith,
}
use mathlib.Core.Path.{subst}
use jarvis.ContextBudget.{ContextLevel, green, amber, orange, red, Snapshot, WatermarkChanged}

-- What the monitor uses of Python's floats: `a / b`, `a < b`, `a <= b`, 0 and 1. The laws are
-- those of IEEE 754: a correctly rounded quotient does not fall when the dividend grows.
pub record Floats : Type 1 where
  pub Float : Type 0
  pub zero_float : Float
  pub one_float : Float
  pub divide : ℕ → ℕ → Float
  pub lt_float : Float → Float → Bool
  pub le_float : Float → Float → Bool
  pub le_float_trans :
      (a b c : Float) → le_float a b ≡ true → le_float b c ≡ true → le_float a c ≡ true
  pub divide_mono :
      (a b total : ℕ) → a ≤ b → 0 < total → le_float (divide a total) (divide b total) ≡ true

pub record Monitor (f : Floats) : Type 0 where
  pub at_amber : f.Float
  pub at_orange : f.Float
  pub at_red : f.Float
  pub current : ContextLevel

abbrev pub level_rank : ContextLevel → ℕ
level_rank green = 0
level_rank amber = 1
level_rank orange = 2
level_rank red = 3

abbrev pub same_level : ContextLevel → ContextLevel → Bool
same_level green green = true
same_level amber amber = true
same_level orange orange = true
same_level red red = true
same_level _ _ = false

abbrev pub add_event : Option WatermarkChanged → List WatermarkChanged → List WatermarkChanged
add_event none events = events
add_event (some e) events = e ∷ events

module _ (f : Floats) where
  open f use {Float, zero_float, one_float, divide, lt_float, le_float, le_float_trans, divide_mono}

  -- `none` is the ValueError of `__init__`.
  unfoldable pub new_monitor : Float → Float → Float → Option (Monitor f)
  new_monitor a o r =
      if lt_float zero_float a && lt_float a o && lt_float o r && le_float r one_float
      then some (record { at_amber = a; at_orange = o; at_red = r; current = green })
      else none

  abbrev pub usage_ratio : Snapshot → Float
  usage_ratio s = divide s.used_tokens s.total_tokens

  unfoldable pub level_for : Monitor f → Snapshot → ContextLevel
  level_for m s =
      let ratio = usage_ratio s in
      if le_float m.at_red ratio
      then red
      else if le_float m.at_orange ratio
      then orange
      else if le_float m.at_amber ratio
      then amber
      else green

  unfoldable pub observe : Monitor f → Snapshot → Monitor f × Option WatermarkChanged
  observe m s =
      let level = level_for m s in
      if same_level level m.current then (m, none) else (
        record m { current = level },
        some (record { previous = m.current; current = level; snapshot = s }),
      )

  -- The monitor after a sequence of snapshots, and the events that it reported.
  abbrev pub observe_all : Monitor f → List Snapshot → Monitor f × List WatermarkChanged
  observe_all m [] = (m, [])
  observe_all m (s ∷ snapshots) =
      let seen = observe m s in
      let rest = observe_all seen.0 snapshots in (rest.0, add_event seen.1 rest.1)

-- The events lead from the level `a` to the level `b`, each from where the one before it ended,
-- and each to another level.
abbrev pub Leads : ContextLevel → List WatermarkChanged → ContextLevel → Type 0
Leads a [] b = a ≡ b
Leads a (e ∷ events) b = (e.previous ≡ a) × (e.current ≢ e.previous) × Leads e.current events b

same_level_refl : (a : ContextLevel) → same_level a a ≡ true
same_level_refl green = refl
same_level_refl amber = refl
same_level_refl orange = refl
same_level_refl red = refl

same_level-ne : (a b : ContextLevel) → same_level a b ≡ false → a ≢ b
same_level-ne a b h e =
    ground (arith, subst (λ x. same_level a x ≡ false) (sym e) h, same_level_refl a)

observe-cases :
    (f : Floats) (m : Monitor f) (s : Snapshot)
    → (observe f m s ≡ (m, none))
      ⊎ ((level_for f m s ≢ m.current)
          × (observe f m s ≡ (
            record m { current = level_for f m s },
            some (record { previous = m.current; current = level_for f m s; snapshot = s }),
          )))
unfolding observe
observe-cases f m s = elim (Bool-cases (same_level (level_for f m s) m.current)) [
  | inl e ↦ inl (rw e refl)
  | inr e ↦ inr (same_level-ne (level_for f m s) m.current e, rw e refl)
]

-- Whatever the snapshots are, the reported events lead from the monitor's first level to its last.
pub observe_all-Leads :
    (f : Floats) (m : Monitor f) (snapshots : List Snapshot)
    → Leads m.current (observe_all f m snapshots).1 (observe_all f m snapshots).0.current
observe_all-Leads f m [] = refl
observe_all-Leads f m (s ∷ snapshots) =
    let goal : Monitor f × Option WatermarkChanged → Type 0 = λ r.
      Leads m.current (add_event r.1 (observe_all f r.0 snapshots).1)
        (observe_all f r.0 snapshots).0.current in
    elim (observe-cases f m s) [
      | inl same ↦ subst goal (sym same) (observe_all-Leads f m snapshots)
      | inr (other, changed) ↦
          subst goal (sym changed)
            (refl, other, observe_all-Leads f (record m { current = level_for f m s }) snapshots)
    ]
