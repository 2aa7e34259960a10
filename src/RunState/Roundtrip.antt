-- ===== src/RunState/Roundtrip.antt =====
-- A run state that is decoded from its own document, and one that evolves.
use jarvis.Prelude.{
  ◌+◌, ◌≡◌, refl, ap, ◌∙◌, Bool, true, false, and_parts, all, List, [], ◌∷◌, Option, some, none,
  String, arith, any, if◌then◌else◌,
}
use mathlib.Core.Path.{subst}
use jarvis.Result.{Result, err, ok}
use jarvis.Json.{Value, str}
use jarvis.ContextBudget.{ContextLevel, green, amber, orange, red}
use jarvis.RunState.{
  RunStatus, planning, running, verifying, blocked, completed, unknown, partial, StageState,
  WorkPackageState, RunState, Library, stage_valid, package_valid, state_valid,
}
use jarvis.RunState.Document.{
  status_value, level_value, strings, texts, each, stage_to_dict, package_to_dict, parse_status,
  parse_level, parse_each, stage_from_dict, or_null, optional_text, is_one,
}
use jarvis.RunState.Decode.{
  to_dict, package_from_dict, from_dict, evolve, checked_state, Change, is_managed, is_unknown,
  apply, apply_all, set_status, set_context_level, set_next_action,
}

parse_status-value : (s : RunStatus) → parse_status (str (status_value s)) ≡ ok s
parse_status-value planning = refl
parse_status-value running = refl
parse_status-value verifying = refl
parse_status-value blocked = refl
parse_status-value completed = refl
parse_status-value unknown = refl
parse_status-value partial = refl

texts-strings : (ss : List String) → texts (strings ss) ≡ ok ss
texts-strings [] = refl
texts-strings (s ∷ ss) = rw (texts-strings ss) refl

stage_roundtrip : (s : StageState) → stage_valid s ≡ true → stage_from_dict (stage_to_dict s) ≡ ok s
unfolding stage_from_dict
stage_roundtrip s valid =
    rw
      (
        parse_status-value s.status,
        texts-strings s.acceptance_criteria,
        texts-strings s.completed_work_packages,
        valid,
      )
      refl

parse_level-value : (c : ContextLevel) → parse_level (str (level_value c)) ≡ ok c
parse_level-value green = refl
parse_level-value amber = refl
parse_level-value orange = refl
parse_level-value red = refl

optional_text-or_null : (o : Option String) → optional_text (or_null o) ≡ ok o
optional_text-or_null none = refl
optional_text-or_null (some s) = refl

package_roundtrip :
    (l : Library) (p : WorkPackageState)
    → package_valid l p ≡ true
    → package_from_dict l (package_to_dict p) ≡ ok p
unfolding package_from_dict
package_roundtrip l p valid =
    rw
      (
        parse_status-value p.status,
        texts-strings p.allowed_paths,
        texts-strings p.forbidden_paths,
        texts-strings p.dependencies,
        texts-strings p.acceptance_commands,
        optional_text-or_null p.handoff_path,
        optional_text-or_null p.next_action,
        valid,
      )
      refl

parse_each-each :
    {A : Type 0} (f : Value → Result {0, 0} String A) (g : A → Value) (p : A → Bool) (xs : List A)
    → ((x : A) → p x ≡ true → f (g x) ≡ ok x)
    → all p xs ≡ true
    → parse_each f (each g xs) ≡ ok xs
parse_each-each f g p [] h valid = refl
parse_each-each f g p (x ∷ xs) h valid =
    let (here, later) = and_parts (p x) (all p xs) valid in
    rw (h x here, parse_each-each f g p xs h later) refl

-- A state that passes its checks, and the checks of its stages and work packages, is read back from
-- the document that `to_dict` writes, with its revision as the revision floor.
pub from_dict-to_dict :
    (l : Library) (s : RunState)
    → all stage_valid s.stages ≡ true
    → all (package_valid l) s.work_packages ≡ true
    → state_valid l is_one (record s { revision_floor = s.revision }) ≡ true
    → from_dict l (to_dict s) ≡ ok (record s { revision_floor = s.revision })
unfolding from_dict to_dict
from_dict-to_dict l s stages packages valid =
    rw
      (
        parse_each-each stage_from_dict stage_to_dict stage_valid s.stages stage_roundtrip stages,
        parse_each-each (package_from_dict l) package_to_dict (package_valid l) s.work_packages
            (package_roundtrip l) packages,
        parse_status-value s.status,
        parse_level-value s.context_level,
        optional_text-or_null s.next_command,
        valid,
      )
      refl

refused :
    (b : Bool) (why : String) (r : Result {0, 0} String RunState) (t : RunState)
    → (if b then err why else r) ≡ ok t
    → (b ≡ false) × (r ≡ ok t)
refused true why r t h = absurd (ground (arith, h))
refused false why r t h = (refl, h)

pub passed :
    (b : Bool) (s t : RunState)
    → if◌then◌else◌ {A = Result {0, 0} String RunState} b (ok s) (err "run state") ≡ ok t
    → (b ≡ true) × (s ≡ t)
passed true s t h = (refl, ground (arith, h))
passed false s t h = absurd (ground (arith, h))

-- The value that the keywords give a field: that of the last one for it, and `old` if there is none.
abbrev pub given {ℓ} : {A : Type ℓ} → (Change → Option A) → A → List Change → A
given pick old [] = old
given pick old (c ∷ changes) = given pick (elim (pick c) [ none ↦ old | some v ↦ v ]) changes

-- The value that a keyword gives the status, the level of the context, the next action.
abbrev pub status_in : Change → Option RunStatus
status_in (set_status v) = some v
status_in _ = none

abbrev pub level_in : Change → Option ContextLevel
level_in (set_context_level v) = some v
level_in _ = none

abbrev pub action_in : Change → Option String
action_in (set_next_action v) = some v
action_in _ = none

-- A field that no change sets stays.
module _ {A : Type 0} (pick : Change → Option A) (field_of : RunState → A) where
  apply_all-given :
      ((s : RunState) (c : Change)
        → field_of (apply s c) ≡ elim (pick c) [ none ↦ field_of s | some v ↦ v ])
      → (s : RunState) (changes : List Change)
      → field_of (apply_all s changes) ≡ given pick (field_of s) changes
  apply_all-given one s [] = refl
  apply_all-given one s (c ∷ changes) =
      apply_all-given one (apply s c) changes ∙ ap (λ v. given pick v changes) (one s c)

apply-status :
    (s : RunState) (c : Change)
    → (apply s c).status ≡ elim (status_in c) [ none ↦ s.status | some v ↦ v ]
apply-status s c = ground arith

apply-level :
    (s : RunState) (c : Change)
    → (apply s c).context_level ≡ elim (level_in c) [ none ↦ s.context_level | some v ↦ v ]
apply-level s c = ground arith

apply-action :
    (s : RunState) (c : Change)
    → (apply s c).next_action ≡ elim (action_in c) [ none ↦ s.next_action | some v ↦ v ]
apply-action s c = ground arith

-- A state that evolve answers has the status, the level and the next action that the changes give, the
-- last change of a field counting, and its own where they give none. It has the next revision, as its
-- floor too, and the time of the call; it passes the checks, and no change names a field that evolve
-- manages or that is none of the state's.
pub evolve_lem :
    (l : Library) (s t : RunState) (now : String) (changes : List Change)
    → evolve l s now changes ≡ ok t
    → (t.revision ≡ s.revision + 1)
      × (t.revision_floor ≡ t.revision)
      × (t.updated_at ≡ now)
      × (state_valid l is_one t ≡ true)
      × (any is_managed changes ≡ false)
      × (any is_unknown changes ≡ false)
      × (t.status ≡ given status_in s.status changes)
      × (t.context_level ≡ given level_in s.context_level changes)
      × (t.next_action ≡ given action_in s.next_action changes)
unfolding evolve
evolve_lem l s t now changes h =
    let next : RunState = record (apply_all s changes) {
      revision = s.revision + 1;
      updated_at = now;
      revision_floor = s.revision + 1;
    } in
    let (free, named) =
      refused (any is_managed changes) "managed fields"
        (if any is_unknown changes then err "unexpected keyword" else checked_state l next) t h in
    let (known, checked) =
      refused (any is_unknown changes) "unexpected keyword" (checked_state l next) t named in
    let (valid, same) = passed (state_valid l is_one next) next t checked in
    subst
      (λ u.
        (u.revision ≡ s.revision + 1)
        × (u.revision_floor ≡ u.revision)
        × (u.updated_at ≡ now)
        × (state_valid l is_one u ≡ true)
        × (any is_managed changes ≡ false)
        × (any is_unknown changes ≡ false)
        × (u.status ≡ given status_in s.status changes)
        × (u.context_level ≡ given level_in s.context_level changes)
        × (u.next_action ≡ given action_in s.next_action changes))
      same
      (
        refl,
        refl,
        refl,
        valid,
        free,
        known,
        apply_all-given status_in (λ u. u.status) apply-status s changes,
        apply_all-given level_in (λ u. u.context_level) apply-level s changes,
        apply_all-given action_in (λ u. u.next_action) apply-action s changes,
      )
