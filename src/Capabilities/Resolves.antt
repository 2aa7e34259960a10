-- ===== src/Capabilities/Resolves.antt =====
-- The resolver answers: no record makes it raise.
use jarvis.Prelude.{
  ◌≡◌, refl, sym, ◌∙◌, Bool, true, false, not, ◌||◌, any, is_empty, arith, Bool-cases, ltb, str_eq,
  List, [], ◌∷◌, take, sort_by, Option, some, none, String, codes, inl, inr,
}
use mathlib.Core.Path.{subst}
use jarvis.Result.{Result, ok, err, ◌>>=◌, ok_parts}
use jarvis.Capabilities.Version.{
  Library, Version, CapabilityError, digit_limit, version_invalid, constraint_invalid,
  capability_duplicate, parse_version, evaluate_constraint,
}
use jarvis.Capabilities.Total.{is_limit, evaluate_constraint-is_limit}
use jarvis.Capabilities.Compatibility.{
  CapabilityRecord, Target, Query, check_target, new_target, value_for, constraint_reason,
  reason_of, collect_reasons, add_reason, evaluation_of, evaluate_compatibility, risk_order,
  Evaluation, Compatibility, incompatible, Reason, no_reason, against, unsure,
}
use jarvis.Capabilities.Resolver.{
  CapabilityMatch, ranks_before, kind_allowed, add_match, evaluated_match, match_of, matches_of,
  resolve,
}

abbrev Returns {ℓ} : {A : Type ℓ} → Result CapabilityError A → Type ℓ
Returns {A = A} r = (a : A) × (r ≡ ok a)

-- The version of a runtime, where the target has one.
abbrev IsRead : Library → Option String → Type 0
IsRead lib none = Unit
IsRead lib (some value) = (v : Version) × (parse_version lib (codes value) ≡ ok v)

check_target-IsRead :
    (lib : Library) (value : Option String) (u : Unit {0})
    → check_target lib value ≡ ok u
    → IsRead lib value
check_target-IsRead lib none u h = tt
check_target-IsRead lib (some value) u h =
    let (v, parsed, last) = ok_parts (parse_version lib (codes value)) (λ v. ok tt) h in (v, parsed)

abbrev IsValid : Library → Target → Type 0
IsValid lib target =
    IsRead lib target.python × IsRead lib target.node × IsRead lib target.jarvis_api

new_target-IsValid :
    (lib : Library) (python node jarvis_api : Option String) (target : Target)
    → new_target lib python node jarvis_api ≡ ok target
    → IsValid lib target
unfolding new_target
new_target-IsValid lib python node jarvis_api target h =
    let made : Result CapabilityError Target =
      ok (record { python = python; node = node; jarvis_api = jarvis_api }) in
    let (u, first, after_python) =
      ok_parts (check_target lib python)
        (λ u. check_target lib node >>= λ v. check_target lib jarvis_api >>= λ w. made) h in
    let (v, second, after_node) =
      ok_parts (check_target lib node) (λ v. check_target lib jarvis_api >>= λ w. made)
        after_python in
    let (w, third, last) = ok_parts (check_target lib jarvis_api) (λ w. made) after_node in
    let same : record { python = python; node = node; jarvis_api = jarvis_api } ≡ target = cc in
    subst (IsValid lib) same (
      check_target-IsRead lib python u first,
      check_target-IsRead lib node v second,
      check_target-IsRead lib jarvis_api w third,
    )

constraint_reason-Returns :
    (runtime : String) (r : Result CapabilityError Bool)
    → is_limit r ≡ false
    → Returns (constraint_reason runtime r)
constraint_reason-Returns runtime (ok true) h = (_, refl)
constraint_reason-Returns runtime (ok false) h = (_, refl)
constraint_reason-Returns runtime (err digit_limit) h = absurd cc
constraint_reason-Returns runtime (err version_invalid) h = (_, refl)
constraint_reason-Returns runtime (err constraint_invalid) h = (_, refl)
constraint_reason-Returns runtime (err capability_duplicate) h = (_, refl)

abbrev Known : Library → Option (Option String) → Type 0
Known lib none = Unit
Known lib (some value) = IsRead lib value

value_for-Known :
    (lib : Library) (target : Target) (runtime : String)
    → IsValid lib target
    → Known lib (value_for target runtime)
value_for-Known lib target runtime (python, node, api) =
    elim (Bool-cases (str_eq runtime "python")) [
      | inl here ↦ rw here python
      | inr elsewhere ↦ elim (Bool-cases (str_eq runtime "node")) [
        | inl there ↦ rw (elsewhere, there) node
        | inr last ↦ elim (Bool-cases (str_eq runtime "jarvis_api")) [
          | inl api_here ↦ rw (elsewhere, last, api_here) api
          | inr nowhere ↦ rw (elsewhere, last, nowhere) tt
        ]
      ]
    ]

reason_of-Returns :
    (lib : Library) (runtime constraint : String) (value : Option (Option String))
    → Known lib value
    → Returns (reason_of lib runtime constraint value)
reason_of-Returns lib runtime constraint none k = (_, refl)
reason_of-Returns lib runtime constraint (some none) k = (_, refl)
reason_of-Returns lib runtime constraint (some (some actual)) (v, parsed) =
    constraint_reason-Returns runtime (evaluate_constraint lib actual constraint)
      (evaluate_constraint-is_limit lib actual constraint v parsed)

collect_reasons-Returns :
    (lib : Library) (target : Target) (constraints : List (String × String))
    → IsValid lib target
    → Returns (collect_reasons lib target constraints)
collect_reasons-Returns lib target [] valid = (_, refl)
collect_reasons-Returns lib target ((runtime, constraint) ∷ rest) valid =
    let (why, first) =
      reason_of-Returns lib runtime constraint (value_for target runtime)
        (value_for-Known lib target runtime valid) in
    let (found, others) = collect_reasons-Returns lib target rest valid in
    (add_reason why found, rw (first, others) refl)

evaluate_compatibility-Returns :
    (lib : Library) (r : CapabilityRecord) (target : Target)
    → IsValid lib target
    → Returns (evaluate_compatibility lib r target)
unfolding evaluate_compatibility
evaluate_compatibility-Returns lib r target valid =
    let (found, h) = collect_reasons-Returns lib target r.compatibility valid in
    (evaluation_of found, rw h refl)

match_of-Returns :
    (lib : Library) (q : Query) (target : Target) (r : CapabilityRecord)
    → IsValid lib target
    → Returns (match_of lib q target r)
match_of-Returns lib q target r valid =
    let (evaluation, h) = evaluate_compatibility-Returns lib r target valid in
    elim (Bool-cases (kind_allowed q.wanted_kind r.kind)) [
      | inr other ↦ (none, rw other refl)
      | inl kind ↦ elim (Bool-cases (ltb (risk_order q.max_risk) (risk_order r.risk))) [
        | inl over ↦ (none, rw (kind, over) refl)
        | inr within ↦ (evaluated_match lib q r evaluation, rw (kind, within, h) refl)
      ]
    ]

matches_of-Returns :
    (lib : Library) (q : Query) (target : Target) (records : List CapabilityRecord)
    → IsValid lib target
    → Returns (matches_of lib q target records)
matches_of-Returns lib q target [] valid = ([], refl)
matches_of-Returns lib q target (r ∷ records) valid =
    let (found, first) = match_of-Returns lib q target r valid in
    let (rest, others) = matches_of-Returns lib q target records valid in
    (add_match found rest, rw (first, others) refl)

-- A constraint on a runtime of the target is invalid, or does not hold of its version.
abbrev pub is_violated : Library → Target → String × String → Bool
is_violated lib target (runtime, constraint) = elim (value_for target runtime) [
  | none ↦ false
  | some value ↦ elim value [
    | none ↦ false
    | some actual ↦ elim (evaluate_constraint lib actual constraint) [
      | ok holds ↦ not holds
      | err e ↦ true
    ]
  ]
]

abbrev pub is_incompatible : Compatibility → Bool
is_incompatible incompatible = true
is_incompatible _ = false

abbrev is_against : Reason → Bool
is_against (against text) = true
is_against _ = false

constraint_reason-is_against :
    (runtime : String) (r : Result CapabilityError Bool) (why : Reason)
    → constraint_reason runtime r ≡ ok why
    → is_against why ≡ elim r [ ok holds ↦ not holds | err e ↦ true ]
constraint_reason-is_against runtime (ok true) why h =
    let same : no_reason ≡ why = cc in rw (sym same) refl
constraint_reason-is_against runtime (ok false) why h = ground (arith, h)
constraint_reason-is_against runtime (err digit_limit) why h = absurd cc
constraint_reason-is_against runtime (err version_invalid) why h = ground (arith, h)
constraint_reason-is_against runtime (err constraint_invalid) why h = ground (arith, h)
constraint_reason-is_against runtime (err capability_duplicate) why h = ground (arith, h)

reason_of-is_against :
    (lib : Library) (runtime constraint : String) (value : Option (Option String)) (why : Reason)
    → reason_of lib runtime constraint value ≡ ok why
    → is_against why ≡ elim value [
      | none ↦ false
      | some v ↦ elim v [
        | none ↦ false
        | some actual ↦ elim (evaluate_constraint lib actual constraint) [
          | ok holds ↦ not holds
          | err e ↦ true
        ]
      ]
    ]
reason_of-is_against lib runtime constraint none why h = ground (arith, h)
reason_of-is_against lib runtime constraint (some none) why h = ground (arith, h)
reason_of-is_against lib runtime constraint (some (some actual)) why h =
    constraint_reason-is_against runtime (evaluate_constraint lib actual constraint) why h

add_reason-is_empty :
    (why : Reason) (found : List String × List String)
    → not (is_empty (add_reason why found).0) ≡ (is_against why || not (is_empty found.0))
add_reason-is_empty no_reason found = refl
add_reason-is_empty (against text) found = refl
add_reason-is_empty (unsure text) found = refl

collect_reasons-is_violated :
    (lib : Library) (target : Target) (constraints : List (String × String))
    (found : List String × List String)
    → collect_reasons lib target constraints ≡ ok found
    → not (is_empty found.0) ≡ any (is_violated lib target) constraints
collect_reasons-is_violated lib target [] found h =
    let same : ([], []) ≡ found = cc in rw (sym same) refl
collect_reasons-is_violated lib target ((runtime, constraint) ∷ rest) found h =
    let (why, one, others) =
      ok_parts (reason_of lib runtime constraint (value_for target runtime))
        (λ why. collect_reasons lib target rest >>= λ found. ok (add_reason why found)) h in
    let (later, all_later, last) =
      ok_parts (collect_reasons lib target rest) (λ found. ok (add_reason why found)) others in
    let same : add_reason why later ≡ found = cc in
    subst (λ f. not (is_empty f.0) ≡ any (is_violated lib target) ((runtime, constraint) ∷ rest))
      same
      (add_reason-is_empty why later
        ∙ rw
            (
              reason_of-is_against lib runtime constraint (value_for target runtime) why one,
              collect_reasons-is_violated lib target rest later all_later,
            )
            refl)

evaluation_of-is_incompatible :
    (found : List String × List String)
    → is_incompatible (evaluation_of found).outcome ≡ not (is_empty found.0)
evaluation_of-is_incompatible ([], []) = refl
evaluation_of-is_incompatible ([], u ∷ us) = refl
evaluation_of-is_incompatible (i ∷ is, us) = refl

evaluate_compatibility-is_incompatible :
    (lib : Library) (r : CapabilityRecord) (target : Target)
    → IsValid lib target
    → (evaluation : Evaluation) × (evaluate_compatibility lib r target ≡ ok evaluation)
      × (is_incompatible evaluation.outcome ≡ any (is_violated lib target) r.compatibility)
unfolding evaluate_compatibility
evaluate_compatibility-is_incompatible lib r target valid =
    let (found, h) = collect_reasons-Returns lib target r.compatibility valid in
    (
      evaluation_of found,
      rw h refl,
      evaluation_of-is_incompatible found
          ∙ collect_reasons-is_violated lib target r.compatibility found h,
    )

-- For a target that passes its own check the resolver answers, whatever the records and their
-- constraints are. Every record is evaluated, and it is incompatible exactly if one of its constraints on
-- a runtime that the target has a version of is invalid or does not hold of that version.
pub resolve-Returns :
    (lib : Library) (python node jarvis_api : Option String) (target : Target)
    (records : List CapabilityRecord) (q : Query)
    → new_target lib python node jarvis_api ≡ ok target
    → ((top : List CapabilityMatch) × (resolve lib records q target ≡ ok top))
      × ((r : CapabilityRecord)
          → (evaluation : Evaluation) × (evaluate_compatibility lib r target ≡ ok evaluation)
            × (is_incompatible evaluation.outcome ≡ any (is_violated lib target) r.compatibility))
unfolding resolve
resolve-Returns lib python node jarvis_api target records q checked =
    let valid = new_target-IsValid lib python node jarvis_api target checked in
    let (matches, h) = matches_of-Returns lib q target records valid in
    (
      (take q.limit (sort_by ranks_before matches), rw h refl),
      λ r. evaluate_compatibility-is_incompatible lib r target valid,
    )
