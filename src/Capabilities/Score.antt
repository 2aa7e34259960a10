-- ===== src/Capabilities/Score.antt =====
-- The score of a record, as a sum of points.
use jarvis.Prelude.{
  ℕ, ◌+◌, ◌≡◌, refl, Bool, true, false, not, ◌&&◌, if◌then◌else◌, is_empty, all, elem, sum_of,
  str_eq, List, [], ◌∷◌, ◌++◌, String, arith,
}
use jarvis.Result.{Result, ok, err}
use jarvis.Capabilities.Version.{Library, CapabilityError}
use jarvis.Capabilities.Compatibility.{
  CapabilityRecord, Target, Query, Evaluation, Risk, low, medium, high, evaluate_compatibility,
}
use jarvis.Capabilities.Resolver.{
  is_healthy, is_compatible, tokens, contains, query_gains, record_gains, normalized_query,
  risk_gains,
}

abbrev pub evaluates_compatible : Result CapabilityError Evaluation → Bool
evaluates_compatible (ok evaluation) = is_compatible evaluation.outcome
evaluates_compatible (err e) = false

abbrev pub points : Bool → ℕ → ℕ
points holds n = if holds then n else 0

-- The points of what the query's text finds in a record.
abbrev pub text_score : Library → String → CapabilityRecord → ℕ
text_score lib text r =
    let wanted = tokens lib text in
    let identifier = lib.casefold r.capability_id in
    let name = lib.casefold r.name in
    let description = lib.casefold r.description in
    let some_wanted = not (is_empty wanted) in
    points (str_eq text identifier) 120
    + points (str_eq text name) 100
    + points (some_wanted && all (λ t. elem t (tokens lib identifier)) wanted) 35
    + points (some_wanted && all (λ t. elem t (tokens lib name)) wanted) 40
    + points (contains text description) 20
    + points
        (not (contains text description) && some_wanted && all (λ t. contains t description) wanted)
        10

abbrev pub risk_points : Risk → ℕ
risk_points low = 3
risk_points medium = 1
risk_points high = 0

-- The score of a record: the points for the text, if there is one, and those for being healthy, for
-- being compatible, for its provenance and for its low risk.
abbrev pub score_of : Library → Query → Target → CapabilityRecord → ℕ
score_of lib q target r =
    points (not (str_eq (normalized_query lib q) "")) (text_score lib (normalized_query lib q) r)
    + (points (is_healthy r.health) 6
        + points (evaluates_compatible (evaluate_compatibility lib r target)) 5
        + points (elem r.provenance_status ("complete" ∷ "verified" ∷ [])) 4
        + risk_points r.risk)

unfoldable pub total : List (ℕ × String) → ℕ
total gains = sum_of (λ g. g.0) gains

pub total-append : (xs ys : List (ℕ × String)) → total (xs ++ ys) ≡ total xs + total ys
unfolding total
total-append [] ys = omega arith
total-append (x ∷ xs) ys = omega (arith, total-append xs ys)

total-gain :
    (holds : Bool) (n : ℕ) (why : String)
    → total (if holds then (n, why) ∷ [] else []) ≡ points holds n
unfolding total
total-gain true n why = omega arith
total-gain false n why = refl

pub total-query_gains :
    (lib : Library) (text : String) (r : CapabilityRecord)
    → total (query_gains lib text r) ≡ text_score lib text r
total-query_gains lib text r = simp (total-append, total-gain) (omega arith)

total-risk_gains : (risk : Risk) → total (risk_gains risk) ≡ risk_points risk
unfolding total
total-risk_gains low = omega arith
total-risk_gains medium = omega arith
total-risk_gains high = refl

pub total-record_gains :
    (r : CapabilityRecord) (evaluation : Evaluation)
    → total (record_gains r evaluation)
      ≡ points (is_healthy r.health) 6
        + points (is_compatible evaluation.outcome) 5
        + points (elem r.provenance_status ("complete" ∷ "verified" ∷ [])) 4
        + risk_points r.risk
total-record_gains r evaluation =
    simp (total-append, total-gain) (rw (total-risk_gains r.risk) refl)
