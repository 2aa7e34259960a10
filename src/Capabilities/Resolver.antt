-- ===== src/Capabilities/Resolver.antt =====
-- `CapabilityResolver.resolve`.
use jarvis.Prelude.{
  ℕ, Bool, true, false, not, ◌&&◌, ◌||◌, if◌then◌else◌, ltb, ◌==◌, List, [], ◌∷◌, ◌++◌, map, all,
  elem, is_empty, take, sort_by, sum_of, Option, some, none, String, codes, strip, str_eq, str_leb,
}
use jarvis.Result.{Result, ok, ◌>>=◌}
use jarvis.Capabilities.Version.{Library, CapabilityError}
use jarvis.Capabilities.Compatibility.{
  Kind, Health, healthy, Risk, low, medium, high, CapabilityRecord, Target, Query, Evaluation,
  Compatibility, compatible, risk_order, same_kind, evaluate_compatibility,
}

pub record CapabilityMatch : Type 0 where
  pub subject : CapabilityRecord
  pub score : ℕ
  pub reasons : List String
  pub evaluation : Evaluation

-- _tokens
abbrev pub tokens : Library → String → List String
tokens lib value = map lib.casefold (lib.find_tokens value)

abbrev starts : List ℕ → List ℕ → Bool
starts part [] = is_empty part
starts [] cs = true
starts (p ∷ part) (c ∷ cs) = p == c && starts part cs

-- part in text, of code points
abbrev contains_codes : List ℕ → List ℕ → Bool
contains_codes part [] = is_empty part
contains_codes part (c ∷ cs) = starts part (c ∷ cs) || contains_codes part cs

abbrev pub contains : String → String → Bool
contains part text = contains_codes (codes part) (codes text)

-- The points that are added to the score with a reason, under a condition.
abbrev gain : Bool → ℕ → String → List (ℕ × String)
gain condition points reason = if condition then (points, reason) ∷ [] else []

-- What of a record the query finds.
abbrev pub query_gains : Library → String → CapabilityRecord → List (ℕ × String)
query_gains lib normalized r =
    let query_tokens = tokens lib normalized in
    let identifier = lib.casefold r.capability_id in
    let name = lib.casefold r.name in
    let description = lib.casefold r.description in
    let all_in : List String → Bool =
      λ found. not (is_empty query_tokens) && all (λ t. elem t found) query_tokens in
    let whole = contains normalized description in
    gain (str_eq normalized identifier) 120 "id_exact"
    ++ gain (str_eq normalized name) 100 "name_exact"
    ++ gain (all_in (tokens lib identifier)) 35 "id_token_match"
    ++ gain (all_in (tokens lib name)) 40 "name_token_match"
    ++ gain whole 20 "description_match"
    ++ gain
        (not whole && not (is_empty query_tokens) && all (λ t. contains t description) query_tokens)
        10 "description_token_match"

abbrev pub is_healthy : Health → Bool
is_healthy healthy = true
is_healthy _ = false

abbrev pub is_compatible : Compatibility → Bool
is_compatible compatible = true
is_compatible _ = false

abbrev pub risk_gains : Risk → List (ℕ × String)
risk_gains low = (3, "risk_low") ∷ []
risk_gains medium = (1, "risk_medium") ∷ []
risk_gains high = []

-- What a record gets whatever the query is.
abbrev pub record_gains : CapabilityRecord → Evaluation → List (ℕ × String)
record_gains r evaluation =
    gain (is_healthy r.health) 6 "healthy"
    ++ gain (is_compatible evaluation.outcome) 5 "compatible"
    ++ gain (elem r.provenance_status ("complete" ∷ "verified" ∷ [])) 4 "provenance_complete"
    ++ risk_gains r.risk

abbrev pub kind_allowed : Option Kind → Kind → Bool
kind_allowed none kind = true
kind_allowed (some wanted) kind = same_kind kind wanted

abbrev pub normalized_query : Library → Query → String
normalized_query lib q = lib.casefold (strip q.query)

abbrev pub match_with : CapabilityRecord → Evaluation → List (ℕ × String) → CapabilityMatch
match_with r evaluation gains = record {
  subject = r;
  score = sum_of (λ g. g.0) gains;
  reasons = map (λ g. g.1) gains;
  evaluation = evaluation;
}

-- The rest of the loop's body, once the record is evaluated.
abbrev pub evaluated_match :
    Library → Query → CapabilityRecord → Evaluation → Option CapabilityMatch
evaluated_match lib q r evaluation =
    let found = query_gains lib (normalized_query lib q) r in
    let searched = not (str_eq (normalized_query lib q) "") in
    if q.compatible_only && not (is_compatible evaluation.outcome)
    then none
    else if searched && is_empty found
    then none
    else some
        (match_with r evaluation ((if searched then found else []) ++ record_gains r evaluation))

-- One record in the loop: `none` is `continue`.
abbrev pub match_of :
    Library → Query → Target → CapabilityRecord → Result CapabilityError (Option CapabilityMatch)
match_of lib q target r =
    if not (kind_allowed q.wanted_kind r.kind)
    then ok none
    else if ltb (risk_order q.max_risk) (risk_order r.risk)
    then ok none
    else (evaluate_compatibility lib r target >>= λ evaluation.
        ok (evaluated_match lib q r evaluation))

abbrev pub add_match : Option CapabilityMatch → List CapabilityMatch → List CapabilityMatch
add_match none matches = matches
add_match (some m) matches = m ∷ matches

abbrev pub matches_of :
    Library → Query → Target → List CapabilityRecord → Result CapabilityError (List CapabilityMatch)
matches_of lib q target [] = ok []
matches_of lib q target (r ∷ records) = match_of lib q target r >>= λ found.
    matches_of lib q target records >>= λ rest. ok (add_match found rest)

-- key=lambda match: (-match.score, match.record.capability_id)
abbrev pub ranks_before : CapabilityMatch → CapabilityMatch → Bool
ranks_before m n =
    ltb n.score m.score
    || n.score == m.score && str_leb m.subject.capability_id n.subject.capability_id

unfoldable pub resolve :
    Library → List CapabilityRecord → Query → Target → Result CapabilityError (List CapabilityMatch)
resolve lib records q target =
    matches_of lib q target records >>= λ matches. ok (take q.limit (sort_by ranks_before matches))
