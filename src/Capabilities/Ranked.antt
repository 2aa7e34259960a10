-- ===== src/Capabilities/Ranked.antt =====
-- What the resolver answers: which matches, in which order.
use jarvis.Prelude.{
  ℕ, ◌+◌, ◌≡◌, refl, sym, ap, ◌∙◌, ◌==◌, String, str_leb, elem, Bool, true, false, not, ◌&&◌, ◌||◌,
  if◌then◌else◌, ltb, leb, is_empty, select, map, str_eq, List, [], ◌∷◌, ◌++◌, take, sort_by, IsTop,
  IsTop-take-sort_by, str_leb-total, str_leb_trans, some, none, Option, arith,
}
use mathlib.Core.Path.{subst, fun_ext}
use jarvis.Result.{Result, ok, err, ◌>>=◌, ok_parts}
use jarvis.Capabilities.Version.{Library, CapabilityError}
use jarvis.Capabilities.Compatibility.{
  CapabilityRecord, Target, Query, Evaluation, risk_order, evaluate_compatibility,
}
use jarvis.Capabilities.Resolver.{
  CapabilityMatch, ranks_before, kind_allowed, is_compatible, is_healthy, evaluated_match,
  query_gains, record_gains, match_with, normalized_query, add_match, match_of, matches_of, resolve,
}
use jarvis.Capabilities.Score.{
  evaluates_compatible, points, risk_points, text_score, score_of, total, total-append,
  total-query_gains, total-record_gains,
}

ranks_before-total : (m n : CapabilityMatch) → ranks_before m n ≡ false → ranks_before n m ≡ true
ranks_before-total m n h =
    ground (arith, h, str_leb-total m.subject.capability_id n.subject.capability_id)

ranks_before_trans :
    (l m n : CapabilityMatch)
    → ranks_before l m ≡ true
    → ranks_before m n ≡ true
    → ranks_before l n ≡ true
ranks_before_trans l m n h k = ground (
  arith,
  h,
  k,
  str_leb_trans l.subject.capability_id m.subject.capability_id n.subject.capability_id,
)

-- The query admits a record by its kind, its risk, its compatibility and its texts.
abbrev pub is_admitted : Library → Query → Target → CapabilityRecord → Bool
is_admitted lib q target r =
    kind_allowed q.wanted_kind r.kind
    && leb (risk_order r.risk) (risk_order q.max_risk)
    && (not q.compatible_only || evaluates_compatible (evaluate_compatibility lib r target))
    && (str_eq (normalized_query lib q) ""
        || not (is_empty (query_gains lib (normalized_query lib q) r)))

abbrev Decides : Bool → ℕ → CapabilityRecord → Option CapabilityMatch → Type 0
Decides admitted score r none = admitted ≡ false
Decides admitted score r (some m) = (admitted ≡ true) × (m.subject ≡ r) × (m.score ≡ score)

guards-Decides :
    (admitted first second : Bool) (score : ℕ) (m : CapabilityMatch)
    → admitted ≡ (not first && not second)
    → m.score ≡ score
    → Decides admitted score m.subject (if first then none else if second then none else some m)
guards-Decides admitted true second score m h same = h
guards-Decides admitted false true score m h same = h
guards-Decides admitted false false score m h same = (h, refl, same)

guards_eq :
    (kind risk only evaluates fits unsearched nothing : Bool)
    → kind ≡ true
    → risk ≡ true
    → evaluates ≡ fits
    → (kind && risk && (not only || evaluates) && (unsearched || not nothing))
      ≡ (not (only && not fits) && not (not unsearched && nothing))
guards_eq kind risk only evaluates fits unsearched nothing k r e = ground arith

searched :
    (holds : Bool) (found : List (ℕ × String)) (n : ℕ)
    → total found ≡ n
    → total (if holds then found else []) ≡ points holds n
unfolding total
searched true found n h = h
searched false found n h = refl

match_score :
    (lib : Library) (q : Query) (target : Target) (r : CapabilityRecord) (evaluation : Evaluation)
    → evaluate_compatibility lib r target ≡ ok evaluation
    → total (
        (if not (str_eq (normalized_query lib q) "")
          then query_gains lib (normalized_query lib q) r
          else [])
        ++ record_gains r evaluation)
      ≡ score_of lib q target r
match_score lib q target r evaluation evaluates =
    let text = normalized_query lib q in
    let found = query_gains lib text r in
    let fits : evaluates_compatible (evaluate_compatibility lib r target)
        ≡ is_compatible evaluation.outcome =
      ap evaluates_compatible evaluates in
    rw fits (
      total-append (if not (str_eq text "") then found else []) (record_gains r evaluation)
      ∙ ap (λ n. total (if not (str_eq text "") then found else []) + n)
          (total-record_gains r evaluation)
      ∙ ap
          (λ n.
            n
            + (points (is_healthy r.health) 6
                + points (is_compatible evaluation.outcome) 5
                + points (elem r.provenance_status ("complete" ∷ "verified" ∷ [])) 4
                + risk_points r.risk))
          (searched (not (str_eq text "")) found (text_score lib text r)
            (total-query_gains lib text r)))

evaluated_match-Decides :
    (lib : Library) (q : Query) (target : Target) (r : CapabilityRecord) (evaluation : Evaluation)
    → kind_allowed q.wanted_kind r.kind ≡ true
    → leb (risk_order r.risk) (risk_order q.max_risk) ≡ true
    → evaluate_compatibility lib r target ≡ ok evaluation
    → Decides
        (is_admitted lib q target r)
        (score_of lib q target r)
        r
        (evaluated_match lib q r evaluation)
unfolding total
evaluated_match-Decides lib q target r evaluation kind risk evaluates =
    let found = query_gains lib (normalized_query lib q) r in
    let unsearched = str_eq (normalized_query lib q) "" in
    let fits = is_compatible evaluation.outcome in
    guards-Decides (is_admitted lib q target r) (q.compatible_only && not fits)
      (not unsearched && is_empty found) (score_of lib q target r)
      (match_with r evaluation
        ((if not unsearched then found else []) ++ record_gains r evaluation))
      (guards_eq (kind_allowed q.wanted_kind r.kind)
        (leb (risk_order r.risk) (risk_order q.max_risk)) q.compatible_only
        (evaluates_compatible (evaluate_compatibility lib r target)) fits unsearched
        (is_empty found) kind risk (ap evaluates_compatible evaluates))
      (match_score lib q target r evaluation evaluates)

filters-Decides :
    (admitted kind over : Bool) (score : ℕ) (r : CapabilityRecord)
    (evaluated : Result CapabilityError Evaluation) (after : Evaluation → Option CapabilityMatch)
    (found : Option CapabilityMatch)
    → (kind ≡ false → admitted ≡ false)
    → (over ≡ true → admitted ≡ false)
    → ((evaluation : Evaluation)
        → kind ≡ true
        → over ≡ false
        → evaluated ≡ ok evaluation
        → Decides admitted score r (after evaluation))
    → ◌≡◌ {A = Result CapabilityError (Option CapabilityMatch)}
        (if not kind
          then ok none
          else if over
          then ok none
          else (evaluated >>= λ evaluation. ok (after evaluation)))
        (ok found)
    → Decides admitted score r found
filters-Decides admitted false over score r evaluated after found by_kind by_risk decide returned =
    let same : none ≡ found = cc in subst (Decides admitted score r) same (by_kind refl)
filters-Decides admitted true true score r evaluated after found by_kind by_risk decide returned =
    let same : none ≡ found = cc in subst (Decides admitted score r) same (by_risk refl)
filters-Decides admitted true false score r (err e) after found by_kind by_risk decide returned =
    absurd cc
filters-Decides admitted true false score r (ok evaluation) after found by_kind by_risk decide
      returned =
    let same : after evaluation ≡ found = cc in
    subst (Decides admitted score r) same (decide evaluation refl refl refl)

no_risk : (kind risk fits texts : Bool) → risk ≡ false → (kind && risk && fits && texts) ≡ false
no_risk kind risk fits texts h = ground arith

ltb-leb : (a b : ℕ) → (ltb a b ≡ true → leb b a ≡ false) × (ltb a b ≡ false → leb b a ≡ true)
ltb-leb a b = ground arith

match_of-Decides :
    (lib : Library) (q : Query) (target : Target) (r : CapabilityRecord)
    (found : Option CapabilityMatch)
    → match_of lib q target r ≡ ok found
    → Decides (is_admitted lib q target r) (score_of lib q target r) r found
match_of-Decides lib q target r found =
    let kind = kind_allowed q.wanted_kind r.kind in
    let low_enough = leb (risk_order r.risk) (risk_order q.max_risk) in
    let fits =
      not q.compatible_only || evaluates_compatible (evaluate_compatibility lib r target) in
    let found_texts =
      str_eq (normalized_query lib q) ""
      || not (is_empty (query_gains lib (normalized_query lib q) r)) in
    filters-Decides (is_admitted lib q target r) kind
      (ltb (risk_order q.max_risk) (risk_order r.risk)) (score_of lib q target r) r
      (evaluate_compatibility lib r target) (evaluated_match lib q r) found
      (λ h. ap (λ k. k && low_enough && fits && found_texts) h)
      (λ h.
        no_risk kind low_enough fits found_texts
          ((ltb-leb (risk_order q.max_risk) (risk_order r.risk)).0 h))
      (λ evaluation h k e.
        evaluated_match-Decides lib q target r evaluation h
          ((ltb-leb (risk_order q.max_risk) (risk_order r.risk)).1 k) e)

-- What the matches show: their records, each with its score.
abbrev pub shown : List CapabilityMatch → List (CapabilityRecord × ℕ)
shown matches = map (λ m. (m.subject, m.score)) matches

-- The records that are admitted, with their scores.
abbrev pub scored :
    (CapabilityRecord → Bool)
    → (CapabilityRecord → ℕ)
    → List CapabilityRecord
    → List (CapabilityRecord × ℕ)
scored admitted score records = map (λ r. (r, score r)) (select admitted records)

add_match-select :
    (admitted : CapabilityRecord → Bool) (score : CapabilityRecord → ℕ) (r : CapabilityRecord)
    (found : Option CapabilityMatch) (rest : List CapabilityMatch) (records : List CapabilityRecord)
    → Decides (admitted r) (score r) r found
    → shown rest ≡ scored admitted score records
    → shown (add_match found rest) ≡ scored admitted score (r ∷ records)
add_match-select admitted score r none rest records d h = rw d h
add_match-select admitted score r (some m) rest records (d, same, points_same) h =
    rw d (rw (same, points_same, h) refl)

matches_of-select :
    (lib : Library) (q : Query) (target : Target) (records : List CapabilityRecord)
    (matches : List CapabilityMatch)
    → matches_of lib q target records ≡ ok matches
    → shown matches ≡ scored (is_admitted lib q target) (score_of lib q target) records
matches_of-select lib q target [] matches returned =
    let same : [] ≡ matches = cc in rw (sym same) refl
matches_of-select lib q target (r ∷ records) matches returned =
    let (found, one, others) =
      ok_parts (match_of lib q target r)
        (λ found. matches_of lib q target records >>= λ rest. ok (add_match found rest)) returned in
    let (rest, all_rest, last) =
      ok_parts (matches_of lib q target records) (λ rest. ok (add_match found rest)) others in
    let same : add_match found rest ≡ matches = cc in
    subst (λ l. shown l ≡ scored (is_admitted lib q target) (score_of lib q target) (r ∷ records))
      same
      (add_match-select (is_admitted lib q target) (score_of lib q target) r found rest records
        (match_of-Decides lib q target r found one)
        (matches_of-select lib q target records rest all_rest))

-- The higher score is first, and among equals the smaller identifier.
abbrev pub comes_first : CapabilityMatch → CapabilityMatch → Bool
comes_first m n =
    if m.score == n.score
    then str_leb m.subject.capability_id n.subject.capability_id
    else ltb n.score m.score

ranks_before-comes_first : ranks_before ≡ comes_first
ranks_before-comes_first = fun_ext (λ m. fun_ext (λ n. ground arith))

-- The resolver answers the best matches, at most as many as the query's limit: each is in its place by
-- the higher score and then by the smaller identifier, and no match that is left out comes before one
-- that is answered. The matches are of the records that the query admits by their kind, risk,
-- compatibility and texts, each once, with the score that its points add up to.
pub resolve-IsTop :
    (lib : Library) (records : List CapabilityRecord) (q : Query) (target : Target)
    (top : List CapabilityMatch)
    → resolve lib records q target ≡ ok top
    → (matches : List CapabilityMatch) × (shown matches
        ≡ scored (is_admitted lib q target) (score_of lib q target) records)
      × (IsTop comes_first q.limit matches top)
unfolding resolve
resolve-IsTop lib records q target top returned =
    let (matches, found, last) =
      ok_parts (matches_of lib q target records)
        (λ matches. ok (take q.limit (sort_by ranks_before matches))) returned in
    let same : take q.limit (sort_by ranks_before matches) ≡ top = cc in
    let ranked : IsTop ranks_before q.limit matches top =
      subst (IsTop ranks_before q.limit matches) same
        (IsTop-take-sort_by ranks_before ranks_before-total ranks_before_trans q.limit matches) in
    (
      matches,
      matches_of-select lib q target records matches found,
      subst (λ leq. IsTop leq q.limit matches top) ranks_before-comes_first ranked,
    )
