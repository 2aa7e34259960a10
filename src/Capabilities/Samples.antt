-- ===== src/Capabilities/Samples.antt =====
-- Two capabilities, a query and a target, and the theorems at them.
use jarvis.Prelude.{
  ℕ, ◌-◌, ◌≡◌, refl, false, if◌then◌else◌, leb, ltb, List, [], ◌∷◌, map, any, sort_by, insert_by,
  sorted, strip, some, none, String, codes, IsTop,
}
use jarvis.Result.{Result, ok, err}
use jarvis.Capabilities.Version.{
  Library, CapabilityError, Version, parse_version, version_digits, compares, below,
  evaluate_constraint, check_clause,
}
use jarvis.Capabilities.Order.{compares-number_of}
use jarvis.Capabilities.Compatibility.{
  CapabilityRecord, Target, Query, skill, discovered, healthy, low, high, new_target, Evaluation,
  evaluate_compatibility,
}
use jarvis.Capabilities.Resolver.{CapabilityMatch, resolve}
use jarvis.Capabilities.Ranked.{is_admitted, shown, scored, comes_first, resolve-IsTop}
use jarvis.Capabilities.Score.{score_of}
use jarvis.Capabilities.Resolves.{is_violated, is_incompatible, resolve-Returns}

-- The digits of ASCII; one token, and no letter with another case.
abbrev ascii : Library
ascii = record {
  digit_value = λ c. if leb 48 c then (if leb c 57 then some (c - 48) else none) else none;
  casefold = λ s. s;
  find_tokens = λ s. s ∷ [];
}

abbrev old_version : Version
old_version = record { part_0 = 3; part_1 = 9; part_2 = 0; part_3 = 0 }

abbrev new_version : Version
new_version = record { part_0 = 3; part_1 = 10; part_2 = 1; part_3 = 0 }

abbrev old_parsed : parse_version ascii (codes "3.9") ≡ ok old_version
unfolding parse_version version_digits
old_parsed = refl

abbrev new_parsed : parse_version ascii (codes "3.10.1") ≡ ok new_version
unfolding parse_version version_digits
new_parsed = refl

compares-number_of_example :
    compares below old_version new_version ≡ ltb 3000009000000000000 3000010000001000000
compares-number_of_example =
    compares-number_of ascii (codes "3.9") (codes "3.10.1") old_version new_version below old_parsed
      new_parsed

abbrev capability : String → String → CapabilityRecord
capability identifier constraint = record {
  capability_id = identifier;
  kind = skill;
  name = "Search";
  version = none;
  description = "Finds files";
  relative_path = "skills/search";
  entrypoint = none;
  lifecycle = discovered;
  permissions = [];
  compatibility = ("python", constraint) ∷ [];
  compatibility_status = "unknown";
  source_url = none;
  license_name = none;
  sha256 = none;
  provenance_status = "complete";
  health = healthy;
  health_issues = [];
  risk = low;
  risk_reasons = [];
}

abbrev capabilities : List CapabilityRecord
capabilities =
    capability "skill:a" ">=4"
    ∷ capability "skill:b" ">= 3.9"
    ∷ capability "skill:c" ">=3.9, <4"
    ∷ []

abbrev target : Target
target = record { python = some "3.10.1"; node = none; jarvis_api = none }

abbrev target_checked : new_target ascii (some "3.10.1") none none ≡ ok target
unfolding new_target parse_version version_digits
target_checked = refl

abbrev search : Query
search = record {
  query = "Search";
  wanted_kind = some skill;
  compatible_only = false;
  max_risk = high;
  limit = 2;
}

resolve-Returns_example :
    ((top : List CapabilityMatch) × (resolve ascii capabilities search target ≡ ok top))
    × ((r : CapabilityRecord)
        → (evaluation : Evaluation) × (evaluate_compatibility ascii r target ≡ ok evaluation)
          × (is_incompatible evaluation.outcome ≡ any (is_violated ascii target) r.compatibility))
resolve-Returns_example =
    resolve-Returns ascii (some "3.10.1") none none target capabilities search target_checked

abbrev found : (top : List CapabilityMatch) × (resolve ascii capabilities search target ≡ ok top)
found =
    (resolve-Returns ascii (some "3.10.1") none none target capabilities search target_checked).0

resolve-IsTop_example :
    (matches : List CapabilityMatch) × (shown matches
      ≡ scored (is_admitted ascii search target) (score_of ascii search target) capabilities)
    × (IsTop comes_first 2 matches found.0)
resolve-IsTop_example = resolve-IsTop ascii capabilities search target found.0 found.1

abbrev summary : Result CapabilityError (List CapabilityMatch) → List (String × ℕ)
summary (ok top) = map (λ m. (m.subject.capability_id, m.score)) top
summary (err e) = []

-- The compatible record is first; the clause with a space in it is no clause.
resolved :
    summary (resolve ascii capabilities search target) ≡ ("skill:c", 158) ∷ ("skill:a", 153) ∷ []
unfolding resolve evaluate_compatibility evaluate_constraint check_clause parse_version
    version_digits compares sort_by insert_by sorted strip
resolved = refl
