-- ===== src/Capabilities/Compatibility.antt =====
-- The records of the capabilities, and `evaluate_compatibility`.
use Prim.Native.String.{◌++◌ as ◌+++◌}
use jarvis.Prelude.{
  ℕ, Bool, true, false, if◌then◌else◌, List, [], ◌∷◌, ◌++◌, sorted, Option, some, none, String,
  codes, str_eq,
}
use jarvis.Result.{Result, ok, err, ◌>>=◌}
use jarvis.Capabilities.Version.{
  Library, CapabilityError, digit_limit, parse_version, evaluate_constraint,
}

pub data Kind : Type 0 where
  skill plugin role_tool ui_component : Kind

pub data Lifecycle : Type 0 where
  discovered disabled enabled not_valid : Lifecycle

pub data Health : Type 0 where
  healthy degraded unhealthy : Health

pub data Risk : Type 0 where
  low medium high : Risk

pub record CapabilityRecord : Type 0 where
  pub capability_id : String
  pub kind : Kind
  pub name : String
  pub version : Option String
  pub description : String
  pub relative_path : String
  pub entrypoint : Option String
  pub lifecycle : Lifecycle
  pub permissions : List String
  pub compatibility : List (String × String)
  pub compatibility_status : String
  pub source_url : Option String
  pub license_name : Option String
  pub sha256 : Option String
  pub provenance_status : String
  pub health : Health
  pub health_issues : List String
  pub risk : Risk
  pub risk_reasons : List String

pub record Target : Type 0 where
  pub python : Option String
  pub node : Option String
  pub jarvis_api : Option String

abbrev pub check_target : Library → Option String → Result {0, 0} CapabilityError Unit
check_target lib none = ok tt
check_target lib (some value) = parse_version lib (codes value) >>= λ v. ok tt

-- CompatibilityTarget.__post_init__
unfoldable pub new_target :
    Library → (python node jarvis_api : Option String) → Result CapabilityError Target
new_target lib python node jarvis_api = check_target lib python >>= λ first.
    check_target lib node >>= λ second. check_target lib jarvis_api >>= λ third.
    ok (record { python = python; node = node; jarvis_api = jarvis_api })

pub record Query : Type 0 where
  pub query : String
  pub wanted_kind : Option Kind
  pub compatible_only : Bool
  pub max_risk : Risk
  pub limit : ℕ

abbrev pub risk_order : Risk → ℕ
risk_order low = 0
risk_order medium = 1
risk_order high = 2

abbrev pub same_kind : Kind → Kind → Bool
same_kind skill skill = true
same_kind plugin plugin = true
same_kind role_tool role_tool = true
same_kind ui_component ui_component = true
same_kind _ _ = false

pub data Compatibility : Type 0 where
  compatible unknown incompatible : Compatibility

pub record Evaluation : Type 0 where
  pub outcome : Compatibility
  pub reasons : List String

-- `target.value_for(runtime)`, and before it whether the runtime is known: `none` if it is not.
abbrev pub value_for : Target → String → Option (Option String)
value_for target runtime =
    if str_eq runtime "python"
    then some target.python
    else if str_eq runtime "node"
    then some target.node
    else if str_eq runtime "jarvis_api"
    then some target.jarvis_api
    else none

-- The reason that a constraint adds, if any: to the incompatible ones on the left, to the unknown ones
-- on the right.
pub data Reason : Type 0 where
  no_reason : Reason
  against unsure : String → Reason

abbrev pub constraint_reason : String → Result CapabilityError Bool → Result CapabilityError Reason
constraint_reason runtime (ok true) = ok no_reason
constraint_reason runtime (ok false) = ok (against ("constraint_mismatch:" +++ runtime))
constraint_reason runtime (err digit_limit) = err digit_limit
constraint_reason runtime (err _) = ok (against ("constraint_invalid:" +++ runtime))

abbrev pub reason_of :
    Library → String → String → Option (Option String) → Result CapabilityError Reason
reason_of lib runtime constraint none = ok (unsure ("runtime_unknown:" +++ runtime))
reason_of lib runtime constraint (some none) = ok (unsure ("runtime_unavailable:" +++ runtime))
reason_of lib runtime constraint (some (some actual)) =
    constraint_reason runtime (evaluate_constraint lib actual constraint)

abbrev pub add_reason : Reason → List String × List String → List String × List String
add_reason no_reason found = found
add_reason (against text) (incompatible_ones, unknown_ones) =
    (text ∷ incompatible_ones, unknown_ones)
add_reason (unsure text) (incompatible_ones, unknown_ones) =
    (incompatible_ones, text ∷ unknown_ones)

-- The loop over the constraints, with `incompatible` and `unknown`.
abbrev pub collect_reasons :
    Library → Target → List (String × String) → Result CapabilityError (List String × List String)
collect_reasons lib target [] = ok ([], [])
collect_reasons lib target ((runtime, constraint) ∷ rest) =
    reason_of lib runtime constraint (value_for target runtime) >>= λ reason.
    collect_reasons lib target rest >>= λ found. ok (add_reason reason found)

abbrev pub evaluation_of : List String × List String → Evaluation
evaluation_of ([], []) = record { outcome = compatible; reasons = [] }
evaluation_of ([], u ∷ us) = record { outcome = unknown; reasons = sorted (u ∷ us) }
evaluation_of (i ∷ is, us) = record { outcome = incompatible; reasons = sorted ((i ∷ is) ++ us) }

unfoldable pub evaluate_compatibility :
    Library → CapabilityRecord → Target → Result CapabilityError Evaluation
evaluate_compatibility lib r target =
    collect_reasons lib target r.compatibility >>= λ found. ok (evaluation_of found)
