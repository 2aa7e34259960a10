-- ===== src/Capabilities/Snapshot.antt =====
-- `CapabilitySnapshot.create`: the records that the resolver reads.
use jarvis.Prelude.{
  ◌≡◌, refl, Bool, true, false, not, ◌==◌, if◌then◌else◌, List, map, length, sort_by, sorted,
  IsSorted, IsSorted-sort_by, Perm-sort_by, String, str_leb, str_leb-total, str_leb_trans,
}
use mathlib.Core.List.{Perm}
use mathlib.Core.Path.{subst}
use jarvis.Result.{Result, ok, err}
use jarvis.RoleRegistry.{from_keys}
use jarvis.Capabilities.Version.{CapabilityError, capability_duplicate}
use jarvis.Capabilities.Compatibility.{CapabilityRecord}

pub record CapabilitySnapshot : Type 0 where
  pub records : List CapabilityRecord
  pub issues : List String

-- key=lambda record: record.capability_id
abbrev pub id_leb : CapabilityRecord → CapabilityRecord → Bool
id_leb r s = str_leb r.capability_id s.capability_id

abbrev pub are_unique : List String → Bool
are_unique ids = length ids == length (from_keys ids)

unfoldable pub new_snapshot :
    List CapabilityRecord → (issues : List String) → Result CapabilityError CapabilitySnapshot
new_snapshot records issues =
    let ordered = sort_by id_leb records in
    if not (are_unique (map (λ r. r.capability_id) ordered))
    then err capability_duplicate
    else ok (record { records = ordered; issues = sorted (from_keys issues) })

-- The records of a snapshot, in the order of their ids, which differ.
abbrev pub IsOrdered : List CapabilityRecord → CapabilitySnapshot → Type 0
IsOrdered records s =
    (are_unique (map (λ r. r.capability_id) s.records) ≡ true)
    × IsSorted id_leb s.records
    × Perm s.records records

-- A snapshot that is created has the records, ordered by their ids, and no id twice.
pub new_snapshot-IsOrdered :
    (records : List CapabilityRecord) (issues : List String) (s : CapabilitySnapshot)
    → new_snapshot records issues ≡ ok s
    → IsOrdered records s
unfolding new_snapshot
new_snapshot-IsOrdered records issues s returned =
    let ordered = sort_by id_leb records in
    made (are_unique (map (λ r. r.capability_id) ordered))
      (record { records = ordered; issues = sorted (from_keys issues) })
      (λ unique. (
        unique,
        IsSorted-sort_by id_leb (λ r t. str_leb-total r.capability_id t.capability_id)
            (λ r t u. str_leb_trans r.capability_id t.capability_id u.capability_id) records,
        Perm-sort_by id_leb records,
      ))
      returned
  where
    made :
        (unique : Bool) (t : CapabilitySnapshot)
        → (unique ≡ true → IsOrdered records t)
        → ◌≡◌ {A = Result CapabilityError CapabilitySnapshot}
            (if not unique then err capability_duplicate else ok t)
            (ok s)
        → IsOrdered records s
    made true t holds h = let same : t ≡ s = cc in subst (IsOrdered records) same (holds refl)
    made false t holds h = absurd cc
