-- ===== src/RoleRegistry/Cycles.antt =====
-- `RoleRegistry.register` and `unregister`: no role is its own ancestor.
use jarvis.Prelude.{
  ℕ, zero, suc, ◌+◌, ◌≤◌, ◌<◌, ◌≡◌, ◌≢◌, ◌↔◌, inl, inr, refl, sym, ap, ◌∙◌, count→elem, true, false,
  Bool-cases, Option-cases, not, if◌then◌else◌, List, [], ◌∷◌, ◌++◌, map, length, length-map,
  select, Option, some, none, String, str_eq, eq_iff, elem, count, count_le→length_le, arith,
}
use mathlib.Core.Path.{subst}
use jarvis.Result.{err, ok, Result-cases}
use jarvis.RoleRegistry.{
  AgentProfile, RoleRegistry, out_of_fuel, find, parent_of, walk, validate_acyclic_registration,
  register, unregister,
}

-- Following the parents from a name ends: at no parent, or at a name that is not registered.
pub data Ends (roles : List AgentProfile) : Option String → Type 0 where
  root : Ends roles none
  missing : (v : String) → find roles v ≡ none → Ends roles (some v)
  up :
      (v : String) (p : AgentProfile)
      → find roles v ≡ some p
      → Ends roles p.parent_role
      → Ends roles (some v)

-- No role is its own ancestor.
abbrev pub IsAcyclic : RoleRegistry → Type 0
IsAcyclic registry = (v : String) → Ends registry.roles (some v)

-- It ends, and does not meet `x`.
data Avoids (roles : List AgentProfile) (x : String) : Option String → Type 0 where
  root : Avoids roles x none
  missing : (v : String) → str_eq v x ≡ false → find roles v ≡ none → Avoids roles x (some v)
  up :
      (v : String) (p : AgentProfile)
      → str_eq v x ≡ false
      → find roles v ≡ some p
      → Avoids roles x p.parent_role
      → Avoids roles x (some v)

find-append :
    (roles : List AgentProfile) (p : AgentProfile) (v : String)
    → find (roles ++ p ∷ []) v
      ≡ elim (find roles v) [ some q ↦ some q | none ↦ if str_eq p.name v then some p else none ]
find-append [] p v = refl
find-append (q ∷ roles) p v = ground (arith, find-append roles p v)

find-select :
    (roles : List AgentProfile) (name v : String)
    → find (select (λ p. not (str_eq p.name name)) roles) v
      ≡ (if str_eq v name then none else find roles v)
find-select [] name v = ground arith
find-select (q ∷ roles) name v =
    ground (arith, find-select roles name v, eq_iff q.name name, eq_iff v name, eq_iff q.name v)

walk-Avoids :
    (roles : List AgentProfile) (x : String) (fuel : ℕ) (path seen : List String)
    (v : Option String)
    → elem x seen ≡ true
    → walk roles fuel path seen v ≡ ok tt
    → Avoids roles x v
unfolding walk
walk-Avoids roles x fuel path seen none h e = root
walk-Avoids roles x zero path seen (some v) h e = absurd (ground (arith, e))
walk-Avoids roles x (suc fuel) path seen (some v) h e =
    let other : str_eq v x ≡ false = ground (arith, eq_iff v x) in
    let rest : walk roles fuel (v ∷ path) (v ∷ seen) (parent_of roles v) ≡ ok tt = ground arith in
    let further : Avoids roles x (parent_of roles v) =
      walk-Avoids roles x fuel (v ∷ path) (v ∷ seen) (parent_of roles v) (ground arith) rest in
    elim (Option-cases (find roles v)) [
      | inl none_found ↦ missing v other none_found
      | inr (p, found) ↦ up v p other found (
          subst (λ o. Avoids roles x (elim o [ none ↦ none | some q ↦ q.parent_role ])) found
            further)
    ]

Avoids→Ends :
    (roles : List AgentProfile) (p : AgentProfile) (v : Option String)
    → Avoids roles p.name v
    → Ends (roles ++ p ∷ []) v
Avoids→Ends roles p _ root = root
Avoids→Ends roles p _ (missing v other none_found) =
    missing v (ground (arith, find-append roles p v, eq_iff p.name v, eq_iff v p.name))
Avoids→Ends roles p _ (up v q other found rest) =
    up v q (ground (arith, find-append roles p v)) (Avoids→Ends roles p q.parent_role rest)

Ends-append :
    (roles : List AgentProfile) (p : AgentProfile) (v : Option String)
    → Ends (roles ++ p ∷ []) p.parent_role
    → Ends roles v
    → Ends (roles ++ p ∷ []) v
Ends-append roles p _ parents root = root
Ends-append roles p _ parents (missing v none_found) = elim (Bool-cases (str_eq p.name v)) [
  | inl same ↦ up v p (ground (arith, find-append roles p v)) parents
  | inr other ↦ missing v (ground (arith, find-append roles p v))
]
Ends-append roles p _ parents (up v q found rest) =
    up v q (ground (arith, find-append roles p v)) (Ends-append roles p q.parent_role parents rest)

Ends-select :
    (roles : List AgentProfile) (name : String) (v : Option String)
    → Ends roles v
    → Ends (select (λ p. not (str_eq p.name name)) roles) v
Ends-select roles name _ root = root
Ends-select roles name _ (missing v none_found) =
    missing v (ground (arith, find-select roles name v))
Ends-select roles name _ (up v q found rest) = elim (Bool-cases (str_eq v name)) [
  | inl same ↦ missing v (ground (arith, find-select roles name v))
  | inr other ↦
      up v q (ground (arith, find-select roles name v)) (Ends-select roles name q.parent_role rest)
]

register-accepted :
    (registry : RoleRegistry) (profile : AgentProfile) (next : RoleRegistry)
    → register registry profile ≡ ok next
    → (walk registry.roles
          (suc (suc (length registry.roles)))
          (profile.name ∷ [])
          (profile.name ∷ [])
          profile.parent_role
        ≡ ok tt)
      × (next ≡ record { roles = registry.roles ++ profile ∷ [] })
unfolding register validate_acyclic_registration
register-accepted registry profile next e =
    elim (Result-cases (validate_acyclic_registration registry profile)) [
      | inl (tt, accepted) ↦ (accepted, ground (arith, accepted))
      | inr (error, refused) ↦ absurd (ground (arith, refused))
    ]

-- A registration that is accepted keeps the registry acyclic.
pub register-IsAcyclic :
    (registry : RoleRegistry) (profile : AgentProfile) (next : RoleRegistry)
    → IsAcyclic registry
    → register registry profile ≡ ok next
    → IsAcyclic next
register-IsAcyclic registry profile next acyclic e =
    let (accepted, same) = register-accepted registry profile next e in
    let parents =
      walk-Avoids registry.roles profile.name (suc (suc (length registry.roles)))
        (profile.name ∷ []) (profile.name ∷ []) profile.parent_role
        (ground (arith, eq_iff profile.name profile.name)) accepted in
    subst IsAcyclic (sym same) (λ v.
      Ends-append registry.roles profile (some v)
        (Avoids→Ends registry.roles profile profile.parent_role parents) (acyclic v))

known :
    (found : Option AgentProfile)
    → (elim found [ none ↦ false | some p ↦ true ] ≡ true) ↔ (found ≢ none)
known none = (λ h. absurd (ground (arith, h)), λ h. absurd (h refl))
known (some p) = (λ h e. absurd (ground (arith, e)), λ h. refl)

-- After a role is taken out its name is unknown and every other name has the role that it had. The
-- answer tells whether the name was known, and the registry stays acyclic.
pub unregister-IsAcyclic :
    (registry : RoleRegistry) (name : String)
    → IsAcyclic registry
    → IsAcyclic (unregister registry name).0
      × ((v : String)
          → find (unregister registry name).0.roles v
            ≡ (if str_eq v name then none else find registry.roles v))
      × (((unregister registry name).1 ≡ true) ↔ (find registry.roles name ≢ none))
unfolding unregister
unregister-IsAcyclic registry name acyclic = (
  λ v. Ends-select registry.roles name (some v) (acyclic v),
  find-select registry.roles name,
  known (find registry.roles name),
)

names : List AgentProfile → List String
names roles = map (λ p. p.name) roles

count-names :
    (roles : List AgentProfile) (v : String) (p : AgentProfile)
    → find roles v ≡ some p
    → 0 < count v (names roles)
unfolding names
count-names [] v p e = absurd (ground (arith, e))
count-names (q ∷ roles) v p e = ground (arith, count-names roles v p)

length-names : (roles : List AgentProfile) → length (names roles) ≡ length roles
unfolding names
length-names roles = length-map (λ p. p.name) roles

walk_fuel :
    (roles : List AgentProfile) (x : String) (fuel : ℕ) (path seen : List String)
    (v : Option String)
    → ((w : String) → count w seen ≤ count w (x ∷ names roles))
    → length roles + 2 ≤ fuel + length seen
    → walk roles fuel path seen v ≢ err out_of_fuel
unfolding walk
walk_fuel roles x fuel path seen none within enough e = absurd (ground (arith, e))
walk_fuel roles x zero path seen (some v) within enough e =
    absurd (omega (arith, count_le→length_le seen (x ∷ names roles) within, length-names roles))
walk_fuel roles x (suc fuel) path seen (some v) within enough e =
    elim (Option-cases (find roles v)) [
      | inl none_found ↦
          let stops : walk roles fuel (v ∷ path) (v ∷ seen) (parent_of roles v) ≡ ok tt =
            subst
              (λ o.
                walk roles fuel (v ∷ path) (v ∷ seen)
                  (elim o [ none ↦ none | some q ↦ q.parent_role ])
                ≡ ok tt)
              (sym none_found) refl in
          absurd (ground (arith, e, stops))
      | inr (p, found) ↦
          let unseen : elem v seen ≡ false = ground (arith, e) in
          walk_fuel roles x fuel (v ∷ path) (v ∷ seen) (parent_of roles v)
            (λ w.
              ground (
                arith,
                within w,
                count-names roles v p found,
                count→elem v seen,
                eq_iff v w,
                unseen,
              ))
            (omega (arith, enough)) (ground (arith, e, unseen))
    ]

-- The `while` of the cycle check ends: the fuel is never used up.
pub register-ne-out_of_fuel :
    (registry : RoleRegistry) (profile : AgentProfile) → register registry profile ≢ err out_of_fuel
unfolding register validate_acyclic_registration
register-ne-out_of_fuel registry profile e =
    let ends =
      walk_fuel registry.roles profile.name (suc (suc (length registry.roles))) (profile.name ∷ [])
        (profile.name ∷ []) profile.parent_role (λ w. omega arith) (omega arith) in
    elim (Result-cases (validate_acyclic_registration registry profile)) [
      | inl (tt, accepted) ↦ absurd (ground (arith, accepted, e))
      | inr (error, refused) ↦
          let same : error ≡ out_of_fuel = ground (arith, refused, e) in
          ends (refused ∙ ap (λ r. err r) same)
    ]
