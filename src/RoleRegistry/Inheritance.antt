-- ===== src/RoleRegistry/Inheritance.antt =====
-- `RoleRegistry._resolve_inheritance`.
use jarvis.Prelude.{
  ℕ, suc, ◌+◌, ◌≡◌, refl, ◌∙◌, not, ◌&&◌, ◌||◌, List, [], ◌∷◌, ◌++◌, any, Option, some, none,
  String, eq_iff, elem, elem-append, arith,
}
use mathlib.Core.Path.{subst}
use jarvis.RoleRegistry.{
  AgentProfile, RoleRegistry, find, fresh_in, from_keys, inherit, chain_from, fold_chain,
  resolve_inheritance,
}
use jarvis.RoleRegistry.Cycles.{Ends, root, missing, up, IsAcyclic}

elem-fresh_in :
    (x : String) (seen xs : List String)
    → elem x (fresh_in seen xs) ≡ (elem x xs && not (elem x seen))
elem-fresh_in x seen [] = refl
elem-fresh_in x seen (y ∷ xs) =
    ground (arith, elem-fresh_in x seen xs, elem-fresh_in x (y ∷ seen) xs, eq_iff y x)

elem-from_keys : (x : String) (xs : List String) → elem x (from_keys xs) ≡ elem x xs
elem-from_keys x xs = ground (arith, elem-fresh_in x [] xs)

elem-inherit :
    (t : String) (resolved child : AgentProfile)
    → elem t (inherit resolved child).tools ≡ (elem t resolved.tools || elem t child.tools)
unfolding inherit
elem-inherit t resolved child =
    elem-from_keys t (resolved.tools ++ child.tools) ∙ elem-append t resolved.tools child.tools

elem-fold_chain :
    (t : String) (child : AgentProfile) (chain : List AgentProfile)
    → elem t (fold_chain child chain).tools ≡ any (λ p. elem t p.tools) (child ∷ chain)
unfolding fold_chain
elem-fold_chain t child [] = ground arith
elem-fold_chain t child (parent ∷ chain) =
    ground (arith, elem-inherit t (fold_chain parent chain) child, elem-fold_chain t parent chain)

-- The roles that a role inherits from, itself first.
pub data Ancestry (roles : List AgentProfile) : AgentProfile → List AgentProfile → Type 0 where
  alone : (p : AgentProfile) → p.parent_role ≡ none → Ancestry roles p (p ∷ [])
  orphan :
      (p : AgentProfile) (v : String)
      → p.parent_role ≡ some v
      → find roles v ≡ none
      → Ancestry roles p (p ∷ [])
  below :
      (p : AgentProfile) (v : String) (parent : AgentProfile) (chain : List AgentProfile)
      → p.parent_role ≡ some v
      → find roles v ≡ some parent
      → Ancestry roles parent chain
      → Ancestry roles p (p ∷ chain)

chain_from-alone :
    (roles : List AgentProfile) (p : AgentProfile) (n : ℕ)
    → p.parent_role ≡ none
    → chain_from roles (suc n) p ≡ some (p ∷ [])
unfolding chain_from
chain_from-alone roles p n e = ground (arith, e)

chain_from-orphan :
    (roles : List AgentProfile) (p : AgentProfile) (v : String) (n : ℕ)
    → p.parent_role ≡ some v
    → find roles v ≡ none
    → chain_from roles (suc n) p ≡ some (p ∷ [])
unfolding chain_from
chain_from-orphan roles p v n e f = ground (arith, e, f)

chain_from-below :
    (roles : List AgentProfile) (p parent : AgentProfile) (v : String) (n : ℕ)
    (chain : List AgentProfile)
    → p.parent_role ≡ some v
    → find roles v ≡ some parent
    → chain_from roles n parent ≡ some chain
    → chain_from roles (suc n) p ≡ some (p ∷ chain)
unfolding chain_from
chain_from-below roles p parent v n chain e f g = ground (arith, e, f, g)

-- The chain's tail and the fuel with which it is found, and that it is found with any more.
abbrev Found : List AgentProfile → AgentProfile → Type 0
Found roles p =
    (n : ℕ) × (tail : List AgentProfile) × Ancestry roles p (p ∷ tail)
    × ((extra : ℕ) → chain_from roles (n + extra) p ≡ some (p ∷ tail))

one_more :
    (roles : List AgentProfile) (p : AgentProfile) (n : ℕ) (o : Option (List AgentProfile))
    → ((extra : ℕ) → chain_from roles (suc (n + extra)) p ≡ o)
    → (extra : ℕ) → chain_from roles (suc n + extra) p ≡ o
one_more roles p n o h extra =
    let same : suc (n + extra) ≡ suc n + extra = omega arith in
    subst (λ k. chain_from roles k p ≡ o) same (h extra)

Ends-Found :
    (roles : List AgentProfile) (p : AgentProfile) (v : Option String)
    → p.parent_role ≡ v
    → Ends roles v
    → Found roles p
Ends-Found roles p _ e root =
    (1, [], alone p e, one_more roles p 0 _ (λ extra. chain_from-alone roles p (0 + extra) e))
Ends-Found roles p _ e (missing v absent) = (
  1,
  [],
  orphan p v e absent,
  one_more roles p 0 _ (λ extra. chain_from-orphan roles p v (0 + extra) e absent),
)
Ends-Found roles p _ e (up v parent found rest) =
    let (n, tail, ancestry, enough) = Ends-Found roles parent parent.parent_role refl rest in
    (
      suc n,
      parent ∷ tail,
      below p v parent (parent ∷ tail) e found ancestry,
      one_more roles p n _ (λ extra.
          chain_from-below roles p parent v (n + extra) (parent ∷ tail) e found (enough extra)),
    )

Ends-parent :
    (roles : List AgentProfile) (v : Option String)
    → ((w : String) → Ends roles (some w))
    → Ends roles v
Ends-parent roles none h = root
Ends-parent roles (some w) h = h w

-- In a registry where no role is its own ancestor the inheritance of any profile is resolved, with
-- enough fuel. The resolved role has exactly the tools of the roles that the profile inherits from
-- and its own.
pub resolve-tools :
    (registry : RoleRegistry) (profile : AgentProfile)
    → IsAcyclic registry
    → (fuel : ℕ) × (chain : List AgentProfile) × (resolved : AgentProfile) × Ancestry registry.roles
        profile chain
      × ((extra : ℕ) → resolve_inheritance registry (fuel + extra) profile ≡ some resolved)
      × ((t : String) → elem t resolved.tools ≡ any (λ q. elem t q.tools) chain)
unfolding resolve_inheritance
resolve-tools registry p acyclic =
    let (fuel, tail, ancestry, enough) =
      Ends-Found registry.roles p p.parent_role refl
        (Ends-parent registry.roles p.parent_role acyclic) in
    (
      fuel,
      p ∷ tail,
      fold_chain p tail,
      ancestry,
      λ extra. ground (arith, enough extra),
      λ t. elem-fold_chain t p tail,
    )
