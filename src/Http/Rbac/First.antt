-- ===== src/Http/Rbac/First.antt =====
-- Which policy decides about a request.
use orion.Base.{
  ℕ, ◌≡◌, refl, ap, Bool, true, false, List, [], ◌∷◌, Option, none, some, arith, inl, inr, ◌⊎◌, ◌↔◌,
}
use orion.Base.Decides.{Decides, Any}
use orion.Matching.Header.Defs.{HeaderMatcher, Request, request_matches}
use orion.Matching.Header.Meaning.{Readable, HeaderMeaning, is_match_lem}
use orion.Listener.Rbac.Defs.{Action, allow, deny, any_of, found, permitted_by, with_action}
use orion.Listener.Rbac.Meaning.{any_of-Decides, both-Decides}
use orion.Http.Rbac.Defs.{
  Permission, Principal, Policy, HttpRbac, is_applicable, has_principal, enforce, enforced_policy,
  is_permitted,
}

-- A request line of ASCII characters.
abbrev pub IsReadable : Request → Type 0
IsReadable req = Readable (some req.method) × Readable (some req.uri.path) × Readable req.uri.scheme

abbrev is_some : Option (List ℕ) → Bool
is_some none = false
is_some (some id) = true

module _ (req : Request) where
  abbrev pub HeaderHolds : HeaderMatcher → Type 0
  HeaderHolds h = HeaderMeaning h h.header_name (some req.method) (some req.uri) req.headers

  abbrev pub Applies : Permission → Type 0
  Applies Permission.any = Unit
  Applies (Permission.header h) = HeaderHolds h

  abbrev pub HasPrincipal : Principal → Type 0
  HasPrincipal Principal.any = Unit
  HasPrincipal (Principal.header h) = HeaderHolds h

  abbrev pub Enforced : Policy → Type 0
  Enforced p = Any Applies p.permissions × Any HasPrincipal p.principals

  -- The id of the first policy that is enforced, if one is.
  abbrev pub First : List (List ℕ × Policy) → Option (List ℕ) → Type 0
  First [] o = o ≡ none
  First ((id, p) ∷ policies) o = (Enforced p × (o ≡ some id)) ⊎ (¬ Enforced p × First policies o)

  -- What a rule permits: with allow only what one of its policies names, with deny all else.
  abbrev pub Permits : Action → List (List ℕ × Policy) → Type 0
  Permits allow policies = Any (λ e. Enforced e.1) policies
  Permits deny policies = ¬ Any (λ e. Enforced e.1) policies

module _ (req : Request) (readable : IsReadable req) where
  header-Decides : (h : HeaderMatcher) → Decides (request_matches h req) (HeaderHolds req h)
  unfolding request_matches
  header-Decides h =
      is_match_lem h (some req.method) (some req.uri) req.headers readable.0 readable.1 readable.2

  permission-Decides : (p : Permission) → Decides (is_applicable req p) (Applies req p)
  unfolding is_applicable
  permission-Decides Permission.any = (λ h. tt, λ u. refl)
  permission-Decides (Permission.header h) = header-Decides h

  principal-Decides : (p : Principal) → Decides (has_principal req p) (HasPrincipal req p)
  unfolding has_principal
  principal-Decides Principal.any = (λ h. tt, λ u. refl)
  principal-Decides (Principal.header h) = header-Decides h

  enforce-Decides : (p : Policy) → Decides (enforce req p) (Enforced req p)
  unfolding enforce
  enforce-Decides p =
      both-Decides (Any (Applies req) p.permissions) (Any (HasPrincipal req) p.principals)
        (any_of (is_applicable req) p.permissions) (any_of (has_principal req) p.principals)
        (any_of-Decides (is_applicable req) (Applies req) p.permissions permission-Decides)
        (any_of-Decides (has_principal req) (HasPrincipal req) p.principals principal-Decides)

  abbrev Finds : Option (Option (List ℕ)) → List (List ℕ × Policy) → Type 0
  Finds none policies = ⊥
  Finds (some o) policies = First req policies o

  found-Finds :
      (id : List ℕ) (p : Policy) (policies : List (List ℕ × Policy)) (o : Option Bool)
      (later : Option (Option (List ℕ)))
      → Decides o (Enforced req p)
      → Finds later policies
      → Finds (found id o later) ((id, p) ∷ policies)
  found-Finds id p policies none later d f = d
  found-Finds id p policies (some true) later (to, from) f = inl (to refl, refl)
  found-Finds id p policies (some false) none d f = f
  found-Finds id p policies (some false) (some o) (to, from) f =
      inr (λ e. ground (arith, from e), f)

  enforced_policy-Finds :
      (policies : List (List ℕ × Policy)) → Finds (enforced_policy req policies) policies
  unfolding enforced_policy
  enforced_policy-Finds [] = refl
  enforced_policy-Finds ((id, p) ∷ policies) =
      found-Finds id p policies (enforce req p) (enforced_policy req policies) (enforce-Decides p)
        (enforced_policy-Finds policies)

  -- The first policy is there exactly if one is enforced.
  First-Any :
      (policies : List (List ℕ × Policy)) (o : Option (List ℕ))
      → First req policies o
      → (is_some o ≡ true) ↔ Any (λ e. Enforced req e.1) policies
  First-Any [] o f = (λ h. ground (arith, ap is_some f), λ a. absurd a)
  First-Any ((id, p) ∷ policies) o (inl (e, f)) = (λ h. inl e, λ a. ap is_some f)
  First-Any ((id, p) ∷ policies) o (inr (n, f)) = (
    λ h. inr ((First-Any policies o f).0 h),
    λ a. elim a [ inl e ↦ absurd (n e) | inr b ↦ (First-Any policies o f).1 b ],
  )

  permitted-Permits :
      (action : Action) (policies : List (List ℕ × Policy)) (o : Option (List ℕ))
      → (is_some o ≡ true) ↔ Any (λ e. Enforced req e.1) policies
      → (permitted_by action o ≡ true) ↔ Permits req action policies
  permitted-Permits allow policies none (to, from) = (λ h. ground arith, λ a. from a)
  permitted-Permits allow policies (some id) (to, from) = (λ h. to refl, λ a. refl)
  permitted-Permits deny policies none (to, from) = (λ h a. ground (arith, from a), λ n. refl)
  permitted-Permits deny policies (some id) (to, from) =
      (λ h. ground arith, λ n. absurd (n (to refl)))

  with_action-First :
      (action : Action) (policies : List (List ℕ × Policy))
      (found_policy : Option (Option (List ℕ)))
      → Finds found_policy policies
      → (b : Bool) × (o : Option (List ℕ)) × First req policies o
        × (with_action action found_policy ≡ some (b, o))
        × ((b ≡ true) ↔ Permits req action policies)
  with_action-First action policies none f = absurd f
  with_action-First action policies (some o) f = (
    permitted_by action o,
    o,
    f,
    refl,
    permitted-Permits action policies o (First-Any policies o f),
  )

-- On an ASCII request line the rules decide without a panic. A request meets a policy if it meets
-- one of its permissions and one of its principals; with allow it is permitted exactly if it meets
-- some policy, with deny exactly if it meets none, and the first one it meets, in the order of the ids,
-- is named.
pub is_permitted_lem :
    (req : Request) (rbac : HttpRbac)
    → IsReadable req
    → (b : Bool) × (o : Option (List ℕ)) × First req rbac.policies o
      × (is_permitted req rbac ≡ some (b, o))
      × ((b ≡ true) ↔ Permits req rbac.action rbac.policies)
unfolding is_permitted
is_permitted_lem req rbac readable =
    with_action-First req readable rbac.action rbac.policies (enforced_policy req rbac.policies)
      (enforced_policy-Finds req readable rbac.policies)
