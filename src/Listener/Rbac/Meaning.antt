-- ===== src/Listener/Rbac/Meaning.antt =====
-- Which connections the network RBAC filters let through.
use orion.Base.{
  ℕ, ◌≤◌, ◌<◌, ◌≡◌, refl, sym, ap, subst, Bool, true, false, List, [], ◌∷◌, Option, none, some,
  arith, inl, inr, ◌⊎◌, All,
}
use orion.Base.Decides.{Decides, Any, or_else-Decides, map-Decides}
use orion.Matching.Text.Defs.{StringMatcher, matches}
use orion.Matching.Text.Meaning.{Meaning, matches_lem}
use orion.Matching.Header.Meaning.{Readable}
use orion.Net.{DownstreamConnectionMetadata}
use orion.Listener.Rbac.Defs.{
  Action, allow, deny, Permission, destination_ip, destination_port, destination_port_range,
  Principal, downstream_remote_ip, Policy, NetworkRbac, NetworkContext, name_matches, is_applicable,
  has_principal, any_of, both, enforce, found, enforced_policy, with_action, is_permitted,
  and_permitted, all_permit, network_context, apply_rbac,
}

abbrev pub Applies : NetworkContext → Permission → Type 0
Applies ctx Permission.any = Unit
Applies ctx (destination_ip ip) = ip.contains ctx.destination.ip ≡ true
Applies ctx (destination_port port) = ctx.destination.port ≡ port
Applies ctx (destination_port_range start end) =
    (start ≤ ctx.destination.port) × (ctx.destination.port < end)
Applies ctx (Permission.server_name matcher) =
    (name : List ℕ) × (ctx.server_name ≡ some name)
    × Meaning matcher.pattern matcher.ignore_case name

abbrev pub HasPrincipal : NetworkContext → Principal → Type 0
HasPrincipal ctx Principal.any = Unit
HasPrincipal ctx (downstream_remote_ip ip) = ip.contains ctx.downstream.ip ≡ true

abbrev pub Enforced : NetworkContext → List ℕ × Policy → Type 0
Enforced ctx (id, p) = Any (Applies ctx) p.permissions × Any (HasPrincipal ctx) p.principals

-- What a rule permits: with `allow` only what one of its policies names, with `deny` all else.
abbrev pub Permits : NetworkContext → Action → List (List ℕ × Policy) → Type 0
Permits ctx allow policies = Any (Enforced ctx) policies
Permits ctx deny policies = ¬ Any (Enforced ctx) policies

pub any_of-Decides :
    {A : Type 0} (test : A → Option Bool) (P : A → Type 0) (xs : List A)
    → ((x : A) → Decides (test x) (P x))
    → Decides (any_of test xs) (Any P xs)
any_of-Decides test P [] h = (λ e. ground arith, λ q. absurd q)
any_of-Decides test P (x ∷ xs) h =
    or_else-Decides (P x) (Any P xs) (test x) (any_of test xs) (h x) (any_of-Decides test P xs h)

pub both-Decides :
    (P Q : Type 0) (o p : Option Bool) → Decides o P → Decides p Q → Decides (both o p) (P × Q)
both-Decides P Q none p d e = d
both-Decides P Q (some a) none d e = e
both-Decides P Q (some true) (some b) (to, from) (to', from') =
    (λ h. (to refl, to' h), λ (x, y). from' y)
both-Decides P Q (some false) (some b) (to, from) e = (λ h. ground arith, λ (x, y). from x)

abbrev unwrap : List ℕ → Option (List ℕ) → List ℕ
unwrap d none = d
unwrap d (some s) = s

-- A policy is found exactly if one is enforced.
abbrev Finds : Option (Option (List ℕ)) → Type 0 → Type 0
Finds none Q = ⊥
Finds (some none) Q = ¬ Q
Finds (some (some id)) Q = Q

found-Finds :
    (P Q : Type 0) (id : List ℕ) (o : Option Bool) (later : Option (Option (List ℕ)))
    → Decides o P
    → Finds later Q
    → Finds (found id o later) (P ⊎ Q)
found-Finds P Q id none later d f = d
found-Finds P Q id (some true) later (to, from) f = inl (to refl)
found-Finds P Q id (some false) none d f = f
found-Finds P Q id (some false) (some none) (to, from) f =
    λ s. elim s [ inl p ↦ ground (arith, from p) | inr q ↦ f q ]
found-Finds P Q id (some false) (some (some j)) d f = inr f

abbrev permitted_of : Option (Bool × Option (List ℕ)) → Option Bool
permitted_of none = none
permitted_of (some (b, id)) = some b

action-Decides :
    (ctx : NetworkContext) (policies : List (List ℕ × Policy)) (action : Action)
    (o : Option (Option (List ℕ)))
    → Finds o (Any (Enforced ctx) policies)
    → Decides (permitted_of (with_action action o)) (Permits ctx action policies)
action-Decides ctx policies action none f = f
action-Decides ctx policies allow (some none) f = (λ h. ground arith, λ q. absurd (f q))
action-Decides ctx policies allow (some (some id)) f = (λ h. f, λ q. refl)
action-Decides ctx policies deny (some none) f = (λ h. f, λ q. refl)
action-Decides ctx policies deny (some (some id)) f = (λ h. ground arith, λ n. absurd (n f))

and_permitted-Decides :
    (P Q : Type 0) (o : Option (Bool × Option (List ℕ))) (later : Option Bool)
    → Decides (permitted_of o) P
    → Decides later Q
    → Decides (and_permitted o later) (P × Q)
and_permitted-Decides P Q none later d e = d
and_permitted-Decides P Q (some (true, id)) none d e = e
and_permitted-Decides P Q (some (true, id)) (some c) (to, from) (to', from') =
    (λ h. (to refl, to' h), λ (p, q). from' q)
and_permitted-Decides P Q (some (false, id)) later (to, from) e =
    (λ h. ground arith, λ (p, q). from p)

name-Decides :
    (m : StringMatcher) (o : Option (List ℕ))
    → Readable o
    → Decides
        (name_matches m o)
        ((name : List ℕ) × (o ≡ some name) × Meaning m.pattern m.ignore_case name)
name-Decides m none r = (λ h. ground arith, λ (name, e, q). absurd (ground arith))
name-Decides m (some name) r =
    map-Decides (Meaning m.pattern m.ignore_case name)
      ((n : List ℕ) × (some name ≡ some n) × Meaning m.pattern m.ignore_case n) (matches m name)
      (λ q. (name, refl, q))
      (λ (n, e, q). subst (Meaning m.pattern m.ignore_case) (sym (ap (unwrap name) e)) q)
      (matches_lem m name r)

module _ (ctx : NetworkContext) (readable : Readable ctx.server_name) where
  permission-Decides : (p : Permission) → Decides (is_applicable ctx p) (Applies ctx p)
  unfolding is_applicable
  permission-Decides Permission.any = (λ h. tt, λ u. refl)
  permission-Decides (destination_ip ip) = (λ h. h, λ h. h)
  permission-Decides (destination_port port) = ground arith
  permission-Decides (destination_port_range start end) =
      (λ h. (ground arith, ground arith), λ (a, b). ground arith)
  permission-Decides (Permission.server_name matcher) =
      name-Decides matcher ctx.server_name readable

  principal-Decides : (p : Principal) → Decides (has_principal ctx p) (HasPrincipal ctx p)
  unfolding has_principal
  principal-Decides Principal.any = (λ h. tt, λ u. refl)
  principal-Decides (downstream_remote_ip ip) = (λ h. h, λ h. h)

  enforce-Decides : (id : List ℕ) (p : Policy) → Decides (enforce ctx p) (Enforced ctx (id, p))
  unfolding enforce
  enforce-Decides id p =
      both-Decides (Any (Applies ctx) p.permissions) (Any (HasPrincipal ctx) p.principals)
        (any_of (is_applicable ctx) p.permissions) (any_of (has_principal ctx) p.principals)
        (any_of-Decides (is_applicable ctx) (Applies ctx) p.permissions permission-Decides)
        (any_of-Decides (has_principal ctx) (HasPrincipal ctx) p.principals principal-Decides)

  enforced_policy-Finds :
      (policies : List (List ℕ × Policy))
      → Finds (enforced_policy ctx policies) (Any (Enforced ctx) policies)
  unfolding enforced_policy
  enforced_policy-Finds [] = λ q. q
  enforced_policy-Finds ((id, p) ∷ policies) =
      found-Finds (Enforced ctx (id, p)) (Any (Enforced ctx) policies) id (enforce ctx p)
        (enforced_policy ctx policies) (enforce-Decides id p) (enforced_policy-Finds policies)

  is_permitted-Decides :
      (rbac : NetworkRbac)
      → Decides (permitted_of (is_permitted ctx rbac)) (Permits ctx rbac.action rbac.policies)
  unfolding is_permitted
  is_permitted-Decides rbac =
      action-Decides ctx rbac.policies rbac.action (enforced_policy ctx rbac.policies)
        (enforced_policy-Finds rbac.policies)

  all_permit-Decides :
      (rbacs : List NetworkRbac)
      → Decides (all_permit ctx rbacs) (All (λ r. Permits ctx r.action r.policies) rbacs)
  unfolding all_permit
  all_permit-Decides [] = (λ h. tt, λ u. refl)
  all_permit-Decides (rbac ∷ rbacs) =
      and_permitted-Decides (Permits ctx rbac.action rbac.policies)
        (All (λ r. Permits ctx r.action r.policies) rbacs) (is_permitted ctx rbac)
        (all_permit ctx rbacs) (is_permitted-Decides rbac) (all_permit-Decides rbacs)

-- A connection with an ASCII server name is let through, without a panic, exactly when every filter
-- permits it: one that allows, if one of its policies has both a permission and a principal that
-- apply to the local and the peer address and the server name; one that denies, if none has.
pub apply_rbac_lem :
    {P K : Type 0} (rbacs : List NetworkRbac) (metadata : DownstreamConnectionMetadata P K)
    (name : Option (List ℕ))
    → Readable name
    → Decides
        (apply_rbac rbacs metadata name)
        (All (λ r. Permits (network_context metadata name) r.action r.policies) rbacs)
unfolding apply_rbac
apply_rbac_lem rbacs metadata name r = all_permit-Decides (network_context metadata name) r rbacs
