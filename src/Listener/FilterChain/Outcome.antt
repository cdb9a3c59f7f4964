-- ===== src/Listener/FilterChain/Outcome.antt =====
-- What `select_filterchain` returns, and that the order of the chains, which is that of a hash map,
-- does not matter.
use mathlib.Core.List.{Memᴰ, Permᴰ}
use mathlib.Core.List.Permᴰ
use orion.Base.{
  ℕ, suc, length, ◌≡◌, ◌↔◌, refl, sym, ap, subst, ◌∙◌, Bool, true, false, List, [], ◌∷◌, Option,
  filter, All, if◌then◌else◌, arith, inl,
}
use orion.Net.{SocketAddr}
use orion.Listener.FilterChain.Match.{
  FilterChainMatch, DetectedTransportProtocol, MatchResult, failed_match,
}
use orion.Listener.FilterChain.Select.{
  Selected, selected, nothing, several, select, first_match, aspects, unwrap_or_empty,
  select_filterchain,
}
use orion.Listener.FilterChain.Survivors.{keeps, best_of, stage, survivors, select-survivors}
use orion.Listener.FilterChain.Places.{TwoPlaces, survivors-TwoPlaces}
use orion.Listener.FilterChain.Order.{
  AtLeast, AtLeast-antisym, best_of-least, best_of-start, best_of-bounds, Wins, survivors_iff,
}

module _ {C : Type 0} where
  -- What a result says of the winners among the chains.
  abbrev pub Outcome : List C → (C → Type 0) → Selected C → Type 0
  Outcome cs W (selected c) = W c × ((d : C) → W d → d ≡ c)
  Outcome cs W nothing = (c : C) → ¬ W c
  Outcome cs W several = (c : C) × (d : C) × W c × W d × TwoPlaces c d cs

  not_in_nil : (c : C) → ¬ Memᴰ c []
  not_in_nil c m = elim m [ ]

  outcome_of :
      (cs : List C) (W : C → Type 0) (l : List C)
      → ((c : C) → Memᴰ c l ↔ W c)
      → ((c d : C) → TwoPlaces c d l → TwoPlaces c d cs)
      → Outcome cs W (first_match l)
  outcome_of cs W [] h k = λ c w. not_in_nil c ((h c).1 w)
  outcome_of cs W (c ∷ []) h k = ((h c).0 (Memᴰ.head refl), λ d w. only c d ((h d).1 w))
    where
      only : (c d : C) → Memᴰ d (c ∷ []) → d ≡ c
      only c d (Memᴰ.head e) = e
      only c d (Memᴰ.tail m) = elim m [ ]
  outcome_of cs W (c ∷ d ∷ l) h k = (
    c,
    d,
    (h c).0 (Memᴰ.head refl),
    (h d).0 (Memᴰ.tail (Memᴰ.head refl)),
    k c d (inl (refl, Memᴰ.head refl)),
  )

  select-Outcome :
      (fs : List (C → MatchResult)) (cs : List C) → Outcome cs (Wins fs cs) (select fs cs)
  select-Outcome fs cs = subst (Outcome cs (Wins fs cs)) (sym (select-survivors fs cs)) (
      outcome_of cs (Wins fs cs) (survivors fs cs) (λ c. survivors_iff fs c cs)
        (λ c d. survivors-TwoPlaces fs c d cs))

  All-perm : (P : C → Type 0) (cs ds : List C) → Permᴰ cs ds → All P cs → All P ds
  All-perm P _ _ Permᴰ.nil a = tt
  All-perm P _ _ (Permᴰ.cons {l₁ = l₁} {l₂ = l₂} e d) (a, as') =
      (subst P e a, All-perm P l₁ l₂ d as')
  All-perm P _ _ (Permᴰ.swap e f) (a, (b, as')) = (subst P f b, (subst P e a, as'))
  All-perm P cs ds (Permᴰ.trans {l₂ = ms} d e) a = All-perm P ms ds e (All-perm P cs ms d a)

  -- The best result and the filters do not depend on the order.
  best_of-perm :
      (f : C → MatchResult) (cs ds : List C)
      → Permᴰ cs ds
      → best_of f cs failed_match ≡ best_of f ds failed_match
  best_of-perm f cs ds p =
      AtLeast-antisym (best_of f cs failed_match) (best_of f ds failed_match)
        (best_of-least f (best_of f cs failed_match) ds failed_match
          (best_of-start f cs failed_match)
          (All-perm (λ d. AtLeast (best_of f cs failed_match) (f d)) cs ds p
            (best_of-bounds f cs failed_match)))
        (best_of-least f (best_of f ds failed_match) cs failed_match
          (best_of-start f ds failed_match)
          (All-perm (λ d. AtLeast (best_of f ds failed_match) (f d)) ds cs (Permᴰ.symm p)
            (best_of-bounds f ds failed_match)))

  if_cons :
      (b c : Bool) (x y : C) (xs ys : List C)
      → b ≡ c
      → x ≡ y
      → Permᴰ xs ys
      → Permᴰ (if b then x ∷ xs else xs) (if c then y ∷ ys else ys)
  if_cons true true x y xs ys h e p = Permᴰ.cons e p
  if_cons false false x y xs ys h e p = p
  if_cons true false x y xs ys h e p = absurd (ground arith)
  if_cons false true x y xs ys h e p = absurd (ground arith)

  filter_swap :
      (a b : Bool) (x y : C) (xs : List C)
      → Permᴰ
          (if a then x ∷ (if b then y ∷ xs else xs) else (if b then y ∷ xs else xs))
          (if b then y ∷ (if a then x ∷ xs else xs) else (if a then x ∷ xs else xs))
  filter_swap true true x y xs = Permᴰ.swap refl refl
  filter_swap true false x y xs = Permᴰ.refl (x ∷ xs)
  filter_swap false true x y xs = Permᴰ.refl (y ∷ xs)
  filter_swap false false x y xs = Permᴰ.refl xs

  filter_perm : (q : C → Bool) (cs ds : List C) → Permᴰ cs ds → Permᴰ (filter q cs) (filter q ds)
  filter_perm q _ _ Permᴰ.nil = Permᴰ.nil
  filter_perm q _ _ (Permᴰ.cons {a = a} {b = b} {l₁ = l₁} {l₂ = l₂} e d) =
      if_cons (q a) (q b) a b (filter q l₁) (filter q l₂) (ap q e) e (filter_perm q l₁ l₂ d)
  filter_perm q _ _ (Permᴰ.swap {a = a} {b = b} {a' = a'} {b' = b'} {l = l} e f) =
      subst (λ z. Permᴰ (filter q (a ∷ b ∷ l)) (filter q (z ∷ b' ∷ l))) f
        (subst (λ z. Permᴰ (filter q (a ∷ b ∷ l)) (filter q (b ∷ z ∷ l))) e
          (filter_swap (q a) (q b) a b (filter q l)))
  filter_perm q cs ds (Permᴰ.trans {l₂ = ms} d e) =
      Permᴰ.trans (filter_perm q cs ms d) (filter_perm q ms ds e)

  survivors_perm :
      (fs : List (C → MatchResult)) (cs ds : List C)
      → Permᴰ cs ds
      → Permᴰ (survivors fs cs) (survivors fs ds)
  survivors_perm [] cs ds p = p
  survivors_perm (f ∷ fs) cs ds p = survivors_perm fs (stage f cs) (stage f ds) (
      subst (λ b. Permᴰ (stage f cs) (filter (λ x. keeps b (f x)) ds)) (best_of-perm f cs ds p)
        (filter_perm (λ x. keeps (best_of f cs failed_match) (f x)) cs ds p))

  length_perm : (cs ds : List C) → Permᴰ cs ds → length cs ≡ length ds
  length_perm _ _ Permᴰ.nil = refl
  length_perm _ _ (Permᴰ.cons {l₁ = l₁} {l₂ = l₂} e d) = ap suc (length_perm l₁ l₂ d)
  length_perm _ _ (Permᴰ.swap e f) = refl
  length_perm cs ds (Permᴰ.trans {l₂ = ms} d e) = length_perm cs ms d ∙ length_perm ms ds e

  first_cons :
      (a b : C) (xs ys : List C)
      → a ≡ b
      → length xs ≡ length ys
      → first_match (a ∷ xs) ≡ first_match (b ∷ ys)
  first_cons a b [] [] e h = ap selected e
  first_cons a b (x ∷ xs) (y ∷ ys) e h = refl
  first_cons a b [] (y ∷ ys) e h = absurd (ground arith)
  first_cons a b (x ∷ xs) [] e h = absurd (ground arith)

  first_match_perm : (cs ds : List C) → Permᴰ cs ds → first_match cs ≡ first_match ds
  first_match_perm _ _ Permᴰ.nil = refl
  first_match_perm _ _ (Permᴰ.cons {a = a} {b = b} {l₁ = l₁} {l₂ = l₂} e d) =
      first_cons a b l₁ l₂ e (length_perm l₁ l₂ d)
  first_match_perm _ _ (Permᴰ.swap e f) = refl
  first_match_perm cs ds (Permᴰ.trans {l₂ = ms} d e) =
      first_match_perm cs ms d ∙ first_match_perm ms ds e

module _ {T : Type 0} (source destination : SocketAddr) (server_name : Option (List ℕ))
    (protocol : DetectedTransportProtocol) where
  abbrev pub Winner : List (FilterChainMatch × T) → FilterChainMatch × T → Type 0
  Winner = Wins (aspects source destination (unwrap_or_empty server_name) protocol)

  -- A chain that is selected fails in no aspect of the connection, is as good as every chain in
  -- the order of the aspects, and is the only one; where none is, there is no such chain; and the
  -- error for several is returned only if two of them stand at different places of the list.
  pub select_filterchain_lem :
      (chains : List (FilterChainMatch × T))
      → Outcome chains
          (Winner chains)
          (select_filterchain chains source destination server_name protocol)
  unfolding select_filterchain
  select_filterchain_lem chains =
      select-Outcome (aspects source destination (unwrap_or_empty server_name) protocol) chains

  -- The selection does not depend on the order in which the hash map lists the chains.
  pub select_filterchain-perm :
      (chains chains' : List (FilterChainMatch × T))
      → Permᴰ chains chains'
      → select_filterchain chains source destination server_name protocol
        ≡ select_filterchain chains' source destination server_name protocol
  unfolding select_filterchain
  select_filterchain-perm chains chains' p =
      let fs = aspects source destination (unwrap_or_empty server_name) protocol in
      select-survivors fs chains
      ∙ first_match_perm (survivors fs chains) (survivors fs chains')
          (survivors_perm fs chains chains' p)
      ∙ sym (select-survivors fs chains')
