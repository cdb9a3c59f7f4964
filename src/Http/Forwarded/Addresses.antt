-- ===== src/Http/Forwarded/Addresses.antt =====
-- The addresses of a header are those in front of the last comma, and the one behind it.
use orion.Base.{
  ℕ, ◌≡◌, refl, ap, ◌∙◌, false, List, [], ◌∷◌, ◌++◌, Option, none, some, All, ◌==◌, arith, inl, inr,
  Bool-cases,
}
use orion.Net.{IpAddr}
use orion.Http.Forwarded.Defs.{
  IsPlain, AddrText, onto_first, split, trim_start, trim_end, trim, before_end, is_whitespace,
  parsed, parse_all, xff_ips, append_hop_to_xff,
}

split-Some : (s : List ℕ) → (p : List ℕ) × (ps : List (List ℕ)) × (split s ≡ p ∷ ps)
unfolding split
split-Some [] = ([], [], refl)
split-Some (b ∷ s) = elim (Bool-cases (b == 44)) [
  | inl h ↦ ([], split s, rw h refl)
  | inr h ↦ let (p, ps, e) = split-Some s in (b ∷ p, ps, rw (h, e) refl)
]

onto_first-append :
    (b : ℕ) (s : List ℕ) (ps : List (List ℕ))
    → onto_first b (split s ++ ps) ≡ onto_first b (split s) ++ ps
onto_first-append b s ps = let (q, qs, e) = split-Some s in rw e refl

pub split-append : (s t : List ℕ) → split (s ++ (44 ∷ t)) ≡ split s ++ split t
unfolding split
split-append [] t = refl
split-append (b ∷ s) t = elim (Bool-cases (b == 44)) [
  | inl h ↦ rw h (ap (◌∷◌ []) (split-append s t))
  | inr h ↦ rw (h, split-append s t, onto_first-append b s (split t)) refl
]

split-Plain : (s : List ℕ) → All IsPlain s → split s ≡ s ∷ []
unfolding split
split-Plain [] h = refl
split-Plain (b ∷ s) ((low, high), hs) =
    let e : (b == 44) ≡ false = ground arith in rw (e, split-Plain s hs) refl

trim_start-Plain : (s : List ℕ) → All IsPlain s → trim_start s ≡ s
unfolding trim_start
trim_start-Plain [] h = refl
trim_start-Plain (b ∷ s) ((low, high), hs) =
    let e : is_whitespace b ≡ false = ground arith in rw e refl

trim_end-Plain : (s : List ℕ) → All IsPlain s → trim_end s ≡ s
unfolding trim_end
trim_end-Plain [] h = refl
trim_end-Plain (b ∷ []) ((low, high), hs) =
    let e : is_whitespace b ≡ false = ground arith in rw e refl
trim_end-Plain (b ∷ c ∷ s) (hb, hs) = ap (before_end b) (trim_end-Plain (c ∷ s) hs)

-- Blanks in front are lost.
trim-Plain : (s : List ℕ) → All IsPlain s → trim s ≡ s
unfolding trim
trim-Plain s h = ap trim_end (trim_start-Plain s h) ∙ trim_end-Plain s h

trim-blank : (s : List ℕ) → All IsPlain s → trim (32 ∷ s) ≡ s
unfolding trim trim_start
trim-blank s h = trim-Plain s h

parsed-append : (o : Option IpAddr) (xs ys : List IpAddr) → parsed o (xs ++ ys) ≡ parsed o xs ++ ys
parsed-append none xs ys = refl
parsed-append (some ip) xs ys = refl

module _ (text : AddrText) where
  parse_all-append :
      (ps qs : List (List ℕ)) → parse_all text (ps ++ qs) ≡ parse_all text ps ++ parse_all text qs
  unfolding parse_all
  parse_all-append [] qs = refl
  parse_all-append (p ∷ ps) qs =
      ap (parsed (text.parse (trim p))) (parse_all-append ps qs)
      ∙ parsed-append (text.parse (trim p)) (parse_all text ps) (parse_all text qs)

  -- What a header says, where an empty one says nothing.
  abbrev pub known : Option (List ℕ) → List IpAddr
  known none = []
  known (some []) = []
  known (some (b ∷ s)) = xff_ips text (some (b ∷ s))

  parse-one :
      (ip : IpAddr) (s : List ℕ) → trim s ≡ text.to_string ip → parse_all text (s ∷ []) ≡ ip ∷ []
  unfolding parse_all
  parse-one ip s e = rw (e, text.parse_to_string ip) refl

  parse-only : (ip : IpAddr) → parse_all text (split (text.to_string ip)) ≡ ip ∷ []
  parse-only ip =
      let plain = text.to_string_plain ip in
      ap (parse_all text) (split-Plain (text.to_string ip) plain)
      ∙ parse-one ip (text.to_string ip) (trim-Plain (text.to_string ip) plain)

  pub xff_ips-append_hop :
      (o : Option (List ℕ)) (ip : IpAddr)
      → xff_ips text (some (append_hop_to_xff text o ip)) ≡ known o ++ (ip ∷ [])
  unfolding xff_ips append_hop_to_xff
  xff_ips-append_hop none ip = parse-only ip
  xff_ips-append_hop (some []) ip = parse-only ip
  xff_ips-append_hop (some (b ∷ s)) ip =
      let plain = text.to_string_plain ip in
      let e : split (32 ∷ text.to_string ip) ≡ (32 ∷ text.to_string ip) ∷ [] =
        rw (split-Plain (text.to_string ip) plain) refl in
      ap (parse_all text)
        (split-append (b ∷ s) (32 ∷ text.to_string ip) ∙ ap (◌++◌ (split (b ∷ s))) e)
      ∙ parse_all-append (split (b ∷ s)) ((32 ∷ text.to_string ip) ∷ [])
      ∙ ap (◌++◌ (parse_all text (split (b ∷ s))))
          (parse-one ip (32 ∷ text.to_string ip) (trim-blank (text.to_string ip) plain))
