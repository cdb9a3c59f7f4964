-- ===== src/Transport/ProxyProtocol/Conserving.antt =====
-- No byte is lost: what the reader consumed and what it left are the stream, and a connection that
-- passes through gets all of it back. Version 1 headers, which end with their line.
use mathlib.Core.List.{append_assoc, append-nil}
use orion.Base.{
  list_eq, ℕ, zero, suc, ◌+◌, ◌-◌, ◌≡◌, refl, subst, ap, ◌∙◌, ◌&&◌, List, [], ◌∷◌, ◌++◌, Option,
  none, some, length, take, get_or, ltb, leb, ◌==◌, inl, inr, Bool-cases, take-append-drop,
}
use orion.Net.{SocketAddr, socket}
use orion.Transport.ProxyProtocol.Defs.{
  Ppp, DownstreamProxyProtocolConfig, DetectedHeader, transparent_passthrough, apply_policy,
}
use orion.Transport.ProxyProtocol.Header.{
  HeaderRead, detected, failed, panicked, read_header_bytes, head_read, v1_read, v2_or_none,
  v2_read, v2_body, extended_read, extended_body, Line, ended, closed, overlong, longer, read_line,
  read_exact,
}
use orion.Transport.ProxyProtocol.Metadata.{served, serve_read, serve, try_read_proxy_header}
use orion.Transport.Stream.Defs.{put_back}
use orion.Transport.Rewind.Replay.{bytes, bytes-put_back}
use orion.Transport.ProxyProtocol.Reading.{stated_length}

abbrev Conserves : List ℕ → HeaderRead → Type 0
Conserves s (detected header bs rest) = bs ++ rest ≡ s
Conserves s (failed e) = Unit
Conserves s panicked = Unit

abbrev LineConserves : List ℕ → Line → Type 0
LineConserves s (ended line rest) = line ++ rest ≡ s
LineConserves s closed = Unit
LineConserves s overlong = Unit

abbrev ExactConserves : List ℕ → Option (List ℕ × List ℕ) → Type 0
ExactConserves s none = Unit
ExactConserves s (some (bs, rest)) = bs ++ rest ≡ s

read_exact-Conserves : (n : ℕ) (s : List ℕ) → ExactConserves s (read_exact n s)
unfolding read_exact
read_exact-Conserves n s = elim (Bool-cases (ltb (length s) n)) [
  | inl short ↦ rw short tt
  | inr enough ↦ rw enough (take-append-drop n s)
]

longer-Conserves :
    (b : ℕ) (s : List ℕ) (line : Line)
    → LineConserves s line
    → LineConserves (b ∷ s) (longer b line)
longer-Conserves b s (ended line rest) h = ap (◌∷◌ b) h
longer-Conserves b s closed h = tt
longer-Conserves b s overlong h = tt

read_line-Conserves : (n last : ℕ) (s : List ℕ) → LineConserves s (read_line n last s)
unfolding read_line
read_line-Conserves zero last s = tt
read_line-Conserves (suc n) last [] = tt
read_line-Conserves (suc n) last (b ∷ s) = elim (Bool-cases (last == b'\r' && b == b'\n')) [
  | inl end ↦ rw end refl
  | inr on ↦ rw on (longer-Conserves b s (read_line n b s) (read_line-Conserves n b s))
]

v1_read-Conserves :
    (head s : List ℕ) (line : Line)
    → LineConserves s line
    → Conserves (head ++ s) (v1_read head line)
unfolding v1_read
v1_read-Conserves head s (ended line rest) h = append_assoc head line rest ∙ ap (◌++◌ head) h
v1_read-Conserves head s closed h = tt
v1_read-Conserves head s overlong h = tt

v2_body-Conserves :
    (head s : List ℕ) (n : ℕ) (r : Option (List ℕ × List ℕ))
    → ExactConserves s r
    → Conserves (head ++ s) (v2_body head n r)
unfolding v2_body
v2_body-Conserves head s n none h = tt
v2_body-Conserves head s n (some (bs, rest)) h = append_assoc head bs rest ∙ ap (◌++◌ head) h

extended_body-Conserves :
    (head buffer s : List ℕ) (r : Option (List ℕ × List ℕ))
    → ExactConserves s r
    → Conserves (head ++ s) (extended_body head buffer r)
unfolding extended_body
extended_body-Conserves head buffer s none h = tt
extended_body-Conserves head buffer s (some (bs, rest)) h =
    append_assoc head bs rest ∙ ap (◌++◌ head) h

-- The last two parts of a version 2 header, whatever its length.
extended_read-Conserves :
    (head s buffer : List ℕ) (n : ℕ) → Conserves (head ++ s) (extended_read head n buffer s)
unfolding extended_read
extended_read-Conserves head s buffer n = elim (Bool-cases (leb n (length buffer))) [
  | inl inside ↦ rw inside (
      extended_body-Conserves head buffer s (read_exact (n - 16) s)
        (read_exact-Conserves (n - 16) s))
  | inr outside ↦ rw outside tt
]

v2_read-Conserves : (head s : List ℕ) → Conserves (head ++ s) (v2_read head s)
unfolding v2_read
v2_read-Conserves head s =
    let n = 16 + stated_length head in
    elim (Bool-cases (ltb 512 n)) [
      | inl long ↦ rw long (extended_read-Conserves head s (take 16 head) n)
      | inr short ↦
          rw short
            (v2_body-Conserves head s n (read_exact (n - 16) s) (read_exact-Conserves (n - 16) s))
    ]

-- The stream that is rewound gives what was consumed, and then what was left.
rewound_bytes : (bs rest : List ℕ) → bytes (put_back bs (put_back rest [])) ≡ bs ++ rest
rewound_bytes bs rest =
    bytes-put_back bs (put_back rest []) ∙ ap (◌++◌ bs) (bytes-put_back rest [] ∙ append-nil rest)

module _ (ppp : Ppp) where
  v2_or_none-Conserves :
      (head s : List ℕ) (r : Option (List ℕ × List ℕ))
      → ExactConserves s r
      → Conserves (head ++ s) (v2_or_none ppp head r)
  unfolding v2_or_none
  v2_or_none-Conserves head s none h = tt
  v2_or_none-Conserves head s (some (more, rest)) h =
      subst (λ t. Conserves t (v2_or_none ppp head (some (more, rest))))
        (append_assoc head more rest ∙ ap (◌++◌ head) h)
        (elim (Bool-cases (list_eq (take 12 (head ++ more)) ppp.v2_prefix)) [
          | inl found ↦ rw found (v2_read-Conserves (head ++ more) rest)
          | inr other ↦ rw other refl
        ])

  head_read-Conserves :
      (s : List ℕ) (r : Option (List ℕ × List ℕ))
      → ExactConserves s r
      → Conserves s (head_read ppp r)
  unfolding head_read
  head_read-Conserves s none h = tt
  head_read-Conserves s (some (head, rest)) h =
      subst (λ t. Conserves t (head_read ppp (some (head, rest)))) h
        (elim (Bool-cases (list_eq head ppp.v1_prefix)) [
          | inl v1 ↦ rw v1 (
              v1_read-Conserves head rest (read_line 102 (get_or head 4 0) rest)
                (read_line-Conserves 102 (get_or head 4 0) rest))
          | inr other ↦
              rw other
                (v2_or_none-Conserves head rest (read_exact 11 rest) (read_exact-Conserves 11 rest))
        ])

  -- The bytes that were consumed for a header, followed by what is left, are the stream.
  read_header_bytes-Conserves : (s : List ℕ) → Conserves s (read_header_bytes ppp s)
  unfolding read_header_bytes
  read_header_bytes-Conserves s = head_read-Conserves s (read_exact 5 s) (read_exact-Conserves 5 s)

  passed_through :
      (config : DownstreamProxyProtocolConfig) (s : List ℕ) (local peer : SocketAddr)
      (r : HeaderRead)
      → Conserves s r
      → (header : DetectedHeader) (bs rest : List ℕ) → r ≡ detected header bs rest
      → apply_policy config header ≡ transparent_passthrough
      → serve_read ppp config local peer r ≡ served (socket peer local none) s
  unfolding serve_read serve
  passed_through config s local peer r h header bs rest e p =
      let h' : bs ++ rest ≡ s = subst (Conserves s) e h in
      rw (e, p, rewound_bytes bs rest ∙ h') refl

  -- A connection whose header the policy passes through is served with its whole stream, every
  -- byte that was read for the header included, and with the addresses of its socket.
  pub passthrough_keeps_stream :
      (config : DownstreamProxyProtocolConfig) (s : List ℕ) (local peer : SocketAddr)
      (header : DetectedHeader) (bs rest : List ℕ)
      → read_header_bytes ppp s ≡ detected header bs rest
      → apply_policy config header ≡ transparent_passthrough
      → try_read_proxy_header ppp config s local peer ≡ served (socket peer local none) s
  unfolding try_read_proxy_header
  passthrough_keeps_stream config s local peer header bs rest e p =
      passed_through config s local peer (read_header_bytes ppp s) (read_header_bytes-Conserves s)
        header bs rest e p
