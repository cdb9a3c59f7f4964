-- ===== src/Transport/Tlv/Packet.antt =====
-- What the filter does with the packets that a client sends (examples/tlv-filter-demo/send_tlv.rs).
use mathlib.Core.List.{append-nil, append_assoc}
use orion.Base.{
  ℕ, zero, suc, ◌+◌, ◌-◌, ◌≤◌, ◌<◌, ◌≡◌, refl, sym, subst, ap, ◌∙◌, List, [], ◌∷◌, ◌++◌, length,
  take, drop, arith, length-append, length-take, Bool-cases, inl, inr, ltb, min, false, ◌≢◌, ◌⊎◌,
}
use orion.Net.{v4, SocketAddr, tlv, DownstreamConnectionMetadata}
use orion.Transport.Stream.Defs.{
  arrive, block, fail, Stream, put_back, flat, IsArriving, got, from_be, read,
}
use orion.Transport.Stream.Laws.{put_back-IsArriving, take-read, drop-read, length-read}
use orion.Transport.Tlv.Defs.{
  TlvListenerFilter, type_and_length, content, error, done, process_service_address_tlv,
  process_ending_tlv, default,
}
use orion.Transport.Tlv.Process.{
  Run, finished, read_size, after_read, read_required_data, stop, parse, after_parse,
  after_required, read_and_parse_tlv, accepted, rejected, Processed, process_stream,
  extract_original_destination,
}

after_read_got :
    (next : TlvListenerFilter → Stream → Run) (f : TlvListenerFilter) (bs : List ℕ) (s : Stream)
    → 0 < length bs
    → after_read next f (got bs, s) ≡ next (record f { buffer = f.buffer ++ bs }) s
unfolding after_read
after_read_got next f [] s h = elim h [ ]
after_read_got next f (b ∷ bs) s h = refl

abbrev missing : TlvListenerFilter → ℕ
missing f = f.expected_length - length f.buffer

-- The read takes what is missing, however the bytes are cut into pieces.
abbrev Reads : TlvListenerFilter → Stream → Run → Type 0
Reads f s r =
    (s' : Stream) × (r
      ≡ finished done (record f { buffer = f.buffer ++ take (missing f) (flat s) }) s')
    × IsArriving s'
    × (flat s' ≡ drop (missing f) (flat s))

-- The first piece is used, and the reads go on with the rest of it.
Reads-grown :
    (f : TlvListenerFilter) (m : ℕ) (bs : List ℕ) (s : Stream) (r : Run)
    → m ≤ missing f
    → Reads (record f { buffer = f.buffer ++ take m bs }) (put_back (drop m bs) s) r
    → Reads f (arrive bs ∷ s) r
Reads-grown f m bs s r h (s', e, a, d) =
    (s', e ∙ ap (λ b. finished done (record f { buffer = b }) s') grown, a, d ∙ dropped)
  where
    q : f.expected_length - length (f.buffer ++ take m bs) ≡ missing f - length (take m bs)
    q = omega (arith, length-append f.buffer (take m bs))

    grown :
        (f.buffer ++ take m bs)
          ++ take
              (f.expected_length - length (f.buffer ++ take m bs))
              (flat (put_back (drop m bs) s))
        ≡ f.buffer ++ take (missing f) (bs ++ flat s)
    grown = rw q (
        append_assoc f.buffer (take m bs) _
        ∙ ap (◌++◌ f.buffer) (sym (take-read (missing f) m bs s h)))

    dropped :
        drop (f.expected_length - length (f.buffer ++ take m bs)) (flat (put_back (drop m bs) s))
        ≡ drop (missing f) (bs ++ flat s)
    dropped = rw q (sym (drop-read (missing f) m bs s h))

-- One round with bytes still missing, given the rounds after it.
read_more :
    (next : TlvListenerFilter → Stream → Run) (f : TlvListenerFilter) (s : Stream)
    → 0 < missing f
    → IsArriving s
    → missing f ≤ length (flat s)
    → ((g : TlvListenerFilter) (s' : Stream)
        → missing g < missing f
        → IsArriving s'
        → missing g ≤ length (flat s')
        → Reads g s' (next g s'))
    → Reads f s (after_read next f (read (read_size f) s))
read_more next f [] p a l ih = absurd (omega arith)
read_more next f (arrive bs ∷ s) p a l ih =
    subst (Reads f (arrive bs ∷ s))
      (sym (after_read_got next f (take m bs) s' (omega (arith, taken))))
      (Reads-grown f m bs s (next g s') (omega arith) (
        ih g s' (omega (arith, grows, taken)) (put_back-IsArriving (drop m bs) s a.1)
          (omega (arith, grows, length-read (missing f) m bs s (omega arith)))))
  where
    m : ℕ
    m = read_size f

    s' : Stream
    s' = put_back (drop m bs) s

    g : TlvListenerFilter
    g = record f { buffer = f.buffer ++ take m bs }

    taken : length (take m bs) ≡ min m (length bs)
    taken = length-take m bs

    grows : length g.buffer ≡ length f.buffer + length (take m bs)
    grows = length-append f.buffer (take m bs)
read_more next f (block ∷ s) p a l ih = elim a [ ]
read_more next f (fail ∷ s) p a l ih = elim a [ ]

read_required_data-Reads :
    (k : ℕ) (f : TlvListenerFilter) (s : Stream)
    → missing f ≤ k
    → IsArriving s
    → missing f ≤ length (flat s)
    → Reads f s (read_required_data (suc k) f s)
unfolding read_required_data
read_required_data-Reads zero f s h a l =
    let e : missing f ≡ 0 = omega arith in
    let enough : ltb (length f.buffer) f.expected_length ≡ false = ground arith in
    rw (enough, e) (s, rw append-nil, a, refl)
read_required_data-Reads (suc k) f s h a l =
    elim (Bool-cases (ltb (length f.buffer) f.expected_length)) [
      | inl more ↦ rw more (
          read_more (read_required_data (suc k)) f s (ground arith) a l
            (λ g s' b a' l'. read_required_data-Reads k g s' (omega arith) a' l'))
      | inr enough ↦
          let e : missing f ≡ 0 = ground arith in rw (enough, e) (s, rw append-nil, a, refl)
    ]

-- One round of the parsing loop over bytes that arrive.
round :
    (k : ℕ) (f : TlvListenerFilter) (s : Stream) (bs : List ℕ)
    → IsArriving s
    → flat s ≡ bs
    → missing f ≤ length bs
    → (s' : Stream) × (read_and_parse_tlv (suc k) f s
        ≡ after_parse
            (read_and_parse_tlv k)
            s'
            (parse (record f { buffer = f.buffer ++ take (missing f) bs })))
      × IsArriving s'
      × (flat s' ≡ drop (missing f) bs)
unfolding read_and_parse_tlv after_required
round k f s bs a b l = rw (← b) (
    let (s', e, a', d) = read_required_data-Reads (missing f) f s (omega arith) a (rw b l) in
    (s', ap (after_required (read_and_parse_tlv k)) e, a', d))

module _ (a b c d p q : ℕ) where
  -- The type, length and content of an IPv4 service address, and the type of the end marker.
  abbrev pub ipv4_bytes : List ℕ
  ipv4_bytes = 1 ∷ 0 ∷ 0 ∷ 0 ∷ 6 ∷ a ∷ b ∷ c ∷ d ∷ p ∷ q ∷ 254 ∷ []

  abbrev pub ipv4_address : SocketAddr
  ipv4_address = record { ip = v4 (from_be (a ∷ b ∷ c ∷ d ∷ []) 0); port = from_be (p ∷ q ∷ []) 0 }

  abbrev ipv4_header : TlvListenerFilter
  ipv4_header = record {
    state = content;
    expected_length = 11;
    index = 5;
    content_length = 6;
    max_length = 256;
    buffer = 1 ∷ 0 ∷ 0 ∷ 0 ∷ 6 ∷ [];
  }

  abbrev ipv4_body : TlvListenerFilter
  ipv4_body = record {
    state = type_and_length;
    expected_length = 12;
    index = 11;
    content_length = 6;
    max_length = 256;
    buffer = 1 ∷ 0 ∷ 0 ∷ 0 ∷ 6 ∷ a ∷ b ∷ c ∷ d ∷ p ∷ q ∷ [];
  }

  abbrev ipv4_end : TlvListenerFilter
  ipv4_end = record ipv4_body { expected_length = 16; buffer = ipv4_bytes }

  ipv4_rounds :
      (k : ℕ) (s : Stream) (rest : List ℕ)
      → IsArriving s
      → flat s ≡ ipv4_bytes ++ rest
      → (s' : Stream) × (read_and_parse_tlv (suc (suc (suc k))) default s
          ≡ finished done ipv4_end s')
        × (flat s' ≡ rest)
  unfolding default parse after_parse
  ipv4_rounds k s rest h e =
      let (s₁, e₁, h₁, d₁) = round (suc (suc k)) default s (ipv4_bytes ++ rest) h e (omega arith) in
      let (s₂, e₂, h₂, d₂) = round (suc k) ipv4_header s₁ _ h₁ d₁ (omega arith) in
      let (s₃, e₃, h₃, d₃) = round k ipv4_body s₂ _ h₂ d₂ (omega arith) in (s₃, e₁ ∙ e₂ ∙ e₃, d₃)

-- What the filter refuses in the first five bytes, a type and a length.
abbrev pub Refused : ℕ → ℕ → Type 0
Refused tlv_type n =
    ((tlv_type ≢ 1) × (tlv_type ≢ 254))
    ⊎ ((tlv_type ≡ 1) × (n ≢ 6) × (n ≢ 18))
    ⊎ ((tlv_type ≡ 254) × (n ≢ 0))

-- The filter with the first header in its buffer.
abbrev header_read : (t l₃ l₂ l₁ l₀ : ℕ) → TlvListenerFilter
header_read t l₃ l₂ l₁ l₀ = record {
  state = type_and_length;
  expected_length = 5;
  index = 0;
  content_length = 0;
  max_length = 256;
  buffer = t ∷ l₃ ∷ l₂ ∷ l₁ ∷ l₀ ∷ [];
}

parse-Refused :
    (t l₃ l₂ l₁ l₀ : ℕ)
    → Refused t (from_be (l₃ ∷ l₂ ∷ l₁ ∷ l₀ ∷ []) 0)
    → parse (header_read t l₃ l₂ l₁ l₀) ≡ stop error (header_read t l₃ l₂ l₁ l₀)
unfolding parse process_service_address_tlv process_ending_tlv
parse-Refused t l₃ l₂ l₁ l₀ r = ground arith

module _ (Protocol TlvKey : Type 0) (s : Stream) (local peer : SocketAddr) where
  abbrev verdict : Processed (DownstreamConnectionMetadata Protocol TlvKey)
  verdict = process_stream {Protocol = Protocol} {TlvKey = TlvKey} default s local peer

  -- A stream that carries an IPv4 service address and then the type byte of the end marker, in
  -- pieces of any size, is accepted with that address as its destination. The filter has then read
  -- up to that byte: all that follows stays in the stream, the four length bytes of the end marker
  -- included.
  pub ipv4_packet :
      (a b c d p q : ℕ) (rest : List ℕ)
      → IsArriving s
      → flat s ≡ ipv4_bytes a b c d p q ++ rest
      → (s' : Stream) × (verdict ≡ accepted s' (tlv (ipv4_address a b c d p q) [] peer local))
        × (flat s' ≡ rest)
  unfolding process_stream default extract_original_destination
  ipv4_packet a b c d p q rest h e =
      let (s', r, f) = ipv4_rounds a b c d p q 512 s rest h e in (s', rw (r, process_stream), f)

  -- A stream whose first TLV has an unknown type, is a service address of a length other than 6
  -- and 18, or is an end marker of a length other than 0, is rejected.
  pub Refused-header :
      (t l₃ l₂ l₁ l₀ : ℕ) (rest : List ℕ)
      → IsArriving s
      → flat s ≡ t ∷ l₃ ∷ l₂ ∷ l₁ ∷ l₀ ∷ rest
      → Refused t (from_be (l₃ ∷ l₂ ∷ l₁ ∷ l₀ ∷ []) 0)
      → verdict ≡ rejected
  unfolding process_stream default after_parse
  Refused-header t l₃ l₂ l₁ l₀ rest h e r =
      let (s₁, e₁, _, _) = round 514 default s _ h e (omega arith) in
      let refused = ap (after_parse (read_and_parse_tlv 514) s₁) (parse-Refused t l₃ l₂ l₁ l₀ r) in
      rw (e₁ ∙ refused, process_stream)
