-- ===== src/Transport/Tlv/Total.antt =====
-- The parsing loop ends within its rounds, never indexes past the buffer, and reads a bounded
-- number of bytes, whatever the peer sends.
use Prim.Native.Nat.{max}
use orion.Base.{
  ℕ, zero, suc, ◌+◌, ◌-◌, ◌*◌, ◌≤◌, ◌<◌, ◌≡◌, refl, sym, subst, List, [], ◌∷◌, ◌++◌, some, length,
  length-append, length-take, get_elem?, ltb, ◌==◌, if◌then◌else◌, arith, inl, inr, Bool-cases, ◌⊎◌,
}
use orion.Transport.Stream.Defs.{
  arrive, block, fail, Stream, Outcome, got, would_block, failed, read,
}
use orion.Transport.Tlv.Defs.{
  TlvListenerFilter, TlvParseState, type_and_length, content, done, error, skip_filter, new,
  process_service_address_tlv, process_ending_tlv, process_tlv_content,
}
use orion.Transport.Tlv.Process.{
  Run, finished, panicked, out_of_fuel, read_size, after_read, read_required_data, Parsed, again,
  stop, out_of_bounds, parse_type, parse_state, parse, after_parse, after_required,
  read_and_parse_tlv, rounds,
}

-- A read that ends changes the buffer only, up to what is expected; `done` has all of that.
abbrev ReadEnds : TlvListenerFilter → Run → Type 0
ReadEnds f (finished state f' s') =
    (f' ≡ record f { buffer = f'.buffer })
    × (length f'.buffer ≤ max f.expected_length (length f.buffer))
    × (state ≡ done → f.expected_length ≤ length f'.buffer)
ReadEnds f panicked = ⊥
ReadEnds f out_of_fuel = ⊥

abbrev Gives : ℕ → Outcome → Type 0
Gives n (got bs) = length bs ≤ n
Gives n would_block = Unit
Gives n failed = Unit

read-Gives : (n : ℕ) (s : Stream) → Gives n (read n s).0
read-Gives n [] = omega arith
read-Gives n (arrive bs ∷ s) = omega (arith, length-take n bs)
read-Gives n (block ∷ s) = tt
read-Gives n (fail ∷ s) = tt

-- A round that adds the bytes `bs` and then ends, ends.
grown :
    (f : TlvListenerFilter) (bs : List ℕ) (r : Run)
    → length bs ≤ read_size f
    → ReadEnds (record f { buffer = f.buffer ++ bs }) r
    → ReadEnds f r
grown f bs (finished state f' s') l e = ground (arith, length-append f.buffer bs)
grown f bs panicked l e = e
grown f bs out_of_fuel l e = e

after_read-ReadEnds :
    (next : TlvListenerFilter → Stream → Run) (f : TlvListenerFilter) (r : Outcome × Stream)
    → Gives (read_size f) r.0
    → length f.buffer < f.expected_length
    → ((b : ℕ) (bs : List ℕ) (s : Stream)
        → length (b ∷ bs) ≤ read_size f
        → ReadEnds
            (record f { buffer = f.buffer ++ (b ∷ bs) })
            (next (record f { buffer = f.buffer ++ (b ∷ bs) }) s))
    → ReadEnds f (after_read next f r)
unfolding after_read
after_read-ReadEnds next f (got [], s) g l ih = ground arith
after_read-ReadEnds next f (got (b ∷ bs), s) g l ih =
    grown f (b ∷ bs) (next (record f { buffer = f.buffer ++ (b ∷ bs) }) s) g (ih b bs s g)
after_read-ReadEnds next f (would_block, s) g l ih = ground arith
after_read-ReadEnds next f (failed, s) g l ih = ground arith

read_required_data-ReadEnds :
    (k : ℕ) (f : TlvListenerFilter) (s : Stream)
    → f.expected_length - length f.buffer ≤ k
    → ReadEnds f (read_required_data (suc k) f s)
unfolding read_required_data
read_required_data-ReadEnds zero f s h = ground arith
read_required_data-ReadEnds (suc k) f s h =
    elim (Bool-cases (ltb (length f.buffer) f.expected_length)) [
      | inl more ↦ rw more (
          after_read-ReadEnds (read_required_data (suc k)) f (read (read_size f) s)
            (read-Gives (read_size f) s) (ground arith)
            (λ b bs s' l.
              read_required_data-ReadEnds k (record f { buffer = f.buffer ++ (b ∷ bs) }) s'
                (omega (arith, length-append f.buffer (b ∷ bs)))))
      | inr enough ↦ rw enough (ground arith)
    ]

-- What holds of the filter between two rounds.
abbrev Expects : TlvParseState → TlvListenerFilter → Type 0
Expects type_and_length f =
    ((f.expected_length ≡ f.index + 1) ⊎ (f.expected_length ≡ f.index + 5))
    × (f.index ≤ f.max_length)
Expects content f =
    (f.expected_length ≡ f.index + f.content_length)
    × (6 ≤ f.content_length)
    × (f.expected_length ≤ f.max_length)

record Inv (f : TlvListenerFilter) : Type 0 where
  expects : Expects f.state f
  read : length f.buffer ≤ f.expected_length

-- The rounds that are left; every round uses up one at least.
abbrev phase : TlvParseState → TlvListenerFilter → ℕ
phase type_and_length f = if f.expected_length == f.index + 1 then 2 else 1
phase content f = 0

abbrev left : TlvListenerFilter → ℕ
left f = 2 * (f.max_length - f.index) + phase f.state f

abbrev Advances : TlvListenerFilter → Parsed → Type 0
Advances f (again f') = Inv f' × (left f' < left f) × (f'.max_length ≡ f.max_length)
Advances f (stop state f') = (length f'.buffer ≤ f.max_length + 5) × (f'.max_length ≡ f.max_length)
Advances f out_of_bounds = ⊥

get_elem?-IsSome : (xs : List ℕ) (i : ℕ) → i < length xs → (x : ℕ) × (get_elem? xs i ≡ some x)
get_elem?-IsSome [] i h = elim h [ ]
get_elem?-IsSome (x ∷ xs) zero h = (x, refl)
get_elem?-IsSome (x ∷ xs) (suc i) h = get_elem?-IsSome xs i (omega arith)

parse_type-Advances :
    (f : TlvListenerFilter) (tlv_type : ℕ)
    → f.state ≡ type_and_length
    → Inv f
    → f.expected_length ≤ length f.buffer
    → Advances f (parse_type f (some tlv_type))
unfolding parse_type process_service_address_tlv process_ending_tlv
parse_type-Advances f tlv_type e v l = ground arith

parse_state-Advances :
    (f : TlvListenerFilter) (st : TlvParseState)
    → f.state ≡ st
    → Inv f
    → f.expected_length ≤ length f.buffer
    → Advances f (parse_state st f)
unfolding parse_state process_tlv_content
parse_state-Advances f type_and_length e v l =
    let (t, at) = get_elem?-IsSome f.buffer f.index (ground arith) in
    rw at (parse_type-Advances f t e v l)
parse_state-Advances f content e v l = ground arith

parse-Advances :
    (f : TlvListenerFilter) → Inv f → f.expected_length ≤ length f.buffer → Advances f (parse f)
unfolding parse
parse-Advances f v l = parse_state-Advances f f.state refl v l

-- The loop has ended, with a buffer of at most 5 bytes above the limit.
abbrev pub Ends : ℕ → Run → Type 0
Ends max_length (finished state f s) = length f.buffer ≤ max_length + 5
Ends max_length panicked = ⊥
Ends max_length out_of_fuel = ⊥

after_parse-Ends :
    (next : TlvListenerFilter → Stream → Run) (f : TlvListenerFilter) (s : Stream) (p : Parsed)
    → Advances f p
    → ((f' : TlvListenerFilter)
        → Inv f'
        → left f' < left f
        → f'.max_length ≡ f.max_length
        → Ends f.max_length (next f' s))
    → Ends f.max_length (after_parse next s p)
unfolding after_parse
after_parse-Ends next f s (again f') a ih = ih f' a.0 a.1 a.2
after_parse-Ends next f s (stop state f') a ih = a.0
after_parse-Ends next f s out_of_bounds a ih = a

with_buffer-Inv :
    (f : TlvListenerFilter) (bs : List ℕ)
    → Inv f
    → length bs ≤ f.expected_length
    → Inv (record f { buffer = bs })
with_buffer-Inv f bs v l = record { expects = expects f.state v.expects; read = l }
  where
    expects : (st : TlvParseState) → Expects st f → Expects st (record f { buffer = bs })
    expects type_and_length e = e
    expects content e = e

phase-with_buffer :
    (st : TlvParseState) (f : TlvListenerFilter) (bs : List ℕ)
    → phase st (record f { buffer = bs }) ≡ phase st f
phase-with_buffer type_and_length f bs = refl
phase-with_buffer content f bs = refl

expected-le :
    (st : TlvParseState) (f : TlvListenerFilter)
    → Expects st f
    → f.expected_length ≤ f.max_length + 5
expected-le type_and_length f e = ground arith
expected-le content f e = ground arith

after_required-Ends :
    (next : TlvListenerFilter → Stream → Run) (f : TlvListenerFilter) (r : Run)
    → Inv f
    → ReadEnds f r
    → ((f' : TlvListenerFilter) (s : Stream)
        → Inv f'
        → left f' < left f
        → f'.max_length ≡ f.max_length
        → Ends f.max_length (next f' s))
    → Ends f.max_length (after_required next r)
unfolding after_required
after_required-Ends next f (finished done f' s) v e ih =
    subst (λ x. Ends f.max_length (after_parse next s (parse x))) (sym e.0)
      (after_parse-Ends next g s (parse g) (parse-Advances g inv (e.2 refl)) smaller)
  where
    g : TlvListenerFilter
    g = record f { buffer = f'.buffer }

    inv : Inv g
    inv = with_buffer-Inv f f'.buffer v (omega (arith, e.1, v.read))

    smaller :
        (f'' : TlvListenerFilter)
        → Inv f''
        → left f'' < left g
        → f''.max_length ≡ f.max_length
        → Ends f.max_length (next f'' s)
    smaller f'' v' l m = ih f'' s v' (omega (arith, phase-with_buffer f.state f f'.buffer)) m
after_required-Ends next f (finished error f' s) v e ih =
    omega (arith, expected-le f.state f v.expects, v.read, e.1)
after_required-Ends next f (finished skip_filter f' s) v e ih =
    omega (arith, expected-le f.state f v.expects, v.read, e.1)
after_required-Ends next f panicked v e ih = e
after_required-Ends next f out_of_fuel v e ih = e

read_and_parse_tlv-Ends :
    (k : ℕ) (f : TlvListenerFilter) (s : Stream)
    → Inv f
    → left f < k
    → Ends f.max_length (read_and_parse_tlv k f s)
unfolding read_and_parse_tlv
read_and_parse_tlv-Ends zero f s v l = elim l [ ]
read_and_parse_tlv-Ends (suc k) f s v l =
    after_required-Ends (read_and_parse_tlv k) f _ v
      (read_required_data-ReadEnds _ f s (omega arith))
      (λ f' s' v' l' m.
        subst (λ n. Ends n (read_and_parse_tlv k f' s')) m
          (read_and_parse_tlv-Ends k f' s' v' (omega arith)))

-- Whatever the peer sends, the filter reaches a verdict: its loop ends within `rounds` rounds, it
-- never indexes past its buffer, and it has buffered at most 5 bytes more than its limit.
pub read_and_parse_tlv_total :
    (max_length : ℕ) (s : Stream)
    → Ends max_length (read_and_parse_tlv (rounds max_length) (new max_length) s)
unfolding new
read_and_parse_tlv_total max_length s =
    read_and_parse_tlv-Ends (rounds max_length) (new max_length) s (ground arith) (ground arith)
