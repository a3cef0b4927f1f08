-- ===== src/Net/Tcp/Send/Window.antt =====
-- What `send` puts into flight in one go: the data in order, inside the peer's window.
use re_pico.Base.{
  ◌++◌, ℕ, zero, suc, ◌+◌, ◌-◌, ◌^◌, ◌≤◌, ◌<◌, ◌≡◌, ◌⊎◌, inl, inr, refl, sym, ap, ◌∙◌, List, [],
  ◌∷◌, Bool, true, false, ◌&&◌, not, some, bit_or, min, max, u8, u32, ltb, le→leb, ◌==◌,
  if◌then◌else◌, take, drop, length, length-take, Bool-cases, arith,
}
use re_pico.Base.Bytes.{Bytes, All-take, All-drop}
use re_pico.Base.Run.{Run, ok, Yields, yields, Yields-bind, ◌>>=◌}
use re_pico.Net.Tcp.Conn.{Conn, flag_psh, flag_ack}
use re_pico.Net.Tcp.Seq.{sub32, seq_lt}
use re_pico.Net.Tcp.Segment.{Outgoing, Env, segment_options, segment_header, send_segment}
use re_pico.Net.Tcp.Input.{Segment, parse}
use re_pico.Net.Tcp.Input.Arrival.{send_segment_lem}
use re_pico.Net.Tcp.Valid.{IsConn, IsConn-with}
use re_pico.Net.Tcp.Send.{
  Sending, in_flight, must_wait, chunk_size, chunk_flags, subspan, fill_loop,
}

-- The packets carry the bytes from `o` to `o'`, in pieces of at most `mss` behind each other: each
-- one, read by the checks of the peer, has the sequence number of its piece.
pub data Carries (addr remote base : ℕ) (bytes : List ℕ) (mss : ℕ)
    : ℕ → List Outgoing → ℕ → Type 0 where
  no_more : {o : ℕ} → Carries addr remote base bytes mss o [] o
  piece :
      {o o' : ℕ} {p : Outgoing} {ps : List Outgoing} (s : Segment) (count : ℕ)
      → parse addr remote p.bytes ≡ ok s
      → s.header.seq ≡ u32 (base + o)
      → s.body ≡ take count (drop o bytes)
      → 1 ≤ count
      → count ≤ mss
      → o + count ≤ length bytes
      → Carries addr remote base bytes mss (o + count) ps o'
      → Carries addr remote base bytes mss o (p ∷ ps) o'

-- A connection in the middle of sending: the byte at `o` is the next one.
pub record IsSending (env : Env) (w : Sending) (c : Conn) (o : ℕ) : Type 0 where
  pub conn : IsConn c
  pub base : w.base < 2 ^ 32
  pub small : length w.bytes < 2 ^ 31
  pub end : w.end ≡ u32 (w.base + length w.bytes)
  pub next : c.snd_nxt ≡ u32 (w.base + o)
  pub inside : o ≤ length w.bytes
  pub flight : in_flight c + (length w.bytes - o) < 2 ^ 32
  pub mss : (1 ≤ c.snd_mss) × (c.snd_mss ≤ 1460)
  pub data_bytes : Bytes w.bytes
  pub has_packet : env.has_packet ≡ true

sized :
    (f wnd mss left n o : ℕ)
    → left ≡ n - o
    → 1 ≤ mss
    → o < n
    → (((if ltb f wnd then wnd - f else 0) == 0) && not (f == 0)) ≡ false
    → let avail' = if ltb f wnd then wnd - f else 0 in
      let size = min (min (if avail' == 0 then 1 else avail') mss) left in
      (1 ≤ size) × (size ≤ mss) × (o + size ≤ n) × (f + size ≤ max f (max wnd 1))
sized f wnd mss left n o e h k go = ground (arith, e, h, k, go)

flown :
    (nxt una count : ℕ)
    → nxt < 2 ^ 32
    → una < 2 ^ 32
    → sub32 nxt una + count < 2 ^ 32
    → sub32 (u32 (nxt + count)) una ≡ sub32 nxt una + count
flown nxt una count hn hu h = omega arith

shifted : (base o count : ℕ) → u32 (u32 (base + o) + count) ≡ u32 (base + (o + count))
shifted base o count = omega arith

waits_for :
    (f wnd n o : ℕ)
    → o ≤ n
    → (ltb o n && not (((if ltb f wnd then wnd - f else 0) == 0) && not (f == 0))) ≡ false
    → (o ≡ n) ⊎ (wnd ≤ f)
waits_for f wnd n o h e = ground (arith, h, e)

both : (n o : ℕ) (b : Bool) → (ltb o n && not b) ≡ true → (o < n) × (b ≡ false)
both n o true h = ground (arith, h)
both n o false h = ground (arith, h)

module _ (env : Env) (output : Outgoing → Bool) (w : Sending) where
  more_left :
      (c : Conn) (o : ℕ) → IsSending env w c o → seq_lt c.snd_nxt w.end ≡ ltb o (length w.bytes)
  unfolding seq_lt
  more_left c o v = rw (v.end, v.next) (ground (arith, v.base, v.small, v.inside))

  left_over : (c : Conn) (o : ℕ) → IsSending env w c o → sub32 w.end c.snd_nxt ≡ length w.bytes - o
  left_over c o v = rw (v.end, v.next) (omega (arith, v.base, v.small, v.inside))

  offset : (c : Conn) (o : ℕ) → IsSending env w c o → sub32 c.snd_nxt w.base ≡ o
  offset c o v = rw v.next (omega (arith, v.base, v.small, v.inside))

  plain_flags : (b : Bool) → segment_options (u8 (bit_or flag_ack (if b then flag_psh else 0))) ≡ []
  plain_flags true = refl
  plain_flags false = refl

  -- The size of the next piece.
  chunk_facts :
      (c : Conn) (o : ℕ)
      → IsSending env w c o
      → o < length w.bytes
      → must_wait c ≡ false
      → (1 ≤ chunk_size w c)
        × (chunk_size w c ≤ c.snd_mss)
        × (o + chunk_size w c ≤ length w.bytes)
        × (in_flight c + chunk_size w c ≤ max (in_flight c) (max c.snd_wnd 1))
  chunk_facts c o v more go =
      let f : ℕ = in_flight c in
      sized f c.snd_wnd c.snd_mss (sub32 w.end c.snd_nxt) (length w.bytes) o (left_over c o v)
        v.mss.0 more go

  next_piece :
      (c : Conn) (o : ℕ)
      → IsSending env w c o
      → o < length w.bytes
      → must_wait c ≡ false
      → (p : Outgoing) × (s : Segment) × (closed : Bool) × (send_segment env c
            (chunk_flags w c)
            c.snd_nxt
            (take (chunk_size w c) (drop o w.bytes))
          ≡ ok (record c { rx_wnd_closed = closed }, some p))
        × (parse env.addr c.remote_addr p.bytes ≡ ok s)
        × (s.header.seq ≡ u32 (w.base + o))
        × (s.body ≡ take (chunk_size w c) (drop o w.bytes))
  unfolding segment_header
  next_piece c o v more go =
      let k = chunk_facts c o v more go in
      let chunk : List ℕ = take (chunk_size w c) (drop o w.bytes) in
      let opts = plain_flags (u32 (c.snd_nxt + chunk_size w c) == w.end) in
      let P : ℕ → Type 0 = λ x. x < 256 in
      let found =
        send_segment_lem env c (chunk_flags w c) c.snd_nxt chunk v.conn (omega arith) v.conn.snd_nxt
          (All-take P (chunk_size w c) (drop o w.bytes) (All-drop P o w.bytes v.data_bytes))
          v.has_packet
          (omega
            (arith, ap length opts, length-take (chunk_size w c) (drop o w.bytes), k.1, v.mss.1)) in
      (found.0, _, _, found.1, found.3, v.next, refl)

  -- How a run of the loop ends: with the data or the window, or with a packet that `ipv4::output`
  -- refuses.
  abbrev pub Ending : Conn → ℕ → List Outgoing → Bool × (Conn × List Outgoing) → Type 0
  Ending c upto ps r =
      ((r.0 ≡ true) × (r.1.1 ≡ ps) × ((upto ≡ length w.bytes) ⊎ (c.snd_wnd ≤ in_flight r.1.0)))
      ⊎ ((p : Outgoing) × (r.0 ≡ false) × (r.1.1 ≡ ps ++ p ∷ []) × (output p ≡ false))

  -- What a run of the loop from the byte at `o` on comes to; `accepted` are the packets that went out.
  pub record Filled (c : Conn) (o : ℕ) (r : Bool × (Conn × List Outgoing)) : Type 0 where
    pub upto : ℕ
    pub accepted : List Outgoing
    pub carried : Carries env.addr c.remote_addr w.base w.bytes c.snd_mss o accepted upto
    pub sending : IsSending env w r.1.0 upto
    pub ending : Ending c upto accepted r
    pub within : in_flight r.1.0 ≤ max (in_flight c) (max c.snd_wnd 1)
    pub una : r.1.0.snd_una ≡ c.snd_una

  -- The connection behind a piece.
  abbrev moved : Conn → Bool → Conn
  moved c closed = record c { rx_wnd_closed = closed; snd_nxt = u32 (c.snd_nxt + chunk_size w c) }

  moved-flight :
      (c : Conn) (o : ℕ) (closed : Bool)
      → IsSending env w c o
      → o + chunk_size w c ≤ length w.bytes
      → in_flight (moved c closed) ≡ in_flight c + chunk_size w c
  moved-flight c o closed v h =
      flown c.snd_nxt c.snd_una (chunk_size w c) v.conn.snd_nxt v.conn.snd_una
        (omega (arith, v.flight, h))

  moved-IsSending :
      (c : Conn) (o : ℕ) (closed : Bool)
      → IsSending env w c o
      → o + chunk_size w c ≤ length w.bytes
      → IsSending env w (moved c closed) (o + chunk_size w c)
  moved-IsSending c o closed v h = record {
    conn =
        IsConn-with c (moved c closed) v.conn (refl, refl, refl, refl) v.conn.remote_port
          v.conn.snd_una (omega arith) v.conn.rcv_nxt;
    base = v.base;
    small = v.small;
    end = v.end;
    next = ap (λ (x : ℕ). u32 (x + chunk_size w c)) v.next ∙ shifted w.base o (chunk_size w c);
    inside = h;
    flight = omega (arith, moved-flight c o closed v h, v.flight, h);
    mss = v.mss;
    data_bytes = v.data_bytes;
    has_packet = v.has_packet;
  }

  -- Nothing is left, or the window is full.
  stopped :
      (c : Conn) (o : ℕ)
      → IsSending env w c o
      → (seq_lt c.snd_nxt w.end && not (must_wait c)) ≡ false
      → (o ≡ length w.bytes) ⊎ (c.snd_wnd ≤ in_flight c)
  stopped c o v h =
      waits_for (in_flight c) c.snd_wnd (length w.bytes) o v.inside
        (ap (λ (b : Bool). b && not (must_wait c)) (sym (more_left c o v)) ∙ h)

  goes_on :
      (c : Conn) (o : ℕ)
      → IsSending env w c o
      → (seq_lt c.snd_nxt w.end && not (must_wait c)) ≡ true
      → (o < length w.bytes) × (must_wait c ≡ false)
  goes_on c o v h =
      both (length w.bytes) o (must_wait c)
        (ap (λ (b : Bool). b && not (must_wait c)) (sym (more_left c o v)) ∙ h)

  subspan_lem :
      (c : Conn) (o : ℕ)
      → IsSending env w c o
      → o + chunk_size w c ≤ length w.bytes
      → subspan w.bytes (sub32 c.snd_nxt w.base) (chunk_size w c)
        ≡ ok (take (chunk_size w c) (drop o w.bytes))
  unfolding subspan
  subspan_lem c o v h = rw (offset c o v, le→leb (o + chunk_size w c) (length w.bytes) h) refl

  abbrev put_first : Outgoing → Bool × (Conn × List Outgoing) → Run (Bool × (Conn × List Outgoing))
  put_first p r = ok (r.0, (r.1.0, p ∷ r.1.1))

  -- The connection where the packet is refused.
  abbrev noted : Conn → Bool → Conn
  noted c closed = record c { rx_wnd_closed = closed }

  noted-IsSending :
      (c : Conn) (o : ℕ) (closed : Bool) → IsSending env w c o → IsSending env w (noted c closed) o
  noted-IsSending c o closed v = record {
    conn =
        IsConn-with c (noted c closed) v.conn (refl, refl, refl, refl) v.conn.remote_port
          v.conn.snd_una v.conn.snd_nxt v.conn.rcv_nxt;
    base = v.base;
    small = v.small;
    end = v.end;
    next = v.next;
    inside = v.inside;
    flight = v.flight;
    mss = v.mss;
    data_bytes = v.data_bytes;
    has_packet = v.has_packet;
  }

  module _ (fuel : ℕ) (c : Conn) (closed : Bool) (p : Outgoing) (chunk : List ℕ)
      (e : (seq_lt c.snd_nxt w.end && not (must_wait c)) ≡ true)
      (spanned : subspan w.bytes (sub32 c.snd_nxt w.base) (chunk_size w c) ≡ ok chunk)
      (sent : send_segment env c (chunk_flags w c) c.snd_nxt chunk
        ≡ ok (noted c closed, some p)) where
    one_round :
        output p ≡ true
        → fill_loop env output w (suc fuel) c
          ≡ (fill_loop env output w fuel (moved c closed) >>= put_first p)
    unfolding fill_loop
    one_round taken = rw (fill_loop, e, spanned, sent, taken) refl

    last_round :
        output p ≡ false
        → fill_loop env output w (suc fuel) c ≡ ok (false, (noted c closed, p ∷ []))
    unfolding fill_loop
    last_round refused = rw (fill_loop, e, spanned, sent, refused) refl

  put_first-Ending :
      (c : Conn) (closed : Bool) (p : Outgoing) (upto : ℕ) (ps : List Outgoing)
      (r : Bool × (Conn × List Outgoing))
      → Ending (moved c closed) upto ps r
      → Ending c upto (p ∷ ps) (r.0, (r.1.0, p ∷ r.1.1))
  put_first-Ending c closed p upto ps r (inl (all, e, full)) = inl (all, ap (◌∷◌ p) e, full)
  put_first-Ending c closed p upto ps r (inr (q, all, e, refused)) =
      inr (q, all, ap (◌∷◌ p) e, refused)

  -- In a sound connection in the middle of sending less than 2 ^ 31 bytes of data, with a segment size
  -- from 1 to 1460 and the pool not empty, the loop of `send` ends. The packets that went out carry
  -- the bytes from `o` on, in order and behind each other, each one accepted by the checks of `input`
  -- at the peer; with what was in flight they stay inside the window of the peer, save one byte where
  -- the window is closed and nothing is in flight. They go up to the end of the data or until the
  -- window is full; or else `ipv4::output` refuses the packet behind them, then the loop fails, and the
  -- connection is left in front of that packet's bytes.
  pub fill_loop_lem :
      (fuel : ℕ) (c : Conn) (o : ℕ)
      → length w.bytes - o < fuel
      → IsSending env w c o
      → Yields (Filled c o) (fill_loop env output w fuel c)
  unfolding fill_loop
  fill_loop_lem zero c o h v = absurd (omega arith)
  fill_loop_lem (suc fuel) c o h v =
      elim (Bool-cases (seq_lt c.snd_nxt w.end && not (must_wait c))) [
        | inl e ↦
            let (more, go) = goes_on c o v e in
            let k = chunk_facts c o v more go in
            let (p, s, closed, sent, arrives, number, body) = next_piece c o v more go in
            let later =
              fill_loop_lem fuel (moved c closed) (o + chunk_size w c) (omega (arith, h, k.0, more))
                (moved-IsSending c o closed v k.2) in
            elim (Bool-cases (output p)) [
              | inl taken ↦ rw (one_round fuel c closed p _ e (subspan_lem c o v k.2) sent taken) (
                  Yields-bind later (λ r f. yields (record {
                    upto = f.upto;
                    accepted = p ∷ f.accepted;
                    carried = piece s (chunk_size w c) arrives number body k.0 k.1 k.2 f.carried;
                    sending = f.sending;
                    ending = put_first-Ending c closed p f.upto f.accepted r f.ending;
                    within = omega (arith, f.within, k.3, moved-flight c o closed v k.2);
                    una = f.una;
                  })))
              | inr refused ↦
                  rw (last_round fuel c closed p _ e (subspan_lem c o v k.2) sent refused) (
                    yields (record {
                      upto = o;
                      accepted = [];
                      carried = no_more;
                      sending = noted-IsSending c o closed v;
                      ending = inr (p, refl, refl, refused);
                      within = omega arith;
                      una = refl;
                    }))
            ]
        | inr e ↦
            rw (fill_loop, e)
              (yields (record {
                upto = o;
                accepted = [];
                carried = no_more;
                sending = v;
                ending = inl (refl, refl, stopped c o v e);
                within = omega arith;
                una = refl;
              }))
      ]
