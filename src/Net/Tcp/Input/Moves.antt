-- ===== src/Net/Tcp/Input/Moves.antt =====
-- What a segment can do to a connection: the call ends, the fields stay sound, the state moves along
-- the edges of the protocol's diagram.
use re_pico.Base.{
  ℕ, ◌^◌, ◌≤◌, ◌<◌, ◌≡◌, ◌≢◌, ◌∙◌, refl, sym, ap, subst, [], false, not, ◌&&◌, ◌||◌, inl, inr,
  Bool-cases, u32, length, arith, bit_or,
}
use re_pico.Base.Bytes.{Bytes}
use re_pico.Base.Run.{Yields, yields, Yields-bind, Yields-if, Yields-weaken, value-Yields}
use re_pico.Net.Tcp.Seq.{seq_lt, seq_le}
use re_pico.Net.Tcp.Conn.{State, Conn, is_closed, has, flag_syn, flag_ack, flag_rst}
use re_pico.Net.Tcp.Segment.{Header, Env, segment_options, send_segment, rst_header, send_rst}
use re_pico.Net.Tcp.Segment.Mss.{negotiate_mss_lem}
use re_pico.Net.Tcp.Valid.{IsConn, IsConn-with, opened, connected, aborted, Reaches, stays, moves}
use re_pico.Net.Tcp.Input.{
  Segment, Outcome, unchanged, reset, reply, refuse, input_listen, input_syn_sent,
}
use re_pico.Net.Tcp.Input.Sealed.{IsHeader, Spans, seal-parse}
use re_pico.Net.Tcp.Input.Arrival.{send_segment_lem}

-- What a received segment's fields can be.
pub record IsSegment (s : Segment) : Type 0 where
  pub header : IsHeader s.header
  pub options : Bytes s.options

pub record Kept (c : Conn) (out : Outcome) : Type 0 where
  pub reach : Reaches c.state out.conn.state
  pub valid : IsConn out.conn
  pub freed : out.unbound ≡ is_closed out.conn.state

-- Same state, and not freed.
pub record Same (c : Conn) (out : Outcome) : Type 0 where
  pub state : out.conn.state ≡ c.state
  pub valid : IsConn out.conn
  pub bound : out.unbound ≡ false

few_options : (flags : ℕ) → length (segment_options flags) ≤ 4
few_options flags = elim (Bool-cases (has flags flag_syn)) [
  | inl e ↦ rw e (omega arith)
  | inr e ↦ rw e (omega arith)
]

send_segment-Yields :
    (env : Env) (c : Conn) (flags seq : ℕ)
    → IsConn c
    → flags < 256
    → seq < 2 ^ 32
    → Yields (λ out. (out.0.state ≡ c.state) × IsConn out.0) (send_segment env c flags seq [])
unfolding send_segment
send_segment-Yields env c flags seq v f s = elim (Bool-cases env.has_packet) [
  | inl ready ↦
      let (p, e, _, _) =
        send_segment_lem env c flags seq [] v f s tt ready (omega (arith, few_options flags)) in
      value-Yields e (
        refl,
        IsConn-with c _ v (refl, refl, refl, refl) v.remote_port v.snd_una v.snd_nxt v.rcv_nxt,
      )
  | inr dry ↦ rw dry (yields (refl, v))
]

pub reply-Yields :
    (env : Env) (c : Conn) (flags seq : ℕ)
    → IsConn c
    → flags < 256
    → seq < 2 ^ 32
    → Yields (Same c) (reply env c flags seq)
unfolding reply
reply-Yields env c flags seq v f s =
    Yields-bind (send_segment-Yields env c flags seq v f s)
      λ out p. yields (record { state = p.0; valid = p.1; bound = refl })

rst_header-IsHeader :
    (h : Header) (n : ℕ) → IsHeader h → IsHeader (rst_header h n) × Spans (rst_header h n) []
unfolding rst_header
rst_header-IsHeader h n v = elim (Bool-cases (has h.flags flag_ack)) [
  | inl e ↦ rw e (
    record {
      src_port = v.dst_port;
      dst_port = v.src_port;
      seq = v.ack;
      ack = omega arith;
      data_off = omega arith;
      flags = omega arith;
      window = omega arith;
    },
    refl,
  )
  | inr e ↦ rw e (
    record {
      src_port = v.dst_port;
      dst_port = v.src_port;
      seq = omega arith;
      ack = omega arith;
      data_off = omega arith;
      flags = omega arith;
      window = omega arith;
    },
    refl,
  )
]

pub send_rst-Yields :
    (env : Env) (dst : ℕ) (h : Header) (n : ℕ)
    → IsHeader h
    → Yields (λ _. Unit {0}) (send_rst env dst h n)
unfolding send_rst
send_rst-Yields env dst h n v =
    let (w, spans) = rst_header-IsHeader h n v in
    let (p, sealed, _) = seal-parse env.addr dst (rst_header h n) [] [] w spans tt (omega arith) in
    elim (Bool-cases (has h.flags flag_rst || not env.has_packet)) [
      | inl e ↦ rw e (yields tt)
      | inr e ↦ rw (e, sealed) (yields tt)
    ]

pub refuse-Yields :
    (env : Env) (src : ℕ) (s : Segment) (c : Conn)
    → IsConn c
    → IsSegment s
    → Yields (Same c) (refuse env src s c)
unfolding refuse
refuse-Yields env src s c v w =
    Yields-bind (send_rst-Yields env src s.header (length s.body) w.header)
      λ p _. yields (record { state = refl; valid = v; bound = refl })

pub Same-Reaches :
    (s : State) (c : Conn) (out : Outcome)
    → Reaches s c.state
    → Same c out
    → Reaches s out.conn.state
Same-Reaches s c out r p = subst (λ (t : State). Reaches s t) (sym p.state) r

pub Same-Kept :
    (c d : Conn) (out : Outcome)
    → Reaches c.state d.state
    → is_closed d.state ≡ false
    → Same d out
    → Kept c out
Same-Kept c d out r h p = record {
  reach = Same-Reaches c.state d out r p;
  valid = p.valid;
  freed = p.bound ∙ sym (ap is_closed p.state ∙ h);
}

pub unchanged-Kept : (c : Conn) → IsConn c → is_closed c.state ≡ false → Kept c (unchanged c)
unchanged-Kept c v h = record { reach = stays; valid = v; freed = sym h }

pub reset-Kept : (c : Conn) → IsConn c → c.state ≢ State.listen → Kept c (reset c)
unfolding reset
reset-Kept c v h = record {
  reach = moves (aborted h) stays;
  valid = IsConn-with c _ v (refl, refl, refl, refl) v.remote_port v.snd_una v.snd_nxt v.rcv_nxt;
  freed = refl;
}

pub input_listen-Kept :
    (env : Env) (src : ℕ) (s : Segment) (c : Conn)
    → IsConn c
    → IsSegment s
    → c.state ≡ State.listen
    → Yields (Kept c) (input_listen env src s c)
unfolding input_listen
input_listen-Kept env src s c v w e =
    let not_closed : is_closed c.state ≡ false = rw e refl in
    let still : Kept c (unchanged c) = unchanged-Kept c v not_closed in
    let (mss, em, _, _) = negotiate_mss_lem s.options w.options in
    Yields-if {b = has s.flags flag_rst} (λ _. yields still)
      λ _.
        Yields-if {b = has s.flags flag_ack}
          (λ _.
            Yields-weaken (refuse-Yields env src s c v w)
              λ out p. Same-Kept c c out stays not_closed p)
          λ _.
            Yields-if {b = not (has s.flags flag_syn)} (λ _. yields still)
              λ _. rw em (
                Yields-weaken
                  (reply-Yields env _ (bit_or flag_syn flag_ack) (u32 env.now_us)
                    (IsConn-with c _ v (refl, refl, refl, refl) w.header.src_port (omega arith)
                      (omega arith) (omega arith))
                    (omega arith) (omega arith))
                  λ out p. Same-Kept c _ out (rw e (moves opened stays)) refl p)

pub input_syn_sent-Kept :
    (env : Env) (src : ℕ) (s : Segment) (c : Conn)
    → IsConn c
    → IsSegment s
    → c.state ≡ State.syn_sent
    → Yields (Kept c) (input_syn_sent env src s c)
unfolding input_syn_sent
input_syn_sent-Kept env src s c v w e =
    let not_closed : is_closed c.state ≡ false = rw e refl in
    let still : Kept c (unchanged c) = unchanged-Kept c v not_closed in
    let (mss, em, _, _) = negotiate_mss_lem s.options w.options in
    Yields-if {b = has s.flags flag_ack && not (seq_lt c.snd_una s.ack && seq_le s.ack c.snd_nxt)}
      (λ _.
        Yields-weaken (refuse-Yields env src s c v w) λ out p. Same-Kept c c out stays not_closed p)
      λ _.
        Yields-if {b = has s.flags flag_rst}
          (λ _.
            Yields-if {b = has s.flags flag_ack} (λ _. yields (reset-Kept c v (λ q. cc)))
              (λ _. yields still))
          λ _.
            Yields-if {b = not (has s.flags flag_syn) || not (has s.flags flag_ack)}
              (λ _. yields still)
              λ _. rw em (
                Yields-bind
                  (reply-Yields env _ flag_ack c.snd_nxt
                    (IsConn-with c _ v (refl, refl, refl, refl) v.remote_port w.header.ack v.snd_nxt
                      (omega arith))
                    (omega arith) v.snd_nxt)
                  λ out p. yields (record {
                    reach = Same-Reaches c.state _ out (rw e (moves connected stays)) p;
                    valid =
                        IsConn-with out.conn _ p.valid (refl, refl, refl, refl) p.valid.remote_port
                          p.valid.snd_una p.valid.snd_nxt p.valid.rcv_nxt;
                    freed = p.bound ∙ sym (ap is_closed p.state);
                  }))
