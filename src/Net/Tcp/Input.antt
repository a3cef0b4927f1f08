-- ===== src/Net/Tcp/Input.antt =====
-- tcp.cpp, `input`: what a received segment does to a connection. The function is cut at its
-- comments: validation, the two unsynchronized states, rst and syn, ack, data, fin and the reply.
pub mod Sealed
pub mod Arrival
pub mod Data
pub mod Moves
pub mod Close
pub mod Safe
use re_pico.Base.{
  ℕ, ◌+◌, ◌-◌, ◌*◌, List, [], ◌∷◌, ◌++◌, Bool, true, false, not, ◌&&◌, ◌||◌, Option, none, some,
  bit_or, u32, ◌>>◌, ltb, leb, ◌==◌, if◌then◌else◌, length, get_or, take, drop,
}
use re_pico.Base.Run.{Run, ok, ◌>>=◌, ensure, between}
use re_pico.Net.Wire.{get16, get32}
use re_pico.Net.Checksum.{l4_checksum}
use re_pico.Net.Tcp.Seq.{sub32, seq_lt, seq_le}
use re_pico.Net.Tcp.Conn.{State, Conn, time_wait_ms, flag_fin, flag_syn, flag_rst, flag_ack, has}
use re_pico.Net.Tcp.Ring.{rx_push}
use re_pico.Net.Tcp.Segment.{
  Header, Outgoing, Env, header_size, proto_tcp, send_segment, send_rst, negotiate_mss,
}

-- A received segment, taken apart.
pub record Segment : Type 0 where
  pub header : Header
  pub open header use *
  pub options : List ℕ
  pub body : List ℕ

unfoldable pub read_header : List ℕ → Header
read_header p = record {
  src_port = get16 p 0;
  dst_port = get16 p 2;
  seq = get32 p 4;
  ack = get32 p 8;
  data_off = get_or p 12 0;
  flags = get_or p 13 0;
  window = get16 p 14;
}

-- The checks at the head of `input`: `fails` where the segment is dropped.
unfoldable pub parse : ℕ → ℕ → List ℕ → Run Segment
parse src dst packet = do
  _ ← ensure (leb header_size (length packet))
  head ← between packet 0 header_size
  let header = read_header head
  let off = (header.data_off >> 4) * 4
  _ ← ensure (leb header_size off && leb off (length packet))
  sum ← l4_checksum src dst proto_tcp packet
  _ ← ensure (sum == 0)
  options ← between packet header_size off
  body ← between packet off (length packet)
  ok (record { header = header; options = options; body = body })

-- What becomes of the connection: its new value, whether its slot in the table is freed, and the
-- segments that go out.
pub record Outcome : Type 0 where
  pub conn : Conn
  pub unbound : Bool
  pub sent : List Outgoing

abbrev pub unchanged : Conn → Outcome
unchanged c = record { conn = c; unbound = false; sent = [] }

abbrev pub add_sent : List Outgoing → Option Outgoing → List Outgoing
add_sent out none = out
add_sent out (some p) = out ++ p ∷ []

-- `reset`.
unfoldable pub reset : Conn → Outcome
reset c = record {
  conn = record c { state = State.closed; tx_event = true; rx_event = true };
  unbound = true;
  sent = [];
}

unfoldable pub time_wait : Env → Conn → Conn
time_wait env c = record c {
  state = State.time_wait;
  expire_ms = env.now_ms + time_wait_ms;
  tx_event = true;
  rx_event = true;
}

-- Send a segment of the connection as the last step.
unfoldable pub reply : Env → Conn → ℕ → ℕ → Run Outcome
reply env c flags seq = do
  (c', p) ← send_segment env c flags seq []
  ok (record { conn = c'; unbound = false; sent = add_sent [] p })

unfoldable pub refuse : Env → ℕ → Segment → Conn → Run Outcome
refuse env src s c = do
  p ← send_rst env src s.header (length s.body)
  ok (record { conn = c; unbound = false; sent = add_sent [] p })

-- `case State::Listen`.
unfoldable pub input_listen : Env → ℕ → Segment → Conn → Run Outcome
input_listen env src s c =
    if has s.flags flag_rst
    then ok (unchanged c)
    else if has s.flags flag_ack
    then refuse env src s c
    else if not (has s.flags flag_syn)
    then ok (unchanged c)
    else (do
      mss ← negotiate_mss s.options
      let iss = u32 env.now_us
      reply env
          (record c {
            remote_addr = src;
            remote_port = s.src_port;
            rcv_nxt = u32 (s.seq + 1);
            snd_mss = mss;
            snd_wnd = s.window;
            snd_una = iss;
            snd_nxt = u32 (iss + 1);
            state = State.syn_received;
          })
          (bit_or flag_syn flag_ack) iss)

-- `case State::SynSent`.
unfoldable pub input_syn_sent : Env → ℕ → Segment → Conn → Run Outcome
input_syn_sent env src s c =
    let ack_ok = seq_lt c.snd_una s.ack && seq_le s.ack c.snd_nxt in
    if has s.flags flag_ack && not ack_ok
    then refuse env src s c
    else if has s.flags flag_rst
    then (if has s.flags flag_ack then ok (reset c) else ok (unchanged c))
    else if not (has s.flags flag_syn) || not (has s.flags flag_ack)
    then ok (unchanged c)
    else (do
      mss ← negotiate_mss s.options
      out ←
          reply env
            (record c {
              rcv_nxt = u32 (s.seq + 1);
              snd_mss = mss;
              snd_una = s.ack;
              snd_wnd = s.window;
              state = State.established;
            })
            flag_ack c.snd_nxt
      let c' = out.conn
      ok (record out { conn = record c' { tx_event = true } }))

-- An acknowledgement of everything sent moves a closing connection on.
unfoldable pub all_acked : Env → Conn → State → Conn × Bool
all_acked env c State.fin_wait1 = (record c { state = State.fin_wait2 }, false)
all_acked env c State.closing = (time_wait env c, false)
all_acked env c State.last_ack = (record c { state = State.closed }, true)
all_acked env c _ = (c, false)

-- `ack processing`, behind the check of `SynReceived`.
unfoldable pub process_ack : Env → Segment → Conn → Conn × Bool
process_ack env s c =
    let (c', unbound) =
      if seq_le s.ack c.snd_nxt && seq_le c.snd_una s.ack
      then (let acked = record c { snd_una = s.ack; snd_wnd = s.window } in
          if s.ack == c.snd_nxt then all_acked env acked c.state else (acked, false))
      else (c, false) in
    (record c' { tx_event = true }, unbound)

abbrev pub receives : State → Bool
receives State.established = true
receives State.fin_wait1 = true
receives State.fin_wait2 = true
receives _ = false

-- The part of the data from `rcv_nxt` on, and the sequence number of its first byte.
unfoldable pub trim : Conn → Segment → List ℕ × ℕ
trim c s =
    if seq_lt s.seq c.rcv_nxt
    then (let skip = sub32 c.rcv_nxt s.seq in
        (if ltb skip (length s.body) then drop skip s.body else [], c.rcv_nxt))
    else (s.body, s.seq)

-- `in-order data`.
unfoldable pub process_data : Segment → Conn → Run Conn
process_data s c =
    if not (length s.body == 0) && receives c.state
    then (let (body, bseq) = trim c s in
        if not (length body == 0) && bseq == c.rcv_nxt
        then (do
          (accepted, c') ← rx_push c body
          ok (record c' {
            rcv_nxt = u32 (c.rcv_nxt + accepted);
            rx_event = not (accepted == 0) || c.rx_event;
          }))
        else ok c)
    else ok c

unfoldable pub peer_closed : Env → Conn → State → Conn
peer_closed env c State.established = record c { state = State.close_wait }
peer_closed env c State.fin_wait1 = record c { state = State.closing }
peer_closed env c State.fin_wait2 = time_wait env c
peer_closed env c _ = c

-- `fin`, once every byte before it has been received.
unfoldable pub process_fin : Env → Segment → Conn → Conn
process_fin env s c =
    if has s.flags flag_fin && u32 (s.seq + length s.body) == c.rcv_nxt && not c.rx_fin
    then (let c' =
          peer_closed env (record c { rcv_nxt = u32 (c.rcv_nxt + 1); rx_fin = true }) c.state in
        record c' { rx_event = true; tx_event = true })
    else c

-- From `ack processing` to the end.
unfoldable pub input_ack : Env → Segment → Conn → Run Outcome
input_ack env s c = do
  let (c1, unbound) = process_ack env s c
  c2 ← process_data s c1
  let c3 = process_fin env s c2
  out ←
      if not (c3.rcv_nxt == c1.rcv_nxt) || not (length s.body == 0) || has s.flags flag_fin
      then reply env c3 flag_ack c3.snd_nxt
      else ok (unchanged c3)
  ok (record out { unbound = unbound })

-- `synchronized states`.
unfoldable pub input_synchronized : Env → ℕ → Segment → Conn → Bool → Run Outcome
input_synchronized env src s c syn_received =
    if has s.flags flag_rst
    then (if s.seq == c.rcv_nxt || syn_received then ok (reset c) else ok (unchanged c))
    else if syn_received && has s.flags flag_syn && u32 (s.seq + 1) == c.rcv_nxt
    then reply env c (bit_or flag_syn flag_ack) c.snd_una
    else if has s.flags flag_syn && seq_le c.rcv_nxt s.seq
    then ok (reset c)
    else if not (has s.flags flag_ack)
    then ok (unchanged c)
    else if syn_received
    then (if not (seq_le c.snd_una s.ack && seq_le s.ack c.snd_nxt)
        then refuse env src s c
        else input_ack env s (record c { state = State.established }))
    else input_ack env s c

-- The switch on the state of the connection that the segment belongs to.
unfoldable pub input_conn : Env → ℕ → Segment → Conn → State → Run Outcome
input_conn env src s c State.listen = input_listen env src s c
input_conn env src s c State.syn_sent = input_syn_sent env src s c
input_conn env src s c State.syn_received = input_synchronized env src s c true
input_conn env src s c _ = input_synchronized env src s c false
