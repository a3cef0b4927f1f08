-- ===== src/Net/Tcp/Send.antt =====
-- tcp.cpp, `Conn::accept`, `Conn::send` and `Conn::recv`: the coroutines that do not touch the
-- connection table. A step runs up to the next wait for an event; between two steps `input` and
-- `tick` may have changed the connection, which the next step is given as it is then. A step is
-- taken as one, though the code may wait in it for the network below.
pub mod Window
pub mod Again
use re_pico.Base.{
  ℕ, zero, suc, ◌+◌, ◌-◌, ◌^◌, List, [], ◌∷◌, Bool, true, false, ◌&&◌, ◌||◌, not, Option, none,
  some, bit_or, min, u8, u32, ltb, leb, ◌==◌, if◌then◌else◌, take, drop, length,
}
use re_pico.Base.Run.{Run, ok, fault, out_of_fuel, ◌>>=◌}
use re_pico.Net.Tcp.Conn.{State, Conn, max_retx, flag_psh, flag_ack, is_closed}
use re_pico.Net.Tcp.Seq.{sub32, seq_lt}
use re_pico.Net.Tcp.Ring.{rx_pop}
use re_pico.Net.Tcp.Segment.{Outgoing, Env, send_segment}

-- What a step comes to: the coroutine ends with a value or waits with its variables, and packets
-- have gone out.
pub data Step (A B : Type 0) : Type 0 where
  ends : A → Conn → List Outgoing → Step A B
  waits : B → Conn → List Outgoing → Step A B

-- The variables of `send` over a wait.
pub record Sending : Type 0 where
  pub base : ℕ
  pub end : ℕ
  pub bytes : List ℕ

abbrev pub may_send : State → Bool
may_send State.established = true
may_send State.close_wait = true
may_send _ = false

abbrev pub in_flight : Conn → ℕ
in_flight c = sub32 c.snd_nxt c.snd_una

abbrev pub avail : Conn → ℕ
avail c = if ltb (in_flight c) c.snd_wnd then c.snd_wnd - in_flight c else 0

-- The window is full and something is in flight.
abbrev pub must_wait : Conn → Bool
must_wait c = (avail c == 0) && not (in_flight c == 0)

-- A window of zero is probed with one byte.
abbrev pub chunk_size : Sending → Conn → ℕ
chunk_size w c = min (min (if avail c == 0 then 1 else avail c) c.snd_mss) (sub32 w.end c.snd_nxt)

abbrev pub chunk_flags : Sending → Conn → ℕ
chunk_flags w c =
    u8 (bit_or flag_ack (if u32 (c.snd_nxt + chunk_size w c) == w.end then flag_psh else 0))

-- `data.subspan(...)`, which the segment then reads.
unfoldable pub subspan : List ℕ → ℕ → ℕ → Run (List ℕ)
subspan bytes off count =
    if leb (off + count) (length bytes) then ok (take count (drop off bytes)) else fault

-- The inner loop of `send`: whether all segments could be sent, and the packets that were handed to
-- `ipv4::output`. What that returns for a packet is `output`: where it refuses one, `send_segment`
-- fails, and `send` with it.
unfoldable pub fill_loop :
    Env → (Outgoing → Bool) → Sending → ℕ → Conn → Run (Bool × (Conn × List Outgoing))
fill_loop env output w zero c = out_of_fuel
fill_loop env output w (suc fuel) c = elim (seq_lt c.snd_nxt w.end && not (must_wait c)) [
  | false ↦ ok (true, (c, []))
  | true ↦ do
    chunk ← subspan w.bytes (sub32 c.snd_nxt w.base) (chunk_size w c)
    (c', sent) ← send_segment env c (chunk_flags w c) c.snd_nxt chunk
    elim sent [
      | none ↦ ok (false, (c', []))
      | some p ↦ elim (output p) [
        | false ↦ ok (false, (c', p ∷ []))
        | true ↦ do
          (all, (last, ps)) ←
              fill_loop env output w fuel
                (record c' { snd_nxt = u32 (c'.snd_nxt + chunk_size w c) })
          ok (all, (last, p ∷ ps))
      ]
    ]
]

-- One round of the outer loop, up to its wait.
unfoldable pub send_round : Env → (Outgoing → Bool) → Sending → Conn → Run (Step Bool Sending)
send_round env output w c = elim (seq_lt c.snd_una w.end) [
  | false ↦ ok (ends true c [])
  | true ↦ elim (may_send c.state) [
    | false ↦ ok (ends false c [])
    | true ↦ do
      (all, (c', ps)) ← fill_loop env output w (length w.bytes + 1) (record c { tx_event = false })
      ok (if all then waits w c' ps else ends false c' ps)
  ]
]

unfoldable pub send_start : Env → (Outgoing → Bool) → List ℕ → Conn → Run (Step Bool Sending)
send_start env output bytes c = elim (may_send c.state) [
  | false ↦ ok (ends false c [])
  | true ↦ elim (length bytes == 0) [
    | true ↦ ok (ends true c [])
    | false ↦
        send_round env output
          (record { base = c.snd_nxt; end = u32 (c.snd_nxt + length bytes); bytes = bytes })
          (record c { retries = 0 })
  ]
]

-- After the wait: `notified` tells an event from the timeout, after which everything that is not
-- acknowledged is sent again.
unfoldable pub send_resume :
    Env → (Outgoing → Bool) → Sending → Bool → Conn → Run (Step Bool Sending)
send_resume env output w true c = send_round env output w (record c { retries = 0 })
send_resume env output w false c =
    let retries = if c.snd_wnd == 0 then c.retries else c.retries + 1 in
    if c.snd_wnd == 0 || leb retries max_retx
    then send_round env output w (record c { retries = retries; snd_nxt = c.snd_una })
    else ok (ends false (record c { retries = retries }) [])

-- One round of `accept`.
unfoldable pub accept_round : Conn → Step Bool (Unit {0})
accept_round c = elim c.state [
  | State.listen ↦ waits tt (record c { tx_event = false }) []
  | State.syn_received ↦ waits tt (record c { tx_event = false }) []
  | State.closed ↦ ends false c []
  | _ ↦ ends true c []
]

abbrev reset_under : State → Bool
reset_under State.closed = true
reset_under State.listen = true
reset_under _ = false

abbrev window_update : Option Outgoing → List Outgoing
window_update none = []
window_update (some p) = p ∷ []

-- One round of `recv` into a buffer of `size` bytes: the bytes that it is given, or `none` where
-- the connection is gone.
unfoldable pub recv_round : Env → ℕ → Conn → Run (Step (Option (List ℕ)) (Unit {0}))
recv_round env size c = elim (c.rx_len == 0) [
  | false ↦ do
    (out, c') ← rx_pop c size
    elim c'.rx_wnd_closed [
      | false ↦ ok (ends (some out) c' [])
      | true ↦ do
        (c'', sent) ← send_segment env (record c' { rx_wnd_closed = false }) flag_ack c'.snd_nxt []
        ok (ends (some out) c'' (window_update sent))
    ]
  | true ↦ elim c.rx_fin [
    | true ↦ ok (ends (some []) c [])
    | false ↦ elim (reset_under c.state) [
      | true ↦ ok (ends none c [])
      | false ↦ ok (waits tt (record c { rx_event = false }) [])
    ]
  ]
]
