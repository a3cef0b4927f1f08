-- ===== src/Net/Tcp/Table.antt =====
-- tcp.cpp, the connection table: `bind`, `unbind`, the demultiplexing and the rest of `input`,
-- `tick`, `listen`. The connections are objects of the application that the table points to: they
-- stand in a list here, and a slot holds the place of one in it.
pub mod Safe
use re_pico.Base.{
  ℕ, ◌+◌, List, [], ◌∷◌, Bool, true, false, not, ◌&&◌, Option, none, some, leb, ◌==◌, if◌then◌else◌,
  length, get_or, set, map,
}
use re_pico.Base.Run.{Run, ok, fails, fault, out_of_fuel, ◌>>=◌}
use re_pico.Net.Tcp.Conn.{State, Conn, new_conn, reinit, is_closed}
use re_pico.Net.Tcp.Segment.{Outgoing, Env, send_rst}
use re_pico.Net.Tcp.Input.{Segment, Outcome, add_sent, parse, input_conn}

pub record Stack : Type 0 where
  pub addr : ℕ
  pub now_ms : ℕ
  pub conns : List Conn
  pub slots : List (Option ℕ)

abbrev pub conn_at : List Conn → ℕ → Conn
conn_at conns i = get_or conns i new_conn

-- The loop of `bind` up to its end: `none` where the port is in use, else the first free slot.
unfoldable pub bind_scan : List Conn → ℕ → ℕ → List (Option ℕ) → Option ℕ → Option (Option ℕ)
bind_scan conns port i [] free = some free
bind_scan conns port i (none ∷ slots) none = bind_scan conns port (i + 1) slots (some i)
bind_scan conns port i (none ∷ slots) (some f) = bind_scan conns port (i + 1) slots (some f)
bind_scan conns port i (some c ∷ slots) free =
    let rest = bind_scan conns port (i + 1) slots free in
    if (conn_at conns c).local_port == port then none else rest

-- `none` where it returns false.
unfoldable pub bind : Stack → ℕ → Option Stack
bind st c = elim (bind_scan st.conns (conn_at st.conns c).local_port 0 st.slots none) [
  | none ↦ none
  | some none ↦ none
  | some (some i) ↦ some (record st { slots = set st.slots i (some c) })
]

abbrev pub drop_from_slot : ℕ → Option ℕ → Option ℕ
drop_from_slot c none = none
drop_from_slot c (some d) = if d == c then none else some d

unfoldable pub unbind : Stack → ℕ → Stack
unbind st c = record st { slots = map (drop_from_slot c) st.slots }

abbrev pub is_listening : State → Bool
is_listening State.listen = true
is_listening _ = false

abbrev pub keep_first : Option ℕ → ℕ → ℕ
keep_first none d = d
keep_first (some l) d = l

-- The demultiplexing loop: a connection with the four-tuple, else the first listener on the port.
unfoldable pub demux : List Conn → ℕ → ℕ → ℕ → List (Option ℕ) → Option ℕ → Option ℕ
demux conns src src_port dst_port [] listener = listener
demux conns src src_port dst_port (none ∷ slots) listener =
    demux conns src src_port dst_port slots listener
demux conns src src_port dst_port (some c ∷ slots) listener =
    let conn = conn_at conns c in
    let skip = demux conns src src_port dst_port slots listener in
    let found = demux conns src src_port dst_port slots (some (keep_first listener c)) in
    if not (conn.local_port == dst_port)
    then skip
    else if is_listening conn.state
    then found
    else if conn.remote_port == src_port && conn.remote_addr == src
    then some c
    else skip

-- The connection as `input` leaves it, in its place.
unfoldable pub settle : Stack → ℕ → Outcome → Stack
settle st c out =
    let st' = record st { conns = set st.conns c out.conn } in
    if out.unbound then unbind st' c else st'

unfoldable pub deliver : Env → Stack → ℕ → Segment → Run (Stack × List Outgoing)
deliver env st src s = elim (demux st.conns src s.src_port s.dst_port st.slots none) [
  | none ↦ do p ← send_rst env src s.header (length s.body); ok (st, add_sent [] p)
  | some c ↦ do
    out ← input_conn env src s (conn_at st.conns c) (conn_at st.conns c).state
    ok (settle st c out, out.sent)
]

-- A packet that does not parse is dropped.
unfoldable pub on_parsed : Env → Stack → ℕ → Run Segment → Run (Stack × List Outgoing)
on_parsed env st src (ok s) = deliver env st src s
on_parsed env st src fails = ok (st, [])
on_parsed env st src fault = fault
on_parsed env st src out_of_fuel = out_of_fuel

unfoldable pub input : Stack → ℕ → Bool → ℕ → ℕ → List ℕ → Run (Stack × List Outgoing)
input st now_us has_packet src dst packet =
    on_parsed
      (record { addr = st.addr; now_ms = st.now_ms; now_us = now_us; has_packet = has_packet }) st
      src (parse src dst packet)

abbrev pub lingers : State → Bool
lingers State.time_wait = true
lingers _ = false

-- `tick`, the loop over the slots: what is left of the slots and the connections.
unfoldable pub tick_slots : ℕ → List Conn → List (Option ℕ) → List Conn × List (Option ℕ)
tick_slots now conns [] = (conns, [])
tick_slots now conns (none ∷ slots) =
    let (conns', slots') = tick_slots now conns slots in (conns', none ∷ slots')
tick_slots now conns (some c ∷ slots) =
    let conn = conn_at conns c in
    let over = lingers conn.state && leb conn.expire_ms now in
    let (conns', slots') =
      tick_slots now (if over then set conns c (record conn { state = State.closed }) else conns)
        slots in
    (conns', (if over then none else some c) ∷ slots')

unfoldable pub tick : Stack → ℕ → Stack
tick st now =
    let (conns, slots) = tick_slots now st.conns st.slots in
    record st { conns = conns; slots = slots }

-- `Conn::listen`; beside the stack, whether it returns true. A refused bind leaves the connection
-- made anew, with the port.
unfoldable pub listen : Stack → ℕ → ℕ → Stack × Bool
listen st c port =
    let conn = conn_at st.conns c in
    let fresh = reinit conn in
    let st' = record st {
      conns = set st.conns c (record fresh { local_port = port; remote_port = 0; remote_addr = 0 });
    } in
    if is_closed conn.state
    then elim (bind st' c) [
      | none ↦ (st', false)
      | some st'' ↦ (
        record st'' {
          conns = set st''.conns c (record (conn_at st''.conns c) { state = State.listen });
        },
        true,
      )
    ]
    else (st, false)
