-- ===== src/Net/Tcp/Conn.antt =====
-- tcp.hpp, `State`, `Flags`, `Conn` and the tuning constants; tcp.cpp, `reinit` and the port counter.
use re_pico.Base.{
  ℕ, ◌+◌, List, Bool, true, false, not, bit_and, u16, leb, ◌==◌, if◌then◌else◌, replicate,
}

pub data State : Type 0 where
  closed listen syn_sent syn_received established fin_wait1 fin_wait2 closing : State
  close_wait last_ack time_wait : State

abbrev pub is_closed : State → Bool
is_closed State.closed = true
is_closed _ = false

abbrev pub rx_buffer_size : ℕ
rx_buffer_size = 2048

abbrev pub rx_mss : ℕ
rx_mss = 1460

abbrev pub default_mss : ℕ
default_mss = 536

abbrev pub max_retx : ℕ
max_retx = 5

abbrev pub time_wait_ms : ℕ
time_wait_ms = 10_000

abbrev pub flag_fin : ℕ
flag_fin = 0x01

abbrev pub flag_syn : ℕ
flag_syn = 0x02

abbrev pub flag_rst : ℕ
flag_rst = 0x04

abbrev pub flag_psh : ℕ
flag_psh = 0x08

abbrev pub flag_ack : ℕ
flag_ack = 0x10

-- `(flags & flag) != 0`.
abbrev pub has : ℕ → ℕ → Bool
has flags flag = not (bit_and flags flag == 0)

-- An event is a flag here: whether it has been notified since it was made anew.
pub record Conn : Type 0 where
  pub state : State
  pub local_port : ℕ
  pub remote_port : ℕ
  pub remote_addr : ℕ
  pub snd_una : ℕ
  pub snd_nxt : ℕ
  pub snd_wnd : ℕ
  pub snd_mss : ℕ
  pub retries : ℕ
  pub rcv_nxt : ℕ
  pub rx_buf : List ℕ
  pub rx_head : ℕ
  pub rx_len : ℕ
  pub rx_fin : Bool
  pub rx_wnd_closed : Bool
  pub tx_event : Bool
  pub rx_event : Bool
  pub expire_ms : ℕ

-- A connection as it is declared.
abbrev pub new_conn : Conn
new_conn = record {
  state = State.closed;
  local_port = 0;
  remote_port = 0;
  remote_addr = 0;
  snd_una = 0;
  snd_nxt = 0;
  snd_wnd = 0;
  snd_mss = default_mss;
  retries = 0;
  rcv_nxt = 0;
  rx_buf = replicate rx_buffer_size 0;
  rx_head = 0;
  rx_len = 0;
  rx_fin = false;
  rx_wnd_closed = false;
  tx_event = false;
  rx_event = false;
  expire_ms = 0;
}

unfoldable pub reinit : Conn → Conn
reinit c = record c {
  snd_una = 0;
  snd_nxt = 0;
  snd_wnd = 0;
  snd_mss = default_mss;
  retries = 0;
  rcv_nxt = 0;
  rx_head = 0;
  rx_len = 0;
  rx_fin = false;
  rx_wnd_closed = false;
  tx_event = false;
  rx_event = false;
  expire_ms = 0;
}

-- The static counter of `next_ephemeral_port`: the port is its new value.
unfoldable pub next_ephemeral_port : ℕ → ℕ
next_ephemeral_port counter = if leb 0xfff0 counter then 0xc000 else u16 (counter + 1)
