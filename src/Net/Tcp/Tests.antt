-- ===== src/Net/Tcp/Tests.antt =====
-- A connection and its packets, run: the tests and the examples of the theorems.
use re_pico.Net.Tcp.Send.{Sending, fill_loop, send_resume}
use re_pico.Net.Tcp.Send.Window.{IsSending, Filled, fill_loop_lem}
use re_pico.Net.Tcp.Send.Again.{Sends, rewound, send_resume-again}
use re_pico.Base.{
  Bool, ℕ, ◌+◌, ◌-◌, ◌*◌, ◌%◌, ◌≡◌, refl, List, [], ◌∷◌, ◌++◌, true, false, Option, none, some,
  length, replicate, length-replicate, take, drop, min, u32, not, ◌||◌, ◌==◌, ◌≤◌, ◌<◌, ◌&&◌, ◌↔◌,
  ◌⊎◌, inl, inr, arith, ◌^◌,
}
use re_pico.Base.Run.{between, Run, ok, fails, fault, out_of_fuel, Yields, yields}
use re_pico.Net.Checksum.{sum_words, fold, pseudo_header, l4_checksum}
use re_pico.Net.Checksum.Total.{IsFolded, l4_total, l4_checksum_lem}
use re_pico.Net.Tcp.Conn.{State, Conn, new_conn}
use re_pico.Net.Tcp.Seq.{sub32, seq_le}
use re_pico.Net.Tcp.Seq.Window.{seq_le-window}
use re_pico.Net.Tcp.Ring.{rx_free, rx_push, rx_pop}
use re_pico.Net.Tcp.Ring.Queue.{IsRing, contents, rx_push_lem, rx_pop_lem}
use re_pico.Net.Tcp.Segment.{
  Header, Outgoing, Env, header_bytes, seal, segment_options, segment_window, segment_header,
  send_segment, parse_mss_from, parse_mss, negotiate_mss,
}
use re_pico.Net.Tcp.Segment.Mss.{negotiate_mss_lem}
use re_pico.Net.Tcp.Valid.{IsConn}
use re_pico.Net.Tcp.Input.{
  Segment, read_header, parse, reply, input_listen, input_conn, process_data,
}
use re_pico.Net.Tcp.Input.Sealed.{IsHeader}
use re_pico.Net.Tcp.Input.Arrival.{send_segment_lem}
use re_pico.Net.Tcp.Input.Data.{new_bytes, process_data_lem}
use re_pico.Net.Tcp.Input.Moves.{Kept}
use re_pico.Net.Tcp.Input.Safe.{input_conn-Kept}
use re_pico.Net.Tcp.Table.{Stack, bind_scan, bind, listen, demux, settle, deliver, on_parsed, input}

abbrev our_addr : ℕ
our_addr = 167772161

abbrev peer_addr : ℕ
peer_addr = 167772162

abbrev listener : Conn
listener = record new_conn { state = State.listen; local_port = 80 }

abbrev demo_stack : Stack
demo_stack = record {
  addr = our_addr;
  now_ms = 7;
  conns = listener ∷ [];
  slots = none ∷ some 0 ∷ none ∷ [];
}

-- A request to connect from port 4000, with an option for segments of 1460 bytes.
abbrev syn_packet : List ℕ
syn_packet =
    15 ∷ 160 ∷ 0 ∷ 80 ∷ 0 ∷ 0 ∷ 3 ∷ 232 ∷ 0 ∷ 0 ∷ 0 ∷ 0 ∷ 96 ∷ 2 ∷ 32 ∷ 0 ∷ 80 ∷ 76 ∷ 0 ∷ 0 ∷ 2 ∷ 4
    ∷ 5 ∷ 180 ∷ []

abbrev state_of : Run (Stack × List Outgoing) → List (State × ℕ)
state_of (ok (st, _)) = elim st.conns [ [] ↦ [] | c ∷ _ ↦ (c.state, c.rcv_nxt) ∷ [] ]
state_of fails = []
state_of fault = []
state_of out_of_fuel = []

abbrev replies : Run (Stack × List Outgoing) → ℕ
replies (ok (_, out)) = length out
replies fails = 0
replies fault = 0
replies out_of_fuel = 0

syn_opens :
    state_of (input demo_stack 5 true peer_addr our_addr syn_packet)
    ≡ (State.syn_received, 1001) ∷ []
unfolding input on_parsed parse between read_header l4_checksum fold sum_words pseudo_header deliver
    demux input_conn input_listen negotiate_mss parse_mss parse_mss_from re_pico.Base.Run.read reply
    settle send_segment segment_header seal header_bytes rx_free re_pico.Net.Tcp.Table.unbind
syn_opens = refl

syn_replies : replies (input demo_stack 5 true peer_addr our_addr syn_packet) ≡ 1
unfolding input on_parsed parse between read_header l4_checksum fold sum_words pseudo_header deliver
    demux input_conn input_listen negotiate_mss parse_mss parse_mss_from re_pico.Base.Run.read reply
    settle send_segment segment_header seal header_bytes rx_free re_pico.Net.Tcp.Table.unbind
syn_replies = refl

-- The examples of the theorems.
new_conn-IsRing : IsRing new_conn
new_conn-IsRing = record {
  size = length-replicate {A = ℕ} 2048 0;
  head = omega arith;
  len = omega arith;
}

listener-IsConn : IsConn listener
listener-IsConn = record {
  local_port = omega arith;
  remote_port = omega arith;
  snd_una = omega arith;
  snd_nxt = omega arith;
  rcv_nxt = omega arith;
  ring = record { size = length-replicate {A = ℕ} 2048 0; head = omega arith; len = omega arith };
}

abbrev demo_env : Env
demo_env = record { addr = our_addr; now_ms = 7; now_us = 5; has_packet = true }

abbrev demo_header : Header
demo_header = record {
  src_port = 4000;
  dst_port = 80;
  seq = 1000;
  ack = 0;
  data_off = 80;
  flags = 2;
  window = 8192;
}

demo_header-IsHeader : IsHeader demo_header
demo_header-IsHeader = record {
  src_port = omega arith;
  dst_port = omega arith;
  seq = omega arith;
  ack = omega arith;
  data_off = omega arith;
  flags = omega arith;
  window = omega arith;
}

abbrev demo_segment : Segment
demo_segment = record { header = demo_header; options = []; body = 1 ∷ 2 ∷ 3 ∷ [] }

input_conn-Kept_example :
    Yields (Kept listener) (input_conn demo_env peer_addr demo_segment listener State.listen)
input_conn-Kept_example =
    input_conn-Kept demo_env peer_addr demo_segment listener State.listen refl refl listener-IsConn
      (record { header = demo_header-IsHeader; options = tt })

-- An open connection that has received the first two of the three bytes.
abbrev reader : Conn
reader = record new_conn { state = State.established; rcv_nxt = 1002 }

reader-IsConn : IsConn reader
reader-IsConn = record {
  local_port = omega arith;
  remote_port = omega arith;
  snd_una = omega arith;
  snd_nxt = omega arith;
  rcv_nxt = omega arith;
  ring = record { size = length-replicate {A = ℕ} 2048 0; head = omega arith; len = omega arith };
}

process_data_lem_example :
    let news = new_bytes reader demo_segment in
    let count = min (length news) (2048 - reader.rx_len) in
    (c' : Conn) × (process_data demo_segment reader ≡ ok c')
    × (contents c' ≡ contents reader ++ take count news)
    × (c' ≡ record reader {
      rx_buf = c'.rx_buf;
      rx_len = reader.rx_len + count;
      rcv_nxt = u32 (reader.rcv_nxt + count);
      rx_event = not (count == 0) || reader.rx_event;
    })
    × IsConn c'
process_data_lem_example = process_data_lem demo_segment reader reader-IsConn (omega arith)

send_segment_lem_example :
    (p : Outgoing) × (send_segment demo_env reader 0x18 77 (1 ∷ 2 ∷ 3 ∷ [])
      ≡ ok (
        record reader { rx_wnd_closed = segment_window reader == 0 || reader.rx_wnd_closed },
        some p,
      ))
    × (p.dst ≡ reader.remote_addr)
    × (parse demo_env.addr reader.remote_addr p.bytes
        ≡ ok (record {
          header = segment_header reader 0x18 77;
          options = segment_options 0x18;
          body = 1 ∷ 2 ∷ 3 ∷ [];
        }))
send_segment_lem_example =
    send_segment_lem demo_env reader 0x18 77 (1 ∷ 2 ∷ 3 ∷ []) reader-IsConn (omega arith)
      (omega arith) (omega arith) refl (omega arith)

rx_push_lem_example :
    (c' : Conn) × (rx_push new_conn (5 ∷ 6 ∷ []) ≡ ok (min 2 (2048 - 0), c'))
    × (contents c' ≡ contents new_conn ++ take (min 2 (2048 - 0)) (5 ∷ 6 ∷ []))
    × IsRing c'
    × (c' ≡ record new_conn { rx_buf = c'.rx_buf; rx_len = 0 + min 2 (2048 - 0) })
rx_push_lem_example = rx_push_lem new_conn (5 ∷ 6 ∷ []) new_conn-IsRing

-- Three bytes wait, two of them before the end of the buffer.
abbrev holding : Conn
holding = record new_conn { rx_head = 2046; rx_len = 3 }

holding-IsRing : IsRing holding
holding-IsRing = record {
  size = length-replicate {A = ℕ} 2048 0;
  head = omega arith;
  len = omega arith;
}

rx_pop_lem_example :
    (c' : Conn) × (rx_pop holding 16 ≡ ok (take (min 16 3) (contents holding), c'))
    × (contents c' ≡ drop (min 16 3) (contents holding))
    × IsRing c'
    × (c' ≡ record holding { rx_head = (2046 + min 16 3) % 2048; rx_len = 3 - min 16 3 })
rx_pop_lem_example = rx_pop_lem holding 16 holding-IsRing

-- A window across zero.
seq_le-window_example : ((seq_le 0xffff_fff0 4 && seq_le 4 0x10) ≡ true) ↔ (
    (sub32 4 0xffff_fff0 ≤ sub32 0x10 0xffff_fff0)
    ⊎ ((◌≡◌ {A = ℕ} 0x10 0xffff_fff0) × (sub32 4 0xffff_fff0 ≡ 2 ^ 31)))
seq_le-window_example =
    seq_le-window 0xffff_fff0 4 0x10 (omega arith) (omega arith) (omega arith) (omega arith)

abbrev demo_options : List ℕ
demo_options = 1 ∷ 1 ∷ 2 ∷ 4 ∷ 2 ∷ 0 ∷ []

negotiate_mss_lem_example : (m : ℕ) × (negotiate_mss demo_options ≡ ok m) × (1 ≤ m) × (m ≤ 1460)
negotiate_mss_lem_example = negotiate_mss_lem demo_options (omega arith)

l4_checksum_lem_example :
    (r : ℕ) × (l4_checksum peer_addr our_addr 6 demo_options ≡ ok (65535 - r))
    × IsFolded (l4_total peer_addr our_addr 6 demo_options) r
l4_checksum_lem_example =
    l4_checksum_lem peer_addr our_addr 6 demo_options (omega arith) (omega arith) (omega arith)

-- Three bytes, a window of two, and nothing in flight.
abbrev sending : Sending
sending = record { base = 100; end = 103; bytes = 7 ∷ 8 ∷ 9 ∷ [] }

abbrev sender : Conn
sender = record new_conn {
  state = State.established;
  local_port = 80;
  remote_port = 4000;
  snd_una = 100;
  snd_nxt = 100;
  snd_wnd = 2;
}

sender-IsConn : IsConn sender
sender-IsConn = record {
  local_port = omega arith;
  remote_port = omega arith;
  snd_una = omega arith;
  snd_nxt = omega arith;
  rcv_nxt = omega arith;
  ring = record { size = length-replicate {A = ℕ} 2048 0; head = omega arith; len = omega arith };
}

abbrev taken_all : Outgoing → Bool
taken_all p = true

sender-IsSending : IsSending demo_env sending sender 0
sender-IsSending = record {
  conn = sender-IsConn;
  base = omega arith;
  small = omega arith;
  end = refl;
  next = refl;
  inside = omega arith;
  flight = omega arith;
  mss = (omega arith, omega arith);
  data_bytes = ground arith;
  has_packet = refl;
}

fill_loop_lem_example :
    Yields
      (Filled demo_env taken_all sending sender 0)
      (fill_loop demo_env taken_all sending 4 sender)
fill_loop_lem_example =
    fill_loop_lem demo_env taken_all sending 4 sender 0 (omega arith) sender-IsSending

send_resume-again_example :
    Yields
      (Sends demo_env taken_all sending (rewound demo_env taken_all sending sender) 0)
      (send_resume demo_env taken_all sending false sender)
send_resume-again_example =
    send_resume-again demo_env taken_all sending sender 0 0 sender-IsSending refl (omega arith) refl
      (inr (omega arith))
