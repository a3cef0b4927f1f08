-- ===== src/Net/Tcp/Input/Arrival.antt =====
-- A segment that `send_segment` makes is the one that `input` finds in the packet.
use re_pico.Base.{
  ℕ, ◌+◌, ◌^◌, ◌≤◌, ◌<◌, ◌≡◌, refl, List, true, some, ◌==◌, length, inl, inr, Bool-cases, ◌||◌,
  arith, le→leb, length-append,
}
use re_pico.Base.Bytes.{Bytes, Bytes-append}
use re_pico.Base.Run.{ok}
use re_pico.Net.Tcp.Segment.{
  Outgoing, Env, segment_options, segment_window, segment_header, send_segment,
}
use re_pico.Net.Tcp.Conn.{Conn, flag_syn, has}
use re_pico.Net.Tcp.Valid.{IsConn}
use re_pico.Net.Tcp.Input.{parse}
use re_pico.Net.Tcp.Input.Sealed.{IsHeader, Spans, seal-parse}

pub segment_header-IsHeader :
    (c : Conn) (flags seq : ℕ)
    → IsConn c
    → flags < 256
    → seq < 2 ^ 32
    → IsHeader (segment_header c flags seq)
unfolding segment_header
segment_header-IsHeader c flags seq v f s = record {
  src_port = v.local_port;
  dst_port = v.remote_port;
  seq = s;
  ack = ground (arith, v.rcv_nxt);
  data_off = omega arith;
  flags = f;
  window = omega arith;
}

segment_options_lem :
    (c : Conn) (flags seq : ℕ)
    → Bytes (segment_options flags) × Spans (segment_header c flags seq) (segment_options flags)
unfolding segment_header
segment_options_lem c flags seq = elim (Bool-cases (has flags flag_syn)) [
  | inl e ↦ rw e (omega arith)
  | inr e ↦ rw e (omega arith)
]

-- Where a packet is to be had and the data fits, `send_segment` returns a segment to the peer that
-- the receiver's checks accept, and reading it gives back the header, the options and the data that
-- were put in; of the connection nothing changes but the note that a window of zero was told.
pub send_segment_lem :
    (env : Env) (c : Conn) (flags seq : ℕ) (bytes : List ℕ)
    → IsConn c
    → flags < 256
    → seq < 2 ^ 32
    → Bytes bytes
    → env.has_packet ≡ true
    → 20 + length (segment_options flags) + length bytes ≤ 1630
    → (p : Outgoing) × (send_segment env c flags seq bytes
        ≡ ok (record c { rx_wnd_closed = segment_window c == 0 || c.rx_wnd_closed }, some p))
      × (p.dst ≡ c.remote_addr)
      × (parse env.addr c.remote_addr p.bytes
          ≡ ok (record {
            header = segment_header c flags seq;
            options = segment_options flags;
            body = bytes;
          }))
unfolding send_segment
send_segment_lem env c flags seq bytes v f s b has room =
    let (opts, spans) = segment_options_lem c flags seq in
    let (packet, e, e') =
      seal-parse env.addr c.remote_addr (segment_header c flags seq) (segment_options flags) bytes
        (segment_header-IsHeader c flags seq v f s) spans
        (Bytes-append (segment_options flags) bytes opts b)
        (rw (length-append (segment_options flags) bytes) (omega arith)) in
    (
      record { dst = c.remote_addr; bytes = packet },
      rw (has, le→leb (20 + length (segment_options flags) + length bytes) 1630 room, e) refl,
      refl,
      e',
    )
