-- ===== src/Net/Tcp/Segment.antt =====
-- tcp.hpp, `Header`; tcp.cpp, `send_segment`, `send_rst`, `parse_mss`, `negotiate_mss`: segments
-- and their bytes. What goes to `ipv4::output` is the list of bytes that is handed to it.
pub mod Mss
use re_pico.Base.{
  ℕ, zero, suc, ◌+◌, ◌-◌, ◌/◌, List, [], ◌∷◌, ◌++◌, Bool, true, false, not, ◌&&◌, ◌||◌, Option,
  none, some, bit_or, bit_and, u8, u16, u32, ◌<<◌, ◌>>◌, ltb, leb, ◌==◌, if◌then◌else◌, min, length,
}
use re_pico.Base.Run.{Run, ok, out_of_fuel, ◌>>=◌, read}
use re_pico.Net.Wire.{be16, be32}
use re_pico.Net.Checksum.{l4_checksum}
use re_pico.Net.Tcp.Conn.{Conn, rx_mss, default_mss, flag_fin, flag_syn, flag_rst, flag_ack, has}
use re_pico.Net.Tcp.Ring.{rx_free}

-- The fields of a header, in host order; `checksum` and `urgent` are apart.
pub record Header : Type 0 where
  pub src_port : ℕ
  pub dst_port : ℕ
  pub seq : ℕ
  pub ack : ℕ
  pub data_off : ℕ
  pub flags : ℕ
  pub window : ℕ

abbrev pub header_size : ℕ
header_size = 20

abbrev pub proto_tcp : ℕ
proto_tcp = 6

-- The header's bytes, with the given checksum field and no urgent pointer.
unfoldable pub header_bytes : Header → ℕ → List ℕ
header_bytes h sum =
    be16 h.src_port
    ++ (be16 h.dst_port
        ++ (be32 h.seq
            ++ (be32 h.ack ++ (h.data_off ∷ h.flags ∷ (be16 h.window ++ (be16 sum ++ be16 0))))))

-- The checksum is taken over the segment with the field at zero and then stored.
unfoldable pub seal : ℕ → ℕ → Header → List ℕ → Run (List ℕ)
seal src dst h rest = do
  sum ← l4_checksum src dst proto_tcp (header_bytes h 0 ++ rest)
  ok (header_bytes h sum ++ rest)

-- A segment on its way out: the destination and the bytes.
pub record Outgoing : Type 0 where
  pub dst : ℕ
  pub bytes : List ℕ

-- What the stack around a call gives it: our address, the clocks, and whether a packet can be had.
pub record Env : Type 0 where
  pub addr : ℕ
  pub now_ms : ℕ
  pub now_us : ℕ
  pub has_packet : Bool

-- A packet holds 1664 bytes; 34 go to the ethernet and ipv4 headers.
abbrev pub segment_room : ℕ
segment_room = 1664 - (14 + 20)

abbrev pub mss_option : List ℕ
mss_option = 2 ∷ 4 ∷ u8 (rx_mss >> 8) ∷ u8 (bit_and rx_mss 0xff) ∷ []

abbrev pub segment_options : ℕ → List ℕ
segment_options flags = if has flags flag_syn then mss_option else []

abbrev pub segment_window : Conn → ℕ
segment_window c = u16 (min (rx_free c) 0xffff)

unfoldable pub segment_header : Conn → ℕ → ℕ → Header
segment_header c flags seq = record {
  src_port = c.local_port;
  dst_port = c.remote_port;
  seq = seq;
  ack = if has flags flag_ack then c.rcv_nxt else 0;
  data_off = u8 (((header_size + length (segment_options flags)) / 4) << 4);
  flags = flags;
  window = segment_window c;
}

-- `none` where no packet is to be had or the data does not fit.
unfoldable pub send_segment : Env → Conn → ℕ → ℕ → List ℕ → Run (Conn × Option Outgoing)
send_segment env c flags seq bytes =
    let size = header_size + length (segment_options flags) + length bytes in
    if env.has_packet && leb size segment_room
    then (do
      let c' = record c { rx_wnd_closed = segment_window c == 0 || c.rx_wnd_closed }
      packet ←
          seal env.addr c.remote_addr (segment_header c flags seq) (segment_options flags ++ bytes)
      ok (c', some (record { dst = c.remote_addr; bytes = packet })))
    else ok (c, none)

-- The reset for a segment that no connection takes: RFC 793.
unfoldable pub rst_header : Header → ℕ → Header
rst_header offender data_len =
    if has offender.flags flag_ack
    then record {
      src_port = offender.dst_port;
      dst_port = offender.src_port;
      seq = offender.ack;
      ack = 0;
      data_off = u8 ((header_size / 4) << 4);
      flags = flag_rst;
      window = 0;
    }
    else record {
      src_port = offender.dst_port;
      dst_port = offender.src_port;
      seq = 0;
      ack = u32 (
          offender.seq
          + data_len
          + ((if has offender.flags flag_syn then 1 else 0)
              + (if has offender.flags flag_fin then 1 else 0)));
      data_off = u8 ((header_size / 4) << 4);
      flags = bit_or flag_rst flag_ack;
      window = 0;
    }

unfoldable pub send_rst : Env → ℕ → Header → ℕ → Run (Option Outgoing)
send_rst env dst offender data_len =
    if has offender.flags flag_rst || not env.has_packet then ok none else (do
      packet ← seal env.addr dst (rst_header offender data_len) []
      ok (some (record { dst = dst; bytes = packet })))

-- The loop of `parse_mss`, from position `i`; an option block that is cut off gives 0.
unfoldable pub parse_mss_from : ℕ → ℕ → List ℕ → Run ℕ
parse_mss_from zero i options = out_of_fuel
parse_mss_from (suc fuel) i options = elim (ltb i (length options)) [
  | false ↦ ok 0
  | true ↦ do
    kind ← read options i
    elim (kind == 0) [
      | true ↦ ok 0
      | false ↦ elim (kind == 1) [
        | true ↦ parse_mss_from fuel (i + 1) options
        | false ↦ elim (ltb (i + 1) (length options)) [
          | false ↦ ok 0
          | true ↦ do
            len ← read options (i + 1)
            elim (leb 2 len && leb (i + len) (length options)) [
              | false ↦ ok 0
              | true ↦ elim (kind == 2 && len == 4) [
                | true ↦ do
                  hi ← read options (i + 2)
                  lo ← read options (i + 3)
                  ok (bit_or (hi << 8) lo)
                | false ↦ parse_mss_from fuel (i + len) options
              ]
            ]
        ]
      ]
    ]
]

-- Each round moves on by one byte at least.
unfoldable pub parse_mss : List ℕ → Run ℕ
parse_mss options = parse_mss_from (length options + 1) 0 options

unfoldable pub negotiate_mss : List ℕ → Run ℕ
negotiate_mss options = do
  mss ← parse_mss options
  ok (if mss == 0 then default_mss else min mss rx_mss)
