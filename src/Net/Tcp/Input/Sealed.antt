-- ===== src/Net/Tcp/Input/Sealed.antt =====
-- A segment that is put together with its checksum passes the checks of `input` and reads back.
use re_pico.Base.{
  ℕ, ◌+◌, ◌-◌, ◌*◌, ◌^◌, ◌≤◌, ◌<◌, ◌≡◌, ◌∙◌, refl, sym, ap, List, ◌++◌, ◌>>◌, length, arith, le→leb,
  length-append, length-drop, take, drop,
}
use re_pico.Base.Bytes.{Bytes, Bytes-append}
use re_pico.Base.Slices.{take_all, drop-drop, take-append_self, drop-append_past}
use re_pico.Base.Run.{ok, between-ok}
use re_pico.Net.Wire.{be16_number, be32_number}
use re_pico.Net.Checksum.{l4_checksum}
use re_pico.Net.Checksum.Total.{words_total, folds_to_zero, l4_total, l4_checksum_lem}
use re_pico.Net.Tcp.Segment.{Header, header_bytes, seal}
use re_pico.Net.Tcp.Input.{read_header, parse}

-- The fields fit.
pub record IsHeader (h : Header) : Type 0 where
  pub src_port : h.src_port < 65536
  pub dst_port : h.dst_port < 65536
  pub seq : h.seq < 2 ^ 32
  pub ack : h.ack < 2 ^ 32
  pub data_off : h.data_off < 256
  pub flags : h.flags < 256
  pub window : h.window < 65536

header_bytes-Bytes :
    (h : Header) (sum : ℕ) (rest : List ℕ)
    → IsHeader h
    → Bytes rest
    → Bytes (header_bytes h sum ++ rest)
unfolding header_bytes
header_bytes-Bytes h sum rest v b =
    Bytes-append (header_bytes h sum) rest (omega (arith, v.data_off, v.flags)) b

read_header_lem :
    (h : Header) (sum : ℕ) (rest : List ℕ)
    → IsHeader h
    → read_header (take 20 (header_bytes h sum ++ rest)) ≡ h
unfolding read_header header_bytes
read_header_lem h sum rest v = λ i. record {
  src_port = be16_number h.src_port v.src_port i;
  dst_port = be16_number h.dst_port v.dst_port i;
  seq = be32_number h.seq v.seq i;
  ack = be32_number h.ack v.ack i;
  data_off = h.data_off;
  flags = h.flags;
  window = be16_number h.window v.window i;
}

total_lem :
    (src dst : ℕ) (h : Header) (sum : ℕ) (rest : List ℕ)
    → sum < 65536
    → l4_total src dst 6 (header_bytes h sum ++ rest)
      ≡ l4_total src dst 6 (header_bytes h 0 ++ rest) + sum
unfolding header_bytes l4_total words_total
total_lem src dst h sum rest small = omega arith

size :
    (h : Header) (sum : ℕ) (rest : List ℕ)
    → length rest < 65000
    → length (header_bytes h sum ++ rest) < 65536
unfolding header_bytes
size h sum rest few = omega arith

-- The checksum that the sender stores makes the receiver's come out as zero.
seal_lem :
    (src dst : ℕ) (h : Header) (rest : List ℕ)
    → IsHeader h
    → Bytes rest
    → length rest < 65000
    → (sum : ℕ) × (seal src dst h rest ≡ ok (header_bytes h sum ++ rest))
      × (l4_checksum src dst 6 (header_bytes h sum ++ rest) ≡ ok 0)
unfolding seal
seal_lem src dst h rest v b few =
    let blank : List ℕ = header_bytes h 0 ++ rest in
    let (r, e, f) =
      l4_checksum_lem src dst 6 blank (omega arith) (header_bytes-Bytes h 0 rest v b)
        (size h 0 rest few) in
    let sum : ℕ = 65535 - r in
    let whole : List ℕ = header_bytes h sum ++ rest in
    let (r', e', f') =
      l4_checksum_lem src dst 6 whole (omega arith) (header_bytes-Bytes h sum rest v b)
        (size h sum rest few) in
    (
      sum,
      rw e refl,
      e'
          ∙ ap ok (
              folds_to_zero (l4_total src dst 6 blank) (l4_total src dst 6 whole) r r' f f'
                (total_lem src dst h sum rest (omega arith))),
    )

-- Its `data_off` counts the options in.
abbrev pub Spans : Header → List ℕ → Type 0
Spans h options = (h.data_off >> 4) * 4 ≡ 20 + length options

drop-header : (h : Header) (sum : ℕ) (rest : List ℕ) → drop 20 (header_bytes h sum ++ rest) ≡ rest
unfolding header_bytes
drop-header h sum rest = refl

length-header : (h : Header) (sum : ℕ) → length (header_bytes h sum) ≡ 20
unfolding header_bytes
length-header h sum = refl

minus : (n : ℕ) → 20 + n - 20 ≡ n
minus n = omega arith

parse_lem :
    (src dst n : ℕ) (packet : List ℕ) (h : Header)
    → read_header (take 20 packet) ≡ h
    → (h.data_off >> 4) * 4 ≡ 20 + n
    → 20 + n ≤ length packet
    → l4_checksum src dst 6 packet ≡ ok 0
    → parse src dst packet
      ≡ ok
          (record { header = h; options = take n (drop 20 packet); body = drop n (drop 20 packet) })
unfolding parse
parse_lem src dst n packet h eh eo fit sum =
    rw
      (
        le→leb 20 (length packet) (omega arith),
        between-ok packet 0 20 (omega arith) (omega arith),
        eh,
        eo,
        le→leb 20 (20 + n) (omega arith),
        le→leb (20 + n) (length packet) fit,
        sum,
        between-ok packet 20 (20 + n) (omega arith) fit,
        between-ok packet (20 + n) (length packet) fit (omega arith),
        take_all (length packet - (20 + n)) (drop (20 + n) packet)
            (omega (arith, length-drop (20 + n) packet)),
        minus n,
        sym (drop-drop 20 n (20 + n) packet refl),
      )
      refl

pub seal-parse :
    (src dst : ℕ) (h : Header) (options body : List ℕ)
    → IsHeader h
    → Spans h options
    → Bytes (options ++ body)
    → length (options ++ body) < 65000
    → (packet : List ℕ) × (seal src dst h (options ++ body) ≡ ok packet)
      × (parse src dst packet ≡ ok (record { header = h; options = options; body = body }))
seal-parse src dst h options body v spans b few =
    let rest : List ℕ = options ++ body in
    let (sum, e, zero_sum) = seal_lem src dst h rest v b few in
    let packet : List ℕ = header_bytes h sum ++ rest in
    (
      packet,
      e,
      parse_lem src dst (length options) packet h (read_header_lem h sum rest v) spans
            (rw
              (
                length-append (header_bytes h sum) rest,
                length-header h sum,
                length-append options body,
              )
              (omega arith))
            zero_sum
          ∙ rw
              (
                drop-header h sum rest,
                take-append_self (length options) options body refl,
                drop-append_past (length options) 0 options body (omega arith),
              )
              refl,
    )
