-- ===== src/Net/Tcp/Input/Data.antt =====
-- What `input` does with the data of a segment.
use re_pico.Base.{
  ℕ, suc, ◌+◌, ◌-◌, ◌^◌, ◌≤◌, ◌<◌, ◌≡◌, ◌≢◌, ◌∙◌, refl, sym, subst, append-nil, ap, List, [], ◌∷◌,
  ◌++◌, Bool, true, false, not, ◌&&◌, ◌||◌, inl, inr, Bool-cases, u32, leb, ◌==◌, if◌then◌else◌,
  length, take, drop, min, arith, length-drop, dec_lt, lt→leb, le→leb, lt→ltb, le→ltb,
}
use re_pico.Base.Bytes.{drop-all}
use re_pico.Base.Slices.{take_nil}
use re_pico.Base.Run.{Run, ok, ◌>>=◌}
use re_pico.Net.Tcp.Seq.{sub32, seq_lt}
use re_pico.Net.Tcp.Conn.{Conn}
use re_pico.Net.Tcp.Ring.{rx_push}
use re_pico.Net.Tcp.Ring.Queue.{contents, rx_push_lem}
use re_pico.Net.Tcp.Valid.{IsConn}
use re_pico.Net.Tcp.Input.{Segment, receives, trim, process_data}

-- The bytes of a segment that are new: those behind the ones received so far. A segment that starts
-- behind `rcv_nxt` has none that could be taken.
abbrev pub new_bytes : Conn → Segment → List ℕ
new_bytes c s =
    let behind = sub32 c.rcv_nxt s.seq in
    if receives c.state && leb behind (2 ^ 31) then drop behind s.body else []

zero_behind : (n : ℕ) → n ≤ 0 → n ≡ 0
zero_behind n h = omega arith

trim_old :
    (c : Conn) (s : Segment)
    → c.rcv_nxt < 2 ^ 32
    → s.seq < 2 ^ 32
    → sub32 c.rcv_nxt s.seq ≤ 2 ^ 31
    → trim c s ≡ (drop (sub32 c.rcv_nxt s.seq) s.body, c.rcv_nxt)
unfolding trim seq_lt
trim_old c s hr hs h =
    let behind : ℕ = sub32 c.rcv_nxt s.seq in
    elim (dec_lt 0 behind) [
      | yes some ↦
          rw (le→leb (2 ^ 31) (sub32 s.seq c.rcv_nxt) (omega arith))
            (elim (dec_lt behind (length s.body)) [
              | yes more ↦ rw (lt→ltb behind (length s.body) more) refl
              | no done ↦
                  rw
                    (
                      le→ltb behind (length s.body) (omega arith),
                      drop-all s.body behind (omega arith),
                    )
                    refl
            ])
      | no none ↦
          rw
            (
              lt→leb (2 ^ 31) (sub32 s.seq c.rcv_nxt) (omega arith),
              zero_behind behind (omega arith),
            )
            (ap (λ (q : ℕ). (s.body, q)) (omega arith))
    ]

trim_ahead :
    (c : Conn) (s : Segment)
    → c.rcv_nxt < 2 ^ 32
    → s.seq < 2 ^ 32
    → 2 ^ 31 < sub32 c.rcv_nxt s.seq
    → trim c s ≡ (s.body, s.seq)
unfolding trim seq_lt
trim_ahead c s hr hs h = rw (lt→leb (2 ^ 31) (sub32 s.seq c.rcv_nxt) (omega arith)) refl

-- Hand bytes to the ring.
accept : Conn → List ℕ → Run Conn
accept c news =
    if not (length news == 0)
    then (do
      (accepted, c') ← rx_push c news
      ok (record c' {
        rcv_nxt = u32 (c.rcv_nxt + accepted);
        rx_event = not (accepted == 0) || c.rx_event;
      }))
    else ok c

==-refl : (n : ℕ) → (n == n) ≡ true
==-refl n = ground arith

apart : (m n : ℕ) → m ≢ n → (m == n) ≡ false
apart m n h = ground arith

no_more : (xs : List ℕ) (n : ℕ) → (length xs == 0) ≡ true → (length (drop n xs) == 0) ≡ true
no_more xs n h = ground (arith, length-drop n xs)

process_data-accept :
    (s : Segment) (c : Conn)
    → IsConn c
    → s.seq < 2 ^ 32
    → process_data s c ≡ accept c (new_bytes c s)
unfolding process_data accept
process_data-accept s c v small = elim (Bool-cases (receives c.state)) [
  | inr e ↦ elim (Bool-cases (length s.body == 0)) [
    | inl z ↦ rw (e, z) refl
    | inr z ↦ rw (e, z) refl
  ]
  | inl e ↦ elim (dec_lt (2 ^ 31) (sub32 c.rcv_nxt s.seq)) [
    | yes ahead ↦
        rw
          (
            e,
            trim_ahead c s v.rcv_nxt small ahead,
            lt→leb (sub32 c.rcv_nxt s.seq) (2 ^ 31) ahead,
            apart s.seq c.rcv_nxt (λ q. omega arith),
          )
          (elim (Bool-cases (length s.body == 0)) [ inl z ↦ rw z refl | inr z ↦ rw z refl ])
    | no old ↦
        rw
          (
            e,
            trim_old c s v.rcv_nxt small (omega arith),
            le→leb (sub32 c.rcv_nxt s.seq) (2 ^ 31) (omega arith),
            ==-refl c.rcv_nxt,
          )
          (elim (Bool-cases (length s.body == 0)) [
            | inl z ↦ rw (z, no_more s.body (sub32 c.rcv_nxt s.seq) z) refl
            | inr z ↦ elim (Bool-cases (length (drop (sub32 c.rcv_nxt s.seq) s.body) == 0)) [
              | inl y ↦ rw (z, y) refl
              | inr y ↦ rw (z, y) refl
            ]
          ])
  ]
]

positive : (n : ℕ) → (suc n == 0) ≡ false
positive n = ground arith

none_more : (m n : ℕ) → n ≡ 0 → m ≡ m + n
none_more m n h = omega arith

none_on : (m n : ℕ) → n ≡ 0 → m < 2 ^ 32 → m ≡ u32 (m + n)
none_on m n h k = omega arith

none_woken : (b : Bool) (n : ℕ) → n ≡ 0 → b ≡ (not (n == 0) || b)
none_woken b n h = ground arith

accept_lem :
    (c : Conn) (news : List ℕ)
    → IsConn c
    → let count = min (length news) (2048 - c.rx_len) in
      (c' : Conn) × (accept c news ≡ ok c')
      × (contents c' ≡ contents c ++ take count news)
      × (c' ≡ record c {
        rx_buf = c'.rx_buf;
        rx_len = c.rx_len + count;
        rcv_nxt = u32 (c.rcv_nxt + count);
        rx_event = not (count == 0) || c.rx_event;
      })
      × IsConn c'
unfolding accept
accept_lem c [] v = (
  c,
  refl,
  sym (append-nil (contents c))
      ∙ ap (λ (xs : List ℕ). contents c ++ xs) (sym (take_nil (min 0 (2048 - c.rx_len)))),
  (λ i. record c {
    rx_len = none_more c.rx_len (min 0 (2048 - c.rx_len)) (omega arith) i;
    rcv_nxt = none_on c.rcv_nxt (min 0 (2048 - c.rx_len)) (omega arith) v.rcv_nxt i;
    rx_event = none_woken c.rx_event (min 0 (2048 - c.rx_len)) (omega arith) i;
  }),
  v,
)
accept_lem c (b ∷ news) v =
    let (c1, e, held, ring, same) = rx_push_lem c (b ∷ news) v.ring in
    let count : ℕ = min (length (b ∷ news)) (2048 - c.rx_len) in
    (
      record c1 { rcv_nxt = u32 (c.rcv_nxt + count); rx_event = not (count == 0) || c.rx_event },
      rw (positive (length news), e) refl,
      held,
      ap
          (λ (d : Conn). record d {
            rcv_nxt = u32 (c.rcv_nxt + count);
            rx_event = not (count == 0) || c.rx_event;
          })
          same,
      record {
        local_port = subst (λ (d : Conn). d.local_port < 65536) (sym same) v.local_port;
        remote_port = subst (λ (d : Conn). d.remote_port < 65536) (sym same) v.remote_port;
        snd_una = subst (λ (d : Conn). d.snd_una < 2 ^ 32) (sym same) v.snd_una;
        snd_nxt = subst (λ (d : Conn). d.snd_nxt < 2 ^ 32) (sym same) v.snd_nxt;
        rcv_nxt = omega arith;
        ring = record { size = ring.size; head = ring.head; len = ring.len };
      },
    )

-- The data step takes what the segment brings beyond the bytes received so far, as much of it as the
-- ring has room for: the ring grows by just these bytes, in order, `rcv_nxt` moves on by their count,
-- and the reader is woken where there are any. Data that starts behind `rcv_nxt`, or in a state that
-- receives nothing, changes nothing. No access is outside of the ring.
pub process_data_lem :
    (s : Segment) (c : Conn)
    → IsConn c
    → s.seq < 2 ^ 32
    → let news = new_bytes c s in
      let count = min (length news) (2048 - c.rx_len) in
      (c' : Conn) × (process_data s c ≡ ok c')
      × (contents c' ≡ contents c ++ take count news)
      × (c' ≡ record c {
        rx_buf = c'.rx_buf;
        rx_len = c.rx_len + count;
        rcv_nxt = u32 (c.rcv_nxt + count);
        rx_event = not (count == 0) || c.rx_event;
      })
      × IsConn c'
process_data_lem s c v small =
    let (c', e, held, same, valid) = accept_lem c (new_bytes c s) v in
    (c', process_data-accept s c v small ∙ e, held, same, valid)
