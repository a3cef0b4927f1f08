-- ===== src/Net/Tcp/Ring/Queue.antt =====
-- The receive ring is a bounded queue of bytes.
use re_pico.Base.{
  ℕ, zero, suc, ◌+◌, ◌-◌, ◌%◌, ◌≤◌, ◌<◌, ◌≡◌, ◌∙◌, refl, sym, ap, ap₂, List, ◌++◌, min, length, set,
  get_or, take, drop, arith, length-set, get_or-set, dec_lt, if◌then◌else◌, ◌==◌,
}
use re_pico.Base.Run.{ok, read-ok, write-ok}
use re_pico.Base.Tabulate.{
  tabulate, tabulate_ext, tabulate_shift, tabulate-append, tabulate-get_or, take-tabulate,
  drop-tabulate,
}
use re_pico.Net.Tcp.Conn.{Conn}
use re_pico.Net.Tcp.Ring.{rx_free, push_loop, rx_push, pop_loop, rx_pop}

pub record IsRing (c : Conn) : Type 0 where
  pub size : length c.rx_buf ≡ 2048
  pub head : c.rx_head < 2048
  pub len : c.rx_len ≤ 2048

-- The byte `k` places behind the head.
abbrev pub at : List ℕ → ℕ → ℕ → ℕ
at buf head k = get_or buf ((head + k) % 2048) 0

-- The bytes in the ring, oldest first.
abbrev pub contents : Conn → List ℕ
contents c = tabulate c.rx_len 0 (at c.rx_buf c.rx_head)

record Pushed (n i head len : ℕ) (bytes buf buf' : List ℕ) : Type 0 where
  size : length buf' ≡ 2048
  kept : (k : ℕ) → k < len + i → at buf' head k ≡ at buf head k
  added : (k : ℕ) → k < n → at buf' head (len + i + k) ≡ get_or bytes (i + k) 0

push_loop-Pushed :
    (n i head len : ℕ) (bytes buf : List ℕ)
    → length buf ≡ 2048
    → len + i + n ≤ 2048
    → i + n ≤ length bytes
    → (buf' : List ℕ) × (push_loop n i head len bytes buf ≡ ok buf')
      × Pushed n i head len bytes buf buf'
unfolding push_loop
push_loop-Pushed zero i head len bytes buf size room have =
    (buf, refl, record { size = size; kept = λ k h. refl; added = λ k h. elim h [ ] })
push_loop-Pushed (suc n) i head len bytes buf size room have =
    let byte : ℕ = get_or bytes i 0 in
    let place : ℕ = (head + len + i) % 2048 in
    let buf1 : List ℕ = set buf place byte in
    let (buf', e, p) =
      push_loop-Pushed n (i + 1) head len bytes buf1 (length-set buf place byte ∙ size)
        (omega arith) (omega arith) in
    let here : (j : ℕ) → get_or buf1 j 0 ≡ (if place == j then byte else get_or buf j 0) =
      λ j. get_or-set buf place j byte 0 (omega arith) in
    (
      buf',
      rw (read-ok bytes i (omega arith)) (rw (write-ok buf place byte (omega arith)) e),
      record {
        size = p.size;
        kept = λ k h. p.kept k (omega arith) ∙ ground (arith, here ((head + k) % 2048));
        added = λ k h. elim (dec_lt 0 k) [
          | yes later ↦ ground (arith, p.added (k - 1))
          | no now ↦ ground (arith, p.kept (len + i + k), here ((head + (len + i + k)) % 2048))
        ];
      },
    )

-- On a sound ring `rx_push` is the push of a queue of 2048 bytes: it takes as many bytes as there is room for, in
-- order, behind those that are there, leaves the rest of the connection alone, and stays inside the
-- buffer.
pub rx_push_lem :
    (c : Conn) (bytes : List ℕ)
    → IsRing c
    → let count = min (length bytes) (2048 - c.rx_len) in
      (c' : Conn) × (rx_push c bytes ≡ ok (count, c'))
      × (contents c' ≡ contents c ++ take count bytes)
      × IsRing c'
      × (c' ≡ record c { rx_buf = c'.rx_buf; rx_len = c.rx_len + count })
unfolding rx_push rx_free
rx_push_lem c bytes v =
    let count : ℕ = min (length bytes) (2048 - c.rx_len) in
    let (buf', e, p) =
      push_loop-Pushed count 0 c.rx_head c.rx_len bytes c.rx_buf v.size (omega (arith, v.len))
        (omega arith) in
    (
      record c { rx_buf = buf'; rx_len = c.rx_len + count },
      rw e refl,
      sym (tabulate-append c.rx_len count 0 (at buf' c.rx_head))
          ∙ ap₂ ◌++◌
              (tabulate_ext c.rx_len 0 (at buf' c.rx_head) (at c.rx_buf c.rx_head)
                (λ k h h'. p.kept k (omega arith)))
              (tabulate_shift count (0 + c.rx_len) 0 (at buf' c.rx_head) (λ k. get_or bytes k 0)
                  (λ k h. ground (arith, p.added k))
                ∙ tabulate-get_or count 0 bytes 0 (omega arith)),
      record { size = p.size; head = v.head; len = omega (arith, v.len) },
      refl,
    )

pop_loop_lem :
    (n i head : ℕ) (buf : List ℕ)
    → length buf ≡ 2048
    → pop_loop n i head buf ≡ ok (tabulate n i (at buf head))
unfolding pop_loop
pop_loop_lem zero i head buf size = refl
pop_loop_lem (suc n) i head buf size =
    rw (read-ok buf ((head + i) % 2048) (omega arith)) (rw (pop_loop_lem n (i + 1) head buf size))

-- On a sound ring `rx_pop` is the pop of the queue: it hands out the oldest bytes, as many as there are and as the
-- caller has room for, keeps the others, leaves the rest of the connection alone, and stays inside
-- the buffer.
pub rx_pop_lem :
    (c : Conn) (size : ℕ)
    → IsRing c
    → let count = min size c.rx_len in
      (c' : Conn) × (rx_pop c size ≡ ok (take count (contents c), c'))
      × (contents c' ≡ drop count (contents c))
      × IsRing c'
      × (c' ≡ record c { rx_head = (c.rx_head + count) % 2048; rx_len = c.rx_len - count })
unfolding rx_pop
rx_pop_lem c size v =
    let count : ℕ = min size c.rx_len in
    (
      record c { rx_head = (c.rx_head + count) % 2048; rx_len = c.rx_len - count },
      rw (pop_loop_lem count 0 c.rx_head c.rx_buf v.size)
          (rw (take-tabulate count c.rx_len 0 (at c.rx_buf c.rx_head) (omega arith)) refl),
      tabulate_shift (c.rx_len - count) 0 (0 + count) (at c.rx_buf ((c.rx_head + count) % 2048))
            (at c.rx_buf c.rx_head) (λ k h. ap (λ (j : ℕ). get_or c.rx_buf j 0) (omega arith))
          ∙ sym (drop-tabulate count c.rx_len 0 (at c.rx_buf c.rx_head) (omega arith)),
      record { size = v.size; head = omega arith; len = omega (arith, v.len) },
      refl,
    )
