-- ===== src/Net/Packet/Window.antt =====
-- The window of a packet stays inside its buffer and keeps the bytes in it.
use re_pico.Base.{
  ℕ, ◌+◌, ◌-◌, ◌≤◌, ◌≡◌, ◌∙◌, refl, sym, ap, ap₂, List, ◌++◌, length-take, some, length, take, drop,
  arith, le→leb, u16,
}
use re_pico.Base.Slices.{drop-take, drop-drop, take-take, drop-append_past, take-append_past}
use re_pico.Net.Packet.{Packet, data_of, prepend, append, consume}

pub record IsPacket (p : Packet) : Type 0 where
  pub size : length p.buf ≡ 1664
  pub inside : p.head + p.len ≤ 1664

-- Where the packet has that many bytes, `consume` takes just the first `count` bytes away, and the
-- window stays inside the buffer.
pub consume_lem :
    (p : Packet) (count : ℕ)
    → IsPacket p
    → count ≤ p.len
    → (p' : Packet) × (consume p count ≡ some p')
      × (data_of p' ≡ drop count (data_of p))
      × IsPacket p'
unfolding consume
consume_lem p count v h = (
  record p { head = u16 (p.head + count); len = u16 (p.len - count) },
  rw (le→leb count p.len h) refl,
  ap₂ take {x = u16 (p.len - count)} {y = p.len - count} (omega (arith, v.inside)) refl
      ∙ sym (
          drop-take count p.len (p.len - count) (drop p.head p.buf) (omega arith)
          ∙ ap (take (p.len - count))
              (drop-drop p.head count (u16 (p.head + count)) p.buf (omega (arith, v.inside)))),
  record { size = v.size; inside = omega (arith, v.inside) },
)

same_head : (h c n : ℕ) → c ≤ h → h + n ≤ 1664 → u16 (u16 (h - c) + c) ≡ h
same_head h c n k l = omega arith

same_len : (h c n : ℕ) → c ≤ h → h + n ≤ 1664 → u16 (u16 (n + c) - c) ≡ n
same_len h c n k l = omega arith

-- Where there is headroom, what `prepend` does `consume` takes back: the bytes behind the new ones are
-- the old ones, and the window stays inside the buffer.
pub prepend-consume :
    (p : Packet) (count : ℕ)
    → IsPacket p
    → count ≤ p.head
    → (p' : Packet) × (prepend p count ≡ some p')
      × (consume p' count ≡ some p)
      × (drop count (data_of p') ≡ data_of p)
      × IsPacket p'
unfolding prepend consume
prepend-consume p count v h = (
  record p { head = u16 (p.head - count); len = u16 (p.len + count) },
  rw (le→leb count p.head h) refl,
  rw (le→leb count (u16 (p.len + count)) (omega (arith, v.inside))) (
      ap some (λ i. record p {
        head = same_head p.head count p.len h v.inside i;
        len = same_len p.head count p.len h v.inside i;
      })),
  drop-take count (u16 (p.len + count)) p.len (drop (u16 (p.head - count)) p.buf)
        (omega (arith, v.inside))
      ∙ ap (take p.len)
          (drop-drop (u16 (p.head - count)) count p.head p.buf (omega (arith, v.inside))),
  record { size = v.size; inside = omega (arith, v.inside) },
)

-- Where there is tailroom, `append` makes room behind the bytes that are there, which stay the first
-- ones; the place that it returns is where they end, the room lies inside the buffer, and so does the
-- window.
pub append_lem :
    (p : Packet) (count : ℕ)
    → IsPacket p
    → count ≤ 1664 - p.head - p.len
    → (p' : Packet) × (append p count ≡ some (p', p.head + p.len))
      × (take p.len (data_of p') ≡ data_of p)
      × (p.head + p.len + count ≤ 1664)
      × (p'.head + p'.len ≡ p.head + p.len + count)
      × IsPacket p'
unfolding append
append_lem p count v h = (
  record p { len = u16 (p.len + count) },
  rw (le→leb count (1664 - p.head - p.len) h) refl,
  take-take p.len (u16 (p.len + count)) (drop p.head p.buf) (omega (arith, v.inside)),
  omega (arith, v.inside),
  omega (arith, v.inside),
  record { size = v.size; inside = omega (arith, v.inside) },
)

-- Bytes written where `prepend` has made room are the first ones of the packet.
pub written :
    (count head len : ℕ) (buf new : List ℕ)
    → length new ≡ count
    → count ≤ head
    → head + len ≤ length buf
    → take
        (len + count)
        (drop (head - count) (take (head - count) buf ++ (new ++ drop (head - count + count) buf)))
      ≡ new ++ take len (drop head buf)
written count head len buf new hn hh fit =
    let front = take (head - count) buf in
    ap (take (len + count)) (
      drop-append_past (head - count) 0 front (new ++ drop (head - count + count) buf)
        (omega (arith, length-take (head - count) buf)))
    ∙ take-append_past (len + count) len new (drop (head - count + count) buf) (omega (arith, hn))
    ∙ ap (λ (k : ℕ). new ++ take len (drop k buf)) {x = head - count + count} {y = head}
        (omega arith)
