-- ===== src/Inflate/Huffman/Decode.antt =====
-- `decode` on a table that fits its arrays: it stays within them and takes one bit at least.
use re_pico.Base.{
  ℕ, zero, suc, ◌+◌, ◌*◌, ◌≤◌, ◌≡◌, List, [], ◌∷◌, bit_or, ◌<<◌, ltb, length, drop, arith, inl, inr,
  Bool-cases, ltb→lt, ltb→le, le→ltb,
}
use re_pico.Base.Run.{Ensures, returns, refuses, Ensures-bind, Ensures-weaken, read-Ensures}
use re_pico.Base.Bits.{bit_or_high_low}
use re_pico.Base.Bytes.{drop-cons}
use re_pico.Inflate.Reader.{BitReader}
use re_pico.Inflate.Reader.Number.{IsReader}
use re_pico.Inflate.Reader.Safe.{After, After-trans, get_bits-Ensures}
use re_pico.Inflate.Huffman.{Huffman, decode_loop, decode}

abbrev pub sum : List ℕ → ℕ
sum [] = 0
sum (x ∷ xs) = x + sum xs

-- The counts of the lengths from 1 on have room in `symbol`.
pub record IsTable (h : Huffman) : Type 0 where
  pub lengths : length h.count ≡ 16
  pub room : sum (drop 1 h.count) ≤ length h.symbol

decode_loop-Ensures :
    (n len : ℕ) (r : BitReader) (h : Huffman) (c first index : ℕ)
    → n + len ≡ 16
    → IsTable h
    → IsReader r
    → first ≤ c * 2
    → index + sum (drop len h.count) ≤ length h.symbol
    → Ensures (λ out. After 1 r out.1) (decode_loop n len r h (c * 2) first index)
unfolding decode_loop
decode_loop-Ensures zero len r h c first index rounds t v above room = refuses
decode_loop-Ensures (suc n) len r h c first index rounds t v above room =
    Ensures-bind (get_bits-Ensures r 1 (omega arith) v) λ out a.
      Ensures-bind (read-Ensures h.count len (omega (arith, t.lengths))) λ count e.
        let code : bit_or (c << 1) out.0 ≡ c * 2 + out.0 = bit_or_high_low 1 c out.0 a.1 in
        let next : sum (drop len h.count) ≡ count + sum (drop (len + 1) h.count) =
          rw (e, drop-cons h.count len (omega (arith, t.lengths))) in
        elim (Bool-cases (ltb (bit_or (c << 1) out.0) (first + count))) [
          | inl hit ↦
              rw (hit, le→ltb (bit_or (c << 1) out.0) first (omega arith))
                (Ensures-bind (read-Ensures h.symbol _ (omega (arith, ltb→lt _ _ hit)))
                  λ sym _. returns a.0)
          | inr miss ↦ rw miss (
              Ensures-weaken
                (decode_loop-Ensures n (len + 1) out.1 h (bit_or (c << 1) out.0)
                  ((first + count) << 1) (index + count) (omega arith) t a.0.reader
                  (omega (arith, ltb→le _ _ miss)) (omega arith))
                λ done b. After-trans a.0 b (omega arith))
        ]

-- `decode` reads only inside the two arrays, ends within its 15 rounds, and takes one bit at least.
pub decode-Ensures :
    (r : BitReader) (h : Huffman)
    → IsTable h
    → IsReader r
    → Ensures (λ out. After 1 r out.1) (decode r h)
unfolding decode
decode-Ensures r h t v =
    decode_loop-Ensures 15 1 r h 0 0 0 (omega arith) t v (omega arith) (omega (arith, t.room))
