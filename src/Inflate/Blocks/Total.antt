-- ===== src/Inflate/Blocks/Total.antt =====
-- Stored blocks, the loop over blocks and `inflate`: for any source and any destination there is
-- no access outside of an array and the loops end.
use re_pico.Base.{
  ℕ, zero, suc, ◌+◌, ◌^◌, ◌≤◌, ◌<◌, ◌≡◌, refl, List, bit_or, u32, ◌<<◌, leb, ◌==◌, ◌&&◌, length,
  arith, inl, inr, Bool-cases, if◌then◌else◌, leb→le,
}
use re_pico.Base.Run.{
  fails, Ensures, returns, refuses, Ensures-bind, Ensures-weaken, Ensures-if, ensure-Ensures,
  read-Ensures, write-Ensures,
}
use re_pico.Base.Bits.{bit_or-lt}
use re_pico.Base.Bytes.{Bytes, All-get_or}
use re_pico.Inflate.Reader.{BitReader}
use re_pico.Inflate.Reader.Number.{IsReader, bits_left}
use re_pico.Inflate.Reader.Safe.{After, After-trans, get_bits-Ensures}
use re_pico.Inflate.Codes.{State}
use re_pico.Inflate.Codes.Safe.{
  IsState, Moves, Moves-refl, Moves-trans, Moves-reader, Moves-write, and_true,
}
use re_pico.Inflate.Blocks.{
  inflate_fixed, inflate_dynamic, copy_stored, inflate_stored, block_loop, inflate,
}
use re_pico.Inflate.Blocks.Safe.{inflate_fixed-Ensures, inflate_dynamic-Ensures}

-- The reader stands at a byte: it holds no bits.
abbrev at_byte : BitReader → ℕ → BitReader
at_byte r pos = record r { pos = pos; bitbuf = 0; bitcnt = 0 }

at_byte-After :
    (n : ℕ) (r : BitReader) (pos : ℕ)
    → IsReader r
    → pos ≤ length r.src
    → bits_left (at_byte r pos) + n ≤ bits_left r
    → After n r (at_byte r pos)
at_byte-After n r pos v inside less = record {
  reader = record {
    few = omega arith;
    low = omega arith;
    inside = inside;
    bytes = v.bytes;
    small = v.small;
  };
  same_src = refl;
  used = less;
}

copy_stored-Ensures :
    (n : ℕ) (s : State)
    → IsState s
    → s.r.pos + n ≤ length s.r.src
    → s.dst_pos + n ≤ length s.dst
    → Ensures (Moves 0 s) (copy_stored n s)
unfolding copy_stored
copy_stored-Ensures zero s v h room = returns (Moves-refl s v)
copy_stored-Ensures (suc n) s v h room =
    Ensures-bind (read-Ensures s.r.src s.r.pos (omega arith)) λ byte eb.
      Ensures-bind (write-Ensures s.dst s.dst_pos byte (omega arith)) λ dst ed.
        let w = Moves-write s byte dst v (omega arith) ed in
        let skip : After 0 s.r (record s.r { pos = u32 (s.r.pos + 1) }) = record {
          reader = record {
            few = v.reader.few;
            low = v.reader.low;
            inside = omega (arith, v.reader.small);
            bytes = v.reader.bytes;
            small = v.reader.small;
          };
          same_src = refl;
          used = omega (arith, v.reader.small);
        } in
        let m = Moves-trans {k = 0} w (Moves-reader w.state skip) (omega arith) in
        Ensures-weaken
          (copy_stored-Ensures n _ m.state (omega (arith, v.reader.small))
            (omega (arith, w.same_size, v.small)))
          λ s' p. Moves-trans m p (omega arith)

inflate_stored-Ensures : (s : State) → IsState s → Ensures (Moves 0 s) (inflate_stored s)
unfolding inflate_stored
inflate_stored-Ensures s v =
    Ensures-bind (ensure-Ensures (leb (u32 (s.r.pos + 4)) (length s.r.src))) λ _ four.
      let room : s.r.pos + 4 ≤ length s.r.src =
        omega (arith, leb→le _ _ four, v.reader.small, v.reader.inside) in
      Ensures-bind (read-Ensures s.r.src s.r.pos (omega arith)) λ lo elo.
        Ensures-bind (read-Ensures s.r.src (u32 (s.r.pos + 1)) (omega (arith, v.reader.small)))
          λ hi ehi.
            let lo-lt : lo < 256 =
              rw elo (All-get_or (λ b. b < 256) s.r.src s.r.pos v.reader.bytes (omega arith)) in
            let hi-lt : hi < 256 = rw ehi (
              All-get_or (λ b. b < 256) s.r.src (u32 (s.r.pos + 1)) v.reader.bytes
                (omega (arith, v.reader.small))) in
            let len : ℕ = bit_or lo (u32 (hi << 8)) in
            let len-lt : len < 2 ^ 16 =
              bit_or-lt 16 lo (u32 (hi << 8)) (omega arith) (omega arith) in
            Ensures-bind
              (ensure-Ensures (
                leb (u32 (u32 (s.r.pos + 4) + len)) (length s.r.src)
                && leb (u32 (s.dst_pos + len)) (length s.dst)))
              λ _ both.
                let fits = and_true _ _ both in
                let src_room = leb→le (u32 (u32 (s.r.pos + 4) + len)) (length s.r.src) fits.0 in
                let dst_room = leb→le (u32 (s.dst_pos + len)) (length s.dst) fits.1 in
                let m = Moves-reader v (
                  at_byte-After 0 s.r (u32 (s.r.pos + 4)) v.reader (omega (arith, v.reader.small))
                    (omega (arith, v.reader.small))) in
                Ensures-weaken
                  (copy_stored-Ensures len _ m.state (omega (arith, src_room, v.reader.small))
                    (omega (arith, dst_room, v.small, v.inside)))
                  λ s' p. Moves-trans m p (omega arith)

block-Ensures :
    (fuel type : ℕ) (s : State)
    → IsState s
    → bits_left s.r < fuel
    → Ensures (Moves 0 s) (
        if type == 0
        then inflate_stored s
        else if type == 1
        then inflate_fixed fuel s
        else if type == 2
        then inflate_dynamic fuel s
        else fails)
block-Ensures fuel type s v h =
    Ensures-if {b = type == 0} (λ _. inflate_stored-Ensures s v)
      λ _.
        Ensures-if {b = type == 1} (λ _. inflate_fixed-Ensures fuel s v h)
          λ _. Ensures-if {b = type == 2} (λ _. inflate_dynamic-Ensures fuel s v h) λ _. refuses

block_loop-Ensures :
    (fuel blocks : ℕ) (s : State)
    → IsState s
    → bits_left s.r < blocks
    → bits_left s.r < fuel
    → Ensures (Moves 0 s) (block_loop fuel blocks s)
unfolding block_loop
block_loop-Ensures fuel zero s v h k = absurd (omega arith)
block_loop-Ensures fuel (suc blocks) s v h k =
    Ensures-bind (get_bits-Ensures s.r 1 (omega arith) v.reader) λ last a.
      Ensures-bind (get_bits-Ensures last.1 2 (omega arith) a.0.reader) λ type b.
        let m = Moves-reader v (After-trans {k = 3} a.0 b.0 (omega arith)) in
        Ensures-bind (block-Ensures fuel type.0 _ m.state (omega (arith, m.used))) λ s' p.
          let so_far = Moves-trans {k = 3} m p (omega arith) in
          elim (Bool-cases (last.0 == 0)) [
            | inl more ↦ rw more (
                Ensures-weaken
                  (block_loop-Ensures fuel blocks s' p.state (omega (arith, so_far.used))
                    (omega (arith, so_far.used)))
                  λ s'' q. Moves-trans so_far q (omega arith))
            | inr end ↦
                rw end (returns (Moves-trans {k = 0} so_far (Moves-refl s' p.state) (omega arith)))
          ]

-- `inflate` is safe on arbitrary input: with a source and a destination below 2 ^ 28 bytes, and
-- whatever bytes the source holds, it returns true with a
-- destination of the same size or it returns false. It never reads or writes outside of an array,
-- never indexes a table out of range, and its loops end.
pub inflate-Ensures :
    (src dst : List ℕ)
    → Bytes src
    → length src < 2 ^ 28
    → length dst < 2 ^ 28
    → Ensures (λ out. length out ≡ length dst) (inflate src dst)
unfolding inflate
inflate-Ensures src dst bytes small_src small_dst =
    Ensures-bind (block_loop-Ensures _ _ _ start (omega arith) (omega arith))
      λ s m. Ensures-bind (ensure-Ensures (s.dst_pos == length dst)) λ _ full. returns m.same_size
  where
    start : IsState (record {
      r = record { src = src; pos = 0; bitbuf = 0; bitcnt = 0 };
      dst = dst;
      dst_pos = 0;
    })
    start = record {
      reader = record {
        few = omega arith;
        low = omega arith;
        inside = omega arith;
        bytes = bytes;
        small = small_src;
      };
      inside = omega arith;
      small = small_dst;
    }
