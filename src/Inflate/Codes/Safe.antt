-- ===== src/Inflate/Codes/Safe.antt =====
-- `inflate_codes` on any bits: it writes only inside `dst` and forward, reads only inside its arrays,
-- and ends within as many rounds as there are bits.
use re_pico.Base.{
  ℕ, zero, suc, ◌+◌, ◌-◌, ◌^◌, ◌≤◌, ◌<◌, ◌≡◌, ◌∙◌, refl, List, Bool, true, u8, u32, ltb, ◌==◌, ◌&&◌,
  length, get_or, set, arith, inl, inr, Bool-cases, if◌then◌else◌, length-set, get_or-set, ltb→lt,
  leb→le,
}
use re_pico.Base.Run.{
  Ensures, returns, Ensures-bind, Ensures-weaken, Ensures-if, ensure-Ensures, read-Ensures,
  write-Ensures,
}
use re_pico.Base.Bytes.{All, All-get_or, pow_mono}
use re_pico.Inflate.Reader.{BitReader}
use re_pico.Inflate.Reader.Number.{IsReader, bits_left}
use re_pico.Inflate.Reader.Safe.{After, After-trans, get_bits-Ensures}
use re_pico.Inflate.Huffman.{Huffman}
use re_pico.Inflate.Huffman.Decode.{IsTable, decode-Ensures}
use re_pico.Inflate.Codes.{
  State, len_base, len_extra, dist_base, dist_extra, copy, put_literal, put_match, inflate_codes,
}

pub record IsState (s : State) : Type 0 where
  pub reader : IsReader s.r
  pub inside : s.dst_pos ≤ length s.dst
  pub small : length s.dst < 2 ^ 28

-- From `s` to `s'` the decoder has used `n` bits up at least and has written only from the old
-- position up to the new one.
pub record Moves (n : ℕ) (s s' : State) : Type 0 where
  pub state : IsState s'
  pub same_src : s'.r.src ≡ s.r.src
  pub used : bits_left s'.r + n ≤ bits_left s.r
  pub same_size : length s'.dst ≡ length s.dst
  pub forward : s.dst_pos ≤ s'.dst_pos
  pub kept : (i : ℕ) → i < s.dst_pos → get_or s'.dst i 0 ≡ get_or s.dst i 0
  pub ahead : (i : ℕ) → s'.dst_pos ≤ i → get_or s'.dst i 0 ≡ get_or s.dst i 0

pub Moves-refl : (s : State) → IsState s → Moves 0 s s
Moves-refl s v = record {
  state = v;
  same_src = refl;
  used = omega arith;
  same_size = refl;
  forward = omega arith;
  kept = λ i h. refl;
  ahead = λ i h. refl;
}

pub Moves-trans : {m n k : ℕ} {a b c : State} → Moves m a b → Moves n b c → k ≤ m + n → Moves k a c
Moves-trans p q h = record {
  state = q.state;
  same_src = q.same_src ∙ p.same_src;
  used = omega (arith, p.used, q.used);
  same_size = q.same_size ∙ p.same_size;
  forward = omega (arith, p.forward, q.forward);
  kept = λ i k. q.kept i (omega (arith, p.forward)) ∙ p.kept i k;
  ahead = λ i k. q.ahead i k ∙ p.ahead i (omega (arith, q.forward));
}

-- The reader moves on, nothing is written.
pub Moves-reader :
    {n : ℕ} {s : State} {r : BitReader} → IsState s → After n s.r r → Moves n s (record s { r = r })
Moves-reader v a = record {
  state = record { reader = a.reader; inside = v.inside; small = v.small };
  same_src = a.same_src;
  used = a.used;
  same_size = refl;
  forward = omega arith;
  kept = λ i h. refl;
  ahead = λ i h. refl;
}

-- One byte is written at the position.
pub Moves-write :
    (s : State) (b : ℕ) (dst : List ℕ)
    → IsState s
    → s.dst_pos < length s.dst
    → dst ≡ set s.dst s.dst_pos b
    → Moves 0 s (record s { dst = dst; dst_pos = u32 (s.dst_pos + 1) })
Moves-write s b dst v room e =
    let size : length dst ≡ length s.dst = rw e (length-set s.dst s.dst_pos b) in
    let at : (i : ℕ) → get_or dst i 0 ≡ (if s.dst_pos == i then b else get_or s.dst i 0) =
      λ i. rw e (get_or-set s.dst s.dst_pos i b 0 room) in
    record {
      state = record {
        reader = v.reader;
        inside = omega (arith, v.small);
        small = omega (arith, v.small);
      };
      same_src = refl;
      used = omega arith;
      same_size = size;
      forward = omega (arith, v.small);
      kept = λ i h. ground (arith, at i);
      ahead = λ i h. ground (arith, at i, v.small);
    }

pub copy-Ensures :
    (n distance : ℕ) (s : State)
    → IsState s
    → distance ≤ s.dst_pos
    → s.dst_pos + n ≤ length s.dst
    → Ensures (Moves 0 s) (copy n distance s)
unfolding copy
copy-Ensures zero distance s v h room = returns (Moves-refl s v)
copy-Ensures (suc n) distance s v h room =
    Ensures-bind (read-Ensures s.dst _ (omega (arith, v.small))) λ byte eb.
      Ensures-bind (write-Ensures s.dst s.dst_pos byte (omega arith)) λ dst ed.
        let m = Moves-write s byte dst v (omega arith) ed in
        Ensures-weaken
          (copy-Ensures n distance _ m.state (omega (arith, v.small))
            (omega (arith, v.small, m.same_size)))
          λ s' p. Moves-trans m p (omega arith)

put_literal-Ensures : (s : State) (sym : ℕ) → IsState s → Ensures (Moves 0 s) (put_literal s sym)
unfolding put_literal
put_literal-Ensures s sym v = Ensures-bind (ensure-Ensures (ltb s.dst_pos (length s.dst))) λ _ room.
    Ensures-bind (write-Ensures s.dst s.dst_pos (u8 sym) (ltb→lt _ _ room))
      λ dst ed. returns (Moves-write s (u8 sym) dst v (ltb→lt _ _ room) ed)

-- The entries of the four tables are small.
Small_extra : All (λ b. b ≤ 13) len_extra × All (λ b. b ≤ 13) dist_extra
Small_extra = omega arith

Small_base : All (λ b. b ≤ 32768) len_base × All (λ b. b ≤ 32768) dist_base
Small_base = omega arith

pub and_true : (a b : Bool) → (a && b) ≡ true → (a ≡ true) × (b ≡ true)
and_true a b h = ground arith

put_match-Ensures :
    (s : State) (dist : Huffman) (sym : ℕ)
    → IsTable dist
    → IsState s
    → Ensures (Moves 0 s) (put_match s dist sym)
unfolding put_match
put_match-Ensures s dist sym t v = Ensures-bind (ensure-Ensures (ltb sym 29)) λ _ short.
    let in_table : sym < 29 = ltb→lt _ _ short in
    Ensures-bind (read-Ensures len_extra sym in_table) λ bits eb.
      let few : bits ≤ 13 = rw eb (All-get_or (λ b. b ≤ 13) len_extra sym Small_extra.0 in_table) in
      Ensures-bind (get_bits-Ensures s.r bits (omega arith) v.reader) λ extra a.
        Ensures-bind (read-Ensures len_base sym in_table) λ base ebase.
          let low : base ≤ 32768 =
            rw ebase (All-get_or (λ b. b ≤ 32768) len_base sym Small_base.0 in_table) in
          let count-lt : extra.0 < 2 ^ 13 = omega (arith, a.1, pow_mono bits 13 few) in
          Ensures-bind (decode-Ensures extra.1 dist t a.0.reader) λ dsym d.
            Ensures-bind (ensure-Ensures (ltb dsym.0 30)) λ _ dshort.
              let in_dist : dsym.0 < 30 = ltb→lt _ _ dshort in
              Ensures-bind (read-Ensures dist_extra dsym.0 in_dist) λ dbits edb.
                let dfew : dbits ≤ 13 =
                  rw edb (All-get_or (λ b. b ≤ 13) dist_extra dsym.0 Small_extra.1 in_dist) in
                Ensures-bind (get_bits-Ensures dsym.1 dbits (omega arith) d.reader) λ dextra da.
                  Ensures-bind (read-Ensures dist_base dsym.0 in_dist) λ dbase edbase.
                    Ensures-bind (ensure-Ensures _) λ _ both.
                      let m = Moves-reader v (
                        After-trans {k = 0} a.0 (After-trans {k = 0} d da.0 (omega arith))
                          (omega arith)) in
                      let ok_both = and_true _ _ both in
                      Ensures-weaken
                        (copy-Ensures (base + extra.0) (dbase + dextra.0) _ m.state
                          (leb→le _ _ ok_both.0)
                          (omega (arith, leb→le _ _ ok_both.1, v.small, v.inside)))
                        λ s' p. Moves-trans m p (omega arith)

-- One block of literals and copies: it refuses or moves forward, for any tables and any bits.
pub inflate_codes-Ensures :
    (fuel : ℕ) (s : State) (lit dist : Huffman)
    → IsTable lit
    → IsTable dist
    → IsState s
    → bits_left s.r < fuel
    → Ensures (Moves 0 s) (inflate_codes fuel s lit dist)
unfolding inflate_codes
inflate_codes-Ensures zero s lit dist t u v h = absurd (omega arith)
inflate_codes-Ensures (suc fuel) s lit dist t u v h =
    Ensures-bind (decode-Ensures s.r lit t v.reader) λ out a.
      let m = Moves-reader v a in
      elim (Bool-cases (out.0 == 256)) [
        | inl end ↦ rw end (returns (Moves-trans m (Moves-refl _ m.state) (omega arith)))
        | inr more ↦ rw more (
            Ensures-bind (symbol_step out.0 (record s { r = out.1 }) m.state) λ s' p.
              Ensures-weaken
                (inflate_codes-Ensures fuel s' lit dist t u p.state (omega (arith, a.used, p.used)))
                λ s'' q. Moves-trans m (Moves-trans {k = 0} p q (omega arith)) (omega arith))
      ]
  where
    symbol_step :
        (sym : ℕ) (s' : State)
        → IsState s'
        → Ensures
            (Moves 0 s')
            (if ltb sym 256 then put_literal s' sym else put_match s' dist (sym - 257))
    symbol_step sym s' w =
        Ensures-if (λ _. put_literal-Ensures s' sym w)
          (λ _. put_match-Ensures s' dist (sym - 257) u w)
