-- ===== src/Inflate/Blocks/Safe.antt =====
-- `inflate` on any source and any destination: no access outside of an array, and an end.
use re_pico.Base.{
  ℕ, zero, suc, ◌+◌, ◌-◌, ◌^◌, ◌≤◌, ◌<◌, ◌≡◌, ◌∙◌, refl, List, not, u8, ltb, leb, ◌==◌, length,
  take, drop, replicate, arith, inl, inr, Bool-cases, length-set, length-replicate, length-take,
  ltb→lt, leb→le, le→ltb,
}
use re_pico.Base.Run.{
  Ensures, returns, Ensures-bind, Ensures-weaken, Ensures-if, ensure-Ensures, read-Ensures,
  write-Ensures,
}
use re_pico.Base.Bytes.{All, All-get_or, All-set, All-take, All-drop, All-replicate}
use re_pico.Inflate.Reader.{BitReader}
use re_pico.Inflate.Reader.Number.{IsReader, bits_left}
use re_pico.Inflate.Reader.Safe.{After, After-trans, After-weaken, get_bits-Ensures}
use re_pico.Inflate.Huffman.{Huffman}
use re_pico.Inflate.Huffman.Decode.{IsTable, decode-Ensures}
use re_pico.Inflate.Huffman.Build.{Lengths, build-Ensures}
use re_pico.Inflate.Codes.{State}
use re_pico.Inflate.Codes.Safe.{
  IsState, Moves, Moves-trans, Moves-reader, inflate_codes-Ensures, and_true,
}
use re_pico.Inflate.Blocks.{
  fresh_table, fixed_lengths, fixed_dist_lengths, inflate_fixed, order, code_lengths, repeat,
  run_length, length_loop, inflate_dynamic,
}

fresh_table-Ensures :
    (room : ℕ) (lengths : List ℕ)
    → Lengths lengths
    → length lengths ≤ room
    → room < 2 ^ 16
    → Ensures IsTable (fresh_table room lengths)
unfolding fresh_table
fresh_table-Ensures room lengths short fit few =
    build-Ensures _ lengths short refl (omega (arith, length-replicate {A = ℕ} room 0))
      (omega arith)

fixed_lengths-Lengths : Lengths fixed_lengths × Lengths fixed_dist_lengths
fixed_lengths-Lengths = omega arith

pub inflate_fixed-Ensures :
    (fuel : ℕ) (s : State)
    → IsState s
    → bits_left s.r < fuel
    → Ensures (Moves 0 s) (inflate_fixed fuel s)
unfolding inflate_fixed
inflate_fixed-Ensures fuel s v h =
    Ensures-bind
      (fresh_table-Ensures 288 fixed_lengths fixed_lengths-Lengths.0 (omega arith) (omega arith))
      λ lit t.
        Ensures-bind
          (fresh_table-Ensures 30 fixed_dist_lengths fixed_lengths-Lengths.1 (omega arith)
            (omega arith))
          λ dist u. inflate_codes-Ensures fuel s lit dist t u v h

order-lt : All (λ i. i < 19) order
order-lt = omega arith

code_lengths-Ensures :
    (n i : ℕ) (r : BitReader) (cl : List ℕ)
    → n + i ≤ 19
    → IsReader r
    → Lengths cl
    → length cl ≡ 19
    → Ensures (λ out. Lengths out.0 × (length out.0 ≡ 19) × After 0 r out.1) (code_lengths n i r cl)
unfolding code_lengths
code_lengths-Ensures zero i r cl h v short size =
    returns (short, size, record { reader = v; same_src = refl; used = omega arith })
code_lengths-Ensures (suc n) i r cl h v short size =
    Ensures-bind (get_bits-Ensures r 3 (omega arith) v) λ out a.
      Ensures-bind (read-Ensures order i (omega arith)) λ at ea.
        let at-lt : at < 19 = rw ea (All-get_or (λ j. j < 19) order i order-lt (omega arith)) in
        Ensures-bind (write-Ensures cl at (u8 out.0) (omega arith)) λ cl' ec.
          Ensures-weaken
            (code_lengths-Ensures n (i + 1) out.1 cl' (omega arith) a.0.reader
              (rw ec (All-set (λ l. l < 16) cl at (u8 out.0) short (omega (arith, a.1))))
              (rw ec (length-set cl at (u8 out.0) ∙ size)))
            λ done p. (p.0, p.1, After-trans a.0 p.2 (omega arith))

repeat-Ensures :
    (n value : ℕ) (lengths : List ℕ) (idx : ℕ)
    → idx + n ≤ length lengths
    → Lengths lengths
    → value < 16
    → Ensures
        (λ out. Lengths out.0 × (length out.0 ≡ length lengths) × (out.1 ≡ idx + n))
        (repeat n value lengths idx)
unfolding repeat
repeat-Ensures zero value lengths idx room short small = returns (short, refl, omega arith)
repeat-Ensures (suc n) value lengths idx room short small =
    Ensures-bind (write-Ensures lengths idx value (omega arith)) λ lengths' e.
      let size : length lengths' ≡ length lengths = rw e (length-set lengths idx value) in
      Ensures-weaken
        (repeat-Ensures n value lengths' (idx + 1) (omega arith)
          (rw e (All-set (λ l. l < 16) lengths idx value short small)) small)
        λ out p. (p.0, p.1 ∙ size, omega (arith, p.2))

run_length-Ensures :
    (r : BitReader) (lengths : List ℕ) (idx sym : ℕ)
    → IsReader r
    → Lengths lengths
    → idx < length lengths
    → Ensures (λ out. (out.0 < 16) × (0 < out.1) × After 0 r out.2) (run_length r lengths idx sym)
unfolding run_length
run_length-Ensures r lengths idx sym v short room =
    Ensures-if {b = sym == 16}
      (λ _. Ensures-bind (ensure-Ensures (not (idx == 0))) λ _ some_before.
        Ensures-bind (read-Ensures lengths (idx - 1) (omega arith)) λ value e.
          let low : value < 16 =
            rw e (All-get_or (λ l. l < 16) lengths (idx - 1) short (omega arith)) in
          Ensures-bind (get_bits-Ensures r 2 (omega arith) v) λ out a.
            returns {value = (value, 3 + out.0, out.1)} (low, omega arith, After-weaken a.0))
      λ _.
        Ensures-if {b = sym == 17}
          (λ _. Ensures-bind (get_bits-Ensures r 3 (omega arith) v) λ out a.
            returns {value = (0, 3 + out.0, out.1)} (omega arith, omega arith, After-weaken a.0))
          (λ _. Ensures-bind (get_bits-Ensures r 7 (omega arith) v) λ out a.
            returns {value = (0, 11 + out.0, out.1)} (omega arith, omega arith, After-weaken a.0))

-- The loop over code lengths fills `total` of them at most and ends within `total` rounds.
length_loop-Ensures :
    (fuel : ℕ) (r : BitReader) (cl : Huffman) (total : ℕ) (lengths : List ℕ) (idx : ℕ)
    → IsTable cl
    → IsReader r
    → Lengths lengths
    → total ≤ length lengths
    → total ≤ idx + fuel
    → Ensures
        (λ out. Lengths out.0 × (length out.0 ≡ length lengths) × After 0 r out.1)
        (length_loop fuel r cl total lengths idx)
unfolding length_loop
length_loop-Ensures zero r cl total lengths idx t v short room enough =
    rw (le→ltb idx total (omega arith))
      (returns (short, refl, record { reader = v; same_src = refl; used = omega arith }))
length_loop-Ensures (suc fuel) r cl total lengths idx t v short room enough =
    elim (Bool-cases (ltb idx total)) [
      | inr end ↦
          rw (end, length_loop)
            (returns (short, refl, record { reader = v; same_src = refl; used = omega arith }))
      | inl more ↦
          rw (more, length_loop)
            (Ensures-bind (decode-Ensures r cl t v) λ out a.
              let below : idx < total = ltb→lt _ _ more in
              elim (Bool-cases (ltb out.0 16)) [
                | inl one ↦ rw one (
                    Ensures-bind (write-Ensures lengths idx (u8 out.0) (omega arith)) λ lengths' e.
                      let size : length lengths' ≡ length lengths =
                        rw e (length-set lengths idx (u8 out.0)) in
                      Ensures-weaken
                        (length_loop-Ensures fuel out.1 cl total lengths' (idx + 1) t a.reader
                          (rw e (
                            All-set (λ l. l < 16) lengths idx (u8 out.0) short
                              (omega (arith, ltb→lt _ _ one))))
                          (omega arith) (omega arith))
                        λ done p. (p.0, p.1 ∙ size, After-trans a p.2 (omega arith)))
                | inr many ↦ rw many (
                    Ensures-bind
                      (run_length-Ensures out.1 lengths idx out.0 a.reader short (omega arith))
                      λ found b. Ensures-bind (ensure-Ensures (leb (idx + found.1) total)) λ _ fits.
                        Ensures-bind
                          (repeat-Ensures found.1 found.0 lengths idx
                            (omega (arith, leb→le _ _ fits)) short b.0)
                          λ filled c.
                            Ensures-weaken
                              (length_loop-Ensures fuel found.2 cl total filled.0 filled.1 t
                                b.2.reader c.0 (omega (arith, c.1)) (omega (arith, c.2, b.1)))
                              λ done p. (
                                p.0,
                                p.1 ∙ c.1,
                                After-trans {k = 0} a (After-trans {k = 0} b.2 p.2 (omega arith))
                                    (omega arith),
                              ))
              ])
    ]

pub inflate_dynamic-Ensures :
    (fuel : ℕ) (s : State)
    → IsState s
    → bits_left s.r < fuel
    → Ensures (Moves 0 s) (inflate_dynamic fuel s)
unfolding inflate_dynamic
inflate_dynamic-Ensures fuel s v h =
    Ensures-bind (get_bits-Ensures s.r 5 (omega arith) v.reader) λ hlit a.
      Ensures-bind (get_bits-Ensures hlit.1 5 (omega arith) a.0.reader) λ hdist b.
        Ensures-bind (get_bits-Ensures hdist.1 4 (omega arith) b.0.reader) λ hclen c.
          Ensures-bind (ensure-Ensures _) λ _ both.
            let limits = and_true _ _ both in
            let nlit-le : hlit.0 + 257 ≤ 286 = leb→le _ _ limits.0 in
            let ndist-le : hdist.0 + 1 ≤ 30 = leb→le _ _ limits.1 in
            Ensures-bind
              (code_lengths-Ensures (hclen.0 + 4) 0 hclen.1 (replicate 19 0) (omega (arith, c.1))
                c.0.reader (omega arith) refl)
              λ cls d.
                Ensures-bind (fresh_table-Ensures 19 cls.0 d.0 (omega (arith, d.1)) (omega arith))
                  λ cl t.
                    Ensures-bind
                      (length_loop-Ensures _ cls.1 cl _ (replicate 316 0) 0 t d.2.reader
                        (All-replicate (λ l. l < 16) 316 0 (omega arith)) (omega arith)
                        (omega arith))
                      λ lens e.
                        Ensures-bind
                          (fresh_table-Ensures 286 (take (hlit.0 + 257) lens.0)
                            (All-take (λ l. l < 16) (hlit.0 + 257) lens.0 e.0)
                            (omega (arith, length-take (hlit.0 + 257) lens.0)) (omega arith))
                          λ lit u.
                            Ensures-bind
                              (fresh_table-Ensures 30
                                (take (hdist.0 + 1) (drop (hlit.0 + 257) lens.0))
                                (All-take (λ l. l < 16) _ _
                                  (All-drop (λ l. l < 16) (hlit.0 + 257) lens.0 e.0))
                                (omega
                                  (arith, length-take (hdist.0 + 1) (drop (hlit.0 + 257) lens.0)))
                                (omega arith))
                              λ dist w.
                                let m = Moves-reader v (
                                  After-trans {k = 0} a.0
                                    (After-trans {k = 0} b.0
                                      (After-trans {k = 0} c.0
                                        (After-trans {k = 0} d.2 e.2 (omega arith)) (omega arith))
                                      (omega arith))
                                    (omega arith)) in
                                Ensures-weaken
                                  (inflate_codes-Ensures fuel _ lit dist u w m.state
                                    (omega (arith, m.used)))
                                  λ s' p. Moves-trans m p (omega arith)
