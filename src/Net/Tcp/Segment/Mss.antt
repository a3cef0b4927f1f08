-- ===== src/Net/Tcp/Segment/Mss.antt =====
-- The maximum segment size that a peer offers.
use re_pico.Base.{
  ℕ, zero, suc, ◌+◌, ◌≤◌, ◌<◌, ◌≡◌, refl, List, true, ◌&&◌, inl, inr, Bool-cases, ltb, leb, ◌==◌,
  if◌then◌else◌, length, min, arith, ltb→lt, bit_or, ◌<<◌,
}
use re_pico.Base.Bytes.{Bytes, All-get_or}
use re_pico.Base.Bits.{bit_or_high_low}
use re_pico.Base.Run.{Yields, yields, Yields-bind, Yields-value, read-Yields, ok}
use re_pico.Net.Tcp.Segment.{parse_mss_from, parse_mss, negotiate_mss}

abbrev Small : ℕ → Type 0
Small m = m < 65536

both : (a b c d : ℕ) → (leb a b && leb c d) ≡ true → (a ≤ b) × (c ≤ d)
both a b c d h = ground arith

is_four : (k l : ℕ) → (k == 2 && l == 4) ≡ true → l ≡ 4
is_four k l h = ground arith

word : (hi lo : ℕ) → hi < 256 → lo < 256 → bit_or (hi << 8) lo < 65536
word hi lo h l = omega (arith, ltb→lt, bit_or_high_low 8 hi lo l)

parse_mss_from-Yields :
    (fuel i : ℕ) (options : List ℕ)
    → Bytes options
    → length options < i + fuel
    → i ≤ length options
    → Yields Small (parse_mss_from fuel i options)
unfolding parse_mss_from
parse_mss_from-Yields zero i options b h k = absurd (omega arith)
parse_mss_from-Yields (suc fuel) i options b h k = elim (Bool-cases (ltb i (length options))) [
  | inr e ↦ rw (e, parse_mss_from) (yields (omega arith))
  | inl e ↦
      rw (e, parse_mss_from)
        (Yields-bind (read-Yields options i (ltb→lt _ _ e)) λ kind ek.
          elim (Bool-cases (kind == 0)) [
            | inl z ↦ rw z (yields (omega arith))
            | inr z ↦ rw z (elim (Bool-cases (kind == 1)) [
              | inl o ↦ rw o (
                  parse_mss_from-Yields fuel (i + 1) options b (omega arith)
                    (omega (arith, ltb→lt _ _ e)))
              | inr o ↦ rw o (elim (Bool-cases (ltb (i + 1) (length options))) [
                | inr cut ↦ rw cut (yields (omega arith))
                | inl more ↦ rw more (
                    Yields-bind (read-Yields options (i + 1) (ltb→lt _ _ more)) λ len el.
                      elim (Bool-cases (leb 2 len && leb (i + len) (length options))) [
                        | inr bad ↦ rw bad (yields (omega arith))
                        | inl fits ↦
                            let (two, inside) = both 2 len (i + len) (length options) fits in
                            rw fits (elim (Bool-cases (kind == 2 && len == 4)) [
                              | inl mss ↦ rw mss (
                                  let four = is_four kind len mss in
                                  Yields-bind (read-Yields options (i + 2) (omega arith)) λ hi eh.
                                    Yields-bind (read-Yields options (i + 3) (omega arith))
                                      λ lo el'. yields (
                                        word hi lo
                                          (rw eh (
                                            All-get_or (λ x. x < 256) options (i + 2) b
                                              (omega arith)))
                                          (rw el' (
                                            All-get_or (λ x. x < 256) options (i + 3) b
                                              (omega arith)))))
                              | inr other ↦ rw other (
                                  parse_mss_from-Yields fuel (i + len) options b (omega arith)
                                    inside)
                            ])
                      ])
              ])
            ])
          ])
]

-- On any option bytes the segment size that `negotiate_mss` settles on is between 1 and 1460: the
-- search through the options ends, whatever lengths they claim, and reads inside of them.
pub negotiate_mss_lem :
    (options : List ℕ)
    → Bytes options
    → (m : ℕ) × (negotiate_mss options ≡ ok m) × (1 ≤ m) × (m ≤ 1460)
unfolding negotiate_mss parse_mss
negotiate_mss_lem options b =
    let (m, e, small) =
      Yields-value
        (parse_mss_from-Yields (length options + 1) 0 options b (omega arith) (omega arith)) in
    ((if m == 0 then 536 else min m 1460), rw e refl, ground arith, ground arith)
