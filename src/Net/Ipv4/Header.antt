-- ===== src/Net/Ipv4/Header.antt =====
-- The header that `output` writes passes the checks of `input`, and its fields are read as they were
-- written.
use re_pico.Base.{
  ℕ, ◌+◌, ◌-◌, ◌^◌, ◌<◌, ◌≡◌, refl, ap, ◌∙◌, List, ◌++◌, true, false, some, length, length-append,
  le→ltb, ◌≤◌, take, arith, ltb, ◌==◌,
}
use re_pico.Base.Bytes.{Bytes}
use re_pico.Base.Run.{ok, between-ok}
use re_pico.Base.Slices.{take_all}
use re_pico.Net.Wire.{be16_number, be32_number}
use re_pico.Net.Checksum.{checksum}
use re_pico.Net.Checksum.Total.{words_total, checksum_lem, folds_to_zero}
use re_pico.Net.Ipv4.{Config, header_bytes, sum_of_header, is_sound, accept}

module _ (total id proto src dst : ℕ) (hp : proto < 256) where
  header-Bytes : (sum : ℕ) → Bytes (header_bytes total id proto sum src dst)
  unfolding header_bytes
  header-Bytes sum = omega (arith, hp)

  words_of_header :
      (sum : ℕ)
      → sum < 65536
      → words_total (header_bytes total id proto sum src dst)
        ≡ words_total (header_bytes total id proto 0 src dst) + sum
  unfolding header_bytes words_total
  words_of_header sum h = omega arith

  header-length : (sum : ℕ) → length (header_bytes total id proto sum src dst) ≡ 20
  unfolding header_bytes
  header-length sum = refl

  -- The checksum that is stored makes that of the whole header come out as zero.
  pub header_lem :
      (sum : ℕ) × (checksum (header_bytes total id proto 0 src dst) ≡ ok sum)
      × (checksum (header_bytes total id proto sum src dst) ≡ ok 0)
  header_lem =
      let blank = header_bytes total id proto 0 src dst in
      let (r, e, f) = checksum_lem blank (header-Bytes 0) (omega (arith, header-length 0)) in
      let sum : ℕ = 65535 - r in
      let whole = header_bytes total id proto sum src dst in
      let (r', e', f') = checksum_lem whole (header-Bytes sum) (omega (arith, header-length sum)) in
      (
        sum,
        e,
        e'
            ∙ ap ok (
                folds_to_zero (words_total blank) (words_total whole) r r' f f'
                  (words_of_header sum (omega arith))),
      )

  fixed_part :
      (sum : ℕ) (body : List ℕ)
      → checksum (header_bytes total id proto sum src dst) ≡ ok 0
      → let whole = header_bytes total id proto sum src dst ++ body in
        sum_of_header whole (take 20 whole) ≡ ok true
  unfolding sum_of_header header_bytes
  fixed_part sum body e =
      let whole = header_bytes total id proto sum src dst ++ body in
      let fits : ltb (length whole) 20 ≡ false = ground arith in
      rw (fits, between-ok whole 0 20 (omega arith) (omega arith), e) refl

  pub is_sound-header :
      (sum : ℕ) (body : List ℕ)
      → checksum (header_bytes total id proto sum src dst) ≡ ok 0
      → is_sound (header_bytes total id proto sum src dst ++ body) ≡ ok true
  unfolding is_sound
  is_sound-header sum body e =
      let whole = header_bytes total id proto sum src dst ++ body in
      let size : 20 ≤ length whole =
        omega (
          arith,
          header-length sum,
          length-append (header_bytes total id proto sum src dst) body,
        ) in
      rw (le→ltb (length whole) 20 size, between-ok whole 0 20 (omega arith) size)
        (fixed_part sum body e)

  pub accept-header :
      (c : Config) (sum : ℕ) (body : List ℕ)
      → total ≡ 20 + length body
      → total < 65536
      → src < 2 ^ 32
      → dst < 2 ^ 32
      → c.host.addr ≡ dst
      → let whole = header_bytes total id proto sum src dst ++ body in
        accept c whole (take 20 whole)
        ≡ ok (some (record { proto = proto; src = src; dst = dst; body = body }))
  unfolding accept header_bytes
  accept-header c sum body ht small hs hd ha =
      let whole = header_bytes total id proto sum src dst ++ body in
      let long : ltb (length whole) total ≡ false = ground (arith, ht) in
      let all : take (total - 20) body ≡ body = take_all (total - 20) body (omega (arith, ht)) in
      let short : ltb total 20 ≡ false = ground (arith, ht) in
      let own : (dst == c.host.addr) ≡ true = ground (arith, ha) in
      rw
        (
          be16_number total small,
          be32_number src hs,
          be32_number dst hd,
          own,
          short,
          long,
          between-ok whole 20 total (omega (arith, ht)) (omega (arith, ht)),
          all,
        )
        refl
