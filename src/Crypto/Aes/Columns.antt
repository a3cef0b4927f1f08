-- ===== src/Crypto/Aes/Columns.antt =====
-- Mixing the bytes of a column has an inverse.
use re_pico.Base.{ℕ, ◌<◌, ◌≡◌, refl, ◌∙◌, ◌&&◌, bit_xor, ◌==◌}
use re_pico.Base.Bits.{bit_xor-zero, bit_xor_comm}
use re_pico.Crypto.Aes.Field.{gf_mul}
use re_pico.Crypto.Aes.{sum}
use re_pico.Crypto.Aes.Mixing.{
  all_below_lem, first, second, third, fourth, row_1, row_2, row_3, row_4, mixed, four_equations,
}

zero-bit_xor : (a : ℕ) → bit_xor 0 a ≡ a
zero-bit_xor a = bit_xor_comm 0 a ∙ bit_xor-zero a

alone_1 : (a : ℕ) → sum a 0 0 0 ≡ a
alone_1 a = simp (bit_xor-zero) refl

alone_2 : (a : ℕ) → sum 0 a 0 0 ≡ a
alone_2 a = simp (bit_xor-zero, zero-bit_xor) refl

alone_3 : (a : ℕ) → sum 0 0 a 0 ≡ a
alone_3 a = simp (bit_xor-zero, zero-bit_xor) refl

alone_4 : (a : ℕ) → sum 0 0 0 a ≡ a
alone_4 a = zero-bit_xor a

weights_1 :
    (x : ℕ)
    → x < 256
    → (first 14 11 13 9 x ≡ x)
      × (second 14 11 13 9 x ≡ 0)
      × (third 14 11 13 9 x ≡ 0)
      × (fourth 14 11 13 9 x ≡ 0)
weights_1 x h =
    four_equations (first 14 11 13 9 x) (second 14 11 13 9 x) (third 14 11 13 9 x)
      (fourth 14 11 13 9 x) x 0 0 0
      (all_below_lem
        (λ n.
          (first 14 11 13 9 n == n)
          && (second 14 11 13 9 n == 0)
          && (third 14 11 13 9 n == 0)
          && (fourth 14 11 13 9 n == 0))
        256 x row_1 h)

pub unmix_1 :
    (a b c d : ℕ)
    → a < 256
    → b < 256
    → c < 256
    → d < 256
    → sum
        (gf_mul (sum (gf_mul a 2) (gf_mul b 3) c d) 14)
        (gf_mul (sum a (gf_mul b 2) (gf_mul c 3) d) 11)
        (gf_mul (sum a b (gf_mul c 2) (gf_mul d 3)) 13)
        (gf_mul (sum (gf_mul a 3) b c (gf_mul d 2)) 9)
      ≡ a
unmix_1 a b c d ha hb hc hd =
    rw
      (
        mixed 14 11 13 9 a b c d ha hb hc hd,
        (weights_1 a ha).0,
        (weights_1 b hb).1,
        (weights_1 c hc).2,
        (weights_1 d hd).3,
      )
      (alone_1 a)

weights_2 :
    (x : ℕ)
    → x < 256
    → (first 9 14 11 13 x ≡ 0)
      × (second 9 14 11 13 x ≡ x)
      × (third 9 14 11 13 x ≡ 0)
      × (fourth 9 14 11 13 x ≡ 0)
weights_2 x h =
    four_equations (first 9 14 11 13 x) (second 9 14 11 13 x) (third 9 14 11 13 x)
      (fourth 9 14 11 13 x) 0 x 0 0
      (all_below_lem
        (λ n.
          (first 9 14 11 13 n == 0)
          && (second 9 14 11 13 n == n)
          && (third 9 14 11 13 n == 0)
          && (fourth 9 14 11 13 n == 0))
        256 x row_2 h)

pub unmix_2 :
    (a b c d : ℕ)
    → a < 256
    → b < 256
    → c < 256
    → d < 256
    → sum
        (gf_mul (sum (gf_mul a 2) (gf_mul b 3) c d) 9)
        (gf_mul (sum a (gf_mul b 2) (gf_mul c 3) d) 14)
        (gf_mul (sum a b (gf_mul c 2) (gf_mul d 3)) 11)
        (gf_mul (sum (gf_mul a 3) b c (gf_mul d 2)) 13)
      ≡ b
unmix_2 a b c d ha hb hc hd =
    rw
      (
        mixed 9 14 11 13 a b c d ha hb hc hd,
        (weights_2 a ha).0,
        (weights_2 b hb).1,
        (weights_2 c hc).2,
        (weights_2 d hd).3,
      )
      (alone_2 b)

weights_3 :
    (x : ℕ)
    → x < 256
    → (first 13 9 14 11 x ≡ 0)
      × (second 13 9 14 11 x ≡ 0)
      × (third 13 9 14 11 x ≡ x)
      × (fourth 13 9 14 11 x ≡ 0)
weights_3 x h =
    four_equations (first 13 9 14 11 x) (second 13 9 14 11 x) (third 13 9 14 11 x)
      (fourth 13 9 14 11 x) 0 0 x 0
      (all_below_lem
        (λ n.
          (first 13 9 14 11 n == 0)
          && (second 13 9 14 11 n == 0)
          && (third 13 9 14 11 n == n)
          && (fourth 13 9 14 11 n == 0))
        256 x row_3 h)

pub unmix_3 :
    (a b c d : ℕ)
    → a < 256
    → b < 256
    → c < 256
    → d < 256
    → sum
        (gf_mul (sum (gf_mul a 2) (gf_mul b 3) c d) 13)
        (gf_mul (sum a (gf_mul b 2) (gf_mul c 3) d) 9)
        (gf_mul (sum a b (gf_mul c 2) (gf_mul d 3)) 14)
        (gf_mul (sum (gf_mul a 3) b c (gf_mul d 2)) 11)
      ≡ c
unmix_3 a b c d ha hb hc hd =
    rw
      (
        mixed 13 9 14 11 a b c d ha hb hc hd,
        (weights_3 a ha).0,
        (weights_3 b hb).1,
        (weights_3 c hc).2,
        (weights_3 d hd).3,
      )
      (alone_3 c)

weights_4 :
    (x : ℕ)
    → x < 256
    → (first 11 13 9 14 x ≡ 0)
      × (second 11 13 9 14 x ≡ 0)
      × (third 11 13 9 14 x ≡ 0)
      × (fourth 11 13 9 14 x ≡ x)
weights_4 x h =
    four_equations (first 11 13 9 14 x) (second 11 13 9 14 x) (third 11 13 9 14 x)
      (fourth 11 13 9 14 x) 0 0 0 x
      (all_below_lem
        (λ n.
          (first 11 13 9 14 n == 0)
          && (second 11 13 9 14 n == 0)
          && (third 11 13 9 14 n == 0)
          && (fourth 11 13 9 14 n == n))
        256 x row_4 h)

pub unmix_4 :
    (a b c d : ℕ)
    → a < 256
    → b < 256
    → c < 256
    → d < 256
    → sum
        (gf_mul (sum (gf_mul a 2) (gf_mul b 3) c d) 11)
        (gf_mul (sum a (gf_mul b 2) (gf_mul c 3) d) 13)
        (gf_mul (sum a b (gf_mul c 2) (gf_mul d 3)) 9)
        (gf_mul (sum (gf_mul a 3) b c (gf_mul d 2)) 14)
      ≡ d
unmix_4 a b c d ha hb hc hd =
    rw
      (
        mixed 11 13 9 14 a b c d ha hb hc hd,
        (weights_4 a ha).0,
        (weights_4 b hb).1,
        (weights_4 c hc).2,
        (weights_4 d hd).3,
      )
      (alone_4 d)
