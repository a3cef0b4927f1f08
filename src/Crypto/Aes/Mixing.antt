-- ===== src/Crypto/Aes/Mixing.antt =====
-- What each byte of a column contributes to a byte of the column that was mixed and unmixed.
use re_pico.Base.{
  ℕ, zero, suc, ◌<◌, ◌≡◌, refl, ap, ◌∙◌, Bool, true, ◌&&◌, bit_xor, ◌==◌, arith, inl, inr, ◌⊎◌,
}
use re_pico.Base.Bits.{bit_xor-lt, bit_xor_swap}
use re_pico.Crypto.Aes.Field.{double, gf_mul, gf_mul_loop}
use re_pico.Crypto.Aes.Field.Linear.{gf_mul-xor, gf_mul-lt, both_left, both_right}
use re_pico.Crypto.Aes.{sum}

-- What holds of the bytes below a bound, by looking at each.
abbrev pub all_below : (ℕ → Bool) → ℕ → Bool
all_below p zero = true
all_below p (suc n) = all_below p n && p n

pub <-cases : (x n : ℕ) → x < suc n → (x < n) ⊎ (x ≡ n)
<-cases x n h = ground arith

pub all_below_lem : (p : ℕ → Bool) (n x : ℕ) → all_below p n ≡ true → x < n → p x ≡ true
all_below_lem p zero x h k = absurd (omega arith)
all_below_lem p (suc n) x h k = elim (<-cases x n k) [
  | inl l ↦ all_below_lem p n x (both_left (all_below p n) (p n) h) l
  | inr l ↦ ap p l ∙ both_right (all_below p n) (p n) h
]

-- The bytes that a column's first, second, third and fourth byte contribute to a byte of the
-- column that was mixed with the weights `k₀` to `k₃`.
abbrev pub first : ℕ → ℕ → ℕ → ℕ → ℕ → ℕ
first k₀ k₁ k₂ k₃ x =
    sum (gf_mul (gf_mul x 2) k₀) (gf_mul x k₁) (gf_mul x k₂) (gf_mul (gf_mul x 3) k₃)

abbrev pub second : ℕ → ℕ → ℕ → ℕ → ℕ → ℕ
second k₀ k₁ k₂ k₃ x =
    sum (gf_mul (gf_mul x 3) k₀) (gf_mul (gf_mul x 2) k₁) (gf_mul x k₂) (gf_mul x k₃)

abbrev pub third : ℕ → ℕ → ℕ → ℕ → ℕ → ℕ
third k₀ k₁ k₂ k₃ x =
    sum (gf_mul x k₀) (gf_mul (gf_mul x 3) k₁) (gf_mul (gf_mul x 2) k₂) (gf_mul x k₃)

abbrev pub fourth : ℕ → ℕ → ℕ → ℕ → ℕ → ℕ
fourth k₀ k₁ k₂ k₃ x =
    sum (gf_mul x k₀) (gf_mul x k₁) (gf_mul (gf_mul x 3) k₂) (gf_mul (gf_mul x 2) k₃)

-- Each byte of a column gives back itself to its own place and nothing to the others.
pub row_1 :
    all_below
      (λ x.
        (first 14 11 13 9 x == x)
        && (second 14 11 13 9 x == 0)
        && (third 14 11 13 9 x == 0)
        && (fourth 14 11 13 9 x == 0))
      256
    ≡ true
unfolding gf_mul gf_mul_loop double
row_1 = refl

pub row_2 :
    all_below
      (λ x.
        (first 9 14 11 13 x == 0)
        && (second 9 14 11 13 x == x)
        && (third 9 14 11 13 x == 0)
        && (fourth 9 14 11 13 x == 0))
      256
    ≡ true
unfolding gf_mul gf_mul_loop double
row_2 = refl

pub row_3 :
    all_below
      (λ x.
        (first 13 9 14 11 x == 0)
        && (second 13 9 14 11 x == 0)
        && (third 13 9 14 11 x == x)
        && (fourth 13 9 14 11 x == 0))
      256
    ≡ true
unfolding gf_mul gf_mul_loop double
row_3 = refl

pub row_4 :
    all_below
      (λ x.
        (first 11 13 9 14 x == 0)
        && (second 11 13 9 14 x == 0)
        && (third 11 13 9 14 x == 0)
        && (fourth 11 13 9 14 x == x))
      256
    ≡ true
unfolding gf_mul gf_mul_loop double
row_4 = refl

pub sum-swap :
    (a b c d a' b' c' d' : ℕ)
    → bit_xor (sum a b c d) (sum a' b' c' d')
      ≡ sum (bit_xor a a') (bit_xor b b') (bit_xor c c') (bit_xor d d')
sum-swap a b c d a' b' c' d' =
    rw
      (
        bit_xor_swap (bit_xor (bit_xor a b) c) d (bit_xor (bit_xor a' b') c') d',
        bit_xor_swap (bit_xor a b) c (bit_xor a' b') c',
        bit_xor_swap a b a' b',
      )
      refl

pub gf_mul-sum :
    (a b c d k : ℕ)
    → a < 256
    → b < 256
    → c < 256
    → d < 256
    → gf_mul (sum a b c d) k ≡ sum (gf_mul a k) (gf_mul b k) (gf_mul c k) (gf_mul d k)
gf_mul-sum a b c d k ha hb hc hd =
    let hab = bit_xor-lt 8 a b ha hb in
    let habc = bit_xor-lt 8 (bit_xor a b) c hab hc in
    rw
      (
        gf_mul-xor (bit_xor (bit_xor a b) c) d k habc hd,
        gf_mul-xor (bit_xor a b) c k hab hc,
        gf_mul-xor a b k ha hb,
      )
      refl

pub sum-transpose :
    (a₀ b₀ c₀ d₀ a₁ b₁ c₁ d₁ a₂ b₂ c₂ d₂ a₃ b₃ c₃ d₃ : ℕ)
    → sum (sum a₀ b₀ c₀ d₀) (sum a₁ b₁ c₁ d₁) (sum a₂ b₂ c₂ d₂) (sum a₃ b₃ c₃ d₃)
      ≡ sum (sum a₀ a₁ a₂ a₃) (sum b₀ b₁ b₂ b₃) (sum c₀ c₁ c₂ c₃) (sum d₀ d₁ d₂ d₃)
sum-transpose a₀ b₀ c₀ d₀ a₁ b₁ c₁ d₁ a₂ b₂ c₂ d₂ a₃ b₃ c₃ d₃ =
    rw
      (
        sum-swap a₀ b₀ c₀ d₀ a₁ b₁ c₁ d₁,
        sum-swap (bit_xor a₀ a₁) (bit_xor b₀ b₁) (bit_xor c₀ c₁) (bit_xor d₀ d₁) a₂ b₂ c₂ d₂,
        sum-swap (bit_xor (bit_xor a₀ a₁) a₂) (bit_xor (bit_xor b₀ b₁) b₂)
            (bit_xor (bit_xor c₀ c₁) c₂) (bit_xor (bit_xor d₀ d₁) d₂) a₃ b₃ c₃ d₃,
      )
      refl

pub mixed :
    (k₀ k₁ k₂ k₃ a b c d : ℕ)
    → a < 256
    → b < 256
    → c < 256
    → d < 256
    → sum
        (gf_mul (sum (gf_mul a 2) (gf_mul b 3) c d) k₀)
        (gf_mul (sum a (gf_mul b 2) (gf_mul c 3) d) k₁)
        (gf_mul (sum a b (gf_mul c 2) (gf_mul d 3)) k₂)
        (gf_mul (sum (gf_mul a 3) b c (gf_mul d 2)) k₃)
      ≡ sum
          (first k₀ k₁ k₂ k₃ a)
          (second k₀ k₁ k₂ k₃ b)
          (third k₀ k₁ k₂ k₃ c)
          (fourth k₀ k₁ k₂ k₃ d)
mixed k₀ k₁ k₂ k₃ a b c d ha hb hc hd =
    let two = λ (x : ℕ) (h : x < 256). gf_mul-lt x 2 h in
    let three = λ (x : ℕ) (h : x < 256). gf_mul-lt x 3 h in
    rw
      (
        gf_mul-sum (gf_mul a 2) (gf_mul b 3) c d k₀ (two a ha) (three b hb) hc hd,
        gf_mul-sum a (gf_mul b 2) (gf_mul c 3) d k₁ ha (two b hb) (three c hc) hd,
        gf_mul-sum a b (gf_mul c 2) (gf_mul d 3) k₂ ha hb (two c hc) (three d hd),
        gf_mul-sum (gf_mul a 3) b c (gf_mul d 2) k₃ (three a ha) hb hc (two d hd),
      )
      (sum-transpose (gf_mul (gf_mul a 2) k₀) (gf_mul (gf_mul b 3) k₀) (gf_mul c k₀) (gf_mul d k₀)
        (gf_mul a k₁) (gf_mul (gf_mul b 2) k₁) (gf_mul (gf_mul c 3) k₁) (gf_mul d k₁) (gf_mul a k₂)
        (gf_mul b k₂) (gf_mul (gf_mul c 2) k₂) (gf_mul (gf_mul d 3) k₂) (gf_mul (gf_mul a 3) k₃)
        (gf_mul b k₃) (gf_mul c k₃) (gf_mul (gf_mul d 2) k₃))

-- The four bytes at a time, from the table of a row.
pub four_equations :
    (x₀ x₁ x₂ x₃ y₀ y₁ y₂ y₃ : ℕ)
    → (x₀ == y₀ && x₁ == y₁ && x₂ == y₂ && x₃ == y₃) ≡ true
    → (x₀ ≡ y₀) × (x₁ ≡ y₁) × (x₂ ≡ y₂) × (x₃ ≡ y₃)
four_equations x₀ x₁ x₂ x₃ y₀ y₁ y₂ y₃ h = ground arith
