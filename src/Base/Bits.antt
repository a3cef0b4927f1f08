-- ===== src/Base/Bits.antt =====
-- The bit operations of C++ at variables: how they act on numbers that are put together from
-- fields, `x & mask`, `hi << k | lo` and `a ^ b`.
use re_pico.Base.Words.{◌<<◌}
use Prim.Native.Nat.{
  ℕ, zero, suc, ◌+◌, ◌-◌, ◌*◌, ◌/◌, ◌%◌, ◌^◌, ◌≤◌, ◌<◌, min, max, bit_and, bit_or, bit_xor, digits,
  differ, bit_and-bitwise, bit_or-bitwise, bit_xor-bitwise,
}
use mathlib.Core.Path.{◌≡◌, refl, sym, ap, ◌∙◌}
use native.Mathlib.Nat.{pow-suc, one-le-pow}
use native.Mathlib.Omega.{arith}

-- The recursion on digits does not depend on its count, so long as that is large enough.
module _ (z : ℕ → ℕ) (f : ℕ → ℕ → ℕ) where
  count_irrelevant : (m n a b : ℕ) → a ≤ m → a ≤ n → digits z f m a b ≡ digits z f n a b
  count_irrelevant zero zero zero b h k = refl
  count_irrelevant zero (suc n) zero b h k = refl
  count_irrelevant (suc m) zero zero b h k = refl
  count_irrelevant (suc m) (suc n) zero b h k = refl
  count_irrelevant zero n (suc a) b h k = absurd (omega arith)
  count_irrelevant (suc m) zero (suc a) b h k = absurd (omega arith)
  count_irrelevant (suc m) (suc n) (suc a) b h k =
      ap (λ t. t * 2 + f (suc a % 2) (b % 2))
        (count_irrelevant m n (suc a / 2) (b / 2) (omega arith) (omega arith))

  lowest_digit :
      (a b : ℕ)
      → digits z f (suc a) (suc a) b
        ≡ digits z f (suc a / 2) (suc a / 2) (b / 2) * 2 + f (suc a % 2) (b % 2)
  lowest_digit a b =
      ap (λ t. t * 2 + f (suc a % 2) (b % 2))
        (count_irrelevant a (suc a / 2) (suc a / 2) (b / 2) (omega arith) (omega arith))

-- An operation that acts digit by digit.
abbrev Digitwise : (ℕ → ℕ → ℕ) → (ℕ → ℕ → ℕ) → Type 0
Digitwise op d = (a b : ℕ) → op a b ≡ op (a / 2) (b / 2) * 2 + d (a % 2) (b % 2)

pub bit_and-Digitwise : Digitwise bit_and min
bit_and-Digitwise zero b = simp bit_and-bitwise (omega arith)
bit_and-Digitwise (suc a) b = simp bit_and-bitwise (lowest_digit (λ _. 0) min a b)

pub bit_or-Digitwise : Digitwise bit_or max
bit_or-Digitwise zero b = simp bit_or-bitwise (omega arith)
bit_or-Digitwise (suc a) b = simp bit_or-bitwise (lowest_digit (λ y. y) max a b)

pub bit_xor-Digitwise : Digitwise bit_xor differ
bit_xor-Digitwise zero b = simp bit_xor-bitwise (omega arith)
bit_xor-Digitwise (suc a) b = simp bit_xor-bitwise (lowest_digit (λ y. y) differ a b)

double : (q k : ℕ) → q * 2 ^ suc k ≡ 2 * (q * 2 ^ k)
double q k = omega (arith, ap (λ (t : ℕ). q * t) (pow-suc 2 k))

module _ (op d : ℕ → ℕ → ℕ) (step : Digitwise op d) (nil : op 0 0 ≡ 0) where
  -- High and low fields do not mix.
  fields :
      (k q p r s : ℕ)
      → r < 2 ^ k
      → s < 2 ^ k
      → op (q * 2 ^ k + r) (p * 2 ^ k + s) ≡ op q p * 2 ^ k + op r s
  fields zero q p r s hr hs = ground (arith, nil)
  fields (suc k) q p r s hr hs = ground (
    arith,
    pow-suc 2 k,
    double q k,
    double p k,
    double (op q p) k,
    step (q * 2 ^ suc k + r) (p * 2 ^ suc k + s),
    step r s,
    fields k q p (r / 2) (s / 2),
  )

  fits :
      ((x y : ℕ) → x < 2 → y < 2 → d x y < 2) → (k a b : ℕ) → a < 2 ^ k → b < 2 ^ k → op a b < 2 ^ k
  fits small zero a b ha hb = ground (arith, nil)
  fits small (suc k) a b ha hb =
      ground (arith, pow-suc 2 k, step a b, small (a % 2) (b % 2), fits small k (a / 2) (b / 2))

  -- What an operation does to equal digits or to zeros it does to numbers.
  same : ((x : ℕ) → x < 2 → d x x ≡ 0) → (n a : ℕ) → a ≤ n → op a a ≡ 0
  same digit n zero h = nil
  same digit zero (suc a) h = absurd (omega arith)
  same digit (suc n) (suc a) h =
      ground (arith, step (suc a) (suc a), digit (suc a % 2), same digit n (suc a / 2))

  keeps : ((x : ℕ) → x < 2 → d x 0 ≡ x) → (n a : ℕ) → a ≤ n → op a 0 ≡ a
  keeps digit n zero h = nil
  keeps digit zero (suc a) h = absurd (omega arith)
  keeps digit (suc n) (suc a) h =
      ground (arith, step (suc a) 0, digit (suc a % 2), keeps digit n (suc a / 2))

  drops : ((x : ℕ) → x < 2 → d x 0 ≡ 0) → (n a : ℕ) → a ≤ n → op a 0 ≡ 0
  drops digit n zero h = nil
  drops digit zero (suc a) h = absurd (omega arith)
  drops digit (suc n) (suc a) h =
      ground (arith, step (suc a) 0, digit (suc a % 2), drops digit n (suc a / 2))

  commutes :
      ((x y : ℕ) → x < 2 → y < 2 → d x y ≡ d y x) → (n a b : ℕ) → a ≤ n → b ≤ n → op a b ≡ op b a
  commutes digit zero a b h h' = ground arith
  commutes digit (suc n) a b h h' =
      ground (arith, step a b, step b a, digit (a % 2) (b % 2), commutes digit n (a / 2) (b / 2))

  -- The operation on the halves and on the lowest digits.
  halves :
      ((x y : ℕ) → x < 2 → y < 2 → d x y < 2)
      → (a b : ℕ) → (op a b / 2 ≡ op (a / 2) (b / 2)) × (op a b % 2 ≡ d (a % 2) (b % 2))
  halves small a b =
      let e = step a b in
      let l = small (a % 2) (b % 2) (omega arith) (omega arith) in (omega arith, omega arith)

  associates :
      ((x y : ℕ) → x < 2 → y < 2 → d x y < 2)
      → ((x y z : ℕ) → x < 2 → y < 2 → z < 2 → d (d x y) z ≡ d x (d y z))
      → (n a b c : ℕ) → a ≤ n
      → b ≤ n
      → c ≤ n
      → op (op a b) c ≡ op a (op b c)
  associates small digit zero zero zero zero ha hb hc = rw (nil, nil) refl
  associates small digit zero (suc a) b c ha hb hc = absurd (omega arith)
  associates small digit zero zero (suc b) c ha hb hc = absurd (omega arith)
  associates small digit zero zero zero (suc c) ha hb hc = absurd (omega arith)
  associates small digit (suc n) a b c ha hb hc =
      let (ab, ab') = halves small a b in
      let (bc, bc') = halves small b c in
      step (op a b) c
      ∙ rw
          (
            ab,
            ab',
            associates small digit n (a / 2) (b / 2) (c / 2) (omega arith) (omega arith)
                (omega arith),
            digit (a % 2) (b % 2) (c % 2) (omega arith) (omega arith) (omega arith),
          )
          (sym (step a (op b c) ∙ rw (bc, bc') refl))

bit : (P : ℕ → Type 0) → P 0 → P 1 → (x : ℕ) → x < 2 → P x
bit P p q zero h = p
bit P p q (suc zero) h = q
bit P p q (suc (suc x)) h = absurd (omega arith)

bits : (P : ℕ → ℕ → Type 0) → P 0 0 → P 0 1 → P 1 0 → P 1 1 → (x y : ℕ) → x < 2 → y < 2 → P x y
bits P a b c d x y h k = bit (λ u. P u y) (bit (P 0) a b y k) (bit (P 1) c d y k) x h

pub bit_or-zero : (a : ℕ) → bit_or a 0 ≡ a
bit_or-zero a = keeps bit_or max bit_or-Digitwise refl (λ x h. omega arith) a a (omega arith)

pub bit_xor-zero : (a : ℕ) → bit_xor a 0 ≡ a
bit_xor-zero a =
    keeps bit_xor differ bit_xor-Digitwise refl (bit (λ x. differ x 0 ≡ x) refl refl) a a
      (omega arith)

pub bit_xor_self : (a : ℕ) → bit_xor a a ≡ 0
bit_xor_self a =
    same bit_xor differ bit_xor-Digitwise refl (bit (λ x. differ x x ≡ 0) refl refl) a a
      (omega arith)

pub bit_and-zero : (a : ℕ) → bit_and a 0 ≡ 0
bit_and-zero a = drops bit_and min bit_and-Digitwise refl (λ x h. omega arith) a a (omega arith)

pub bit_or_comm : (a b : ℕ) → bit_or a b ≡ bit_or b a
bit_or_comm a b =
    commutes bit_or max bit_or-Digitwise refl (λ x y h k. omega arith) (a + b) a b (omega arith)
      (omega arith)

pub zero-bit_or : (a : ℕ) → bit_or 0 a ≡ a
zero-bit_or a = bit_or_comm 0 a ∙ bit_or-zero a

pub bit_xor_comm : (a b : ℕ) → bit_xor a b ≡ bit_xor b a
bit_xor_comm a b =
    commutes bit_xor differ bit_xor-Digitwise refl
      (bits (λ x y. differ x y ≡ differ y x) refl refl refl refl) (a + b) a b (omega arith)
      (omega arith)

differ-lt : (x y : ℕ) → x < 2 → y < 2 → differ x y < 2
differ-lt = bits (λ x y. differ x y < 2) (omega arith) (omega arith) (omega arith) (omega arith)

differ_assoc : (x y z : ℕ) → x < 2 → y < 2 → z < 2 → differ (differ x y) z ≡ differ x (differ y z)
differ_assoc x y z hx hy hz =
    bits (λ u v. differ (differ u v) z ≡ differ u (differ v z))
      (bit (λ w. differ (differ 0 0) w ≡ differ 0 (differ 0 w)) refl refl z hz)
      (bit (λ w. differ (differ 0 1) w ≡ differ 0 (differ 1 w)) refl refl z hz)
      (bit (λ w. differ (differ 1 0) w ≡ differ 1 (differ 0 w)) refl refl z hz)
      (bit (λ w. differ (differ 1 1) w ≡ differ 1 (differ 1 w)) refl refl z hz) x y hx hy

pub bit_xor_assoc : (a b c : ℕ) → bit_xor (bit_xor a b) c ≡ bit_xor a (bit_xor b c)
bit_xor_assoc a b c =
    associates bit_xor differ bit_xor-Digitwise refl differ-lt differ_assoc (a + b + c) a b c
      (omega arith) (omega arith) (omega arith)

-- Taking the same away twice.
pub bit_xor_cancel : (a k : ℕ) → bit_xor (bit_xor a k) k ≡ a
bit_xor_cancel a k = rw (bit_xor_assoc a k k, bit_xor_self k) (bit_xor-zero a)

pub bit_xor_swap :
    (a b c d : ℕ) → bit_xor (bit_xor a b) (bit_xor c d) ≡ bit_xor (bit_xor a c) (bit_xor b d)
bit_xor_swap a b c d =
    bit_xor_assoc a b (bit_xor c d)
    ∙ ap (bit_xor a) (
        sym (bit_xor_assoc b c d)
        ∙ ap (λ (t : ℕ). bit_xor t d) (bit_xor_comm b c)
        ∙ bit_xor_assoc c b d)
    ∙ sym (bit_xor_assoc a c (bit_xor b d))

pub bit_or-lt : (k a b : ℕ) → a < 2 ^ k → b < 2 ^ k → bit_or a b < 2 ^ k
bit_or-lt = fits bit_or max bit_or-Digitwise refl (λ x y h k. omega arith)

pub bit_xor-lt : (k a b : ℕ) → a < 2 ^ k → b < 2 ^ k → bit_xor a b < 2 ^ k
bit_xor-lt =
    fits bit_xor differ bit_xor-Digitwise refl
      (bits (λ x y. differ x y < 2) (omega arith) (omega arith) (omega arith) (omega arith))

pub bit_xor_fields :
    (k q p r s : ℕ)
    → r < 2 ^ k
    → s < 2 ^ k
    → bit_xor (q * 2 ^ k + r) (p * 2 ^ k + s) ≡ bit_xor q p * 2 ^ k + bit_xor r s
bit_xor_fields = fields bit_xor differ bit_xor-Digitwise refl

pub bit_or_fields :
    (k q p r s : ℕ)
    → r < 2 ^ k
    → s < 2 ^ k
    → bit_or (q * 2 ^ k + r) (p * 2 ^ k + s) ≡ bit_or q p * 2 ^ k + bit_or r s
bit_or_fields = fields bit_or max bit_or-Digitwise refl

pub bit_and_fields :
    (k q p r s : ℕ)
    → r < 2 ^ k
    → s < 2 ^ k
    → bit_and (q * 2 ^ k + r) (p * 2 ^ k + s) ≡ bit_and q p * 2 ^ k + bit_and r s
bit_and_fields = fields bit_and min bit_and-Digitwise refl

-- `hi << k | lo`, in either order.
pub bit_or_high_low : (k q r : ℕ) → r < 2 ^ k → bit_or (q << k) r ≡ q * 2 ^ k + r
bit_or_high_low k q r h =
    ground (arith, one-le-pow k 2, bit_or_fields k q 0 0 r, bit_or-zero q, zero-bit_or r)

pub bit_or_low_high : (k q r : ℕ) → r < 2 ^ k → bit_or r (q << k) ≡ q * 2 ^ k + r
bit_or_low_high k q r h = bit_or_comm r (q << k) ∙ bit_or_high_low k q r h

-- `x & (2^k - 1)`.
low_fits : (k r : ℕ) → r < 2 ^ k → bit_and r (2 ^ k - 1) ≡ r
low_fits zero r h = ground (arith, bit_and-zero r)
low_fits (suc k) r h =
    ground
      (arith, pow-suc 2 k, one-le-pow k 2, bit_and-Digitwise r (2 ^ suc k - 1), low_fits k (r / 2))

pub bit_and_mask : (k a : ℕ) → bit_and a (2 ^ k - 1) ≡ a % 2 ^ k
bit_and_mask k a = ground (
  arith,
  one-le-pow k 2,
  bit_and_fields k (a / 2 ^ k) 0 (a % 2 ^ k) (2 ^ k - 1),
  bit_and-zero (a / 2 ^ k),
  low_fits k (a % 2 ^ k),
)
