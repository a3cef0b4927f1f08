-- ===== src/Crypto/Aes/Field/Linear.antt =====
-- The field operations on bytes: the tables are inverse to each other, and multiplication by a
-- constant is linear.
use re_pico.Base.{
  ℕ, zero, suc, ◌+◌, ◌*◌, ◌/◌, ◌%◌, ◌<◌, ◌≡◌, ◌∙◌, refl, ap, List, [], ◌∷◌, Bool, true, false, not,
  ◌&&◌, ltb, bit_and, bit_xor, u8, ◌<<◌, ◌>>◌, ◌==◌, get_or, length, arith, inl, inr, Bool-cases,
}
use re_pico.Base.Bits.{
  bit_and_fields, bit_and-zero, bit_xor_fields, bit_xor-lt, bit_xor-zero, bit_xor_swap,
}
use re_pico.Crypto.Aes.Field.{
  double, gf_mul_loop, gf_mul, inv_loop, gf_inv, rotl8, sbox_entry, sbox_loop, sbox, inv_sbox_loop,
  inv_sbox,
}

-- Both tables at one entry.
abbrev entry_ok : List ℕ → ℕ → ℕ → Bool
entry_ok inv i s = ltb s 256 && (get_or inv s 0 == i)

entries_ok : List ℕ → ℕ → List ℕ → Bool
entries_ok inv i [] = true
entries_ok inv i (s ∷ rest) = entry_ok inv i s && entries_ok inv (i + 1) rest

tables_ok : entries_ok inv_sbox 0 sbox ≡ true
unfolding entries_ok inv_sbox inv_sbox_loop sbox sbox_loop sbox_entry rotl8 gf_inv inv_loop gf_mul
    gf_mul_loop double
tables_ok = refl

pub both_left : (a b : Bool) → (a && b) ≡ true → a ≡ true
both_left true b h = refl
both_left false b h = h

pub both_right : (a b : Bool) → (a && b) ≡ true → b ≡ true
both_right true b h = h
both_right false b h = cc

entry : (s t x : ℕ) → (ltb s 256 && (t == x)) ≡ true → (s < 256) × (t ≡ x)
entry s t x h = ground arith

entries_lem :
    (inv : List ℕ) (i : ℕ) (l : List ℕ) (j : ℕ)
    → entries_ok inv i l ≡ true
    → j < length l
    → entry_ok inv (i + j) (get_or l j 0) ≡ true
unfolding entries_ok
entries_lem inv i [] j h k = absurd (omega arith)
entries_lem inv i (s ∷ rest) zero h k =
    ap (λ (n : ℕ). entry_ok inv n s) {x = i + 0} {y = i} (omega arith)
    ∙ both_left (entry_ok inv i s) (entries_ok inv (i + 1) rest) h
entries_lem inv i (s ∷ rest) (suc j) h k =
    ap (λ (n : ℕ). entry_ok inv n (get_or rest j 0)) {x = i + suc j} {y = i + 1 + j} (omega arith)
    ∙ entries_lem inv (i + 1) rest j (both_right (entry_ok inv i s) (entries_ok inv (i + 1) rest) h)
        (omega arith)

length-sbox_loop : (n i : ℕ) → length (sbox_loop n i) ≡ n
unfolding sbox_loop
length-sbox_loop zero i = refl
length-sbox_loop (suc n) i = ap suc (length-sbox_loop n (i + 1))

pub sbox_lem :
    (x : ℕ) → x < 256 → (get_or sbox x 0 < 256) × (get_or inv_sbox (get_or sbox x 0) 0 ≡ x)
unfolding sbox
sbox_lem x h =
    let e = entries_lem inv_sbox 0 sbox x tables_ok (omega (arith, length-sbox_loop 256 0)) in
    entry (get_or sbox x 0) (get_or inv_sbox (get_or sbox x 0) 0) x
      (ap (λ (n : ℕ). entry_ok inv_sbox n (get_or sbox x 0)) {x = x} {y = 0 + x} (omega arith) ∙ e)

-- Doubling.
top_digit : (a : ℕ) → a < 2 → bit_and a 1 ≡ a
top_digit zero h = refl
top_digit (suc zero) h = refl
top_digit (suc (suc a)) h = absurd (omega arith)

top_bit : (a : ℕ) → a < 256 → (not (bit_and a 0x80 == 0)) ≡ (not (a / 128 == 0))
top_bit a h =
    ground
      (arith, bit_and_fields 7 (a / 128) 1 (a % 128) 0, bit_and-zero (a % 128), top_digit (a / 128))

pub double-lt : (a : ℕ) → double a < 256
unfolding double
double-lt a = ground (arith, bit_xor-lt 8 (u8 (a << 1)) 0x1b)

halves : (a b : ℕ) → bit_xor a b ≡ bit_xor (a / 128) (b / 128) * 128 + bit_xor (a % 128) (b % 128)
halves a b = ground (arith, bit_xor_fields 7 (a / 128) (b / 128) (a % 128) (b % 128))

-- What the overflow adds.
poly : ℕ → ℕ
poly zero = 0
poly (suc h) = 0x1b

double_at : (a q : ℕ) → a < 256 → a / 128 ≡ q → double a ≡ bit_xor (a % 128 * 2) (poly q)
unfolding double poly
double_at a zero h e = ground (arith, top_bit a, bit_xor-zero (a % 128 * 2))
double_at a (suc zero) h e =
    let t : a * 2 % 256 ≡ a % 128 * 2 = omega (arith, e) in
    ground (arith, top_bit a, ap (λ (n : ℕ). bit_xor n 0x1b) t)
double_at a (suc (suc q)) h e = absurd (omega (arith, e))

double_form : (a : ℕ) → a < 256 → double a ≡ bit_xor (a % 128 * 2) (poly (a / 128))
double_form a h = double_at a (a / 128) h refl

poly-xor : (h k : ℕ) → h < 2 → k < 2 → poly (bit_xor h k) ≡ bit_xor (poly h) (poly k)
unfolding poly
poly-xor zero zero hh hk = refl
poly-xor zero (suc zero) hh hk = refl
poly-xor (suc zero) zero hh hk = refl
poly-xor (suc zero) (suc zero) hh hk = refl
poly-xor (suc (suc h)) k hh hk = absurd (omega arith)
poly-xor zero (suc (suc k)) hh hk = absurd (omega arith)
poly-xor (suc zero) (suc (suc k)) hh hk = absurd (omega arith)

twice-xor : (x y : ℕ) → bit_xor x y * 2 ≡ bit_xor (x * 2) (y * 2)
twice-xor x y = ground (arith, bit_xor_fields 1 x y 0 0)

pub double-xor :
    (a b : ℕ) → a < 256 → b < 256 → double (bit_xor a b) ≡ bit_xor (double a) (double b)
double-xor a b ha hb =
    let e = halves a b in
    let low = bit_xor-lt 7 (a % 128) (b % 128) (omega arith) (omega arith) in
    let high = bit_xor-lt 1 (a / 128) (b / 128) (omega arith) (omega arith) in
    let el : bit_xor a b % 128 ≡ bit_xor (a % 128) (b % 128) = omega (arith, e, low) in
    let eh : bit_xor a b / 128 ≡ bit_xor (a / 128) (b / 128) = omega (arith, e, low) in
    rw
      (
        double_form (bit_xor a b) (omega (arith, e, low, high)),
        double_form a ha,
        double_form b hb,
        el,
        eh,
        poly-xor (a / 128) (b / 128) (omega arith) (omega arith),
        twice-xor (a % 128) (b % 128),
      )
      (bit_xor_swap (a % 128 * 2) (b % 128 * 2) (poly (a / 128)) (poly (b / 128)))

pub gf_mul_loop-xor :
    (n a b k r s : ℕ)
    → a < 256
    → b < 256
    → gf_mul_loop n (bit_xor a b) k (bit_xor r s)
      ≡ bit_xor (gf_mul_loop n a k r) (gf_mul_loop n b k s)
unfolding gf_mul_loop
gf_mul_loop-xor zero a b k r s ha hb = refl
gf_mul_loop-xor (suc n) a b k r s ha hb = elim (Bool-cases (not (bit_and k 1 == 0))) [
  | inl e ↦
      rw (e, double-xor a b ha hb, bit_xor_swap r s a b)
        (gf_mul_loop-xor n (double a) (double b) (k >> 1) (bit_xor r a) (bit_xor s b) (double-lt a)
          (double-lt b))
  | inr e ↦
      rw (e, double-xor a b ha hb)
        (gf_mul_loop-xor n (double a) (double b) (k >> 1) r s (double-lt a) (double-lt b))
]

gf_mul_loop-lt : (n a k r : ℕ) → a < 256 → r < 256 → gf_mul_loop n a k r < 256
unfolding gf_mul_loop
gf_mul_loop-lt zero a k r ha hr = hr
gf_mul_loop-lt (suc n) a k r ha hr = elim (Bool-cases (not (bit_and k 1 == 0))) [
  | inl e ↦
      rw e
        (gf_mul_loop-lt n (double a) (k >> 1) (bit_xor r a) (double-lt a) (bit_xor-lt 8 r a hr ha))
  | inr e ↦ rw e (gf_mul_loop-lt n (double a) (k >> 1) r (double-lt a) hr)
]

pub gf_mul-lt : (a k : ℕ) → a < 256 → gf_mul a k < 256
unfolding gf_mul
gf_mul-lt a k h = gf_mul_loop-lt 8 a k 0 h (omega arith)

-- Multiplication distributes over the addition of the field.
pub gf_mul-xor :
    (a b k : ℕ) → a < 256 → b < 256 → gf_mul (bit_xor a b) k ≡ bit_xor (gf_mul a k) (gf_mul b k)
unfolding gf_mul
gf_mul-xor a b k ha hb = gf_mul_loop-xor 8 a b k 0 0 ha hb
