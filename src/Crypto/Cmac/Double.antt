-- ===== src/Crypto/Cmac/Double.antt =====
-- `gf128_dbl` on the number that a block is, highest byte first.
use re_pico.Base.{
  ℕ, zero, suc, ◌+◌, ◌-◌, ◌*◌, ◌/◌, ◌%◌, ◌^◌, ◌<◌, ◌≡◌, refl, ap, sym, subst, length-set, ◌∙◌, List,
  [], ◌∷◌, Bool, true, false, inl, inr, bit_and, bit_or, bit_xor, u8, ◌<<◌, ◌>>◌, ◌==◌, ltb, get_or,
  set, length, if◌then◌else◌, Bool-cases, ltb→lt, ltb→le, lt→ltb, le→ltb, arith,
}
use native.Mathlib.Nat.{
  pow-suc, add-zero, mul-add-div_right, div-eq_of_lt, mul-add-mod_self_right, mod-eq_of_lt,
}
use re_pico.Base.Bytes.{Bytes, All-set, Bytes-get_or, pow_plus_eight, pow_mono, mul_below}
use re_pico.Base.Bits.{
  bit_or_high_low, bit_xor_fields, bit_xor-zero, bit_xor-lt, bit_and_fields, bit_and-zero,
  bit_and_mask,
}
use re_pico.Crypto.Aes.Blocks.{IsBlock, at_bytes}
use re_pico.Crypto.Cmac.{shift_loop, gf128_dbl}

-- The number of a list of bytes, highest byte first.
abbrev pub be_number : List ℕ → ℕ
be_number [] = 0
be_number (b ∷ bs) = b * 256 ^ length bs + be_number bs

-- Each byte takes the high bit of the next one.
abbrev doubled : List ℕ → List ℕ
doubled [] = []
doubled (b ∷ []) = u8 (b << 1) ∷ []
doubled (b ∷ c ∷ t) = u8 (bit_or (b << 1) (c >> 7)) ∷ doubled (c ∷ t)

length-doubled : (bs : List ℕ) → length (doubled bs) ≡ length bs
length-doubled [] = refl
length-doubled (b ∷ []) = refl
length-doubled (b ∷ c ∷ t) = ap suc (length-doubled (c ∷ t))

doubled-Bytes : (bs : List ℕ) → Bytes (doubled bs)
doubled-Bytes [] = tt
doubled-Bytes (b ∷ []) = (omega arith, tt)
doubled-Bytes (b ∷ c ∷ t) = (omega arith, doubled-Bytes (c ∷ t))

module _ (w n r : ℕ) where
  weigh_digits :
      (x y z b : ℕ)
      → x + 256 * y ≡ b * 2 + z
      → r + z * w ≡ 2 * n
      → x * w + r + y * (w * 256) ≡ 2 * (b * w + n)
  weigh_digits x y z b e e' =
      let weighed : (x + 256 * y) * w ≡ (b * 2 + z) * w = ap (λ (k : ℕ). k * w) e in grind arith

  weigh :
      (b c : ℕ)
      → b < 256
      → c < 256
      → r + c / 128 * w ≡ 2 * n
      → u8 (bit_or (b << 1) (c >> 7)) * w + r + b / 128 * (w * 256) ≡ 2 * (b * w + n)
  weigh b c hb hc e =
      rw (bit_or_high_low 1 b (c / 128) (omega arith))
        (weigh_digits (u8 (b * 2 + c / 128)) (b / 128) (c / 128) b (omega arith) e)

-- The bit shifted out has the weight of the whole list.
doubled_lem :
    (b : ℕ) (t : List ℕ)
    → Bytes (b ∷ t)
    → be_number (doubled (b ∷ t)) + b / 128 * (256 ^ length (b ∷ t)) ≡ 2 * be_number (b ∷ t)
doubled_lem b [] h = omega (arith, h.0)
doubled_lem b (c ∷ t) h =
    rw (length-doubled (c ∷ t), pow-suc 256 (suc (length t)))
      (weigh (256 ^ suc (length t)) (be_number (c ∷ t)) (be_number (doubled (c ∷ t))) b c h.0 h.1.0
        (doubled_lem c t h.1))

shift_loop_lem :
    (b : List ℕ)
    → IsBlock b
    → set (shift_loop 15 0 b) 15 (u8 (get_or (shift_loop 15 0 b) 15 0 << 1)) ≡ doubled b
unfolding shift_loop
shift_loop_lem b h =
    at_bytes
      (λ b. set (shift_loop 15 0 b) 15 (u8 (get_or (shift_loop 15 0 b) 15 0 << 1)) ≡ doubled b)
      (λ a₀ b₀ c₀ d₀ a₁ b₁ c₁ d₁ a₂ b₂ c₂ d₂ a₃ b₃ c₃ d₃ _. refl) b h.0 h.1

high_bit : (b : ℕ) → b < 256 → (bit_and b 0x80 == 0) ≡ ltb b 128
high_bit b h =
    let parts : b ≡ b / 128 * 128 + b % 128 = omega arith in
    let e : bit_and (b / 128 * 128 + b % 128) 0x80 ≡ b / 128 * 128 = grind (
      arith,
      bit_and_fields 7 (b / 128) 1 (b % 128) 0,
      bit_and-zero (b % 128),
      bit_and_mask 1 (b / 128),
    ) in
    let e' : bit_and b 0x80 ≡ b / 128 * 128 = ap (λ (x : ℕ). bit_and x 0x80) parts ∙ e in
    rw e' (ground arith)

pow_bytes : (n : ℕ) → 256 ^ n ≡ 2 ^ (8 * n)
pow_bytes zero = refl
pow_bytes (suc n) =
    let e : 8 * suc n ≡ 8 * n + 8 = omega arith in
    rw (e, pow_plus_eight (8 * n), pow-suc 256 n) (omega (arith, pow_bytes n))

pub be_number-lt : (bs : List ℕ) → Bytes bs → be_number bs < 256 ^ length bs
be_number-lt [] h = omega arith
be_number-lt (b ∷ bs) h =
    rw (pow-suc 256 (length bs))
      (omega (arith, be_number-lt bs h.1, mul_below b (256 ^ length bs) 256 h.0))

xor_low :
    (w b r k : ℕ) → r < 2 ^ w → k < 2 ^ w → bit_xor (b * 2 ^ w + r) k ≡ b * 2 ^ w + bit_xor r k
xor_low w b r k h h' = grind (arith, bit_xor_fields w b 0 r k, bit_xor-zero b)

in_bits :
    (W w b r k : ℕ) → W ≡ 2 ^ w → r < W → k < 2 ^ w → bit_xor (b * W + r) k ≡ b * W + bit_xor r k
in_bits W w b r k e h h' = rw e (xor_low w b r k (subst (λ (x : ℕ). r < x) e h) h')

at_one : (x : ℕ) → x * 1 + 0 ≡ x
at_one x = omega arith

xor_last :
    (n k : ℕ) (bs : List ℕ)
    → k < 256
    → length bs ≡ suc n
    → Bytes bs
    → be_number (set bs n (bit_xor (get_or bs n 0) k)) ≡ bit_xor (be_number bs) k
xor_last n k [] hk e h = absurd (omega arith)
xor_last zero k (b ∷ []) hk e h =
    at_one (bit_xor b k) ∙ ap (λ (x : ℕ). bit_xor x k) (sym (at_one b))
xor_last zero k (b ∷ c ∷ t) hk e h = absurd (omega arith)
xor_last (suc n) k (b ∷ bs) hk e h =
    let small : k < 2 ^ (8 * length bs) = omega (arith, pow_mono 8 (8 * length bs) (omega arith)) in
    rw (length-set bs n (bit_xor (get_or bs n 0) k), xor_last n k bs hk (omega arith) h.1)
      (sym (in_bits _ _ b _ _ (pow_bytes (length bs)) (be_number-lt bs h.1) small))

-- `gf128_dbl` doubles the number of a block in GF(2¹²⁸): the shift left by one bit, and, where the
-- highest bit leaves, x⁷ + x² + x + 1 added to the rest.
pub gf128_dbl_lem :
    (b : List ℕ)
    → IsBlock b
    → be_number (gf128_dbl b) ≡ (
        if ltb (be_number b) (2 ^ 127)
        then 2 * be_number b
        else bit_xor (2 * be_number b - 2 ^ 128) 0x87)
unfolding gf128_dbl
gf128_dbl_lem [] h = absurd (omega (arith, h.0))
gf128_dbl_lem (a ∷ t) h =
    let b : List ℕ = a ∷ t in
    let weight : 256 ^ length t ≡ 2 ^ 120 =
      ap (λ (n : ℕ). 256 ^ n) {x = length t} {y = 15} (omega (arith, h.0)) in
    let total : be_number (doubled b) + a / 128 * 2 ^ 128 ≡ 2 * be_number b =
      ap (λ (n : ℕ). be_number (doubled b) + a / 128 * 256 ^ n) {x = 16} {y = length b} (sym h.0)
      ∙ doubled_lem a t h.1 in
    let rest : be_number t < 2 ^ 120 =
      subst (λ (w : ℕ). be_number t < w) weight (be_number-lt t h.1.1) in
    let number : be_number b ≡ a * 2 ^ 120 + be_number t =
      ap (λ (w : ℕ). a * w + be_number t) weight in
    rw (shift_loop_lem b h, high_bit a h.1.0)
      (elim (Bool-cases (ltb a 128)) [
        | inl e ↦
            rw (e, lt→ltb (be_number b) (2 ^ 127) (omega (arith, number, ltb→lt a 128 e)))
              (omega (arith, ltb→lt a 128 e))
        | inr e ↦
            rw (e, le→ltb (be_number b) (2 ^ 127) (omega (arith, number, ltb→le a 128 e)))
              (xor_last 15 0x87 (doubled b) (omega arith) (length-doubled b ∙ h.0) (doubled-Bytes b)
                ∙ ap (λ (n : ℕ). bit_xor n 0x87) (omega (arith, ltb→le a 128 e, h.1.0)))
      ])

if-IsBlock : (c : Bool) (s t : List ℕ) → IsBlock s → IsBlock t → IsBlock (if c then s else t)
if-IsBlock true s t h k = h
if-IsBlock false s t h k = k

pub gf128_dbl-IsBlock : (b : List ℕ) → IsBlock b → IsBlock (gf128_dbl b)
unfolding gf128_dbl
gf128_dbl-IsBlock b h =
    let size : length (doubled b) ≡ 16 = length-doubled b ∙ h.0 in
    let bytes : Bytes (doubled b) = doubled-Bytes b in
    let low : ℕ = bit_xor (get_or (doubled b) 15 0) 0x87 in
    rw (shift_loop_lem b h) (
      if-IsBlock (bit_and (get_or b 0 0) 0x80 == 0) (doubled b) (set (doubled b) 15 low)
        (size, bytes)
        (
          length-set (doubled b) 15 low ∙ size,
          All-set (λ x. x < 256) (doubled b) 15 low bytes
              (bit_xor-lt 8 (get_or (doubled b) 15 0) 0x87 (Bytes-get_or (doubled b) 15 bytes)
                (omega arith)),
        ))

-- The bytes of a number, highest first.
abbrev pub be_bytes : ℕ → ℕ → List ℕ
be_bytes zero x = []
be_bytes (suc n) x = x / 256 ^ n ∷ be_bytes n (x % 256 ^ n)

be_bytes-be_number : (bs : List ℕ) → Bytes bs → be_bytes (length bs) (be_number bs) ≡ bs
be_bytes-be_number [] h = refl
be_bytes-be_number (b ∷ bs) h =
    let w : ℕ = 256 ^ length bs in
    let low : be_number bs < w = be_number-lt bs h.1 in
    let some_weight : 0 < w = omega (arith, low) in
    let high : (b * w + be_number bs) / w ≡ b =
      mul-add-div_right some_weight b (be_number bs)
      ∙ ap (λ (k : ℕ). b + k) (div-eq_of_lt low)
      ∙ add-zero b in
    let rest : (b * w + be_number bs) % w ≡ be_number bs =
      mul-add-mod_self_right b w (be_number bs) ∙ mod-eq_of_lt low in
    rw (high, rest, be_bytes-be_number bs h.1) refl

-- The doubling of RFC 4493, section 2.3, in GF(2¹²⁸): the block as a number is shifted by one bit, and
-- where the highest bit leaves, x⁷ + x² + x + 1, that is 0x87, is added to the rest.
abbrev pub doubled_in_field : ℕ → ℕ
doubled_in_field n = if ltb n (2 ^ 127) then 2 * n else bit_xor (2 * n - 2 ^ 128) 0x87

unfoldable pub field_double : List ℕ → List ℕ
field_double b = be_bytes 16 (doubled_in_field (be_number b))

pub gf128_dbl-field_double : (b : List ℕ) → IsBlock b → gf128_dbl b ≡ field_double b
unfolding field_double
gf128_dbl-field_double b h =
    let d = gf128_dbl-IsBlock b h in
    sym (be_bytes-be_number (gf128_dbl b) d.1)
    ∙ ap (λ (n : ℕ). be_bytes n (be_number (gf128_dbl b))) d.0
    ∙ ap (be_bytes 16) (gf128_dbl_lem b h)
