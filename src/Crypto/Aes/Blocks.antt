-- ===== src/Crypto/Aes/Blocks.antt =====
-- The steps of a round on a block of sixteen bytes, and their inverses.
use re_pico.Base.{ℕ, suc, ◌+◌, ◌<◌, ◌≡◌, refl, ap, ap₂, List, [], ◌∷◌, bit_xor, length, arith}
use re_pico.Base.Bytes.{Bytes}
use re_pico.Base.Bits.{bit_xor-lt, bit_xor_cancel}
use re_pico.Crypto.Aes.Field.{gf_mul}
use re_pico.Crypto.Aes.Field.Linear.{gf_mul-lt, sbox_lem}
use re_pico.Crypto.Aes.Columns.{unmix_1, unmix_2, unmix_3, unmix_4}
use re_pico.Crypto.Aes.{
  add_round_key, sub_bytes, inv_sub_bytes, shift_rows, inv_shift_rows, sum, mix_column,
  inv_mix_column, mix_columns, inv_mix_columns,
}

-- A block of sixteen bytes.
abbrev pub IsBlock : List ℕ → Type 0
IsBlock s = (length s ≡ 16) × Bytes s

-- Every block is written out as its bytes.
pub four {κ} :
    (P : List ℕ → Type κ) (n : ℕ)
    → ((a b c d : ℕ) (t : List ℕ)
        → length t ≡ n
        → Bytes (a ∷ b ∷ c ∷ d ∷ t)
        → P (a ∷ b ∷ c ∷ d ∷ t))
    → (s : List ℕ) → length s ≡ n + 4
    → Bytes s
    → P s
four P n f (a ∷ b ∷ c ∷ d ∷ t) h k = f a b c d t (omega arith) k
four P n f (a ∷ b ∷ c ∷ []) h k = absurd (omega arith)
four P n f (a ∷ b ∷ []) h k = absurd (omega arith)
four P n f (a ∷ []) h k = absurd (omega arith)
four P n f [] h k = absurd (omega arith)

pub none_left {κ} : (P : List ℕ → Type κ) → P [] → (t : List ℕ) → length t ≡ 0 → P t
none_left P p [] h = p
none_left P p (x ∷ t) h = absurd (omega arith)

pub add_round_key-length : (s k : List ℕ) → length (add_round_key s k) ≡ length s
unfolding add_round_key
add_round_key-length [] k = refl
add_round_key-length (b ∷ s) [] = refl
add_round_key-length (b ∷ s) (c ∷ k) = ap suc (add_round_key-length s k)

pub add_round_key-Bytes : (s k : List ℕ) → Bytes s → Bytes k → Bytes (add_round_key s k)
unfolding add_round_key
add_round_key-Bytes [] k h h' = tt
add_round_key-Bytes (b ∷ s) [] h h' = h
add_round_key-Bytes (b ∷ s) (c ∷ k) h h' =
    (bit_xor-lt 8 b c h.0 h'.0, add_round_key-Bytes s k h.1 h'.1)

pub add_round_key-cancel : (s k : List ℕ) → add_round_key (add_round_key s k) k ≡ s
unfolding add_round_key
add_round_key-cancel [] k = refl
add_round_key-cancel (b ∷ s) [] = refl
add_round_key-cancel (b ∷ s) (c ∷ k) = ap₂ ◌∷◌ (bit_xor_cancel b c) (add_round_key-cancel s k)

pub sub_bytes-cancel : (s : List ℕ) → Bytes s → inv_sub_bytes (sub_bytes s) ≡ s
unfolding sub_bytes inv_sub_bytes
sub_bytes-cancel [] h = refl
sub_bytes-cancel (b ∷ s) h = ap₂ ◌∷◌ (sbox_lem b h.0).1 (sub_bytes-cancel s h.1)

pub sub_bytes-Bytes : (s : List ℕ) → Bytes s → Bytes (sub_bytes s)
unfolding sub_bytes
sub_bytes-Bytes [] h = tt
sub_bytes-Bytes (b ∷ s) h = ((sbox_lem b h.0).0, sub_bytes-Bytes s h.1)

pub sub_bytes-length : (s : List ℕ) → length (sub_bytes s) ≡ length s
unfolding sub_bytes
sub_bytes-length [] = refl
sub_bytes-length (b ∷ s) = ap suc (sub_bytes-length s)

-- Four bytes behind each other.
pub column {ℓ} :
    {A : Type ℓ} {x y z w a b c d : A} {t t' : List A}
    → x ≡ a
    → y ≡ b
    → z ≡ c
    → w ≡ d
    → t ≡ t'
    → (x ∷ y ∷ z ∷ w ∷ t) ≡ (a ∷ b ∷ c ∷ d ∷ t')
column ha hb hc hd ht = ap₂ ◌∷◌ ha (ap₂ ◌∷◌ hb (ap₂ ◌∷◌ hc (ap₂ ◌∷◌ hd ht)))

pub at_bytes {κ} :
    (P : List ℕ → Type κ)
    → ((a₀ b₀ c₀ d₀ a₁ b₁ c₁ d₁ a₂ b₂ c₂ d₂ a₃ b₃ c₃ d₃ : ℕ)
        → Bytes (a₀ ∷ b₀ ∷ c₀ ∷ d₀ ∷ a₁ ∷ b₁ ∷ c₁ ∷ d₁ ∷ a₂ ∷ b₂ ∷ c₂ ∷ d₂ ∷ a₃ ∷ b₃ ∷ c₃ ∷ d₃ ∷ [])
        → P (a₀ ∷ b₀ ∷ c₀ ∷ d₀ ∷ a₁ ∷ b₁ ∷ c₁ ∷ d₁ ∷ a₂ ∷ b₂ ∷ c₂ ∷ d₂ ∷ a₃ ∷ b₃ ∷ c₃ ∷ d₃ ∷ []))
    → (s : List ℕ) → length s ≡ 16
    → Bytes s
    → P s
at_bytes P f = four P 12 (λ a₀ b₀ c₀ d₀ t₀ e₀ k₀.
    four (λ t. Bytes (a₀ ∷ b₀ ∷ c₀ ∷ d₀ ∷ t) → P (a₀ ∷ b₀ ∷ c₀ ∷ d₀ ∷ t)) 8
      (λ a₁ b₁ c₁ d₁ t₁ e₁ k₁ k.
        four
          (λ t.
            Bytes (a₀ ∷ b₀ ∷ c₀ ∷ d₀ ∷ a₁ ∷ b₁ ∷ c₁ ∷ d₁ ∷ t)
            → P (a₀ ∷ b₀ ∷ c₀ ∷ d₀ ∷ a₁ ∷ b₁ ∷ c₁ ∷ d₁ ∷ t))
          4
          (λ a₂ b₂ c₂ d₂ t₂ e₂ k₂ k.
            four
              (λ t.
                Bytes (a₀ ∷ b₀ ∷ c₀ ∷ d₀ ∷ a₁ ∷ b₁ ∷ c₁ ∷ d₁ ∷ a₂ ∷ b₂ ∷ c₂ ∷ d₂ ∷ t)
                → P (a₀ ∷ b₀ ∷ c₀ ∷ d₀ ∷ a₁ ∷ b₁ ∷ c₁ ∷ d₁ ∷ a₂ ∷ b₂ ∷ c₂ ∷ d₂ ∷ t))
              0
              (λ a₃ b₃ c₃ d₃ t₃ e₃ k₃ k.
                none_left
                  (λ t.
                    Bytes (
                      a₀ ∷ b₀ ∷ c₀ ∷ d₀ ∷ a₁ ∷ b₁ ∷ c₁ ∷ d₁ ∷ a₂ ∷ b₂ ∷ c₂ ∷ d₂ ∷ a₃ ∷ b₃ ∷ c₃ ∷ d₃
                      ∷ t)
                    → P (
                        a₀ ∷ b₀ ∷ c₀ ∷ d₀ ∷ a₁ ∷ b₁ ∷ c₁ ∷ d₁ ∷ a₂ ∷ b₂ ∷ c₂ ∷ d₂ ∷ a₃ ∷ b₃ ∷ c₃
                        ∷ d₃ ∷ t))
                  (f a₀ b₀ c₀ d₀ a₁ b₁ c₁ d₁ a₂ b₂ c₂ d₂ a₃ b₃ c₃ d₃) t₃ e₃ k)
              t₂ e₂ k₂.1.1.1.1 k)
          t₁ e₁ k₁.1.1.1.1 k)
      t₀ e₀ k₀.1.1.1.1 k₀)

pub mix_columns-cancel :
    (s : List ℕ) → length s ≡ 16 → Bytes s → inv_mix_columns (mix_columns s) ≡ s
unfolding mix_columns mix_column inv_mix_columns inv_mix_column
mix_columns-cancel =
    at_bytes (λ s. inv_mix_columns (mix_columns s) ≡ s)
      (λ a₀ b₀ c₀ d₀ a₁ b₁ c₁ d₁ a₂ b₂ c₂ d₂ a₃ b₃ c₃ d₃ h.
        column (unmix_1 a₀ b₀ c₀ d₀ h.0 h.1.0 h.1.1.0 h.1.1.1.0)
          (unmix_2 a₀ b₀ c₀ d₀ h.0 h.1.0 h.1.1.0 h.1.1.1.0)
          (unmix_3 a₀ b₀ c₀ d₀ h.0 h.1.0 h.1.1.0 h.1.1.1.0)
          (unmix_4 a₀ b₀ c₀ d₀ h.0 h.1.0 h.1.1.0 h.1.1.1.0)
          (column (unmix_1 a₁ b₁ c₁ d₁ h.1.1.1.1.0 h.1.1.1.1.1.0 h.1.1.1.1.1.1.0 h.1.1.1.1.1.1.1.0)
            (unmix_2 a₁ b₁ c₁ d₁ h.1.1.1.1.0 h.1.1.1.1.1.0 h.1.1.1.1.1.1.0 h.1.1.1.1.1.1.1.0)
            (unmix_3 a₁ b₁ c₁ d₁ h.1.1.1.1.0 h.1.1.1.1.1.0 h.1.1.1.1.1.1.0 h.1.1.1.1.1.1.1.0)
            (unmix_4 a₁ b₁ c₁ d₁ h.1.1.1.1.0 h.1.1.1.1.1.0 h.1.1.1.1.1.1.0 h.1.1.1.1.1.1.1.0)
            (column
              (unmix_1 a₂ b₂ c₂ d₂ h.1.1.1.1.1.1.1.1.0 h.1.1.1.1.1.1.1.1.1.0 h.1.1.1.1.1.1.1.1.1.1.0
                h.1.1.1.1.1.1.1.1.1.1.1.0)
              (unmix_2 a₂ b₂ c₂ d₂ h.1.1.1.1.1.1.1.1.0 h.1.1.1.1.1.1.1.1.1.0 h.1.1.1.1.1.1.1.1.1.1.0
                h.1.1.1.1.1.1.1.1.1.1.1.0)
              (unmix_3 a₂ b₂ c₂ d₂ h.1.1.1.1.1.1.1.1.0 h.1.1.1.1.1.1.1.1.1.0 h.1.1.1.1.1.1.1.1.1.1.0
                h.1.1.1.1.1.1.1.1.1.1.1.0)
              (unmix_4 a₂ b₂ c₂ d₂ h.1.1.1.1.1.1.1.1.0 h.1.1.1.1.1.1.1.1.1.0 h.1.1.1.1.1.1.1.1.1.1.0
                h.1.1.1.1.1.1.1.1.1.1.1.0)
              (column
                (unmix_1 a₃ b₃ c₃ d₃ h.1.1.1.1.1.1.1.1.1.1.1.1.0 h.1.1.1.1.1.1.1.1.1.1.1.1.1.0
                  h.1.1.1.1.1.1.1.1.1.1.1.1.1.1.0 h.1.1.1.1.1.1.1.1.1.1.1.1.1.1.1.0)
                (unmix_2 a₃ b₃ c₃ d₃ h.1.1.1.1.1.1.1.1.1.1.1.1.0 h.1.1.1.1.1.1.1.1.1.1.1.1.1.0
                  h.1.1.1.1.1.1.1.1.1.1.1.1.1.1.0 h.1.1.1.1.1.1.1.1.1.1.1.1.1.1.1.0)
                (unmix_3 a₃ b₃ c₃ d₃ h.1.1.1.1.1.1.1.1.1.1.1.1.0 h.1.1.1.1.1.1.1.1.1.1.1.1.1.0
                  h.1.1.1.1.1.1.1.1.1.1.1.1.1.1.0 h.1.1.1.1.1.1.1.1.1.1.1.1.1.1.1.0)
                (unmix_4 a₃ b₃ c₃ d₃ h.1.1.1.1.1.1.1.1.1.1.1.1.0 h.1.1.1.1.1.1.1.1.1.1.1.1.1.0
                  h.1.1.1.1.1.1.1.1.1.1.1.1.1.1.0 h.1.1.1.1.1.1.1.1.1.1.1.1.1.1.1.0)
                (refl)))))

pub shift_rows-cancel : (s : List ℕ) → length s ≡ 16 → Bytes s → inv_shift_rows (shift_rows s) ≡ s
unfolding shift_rows inv_shift_rows
shift_rows-cancel =
    at_bytes (λ s. inv_shift_rows (shift_rows s) ≡ s)
      (λ a₀ b₀ c₀ d₀ a₁ b₁ c₁ d₁ a₂ b₂ c₂ d₂ a₃ b₃ c₃ d₃ h. refl)

pub shift_rows-IsBlock : (s : List ℕ) → length s ≡ 16 → Bytes s → IsBlock (shift_rows s)
unfolding shift_rows
shift_rows-IsBlock =
    at_bytes (λ s. IsBlock (shift_rows s))
      (λ a₀ b₀ c₀ d₀ a₁ b₁ c₁ d₁ a₂ b₂ c₂ d₂ a₃ b₃ c₃ d₃ h. (
        refl,
        (
          h.0,
          (
            h.1.1.1.1.1.0,
            (
              h.1.1.1.1.1.1.1.1.1.1.0,
              (
                h.1.1.1.1.1.1.1.1.1.1.1.1.1.1.1.0,
                (
                  h.1.1.1.1.0,
                  (
                    h.1.1.1.1.1.1.1.1.1.0,
                    (
                      h.1.1.1.1.1.1.1.1.1.1.1.1.1.1.0,
                      (
                        h.1.1.1.0,
                        (
                          h.1.1.1.1.1.1.1.1.0,
                          (
                            h.1.1.1.1.1.1.1.1.1.1.1.1.1.0,
                            (
                              h.1.1.0,
                              (
                                h.1.1.1.1.1.1.1.0,
                                (
                                  h.1.1.1.1.1.1.1.1.1.1.1.1.0,
                                  (h.1.0, (h.1.1.1.1.1.1.0, (h.1.1.1.1.1.1.1.1.1.1.1.0, tt))),
                                ),
                              ),
                            ),
                          ),
                        ),
                      ),
                    ),
                  ),
                ),
              ),
            ),
          ),
        ),
      ))

pub sum-lt : (a b c d : ℕ) → a < 256 → b < 256 → c < 256 → d < 256 → sum a b c d < 256
sum-lt a b c d ha hb hc hd =
    bit_xor-lt 8 (bit_xor (bit_xor a b) c) d
      (bit_xor-lt 8 (bit_xor a b) c (bit_xor-lt 8 a b ha hb) hc) hd

pub mixed-lt {κ} :
    {T : Type κ} (a b c d : ℕ)
    → a < 256
    → b < 256
    → c < 256
    → d < 256
    → T
    → (sum (gf_mul a 2) (gf_mul b 3) c d < 256)
      × ((sum a (gf_mul b 2) (gf_mul c 3) d < 256)
          × ((sum a b (gf_mul c 2) (gf_mul d 3) < 256)
              × ((sum (gf_mul a 3) b c (gf_mul d 2) < 256) × T)))
mixed-lt a b c d ha hb hc hd ht = (
  sum-lt (gf_mul a 2) (gf_mul b 3) c d (gf_mul-lt a 2 ha) (gf_mul-lt b 3 hb) hc hd,
  (
    sum-lt a (gf_mul b 2) (gf_mul c 3) d ha (gf_mul-lt b 2 hb) (gf_mul-lt c 3 hc) hd,
    (
      sum-lt a b (gf_mul c 2) (gf_mul d 3) ha hb (gf_mul-lt c 2 hc) (gf_mul-lt d 3 hd),
      (sum-lt (gf_mul a 3) b c (gf_mul d 2) (gf_mul-lt a 3 ha) hb hc (gf_mul-lt d 2 hd), ht),
    ),
  ),
)

pub mix_columns-IsBlock : (s : List ℕ) → length s ≡ 16 → Bytes s → IsBlock (mix_columns s)
unfolding mix_columns mix_column
mix_columns-IsBlock =
    at_bytes (λ s. IsBlock (mix_columns s))
      (λ a₀ b₀ c₀ d₀ a₁ b₁ c₁ d₁ a₂ b₂ c₂ d₂ a₃ b₃ c₃ d₃ h. (
        refl,
        mixed-lt a₀ b₀ c₀ d₀ h.0 h.1.0 h.1.1.0 h.1.1.1.0 (
            mixed-lt a₁ b₁ c₁ d₁ h.1.1.1.1.0 h.1.1.1.1.1.0 h.1.1.1.1.1.1.0 h.1.1.1.1.1.1.1.0 (
              mixed-lt a₂ b₂ c₂ d₂ h.1.1.1.1.1.1.1.1.0 h.1.1.1.1.1.1.1.1.1.0 h.1.1.1.1.1.1.1.1.1.1.0
                h.1.1.1.1.1.1.1.1.1.1.1.0
                (mixed-lt a₃ b₃ c₃ d₃ h.1.1.1.1.1.1.1.1.1.1.1.1.0 h.1.1.1.1.1.1.1.1.1.1.1.1.1.0
                  h.1.1.1.1.1.1.1.1.1.1.1.1.1.1.0 h.1.1.1.1.1.1.1.1.1.1.1.1.1.1.1.0 tt))),
      ))
