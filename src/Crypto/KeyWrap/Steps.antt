-- ===== src/Crypto/KeyWrap/Steps.antt =====
-- One step of the key unwrapping undoes the same step of the wrapping.
use re_pico.Base.{
  ℕ, zero, suc, ◌+◌, ◌-◌, ◌*◌, ◌≤◌, ◌<◌, ◌≡◌, refl, sym, ap, ap₂, ◌∙◌, List, [], ◌∷◌, ◌++◌, take,
  drop, length, arith, bit_xor, length-append, length-take, length-drop, take-append-drop, get_or,
  set, u8, ◌>>◌,
}
use re_pico.Base.Bits.{bit_xor-lt, bit_xor_cancel}
use re_pico.Base.Bytes.{Bytes, All-take, All-drop, Bytes-append, Bytes-get_or, All-set}
use re_pico.Base.Slices.{take-append_self, drop-append_past, drop-drop}
use re_pico.Crypto.Aes.{encrypt_block, decrypt_block}
use re_pico.Crypto.Aes.Blocks.{IsBlock}
use re_pico.Crypto.Aes.Inverse.{decrypt-encrypt_lem, encrypt_block-IsBlock}
use re_pico.Crypto.KeyWrap.{
  Registers, xor_loop, xor_counter, block_at, put_block, wrap_step, unwrap_step,
}

-- A register of eight bytes, and `n` blocks.
pub record IsRegisters (n : ℕ) (s : Registers) : Type 0 where
  pub a_length : length s.a ≡ 8
  pub a_bytes : Bytes s.a
  pub r_length : length s.r ≡ n * 8
  pub r_bytes : Bytes s.r

eight {κ} :
    (P : List ℕ → Type κ)
    → ((b₀ b₁ b₂ b₃ b₄ b₅ b₆ b₇ : ℕ) → P (b₀ ∷ b₁ ∷ b₂ ∷ b₃ ∷ b₄ ∷ b₅ ∷ b₆ ∷ b₇ ∷ []))
    → (s : List ℕ) → length s ≡ 8
    → P s
eight P f (b₀ ∷ b₁ ∷ b₂ ∷ b₃ ∷ b₄ ∷ b₅ ∷ b₆ ∷ b₇ ∷ []) h = f b₀ b₁ b₂ b₃ b₄ b₅ b₆ b₇
eight P f (b₀ ∷ b₁ ∷ b₂ ∷ b₃ ∷ b₄ ∷ b₅ ∷ b₆ ∷ b₇ ∷ b₈ ∷ s) h = absurd (omega arith)
eight P f (b₀ ∷ b₁ ∷ b₂ ∷ b₃ ∷ b₄ ∷ b₅ ∷ b₆ ∷ []) h = absurd (omega arith)
eight P f (b₀ ∷ b₁ ∷ b₂ ∷ b₃ ∷ b₄ ∷ b₅ ∷ []) h = absurd (omega arith)
eight P f (b₀ ∷ b₁ ∷ b₂ ∷ b₃ ∷ b₄ ∷ []) h = absurd (omega arith)
eight P f (b₀ ∷ b₁ ∷ b₂ ∷ b₃ ∷ []) h = absurd (omega arith)
eight P f (b₀ ∷ b₁ ∷ b₂ ∷ []) h = absurd (omega arith)
eight P f (b₀ ∷ b₁ ∷ []) h = absurd (omega arith)
eight P f (b₀ ∷ []) h = absurd (omega arith)
eight P f [] h = absurd (omega arith)

pub xor_counter-cancel : (a : List ℕ) (t : ℕ) → length a ≡ 8 → xor_counter (xor_counter a t) t ≡ a
unfolding xor_counter xor_loop
xor_counter-cancel a t =
    eight (λ a. xor_counter (xor_counter a t) t ≡ a)
      (λ b₀ b₁ b₂ b₃ b₄ b₅ b₆ b₇. simp bit_xor_cancel refl) a

xor_counter-length : (a : List ℕ) (t : ℕ) → length a ≡ 8 → length (xor_counter a t) ≡ 8
unfolding xor_counter xor_loop
xor_counter-length a t =
    eight (λ a. length (xor_counter a t) ≡ 8) (λ b₀ b₁ b₂ b₃ b₄ b₅ b₆ b₇. refl) a

xor_loop-Bytes : (n i t : ℕ) (a : List ℕ) → Bytes a → Bytes (xor_loop n i t a)
unfolding xor_loop
xor_loop-Bytes zero i t a h = h
xor_loop-Bytes (suc n) i t a h =
    xor_loop-Bytes n (i + 1) t (set a (7 - i) (bit_xor (get_or a (7 - i) 0) (u8 (t >> (i * 8))))) (
      All-set (λ b. b < 256) a (7 - i) (bit_xor (get_or a (7 - i) 0) (u8 (t >> (i * 8)))) h
        (bit_xor-lt 8 (get_or a (7 - i) 0) (u8 (t >> (i * 8))) (Bytes-get_or a (7 - i) h)
          (omega arith)))

-- A block that was put is found at its place, and the old one can be put back.
block_at-put_block :
    (i : ℕ) (b r : List ℕ) → length b ≡ 8 → i * 8 + 8 ≤ length r → block_at i (put_block i b r) ≡ b
unfolding block_at put_block
block_at-put_block i b r hb h =
    ap (take 8) (
      drop-append_past (i * 8) 0 (take (i * 8) r) (b ++ drop (i * 8 + 8) r)
        (omega (arith, length-take (i * 8) r)))
    ∙ take-append_self 8 b (drop (i * 8 + 8) r) hb

put_block-put_block :
    (i : ℕ) (b r : List ℕ)
    → length b ≡ 8
    → i * 8 + 8 ≤ length r
    → put_block i (block_at i r) (put_block i b r) ≡ r
unfolding block_at put_block
put_block-put_block i b r hb h =
    let front = take (i * 8) r in
    let rest = drop (i * 8 + 8) r in
    let hf : length front ≡ i * 8 = omega (arith, length-take (i * 8) r) in
    ap₂ (λ (x y : List ℕ). x ++ (take 8 (drop (i * 8) r) ++ y))
      (take-append_self (i * 8) front (b ++ rest) hf)
      (drop-append_past (i * 8 + 8) 8 front (b ++ rest) (omega arith)
        ∙ drop-append_past 8 0 b rest (omega arith))
    ∙ ap (λ (y : List ℕ). front ++ (take 8 (drop (i * 8) r) ++ y))
        (sym (drop-drop (i * 8) 8 (i * 8 + 8) r refl))
    ∙ ap (λ (y : List ℕ). front ++ y) (take-append-drop 8 (drop (i * 8) r))
    ∙ take-append-drop (i * 8) r

put_block-length :
    (i : ℕ) (b r : List ℕ)
    → length b ≡ 8
    → i * 8 + 8 ≤ length r
    → length (put_block i b r) ≡ length r
unfolding put_block
put_block-length i b r hb h = omega (
  arith,
  length-append (take (i * 8) r) (b ++ drop (i * 8 + 8) r),
  length-append b (drop (i * 8 + 8) r),
  length-take (i * 8) r,
  length-drop (i * 8 + 8) r,
)

put_block-Bytes : (i : ℕ) (b r : List ℕ) → Bytes b → Bytes r → Bytes (put_block i b r)
unfolding put_block
put_block-Bytes i b r hb h =
    Bytes-append (take (i * 8) r) (b ++ drop (i * 8 + 8) r) (All-take (λ b. b < 256) (i * 8) r h)
      (Bytes-append b (drop (i * 8 + 8) r) hb (All-drop (λ b. b < 256) (i * 8 + 8) r h))

abbrev pub registers : List ℕ → List ℕ → Registers
registers x y = record { a = x; r = y }

module _ (kek : List ℕ) (hk : Bytes kek) (n t i : ℕ) (s : Registers) (h : IsRegisters n s)
    (hi : i < n) where
  plain : List ℕ
  plain = s.a ++ block_at i s.r

  cipher : List ℕ
  cipher = encrypt_block kek plain

  inside : i * 8 + 8 ≤ length s.r
  inside = omega (arith, h.r_length)

  block_at-length : length (block_at i s.r) ≡ 8
  unfolding block_at
  block_at-length = omega (arith, inside, length-take 8 (drop (i * 8) s.r), length-drop (i * 8) s.r)

  plain-IsBlock : IsBlock plain
  unfolding plain block_at
  plain-IsBlock = (
    omega (arith, length-append s.a (block_at i s.r), block_at-length, h.a_length),
    Bytes-append s.a (block_at i s.r) h.a_bytes (
        All-take (λ b. b < 256) 8 (drop (i * 8) s.r)
          (All-drop (λ b. b < 256) (i * 8) s.r h.r_bytes)),
  )

  cipher-IsBlock : IsBlock cipher
  unfolding cipher
  cipher-IsBlock = encrypt_block-IsBlock kek hk plain plain-IsBlock

  low-length : length (take 8 cipher) ≡ 8
  low-length = omega (arith, cipher-IsBlock.0, length-take 8 cipher)

  high-length : length (drop 8 cipher) ≡ 8
  high-length = omega (arith, cipher-IsBlock.0, length-drop 8 cipher)

  pub wrap_step-IsRegisters : IsRegisters n (wrap_step kek t i s)
  unfolding wrap_step xor_counter cipher plain
  wrap_step-IsRegisters = record {
    a_length = xor_counter-length (take 8 cipher) t low-length;
    a_bytes =
        xor_loop-Bytes 8 0 t (take 8 cipher) (All-take (λ b. b < 256) 8 cipher cipher-IsBlock.1);
    r_length = put_block-length i (drop 8 cipher) s.r high-length inside ∙ h.r_length;
    r_bytes =
        put_block-Bytes i (drop 8 cipher) s.r (All-drop (λ b. b < 256) 8 cipher cipher-IsBlock.1)
          h.r_bytes;
  }

  pub unwrap_step-wrap_step : unwrap_step kek t i (wrap_step kek t i s) ≡ s
  unfolding wrap_step unwrap_step cipher plain
  unwrap_step-wrap_step =
      let e : decrypt_block kek (
            xor_counter (xor_counter (take 8 cipher) t) t
            ++ block_at i (put_block i (drop 8 cipher) s.r))
          ≡ plain =
        ap₂ (λ (x y : List ℕ). decrypt_block kek (x ++ y))
          (xor_counter-cancel (take 8 cipher) t low-length)
          (block_at-put_block i (drop 8 cipher) s.r high-length inside)
        ∙ ap (decrypt_block kek) (take-append-drop 8 cipher)
        ∙ decrypt-encrypt_lem kek hk plain plain-IsBlock in
      let r' = put_block i (drop 8 cipher) s.r in
      ap (λ (b : List ℕ). registers (take 8 b) (put_block i (drop 8 b) r')) e
      ∙ ap₂ (λ (x y : List ℕ). registers x y) (take-append_self 8 s.a (block_at i s.r) h.a_length)
          (ap (λ (b : List ℕ). put_block i b r')
              (drop-append_past 8 0 s.a (block_at i s.r) (omega (arith, h.a_length)))
            ∙ put_block-put_block i (drop 8 cipher) s.r high-length inside)
