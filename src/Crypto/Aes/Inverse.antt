-- ===== src/Crypto/Aes/Inverse.antt =====
-- `decrypt_block` undoes `encrypt_block`: each step of a round has its inverse.
use re_pico.Base.{ℕ, zero, suc, ◌+◌, ◌<◌, ◌*◌, ◌≡◌, refl, ap, ◌∙◌, List, drop, arith}
use re_pico.Base.Bytes.{Bytes, All-drop, All-take}
use re_pico.Crypto.Aes.{
  add_round_key, sub_bytes, inv_sub_bytes, shift_rows, inv_shift_rows, mix_columns, inv_mix_columns,
  round_key, encrypt_rounds, encrypt_block, decrypt_rounds, decrypt_block,
}
use re_pico.Crypto.Aes.Blocks.{
  IsBlock, add_round_key-length, add_round_key-Bytes, add_round_key-cancel, sub_bytes-cancel,
  sub_bytes-Bytes, sub_bytes-length, mix_columns-cancel, shift_rows-cancel, shift_rows-IsBlock,
  mix_columns-IsBlock,
}

-- What a round does up to the key.
stirred-IsBlock : (s : List ℕ) → IsBlock s → IsBlock (shift_rows (sub_bytes s))
stirred-IsBlock s h =
    shift_rows-IsBlock (sub_bytes s) (sub_bytes-length s ∙ h.0) (sub_bytes-Bytes s h.1)

stirred-cancel :
    (s : List ℕ) → IsBlock s → inv_sub_bytes (inv_shift_rows (shift_rows (sub_bytes s))) ≡ s
stirred-cancel s h =
    ap inv_sub_bytes
      (shift_rows-cancel (sub_bytes s) (sub_bytes-length s ∙ h.0) (sub_bytes-Bytes s h.1))
    ∙ sub_bytes-cancel s h.1

pub add_round_key-IsBlock : (s k : List ℕ) → IsBlock s → Bytes k → IsBlock (add_round_key s k)
add_round_key-IsBlock s k h hk = (add_round_key-length s k ∙ h.0, add_round_key-Bytes s k h.1 hk)

round_key-Bytes : (keys : List ℕ) (r : ℕ) → Bytes keys → Bytes (round_key keys r)
unfolding round_key
round_key-Bytes keys r h =
    All-take (λ b. b < 256) 16 (drop (r * 16) keys) (All-drop (λ b. b < 256) (r * 16) keys h)

-- One round more.
one_round : List ℕ → ℕ → List ℕ → List ℕ
one_round keys r s = add_round_key (mix_columns (shift_rows (sub_bytes s))) (round_key keys r)

encrypt_rounds-last :
    (keys : List ℕ) (n r l : ℕ) (s : List ℕ)
    → r + n ≡ l
    → encrypt_rounds keys (suc n) r s ≡ one_round keys l (encrypt_rounds keys n r s)
unfolding encrypt_rounds one_round
encrypt_rounds-last keys zero r l s e =
    ap (λ (k : ℕ). one_round keys k s) {x = r} {y = l} (omega arith)
encrypt_rounds-last keys (suc n) r l s e =
    encrypt_rounds-last keys n (r + 1) l (one_round keys r s) (omega arith)

module _ (keys : List ℕ) (hk : Bytes keys) where
  encrypt_rounds-IsBlock : (n r : ℕ) (s : List ℕ) → IsBlock s → IsBlock (encrypt_rounds keys n r s)
  unfolding encrypt_rounds one_round
  encrypt_rounds-IsBlock zero r s h = h
  encrypt_rounds-IsBlock (suc n) r s h =
      let t = stirred-IsBlock s h in
      let m = mix_columns-IsBlock (shift_rows (sub_bytes s)) t.0 t.1 in
      encrypt_rounds-IsBlock n (r + 1) (one_round keys r s) (
        add_round_key-IsBlock (mix_columns (shift_rows (sub_bytes s))) (round_key keys r) m
          (round_key-Bytes keys r hk))

  decrypt_rounds_lem :
      (n : ℕ) (s : List ℕ)
      → IsBlock s
      → decrypt_rounds keys n (shift_rows (sub_bytes (encrypt_rounds keys n 1 s)))
        ≡ shift_rows (sub_bytes s)
  unfolding decrypt_rounds encrypt_rounds one_round
  decrypt_rounds_lem zero s h = refl
  decrypt_rounds_lem (suc n) s h =
      let t = encrypt_rounds keys n 1 s in
      let ht = encrypt_rounds-IsBlock n 1 s h in
      let hs = stirred-IsBlock t ht in
      let m = shift_rows (sub_bytes t) in
      let k = round_key keys (suc n) in
      let back = stirred-cancel (one_round keys (suc n) t) (
        add_round_key-IsBlock (mix_columns m) k (mix_columns-IsBlock m hs.0 hs.1)
          (round_key-Bytes keys (suc n) hk)) in
      ap
        (λ (b : List ℕ). decrypt_rounds keys n (
          inv_mix_columns
            (add_round_key (inv_sub_bytes (inv_shift_rows (shift_rows (sub_bytes b)))) k)))
        (encrypt_rounds-last keys n 1 (suc n) s (omega arith))
      ∙ ap (λ (b : List ℕ). decrypt_rounds keys n (inv_mix_columns (add_round_key b k))) back
      ∙ ap (λ (b : List ℕ). decrypt_rounds keys n (inv_mix_columns b))
          (add_round_key-cancel (mix_columns m) k)
      ∙ ap (decrypt_rounds keys n) (mix_columns-cancel m hs.0 hs.1)
      ∙ decrypt_rounds_lem n s h

  pub decrypt-encrypt_lem :
      (block : List ℕ) → IsBlock block → decrypt_block keys (encrypt_block keys block) ≡ block
  unfolding encrypt_block decrypt_block
  decrypt-encrypt_lem block h =
      let s = add_round_key block (round_key keys 0) in
      let hs = add_round_key-IsBlock block (round_key keys 0) h (round_key-Bytes keys 0 hk) in
      let t = shift_rows (sub_bytes (encrypt_rounds keys 9 1 s)) in
      let finish =
        λ (b : List ℕ). add_round_key (inv_sub_bytes (inv_shift_rows b)) (round_key keys 0) in
      ap (λ (b : List ℕ). finish (decrypt_rounds keys 9 b))
        (add_round_key-cancel t (round_key keys 10))
      ∙ ap finish (decrypt_rounds_lem 9 s hs)
      ∙ ap (λ (b : List ℕ). add_round_key b (round_key keys 0)) (stirred-cancel s hs)
      ∙ add_round_key-cancel block (round_key keys 0)

  pub encrypt_block-IsBlock : (block : List ℕ) → IsBlock block → IsBlock (encrypt_block keys block)
  unfolding encrypt_block
  encrypt_block-IsBlock block h =
      let s = add_round_key block (round_key keys 0) in
      let hs = add_round_key-IsBlock block (round_key keys 0) h (round_key-Bytes keys 0 hk) in
      let t = encrypt_rounds keys 9 1 s in
      add_round_key-IsBlock (shift_rows (sub_bytes t)) (round_key keys 10)
        (stirred-IsBlock t (encrypt_rounds-IsBlock 9 1 s hs)) (round_key-Bytes keys 10 hk)
