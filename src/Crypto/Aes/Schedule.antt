-- ===== src/Crypto/Aes/Schedule.antt =====
-- The key schedule yields bytes, so with the keys of any one key a block survives both ways.
use re_pico.Base.{
  ℕ, zero, suc, ◌+◌, ◌-◌, ◌%◌, ◌<◌, ◌≡◌, List, ◌++◌, ◌==◌, get_or, take, drop, replicate, arith,
  inl, inr, Bool-cases,
}
use re_pico.Base.Bytes.{Bytes, All-take, All-drop, All-replicate, Bytes-append, Bytes-get_or}
use re_pico.Crypto.Aes.Field.Linear.{sbox_lem}
use re_pico.Crypto.Aes.{
  add_round_key, word, schedule_word, expand_loop, expand_key, encrypt_block, decrypt_block,
}
use re_pico.Crypto.Aes.Blocks.{IsBlock, add_round_key-Bytes}
use re_pico.Crypto.Aes.Inverse.{decrypt-encrypt_lem}

schedule_word-Bytes : (i : ℕ) (t : List ℕ) → Bytes t → Bytes (schedule_word i t)
unfolding schedule_word
schedule_word-Bytes i t h = elim (Bool-cases (i % 4 == 0)) [
  | inl e ↦ rw e (
    omega arith,
    (
      (sbox_lem (get_or t 2 0) (Bytes-get_or t 2 h)).0,
      (
        (sbox_lem (get_or t 3 0) (Bytes-get_or t 3 h)).0,
        ((sbox_lem (get_or t 0 0) (Bytes-get_or t 0 h)).0, tt),
      ),
    ),
  )
  | inr e ↦ rw e h
]

expand_loop-Bytes : (n i : ℕ) (keys : List ℕ) → Bytes keys → Bytes (expand_loop n i keys)
unfolding expand_loop
expand_loop-Bytes zero i keys h = h
expand_loop-Bytes (suc n) i keys h =
    let piece = λ (k : ℕ) (m : ℕ).
      All-take (λ b. b < 256) k (drop m keys) (All-drop (λ b. b < 256) m keys h) in
    let t = schedule_word i (take 4 (drop (word (i - 1)) keys)) in
    let ht = schedule_word-Bytes i (take 4 (drop (word (i - 1)) keys)) (piece 4 (word (i - 1))) in
    let w = add_round_key (take 4 (drop (word (i - 4)) keys)) t in
    let hw =
      add_round_key-Bytes (take 4 (drop (word (i - 4)) keys)) t (piece 4 (word (i - 4))) ht in
    expand_loop-Bytes n (i + 1) (take (word i) keys ++ (w ++ drop (word i + 4) keys)) (
      Bytes-append (take (word i) keys) (w ++ drop (word i + 4) keys)
        (All-take (λ b. b < 256) (word i) keys h)
        (Bytes-append w (drop (word i + 4) keys) hw (All-drop (λ b. b < 256) (word i + 4) keys h)))

pub expand_key-Bytes : (key : List ℕ) → Bytes key → Bytes (expand_key key)
unfolding expand_key
expand_key-Bytes key h =
    expand_loop-Bytes 40 4 (key ++ replicate 160 0)
      (Bytes-append key (replicate 160 0) h (All-replicate (λ b. b < 256) 160 0 (omega arith)))

-- Decryption with a key's schedule undoes encryption with it, for every key of bytes and every
-- block of sixteen bytes.
pub decrypt_block-encrypt_block :
    (key block : List ℕ)
    → Bytes key
    → IsBlock block
    → decrypt_block (expand_key key) (encrypt_block (expand_key key) block) ≡ block
decrypt_block-encrypt_block key block hk h =
    decrypt-encrypt_lem (expand_key key) (expand_key-Bytes key hk) block h
