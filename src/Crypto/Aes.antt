-- ===== src/Crypto/Aes.antt =====
-- submodules/re-crypto/src/crypto/aes.hpp and aes.cpp. A block and a key are lists of sixteen
-- bytes; the round keys are the bytes of the array `round_keys`, one block behind the other.
pub mod Field
pub mod Schedule
pub mod Blocks
pub mod Inverse
pub mod Mixing
pub mod Columns
use re_pico.Base.{
  ℕ, zero, suc, ◌+◌, ◌-◌, ◌*◌, ◌/◌, ◌%◌, List, [], ◌∷◌, true, false, map, bit_xor, u8, ◌==◌,
  if◌then◌else◌, get_or, set, take, drop, length, replicate, ◌++◌,
}
use re_pico.Crypto.Aes.Field.{gf_mul, sbox, inv_sbox}

abbrev pub num_rounds : ℕ
num_rounds = 10

abbrev pub round_consts : List ℕ
round_consts = 0x01 ∷ 0x02 ∷ 0x04 ∷ 0x08 ∷ 0x10 ∷ 0x20 ∷ 0x40 ∷ 0x80 ∷ 0x1b ∷ 0x36 ∷ []

unfoldable pub add_round_key : List ℕ → List ℕ → List ℕ
add_round_key [] round_key = []
add_round_key (b ∷ state) [] = b ∷ state
add_round_key (b ∷ state) (k ∷ round_key) = bit_xor b k ∷ add_round_key state round_key

unfoldable pub sub_bytes : List ℕ → List ℕ
sub_bytes s = map (λ b. get_or sbox b 0) s

unfoldable pub inv_sub_bytes : List ℕ → List ℕ
inv_sub_bytes s = map (λ b. get_or inv_sbox b 0) s

-- `s[i] = s[j]`.
abbrev move : ℕ → ℕ → List ℕ → List ℕ
move i j s = set s i (get_or s j 0)

unfoldable pub shift_rows : List ℕ → List ℕ
shift_rows s =
    let t = get_or s 1 0 in
    let s₁ = set (move 9 13 (move 5 9 (move 1 5 s))) 13 t in
    let t = get_or s₁ 2 0 in
    let s₂ = set (move 2 10 s₁) 10 t in
    let t = get_or s₂ 6 0 in
    let s₃ = set (move 6 14 s₂) 14 t in
    let t = get_or s₃ 3 0 in set (move 11 7 (move 15 11 (move 3 15 s₃))) 7 t

unfoldable pub inv_shift_rows : List ℕ → List ℕ
inv_shift_rows s =
    let t = get_or s 13 0 in
    let s₁ = set (move 5 1 (move 9 5 (move 13 9 s))) 1 t in
    let t = get_or s₁ 2 0 in
    let s₂ = set (move 2 10 s₁) 10 t in
    let t = get_or s₂ 6 0 in
    let s₃ = set (move 6 14 s₂) 14 t in
    let t = get_or s₃ 7 0 in set (move 15 3 (move 11 15 (move 7 11 s₃))) 3 t

-- The bytes `i` to `i + 3` of a state.
abbrev set_column : List ℕ → ℕ → ℕ → ℕ → ℕ → ℕ → List ℕ
set_column s i b₀ b₁ b₂ b₃ = set (set (set (set s (i + 0) b₀) (i + 1) b₁) (i + 2) b₂) (i + 3) b₃

-- The sum of the field over the four bytes of a column.
abbrev pub sum : ℕ → ℕ → ℕ → ℕ → ℕ
sum a b c d = bit_xor (bit_xor (bit_xor a b) c) d

unfoldable pub mix_column : List ℕ → ℕ → List ℕ
mix_column s i =
    let a₀ = get_or s i 0 in
    let a₁ = get_or s (i + 1) 0 in
    let a₂ = get_or s (i + 2) 0 in
    let a₃ = get_or s (i + 3) 0 in
    set_column s i (sum (gf_mul a₀ 2) (gf_mul a₁ 3) a₂ a₃) (sum a₀ (gf_mul a₁ 2) (gf_mul a₂ 3) a₃)
      (sum a₀ a₁ (gf_mul a₂ 2) (gf_mul a₃ 3)) (sum (gf_mul a₀ 3) a₁ a₂ (gf_mul a₃ 2))

unfoldable pub inv_mix_column : List ℕ → ℕ → List ℕ
inv_mix_column s i =
    let a₀ = get_or s i 0 in
    let a₁ = get_or s (i + 1) 0 in
    let a₂ = get_or s (i + 2) 0 in
    let a₃ = get_or s (i + 3) 0 in
    set_column s i (sum (gf_mul a₀ 14) (gf_mul a₁ 11) (gf_mul a₂ 13) (gf_mul a₃ 9))
      (sum (gf_mul a₀ 9) (gf_mul a₁ 14) (gf_mul a₂ 11) (gf_mul a₃ 13))
      (sum (gf_mul a₀ 13) (gf_mul a₁ 9) (gf_mul a₂ 14) (gf_mul a₃ 11))
      (sum (gf_mul a₀ 11) (gf_mul a₁ 13) (gf_mul a₂ 9) (gf_mul a₃ 14))

unfoldable pub mix_columns : List ℕ → List ℕ
mix_columns s = mix_column (mix_column (mix_column (mix_column s 0) 4) 8) 12

unfoldable pub inv_mix_columns : List ℕ → List ℕ
inv_mix_columns s = inv_mix_column (inv_mix_column (inv_mix_column (inv_mix_column s 0) 4) 8) 12

-- Where word `wi` lies in `round_keys`.
unfoldable pub word : ℕ → ℕ
word wi = wi / 4 * 16 + wi % 4 * 4

unfoldable pub round_key : List ℕ → ℕ → List ℕ
round_key keys round = take 16 (drop (round * 16) keys)

-- What the first word of a round is added to: the word before it, turned, through the table.
unfoldable pub schedule_word : ℕ → List ℕ → List ℕ
schedule_word i t =
    if i % 4 == 0
    then u8 (bit_xor (get_or sbox (get_or t 1 0) 0) (get_or round_consts (i / 4 - 1) 0))
      ∷ get_or sbox (get_or t 2 0) 0
      ∷ get_or sbox (get_or t 3 0) 0
      ∷ get_or sbox (get_or t 0 0) 0
      ∷ []
    else t

unfoldable pub expand_loop : ℕ → ℕ → List ℕ → List ℕ
expand_loop zero i keys = keys
expand_loop (suc n) i keys =
    let t = schedule_word i (take 4 (drop (word (i - 1)) keys)) in
    let w = add_round_key (take 4 (drop (word (i - 4)) keys)) t in
    expand_loop n (i + 1) (take (word i) keys ++ (w ++ drop (word i + 4) keys))

-- The constructor: words 4 to 43.
unfoldable pub expand_key : List ℕ → List ℕ
expand_key key = expand_loop 40 4 (key ++ replicate 160 0)

unfoldable pub encrypt_rounds : List ℕ → ℕ → ℕ → List ℕ → List ℕ
encrypt_rounds keys zero round s = s
encrypt_rounds keys (suc n) round s =
    encrypt_rounds keys n (round + 1)
      (add_round_key (mix_columns (shift_rows (sub_bytes s))) (round_key keys round))

unfoldable pub encrypt_block : List ℕ → List ℕ → List ℕ
encrypt_block keys block =
    let s₀ = add_round_key block (round_key keys 0) in
    let s₁ = encrypt_rounds keys (num_rounds - 1) 1 s₀ in
    add_round_key (shift_rows (sub_bytes s₁)) (round_key keys num_rounds)

-- `for(round = num_rounds - 1; round > 0; round -= 1)`.
unfoldable pub decrypt_rounds : List ℕ → ℕ → List ℕ → List ℕ
decrypt_rounds keys zero s = s
decrypt_rounds keys (suc round) s = decrypt_rounds keys round (
    inv_mix_columns (add_round_key (inv_sub_bytes (inv_shift_rows s)) (round_key keys (suc round))))

unfoldable pub decrypt_block : List ℕ → List ℕ → List ℕ
decrypt_block keys block =
    let s₀ = add_round_key block (round_key keys num_rounds) in
    let s₁ = decrypt_rounds keys (num_rounds - 1) s₀ in
    add_round_key (inv_sub_bytes (inv_shift_rows s₁)) (round_key keys 0)
