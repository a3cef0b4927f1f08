-- ===== src/Crypto/KeyWrap.antt =====
-- submodules/re-crypto/src/crypto/aes-keywrap.cpp. The caller's buffer is the bytes that are
-- written to it; `kek` is the bytes of the cipher's round keys.
pub mod Steps
pub mod RoundTrip
use re_pico.Base.{
  ℕ, zero, suc, ◌+◌, ◌-◌, ◌*◌, ◌/◌, ◌%◌, ◌^◌, List, [], ◌∷◌, ◌++◌, ◌&&◌, bit_or, bit_xor, u8, ◌>>◌,
  ◌==◌, leb, get_or, set, take, drop, length, replicate,
}
use re_pico.Base.Run.{Run, ok, ◌>>=◌, ensure}
use re_pico.Crypto.Aes.{encrypt_block, decrypt_block}

-- The integrity register and the blocks of eight bytes behind it.
pub record Registers : Type 0 where
  pub a : List ℕ
  pub r : List ℕ

abbrev pub initial_value : List ℕ
initial_value = replicate 8 0xa6

unfoldable pub xor_loop : ℕ → ℕ → ℕ → List ℕ → List ℕ
xor_loop zero i t a = a
xor_loop (suc n) i t a =
    xor_loop n (i + 1) t (set a (7 - i) (bit_xor (get_or a (7 - i) 0) (u8 (t >> (i * 8)))))

unfoldable pub xor_counter : List ℕ → ℕ → List ℕ
xor_counter a t = xor_loop 8 0 t a

-- `memcpy` to and from `r + i * 8`.
unfoldable pub block_at : ℕ → List ℕ → List ℕ
block_at i r = take 8 (drop (i * 8) r)

unfoldable pub put_block : ℕ → List ℕ → List ℕ → List ℕ
put_block i b r = take (i * 8) r ++ (b ++ drop (i * 8 + 8) r)

-- One round of the inner loop.
unfoldable pub wrap_step : List ℕ → ℕ → ℕ → Registers → Registers
wrap_step kek t i s =
    let b = encrypt_block kek (s.a ++ block_at i s.r) in
    record { a = xor_counter (take 8 b) t; r = put_block i (drop 8 b) s.r }

unfoldable pub wrap_row : List ℕ → ℕ → ℕ → ℕ → ℕ → Registers → Registers
wrap_row kek n j zero i s = s
wrap_row kek n j (suc count) i s =
    wrap_row kek n j count (i + 1) (wrap_step kek ((n * j + i + 1) % 2 ^ 64) i s)

unfoldable pub wrap_rows : List ℕ → ℕ → ℕ → ℕ → Registers → Registers
wrap_rows kek n zero j s = s
wrap_rows kek n (suc count) j s = wrap_rows kek n count (j + 1) (wrap_row kek n j n 0 s)

unfoldable pub aes_key_wrap : List ℕ → List ℕ → Run (List ℕ)
aes_key_wrap kek bytes = do
  _ ← ensure ((length bytes % 8 == 0) && leb 16 (length bytes))
  let n = length bytes / 8
  let s = wrap_rows kek n 6 0 (record { a = initial_value; r = bytes })
  ok (s.a ++ s.r)

-- The round of the inner loop for `i + 1`.
unfoldable pub unwrap_step : List ℕ → ℕ → ℕ → Registers → Registers
unwrap_step kek t i s =
    let b = decrypt_block kek (xor_counter s.a t ++ block_at i s.r) in
    record { a = take 8 b; r = put_block i (drop 8 b) s.r }

unfoldable pub unwrap_row : List ℕ → ℕ → ℕ → ℕ → Registers → Registers
unwrap_row kek n j zero s = s
unwrap_row kek n j (suc i) s =
    unwrap_row kek n j i (unwrap_step kek ((n * (suc j - 1) + suc i) % 2 ^ 64) i s)

unfoldable pub unwrap_rows : List ℕ → ℕ → ℕ → Registers → Registers
unwrap_rows kek n zero s = s
unwrap_rows kek n (suc j) s = unwrap_rows kek n j (unwrap_row kek n j n s)

unfoldable pub diff_loop : ℕ → ℕ → List ℕ → ℕ → ℕ
diff_loop zero i a diff = diff
diff_loop (suc n) i a diff =
    diff_loop n (i + 1) a (bit_or diff (bit_xor (get_or a i 0) (get_or initial_value i 0)))

unfoldable pub aes_key_unwrap : List ℕ → List ℕ → Run (List ℕ)
aes_key_unwrap kek wrapped = do
  _ ← ensure ((length wrapped % 8 == 0) && leb 24 (length wrapped))
  let n = length wrapped / 8 - 1
  let s = unwrap_rows kek n 6 (record { a = take 8 wrapped; r = take (n * 8) (drop 8 wrapped) })
  _ ← ensure (diff_loop 8 0 s.a 0 == 0)
  ok s.r
