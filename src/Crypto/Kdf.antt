-- ===== src/Crypto/Kdf.antt =====
-- submodules/re-crypto/src/crypto/kdf.cpp: `sha256_prf` and `hkdf_expand`. Both loops fill the output
-- from blocks of 32 bytes and differ in how the next block is made.
pub mod Fill
pub mod Spec
use re_pico.Base.{
  ℕ, zero, suc, ◌+◌, ◌-◌, ◌*◌, List, [], ◌∷◌, true, false, u8, u16, min, ltb, ◌>>◌, length, take,
}
use re_pico.Base.Run.{Run, ok, out_of_fuel, ◌>>=◌, copy_to}
use re_pico.Crypto.Hmac.{hmac_sha256_vector}

abbrev pub digest_size : ℕ
digest_size = 32

-- `while(pos < out.size())`, with the variables of the block in `s`.
unfoldable pub fill_loop {ℓ} :
    {S : Type ℓ} → (S → Run (List ℕ × S)) → ℕ → ℕ → S → List ℕ → Run (List ℕ)
fill_loop block zero pos s out = out_of_fuel
fill_loop block (suc fuel) pos s out = elim (ltb pos (length out)) [
  | false ↦ ok out
  | true ↦ do
    (hash, s') ← block s
    let count = min (length out - pos) digest_size
    out' ← copy_to out pos (take count hash)
    fill_loop block fuel (pos + count) s' out'
]

abbrev pub le16 : ℕ → List ℕ
le16 n = u8 n ∷ u8 (n >> 8) ∷ []

-- One round of `sha256_prf`; `counter` has 16 bits.
unfoldable pub prf_block : List ℕ → List ℕ → List ℕ → List ℕ → ℕ → ℕ → Run (List ℕ × ℕ)
prf_block junk key label context bits counter = do
  hash ← hmac_sha256_vector junk key (le16 counter ∷ label ∷ context ∷ le16 bits ∷ [])
  ok (hash, u16 (counter + 1))

unfoldable pub sha256_prf : List ℕ → List ℕ → List ℕ → List ℕ → List ℕ → Run (List ℕ)
sha256_prf junk key label context out =
    fill_loop (prf_block junk key label context (u16 (length out * 8))) (length out + 1) 0 1 out

-- One round of `hkdf_expand`: `prev`, empty at first, and `iter`, which has 8 bits.
unfoldable pub hkdf_block : List ℕ → List ℕ → List ℕ → List ℕ × ℕ → Run (List ℕ × (List ℕ × ℕ))
hkdf_block junk prk info (prev, iter) = do
  hash ← hmac_sha256_vector junk prk (prev ∷ info ∷ (iter ∷ []) ∷ [])
  ok (hash, (hash, u8 (iter + 1)))

unfoldable pub hkdf_expand : List ℕ → List ℕ → List ℕ → List ℕ → Run (List ℕ)
hkdf_expand junk prk info out = fill_loop (hkdf_block junk prk info) (length out + 1) 0 ([], 1) out
