-- ===== src/Crypto/Kdf/Spec.antt =====
-- The derivations against their standards: IEEE 802.11, 12.7.1.7.2, and RFC 5869.
use re_pico.Base.{
  ℕ, ◌+◌, ◌*◌, ◌^◌, ◌≤◌, ◌<◌, ◌≡◌, refl, List, [], ◌∷◌, ◌++◌, u8, u16, length, take, arith,
  length-append,
}
use re_pico.Base.Bytes.{Bytes}
use re_pico.Base.Run.{ok}
use re_pico.Crypto.Hmac.Spec.{hmac_of, length-hmac_of, hmac_of-Bytes, hmac_sha256_vector_lem}
use re_pico.Crypto.Kdf.{le16, prf_block, sha256_prf, hkdf_block, hkdf_expand}
use re_pico.Crypto.Kdf.Fill.{stream, fill_loop_lem}

-- The block of the counter `i`: the code of counter, label, context and length.
unfoldable pub prf_hash : List ℕ → List ℕ → List ℕ → ℕ → ℕ → List ℕ
prf_hash key label context bits i =
    hmac_of key (le16 i ++ (label ++ (context ++ (le16 bits ++ []))))

pub prf_hash-Bytes :
    (key label context : List ℕ) (bits i : ℕ) → Bytes (prf_hash key label context bits i)
unfolding prf_hash
prf_hash-Bytes key label context bits i =
    hmac_of-Bytes key (le16 i ++ (label ++ (context ++ (le16 bits ++ []))))

pub length-prf_hash :
    (key label context : List ℕ) (bits i : ℕ) → length (prf_hash key label context bits i) ≡ 32
unfolding prf_hash
length-prf_hash key label context bits i =
    length-hmac_of key (le16 i ++ (label ++ (context ++ (le16 bits ++ []))))

abbrev pub count_on : ℕ → ℕ
count_on i = u16 (i + 1)

-- `sha256_prf` fills the output with the first bytes of the blocks for the counters 1, 2 and so on,
-- whatever the output held; it returns, and stays inside the output.
pub sha256_prf_lem :
    (junk key label context out : List ℕ)
    → length junk ≡ 64
    → length key < 2 ^ 60
    → length label + length context < 2 ^ 59
    → sha256_prf junk key label context out
      ≡ ok (
          take
            (length out)
            (stream (prf_hash key label context (u16 (length out * 8))) count_on (length out) 1))
unfolding sha256_prf prf_block prf_hash
sha256_prf_lem junk key label context out ej sk sm =
    let bits : ℕ = u16 (length out * 8) in
    fill_loop_lem (prf_hash key label context bits) count_on (λ _. Unit)
      (prf_block junk key label context bits)
      (λ i. length-hmac_of key (le16 i ++ (label ++ (context ++ (le16 bits ++ [])))))
      (λ i _.
        rw
          (hmac_sha256_vector_lem junk key (le16 i ∷ label ∷ context ∷ le16 bits ∷ []) ej sk (
            omega (
              arith,
              length-append label (context ++ (le16 bits ++ [])),
              length-append context (le16 bits ++ []),
            )))
          refl)
      (λ i _. tt) (length out) (length out + 1) 0 1 out
      (stream (prf_hash key label context bits) count_on (length out) 1) tt (omega arith)
      (omega arith) (omega arith) refl refl

-- `T(i)` of RFC 5869, from the block before and the counter.
unfoldable pub hkdf_hash : List ℕ → List ℕ → List ℕ × ℕ → List ℕ
hkdf_hash prk info s = hmac_of prk (s.0 ++ (info ++ ((s.1 ∷ []) ++ [])))

abbrev pub hkdf_next : List ℕ → List ℕ → List ℕ × ℕ → List ℕ × ℕ
hkdf_next prk info s = (hkdf_hash prk info s, u8 (s.1 + 1))

-- `hkdf_expand` fills the output with the first bytes of `T(1)`, `T(2)` and so on; it returns, and
-- stays inside the output.
pub hkdf_expand_lem :
    (junk prk info out : List ℕ)
    → length junk ≡ 64
    → length prk < 2 ^ 60
    → length info < 2 ^ 59
    → hkdf_expand junk prk info out
      ≡ ok (
          take (length out) (stream (hkdf_hash prk info) (hkdf_next prk info) (length out) ([], 1)))
unfolding hkdf_expand hkdf_block hkdf_hash
hkdf_expand_lem junk prk info out ej sk sm =
    fill_loop_lem (hkdf_hash prk info) (hkdf_next prk info) (λ s. length s.0 ≤ 32)
      (hkdf_block junk prk info) (λ s. length-hmac_of prk (s.0 ++ (info ++ ((s.1 ∷ []) ++ []))))
      (λ s p.
        rw
          (hmac_sha256_vector_lem junk prk (s.0 ∷ info ∷ (s.1 ∷ []) ∷ []) ej sk (
            omega (
              arith,
              length-append s.0 (info ++ ((s.1 ∷ []) ++ [])),
              length-append info ((s.1 ∷ []) ++ []),
            )))
          refl)
      (λ s _. omega (arith, length-hmac_of prk (s.0 ++ (info ++ ((s.1 ∷ []) ++ []))))) (length out)
      (length out + 1) 0 ([], 1) out
      (stream (hkdf_hash prk info) (hkdf_next prk info) (length out) ([], 1)) (omega arith)
      (omega arith) (omega arith) (omega arith) refl refl
