-- ===== src/Crypto/Cmac/Spec.antt =====
-- `aes_cmac` against its standard, RFC 4493.
use re_pico.Base.{
  ℕ, zero, suc, ◌+◌, ◌-◌, ◌*◌, ◌/◌, ◌^◌, ◌≤◌, ◌<◌, ◌≡◌, refl, ap, ◌∙◌, List, [], ◌∷◌, ◌++◌, inl,
  inr, ◌==◌, ==_iff, take, drop, set, length, replicate, length-append, length-drop,
  length-replicate, append-nil, if◌then◌else◌, Bool-cases, arith,
}
use re_pico.Base.Bytes.{Bytes, Bytes-append, All-drop, All-replicate}
use re_pico.Base.Run.{Run, ok, ◌>>=◌, write-ok, copy_to, copy_to-ok}
use re_pico.Base.Slices.{take_all}
use re_pico.Crypto.Aes.{add_round_key, encrypt_block}
use re_pico.Crypto.Aes.Blocks.{IsBlock, add_round_key-Bytes}
use re_pico.Crypto.Aes.Inverse.{add_round_key-IsBlock, encrypt_block-IsBlock}
use re_pico.Crypto.Cmac.{gf128_dbl, subkey_of, num_prev, full_last, mark_end, mask_loop, aes_cmac}
use re_pico.Crypto.Cmac.Double.{field_double, gf128_dbl-IsBlock, gf128_dbl-field_double}
use re_pico.Crypto.Cmac.Chain.{mask_lem, chain, chain_loop_lem}

abbrev pub zeros : List ℕ
zeros = replicate 16 0

-- A last block of fewer bytes is filled up with one bit and zeros; the subkey tells the cases apart.
unfoldable pub masked : List ℕ → List ℕ → List ℕ → List ℕ
masked k1 k2 rest =
    if length rest == 16
    then add_round_key rest k1
    else add_round_key (rest ++ 0x80 ∷ replicate (15 - length rest) 0) k2

-- The code of a message, from its blocks.
unfoldable pub cmac_of : List ℕ → List ℕ → List ℕ
cmac_of keys message =
    let k1 = field_double (encrypt_block keys zeros) in
    let n = (length message - 1) / 16 in
    encrypt_block keys (
      add_round_key (chain keys n message zeros)
        (masked k1 (field_double k1) (drop (n * 16) message)))

-- The subkeys of the code are those of the standard.
subkeys_lem :
    (keys : List ℕ)
    → Bytes keys
    → let l = encrypt_block keys zeros in
      (gf128_dbl l ≡ field_double l) × (gf128_dbl (gf128_dbl l) ≡ field_double (gf128_dbl l))
subkeys_lem keys hk =
    let l = encrypt_block keys zeros in
    let z : IsBlock zeros = (refl, All-replicate (λ b. b < 256) 16 0 (omega arith)) in
    let b : IsBlock l = encrypt_block-IsBlock keys hk zeros z in
    (gf128_dbl-field_double l b, gf128_dbl-field_double (gf128_dbl l) (gf128_dbl-IsBlock l b))

num_prev_lem : (bytes : List ℕ) → length bytes < 2 ^ 31 → num_prev bytes ≡ (length bytes - 1) / 16
unfolding num_prev
num_prev_lem bytes h = ground arith

full_last_lem :
    (bytes : List ℕ) → full_last bytes ≡ (length (drop ((length bytes - 1) / 16 * 16) bytes) == 16)
full_last_lem bytes = rw (length-drop ((length bytes - 1) / 16 * 16) bytes) (ground arith)

-- The last block, zeros after its bytes and the mark.
padded :
    (n : ℕ) (rest : List ℕ)
    → length rest ≤ n
    → set (rest ++ drop (length rest) (replicate (suc n) 0)) (length rest) 0x80
      ≡ rest ++ 0x80 ∷ replicate (n - length rest) 0
padded n [] h = ap (λ (m : ℕ). 0x80 ∷ replicate m 0) {x = n} {y = n - 0} (omega arith)
padded zero (r ∷ rest) h = absurd (omega arith)
padded (suc n) (r ∷ rest) h =
    let e : n - length rest ≡ suc n - suc (length rest) = omega arith in
    ap (◌∷◌ r) (padded n rest (omega arith) ∙ ap (λ (m : ℕ). rest ++ 0x80 ∷ replicate m 0) e)

copied_lem :
    (rest : List ℕ)
    → length rest ≤ 16
    → copy_to zeros 0 rest ≡ ok (rest ++ drop (length rest) zeros)
copied_lem rest h =
    copy_to-ok zeros 0 rest (omega arith)
    ∙ ap (λ (n : ℕ). ok (rest ++ drop n zeros)) {x = 0 + length rest} {y = length rest}
        (omega arith)

-- What follows the chain, on the bytes that are left.
module _ (k1 k2 x rest : List ℕ) where
  finish : (List ℕ → List ℕ → Run (List ℕ)) → Run (List ℕ)
  finish next = do
    let full = length rest == 16
    copied ← copy_to zeros 0 rest
    last ← mark_end full (length rest) copied
    next last (if full then k1 else k2)

  finish_lem :
      (keys : List ℕ)
      → length x ≡ 16
      → length k1 ≡ 16
      → length k2 ≡ 16
      → length rest ≤ 16
      → finish (λ last subkey. ok (encrypt_block keys (mask_loop 16 0 last subkey x)))
        ≡ ok (encrypt_block keys (add_round_key x (masked k1 k2 rest)))
  unfolding finish masked
  finish_lem keys hx h1 h2 h = elim (Bool-cases (length rest == 16)) [
    | inl e ↦
        let full : length rest ≡ 16 = (==_iff (length rest) 16).0 e in
        let whole : rest ++ drop (length rest) zeros ≡ rest =
          ap (λ (n : ℕ). rest ++ drop n zeros) full ∙ append-nil rest in
        rw (copied_lem rest h, e, whole, mask_lem rest k1 x hx full h1) refl
    | inr e ↦
        let short : length rest ≤ 15 = ground (arith, e) in
        let last : List ℕ = rest ++ 0x80 ∷ replicate (15 - length rest) 0 in
        let size : length last ≡ 16 = omega (
          arith,
          length-append rest (0x80 ∷ replicate (15 - length rest) 0),
          length-replicate {A = ℕ} (15 - length rest) 0,
        ) in
        let room : length rest < length (rest ++ drop (length rest) zeros) =
          omega (
            arith,
            length-append rest (drop (length rest) zeros),
            length-drop (length rest) zeros,
          ) in
        rw
          (
            copied_lem rest h,
            e,
            write-ok (rest ++ drop (length rest) zeros) (length rest) 0x80 room,
            padded 15 rest short,
            mask_lem last k2 x hx size h2,
          )
          refl
  ]

-- `aes_cmac` returns the code of RFC 4493, its subkeys by the doubling of numbers in the field of 2¹²⁸
-- elements, for round keys of any bytes and every message of fewer than 2 ^ 31 bytes, the empty one
-- and one with a full last block included; it never reads or writes outside of an array.
pub aes_cmac_lem :
    (keys message : List ℕ)
    → Bytes keys
    → Bytes message
    → length message < 2 ^ 31
    → aes_cmac keys message ≡ ok (cmac_of keys message)
unfolding aes_cmac cmac_of subkey_of finish
aes_cmac_lem keys message hk hm h =
    let n : ℕ = (length message - 1) / 16 in
    let rest : List ℕ = drop (n * 16) message in
    let k1 : List ℕ = gf128_dbl (encrypt_block keys zeros) in
    let x : List ℕ = chain keys n message zeros in
    let z : IsBlock zeros = (refl, All-replicate (λ b. b < 256) 16 0 (omega arith)) in
    let b1 : IsBlock k1 =
      gf128_dbl-IsBlock (encrypt_block keys zeros) (encrypt_block-IsBlock keys hk zeros z) in
    let chained = chain_loop_lem keys n 0 message zeros hk hm z (omega arith) in
    let size : length rest ≡ length message - n * 16 = length-drop (n * 16) message in
    let left : take (length message - n * 16) rest ≡ rest =
      take_all (length message - n * 16) rest (omega (arith, size)) in
    let (e1, e2) = subkeys_lem keys hk in
    rw (num_prev_lem message h, chained.0, left, full_last_lem message, ← e1, ← e2, ← size)
      (finish_lem k1 (gf128_dbl k1) x rest keys chained.1.0 b1.0 (gf128_dbl-IsBlock k1 b1).0
        (omega (arith, size)))

masked-Bytes : (k1 k2 rest : List ℕ) → Bytes k1 → Bytes k2 → Bytes rest → Bytes (masked k1 k2 rest)
unfolding masked
masked-Bytes k1 k2 rest h1 h2 h = elim (Bool-cases (length rest == 16)) [
  | inl e ↦ rw e (add_round_key-Bytes rest k1 h h1)
  | inr e ↦
      let pad : List ℕ = 0x80 ∷ replicate (15 - length rest) 0 in
      let b : Bytes pad =
        (omega arith, All-replicate (λ x. x < 256) (15 - length rest) 0 (omega arith)) in
      rw e (add_round_key-Bytes (rest ++ pad) k2 (Bytes-append rest pad h b) h2)
]

pub cmac_of-IsBlock :
    (keys message : List ℕ) → Bytes keys → Bytes message → IsBlock (cmac_of keys message)
unfolding cmac_of
cmac_of-IsBlock keys message hk hm =
    let n : ℕ = (length message - 1) / 16 in
    let rest : List ℕ = drop (n * 16) message in
    let z : IsBlock zeros = (refl, All-replicate (λ b. b < 256) 16 0 (omega arith)) in
    let k1 : List ℕ = gf128_dbl (encrypt_block keys zeros) in
    let b1 = gf128_dbl-IsBlock (encrypt_block keys zeros) (encrypt_block-IsBlock keys hk zeros z) in
    let (e1, e2) = subkeys_lem keys hk in
    let chained = chain_loop_lem keys n 0 message zeros hk hm z (omega arith) in
    let last : List ℕ = masked k1 (gf128_dbl k1) rest in
    rw (← e1, ← e2)
      (encrypt_block-IsBlock keys hk (add_round_key (chain keys n message zeros) last) (
        add_round_key-IsBlock (chain keys n message zeros) last chained.1 (
          masked-Bytes k1 (gf128_dbl k1) rest b1.1 (gf128_dbl-IsBlock k1 b1).1
            (All-drop (λ b. b < 256) (n * 16) message hm))))
