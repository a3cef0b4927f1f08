-- ===== src/Crypto/Cmac/Chain.antt =====
-- The loops of `aes_cmac` over sixteen bytes, as exclusive ors of whole blocks.
use re_pico.Base.{
  ℕ, zero, suc, ◌+◌, ◌*◌, ◌≤◌, ◌<◌, ◌≡◌, refl, ap, ap₂, ◌∙◌, List, [], ◌∷◌, ◌++◌, bit_xor, get_or,
  set, take, drop, length, length-append, append_assoc, drop-get_or, arith,
}
use re_pico.Base.Run.{ok, read-ok}
use re_pico.Crypto.Aes.{add_round_key, encrypt_block}
use re_pico.Base.Bytes.{Bytes, All-take, All-drop}
use re_pico.Base.Slices.{take_all, drop-drop}
use re_pico.Crypto.Aes.Blocks.{IsBlock}
use re_pico.Crypto.Aes.Inverse.{encrypt_block-IsBlock, add_round_key-IsBlock}
use re_pico.Crypto.Cmac.{absorb_loop, chain_loop, mask_loop}

at_end {ℓ} :
    {A : Type ℓ} (xs ys : List A) (y d : A) (j : ℕ) → length xs ≡ j → get_or (xs ++ y ∷ ys) j d ≡ y
at_end [] ys y d zero e = refl
at_end [] ys y d (suc j) e = absurd (omega arith)
at_end (x ∷ xs) ys y d zero e = absurd (omega arith)
at_end (x ∷ xs) ys y d (suc j) e = at_end xs ys y d j (omega arith)

set_end {ℓ} :
    {A : Type ℓ} (xs ys : List A) (y v : A) (j : ℕ)
    → length xs ≡ j
    → set (xs ++ y ∷ ys) j v ≡ (xs ++ v ∷ []) ++ ys
set_end [] ys y v zero e = refl
set_end [] ys y v (suc j) e = absurd (omega arith)
set_end (x ∷ xs) ys y v zero e = absurd (omega arith)
set_end (x ∷ xs) ys y v (suc j) e = ap (◌∷◌ x) (set_end xs ys y v j (omega arith))

absorb_from :
    (n j : ℕ) (bytes : List ℕ) (off : ℕ) (xs ys : List ℕ)
    → length xs ≡ j
    → length ys ≡ n
    → off + j + n ≤ length bytes
    → absorb_loop n j bytes off (xs ++ ys)
      ≡ ok (xs ++ add_round_key ys (take n (drop (off + j) bytes)))
unfolding absorb_loop add_round_key
absorb_from zero j bytes off xs [] e k h = refl
absorb_from zero j bytes off xs (y ∷ ys) e k h = absurd (omega arith)
absorb_from (suc n) j bytes off xs [] e k h = absurd (omega arith)
absorb_from (suc n) j bytes off xs (y ∷ ys) e k h =
    let d : ℕ = get_or bytes (off + j) 0 in
    let later : off + (j + 1) ≡ off + j + 1 = omega arith in
    rw
      (
        read-ok bytes (off + j) (omega arith),
        at_end xs ys y 0 j e,
        set_end xs ys y (bit_xor y d) j e,
        drop-get_or bytes (off + j) 0 (omega arith),
        absorb_from n (j + 1) bytes off (xs ++ bit_xor y d ∷ []) ys
            (omega (arith, length-append xs (bit_xor y d ∷ []))) (omega arith) (omega arith),
        later,
        append_assoc xs (bit_xor y d ∷ []),
      )
      refl

pub absorb_lem :
    (bytes : List ℕ) (off : ℕ) (x : List ℕ)
    → length x ≡ 16
    → off + 16 ≤ length bytes
    → absorb_loop 16 0 bytes off x ≡ ok (add_round_key x (take 16 (drop off bytes)))
absorb_lem bytes off x e h =
    absorb_from 16 0 bytes off [] x refl e (omega arith)
    ∙ ap (λ (o : ℕ). ok (add_round_key x (take 16 (drop o bytes)))) {x = off + 0} {y = off}
        (omega arith)

mask_from :
    (n j : ℕ) (last subkey : List ℕ) (xs ys : List ℕ)
    → length xs ≡ j
    → length ys ≡ n
    → j + n ≤ length last
    → j + n ≤ length subkey
    → mask_loop n j last subkey (xs ++ ys)
      ≡ xs ++ add_round_key ys (add_round_key (take n (drop j last)) (take n (drop j subkey)))
unfolding mask_loop add_round_key
mask_from zero j last subkey xs [] e k h h' = refl
mask_from zero j last subkey xs (y ∷ ys) e k h h' = absurd (omega arith)
mask_from (suc n) j last subkey xs [] e k h h' = absurd (omega arith)
mask_from (suc n) j last subkey xs (y ∷ ys) e k h h' =
    let v : ℕ = bit_xor y (bit_xor (get_or last j 0) (get_or subkey j 0)) in
    rw
      (
        at_end xs ys y 0 j e,
        set_end xs ys y v j e,
        drop-get_or last j 0 (omega arith),
        drop-get_or subkey j 0 (omega arith),
        mask_from n (j + 1) last subkey (xs ++ v ∷ []) ys (omega (arith, length-append xs (v ∷ [])))
            (omega arith) (omega arith) (omega arith),
        append_assoc xs (v ∷ []),
      )
      refl

pub mask_lem :
    (last subkey x : List ℕ)
    → length x ≡ 16
    → length last ≡ 16
    → length subkey ≡ 16
    → mask_loop 16 0 last subkey x ≡ add_round_key x (add_round_key last subkey)
mask_lem last subkey x e h h' =
    mask_from 16 0 last subkey [] x refl e (omega arith) (omega arith)
    ∙ ap₂ (λ (l k : List ℕ). add_round_key x (add_round_key l k)) (take_all 16 last (omega arith))
        (take_all 16 subkey (omega arith))

-- `x` after `n` blocks from the block `i` on.
unfoldable pub chain : List ℕ → ℕ → List ℕ → List ℕ → List ℕ
chain keys zero message x = x
chain keys (suc n) message x =
    chain keys n (drop 16 message) (encrypt_block keys (add_round_key x (take 16 message)))

pub chain_loop_lem :
    (keys : List ℕ) (n i : ℕ) (bytes x : List ℕ)
    → Bytes keys
    → Bytes bytes
    → IsBlock x
    → i * 16 + n * 16 ≤ length bytes
    → (chain_loop keys n i bytes x ≡ ok (chain keys n (drop (i * 16) bytes) x))
      × IsBlock (chain keys n (drop (i * 16) bytes) x)
unfolding chain_loop chain
chain_loop_lem keys zero i bytes x hk hb hx h = (refl, hx)
chain_loop_lem keys (suc n) i bytes x hk hb hx h =
    let part : List ℕ = take 16 (drop (i * 16) bytes) in
    let x' : List ℕ = encrypt_block keys (add_round_key x part) in
    let block = encrypt_block-IsBlock keys hk (add_round_key x part) (
      add_round_key-IsBlock x part hx (
        All-take (λ b. b < 256) 16 (drop (i * 16) bytes)
          (All-drop (λ b. b < 256) (i * 16) bytes hb))) in
    let rest = chain_loop_lem keys n (i + 1) bytes x' hk hb block (omega arith) in
    rw
      (
        absorb_lem bytes (i * 16) x hx.0 (omega arith),
        drop-drop (i * 16) 16 ((i + 1) * 16) bytes (omega arith),
      )
      rest
