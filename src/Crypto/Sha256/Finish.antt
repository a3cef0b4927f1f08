-- ===== src/Crypto/Sha256/Finish.antt =====
-- The padding of the last blocks, and the hash as a whole.
use re_pico.Base.{
  ℕ, zero, suc, ◌+◌, ◌-◌, ◌*◌, ◌/◌, ◌%◌, ◌^◌, ◌≤◌, ◌<◌, ◌≡◌, ◌∙◌, refl, sym, ap, List, [], ◌∷◌,
  ◌++◌, length, take, drop, replicate, set, arith, length-append, length-drop, length-set,
  length-replicate, append_assoc, append-nil, dec_lt, lt→ltb, le→ltb,
}
use re_pico.Base.Bytes.{drop-all}
use re_pico.Base.Run.{ok, write-ok}
use re_pico.Crypto.Sha256.Compress.{compress}
use re_pico.Crypto.Sha256.{Sha256, finish, initial_state, fresh, sha256}
use re_pico.Crypto.Sha256.Absorb.{absorb, Holds}
use re_pico.Crypto.Sha256.Stream.{update_lem}
use re_pico.Crypto.Sha256.Padding.{
  high_first, padding, digest_of, extend_part, zero_loop_lem, length-high_first, finish_block_lem,
  absorb_last, absorb_last_two,
}

replicate-plus : (m n k : ℕ) → m + n ≡ k → replicate {A = ℕ} k 0 ≡ replicate m 0 ++ replicate n 0
replicate-plus zero n k e = ap (λ (j : ℕ). replicate {A = ℕ} j 0) (omega arith)
replicate-plus (suc m) n zero e = absurd (omega arith)
replicate-plus (suc m) n (suc k) e = ap (◌∷◌ 0) (replicate-plus m n k (omega arith))

-- The marked rest and the zeros behind it.
marked_zeros :
    (rest : List ℕ) (n : ℕ) (back : List ℕ)
    → (rest ++ 0x80 ∷ []) ++ (replicate n 0 ++ back) ≡ rest ++ 0x80 ∷ (replicate n 0 ++ back)
marked_zeros rest n back = append_assoc rest (0x80 ∷ []) (replicate n 0 ++ back)

one_block :
    (m : List ℕ) (u : ℕ)
    → u ≡ length m % 64
    → u < 56
    → absorb (length (m ++ padding (length m)) / 64) initial_state (m ++ padding (length m))
      ≡ compress (absorb (length m / 64) initial_state m) (
          (drop (64 * (length m / 64)) m ++ 0x80 ∷ [])
          ++ (replicate (56 - (u + 1)) 0 ++ high_first 8 0 (length m * 8)))
unfolding padding
one_block m u e h =
    let back : List ℕ = high_first 8 0 (length m * 8) in
    let z : (119 - length m % 64) % 64 ≡ 56 - (u + 1) = omega arith in
    rw
      (
        z,
        absorb_last m (0x80 ∷ (replicate (56 - (u + 1)) 0 ++ back)) (
            omega (
              arith,
              length-append (replicate (56 - (u + 1)) 0) back,
              length-replicate {A = ℕ} (56 - (u + 1)) 0,
              length-high_first 8 0 (length m * 8),
            )),
      )
      (ap (compress (absorb (length m / 64) initial_state m))
        (sym (marked_zeros (drop (64 * (length m / 64)) m) (56 - (u + 1)) back)))

two_blocks :
    (m : List ℕ) (u : ℕ)
    → u ≡ length m % 64
    → 56 ≤ u
    → absorb (length (m ++ padding (length m)) / 64) initial_state (m ++ padding (length m))
      ≡ compress
          (compress
            (absorb (length m / 64) initial_state m)
            ((drop (64 * (length m / 64)) m ++ 0x80 ∷ []) ++ (replicate (64 - (u + 1)) 0 ++ [])))
          (replicate 56 0 ++ high_first 8 0 (length m * 8))
unfolding padding
two_blocks m u e h =
    let back : List ℕ = high_first 8 0 (length m * 8) in
    let zeros : List ℕ = replicate (64 - (u + 1)) 0 in
    let split : replicate ((119 - length m % 64) % 64) 0 ≡ zeros ++ replicate 56 0 =
      replicate-plus (64 - (u + 1)) 56 ((119 - length m % 64) % 64) (omega arith) in
    rw
      (
        split,
        append_assoc zeros (replicate 56 0) back,
        absorb_last_two m (0x80 ∷ zeros) (replicate 56 0 ++ back)
            (omega (arith, length-replicate {A = ℕ} (64 - (u + 1)) 0))
            (omega
              (arith, length-append (replicate 56 0) back, length-high_first 8 0 (length m * 8))),
        marked_zeros (drop (64 * (length m / 64)) m) (64 - (u + 1)) [],
        append-nil zeros,
      )
      refl

behind :
    (marked : List ℕ) (u : ℕ)
    → length marked ≡ 64
    → u < 64
    → drop (u + 1 + (64 - (u + 1))) marked ≡ []
behind marked u e h = drop-all marked (u + 1 + (64 - (u + 1))) (omega arith)

full_size :
    (m : List ℕ) (u : ℕ)
    → u ≡ length m % 64
    → u < 64
    → length ((drop (64 * (length m / 64)) m ++ 0x80 ∷ []) ++ (replicate (64 - (u + 1)) 0 ++ []))
      ≡ 64
full_size m u e h =
    let rest : List ℕ = drop (64 * (length m / 64)) m in
    let zeros : List ℕ = replicate (64 - (u + 1)) 0 in
    omega (
      arith,
      length-append (rest ++ 0x80 ∷ []) (zeros ++ []),
      length-append rest (0x80 ∷ []),
      length-append zeros [],
      length-drop (64 * (length m / 64)) m,
      length-replicate {A = ℕ} (64 - (u + 1)) 0,
    )

pub fresh-Holds : (buf : List ℕ) → length buf ≡ 64 → Holds (fresh buf) []
unfolding absorb
fresh-Holds buf e = record { state = refl; size = e; used = refl; tail = refl; total = refl }

-- `finish` on a context that has been given `m`, of fewer than 2 ^ 61 bytes, returns the digest of the
-- padded message.
pub finish_lem :
    (c : Sha256) (m : List ℕ) → Holds c m → length m < 2 ^ 61 → finish c ≡ ok (digest_of m)
unfolding finish digest_of
finish_lem c m v small =
    let u : ℕ = c.buf_used in
    let used : u ≡ length m % 64 = v.used in
    let rest : List ℕ = drop (64 * (length m / 64)) m in
    let bits : (c.total * 8) % 2 ^ 64 ≡ length m * 8 = omega (arith, v.total) in
    let marked : List ℕ = set c.buf u 0x80 in
    let size : length marked ≡ 64 = length-set c.buf u 0x80 ∙ v.size in
    let front : take (u + 1) marked ≡ rest ++ 0x80 ∷ [] =
      (extend_part c.buf u 0x80 (omega (arith, v.size))).0
      ∙ ap (λ (r : List ℕ). r ++ 0x80 ∷ []) v.tail in
    elim (dec_lt 56 (u + 1)) [
      | no one ↦
          rw
            (
              bits,
              write-ok c.buf u 0x80 (omega (arith, v.size)),
              le→ltb 56 (u + 1) (omega arith),
              finish_block_lem c.state marked (u + 1) (length m * 8) size (omega arith),
              front,
              v.state,
              one_block m u used (omega arith),
            )
            refl
      | yes two ↦
          rw
            (
              bits,
              write-ok c.buf u 0x80 (omega (arith, v.size)),
              lt→ltb 56 (u + 1) two,
              zero_loop_lem (64 - (u + 1)) (u + 1) marked (omega arith),
              front,
              behind marked u size (omega arith),
              v.state,
              finish_block_lem _ ((rest ++ 0x80 ∷ []) ++ (replicate (64 - (u + 1)) 0 ++ [])) 0
                  (length m * 8) (full_size m u used (omega arith)) (omega arith),
              two_blocks m u used (omega arith),
            )
            refl
    ]

-- The hash of a message taken whole, from any contents of the buffer.
pub sha256_lem :
    (buf m : List ℕ) → length buf ≡ 64 → length m < 2 ^ 61 → sha256 buf m ≡ ok (digest_of m)
unfolding sha256
sha256_lem buf m e small =
    let (c, e1, v) = update_lem (fresh buf) [] m (fresh-Holds buf e) in
    rw (e1, finish_lem c m v small) refl
