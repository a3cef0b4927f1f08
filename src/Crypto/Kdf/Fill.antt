-- ===== src/Crypto/Kdf/Fill.antt =====
-- The loop that fills an output from blocks.
use re_pico.Base.{
  ℕ, zero, suc, ◌+◌, ◌-◌, ◌*◌, ◌≤◌, ◌<◌, ◌≡◌, ◌∙◌, refl, sym, ap, ap₂, List, [], ◌∷◌, ◌++◌, min,
  length, take, drop, arith, length-append, length-take, length-drop, dec_lt, lt→ltb, le→ltb,
}
use re_pico.Base.Bytes.{Bytes, Bytes-append}
use re_pico.Base.Slices.{
  take_nil, take_all, take-append_le, take-append_past, take-append_self, drop-append_past,
  drop-drop,
}
use re_pico.Base.Run.{Run, ok, copy_to-ok}
use re_pico.Crypto.Kdf.{fill_loop}

-- Blocks that are made of a state, each from the one before.
module _ {ℓ} {S : Type ℓ} (hash : S → List ℕ) (next : S → S) where
  -- `n` blocks.
  pub stream : ℕ → S → List ℕ
  stream zero s = []
  stream (suc n) s = hash s ++ stream n (next s)

  pub stream-Bytes : ((s : S) → Bytes (hash s)) → (n : ℕ) (s : S) → Bytes (stream n s)
  unfolding stream
  stream-Bytes h zero s = tt
  stream-Bytes h (suc n) s =
      Bytes-append (hash s) (stream n (next s)) (h s) (stream-Bytes h n (next s))

  pub length-stream :
      (k : ℕ) → ((s : S) → length (hash s) ≡ k) → (n : ℕ) (s : S) → length (stream n s) ≡ n * k
  unfolding stream
  length-stream k h zero s = omega arith
  length-stream k h (suc n) s =
      omega (arith, length-append (hash s) (stream n (next s)), h s, length-stream k h n (next s))

take-plus : (m n : ℕ) (xs : List ℕ) → take m xs ++ take n (drop m xs) ≡ take (m + n) xs
take-plus zero n xs = ap (λ (k : ℕ). take k xs) {x = n} {y = 0 + n} (omega arith)
take-plus (suc m) n [] = take_nil n ∙ sym (take_nil (suc m + n))
take-plus (suc m) n (x ∷ xs) =
    ap (◌∷◌ x) (take-plus m n xs)
    ∙ ap (λ (k : ℕ). take k (x ∷ xs)) {x = suc (m + n)} {y = suc m + n} (omega arith)

module _ {ℓ} {S : Type ℓ} (hash : S → List ℕ) (next : S → S) (P : S → Type 0)
    (block : S → Run (List ℕ × S)) (size : (s : S) → length (hash s) ≡ 32)
    (good : (s : S) → P s → block s ≡ ok (hash s, next s))
    (keeps : (s : S) → P s → P (next s)) where
  fill_end :
      (fuel pos : ℕ) (s : S) (out : List ℕ)
      → length out ≤ pos
      → fill_loop block (suc fuel) pos s out ≡ ok out
  unfolding fill_loop
  fill_end fuel pos s out h = rw (le→ltb pos (length out) h, fill_loop) refl

  fill_over :
      (fuel pos : ℕ) (s : S) (out : List ℕ)
      → 0 < fuel
      → length out ≤ pos
      → fill_loop block fuel pos s out ≡ ok out
  fill_over zero pos s out h k = elim h [ ]
  fill_over (suc fuel) pos s out h k = fill_end fuel pos s out k

  -- The output with `count` bytes of the block at `pos`.
  abbrev spliced : ℕ → ℕ → S → List ℕ → List ℕ
  spliced pos count s out = take pos out ++ (take count (hash s) ++ drop (pos + count) out)

  length-spliced :
      (pos count : ℕ) (s : S) (out : List ℕ)
      → count ≤ 32
      → pos + count ≤ length out
      → length (spliced pos count s out) ≡ length out
  length-spliced pos count s out h fit = omega (
    arith,
    length-append (take pos out) (take count (hash s) ++ drop (pos + count) out),
    length-append (take count (hash s)) (drop (pos + count) out),
    length-take pos out,
    length-take count (hash s),
    size s,
    length-drop (pos + count) out,
  )

  fill_step :
      (fuel pos count : ℕ) (s : S) (out : List ℕ)
      → P s
      → pos < length out
      → count ≡ min (length out - pos) 32
      → fill_loop block (suc fuel) pos s out
        ≡ fill_loop block fuel (pos + count) (next s) (spliced pos count s out)
  unfolding fill_loop
  fill_step fuel pos count s out p h e =
      let taken : length (take count (hash s)) ≡ count =
        omega (arith, length-take count (hash s), size s) in
      rw
        (
          lt→ltb pos (length out) h,
          fill_loop,
          good s p,
          ← e,
          copy_to-ok out pos (take count (hash s)) (omega arith),
          taken,
        )
        refl

  take_more :
      (pos : ℕ) (out whole : List ℕ)
      → pos ≡ length out
      → take pos out ≡ take pos whole
      → take (length out) out ≡ take (length out) whole
  take_more pos out whole e h = rw (← e) h

  -- Placing what the stream has next.
  placed :
      (pos count r : ℕ) (s : S) (out whole : List ℕ)
      → take pos out ≡ take pos whole
      → pos + count ≤ length out
      → count ≤ 32
      → drop pos whole ≡ stream hash next (suc r) s
      → take (pos + count) (spliced pos count s out) ≡ take (pos + count) whole
  unfolding stream
  placed pos count r s out whole front fit few back =
      take-append_past (pos + count) count (take pos out)
        (take count (hash s) ++ drop (pos + count) out) (omega (arith, length-take pos out))
      ∙ ap₂ ◌++◌ front (
          take-append_self count (take count (hash s)) (drop (pos + count) out)
            (omega (arith, length-take count (hash s), size s))
          ∙ sym (
              rw back (
                take-append_le count (hash s) (stream hash next r (next s))
                  (omega (arith, size s)))))
      ∙ take-plus pos count whole

  pub fill_loop_lem :
      (r fuel pos : ℕ) (s : S) (out whole : List ℕ)
      → P s
      → r < fuel
      → pos ≤ length out
      → length out ≤ pos + 32 * r
      → take pos out ≡ take pos whole
      → drop pos whole ≡ stream hash next r s
      → fill_loop block fuel pos s out ≡ ok (take (length out) whole)
  unfolding stream
  fill_loop_lem r zero pos s out whole p h inside room front back = absurd (omega arith)
  fill_loop_lem zero (suc fuel) pos s out whole p h inside room front back =
      fill_end fuel pos s out (omega arith)
      ∙ ap ok (
          sym (take_all (length out) out (omega arith))
          ∙ take_more pos out whole (omega arith) front)
  fill_loop_lem (suc r) (suc fuel) pos s out whole p h inside room front back =
      elim (dec_lt pos (length out)) [
        | no done ↦
            fill_end fuel pos s out (omega arith)
            ∙ ap ok (
                sym (take_all (length out) out (omega arith))
                ∙ take_more pos out whole (omega arith) front)
        | yes go ↦ elim (dec_lt (length out - pos) 33) [
          | yes last ↦
              let count : ℕ = length out - pos in
              fill_step fuel pos count s out p go (omega arith)
              ∙ fill_over fuel (pos + count) (next s) (spliced pos count s out) (omega arith)
                  (omega (arith, length-spliced pos count s out (omega arith) (omega arith)))
              ∙ ap ok (
                  sym (
                    take_all (length out) (spliced pos count s out)
                      (omega (arith, length-spliced pos count s out (omega arith) (omega arith))))
                  ∙ ap (λ (k : ℕ). take k (spliced pos count s out)) {x = length out}
                      {y = pos + count} (omega arith)
                  ∙ placed pos count r s out whole front (omega arith) (omega arith) back
                  ∙ ap (λ (k : ℕ). take k whole) {x = pos + count} {y = length out} (omega arith))
          | no mid ↦
              let size' : length (spliced pos 32 s out) ≡ length out =
                length-spliced pos 32 s out (omega arith) (omega arith) in
              fill_step fuel pos 32 s out p go (omega arith)
              ∙ fill_loop_lem r fuel (pos + 32) (next s) (spliced pos 32 s out) whole (keeps s p)
                  (omega arith) (omega (arith, size')) (omega (arith, size'))
                  (placed pos 32 r s out whole front (omega arith) (omega arith) back)
                  (sym (drop-drop pos 32 (pos + 32) whole refl)
                    ∙ rw back (
                        drop-append_past 32 0 (hash s) (stream hash next r (next s))
                          (omega (arith, size s))))
              ∙ rw size' refl
        ]
      ]
