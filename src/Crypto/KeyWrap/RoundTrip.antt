-- ===== src/Crypto/KeyWrap/RoundTrip.antt =====
-- Unwrapping runs the steps of the wrapping backwards, so it gives back the key and finds the
-- initial value in the integrity register.
use re_pico.Base.{
  ℕ, zero, suc, ◌+◌, ◌-◌, ◌*◌, ◌/◌, ◌%◌, ◌^◌, ◌≤◌, ◌<◌, ◌≡◌, refl, ap, ap₂, sym, ◌∙◌, List, true,
  ◌++◌, take, drop, length, arith, length-append, ◌&&◌, ◌==◌, leb,
}
use re_pico.Base.Bytes.{Bytes, Bytes-append, All-replicate}
use re_pico.Base.Slices.{take-append_self, drop-append_past, take_all}
use re_pico.Base.Run.{Run, ok, ◌>>=◌}
use re_pico.Crypto.Aes.{expand_key}
use re_pico.Crypto.Aes.Schedule.{expand_key-Bytes}
use re_pico.Crypto.KeyWrap.{
  Registers, initial_value, wrap_step, wrap_row, wrap_rows, unwrap_step, unwrap_row, unwrap_rows,
  diff_loop, aes_key_wrap, aes_key_unwrap,
}
use re_pico.Crypto.KeyWrap.Steps.{
  IsRegisters, wrap_step-IsRegisters, unwrap_step-wrap_step, registers,
}

module _ (kek : List ℕ) (hk : Bytes kek) (n : ℕ) where
  -- The number of a step, from one on.
  counter : ℕ → ℕ → ℕ
  counter j i = (n * j + i + 1) % 2 ^ 64

  wrap_row-last :
      (j count i l : ℕ) (s : Registers)
      → i + count ≡ l
      → wrap_row kek n j (suc count) i s
        ≡ wrap_step kek (counter j l) l (wrap_row kek n j count i s)
  unfolding wrap_row counter
  wrap_row-last j zero i l s e =
      ap (λ (k : ℕ). wrap_step kek (counter j k) k s) {x = i} {y = l} (omega arith)
  wrap_row-last j (suc count) i l s e =
      wrap_row-last j count (i + 1) l (wrap_step kek (counter j i) i s) (omega arith)

  wrap_row-IsRegisters :
      (j count i : ℕ) (s : Registers)
      → i + count ≤ n
      → IsRegisters n s
      → IsRegisters n (wrap_row kek n j count i s)
  unfolding wrap_row
  wrap_row-IsRegisters j zero i s h k = k
  wrap_row-IsRegisters j (suc count) i s h k =
      wrap_row-IsRegisters j count (i + 1) (wrap_step kek ((n * j + i + 1) % 2 ^ 64) i s)
        (omega arith)
        (wrap_step-IsRegisters kek hk n ((n * j + i + 1) % 2 ^ 64) i s k (omega arith))

  same_counter : (j i : ℕ) → (n * (suc j - 1) + suc i) % 2 ^ 64 ≡ counter j i
  unfolding counter
  same_counter j i =
      let e : suc j - 1 ≡ j = omega arith in
      let e' : n * j + suc i ≡ n * j + i + 1 = omega arith in
      ap (λ (m : ℕ). (n * m + suc i) % 2 ^ 64) e ∙ ap (λ (m : ℕ). m % 2 ^ 64) e'

  unwrap_row_lem :
      (j i : ℕ) (s : Registers)
      → i ≤ n
      → IsRegisters n s
      → unwrap_row kek n j i (wrap_row kek n j i 0 s) ≡ s
  unfolding unwrap_row wrap_row
  unwrap_row_lem j zero s h k = refl
  unwrap_row_lem j (suc i) s h k =
      let s' = wrap_row kek n j i 0 s in
      ap
        (λ (x : Registers).
          unwrap_row kek n j i (unwrap_step kek ((n * (suc j - 1) + suc i) % 2 ^ 64) i x))
        (wrap_row-last j i 0 i s (omega arith))
      ∙ ap
          (λ (t : ℕ). unwrap_row kek n j i (unwrap_step kek t i (wrap_step kek (counter j i) i s')))
          (same_counter j i)
      ∙ ap (unwrap_row kek n j i) (
          unwrap_step-wrap_step kek hk n (counter j i) i s'
            (wrap_row-IsRegisters j i 0 s (omega arith) k) (omega arith))
      ∙ unwrap_row_lem j i s (omega arith) k

  wrap_rows-last :
      (count j l : ℕ) (s : Registers)
      → j + count ≡ l
      → wrap_rows kek n (suc count) j s ≡ wrap_row kek n l n 0 (wrap_rows kek n count j s)
  unfolding wrap_rows
  wrap_rows-last zero j l s e = ap (λ (k : ℕ). wrap_row kek n k n 0 s) {x = j} {y = l} (omega arith)
  wrap_rows-last (suc count) j l s e =
      wrap_rows-last count (j + 1) l (wrap_row kek n j n 0 s) (omega arith)

  wrap_rows-IsRegisters :
      (count j : ℕ) (s : Registers) → IsRegisters n s → IsRegisters n (wrap_rows kek n count j s)
  unfolding wrap_rows
  wrap_rows-IsRegisters zero j s k = k
  wrap_rows-IsRegisters (suc count) j s k =
      wrap_rows-IsRegisters count (j + 1) (wrap_row kek n j n 0 s)
        (wrap_row-IsRegisters j n 0 s (omega arith) k)

  unwrap_rows_lem :
      (j : ℕ) (s : Registers) → IsRegisters n s → unwrap_rows kek n j (wrap_rows kek n j 0 s) ≡ s
  unfolding unwrap_rows wrap_rows
  unwrap_rows_lem zero s k = refl
  unwrap_rows_lem (suc j) s k =
      let s' = wrap_rows kek n j 0 s in
      ap (λ (x : Registers). unwrap_rows kek n j (unwrap_row kek n j n x))
        (wrap_rows-last j 0 j s (omega arith))
      ∙ ap (unwrap_rows kek n j)
          (unwrap_row_lem j n s' (omega arith) (wrap_rows-IsRegisters j 0 s k))
      ∙ unwrap_rows_lem j s k

  start_of :
      (bytes : List ℕ)
      → Bytes bytes
      → length bytes ≡ n * 8
      → IsRegisters n (registers initial_value bytes)
  start_of bytes h e = record {
    a_length = refl;
    a_bytes = All-replicate (λ b. b < 256) 8 0xa6 (omega arith);
    r_length = e;
    r_bytes = h;
  }

  -- What the unwrapping starts from is what the wrapping ends with.
  read_back :
      (s : Registers)
      → IsRegisters n s
      → ◌≡◌ {A = Registers} (registers (take 8 (s.a ++ s.r)) (take (n * 8) (drop 8 (s.a ++ s.r)))) s
  read_back s k = ap₂ registers (take-append_self 8 s.a s.r k.a_length) (
      ap (take (n * 8)) (drop-append_past 8 0 s.a s.r (omega (arith, k.a_length)))
      ∙ take_all (n * 8) s.r (omega (arith, k.r_length)))

module _ (kek : List ℕ) where
  unwrap_when :
      (w bytes : List ℕ) (n : ℕ)
      → length w ≡ n * 8 + 8
      → 2 ≤ n
      → unwrap_rows kek n 6 (registers (take 8 w) (take (n * 8) (drop 8 w)))
        ≡ registers initial_value bytes
      → aes_key_unwrap kek w ≡ ok bytes
  unfolding aes_key_unwrap diff_loop
  unwrap_when w bytes n h k e =
      let sizes : ((length w % 8 == 0) && leb 24 (length w)) ≡ true = ground (arith, h, k) in
      let blocks : length w / 8 - 1 ≡ n = omega (arith, h) in rw (sizes, blocks, e) refl

  wrap_when :
      (bytes : List ℕ) (n : ℕ)
      → length bytes ≡ n * 8
      → 2 ≤ n
      → aes_key_wrap kek bytes
        ≡ ok (
            (wrap_rows kek n 6 0 (registers initial_value bytes)).a
            ++ (wrap_rows kek n 6 0 (registers initial_value bytes)).r)
  unfolding aes_key_wrap
  wrap_when bytes n h k =
      let sizes : ((length bytes % 8 == 0) && leb 16 (length bytes)) ≡ true =
        ground (arith, h, k) in
      let blocks : length bytes / 8 ≡ n = omega (arith, h) in rw (sizes, blocks) refl

  wrapped_back :
      (bytes : List ℕ) (n : ℕ)
      → Bytes kek
      → Bytes bytes
      → length bytes ≡ n * 8
      → 2 ≤ n
      → (aes_key_wrap kek bytes >>= aes_key_unwrap kek) ≡ ok bytes
  wrapped_back bytes n hk hb h k =
      let s₀ = registers initial_value bytes in
      let s = wrap_rows kek n 6 0 s₀ in
      let start = start_of kek hk n bytes hb h in
      let end = wrap_rows-IsRegisters kek hk n 6 0 s₀ start in
      ap (λ (m : Run (List ℕ)). m >>= aes_key_unwrap kek) (wrap_when bytes n h k)
      ∙ unwrap_when (s.a ++ s.r) bytes n
          (omega (arith, length-append s.a s.r, end.a_length, end.r_length)) k
          (ap (unwrap_rows kek n 6) (read_back kek hk n s end)
            ∙ unwrap_rows_lem kek hk n 6 s₀ start)

  -- What the wrapping yields: bytes, eight more, from which the unwrapping gives back the others.
  pub wrapped :
      (bytes : List ℕ)
      → Bytes kek
      → Bytes bytes
      → length bytes % 8 ≡ 0
      → 16 ≤ length bytes
      → (w : List ℕ) × (aes_key_wrap kek bytes ≡ ok w)
        × Bytes w
        × (length w ≡ length bytes + 8)
        × (aes_key_unwrap kek w ≡ ok bytes)
  wrapped bytes hk hb h k =
      let n : ℕ = length bytes / 8 in
      let whole : length bytes ≡ n * 8 = omega (arith, h) in
      let s = wrap_rows kek n 6 0 (registers initial_value bytes) in
      let end =
        wrap_rows-IsRegisters kek hk n 6 0 (registers initial_value bytes)
          (start_of kek hk n bytes hb whole) in
      let e = wrap_when bytes n whole (omega arith) in
      (
        s.a ++ s.r,
        e,
        Bytes-append s.a s.r end.a_bytes end.r_bytes,
        omega (arith, length-append s.a s.r, end.a_length, end.r_length, whole),
        ap (λ (m : Run (List ℕ)). m >>= aes_key_unwrap kek) (sym e)
            ∙ wrapped_back bytes n hk hb whole (omega arith),
      )

-- Unwrapping what wrapping yields gives back the bytes, for every key and every number of bytes
-- that is a multiple of eight from sixteen on; neither call fails.
pub aes_key_unwrap-aes_key_wrap :
    (key bytes : List ℕ)
    → Bytes key
    → Bytes bytes
    → length bytes % 8 ≡ 0
    → 16 ≤ length bytes
    → (aes_key_wrap (expand_key key) bytes >>= aes_key_unwrap (expand_key key)) ≡ ok bytes
aes_key_unwrap-aes_key_wrap key bytes hk hb e h =
    wrapped_back (expand_key key) bytes (length bytes / 8) (expand_key-Bytes key hk) hb
      (omega (arith, e)) (omega arith)
