-- ===== src/Crypto/Sha256/Stream.antt =====
-- A hash taken piece by piece is the hash of the whole.
use re_pico.Base.{
  ℕ, ◌+◌, ◌-◌, ◌*◌, ◌/◌, ◌%◌, ◌^◌, ◌≤◌, ◌<◌, ◌≡◌, ◌∙◌, refl, sym, subst, ap, ap₂, List, ◌++◌, min,
  ◌==◌, ==_iff, length, take, drop, arith, inl, inr, Bool-cases, length-append, length-take,
  length-drop, take-append-drop, append_assoc, dec_lt, lt→ltb, le→ltb,
}
use re_pico.Base.Slices.{take_all, take-append_self, take-append_past, drop-append_le}
use re_pico.Base.Run.{ok, copy_to-ok}
use re_pico.Crypto.Sha256.Compress.{compress}
use re_pico.Crypto.Sha256.{Sha256, update, initial_state}
use re_pico.Crypto.Sha256.Absorb.{absorb, absorb-append, absorb-plus, Holds, update_blocks_lem}

-- The buffer after a copy behind the bytes that it holds.
filled :
    (c : Sha256) (m xs : List ℕ)
    → Holds c m
    → c.buf_used + length xs ≤ 64
    → take
        (c.buf_used + length xs)
        (take c.buf_used c.buf ++ (xs ++ drop (c.buf_used + length xs) c.buf))
      ≡ drop (64 * (length m / 64)) (m ++ xs)
filled c m xs v fit =
    take-append_past (c.buf_used + length xs) (length xs) (take c.buf_used c.buf) _
      (omega (arith, length-take c.buf_used c.buf, v.size))
    ∙ ap₂ ◌++◌ v.tail (take-append_self (length xs) xs _ refl)
    ∙ sym (drop-append_le (64 * (length m / 64)) m xs (omega arith))

filled_size :
    (c : Sha256) (xs : List ℕ)
    → length c.buf ≡ 64
    → c.buf_used + length xs ≤ 64
    → length (take c.buf_used c.buf ++ (xs ++ drop (c.buf_used + length xs) c.buf)) ≡ 64
filled_size c xs e fit =
    rw
      (
        length-append (take c.buf_used c.buf) (xs ++ drop (c.buf_used + length xs) c.buf),
        length-append xs (drop (c.buf_used + length xs) c.buf),
        length-take c.buf_used c.buf,
        length-drop (c.buf_used + length xs) c.buf,
      )
      (omega arith)

-- The buffer stays open.
stays_open :
    (c : Sha256) (m xs : List ℕ) (total : ℕ)
    → Holds c m
    → c.buf_used + length xs < 64
    → total ≡ length (m ++ xs) % 2 ^ 64
    → Holds
        (record c {
          total = total;
          buf = take c.buf_used c.buf ++ (xs ++ drop (c.buf_used + length xs) c.buf);
          buf_used = c.buf_used + length xs;
        })
        (m ++ xs)
stays_open c m xs total v room et =
    let e : length (m ++ xs) / 64 ≡ length m / 64 = omega (arith, v.used, length-append m xs) in
    record {
      state = rw e (v.state ∙ sym (absorb-append (length m / 64) initial_state m xs (omega arith)));
      size = filled_size c xs v.size (omega arith);
      used = omega (arith, v.used, length-append m xs);
      tail = rw e (filled c m xs v (omega arith));
      total = et;
    }

-- The buffer is full, and is absorbed.
closes :
    (c : Sha256) (m xs : List ℕ)
    → Holds c m
    → c.buf_used + length xs ≡ 64
    → compress c.state (take c.buf_used c.buf ++ (xs ++ drop (c.buf_used + length xs) c.buf))
      ≡ absorb (length (m ++ xs) / 64) initial_state (m ++ xs)
unfolding absorb
closes c m xs v full =
    let k : ℕ = length m / 64 in
    let buf' : List ℕ = take c.buf_used c.buf ++ (xs ++ drop (c.buf_used + length xs) c.buf) in
    let e : length (m ++ xs) / 64 ≡ k + 1 = omega (arith, v.used, length-append m xs) in
    let size : length buf' ≡ 64 = filled_size c xs v.size (omega arith) in
    let rest : buf' ≡ drop (64 * k) (m ++ xs) =
      sym (take_all (c.buf_used + length xs) buf' (omega arith)) ∙ filled c m xs v (omega arith) in
    rw e (
      ap₂ compress (v.state ∙ sym (absorb-append k initial_state m xs (omega arith)))
        (rest ∙ sym (take_all 64 (drop (64 * k) (m ++ xs)) (omega (arith, ap length rest))))
      ∙ sym (absorb-plus k 1 initial_state (m ++ xs)))

all_fits : (n u : ℕ) → u + n < 64 → min n (64 - u) ≡ n
all_fits n u h = omega arith

some_fits : (n u : ℕ) → 64 ≤ u + n → min n (64 - u) ≡ 64 - u
some_fits n u h = omega arith

-- `update` appends: a context that has been given `m`, given `xs`, has been given `m ++ xs`; it does
-- not leave its buffer, and its loop ends.
pub update_lem :
    (c : Sha256) (m xs : List ℕ)
    → Holds c m
    → (c' : Sha256) × (update c xs ≡ ok c') × Holds c' (m ++ xs)
unfolding update
update_lem c m xs v =
    let u : ℕ = c.buf_used in
    let total : (c.total + length xs) % 2 ^ 64 ≡ length (m ++ xs) % 2 ^ 64 =
      omega (arith, v.total, length-append m xs) in
    elim (Bool-cases (u == 0)) [
      | inl fresh_block ↦
          let zero_used : u ≡ 0 = (==_iff u 0).0 fresh_block in
          rw fresh_block (
            update_blocks_lem (record c { total = (c.total + length xs) % 2 ^ 64 }) m xs v.state
              v.size (sym v.used ∙ zero_used) zero_used total)
      | inr open_block ↦ elim (dec_lt (u + length xs) 64) [
        | yes room ↦ (
          _,
          rw
              (
                open_block,
                all_fits (length xs) u room,
                take_all (length xs) xs (omega arith),
                copy_to-ok c.buf u xs (omega (arith, v.size)),
                lt→ltb (u + length xs) 64 room,
              )
              refl,
          stays_open c m xs ((c.total + length xs) % 2 ^ 64) v room total,
        )
        | no full ↦
            let ahead : List ℕ = take (64 - u) xs in
            let behind : List ℕ = drop (64 - u) xs in
            let ea : length ahead ≡ 64 - u = omega (arith, length-take (64 - u) xs) in
            let used : u < 64 = omega (arith, v.used) in
            let whole : (m ++ ahead) ++ behind ≡ m ++ xs =
              append_assoc m ahead behind ∙ ap (◌++◌ m) (take-append-drop (64 - u) xs) in
            let (c', e, h) =
              update_blocks_lem
                (record c {
                  total = (c.total + length xs) % 2 ^ 64;
                  buf = take u c.buf ++ (ahead ++ drop (u + length ahead) c.buf);
                  buf_used = 0;
                  state =
                      compress c.state (take u c.buf ++ (ahead ++ drop (u + length ahead) c.buf));
                })
                (m ++ ahead) behind (closes c m ahead v (omega arith))
                (filled_size c ahead v.size (omega arith))
                (omega (arith, v.used, length-append m ahead)) refl
                (total ∙ sym (ap (λ (w : List ℕ). length w % 2 ^ 64) whole)) in
            (
              c',
              rw
                  (
                    open_block,
                    some_fits (length xs) u (omega arith),
                    copy_to-ok c.buf u ahead (omega (arith, v.size)),
                    le→ltb (u + (64 - u)) 64 (omega arith),
                  )
                  e,
              subst (Holds c') whole h,
            )
      ]
    ]
