-- ===== src/Crypto/Sha256/Absorb.antt =====
-- The bytes that a hash context stands for, and the blocks that it takes whole.
use re_pico.Base.{
  ℕ, zero, suc, ◌+◌, ◌*◌, ◌/◌, ◌%◌, ◌^◌, ◌≤◌, ◌<◌, ◌≡◌, ◌∙◌, refl, sym, ap, List, [], ◌∷◌, ◌++◌,
  ◌==◌, ==_iff, length, take, drop, arith, inl, inr, Bool-cases, length-append, length-drop, dec_lt,
  le→leb, lt→leb,
}
use re_pico.Base.Slices.{
  take-append_le, take-append_self, drop-append_le, drop-append_past, drop-drop,
}
use re_pico.Base.Run.{ok, copy_to-ok}
use re_pico.Crypto.Sha256.Compress.{compress}
use re_pico.Crypto.Sha256.{Sha256, block_loop, update_blocks, initial_state}

-- The state after `n` whole blocks.
unfoldable pub absorb : ℕ → List ℕ → List ℕ → List ℕ
absorb zero state xs = state
absorb (suc n) state xs = absorb n (compress state (take 64 xs)) (drop 64 xs)

pub absorb-append :
    (n : ℕ) (state xs ys : List ℕ)
    → 64 * n ≤ length xs
    → absorb n state (xs ++ ys) ≡ absorb n state xs
unfolding absorb
absorb-append zero state xs ys h = refl
absorb-append (suc n) state xs ys h =
    rw (take-append_le 64 xs ys (omega arith), drop-append_le 64 xs ys (omega arith))
      (absorb-append n (compress state (take 64 xs)) (drop 64 xs) ys
        (omega (arith, length-drop 64 xs)))

pub zero_plus : (n : ℕ) → 0 + n ≡ n
zero_plus n = omega arith

pub suc_plus : (m n : ℕ) → suc m + n ≡ suc (m + n)
suc_plus m n = omega arith

pub absorb-plus :
    (m n : ℕ) (state xs : List ℕ)
    → absorb (m + n) state xs ≡ absorb n (absorb m state xs) (drop (64 * m) xs)
unfolding absorb
absorb-plus zero n state xs = ap (λ (k : ℕ). absorb k state xs) (zero_plus n)
absorb-plus (suc m) n state xs =
    ap (λ (k : ℕ). absorb k state xs) (suc_plus m n)
    ∙ absorb-plus m n (compress state (take 64 xs)) (drop 64 xs)
    ∙ ap (absorb n (absorb m (compress state (take 64 xs)) (drop 64 xs)))
        (drop-drop 64 (64 * m) (64 * suc m) xs (omega arith))

-- What a context stands for: the bytes that it has been given.
pub record Holds (c : Sha256) (m : List ℕ) : Type 0 where
  pub state : c.state ≡ absorb (length m / 64) initial_state m
  pub size : length c.buf ≡ 64
  pub used : c.buf_used ≡ length m % 64
  pub tail : take c.buf_used c.buf ≡ drop (64 * (length m / 64)) m
  pub total : c.total ≡ length m % 2 ^ 64

pub no_block : (n : ℕ) → n < 64 → n / 64 ≡ 0
no_block n h = omega arith

pub blocks_suc : (xs : List ℕ) → 64 ≤ length xs → length xs / 64 ≡ suc (length (drop 64 xs) / 64)
blocks_suc xs h = omega (arith, length-drop 64 xs)

pub block_loop_lem :
    (fuel : ℕ) (state xs : List ℕ)
    → length xs < fuel
    → block_loop fuel state xs
      ≡ ok (absorb (length xs / 64) state xs, drop (64 * (length xs / 64)) xs)
unfolding block_loop absorb
block_loop_lem zero state xs h = elim h [ ]
block_loop_lem (suc fuel) state xs h = elim (dec_lt (length xs) 64) [
  | yes few ↦ rw (lt→leb 64 (length xs) few, block_loop) (rw (no_block (length xs) few) refl)
  | no many ↦
      rw (le→leb 64 (length xs) (omega arith), block_loop)
        (rw
          (
            blocks_suc xs (omega arith),
            block_loop_lem fuel (compress state (take 64 xs)) (drop 64 xs)
                (omega (arith, length-drop 64 xs)),
            drop-drop 64 (64 * (length (drop 64 xs) / 64)) (64 * suc (length (drop 64 xs) / 64)) xs
                (omega arith),
          )
          refl)
]

pub record Joined (m xs : List ℕ) : Type 0 where
  blocks : length (m ++ xs) / 64 ≡ length m / 64 + length xs / 64
  state :
      absorb (length xs / 64) (absorb (length m / 64) initial_state m) xs
      ≡ absorb (length (m ++ xs) / 64) initial_state (m ++ xs)
  tail : drop (64 * (length (m ++ xs) / 64)) (m ++ xs) ≡ drop (64 * (length xs / 64)) xs
  used : length (drop (64 * (length xs / 64)) xs) ≡ length (m ++ xs) % 64

pub joined : (m xs : List ℕ) → length m % 64 ≡ 0 → Joined m xs
joined m xs h =
    let k : ℕ = length m / 64 in
    let n : ℕ = length xs / 64 in
    let e : length (m ++ xs) / 64 ≡ k + n = omega (arith, length-append m xs) in
    record {
      blocks = e;
      state = rw e (
          sym (
            absorb-plus k n initial_state (m ++ xs)
            ∙ rw
                (
                  absorb-append k initial_state m xs (omega arith),
                  drop-append_past (64 * k) 0 m xs (omega arith),
                )
                refl));
      tail = rw e (drop-append_past (64 * (k + n)) (64 * n) m xs (omega arith));
      used = omega (arith, length-drop (64 * n) xs, length-append m xs);
    }

pub empty : (xs : List ℕ) → length xs ≡ 0 → xs ≡ []
empty [] h = refl
empty (x ∷ xs) h = absurd (omega arith)

pub update_blocks_lem :
    (c : Sha256) (m xs : List ℕ)
    → c.state ≡ absorb (length m / 64) initial_state m
    → length c.buf ≡ 64
    → length m % 64 ≡ 0
    → c.buf_used ≡ 0
    → c.total ≡ length (m ++ xs) % 2 ^ 64
    → (c' : Sha256) × (update_blocks c xs ≡ ok c') × Holds c' (m ++ xs)
unfolding update_blocks
update_blocks_lem c m xs es eb em eu et =
    let j = joined m xs em in
    let rest : List ℕ = drop (64 * (length xs / 64)) xs in
    let state' : List ℕ = absorb (length xs / 64) c.state xs in
    let whole : state' ≡ absorb (length (m ++ xs) / 64) initial_state (m ++ xs) = rw es j.state in
    let short : length rest < 64 = omega (arith, j.used) in
    elim (Bool-cases (length rest == 0)) [
      | inl none_left ↦ (
        record c { state = state' },
        rw (block_loop_lem (length xs + 1) c.state xs (omega arith), none_left) refl,
        record {
          state = whole;
          size = eb;
          used = omega (arith, j.used, (==_iff (length rest) 0).0 none_left);
          tail = rw eu (sym (j.tail ∙ empty rest ((==_iff (length rest) 0).0 none_left)));
          total = et;
        },
      )
      | inr some_left ↦ (
        record c {
          state = state';
          buf = rest ++ drop (0 + length rest) c.buf;
          buf_used = length rest;
        },
        rw
            (
              block_loop_lem (length xs + 1) c.state xs (omega arith),
              some_left,
              copy_to-ok c.buf 0 rest (omega (arith, short)),
            )
            refl,
        record {
          state = whole;
          size = omega (
            arith,
            short,
            length-append rest (drop (0 + length rest) c.buf),
            length-drop (0 + length rest) c.buf,
          );
          used = j.used;
          tail =
              take-append_self (length rest) rest (drop (0 + length rest) c.buf) refl ∙ sym j.tail;
          total = et;
        },
      )
    ]
