-- ===== src/Crypto/Sha256/Padding.antt =====
-- The padding of a message, and the blocks that `finish` makes of it.
use re_pico.Base.{
  ℕ, zero, suc, ◌+◌, ◌-◌, ◌*◌, ◌/◌, ◌%◌, ◌^◌, ◌≤◌, ◌<◌, ◌≡◌, ◌∙◌, refl, sym, ap, ap₂, List, [], ◌∷◌,
  ◌++◌, u8, length, take, drop, replicate, set, arith, length-append, length-take, length-drop,
  length-set, length-replicate, take-append-drop, append_assoc, append-nil,
}
use re_pico.Base.Slices.{
  take_all, take-append_le, take-append_self, take-append_past, drop-append_past, drop-append_le,
  drop-drop, set-splice, take-take,
}
use re_pico.Base.Bytes.{drop-all}
use re_pico.Base.Run.{ok, write-ok}
use re_pico.Crypto.Sha256.Compress.{compress}
use re_pico.Crypto.Sha256.{zero_loop, length_loop, digest_bytes, finish_block, initial_state}
use re_pico.Crypto.Sha256.Absorb.{absorb, absorb-append, absorb-plus}

-- The low `n` bytes from byte `i` on, highest first.
unfoldable pub high_first : ℕ → ℕ → ℕ → List ℕ
high_first zero i bits = []
high_first (suc n) i bits = high_first n (i + 1) bits ++ u8 (bits / 2 ^ (i * 8)) ∷ []

-- What FIPS 180-4 puts behind a message of `n` bytes.
unfoldable pub padding : ℕ → List ℕ
padding n = 0x80 ∷ (replicate ((119 - n % 64) % 64) 0 ++ high_first 8 0 (n * 8))

-- The hash of a message: the padded message, block by block.
unfoldable pub digest_of : List ℕ → List ℕ
digest_of m =
    let padded = m ++ padding (length m) in
    digest_bytes (absorb (length padded / 64) initial_state padded)

-- One write at the end of a part that stays.
pub extend_part :
    (buf : List ℕ) (i v : ℕ)
    → i < length buf
    → (take (i + 1) (set buf i v) ≡ take i buf ++ v ∷ [])
      × ((k : ℕ) → i < k → drop k (set buf i v) ≡ drop k buf)
extend_part buf i v h = (
  rw (set-splice buf i v h) (
      take-append_past (i + 1) 1 (take i buf) (v ∷ drop (suc i) buf)
        (omega (arith, length-take i buf))),
  λ k l. rw (set-splice buf i v h) (
      drop-append_past k (suc (k - suc i)) (take i buf) (v ∷ drop (suc i) buf)
        (omega (arith, length-take i buf))
      ∙ drop-drop (suc i) (k - suc i) k buf (omega arith)),
)

pub before : (buf : List ℕ) (i k v : ℕ) → i < length buf → k ≤ i → take k (set buf i v) ≡ take k buf
before buf i k v h l = rw (set-splice buf i v h) (
    take-append_le k (take i buf) (v ∷ drop (suc i) buf) (omega (arith, length-take i buf))
    ∙ take-take k i buf l)

pub at_place :
    (buf : List ℕ) (i j k v : ℕ)
    → i < length buf
    → j ≡ i
    → k ≡ suc i
    → drop j (set buf i v) ≡ v ∷ drop k buf
at_place buf i j k v h ej ek =
    rw (set-splice buf i v h, ek)
      (drop-append_past j 0 (take i buf) (v ∷ drop (suc i) buf) (omega (arith, length-take i buf)))

pub zero_loop_lem :
    (n i : ℕ) (buf : List ℕ)
    → i + n ≤ length buf
    → zero_loop n i buf ≡ ok (take i buf ++ (replicate n 0 ++ drop (i + n) buf))
unfolding zero_loop
zero_loop_lem zero i buf h =
    ap ok (sym (take-append-drop i buf) ∙ ap (λ (k : ℕ). take i buf ++ drop k buf) (omega arith))
zero_loop_lem (suc n) i buf h =
    let (front, back) = extend_part buf i 0 (omega arith) in
    rw
      (
        write-ok buf i 0 (omega arith),
        zero_loop_lem n (i + 1) (set buf i 0) (omega (arith, length-set buf i 0)),
        front,
        back (i + 1 + n) (omega arith),
      )
      (ap ok (
        append_assoc (take i buf) (0 ∷ []) (replicate n 0 ++ drop (i + 1 + n) buf)
        ∙ ap (λ (k : ℕ). take i buf ++ 0 ∷ (replicate n 0 ++ drop k buf)) (omega arith)))

pub length_loop_lem :
    (n i bits : ℕ) (buf : List ℕ)
    → length buf ≡ 64
    → i + n ≤ 64
    → length_loop n i bits buf
      ≡ ok (take (64 - i - n) buf ++ (high_first n i bits ++ drop (64 - i) buf))
unfolding length_loop high_first
length_loop_lem zero i bits buf e h = ap ok (
    sym (take-append-drop (64 - i) buf)
    ∙ ap (λ (k : ℕ). take k buf ++ drop (64 - i) buf) (omega arith))
length_loop_lem (suc n) i bits buf e h =
    let place : ℕ = 63 - i in
    let byte : ℕ = u8 (bits / 2 ^ (i * 8)) in
    let buf' : List ℕ = set buf place byte in
    rw
      (
        write-ok buf place byte (omega arith),
        length_loop_lem n (i + 1) bits buf' (length-set buf place byte ∙ e) (omega arith),
      )
      (ap ok (
        ap₂ ◌++◌
          (before buf place (64 - (i + 1) - n) byte (omega arith) (omega arith)
            ∙ ap (λ (k : ℕ). take k buf) (omega arith))
          (ap (◌++◌ (high_first n (i + 1) bits)) (
              at_place buf place (64 - (i + 1)) (64 - i) byte (omega arith) (omega arith)
                (omega arith))
            ∙ sym (append_assoc (high_first n (i + 1) bits) (byte ∷ []) (drop (64 - i) buf)))))

pub length-high_first : (n i bits : ℕ) → length (high_first n i bits) ≡ n
unfolding high_first
length-high_first zero i bits = refl
length-high_first (suc n) i bits = omega (
  arith,
  length-append (high_first n (i + 1) bits) (u8 (bits / 2 ^ (i * 8)) ∷ []),
  length-high_first n (i + 1) bits,
)

pub nothing_left : (xs : List ℕ) → length xs ≡ 64 → drop 64 xs ≡ []
nothing_left xs e = drop-all xs 64 (omega arith)

pub finish_block_lem :
    (state buf : List ℕ) (used bits : ℕ)
    → length buf ≡ 64
    → used ≤ 56
    → finish_block state buf used bits
      ≡ ok (
          digest_bytes
            (compress state (take used buf ++ (replicate (56 - used) 0 ++ high_first 8 0 bits))))
unfolding finish_block
finish_block_lem state buf used bits e h =
    let zeros : List ℕ = replicate (56 - used) 0 in
    let buf1 : List ℕ = take used buf ++ (zeros ++ drop (used + (56 - used)) buf) in
    let ez : length zeros ≡ 56 - used = length-replicate {A = ℕ} (56 - used) 0 in
    let size : length buf1 ≡ 64 = omega (
      arith,
      length-append (take used buf) (zeros ++ drop (used + (56 - used)) buf),
      length-append zeros (drop (used + (56 - used)) buf),
      length-take used buf,
      length-drop (used + (56 - used)) buf,
    ) in
    rw
      (
        zero_loop_lem (56 - used) used buf (omega arith),
        length_loop_lem 8 0 bits buf1 size (omega arith),
      )
      (ap (λ (b : List ℕ). ok (digest_bytes (compress state b)))
        (ap₂ ◌++◌
            (take-append_past 56 (56 - used) (take used buf)
                (zeros ++ drop (used + (56 - used)) buf) (omega (arith, length-take used buf))
              ∙ ap (◌++◌ (take used buf))
                  (take-append_self (56 - used) zeros (drop (used + (56 - used)) buf) ez))
            (ap (◌++◌ (high_first 8 0 bits)) (nothing_left buf1 size)
              ∙ append-nil (high_first 8 0 bits))
          ∙ append_assoc (take used buf) zeros (high_first 8 0 bits)))

pub absorb_last :
    (m tail : List ℕ)
    → length tail ≡ 64 - length m % 64
    → absorb (length (m ++ tail) / 64) initial_state (m ++ tail)
      ≡ compress (absorb (length m / 64) initial_state m) (drop (64 * (length m / 64)) m ++ tail)
unfolding absorb
absorb_last m tail e =
    let k : ℕ = length m / 64 in
    let block : List ℕ = drop (64 * k) m ++ tail in
    let count : length (m ++ tail) / 64 ≡ k + 1 = omega (arith, length-append m tail) in
    rw
      (
        count,
        absorb-plus k 1 initial_state (m ++ tail),
        absorb-append k initial_state m tail (omega arith),
        drop-append_le (64 * k) m tail (omega arith),
      )
      (ap (compress (absorb k initial_state m)) (
        take_all 64 block
          (omega (arith, length-append (drop (64 * k) m) tail, length-drop (64 * k) m))))

pub absorb_last_two :
    (m front back : List ℕ)
    → length front ≡ 64 - length m % 64
    → length back ≡ 64
    → absorb (length (m ++ (front ++ back)) / 64) initial_state (m ++ (front ++ back))
      ≡ compress
          (compress
            (absorb (length m / 64) initial_state m)
            (drop (64 * (length m / 64)) m ++ front))
          back
unfolding absorb
absorb_last_two m front back ef eb =
    let m1 : List ℕ = m ++ front in
    let k : ℕ = length m1 / 64 in
    let whole : length m1 % 64 ≡ 0 = omega (arith, length-append m front) in
    let count : length (m1 ++ back) / 64 ≡ k + 1 = omega (arith, length-append m1 back) in
    rw
      (
        ← append_assoc m front back,
        count,
        absorb-plus k 1 initial_state (m1 ++ back),
        absorb-append k initial_state m1 back (omega arith),
        drop-append_past (64 * k) 0 m1 back (omega arith),
        absorb_last m front ef,
      )
      (ap
        (compress (
          compress (absorb (length m / 64) initial_state m)
            (drop (64 * (length m / 64)) m ++ front)))
        (take_all 64 back (omega arith)))
