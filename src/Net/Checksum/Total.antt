-- ===== src/Net/Checksum/Total.antt =====
-- The internet checksum as arithmetic modulo 65535.
use re_pico.Base.{
  ℕ, suc, ◌+◌, ◌-◌, ◌*◌, ◌/◌, ◌%◌, ◌^◌, ◌≤◌, ◌<◌, ◌≡◌, ◌∙◌, refl, ap, List, [], ◌∷◌, u32, length,
  arith, dec_lt,
}
use re_pico.Base.Bits.{bit_and_mask, bit_or-zero, bit_or_high_low}
use re_pico.Base.Bytes.{Bytes}
use re_pico.Base.Run.{ok}
use re_pico.Net.Checksum.{sum_words, fold, pseudo_header, checksum, l4_checksum}

-- The plain sum of the words.
unfoldable pub words_total : List ℕ → ℕ
words_total [] = 0
words_total (hi ∷ []) = hi * 256
words_total (hi ∷ lo ∷ rest) = hi * 256 + lo + words_total rest

-- The 16 bits that a sum folds to.
pub record IsFolded (sum r : ℕ) : Type 0 where
  pub small : r ≤ 65535
  pub same : r % 65535 ≡ sum % 65535
  pub zero_only : r ≡ 0 → sum ≡ 0
  pub of_zero : sum ≡ 0 → r ≡ 0

round : ℕ → ℕ
round s = s % 65536 + s / 65536

fold_done : (n s : ℕ) → s < 65536 → fold (suc n) s ≡ ok (65535 - s)
unfolding fold
fold_done n s h = ground arith

fold_more : (n s : ℕ) → 65536 ≤ s → s < 2 ^ 32 → fold (suc n) s ≡ fold n (round s)
unfolding fold round
fold_more n s h h' = ground (arith, bit_and_mask 16 s)

pub fold_lem : (s : ℕ) → s < 2 ^ 32 → (r : ℕ) × (fold 3 s ≡ ok (65535 - r)) × IsFolded s r
unfolding round
fold_lem s h = elim (dec_lt s 65536) [
  | yes a ↦ (
    s,
    fold_done 2 s a,
    record { small = omega arith; same = refl; zero_only = λ e. e; of_zero = λ e. e },
  )
  | no a ↦ elim (dec_lt (round s) 65536) [
    | yes b ↦ (
      round s,
      fold_more 2 s (omega arith) h ∙ fold_done 1 (round s) b,
      record {
        small = omega arith;
        same = omega arith;
        zero_only = λ e. omega arith;
        of_zero = λ e. omega arith;
      },
    )
    | no b ↦ (
      round (round s),
      fold_more 2 s (omega arith) h
          ∙ fold_more 1 (round s) (omega arith) (omega arith)
          ∙ fold_done 0 (round (round s)) (omega arith),
      record {
        small = omega arith;
        same = omega arith;
        zero_only = λ e. omega arith;
        of_zero = λ e. omega arith;
      },
    )
  ]
]

pub words_total-bound : (xs : List ℕ) → Bytes xs → words_total xs ≤ 32768 * (length xs + 1)
unfolding words_total
words_total-bound [] b = omega arith
words_total-bound (hi ∷ []) b = omega (arith, b.0)
words_total-bound (hi ∷ lo ∷ rest) b = omega (arith, b.0, b.1.0, words_total-bound rest b.1.1)

pub sum_words_lem :
    (sum : ℕ) (xs : List ℕ)
    → Bytes xs
    → sum < 2 ^ 32
    → sum_words sum xs ≡ u32 (sum + words_total xs)
unfolding sum_words words_total
sum_words_lem sum [] b h = omega arith
sum_words_lem sum (hi ∷ []) b h = ground (arith, b.0, bit_or-zero (u32 (hi * 256)))
sum_words_lem sum (hi ∷ lo ∷ rest) b h = ground (
  arith,
  b.0,
  b.1.0,
  bit_or_high_low 8 hi lo,
  sum_words_lem (u32 (sum + (hi * 256 + lo))) rest b.1.1,
)

pub pseudo-Bytes : (src dst proto len : ℕ) → proto < 256 → Bytes (pseudo_header src dst proto len)
unfolding pseudo_header
pseudo-Bytes src dst proto len h = omega arith

-- The sum that the checksum of a segment is taken of.
unfoldable pub l4_total : ℕ → ℕ → ℕ → List ℕ → ℕ
l4_total src dst proto segment =
    words_total (pseudo_header src dst proto (length segment)) + words_total segment

pseudo-bound :
    (src dst proto len : ℕ) → proto < 256 → words_total (pseudo_header src dst proto len) ≤ 425984
unfolding pseudo_header
pseudo-bound src dst proto len h =
    words_total-bound (pseudo_header src dst proto len) (pseudo-Bytes src dst proto len h)

-- The checksum of a segment of fewer than 65536 bytes is found in three rounds of folding, and is the
-- complement of a number of 16 bits that equals the plain sum of all words, pseudo header included,
-- modulo 65535, and is zero only where that sum is zero.
pub l4_checksum_lem :
    (src dst proto : ℕ) (segment : List ℕ)
    → proto < 256
    → Bytes segment
    → length segment < 65536
    → (r : ℕ) × (l4_checksum src dst proto segment ≡ ok (65535 - r))
      × IsFolded (l4_total src dst proto segment) r
unfolding l4_checksum l4_total
l4_checksum_lem src dst proto segment h b small =
    let pseudo : List ℕ = pseudo_header src dst proto (length segment) in
    let low : words_total pseudo ≤ 425984 = pseudo-bound src dst proto (length segment) h in
    let high : words_total segment ≤ 32768 * (length segment + 1) = words_total-bound segment b in
    let (r, e, f) = fold_lem (words_total pseudo + words_total segment) (omega arith) in
    (
      r,
      rw (sum_words_lem 0 pseudo (pseudo-Bytes src dst proto (length segment) h) (omega arith)) (
          rw (sum_words_lem (u32 (0 + words_total pseudo)) segment b (omega arith))
            (ap (fold 3) (omega arith) ∙ e)),
      f,
    )

-- The same of the bytes alone.
pub checksum_lem :
    (xs : List ℕ)
    → Bytes xs
    → length xs < 65536
    → (r : ℕ) × (checksum xs ≡ ok (65535 - r)) × IsFolded (words_total xs) r
unfolding checksum
checksum_lem xs b small =
    let high : words_total xs ≤ 32768 * (length xs + 1) = words_total-bound xs b in
    let (r, e, f) = fold_lem (words_total xs) (omega arith) in
    (r, rw (sum_words_lem 0 xs b (omega arith)) (ap (fold 3) (omega arith) ∙ e), f)

-- Adding the checksum to the sum makes the sum's own checksum zero.
pub folds_to_zero :
    (t t' r r' : ℕ) → IsFolded t r → IsFolded t' r' → t' ≡ t + (65535 - r) → 65535 - r' ≡ 0
folds_to_zero t t' r r' f f' e =
    ground (arith, f.small, f.same, f.zero_only, f.of_zero, f'.small, f'.same, f'.zero_only)
