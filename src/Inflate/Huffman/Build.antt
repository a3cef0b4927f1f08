-- ===== src/Inflate/Huffman/Build.antt =====
-- `build` on code lengths of at most 15 bits: it stays within its arrays and its table is one that
-- `decode` can use.
use re_pico.Base.{
  ℕ, zero, suc, ◌+◌, ◌^◌, ◌≤◌, ◌<◌, ◌≡◌, ◌∙◌, refl, ap, List, [], ◌∷◌, u16, ltb, ◌==◌, ◌&&◌, length,
  get_or, set, drop, replicate, arith, inl, inr, Bool-cases, if◌then◌else◌, length-set, get_or-set,
  get_or-beyond, dec_lt,
}
use re_pico.Base.Run.{Ensures, returns, Ensures-bind, Ensures-weaken, read-Ensures, write-Ensures}
use native.Mathlib.Numerals.{add-one}
use re_pico.Base.Bytes.{All, drop-cons, drop-all}
use re_pico.Inflate.Huffman.{Huffman, clear, tally, offset_loop, place, build}
use re_pico.Inflate.Huffman.Decode.{IsTable, sum}

-- How many of the lengths are `len`, and how many lie from 1 up to below `len`.
abbrev pub count_of : ℕ → List ℕ → ℕ
count_of len [] = 0
count_of len (x ∷ xs) = (if x == len then 1 else 0) + count_of len xs

abbrev pub shorter : ℕ → List ℕ → ℕ
shorter zero xs = 0
shorter (suc zero) xs = 0
shorter (suc (suc len)) xs = shorter (suc len) xs + count_of (suc len) xs

abbrev pub Lengths : List ℕ → Type 0
Lengths = All (λ l. l < 16)

-- `tally` counts each length.
Tallied : List ℕ → List ℕ → List ℕ → Type 0
Tallied lengths before after =
    (length after ≡ 16) × ((j : ℕ) → get_or after j 0 ≡ get_or before j 0 + count_of j lengths)

tally-Ensures :
    (lengths count : List ℕ)
    → Lengths lengths
    → length count ≡ 16
    → ((j : ℕ) → get_or count j 0 + length lengths < 2 ^ 16)
    → Ensures (Tallied lengths count) (tally lengths count)
unfolding tally Tallied
tally-Ensures [] count h e small = returns (e, λ j. omega arith)
tally-Ensures (l ∷ rest) count h e small = Ensures-bind (read-Ensures count l (omega arith)) λ c ec.
    Ensures-bind (write-Ensures count l (u16 (c + 1)) (omega arith)) λ count' ew.
      let at : (j : ℕ) → get_or count' j 0 ≡ (if l == j then u16 (c + 1) else get_or count j 0) =
        λ j. rw ew (get_or-set count l j (u16 (c + 1)) 0 (omega arith)) in
      Ensures-weaken
        (tally-Ensures rest count' h.1 (rw ew (length-set count l (u16 (c + 1)) ∙ e))
          λ j. ground (arith, small j, at j))
        λ after t. (t.0, λ j. ground (arith, t.1 j, at j, small j, small l))

shorter-cons :
    (j x : ℕ) (xs : List ℕ)
    → shorter j (x ∷ xs) ≡ (if ltb 0 x && ltb x j then 1 else 0) + shorter j xs
shorter-cons zero x xs = ground arith
shorter-cons (suc zero) x xs = ground arith
shorter-cons (suc (suc j)) x xs = ground (arith, shorter-cons (suc j) x xs)

shorter-nil : (j : ℕ) → shorter j [] ≡ 0
shorter-nil zero = refl
shorter-nil (suc zero) = refl
shorter-nil (suc (suc j)) = ground (arith, shorter-nil (suc j))

shorter-le : (j : ℕ) (xs : List ℕ) → shorter j xs ≤ length xs
shorter-le j [] = omega (arith, shorter-nil j)
shorter-le j (x ∷ xs) = ground (arith, shorter-cons j x xs, shorter-le j xs)

-- One length more.
shorter-suc : (j : ℕ) (xs : List ℕ) → 0 < j → shorter (j + 1) xs ≡ shorter j xs + count_of j xs
shorter-suc zero xs h = absurd (omega arith)
shorter-suc (suc j) xs h = rw (add-one (suc j)) refl

module _ (all : List ℕ) (few : length all < 2 ^ 16) where
  -- What `count` and `offsets` hold when the symbols are placed.
  Counted : List ℕ → Type 0
  Counted count = (length count ≡ 16) × ((j : ℕ) → get_or count j 0 ≡ count_of j all)

  OffsetsTo : ℕ → List ℕ → Type 0
  OffsetsTo len offsets =
      (length offsets ≡ 16) × ((j : ℕ) → 0 < j → j ≤ len → get_or offsets j 0 ≡ shorter j all)

  offset_loop-Ensures :
      (n len : ℕ) (count offsets : List ℕ)
      → n + len ≡ 15
      → 0 < len
      → Counted count
      → OffsetsTo len offsets
      → Ensures (OffsetsTo 15) (offset_loop n len count offsets)
  unfolding offset_loop Counted OffsetsTo
  offset_loop-Ensures zero len count offsets e p c o = returns (o.0, λ j h k. o.1 j h (omega arith))
  offset_loop-Ensures (suc n) len count offsets e p c o =
      Ensures-bind (read-Ensures offsets len (omega (arith, o.0))) λ x ex.
        Ensures-bind (read-Ensures count len (omega (arith, c.0))) λ y ey.
          Ensures-bind (write-Ensures offsets (len + 1) (u16 (x + y)) (omega (arith, o.0)))
            λ offsets' ew.
              let at : (j : ℕ)
                  → get_or offsets' j 0
                    ≡ (if (len + 1) == j then u16 (x + y) else get_or offsets j 0) =
                λ j. rw ew (get_or-set offsets (len + 1) j (u16 (x + y)) 0 (omega (arith, o.0))) in
              offset_loop-Ensures n (len + 1) count offsets' (omega arith) (omega arith) c (
                rw ew (length-set offsets (len + 1) (u16 (x + y)) ∙ o.0),
                λ j h k. ground (
                  arith,
                  at j,
                  o.1 j h,
                  o.1 len p,
                  c.1 len,
                  shorter-suc len all p,
                  shorter-le (len + 1) all,
                ),
              )

  started-OffsetsTo : (started : List ℕ) → started ≡ set (replicate 16 0) 1 0 → OffsetsTo 1 started
  unfolding OffsetsTo
  started-OffsetsTo started e = rw e (refl, λ j h k. only_one j h k)
    where
      only_one : (j : ℕ) → 0 < j → j ≤ 1 → get_or (set (replicate 16 0) 1 0) j 0 ≡ shorter j all
      only_one zero h k = absurd (omega arith)
      only_one (suc zero) h k = refl
      only_one (suc (suc j)) h k = absurd (omega arith)

  -- While symbols are placed, each offset is short of the end of its run by the symbols to come.
  Placing : List ℕ → List ℕ → Type 0
  Placing rest offsets =
      (length offsets ≡ 16)
      × ((j : ℕ) → 0 < j → j < 16 → get_or offsets j 0 + count_of j rest ≡ shorter (j + 1) all)

  place-Ensures :
      (rest : List ℕ) (sym : ℕ) (offsets symbol : List ℕ)
      → Lengths rest
      → length all ≤ length symbol
      → Placing rest offsets
      → Ensures (λ out. length out ≡ length symbol) (place rest sym offsets symbol)
  unfolding place Placing
  place-Ensures [] sym offsets symbol h fit o = returns refl
  place-Ensures (l ∷ rest) sym offsets symbol h fit o = elim (Bool-cases (l == 0)) [
    | inl z ↦
        rw (z, place)
          (place-Ensures rest (sym + 1) offsets symbol h.1 fit
            (o.0, λ j p k. ground (arith, o.1 j p k)))
    | inr z ↦
        rw (z, place)
          (Ensures-bind (read-Ensures offsets l (omega (arith, o.0, h.0))) λ x ex.
            let here : x + 1 + count_of l rest ≡ shorter (l + 1) all = ground (arith, o.1 l, h.0) in
            Ensures-bind
              (write-Ensures symbol x (u16 sym) (omega (arith, here, shorter-le (l + 1) all)))
              λ symbol' es.
                Ensures-bind (write-Ensures offsets l (u16 (x + 1)) (omega (arith, o.0, h.0)))
                  λ offsets' ew.
                    let at : (j : ℕ)
                        → get_or offsets' j 0
                          ≡ (if l == j then u16 (x + 1) else get_or offsets j 0) =
                      λ j.
                        rw ew (get_or-set offsets l j (u16 (x + 1)) 0 (omega (arith, o.0, h.0))) in
                    let same : length symbol' ≡ length symbol =
                      rw es (length-set symbol x (u16 sym)) in
                    Ensures-weaken
                      (place-Ensures rest (sym + 1) offsets' symbol' h.1 (omega arith) (
                        rw ew (length-set offsets l (u16 (x + 1)) ∙ o.0),
                        λ j p k. ground (arith, at j, o.1 j p k, here, shorter-le (l + 1) all),
                      ))
                      λ out e. e ∙ same)
  ]

  -- The counts from `len` on are the symbols whose length is `len` or more.
  sum_of_counts :
      (n len top : ℕ) (count : List ℕ)
      → n + len ≡ top
      → top ≡ 16
      → 0 < len
      → Counted count
      → shorter len all + sum (drop len count) ≡ shorter top all
  unfolding Counted
  sum_of_counts zero len top count e e' p c =
      let same_end : len ≡ top = omega arith in
      rw (drop-all count len (omega (arith, c.0))) (rw same_end (omega arith))
  sum_of_counts (suc n) len top count e e' p c = omega (
    arith,
    ap sum (drop-cons count len (omega (arith, c.0))),
    c.1 len,
    shorter-suc len all p,
    sum_of_counts n (len + 1) top count (omega arith) e' (omega arith) c,
  )

Zeroed : ℕ → List ℕ → Type 0
Zeroed len count = (length count ≡ 16) × ((j : ℕ) → j < len → get_or count j 0 ≡ 0)

clear-Ensures :
    (n len : ℕ) (count : List ℕ)
    → n + len ≡ 16
    → Zeroed len count
    → Ensures (Zeroed 16) (clear n len count)
unfolding clear Zeroed
clear-Ensures zero len count e z = returns (z.0, λ j h. z.1 j (omega arith))
clear-Ensures (suc n) len count e z =
    Ensures-bind (write-Ensures count len 0 (omega (arith, z.0))) λ count' ew.
      clear-Ensures n (len + 1) count' (omega arith) (
        rw ew (length-set count len 0 ∙ z.0),
        λ j h. rw ew (ground (arith, get_or-set count len j 0 0 (omega (arith, z.0)), z.1 j)),
      )

-- `build` stays within its arrays and gives a table that `decode` can use, for any code lengths of
-- at most 15 bits, whether or not they make up a prefix code, if `symbol` has a place for each.
pub build-Ensures :
    (h : Huffman) (lengths : List ℕ)
    → Lengths lengths
    → length h.count ≡ 16
    → length lengths ≤ length h.symbol
    → length lengths < 2 ^ 16
    → Ensures IsTable (build h lengths)
unfolding build Zeroed Tallied Counted OffsetsTo Placing
build-Ensures h lengths short room fit few =
    Ensures-bind (clear-Ensures 16 0 h.count (omega arith) (room, λ j k. absurd (omega arith)))
      λ blank z.
        let none_yet : (j : ℕ) → get_or blank j 0 ≡ 0 = λ j. elim (dec_lt j 16) [
          | yes k ↦ z.1 j k
          | no k ↦ get_or-beyond blank j 0 (omega (arith, z.0))
        ] in
        Ensures-bind (tally-Ensures lengths blank short z.0 (λ j. omega (arith, none_yet j)))
          λ count t.
            let counted : (j : ℕ) → get_or count j 0 ≡ count_of j lengths =
              λ j. omega (arith, t.1 j, none_yet j) in
            Ensures-bind (write-Ensures (replicate 16 0) 1 0 (omega arith)) λ started ew.
              Ensures-bind
                (offset_loop-Ensures lengths few 14 1 count started (omega arith) (omega arith)
                  (t.0, counted) (started-OffsetsTo lengths few started ew))
                λ offsets o.
                  Ensures-bind
                    (place-Ensures lengths few lengths 0 offsets h.symbol short fit
                      (o.0, λ j p k. omega (arith, o.1 j p, shorter-suc j lengths p)))
                    λ symbol e. returns (record {
                      lengths = t.0;
                      room = omega (
                        arith,
                        sum_of_counts lengths few 15 1 16 count refl refl (omega arith)
                            (t.0, counted),
                        shorter-le 16 lengths,
                        e,
                      );
                    })
