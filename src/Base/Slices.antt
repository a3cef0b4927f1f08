-- ===== src/Base/Slices.antt =====
-- Parts of lists: `take` and `drop` against `++` and against each other.
use re_pico.Base.Lists.{get_or, length, take, drop, replicate, set}
use Prim.Native.Nat.{ℕ, zero, suc, ◌+◌, ◌≤◌, ◌<◌}
use mathlib.Core.Path.{◌≡◌, refl, sym, ap}
use mathlib.Core.List.{List, [], ◌∷◌, ◌++◌}
use native.Mathlib.Omega.{arith}

module _ {ℓ} {A : Type ℓ} where
  pub take_nil : (n : ℕ) → take {A = A} n [] ≡ []
  take_nil zero = refl
  take_nil (suc n) = refl

  pub drop_nil : (n : ℕ) → drop {A = A} n [] ≡ []
  drop_nil zero = refl
  drop_nil (suc n) = refl

  pub take_all : (n : ℕ) (xs : List A) → length xs ≤ n → take n xs ≡ xs
  take_all n [] h = take_nil n
  take_all zero (x ∷ xs) h = absurd (omega arith)
  take_all (suc n) (x ∷ xs) h = ap (◌∷◌ x) (take_all n xs (omega arith))

  pub take-append_le : (n : ℕ) (xs ys : List A) → n ≤ length xs → take n (xs ++ ys) ≡ take n xs
  take-append_le zero xs ys h = refl
  take-append_le (suc n) [] ys h = absurd (omega arith)
  take-append_le (suc n) (x ∷ xs) ys h = ap (◌∷◌ x) (take-append_le n xs ys (omega arith))

  pub take-append_self : (n : ℕ) (xs ys : List A) → length xs ≡ n → take n (xs ++ ys) ≡ xs
  take-append_self zero [] ys h = refl
  take-append_self zero (x ∷ xs) ys h = absurd (omega arith)
  take-append_self (suc n) [] ys h = absurd (omega arith)
  take-append_self (suc n) (x ∷ xs) ys h = ap (◌∷◌ x) (take-append_self n xs ys (omega arith))

  -- Past the first list by `m`.
  pub take-append_past :
      (n m : ℕ) (xs ys : List A) → length xs + m ≡ n → take n (xs ++ ys) ≡ xs ++ take m ys
  take-append_past n m [] ys h = ap (λ (k : ℕ). take k ys) (omega arith)
  take-append_past zero m (x ∷ xs) ys h = absurd (omega arith)
  take-append_past (suc n) m (x ∷ xs) ys h = ap (◌∷◌ x) (take-append_past n m xs ys (omega arith))

  pub drop-append_le :
      (n : ℕ) (xs ys : List A) → n ≤ length xs → drop n (xs ++ ys) ≡ drop n xs ++ ys
  drop-append_le zero xs ys h = refl
  drop-append_le (suc n) [] ys h = absurd (omega arith)
  drop-append_le (suc n) (x ∷ xs) ys h = drop-append_le n xs ys (omega arith)

  pub drop-append_past :
      (n m : ℕ) (xs ys : List A) → length xs + m ≡ n → drop n (xs ++ ys) ≡ drop m ys
  drop-append_past n m [] ys h = ap (λ (k : ℕ). drop k ys) (omega arith)
  drop-append_past zero m (x ∷ xs) ys h = absurd (omega arith)
  drop-append_past (suc n) m (x ∷ xs) ys h = drop-append_past n m xs ys (omega arith)

  pub take-take : (m n : ℕ) (xs : List A) → m ≤ n → take m (take n xs) ≡ take m xs
  take-take zero n xs h = refl
  take-take (suc m) zero xs h = absurd (omega arith)
  take-take (suc m) (suc n) [] h = refl
  take-take (suc m) (suc n) (x ∷ xs) h = ap (◌∷◌ x) (take-take m n xs (omega arith))

  pub drop-take : (c n m : ℕ) (xs : List A) → m + c ≡ n → drop c (take n xs) ≡ take m (drop c xs)
  drop-take zero n m xs e = ap (λ (k : ℕ). take k xs) (omega arith)
  drop-take (suc c) zero m xs e = absurd (omega arith)
  drop-take (suc c) (suc n) m [] e = sym (take_nil m)
  drop-take (suc c) (suc n) m (x ∷ xs) e = drop-take c n m xs (omega arith)

  pub drop-drop : (h c k : ℕ) (xs : List A) → h + c ≡ k → drop c (drop h xs) ≡ drop k xs
  drop-drop zero c k xs e = ap (λ (j : ℕ). drop j xs) (omega arith)
  drop-drop (suc h) c zero xs e = absurd (omega arith)
  drop-drop (suc h) c (suc k) [] e = drop_nil c
  drop-drop (suc h) c (suc k) (x ∷ xs) e = drop-drop h c k xs (omega arith)

  pub take-replicate : (n m : ℕ) (a : A) → n ≤ m → take n (replicate m a) ≡ replicate n a
  take-replicate zero m a h = refl
  take-replicate (suc n) zero a h = absurd (omega arith)
  take-replicate (suc n) (suc m) a h = ap (◌∷◌ a) (take-replicate n m a (omega arith))

  -- A write as a splice.
  pub set-splice :
      (xs : List A) (i : ℕ) (v : A) → i < length xs → set xs i v ≡ take i xs ++ v ∷ drop (suc i) xs
  set-splice [] i v h = absurd (omega arith)
  set-splice (x ∷ xs) zero v h = refl
  set-splice (x ∷ xs) (suc i) v h = ap (◌∷◌ x) (set-splice xs i v (omega arith))

  pub get_or-append_past :
      (n m : ℕ) (xs ys : List A) (d : A) → length xs + m ≡ n → get_or (xs ++ ys) n d ≡ get_or ys m d
  get_or-append_past n m [] ys d h = ap (λ (k : ℕ). get_or ys k d) (omega arith)
  get_or-append_past zero m (x ∷ xs) ys d h = absurd (omega arith)
  get_or-append_past (suc n) m (x ∷ xs) ys d h = get_or-append_past n m xs ys d (omega arith)
