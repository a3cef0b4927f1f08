-- ===== src/Base/Bytes.antt =====
-- Lists of bytes, and the number that a list of bytes is, lowest byte first.
use re_pico.Base.Lists.{length, get_or, set, take, drop, replicate, drop-get_or}
use Prim.Native.Nat.{ℕ, zero, suc, ◌+◌, ◌-◌, ◌*◌, ◌^◌, ◌≤◌, ◌<◌}
use mathlib.Core.Path.{◌≡◌, refl}
use mathlib.Core.List.{List, [], ◌∷◌, ◌++◌}
use native.Mathlib.Nat.{pow-suc, pow-le-pow_right}
use native.Mathlib.Numerals.{towards_suc}
use native.Mathlib.Omega.{arith}

abbrev pub All {ℓ κ} : {A : Type ℓ} → (A → Type κ) → List A → Type κ
All P [] = Unit
All P (x ∷ xs) = P x × All P xs

abbrev pub Bytes : List ℕ → Type 0
Bytes = All (λ b. b < 256)

pub All-get_or {κ} :
    (P : ℕ → Type κ) (xs : List ℕ) (i : ℕ) → All P xs → i < length xs → P (get_or xs i 0)
All-get_or P [] i h k = elim k [ ]
All-get_or P (x ∷ xs) zero h k = h.0
All-get_or P (x ∷ xs) (suc i) h k = All-get_or P xs i h.1 (omega arith)

pub drop-cons : (xs : List ℕ) (i : ℕ) → i < length xs → drop i xs ≡ get_or xs i 0 ∷ drop (i + 1) xs
drop-cons xs i h = drop-get_or xs i 0 h

pub drop-all {ℓ} : {A : Type ℓ} (xs : List A) (i : ℕ) → length xs ≤ i → drop i xs ≡ []
drop-all [] zero h = refl
drop-all [] (suc i) h = refl
drop-all (x ∷ xs) zero h = absurd (omega arith)
drop-all (x ∷ xs) (suc i) h = drop-all xs i (omega arith)

abbrev pub le_number : List ℕ → ℕ
le_number [] = 0
le_number (b ∷ bs) = b + 256 * le_number bs

pub pow_plus_eight : (k : ℕ) → 2 ^ (k + 8) ≡ 256 * 2 ^ k
pow_plus_eight k = simp (towards_suc, pow-suc) (omega arith)

pub pow_mono : (m n : ℕ) → m ≤ n → 2 ^ m ≤ 2 ^ n
pow_mono m n h = pow-le-pow_right (omega arith) h

same : (n m : ℕ) → suc n - suc m ≡ n - m
same n m = omega arith

pub pow_split : (m n : ℕ) → m ≤ n → 2 ^ m * 2 ^ (n - m) ≡ 2 ^ n
pow_split zero n h = ground arith
pow_split (suc m) zero h = absurd (omega arith)
pow_split (suc m) (suc n) h =
    rw (same n m, pow-suc 2 m, pow-suc 2 n, ← pow_split m n (omega arith)) (omega arith)

-- A byte shifted into a 32-bit word, below bit 24, loses no bit.
pub shifted_byte-lt : (b c : ℕ) → b < 256 → c < 24 → b * 2 ^ c < 2 ^ 32
shifted_byte-lt b c h k = grind (arith, pow_mono c 23 (omega arith))

pub mul_below : (x y m : ℕ) → x < m → x * y + y ≤ m * y
mul_below x y m h = grind arith

pub All-set {κ} : (P : ℕ → Type κ) (xs : List ℕ) (i v : ℕ) → All P xs → P v → All P (set xs i v)
All-set P [] i v h p = h
All-set P (x ∷ xs) zero v h p = (p, h.1)
All-set P (x ∷ xs) (suc i) v h p = (h.0, All-set P xs i v h.1 p)

pub All-take {κ} : (P : ℕ → Type κ) (n : ℕ) (xs : List ℕ) → All P xs → All P (take n xs)
All-take P zero xs h = tt
All-take P (suc n) [] h = tt
All-take P (suc n) (x ∷ xs) h = (h.0, All-take P n xs h.1)

pub All-drop {κ} : (P : ℕ → Type κ) (n : ℕ) (xs : List ℕ) → All P xs → All P (drop n xs)
All-drop P zero xs h = h
All-drop P (suc n) [] h = tt
All-drop P (suc n) (x ∷ xs) h = All-drop P n xs h.1

pub All-replicate {κ} : (P : ℕ → Type κ) (n v : ℕ) → P v → All P (replicate n v)
All-replicate P zero v p = tt
All-replicate P (suc n) v p = (p, All-replicate P n v p)

pub Bytes-append : (xs ys : List ℕ) → Bytes xs → Bytes ys → Bytes (xs ++ ys)
Bytes-append [] ys h k = k
Bytes-append (x ∷ xs) ys h k = (h.0, Bytes-append xs ys h.1 k)

-- Also past the end.
pub Bytes-get_or : (t : List ℕ) (i : ℕ) → Bytes t → get_or t i 0 < 256
Bytes-get_or [] i h = omega arith
Bytes-get_or (x ∷ t) zero h = h.0
Bytes-get_or (x ∷ t) (suc i) h = Bytes-get_or t i h.1
