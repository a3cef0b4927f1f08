-- ===== src/Base/Run.antt =====
-- Results of code that can fail, read or write out of bounds, or use up its fuel.
use re_pico.Base.Lists.{length, get_elem?, get_or, set, take, drop, get_elem?-eq-get_or}
use Prim.Native.Nat.{ℕ, ◌+◌, ◌-◌, ◌<◌, ◌≤◌}
use mathlib.Core.Path.{◌≡◌, refl, subst}
use mathlib.Core.Logic.{◌≢◌}
use mathlib.Core.Bool.{Bool, true, false, ◌&&◌}
use mathlib.Core.List.{List, ◌++◌}
use mathlib.Core.Option.{Option, none, some}
use re_pico.Base.Words.{ltb, lt→ltb, leb, le→leb, if◌then◌else◌}

-- `fails` is the code's own error return; `fault` is an access outside of an array, which the code
-- does not check for; `out_of_fuel` ends a loop that has run out of rounds.
pub data Run {ℓ} (A : Type ℓ) : Type ℓ where
  ok : A → Run A
  fails : Run A
  fault : Run A
  out_of_fuel : Run A

module _ {ℓ κ} {A : Type ℓ} {B : Type κ} where
  infixl 5 ◌>>=◌
  abbrev pub ◌>>=◌ : Run A → (A → Run B) → Run B
  fails >>= next = fails
  fault >>= next = fault
  out_of_fuel >>= next = out_of_fuel
  ok a >>= next = next a

-- The macro `ensure`.
abbrev pub ensure : Bool → Run (Unit {0})
ensure true = ok tt
ensure false = fails

abbrev pub of_option {ℓ} : {A : Type ℓ} → Option A → Run A
of_option none = fault
of_option (some a) = ok a

unfoldable pub read : List ℕ → ℕ → Run ℕ
read xs i = of_option (get_elem? xs i)

unfoldable pub write : List ℕ → ℕ → ℕ → Run (List ℕ)
write xs i v = if ltb i (length xs) then ok (set xs i v) else fault

-- The bytes from the place `a` up to `b`, as a pointer and a size; a fault where they are not all
-- there.
unfoldable pub between : List ℕ → ℕ → ℕ → Run (List ℕ)
between xs a b = if leb a b && leb b (length xs) then ok (take (b - a) (drop a xs)) else fault

pub between-ok :
    (xs : List ℕ) (a b : ℕ) → a ≤ b → b ≤ length xs → between xs a b ≡ ok (take (b - a) (drop a xs))
unfolding between
between-ok xs a b h k = rw (le→leb a b h, le→leb b (length xs) k) refl

-- The run ends with a value for which `P` holds or with the code's own error; never with a fault
-- and never for want of fuel.
pub data Ensures {ℓ κ} {A : Type ℓ} (P : A → Type κ) : Run A → Type (ℓ ⊔ κ) where
  refuses : Ensures P fails
  returns : {value : A} → P value → Ensures P (ok value)

pub ok-injective {ℓ} : {A : Type ℓ} {a b : A} → ◌≡◌ {A = Run A} (ok a) (ok b) → a ≡ b
ok-injective e = cc

module _ {ℓ κ} {A : Type ℓ} {P : A → Type κ} where
  pub Ensures-bind {ℓ' κ'} :
      {m : Run A} {B : Type ℓ'} {f : A → Run B} {Q : B → Type κ'}
      → Ensures P m
      → ((a : A) → P a → Ensures Q (f a))
      → Ensures Q (m >>= f)
  Ensures-bind (returns p) k = k _ p
  Ensures-bind refuses k = refuses

  pub Ensures-weaken {κ'} :
      {Q : A → Type κ'} {m : Run A} → Ensures P m → ((a : A) → P a → Q a) → Ensures Q m
  Ensures-weaken (returns p) k = returns (k _ p)
  Ensures-weaken refuses k = refuses

  pub Ensures-ne-fault : {m : Run A} → Ensures P m → m ≢ fault
  Ensures-ne-fault (returns p) e = cc
  Ensures-ne-fault refuses e = cc

  pub Ensures-if :
      {b : Bool} {m n : Run A}
      → (b ≡ true → Ensures P m)
      → (b ≡ false → Ensures P n)
      → Ensures P (if b then m else n)
  Ensures-if {b = true} t e = t refl
  Ensures-if {b = false} t e = e refl

  -- The value that an ensured run returns has the property.
  pub Ensures-value : {m : Run A} {a : A} → Ensures P m → m ≡ ok a → P a
  Ensures-value {a} (returns {value = b} p) e = subst P (ok-injective e) p
  Ensures-value refuses e = cc

pub ensure-Ensures : (b : Bool) → Ensures (λ _. b ≡ true) (ensure b)
ensure-Ensures true = returns refl
ensure-Ensures false = refuses

pub read-ok : (xs : List ℕ) (i : ℕ) → i < length xs → read xs i ≡ ok (get_or xs i 0)
unfolding read
read-ok xs i h = rw (get_elem?-eq-get_or xs i 0 h)

pub write-ok : (xs : List ℕ) (i v : ℕ) → i < length xs → write xs i v ≡ ok (set xs i v)
unfolding write
write-ok xs i v h = rw (lt→ltb i (length xs) h)

pub read-Ensures :
    (xs : List ℕ) (i : ℕ) → i < length xs → Ensures (λ v. v ≡ get_or xs i 0) (read xs i)
unfolding read
read-Ensures xs i h = rw (get_elem?-eq-get_or xs i 0 h) (returns refl)

pub write-Ensures :
    (xs : List ℕ) (i v : ℕ) → i < length xs → Ensures (λ ys. ys ≡ set xs i v) (write xs i v)
unfolding write
write-Ensures xs i v h = rw (lt→ltb i (length xs) h) (returns refl)

-- The run returns a value, for which `P` holds: no error, no fault, no want of fuel.
pub data Yields {ℓ κ} {A : Type ℓ} (P : A → Type κ) : Run A → Type (ℓ ⊔ κ) where
  yields : {value : A} → P value → Yields P (ok value)

module _ {ℓ κ} {A : Type ℓ} {P : A → Type κ} where
  pub Yields-bind {ℓ' κ'} :
      {m : Run A} {B : Type ℓ'} {f : A → Run B} {Q : B → Type κ'}
      → Yields P m
      → ((a : A) → P a → Yields Q (f a))
      → Yields Q (m >>= f)
  Yields-bind (yields p) k = k _ p

  pub Yields-weaken {κ'} :
      {Q : A → Type κ'} {m : Run A} → Yields P m → ((a : A) → P a → Q a) → Yields Q m
  Yields-weaken (yields p) k = yields (k _ p)

  pub Yields-if :
      {b : Bool} {m n : Run A}
      → (b ≡ true → Yields P m)
      → (b ≡ false → Yields P n)
      → Yields P (if b then m else n)
  Yields-if {b = true} t e = t refl
  Yields-if {b = false} t e = e refl

  pub Yields-value : {m : Run A} → Yields P m → (a : A) × (m ≡ ok a) × P a
  Yields-value (yields p) = (_, refl, p)

  pub value-Yields : {m : Run A} {a : A} → m ≡ ok a → P a → Yields P m
  value-Yields e p = rw e (yields p)

pub read-Yields :
    (xs : List ℕ) (i : ℕ) → i < length xs → Yields (λ v. v ≡ get_or xs i 0) (read xs i)
read-Yields xs i h = value-Yields (read-ok xs i h) refl

-- `memcpy` into an array, at the place `i`.
unfoldable pub copy_to : List ℕ → ℕ → List ℕ → Run (List ℕ)
copy_to buf i bytes =
    if leb (i + length bytes) (length buf)
    then ok (take i buf ++ (bytes ++ drop (i + length bytes) buf))
    else fault

pub copy_to-ok :
    (buf : List ℕ) (i : ℕ) (bytes : List ℕ)
    → i + length bytes ≤ length buf
    → copy_to buf i bytes ≡ ok (take i buf ++ (bytes ++ drop (i + length bytes) buf))
unfolding copy_to
copy_to-ok buf i bytes h = rw (le→leb (i + length bytes) (length buf) h) refl
