-- ===== src/Base/Outcome.antt =====
-- Results of code that changes its state and returns an error half way: the error carries the state
-- as it is then.
use re_pico.Base.Lists.{length, get_or, take, drop, length-append}
use re_pico.Base.Slices.{take-append_self, drop-append_past}
use native.Mathlib.Omega.{arith}
use re_pico.Base.Run.{Ensures, Run, ok, fails, fault, out_of_fuel}
use re_pico.Base.Words.{ltb, ltb→le, le→ltb, Bool-cases, if◌then◌else◌}
use Prim.Native.Nat.{ℕ, ◌≤◌}
use mathlib.Core.Path.{◌≡◌, refl, subst, ap₂, ◌∙◌}
use mathlib.Core.Logic.{inl, inr}
use mathlib.Core.Bool.{Bool, true, false}
use mathlib.Core.List.{List, ◌∷◌, ◌++◌}

pub data Outcome {ℓ κ} (S : Type ℓ) (A : Type κ) : Type (ℓ ⊔ κ) where
  returned : A → Outcome S A
  refused : S → Outcome S A
  faulted : Outcome S A
  exhausted : Outcome S A

module _ {ℓ κ ι} {S : Type ι} {A : Type ℓ} {B : Type κ} where
  infixl 5 ◌>>=◌
  abbrev pub ◌>>=◌ : Outcome S A → (A → Outcome S B) → Outcome S B
  refused s >>= next = refused s
  faulted >>= next = faulted
  exhausted >>= next = exhausted
  returned a >>= next = next a

module _ {ℓ} {S : Type ℓ} where
  -- The macro `ensure`.
  abbrev pub ensure : Bool → S → Outcome S (Unit {0})
  ensure true s = returned tt
  ensure false s = refused s

  abbrev pub attempt {κ} : {A : Type κ} → Run A → S → Outcome S A
  attempt (ok a) s = returned a
  attempt fails s = refused s
  attempt fault s = faulted
  attempt out_of_fuel s = exhausted

  -- `SpanReader::read_span`, with the bytes that are left, and `read<u8>`.
  abbrev pub read_span : ℕ → List ℕ → S → Outcome S (List ℕ × List ℕ)
  read_span len r s = if ltb (length r) len then refused s else returned (take len r, drop len r)

  abbrev pub read_u8 : List ℕ → S → Outcome S (ℕ × List ℕ)
  read_u8 r s = if ltb (length r) 1 then refused s else returned (get_or r 0 0, drop 1 r)

pub returned-injective {ℓ ι} :
    {S : Type ι} {A : Type ℓ} {a b : A} → ◌≡◌ {A = Outcome S A} (returned a) (returned b) → a ≡ b
returned-injective e = cc

pub refused-injective {ℓ ι} :
    {S : Type ι} {A : Type ℓ} {s t : S} → ◌≡◌ {A = Outcome S A} (refused s) (refused t) → s ≡ t
refused-injective e = cc

-- The run returns with a value for which `P` holds or refuses with a state for which `Q` holds; it
-- neither faults nor runs out of fuel.
pub data Ends {ℓ κ ι} {S : Type ι} {A : Type ℓ} (P : A → Type κ) (Q : S → Type κ)
    : Outcome S A → Type (ℓ ⊔ κ ⊔ ι) where
  returns : {a : A} → P a → Ends P Q (returned a)
  refuses : {s : S} → Q s → Ends P Q (refused s)

module _ {ℓ κ ι} {S : Type ι} {A : Type ℓ} {P : A → Type κ} {Q : S → Type κ} where
  pub Ends-bind {ℓ'} :
      {m : Outcome S A} {B : Type ℓ'} {f : A → Outcome S B} {R : B → Type κ}
      → Ends P Q m
      → ((a : A) → P a → Ends R Q (f a))
      → Ends R Q (m >>= f)
  Ends-bind (returns p) k = k _ p
  Ends-bind (refuses q) k = refuses q

  pub Ends-if :
      {b : Bool} {m n : Outcome S A}
      → (b ≡ true → Ends P Q m)
      → (b ≡ false → Ends P Q n)
      → Ends P Q (if b then m else n)
  Ends-if {b = true} t e = t refl
  Ends-if {b = false} t e = e refl

module _ {ι} {S : Type ι} {Q : S → Type 0} where
  pub ensure-Ends : (b : Bool) (s : S) → Q s → Ends (λ _. b ≡ true) Q (ensure b s)
  ensure-Ends true s q = returns refl
  ensure-Ends false s q = refuses q

  pub read_span-Ends :
      (len : ℕ) (r : List ℕ) (s : S)
      → Q s
      → Ends (λ p. (len ≤ length r) × (p.0 ≡ take len r) × (p.1 ≡ drop len r)) Q (read_span len r s)
  read_span-Ends len r s q =
      Ends-if (λ _. refuses q) (λ e. returns (ltb→le (length r) len e, refl, refl))

  pub read_u8-Ends :
      (r : List ℕ) (s : S)
      → Q s
      → Ends (λ p. (1 ≤ length r) × (p.0 ≡ get_or r 0 0) × (p.1 ≡ drop 1 r)) Q (read_u8 r s)
  read_u8-Ends r s q = Ends-if (λ _. refuses q) (λ e. returns (ltb→le (length r) 1 e, refl, refl))

pub read_span-returned {ι} :
    {S : Type ι} (len : ℕ) (r : List ℕ) (s : S)
    → len ≤ length r
    → read_span len r s ≡ returned (take len r, drop len r)
read_span-returned len r s h = rw (le→ltb (length r) len h) refl

pub read_u8-returned {ι} :
    {S : Type ι} (r : List ℕ) (s : S)
    → 1 ≤ length r
    → read_u8 r s ≡ returned (get_or r 0 0, drop 1 r)
read_u8-returned r s h = rw (le→ltb (length r) 1 h) refl

module _ {ι} {S : Type ι} (s : S) where
  pub read_u8_cons : (x : ℕ) (r : List ℕ) → read_u8 (x ∷ r) s ≡ returned (x, r)
  read_u8_cons x r = read_u8-returned (x ∷ r) s (omega arith)

  pub read_span-append :
      (n : ℕ) (xs r : List ℕ) → length xs ≡ n → read_span n (xs ++ r) s ≡ returned (xs, r)
  read_span-append n xs r h =
      read_span-returned n (xs ++ r) s (omega (arith, length-append xs r))
      ∙ ap₂ (λ (a b : List ℕ). returned (a, b)) (take-append_self n xs r h)
          (drop-append_past n 0 xs r (omega (arith, h)))

-- The same of runs that may also fault.
pub data After {ℓ κ ι} {S : Type ι} {A : Type ℓ} (P : A → Type κ) (Q : S → Type κ)
    : Outcome S A → Type (ℓ ⊔ κ ⊔ ι) where
  leaves : {a : A} → P a → After P Q (returned a)
  stops : {s : S} → Q s → After P Q (refused s)
  faults : After P Q faulted
  exhausts : After P Q exhausted

module _ {ℓ κ ι} {S : Type ι} {A : Type ℓ} {P : A → Type κ} {Q : S → Type κ} where
  pub After-bind {ℓ'} :
      {m : Outcome S A} {B : Type ℓ'} {f : A → Outcome S B} {R : B → Type κ}
      → After P Q m
      → ((a : A) → P a → After R Q (f a))
      → After R Q (m >>= f)
  After-bind (leaves p) k = k _ p
  After-bind (stops q) k = stops q
  After-bind faults k = faults
  After-bind exhausts k = exhausts

  pub After-weaken {κ'} :
      {P' : A → Type κ'} {Q' : S → Type κ'} {m : Outcome S A}
      → After P Q m
      → ((a : A) → P a → P' a)
      → ((s : S) → Q s → Q' s)
      → After P' Q' m
  After-weaken (leaves p) k l = leaves (k _ p)
  After-weaken (stops q) k l = stops (l _ q)
  After-weaken faults k l = faults
  After-weaken exhausts k l = exhausts

  pub After-returned : {m : Outcome S A} {a : A} → After P Q m → m ≡ returned a → P a
  After-returned {a} (leaves {a = b} p) e = subst P (returned-injective e) p
  After-returned (stops q) e = cc
  After-returned faults e = cc
  After-returned exhausts e = cc

  pub After-refused : {m : Outcome S A} {s : S} → After P Q m → m ≡ refused s → Q s
  After-refused {s} (stops {s = t} q) e = subst Q (refused-injective e) q
  After-refused (leaves p) e = cc
  After-refused faults e = cc
  After-refused exhausts e = cc

  pub Ends-After : {m : Outcome S A} → Ends P Q m → After P Q m
  Ends-After (returns p) = leaves p
  Ends-After (refuses q) = stops q

pub attempt-After {ℓ ι} :
    {A : Type ℓ} {S : Type ι} {Q : S → Type ℓ} (m : Run A) (s : S)
    → Q s
    → After (λ a. m ≡ ok a) Q (attempt m s)
attempt-After (ok a) s q = leaves refl
attempt-After fails s q = stops q
attempt-After fault s q = faults
attempt-After out_of_fuel s q = exhausts

-- What holds of a refusal here and of all that follows holds of the run.
module _ {ℓ κ ι} {S : Type ι} {A : Type ℓ} (P : Outcome S A → Type κ) where
  pub ensure-through :
      (b : Bool) (s : S) (f : Unit {0} → Outcome S A)
      → P (refused s)
      → (b ≡ true → P (f tt))
      → P (ensure b s >>= f)
  ensure-through true s f q k = k refl
  ensure-through false s f q k = q

  pub read_span-through :
      (len : ℕ) (r : List ℕ) (s : S) (f : List ℕ × List ℕ → Outcome S A)
      → P (refused s)
      → (len ≤ length r → P (f (take len r, drop len r)))
      → P (read_span len r s >>= f)
  read_span-through len r s f q k = elim (Bool-cases (ltb (length r) len)) [
    | inl e ↦ rw e q
    | inr e ↦ rw e (k (ltb→le (length r) len e))
  ]

pub attempt-Ends {ℓ ι} :
    {A : Type ℓ} {S : Type ι} {P : A → Type 0} {Q : S → Type 0} {m : Run A} (s : S)
    → Ensures P m
    → Q s
    → Ends P Q (attempt m s)
attempt-Ends s (Ensures.returns p) q = returns p
attempt-Ends s Ensures.refuses q = refuses q
