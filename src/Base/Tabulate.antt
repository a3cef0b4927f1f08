-- ===== src/Base/Tabulate.antt =====
-- Lists given by their elements.
use re_pico.Base.Lists.{length, get_or, take, drop, drop-get_or}
use Prim.Native.Nat.{ℕ, zero, suc, ◌+◌, ◌-◌, ◌≤◌, ◌<◌}
use mathlib.Core.Path.{◌≡◌, refl, ap, ap₂, ◌∙◌}
use mathlib.Core.List.{List, [], ◌∷◌, ◌++◌}
use native.Mathlib.Omega.{arith}

module _ {ℓ} {A : Type ℓ} where
  -- f i, f (i + 1), … , `n` values.
  abbrev pub tabulate : ℕ → ℕ → (ℕ → A) → List A
  tabulate zero i f = []
  tabulate (suc n) i f = f i ∷ tabulate n (i + 1) f

  pub length-tabulate : (n i : ℕ) (f : ℕ → A) → length (tabulate n i f) ≡ n
  length-tabulate zero i f = refl
  length-tabulate (suc n) i f = ap suc (length-tabulate n (i + 1) f)

  pub tabulate_ext :
      (n i : ℕ) (f g : ℕ → A)
      → ((k : ℕ) → i ≤ k → k < i + n → f k ≡ g k)
      → tabulate n i f ≡ tabulate n i g
  tabulate_ext zero i f g h = refl
  tabulate_ext (suc n) i f g h =
      ap₂ ◌∷◌ (h i (omega arith) (omega arith))
        (tabulate_ext n (i + 1) f g (λ k p q. h k (omega arith) (omega arith)))

  pub tabulate_shift :
      (n i j : ℕ) (f g : ℕ → A)
      → ((k : ℕ) → k < n → f (i + k) ≡ g (j + k))
      → tabulate n i f ≡ tabulate n j g
  tabulate_shift zero i j f g h = refl
  tabulate_shift (suc n) i j f g h =
      ap₂ ◌∷◌ (ap f (omega arith) ∙ h 0 (omega arith) ∙ ap g (omega arith)) (
        tabulate_shift n (i + 1) (j + 1) f g
          (λ k p. ap f (omega arith) ∙ h (suc k) (omega arith) ∙ ap g (omega arith)))

  pub tabulate-append :
      (m n i : ℕ) (f : ℕ → A) → tabulate m i f ++ tabulate n (i + m) f ≡ tabulate (m + n) i f
  tabulate-append zero n i f = ground arith
  tabulate-append (suc m) n i f =
      let e : i + suc m ≡ i + 1 + m = omega arith in
      let e' : suc (m + n) ≡ suc m + n = omega arith in
      rw e (ap (◌∷◌ (f i)) (tabulate-append m n (i + 1) f) ∙ ap (λ t. tabulate t i f) e')

  -- A list is the table of its elements.
  pub tabulate-get_or :
      (n i : ℕ) (xs : List A) (d : A)
      → i + n ≤ length xs
      → tabulate n i (λ k. get_or xs k d) ≡ take n (drop i xs)
  tabulate-get_or zero i xs d h = refl
  tabulate-get_or (suc n) i xs d h =
      rw (drop-get_or xs i d (omega arith))
        (ap (◌∷◌ (get_or xs i d)) (tabulate-get_or n (i + 1) xs d (omega arith)))

  pub take-tabulate : (k n i : ℕ) (f : ℕ → A) → k ≤ n → take k (tabulate n i f) ≡ tabulate k i f
  take-tabulate zero n i f h = refl
  take-tabulate (suc k) zero i f h = absurd (omega arith)
  take-tabulate (suc k) (suc n) i f h = ap (◌∷◌ (f i)) (take-tabulate k n (i + 1) f (omega arith))

  pub drop-tabulate :
      (k n i : ℕ) (f : ℕ → A) → k ≤ n → drop k (tabulate n i f) ≡ tabulate (n - k) (i + k) f
  drop-tabulate zero n i f h =
      let e : n ≡ n - 0 = omega arith in
      let e' : i ≡ i + 0 = omega arith in ap₂ (λ a b. tabulate a b f) e e'
  drop-tabulate (suc k) zero i f h = absurd (omega arith)
  drop-tabulate (suc k) (suc n) i f h =
      let e : n - k ≡ suc n - suc k = omega arith in
      let e' : i + 1 + k ≡ i + suc k = omega arith in
      drop-tabulate k n (i + 1) f (omega arith) ∙ ap₂ (λ a b. tabulate a b f) e e'
