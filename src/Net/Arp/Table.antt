-- ===== src/Net/Arp/Table.antt =====
-- The table of ARP as a finite map: an address stands in one slot at most.
use re_pico.Base.{
  ℕ, zero, suc, ◌+◌, ◌<◌, ◌≡◌, ◌≢◌, refl, sym, ap, subst, ◌∙◌, List, [], ◌∷◌, Bool, true, false,
  Option, none, some, ltb, if◌then◌else◌, get_or, set, length, arith, Bool-cases, inl, inr, ◌⊎◌,
  get_or-set_self, get_or-set_ne, length-set, ℕ_discrete,
}
use re_pico.Net.Arp.{
  Entry, fresh_entry, is_free, is_resolved, matches, find_from, find, alloc_from, alloc, lookup,
}

abbrev pub slot : List Entry → ℕ → Entry
slot table i = get_or table i fresh_entry

unfoldable pub Unique : List Entry → Type 0
Unique table =
    (ip i j : ℕ) → matches ip (slot table i) ≡ true → matches ip (slot table j) ≡ true → i ≡ j

by_slot :
    (ip : ℕ) (e : Entry) (table : List Entry)
    → ((n : ℕ) → matches ip (slot table n) ≡ false)
    → matches ip e ≡ false
    → (n : ℕ) → matches ip (slot (e ∷ table) n) ≡ false
by_slot ip e table rest h zero = h
by_slot ip e table rest h (suc n) = rest n

pub exclusive {ℓ} : {A : Type ℓ} (b : Bool) → b ≡ true → b ≡ false → A
exclusive b h k = absurd (ground arith)

find_from_lem :
    (ip k : ℕ) (table : List Entry)
    → ((n : ℕ) × (find_from ip k table ≡ some (k + n))
        × (n < length table)
        × (matches ip (slot table n) ≡ true))
      ⊎ ((find_from ip k table ≡ none) × ((n : ℕ) → matches ip (slot table n) ≡ false))
unfolding find_from
find_from_lem ip k [] = inr (refl, λ n. refl)
find_from_lem ip k (e ∷ table) = elim (Bool-cases (matches ip e)) [
  | inl h ↦ inl (0, rw h (ap some {x = k} {y = k + 0} (omega arith)), omega arith, h)
  | inr h ↦ elim (find_from_lem ip (k + 1) table) [
    | inl (n, found, inside, at) ↦ inl (
      suc n,
      rw h (found ∙ ap some {x = k + 1 + n} {y = k + suc n} (omega arith)),
      omega arith,
      at,
    )
    | inr (absent, free) ↦ inr (rw h absent, by_slot ip e table free h)
  ]
]

pub find_lem :
    (ip : ℕ) (table : List Entry)
    → ((n : ℕ) × (find ip table ≡ some n) × (n < length table) × (matches ip (slot table n) ≡ true))
      ⊎ ((find ip table ≡ none) × ((n : ℕ) → matches ip (slot table n) ≡ false))
unfolding find
find_lem ip table = elim (find_from_lem ip 0 table) [
  | inl (n, found, inside, at) ↦
      inl (n, found ∙ ap some {x = 0 + n} {y = n} (omega arith), inside, at)
  | inr absent ↦ inr absent
]

-- In a table with one slot for an address, that slot is found.
pub find-at :
    (ip i : ℕ) (table : List Entry)
    → Unique table
    → matches ip (slot table i) ≡ true
    → find ip table ≡ some i
unfolding Unique
find-at ip i table u h = elim (find_lem ip table) [
  | inl (n, found, inside, at) ↦ found ∙ ap some (u ip n i at h)
  | inr (absent, free) ↦ exclusive (matches ip (slot table i)) h (free i)
]

-- The slot that `alloc` yields is free behind the call, and the others stay.
alloc_from-lt :
    (v k : ℕ) (e : Entry) (table : List Entry)
    → v < k
    → (alloc_from v e k table).0 < k + length table
unfolding alloc_from
alloc_from-lt v k e [] h = omega arith
alloc_from-lt v k e (x ∷ table) h =
    let older = ltb x.last_used_ms e.last_used_ms in
    let ih =
      alloc_from-lt (if older then k else v) (k + 1) (if older then x else e) table
        (chosen older) in
    elim (Bool-cases (is_free x)) [ inl f ↦ rw f (omega arith) | inr f ↦ rw f (omega (arith, ih)) ]
  where
    chosen : (b : Bool) → (if b then k else v) < k + 1
    chosen b = ground arith

alloc_from-found :
    (v k : ℕ) (e : Entry) (table : List Entry)
    → (alloc_from v e k table).1 ≡ true
    → (n : ℕ) × ((alloc_from v e k table).0 ≡ k + n) × (is_free (slot table n) ≡ true)
unfolding alloc_from
alloc_from-found v k e [] h = exclusive false h refl
alloc_from-found v k e (x ∷ table) h = elim (Bool-cases (is_free x)) [
  | inl f ↦ (0, rw f (omega arith), f)
  | inr f ↦
      (let older = ltb x.last_used_ms e.last_used_ms in
        let (n, at, ok) =
          alloc_from-found (if older then k else v) (k + 1) (if older then x else e) table
            (rw f at h) in
        (suc n, rw f (omega (arith, at)), ok))
]

pub alloc_lem :
    (table : List Entry)
    → 0 < length table
    → (i : ℕ) × (table' : List Entry) × (alloc table ≡ some (i, table'))
      × (i < length table)
      × (length table' ≡ length table)
      × (is_free (slot table' i) ≡ true)
      × ((j : ℕ) → i ≢ j → slot table' j ≡ slot table j)
unfolding alloc
alloc_lem [] h = absurd (omega arith)
alloc_lem (x ∷ table) h = elim (Bool-cases (is_free x)) [
  | inl f ↦ (0, x ∷ table, rw f refl, omega arith, refl, f, λ j ne. refl)
  | inr f ↦ elim (Bool-cases (alloc_from 0 x 1 table).1) [
    | inl found ↦
        (let (n, at, ok) = alloc_from-found 0 1 x table found in
          let v = (alloc_from 0 x 1 table).0 in
          (
            v,
            x ∷ table,
            rw (f, found) refl,
            omega (arith, alloc_from-lt 0 1 x table (omega arith)),
            refl,
            subst (λ (k : ℕ). is_free (slot (x ∷ table) k) ≡ true) {x = suc n} {y = v}
                (omega (arith, at)) ok,
            λ j ne. refl,
          ))
    | inr full ↦
        (let v = (alloc_from 0 x 1 table).0 in
          let inside : v < length (x ∷ table) =
            omega (arith, alloc_from-lt 0 1 x table (omega arith)) in
          (
            v,
            set (x ∷ table) v fresh_entry,
            rw (f, full) refl,
            inside,
            length-set (x ∷ table) v fresh_entry,
            ap is_free (get_or-set_self (x ∷ table) v fresh_entry fresh_entry inside),
            λ j ne. get_or-set_ne (x ∷ table) v j fresh_entry fresh_entry ne,
          ))
  ]
]

-- A slot that is given an address which no other slot has.
abbrev pub Only : ℕ → ℕ → List Entry → Type 0
Only ip i table = (j : ℕ) → i ≢ j → matches ip (slot table j) ≡ false

module _ (table : List Entry) (i : ℕ) (e : Entry) (inside : i < length table) where
  pub at_self : slot (set table i e) i ≡ e
  at_self = get_or-set_self table i e fresh_entry inside

  pub at_other : (j : ℕ) → i ≢ j → slot (set table i e) j ≡ slot table j
  at_other j ne = get_or-set_ne table i j e fresh_entry ne

  here : (ip j : ℕ) → i ≡ j → matches ip (slot (set table i e) j) ≡ true → matches ip e ≡ true
  here ip j p h = ap (matches ip) (sym at_self ∙ ap (slot (set table i e)) p) ∙ h

  there :
      (ip j : ℕ)
      → i ≢ j
      → matches ip (slot (set table i e) j) ≡ true
      → matches ip (slot table j) ≡ true
  there ip j p h = ap (matches ip) (sym (at_other j p)) ∙ h

  pub set-Unique :
      Unique table → ((ip : ℕ) → matches ip e ≡ true → Only ip i table) → Unique (set table i e)
  unfolding Unique
  set-Unique u only ip j k hj hk = elim (ℕ_discrete i j) [
    | yes p ↦ elim (ℕ_discrete i k) [
      | yes q ↦ sym p ∙ q
      | no q ↦
          exclusive (matches ip (slot table k)) (there ip k q hk) (only ip (here ip j p hj) k q)
    ]
    | no p ↦ elim (ℕ_discrete i k) [
      | yes q ↦
          exclusive (matches ip (slot table j)) (there ip j p hj) (only ip (here ip k q hk) j p)
      | no q ↦ u ip j k (there ip j p hj) (there ip k q hk)
    ]
  ]

-- What `lookup` answers for an entry.
abbrev pub answer : Entry → Option (List ℕ)
answer e = if is_resolved e then some e.mac else none

pub lookup-at :
    (ip i : ℕ) (table : List Entry)
    → Unique table
    → matches ip (slot table i) ≡ true
    → lookup table ip ≡ answer (slot table i)
unfolding lookup
lookup-at ip i table u h = rw (find-at ip i table u h, lookup) refl

pub lookup-absent : (ip : ℕ) (table : List Entry) → find ip table ≡ none → lookup table ip ≡ none
unfolding lookup
lookup-absent ip table h = rw (h, lookup) refl

-- The new table answers as the old one or has forgotten.
abbrev pub Forgets : List Entry → List Entry → ℕ → Type 0
Forgets old new ip = (lookup new ip ≡ lookup old ip) ⊎ (lookup new ip ≡ none)

pub same_slots-Forgets :
    (old new : List Entry) (ip : ℕ)
    → Unique old
    → Unique new
    → ((n : ℕ) → matches ip (slot new n) ≡ true → answer (slot new n) ≡ answer (slot old n))
    → ((n : ℕ) → matches ip (slot new n) ≡ true → matches ip (slot old n) ≡ true)
    → Forgets old new ip
same_slots-Forgets old new ip u u' same kept = elim (find_lem ip new) [
  | inl (n, found, inside, at) ↦
      inl (lookup-at ip n new u' at ∙ same n at ∙ sym (lookup-at ip n old u (kept n at)))
  | inr (absent, free) ↦ inr (lookup-absent ip new absent)
]
