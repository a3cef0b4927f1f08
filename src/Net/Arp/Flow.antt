-- ===== src/Net/Arp/Flow.antt =====
-- What the calls of ARP do to the table: an address is learned, others keep their answer or are
-- forgotten, and a packet that waits for an address goes out when it is learned.
use re_pico.Base.{
  ℕ, ◌<◌, ◌≡◌, ◌≢◌, refl, sym, ap, subst, ◌∙◌, List, true, false, some, set, length, arith, inl,
  inr, ℕ_discrete, length-set, Bool-cases,
}
use re_pico.Net.Arp.{Host, Entry, is_free, matches, alloc, cache, learned, flush, lookup}
use re_pico.Net.Arp.Table.{
  slot, Unique, find_lem, alloc_lem, set-Unique, at_self, at_other, exclusive, answer, lookup-at,
  Forgets, same_slots-Forgets, Only,
}

-- The slot that is written for an address: the one it has, or one that is free behind `alloc`.
-- `table'` is the table after `alloc`.
pub record Place (ip : ℕ) (table table' : List Entry) (i : ℕ) : Type 0 where
  pub inside : i < length table'
  pub size : length table' ≡ length table
  pub others : (j : ℕ) → i ≢ j → slot table' j ≡ slot table j
  pub only : Only ip i table'
  pub sound : Unique table'

matches_same : (ip ip' : ℕ) (e : Entry) → matches ip e ≡ true → matches ip' e ≡ true → ip ≡ ip'
matches_same ip ip' e h k = ground arith

module _ (ip : ℕ) (table table' : List Entry) (i : ℕ) (p : Place ip table table' i) (e : Entry)
    (he : matches ip e ≡ true) where
  pub put-Unique : Unique (set table' i e)
  put-Unique =
      set-Unique table' i e p.inside p.sound
        (λ ip' h. subst (λ (a : ℕ). Only a i table') (matches_same ip ip' e he h) p.only)

  pub put_self : lookup (set table' i e) ip ≡ answer e
  put_self =
      lookup-at ip i (set table' i e) put-Unique
        (ap (matches ip) (at_self table' i e p.inside) ∙ he)
      ∙ ap answer (at_self table' i e p.inside)

  pub put-Forgets : Unique table → (ip' : ℕ) → ip' ≢ ip → Forgets table (set table' i e) ip'
  put-Forgets u ip' ne =
      same_slots-Forgets table (set table' i e) ip' u put-Unique (λ n h. ap answer (unchanged n h))
        (λ n h. ap (matches ip') (sym (unchanged n h)) ∙ h)
    where
      unchanged :
          (n : ℕ)
          → matches ip' (slot (set table' i e) n) ≡ true
          → slot (set table' i e) n ≡ slot table n
      unchanged n h = elim (ℕ_discrete i n) [
        | yes q ↦ absurd (
            ne (
              matches_same ip' ip e
                (ap (matches ip') (sym (at_self table' i e p.inside) ∙ ap (slot (set table' i e)) q)
                  ∙ h)
                he))
        | no q ↦ at_other table' i e p.inside n q ∙ p.others n q
      ]

pub found-Place :
    (ip i : ℕ) (table : List Entry)
    → Unique table
    → i < length table
    → matches ip (slot table i) ≡ true
    → Place ip table table i
unfolding Unique
found-Place ip i table u inside h = record {
  inside = inside;
  size = refl;
  others = λ j ne. refl;
  only = λ j ne. elim (Bool-cases (matches ip (slot table j))) [
    | inl k ↦ absurd (ne (u ip i j h k))
    | inr k ↦ k
  ];
  sound = u;
}

free_matches : (ip : ℕ) (e : Entry) → is_free e ≡ true → matches ip e ≡ false
free_matches ip e h = ground arith

old_slot :
    (table table' : List Entry) (i ip j : ℕ)
    → is_free (slot table' i) ≡ true
    → ((k : ℕ) → i ≢ k → slot table' k ≡ slot table k)
    → matches ip (slot table' j) ≡ true
    → matches ip (slot table j) ≡ true
old_slot table table' i ip j cleared others h = elim (ℕ_discrete i j) [
  | yes q ↦
      exclusive (matches ip (slot table' i)) (ap (λ (k : ℕ). matches ip (slot table' k)) q ∙ h)
        (free_matches ip (slot table' i) cleared)
  | no q ↦ ap (matches ip) (sym (others j q)) ∙ h
]

pub alloc-Place :
    (ip : ℕ) (table : List Entry)
    → Unique table
    → 0 < length table
    → ((n : ℕ) → matches ip (slot table n) ≡ false)
    → (i : ℕ) × (table' : List Entry) × (alloc table ≡ some (i, table')) × Place ip table table' i
unfolding Unique
alloc-Place ip table u some_slot absent =
    let (i, table', e, inside, size, cleared, others) = alloc_lem table some_slot in
    (
      i,
      table',
      e,
      record {
        inside = omega (arith, inside, size);
        size = size;
        others = others;
        only = λ j ne. ap (matches ip) (others j ne) ∙ absent j;
        sound = λ ip' j k hj hk.
            u ip' j k (old_slot table table' i ip' j cleared others hj)
              (old_slot table table' i ip' k cleared others hk);
      },
    )

pub learned-matches :
    (h : Host) (ip : ℕ) (mac : List ℕ) (e : Entry)
    → matches ip e ≡ true
    → matches ip (learned h mac e) ≡ true
learned-matches h ip mac e k = ground arith

new-matches :
    (h : Host) (ip : ℕ) (mac : List ℕ) (e : Entry)
    → matches ip (learned h mac (record e { ip = ip })) ≡ true
new-matches h ip mac e = ground arith

-- `cache` learns: the address has the new hardware address from then on, all slots but one hold what
-- they held before, so at most one other address is forgotten, and each of the others that is not
-- answers as before. The table, which has a slot at least and one for an address at most, keeps its
-- size and stays so.
pub cache_lem :
    (h : Host) (ip : ℕ) (mac : List ℕ) (table : List Entry)
    → Unique table
    → 0 < length table
    → (table' : List Entry) × (frames : List (List ℕ)) × (cache h ip mac table
        ≡ some (table', frames))
      × Unique table'
      × (length table' ≡ length table)
      × (lookup table' ip ≡ some mac)
      × ((ip' : ℕ) → ip' ≢ ip → Forgets table table' ip')
      × ((i : ℕ) × ((j : ℕ) → i ≢ j → slot table' j ≡ slot table j))
unfolding cache
cache_lem h ip mac table u some_slot = elim (find_lem ip table) [
  | inl (i, found, inside, at) ↦
      (let e = learned h mac (slot table i) in
        let p = found-Place ip i table u inside at in
        let he = learned-matches h ip mac (slot table i) at in
        (
          set table i e,
          flush h mac (slot table i).held,
          rw (found, cache) refl,
          put-Unique ip table table i p e he,
          length-set table i e,
          put_self ip table table i p e he,
          put-Forgets ip table table i p e he u,
          (i, at_other table i e inside),
        ))
  | inr (absent, free) ↦
      (let (i, table', e', p) = alloc-Place ip table u some_slot free in
        let e = learned h mac (record (slot table' i) { ip = ip }) in
        let he = new-matches h ip mac (slot table' i) in
        (
          set table' i e,
          flush h mac (slot table' i).held,
          rw (absent, e', cache) refl,
          put-Unique ip table table' i p e he,
          length-set table' i e ∙ p.size,
          put_self ip table table' i p e he,
          put-Forgets ip table table' i p e he u,
          (i, λ j ne. at_other table' i e p.inside j ne ∙ p.others j ne),
        ))
]
