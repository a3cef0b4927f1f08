-- ===== src/Net/Arp/Timeout.antt =====
-- `tick`: entries age out, and requests that nobody answers come to an end.
use re_pico.Base.{
  ℕ, zero, suc, ◌+◌, ◌≡◌, refl, sym, ap, ◌∙◌, List, [], ◌∷◌, true, Option, leb, length, arith, inl,
  inr, Bool-cases, if◌then◌else◌,
}
use re_pico.Net.Arp.{
  Host, Entry, State, free, pending, resolved, matches, tick_entry, tick, retry_interval_ms,
  max_retries,
}
use re_pico.Net.Arp.Table.{slot, Unique, answer, Forgets, same_slots-Forgets}

-- The turns of an entry in ticks of these times.
abbrev pub turns : Option (List ℕ) → List Host → Entry → Entry
turns spare [] e = e
turns spare (h ∷ hs) e = turns spare hs (tick_entry h spare e).0

-- How many of the ticks find the deadline over, the first at `d`, each other an interval behind the
-- last that did; the ticks between them come too early.
abbrev pub due_count : ℕ → List Host → ℕ
due_count d [] = 0
due_count d (h ∷ hs) =
    if leb d h.now_ms then suc (due_count (h.now_ms + retry_interval_ms) hs) else due_count d hs

abbrev again : Host → Entry → Entry
again h e = record e { retries = e.retries + 1; deadline_ms = h.now_ms + retry_interval_ms }

slot-tick :
    (h : Host) (spare : Option (List ℕ)) (table : List Entry) (n : ℕ)
    → slot (tick h spare table).0 n ≡ (tick_entry h spare (slot table n)).0
unfolding tick tick_entry
slot-tick h spare [] n = refl
slot-tick h spare (e ∷ table) zero = refl
slot-tick h spare (e ∷ table) (suc n) = slot-tick h spare table n

length-tick :
    (h : Host) (spare : Option (List ℕ)) (table : List Entry)
    → length (tick h spare table).0 ≡ length table
unfolding tick
length-tick h spare [] = refl
length-tick h spare (e ∷ table) = ap suc (length-tick h spare table)

-- An entry that an address is still found in after its turn had it before, with the same answer.
kept_by_turn :
    (h : Host) (spare : Option (List ℕ)) (ip : ℕ) (e : Entry)
    → matches ip (tick_entry h spare e).0 ≡ true
    → (matches ip e ≡ true) × (answer (tick_entry h spare e).0 ≡ answer e)
unfolding tick_entry
kept_by_turn h spare ip e k = by_state e.state refl k
  where
    by_state :
        (s : State)
        → e.state ≡ s
        → matches ip (tick_entry h spare e).0 ≡ true
        → (matches ip e ≡ true) × (answer (tick_entry h spare e).0 ≡ answer e)
    by_state free q k = ground arith
    by_state resolved q k = elim (Bool-cases (leb e.deadline_ms h.now_ms)) [
      | inl due ↦ ground arith
      | inr due ↦ ground arith
    ]
    by_state pending q k = elim (Bool-cases (leb e.deadline_ms h.now_ms)) [
      | inl due ↦ elim (Bool-cases (leb max_retries e.retries)) [
        | inl last ↦ ground arith
        | inr last ↦ ground arith
      ]
      | inr due ↦ ground arith
    ]

-- `tick` keeps one slot for an address, and changes no answer but by forgetting the address.
pub tick_lem :
    (h : Host) (spare : Option (List ℕ)) (table : List Entry)
    → Unique table
    → Unique (tick h spare table).0
      × (length (tick h spare table).0 ≡ length table)
      × ((ip : ℕ) → Forgets table (tick h spare table).0 ip)
unfolding Unique
tick_lem h spare table u =
    let table' = (tick h spare table).0 in
    let before = λ (ip n : ℕ) (k : matches ip (slot table' n) ≡ true).
      kept_by_turn h spare ip (slot table n)
        (ap (matches ip) (sym (slot-tick h spare table n)) ∙ k) in
    let sound =
      λ (ip i j : ℕ) (hi : matches ip (slot table' i) ≡ true)
          (hj : matches ip (slot table' j) ≡ true).
        u ip i j (before ip i hi).0 (before ip j hj).0 in
    (
      sound,
      length-tick h spare table,
      λ ip.
          same_slots-Forgets table table' ip u sound
            (λ n k. ap answer (slot-tick h spare table n) ∙ (before ip n k).1)
            (λ n k. (before ip n k).0),
    )
