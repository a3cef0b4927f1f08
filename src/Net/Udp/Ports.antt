-- ===== src/Net/Udp/Ports.antt =====
-- The table of sockets as a finite map from ports: `bind` adds one, and `unbind` takes it away.
use re_pico.Base.{
  ℕ, suc, ◌+◌, ◌≡◌, ◌≢◌, refl, sym, ap, ◌∙◌, List, [], ◌∷◌, Bool, true, false, ◌&&◌, Option, none,
  some, ◌==◌, ==_iff, if◌then◌else◌, map, set, arith, inl, inr, ◌⊎◌, Bool-cases,
}
use re_pico.Net.Udp.{Socket, Table, socket_at, bind_scan, bind, drop_socket, unbind, listener}

-- No socket in the slots has the port.
unfoldable pub Unused : List Socket → ℕ → List (Option ℕ) → Type 0
Unused socks port [] = Unit
Unused socks port (none ∷ slots) = Unused socks port slots
Unused socks port (some s ∷ slots) = ((socket_at socks s).port ≢ port) × Unused socks port slots

-- The port of a free slot from `i` on, or what was found before.
abbrev first_free : ℕ → List (Option ℕ) → Option ℕ → Option ℕ
first_free i slots (some f) = some f
first_free i [] none = none
first_free i (none ∷ slots) none = some i
first_free i (some s ∷ slots) none = first_free (i + 1) slots none

different : (a b : ℕ) → a ≢ b → (a == b) ≡ false
different a b h = ground arith

bind_scan_lem :
    (socks : List Socket) (port i : ℕ) (slots : List (Option ℕ)) (found : Option ℕ)
    → Unused socks port slots
    → bind_scan socks port i slots found ≡ some (first_free i slots found)
unfolding Unused bind_scan
bind_scan_lem socks port i [] none h = refl
bind_scan_lem socks port i [] (some f) h = refl
bind_scan_lem socks port i (none ∷ slots) none h = bind_scan_lem socks port (i + 1) slots (some i) h
bind_scan_lem socks port i (none ∷ slots) (some f) h =
    bind_scan_lem socks port (i + 1) slots (some f) h
bind_scan_lem socks port i (some s ∷ slots) none h =
    rw (different (socket_at socks s).port port h.0)
      (bind_scan_lem socks port (i + 1) slots none h.1)
bind_scan_lem socks port i (some s ∷ slots) (some f) h =
    rw (different (socket_at socks s).port port h.0)
      (bind_scan_lem socks port (i + 1) slots (some f) h.1)

same : (n : ℕ) → (n == n) ≡ true
same n = ground arith

-- No slot is free.
unfoldable pub Full : List (Option ℕ) → Type 0
Full [] = Unit
Full (none ∷ slots) = ⊥
Full (some s ∷ slots) = Full slots

module _ (socks : List Socket) (s : ℕ) (h : (socket_at socks s).has_on_rx ≡ true) where
  abbrev port : ℕ
  port = (socket_at socks s).port

  -- What the slots answer with the socket in slot `j`.
  record Taken (slots : List (Option ℕ)) (j : ℕ) : Type 0 where
    own : listener socks port (set slots j (some s)) ≡ some s
    others : (q : ℕ) → q ≢ port → listener socks q (set slots j (some s)) ≡ listener socks q slots

  first_free-cases :
      (k : ℕ) (slots : List (Option ℕ))
      → Unused socks port slots
      → (Full slots × (first_free k slots none ≡ none))
        ⊎ ((j : ℕ) × (first_free k slots none ≡ some (k + j)) × Taken slots j)
  unfolding Unused Full listener
  first_free-cases k [] u = inl (tt, refl)
  first_free-cases k (none ∷ slots) u = inr (
    0,
    ap some {x = k} {y = k + 0} (omega arith),
    record {
      own = rw (same port, h) refl;
      others = λ q ne. rw (different port q (λ e. ne (sym e))) refl;
    },
  )
  first_free-cases k (some x ∷ slots) u = elim (first_free-cases (k + 1) slots u.1) [
    | inl full ↦ inl full
    | inr (j, e, t) ↦ inr (
      suc j,
      e ∙ ap some {x = k + 1 + j} {y = k + suc j} (omega arith),
      record {
        own = rw (different (socket_at socks x).port port u.0) t.own;
        others = λ q ne.
            ap
              (λ (r : Option ℕ).
                if (socket_at socks x).port == q && (socket_at socks x).has_on_rx
                then some x
                else r)
              (t.others q ne);
      },
    )
  ]

-- A socket with a handler whose port no socket of the table has: either all slots are taken and `bind`
-- returns false, or it returns true, the socket is the one that datagrams for its port are given to
-- from then on, and any other port keeps its listener.
pub bind_lem :
    (t : Table) (s : ℕ)
    → (socket_at t.socks s).has_on_rx ≡ true
    → Unused t.socks (socket_at t.socks s).port t.slots
    → (Full t.slots × (bind t s ≡ none))
      ⊎ ((t' : Table) × (bind t s ≡ some t')
          × (t'.socks ≡ t.socks)
          × (listener t.socks (socket_at t.socks s).port t'.slots ≡ some s)
          × ((q : ℕ)
              → q ≢ (socket_at t.socks s).port
              → listener t.socks q t'.slots ≡ listener t.socks q t.slots))
unfolding bind
bind_lem t s h u =
    let scan = bind_scan_lem t.socks (socket_at t.socks s).port 0 t.slots none u in
    elim (first_free-cases t.socks s h 0 t.slots u) [
      | inl (full, e) ↦ inl (full, rw (scan, e, bind) refl)
      | inr (j, e, p) ↦ inr (
        record t { slots = set t.slots j (some s) },
        rw (scan, e, bind)
            (ap (λ (i : ℕ). some (record t { slots = set t.slots i (some s) })) {x = 0 + j} {y = j}
              (omega arith)),
        refl,
        p.own,
        p.others,
      )
    ]

other_slot : (x s : ℕ) → (x == s) ≡ false → some x ≢ some s
other_slot x s h e = ground arith

is_slot : (o : Option ℕ) (s : ℕ) → (o ≡ some s) ⊎ (o ≢ some s)
is_slot none s = inr (λ e. absurd (ground arith))
is_slot (some x) s = elim (Bool-cases (x == s)) [
  | inl own ↦ inl (ap some ((==_iff x s).0 own))
  | inr other ↦ inr (other_slot x s other)
]

module _ (socks : List Socket) (s q : ℕ) where
  abbrev listens : ℕ → Bool
  listens x = (socket_at socks x).port == q && (socket_at socks x).has_on_rx

  dropped : (slots : List (Option ℕ)) → listener socks q (map (drop_socket s) slots) ≢ some s
  unfolding listener
  dropped [] = λ e. absurd (ground arith)
  dropped (none ∷ slots) = dropped slots
  dropped (some x ∷ slots) = elim (Bool-cases (x == s)) [
    | inl own ↦ rw own (dropped slots)
    | inr other ↦ elim (Bool-cases (listens x)) [
      | inl yes_x ↦ rw (other, yes_x) (λ e. other_slot x s other e)
      | inr no_x ↦ rw (other, no_x) (dropped slots)
    ]
  ]

  kept :
      (slots : List (Option ℕ))
      → listener socks q slots ≢ some s
      → listener socks q (map (drop_socket s) slots) ≡ listener socks q slots
  unfolding listener
  kept [] h = refl
  kept (none ∷ slots) h = kept slots h
  kept (some x ∷ slots) h = elim (Bool-cases (listens x)) [
    | inl yes_x ↦ elim (Bool-cases (x == s)) [
      | inl own ↦ absurd (h (rw yes_x (ap some ((==_iff x s).0 own))))
      | inr other ↦ rw (other, yes_x) refl
    ]
    | inr no_x ↦ elim (Bool-cases (x == s)) [
      | inl own ↦ rw (own, no_x) (kept slots (rw no_x at h))
      | inr other ↦ rw (other, no_x) (kept slots (rw no_x at h))
    ]
  ]

-- A socket that has been taken out of the table listens on no port, and a port that it did not listen
-- on keeps its listener, or has none as before.
pub unbind_lem :
    (t : Table) (s q : ℕ)
    → (listener t.socks q (unbind t s).slots ≢ some s)
      × ((listener t.socks q t.slots ≡ some s)
          ⊎ (listener t.socks q (unbind t s).slots ≡ listener t.socks q t.slots))
unfolding unbind
unbind_lem t s q =
    let own = is_slot (listener t.socks q t.slots) s in
    (
      dropped t.socks s q t.slots,
      elim own [ inl e ↦ inl e | inr e ↦ inr (kept t.socks s q t.slots e) ],
    )
