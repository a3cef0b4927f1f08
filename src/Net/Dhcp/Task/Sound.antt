-- ===== src/Net/Dhcp/Task/Sound.antt =====
-- The lease that the client holds and the settings of the stack belong together.
use re_pico.Base.{
  subst, ℕ, ◌+◌, ◌<◌, ◌≡◌, ◌≢◌, ◌⊎◌, inl, inr, refl, List, Bool, true, false, Bool-cases, ◌==◌, ltb,
  ltb→lt, some, Option, arith,
}
use re_pico.Base.Run.{Run, ok, fails, fault, out_of_fuel}
use re_pico.Net.Dhcp.{
  State, Lease, Client, Parsed, no_addr, type_discover, type_request, type_offer, type_ack,
  type_nak, same_addr, advances, is_ours, taken, on_socket_rx,
}
use re_pico.Net.Dhcp.Arrival.{noted}
use re_pico.Net.Dhcp.Task.{
  Settings, no_settings, Place, sending, waiting, sleeping, Task, max_tries, renewal_ms, discover,
  start, next_attempt, replied, renew, resume, Happening, resumes, arrives, step,
}

abbrev pub settings_of : Lease → Settings
settings_of l = record { addr = l.addr; netmask = l.netmask; gateway = l.router }

-- The task is in `transact` with this type of message.
abbrev pub Asks : ℕ → Place → Type 0
Asks type (sending t i) = (t ≡ type) × (i < max_tries)
Asks type (waiting t i) = (t ≡ type) × (i < max_tries)
Asks type (sleeping ms) = ⊥

-- What holds in each state of the client.
abbrev pub Holds : State → Lease → Settings → Place → Type 0
Holds State.idle l net p = ⊥
Holds State.selecting l net p = (net ≡ no_settings) × Asks type_discover p
Holds State.requesting l net p =
    (net ≡ no_settings) × (same_addr l.server_id no_addr ≡ false) × Asks type_request p
Holds State.bound l net p = (net ≡ settings_of l) × (p ≡ sleeping (renewal_ms l))
Holds State.renewing l net p = (net ≡ settings_of l) × Asks type_request p

-- A reply that the task is woken for is one that its state waits for.
abbrev pub Awaited : State → ℕ → Lease → Type 0
Awaited State.selecting type l = (type ≡ type_offer) × (same_addr l.server_id no_addr ≡ false)
Awaited State.requesting type l = (type ≡ type_ack) ⊎ (type ≡ type_nak)
Awaited State.renewing type l = (type ≡ type_ack) ⊎ (type ≡ type_nak)
Awaited State.idle type l = ⊥
Awaited State.bound type l = ⊥

pub record IsTask (t : Task) : Type 0 where
  pub holds : Holds t.client.state t.client.lease t.settings t.place
  pub awaited :
      t.client.reply ≡ true → Awaited t.client.state t.client.reply_type t.client.reply_lease

-- The tasks that can come about from a client whose socket could be bound.
pub data Reachable (mac : List ℕ) : Task → Type 0 where
  started : (now : ℕ) (c : Client) (t : Task) → start true now c ≡ some t → Reachable mac t
  stepped : (h : Happening) (t : Task) → Reachable mac t → Reachable mac (step mac h t)

denied {ℓ} : {A : Type ℓ} → ◌≡◌ {A = Bool} false true → A
denied e = cc

no_event {ℓ} : {A : Type ℓ} {b : Bool} → b ≡ false → b ≡ true → A
no_event e f = cc

same_task : {t u : Task} → ◌≡◌ {A = Option Task} (some t) (some u) → t ≡ u
same_task e = cc

discover-IsTask : (now : ℕ) (c : Client) → IsTask (discover now c)
unfolding discover
discover-IsTask now c = record { holds = (refl, (refl, omega arith)); awaited = λ e. denied e }

advances-Awaited : (s : State) (p : Parsed) → advances s p ≡ true → Awaited s p.type p.lease
unfolding advances
advances-Awaited State.idle p e = denied e
advances-Awaited State.bound p e = denied e
advances-Awaited State.selecting p e = ground (arith, e)
advances-Awaited State.requesting p e = ground (arith, e)
advances-Awaited State.renewing p e = ground (arith, e)

-- A datagram changes nothing, or leaves a reply that the state waits for.
abbrev Told : Client → Client → Type 0
Told c d = (d ≡ c) ⊎ ((p : Parsed) × (advances c.state p ≡ true) × (d ≡ noted c p))

taken_lem : (c : Client) (r : Run Parsed) → Told c (taken c r)
taken_lem c (ok p) = elim (Bool-cases (advances c.state p)) [
  | inl e ↦ rw e (inr (p, e, refl))
  | inr e ↦ rw e (inl refl)
]
taken_lem c fails = inl refl
taken_lem c fault = inl refl
taken_lem c out_of_fuel = inl refl

on_socket_rx_lem : (mac bytes : List ℕ) (c : Client) → Told c (on_socket_rx mac bytes c)
unfolding on_socket_rx
on_socket_rx_lem mac bytes c = elim (Bool-cases (is_ours mac c bytes)) [
  | inl e ↦ rw e (taken_lem c _)
  | inr e ↦ rw e (inl refl)
]

arrives-IsTask : (mac bytes : List ℕ) (t : Task) → IsTask t → IsTask (step mac (arrives bytes) t)
unfolding step
arrives-IsTask mac bytes t v = elim (on_socket_rx_lem mac bytes t.client) [
  | inl e ↦ rw e v
  | inr (p, e, f) ↦
      rw f (record { holds = v.holds; awaited = λ _. advances-Awaited t.client.state p e })
]

replied-IsTask :
    (now : ℕ) (s : State) (c : Client) (net : Settings) (p : Place)
    → c.state ≡ s
    → Holds s c.lease net p
    → Awaited s c.reply_type c.reply_lease
    → IsTask (replied now (record c { reply = false }) net)
unfolding replied
replied-IsTask now State.idle c net p e h a = absurd h
replied-IsTask now State.bound c net p e h a = absurd a
replied-IsTask now State.selecting c net p e h a =
    rw e (record { holds = (h.0, a.1, (refl, omega arith)); awaited = λ k. denied k })
replied-IsTask now State.requesting c net p e h a = elim (Bool-cases (c.reply_type == type_ack)) [
  | inl k ↦ rw (e, k) (record { holds = (refl, refl); awaited = λ x. denied x })
  | inr k ↦ rw (e, k) (discover-IsTask now (record c { reply = false }))
]
replied-IsTask now State.renewing c net p e h a = elim (Bool-cases (c.reply_type == type_ack)) [
  | inl k ↦ rw (e, k) (record { holds = (h.0, refl); awaited = λ x. denied x })
  | inr k ↦ rw (e, k) (discover-IsTask now (record c { reply = false }))
]

-- What holds of a place in `transact` holds of another with the same message.
Asks-again :
    (s : State) (l : Lease) (net : Settings) (p q : Place)
    → ((t : ℕ) → Asks t p → Asks t q)
    → ((ms : ℕ) → p ≢ sleeping ms)
    → Holds s l net p
    → Holds s l net q
Asks-again State.idle l net p q k n h = h
Asks-again State.selecting l net p q k n h = (h.0, k type_discover h.1)
Asks-again State.requesting l net p q k n h = (h.0, h.1, k type_request h.2)
Asks-again State.renewing l net p q k n h = (h.0, k type_request h.1)
Asks-again State.bound l net p q k n h = absurd (n _ h.1)

next_attempt-IsTask :
    (now type i : ℕ) (c : Client) (net : Settings)
    → Holds c.state c.lease net (waiting type i)
    → IsTask (next_attempt now type i c net)
unfolding next_attempt
next_attempt-IsTask now type i c net h = elim (Bool-cases (ltb (i + 1) max_tries)) [
  | inl e ↦ rw e (record {
    holds =
        Asks-again c.state c.lease net (waiting type i) (sending type (i + 1))
          (λ t k. (k.0, ltb→lt (i + 1) max_tries e)) (λ ms k. cc) h;
    awaited = λ k. denied k;
  })
  | inr e ↦ rw e (discover-IsTask now c)
]

renew-IsTask :
    (now : ℕ) (s : State) (c : Client) (net : Settings) (ms : ℕ)
    → Holds s c.lease net (sleeping ms)
    → IsTask (renew now c net)
unfolding renew
renew-IsTask now State.idle c net ms h = absurd h
renew-IsTask now State.selecting c net ms h = absurd h.1
renew-IsTask now State.requesting c net ms h = absurd h.2
renew-IsTask now State.renewing c net ms h = absurd h.1
renew-IsTask now State.bound c net ms h = record {
  holds = (h.0, (refl, omega arith));
  awaited = λ k. denied k;
}

resume-IsTask :
    (now : ℕ) (sent : Bool) (c : Client) (net : Settings) (p : Place)
    → Holds c.state c.lease net p
    → (c.reply ≡ true → Awaited c.state c.reply_type c.reply_lease)
    → IsTask (resume now sent (record { client = c; settings = net; place = p }))
unfolding resume
resume-IsTask now true c net (sending type i) h a = record {
  holds =
      Asks-again c.state c.lease net (sending type i) (waiting type i) (λ t k. k) (λ ms k. cc) h;
  awaited = a;
}
resume-IsTask now false c net (sending type i) h a = discover-IsTask now c
resume-IsTask now sent c net (waiting type i) h a = elim (Bool-cases c.reply) [
  | inl e ↦ rw e (replied-IsTask now c.state c net (waiting type i) refl h (a e))
  | inr e ↦ rw e (next_attempt-IsTask now type i (record c { reply = false }) net h)
]
resume-IsTask now sent c net (sleeping ms) h a = renew-IsTask now c.state c net ms h

pub step-IsTask : (mac : List ℕ) (h : Happening) (t : Task) → IsTask t → IsTask (step mac h t)
unfolding step
step-IsTask mac (resumes now sent) t v =
    resume-IsTask now sent t.client t.settings t.place v.holds v.awaited
step-IsTask mac (arrives bytes) t v = arrives-IsTask mac bytes t v

-- Whatever datagrams come in and whichever attempts fail, in every task that can come about: while no
-- lease is acknowledged the stack has no address, netmask or gateway; while one is held or renewed
-- they are those of the lease that the client holds, and the sleep is half of its time; what the task
-- waits for is the reply to the message of its state, in at most four attempts; a request goes to the
-- server of an offer that names one; and the task is woken only by a reply that its state waits for.
pub Reachable-IsTask : (mac : List ℕ) (t : Task) → Reachable mac t → IsTask t
Reachable-IsTask mac _ (started now c t e) = subst IsTask (same_task e) (discover-IsTask now c)
Reachable-IsTask mac _ (stepped h t' r) = step-IsTask mac h t' (Reachable-IsTask mac t' r)
