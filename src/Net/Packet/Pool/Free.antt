-- ===== src/Net/Packet/Pool/Free.antt =====
-- The pool is a stack of the packets that are not in use: no packet is handed out twice.
use re_pico.Base.{
  ℕ, ◌-◌, ◌<◌, ◌≤◌, ◌≡◌, ◌≢◌, refl, sym, List, [], ◌∷◌, Option, none, some, leb, get_or, set,
  length, arith, le→leb, subst, inl, inr, Bool-cases, get_or-set_self, get_or-set_ne, length-set,
}
use re_pico.Net.Packet.Pool.{
  Pool, cold_pool, init_loop, packet_pool_init, packet_alloc, packet_free,
}

abbrev pub Absent : ℕ → List ℕ → Type 0
Absent i [] = Unit
Absent i (j ∷ js) = (i ≢ j) × Absent i js

-- The links from `start` on lead through just these packets, none of them twice.
abbrev pub Chain : List (Option ℕ) → Option ℕ → List ℕ → Type 0
Chain next start [] = start ≡ none
Chain next start (i ∷ is) =
    (start ≡ some i) × (i < length next) × Absent i is × Chain next (get_or next i none) is

-- The packets that are free are `is`, the first to be handed out first.
pub record IsPool (p : Pool) (is : List ℕ) : Type 0 where
  pub chain : Chain p.next p.freelist is
  pub count : p.available ≡ length is
  pub windows : length p.window ≡ length p.next

Chain-set :
    (next : List (Option ℕ)) (start : Option ℕ) (is : List ℕ) (i : ℕ) (v : Option ℕ)
    → Absent i is
    → Chain next start is
    → Chain (set next i v) start is
Chain-set next start [] i v a h = h
Chain-set next start (j ∷ is) i v a h = (
  h.0,
  omega (arith, h.1, length-set next i v),
  h.2,
  subst (λ (s : Option ℕ). Chain (set next i v) s is) (sym (get_or-set_ne next i j v none a.0))
      (Chain-set next (get_or next j none) is i v a.1 h.3),
)

-- From a pool with free packets `packet_alloc` takes the first: it is none of those that stay free,
-- its window is empty behind the headroom, which is at most the size of a packet, and the windows of
-- all others are as before.
pub packet_alloc_lem :
    (p : Pool) (i : ℕ) (is : List ℕ) (headroom : ℕ)
    → IsPool p (i ∷ is)
    → headroom ≤ 1664
    → (p' : Pool) × (packet_alloc p headroom ≡ some (i, p'))
      × IsPool p' is
      × Absent i is
      × (get_or p'.window i (0, 0) ≡ (headroom, 0))
      × ((j : ℕ) → i ≢ j → get_or p'.window j (0, 0) ≡ get_or p.window j (0, 0))
unfolding packet_alloc
packet_alloc_lem p i is headroom v h = (
  record {
    next = set p.next i none;
    window = set p.window i (headroom, 0);
    freelist = get_or p.next i none;
    available = p.available - 1;
  },
  rw (le→leb headroom 1664 h, v.chain.0, packet_alloc) refl,
  record {
    chain = Chain-set p.next (get_or p.next i none) is i none v.chain.2 v.chain.3;
    count = omega (arith, v.count);
    windows =
        omega (arith, v.windows, length-set p.next i none, length-set p.window i (headroom, 0));
  },
  v.chain.2,
  get_or-set_self p.window i (headroom, 0) (0, 0) (omega (arith, v.chain.1, v.windows)),
  λ j ne. get_or-set_ne p.window i j (headroom, 0) (0, 0) ne,
)

pub packet_alloc-empty : (p : Pool) (headroom : ℕ) → IsPool p [] → packet_alloc p headroom ≡ none
unfolding packet_alloc
packet_alloc-empty p headroom v = elim (Bool-cases (leb headroom 1664)) [
  | inl fits ↦ rw (fits, v.chain, packet_alloc) refl
  | inr large ↦ rw large refl
]

-- A packet that is in use and given back is the first to be handed out again.
pub packet_free_lem :
    (p : Pool) (i : ℕ) (is : List ℕ)
    → IsPool p is
    → i < length p.next
    → Absent i is
    → IsPool (packet_free p (some i)) (i ∷ is)
unfolding packet_free
packet_free_lem p i is v h a = record {
  chain = (
    refl,
    omega (arith, h, length-set p.next i p.freelist),
    a,
    subst (λ (s : Option ℕ). Chain (set p.next i p.freelist) s is)
        (sym (get_or-set_self p.next i p.freelist none h))
        (Chain-set p.next p.freelist is i p.freelist a v.chain),
  );
  count = omega (arith, v.count);
  windows = omega (arith, v.windows, length-set p.next i p.freelist);
}

-- After the initialisation all eight packets are free.
pub packet_pool_init_lem : IsPool (packet_pool_init cold_pool) (7 ∷ 6 ∷ 5 ∷ 4 ∷ 3 ∷ 2 ∷ 1 ∷ 0 ∷ [])
unfolding packet_pool_init init_loop
packet_pool_init_lem = record { chain = ground arith; count = refl; windows = refl }
