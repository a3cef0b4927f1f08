-- ===== src/Net/Packet/Pool.antt =====
-- packet.cpp, the pool of packets: `packet_pool_init`, `packet_alloc` and `packet_free`. A packet is
-- its place in the pool; `window` has its `head` and `len`, `next` its link.
pub mod Free
use re_pico.Base.{
  ℕ, zero, suc, ◌+◌, ◌-◌, List, [], ◌∷◌, Option, none, some, leb, if◌then◌else◌, get_or, set,
  replicate,
}
use re_pico.Net.Packet.{packet_capacity}

abbrev pub pool_size : ℕ
pool_size = 8

pub record Pool : Type 0 where
  pub next : List (Option ℕ)
  pub window : List (ℕ × ℕ)
  pub freelist : Option ℕ
  pub available : ℕ

-- The static variables.
abbrev pub cold_pool : Pool
cold_pool = record {
  next = replicate pool_size none;
  window = replicate pool_size (0, 0);
  freelist = none;
  available = 0;
}

unfoldable pub init_loop : ℕ → ℕ → Pool → Pool
init_loop zero i p = p
init_loop (suc n) i p =
    init_loop n (i + 1) (record p { next = set p.next i p.freelist; freelist = some i })

unfoldable pub packet_pool_init : Pool → Pool
packet_pool_init p = record (init_loop pool_size 0 p) { available = pool_size }

unfoldable pub packet_alloc : Pool → ℕ → Option (ℕ × Pool)
packet_alloc p headroom =
    if leb headroom packet_capacity
    then elim p.freelist [
      | none ↦ none
      | some i ↦ some (
        i,
        record {
          next = set p.next i none;
          window = set p.window i (headroom, 0);
          freelist = get_or p.next i none;
          available = p.available - 1;
        },
      )
    ]
    else none

unfoldable pub packet_free : Pool → Option ℕ → Pool
packet_free p none = p
packet_free p (some i) = record p {
  next = set p.next i p.freelist;
  freelist = some i;
  available = p.available + 1;
}
