-- ===== src/Net/Packet/Tests.antt =====
-- A packet with some headers in front and behind: the tests and the examples of the theorems.
use re_pico.Base.{
  ℕ, ◌≡◌, ◌≢◌, refl, List, [], ◌∷◌, get_or, some, none, replicate, length-replicate, arith,
}
use re_pico.Net.Packet.{Packet, prepend, append}
use re_pico.Net.Packet.Pool.{Pool, cold_pool, packet_pool_init, packet_alloc}
use re_pico.Net.Packet.Pool.Free.{IsPool, Absent, packet_alloc_lem, packet_pool_init_lem}
use re_pico.Net.Packet.Window.{IsPacket}

abbrev pub demo : Packet
demo = record { head = 34; len = 20; buf = replicate 1664 0 }

pub demo-IsPacket : IsPacket demo
demo-IsPacket = record { size = length-replicate {A = ℕ} 1664 0; inside = omega arith }

too_far_back : prepend demo 35 ≡ none
unfolding prepend
too_far_back = refl

too_long : append demo 1611 ≡ none
unfolding append
too_long = refl

abbrev all_free : List ℕ
all_free = 7 ∷ 6 ∷ 5 ∷ 4 ∷ 3 ∷ 2 ∷ 1 ∷ 0 ∷ []

abbrev later_free : List ℕ
later_free = 6 ∷ 5 ∷ 4 ∷ 3 ∷ 2 ∷ 1 ∷ 0 ∷ []

packet_alloc_lem_example :
    let p = packet_pool_init cold_pool in
    (p' : Pool) × (packet_alloc p 34 ≡ some (7, p'))
    × IsPool p' later_free
    × Absent 7 later_free
    × (get_or p'.window 7 (0, 0) ≡ (34, 0))
    × ((j : ℕ) → 7 ≢ j → get_or p'.window j (0, 0) ≡ get_or p.window j (0, 0))
packet_alloc_lem_example =
    packet_alloc_lem (packet_pool_init cold_pool) 7 later_free 34 packet_pool_init_lem (omega arith)

abbrev taken_pool : Pool
taken_pool = record {
  next = none ∷ some 0 ∷ [];
  window = replicate 2 (0, 0);
  freelist = some 0;
  available = 1;
}

taken_pool-IsPool : IsPool taken_pool (0 ∷ [])
taken_pool-IsPool = record { chain = (refl, omega arith, tt, refl); count = refl; windows = refl }
