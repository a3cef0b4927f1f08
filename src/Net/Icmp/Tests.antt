-- ===== src/Net/Icmp/Tests.antt =====
-- A ping, run: the example of the theorem.
use re_pico.Base.{ℕ, ◌≡◌, List, [], ◌∷◌, arith}
use re_pico.Base.Run.{ok}
use re_pico.Net.Checksum.{checksum}
use re_pico.Net.Icmp.{handle, request_bytes, reflects, reports}
use re_pico.Net.Icmp.Ping.{echo_lem}

echo_lem_example :
    (request : List ℕ) × (reply : List ℕ) × (request_bytes 1 2 (0 ∷ 1 ∷ 2 ∷ []) ≡ ok request)
    × (checksum request ≡ ok 0)
    × (handle 0xc0a80001 request ≡ ok (reflects reply))
    × (checksum reply ≡ ok 0)
    × (handle 0xc0a80002 reply
        ≡ ok (reports (record { src = 0xc0a80002; id = 1; seq = 2; body = 0 ∷ 1 ∷ 2 ∷ [] })))
echo_lem_example =
    echo_lem 0xc0a80001 0xc0a80002 1 2 (0 ∷ 1 ∷ 2 ∷ []) (omega arith) (omega arith)
      (omega arith, (omega arith, (omega arith, tt))) (omega arith)
