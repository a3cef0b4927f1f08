-- ===== src/Net/Icmp/Ping.antt =====
-- A request and its reply.
use re_pico.Base.{ℕ, ◌+◌, ◌-◌, ◌<◌, ◌≡◌, refl, ap, ◌∙◌, List, ◌∷◌, ◌++◌, false, ltb, length, arith}
use re_pico.Base.Bytes.{Bytes}
use re_pico.Base.Run.{ok}
use re_pico.Net.Wire.{be16, be16_number}
use re_pico.Net.Checksum.{checksum}
use re_pico.Net.Checksum.Total.{words_total, checksum_lem, folds_to_zero}
use re_pico.Net.Icmp.{handle, reflect, request_bytes, reflects, reports}

-- A message put together from its type, the bytes behind the checksum, and the checksum.
abbrev message : ℕ → ℕ → List ℕ → List ℕ
message type sum rest = type ∷ 0 ∷ be16 sum ++ rest

words_of_message :
    (type sum : ℕ) (rest : List ℕ)
    → sum < 65536
    → words_total (message type sum rest) ≡ words_total (message type 0 rest) + sum
unfolding words_total
words_of_message type sum rest h = omega arith

message_lem :
    (type : ℕ) (rest : List ℕ)
    → type < 256
    → Bytes rest
    → length rest < 65000
    → (sum : ℕ) × (checksum (message type 0 rest) ≡ ok sum)
      × (checksum (message type sum rest) ≡ ok 0)
message_lem type rest ht hb fits =
    let (r, e, f) =
      checksum_lem (message type 0 rest) (ht, (omega arith, (omega arith, (omega arith, hb))))
        (omega arith) in
    let sum : ℕ = 65535 - r in
    let (r', e', f') =
      checksum_lem (message type sum rest) (ht, (omega arith, (omega arith, (omega arith, hb))))
        (omega arith) in
    (
      sum,
      e,
      e'
          ∙ ap ok (
              folds_to_zero (words_total (message type 0 rest))
                (words_total (message type sum rest)) r r' f f'
                (words_of_message type sum rest (omega arith))),
    )

-- A ping: the request that is built is answered, and the answer reports to the sender the identifier,
-- the number and the bytes of the request. Both messages have a valid checksum.
pub echo_lem :
    (src src' id seq : ℕ) (body : List ℕ)
    → id < 65536
    → seq < 65536
    → Bytes body
    → length body < 1600
    → (request : List ℕ) × (reply : List ℕ) × (request_bytes id seq body ≡ ok request)
      × (checksum request ≡ ok 0)
      × (handle src request ≡ ok (reflects reply))
      × (checksum reply ≡ ok 0)
      × (handle src' reply ≡ ok (reports (record { src = src'; id = id; seq = seq; body = body })))
unfolding handle reflect request_bytes
echo_lem src src' id seq body hi hs hb fits =
    let rest = be16 id ++ (be16 seq ++ body) in
    let hr : Bytes rest = (omega arith, (omega arith, (omega arith, (omega arith, hb)))) in
    let (sum, e, z) = message_lem 8 rest (omega arith) hr (omega arith) in
    let (sum', e', z') = message_lem 0 rest (omega arith) hr (omega arith) in
    let long : ltb (length (message 8 sum rest)) 8 ≡ false = ground arith in
    (
      message 8 sum rest,
      message 0 sum' rest,
      rw e refl,
      z,
      rw (long, e') refl,
      z',
      rw (long, be16_number id hi, be16_number seq hs) refl,
    )
