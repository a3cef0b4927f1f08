-- ===== src/Net/Tcp/Seq/Window.antt =====
-- What the tests on serial numbers accept.
use re_pico.Base.{ℕ, ◌^◌, ◌≤◌, ◌<◌, ◌≡◌, ◌↔◌, ◌⊎◌, ◌≢◌, true, ◌&&◌, arith}
use re_pico.Net.Tcp.Seq.{sub32, seq_lt, seq_le}

-- With fewer than 2 ^ 31 sequence numbers in flight, the test `una <= ack <= nxt` accepts just the
-- numbers from `una` to `nxt`, whether or not the range wraps around zero, and, where nothing is in
-- flight, the one at the distance 2 ^ 31 as well.
pub seq_le-window :
    (una ack nxt : ℕ)
    → una < 2 ^ 32
    → ack < 2 ^ 32
    → nxt < 2 ^ 32
    → sub32 nxt una < 2 ^ 31
    → ((seq_le una ack && seq_le ack nxt) ≡ true)
      ↔ ((sub32 ack una ≤ sub32 nxt una) ⊎ ((nxt ≡ una) × (sub32 ack una ≡ 2 ^ 31)))
unfolding seq_le
seq_le-window una ack nxt hu ha hn flight = ground arith

-- With something and fewer than 2 ^ 31 sequence numbers in flight, the test `una < ack <= nxt` accepts just the numbers behind `una` up to `nxt`.
pub seq_lt-window :
    (una ack nxt : ℕ)
    → una < 2 ^ 32
    → ack < 2 ^ 32
    → nxt < 2 ^ 32
    → sub32 nxt una < 2 ^ 31
    → nxt ≢ una
    → ((seq_lt una ack && seq_le ack nxt) ≡ true)
      ↔ ((1 ≤ sub32 ack una) × (sub32 ack una ≤ sub32 nxt una))
unfolding seq_lt seq_le
seq_lt-window una ack nxt hu ha hn flight some_sent = ground arith
