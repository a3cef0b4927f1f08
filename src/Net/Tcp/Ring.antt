-- ===== src/Net/Tcp/Ring.antt =====
-- tcp.cpp, `rx_free`, `rx_push` and `rx_pop`: the receive ring.
pub mod Queue
use re_pico.Base.{ℕ, zero, suc, ◌+◌, ◌-◌, ◌%◌, List, [], ◌∷◌, min, length, set, get_or}
use re_pico.Base.Run.{Run, ok, ◌>>=◌, read, write}
use re_pico.Net.Tcp.Conn.{Conn, rx_buffer_size}

unfoldable pub rx_free : Conn → ℕ
rx_free c = rx_buffer_size - c.rx_len

-- The loop of `rx_push`, with the rounds left.
unfoldable pub push_loop : ℕ → ℕ → ℕ → ℕ → List ℕ → List ℕ → Run (List ℕ)
push_loop zero i head len bytes buf = ok buf
push_loop (suc n) i head len bytes buf = do
  byte ← read bytes i
  buf' ← write buf ((head + len + i) % rx_buffer_size) byte
  push_loop n (i + 1) head len bytes buf'

-- The bytes that fit, and the connection with them.
unfoldable pub rx_push : Conn → List ℕ → Run (ℕ × Conn)
rx_push c bytes = do
  let count = min (length bytes) (rx_free c)
  buf ← push_loop count 0 c.rx_head c.rx_len bytes c.rx_buf
  ok (count, record c { rx_buf = buf; rx_len = c.rx_len + count })

-- The loop of `rx_pop`, with the rounds left: the bytes that go to `out`.
unfoldable pub pop_loop : ℕ → ℕ → ℕ → List ℕ → Run (List ℕ)
pop_loop zero i head buf = ok []
pop_loop (suc n) i head buf = do
  byte ← read buf ((head + i) % rx_buffer_size)
  rest ← pop_loop n (i + 1) head buf
  ok (byte ∷ rest)

-- `size` is that of the caller's buffer. `rx_len` shrinks by at most itself.
unfoldable pub rx_pop : Conn → ℕ → Run (List ℕ × Conn)
rx_pop c size = do
  let count = min size c.rx_len
  out ← pop_loop count 0 c.rx_head c.rx_buf
  ok (out, record c { rx_head = (c.rx_head + count) % rx_buffer_size; rx_len = c.rx_len - count })
