-- ===== src/Net/Tcp/Table/Safe.antt =====
-- `input` on the whole connection table.
use re_pico.Base.{
  ℕ, zero, suc, ◌+◌, ◌<◌, ◌≡◌, List, [], ◌∷◌, false, Option, none, some, length, get_or, arith,
}
use re_pico.Base.Bytes.{All, Bytes}
use re_pico.Base.Run.{Run}
use re_pico.Net.Wire.{get16}
use re_pico.Net.Tcp.Conn.{Conn, is_closed}
use re_pico.Net.Tcp.Valid.{IsConn}
use re_pico.Net.Tcp.Input.{Segment}
use re_pico.Net.Tcp.Table.{Stack, conn_at}

-- A bound connection is there and is not closed.
abbrev pub Live : List Conn → Option ℕ → Type 0
Live conns none = Unit
Live conns (some c) = (c < length conns) × (is_closed (conn_at conns c).state ≡ false)

-- Every connection is sound, and every slot is free or has a live one.
pub record IsStack (st : Stack) : Type 0 where
  pub conns : All IsConn st.conns
  pub slots : All (Live st.conns) st.slots

byte : (xs : List ℕ) (i : ℕ) → Bytes xs → get_or xs i 0 < 256
byte [] i b = omega arith
byte (x ∷ xs) zero b = b.0
byte (x ∷ xs) (suc i) b = byte xs i b.1

word : (xs : List ℕ) (i : ℕ) → Bytes xs → get16 xs i < 65536
word xs i b = omega (arith, byte xs i b, byte xs (i + 1) b)
