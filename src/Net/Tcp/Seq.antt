-- ===== src/Net/Tcp/Seq.antt =====
-- tcp.cpp, `seq_lt` and `seq_le`: serial numbers of 32 bits, compared by the sign of a difference.
pub mod Window
use re_pico.Base.{ℕ, ◌+◌, ◌-◌, ◌^◌, Bool, ◌||◌, u32, leb, ◌==◌}

-- `u32` subtraction.
abbrev pub sub32 : ℕ → ℕ → ℕ
sub32 a b = u32 (a + 2 ^ 32 - b)

-- `i32(a - b) < 0`: the top bit is set.
unfoldable pub seq_lt : ℕ → ℕ → Bool
seq_lt a b = leb (2 ^ 31) (sub32 a b)

unfoldable pub seq_le : ℕ → ℕ → Bool
seq_le a b = sub32 a b == 0 || leb (2 ^ 31) (sub32 a b)
