-- ===== src/Connect/Eapol/Ptk.antt =====
-- `derive_ptk` of submodules/re-connect/src/connect/eapol.cpp, and `memcmp` of the board's
-- src/rp2040/system.cpp. `junk` is what the hash's block buffer holds before.
pub mod Order
use re_pico.Base.{
  ℕ, ◌+◌, List, [], ◌∷◌, ◌++◌, Bool, true, false, ◌==◌, ltb, take, drop, replicate, if◌then◌else◌,
}
use re_pico.Base.Run.{Run, ok, ◌>>=◌}
use re_pico.Crypto.Kdf.{sha256_prf}

pub record Ptk : Type 0 where
  pub kck : List ℕ
  pub kek : List ℕ
  pub tk : List ℕ

-- `memcmp(a, b, size) < 0`, on arrays of one size.
abbrev pub memcmp_less : List ℕ → List ℕ → Bool
memcmp_less [] ys = false
memcmp_less (x ∷ xs) [] = false
memcmp_less (x ∷ xs) (y ∷ ys) = if x == y then memcmp_less xs ys else ltb x y

-- `Pairwise key expansion`
abbrev pub ptk_label : List ℕ
ptk_label =
    0x50 ∷ 0x61 ∷ 0x69 ∷ 0x72 ∷ 0x77 ∷ 0x69 ∷ 0x73 ∷ 0x65 ∷ 0x20 ∷ 0x6b ∷ 0x65 ∷ 0x79 ∷ 0x20 ∷ 0x65
    ∷ 0x78 ∷ 0x70 ∷ 0x61 ∷ 0x6e ∷ 0x73 ∷ 0x69 ∷ 0x6f ∷ 0x6e ∷ []

-- The smaller of the two first.
abbrev pub low : List ℕ → List ℕ → List ℕ
low a b = if memcmp_less a b then a else b

abbrev pub high : List ℕ → List ℕ → List ℕ
high a b = if memcmp_less a b then b else a

unfoldable pub ptk_context : List ℕ → List ℕ → List ℕ → List ℕ → List ℕ
ptk_context aa spa anonce snonce =
    low aa spa ++ (high aa spa ++ (low anonce snonce ++ high anonce snonce))

unfoldable pub ptk_of : List ℕ → Ptk
ptk_of out = record { kck = take 16 out; kek = take 16 (drop 16 out); tk = take 16 (drop 32 out) }

unfoldable pub derive_ptk : List ℕ → List ℕ → List ℕ → List ℕ → List ℕ → List ℕ → Run Ptk
derive_ptk junk pmk aa spa anonce snonce = do
  out ← sha256_prf junk pmk ptk_label (ptk_context aa spa anonce snonce) (replicate 48 0)
  ok (ptk_of out)
