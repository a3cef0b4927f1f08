-- ===== src/Inflate/Reader/Safe.antt =====
-- `get_bits` with any number of bits left: it returns or refuses, and uses the bits it returns up.
use re_pico.Base.{ℕ, ◌+◌, ◌^◌, ◌≤◌, ◌<◌, ◌≡◌, arith, dec_le, ◌∙◌}
use re_pico.Base.Run.{Ensures, returns, refuses}
use native.Mathlib.Nat.{mod-lt, one-le-pow}
use re_pico.Inflate.Reader.{BitReader, get_bits}
use re_pico.Inflate.Reader.Number.{IsReader, bits_left, number_left, get_bits_lem}

-- `r'` is a valid reader of the same source, with `n` bits fewer at least.
pub record After (n : ℕ) (r r' : BitReader) : Type 0 where
  pub reader : IsReader r'
  pub same_src : r'.src ≡ r.src
  pub used : bits_left r' + n ≤ bits_left r

pub After-trans :
    {m n k : ℕ} {a b c : BitReader} → After m a b → After n b c → k ≤ m + n → After k a c
After-trans p q h = record {
  reader = q.reader;
  same_src = q.same_src ∙ p.same_src;
  used = omega (arith, p.used, q.used);
}

pub After-weaken : {n : ℕ} {a b : BitReader} → After n a b → After 0 a b
After-weaken p = record { reader = p.reader; same_src = p.same_src; used = omega (arith, p.used) }

pub get_bits-Ensures :
    (r : BitReader) (need : ℕ)
    → need ≤ 24
    → IsReader r
    → Ensures (λ out. After need r out.1 × (out.0 < 2 ^ need)) (get_bits r need)
get_bits-Ensures r need small v = elim (dec_le need (bits_left r)) [
  | yes h ↦
      let (out, e, t) = (get_bits_lem r need small v).0 h in
      rw e (
        returns (
          record { reader = t.reader; same_src = t.same_src; used = omega (arith, t.bits) },
          rw t.value (mod-lt (number_left r r.bitbuf) (one-le-pow need 2 (omega arith))),
        ))
  | no h ↦ rw ((get_bits_lem r need small v).1 (omega arith)) refuses
]
