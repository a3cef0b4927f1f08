-- ===== src/Connect/Eapol/Ptk/Order.antt =====
-- Both ends of the handshake derive the same keys, and the derivation returns.
use re_pico.Base.{
  ℕ, ◌+◌, ◌*◌, ◌^◌, ◌≤◌, ◌<◌, ◌≡◌, refl, ap₂, sym, List, [], ◌∷◌, ◌++◌, Bool, true, false, not, ◌⊎◌,
  ◌==◌, ==_iff, length, take, drop, replicate, arith, if◌then◌else◌, Bool-cases, inl, inr,
  length-append, length-take, length-drop,
}
use re_pico.Base.Bytes.{Bytes, All-take, All-drop}
use re_pico.Base.Run.{ok}
use re_pico.Crypto.Kdf.Fill.{stream, stream-Bytes, length-stream}
use re_pico.Crypto.Kdf.Spec.{prf_hash, prf_hash-Bytes, length-prf_hash, count_on, sha256_prf_lem}
use re_pico.Connect.Eapol.Ptk.{
  Ptk, memcmp_less, ptk_label, low, high, ptk_context, ptk_of, derive_ptk,
}

-- Of two different arrays exactly one is the smaller.
compared :
    (a b : List ℕ) → length a ≡ length b → (a ≡ b) ⊎ (memcmp_less b a ≡ not (memcmp_less a b))
compared [] [] h = inl refl
compared [] (y ∷ b) h = absurd (omega arith)
compared (x ∷ a) [] h = absurd (omega arith)
compared (x ∷ a) (y ∷ b) h = elim (Bool-cases (x == y)) [
  | inr e ↦ inr (ground (arith, e))
  | inl e ↦
      let same : x ≡ y = (==_iff x y).0 e in
      elim (compared a b (omega arith)) [
        | inl e' ↦ inl (ap₂ ◌∷◌ same e')
        | inr e' ↦ inr (ground (arith, e, e'))
      ]
]

swapped : (c : Bool) (a b : List ℕ) → (if c then a else b) ≡ (if not c then b else a)
swapped true a b = refl
swapped false a b = refl

low_comm : (a b : List ℕ) → length a ≡ length b → low a b ≡ low b a
low_comm a b h = elim (compared a b h) [
  | inl e ↦ ap₂ low e (sym e)
  | inr e ↦ rw e (swapped (memcmp_less a b) a b)
]

high_comm : (a b : List ℕ) → length a ≡ length b → high a b ≡ high b a
high_comm a b h = elim (compared a b h) [
  | inl e ↦ ap₂ high e (sym e)
  | inr e ↦ rw e (swapped (memcmp_less a b) b a)
]

-- The two ends derive the same keys: the derivation does not depend on which address and which
-- nonce is one's own.
pub derive_ptk_comm :
    (junk pmk aa spa anonce snonce : List ℕ)
    → length aa ≡ length spa
    → length anonce ≡ length snonce
    → derive_ptk junk pmk spa aa snonce anonce ≡ derive_ptk junk pmk aa spa anonce snonce
unfolding derive_ptk ptk_context
derive_ptk_comm junk pmk aa spa anonce snonce h h' =
    rw
      (
        low_comm spa aa (sym h),
        high_comm spa aa (sym h),
        low_comm snonce anonce (sym h'),
        high_comm snonce anonce (sym h'),
      )
      refl

if-length : (c : Bool) (a b : List ℕ) → length (if c then a else b) ≤ length a + length b
if-length true a b = omega arith
if-length false a b = omega arith

context-length :
    (aa spa anonce snonce : List ℕ)
    → length (ptk_context aa spa anonce snonce)
      ≤ 2 * (length aa + length spa) + 2 * (length anonce + length snonce)
unfolding ptk_context
context-length aa spa anonce snonce =
    let nonces : List ℕ = low anonce snonce ++ high anonce snonce in
    omega (
      arith,
      length-append (low aa spa) (high aa spa ++ nonces),
      length-append (high aa spa) nonces,
      length-append (low anonce snonce) (high anonce snonce),
      if-length (memcmp_less aa spa) aa spa,
      if-length (memcmp_less aa spa) spa aa,
      if-length (memcmp_less anonce snonce) anonce snonce,
      if-length (memcmp_less anonce snonce) snonce anonce,
    )

-- The 48 bytes of the key derivation of IEEE 802.11, 12.7.1.3.
unfoldable pub ptk_bytes : List ℕ → List ℕ → List ℕ → List ℕ → List ℕ → List ℕ
ptk_bytes pmk aa spa anonce snonce =
    take 48 (stream (prf_hash pmk ptk_label (ptk_context aa spa anonce snonce) 384) count_on 48 1)

pub derive_ptk_lem :
    (junk pmk aa spa anonce snonce : List ℕ)
    → length junk ≡ 64
    → length pmk < 2 ^ 60
    → length aa + length spa < 2 ^ 20
    → length anonce + length snonce < 2 ^ 20
    → derive_ptk junk pmk aa spa anonce snonce ≡ ok (ptk_of (ptk_bytes pmk aa spa anonce snonce))
unfolding derive_ptk ptk_context ptk_bytes
derive_ptk_lem junk pmk aa spa anonce snonce hj hp ha hn =
    rw
      (sha256_prf_lem junk pmk ptk_label (ptk_context aa spa anonce snonce) (replicate 48 0) hj hp
        (omega (arith, context-length aa spa anonce snonce)))
      refl

-- A key of sixteen bytes.
abbrev pub IsKey : List ℕ → Type 0
IsKey key = (length key ≡ 16) × Bytes key

unfoldable pub IsPtk : Ptk → Type 0
IsPtk p = IsKey p.kck × IsKey p.kek × IsKey p.tk

part-IsKey : (i : ℕ) (out : List ℕ) → i + 16 ≤ length out → Bytes out → IsKey (take 16 (drop i out))
part-IsKey i out h b = (
  omega (arith, length-take 16 (drop i out), length-drop i out),
  All-take (λ x. x < 256) 16 (drop i out) (All-drop (λ x. x < 256) i out b),
)

pub ptk_of-IsPtk :
    (pmk aa spa anonce snonce : List ℕ) → IsPtk (ptk_of (ptk_bytes pmk aa spa anonce snonce))
unfolding IsPtk ptk_of ptk_bytes
ptk_of-IsPtk pmk aa spa anonce snonce =
    let block : ℕ → List ℕ = prf_hash pmk ptk_label (ptk_context aa spa anonce snonce) 384 in
    let all : List ℕ = stream block count_on 48 1 in
    let size : length (take 48 all) ≡ 48 = omega (
      arith,
      length-take 48 all,
      length-stream block count_on 32
          (length-prf_hash pmk ptk_label (ptk_context aa spa anonce snonce) 384) 48 1,
    ) in
    let b : Bytes (take 48 all) =
      All-take (λ x. x < 256) 48 all
        (stream-Bytes block count_on
          (prf_hash-Bytes pmk ptk_label (ptk_context aa spa anonce snonce) 384) 48 1) in
    (
      part-IsKey 0 (take 48 all) (omega (arith, size)) b,
      part-IsKey 16 (take 48 all) (omega (arith, size)) b,
      part-IsKey 32 (take 48 all) (omega (arith, size)) b,
    )
