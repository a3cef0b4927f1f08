-- ===== src/Crypto/Hmac/Spec.antt =====
-- The code against RFC 2104.
use re_pico.Base.{
  ℕ, zero, suc, ◌+◌, ◌-◌, ◌*◌, ◌/◌, ◌^◌, ◌<◌, ◌≡◌, ◌∙◌, refl, sym, ap, subst, List, [], ◌∷◌, ◌++◌,
  map, bit_xor, ltb, if◌then◌else◌, length, take, drop, replicate, arith, length-append,
  length-replicate, append_assoc, append-nil, dec_lt, lt→ltb, le→ltb,
}
use re_pico.Base.Bytes.{Bytes}
use re_pico.Base.Run.{ok, copy_to-ok}
use re_pico.Crypto.Sha256.{digest_bytes, initial_state, fresh, reset}
use re_pico.Crypto.Sha256.Compress.{compress}
use re_pico.Crypto.Sha256.Absorb.{absorb, Holds}
use re_pico.Crypto.Sha256.Stream.{update_lem}
use re_pico.Crypto.Sha256.Padding.{digest_of, padding}
use re_pico.Crypto.Sha256.Finish.{fresh-Holds, finish_lem, sha256_lem}
use re_pico.Crypto.Hmac.{HmacSha256, key_block, start, feed, close, feed_pieces, hmac_sha256_vector}

-- The key, filled up with zeros to a block.
unfoldable pub key_of : List ℕ → List ℕ
key_of key =
    if ltb 64 (length key)
    then digest_of key ++ replicate 32 0
    else key ++ replicate (64 - length key) 0

unfoldable pub hmac_of : List ℕ → List ℕ → List ℕ
hmac_of key m =
    digest_of (map (bit_xor 0x5c) (key_of key) ++ digest_of (map (bit_xor 0x36) (key_of key) ++ m))

abbrev pub concat : List (List ℕ) → List ℕ
concat [] = []
concat (xs ∷ xss) = xs ++ concat xss

length-map : (f : ℕ → ℕ) (xs : List ℕ) → length (map f xs) ≡ length xs
length-map f [] = refl
length-map f (x ∷ xs) = ap suc (length-map f xs)

drop-replicate : (n m : ℕ) → drop n (replicate {A = ℕ} m 0) ≡ replicate (m - n) 0
drop-replicate zero m = ap (λ (k : ℕ). replicate {A = ℕ} k 0) (omega arith)
drop-replicate (suc n) zero =
    ap (λ (k : ℕ). replicate {A = ℕ} k 0) {x = 0} {y = 0 - suc n} (omega arith)
drop-replicate (suc n) (suc m) =
    drop-replicate n m
    ∙ ap (λ (k : ℕ). replicate {A = ℕ} k 0) {x = m - n} {y = suc m - suc n} (omega arith)

absorb-words : (n : ℕ) (state xs : List ℕ) → length state ≡ 8 → length (absorb n state xs) ≡ 8
unfolding absorb compress
absorb-words zero state xs e = e
absorb-words (suc n) state xs e = absorb-words n (compress state (take 64 xs)) (drop 64 xs) refl

length-digest_bytes : (ws : List ℕ) → length (digest_bytes ws) ≡ 4 * length ws
unfolding digest_bytes
length-digest_bytes [] = refl
length-digest_bytes (w ∷ ws) = omega (arith, length-digest_bytes ws)

digest_bytes-Bytes : (ws : List ℕ) → Bytes (digest_bytes ws)
unfolding digest_bytes
digest_bytes-Bytes [] = tt
digest_bytes-Bytes (w ∷ ws) =
    (omega arith, (omega arith, (omega arith, (omega arith, digest_bytes-Bytes ws))))

pub hmac_of-Bytes : (key m : List ℕ) → Bytes (hmac_of key m)
unfolding hmac_of digest_of
hmac_of-Bytes key m =
    let outer : List ℕ =
      map (bit_xor 0x5c) (key_of key) ++ digest_of (map (bit_xor 0x36) (key_of key) ++ m) in
    let padded : List ℕ = outer ++ padding (length outer) in
    digest_bytes-Bytes (absorb (length padded / 64) initial_state padded)

pub length-digest_of : (m : List ℕ) → length (digest_of m) ≡ 32
unfolding digest_of
length-digest_of m =
    let n : ℕ = length (m ++ padding (length m)) / 64 in
    omega (
      arith,
      length-digest_bytes (absorb n initial_state (m ++ padding (length m))),
      absorb-words n initial_state (m ++ padding (length m)) refl,
    )

key_block_lem :
    (junk key : List ℕ)
    → length junk ≡ 64
    → length key < 2 ^ 60
    → key_block junk key ≡ ok (key_of key)
unfolding key_block key_of
key_block_lem junk key ej small = elim (dec_lt 64 (length key)) [
  | yes long ↦
      rw
        (
          lt→ltb 64 (length key) long,
          sha256_lem junk key ej (omega arith),
          copy_to-ok (replicate 64 0) 0 (digest_of key) (omega (arith, length-digest_of key)),
          length-digest_of key,
        )
        refl
  | no short ↦
      rw (le→ltb 64 (length key) (omega arith), copy_to-ok (replicate 64 0) 0 key (omega arith))
        (rw (drop-replicate (0 + length key) 64) (
          ap (λ (k : ℕ). ok (key ++ replicate k 0)) {x = 64 - (0 + length key)}
            {y = 64 - length key} (omega arith)))
]

length-key_of : (key : List ℕ) → length (key_of key) ≡ 64
unfolding key_of
length-key_of key = elim (dec_lt 64 (length key)) [
  | yes long ↦
      rw (lt→ltb 64 (length key) long)
        (omega (arith, length-append (digest_of key) (replicate 32 0), length-digest_of key))
  | no short ↦ rw (le→ltb 64 (length key) (omega arith)) (
      omega (
        arith,
        length-append key (replicate (64 - length key) 0),
        length-replicate {A = ℕ} (64 - length key) 0,
      ))
]

-- What an unfinished code stands for.
record Codes (key m : List ℕ) (h : HmacSha256) : Type 0 where
  inner : Holds h.inner (map (bit_xor 0x36) (key_of key) ++ m)
  outer : h.outer_pad ≡ map (bit_xor 0x5c) (key_of key)

start_lem :
    (junk key : List ℕ)
    → length junk ≡ 64
    → length key < 2 ^ 60
    → (h : HmacSha256) × (start junk key ≡ ok h) × Codes key [] h
unfolding start reset
start_lem junk key ej small =
    let pad : List ℕ = map (bit_xor 0x36) (key_of key) in
    let (c, e, v) = update_lem (fresh junk) [] pad (fresh-Holds junk ej) in
    (
      record { inner = c; outer_pad = map (bit_xor 0x5c) (key_of key) },
      rw (key_block_lem junk key ej small, e) refl,
      record { inner = subst (Holds c) (sym (append-nil pad)) v; outer = refl },
    )

feed_lem :
    (h : HmacSha256) (key m bytes : List ℕ)
    → Codes key m h
    → (h' : HmacSha256) × (feed h bytes ≡ ok h') × Codes key (m ++ bytes) h'
unfolding feed
feed_lem h key m bytes v =
    let pad : List ℕ = map (bit_xor 0x36) (key_of key) in
    let (c, e, w) = update_lem h.inner (pad ++ m) bytes v.inner in
    (
      record h { inner = c },
      rw e refl,
      record { inner = subst (Holds c) (append_assoc pad m bytes) w; outer = v.outer },
    )

feed_pieces_lem :
    (pieces : List (List ℕ)) (h : HmacSha256) (key m : List ℕ)
    → Codes key m h
    → (h' : HmacSha256) × (feed_pieces h pieces ≡ ok h') × Codes key (m ++ concat pieces) h'
unfolding feed_pieces
feed_pieces_lem [] h key m v =
    (h, refl, subst (λ (x : List ℕ). Codes key x h) (sym (append-nil m)) v)
feed_pieces_lem (piece ∷ pieces) h key m v =
    let (h1, e1, v1) = feed_lem h key m piece v in
    let (h2, e2, v2) = feed_pieces_lem pieces h1 key (m ++ piece) v1 in
    (h2, rw e1 e2, subst (λ (x : List ℕ). Codes key x h2) (append_assoc m piece (concat pieces)) v2)

close_lem :
    (junk key m : List ℕ) (h : HmacSha256)
    → length junk ≡ 64
    → length m < 2 ^ 60
    → Codes key m h
    → close junk h ≡ ok (hmac_of key m)
unfolding close hmac_of
close_lem junk key m h ej small v =
    let inner_pad : List ℕ = map (bit_xor 0x36) (key_of key) in
    let outer_pad : List ℕ = map (bit_xor 0x5c) (key_of key) in
    let digest : List ℕ = digest_of (inner_pad ++ m) in
    let ei : length inner_pad ≡ 64 = length-map (bit_xor 0x36) (key_of key) ∙ length-key_of key in
    let eo : length outer_pad ≡ 64 = length-map (bit_xor 0x5c) (key_of key) ∙ length-key_of key in
    let (c1, e1, v1) = update_lem (fresh junk) [] outer_pad (fresh-Holds junk ej) in
    let (c2, e2, v2) = update_lem c1 outer_pad digest v1 in
    rw
      (
        v.outer,
        finish_lem h.inner (inner_pad ++ m) v.inner (omega (arith, length-append inner_pad m)),
        e1,
        e2,
      )
      (finish_lem c2 (outer_pad ++ digest) v2
        (omega (arith, length-append outer_pad digest, length-digest_of (inner_pad ++ m))))

-- The code of a message that comes in pieces is the one of RFC 2104 for the message as a whole: with
-- inputs below 2 ^ 60 bytes, every call returns.
pub hmac_sha256_vector_lem :
    (junk key : List ℕ) (pieces : List (List ℕ))
    → length junk ≡ 64
    → length key < 2 ^ 60
    → length (concat pieces) < 2 ^ 60
    → hmac_sha256_vector junk key pieces ≡ ok (hmac_of key (concat pieces))
unfolding hmac_sha256_vector
hmac_sha256_vector_lem junk key pieces ej small_key small =
    let (h, e, v) = start_lem junk key ej small_key in
    let (h', e', v') = feed_pieces_lem pieces h key [] v in
    rw (e, e') (close_lem junk key (concat pieces) h' ej small v')

pub length-hmac_of : (key m : List ℕ) → length (hmac_of key m) ≡ 32
unfolding hmac_of
length-hmac_of key m =
    length-digest_of
      (map (bit_xor 0x5c) (key_of key) ++ digest_of (map (bit_xor 0x36) (key_of key) ++ m))
