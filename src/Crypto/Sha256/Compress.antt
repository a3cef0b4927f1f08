-- ===== src/Crypto/Sha256/Compress.antt =====
-- sha256.cpp, `rotr`, `round_constants` and `compress`.
use re_pico.Base.{
  ℕ, zero, suc, ◌+◌, ◌-◌, ◌*◌, ◌^◌, List, [], ◌∷◌, ◌++◌, u32, bit_and, bit_or, bit_xor, ◌<<◌, ◌>>◌,
  get_or,
}

abbrev pub round_constants : List ℕ
round_constants =
    0x428a2f98 ∷ 0x71374491 ∷ 0xb5c0fbcf ∷ 0xe9b5dba5 ∷ 0x3956c25b ∷ 0x59f111f1 ∷ 0x923f82a4
    ∷ 0xab1c5ed5 ∷ 0xd807aa98 ∷ 0x12835b01 ∷ 0x243185be ∷ 0x550c7dc3 ∷ 0x72be5d74 ∷ 0x80deb1fe
    ∷ 0x9bdc06a7 ∷ 0xc19bf174 ∷ 0xe49b69c1 ∷ 0xefbe4786 ∷ 0x0fc19dc6 ∷ 0x240ca1cc ∷ 0x2de92c6f
    ∷ 0x4a7484aa ∷ 0x5cb0a9dc ∷ 0x76f988da ∷ 0x983e5152 ∷ 0xa831c66d ∷ 0xb00327c8 ∷ 0xbf597fc7
    ∷ 0xc6e00bf3 ∷ 0xd5a79147 ∷ 0x06ca6351 ∷ 0x14292967 ∷ 0x27b70a85 ∷ 0x2e1b2138 ∷ 0x4d2c6dfc
    ∷ 0x53380d13 ∷ 0x650a7354 ∷ 0x766a0abb ∷ 0x81c2c92e ∷ 0x92722c85 ∷ 0xa2bfe8a1 ∷ 0xa81a664b
    ∷ 0xc24b8b70 ∷ 0xc76c51a3 ∷ 0xd192e819 ∷ 0xd6990624 ∷ 0xf40e3585 ∷ 0x106aa070 ∷ 0x19a4c116
    ∷ 0x1e376c08 ∷ 0x2748774c ∷ 0x34b0bcb5 ∷ 0x391c0cb3 ∷ 0x4ed8aa4a ∷ 0x5b9cca4f ∷ 0x682e6ff3
    ∷ 0x748f82ee ∷ 0x78a5636f ∷ 0x84c87814 ∷ 0x8cc70208 ∷ 0x90befffa ∷ 0xa4506ceb ∷ 0xbef9a3f7
    ∷ 0xc67178f2 ∷ []

unfoldable pub rotr : ℕ → ℕ → ℕ
rotr v n = bit_or (v >> n) (u32 (v << (32 - n)))

-- The four bytes at `b`, as a word.
unfoldable pub word_at : List ℕ → ℕ → ℕ
word_at block b =
    bit_or
      (bit_or (bit_or (u32 (get_or block b 0 << 24)) (u32 (get_or block (b + 1) 0 << 16)))
        (u32 (get_or block (b + 2) 0 << 8)))
      (get_or block (b + 3) 0)

unfoldable pub first_words : ℕ → ℕ → List ℕ → List ℕ
first_words zero i block = []
first_words (suc n) i block = word_at block (i * 4) ∷ first_words n (i + 1) block

-- The rest of `w`, from place `i` on.
unfoldable pub extend : ℕ → ℕ → List ℕ → List ℕ
extend zero i w = w
extend (suc n) i w =
    let w15 = get_or w (i - 15) 0 in
    let w2 = get_or w (i - 2) 0 in
    let s0 = bit_xor (bit_xor (rotr w15 7) (rotr w15 18)) (w15 >> 3) in
    let s1 = bit_xor (bit_xor (rotr w2 17) (rotr w2 19)) (w2 >> 10) in
    extend n (i + 1) (w ++ u32 (get_or w (i - 16) 0 + s0 + get_or w (i - 7) 0 + s1) ∷ [])

-- The working variables.
pub record Vars : Type 0 where
  pub a : ℕ
  pub b : ℕ
  pub c : ℕ
  pub d : ℕ
  pub e : ℕ
  pub f : ℕ
  pub g : ℕ
  pub h : ℕ

-- `~e` in 32 bits.
unfoldable pub round : ℕ → ℕ → Vars → Vars
round k w v =
    let s1 = bit_xor (bit_xor (rotr v.e 6) (rotr v.e 11)) (rotr v.e 25) in
    let ch = bit_xor (bit_and v.e v.f) (bit_and (2 ^ 32 - 1 - v.e) v.g) in
    let t1 = u32 (v.h + s1 + ch + k + w) in
    let s0 = bit_xor (bit_xor (rotr v.a 2) (rotr v.a 13)) (rotr v.a 22) in
    let mj = bit_xor (bit_xor (bit_and v.a v.b) (bit_and v.a v.c)) (bit_and v.b v.c) in
    let t2 = u32 (s0 + mj) in
    record {
      a = u32 (t1 + t2);
      b = v.a;
      c = v.b;
      d = v.c;
      e = u32 (v.d + t1);
      f = v.e;
      g = v.f;
      h = v.g;
    }

unfoldable pub rounds : ℕ → ℕ → List ℕ → Vars → Vars
rounds zero i w v = v
rounds (suc n) i w v = rounds n (i + 1) w (round (get_or round_constants i 0) (get_or w i 0) v)

unfoldable pub compress : List ℕ → List ℕ → List ℕ
compress state block =
    let s : ℕ → ℕ = λ i. get_or state i 0 in
    let w = extend 48 16 (first_words 16 0 block) in
    let v =
      rounds 64 0 w
        (record { a = s 0; b = s 1; c = s 2; d = s 3; e = s 4; f = s 5; g = s 6; h = s 7 }) in
    u32 (s 0 + v.a)
    ∷ u32 (s 1 + v.b)
    ∷ u32 (s 2 + v.c)
    ∷ u32 (s 3 + v.d)
    ∷ u32 (s 4 + v.e)
    ∷ u32 (s 5 + v.f)
    ∷ u32 (s 6 + v.g)
    ∷ u32 (s 7 + v.h)
    ∷ []
