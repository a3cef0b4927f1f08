-- ===== src/Inflate/Reader/Number.antt =====
-- The reader as a number: what is left of the stream is one number, `get_bits` takes its low bits.
use re_pico.Base.{
  ℕ, zero, suc, ◌+◌, ◌-◌, ◌*◌, ◌/◌, ◌%◌, ◌^◌, ◌≤◌, ◌<◌, ◌≡◌, refl, sym, ap, ◌∙◌, bit_or, bit_and,
  u32, ◌<<◌, ◌>>◌, lt→ltb, length, get_or, get_elem?-eq-get_or, dec_lt, drop, arith,
}
use re_pico.Base.Run.{ok, fails, read}
use re_pico.Base.Bits.{bit_or_low_high, bit_and_mask}
use re_pico.Base.Bytes.{
  Bytes, All-get_or, drop-cons, le_number, pow_plus_eight, pow_split, shifted_byte-lt, mul_below,
}
use native.Mathlib.Nat.{
  one-le-pow, mul_assoc, mul_comm, add-mul-div_left, add-mul-mod_self_left, div-lt_iff_lt-mul,
}
use re_pico.Inflate.Reader.{BitReader, fill, get_bits}

abbrev pub bits_left : BitReader → ℕ
bits_left r = r.bitcnt + 8 * (length r.src - r.pos)

-- The number whose binary digits are the bits still to come, lowest first.
abbrev pub number_left : BitReader → ℕ → ℕ
number_left r val = val + 2 ^ r.bitcnt * le_number (drop r.pos r.src)

pub record IsReader (r : BitReader) : Type 0 where
  pub few : r.bitcnt < 8
  pub low : r.bitbuf < 2 ^ r.bitcnt
  pub inside : r.pos ≤ length r.src
  pub bytes : Bytes r.src
  pub small : length r.src < 2 ^ 28

record Filled (need : ℕ) (r : BitReader) (val : ℕ) (out : ℕ × BitReader) : Type 0 where
  enough : need ≤ out.1.bitcnt
  few : out.1.bitcnt < need + 8
  low : out.0 < 2 ^ out.1.bitcnt
  inside : out.1.pos ≤ length out.1.src
  same_src : out.1.src ≡ r.src
  same_bits : bits_left out.1 ≡ bits_left r
  same_number : number_left out.1 out.0 ≡ number_left r val

fill_stops :
    (fuel need : ℕ) (r : BitReader) (val : ℕ) → need ≤ r.bitcnt → fill fuel need r val ≡ ok (val, r)
unfolding fill
fill_stops zero need r val h = ground arith
fill_stops (suc fuel) need r val h = ground arith

fill_ends :
    (fuel need : ℕ) (r : BitReader) (val : ℕ)
    → r.bitcnt < need
    → length r.src ≤ r.pos
    → fill (suc fuel) need r val ≡ fails
unfolding fill
fill_ends fuel need r val h k = ground arith

-- The reader behind one round.
abbrev next : BitReader → BitReader
next r = record r { pos = u32 (r.pos + 1); bitcnt = u32 (r.bitcnt + 8) }

abbrev next_val : BitReader → ℕ → ℕ
next_val r val = bit_or val (u32 (get_or r.src r.pos 0 << r.bitcnt))

fill_round :
    (fuel need : ℕ) (r : BitReader) (val : ℕ)
    → r.bitcnt < need
    → r.pos < length r.src
    → fill (suc fuel) need r val ≡ fill fuel need (next r) (next_val r val)
unfolding fill read
fill_round fuel need r val h k =
    rw (lt→ltb r.bitcnt need h, fill)
      (rw (lt→ltb r.pos (length r.src) k) (rw (get_elem?-eq-get_or r.src r.pos 0 k)))

module _ (r : BitReader) (val : ℕ) (few : r.bitcnt < 24) (low : val < 2 ^ r.bitcnt)
    (more : r.pos < length r.src) (bytes : Bytes r.src) (small : length r.src < 2 ^ 28) where
  byte-lt : get_or r.src r.pos 0 < 256
  byte-lt = All-get_or (λ b. b < 256) r.src r.pos bytes more

  next_val_sum : next_val r val ≡ get_or r.src r.pos 0 * 2 ^ r.bitcnt + val
  next_val_sum = ground (
    arith,
    shifted_byte-lt (get_or r.src r.pos 0) r.bitcnt,
    byte-lt,
    bit_or_low_high r.bitcnt (get_or r.src r.pos 0) val,
  )

  next_pos : u32 (r.pos + 1) ≡ r.pos + 1
  next_pos = omega arith

  next_cnt : u32 (r.bitcnt + 8) ≡ r.bitcnt + 8
  next_cnt = omega arith

  next_number : number_left (next r) (next_val r val) ≡ number_left r val
  next_number =
      rw (next_val_sum, next_pos, next_cnt, drop-cons r.src r.pos more, pow_plus_eight r.bitcnt)
        (omega arith)

  next_low : next_val r val < 2 ^ (next r).bitcnt
  next_low = ground (
    arith,
    byte-lt,
    next_val_sum,
    pow_plus_eight r.bitcnt,
    mul_below (get_or r.src r.pos 0) (2 ^ r.bitcnt) 256,
  )

Filled-here :
    (need : ℕ) (r : BitReader) (val : ℕ)
    → need ≤ r.bitcnt
    → r.bitcnt < need + 8
    → val < 2 ^ r.bitcnt
    → r.pos ≤ length r.src
    → Filled need r val (val, r)
Filled-here need r val enough few low inside = record {
  enough = enough;
  few = few;
  low = low;
  inside = inside;
  same_src = refl;
  same_bits = refl;
  same_number = refl;
}

Filled-next :
    (need : ℕ) (r : BitReader) (val : ℕ) {out : ℕ × BitReader}
    → r.bitcnt < 24
    → val < 2 ^ r.bitcnt
    → r.pos < length r.src
    → Bytes r.src
    → length r.src < 2 ^ 28
    → Filled need (next r) (next_val r val) out
    → Filled need r val out
Filled-next need r val few low more bytes small f = record {
  enough = f.enough;
  few = f.few;
  low = f.low;
  inside = f.inside;
  same_src = f.same_src;
  same_bits = f.same_bits ∙ omega arith;
  same_number = f.same_number ∙ next_number r val few low more bytes small;
}

-- With bits enough the loop gathers them.
fill-Filled :
    (fuel need : ℕ) (r : BitReader) (val : ℕ)
    → need ≤ 24
    → need ≤ r.bitcnt + 8 * fuel
    → need ≤ bits_left r
    → r.bitcnt < need + 8
    → r.pos ≤ length r.src
    → val < 2 ^ r.bitcnt
    → Bytes r.src
    → length r.src < 2 ^ 28
    → (out : ℕ × BitReader) × (fill fuel need r val ≡ ok out) × Filled need r val out
fill-Filled zero need r val small_need rounds left few inside low bytes small = (
  (val, r),
  fill_stops zero need r val (omega arith),
  Filled-here need r val (omega arith) few low inside,
)
fill-Filled (suc fuel) need r val small_need rounds left few inside low bytes small =
    elim (dec_lt r.bitcnt need) [
      | no stop ↦ (
        (val, r),
        fill_stops (suc fuel) need r val (omega arith),
        Filled-here need r val (omega arith) few low inside,
      )
      | yes go ↦
          let more : r.pos < length r.src = omega arith in
          let (out, e, f) =
            fill-Filled fuel need (next r) (next_val r val) small_need (omega arith) (omega arith)
              (omega arith) (omega arith) (next_low r val (omega arith) low more bytes small) bytes
              small in
          (
            out,
            fill_round fuel need r val go more ∙ e,
            Filled-next need r val (omega arith) low more bytes small f,
          )
    ]

-- With too few bits the loop ends with an error.
fill-fails :
    (fuel need : ℕ) (r : BitReader) (val : ℕ)
    → need ≤ 24
    → need ≤ r.bitcnt + 8 * fuel
    → bits_left r < need
    → r.pos ≤ length r.src
    → length r.src < 2 ^ 28
    → fill fuel need r val ≡ fails
fill-fails zero need r val small_need rounds left inside small = absurd (omega arith)
fill-fails (suc fuel) need r val small_need rounds left inside small =
    elim (dec_lt r.pos (length r.src)) [
      | no end ↦ fill_ends fuel need r val (omega arith) (omega arith)
      | yes more ↦
          fill_round fuel need r val (omega arith) more
          ∙ fill-fails fuel need (next r) (next_val r val) small_need (omega arith) (omega arith)
              (omega arith) small
    ]

-- What `get_bits` returns: the low `need` bits of the number, and a reader that has the others.
pub record Takes (need : ℕ) (r : BitReader) (out : ℕ × BitReader) : Type 0 where
  pub value : out.0 ≡ number_left r r.bitbuf % 2 ^ need
  pub number : number_left out.1 out.1.bitbuf ≡ number_left r r.bitbuf / 2 ^ need
  pub bits : bits_left out.1 + need ≡ bits_left r
  pub same_src : out.1.src ≡ r.src
  pub reader : IsReader out.1

abbrev taken : ℕ → ℕ × BitReader → ℕ × BitReader
taken need (val, r') =
    (bit_and val (2 ^ need - 1), record r' { bitbuf = val >> need; bitcnt = r'.bitcnt - need })

get_bits-ok :
    (r : BitReader) (need : ℕ) (out : ℕ × BitReader)
    → fill need need r r.bitbuf ≡ ok out
    → get_bits r need ≡ ok (taken need out)
unfolding get_bits
get_bits-ok r need out e = rw e refl

get_bits-fails :
    (r : BitReader) (need : ℕ) → fill need need r r.bitbuf ≡ fails → get_bits r need ≡ fails
unfolding get_bits
get_bits-fails r need e = rw e refl

module _ (r : BitReader) (need : ℕ) (v : IsReader r) (out : ℕ × BitReader)
    (f : Filled need r r.bitbuf out) where
  rest : ℕ
  rest = 2 ^ (out.1.bitcnt - need) * le_number (drop out.1.pos out.1.src)

  number_split : number_left r r.bitbuf ≡ out.0 + 2 ^ need * rest
  unfolding rest
  number_split =
      sym f.same_number
      ∙ ap (λ t. out.0 + t)
          (rw (← pow_split need out.1.bitcnt f.enough) (
            mul_assoc (2 ^ need) (2 ^ (out.1.bitcnt - need))
              (le_number (drop out.1.pos out.1.src))))

  taken-Takes : Takes need r (taken need out)
  unfolding rest
  taken-Takes = record {
    value = rw (bit_and_mask need out.0, number_split, add-mul-mod_self_left out.0 (2 ^ need) rest);
    number = rw (number_split, add-mul-div_left out.0 rest (one-le-pow need 2 (omega arith)));
    bits = omega (arith, f.same_bits, f.enough);
    same_src = f.same_src;
    reader = record {
      few = omega (arith, f.few, f.enough);
      low = (div-lt_iff_lt-mul (one-le-pow need 2 (omega arith))).1 (
          rw (mul_comm (2 ^ (out.1.bitcnt - need)) (2 ^ need), pow_split need out.1.bitcnt f.enough)
            f.low);
      inside = f.inside;
      bytes = rw f.same_src v.bytes;
      small = rw f.same_src v.small;
    };
  }

-- `get_bits` is faithful to the bit stream: on a valid reader it returns the low `need` bits of the
-- number that is left, and leaves a valid reader for the bits above them, when there are `need`
-- bits; when there are fewer, it returns an error.
pub get_bits_lem :
    (r : BitReader) (need : ℕ)
    → need ≤ 24
    → IsReader r
    → (need ≤ bits_left r → (out : ℕ × BitReader) × (get_bits r need ≡ ok out) × Takes need r out)
      × (bits_left r < need → get_bits r need ≡ fails)
get_bits_lem r need small v = (
  λ h.
      let (out, e, f) =
        fill-Filled need need r r.bitbuf small (omega arith) h (omega arith) v.inside v.low v.bytes
          (omega arith) in
      (taken need out, get_bits-ok r need out e, taken-Takes r need v out f),
  λ short.
      get_bits-fails r need
        (fill-fails need need r r.bitbuf small (omega arith) short v.inside (omega arith)),
)
