-- ===== src/Inflate/Tests.antt =====
-- Runs of `inflate` on streams written by zlib.
use re_pico.Base.{length, arith, ◌<◌, ◌≤◌, ℕ, List, [], ◌∷◌, ◌≡◌, refl, replicate}
use re_pico.Base.Run.{Run, ok, fails, Ensures, read, write}
use re_pico.Inflate.Reader.{BitReader, fill, get_bits}
use re_pico.Inflate.Reader.Number.{IsReader, Takes, get_bits_lem}
use re_pico.Inflate.Blocks.Total.{inflate-Ensures}
use re_pico.Inflate.Huffman.{Huffman, clear, tally, offset_loop, place, build, decode_loop, decode}
use re_pico.Inflate.Codes.{copy, put_literal, put_match, inflate_codes}
use re_pico.Inflate.Blocks.{
  fresh_table, inflate_fixed, code_lengths, repeat, run_length, length_loop, inflate_dynamic,
  copy_stored, inflate_stored, block_loop, inflate,
}

-- What `inflate` returns, with all that it calls open.
run : List ℕ → ℕ → Run (List ℕ)
unfolding read write fill get_bits clear tally offset_loop place build decode_loop decode copy
    put_literal put_match inflate_codes fresh_table inflate_fixed code_lengths repeat run_length
    length_loop inflate_dynamic copy_stored inflate_stored block_loop inflate
run src size = inflate src (replicate size 0)

abbrev fixed_stream : List ℕ
fixed_stream =
    75 ∷ 76 ∷ 74 ∷ 78 ∷ 132 ∷ 33 ∷ 29 ∷ 133 ∷ 140 ∷ 212 ∷ 156 ∷ 156 ∷ 124 ∷ 100 ∷ 18 ∷ 0 ∷ []

abbrev fixed_text : List ℕ
fixed_text =
    97 ∷ 98 ∷ 99 ∷ 97 ∷ 98 ∷ 99 ∷ 97 ∷ 98 ∷ 99 ∷ 97 ∷ 98 ∷ 99 ∷ 44 ∷ 32 ∷ 104 ∷ 101 ∷ 108 ∷ 108
    ∷ 111 ∷ 32 ∷ 104 ∷ 101 ∷ 108 ∷ 108 ∷ 111 ∷ 32 ∷ 104 ∷ 101 ∷ 108 ∷ 108 ∷ 111 ∷ []

abbrev dynamic_stream : List ℕ
dynamic_stream =
    45 ∷ 140 ∷ 137 ∷ 17 ∷ 0 ∷ 49 ∷ 8 ∷ 2 ∷ 251 ∷ 239 ∷ 150 ∷ 167 ∷ 129 ∷ 91 ∷ 226 ∷ 161 ∷ 153 ∷ 160
    ∷ 238 ∷ 208 ∷ 10 ∷ 85 ∷ 105 ∷ 112 ∷ 94 ∷ 133 ∷ 54 ∷ 35 ∷ 214 ∷ 222 ∷ 77 ∷ 231 ∷ 172 ∷ 95 ∷ 243
    ∷ 225 ∷ 117 ∷ 156 ∷ 58 ∷ 198 ∷ 116 ∷ 242 ∷ 182 ∷ 99 ∷ 75 ∷ 224 ∷ 81 ∷ 124 ∷ 225 ∷ 78 ∷ 184 ∷ 143
    ∷ 36 ∷ 23 ∷ 229 ∷ 3 ∷ []

abbrev dynamic_text : List ℕ
dynamic_text =
    243 ∷ 243 ∷ 240 ∷ 240 ∷ 240 ∷ 240 ∷ 243 ∷ 240 ∷ 242 ∷ 243 ∷ 242 ∷ 243 ∷ 240 ∷ 240 ∷ 241 ∷ 240
    ∷ 241 ∷ 240 ∷ 241 ∷ 242 ∷ 240 ∷ 241 ∷ 242 ∷ 241 ∷ 243 ∷ 242 ∷ 243 ∷ 241 ∷ 240 ∷ 241 ∷ 241 ∷ 241
    ∷ 240 ∷ 240 ∷ 243 ∷ 240 ∷ 240 ∷ 241 ∷ 240 ∷ 241 ∷ 241 ∷ 241 ∷ 240 ∷ 241 ∷ 240 ∷ 240 ∷ 240 ∷ 240
    ∷ 240 ∷ 240 ∷ 240 ∷ 240 ∷ 241 ∷ 241 ∷ 240 ∷ 241 ∷ 242 ∷ 241 ∷ 240 ∷ 241 ∷ 243 ∷ 241 ∷ 242 ∷ 241
    ∷ 243 ∷ 240 ∷ 243 ∷ 241 ∷ 240 ∷ 240 ∷ 243 ∷ 241 ∷ 240 ∷ 243 ∷ 241 ∷ 242 ∷ 242 ∷ 241 ∷ 242 ∷ 241
    ∷ 240 ∷ 241 ∷ 240 ∷ 241 ∷ 241 ∷ 241 ∷ 243 ∷ 243 ∷ 240 ∷ 242 ∷ 241 ∷ 241 ∷ 240 ∷ 241 ∷ 242 ∷ 241
    ∷ 242 ∷ 241 ∷ 241 ∷ 242 ∷ 240 ∷ 240 ∷ 243 ∷ 242 ∷ 243 ∷ 240 ∷ 241 ∷ 240 ∷ 243 ∷ 241 ∷ 240 ∷ 240
    ∷ 243 ∷ 242 ∷ 243 ∷ 241 ∷ 241 ∷ 241 ∷ 241 ∷ 242 ∷ []

run-fixed_stream : run fixed_stream 31 ≡ ok fixed_text
unfolding run
run-fixed_stream = refl

run-dynamic_stream : run dynamic_stream 120 ≡ ok dynamic_text
unfolding run
run-dynamic_stream = refl

-- A destination that is too large is an error.
run-too_large : run fixed_stream 32 ≡ fails
unfolding run
run-too_large = refl

run-stored : run (1 ∷ 3 ∷ 0 ∷ 252 ∷ 255 ∷ 7 ∷ 8 ∷ 9 ∷ []) 3 ≡ ok (7 ∷ 8 ∷ 9 ∷ [])
unfolding run
run-stored = refl

run-reserved : run (7 ∷ []) 0 ≡ fails
unfolding run
run-reserved = refl

abbrev three : BitReader
three = record { src = 0xb5 ∷ 0x01 ∷ []; pos = 0; bitbuf = 0; bitcnt = 0 }

three-IsReader : IsReader three
three-IsReader = record {
  few = omega arith;
  low = omega arith;
  inside = omega arith;
  bytes = omega arith;
  small = omega arith;
}

get_bits_lem_example :
    (3 ≤ 16 → (out : ℕ × BitReader) × (get_bits three 3 ≡ ok out) × Takes 3 three out)
    × (16 < 3 → get_bits three 3 ≡ fails)
get_bits_lem_example = get_bits_lem three 3 (omega arith) three-IsReader

-- The three codes 0, 10 and 11.
abbrev small_table : Huffman
small_table = record { count = 0 ∷ 1 ∷ 2 ∷ replicate 13 0; symbol = 0 ∷ 1 ∷ 2 ∷ [] }

abbrev blank_table : Huffman
blank_table = record { count = replicate 16 7; symbol = replicate 4 0 }

inflate-Ensures_example :
    Ensures
      (λ out. length out ≡ 3)
      (inflate (1 ∷ 3 ∷ 0 ∷ 252 ∷ 255 ∷ 7 ∷ 8 ∷ 9 ∷ []) (replicate 3 0))
inflate-Ensures_example =
    inflate-Ensures (1 ∷ 3 ∷ 0 ∷ 252 ∷ 255 ∷ 7 ∷ 8 ∷ 9 ∷ []) (replicate 3 0) (omega arith)
      (omega arith) (omega arith)
