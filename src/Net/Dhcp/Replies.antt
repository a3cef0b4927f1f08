-- ===== src/Net/Dhcp/Replies.antt =====
-- Messages of a server as the list of their options (RFC 2132), and what the client reads of them.
use re_pico.Base.{
  ℕ, zero, suc, ◌+◌, ◌*◌, ◌^◌, ◌≤◌, ◌<◌, ◌≡◌, ◌≢◌, refl, ◌∙◌, List, [], ◌∷◌, ◌++◌, le→leb, not,
  ◌==◌, length, length-append, u8, bit_or, ◌<<◌, ◌/◌, arith, append_assoc, if◌then◌else◌, get_or,
  false, Bool-cases, inl, inr,
}
use re_pico.Base.Bits.{bit_or_high_low}
use re_pico.Base.Slices.{take-append_self, drop-append_past, take_all}
use re_pico.Base.Run.{ok, fails, ensure, ◌>>=◌}
use re_pico.Net.Wire.{be32, be32_number}
use re_pico.Net.Dhcp.{Parsed, no_lease, take_option, option_loop, parse_reply}

-- The options that the client reads, the padding, and any option of another kind.
pub data ReplyOption : Type 0 where
  padding : ReplyOption
  message_type : ℕ → ReplyOption
  subnet_mask : List ℕ → ReplyOption
  routers : List ℕ → List ℕ → ReplyOption
  server : List ℕ → ReplyOption
  lease_time : ℕ → ReplyOption
  other_option : ℕ → List ℕ → ReplyOption

abbrev framed : ℕ → List ℕ → List ℕ
framed code body = code ∷ length body ∷ body

abbrev pub reply_bytes : ReplyOption → List ℕ
reply_bytes padding = 0 ∷ []
reply_bytes (message_type t) = framed 53 (t ∷ [])
reply_bytes (subnet_mask a) = framed 1 a
reply_bytes (routers a more) = framed 3 (a ++ more)
reply_bytes (server a) = framed 54 a
reply_bytes (lease_time n) = framed 51 (be32 n)
reply_bytes (other_option code body) = framed code body

unfoldable pub replies_bytes : List ReplyOption → List ℕ
replies_bytes [] = []
replies_bytes (o ∷ os) = reply_bytes o ++ replies_bytes os

abbrev pub IsReplyOption : ReplyOption → Type 0
IsReplyOption padding = Unit
IsReplyOption (message_type t) = Unit
IsReplyOption (subnet_mask a) = length a ≡ 4
IsReplyOption (routers a more) = length a ≡ 4
IsReplyOption (server a) = length a ≡ 4
IsReplyOption (lease_time n) = n < 2 ^ 32
IsReplyOption (other_option code body) =
    (code ≢ 0) × (code ≢ 255) × (code ≢ 53) × (code ≢ 1) × (code ≢ 3) × (code ≢ 54) × (code ≢ 51)

abbrev pub AreReplyOptions : List ReplyOption → Type 0
AreReplyOptions [] = Unit
AreReplyOptions (o ∷ os) = IsReplyOption o × AreReplyOptions os

-- What an option tells.
abbrev pub told : ReplyOption → Parsed → Parsed
told padding p = p
told (message_type t) p = record p { type = t }
told (subnet_mask a) p = record p { lease = record p.lease { netmask = a } }
told (routers a more) p = record p { lease = record p.lease { router = a } }
told (server a) p = record p { lease = record p.lease { server_id = a } }
told (lease_time n) p = record p { lease = record p.lease { lease_s = n } }
told (other_option code body) p = p

unfoldable pub told_all : List ReplyOption → Parsed → Parsed
told_all [] p = p
told_all (o ∷ os) p = told_all os (told o p)

word_of :
    (a b c d : ℕ)
    → b < 256
    → c < 256
    → d < 256
    → bit_or (bit_or (bit_or (a << 24) (b << 16)) (c << 8)) d
      ≡ (a * 256 + b) * 2 ^ 16 + (c * 256 + d)
word_of a b c d hb hc hd =
    let top : bit_or (a << 24) (b << 16) ≡ (a * 256 + b) << 16 =
      bit_or_high_low 24 a (b << 16) (omega (arith, hb)) ∙ omega arith in
    let upper : bit_or ((a * 256 + b) << 16) (c << 8) ≡ ((a * 256 + b) * 256 + c) << 8 =
      bit_or_high_low 16 (a * 256 + b) (c << 8) (omega (arith, hc)) ∙ omega arith in
    rw (top, upper)
      (bit_or_high_low 8 ((a * 256 + b) * 256 + c) d (omega (arith, hd)) ∙ omega arith)

lease_seconds :
    (n : ℕ)
    → n < 2 ^ 32
    → bit_or
        (bit_or
          (bit_or (get_or (be32 n) 0 0 << 24) (get_or (be32 n) 1 0 << 16))
          (get_or (be32 n) 2 0 << 8))
        (get_or (be32 n) 3 0)
      ≡ n
lease_seconds n h =
    word_of (u8 (n / 2 ^ 24)) (u8 (n / 2 ^ 16)) (u8 (n / 256)) (u8 n) (omega arith) (omega arith)
      (omega arith)
    ∙ be32_number n h

loop_step :
    (fuel : ℕ) (code : ℕ) (body rest : List ℕ) (p : Parsed)
    → (code == 0) ≡ false
    → (code == 255) ≡ false
    → option_loop (suc fuel) (code ∷ length body ∷ (body ++ rest)) p
      ≡ (take_option code body p >>= option_loop fuel rest)
unfolding option_loop
loop_step fuel code body rest p h k =
    rw
      (
        option_loop,
        h,
        k,
        le→leb (length body) (length (body ++ rest)) (omega (arith, length-append body rest)),
        take-append_self (length body) body rest refl,
        drop-append_past (length body) 0 body rest (omega arith),
      )
      refl

option_told :
    (o : ReplyOption) (fuel : ℕ) (rest : List ℕ) (p : Parsed)
    → IsReplyOption o
    → option_loop (suc fuel) (reply_bytes o ++ rest) p ≡ option_loop fuel rest (told o p)
unfolding option_loop take_option
option_told padding fuel rest p h = refl
option_told (message_type t) fuel rest p h = loop_step fuel 53 (t ∷ []) rest p refl refl
option_told (subnet_mask a) fuel rest p h =
    loop_step fuel 1 a rest p refl refl ∙ rw (h, take_all 4 a (omega (arith, h))) refl
option_told (routers a more) fuel rest p h =
    loop_step fuel 3 (a ++ more) rest p refl refl
    ∙ rw
        (
          le→leb 4 (length (a ++ more)) (omega (arith, h, length-append a more)),
          take-append_self 4 a more h,
        )
        refl
option_told (server a) fuel rest p h =
    loop_step fuel 54 a rest p refl refl ∙ rw (h, take_all 4 a (omega (arith, h))) refl
option_told (lease_time n) fuel rest p h =
    loop_step fuel 51 (be32 n) rest p refl refl ∙ rw (lease_seconds n h) refl
option_told (other_option code body) fuel rest p h =
    loop_step fuel code body rest p (ground (arith, h)) (ground (arith, h)) ∙ ground (arith, h)

length-reply : (o : ReplyOption) → 1 ≤ length (reply_bytes o)
length-reply padding = omega arith
length-reply (message_type t) = omega arith
length-reply (subnet_mask a) = omega arith
length-reply (routers a more) = omega arith
length-reply (server a) = omega arith
length-reply (lease_time n) = omega arith
length-reply (other_option code body) = omega arith

loop_told :
    (os : List ReplyOption) (fuel : ℕ) (rest : List ℕ) (p : Parsed)
    → AreReplyOptions os
    → length (replies_bytes os) < fuel
    → option_loop fuel (replies_bytes os ++ (255 ∷ rest)) p ≡ ok (told_all os p)
unfolding replies_bytes told_all option_loop
loop_told [] zero rest p h k = absurd (omega arith)
loop_told [] (suc fuel) rest p h k = refl
loop_told (o ∷ os) zero rest p h k = absurd (omega arith)
loop_told (o ∷ os) (suc fuel) rest p h k =
    rw (append_assoc (reply_bytes o) (replies_bytes os) (255 ∷ rest)) (
      option_told o fuel (replies_bytes os ++ (255 ∷ rest)) p h.0
      ∙ loop_told os fuel rest (told o p) h.1
          (omega (arith, k, length-append (reply_bytes o) (replies_bytes os), length-reply o)))

ended :
    (p : Parsed)
    → (ensure (not (p.type == 0)) >>= λ (_ : Unit {0}). ok p)
      ≡ (if p.type == 0 then fails else ok p)
ended p = elim (Bool-cases (p.type == 0)) [ inl e ↦ rw e refl | inr e ↦ rw e refl ]

-- What is known before the options are read.
abbrev pub told_nothing : List ℕ → Parsed
told_nothing yiaddr = record { type = 0; lease = record no_lease { addr = yiaddr } }

-- Options that a server writes, with their end and any bytes behind it, are read back as the server
-- meant them, the last of a kind taken; they are refused exactly where none tells the type.
pub parse_reply-replies_bytes :
    (yiaddr : List ℕ) (os : List ReplyOption) (rest : List ℕ)
    → AreReplyOptions os
    → let p = told_all os (told_nothing yiaddr) in
      parse_reply yiaddr (replies_bytes os ++ (255 ∷ rest)) ≡ (if p.type == 0 then fails else ok p)
unfolding parse_reply
parse_reply-replies_bytes yiaddr os rest h =
    let read =
      loop_told os (length (replies_bytes os ++ (255 ∷ rest)) + 1) rest (told_nothing yiaddr) h
        (omega (arith, length-append (replies_bytes os) (255 ∷ rest))) in
    rw read (ended (told_all os (told_nothing yiaddr)))
