-- ===== src/Net/Dhcp/Arrival.antt =====
-- A whole message of a server at the client: `on_socket_rx`.
use re_pico.Base.{
  ℕ, ◌≤◌, ◌≡◌, refl, List, [], ◌∷◌, ◌++◌, le→leb, not, ◌&&◌, ◌==◌, drop, take, length, arith,
  if◌then◌else◌, get_or, Bool, true, false, Bool-cases, inl, inr,
}
use re_pico.Base.Run.{ok, fails}
use re_pico.Net.Wire.{get32}
use re_pico.Net.Dhcp.{Client, Parsed, same_addr, is_ours, advances, taken, on_socket_rx}
use re_pico.Net.Dhcp.Replies.{
  ReplyOption, AreReplyOptions, replies_bytes, told_all, told_nothing, parse_reply-replies_bytes,
}

Same-refl : (xs : List ℕ) → same_addr xs xs ≡ true
Same-refl [] = refl
Same-refl (x ∷ xs) = rw (Same-refl xs) (ground arith)

-- A datagram with the fields of a reply to `xid` for the hardware address `mac`, where RFC 2131 has
-- them; `tail` are its options. The other bytes of the header are of any value.
pub record IsReply (xid : ℕ) (yiaddr mac tail bytes : List ℕ) : Type 0 where
  pub size : 240 ≤ length bytes
  pub op : get_or bytes 0 0 ≡ 2
  pub number : get32 bytes 4 ≡ xid
  pub given : take 4 (drop 16 bytes) ≡ yiaddr
  pub chaddr : take 6 (drop 28 bytes) ≡ mac
  pub cookie : get32 bytes 236 ≡ 0x63825363
  pub options : drop 240 bytes ≡ tail

and_true : (b : Bool) → (b && true) ≡ b
and_true true = refl
and_true false = refl

is_ours_lem :
    (c : Client) (xid : ℕ) (yiaddr mac tail bytes : List ℕ)
    → IsReply xid yiaddr mac tail bytes
    → is_ours mac c bytes ≡ (xid == c.xid)
unfolding is_ours
is_ours_lem c xid yiaddr mac tail bytes f =
    rw (le→leb 240 (length bytes) f.size, f.op, f.number, f.cookie, f.chaddr, Same-refl mac)
      (and_true (xid == c.xid))

-- What a message that tells `p` makes of the client.
abbrev pub noted : Client → Parsed → Client
noted c p = record c { reply_type = p.type; reply_lease = p.lease; reply = true }

decided :
    (c : Client) (p : Parsed)
    → taken c (if p.type == 0 then fails else ok p)
      ≡ (if not (p.type == 0) && advances c.state p then noted c p else c)
decided c p = elim (Bool-cases (p.type == 0)) [ inl e ↦ rw e refl | inr e ↦ rw e refl ]

-- Any datagram that has the fields of a reply for this client's hardware address, whatever the other
-- bytes of its header, and options that a server writes with their end, is taken exactly where it
-- carries the number of the exchange, tells its type and advances the client's state: the client then
-- holds the type and the lease as the server meant them, with the address of the header, and is
-- woken. In any other case nothing of the client changes.
pub on_socket_rx-replies_bytes :
    (c : Client) (xid : ℕ) (yiaddr mac rest bytes : List ℕ) (os : List ReplyOption)
    → AreReplyOptions os
    → IsReply xid yiaddr mac (replies_bytes os ++ (255 ∷ rest)) bytes
    → let p = told_all os (told_nothing yiaddr) in
      on_socket_rx mac bytes c
      ≡ (if xid == c.xid && (not (p.type == 0) && advances c.state p) then noted c p else c)
unfolding on_socket_rx
on_socket_rx-replies_bytes c xid yiaddr mac rest bytes os hs f =
    rw
      (
        is_ours_lem c xid yiaddr mac (replies_bytes os ++ (255 ∷ rest)) bytes f,
        f.given,
        f.options,
        parse_reply-replies_bytes yiaddr os rest hs,
        decided c (told_all os (told_nothing yiaddr)),
      )
      (elim (Bool-cases (xid == c.xid)) [ inl e ↦ rw e refl | inr e ↦ rw e refl ])
