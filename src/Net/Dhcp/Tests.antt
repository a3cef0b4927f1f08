-- ===== src/Net/Dhcp/Tests.antt =====
-- A lease from the first message to the acknowledgement: the tests and the examples of the theorems.
use re_pico.Base.{
  ℕ, ◌≡◌, refl, List, [], ◌∷◌, ◌++◌, replicate, true, false, not, ◌&&◌, ◌==◌, if◌then◌else◌, length,
  arith,
}
use re_pico.Net.Wire.{be32}
use re_pico.Net.Dhcp.{
  State, Client, magic_cookie, no_addr, no_lease, boot_reply, type_discover, header_bytes,
  option_bytes, message_bytes, advances, is_ours, parse_reply, option_loop, take_option,
  on_socket_rx,
}
use re_pico.Net.Dhcp.Replies.{
  ReplyOption, AreReplyOptions, padding, message_type, subnet_mask, routers, server, lease_time,
  other_option, replies_bytes, told_all, told_nothing,
}
use re_pico.Net.Dhcp.Arrival.{noted, IsReply, on_socket_rx-replies_bytes}
use re_pico.Net.Dhcp.Task.{
  Task, sleeping, discover, replied, Happening, resumes, arrives, resume, step,
}
use re_pico.Net.Dhcp.Task.Sound.{IsTask, Reachable, started, stepped, Reachable-IsTask}

abbrev our_mac : List ℕ
our_mac = 2 ∷ 0 ∷ 0 ∷ 0 ∷ 0 ∷ 9 ∷ []

abbrev our_addr : List ℕ
our_addr = 192 ∷ 168 ∷ 0 ∷ 7 ∷ []

abbrev router_addr : List ℕ
router_addr = 192 ∷ 168 ∷ 0 ∷ 1 ∷ []

abbrev mask : List ℕ
mask = 255 ∷ 255 ∷ 255 ∷ 0 ∷ []

abbrev fresh : Client
fresh = record {
  state = State.idle;
  xid = 0;
  lease = no_lease;
  reply_type = 0;
  reply_lease = no_lease;
  reply = false;
}

abbrev options : ℕ → List ReplyOption
options type =
    message_type type
    ∷ subnet_mask mask
    ∷ (padding
        ∷ routers router_addr (192 ∷ 168 ∷ 0 ∷ 2 ∷ [])
        ∷ (server router_addr ∷ lease_time 7200 ∷ (other_option 6 router_addr ∷ [])))

unfoldable from_server : ℕ → List ℕ
from_server type =
    header_bytes boot_reply 77 no_addr our_addr our_mac
    ++ (replies_bytes (options type) ++ (255 ∷ []))

abbrev awaiting : Client
awaiting = record fresh { state = State.selecting; xid = 77 }

options-AreReplyOptions : AreReplyOptions (options 2)
options-AreReplyOptions = (
  tt,
  (
    refl,
    (
      tt,
      (
        refl,
        (
          refl,
          (
            omega arith,
            (
              (
                (λ e. absurd (omega arith)),
                (λ e. absurd (omega arith)),
                (λ e. absurd (omega arith)),
                (λ e. absurd (omega arith)),
                (λ e. absurd (omega arith)),
                (λ e. absurd (omega arith)),
                (λ e. absurd (omega arith)),
              ),
              tt,
            ),
          ),
        ),
      ),
    ),
  ),
)

-- An offer that came over a relay, with the server's address and the name of a file.
abbrev relayed : List ℕ
relayed =
    (boot_reply ∷ 1 ∷ 6 ∷ 1 ∷ be32 77)
    ++ ((0 ∷ 9 ∷ 0x80 ∷ 0 ∷ no_addr)
        ++ (our_addr
            ++ (router_addr
                ++ (router_addr ++ (our_mac ++ (replicate 202 0x61 ++ be32 magic_cookie))))))

offer-IsReply :
    IsReply 77 our_addr our_mac
      (replies_bytes (options 2) ++ (255 ∷ 0 ∷ []))
      (relayed ++ (replies_bytes (options 2) ++ (255 ∷ 0 ∷ [])))
offer-IsReply = record {
  size = omega arith;
  op = refl;
  number = refl;
  given = refl;
  chaddr = refl;
  cookie = refl;
  options = refl;
}

on_socket_rx-replies_bytes_example :
    on_socket_rx our_mac (relayed ++ (replies_bytes (options 2) ++ (255 ∷ 0 ∷ []))) awaiting ≡ (
      if (77 == 77)
        && (not ((told_all (options 2) (told_nothing our_addr)).type == 0)
            && advances State.selecting (told_all (options 2) (told_nothing our_addr)))
      then noted awaiting (told_all (options 2) (told_nothing our_addr))
      else awaiting)
on_socket_rx-replies_bytes_example =
    on_socket_rx-replies_bytes awaiting 77 our_addr our_mac (0 ∷ [])
      (relayed ++ (replies_bytes (options 2) ++ (255 ∷ 0 ∷ []))) (options 2) options-AreReplyOptions
      offer-IsReply

abbrev run : List Happening → Task → Task
run [] t = t
run (h ∷ hs) t = run hs (step our_mac h t)

abbrev exchange : List Happening
exchange =
    resumes 0 true
    ∷ arrives (from_server 2)
    ∷ (resumes 0 true ∷ resumes 0 true ∷ (arrives (from_server 5) ∷ resumes 0 true ∷ []))

unfoldable leased : Task
leased = run exchange (discover 77 fresh)

leased_settings :
    leased.settings ≡ record { addr = our_addr; netmask = mask; gateway = router_addr }
unfolding leased step resume discover on_socket_rx from_server is_ours header_bytes replies_bytes
    parse_reply option_loop take_option advances replied
leased_settings = refl

leased_place : leased.place ≡ sleeping 3600000
unfolding leased step resume discover on_socket_rx from_server is_ours header_bytes replies_bytes
    parse_reply option_loop take_option advances replied
leased_place = refl

discover_size :
    length (message_bytes (discover 77 fresh).client our_mac no_addr type_discover) ≡ 249
unfolding message_bytes header_bytes option_bytes discover
discover_size = refl

run-Reachable :
    (hs : List Happening) (t : Task) → Reachable our_mac t → Reachable our_mac (run hs t)
run-Reachable [] t r = r
run-Reachable (h ∷ hs) t r = run-Reachable hs (step our_mac h t) (stepped h t r)

leased-Reachable : Reachable our_mac leased
unfolding leased
leased-Reachable =
    run-Reachable exchange (discover 77 fresh) (started 77 fresh (discover 77 fresh) refl)

Reachable-IsTask_example : IsTask leased
Reachable-IsTask_example = Reachable-IsTask our_mac leased leased-Reachable
