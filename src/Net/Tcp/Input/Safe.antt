-- ===== src/Net/Tcp/Input/Safe.antt =====
-- `input` on a synchronized connection, and on one in any state.
use re_pico.Base.{
  ℕ, ◌+◌, ◌≡◌, ◌≢◌, ◌∙◌, refl, sym, ap, subst, Bool, true, false, not, ◌&&◌, ◌||◌, inl, inr,
  Bool-cases, u32, ◌==◌, length, arith, bit_or,
}
use re_pico.Base.Run.{Yields, yields, Yields-bind, Yields-if, Yields-weaken}
use re_pico.Net.Tcp.Seq.{seq_le}
use re_pico.Net.Tcp.Conn.{State, Conn, is_closed, has, flag_syn, flag_ack, flag_rst, flag_fin}
use re_pico.Net.Tcp.Segment.{Env}
use re_pico.Net.Tcp.Valid.{IsConn, IsConn-with, accepted, Reaches, stays, moves, Reaches-trans}
use re_pico.Net.Tcp.Input.{
  Segment, unchanged, reset, process_ack, process_fin, input_ack, input_synchronized, input_conn,
}
use re_pico.Net.Tcp.Input.Close.{Ends, ends, all_acked-Ends, Closes, peer_closed-Closes}
use re_pico.Net.Tcp.Input.Data.{process_data_lem}
use re_pico.Net.Tcp.Input.Moves.{
  IsSegment, Kept, Same, Same-Reaches, Same-Kept, unchanged-Kept, reset-Kept, reply-Yields,
  refuse-Yields, input_listen-Kept, input_syn_sent-Kept,
}

woken-Ends :
    (c c' : Conn) (unbound : Bool)
    → Ends c c' unbound
    → Ends c (record c' { tx_event = true }) unbound
woken-Ends c c' unbound v = record {
  reach = v.reach;
  valid =
      IsConn-with c' _ v.valid (refl, refl, refl, refl) v.valid.remote_port v.valid.snd_una
        v.valid.snd_nxt v.valid.rcv_nxt;
  freed = v.freed;
}

process_ack-Ends :
    (env : Env) (s : Segment) (c : Conn)
    → IsConn c
    → IsSegment s
    → is_closed c.state ≡ false
    → Ends c (process_ack env s c).0 (process_ack env s c).1
unfolding process_ack
process_ack-Ends env s c v w h =
    let acked : Conn = record c { snd_una = s.ack; snd_wnd = s.window } in
    let sound : IsConn acked =
      IsConn-with c acked v (refl, refl, refl, refl) v.remote_port w.header.ack v.snd_nxt
        v.rcv_nxt in
    elim (Bool-cases (seq_le s.ack c.snd_nxt && seq_le c.snd_una s.ack)) [
      | inr out ↦ rw out (woken-Ends c c false (ends c _ refl h v))
      | inl fits ↦ elim (Bool-cases (s.ack == c.snd_nxt)) [
        | inr less ↦
            rw (fits, less)
              (woken-Ends c acked false (record { reach = stays; valid = sound; freed = sym h }))
        | inl all ↦
            rw (fits, all)
              (let r = all_acked-Ends env acked c.state refl h sound in
                woken-Ends c _ _ (record { reach = r.reach; valid = r.valid; freed = r.freed }))
      ]
    ]

process_fin-Closes :
    (env : Env) (s : Segment) (c : Conn) → IsConn c → Closes c (process_fin env s c)
unfolding process_fin
process_fin-Closes env s c v =
    elim (Bool-cases
      (has s.flags flag_fin && u32 (s.seq + length s.body) == c.rcv_nxt && not c.rx_fin)) [
        | inr no_fin ↦ rw no_fin (record { reach = stays; valid = v; same = refl })
        | inl fin ↦ rw fin (
            let peer : Conn = record c { rcv_nxt = u32 (c.rcv_nxt + 1); rx_fin = true } in
            let q = peer_closed-Closes env peer c.state refl (
              IsConn-with c peer v (refl, refl, refl, refl) v.remote_port v.snd_una v.snd_nxt
                (omega arith)) in
            record {
              reach = q.reach;
              valid =
                  IsConn-with _ _ q.valid (refl, refl, refl, refl) q.valid.remote_port
                    q.valid.snd_una q.valid.snd_nxt q.valid.rcv_nxt;
              same = q.same;
            })
      ]

input_ack-Kept :
    (env : Env) (s : Segment) (c : Conn)
    → IsConn c
    → IsSegment s
    → is_closed c.state ≡ false
    → Yields (Kept c) (input_ack env s c)
unfolding input_ack
input_ack-Kept env s c v w h =
    let p = process_ack-Ends env s c v w h in
    let c1 : Conn = (process_ack env s c).0 in
    let (c2, e2, _, same, v2) = process_data_lem s c1 p.valid w.header.seq in
    let es : c2.state ≡ c1.state = ap (λ (d : Conn). d.state) same in
    let c3 : Conn = process_fin env s c2 in
    let q = process_fin-Closes env s c2 v2 in
    rw e2 (
      Yields-bind {P = Same c3}
        (Yields-if
          {b = not (c3.rcv_nxt == c1.rcv_nxt) || not (length s.body == 0) || has s.flags flag_fin}
          (λ _. reply-Yields env c3 flag_ack c3.snd_nxt q.valid (omega arith) q.valid.snd_nxt)
          (λ _. yields (record { state = refl; valid = q.valid; bound = refl })))
        λ out r. yields (record {
          reach =
              Same-Reaches c.state c3 out
                (Reaches-trans p.reach (subst (λ (t : State). Reaches t c3.state) es q.reach)) r;
          valid = r.valid;
          freed = p.freed ∙ sym (ap is_closed r.state ∙ q.same ∙ ap is_closed es);
        }))

input_synchronized-Kept :
    (env : Env) (src : ℕ) (s : Segment) (c : Conn) (syn_received : Bool)
    → IsConn c
    → IsSegment s
    → is_closed c.state ≡ false
    → c.state ≢ State.listen
    → (syn_received ≡ true → c.state ≡ State.syn_received)
    → Yields (Kept c) (input_synchronized env src s c syn_received)
unfolding input_synchronized
input_synchronized-Kept env src s c syn_received v w h not_listening early =
    let still : Kept c (unchanged c) = unchanged-Kept c v h in
    let over : Kept c (reset c) = reset-Kept c v not_listening in
    Yields-if {b = has s.flags flag_rst}
      (λ _.
        Yields-if {b = s.seq == c.rcv_nxt || syn_received} (λ _. yields over) (λ _. yields still))
      λ _.
        Yields-if {b = syn_received && has s.flags flag_syn && u32 (s.seq + 1) == c.rcv_nxt}
          (λ _.
            Yields-weaken
              (reply-Yields env c (bit_or flag_syn flag_ack) c.snd_una v (omega arith) v.snd_una)
              λ out p. Same-Kept c c out stays h p)
          λ _.
            Yields-if {b = has s.flags flag_syn && seq_le c.rcv_nxt s.seq} (λ _. yields over)
              λ _.
                Yields-if {b = not (has s.flags flag_ack)} (λ _. yields still)
                  λ _.
                    Yields-if {b = syn_received}
                      (λ b.
                        Yields-if {b = not (seq_le c.snd_una s.ack && seq_le s.ack c.snd_nxt)}
                          (λ _.
                            Yields-weaken (refuse-Yields env src s c v w)
                              λ out p. Same-Kept c c out stays h p)
                          λ _.
                            Yields-weaken
                              (input_ack-Kept env s (record c { state = State.established })
                                (IsConn-with c _ v (refl, refl, refl, refl) v.remote_port v.snd_una
                                  v.snd_nxt v.rcv_nxt)
                                w refl)
                              λ out k. record {
                                reach = rw (early b) (moves accepted k.reach);
                                valid = k.valid;
                                freed = k.freed;
                              })
                      λ _. input_ack-Kept env s c v w h

-- A segment with fields that fit and with any options and data, for a sound connection in any state
-- but `closed`: the call returns, with the fields of the connection and its ring sound, the state moved along edges of the protocol's diagram
-- only, and the slot in the table freed exactly if the new state is `closed`.
pub input_conn-Kept :
    (env : Env) (src : ℕ) (s : Segment) (c : Conn) (st : State)
    → c.state ≡ st
    → is_closed st ≡ false
    → IsConn c
    → IsSegment s
    → Yields (Kept c) (input_conn env src s c st)
unfolding input_conn
input_conn-Kept env src s c State.closed e h v w = cc
input_conn-Kept env src s c State.listen e h v w = input_listen-Kept env src s c v w e
input_conn-Kept env src s c State.syn_sent e h v w = input_syn_sent-Kept env src s c v w e
input_conn-Kept env src s c State.syn_received e h v w =
    input_synchronized-Kept env src s c true v w (rw e refl) (λ q. cc) (λ _. e)
input_conn-Kept env src s c State.established e h v w =
    input_synchronized-Kept env src s c false v w (rw e refl) (λ q. cc) (λ b. cc)
input_conn-Kept env src s c State.fin_wait1 e h v w =
    input_synchronized-Kept env src s c false v w (rw e refl) (λ q. cc) (λ b. cc)
input_conn-Kept env src s c State.fin_wait2 e h v w =
    input_synchronized-Kept env src s c false v w (rw e refl) (λ q. cc) (λ b. cc)
input_conn-Kept env src s c State.closing e h v w =
    input_synchronized-Kept env src s c false v w (rw e refl) (λ q. cc) (λ b. cc)
input_conn-Kept env src s c State.close_wait e h v w =
    input_synchronized-Kept env src s c false v w (rw e refl) (λ q. cc) (λ b. cc)
input_conn-Kept env src s c State.last_ack e h v w =
    input_synchronized-Kept env src s c false v w (rw e refl) (λ q. cc) (λ b. cc)
input_conn-Kept env src s c State.time_wait e h v w =
    input_synchronized-Kept env src s c false v w (rw e refl) (λ q. cc) (λ b. cc)
