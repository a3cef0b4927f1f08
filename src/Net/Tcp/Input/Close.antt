-- ===== src/Net/Tcp/Input/Close.antt =====
-- `all_acked` and `peer_closed`: the moves of a connection that is being closed.
use re_pico.Base.{◌≡◌, ◌∙◌, refl, sym, ap, Bool, false}
use re_pico.Net.Tcp.Conn.{State, Conn, is_closed}
use re_pico.Net.Tcp.Segment.{Env}
use re_pico.Net.Tcp.Valid.{
  IsConn, IsConn-with, fin_received, fin_acked, both_closed, fin_received_too, fin_acked_too,
  last_acked, Reaches, stays, moves,
}
use re_pico.Net.Tcp.Input.{time_wait, all_acked, peer_closed}

-- A connection after a part of the work, and whether its slot has been freed.
pub record Ends (c c' : Conn) (unbound : Bool) : Type 0 where
  pub reach : Reaches c.state c'.state
  pub valid : IsConn c'
  pub freed : unbound ≡ is_closed c'.state

time_wait-IsConn : (env : Env) (c : Conn) → IsConn c → IsConn (time_wait env c)
unfolding time_wait
time_wait-IsConn env c v =
    IsConn-with c _ v (refl, refl, refl, refl) v.remote_port v.snd_una v.snd_nxt v.rcv_nxt

pub ends : (c : Conn) (st : State) → c.state ≡ st → is_closed st ≡ false → IsConn c → Ends c c false
ends c st e h v = record { reach = stays; valid = v; freed = sym (ap is_closed e ∙ h) }

pub all_acked-Ends :
    (env : Env) (c : Conn) (st : State)
    → c.state ≡ st
    → is_closed st ≡ false
    → IsConn c
    → Ends c (all_acked env c st).0 (all_acked env c st).1
unfolding all_acked time_wait
all_acked-Ends env c State.closed e h v = cc
all_acked-Ends env c State.listen e h v = ends c _ e h v
all_acked-Ends env c State.syn_sent e h v = ends c _ e h v
all_acked-Ends env c State.syn_received e h v = ends c _ e h v
all_acked-Ends env c State.established e h v = ends c _ e h v
all_acked-Ends env c State.fin_wait1 e h v = record {
  reach = rw e (moves fin_acked stays);
  valid = IsConn-with c _ v (refl, refl, refl, refl) v.remote_port v.snd_una v.snd_nxt v.rcv_nxt;
  freed = refl;
}
all_acked-Ends env c State.fin_wait2 e h v = ends c _ e h v
all_acked-Ends env c State.closing e h v = record {
  reach = rw e (moves fin_acked_too stays);
  valid = time_wait-IsConn env c v;
  freed = refl;
}
all_acked-Ends env c State.close_wait e h v = ends c _ e h v
all_acked-Ends env c State.last_ack e h v = record {
  reach = rw e (moves last_acked stays);
  valid = IsConn-with c _ v (refl, refl, refl, refl) v.remote_port v.snd_una v.snd_nxt v.rcv_nxt;
  freed = refl;
}
all_acked-Ends env c State.time_wait e h v = ends c _ e h v

pub record Closes (c c' : Conn) : Type 0 where
  pub reach : Reaches c.state c'.state
  pub valid : IsConn c'
  pub same : is_closed c'.state ≡ is_closed c.state

pub peer_closed-Closes :
    (env : Env) (c : Conn) (st : State) → c.state ≡ st → IsConn c → Closes c (peer_closed env c st)
unfolding peer_closed time_wait
peer_closed-Closes env c State.closed e v = record { reach = stays; valid = v; same = refl }
peer_closed-Closes env c State.listen e v = record { reach = stays; valid = v; same = refl }
peer_closed-Closes env c State.syn_sent e v = record { reach = stays; valid = v; same = refl }
peer_closed-Closes env c State.syn_received e v = record { reach = stays; valid = v; same = refl }
peer_closed-Closes env c State.established e v = record {
  reach = rw e (moves fin_received stays);
  valid = IsConn-with c _ v (refl, refl, refl, refl) v.remote_port v.snd_una v.snd_nxt v.rcv_nxt;
  same = sym (ap is_closed e);
}
peer_closed-Closes env c State.fin_wait1 e v = record {
  reach = rw e (moves both_closed stays);
  valid = IsConn-with c _ v (refl, refl, refl, refl) v.remote_port v.snd_una v.snd_nxt v.rcv_nxt;
  same = sym (ap is_closed e);
}
peer_closed-Closes env c State.fin_wait2 e v = record {
  reach = rw e (moves fin_received_too stays);
  valid = time_wait-IsConn env c v;
  same = sym (ap is_closed e);
}
peer_closed-Closes env c State.closing e v = record { reach = stays; valid = v; same = refl }
peer_closed-Closes env c State.close_wait e v = record { reach = stays; valid = v; same = refl }
peer_closed-Closes env c State.last_ack e v = record { reach = stays; valid = v; same = refl }
peer_closed-Closes env c State.time_wait e v = record { reach = stays; valid = v; same = refl }
