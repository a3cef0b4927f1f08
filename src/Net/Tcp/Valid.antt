-- ===== src/Net/Tcp/Valid.antt =====
-- Connections whose fields fit their widths and whose receive ring is sound.
use re_pico.Base.{◌^◌, ◌<◌, ◌≡◌, ◌≢◌}
use re_pico.Net.Tcp.Conn.{State, Conn}
use re_pico.Net.Tcp.Ring.Queue.{IsRing}

pub record IsConn (c : Conn) : Type 0 where
  pub local_port : c.local_port < 65536
  pub remote_port : c.remote_port < 65536
  pub snd_una : c.snd_una < 2 ^ 32
  pub snd_nxt : c.snd_nxt < 2 ^ 32
  pub rcv_nxt : c.rcv_nxt < 2 ^ 32
  pub ring : IsRing c

-- With the ring and the local port of a sound connection, the other fields are enough.
pub IsConn-with :
    (c d : Conn)
    → IsConn c
    → (d.rx_buf ≡ c.rx_buf)
      × (d.rx_head ≡ c.rx_head)
      × (d.rx_len ≡ c.rx_len)
      × (d.local_port ≡ c.local_port)
    → d.remote_port < 65536
    → d.snd_una < 2 ^ 32
    → d.snd_nxt < 2 ^ 32
    → d.rcv_nxt < 2 ^ 32
    → IsConn d
IsConn-with c d v (eb, eh, el, ep) remote una nxt rcv = record {
  local_port = rw ep v.local_port;
  remote_port = remote;
  snd_una = una;
  snd_nxt = nxt;
  rcv_nxt = rcv;
  ring = record { size = rw eb v.ring.size; head = rw eh v.ring.head; len = rw el v.ring.len };
}

-- The states that follow each other: RFC 793, the diagram of figure 6, without an active open in
-- the state `listen`.
pub data Follows : State → State → Type 0 where
  opened : Follows State.listen State.syn_received
  connected : Follows State.syn_sent State.established
  accepted : Follows State.syn_received State.established
  fin_received : Follows State.established State.close_wait
  fin_acked : Follows State.fin_wait1 State.fin_wait2
  both_closed : Follows State.fin_wait1 State.closing
  fin_received_too : Follows State.fin_wait2 State.time_wait
  fin_acked_too : Follows State.closing State.time_wait
  last_acked : Follows State.last_ack State.closed
  aborted : {s : State} → s ≢ State.listen → Follows s State.closed

-- Any number of steps.
pub data Reaches : State → State → Type 0 where
  stays : {s : State} → Reaches s s
  moves : {s t u : State} → Follows s t → Reaches t u → Reaches s u

pub Reaches-trans : {s t u : State} → Reaches s t → Reaches t u → Reaches s u
Reaches-trans {s} stays q = q
Reaches-trans (moves step p) q = moves step (Reaches-trans p q)
