-- ===== src/Net/Tcp/Send/Again.antt =====
-- The timeout of `send`.
use re_pico.Base.{
  ℕ, ◌+◌, ◌^◌, ◌≤◌, ◌<◌, ◌≡◌, ◌⊎◌, refl, List, Bool, true, false, ◌||◌, u32, ltb, leb, lt→ltb, ◌==◌,
  if◌then◌else◌, length, arith,
}
use re_pico.Base.Run.{ok, Yields, yields, Yields-bind}
use re_pico.Net.Tcp.Conn.{Conn, max_retx}
use re_pico.Net.Tcp.Seq.{seq_lt}
use re_pico.Net.Tcp.Segment.{Outgoing, Env}
use re_pico.Net.Tcp.Valid.{IsConn-with}
use re_pico.Net.Tcp.Send.{Step, waits, ends, Sending, may_send, send_round, send_resume}
use re_pico.Net.Tcp.Send.Window.{IsSending, Filled, fill_loop_lem}

-- A step that goes through the loop that sends: it waits again, or ends with `false` where
-- `ipv4::output` has refused a packet (`Filled` tells which).
pub record Sends (env : Env) (output : Outgoing → Bool) (w : Sending) (c : Conn) (o : ℕ)
    (r : Step Bool Sending) : Type 0 where
  pub all : Bool
  pub conn : Conn
  pub sent : List Outgoing
  pub step : r ≡ (if all then waits w conn sent else ends false conn sent)
  pub filled : Filled env output w c o (all, (conn, sent))

module _ (env : Env) (output : Outgoing → Bool) (w : Sending) where
  before_end :
      (x a : ℕ)
      → w.base < 2 ^ 32
      → length w.bytes < 2 ^ 31
      → w.end ≡ u32 (w.base + length w.bytes)
      → x ≡ u32 (w.base + a)
      → a ≤ length w.bytes
      → seq_lt x w.end ≡ ltb a (length w.bytes)
  unfolding seq_lt
  before_end x a hb hn he hx ha = rw (he, hx) (ground (arith, hb, hn, ha))

  as_step :
      (c : Conn) (o : ℕ) (r : Bool × (Conn × List Outgoing))
      → Filled env output w c o r
      → Yields
          (Sends env output w c o)
          (ok (if r.0 then waits w r.1.0 r.1.1 else ends false r.1.0 r.1.1))
  as_step c o r f =
      yields (record { all = r.0; conn = r.1.0; sent = r.1.1; step = refl; filled = f })

  send_round_lem :
      (c : Conn) (a o : ℕ)
      → IsSending env w (record c { tx_event = false }) o
      → c.snd_una ≡ u32 (w.base + a)
      → a < length w.bytes
      → may_send c.state ≡ true
      → Yields (Sends env output w (record c { tx_event = false }) o) (send_round env output w c)
  unfolding send_round
  send_round_lem c a o v hu ha hs =
      let more = before_end c.snd_una a v.base v.small v.end hu (omega arith) in
      rw (send_round, more, lt→ltb a (length w.bytes) ha, hs)
        (Yields-bind
          (fill_loop_lem env output w (length w.bytes + 1) (record c { tx_event = false }) o
            (omega arith) v)
          (λ r f. as_step (record c { tx_event = false }) o r f))

  -- The connection as it is after a timeout.
  abbrev pub rewound : Conn → Conn
  rewound c = record c {
    retries = if c.snd_wnd == 0 then c.retries else c.retries + 1;
    snd_nxt = c.snd_una;
    tx_event = false;
  }

  rewound-IsSending :
      (c : Conn) (a o : ℕ)
      → IsSending env w c o
      → c.snd_una ≡ u32 (w.base + a)
      → a ≤ length w.bytes
      → IsSending env w (rewound c) a
  rewound-IsSending c a o v hu ha = record {
    conn =
        IsConn-with c (rewound c) v.conn (refl, refl, refl, refl) v.conn.remote_port v.conn.snd_una
          v.conn.snd_una v.conn.rcv_nxt;
    base = v.base;
    small = v.small;
    end = v.end;
    next = hu;
    inside = ha;
    flight = omega (arith, v.small, v.conn.snd_una);
    mss = v.mss;
    data_bytes = v.data_bytes;
    has_packet = v.has_packet;
  }

  -- After a timeout, in a sound connection that may send and has data that is not acknowledged, while
  -- fewer than `max_retx` timeouts in a row have been counted or the peer's window is closed, and while
  -- the pool is not empty: `send` sends the data again from the first byte on that is not
  -- acknowledged, in order and inside the window, and waits; where `ipv4::output` refuses one of the
  -- packets, `send` ends there with `false`.
  pub send_resume-again :
      (c : Conn) (a o : ℕ)
      → IsSending env w c o
      → c.snd_una ≡ u32 (w.base + a)
      → a < length w.bytes
      → may_send c.state ≡ true
      → (c.snd_wnd ≡ 0) ⊎ (c.retries < max_retx)
      → Yields (Sends env output w (rewound c) a) (send_resume env output w false c)
  unfolding send_resume
  send_resume-again c a o v hu ha hs few =
      let allowed : (c.snd_wnd == 0
            || leb (if c.snd_wnd == 0 then c.retries else c.retries + 1) max_retx)
          ≡ true =
        ground (arith, few) in
      rw allowed (
        send_round_lem
          (record c {
            retries = if c.snd_wnd == 0 then c.retries else c.retries + 1;
            snd_nxt = c.snd_una;
          })
          a a (rewound-IsSending c a o v hu (omega arith)) hu ha hs)
