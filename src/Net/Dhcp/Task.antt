-- ===== src/Net/Dhcp/Task.antt =====
-- dhcp.cpp, `Client::task` and `transact`, cut at the places where they wait: for `send_message`, for
-- the reply or the end of the time for it, and through half of the lease. `now` is the clock where
-- the code reads it. The waiting for an event tells whether it has been notified.
pub mod Sound
use re_pico.Base.{
  ℕ, ◌+◌, ◌*◌, ◌/◌, Bool, true, false, List, Option, none, some, u32, ltb, ◌==◌, if◌then◌else◌,
}
use re_pico.Net.Dhcp.{
  State, Lease, Client, no_addr, no_lease, type_discover, type_request, type_ack, on_socket_rx,
}

abbrev pub max_tries : ℕ
max_tries = 4

abbrev pub default_lease_s : ℕ
default_lease_s = 120

-- The time to the renewal, half of the lease.
abbrev pub renewal_ms : Lease → ℕ
renewal_ms l = (if l.lease_s == 0 then default_lease_s else l.lease_s) * 1000 / 2

-- The fields of `Stack` that the task sets.
pub record Settings : Type 0 where
  pub addr : List ℕ
  pub netmask : List ℕ
  pub gateway : List ℕ

abbrev pub no_settings : Settings
no_settings = record { addr = no_addr; netmask = no_addr; gateway = no_addr }

-- Where the task waits: in `transact` with the type of the message and the count of the attempts, or
-- in a sleep of so many milliseconds.
pub data Place : Type 0 where
  sending : ℕ → ℕ → Place
  waiting : ℕ → ℕ → Place
  sleeping : ℕ → Place

pub record Task : Type 0 where
  pub client : Client
  pub settings : Settings
  pub place : Place

-- The head of a round of `transact`.
abbrev pub begin_attempt : ℕ → ℕ → Client → Settings → Task
begin_attempt type i c net = record {
  client = record c { reply_type = 0; reply = false };
  settings = net;
  place = sending type i;
}

-- The head of the outer loop.
unfoldable pub discover : ℕ → Client → Task
discover now c =
    begin_attempt type_discover 0 (record c { xid = u32 now; state = State.selecting }) no_settings

-- The task starts where its socket could be bound.
abbrev pub start : Bool → ℕ → Client → Option Task
start bound now c = if bound then some (discover now c) else none

-- The round after one without a reply; `transact` gives up after the last, and all its callers then
-- start over.
unfoldable pub next_attempt : ℕ → ℕ → ℕ → Client → Settings → Task
next_attempt now type i c net =
    if ltb (i + 1) max_tries then begin_attempt type (i + 1) c net else discover now c

-- What follows a reply, in the state of the client.
unfoldable pub replied : ℕ → Client → Settings → Task
replied now c net = elim c.state [
  | State.selecting ↦
      begin_attempt type_request 0 (record c { lease = c.reply_lease; state = State.requesting })
        net
  | State.requesting ↦
      if c.reply_type == type_ack
      then record {
        client = record c { lease = c.reply_lease; state = State.bound };
        settings = record {
          addr = c.reply_lease.addr;
          netmask = c.reply_lease.netmask;
          gateway = c.reply_lease.router;
        };
        place = sleeping (renewal_ms c.reply_lease);
      }
      else discover now c
  | State.renewing ↦
      if c.reply_type == type_ack
      then record {
        client = record c {
          lease = record c.lease { lease_s = c.reply_lease.lease_s };
          state = State.bound;
        };
        settings = net;
        place = sleeping (renewal_ms (record c.lease { lease_s = c.reply_lease.lease_s }));
      }
      else discover now c
  | _ ↦ discover now c
]

-- The end of the sleep.
unfoldable pub renew : ℕ → Client → Settings → Task
renew now c net =
    begin_attempt type_request 0 (record c { state = State.renewing; xid = u32 now }) net

-- The task goes on; `sent` is the result of `send_message` where it waits for that.
unfoldable pub resume : ℕ → Bool → Task → Task
resume now sent t = elim t.place [
  | sending type i ↦
      if sent
      then record { client = t.client; settings = t.settings; place = waiting type i }
      else discover now t.client
  | waiting type i ↦
      if t.client.reply
      then replied now (record t.client { reply = false }) t.settings
      else next_attempt now type i t.client t.settings
  | sleeping ms ↦ renew now t.client t.settings
]

-- What happens: the task goes on, or a datagram comes in.
pub data Happening : Type 0 where
  resumes : ℕ → Bool → Happening
  arrives : List ℕ → Happening

unfoldable pub step : List ℕ → Happening → Task → Task
step mac (resumes now sent) t = resume now sent t
step mac (arrives bytes) t = record {
  client = on_socket_rx mac bytes t.client;
  settings = t.settings;
  place = t.place;
}
