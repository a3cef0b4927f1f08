-- ===== src/Connect/Eapol/Supplicant/Replay.antt =====
-- The replay counter: what the supplicant keeps over frames that carry a code, and when a third
-- message is not accepted a second time.
use re_pico.Base.{
  ℕ, ◌+◌, ◌%◌, ◌≤◌, ◌<◌, ◌≡◌, refl, ◌∙◌, List, [], Bool, true, false, not, ◌&&◌, none, some, ltb,
  ltb→lt, ◌⊎◌, inl, inr, Bool-cases, le→ltb, leb, ◌==◌, bit_and, ◌>>◌, take, drop, length, arith,
}
use re_pico.Base.Outcome.{
  Outcome, returned, refused, faulted, exhausted, ensure-Ends, After, leaves, stops, faults,
  exhausts, After-bind, After-weaken, After-returned, After-refused, Ends-After, attempt-After,
  ensure-through, read_span-through,
}
use re_pico.Crypto.Aes.{expand_key}
use re_pico.Crypto.Cmac.{aes_cmac}
use re_pico.Connect.Eapol.Frame.{
  Header, header_of, KeyPacket, key_packet_of, type_rsn, type_key, info_ack, info_mic,
  info_pairwise, info_encrypted,
}
use re_pico.Connect.Eapol.KeyData.{GroupKeys, same_bytes, parse_key_data}
use re_pico.Connect.Eapol.Ptk.{derive_ptk}
use re_pico.Connect.Eapol.Reply.{build_reply}
use re_pico.Connect.Eapol.Supplicant.{
  Supplicant, Reply, installed, message_1, message_3, unsigned, unwrap_into, handle, on_frame,
  info_m2, info_m4,
}

denied : (b : Bool) → not b ≡ true → b ≡ false
denied b h = ground (arith, h)

plain : (b : Bool) → not b ≡ false → b ≡ true
plain b h = ground (arith, h)

-- The key packet of the received bytes.
abbrev pub packet_in : List ℕ → KeyPacket
packet_in frame = key_packet_of (take 95 (drop 4 frame))

-- Not a first message: the frame says that it has a code.
abbrev pub coded : List ℕ → Bool
coded frame = not (bit_and (packet_in frame).info info_mic == 0)

-- What stays.
pub record Same (s t : Supplicant) : Type 0 where
  pub ptk : t.ptk ≡ s.ptk
  pub done : t.ptk_done ≡ s.ptk_done
  pub anonce : t.anonce ≡ s.anonce
  pub snonce : t.snonce ≡ s.snonce
  pub replay : s.replay ≤ t.replay

pub Same-refl : (s : Supplicant) → Same s s
Same-refl s = record { ptk = refl; done = refl; anonce = refl; snonce = refl; replay = omega arith }

-- After an answer: the counter is the frame's, and was smaller before.
abbrev Answered : Supplicant → KeyPacket → List ℕ × Supplicant → Type 0
Answered s kp r = Same s r.1 × (r.1.replay ≡ kp.replay) × (s.replay < kp.replay)

installed-After :
    (capacity : ℕ) (header : Header) (kp : KeyPacket) (s : Supplicant)
    (outcome : Outcome GroupKeys GroupKeys)
    → s.replay < kp.replay
    → After (Answered s kp) (Same s) (installed capacity header kp s outcome)
unfolding installed
installed-After capacity header kp s faulted h = faults
installed-After capacity header kp s exhausted h = exhausts
installed-After capacity header kp s (refused group) h =
    stops (record { ptk = refl; done = refl; anonce = refl; snonce = refl; replay = omega arith })
installed-After capacity header kp s (returned group) h =
    After-bind
      (attempt-After (build_reply capacity header.version info_m4 kp.replay none [] s.ptk.kck) _
        (record {
          ptk = refl;
          done = refl;
          anonce = refl;
          snonce = refl;
          replay = omega (arith, h);
        }))
      (λ m4 _. leaves (
        record { ptk = refl; done = refl; anonce = refl; snonce = refl; replay = omega (arith, h) },
        refl,
        h,
      ))

message_3-After :
    (capacity : ℕ) (frame : List ℕ) (header : Header) (kp : KeyPacket) (kd : List ℕ)
    (s : Supplicant)
    → After (Answered s kp) (Same s) (message_3 capacity frame header kp kd s)
unfolding message_3
message_3-After capacity frame header kp kd s =
    let r = Same-refl s in
    After-bind (Ends-After (ensure-Ends s.ptk_done s r)) (λ _ _.
      After-bind (Ends-After (ensure-Ends (not (bit_and kp.info info_encrypted == 0)) s r)) (λ _ _.
        After-bind (Ends-After (ensure-Ends (same_bytes kp.nonce s.anonce) s r)) (λ _ _.
          After-bind (Ends-After (ensure-Ends (ltb s.replay kp.replay) s r)) (λ _ e.
            After-bind
              (attempt-After (aes_cmac (expand_key s.ptk.kck) (unsigned frame (2 + kp.datalen))) s
                r)
              (λ mic _. After-bind (Ends-After (ensure-Ends (same_bytes kp.mic mic) s r)) (λ _ _.
                After-bind
                  (Ends-After (ensure-Ends (leb 24 (length kd) && (length kd % 8 == 0)) s r))
                  (λ _ _.
                    After-bind (attempt-After (unwrap_into 512 (expand_key s.ptk.kek) kd) s r)
                      (λ plain _.
                        installed-After capacity header kp s (parse_key_data plain s.group)
                          (ltb→lt s.replay kp.replay e)))))))))

module _ (junk : List ℕ) (drawn : Bool × List ℕ) (capacity : ℕ) (frame : List ℕ)
    (s : Supplicant) where
  abbrev pub left : List ℕ
  left = drop 95 (drop 4 frame)

  -- A frame is refused without a change, or its packet is handled.
  pub on_frame-through :
      (P : Reply → Type 0)
      → P (refused s)
      → ((packet_in frame).datalen ≤ length left
          → P (
              handle junk drawn capacity frame
                (header_of (take 4 frame))
                (packet_in frame)
                (take (packet_in frame).datalen left)
                s))
      → P (on_frame junk drawn capacity frame s)
  unfolding on_frame
  on_frame-through P q k =
      let kp : KeyPacket = packet_in frame in
      read_span-through P 4 frame s _ q (λ _. read_span-through P 95 (drop 4 frame) s _ q (λ _.
        ensure-through P ((header_of (take 4 frame)).type == type_key) s _ q (λ _.
          ensure-through P (kp.type == type_rsn) s _ q (λ _.
            read_span-through P kp.datalen left s _ q
              (λ h. ensure-through P (bit_and kp.info info_pairwise >> 3 == 1) s _ q (λ _. k h))))))

  handle-coded :
      (header : Header) (kd : List ℕ)
      → coded frame ≡ true
      → handle junk drawn capacity frame header (packet_in frame) kd s
        ≡ message_3 capacity frame header (packet_in frame) kd s
  unfolding handle
  handle-coded header kd h = rw (denied (bit_and (packet_in frame).info info_mic == 0) h) refl

  on_frame-After :
      coded frame ≡ true
      → After (Answered s (packet_in frame)) (Same s) (on_frame junk drawn capacity frame s)
  on_frame-After h =
      on_frame-through (After (Answered s (packet_in frame)) (Same s)) (stops (Same-refl s)) (λ _.
        rw (handle-coded (header_of (take 4 frame)) (take (packet_in frame).datalen left) h) (
          message_3-After capacity frame (header_of (take 4 frame)) (packet_in frame)
            (take (packet_in frame).datalen left) s))

  -- A third message that is not newer is refused, and nothing changes.
  pub on_frame-stale :
      coded frame ≡ true
      → (packet_in frame).replay ≤ s.replay
      → on_frame junk drawn capacity frame s ≡ refused s
  unfolding message_3
  on_frame-stale h old =
      on_frame-through (λ r. r ≡ refused s) refl
        (λ _.
          let kp : KeyPacket = packet_in frame in
          let P : Reply → Type 0 = λ r. r ≡ refused s in
          handle-coded (header_of (take 4 frame)) (take kp.datalen left) h
          ∙ ensure-through P s.ptk_done s _ refl (λ _.
            ensure-through P (not (bit_and kp.info info_encrypted == 0)) s _ refl (λ _.
              ensure-through P (same_bytes kp.nonce s.anonce) s _ refl
                (λ _. rw (le→ltb s.replay kp.replay old) refl))))

-- A frame without a code, which may be a first message, sets the counter to its own.
message_1-After :
    (junk : List ℕ) (drawn : Bool × List ℕ) (capacity : ℕ) (header : Header) (kp : KeyPacket)
    (s : Supplicant)
    → s.replay ≤ kp.replay
    → After
        (λ (r : List ℕ × Supplicant). s.replay ≤ r.1.replay)
        (λ (t : Supplicant). s.replay ≤ t.replay)
        (message_1 junk drawn capacity header kp s)
unfolding message_1
message_1-After junk drawn capacity header kp s h =
    After-bind (Ends-After (ensure-Ends (not (bit_and kp.info info_ack == 0)) s (omega arith)))
      (λ _ _. After-bind (Ends-After (ensure-Ends drawn.0 _ h)) (λ _ _.
        After-bind (attempt-After (derive_ptk junk s.pmk s.aa s.spa kp.nonce drawn.1) _ h) (λ ptk _.
          After-bind
            (attempt-After
              (build_reply capacity header.version info_m2 kp.replay (some drawn.1) s.rsn_ie
                ptk.kck)
              _ h)
            (λ m2 _. leaves h))))

-- The frame is not a first message with a lower counter.
abbrev pub NotBehind : Supplicant → List ℕ → Type 0
NotBehind s frame = (coded frame ≡ true) ⊎ (s.replay ≤ (packet_in frame).replay)

coded-NotBehind :
    (junk : List ℕ) (drawn : Bool × List ℕ) (capacity : ℕ) (frame : List ℕ) (s : Supplicant)
    → coded frame ≡ true
    → After
        (λ (r : List ℕ × Supplicant). s.replay ≤ r.1.replay)
        (λ (t : Supplicant). s.replay ≤ t.replay)
        (on_frame junk drawn capacity frame s)
coded-NotBehind junk drawn capacity frame s h =
    After-weaken (on_frame-After junk drawn capacity frame s h) (λ r a. a.0.replay)
      (λ t a. a.replay)

on_frame-NotBehind :
    (junk : List ℕ) (drawn : Bool × List ℕ) (capacity : ℕ) (frame : List ℕ) (s : Supplicant)
    → NotBehind s frame
    → After
        (λ (r : List ℕ × Supplicant). s.replay ≤ r.1.replay)
        (λ (t : Supplicant). s.replay ≤ t.replay)
        (on_frame junk drawn capacity frame s)
unfolding handle
on_frame-NotBehind junk drawn capacity frame s (inl h) =
    coded-NotBehind junk drawn capacity frame s h
on_frame-NotBehind junk drawn capacity frame s (inr h) = elim (Bool-cases (coded frame)) [
  | inl c ↦ coded-NotBehind junk drawn capacity frame s c
  | inr u ↦
      on_frame-through junk drawn capacity frame s
        (After (λ (r : List ℕ × Supplicant). s.replay ≤ r.1.replay)
          (λ (t : Supplicant). s.replay ≤ t.replay))
        (stops (omega arith))
        (λ _.
          rw (plain (bit_and (packet_in frame).info info_mic == 0) u)
            (message_1-After junk drawn capacity (header_of (take 4 frame)) (packet_in frame) s h))
]

-- The states that such frames lead to, answered or refused.
pub data Follows : Supplicant → Supplicant → Type 0 where
  stays : {s : Supplicant} → Follows s s
  answers :
      (junk : List ℕ) (drawn : Bool × List ℕ) (capacity : ℕ) (frame m : List ℕ) {s t u : Supplicant}
      → NotBehind s frame
      → on_frame junk drawn capacity frame s ≡ returned (m, t)
      → Follows t u
      → Follows s u
  refuses_one :
      (junk : List ℕ) (drawn : Bool × List ℕ) (capacity : ℕ) (frame : List ℕ) {s t u : Supplicant}
      → NotBehind s frame
      → on_frame junk drawn capacity frame s ≡ refused t
      → Follows t u
      → Follows s u

-- They never set the replay counter back.
pub Follows-replay : {s t : Supplicant} → Follows s t → s.replay ≤ t.replay
Follows-replay stays = omega arith
Follows-replay (answers junk drawn capacity frame m {s} {t} {u} h e f) =
    omega
      (arith, After-returned (on_frame-NotBehind junk drawn capacity frame s h) e, Follows-replay f)
Follows-replay (refuses_one junk drawn capacity frame {s} {t} {u} h e f) =
    omega
      (arith, After-refused (on_frame-NotBehind junk drawn capacity frame s h) e, Follows-replay f)
