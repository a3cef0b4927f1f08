-- ===== src/Net/Arp/Messages.antt =====
-- The packets of ARP: what is built is what is read, and a request is answered.
use re_pico.Base.{ℕ, ◌<◌, ◌≡◌, refl, List, [], ◌∷◌, some, length, arith, ◌^◌}
use re_pico.Net.Wire.{be16_number, be32_number}
use re_pico.Net.Arp.{packet_bytes, parse}

pub six {κ} :
    (P : List ℕ → Type κ)
    → ((a b c d e f : ℕ) → P (a ∷ b ∷ c ∷ d ∷ e ∷ f ∷ []))
    → (m : List ℕ) → length m ≡ 6
    → P m
six P p (a ∷ b ∷ c ∷ d ∷ e ∷ f ∷ []) h = p a b c d e f
six P p (a ∷ b ∷ c ∷ d ∷ e ∷ f ∷ g ∷ m) h = absurd (omega arith)
six P p (a ∷ b ∷ c ∷ d ∷ e ∷ []) h = absurd (omega arith)
six P p (a ∷ b ∷ c ∷ d ∷ []) h = absurd (omega arith)
six P p (a ∷ b ∷ c ∷ []) h = absurd (omega arith)
six P p (a ∷ b ∷ []) h = absurd (omega arith)
six P p (a ∷ []) h = absurd (omega arith)
six P p [] h = absurd (omega arith)

-- The fields of a packet are read as they were written.
pub parse-packet_bytes :
    (op : ℕ) (sender_mac : List ℕ) (sender_ip : ℕ) (target_mac : List ℕ) (target_ip : ℕ)
    → op < 2 ^ 16
    → length sender_mac ≡ 6
    → sender_ip < 2 ^ 32
    → length target_mac ≡ 6
    → target_ip < 2 ^ 32
    → parse (packet_bytes op sender_mac sender_ip target_mac target_ip)
      ≡ some (op, sender_mac, sender_ip, target_ip)
unfolding parse packet_bytes
parse-packet_bytes op sm si tm ti ho hs hsi ht hti =
    six (λ m. parse (packet_bytes op m si tm ti) ≡ some (op, m, si, ti))
      (λ a b c d e f.
        six
          (λ m.
            parse (packet_bytes op (a ∷ b ∷ c ∷ d ∷ e ∷ f ∷ []) si m ti)
            ≡ some (op, a ∷ b ∷ c ∷ d ∷ e ∷ f ∷ [], si, ti))
          (λ a' b' c' d' e' f'. rw (be16_number op ho, be32_number si hsi, be32_number ti hti) refl)
          tm ht)
      sm hs
