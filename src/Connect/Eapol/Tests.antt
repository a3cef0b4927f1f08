-- ===== src/Connect/Eapol/Tests.antt =====
-- The examples of the theorems on the handshake.
use re_pico.Base.{ℕ, ◌<◌, ◌≡◌, refl, List, [], ◌∷◌, ◌++◌, true, replicate, arith}
use re_pico.Base.Bytes.{Bytes, All-replicate}
use re_pico.Base.Run.{ok}
use re_pico.Base.Outcome.{returned, refused, faulted}
use re_pico.Connect.Eapol.KeyData.{parse_key_data}
use re_pico.Connect.Eapol.KeyData.Safe.{IsGroup}
use re_pico.Connect.Eapol.KeyData.Elements.{
  Element, kde_element, vendors_element, gtk_element, igtk_element, key_data_bytes, element_bytes,
  install, install_all, AreElements,
}
use re_pico.Connect.Eapol.KeyData.Parsed.{parse_key_data-key_data_bytes, parse_key_data-padding}
use re_pico.Connect.Eapol.Ptk.{Ptk, derive_ptk}
use re_pico.Connect.Eapol.Ptk.Order.{derive_ptk_comm}
use re_pico.Connect.Eapol.Supplicant.{Supplicant, on_frame}
use re_pico.Connect.Eapol.Supplicant.Safe.{IsConfigured}
use re_pico.Connect.Eapol.Vectors.{zeros, no_keys, fresh, keyed}
use re_pico.Connect.Eapol.Authenticator.{m1_frame, m3_frame}
use re_pico.Connect.Eapol.Authenticator.Sent.{IsKeyed, on_frame-m3_overflow}
use re_pico.Connect.Eapol.Authenticator.Handshake.{handshake_lem}

zeros-Bytes : (n : ℕ) → Bytes (zeros n)
zeros-Bytes n = All-replicate (λ b. b < 256) n 0 (omega arith)

no_keys-IsGroup : IsGroup no_keys
no_keys-IsGroup = record { room = refl; fits = omega arith }

abbrev elements : List Element
elements =
    kde_element 4 (7 ∷ [])
    ∷ gtk_element 1 (replicate 16 0xa0)
    ∷ (vendors_element (0x00 ∷ 0x50 ∷ 0xf2 ∷ []) (2 ∷ [])
        ∷ igtk_element 4 (replicate 6 0) (replicate 16 0xb0)
        ∷ [])

abbrev one_key : List Element
one_key = gtk_element 1 (replicate 16 0xa0) ∷ []

elements-AreElements : AreElements elements
elements-AreElements = (
  ((λ e. absurd (omega arith)), (λ e. absurd (omega arith))),
  (omega arith, ((refl, refl), ((omega arith, refl, refl), tt))),
)

parse_key_data-key_data_bytes_example :
    parse_key_data (key_data_bytes elements ++ 0 ∷ []) no_keys
    ≡ returned (install_all elements no_keys)
unfolding install_all install
parse_key_data-key_data_bytes_example =
    parse_key_data-key_data_bytes elements no_keys elements-AreElements no_keys-IsGroup (0 ∷ [])
      (omega arith) (omega arith)

-- The keys of the repository's test, with the two bytes of padding that the standard adds.
parse_key_data-padding_example :
    parse_key_data (key_data_bytes elements ++ 221 ∷ 0 ∷ replicate 0 0) no_keys
    ≡ refused (install_all elements no_keys)
parse_key_data-padding_example =
    parse_key_data-padding elements no_keys elements-AreElements no_keys-IsGroup 0

fresh-IsConfigured : IsConfigured fresh
fresh-IsConfigured = record {
  pmk = omega arith;
  aa = refl;
  spa = refl;
  rsn_ie = zeros-Bytes 22;
  short = omega arith;
  group = no_keys-IsGroup;
}

keyed-IsKeyed : IsKeyed keyed
keyed-IsKeyed = record {
  keyed = refl;
  kck = (refl, zeros-Bytes 16);
  kek = (refl, zeros-Bytes 16);
  anonce = (refl, zeros-Bytes 32);
}

derive_ptk_comm_example :
    derive_ptk (zeros 64) fresh.pmk fresh.spa fresh.aa (replicate 32 2) (replicate 32 1)
    ≡ derive_ptk (zeros 64) fresh.pmk fresh.aa fresh.spa (replicate 32 1) (replicate 32 2)
derive_ptk_comm_example =
    derive_ptk_comm (zeros 64) fresh.pmk fresh.aa fresh.spa (replicate 32 1) (replicate 32 2) refl
      refl

on_frame-m3_overflow_example :
    (m3 : List ℕ) × (m3_frame 2 keyed.ptk 1 keyed.anonce (zeros 520) ≡ ok m3)
    × (on_frame (zeros 64) (true, zeros 32) 256 (m3 ++ []) keyed ≡ faulted)
on_frame-m3_overflow_example =
    on_frame-m3_overflow keyed keyed-IsKeyed 2 1 (zeros 520) (omega arith) (omega arith)
      (omega arith) (zeros-Bytes 520) refl (omega arith) (omega arith) (omega arith) (zeros 64)
      (true, zeros 32) 256 []

handshake_lem_example :
    (ptk : Ptk) × (m2 : List ℕ) × (m3 : List ℕ) × (m4 : List ℕ) × (s1 : Supplicant)
    × (s2 : Supplicant) × (on_frame
          (zeros 64)
          (true, replicate 32 0x2b)
          256
          (m1_frame 2 1 (replicate 32 0x1a))
          fresh
        ≡ returned (m2, s1))
    × (derive_ptk (zeros 64) fresh.pmk fresh.spa fresh.aa (replicate 32 0x2b) (replicate 32 0x1a)
        ≡ ok ptk)
    × (m3_frame 2 ptk 2 (replicate 32 0x1a) (key_data_bytes one_key ++ []) ≡ ok m3)
    × (on_frame (zeros 64) (true, zeros 32) 256 m3 s1 ≡ returned (m4, s2))
    × (s2.ptk ≡ ptk)
    × (s2.group ≡ install_all one_key fresh.group)
    × (s2.complete ≡ true)
unfolding key_data_bytes element_bytes install_all install
handshake_lem_example =
    handshake_lem fresh fresh-IsConfigured 1 (replicate 32 0x1a) (replicate 32 0x2b) (omega arith)
      (refl, All-replicate (λ b. b < 256) 32 0x1a (omega arith))
      (refl, All-replicate (λ b. b < 256) 32 0x2b (omega arith)) (zeros 64) (zeros 64)
      (true, zeros 32) 256 2 2 one_key [] refl refl (omega arith) (omega arith) (omega arith)
      (omega arith) (omega arith, tt) (omega arith) (omega arith) (ground arith) refl (omega arith)
      (omega arith)
