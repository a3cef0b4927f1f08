-- ===== src/Connect/Eapol/Supplicant/Safe.antt =====
-- What holds of a supplicant over every frame, and that no frame whose key data fits its array
-- makes it read or write outside of one.
use re_pico.Base.{ℕ, ◌^◌, ◌≤◌, ◌<◌, ◌≡◌, List, length}
use re_pico.Base.Bytes.{Bytes}
use re_pico.Base.Outcome.{Outcome}
use re_pico.Connect.Eapol.Frame.{Header, KeyPacket}
use re_pico.Connect.Eapol.KeyData.Safe.{IsGroup}
use re_pico.Connect.Eapol.Ptk.{Ptk}
use re_pico.Connect.Eapol.Supplicant.{Supplicant}

-- What is set before the first frame.
pub record IsConfigured (s : Supplicant) : Type 0 where
  pub pmk : length s.pmk < 2 ^ 60
  pub aa : length s.aa ≡ 6
  pub spa : length s.spa ≡ 6
  pub rsn_ie : Bytes s.rsn_ie
  pub short : length s.rsn_ie < 2 ^ 16
  pub group : IsGroup s.group

-- And the key for the codes, which is bytes before it is derived too.
pub record IsSupplicant (s : Supplicant) : Type 0 where
  pub configured : IsConfigured s
  pub kck : Bytes s.ptk.kck

-- The fields of received bytes.
pub record IsReceived (header : Header) (kp : KeyPacket) : Type 0 where
  pub version : header.version < 256
  pub replay : kp.replay < 2 ^ 64
  pub nonce : length kp.nonce ≤ 32

abbrev Fine : List ℕ × Supplicant → Type 0
Fine r = IsSupplicant r.1
