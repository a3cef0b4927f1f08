-- ===== src/Connect/Eapol/KeyData.antt =====
-- `parse_key_data` of submodules/re-connect/src/connect/eapol.cpp, and the group keys of eapol.hpp.
-- A refusal is the return of `false`, with the group keys as far as they are written then.
pub mod Safe
pub mod Elements
pub mod Parsed
use re_pico.Base.{
  ℕ, zero, suc, ◌+◌, ◌*◌, List, [], ◌∷◌, Bool, true, false, ◌&&◌, not, Option, none, some, bit_and,
  u8, ◌==◌, leb, get_or, length, if◌then◌else◌,
}
use re_pico.Base.Run.{copy_to}
use re_pico.Base.Outcome.{
  Outcome, returned, refused, faulted, exhausted, ◌>>=◌, ensure, attempt, read_span, read_u8,
}

-- `key` is an array of 32 bytes.
pub record Gtk : Type 0 where
  pub key : List ℕ
  pub len : ℕ
  pub key_id : ℕ

pub record Igtk : Type 0 where
  pub key : List ℕ
  pub ipn : List ℕ
  pub key_id : ℕ

pub record GroupKeys : Type 0 where
  pub gtk : Gtk
  pub igtk : Option Igtk

abbrev pub gtk_max : ℕ
gtk_max = 32

abbrev pub rsn_oui : List ℕ
rsn_oui = 0x00 ∷ 0x0f ∷ 0xac ∷ []

abbrev pub vendor_specific : ℕ
vendor_specific = 221

abbrev pub kde_gtk : ℕ
kde_gtk = 1

abbrev pub kde_igtk : ℕ
kde_igtk = 9

-- `==` of two spans of bytes.
abbrev pub same_bytes : List ℕ → List ℕ → Bool
same_bytes [] [] = true
same_bytes [] (y ∷ ys) = false
same_bytes (x ∷ xs) [] = false
same_bytes (x ∷ xs) (y ∷ ys) = (x == y) && same_bytes xs ys

unfoldable pub gtk_kde : List ℕ → GroupKeys → Outcome GroupKeys GroupKeys
gtk_kde body out = do
  (id, r) ← read_u8 body out
  (reserved, rest) ← read_span 1 r out
  let named = record out { gtk = record out.gtk { key_id = bit_and id 0x03 } }
  _ ← ensure (leb (length rest) gtk_max) named
  key ← attempt (copy_to out.gtk.key 0 rest) named
  returned (record named {
    gtk = record { key = key; len = u8 (length rest); key_id = bit_and id 0x03 };
  })

unfoldable pub igtk_kde : List ℕ → GroupKeys → Outcome GroupKeys GroupKeys
igtk_kde body out = do
  (id, r) ← read_span 2 body out
  (ipn, r') ← read_span 6 r out
  (key, rest) ← read_span 16 r' out
  returned (record out {
    igtk = some (record { key = key; ipn = ipn; key_id = get_or id 0 0 + get_or id 1 0 * 256 });
  })

-- The `switch` on the type; the other types are passed over.
abbrev by_kind : ℕ → List ℕ → GroupKeys → Outcome GroupKeys GroupKeys
by_kind kind rest out =
    if kind == kde_gtk
    then gtk_kde rest out
    else (if kind == kde_igtk then igtk_kde rest out else returned out)

-- The element with `id == ie::Id::VendorSpecific`.
unfoldable pub vendor_element : List ℕ → GroupKeys → Outcome GroupKeys GroupKeys
vendor_element body out = do
  (oui, r) ← read_span 3 body out
  elim (same_bytes oui rsn_oui) [
    | false ↦ returned out
    | true ↦ do (kind, rest) ← read_u8 r out; by_kind kind rest out
  ]

unfoldable pub key_data_loop : ℕ → List ℕ → GroupKeys → Outcome GroupKeys GroupKeys
key_data_loop zero r out = exhausted
key_data_loop (suc fuel) r out = elim (leb 2 (length r)) [
  | false ↦ returned out
  | true ↦ do
    (id, r1) ← read_u8 r out
    (len, r2) ← read_u8 r1 out
    (body, rest) ← read_span len r2 out
    out' ← if id == vendor_specific then vendor_element body out else returned out
    key_data_loop fuel rest out'
]

unfoldable pub parse_key_data : List ℕ → GroupKeys → Outcome GroupKeys GroupKeys
parse_key_data kd out = do
  out' ← key_data_loop (length kd + 1) kd out
  _ ← ensure (not (out'.gtk.len == 0)) out'
  returned out'
