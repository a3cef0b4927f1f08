-- ===== src/Connect/Eapol/KeyData/Parsed.antt =====
-- What `parse_key_data` makes of the elements that an authenticator writes, and of the bytes that
-- fill them up to a multiple of eight.
use re_pico.Base.{
  ℕ, zero, suc, ◌+◌, ◌≤◌, ◌<◌, ◌≡◌, ◌≢◌, refl, List, [], ◌∷◌, ◌++◌, lt→leb, length, length-append,
  arith, replicate,
}
use re_pico.Base.Outcome.{returned, refused}
use re_pico.Connect.Eapol.KeyData.{GroupKeys, key_data_loop, vendor_element, parse_key_data}
use re_pico.Connect.Eapol.KeyData.Safe.{IsGroup}
use re_pico.Connect.Eapol.KeyData.Elements.{
  Element, key_data_bytes, AreElements, install_all, loop_step, loop_elements,
}

too_short :
    (fuel : ℕ) (pad : List ℕ) (out : GroupKeys)
    → length pad ≤ 1
    → length pad < fuel
    → key_data_loop fuel pad out ≡ returned out
unfolding key_data_loop
too_short zero pad out h k = absurd (omega arith)
too_short (suc fuel) pad out h k = rw (key_data_loop, lt→leb 2 (length pad) (omega arith)) refl

module _ (es : List Element) (out : GroupKeys) (h : AreElements es) (g : IsGroup out) where
  -- A list of elements, group keys of at most 32 bytes and keys for management frames among elements
  -- of other types, of other vendors and of other kinds in any order, is parsed to the group keys that
  -- it holds, later keys in the place of earlier ones, where there is a group key at the end; all
  -- other elements are passed over, and so is one byte behind them.
  pub parse_key_data-key_data_bytes :
      (pad : List ℕ)
      → length pad ≤ 1
      → (install_all es out).gtk.len ≢ 0
      → parse_key_data (key_data_bytes es ++ pad) out ≡ returned (install_all es out)
  unfolding parse_key_data
  parse_key_data-key_data_bytes pad hp hl =
      let found =
        loop_elements es (length (key_data_bytes es ++ pad) + 1) pad out h g
          (omega (arith, length-append (key_data_bytes es) pad)) in
      rw (found.2, too_short found.0 pad (install_all es out) hp found.1) (ground (arith, hl))

  empty_vendor_element :
      (fuel : ℕ) (rest : List ℕ) (o : GroupKeys)
      → key_data_loop (suc fuel) (221 ∷ 0 ∷ rest) o ≡ refused o
  unfolding vendor_element
  empty_vendor_element fuel rest o = loop_step fuel 221 [] rest o

  refused_by_padding :
      (fuel : ℕ) (rest : List ℕ) (o : GroupKeys)
      → 0 < fuel
      → key_data_loop fuel (221 ∷ 0 ∷ rest) o ≡ refused o
  refused_by_padding zero rest o k = absurd (omega arith)
  refused_by_padding (suc fuel) rest o k = empty_vendor_element fuel rest o

  -- The padding of IEEE 802.11, 12.7.2, the byte 0xdd and then zeros, makes the parsing fail from
  -- two bytes on, whatever the elements in front of it, the group key among them.
  pub parse_key_data-padding :
      (n : ℕ)
      → parse_key_data (key_data_bytes es ++ 221 ∷ 0 ∷ replicate n 0) out
        ≡ refused (install_all es out)
  unfolding parse_key_data
  parse_key_data-padding n =
      let pad : List ℕ = 221 ∷ 0 ∷ replicate n 0 in
      let found =
        loop_elements es (length (key_data_bytes es ++ pad) + 1) pad out h g
          (omega (arith, length-append (key_data_bytes es) pad)) in
      rw
        (
          found.2,
          refused_by_padding found.0 (replicate n 0) (install_all es out) (omega (arith, found.1)),
        )
        refl
