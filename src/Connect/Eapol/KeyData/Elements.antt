-- ===== src/Connect/Eapol/KeyData/Elements.antt =====
-- Key data as the list of its elements, the way an authenticator writes it (IEEE 802.11, 12.7.2).
use re_pico.Base.{
  ℕ, zero, suc, ◌+◌, ◌*◌, ◌/◌, ◌≤◌, ◌<◌, ◌≡◌, ◌≢◌, refl, ◌∙◌, List, [], ◌∷◌, ◌++◌, some, Bool, true,
  false, le→leb, ◌==◌, drop, length, length-append, length-drop, u8, bit_and, arith, append_assoc,
  if◌then◌else◌,
}
use re_pico.Base.Run.{copy_to-ok}
use re_pico.Base.Slices.{take_all}
use re_pico.Base.Outcome.{
  Outcome, returned, ◌>>=◌, read_span-returned, read_u8_cons, read_span-append,
}
use re_pico.Connect.Eapol.KeyData.{
  GroupKeys, gtk_kde, igtk_kde, vendor_element, key_data_loop, vendor_specific, same_bytes, rsn_oui,
}
use re_pico.Connect.Eapol.KeyData.Safe.{IsGroup}

-- A group key, a key for management frames with its packet number, a key data element of another
-- type, an element of a vendor, or any element of another kind.
pub data Element : Type 0 where
  gtk_element : ℕ → List ℕ → Element
  igtk_element : ℕ → List ℕ → List ℕ → Element
  kde_element : ℕ → List ℕ → Element
  vendors_element : List ℕ → List ℕ → Element
  other_element : ℕ → List ℕ → Element

abbrev pub body_of : Element → List ℕ
body_of (gtk_element id key) = 0x00 ∷ 0x0f ∷ 0xac ∷ 1 ∷ id ∷ 0 ∷ key
body_of (igtk_element id ipn key) = 0x00 ∷ 0x0f ∷ 0xac ∷ 9 ∷ u8 id ∷ u8 (id / 256) ∷ (ipn ++ key)
body_of (kde_element kind body) = 0x00 ∷ 0x0f ∷ 0xac ∷ kind ∷ body
body_of (vendors_element oui body) = oui ++ body
body_of (other_element id body) = body

abbrev pub id_of : Element → ℕ
id_of (gtk_element id key) = 221
id_of (igtk_element id ipn key) = 221
id_of (kde_element kind body) = 221
id_of (vendors_element oui body) = 221
id_of (other_element id body) = id

unfoldable pub element_bytes : Element → List ℕ
element_bytes e = id_of e ∷ length (body_of e) ∷ body_of e

unfoldable pub key_data_bytes : List Element → List ℕ
key_data_bytes [] = []
key_data_bytes (e ∷ es) = element_bytes e ++ key_data_bytes es

abbrev pub IsElement : Element → Type 0
IsElement (gtk_element id key) = length key ≤ 32
IsElement (igtk_element id ipn key) = (id < 65536) × (length ipn ≡ 6) × (length key ≡ 16)
IsElement (kde_element kind body) = (kind ≢ 1) × (kind ≢ 9)
IsElement (vendors_element oui body) = (length oui ≡ 3) × (same_bytes oui rsn_oui ≡ false)
IsElement (other_element id body) = id ≢ 221

abbrev pub AreElements : List Element → Type 0
AreElements [] = Unit
AreElements (e ∷ es) = IsElement e × AreElements es

-- The group keys with an element's key in its place.
unfoldable pub install : Element → GroupKeys → GroupKeys
install (gtk_element id key) out = record out {
  gtk = record {
    key = key ++ drop (length key) out.gtk.key;
    len = length key;
    key_id = bit_and id 3;
  };
}
install (igtk_element id ipn key) out = record out {
  igtk = some (record { key = key; ipn = ipn; key_id = id });
}
install (kde_element kind body) out = out
install (vendors_element oui body) out = out
install (other_element id body) out = out

unfoldable pub install_all : List Element → GroupKeys → GroupKeys
install_all [] out = out
install_all (e ∷ es) out = install_all es (install e out)

install-IsGroup :
    (e : Element) (out : GroupKeys) → IsElement e → IsGroup out → IsGroup (install e out)
unfolding install
install-IsGroup (gtk_element id key) out h g = record {
  room = omega (
    arith,
    length-append key (drop (length key) out.gtk.key),
    length-drop (length key) out.gtk.key,
    g.room,
  );
  fits = h;
}
install-IsGroup (igtk_element id ipn key) out h g = record { room = g.room; fits = g.fits }
install-IsGroup (kde_element kind body) out h g = g
install-IsGroup (vendors_element oui body) out h g = g
install-IsGroup (other_element id body) out h g = g

gtk_installed :
    (id : ℕ) (key : List ℕ) (out : GroupKeys)
    → length key ≤ 32
    → IsGroup out
    → vendor_element (body_of (gtk_element id key)) out
      ≡ returned (install (gtk_element id key) out)
unfolding vendor_element gtk_kde install
gtk_installed id key out h g =
    let start : 0 + length key ≡ length key = omega arith in
    let fits : u8 (length key) ≡ length key = omega arith in
    rw
      (
        read_span-append out 3 (0x00 ∷ 0x0f ∷ 0xac ∷ []) (1 ∷ id ∷ 0 ∷ key) refl,
        read_u8_cons out 1 (id ∷ 0 ∷ key),
        read_u8_cons out id (0 ∷ key),
        read_span-append out 1 (0 ∷ []) key refl,
        le→leb (length key) 32 h,
        copy_to-ok out.gtk.key 0 key (omega (arith, g.room)),
        start,
        fits,
      )
      refl

igtk_installed :
    (id : ℕ) (ipn key : List ℕ) (out : GroupKeys)
    → IsElement (igtk_element id ipn key)
    → vendor_element (body_of (igtk_element id ipn key)) out
      ≡ returned (install (igtk_element id ipn key) out)
unfolding vendor_element igtk_kde install
igtk_installed id ipn key out h =
    let number : u8 id + u8 (id / 256) * 256 ≡ id = omega (arith, h.0) in
    rw
      (
        read_span-append out 3 (0x00 ∷ 0x0f ∷ 0xac ∷ []) (9 ∷ u8 id ∷ u8 (id / 256) ∷ (ipn ++ key))
            refl,
        read_u8_cons out 9 (u8 id ∷ u8 (id / 256) ∷ (ipn ++ key)),
        read_span-append out 2 (u8 id ∷ u8 (id / 256) ∷ []) (ipn ++ key) refl,
        read_span-append out 6 ipn key h.1,
        read_span-returned 16 key out (omega (arith, h.2)),
        take_all 16 key (omega (arith, h.2)),
        number,
      )
      refl

-- The other types, and the elements of vendors, are passed over.
kde_skipped :
    (kind : ℕ) (body : List ℕ) (out : GroupKeys)
    → IsElement (kde_element kind body)
    → vendor_element (body_of (kde_element kind body)) out ≡ returned out
unfolding vendor_element
kde_skipped kind body out h =
    rw
      (
        read_span-append out 3 (0x00 ∷ 0x0f ∷ 0xac ∷ []) (kind ∷ body) refl,
        read_u8_cons out kind body,
      )
      (ground (arith, h))

not_taken :
    {m : Outcome GroupKeys GroupKeys} (n : Outcome GroupKeys GroupKeys) (b : Bool)
    → b ≡ false
    → elim b [ false ↦ m | true ↦ n ] ≡ m
not_taken n false e = refl
not_taken n true e = cc

vendors_skipped :
    (oui body : List ℕ) (out : GroupKeys)
    → IsElement (vendors_element oui body)
    → vendor_element (body_of (vendors_element oui body)) out ≡ returned out
unfolding vendor_element
vendors_skipped oui body out h =
    rw (read_span-append out 3 oui body h.0) (not_taken _ (same_bytes oui rsn_oui) h.1)

element_installed :
    (e : Element) (out : GroupKeys)
    → IsElement e
    → IsGroup out
    → (if id_of e == vendor_specific then vendor_element (body_of e) out else returned out)
      ≡ returned (install e out)
unfolding install
element_installed (gtk_element id key) out h g = gtk_installed id key out h g
element_installed (igtk_element id ipn key) out h g = igtk_installed id ipn key out h
element_installed (kde_element kind body) out h g = kde_skipped kind body out h
element_installed (vendors_element oui body) out h g = vendors_skipped oui body out h
element_installed (other_element id body) out h g = ground (arith, h)

-- One round takes one element.
pub loop_step :
    (fuel : ℕ) (id : ℕ) (body rest : List ℕ) (out : GroupKeys)
    → key_data_loop (suc fuel) (id ∷ length body ∷ (body ++ rest)) out ≡ (
        (if id == vendor_specific then vendor_element body out else returned out)
        >>= key_data_loop fuel rest)
unfolding key_data_loop
loop_step fuel id body rest out =
    rw
      (
        le→leb 2 (length (id ∷ length body ∷ (body ++ rest))) (omega arith),
        key_data_loop,
        read_u8_cons out id (length body ∷ (body ++ rest)),
        read_u8_cons out (length body) (body ++ rest),
        read_span-append out (length body) body rest refl,
      )
      refl

elements_step :
    (e : Element) (es : List Element) (fuel : ℕ) (pad : List ℕ) (out : GroupKeys)
    → IsElement e
    → IsGroup out
    → key_data_loop (suc fuel) (key_data_bytes (e ∷ es) ++ pad) out
      ≡ key_data_loop fuel (key_data_bytes es ++ pad) (install e out)
unfolding key_data_bytes element_bytes
elements_step e es fuel pad out h g =
    rw
      (
        append_assoc (body_of e) (key_data_bytes es) pad,
        loop_step fuel (id_of e) (body_of e) (key_data_bytes es ++ pad) out,
        element_installed e out h g,
      )
      refl

length-elements :
    (e : Element) (es : List Element)
    → length (key_data_bytes (e ∷ es)) ≡ 2 + length (body_of e) + length (key_data_bytes es)
unfolding key_data_bytes element_bytes
length-elements e es = omega (arith, length-append (body_of e) (key_data_bytes es))

-- The elements, and what comes of the bytes behind them.
pub loop_elements :
    (es : List Element) (fuel : ℕ) (pad : List ℕ) (out : GroupKeys)
    → AreElements es
    → IsGroup out
    → length (key_data_bytes es) + length pad < fuel
    → (rest : ℕ) × (length pad < rest)
      × (key_data_loop fuel (key_data_bytes es ++ pad) out
          ≡ key_data_loop rest pad (install_all es out))
unfolding key_data_bytes install_all
loop_elements [] fuel pad out h g k = (fuel, omega arith, refl)
loop_elements (e ∷ es) zero pad out h g k = absurd (omega arith)
loop_elements (e ∷ es) (suc fuel) pad out h g k =
    let found =
      loop_elements es fuel pad (install e out) h.1 (install-IsGroup e out h.0 g)
        (omega (arith, k, length-elements e es)) in
    (found.0, found.1, elements_step e es fuel pad out h.0 g ∙ found.2)
