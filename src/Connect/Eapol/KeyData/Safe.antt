-- ===== src/Connect/Eapol/KeyData/Safe.antt =====
-- Parsing key data from any bytes: it returns, and stays inside the array for the group key.
use re_pico.Base.{
  ℕ, zero, suc, ◌+◌, ◌≤◌, ◌<◌, ◌≡◌, List, not, leb, leb→le, ◌==◌, drop, length, length-drop,
  length-append, arith, Bool-cases, inl, inr,
}
use re_pico.Base.Run.{copy_to-ok}
use re_pico.Base.Outcome.{
  Ends, returns, Ends-bind, Ends-if, ensure-Ends, read_span-Ends, read_u8-Ends,
}
use re_pico.Connect.Eapol.KeyData.{
  GroupKeys, gtk_max, gtk_kde, igtk_kde, by_kind, vendor_element, key_data_loop, parse_key_data,
  same_bytes, rsn_oui, kde_gtk, kde_igtk, vendor_specific,
}

-- The key fits its array of 32 bytes.
pub record IsGroup (g : GroupKeys) : Type 0 where
  pub room : length g.gtk.key ≡ 32
  pub fits : g.gtk.len ≤ 32

gtk_kde-Ends :
    (body : List ℕ) (out : GroupKeys) → IsGroup out → Ends IsGroup IsGroup (gtk_kde body out)
unfolding gtk_kde
gtk_kde-Ends body out h = Ends-bind (read_u8-Ends body out h) (λ p _.
    Ends-bind (read_span-Ends 1 p.1 out h) (λ q _.
      Ends-bind (ensure-Ends (leb (length q.1) gtk_max) _ (record { room = h.room; fits = h.fits }))
        (λ _ e.
          rw (copy_to-ok out.gtk.key 0 q.1 (omega (arith, h.room, leb→le (length q.1) gtk_max e))) (
            returns (record {
              room = omega (
                arith,
                length-append q.1 (drop (0 + length q.1) out.gtk.key),
                length-drop (0 + length q.1) out.gtk.key,
                h.room,
                leb→le (length q.1) gtk_max e,
              );
              fits = omega (arith, leb→le (length q.1) gtk_max e);
            })))))

igtk_kde-Ends :
    (body : List ℕ) (out : GroupKeys) → IsGroup out → Ends IsGroup IsGroup (igtk_kde body out)
unfolding igtk_kde
igtk_kde-Ends body out h = Ends-bind (read_span-Ends 2 body out h) (λ p _.
    Ends-bind (read_span-Ends 6 p.1 out h) (λ q _.
      Ends-bind (read_span-Ends 16 q.1 out h)
        (λ k _. returns (record { room = h.room; fits = h.fits }))))

by_kind-Ends :
    (kind : ℕ) (r : List ℕ) (out : GroupKeys)
    → IsGroup out
    → Ends IsGroup IsGroup (by_kind kind r out)
by_kind-Ends kind r out h =
    Ends-if {b = kind == kde_gtk} (λ _. gtk_kde-Ends r out h)
      (λ _. Ends-if {b = kind == kde_igtk} (λ _. igtk_kde-Ends r out h) (λ _. returns h))

vendor_element-Ends :
    (body : List ℕ) (out : GroupKeys) → IsGroup out → Ends IsGroup IsGroup (vendor_element body out)
unfolding vendor_element
vendor_element-Ends body out h = Ends-bind (read_span-Ends 3 body out h) (λ p _.
    elim (Bool-cases (same_bytes p.0 rsn_oui)) [
      | inl e ↦ rw e (Ends-bind (read_u8-Ends p.1 out h) (λ q _. by_kind-Ends q.0 q.1 out h))
      | inr e ↦ rw e (returns h)
    ])

shorter :
    (r r1 r2 rest : List ℕ) (len fuel : ℕ)
    → r1 ≡ drop 1 r
    → r2 ≡ drop 1 r1
    → rest ≡ drop len r2
    → 2 ≤ length r
    → length r < suc fuel
    → length rest < fuel
shorter r r1 r2 rest len fuel e1 e2 e h k =
    rw (e, e2, e1)
      (omega
        (arith, length-drop len (drop 1 (drop 1 r)), length-drop 1 (drop 1 r), length-drop 1 r))

key_data_loop-Ends :
    (fuel : ℕ) (r : List ℕ) (out : GroupKeys)
    → length r < fuel
    → IsGroup out
    → Ends IsGroup IsGroup (key_data_loop fuel r out)
unfolding key_data_loop
key_data_loop-Ends zero r out k h = absurd (omega arith)
key_data_loop-Ends (suc fuel) r out k h = elim (Bool-cases (leb 2 (length r))) [
  | inr e ↦ rw (e, key_data_loop) (returns h)
  | inl e ↦
      rw (e, key_data_loop)
        (Ends-bind (read_u8-Ends r out h) (λ p hp. Ends-bind (read_u8-Ends p.1 out h) (λ q hq.
          Ends-bind (read_span-Ends q.0 q.1 out h) (λ b hb.
            Ends-bind
              (Ends-if {b = p.0 == vendor_specific} (λ _. vendor_element-Ends b.0 out h)
                (λ _. returns h))
              (λ out' h'.
                key_data_loop-Ends fuel b.1 out'
                  (shorter r p.1 q.1 b.1 q.0 fuel hp.2 hq.2 hb.2 (leb→le 2 (length r) e) k) h')))))
]

-- Key data of any length is parsed to the end or refused, within the rounds given, and either way
-- the group key is at most 32 bytes long and its array keeps its size; nothing is written outside
-- of it.
pub parse_key_data-Ends :
    (kd : List ℕ) (out : GroupKeys) → IsGroup out → Ends IsGroup IsGroup (parse_key_data kd out)
unfolding parse_key_data
parse_key_data-Ends kd out h =
    Ends-bind (key_data_loop-Ends (length kd + 1) kd out (omega arith) h)
      (λ out' h'. Ends-bind (ensure-Ends (not (out'.gtk.len == 0)) out' h') (λ _ _. returns h'))
