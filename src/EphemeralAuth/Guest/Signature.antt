-- ===== src/EphemeralAuth/Guest/Signature.antt =====
-- Which cookies verify.
use orcacommon.Common.{◌≡◌, refl, false, some, ◌∷◌, ◌++◌, ◌↔◌, arith, All, >>=-eq-some}
use orcacommon.Common.Text.{Text, cut, has_byte}
use orcacommon.Common.Text.Laws.{cut-append, cut_sound, text_eq_sound, text_eq_refl}
use orcacommon.EphemeralAuth.Base64.{encode, decode}
use orcacommon.EphemeralAuth.Base64.RoundTrip.{IsByte, decode-encode, has_dot-encode}
use orcacommon.EphemeralAuth.External.{Hash, IsHash}
use orcacommon.EphemeralAuth.Guest.{sign_guest_cookie, verify_guest_cookie}

-- A cookie that was made for an id verifies under the same key, and gives the id's encoding.
pub verify-sign_guest_cookie :
    (h : Hash) (id key : Text)
    → IsHash h
    → All IsByte id
    → verify_guest_cookie h (sign_guest_cookie h id key) key ≡ some (encode id)
unfolding verify_guest_cookie sign_guest_cookie
verify-sign_guest_cookie h id key w b = rw (
  cut-append b'.' (encode id) (encode (h.hmac key id)) (has_dot-encode id),
  decode-encode id b,
  decode-encode (h.hmac key id) (w.hmac_bytes key id),
  text_eq_refl (h.hmac key id),
)

verify_guest_cookie_sound :
    (h : Hash) (value key s : Text)
    → verify_guest_cookie h value key ≡ some s
    → (id mac_part : Text) × (value ≡ s ++ b'.' ∷ mac_part)
      × (has_byte b'.' s ≡ false)
      × (decode s ≡ some id)
      × (decode mac_part ≡ some (h.hmac key id))
unfolding verify_guest_cookie
verify_guest_cookie_sound h value key s e =
    let ((a, b), cuts, e1) = >>=-eq-some (cut b'.' value) _ e in
    let (id, decodes, e2) = >>=-eq-some (decode a) _ e1 in
    let (mac, mac_decodes, e3) = >>=-eq-some (decode b) _ e2 in
    let (whole, no_dot) = cut_sound b'.' value a b cuts in
    let same : a ≡ s = ground arith in
    let valid : mac ≡ h.hmac key id = ground (arith, text_eq_sound mac (h.hmac key id)) in
    (id, b, cc, cc, cc, cc)

-- A cookie verifies exactly if it is an encoding of some id, a dot, and an encoding of the HMAC of
-- that id; the session id is the text before the dot.
pub verify_guest_cookie_iff :
    (h : Hash) (value key s : Text)
    → (verify_guest_cookie h value key ≡ some s) ↔ (
        (id mac_part : Text) × (value ≡ s ++ b'.' ∷ mac_part)
        × (has_byte b'.' s ≡ false)
        × (decode s ≡ some id)
        × (decode mac_part ≡ some (h.hmac key id)))
unfolding verify_guest_cookie
verify_guest_cookie_iff h value key s = (
  verify_guest_cookie_sound h value key s,
  λ (id, mac_part, whole, no_dot, decodes, mac).
      rw
        (
          whole,
          verify_guest_cookie,
          cut-append b'.' s mac_part no_dot,
          decodes,
          mac,
          text_eq_refl (h.hmac key id),
        )
        refl,
)
