-- ===== src/EphemeralAuth/Guest.antt =====
-- ephemeralauth/guest.go: the signed guest session cookie. The state `S` is that of the handler
-- behind the middleware; `random` is what `io.ReadFull(rand.Reader, b)` gives, `none` on an error.
pub mod Signature
pub mod Session
use orcacommon.Common.{
  ℕ, ◌≡◌, if◌then◌else◌, Bool, true, false, Option, none, some, List, [], ◌∷◌, ◌++◌, String, ◌>>=◌,
}
use orcacommon.Common.Text.{Text, cut, text_eq}
use orcacommon.Common.Http.{Request, Writer, Cookie, Handler, lookup, set_cookie, http_error}
use orcacommon.EphemeralAuth.Base64.{encode, decode}
use orcacommon.EphemeralAuth.External.{Hash}
use orcacommon.EphemeralAuth.Token.{derive_key}

abbrev pub guest_cookie_name : String
guest_cookie_name = "guest_session"

abbrev pub guest_id_length : ℕ
guest_id_length = 16

abbrev pub guest_cookie : Text → Cookie
guest_cookie value = record {
  name = guest_cookie_name;
  value = value;
  path = "/";
  same_site_strict = true;
  http_only = true;
  secure = true;
}

module _ (h : Hash) where
  -- `signGuestCookie`.
  unfoldable pub sign_guest_cookie : Text → Text → Text
  sign_guest_cookie id key = encode id ++ b'.' ∷ encode (h.hmac key id)

  -- `verifyGuestCookie`: the session id as it stands in the cookie.
  unfoldable pub verify_guest_cookie : Text → Text → Option Text
  verify_guest_cookie value key = do
    (id_part, mac_part) ← cut b'.' value
    id ← decode id_part
    mac ← decode mac_part
    if text_eq mac (h.hmac key id) then some id_part else none

  -- `guestSessionIDWithKey`: `r.Cookie` gives the first cookie of the name.
  unfoldable pub guest_session_id_with_key : Request → Text → Option Text
  guest_session_id_with_key r key = do
    value ← lookup guest_cookie_name r.cookies
    verify_guest_cookie value key

  -- `GuestSessionID`, on a key that is not empty.
  unfoldable pub guest_session_id : Request → Text → Option Text
  guest_session_id r raw = do key ← derive_key h raw; guest_session_id_with_key r key

  -- The handler that `GuestSession` makes, with the derived key.
  unfoldable pub guest_session : {S : Type 0} → Text → Option Text → Handler S → Handler S
  guest_session key random next r (w, s) = elim (guest_session_id_with_key r key) [
    | some _ ↦ next r (w, s)
    | none ↦ elim random [
      | none ↦ (http_error "internal server error" 500 w, s)
      | some id ↦ next r (set_cookie (guest_cookie (sign_guest_cookie id key)) w, s)
    ]
  ]
