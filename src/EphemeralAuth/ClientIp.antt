-- ===== src/EphemeralAuth/ClientIp.antt =====
-- ephemeralauth/issuance.go: `clientIP`, with `net.SplitHostPort` of the standard library.
pub mod Laws
use orcacommon.Common.{
  ℕ, ◌≡◌, ◌==◌, if◌then◌else◌, Bool, true, false, ◌||◌, Option, none, some, List, [], ◌∷◌, ◌++◌,
  is_empty,
}
use orcacommon.Common.Text.{Text, codes, cut, cut_last, has_byte, trim_space}
use orcacommon.Common.Http.{Request, header_get}

-- A host in brackets: the first `]` stands just before the last colon.
bracketed : Text → Text → Option Text
bracketed inside port = elim (cut b']' inside) [
  | none ↦ none
  | some (host, rest) ↦
      if is_empty rest
      then if has_byte b'[' host || has_byte b'[' port || has_byte b']' port
        then none
        else some host
      else none
]

plain : Text → Text → Option Text
plain host port =
    if has_byte b':' host
      || has_byte b'[' host
      || has_byte b']' host
      || has_byte b'[' port
      || has_byte b']' port
    then none
    else some host

-- `net.SplitHostPort`, its host; `none` is an error.
unfoldable pub split_host : Text → Option Text
unfolding plain bracketed
split_host s = elim (cut_last b':' s) [
  | none ↦ none
  | some ([], port) ↦ plain [] port
  | some (c ∷ host, port) ↦ if c == b'[' then bracketed host port else plain (c ∷ host) port
]

-- The address of the peer.
unfoldable pub remote_ip : Text → Text
remote_ip remote_addr = elim (split_host remote_addr) [
  | none ↦ remote_addr
  | some host ↦ if is_empty host then codes "unknown" else host
]

-- The first entry of X-Forwarded-For.
unfoldable pub first_forwarded : Text → Text
first_forwarded xff = elim (cut b',' xff) [
  | none ↦ trim_space xff
  | some (first, _) ↦ trim_space first
]

-- `clientIP`.
unfoldable pub client_ip : Request → Bool → Text
client_ip r trust_proxy =
    let xff = header_get "X-Forwarded-For" r.header in
    if trust_proxy
    then if is_empty xff then remote_ip r.remote_addr else first_forwarded xff
    else remote_ip r.remote_addr
