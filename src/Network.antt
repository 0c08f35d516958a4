-- ===== src/Network.antt =====
-- utils/network.go: questions about a request, and a JSON response.
use orcacommon.Common.{
  ℕ, ◌==◌, ◌||◌, if◌then◌else◌, Bool, true, false, Option, none, some, [], ◌∷◌, ◌++◌, reverse,
  is_empty,
}
use orcacommon.Common.Text.{Text, codes, text_eq}
use orcacommon.Common.Http.{Request, Writer, header_get, set_header, write_header, write}
use orcacommon.EphemeralAuth.ClientIp.{split_host}

unfoldable pub trim_brackets_left : Text → Text
trim_brackets_left [] = []
trim_brackets_left (c ∷ s) = if (c == b'[') || (c == b']') then trim_brackets_left s else c ∷ s

-- `strings.Trim(s, "[]")`.
unfoldable pub trim_brackets : Text → Text
trim_brackets s = reverse (trim_brackets_left (reverse (trim_brackets_left s)))

-- The host of the peer, without brackets.
unfoldable pub peer_host : Text → Text
peer_host remote_addr = elim (split_host remote_addr) [
  | none ↦ trim_brackets remote_addr
  | some host ↦ trim_brackets host
]

-- `IsFromLocalhost`.
unfoldable pub is_from_localhost : Request → Bool
is_from_localhost r =
    let host = peer_host r.remote_addr in
    text_eq host (codes "127.0.0.1") || text_eq host (codes "::1")

-- `RequestHost`; `host` is the Host of the request.
unfoldable pub request_host : Text → Request → Text
request_host host r =
    let forwarded = header_get "X-Forwarded-Host" r.header in
    if is_empty forwarded then host else forwarded

-- `WriteJSONResponse`: the value is what the encoder makes of it, none for an error, after which
-- nothing is written.
unfoldable pub write_json_response : ℕ → Option Text → Writer → Bool × Writer
write_json_response status encoded w =
    let v = write_header status (set_header "Content-Type" (codes "application/json") w) in
    elim encoded [ none ↦ (false, v) | some text ↦ (true, write (text ++ 10 ∷ []) v) ]
