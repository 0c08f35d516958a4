-- ===== src/EphemeralAuth/ClientIp/Laws.antt =====
-- The address that a request is bound to.
use orcacommon.Common.{
  ◌≡◌, refl, ◌==◌, if◌then◌else◌, Bool, false, [], ◌∷◌, ◌++◌, arith, is_empty-eq-false, inl, inr,
  ◌⊎◌, ◌≢◌, Bool-cases,
}
use mathlib.Core.List.{append_assoc}
use orcacommon.Common.Text.{Text, has_byte}
use orcacommon.Common.Text.Laws.{cut-append, cut_last-append, cut_last-none, not_first}
use orcacommon.Common.Http.{Request, header_get}
use orcacommon.EphemeralAuth.ClientIp.{plain, split_host, remote_ip, client_ip, bracketed}

-- Behind a proxy, or with no forwarding header, the address is the peer's; without trust in a proxy
-- no header has any influence on it.
pub client_ip_untrusted :
    (r : Request) (trust_proxy : Bool)
    → (trust_proxy ≡ false) ⊎ (header_get "X-Forwarded-For" r.header ≡ [])
    → client_ip r trust_proxy ≡ remote_ip r.remote_addr
unfolding client_ip
client_ip_untrusted r t h = ground arith

plain_host :
    (host port : Text)
    → has_byte b'[' host ≡ false
    → has_byte b']' host ≡ false
    → has_byte b':' host ≡ false
    → has_byte b'[' port ≡ false
    → has_byte b']' port ≡ false
    → has_byte b':' port ≡ false
    → host ≢ []
    → remote_ip (host ++ b':' ∷ port) ≡ host
unfolding remote_ip split_host
plain_host [] port h1 h2 h3 p1 p2 p3 e = absurd (e refl)
plain_host (c ∷ host) port h1 h2 h3 p1 p2 p3 e =
    let first : (c == b'[') ≡ false = not_first b'[' c host h1 in
    rw
      (
        cut_last-append b':' (c ∷ host) port p3,
        remote_ip,
        split_host,
        plain,
        first,
        h1,
        h2,
        h3,
        p1,
        p2,
      )
      refl

bracketed_host :
    (host port : Text)
    → has_byte b'[' host ≡ false
    → has_byte b']' host ≡ false
    → has_byte b'[' port ≡ false
    → has_byte b']' port ≡ false
    → has_byte b':' port ≡ false
    → host ≢ []
    → remote_ip (b'[' ∷ host ++ b']' ∷ b':' ∷ port) ≡ host
unfolding remote_ip split_host
bracketed_host host port h1 h2 p1 p2 p3 e =
    rw (← append_assoc (b'[' ∷ host) (b']' ∷ []) (b':' ∷ port)) (
      rw
        (
          cut_last-append b':' (b'[' ∷ host ++ b']' ∷ []) port p3,
          remote_ip,
          split_host,
          bracketed,
          cut-append b']' host [] h2,
          h1,
          p1,
          p2,
          is_empty-eq-false host e,
        )
        refl)

-- `net.JoinHostPort`, which makes the addresses of peers: an IPv6 address stands in brackets.
unfoldable pub join_host_port : Text → Text → Text
join_host_port host port =
    if has_byte b':' host then b'[' ∷ host ++ b']' ∷ b':' ∷ port else host ++ b':' ∷ port

-- The host of a peer address is found again, with or without brackets, for every host but the empty
-- one and every port, of texts with no bracket and ports with no colon; an address with no port is
-- taken whole.
pub remote_ip-join_host_port :
    (host port : Text)
    → has_byte b'[' host ≡ false
    → has_byte b']' host ≡ false
    → has_byte b'[' port ≡ false
    → has_byte b']' port ≡ false
    → has_byte b':' port ≡ false
    → host ≢ []
    → (remote_ip (join_host_port host port) ≡ host) × (remote_ip port ≡ port)
unfolding remote_ip split_host join_host_port
remote_ip-join_host_port host port h1 h2 p1 p2 p3 e = (
  elim (Bool-cases (has_byte b':' host)) [
    | inl h3 ↦ rw (h3, join_host_port) (bracketed_host host port h1 h2 p1 p2 p3 e)
    | inr h3 ↦ rw (h3, join_host_port) (plain_host host port h1 h2 h3 p1 p2 p3 e)
  ],
  rw (cut_last-none b':' port p3, remote_ip, split_host) refl,
)
