-- ===== src/EphemeralAuth/Guest/Session.antt =====
-- The guest middleware: a visitor keeps one session.
use orcacommon.Common.{
  ◌≡◌, refl, ℕ, ◌++◌, ◌∷◌, true, false, sym, subst, ◌↔◌, Option, none, some, All, ◌⊎◌, inl, inr,
  Option-cases, ◌∙◌,
}
use orcacommon.Common.Text.{Text, has_byte}
use orcacommon.Common.Http.{Cookie, Request, Writer, Handler, lookup, set_cookie, http_error}
use orcacommon.EphemeralAuth.Base64.{encode, decode}
use orcacommon.EphemeralAuth.Base64.RoundTrip.{IsByte}
use orcacommon.EphemeralAuth.External.{Hash, IsHash}
use orcacommon.EphemeralAuth.Guest.{
  guest_cookie_name, sign_guest_cookie, verify_guest_cookie, guest_session_id_with_key,
  guest_cookie, guest_session,
}
use orcacommon.EphemeralAuth.Guest.Signature.{verify_guest_cookie_iff, verify-sign_guest_cookie}

-- A request that carries the value of a guest cookie has the session that the value stands for.
session_of_cookie :
    (h : Hash) (r : Request) (key value : Text)
    → lookup guest_cookie_name r.cookies ≡ some value
    → guest_session_id_with_key h r key ≡ verify_guest_cookie h value key
unfolding guest_session_id_with_key
session_of_cookie h r key value e = rw (e, guest_session_id_with_key) refl

-- A request that brings the cookie of an id back has the session of the id, whatever else it holds,
-- and passes the middleware with no new cookie.
pub guest_session_returns :
    {S : Type 0} (h : Hash) (key id : Text) (random : Option Text) (next : Handler S) (r : Request)
    (w : Writer) (s : S)
    → IsHash h
    → All IsByte id
    → lookup guest_cookie_name r.cookies ≡ some (sign_guest_cookie h id key)
    → (guest_session_id_with_key h r key ≡ some (encode id))
      × (guest_session h key random next r (w, s) ≡ next r (w, s))
unfolding guest_session
guest_session_returns h key id random next r w s hash bytes sent =
    let known : guest_session_id_with_key h r key ≡ some (encode id) =
      session_of_cookie h r key _ sent ∙ verify-sign_guest_cookie h id key hash bytes in
    (known, rw (known, guest_session) refl)

abbrev SignedParts : Hash → Text → Text → Text → Type 0
SignedParts h key sid value =
    (id mac_part : Text) × (value ≡ sid ++ b'.' ∷ mac_part)
    × (has_byte b'.' sid ≡ false)
    × (decode sid ≡ some id)
    × (decode mac_part ≡ some (h.hmac key id))

-- A request with the session `sid`: its guest cookie is the encoded id, a dot, and the encoded HMAC
-- of the id.
abbrev pub HasSession : Hash → Text → Request → Text → Type 0
HasSession h key r sid =
    (value : Text) × (lookup "guest_session" r.cookies ≡ some value) × SignedParts h key sid value

-- A cookie that scripts do not see and that is sent over TLS to the own site only.
abbrev pub IsProtected : Cookie → Type 0
IsProtected c =
    (c.name ≡ "guest_session")
    × (c.path ≡ "/")
    × (c.same_site_strict ≡ true)
    × (c.http_only ≡ true)
    × (c.secure ≡ true)

-- Whoever brings the cookie back has the session `sid`, and no new cookie is set.
abbrev pub Returns : Hash → Text → Cookie → Text → Type 0
Returns h key c sid =
    (r : Request)
    → lookup "guest_session" r.cookies ≡ some c.value
    → HasSession h key r sid
      × ((random : Option Text) (w : Writer) (s : ℕ) (next : Handler ℕ)
          → guest_session h key random next r (w, s) ≡ next r (w, s))

session-HasSession :
    (h : Hash) (key : Text) (r : Request) (sid : Text)
    → (guest_session_id_with_key h r key ≡ some sid) ↔ HasSession h key r sid
unfolding guest_session_id_with_key
session-HasSession h key r sid = elim (Option-cases (lookup "guest_session" r.cookies)) [
  | inl e ↦
      ((λ p. absurd (cc (rw (e, guest_session_id_with_key) at p))), λ (v, l, _). absurd (cc (e, l)))
  | inr (value, e) ↦
      let known = session_of_cookie h r key value e in
      let (to, back) = verify_guest_cookie_iff h value key sid in
      (
        λ p. (value, e, to (sym known ∙ p)),
        λ (v, l, parts).
            let same : v ≡ value = cc (e, l) in
            known ∙ back (subst (SignedParts h key sid) same parts),
      )
]

set_cookie-Returns :
    (h : Hash) (key id : Text)
    → IsHash h
    → All IsByte id
    → Returns h key (guest_cookie (sign_guest_cookie h id key)) (encode id)
set_cookie-Returns h key id hash bytes r sent = (
  (session-HasSession h key r (encode id)).0
      (session_of_cookie h r key _ sent ∙ verify-sign_guest_cookie h id key hash bytes),
  λ random w s next. (guest_session_returns h key id random next r w s hash bytes sent).1,
)

-- What the middleware does, by whether the request has a session.
abbrev pub Handled :
    {S : Type 0} → Hash → Text → Option Text → Handler S → Request → Writer → S → Type 0
Handled h key random next r w s =
    ((sid : Text) × HasSession h key r sid
      × (guest_session h key random next r (w, s) ≡ next r (w, s)))
    ⊎ (((sid : Text) → ¬ HasSession h key r sid)
        × (((random ≡ none)
              × (guest_session h key random next r (w, s)
                  ≡ (http_error "internal server error" 500 w, s)))
            ⊎ ((id : Text) × (c : Cookie) × (random ≡ some id)
                × IsProtected c
                × Returns h key c (encode id)
                × (guest_session h key random next r (w, s) ≡ next r (set_cookie c w, s)))))

-- A request with a session passes unchanged. One without is answered by 500, and changes no state,
-- if there is no randomness; else it passes with a protected cookie of a new id, and whoever brings
-- that cookie back has the session of the id and passes with no new cookie.
pub guest_session_cases :
    {S : Type 0} (h : Hash) (key : Text) (random : Option Text) (next : Handler S) (r : Request)
    (w : Writer) (s : S)
    → IsHash h
    → ((id : Text) → random ≡ some id → All IsByte id)
    → Handled h key random next r w s
unfolding guest_session
guest_session_cases h key random next r w s hash bytes =
    elim (Option-cases (guest_session_id_with_key h r key)) [
      | inr (sid, e) ↦ inl (sid, (session-HasSession h key r sid).0 e, rw (e, guest_session) refl)
      | inl e ↦ inr (
        λ sid has. absurd (cc (e, (session-HasSession h key r sid).1 has)),
        elim (Option-cases random) [
          | inl dry ↦ inl (dry, rw (e, dry, guest_session) refl)
          | inr (id, drawn) ↦ inr (
            id,
            guest_cookie (sign_guest_cookie h id key),
            drawn,
            (refl, refl, refl, refl, refl),
            set_cookie-Returns h key id hash (bytes id drawn),
            rw (e, drawn, guest_session) refl,
          )
        ],
      )
    ]
