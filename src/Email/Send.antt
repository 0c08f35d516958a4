-- ===== src/Email/Send.antt =====
-- When a message is sent, and what each error means.
use orcacommon.Common.{
  ℕ, ◌≤◌, ◌<◌, ◌≡◌, ◌≢◌, refl, true, false, Option, none, some, [], ◌⊎◌, inl, inr, ◌↔◌, is_empty,
  arith, ◌||◌, ◌&&◌, sym, ◌∙◌,
}
use orcacommon.Common.Text.{Text}
use orcacommon.Email.{
  EmailMessage, MailgunConfig, SendError, not_configured, no_recipient, no_body, no_from, not_sent,
  bad_status, ok, failed, Post, sender_of, prepare, read_response, send,
}
use orcacommon.Email.Valid.{
  IsSendable, request_of, IsReason, IsAttachmentReason-IsReason, is_empty_cases,
  check_attachments_cases,
}

-- Either the message is sendable and its request is prepared, or there is an error, which is true.
abbrev Prepared : Post → MailgunConfig → EmailMessage → Type 0
Prepared post cfg msg =
    (IsSendable cfg msg × (prepare cfg msg ≡ ok (request_of cfg msg)))
    ⊎ ((e : SendError) × (prepare cfg msg ≡ failed e)
        × IsReason post cfg msg e
        × (¬ IsSendable cfg msg))

module _ (post : Post) (cfg : MailgunConfig) (msg : EmailMessage) where
  configured_cases :
      ((is_empty cfg.endpoint || is_empty cfg.user || is_empty cfg.password ≡ true)
        × ((cfg.endpoint ≡ []) ⊎ ((cfg.user ≡ []) ⊎ (cfg.password ≡ []))))
      ⊎ ((is_empty cfg.endpoint || is_empty cfg.user || is_empty cfg.password ≡ false)
          × (cfg.endpoint ≢ [])
          × (cfg.user ≢ [])
          × (cfg.password ≢ []))
  configured_cases = elim (is_empty_cases cfg.endpoint) [
    | inl (e, h) ↦ inl (rw e refl, inl h)
    | inr (e, h) ↦ elim (is_empty_cases cfg.user) [
      | inl (f, i) ↦ inl (rw (e, f) refl, inr (inl i))
      | inr (f, i) ↦ elim (is_empty_cases cfg.password) [
        | inl (g, j) ↦ inl (rw (e, f, g) refl, inr (inr j))
        | inr (g, j) ↦ inr (rw (e, f, g) refl, h, i, j)
      ]
    ]
  ]

  body_cases :
      ((is_empty msg.text && is_empty msg.html ≡ true) × (msg.text ≡ []) × (msg.html ≡ []))
      ⊎ ((is_empty msg.text && is_empty msg.html ≡ false) × ((msg.text ≢ []) ⊎ (msg.html ≢ [])))
  body_cases = elim (is_empty_cases msg.text) [
    | inr (e, h) ↦ inr (rw e refl, inl h)
    | inl (e, h) ↦ elim (is_empty_cases msg.html) [
      | inr (f, i) ↦ inr (rw (e, f) refl, inr i)
      | inl (f, i) ↦ inl (rw (e, f) refl, h, i)
    ]
  ]

  sender_cases :
      ((is_empty (sender_of cfg msg) ≡ true) × (msg.from ≡ []) × (cfg.from ≡ []))
      ⊎ ((is_empty (sender_of cfg msg) ≡ false) × ((msg.from ≢ []) ⊎ (cfg.from ≢ [])))
  unfolding sender_of
  sender_cases = elim (is_empty_cases msg.from) [
    | inr (e, h) ↦ inr (rw (e, sender_of, e) refl, inl h)
    | inl (e, h) ↦ elim (is_empty_cases cfg.from) [
      | inr (f, i) ↦ inr (rw (e, sender_of, f) refl, inr i)
      | inl (f, i) ↦ inl (rw (e, sender_of, f) refl, h, i)
    ]
  ]

  prepare_cases : Prepared post cfg msg
  unfolding prepare
  prepare_cases = elim configured_cases [
    | inl (e, why) ↦ inr (
      not_configured,
      rw (e, prepare) refl,
      why,
      λ s. elim why [ inl h ↦ s.endpoint h | inr (inl h) ↦ s.user h | inr (inr h) ↦ s.password h ],
    )
    | inr (c, endpoint, user, password) ↦ elim (is_empty_cases msg.to) [
      | inl (e, why) ↦ inr (no_recipient, rw (c, e, prepare) refl, why, λ s. s.recipient why)
      | inr (t, recipient) ↦ elim body_cases [
        | inl (e, h, i) ↦ inr (
          no_body,
          rw (c, t, e, prepare) refl,
          (h, i),
          λ s. elim s.body [ inl n ↦ n h | inr n ↦ n i ],
        )
        | inr (b, body) ↦ elim (check_attachments_cases msg.attachments) [
          | inr (e, found, why, bad) ↦ inr (
            e,
            rw (c, t, b, found, prepare) refl,
            IsAttachmentReason-IsReason post cfg msg e why,
            λ s. bad s.attached,
          )
          | inl (a, attached) ↦ elim sender_cases [
            | inl (e, h, i) ↦ inr (
              no_from,
              rw (c, t, b, a, e, prepare) refl,
              (h, i),
              λ s. elim s.sender [ inl n ↦ n h | inr n ↦ n i ],
            )
            | inr (f, sender) ↦ inl (
              record {
                endpoint = endpoint;
                user = user;
                password = password;
                recipient = recipient;
                body = body;
                attached = attached;
                sender = sender;
              },
              rw (c, t, b, a, f, prepare) refl,
            )
          ]
        ]
      ]
    ]
  ]

  send_valid :
      prepare cfg msg ≡ ok (request_of cfg msg)
      → send post cfg msg ≡ read_response (post (request_of cfg msg))
  unfolding send
  send_valid e = rw (e, send) refl

  send_refused : (e : SendError) → prepare cfg msg ≡ failed e → send post cfg msg ≡ failed e
  unfolding send
  send_refused e h = rw (h, send) refl

response_ok :
    (answer : Option (ℕ × Text)) (text : Text)
    → (read_response answer ≡ ok text)
      ↔ ((status : ℕ) × (answer ≡ some (status, text)) × (200 ≤ status) × (status < 300))
unfolding read_response
response_ok none text = (λ h. cc, λ (status, h, _, _). cc)
response_ok (some (status, body)) text =
    (λ h. (status, ground arith, ground arith, ground arith), λ (s, h, low, high). ground arith)

outside :
    (status : ℕ) (body : Text) (e : SendError)
    → read_response (some (status, body)) ≡ failed e
    → (bad_status status body ≡ e) × ((status < 200) ⊎ (300 ≤ status))
unfolding read_response
outside status body e h = (ground arith, ground arith)

response_failed :
    (post : Post) (cfg : MailgunConfig) (msg : EmailMessage) (answer : Option (ℕ × Text))
    (e : SendError)
    → post (request_of cfg msg) ≡ answer
    → read_response answer ≡ failed e
    → IsReason post cfg msg e
unfolding read_response
response_failed post cfg msg none e p h = let same : not_sent ≡ e = cc in rw (← same) p
response_failed post cfg msg (some (status, body)) e p h =
    let (same, range) = outside status body e h in rw (← same) (p, range)

-- `Send` succeeds exactly if the message is sendable and Mailgun answers its request with a status
-- from 200 to 299; the result is the body of the answer.
pub send_iff :
    (post : Post) (cfg : MailgunConfig) (msg : EmailMessage) (text : Text)
    → (send post cfg msg ≡ ok text) ↔ (
        IsSendable cfg msg
        × (status : ℕ) × (post (request_of cfg msg) ≡ some (status, text))
        × (200 ≤ status)
        × (status < 300))
send_iff post cfg msg text = elim (prepare_cases post cfg msg) [
  | inl (valid, e) ↦
      let (to, back) = response_ok (post (request_of cfg msg)) text in
      let sent = send_valid post cfg msg e in
      (
        λ h. let (status, got, low, high) = to (sym sent ∙ h) in (valid, status, got, low, high),
        λ (_, status, got, low, high). sent ∙ back (status, got, low, high),
      )
  | inr (e, refused, _, bad) ↦
      (λ h. cc (h, send_refused post cfg msg e refused), λ (valid, _, _, _, _). absurd (bad valid))
]

-- Whatever error `Send` gives is true of the client, of the message, or of the answer of Mailgun.
pub send_failed :
    (post : Post) (cfg : MailgunConfig) (msg : EmailMessage) (e : SendError)
    → send post cfg msg ≡ failed e
    → IsReason post cfg msg e
send_failed post cfg msg e h = elim (prepare_cases post cfg msg) [
  | inl (valid, p) ↦
      response_failed post cfg msg (post (request_of cfg msg)) e refl
        (sym (send_valid post cfg msg p) ∙ h)
  | inr (f, refused, why, bad) ↦
      let same : f ≡ e = cc (h, send_refused post cfg msg f refused) in rw (← same) why
]
