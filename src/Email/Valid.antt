-- ===== src/Email/Valid.antt =====
-- Which messages can be sent.
use orcacommon.Common.{
  ℕ, ◌≤◌, ◌<◌, ◌≡◌, ◌≢◌, refl, ltb, true, false, none, some, List, [], ◌∷◌, ◌⊎◌, inl, inr, All,
  is_empty, length, arith, Bool-cases, ◌++◌, ltb→lt,
}
use orcacommon.Common.Text.{codes}
use orcacommon.Email.{
  max_attachment_size, Attachment, EmailMessage, MailgunConfig, SendError, not_configured,
  no_recipient, no_body, no_filename, no_content_type, too_large, no_from, not_sent, bad_status,
  MailRequest, Post, check_attachments, form_parts, sender_of, encode_std,
}

abbrev pub IsAttachable : Attachment → Type 0
IsAttachable a =
    (a.filename ≢ []) × (a.content_type ≢ []) × (length a.content ≤ max_attachment_size)

-- A configured client, a recipient, a body, a sender, and attachments that can be sent.
pub record IsSendable (cfg : MailgunConfig) (msg : EmailMessage) : Type 0 where
  pub endpoint : cfg.endpoint ≢ []
  pub user : cfg.user ≢ []
  pub password : cfg.password ≢ []
  pub recipient : msg.to ≢ []
  pub body : (msg.text ≢ []) ⊎ (msg.html ≢ [])
  pub attached : All IsAttachable msg.attachments
  pub sender : (msg.from ≢ []) ⊎ (cfg.from ≢ [])

-- The request of such a message: the sender of the message, or else that of the client.
abbrev pub request_of : MailgunConfig → EmailMessage → MailRequest
request_of cfg msg = record {
  url = cfg.endpoint ++ codes "/messages";
  authorization = codes "Basic " ++ encode_std (cfg.user ++ b':' ∷ cfg.password);
  parts = form_parts (sender_of cfg msg) msg;
}

abbrev pub Any : (Attachment → Type 0) → List Attachment → Type 0
Any P [] = ⊥
Any P (a ∷ rest) = P a ⊎ Any P rest

-- What an error says of the attachments.
abbrev pub IsAttachmentReason : List Attachment → SendError → Type 0
IsAttachmentReason files no_filename = Any (λ a. a.filename ≡ []) files
IsAttachmentReason files no_content_type = Any (λ a. a.content_type ≡ []) files
IsAttachmentReason files (too_large name) =
    Any (λ a. (a.filename ≡ name) × (max_attachment_size < length a.content)) files
IsAttachmentReason files _ = ⊥

-- What an error says of the client, the message and the answer of Mailgun.
abbrev pub IsReason : Post → MailgunConfig → EmailMessage → SendError → Type 0
IsReason post cfg msg not_configured = (cfg.endpoint ≡ []) ⊎ ((cfg.user ≡ []) ⊎ (cfg.password ≡ []))
IsReason post cfg msg no_recipient = msg.to ≡ []
IsReason post cfg msg no_body = (msg.text ≡ []) × (msg.html ≡ [])
IsReason post cfg msg no_filename = IsAttachmentReason msg.attachments no_filename
IsReason post cfg msg no_content_type = IsAttachmentReason msg.attachments no_content_type
IsReason post cfg msg (too_large name) = IsAttachmentReason msg.attachments (too_large name)
IsReason post cfg msg no_from = (msg.from ≡ []) × (cfg.from ≡ [])
IsReason post cfg msg not_sent = post (request_of cfg msg) ≡ none
IsReason post cfg msg (bad_status status body) =
    (post (request_of cfg msg) ≡ some (status, body)) × ((status < 200) ⊎ (300 ≤ status))

ltb-false_le : (a b : ℕ) → ltb a b ≡ false → b ≤ a
ltb-false_le a b h = ground arith

pub is_empty_cases {ℓ} :
    {A : Type ℓ} (s : List A) → ((is_empty s ≡ true) × (s ≡ [])) ⊎ ((is_empty s ≡ false) × (s ≢ []))
is_empty_cases [] = inl (refl, refl)
is_empty_cases (a ∷ s) = inr (refl, λ e. cc)

IsAttachmentReason-cons :
    (a : Attachment) (rest : List Attachment) (e : SendError)
    → IsAttachmentReason rest e
    → IsAttachmentReason (a ∷ rest) e
IsAttachmentReason-cons a rest no_filename h = inr h
IsAttachmentReason-cons a rest no_content_type h = inr h
IsAttachmentReason-cons a rest (too_large name) h = inr h
IsAttachmentReason-cons a rest not_configured h = elim h [ ]
IsAttachmentReason-cons a rest no_recipient h = elim h [ ]
IsAttachmentReason-cons a rest no_body h = elim h [ ]
IsAttachmentReason-cons a rest no_from h = elim h [ ]
IsAttachmentReason-cons a rest not_sent h = elim h [ ]
IsAttachmentReason-cons a rest (bad_status _ _) h = elim h [ ]

pub IsAttachmentReason-IsReason :
    (post : Post) (cfg : MailgunConfig) (msg : EmailMessage) (e : SendError)
    → IsAttachmentReason msg.attachments e
    → IsReason post cfg msg e
IsAttachmentReason-IsReason post cfg msg no_filename h = h
IsAttachmentReason-IsReason post cfg msg no_content_type h = h
IsAttachmentReason-IsReason post cfg msg (too_large name) h = h
IsAttachmentReason-IsReason post cfg msg not_configured h = elim h [ ]
IsAttachmentReason-IsReason post cfg msg no_recipient h = elim h [ ]
IsAttachmentReason-IsReason post cfg msg no_body h = elim h [ ]
IsAttachmentReason-IsReason post cfg msg no_from h = elim h [ ]
IsAttachmentReason-IsReason post cfg msg not_sent h = elim h [ ]
IsAttachmentReason-IsReason post cfg msg (bad_status _ _) h = elim h [ ]

abbrev Checked : List Attachment → Type 0
Checked files =
    ((check_attachments files ≡ none) × All IsAttachable files)
    ⊎ ((e : SendError) × (check_attachments files ≡ some e)
        × IsAttachmentReason files e
        × (¬ All IsAttachable files))

check_rest :
    (a : Attachment) (rest : List Attachment)
    → (is_empty a.filename ≡ false)
    → (is_empty a.content_type ≡ false)
    → (ltb max_attachment_size (length a.content) ≡ false)
    → IsAttachable a
    → Checked rest
    → Checked (a ∷ rest)
unfolding check_attachments
check_rest a rest named typed small good (inl (e, all)) =
    inl (rw (named, typed, small, check_attachments) e, (good, all))
check_rest a rest named typed small good (inr (e, found, why, bad)) = inr (
  e,
  rw (named, typed, small, check_attachments) found,
  IsAttachmentReason-cons a rest e why,
  λ all. bad all.1,
)

-- What the loop finds: no error if all attachments can be sent, or else one that is true of one.
pub check_attachments_cases : (files : List Attachment) → Checked files
unfolding check_attachments
check_attachments_cases [] = inl (refl, tt)
check_attachments_cases (a ∷ rest) = elim (is_empty_cases a.filename) [
  | inl (e, empty) ↦
      inr (no_filename, rw (e, check_attachments) refl, inl empty, λ all. all.0.0 empty)
  | inr (named, full) ↦ elim (is_empty_cases a.content_type) [
    | inl (e, empty) ↦
        inr
          (no_content_type, rw (named, e, check_attachments) refl, inl empty, λ all. all.0.1 empty)
    | inr (typed, some_type) ↦ elim (Bool-cases (ltb max_attachment_size (length a.content))) [
      | inl large ↦
          let over : max_attachment_size < length a.content =
            ltb→lt max_attachment_size (length a.content) large in
          inr (
            too_large a.filename,
            rw (named, typed, large, check_attachments) refl,
            inl (refl, over),
            λ all.
                let le : length a.content ≤ max_attachment_size = all.0.2 in absurd (omega arith),
          )
      | inr small ↦
          check_rest a rest named typed small
            (full, some_type, ltb-false_le max_attachment_size (length a.content) small)
            (check_attachments_cases rest)
    ]
  ]
]
