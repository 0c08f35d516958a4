-- ===== src/Email.antt =====
-- email/mailgun.go: sending mail by Mailgun. `post` sends a request and gives the status and the
-- body of the response, `none` if the request cannot be built or sent. The body of a request is the
-- list of its parts; that package mime/multipart writes them down is left out.
pub mod Valid
pub mod Send
pub mod Form
mod Tests
use orcacommon.Common.{
  ℕ, ◌+◌, ◌*◌, ◌/◌, ◌%◌, ltb, leb, ◌||◌, ◌&&◌, if◌then◌else◌, Bool, true, false, Option, none, some,
  List, [], ◌∷◌, ◌++◌, String, is_empty, length, get_or, map,
}
use orcacommon.Common.Text.{Text, codes, join, trim_suffix}

abbrev pub max_attachment_size : ℕ
max_attachment_size = 10 * 1024 * 1024

pub record Attachment : Type 0 where
  pub filename : Text
  pub content_type : Text
  pub content : Text
  pub is_inline : Bool

pub record EmailMessage : Type 0 where
  pub from : Text
  pub to : List Text
  pub cc : List Text
  pub bcc : List Text
  pub subject : Text
  pub text : Text
  pub html : Text
  pub attachments : List Attachment

pub record MailgunConfig : Type 0 where
  pub endpoint : Text
  pub user : Text
  pub password : Text
  pub from : Text

-- `NewMailgunClient`: the client's configuration.
unfoldable pub new_mailgun_client : MailgunConfig → MailgunConfig
new_mailgun_client cfg = record cfg { endpoint = trim_suffix cfg.endpoint (codes "/") }

-- The errors of `Send`.
pub data SendError : Type 0 where
  not_configured : SendError
  no_recipient : SendError
  no_body : SendError
  no_filename : SendError
  no_content_type : SendError
  too_large : Text → SendError
  no_from : SendError
  not_sent : SendError
  bad_status : ℕ → Text → SendError

pub data Result (A : Type 0) : Type 0 where
  ok : A → Result A
  failed : SendError → Result A

-- A field, or a file with its Content-Disposition, its Content-Type and its bytes.
pub data Part : Type 0 where
  field : String → Text → Part
  file : Text → Text → Text → Part

pub record MailRequest : Type 0 where
  pub url : Text
  pub authorization : Text
  pub parts : List Part

abbrev pub base64_alphabet : Text
base64_alphabet = codes "ABCDEFGHIJKLMNOPQRSTUVWXYZabcdefghijklmnopqrstuvwxyz0123456789+/"

abbrev digit : ℕ → ℕ
digit n = get_or base64_alphabet (n % 64) 0

-- `base64.StdEncoding.EncodeToString`.
unfoldable pub encode_std : Text → Text
encode_std [] = []
encode_std (a ∷ []) = digit (a / 4) ∷ digit (a % 4 * 16) ∷ b'=' ∷ b'=' ∷ []
encode_std (a ∷ b ∷ []) =
    digit (a / 4) ∷ digit (a % 4 * 16 + b / 16) ∷ digit (b % 16 * 4) ∷ b'=' ∷ []
encode_std (a ∷ b ∷ c ∷ s) =
    digit (a / 4)
    ∷ digit (a % 4 * 16 + b / 16)
    ∷ digit (b % 16 * 4 + c / 64)
    ∷ digit (c % 64)
    ∷ encode_std s

-- The loop that checks the attachments: the first error.
unfoldable pub check_attachments : List Attachment → Option SendError
check_attachments [] = none
check_attachments (a ∷ rest) =
    if is_empty a.filename
    then some no_filename
    else if is_empty a.content_type
    then some no_content_type
    else if ltb max_attachment_size (length a.content)
    then some (too_large a.filename)
    else check_attachments rest

unfoldable pub optional_field : String → Text → List Part
optional_field name value = if is_empty value then [] else field name value ∷ []

unfoldable pub optional_list : String → List Text → List Part
optional_list name values =
    if is_empty values then [] else field name (join values (codes ",")) ∷ []

-- The name of the file stands between the quotes as it is.
unfoldable pub disposition : String → Text → Text
disposition name filename =
    codes "form-data; name=\"" ++ codes name ++ codes "\"; filename=\"" ++ filename ++ codes "\""

unfoldable pub attachment_part : Attachment → Part
attachment_part a =
    file (disposition (if a.is_inline then "inline" else "attachment") a.filename) a.content_type
      a.content

unfoldable pub form_parts : Text → EmailMessage → List Part
form_parts from msg =
    field "from" from
    ∷ field "to" (join msg.to (codes ","))
    ∷ field "subject" msg.subject
    ∷ (optional_field "text" msg.text
        ++ optional_field "html" msg.html
        ++ optional_list "cc" msg.cc
        ++ optional_list "bcc" msg.bcc
        ++ map attachment_part msg.attachments)

unfoldable pub sender_of : MailgunConfig → EmailMessage → Text
sender_of cfg msg = if is_empty msg.from then cfg.from else msg.from

-- `Send` up to the request.
unfoldable pub prepare : MailgunConfig → EmailMessage → Result MailRequest
prepare cfg msg =
    if is_empty cfg.endpoint || is_empty cfg.user || is_empty cfg.password
    then failed not_configured
    else if is_empty msg.to
    then failed no_recipient
    else if is_empty msg.text && is_empty msg.html
    then failed no_body
    else elim (check_attachments msg.attachments) [
      | some e ↦ failed e
      | none ↦
          if is_empty (sender_of cfg msg)
          then failed no_from
          else ok (record {
            url = cfg.endpoint ++ codes "/messages";
            authorization = codes "Basic " ++ encode_std (cfg.user ++ b':' ∷ cfg.password);
            parts = form_parts (sender_of cfg msg) msg;
          })
    ]

abbrev pub Post : Type 0
Post = MailRequest → Option (ℕ × Text)

-- The answer of Mailgun; the text is what was read of the body, whose error the code ignores.
unfoldable pub read_response : Option (ℕ × Text) → Result Text
read_response none = failed not_sent
read_response (some (status, body)) =
    if ltb status 200 || leb 300 status then failed (bad_status status body) else ok body

-- `Send`.
unfoldable pub send : Post → MailgunConfig → EmailMessage → Result Text
send post cfg msg = elim (prepare cfg msg) [
  | failed e ↦ failed e
  | ok request ↦ read_response (post request)
]

-- What is logged of a value.
pub data Attr : Type 0 where
  attr : String → Text → Attr

-- `MailgunConfig.LogValue`.
unfoldable pub mailgun_log_value : MailgunConfig → List Attr
mailgun_log_value c =
    attr "endpoint" c.endpoint
    ∷ attr "user" c.user
    ∷ attr "password" (codes "[REDACTED]")
    ∷ attr "from" c.from
    ∷ []
