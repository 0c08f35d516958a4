-- ===== src/Email/Tests.antt =====
-- The mail client run on a sample, and the theorems about it at the sample.
use orcacommon.Common.{ℕ, ◌≤◌, ◌<◌, ◌≡◌, ◌↔◌, refl, false, some, [], ◌∷◌}
use orcacommon.Common.Text.{codes, trim_suffix, has_suffix, has_prefix}
use orcacommon.Email.{
  Attachment, EmailMessage, MailgunConfig, no_filename, no_from, ok, failed, Post, encode_std,
  check_attachments, disposition, form_parts, sender_of, new_mailgun_client, prepare, read_response,
  send,
}
use orcacommon.Email.Valid.{IsSendable, request_of, IsReason}
use orcacommon.Email.Send.{send_iff, send_failed}

abbrev config : MailgunConfig
config = record {
  endpoint = codes "https://api.mailgun.net/v3/d/";
  user = codes "api";
  password = codes "k";
  from = codes "noti@doublefin.com";
}

abbrev invoice : Attachment
invoice = record {
  filename = codes "a.pdf";
  content_type = codes "application/pdf";
  content = 37 ∷ 80 ∷ [];
  is_inline = false;
}

abbrev message : EmailMessage
message = record {
  from = [];
  to = codes "a@x" ∷ codes "b@x" ∷ [];
  cc = [];
  bcc = codes "c@x" ∷ [];
  subject = codes "hi";
  text = codes "body";
  html = [];
  attachments = invoice ∷ [];
}

abbrev nameless : EmailMessage
nameless = record message { attachments = invoice ∷ (record invoice { filename = [] }) ∷ [] }

abbrev accept : Post
accept request = some (200, request.url)

client_test :
    new_mailgun_client config ≡ record config { endpoint = codes "https://api.mailgun.net/v3/d" }
unfolding new_mailgun_client trim_suffix has_suffix has_prefix
client_test = refl

encode_test : encode_std (codes "api:k") ≡ codes "YXBpOms="
unfolding encode_std
encode_test = refl

send_tests :
    (send accept config message ≡ ok (codes "https://api.mailgun.net/v3/d//messages"))
    × (send accept config nameless ≡ failed no_filename)
    × (send accept (record config { from = [] }) message ≡ failed no_from)
unfolding send prepare check_attachments sender_of form_parts read_response
send_tests = (refl, refl, refl)

disposition_test :
    disposition "attachment" (codes "a\"b")
    ≡ codes "form-data; name=\"attachment\"; filename=\"a\"b\""
unfolding disposition
disposition_test = refl

send_iff_example : (send accept config message ≡ ok (codes "sent")) ↔ (
    IsSendable config message
    × (status : ℕ) × (accept (request_of config message) ≡ some (status, codes "sent"))
    × (200 ≤ status)
    × (status < 300))
send_iff_example = send_iff accept config message (codes "sent")

send_failed_example : IsReason accept config nameless no_filename
send_failed_example = send_failed accept config nameless no_filename send_tests.1
