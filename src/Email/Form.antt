-- ===== src/Email/Form.antt =====
-- What the form of a message holds.
use text.Mathlib.Text.{◌==◌ as str_eq}
use orcacommon.Common.{
  ◌≡◌, refl, Option, none, some, List, [], ◌∷◌, ◌++◌, String, map, is_empty, if◌then◌else◌,
  Bool-cases, inl, inr, arith, ap,
}
use orcacommon.Common.Text.{Text, codes, join}
use orcacommon.Email.{
  Attachment, EmailMessage, Part, field, file, optional_field, optional_list, attachment_part,
  form_parts,
}

-- The first field of a name.
unfoldable pub field_value : String → List Part → Option Text
field_value name [] = none
field_value name (field k v ∷ parts) = if str_eq k name then some v else field_value name parts
field_value name (file d t c ∷ parts) = field_value name parts

unfoldable pub files : List Part → List Part
files [] = []
files (field k v ∷ parts) = files parts
files (file d t c ∷ parts) = file d t c ∷ files parts

abbrev or_else : Option Text → Option Text → Option Text
or_else none o = o
or_else (some v) o = some v

field_value-append :
    (name : String) (xs ys : List Part)
    → field_value name (xs ++ ys) ≡ or_else (field_value name xs) (field_value name ys)
unfolding field_value
field_value-append name [] ys = refl
field_value-append name (field k v ∷ xs) ys = elim (Bool-cases (str_eq k name)) [
  | inl e ↦ rw (e, field_value) refl
  | inr e ↦ rw (e, field_value) (field_value-append name xs ys)
]
field_value-append name (file d t c ∷ xs) ys = field_value-append name xs ys

files-append : (xs ys : List Part) → files (xs ++ ys) ≡ files xs ++ files ys
unfolding files
files-append [] ys = refl
files-append (field k v ∷ xs) ys = files-append xs ys
files-append (file d t c ∷ xs) ys = ap (λ zs. file d t c ∷ zs) (files-append xs ys)

field_value-attachments :
    (name : String) (as' : List Attachment) → field_value name (map attachment_part as') ≡ none
unfolding field_value attachment_part
field_value-attachments name [] = refl
field_value-attachments name (a ∷ rest) = field_value-attachments name rest

files-attachments :
    (as' : List Attachment) → files (map attachment_part as') ≡ map attachment_part as'
unfolding files attachment_part
files-attachments [] = refl
files-attachments (a ∷ rest) = ap (λ zs. attachment_part a ∷ zs) (files-attachments rest)

-- A value that is left out if it is empty.
abbrev pub given {ℓ} : {A : Type ℓ} → List A → Text → Option Text
given s v = if is_empty s then none else some v

or_else-none : (o : Option Text) → or_else o none ≡ o
or_else-none none = refl
or_else-none (some v) = refl

field_value-optional_field :
    (name k : String) (v : Text)
    → field_value name (optional_field k v) ≡ (if str_eq k name then given v v else none)
unfolding field_value optional_field
field_value-optional_field name k [] = ground arith
field_value-optional_field name k (c ∷ v) = ground arith

field_value-optional_list :
    (name k : String) (vs : List Text)
    → field_value name (optional_list k vs)
      ≡ (if str_eq k name then given vs (join vs (codes ",")) else none)
unfolding field_value optional_list
field_value-optional_list name k [] = ground arith
field_value-optional_list name k (v ∷ vs) = ground arith

files-optional_field : (k : String) (v : Text) → files (optional_field k v) ≡ []
unfolding files optional_field
files-optional_field k [] = refl
files-optional_field k (c ∷ v) = refl

files-optional_list : (k : String) (vs : List Text) → files (optional_list k vs) ≡ []
unfolding files optional_list
files-optional_list k [] = refl
files-optional_list k (v ∷ vs) = refl

ruleset form_values = (
  field_value-append, field_value-optional_field, field_value-optional_list,
  field_value-attachments, or_else-none,
)

-- The form holds the sender, the recipients and the subject, the bodies and the copies that are not
-- empty, each in its field, and all attachments in their order.
form_parts_complete :
    (from : Text) (msg : EmailMessage)
    → (let parts = form_parts from msg in
        (field_value "from" parts ≡ some from)
        × (field_value "to" parts ≡ some (join msg.to (codes ",")))
        × (field_value "subject" parts ≡ some msg.subject)
        × (field_value "text" parts ≡ given msg.text msg.text)
        × (field_value "html" parts ≡ given msg.html msg.html)
        × (field_value "cc" parts ≡ given msg.cc (join msg.cc (codes ",")))
        × (field_value "bcc" parts ≡ given msg.bcc (join msg.bcc (codes ",")))
        × (files parts ≡ map attachment_part msg.attachments))
unfolding form_parts field_value files
form_parts_complete from msg = (
  refl,
  refl,
  refl,
  simp form_values,
  simp form_values,
  simp form_values,
  simp form_values,
  simp (files-append, files-optional_field, files-optional_list, files-attachments),
)
