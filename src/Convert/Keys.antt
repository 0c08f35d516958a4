-- ===== src/Convert/Keys.antt =====
-- The names of the keys.
use mathlib.Core.List.{reverse-append}
use orcacommon.Common.{
  ℕ, false-ne-true, ◌-◌, ◌≡◌, refl, sym, ap, ◌∙◌, true, false, [], ◌∷◌, ◌++◌, reverse, length, take,
  length-append, arith, Bool-cases, inl, inr,
}
use orcacommon.Common.Text.{Text, codes, text_eq, has_prefix, has_suffix}
use orcacommon.Common.Text.Laws.{text_eq_sound}
use orcacommon.Convert.{drop_last, convert_id_suffix}

has_suffix-append :
    (t p q : Text) → has_suffix (t ++ p) q ≡ has_prefix (reverse p ++ reverse t) (reverse q)
unfolding has_suffix
has_suffix-append t p q = ap (λ r. has_prefix r (reverse q)) (reverse-append t p)

take-append : (t p : Text) → take (length t) (t ++ p) ≡ t
take-append [] [] = refl
take-append [] (c ∷ p) = refl
take-append (c ∷ t) p = ap (λ r. c ∷ r) (take-append t p)

drop_last-append : (t p : Text) (n : ℕ) → length p ≡ n → drop_last n (t ++ p) ≡ t
drop_last-append t p n h =
    let short : length (t ++ p) - n ≡ length t = omega (arith, length-append t p, h) in
    rw short (take-append t p)

-- A text that the function leaves as it is.
abbrev IsPlain : Text → Type 0
IsPlain s =
    (text_eq s (codes "iDs") ≡ false)
    × (has_suffix s (codes "IDs") ≡ false)
    × (text_eq s (codes "iD") ≡ false)
    × (has_suffix s (codes "ID") ≡ false)

plain-lem : (s : Text) → IsPlain s → convert_id_suffix s ≡ s
unfolding convert_id_suffix
plain-lem s h = rw (h.0, h.1, h.2, h.3) refl

differs : (s q : Text) → has_suffix s q ≡ false → has_suffix q q ≡ true → text_eq s q ≡ false
differs s q h k = elim (Bool-cases (text_eq s q)) [
  | inl e ↦ absurd (false-ne-true (sym h ∙ (ap (λ r. has_suffix r q) (text_eq_sound s q e) ∙ k)))
  | inr e ↦ e
]

ids-IsPlain : (t : Text) → IsPlain (t ++ codes "Ids")
unfolding has_prefix has_suffix
ids-IsPlain t =
    let at = has_suffix-append t (codes "Ids") in
    (
      differs (t ++ codes "Ids") (codes "iDs") (at (codes "iDs")) refl,
      at (codes "IDs"),
      differs (t ++ codes "Ids") (codes "iD") (at (codes "iD")) refl,
      at (codes "ID"),
    )

id-IsPlain : (t : Text) → IsPlain (t ++ codes "Id")
unfolding has_prefix has_suffix
id-IsPlain t =
    let at = has_suffix-append t (codes "Id") in
    (
      differs (t ++ codes "Id") (codes "iDs") (at (codes "iDs")) refl,
      at (codes "IDs"),
      differs (t ++ codes "Id") (codes "iD") (at (codes "iD")) refl,
      at (codes "ID"),
    )

lower-IsPlain : IsPlain (codes "ids") × IsPlain (codes "id")
unfolding text_eq has_suffix has_prefix
lower-IsPlain = ((refl, refl, refl, refl), (refl, refl, refl, refl))

-- What the function gives is left as it is.
convert_id_suffix-IsPlain : (s : Text) → IsPlain (convert_id_suffix s)
unfolding convert_id_suffix
convert_id_suffix-IsPlain s = elim (Bool-cases (text_eq s (codes "iDs"))) [
  | inl a ↦ rw a lower-IsPlain.0
  | inr a ↦ elim (Bool-cases (has_suffix s (codes "IDs"))) [
    | inl b ↦ rw (a, b) (ids-IsPlain (drop_last 3 s))
    | inr b ↦ elim (Bool-cases (text_eq s (codes "iD"))) [
      | inl c ↦ rw (a, b, c) lower-IsPlain.1
      | inr c ↦ elim (Bool-cases (has_suffix s (codes "ID"))) [
        | inl d ↦ rw (a, b, c, d) (id-IsPlain (drop_last 2 s))
        | inr d ↦ rw (a, b, c, d) (a, b, c, d)
      ]
    ]
  ]
]

id_suffix-append : (t : Text) → has_suffix (t ++ codes "ID") (codes "ID") ≡ true
unfolding has_prefix
id_suffix-append t = has_suffix-append t (codes "ID") (codes "ID")

ids_suffix-append : (t : Text) → has_suffix (t ++ codes "IDs") (codes "IDs") ≡ true
unfolding has_prefix
ids_suffix-append t = has_suffix-append t (codes "IDs") (codes "IDs")

not_ids : (t : Text) → has_suffix (t ++ codes "ID") (codes "IDs") ≡ false
unfolding has_prefix
not_ids t = has_suffix-append t (codes "ID") (codes "IDs")

not_lower_ids : (t : Text) → text_eq (t ++ codes "ID") (codes "iDs") ≡ false
unfolding has_prefix has_suffix
not_lower_ids t =
    differs (t ++ codes "ID") (codes "iDs") (has_suffix-append t (codes "ID") (codes "iDs")) refl

not_lower_id : (t : Text) → text_eq (t ++ codes "ID") (codes "iD") ≡ false
unfolding has_prefix has_suffix
not_lower_id t =
    differs (t ++ codes "ID") (codes "iD") (has_suffix-append t (codes "ID") (codes "iD")) refl

not_lower_ids_s : (t : Text) → text_eq (t ++ codes "IDs") (codes "iDs") ≡ false
unfolding has_prefix has_suffix
not_lower_ids_s t =
    differs (t ++ codes "IDs") (codes "iDs") (has_suffix-append t (codes "IDs") (codes "iDs")) refl

-- With the suffixes of the names in Go, "ID" becomes "Id" and "IDs" becomes "Ids"; the result has
-- neither suffix any more, so that converting it again changes nothing.
pub convert_id_suffix_lem :
    (t s : Text)
    → (convert_id_suffix (t ++ codes "ID") ≡ t ++ codes "Id")
      × (convert_id_suffix (t ++ codes "IDs") ≡ t ++ codes "Ids")
      × (has_suffix (convert_id_suffix s) (codes "ID") ≡ false)
      × (has_suffix (convert_id_suffix s) (codes "IDs") ≡ false)
      × (convert_id_suffix (convert_id_suffix s) ≡ convert_id_suffix s)
unfolding convert_id_suffix
convert_id_suffix_lem t s =
    let plain = convert_id_suffix-IsPlain s in
    (
      rw
          (
            not_lower_ids t,
            not_ids t,
            not_lower_id t,
            id_suffix-append t,
            drop_last-append t (codes "ID") 2 refl,
          )
          refl,
      rw (not_lower_ids_s t, ids_suffix-append t, drop_last-append t (codes "IDs") 3 refl) refl,
      plain.3,
      plain.1,
      plain-lem (convert_id_suffix s) plain,
    )
