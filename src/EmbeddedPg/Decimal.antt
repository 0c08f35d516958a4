-- ===== src/EmbeddedPg/Decimal.antt =====
-- `strconv.Atoi` reads back what `strconv.Itoa` writes.
use mathlib.Core.List.{reverse-cons, reverse-reverse}
use orcacommon.Common.{
  ℕ, zero, suc, ◌+◌, ◌/◌, ◌%◌, ◌^◌, ◌≤◌, ◌<◌, ◌≡◌, refl, ◌∙◌, ltb, true, false, some, [], ◌∷◌,
  reverse, is_empty, length, All, All-append, arith, Bool-cases, inl, inr,
}
use orcacommon.Common.Text.{
  Text, has_byte, has_prefix, has_suffix, trim_suffix, trim_space, trim_left, is_space,
}
use orcacommon.Common.Word.{pos}
use orcacommon.DbConfig.{itoa_digits}
use orcacommon.EmbeddedPg.PidFile.{is_digit, digits_value, parse_digits, max_int, atoi, drop_cr}

abbrev pub IsDigits : Text → Type 0
IsDigits s = All (λ c. is_digit c ≡ true) s

unfoldable pub itoa : ℕ → Text
itoa n = itoa_digits 20 n []

pub itoa_digits-value :
    (f n : ℕ) (acc : Text) → n < 10 ^ f → digits_value (itoa_digits f n acc) 0 ≡ digits_value acc n
unfolding digits_value
itoa_digits-value zero n acc h = let z : n ≡ 0 = omega arith in rw z refl
itoa_digits-value (suc f) n acc h =
    ground (arith, itoa_digits-value f (n / 10) ((b'0' + n % 10) ∷ acc) (omega arith))

itoa_digits-IsDigits : (f n : ℕ) (acc : Text) → IsDigits acc → IsDigits (itoa_digits f n acc)
itoa_digits-IsDigits zero n acc h = h
itoa_digits-IsDigits (suc f) n acc h =
    let rest = itoa_digits-IsDigits f (n / 10) ((b'0' + n % 10) ∷ acc) (ground arith, h) in
    elim (Bool-cases (ltb n 10)) [ inl e ↦ rw e (ground arith, h) | inr e ↦ rw e rest ]

length-itoa_digits : (f n : ℕ) (acc : Text) → length (itoa_digits f n acc) ≤ f + length acc
length-itoa_digits zero n acc = omega arith
length-itoa_digits (suc f) n acc =
    ground (arith, length-itoa_digits f (n / 10) ((b'0' + n % 10) ∷ acc))

digits_value-nil : (n : ℕ) → digits_value [] n ≡ some n
unfolding digits_value
digits_value-nil n = refl

-- A text of digits has no white space, so that trimming it changes nothing.
pub has_byte-digits : (c : ℕ) (s : Text) → is_digit c ≡ false → IsDigits s → has_byte c s ≡ false
unfolding has_byte
has_byte-digits c [] e h = refl
has_byte-digits c (a ∷ s) e h = ground (arith, has_byte-digits c s e h.1)

reverse-IsDigits : (s : Text) → IsDigits s → IsDigits (reverse s)
reverse-IsDigits [] h = tt
reverse-IsDigits (c ∷ s) h =
    rw (reverse-cons c s)
      (All-append (λ a. is_digit a ≡ true) (reverse s) (c ∷ []) (reverse-IsDigits s h.1) (h.0, tt))

trim_left-digits : (s : Text) → IsDigits s → trim_left s ≡ s
unfolding trim_left is_space
trim_left-digits [] h = refl
trim_left-digits (c ∷ s) h = ground arith

pub trim_space-digits : (s : Text) → IsDigits s → trim_space s ≡ s
unfolding trim_space
trim_space-digits s h =
    rw
      (trim_left-digits s h, trim_left-digits (reverse s) (reverse-IsDigits s h), reverse-reverse s)
      refl

no_cr : (s : Text) → IsDigits s → has_prefix s (13 ∷ []) ≡ false
unfolding has_prefix
no_cr [] h = refl
no_cr (c ∷ s) h = ground arith

pub drop_cr-digits : (s : Text) → IsDigits s → drop_cr s ≡ s
unfolding trim_suffix has_suffix
drop_cr-digits s h = rw (no_cr (reverse s) (reverse-IsDigits s h)) refl

-- A text of digits is read by its value.
atoi-digits :
    (s : Text) (n : ℕ) → IsDigits s → n ≤ max_int → parse_digits s ≡ some n → atoi s ≡ some (pos n)
unfolding atoi parse_digits
atoi-digits [] n h l e = cc
atoi-digits (c ∷ s) n h l e = ground arith

is_empty-itoa_digits : (f n d : ℕ) (acc : Text) → is_empty (itoa_digits f n (d ∷ acc)) ≡ false
is_empty-itoa_digits zero n d acc = refl
is_empty-itoa_digits (suc f) n d acc =
    ground (arith, is_empty-itoa_digits f (n / 10) (b'0' + n % 10) (d ∷ acc))

is_empty-itoa : (f n : ℕ) → is_empty (itoa_digits (suc f) n []) ≡ false
is_empty-itoa f n = ground (arith, is_empty-itoa_digits f (n / 10) (b'0' + n % 10) [])

parse_digits_full : (s : Text) → is_empty s ≡ false → parse_digits s ≡ digits_value s 0
unfolding parse_digits
parse_digits_full [] h = cc
parse_digits_full (c ∷ s) h = refl

parse_digits-itoa : (n : ℕ) → n ≤ max_int → parse_digits (itoa n) ≡ some n
unfolding itoa
parse_digits-itoa n h =
    parse_digits_full (itoa_digits 20 n []) (is_empty-itoa 19 n)
    ∙ (itoa_digits-value 20 n [] (omega arith) ∙ digits_value-nil n)

pub itoa-IsDigits : (n : ℕ) → IsDigits (itoa n)
unfolding itoa
itoa-IsDigits n = itoa_digits-IsDigits 20 n [] tt

pub length-itoa : (n : ℕ) → length (itoa n) ≤ 20
unfolding itoa
length-itoa n = length-itoa_digits 20 n []

pub atoi-itoa : (n : ℕ) → n ≤ max_int → atoi (itoa n) ≡ some (pos n)
atoi-itoa n h = atoi-digits (itoa n) n (itoa-IsDigits n) h (parse_digits-itoa n h)
