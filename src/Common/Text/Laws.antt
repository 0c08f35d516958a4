-- ===== src/Common/Text/Laws.antt =====
-- Laws of the functions on text.
use Prim.Native.Nat.{ℕ}
use mathlib.Core.Path.{◌≡◌, refl, sym, ◌∙◌, ap}
use mathlib.Core.Logic.{◌↔◌, inl, inr}
use mathlib.Core.Bool.{true, false, ◌||◌}
use mathlib.Core.Option.{none, some}
use mathlib.Core.List.{[], ◌∷◌, ◌++◌, reverse, reverse-cons, reverse-append, reverse-reverse}
use mathlib.Core.List.{append_assoc}
use native.Mathlib.Omega.{arith}
use orcacommon.Common.Tests.{◌==◌, ==_refl, Bool-cases, Option-cases}
use orcacommon.Common.Lists.{length, drop}
use orcacommon.Common.Text.{
  Text, text_eq, has_prefix, has_suffix, trim_prefix, has_byte, cut, cut_last,
}

pub text_eq_refl : (s : Text) → text_eq s s ≡ true
unfolding text_eq
text_eq_refl [] = refl
text_eq_refl (a ∷ s) = rw (==_refl a) (text_eq_refl s)

pub text_eq_sound : (s t : Text) → text_eq s t ≡ true → s ≡ t
unfolding text_eq
text_eq_sound [] [] h = refl
text_eq_sound [] (_ ∷ _) h = cc
text_eq_sound (_ ∷ _) [] h = cc
text_eq_sound (a ∷ s) (b ∷ t) h = ground (arith, text_eq_sound s t)

pub text_eq_iff : (s t : Text) → (text_eq s t ≡ true) ↔ (s ≡ t)
text_eq_iff s t = (text_eq_sound s t, λ e. rw e (text_eq_refl t))

pub has_prefix-append : (p s : Text) → has_prefix (p ++ s) p ≡ true
unfolding has_prefix
has_prefix-append [] [] = refl
has_prefix-append [] (_ ∷ _) = refl
has_prefix-append (a ∷ p) s = rw (==_refl a) (has_prefix-append p s)

pub drop-append : (p s : Text) → drop (length p) (p ++ s) ≡ s
drop-append [] s = refl
drop-append (a ∷ p) s = drop-append p s

pub trim_prefix-append : (p s : Text) → trim_prefix (p ++ s) p ≡ s
unfolding trim_prefix
trim_prefix-append p s = rw (has_prefix-append p s) (drop-append p s)

pub has_prefix_sound : (s p : Text) → has_prefix s p ≡ true → s ≡ p ++ drop (length p) s
unfolding has_prefix
has_prefix_sound [] [] h = refl
has_prefix_sound (_ ∷ _) [] h = refl
has_prefix_sound [] (_ ∷ _) h = cc
has_prefix_sound (a ∷ s) (b ∷ p) h = ground (arith, has_prefix_sound s p)

pub trim_prefix_sound : (s p : Text) → has_prefix s p ≡ true → s ≡ p ++ trim_prefix s p
unfolding trim_prefix
trim_prefix_sound s p h = rw (h, trim_prefix) (has_prefix_sound s p h)

pub has_byte-append : (c : ℕ) (s t : Text) → has_byte c (s ++ t) ≡ (has_byte c s || has_byte c t)
unfolding has_byte
has_byte-append c [] t = refl
has_byte-append c (a ∷ s) t = ground (arith, has_byte-append c s t)

-- A text is cut at the first occurrence of the byte.
pub cut-append : (c : ℕ) (s t : Text) → has_byte c s ≡ false → cut c (s ++ c ∷ t) ≡ some (s, t)
unfolding has_byte cut
cut-append c [] t h = rw (==_refl c) refl
cut-append c (a ∷ s) t h = ground (arith, cut-append c s t)

pub cut-none : (c : ℕ) (s : Text) → has_byte c s ≡ false → cut c s ≡ none
unfolding has_byte cut
cut-none c [] h = refl
cut-none c (a ∷ s) h = ground (arith, cut-none c s)

pub cut_sound :
    (c : ℕ) (s a b : Text) → cut c s ≡ some (a, b) → (s ≡ a ++ c ∷ b) × (has_byte c a ≡ false)
unfolding has_byte cut
cut_sound c [] a b h = cc
cut_sound c (x ∷ s) a b h = elim (Bool-cases (x == c)) [
  | inl hit ↦ ground arith
  | inr miss ↦ elim (Option-cases (cut c s)) [
    | inl e ↦ ground arith
    | inr ((u, v), e) ↦ ground (arith, cut_sound c s u v e)
  ]
]

pub has_byte-reverse : (c : ℕ) (s : Text) → has_byte c (reverse s) ≡ has_byte c s
unfolding has_byte
has_byte-reverse c [] = refl
has_byte-reverse c (a ∷ s) =
    rw (reverse-cons a s)
      (rw (has_byte-append c (reverse s) (a ∷ [])) (rw (has_byte-reverse c s) (ground arith)))

pub cut_last-append :
    (c : ℕ) (s t : Text) → has_byte c t ≡ false → cut_last c (s ++ c ∷ t) ≡ some (s, t)
unfolding cut_last
cut_last-append c s t h =
    rw
      (
        turned,
        cut-append c (reverse t) (reverse s) (has_byte-reverse c t ∙ h),
        reverse-reverse s,
        reverse-reverse t,
      )
      refl
  where
    turned : reverse (s ++ c ∷ t) ≡ reverse t ++ c ∷ reverse s
    turned =
        reverse-append s (c ∷ t)
        ∙ (ap (λ u. u ++ reverse s) (reverse-cons c t)
            ∙ append_assoc (reverse t) (c ∷ []) (reverse s))

pub cut_last-none : (c : ℕ) (s : Text) → has_byte c s ≡ false → cut_last c s ≡ none
unfolding cut_last
cut_last-none c s h = rw (cut-none c (reverse s) (has_byte-reverse c s ∙ h)) refl

pub not_first : (c a : ℕ) (s : Text) → has_byte c (a ∷ s) ≡ false → (a == c) ≡ false
unfolding has_byte
not_first c a s h = ground arith

pub has_suffix-append : (s p : Text) → has_suffix (s ++ p) p ≡ true
unfolding has_suffix
has_suffix-append s p = rw (reverse-append s p) (has_prefix-append (reverse p) (reverse s))

pub has_suffix_sound : (s p : Text) → has_suffix s p ≡ true → (stem : Text) × (s ≡ stem ++ p)
unfolding has_suffix
has_suffix_sound s p h =
    let rest = drop (length (reverse p)) (reverse s) in
    (
      reverse rest,
      sym (reverse-reverse s)
          ∙ (ap reverse (has_prefix_sound (reverse s) (reverse p) h)
              ∙ (reverse-append (reverse p) rest
                  ∙ ap (λ u. reverse rest ++ u) (reverse-reverse p))),
    )
