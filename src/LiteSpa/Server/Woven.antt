-- ===== src/LiteSpa/Server/Woven.antt =====
-- The first occurrence of a text in another is replaced: `strings.Replace` with a count of one.
use orcacommon.Common.{
  ℕ, ◌≤◌, ◌≡◌, ◌≢◌, refl, sym, ap, ◌∙◌, false, [], ◌∷◌, ◌++◌, length, drop, ◌⊎◌, inl, inr, arith,
  Bool-cases,
}
use orcacommon.Common.Text.{Text, has_prefix, replace_first}
use orcacommon.Common.Text.Laws.{has_prefix-append, has_prefix_sound}

-- `t` is `s` with `new` in the place where `old` occurs first, or `s` where `old` does not occur.
abbrev pub IsReplaced : Text → Text → Text → Text → Type 0
IsReplaced old new s t =
    ((before after : Text) × (s ≡ before ++ old ++ after)
      × ((b a : Text) → s ≡ b ++ old ++ a → length before ≤ length b)
      × (t ≡ before ++ new ++ after))
    ⊎ (((b a : Text) → s ≢ b ++ old ++ a) × (t ≡ s))

nowhere : (c : ℕ) (cs b a : Text) → [] ≢ b ++ (c ∷ cs) ++ a
nowhere c cs [] a e = cc e
nowhere c cs (x ∷ b) a e = cc e

not_here : (x : ℕ) (s old a : Text) → has_prefix (x ∷ s) old ≡ false → x ∷ s ≢ old ++ a
not_here x s old a h e =
    absurd (cc (sym h ∙ (ap (λ u. has_prefix u old) e ∙ has_prefix-append old a)))

later_place :
    (x : ℕ) (s old before : Text)
    → has_prefix (x ∷ s) old ≡ false
    → ((b a : Text) → s ≡ b ++ old ++ a → length before ≤ length b)
    → (b a : Text) → x ∷ s ≡ b ++ old ++ a
    → length (x ∷ before) ≤ length b
later_place x s old before h first [] a e = absurd (not_here x s old a h e)
later_place x s old before h first (y ∷ b) a e = let le = first b a (ap (drop 1) e) in omega arith

no_place :
    (x : ℕ) (s old : Text)
    → has_prefix (x ∷ s) old ≡ false
    → ((b a : Text) → s ≢ b ++ old ++ a)
    → (b a : Text) → x ∷ s ≢ b ++ old ++ a
no_place x s old h none [] a e = not_here x s old a h e
no_place x s old h none (y ∷ b) a e = none b a (ap (drop 1) e)

pub replace_first-IsReplaced :
    (c : ℕ) (cs new s : Text) → IsReplaced (c ∷ cs) new s (replace_first s (c ∷ cs) new)
unfolding replace_first has_prefix
replace_first-IsReplaced c cs new [] = inr (nowhere c cs, refl)
replace_first-IsReplaced c cs new (x ∷ s) = elim (Bool-cases (has_prefix (x ∷ s) (c ∷ cs))) [
  | inl h ↦
      rw (h, replace_first)
        (inl (
          [],
          drop (length (c ∷ cs)) (x ∷ s),
          has_prefix_sound (x ∷ s) (c ∷ cs) h,
          (λ b a e. omega arith),
          refl,
        ))
  | inr h ↦
      rw (h, replace_first)
        (elim (replace_first-IsReplaced c cs new s) [
          | inl (before, after, e, first, t) ↦ inl (
            x ∷ before,
            after,
            ap (λ u. x ∷ u) e,
            later_place x s (c ∷ cs) before h first,
            ap (λ u. x ∷ u) t,
          )
          | inr (none, t) ↦ inr (no_place x s (c ∷ cs) h none, ap (λ u. x ∷ u) t)
        ])
]
