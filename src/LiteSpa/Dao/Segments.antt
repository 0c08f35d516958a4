-- ===== src/LiteSpa/Dao/Segments.antt =====
-- The names that `is_valid_name` accepts are segments with dots between them.
use orcacommon.Common.{
  ℕ, ◌≤◌, ◌==◌, ◌≡◌, ◌≢◌, refl, sym, ap, ap₂, ◌∙◌, ◌&&◌, not, if◌then◌else◌, Bool, true, false,
  List, [], ◌∷◌, ◌++◌, is_empty, all, All, ◌↔◌, ◌⊎◌, inl, inr, arith, Bool-cases, reverse,
}
use mathlib.Core.List.{reverse-cons}
use orcacommon.Common.Text.{Text, codes, join, contains, has_prefix, has_suffix}
use orcacommon.LiteSpa.Dao.{is_name_char, is_valid_name}

-- A letter or a digit of ASCII, an underscore or a hyphen.
abbrev pub IsSegmentChar : ℕ → Type 0
IsSegmentChar c =
    ((b'a' ≤ c) × (c ≤ b'z'))
    ⊎ (((b'A' ≤ c) × (c ≤ b'Z')) ⊎ (((b'0' ≤ c) × (c ≤ b'9')) ⊎ ((c ≡ b'_') ⊎ (c ≡ b'-'))))

abbrev pub IsSegment : Text → Type 0
IsSegment segment = (segment ≢ []) × All IsSegmentChar segment

-- The name from a place on, where `b` is whether a segment begins there.
unfoldable rest_ok : Bool → Text → Bool
rest_ok b [] = not b
rest_ok b (c ∷ s) =
    let inner = rest_ok false s in
    let outer = rest_ok true s in if c == b'.' then not b && outer else is_name_char c && inner

char_iff : (c : ℕ) → (c == b'.') ≡ false → (is_name_char c ≡ true) ↔ IsSegmentChar c
unfolding is_name_char
char_iff c h = (λ e. ground arith, λ e. ground arith)

two_last :
    (c d : ℕ) (u : Text)
    → has_prefix ((u ++ d ∷ []) ++ c ∷ []) (codes ".") ≡ has_prefix (u ++ d ∷ []) (codes ".")
unfolding has_prefix
two_last c d [] = refl
two_last c d (x ∷ u) = refl

last_dot :
    (c d : ℕ) (s : Text) → has_suffix (c ∷ d ∷ s) (codes ".") ≡ has_suffix (d ∷ s) (codes ".")
unfolding has_suffix
last_dot c d s = rw (reverse-cons c (d ∷ s), reverse-cons d s) (two_last c d (reverse s))

single_dot : (c : ℕ) → has_suffix (c ∷ []) (codes ".") ≡ (c == b'.')
unfolding has_suffix has_prefix
single_dot c = ground arith

no_last : has_suffix [] (codes ".") ≡ false
unfolding has_suffix has_prefix
no_last = refl

dot_char : (c : ℕ) → (c == b'.') ≡ true → is_name_char c ≡ true
unfolding is_name_char
dot_char c h = ground arith

rest_ok-true :
    (s : Text)
    → rest_ok true s ≡ (not (is_empty s) && not (has_prefix s (codes ".")) && rest_ok false s)
unfolding rest_ok has_prefix
rest_ok-true [] = refl
rest_ok-true (c ∷ s) = ground arith

-- The test without the first of the name.
abbrev tail_ok : Text → Bool
tail_ok s = all is_name_char s && not (contains s (codes "..")) && not (has_suffix s (codes "."))

rest_ok-false : (s : Text) → rest_ok false s ≡ tail_ok s
unfolding rest_ok contains has_prefix
rest_ok-false [] = rw no_last refl
rest_ok-false (c ∷ []) = rw (single_dot c) (ground (arith, dot_char c))
rest_ok-false (c ∷ d ∷ s) =
    rw (last_dot c d s)
      (ground (arith, rest_ok-false (d ∷ s), rest_ok-true (d ∷ s), dot_char c, dot_char d))

is_valid_name-rest_ok : (name : Text) → is_valid_name name ≡ rest_ok true name
unfolding is_valid_name
is_valid_name-rest_ok name = rw (rest_ok-true name, rest_ok-false name) (ground arith)

abbrev IsSplit : Bool → Text → Type 0
IsSplit b s =
    (segment : Text) × (segments : List Text) × (s ≡ join (segment ∷ segments) (codes "."))
    × All IsSegmentChar segment
    × (b ≡ true → segment ≢ [])
    × All IsSegment segments

join-cons :
    (c : ℕ) (p : Text) (ps : List Text)
    → join ((c ∷ p) ∷ ps) (codes ".") ≡ c ∷ join (p ∷ ps) (codes ".")
unfolding join
join-cons c p [] = refl
join-cons c p (q ∷ ps) = refl

dot_case : (b : Bool) (c : ℕ) (s : Text) → c ≡ b'.' → b ≡ false → IsSplit true s → IsSplit b (c ∷ s)
unfolding join
dot_case b c s dot inner (p, ps, e, chars, full, rest) = (
  [],
  p ∷ ps,
  ap₂ (λ d t. d ∷ t) dot e,
  tt,
  (λ h. absurd (cc (h, inner))),
  ((full refl, chars), rest),
)

char_case : (b : Bool) (c : ℕ) (s : Text) → IsSegmentChar c → IsSplit false s → IsSplit b (c ∷ s)
char_case b c s char (p, ps, e, chars, _, rest) =
    (c ∷ p, ps, ap (λ t. c ∷ t) e ∙ sym (join-cons c p ps), (char, chars), (λ h z. cc z), rest)

rest_ok-IsSplit : (b : Bool) (s : Text) → rest_ok b s ≡ true → IsSplit b s
unfolding rest_ok join
rest_ok-IsSplit b [] h = ([], [], refl, tt, (λ e. absurd (cc (rw e at h))), tt)
rest_ok-IsSplit b (c ∷ s) h = elim (Bool-cases (c == b'.')) [
  | inl dot ↦ dot_case b c s (ground arith) (ground arith) (rest_ok-IsSplit true s (ground arith))
  | inr other ↦
      char_case b c s ((char_iff c other).0 (ground arith)) (rest_ok-IsSplit false s (ground arith))
]

char_not_dot : (c : ℕ) → IsSegmentChar c → (c == b'.') ≡ false
char_not_dot c h = ground arith

rest_ok_step :
    (b : Bool) (c : ℕ) (s : Text)
    → IsSegmentChar c
    → rest_ok false s ≡ true
    → rest_ok b (c ∷ s) ≡ true
unfolding rest_ok
rest_ok_step b c s h r =
    let other = char_not_dot c h in ground (arith, (char_iff c other).1 h, other)

rest_ok_dot :
    (b : Bool) (s : Text) → b ≡ false → rest_ok true s ≡ true → rest_ok b (b'.' ∷ s) ≡ true
unfolding rest_ok
rest_ok_dot b s inner r = ground arith

begun : (b : Bool) (p : Text) → p ≡ [] → (b ≡ true → p ≢ []) → b ≡ false
begun true p e h = absurd (h refl e)
begun false p e h = refl

joined_ok :
    (segments : List Text) (segment : Text) (b : Bool)
    → All IsSegmentChar segment
    → (b ≡ true → segment ≢ [])
    → All IsSegment segments
    → rest_ok b (join (segment ∷ segments) (codes ".")) ≡ true
unfolding join rest_ok
joined_ok [] [] b chars full rest = rw (begun b [] refl full) refl
joined_ok [] (c ∷ p) b (char, chars) full rest =
    rest_ok_step b c p char (joined_ok [] p false chars (λ h. absurd (cc h)) tt)
joined_ok (q ∷ ps) [] b chars full ((some_q, q_chars), rest) =
    rest_ok_dot b (join (q ∷ ps) (codes ".")) (begun b [] refl full)
      (joined_ok ps q true q_chars (λ h. some_q) rest)
joined_ok (q ∷ ps) (c ∷ p) b (char, chars) full rest =
    rest_ok_step b c (join (p ∷ q ∷ ps) (codes ".")) char
      (joined_ok (q ∷ ps) p false chars (λ h. absurd (cc h)) rest)

-- The name is segments with dots between them.
abbrev pub IsName : Text → Type 0
IsName name =
    (segment : Text) × (segments : List Text) × All IsSegment (segment ∷ segments)
    × (name ≡ join (segment ∷ segments) (codes "."))

pub is_valid_name_iff : (name : Text) → (is_valid_name name ≡ true) ↔ IsName name
is_valid_name_iff name = (
  λ h.
      let (p, ps, e, chars, full, rest) =
        rest_ok-IsSplit true name (sym (is_valid_name-rest_ok name) ∙ h) in
      (p, ps, ((full refl, chars), rest), e),
  λ (p, ps, ((full, chars), rest), e).
      is_valid_name-rest_ok name
      ∙ (ap (rest_ok true) e ∙ joined_ok ps p true chars (λ h. full) rest),
)

pub IsName-empty : ¬ IsName []
unfolding is_valid_name
IsName-empty n = cc ((is_valid_name_iff []).1 n)
