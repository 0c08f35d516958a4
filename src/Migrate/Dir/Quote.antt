-- ===== src/Migrate/Dir/Quote.antt =====
-- A quoted identifier is read back by PostgreSQL's rule for quoted identifiers.
use mathlib.Core.Option
use orcacommon.Common.{
  ℕ, ◌==◌, ◌≡◌, refl, if◌then◌else◌, Bool, false, Option, none, some, [], ◌∷◌, ◌++◌, Bool-cases,
  inl, inr, ==_iff, ap, ◌∙◌, sym,
}
use mathlib.Core.List.{append_assoc}
use orcacommon.Common.Text.{Text}
use orcacommon.Migrate.Dir.{double_quotes, quote_ident}

abbrev add : ℕ → Option (Text × Text) → Option (Text × Text)
add c o = Option.map (λ (p : Text × Text). (c ∷ p.0, p.1)) o

-- The identifier and the rest, after the opening quote: two quotes stand for one.
read_quoted : Text → Option (Text × Text)
read_quoted [] = none
read_quoted (c ∷ []) = if c == b'"' then some ([], []) else none
read_quoted (c ∷ d ∷ s) =
    if c == b'"'
    then if d == b'"' then add b'"' (read_quoted s) else some ([], d ∷ s)
    else add c (read_quoted (d ∷ s))

unfoldable pub read_ident : Text → Option (Text × Text)
unfolding read_quoted
read_ident [] = none
read_ident (c ∷ s) = if c == b'"' then read_quoted s else none

abbrev pub begins_with_quote : Text → Bool
begins_with_quote [] = false
begins_with_quote (c ∷ s) = c == b'"'

read_plain : (c : ℕ) (s : Text) → (c == b'"') ≡ false → read_quoted (c ∷ s) ≡ add c (read_quoted s)
unfolding read_quoted
read_plain c [] h = rw (h, read_quoted) refl
read_plain c (d ∷ s) h = rw (h, read_quoted) refl

read_end :
    (rest : Text) → begins_with_quote rest ≡ false → read_quoted (b'"' ∷ rest) ≡ some ([], rest)
unfolding read_quoted
read_end [] h = refl
read_end (d ∷ s) h = rw h refl

read-double_quotes :
    (name rest : Text)
    → begins_with_quote rest ≡ false
    → read_quoted (double_quotes name ++ b'"' ∷ rest) ≡ some (name, rest)
unfolding double_quotes read_quoted
read-double_quotes [] rest h = read_end rest h
read-double_quotes (c ∷ name) rest h = elim (Bool-cases (c == b'"')) [
  | inl e ↦
      rw (e, double_quotes, read-double_quotes name rest h)
        (ap (λ d. some (d ∷ name, rest)) (sym ((==_iff c b'"').0 e)))
  | inr e ↦
      rw (e, double_quotes)
        (read_plain c (double_quotes name ++ b'"' ∷ rest) e
          ∙ ap (add c) (read-double_quotes name rest h))
]

-- Any name that is quoted is read back whole, whatever quotes are in it, and the statement goes on
-- after it, unless it goes on with a quote.
pub read-quote_ident :
    (name rest : Text)
    → begins_with_quote rest ≡ false
    → read_ident (quote_ident name ++ rest) ≡ some (name, rest)
unfolding quote_ident read_ident
read-quote_ident name rest h =
    rw (append_assoc (double_quotes name) (b'"' ∷ []) rest) (read-double_quotes name rest h)
