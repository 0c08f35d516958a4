-- ===== src/Common/Http/Answers.antt =====
-- What a client receives.
use orcacommon.Common.Tests.{if◌then◌else◌}
use text.Mathlib.Text.{◌==◌ as str_eq}
use Prim.Native.Nat.{ℕ}
use Prim.Native.String.{String}
use mathlib.Core.Path.{◌≡◌}
use mathlib.Core.Option.{none, some}
use mathlib.Core.List.{[], ◌∷◌, ◌++◌}
use native.Mathlib.Omega.{arith}
use orcacommon.Common.Text.{Text, codes}
use orcacommon.Common.Http.{
  Writer, set_header, write, write_header, http_error, not_found, lookup, lookup-insert,
}

-- Nothing has been sent.
abbrev pub IsFresh : Writer → Type 0
IsFresh w = (w.status ≡ none) × (w.body ≡ [])

abbrev pub IsAnswer : ℕ → Text → Writer → Type 0
IsAnswer code text w = (w.status ≡ some code) × (w.body ≡ text)

pub IsFresh-set_header :
    (k : String) (v : Text) (w : Writer) → IsFresh w → IsFresh (set_header k v w)
unfolding set_header
IsFresh-set_header k v w (s, b) = (ground arith, ground arith)

pub IsAnswer-write : (text : Text) (w : Writer) → IsFresh w → IsAnswer 200 text (write text w)
unfolding write write_header
IsAnswer-write text w (s, b) = (ground arith, ground arith)

pub IsAnswer-http_error :
    (msg : String) (code : ℕ) (w : Writer)
    → IsFresh w
    → IsAnswer code (codes msg ++ 10 ∷ []) (http_error msg code w)
unfolding http_error
IsAnswer-http_error msg code w (s, b) = (ground arith, ground arith)

pub IsAnswer-not_found :
    (w : Writer) → IsFresh w → IsAnswer 404 (codes "404 page not found" ++ 10 ∷ []) (not_found w)
unfolding not_found
IsAnswer-not_found w f = IsAnswer-http_error "404 page not found" 404 w f

pub lookup-set_header :
    (k j : String) (v : Text) (w : Writer)
    → w.status ≡ none
    → lookup j (set_header k v w).header ≡ (if str_eq k j then some v else lookup j w.header)
unfolding set_header
lookup-set_header k j v w s = rw (s, set_header) (lookup-insert k j v w.header)

pub header-write : (text : Text) (w : Writer) → (write text w).header ≡ w.header
unfolding write write_header
header-write text w = ground arith

pub cookies-set_header :
    (k : String) (v : Text) (w : Writer) → (set_header k v w).cookies ≡ w.cookies
unfolding set_header
cookies-set_header k v w = ground arith

pub cookies-write : (text : Text) (w : Writer) → (write text w).cookies ≡ w.cookies
unfolding write write_header
cookies-write text w = ground arith
