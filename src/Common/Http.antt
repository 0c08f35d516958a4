-- ===== src/Common/Http.antt =====
-- What the handlers use of package net/http: the request, the response writer, `http.Error`.
-- Header keys are written in their canonical form, as `Header.Set` and `Header.Get` make them.
pub mod Answers
use Prim.Native.Nat.{ℕ}
use Prim.Native.String.{String}
use text.Mathlib.Text.{◌==◌ as str_eq}
use text.Mathlib.TextEquality.{eq_iff}
use mathlib.Core.Path.{◌≡◌, refl}
use mathlib.Core.Bool.{Bool}
use mathlib.Core.Option.{Option, none, some}
use mathlib.Core.List.{List, [], ◌∷◌, ◌++◌}
use native.Mathlib.Omega.{arith}
use orcacommon.Common.Tests.{if◌then◌else◌}
use orcacommon.Common.Text.{Text, codes}

abbrev pub Header : Type 0
Header = List (String × Text)

-- The first value of a key, `none` if the key is missing.
unfoldable pub lookup : String → Header → Option Text
lookup k [] = none
lookup k ((j, v) ∷ h) = if str_eq j k then some v else lookup k h

unfoldable pub insert : String → Text → Header → Header
insert k v [] = (k, v) ∷ []
insert k v ((j, u) ∷ h) = if str_eq j k then (k, v) ∷ h else (j, u) ∷ insert k v h

-- `Header.Get`: the empty text if the key is missing.
unfoldable pub header_get : String → Header → Text
unfolding lookup
header_get k h = elim (lookup k h) [ none ↦ [] | some v ↦ v ]

pub record Request : Type 0 where
  pub method : String
  pub path : Text
  pub remote_addr : Text
  pub header : Header
  pub cookies : Header
  pub body : Text

pub record Cookie : Type 0 where
  pub name : String
  pub value : Text
  pub path : String
  pub same_site_strict : Bool
  pub http_only : Bool
  pub secure : Bool

-- `status` is the code sent, `none` before the first write.
pub record Writer : Type 0 where
  pub header : Header
  pub cookies : List Cookie
  pub status : Option ℕ
  pub body : Text

abbrev pub fresh : Writer
fresh = record { header = []; cookies = []; status = none; body = [] }

-- A header that is set after the status has been sent does not reach the client.
unfoldable pub set_header : String → Text → Writer → Writer
unfolding insert
set_header k v w = elim w.status [ none ↦ record w { header = insert k v w.header } | some _ ↦ w ]

unfoldable pub set_cookie : Cookie → Writer → Writer
set_cookie c w = elim w.status [ none ↦ record w { cookies = w.cookies ++ c ∷ [] } | some _ ↦ w ]

-- The first code wins.
unfoldable pub write_header : ℕ → Writer → Writer
write_header code w = elim w.status [ none ↦ record w { status = some code } | some _ ↦ w ]

-- `w.Write(data)` sends status 200 if none was sent.
unfoldable pub write : Text → Writer → Writer
unfolding write_header
write text w = let v = write_header 200 w in record v { body = v.body ++ text }

-- `http.Error(w, msg, code)`.
unfoldable pub http_error : String → ℕ → Writer → Writer
unfolding set_header write write_header
http_error msg code w = write (codes msg ++ 10 ∷ []) (
    write_header code (
      set_header "X-Content-Type-Options" (codes "nosniff")
        (set_header "Content-Type" (codes "text/plain; charset=utf-8") w)))

-- `http.NotFound(w, r)`.
unfoldable pub not_found : Writer → Writer
unfolding http_error
not_found w = http_error "404 page not found" 404 w

-- A handler may also change a state of its own.
abbrev pub Handler : Type 0 → Type 0
Handler S = Request → Writer × S → Writer × S

pub lookup-insert :
    (k j : String) (v : Text) (h : Header)
    → lookup j (insert k v h) ≡ (if str_eq k j then some v else lookup j h)
unfolding lookup insert
lookup-insert k j v [] = refl
lookup-insert k j v ((i, u) ∷ h) =
    ground (arith, eq_iff k j, eq_iff i k, eq_iff i j, lookup-insert k j v h)

-- On a response that has not been started, `http.Error` decides the status.
pub status-http_error :
    (msg : String) (code : ℕ) (w : Writer)
    → w.status ≡ none
    → (http_error msg code w).status ≡ some code
unfolding http_error
status-http_error msg code w h = ground arith

pub cookies-http_error :
    (msg : String) (code : ℕ) (w : Writer) → (http_error msg code w).cookies ≡ w.cookies
unfolding http_error
cookies-http_error msg code w = ground arith
