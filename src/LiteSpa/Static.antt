-- ===== src/LiteSpa/Static.antt =====
-- litespaserver/static.go: the allow-list of static files and their cache. Matching a pattern
-- (doublestar) is a parameter. Requests come one after the other: that concurrent fetches of a URL
-- are joined to one is left out.
pub mod Retrieve
use orcacommon.Common.{
  ℕ, ltb, leb, ◌||◌, if◌then◌else◌, Bool, true, false, Option, none, some, List, [], ◌∷◌, ◌++◌,
  is_empty, any,
}
use orcacommon.Common.Text.{Text, codes}
use orcacommon.LiteSpa.Cache.{Cache, lookup, put, static_cache_capacity}
use orcacommon.LiteSpa.Fetch.{Get}

pub record StaticRetriever : Type 0 where
  pub patterns : List Text
  pub file_cache : Cache

unfoldable pub non_empty : List Text → List Text
non_empty [] = []
non_empty (p ∷ ps) = if is_empty p then non_empty ps else p ∷ non_empty ps

-- `newStaticRetriever`.
unfoldable pub new_static_retriever : List Text → StaticRetriever
new_static_retriever paths = record { patterns = non_empty paths; file_cache = [] }

-- `isStatic`: a malformed pattern does not match.
unfoldable pub is_static : (Text → Text → Bool) → StaticRetriever → Text → Bool
is_static glob s req_path = any (λ p. glob p req_path) s.patterns

abbrev pub file_url : Text → Text → Text → Text
file_url cdn version path = cdn ++ codes "/" ++ version ++ path

-- The body of a response with a status from 200 to 299.
unfoldable pub download : Get → Text → Option Text
download get url = elim (get url) [
  | none ↦ none
  | some (status, body) ↦ if ltb status 200 || leb 300 status then none else some body
]

-- `retrieve`: the text or an error, and the new state.
unfoldable pub retrieve :
    Get → ℕ → Text → Text → Text → StaticRetriever → Option Text × StaticRetriever
retrieve get choice cdn version path s =
    let url = file_url cdn version path in
    elim (lookup url s.file_cache) [
      | some cached ↦ (some cached, s)
      | none ↦ elim (download get url) [
        | none ↦ (none, s)
        | some body ↦ (
          some body,
          record s { file_cache = put static_cache_capacity choice url body s.file_cache },
        )
      ]
    ]
