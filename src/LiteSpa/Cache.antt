-- ===== src/LiteSpa/Cache.antt =====
-- The bounded in-memory caches of litespaserver: `indexStore` and `indexLookup` of serve.go, and
-- `put` of static.go. A Go map is a list of entries; the entry that is evicted, the first that a
-- Go iteration over the map meets, is any: `choice` picks it.
pub mod Laws
use orcacommon.Common.{
  ℕ, ◌%◌, leb, if◌then◌else◌, Option, none, some, List, [], ◌∷◌, length, get_elem?,
}
use orcacommon.Common.Text.{Text, text_eq}

abbrev pub Cache : Type 0
Cache = List (Text × Text)

unfoldable pub lookup : Text → Cache → Option Text
lookup k [] = none
lookup k ((j, v) ∷ m) = if text_eq j k then some v else lookup k m

unfoldable pub insert : Text → Text → Cache → Cache
insert k v [] = (k, v) ∷ []
insert k v ((j, u) ∷ m) = if text_eq j k then (k, v) ∷ m else (j, u) ∷ insert k v m

unfoldable pub delete : Text → Cache → Cache
delete k [] = []
delete k ((j, u) ∷ m) = if text_eq j k then delete k m else (j, u) ∷ delete k m

-- `for k := range m { delete(m, k); break }`.
unfoldable pub evict : ℕ → Cache → Cache
evict choice m = elim (get_elem? m (choice % length m)) [ none ↦ m | some entry ↦ delete entry.0 m ]

-- `put`, and `indexStore`.
unfoldable pub put : ℕ → ℕ → Text → Text → Cache → Cache
put capacity choice k v m = insert k v (if leb capacity (length m) then evict choice m else m)

abbrev pub index_cache_capacity : ℕ
index_cache_capacity = 10

abbrev pub static_cache_capacity : ℕ
static_cache_capacity = 16
