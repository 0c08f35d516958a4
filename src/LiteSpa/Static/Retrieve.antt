-- ===== src/LiteSpa/Static/Retrieve.antt =====
-- The cache of static files is invisible.
use orcacommon.Common.{ℕ, ◌≤◌, ◌≡◌, refl, some, arith, length, Option-cases, inl, inr, sym}
use orcacommon.Common.Text.{Text}
use orcacommon.LiteSpa.Cache.{lookup, put, static_cache_capacity}
use orcacommon.LiteSpa.Cache.Laws.{length-put-le, lookup-put}
use orcacommon.LiteSpa.Fetch.{Get}
use orcacommon.LiteSpa.Static.{StaticRetriever, file_url, download, retrieve}

-- Within its capacity, and each entry is what the CDN gives for its URL.
pub record IsConsistent (get : Get) (s : StaticRetriever) : Type 0 where
  pub bounded : length s.file_cache ≤ static_cache_capacity
  pub served :
      (url body : Text) → lookup url s.file_cache ≡ some body → download get url ≡ some body

put-IsConsistent :
    (get : Get) (choice : ℕ) (url body : Text) (s : StaticRetriever)
    → IsConsistent get s
    → download get url ≡ some body
    → IsConsistent get
        (record s { file_cache = put static_cache_capacity choice url body s.file_cache })
put-IsConsistent get choice url body s c d = record {
  bounded =
      length-put-le static_cache_capacity choice url body s.file_cache (omega arith) c.bounded;
  served = λ u b h. elim (lookup-put static_cache_capacity choice url body u b s.file_cache h) [
    | inl (same, e) ↦ rw (same, e) d
    | inr old ↦ c.served u b old
  ];
}

-- While the CDN answers the cached URLs as it did, a file is retrieved as from the CDN itself, an
-- error included, and the cache stays consistent and within its capacity, whatever is evicted.
pub retrieve-IsConsistent :
    (get : Get) (choice : ℕ) (cdn version path : Text) (s : StaticRetriever)
    → IsConsistent get s
    → ((retrieve get choice cdn version path s).0 ≡ download get (file_url cdn version path))
      × IsConsistent get (retrieve get choice cdn version path s).1
unfolding retrieve
retrieve-IsConsistent get choice cdn version path s c =
    let url = file_url cdn version path in
    elim (Option-cases (lookup url s.file_cache)) [
      | inr (cached, e) ↦ rw (e, retrieve) (sym (c.served url cached e), c)
      | inl e ↦ elim (Option-cases (download get url)) [
        | inl d ↦ rw (e, retrieve, d) (refl, c)
        | inr (body, d) ↦ rw (e, retrieve, d) (refl, put-IsConsistent get choice url body s c d)
      ]
    ]
