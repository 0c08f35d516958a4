-- ===== src/LiteSpa/Version/Staleness.antt =====
-- How old a version that the stored provider serves can be. Other instances write the row: the
-- database is a function of the time.
use orcacommon.Common.{
  ℕ, ◌-◌, ◌+◌, ◌≤◌, ◌<◌, ◌≡◌, refl, ltb, ltb→lt, none, some, [], ◌∷◌, arith, Bool-cases,
  Option-cases, inl, inr, ◌⊎◌,
}
use orcacommon.Common.Text.{Text}
use orcacommon.LiteSpa.Dao.{Db, get_version}
use orcacommon.LiteSpa.Version.{
  db_cache_ttl, Provider, stored, reload, provider_version, provider_refresh,
}

module _ (db : ℕ → Db) (key : Text) where
  -- The providers that exist at a moment: a new one, and what a later request or refresh makes of one.
  -- `SetVersion` changes the row, which is `db` of the moment, and refreshes.
  pub data Reached : ℕ → Provider → Type 0 where
    start : (now : ℕ) → Reached now (stored [] 0)
    request :
        {before now : ℕ} {p : Provider}
        → Reached before p
        → before ≤ now
        → Reached now ((provider_version (db now) key now p).1)
    refresh :
        {before now : ℕ} {p : Provider}
        → Reached before p
        → before ≤ now
        → Reached now (provider_refresh (db now) key now p)

  -- The cached version was in the row when it was loaded.
  abbrev pub IsLoaded : ℕ → Text → ℕ → Type 0
  IsLoaded now cached loaded_at =
      (cached ≡ []) ⊎ ((loaded_at ≤ now) × (get_version (db loaded_at) key ≡ some cached))

  abbrev pub IsSound : ℕ → Provider → Type 0
  IsSound now p =
      (cached : Text) × (loaded_at : ℕ) × (p ≡ stored cached loaded_at)
      × IsLoaded now cached loaded_at

  -- What a request answers: no version, one that was in the row less than five minutes ago, or,
  -- while the database fails, one that was in the row at some time.
  abbrev pub IsRecent : ℕ → Text → Type 0
  IsRecent now v =
      (v ≡ [])
      ⊎ ((at : ℕ) × (at ≤ now)
          × (get_version (db at) key ≡ some v)
          × ((now < at + db_cache_ttl) ⊎ (get_version (db now) key ≡ none)))

  reloaded :
      (now : ℕ) (cached : Text) (loaded_at : ℕ)
      → IsLoaded now cached loaded_at
      → (let (v, p) = reload (db now) key now cached loaded_at cached in
          IsSound now p × IsRecent now v)
  unfolding reload
  reloaded now cached loaded_at old = elim (Option-cases (get_version (db now) key)) [
    | inl e ↦
        rw (e, reload)
          (
            (cached, loaded_at, refl, old),
            elim old [ inl n ↦ inl n | inr (le, r) ↦ inr (loaded_at, le, r, inr refl) ],
          )
    | inr (v, e) ↦
        rw (e, reload)
          ((v, now, refl, inr (omega arith, e)), inr (now, omega arith, e, inl (omega arith)))
  ]

  answered :
      (now : ℕ) (cached : Text) (loaded_at : ℕ)
      → IsLoaded now cached loaded_at
      → (let (v, p) = provider_version (db now) key now (stored cached loaded_at) in
          IsSound now p × IsRecent now v)
  unfolding provider_version
  answered now [] loaded_at old = reloaded now [] loaded_at old
  answered now (c ∷ cs) loaded_at old = elim (Bool-cases (ltb (now - loaded_at) db_cache_ttl)) [
    | inl h ↦
        rw (h, provider_version)
          (
            (c ∷ cs, loaded_at, refl, old),
            elim old [
              | inl n ↦ inl n
              | inr (le, r) ↦
                  inr
                    (loaded_at, le, r, inl (omega (arith, ltb→lt (now - loaded_at) db_cache_ttl h)))
            ],
          )
    | inr h ↦ rw (h, provider_version) (reloaded now (c ∷ cs) loaded_at old)
  ]

  later :
      (before now : ℕ) (cached : Text) (loaded_at : ℕ)
      → before ≤ now
      → IsLoaded before cached loaded_at
      → IsLoaded now cached loaded_at
  later before now cached loaded_at le old = elim old [
    | inl n ↦ inl n
    | inr (at, r) ↦ inr (omega arith, r)
  ]

  refreshed_provider :
      (now : ℕ) (cached : Text) (loaded_at : ℕ)
      → IsLoaded now cached loaded_at
      → IsSound now (provider_refresh (db now) key now (stored cached loaded_at))
  unfolding provider_refresh
  refreshed_provider now cached loaded_at old = (reloaded now cached loaded_at old).0

  Reached-IsSound : (now : ℕ) (p : Provider) → Reached now p → IsSound now p
  Reached-IsSound _ _ (start now) = ([], 0, refl, inl refl)
  Reached-IsSound _ _ (request {before} {now} {p} r le) =
      let (cached, loaded_at, e, old) = Reached-IsSound before p r in
      rw e (answered now cached loaded_at (later before now cached loaded_at le old)).0
  Reached-IsSound _ _ (refresh {before} {now} {p} r le) =
      let (cached, loaded_at, e, old) = Reached-IsSound before p r in
      rw e (refreshed_provider now cached loaded_at (later before now cached loaded_at le old))

  -- After any requests and refreshes, a request at any time answers no version, one that was in the row less than five minutes ago,
  -- or, while the database fails, one that was in the row at an earlier time.
  pub version_IsRecent :
      {before : ℕ} (now : ℕ) (p : Provider)
      → Reached before p
      → before ≤ now
      → IsRecent now ((provider_version (db now) key now p).0)
  version_IsRecent {before} now p r le =
      let (cached, loaded_at, e, old) = Reached-IsSound before p r in
      rw e (answered now cached loaded_at (later before now cached loaded_at le old)).1
