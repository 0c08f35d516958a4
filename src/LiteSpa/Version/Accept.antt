-- ===== src/LiteSpa/Version/Accept.antt =====
-- When `SetVersion` accepts a candidate, and what it changes.
use orcacommon.Common.{
  ℕ, ◌-◌, ◌≡◌, ◌≢◌, refl, ltb, if◌then◌else◌, true, false, none, some, List, [], ◌∷◌, Bool-cases,
  Option-cases, inl, inr, ◌⊎◌, ◌∙◌, ap,
}
use orcacommon.Common.Text.{Text, text_eq}
use orcacommon.Common.Text.Laws.{text_eq_refl}
use orcacommon.LiteSpa.Cache.{lookup}
use orcacommon.LiteSpa.Dao.{Db, get_version, set_row}
use orcacommon.LiteSpa.Fetch.{Get, FetchedVersion, fetch}
use orcacommon.LiteSpa.Version.{
  db_cache_ttl, Provider, fixed, stored, Listener, Manager, reload, provider_version,
  provider_refresh, version, force_refresh, is_valid_version, notify_listeners, is_fixed,
  set_version,
}
use orcacommon.LiteSpa.Version.Laws.{set_row_inv, lookup-set_row}

-- Why a candidate is refused.
abbrev pub IsRefused : Get → Manager → Text → Type 0
IsRefused get m candidate =
    (is_fixed m.provider ≡ true)
    ⊎ ((candidate ≡ [])
        ⊎ ((fetch get m.cdn candidate ≡ none) ⊎ (set_row m.db m.key candidate ≡ none)))

-- What a manager serves after it has accepted a candidate. If its row can be read, the candidate is
-- served; if not, the provider has kept what it had. In both cases the candidate is served once the
-- row is read as it was written, where the provider has no version or a stale one.
abbrev pub IsServed : Manager → Text → Manager → Type 0
IsServed m candidate m' =
    (((m.db.read_fails ≡ false) × ((later : ℕ) → (version later m').0 ≡ candidate))
      ⊎ ((m.db.read_fails ≡ true) × (m'.provider ≡ m.provider)))
    × ((db : Db) (later : ℕ) (cached : Text) (loaded_at : ℕ)
        → get_version db m.key ≡ some candidate
        → m'.provider ≡ stored cached loaded_at
        → (cached ≡ []) ⊎ (ltb (later - loaded_at) db_cache_ttl ≡ false)
        → (version later (record m' { db = db })).0 ≡ candidate)

-- What holds of a manager that has accepted a candidate.
abbrev pub IsInstalled : Get → Manager → Text → Manager → Type 0
IsInstalled get m candidate m' =
    (is_fixed m.provider ≡ false)
    × (candidate ≢ [])
    × ((fv : FetchedVersion) × (fetch get m.cdn candidate ≡ some fv))
    × ((j : Text)
        → lookup j m'.db.rows ≡ (if text_eq m.key j then some candidate else lookup j m.db.rows))
    × IsServed m candidate m'
    × (m'.cdn ≡ m.cdn)
    × (m'.key ≡ m.key)

Provider-cases :
    (p : Provider)
    → ((v : Text) × (p ≡ fixed v))
      ⊎ ((cached : Text) × (loaded_at : ℕ) × (p ≡ stored cached loaded_at))
Provider-cases (fixed v) = inl (v, refl)
Provider-cases (stored cached loaded_at) = inr (cached, loaded_at, refl)

is_valid_version_cases :
    (get : Get) (m : Manager) (candidate : Text)
    → ((is_valid_version get m candidate ≡ true)
        × (candidate ≢ [])
        × (fv : FetchedVersion) × (fetch get m.cdn candidate ≡ some fv))
      ⊎ ((is_valid_version get m candidate ≡ false)
          × ((candidate ≡ []) ⊎ (fetch get m.cdn candidate ≡ none)))
unfolding is_valid_version
is_valid_version_cases get m [] = inr (refl, inl refl)
is_valid_version_cases get m (c ∷ cs) = elim (Option-cases (fetch get m.cdn (c ∷ cs))) [
  | inl e ↦ inr (rw e refl, inr e)
  | inr (fv, e) ↦ inl (rw e refl, (λ h. cc), fv, e)
]

refreshed :
    (db : Db) (key : Text) (now : ℕ) (cached candidate : Text) (loaded_at : ℕ)
    → get_version db key ≡ some candidate
    → provider_refresh db key now (stored cached loaded_at) ≡ stored candidate now
unfolding provider_refresh reload
refreshed db key now cached candidate loaded_at row = rw (row, provider_refresh, reload) refl

served_from :
    (db : Db) (key : Text) (later : ℕ) (candidate : Text) (loaded_at : ℕ)
    → candidate ≢ []
    → get_version db key ≡ some candidate
    → (provider_version db key later (stored candidate loaded_at)).0 ≡ candidate
unfolding provider_version reload
served_from db key later [] loaded_at full row = elim (full refl) [ ]
served_from db key later (c ∷ cs) loaded_at full row =
    elim (Bool-cases (ltb (later - loaded_at) db_cache_ttl)) [
      | inl h ↦ rw h refl
      | inr h ↦ rw h (rw (row, reload) refl)
    ]

served :
    (now later : ℕ) (m : Manager) (cached candidate : Text) (loaded_at : ℕ)
    → m.provider ≡ stored cached loaded_at
    → candidate ≢ []
    → get_version m.db m.key ≡ some candidate
    → (version later (force_refresh now m)).0 ≡ candidate
unfolding version force_refresh
served now later m cached candidate loaded_at e full row =
    rw (e, force_refresh, refreshed m.db m.key now cached candidate loaded_at row)
      (served_from m.db m.key later candidate now full row)

accepted :
    {W : Type 0}
    → (get : Get) (now : ℕ) (listeners : List (Listener W)) (candidate : Text) (m : Manager) (w : W)
      (db : Db)
    → is_fixed m.provider ≡ false
    → is_valid_version get m candidate ≡ true
    → set_row m.db m.key candidate ≡ some db
    → set_version get now listeners candidate m w
      ≡ (true, force_refresh now (record m { db = db }), notify_listeners listeners w)
unfolding set_version
accepted get now listeners candidate m w db e ok row = rw (e, ok, row, set_version) refl

refused :
    {W : Type 0}
    → (get : Get) (now : ℕ) (listeners : List (Listener W)) (candidate : Text) (m : Manager) (w : W)
    → is_fixed m.provider ≡ false
    → is_valid_version get m candidate ≡ false
    → set_version get now listeners candidate m w ≡ (false, m, w)
unfolding set_version
refused get now listeners candidate m w e bad = rw (e, bad, set_version) refl

unwritten :
    {W : Type 0}
    → (get : Get) (now : ℕ) (listeners : List (Listener W)) (candidate : Text) (m : Manager) (w : W)
    → is_fixed m.provider ≡ false
    → is_valid_version get m candidate ≡ true
    → set_row m.db m.key candidate ≡ none
    → set_version get now listeners candidate m w ≡ (false, m, w)
unfolding set_version
unwritten get now listeners candidate m w e ok row = rw (e, ok, row, set_version) refl

-- A row that cannot be read changes nothing.
unread :
    (db : Db) (key : Text) (now : ℕ) (cached : Text) (loaded_at : ℕ)
    → get_version db key ≡ none
    → provider_refresh db key now (stored cached loaded_at) ≡ stored cached loaded_at
unfolding provider_refresh reload
unread db key now cached loaded_at row = rw (row, provider_refresh, reload) refl

get_version-fails : (db : Db) (key : Text) → db.read_fails ≡ true → get_version db key ≡ none
unfolding get_version
get_version-fails db key f = rw (f, get_version) refl

get_version-lookup :
    (db : Db) (key v : Text)
    → db.read_fails ≡ false
    → lookup key db.rows ≡ some v
    → get_version db key ≡ some v
unfolding get_version
get_version-lookup db key v up row = rw (up, row, get_version) refl

-- A provider without a fresh version reads the row.
reread :
    (db : Db) (key : Text) (later : ℕ) (cached candidate : Text) (loaded_at : ℕ)
    → get_version db key ≡ some candidate
    → (cached ≡ []) ⊎ (ltb (later - loaded_at) db_cache_ttl ≡ false)
    → (provider_version db key later (stored cached loaded_at)).0 ≡ candidate
unfolding provider_version reload
reread db key later cached candidate loaded_at row (inl e) =
    rw (e, provider_version, row, reload) refl
reread db key later [] candidate loaded_at row (inr h) = rw (row, provider_version, reload) refl
reread db key later (c ∷ cs) candidate loaded_at row (inr h) =
    rw (h, provider_version, row, reload) refl

reread_version :
    (m : Manager) (db : Db) (later : ℕ) (cached candidate : Text) (loaded_at : ℕ)
    → get_version db m.key ≡ some candidate
    → m.provider ≡ stored cached loaded_at
    → (cached ≡ []) ⊎ (ltb (later - loaded_at) db_cache_ttl ≡ false)
    → (version later (record m { db = db })).0 ≡ candidate
unfolding version
reread_version m db later cached candidate loaded_at row e old =
    rw (e, version) (reread db m.key later cached candidate loaded_at row old)

served_by :
    (now : ℕ) (candidate : Text) (m : Manager) (cached : Text) (loaded_at : ℕ) (db : Db)
    → m.provider ≡ stored cached loaded_at
    → candidate ≢ []
    → db.read_fails ≡ m.db.read_fails
    → lookup m.key db.rows ≡ some candidate
    → ((m.db.read_fails ≡ false)
        × ((later : ℕ) → (version later (force_refresh now (record m { db = db }))).0 ≡ candidate))
      ⊎ ((m.db.read_fails ≡ true)
          × ((force_refresh now (record m { db = db })).provider ≡ m.provider))
unfolding force_refresh
served_by now candidate m cached loaded_at db e full same row = elim (Bool-cases m.db.read_fails) [
  | inl down ↦ inr (
    down,
    rw (e) (unread db m.key now cached loaded_at (get_version-fails db m.key (same ∙ down))),
  )
  | inr up ↦ inl (
    up,
    λ later.
        served now later (record m { db = db }) cached candidate loaded_at e full
          (get_version-lookup db m.key candidate (same ∙ up) row),
  )
]

installed :
    (get : Get) (now : ℕ) (candidate : Text) (m : Manager) (cached : Text) (loaded_at : ℕ) (db : Db)
    → m.provider ≡ stored cached loaded_at
    → candidate ≢ []
    → (fv : FetchedVersion) × (fetch get m.cdn candidate ≡ some fv)
    → set_row m.db m.key candidate ≡ some db
    → IsInstalled get m candidate (force_refresh now (record m { db = db }))
unfolding force_refresh
installed get now candidate m cached loaded_at db e full fetched row =
    let stands : (j : Text)
        → lookup j db.rows ≡ (if text_eq m.key j then some candidate else lookup j m.db.rows) =
      λ j. lookup-set_row m.db db m.key candidate j row in
    let here : lookup m.key db.rows ≡ some candidate =
      stands m.key ∙ rw (text_eq_refl m.key) refl in
    let same : db.read_fails ≡ m.db.read_fails =
      ap (λ d. d.read_fails) (set_row_inv m.db db m.key candidate row) in
    let m' : Manager = force_refresh now (record m { db = db }) in
    (
      rw e refl,
      full,
      fetched,
      stands,
      (
        served_by now candidate m cached loaded_at db e full same here,
        λ d later c at read p old. reread_version m' d later c candidate at read p old,
      ),
      refl,
      refl,
    )

-- A new version is accepted exactly if the version is not fixed, the candidate is not empty, its
-- page can be fetched, and the row can be written. Then its row is the candidate, other rows stay,
-- and all listeners run. If the row can also be read, the candidate is served from then on while it
-- stays; if it cannot, the version that was cached stays, and the candidate is served once the row
-- can be read and no version is cached or its five minutes are over. Otherwise nothing changes and
-- no listener runs.
pub set_version_cases :
    {W : Type 0}
    → (get : Get) (now : ℕ) (listeners : List (Listener W)) (candidate : Text) (m : Manager) (w : W)
    → ((m' : Manager) × (set_version get now listeners candidate m w
          ≡ (true, m', notify_listeners listeners w))
        × IsInstalled get m candidate m')
      ⊎ ((set_version get now listeners candidate m w ≡ (false, m, w)) × IsRefused get m candidate)
unfolding set_version
set_version_cases get now listeners candidate m w = elim (Provider-cases m.provider) [
  | inl (v, e) ↦ inr (rw (e, set_version) refl, inl (rw e refl))
  | inr (cached, loaded_at, e) ↦ elim (is_valid_version_cases get m candidate) [
    | inr (bad, why) ↦ inr (
      refused get now listeners candidate m w (rw e refl) bad,
      inr (elim why [ inl n ↦ inl n | inr n ↦ inr (inl n) ]),
    )
    | inl (ok, full, fv, fetched) ↦ elim (Option-cases (set_row m.db m.key candidate)) [
      | inl none_e ↦
          inr (
            unwritten get now listeners candidate m w (rw e refl) ok none_e,
            inr (inr (inr none_e)),
          )
      | inr (db, row) ↦ inl (
        force_refresh now (record m { db = db }),
        accepted get now listeners candidate m w db (rw e refl) ok row,
        installed get now candidate m cached loaded_at db e full (fv, fetched) row,
      )
    ]
  ]
]
