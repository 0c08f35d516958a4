-- ===== src/LiteSpa/Version.antt =====
-- litespaserver/version.go: the manager of the frontend version. The manager holds the database
-- behind its pool; times are nanoseconds. A listener changes a state `W` of the server's and tells
-- whether it panics.
pub mod Laws
pub mod Accept
pub mod Staleness
use orcacommon.Common.{
  ℕ, ◌-◌, ◌*◌, ltb, ◌&&◌, not, if◌then◌else◌, Bool, true, false, Option, none, some, List, [], ◌∷◌,
  ◌++◌, is_empty,
}
use orcacommon.Common.Text.{Text, codes}
use orcacommon.LiteSpa.Dao.{Db, version_key, get_version, set_row}
use orcacommon.LiteSpa.Fetch.{Get, fetch}

abbrev pub db_cache_ttl : ℕ
db_cache_ttl = 300 * 1000000000

-- `staticProvider` and `dbProvider`.
pub data Provider : Type 0 where
  fixed : Text → Provider
  stored : (cached : Text) (loaded_at : ℕ) → Provider

abbrev pub Listener : Type 0 → Type 0
Listener W = W → W × Bool

pub record Manager : Type 0 where
  pub cdn : Text
  pub key : Text
  pub db : Db
  pub provider : Provider

-- `reload`: the version, and the provider with its cache.
unfoldable pub reload : Db → Text → ℕ → Text → ℕ → Text → Text × Provider
reload db key now cached loaded_at fallback = elim (get_version db key) [
  | none ↦ (fallback, stored cached loaded_at)
  | some v ↦ (v, stored v now)
]

-- `version` of the two providers.
unfoldable pub provider_version : Db → Text → ℕ → Provider → Text × Provider
provider_version db key now (fixed v) = (v, fixed v)
provider_version db key now (stored cached loaded_at) =
    if not (is_empty cached) && ltb (now - loaded_at) db_cache_ttl
    then (cached, stored cached loaded_at)
    else reload db key now cached loaded_at cached

-- `refresh` of the two providers.
unfoldable pub provider_refresh : Db → Text → ℕ → Provider → Provider
provider_refresh db key now (fixed v) = fixed v
provider_refresh db key now (stored cached loaded_at) =
    (reload db key now cached loaded_at cached).1

-- `(*Manager).Version`.
unfoldable pub version : ℕ → Manager → Text × Manager
version now m =
    let (v, p) = provider_version m.db m.key now m.provider in (v, record m { provider = p })

-- `ForceRefresh`.
unfoldable pub force_refresh : ℕ → Manager → Manager
force_refresh now m = record m { provider = provider_refresh m.db m.key now m.provider }

-- `seedDefaultIfAbsent`: the database afterwards.
unfoldable pub seed_default_if_absent : Db → Text → Text → Db
seed_default_if_absent db key default_version = elim (get_version db key) [
  | none ↦ db
  | some v ↦
      if is_empty v && not (is_empty default_version)
      then elim (set_row db key default_version) [ none ↦ db | some db' ↦ db' ]
      else db
]

-- The fields of `Config` that the manager reads.
pub record VersionConfig : Type 0 where
  pub cdn_prefix : Text
  pub cdn_version : Text
  pub default_version : Text
  pub frontend_name : Text

-- `NewManager`: `pool` is whether there is one, `embedded` whether there is embedded content;
-- `none` is the panic on an invalid name.
unfoldable pub new_manager : Db → Bool → VersionConfig → Bool → Option Manager
new_manager db pool cfg embedded = elim (version_key cfg.frontend_name) [
  | none ↦ none
  | some key ↦
      let manager : Db → Provider → Manager =
        λ d p. record { cdn = cfg.cdn_prefix; key = key; db = d; provider = p } in
      some (
        if embedded
        then manager db (fixed (codes "embedded"))
        else if not (is_empty cfg.cdn_version)
        then manager db (fixed cfg.cdn_version)
        else if not pool
        then manager db (fixed cfg.default_version)
        else manager (seed_default_if_absent db key cfg.default_version) (stored [] 0))
]

-- `isValidVersion`.
unfoldable pub is_valid_version : Get → Manager → Text → Bool
is_valid_version get m candidate =
    if is_empty candidate
    then false
    else elim (fetch get m.cdn candidate) [ none ↦ false | some _ ↦ true ]

-- `notifyListeners`: a panic is recovered, and the next listener runs.
unfoldable pub notify_listeners : {W : Type 0} → List (Listener W) → W → W
notify_listeners [] w = w
notify_listeners (fn ∷ fns) w = notify_listeners fns (fn w).0

abbrev pub is_fixed : Provider → Bool
is_fixed (fixed _) = true
is_fixed (stored _ _) = false

-- `SetVersion`: whether the candidate was accepted, the manager, and the listeners' state.
unfoldable pub set_version :
    {W : Type 0} → Get → ℕ → List (Listener W) → Text → Manager → W → Bool × Manager × W
set_version get now listeners candidate m w =
    if is_fixed m.provider
    then (false, m, w)
    else if not (is_valid_version get m candidate)
    then (false, m, w)
    else elim (set_row m.db m.key candidate) [
      | none ↦ (false, m, w)
      | some db ↦ (true, force_refresh now (record m { db = db }), notify_listeners listeners w)
    ]
