-- ===== src/LiteSpa/Server/Reachable.antt =====
-- Every state that a server gets into. The owner registers `FlushCache` with `Manager.OnChange`, as
-- serve.go says.
use orcacommon.Common.{ℕ, ◌≡◌, Bool, false, some, [], ◌∷◌, arith, inl, inr}
use orcacommon.Common.Text.{Text}
use orcacommon.Common.Http.{Request, Writer}
use orcacommon.Common.Http.Answers.{IsFresh}
use orcacommon.EphemeralAuth.External.{Hash}
use orcacommon.LiteSpa.Cache.{lookup}
use orcacommon.LiteSpa.Csp.{CspConfig}
use orcacommon.LiteSpa.Dao.{Db}
use orcacommon.LiteSpa.Fetch.{Get}
use orcacommon.LiteSpa.Version.{Manager, Listener, set_version, notify_listeners}
use orcacommon.LiteSpa.Version.Accept.{set_version_cases}
use orcacommon.LiteSpa.Server.{Server, Env, serve_root_inner}
use orcacommon.LiteSpa.Server.Serving.{IsServing, serve_root_inner-reference}
use orcacommon.LiteSpa.Server.Wiring.{new_server_blank}
use orcacommon.LiteSpa.Server.Setup.{
  ServerConfig, new_server, refresh_version, flush_cache, set_csp,
}

abbrev flush_listener : Listener Server
flush_listener s = (flush_cache s, false)

-- `SetVersion` of the server's manager.
unfoldable pub set_server_version : Get → ℕ → Text → Server → Server
set_server_version get now candidate s =
    let (_, m, s') = set_version get now (flush_listener ∷ []) candidate s.manager s in
    record s' { manager = m }

module _ (h : Hash) (db : Db) (pool : Bool) (cfg : ServerConfig) (get : Get) where
  pub data Reached : Server → Type 0 where
    made : {s : Server} → new_server h db pool cfg ≡ some s → Reached s
    served :
        {s : Server} (env : Env) (r : Request) (w : Writer)
        → env.get ≡ get
        → IsFresh w
        → Reached s
        → Reached (serve_root_inner env r (w, s)).1
    policy : {s : Server} (csp : CspConfig) → Reached s → Reached (set_csp csp s)
    flushed : {s : Server} → Reached s → Reached (flush_cache s)
    refreshed : {s : Server} (now : ℕ) → Reached s → Reached (refresh_version now s)
    versioned :
        {s : Server} (now : ℕ) (candidate : Text)
        → Reached s
        → Reached (set_server_version get now candidate s)

-- A server whose caches are empty.
empty-IsServing :
    (get : Get) (s : Server) → s.index_cache ≡ [] → s.static.file_cache ≡ [] → IsServing get s
unfolding lookup
empty-IsServing get s index static = record {
  index_bounded = rw index (omega arith);
  index_served = λ v body e. cc (rw index at e);
  static_served = record {
    bounded = rw static (omega arith);
    served = λ url body e. cc (rw static at e);
  };
}

flush_cache-IsServing : (get : Get) (s : Server) → IsServing get s → IsServing get (flush_cache s)
unfolding flush_cache lookup
flush_cache-IsServing get s inv = record {
  index_bounded = omega arith;
  index_served = λ v body e. cc;
  static_served = inv.static_served;
}

manager-IsServing :
    (get : Get) (s : Server) (m : Manager)
    → IsServing get s
    → IsServing get (record s { manager = m })
manager-IsServing get s m inv = record {
  index_bounded = inv.index_bounded;
  index_served = inv.index_served;
  static_served = inv.static_served;
}

policy-IsServing :
    (get : Get) (s : Server) (csp : CspConfig)
    → IsServing get s
    → IsServing get (record s { csp = csp })
policy-IsServing get s csp inv = record {
  index_bounded = inv.index_bounded;
  index_served = inv.index_served;
  static_served = inv.static_served;
}

set_server_version-IsServing :
    (get : Get) (now : ℕ) (candidate : Text) (s : Server)
    → IsServing get s
    → IsServing get (set_server_version get now candidate s)
unfolding set_server_version notify_listeners
set_server_version-IsServing get now candidate s inv =
    elim (set_version_cases get now (flush_listener ∷ []) candidate s.manager s) [
      | inl (m, e, _) ↦
          rw (e, set_server_version)
            (manager-IsServing get (flush_cache s) m (flush_cache-IsServing get s inv))
      | inr (e, _) ↦ rw (e, set_server_version) (manager-IsServing get s s.manager inv)
    ]

-- While the CDN answers an URL always alike, whatever sequence of requests, new policies, new
-- versions, refreshes and flushes a server goes through, its caches stay within ten pages and sixteen files and hold what the CDN gives.
pub Reached-IsServing :
    (h : Hash) (db : Db) (pool : Bool) (cfg : ServerConfig) (get : Get) (s : Server)
    → Reached h db pool cfg get s
    → IsServing get s
unfolding set_csp refresh_version
Reached-IsServing h db pool cfg get s (made e) =
    let (index, static) = new_server_blank h db pool cfg s e in empty-IsServing get s index static
Reached-IsServing h db pool cfg get _ (served {s} env r w same f past) =
    rw (← same)
      (serve_root_inner-reference env r w s (rw same (Reached-IsServing h db pool cfg get s past))
        f).1
Reached-IsServing h db pool cfg get _ (policy {s} csp past) =
    flush_cache-IsServing get (record s { csp = csp })
      (policy-IsServing get s csp (Reached-IsServing h db pool cfg get s past))
Reached-IsServing h db pool cfg get _ (flushed {s} past) =
    flush_cache-IsServing get s (Reached-IsServing h db pool cfg get s past)
Reached-IsServing h db pool cfg get _ (refreshed {s} now past) =
    manager-IsServing get s _ (Reached-IsServing h db pool cfg get s past)
Reached-IsServing h db pool cfg get _ (versioned {s} now candidate past) =
    set_server_version-IsServing get now candidate s (Reached-IsServing h db pool cfg get s past)
