-- ===== src/Pool/Registry.antt =====
-- postgres/pool.go: the registry of pools and the goroutines that use it, `resolvePool`,
-- `ClosePoolWithKey` and `gracefulShutdown`. A step is what one goroutine does under a lock or in one
-- call; a program counter says what it does next. Entries, pools, resources and embedded servers are
-- numbers; entries are shared by pointer.
pub mod Threads
pub mod Effect
pub mod Bounds
pub mod Owners
pub mod Progress
pub mod Deadlock
pub mod Stragglers
pub mod Alone
pub mod Schedule
mod Runs
use orcacommon.Common.{
  ℕ, suc, ◌==◌, if◌then◌else◌, Bool, true, false, Option, none, some, List, [], ◌∷◌, ◌++◌, map,
  is_empty,
}
use orcacommon.Common.Text.{Text, text_eq}

-- `registryEntry`; `is_done` where the channel is closed.
pub record Entry : Type 0 where
  pub pool : Option ℕ
  pub resources : List ℕ
  pub is_done : Bool

abbrev pub new_entry : Entry
new_entry = record { pool = none; resources = []; is_done = false }

abbrev pub Keyed : Type 0
Keyed = List (Text × ℕ)

unfoldable pub find_key : Text → Keyed → Option ℕ
find_key k [] = none
find_key k ((j, e) ∷ m) = if text_eq j k then some e else find_key k m

unfoldable pub delete_key : Text → Keyed → Keyed
delete_key k [] = []
delete_key k ((j, e) ∷ m) = let rest = delete_key k m in if text_eq j k then rest else (j, e) ∷ rest

abbrev pub put_key : Text → ℕ → Keyed → Keyed
put_key k e m = (k, e) ∷ delete_key k m

-- What happens to pools, resources and servers, the newest event first.
pub data Event : Type 0 where
  pool_closed : ℕ → Event
  released : ℕ → Event
  stopped : ℕ → Event

-- `next` is the number of entries that were made; `keys` is the map of the registry, `instances` the
-- map of embedded servers.
pub record Store : Type 0 where
  pub entries : ℕ → Entry
  pub next : ℕ
  pub keys : Keyed
  pub instances : Keyed
  pub shutting_down : Bool
  pub log : List Event

abbrev pub set_entry : ℕ → Entry → (ℕ → Entry) → ℕ → Entry
set_entry e v f i = if i == e then v else f i

abbrev pub pool_of : Store → ℕ → Option ℕ
pool_of s e = let entry = s.entries e in entry.pool

abbrev pub is_done_of : Store → ℕ → Bool
is_done_of s e = let entry = s.entries e in entry.is_done

abbrev pub with_pool : Option ℕ → Entry → Entry
with_pool p v = record { pool = p; resources = v.resources; is_done = v.is_done }

abbrev pub with_resources : List ℕ → Entry → Entry
with_resources r v = record { pool = v.pool; resources = r; is_done = v.is_done }

abbrev pub as_done : Entry → Entry
as_done v = record { pool = v.pool; resources = v.resources; is_done = true }

abbrev pub set_pool : ℕ → Option ℕ → Store → Store
set_pool e p s = record s { entries = set_entry e (with_pool p (s.entries e)) s.entries }

-- `attachAcquired`.
unfoldable pub attach_acquired : ℕ → ℕ → Store → Store
attach_acquired e r s =
    let entry = s.entries e in
    record s { entries = set_entry e (with_resources (entry.resources ++ r ∷ []) entry) s.entries }

-- The events of releasing resources: the last that was acquired is the first, whether or not one
-- fails, and the newest event stands first in the log.
unfoldable pub release_events : List ℕ → List Event → List Event
release_events [] log = log
release_events (r ∷ rs) log = released r ∷ release_events rs log

-- `releaseAll`.
unfoldable pub release_all : ℕ → Store → Store
unfolding release_events
release_all e s =
    let entry = s.entries e in
    record s {
      entries = set_entry e (with_resources [] entry) s.entries;
      log = release_events entry.resources s.log;
    }

-- `newEntry`, and what `resolvePool` does in its place.
unfoldable pub add_entry : Text → Store → Store
unfolding delete_key
add_entry k s = record s {
  entries = set_entry s.next new_entry s.entries;
  next = suc s.next;
  keys = put_key k s.next s.keys;
}

-- `remove`.
unfoldable pub remove_key : Text → Store → Store
unfolding delete_key
remove_key k s = record s { keys = delete_key k s.keys }

unfoldable pub close_done : ℕ → Store → Store
close_done e s = record s { entries = set_entry e (as_done (s.entries e)) s.entries }

abbrev pub log_pool : Option ℕ → Store → Store
log_pool none s = s
log_pool (some p) s = record s { log = pool_closed p ∷ s.log }

abbrev pub log_stop : Option ℕ → Store → Store
log_stop none s = s
log_stop (some i) s = record s { log = stopped i ∷ s.log }

-- `Connect` puts an embedded server under its key, and stops the one that stood there.
unfoldable pub register_instance : Text → ℕ → Store → Store
unfolding find_key delete_key
register_instance k i s =
    log_stop (find_key k s.instances) (record s { instances = put_key k i s.instances })

abbrev pub found_or : ℕ → Option ℕ → ℕ
found_or i none = i
found_or i (some j) = j

-- `Connect` takes the server under its key out again and stops it, where the pool cannot be opened;
-- where none is there any more it stops the one that it has started.
unfoldable pub withdraw_instance : Text → ℕ → Store → Store
unfolding find_key delete_key
withdraw_instance k i s = record s {
  instances = delete_key k s.instances;
  log = stopped (found_or i (find_key k s.instances)) ∷ s.log;
}

-- `snapshotAndClearEmbeddedInstances`, after the copy.
unfoldable pub clear_instances : Store → Store
clear_instances s = record s { instances = [] }

abbrev pub values : Keyed → List ℕ
values m = map (λ (p : Text × ℕ). p.1) m
