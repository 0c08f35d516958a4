-- ===== src/Pool/Registry/Threads.antt =====
-- postgres/pool.go: what the goroutines do, step by step.
use orcacommon.Common.{
  ℕ, ◌≡◌, ◌==◌, if◌then◌else◌, Bool, true, false, Option, none, some, List, [], ◌∷◌,
}
use orcacommon.Common.Text.{Text}
use orcacommon.Pool.Registry.{
  Store, find_key, delete_key, set_pool, pool_of, is_done_of, attach_acquired, release_all,
  add_entry, remove_key, close_done, log_pool, log_stop, register_instance, withdraw_instance,
  clear_instances, values,
}

pub data Result : Type 0 where
  opened : ℕ → Result
  open_failed : Result
  key_required : Result
  closed : Result
  finished : Result

-- Where a goroutine stands: in `resolvePool`, in `ClosePoolWithKey`, or in `gracefulShutdown`.
pub data Pc : Type 0 where
  opening : Text → Pc
  fast : Text → ℕ → Pc
  fast_wait : Text → ℕ → Pc
  fast_again : Text → ℕ → Pc
  slow : Text → Pc
  slow_wait : Text → ℕ → Pc
  slow_again : Text → ℕ → Pc
  replacing : Text → Pc
  creating : Text → ℕ → Pc
  storing : ℕ → ℕ → Pc
  releasing : Text → ℕ → Pc
  dropping : Text → ℕ → Pc
  ending : ℕ → Result → Pc
  closing : Text → Pc
  taking : Text → Option ℕ → Pc
  close_wait : ℕ → Option ℕ → Pc
  close_pool : ℕ → Option ℕ → Pc
  close_release : ℕ → Option ℕ → Pc
  close_stop : Option ℕ → Pc
  awaiting_signal : Pc
  shut_entries : Pc
  shut_wait : List ℕ → Pc
  shut_pool : ℕ → List ℕ → Pc
  shut_release : ℕ → List ℕ → Pc
  shut_instances : Pc
  shut_stop : List ℕ → Pc
  shut_stragglers : Pc
  shut_last : List ℕ → Pc
  returned : Result → Pc

-- What the environment decides: while a pool is created, that a resource is attached to the entry of
-- the creation or to the one under the key, that an embedded server is registered, or withdrawn as its
-- pool cannot be opened, and how it ends.
pub data Choice : Type 0 where
  go : Choice
  attach_own : ℕ → Choice
  attach_keyed : ℕ → Choice
  register : ℕ → Choice
  withdraw : ℕ → Choice
  succeed : ℕ → Choice
  fail : Choice

abbrev pub opened_or : Option ℕ → Pc → Pc
opened_or none next = next
opened_or (some p) next = returned (opened p)

-- No server is registered once the shutdown has begun.
abbrev pub register_step : Bool → Text → ℕ → ℕ → Store → Pc × Store
register_step true k i e s = (releasing k e, s)
register_step false k i e s = (creating k e, register_instance k i s)

-- A resource is lost where the key has no entry.
abbrev pub attach_found : Option ℕ → ℕ → Store → Store
attach_found none r s = s
attach_found (some e) r s = attach_acquired e r s

-- A creation: what `Connect` or `openCloudSQL` does next.
unfoldable pub create_step : Choice → Text → ℕ → Store → Pc × Store
create_step go k e s = (creating k e, s)
create_step (attach_own r) k e s = (creating k e, attach_acquired e r s)
create_step (attach_keyed r) k e s = (creating k e, attach_found (find_key k s.keys) r s)
create_step (register i) k e s = register_step s.shutting_down k i e s
create_step (withdraw i) k e s = (releasing k e, withdraw_instance k i s)
create_step (succeed p) k e s = (storing e p, s)
create_step fail k e s = (releasing k e, s)

-- Waiting for the channel of an entry: no step before it is closed.
abbrev pub when_done : ℕ → Pc → Store → Option (Pc × Store)
when_done e next s = if is_done_of s e then some (next, s) else none

abbrev pub slow_found : Option ℕ → Text → Store → Pc × Store
slow_found none k s = (creating k s.next, add_entry k s)
slow_found (some e) k s = (opened_or (pool_of s e) (slow_wait k e), s)

-- The slow path of `resolvePool`, under the lock of the registry.
unfoldable pub slow_step : Text → Store → Pc × Store
slow_step k s = slow_found (find_key k s.keys) k s

-- `ClosePoolWithKey` after both maps were read.
abbrev pub after_take : Option ℕ → Option ℕ → Pc
after_take (some e) inst = close_wait e inst
after_take none none = returned closed
after_take none (some i) = close_stop (some i)

-- One step of a goroutine, `none` where it waits or has returned.
unfoldable pub step : Choice → Pc → Store → Option (Pc × Store)
step c (opening []) s = some (returned key_required, s)
step c (opening (b ∷ k)) s = elim (find_key (b ∷ k) s.keys) [
  | none ↦ some (slow (b ∷ k), s)
  | some e ↦ some (fast (b ∷ k) e, s)
]
step c (fast k e) s = some (opened_or (pool_of s e) (fast_wait k e), s)
step c (fast_wait k e) s = when_done e (fast_again k e) s
step c (fast_again k e) s = some (opened_or (pool_of s e) (slow k), s)
step c (slow k) s = some (slow_step k s)
step c (slow_wait k e) s = when_done e (slow_again k e) s
step c (slow_again k e) s = some (opened_or (pool_of s e) (replacing k), s)
step c (replacing k) s = some (creating k s.next, add_entry k s)
step c (creating k e) s = some (create_step c k e s)
step c (storing e p) s = some (ending e (opened p), set_pool e (some p) s)
step c (releasing k e) s = some (dropping k e, release_all e s)
step c (dropping k e) s = some (ending e open_failed, remove_key k s)
step c (ending e r) s = some (returned r, close_done e s)
step c (closing []) s = some (returned key_required, s)
step c (closing (b ∷ k)) s = some (taking (b ∷ k) (find_key (b ∷ k) s.keys), remove_key (b ∷ k) s)
step c (taking k found) s =
    some
      (after_take found (find_key k s.instances), record s { instances = delete_key k s.instances })
step c (close_wait e inst) s = when_done e (close_pool e inst) s
step c (close_pool e inst) s =
    some (close_release e inst, log_pool (pool_of s e) (set_pool e none s))
step c (close_release e inst) s = some (close_stop inst, release_all e s)
step c (close_stop inst) s = some (returned closed, log_stop inst s)
step c awaiting_signal s = some (shut_entries, record s { shutting_down = true })
step c shut_entries s = some (shut_wait (values s.keys), record s { keys = [] })
step c (shut_wait []) s = some (shut_instances, s)
step c (shut_wait (e ∷ es)) s = when_done e (shut_pool e es) s
step c (shut_pool e es) s = some (shut_release e es, log_pool (pool_of s e) (set_pool e none s))
step c (shut_release e es) s = some (shut_wait es, release_all e s)
step c shut_instances s = some (shut_stop (values s.instances), clear_instances s)
step c (shut_stop []) s = some (shut_stragglers, s)
step c (shut_stop (i ∷ is)) s = some (shut_stop is, log_stop (some i) s)
step c shut_stragglers s = some (shut_last (values s.instances), clear_instances s)
step c (shut_last []) s = some (returned finished, s)
step c (shut_last (i ∷ is)) s = some (shut_last is, log_stop (some i) s)
step c (returned r) s = none

-- The goroutines, by number, and what they share.
pub record World : Type 0 where
  pub threads : ℕ → Pc
  pub store : Store

abbrev pub set_thread : ℕ → Pc → (ℕ → Pc) → ℕ → Pc
set_thread t pc f i = if i == t then pc else f i

-- A goroutine at its start.
pub data IsInitial : Pc → Type 0 where
  opens : (k : Text) → IsInitial (opening k)
  closes : (k : Text) → IsInitial (closing k)
  awaits : IsInitial awaiting_signal

abbrev pub empty_store : Store
empty_store = record {
  entries = λ i. record { pool = none; resources = []; is_done = false };
  next = 0;
  keys = [];
  instances = [];
  shutting_down = false;
  log = [];
}

abbrev pub after : ℕ → Pc → Store → World → World
after t pc s w = record { threads = set_thread t pc w.threads; store = s }

-- A state that the goroutines come to, in any order of their steps.
pub data Reached : World → Type 0 where
  begin :
      (threads : ℕ → Pc)
      → ((t : ℕ) → IsInitial (threads t))
      → Reached (record { threads = threads; store = empty_store })
  moved :
      {w : World} (c : Choice) (t : ℕ) (pc : Pc) (s : Store)
      → Reached w
      → step c (w.threads t) w.store ≡ some (pc, s)
      → Reached (after t pc s w)
