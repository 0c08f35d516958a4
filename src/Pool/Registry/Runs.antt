-- ===== src/Pool/Registry/Runs.antt =====
-- Runs of the registry, and the theorems on them.
use orcacommon.Common.{
  ℕ, ◌≡◌, refl, ◌==◌, ◌≢◌, if◌then◌else◌, true, false, none, some, List, [], ◌∷◌, inl, inr,
  Bool-cases,
}
use orcacommon.Common.Text.{Text, codes, text_eq}
use orcacommon.Pool.Registry.{
  pool_closed, stopped, find_key, delete_key, is_done_of, attach_acquired, release_all,
  release_events, add_entry, remove_key, close_done, register_instance, clear_instances,
}
use orcacommon.Pool.Registry.Threads.{
  Pc, opening, closing, awaiting_signal, fast_wait, returned, opened, Choice, go, register, succeed,
  fail, create_step, slow_step, step, World, IsInitial, opens, closes, awaits, Reached, begin,
  empty_store,
}
use orcacommon.Pool.Registry.Effect.{owns}
use orcacommon.Pool.Registry.Deadlock.{waits_for, no_deadlock, closes_once}
use orcacommon.Pool.Registry.Stragglers.{no_stragglers}
use orcacommon.Pool.Registry.Alone.{solo, IsQuiet}
use orcacommon.Pool.Registry.Alone.Spec.{open_key, IsAgreed, solo-IsAgreed}
use orcacommon.Pool.Registry.Schedule.{run, run-Reached}

abbrev key : Text
key = codes "a"

-- Goroutine 3 closes the pool, goroutine 4 shuts down, and the others open a pool.
abbrev callers : ℕ → Pc
callers t = if t == 3 then closing key else if t == 4 then awaiting_signal else opening key

callers-IsInitial : (t : ℕ) → IsInitial (callers t)
callers-IsInitial t = elim (Bool-cases (t == 3)) [
  | inl e ↦ rw e (closes key)
  | inr e ↦ elim (Bool-cases (t == 4)) [ inl f ↦ rw (e, f) awaits | inr f ↦ rw (e, f) (opens key) ]
]

abbrev start : World
start = record { threads = callers; store = empty_store }

start-Reached : Reached start
start-Reached = begin callers callers-IsInitial

abbrev once : ℕ → ℕ × Choice
once t = (t, go)

-- All definitions that a run unfolds.
runs : Unit {0}
unfolding run step find_key delete_key text_eq attach_acquired release_all release_events add_entry
    remove_key close_done register_instance clear_instances create_step slow_step owns waits_for
runs = tt

-- The first goroutine creates, the second has found its entry and waits.
abbrev waiting : World
waiting = run (once 0 ∷ once 0 ∷ once 1 ∷ once 1 ∷ []) start

waits_at_first : waiting.threads 1 ≡ fast_wait key 0
unfolding runs
waits_at_first = refl

no_deadlock_example :
    (e : ℕ) × (u : ℕ) × (waits_for (waiting.threads 1) ≡ some e)
    × (owns (waiting.threads u) ≡ some e)
    × ((d : Choice) → step d (waiting.threads u) waiting.store ≢ none)
unfolding runs
no_deadlock_example =
    no_deadlock waiting 1 go
      (run-Reached (once 0 ∷ once 0 ∷ once 1 ∷ once 1 ∷ []) start start-Reached) refl refl

closes_once_example :
    (is_done_of waiting.store 0 ≡ false) × ((u : ℕ) → owns (waiting.threads u) ≡ some 0 → u ≡ 0)
unfolding runs
closes_once_example =
    closes_once waiting 0 0
      (run-Reached (once 0 ∷ once 0 ∷ once 1 ∷ once 1 ∷ []) start start-Reached) refl

-- A server is registered during a creation, and the shutdown closes the pool and stops the server.
abbrev shutdown : List (ℕ × Choice)
shutdown =
    once 0
    ∷ once 0
    ∷ (0, register 7)
    ∷ (0, succeed 5)
    ∷ once 0
    ∷ once 0
    ∷ once 4
    ∷ once 4
    ∷ once 4
    ∷ once 4
    ∷ once 4
    ∷ once 4
    ∷ once 4
    ∷ once 4
    ∷ once 4
    ∷ []

shuts_down : (run shutdown start).store.log ≡ stopped 7 ∷ pool_closed 5 ∷ []
unfolding runs
shuts_down = refl

no_stragglers_example :
    ((run shutdown start).store.shutting_down ≡ true) × ((run shutdown start).store.instances ≡ [])
unfolding runs
no_stragglers_example =
    no_stragglers (run shutdown start) 4 (run-Reached shutdown start start-Reached) refl

-- Three goroutines come to the slow path together and the first fails: the two that waited make an
-- entry each, both return a pool, and the shutdown closes only the second.
abbrev lost_pool : List (ℕ × Choice)
lost_pool =
    once 0
    ∷ once 1
    ∷ once 2
    ∷ once 0
    ∷ once 1
    ∷ once 2
    ∷ (0, fail)
    ∷ once 0
    ∷ once 0
    ∷ once 0
    ∷ once 1
    ∷ once 2
    ∷ once 1
    ∷ once 2
    ∷ once 1
    ∷ once 2
    ∷ (1, succeed 5)
    ∷ (2, succeed 6)
    ∷ once 1
    ∷ once 2
    ∷ once 1
    ∷ once 2
    ∷ once 4
    ∷ once 4
    ∷ once 4
    ∷ once 4
    ∷ once 4
    ∷ []

loses_pool :
    ((run lost_pool start).threads 1 ≡ returned (opened 5))
    × ((run lost_pool start).threads 2 ≡ returned (opened 6))
    × ((run lost_pool start).store.log ≡ pool_closed 6 ∷ [])
unfolding runs
loses_pool = (refl, refl, refl)

empty_store-IsQuiet : IsQuiet empty_store
unfolding find_key
empty_store-IsQuiet = record {
  is_made = λ k e h. cc;
  is_done = λ k e h. cc;
  has_pool = λ k e h. cc;
  unique = λ j k e h l. cc;
}

solo-IsAgreed_example :
    IsAgreed (open_key key (some 5)) empty_store (solo 8 (succeed 5) (opening key) empty_store)
solo-IsAgreed_example = solo-IsAgreed (open_key key (some 5)) empty_store empty_store-IsQuiet
