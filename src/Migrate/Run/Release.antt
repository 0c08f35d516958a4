-- ===== src/Migrate/Run/Release.antt =====
-- What happens to the advisory lock, by a log of the calls.
use orcacommon.Common.{
  ℕ, zero, suc, ◌+◌, ◌≡◌, refl, ap, ltb, Bool, true, false, Option, none, some, List, [], ◌∷◌, ◌++◌,
  ◌⊎◌, inl, inr, Bool-cases, Option-cases, ◌∙◌, subst,
}
use orcacommon.Common.Text.{Text, codes}
use orcacommon.Migrate.Dir.{DirError, Loaded, loaded, refused, embed_dir, quote_ident}
use orcacommon.Migrate.Lock.{
  World, LockResult, locked, query_failed, timed_out, out_of_fuel, acquire, acquire_advisory_lock,
  max_wait,
}
use orcacommon.Migrate.Run.{
  Options, Pending, no_pending, pending_error, pending_files, Atlas, Migrator, apply_pending,
  options_of, migrate_locked, lock_and_migrate, open_and_migrate, run_migrations,
}

-- A query that gets the lock, a statement of Atlas on the database, and a call of the release.
pub data LockEvent : Type 0 where
  taken : LockEvent
  worked : LockEvent
  released : LockEvent

abbrev Log : Type 0
Log = List LockEvent

abbrev after_query : Option Bool → Log → Log
after_query (some true) log = taken ∷ log
after_query (some false) log = log
after_query none log = log

-- The same calls, with a log, the newest first.
abbrev traced_world : {S : Type 0} → World S → World (S × Log)
traced_world world = record {
  clock = λ s. world.clock s.0;
  query = λ s. ((world.query s.0).0, ((world.query s.0).1, after_query (world.query s.0).0 s.1));
  sleep = λ s. (world.sleep s.0, s.1);
}

abbrev pub traced : {S D : Type 0} → Atlas S D → Atlas (S × Log) D
traced atlas = record {
  world = traced_world atlas.world;
  exec = λ sql s. ((atlas.exec sql s.0).0, ((atlas.exec sql s.0).1, s.1));
  open_driver = λ s. ((atlas.open_driver s.0).0, ((atlas.open_driver s.0).1, s.1));
  open_mem_dir = atlas.open_mem_dir;
  write_file = atlas.write_file;
  files = atlas.files;
  init = λ s. ((atlas.init s.0).0, ((atlas.init s.0).1, worked ∷ s.1));
  new_executor = λ opts dir s. atlas.new_executor opts dir s.0;
  pending = λ opts dir s.
      ((atlas.pending opts dir s.0).0, ((atlas.pending opts dir s.0).1, worked ∷ s.1));
  execute = λ opts dir v s.
      ((atlas.execute opts dir v s.0).0, ((atlas.execute opts dir v s.0).1, worked ∷ s.1));
  release = λ s. ((atlas.release s.0).0, ((atlas.release s.0).1, released ∷ s.1));
}

abbrev traced_baseline : {S : Type 0} → Option (S → Bool) → Option (S × Log → Bool)
traced_baseline none = none
traced_baseline (some is_baseline) = some (λ s. is_baseline s.0)

abbrev pub traced_migrator : {S : Type 0} → Option (Migrator S) → Option (Migrator (S × Log))
traced_migrator none = none
traced_migrator (some m) =
    some
      (record { migration_files = m.migration_files; is_baseline = traced_baseline m.is_baseline })

abbrev pub works : ℕ → Log → Log
works zero log = log
works (suc n) log = worked ∷ works n log

-- Nothing was done about the lock, or it was taken, worked under, and released, in this order.
abbrev pub IsBracketed : Log → Log → Type 0
IsBracketed log end = (end ≡ log) ⊎ ((n : ℕ) × (end ≡ released ∷ works n (taken ∷ log)))

abbrev Worked : Log → Log → Type 0
Worked log end = (n : ℕ) × (end ≡ works n log)

works-more : (log end : Log) → Worked (worked ∷ log) end → Worked log end
works-more log end (n, e) = (suc n, e ∙ swap n)
  where
    swap : (n : ℕ) → works n (worked ∷ log) ≡ worked ∷ works n log
    swap zero = refl
    swap (suc n) = ap (λ l. worked ∷ l) (swap n)

module _ {S D : Type 0} (atlas : Atlas S D) where
  abbrev IsAcquired : Log → LockResult × (S × Log) → Type 0
  IsAcquired log (result, (end, log')) =
      ((result ≡ locked) × (log' ≡ taken ∷ log)) ⊎ ((result ≡ locked → ⊥) × (log' ≡ log))

  acquire-IsAcquired :
      (deadline fuel : ℕ) (s : S) (log : Log)
      → IsAcquired log (acquire (traced_world atlas.world) deadline fuel (s, log))
  unfolding acquire
  acquire-IsAcquired deadline zero s log = inr ((λ h. cc h), refl)
  acquire-IsAcquired deadline (suc fuel) s log =
      let asked = atlas.world.query s in
      let after = after_query asked.0 log in
      let same : (a : Option Bool) → asked.0 ≡ a → after ≡ after_query a log =
        λ a e. ap (λ b. after_query b log) e in
      elim (Option-cases asked.0) [
        | inl e ↦ rw (e, acquire) (inr ((λ h. cc h), same none e))
        | inr (true, e) ↦ rw (e, acquire) (inl (refl, same (some true) e))
        | inr (false, e) ↦ elim (Bool-cases (ltb deadline (atlas.world.clock asked.1))) [
          | inl late ↦ rw (e, acquire, late) (inr ((λ h. cc h), same (some false) e))
          | inr early ↦
              let rest : LockResult × (S × Log) =
                acquire (traced_world atlas.world) deadline fuel
                  (atlas.world.sleep asked.1, after) in
              rw (e, acquire, early)
                (subst (λ l. IsAcquired l rest) (same (some false) e)
                  (acquire-IsAcquired deadline fuel (atlas.world.sleep asked.1) after))
        ]
      ]

  apply_pending-Worked :
      (opts : Options) (dir : D) (vs : List Text) (s : S) (log : Log)
      → Worked log (apply_pending (traced atlas) opts dir vs (s, log)).1.1
  unfolding apply_pending
  apply_pending-Worked opts dir [] s log = (0, refl)
  apply_pending-Worked opts dir (v ∷ vs) s log = elim (Bool-cases (atlas.execute opts dir v s).0) [
    | inl e ↦
        rw (e, apply_pending)
          (works-more log _
            (apply_pending-Worked opts dir vs (atlas.execute opts dir v s).1 (worked ∷ log)))
    | inr e ↦ rw (e, apply_pending) (1, refl)
  ]

  pending_cases :
      (p : Pending)
      → (p ≡ no_pending) ⊎ ((p ≡ pending_error) ⊎ ((vs : List Text) × (p ≡ pending_files vs)))
  pending_cases no_pending = inl refl
  pending_cases pending_error = inr (inl refl)
  pending_cases (pending_files vs) = inr (inr (vs, refl))

  migrate_locked-Worked :
      (m : Migrator (S × Log)) (dir : D) (s : S) (log : Log)
      → Worked log (migrate_locked (traced atlas) m dir (s, log)).1.1
  unfolding migrate_locked
  migrate_locked-Worked m dir s log =
      let s1 : S × Log = ((atlas.init s).1, worked ∷ log) in
      elim (Bool-cases (atlas.init s).0) [
        | inr e ↦ rw (e, migrate_locked) (1, refl)
        | inl e ↦ elim (Option-cases (options_of (traced atlas) m dir s1)) [
          | inl o ↦ rw (e, migrate_locked, o) (1, refl)
          | inr (opts, o) ↦ elim (Bool-cases (atlas.new_executor opts dir s1.0)) [
            | inr x ↦ rw (e, migrate_locked, o, x) (1, refl)
            | inl x ↦ elim (pending_cases (atlas.pending opts dir s1.0).0) [
              | inl p ↦ rw (e, migrate_locked, o, x, p) (2, refl)
              | inr (inl p) ↦ rw (e, migrate_locked, o, x, p) (2, refl)
              | inr (inr (vs, p)) ↦
                  rw (e, migrate_locked, o, x, p)
                    (works-more log _ (
                      works-more (worked ∷ log) _ (
                        apply_pending-Worked opts dir vs (atlas.pending opts dir s1.0).1
                          (worked ∷ worked ∷ log))))
            ]
          ]
        ]
      ]

  result_cases :
      (r : LockResult) → (r ≡ locked) ⊎ ((r ≡ query_failed) ⊎ ((r ≡ timed_out) ⊎ (r ≡ out_of_fuel)))
  result_cases locked = inl refl
  result_cases query_failed = inr (inl refl)
  result_cases timed_out = inr (inr (inl refl))
  result_cases out_of_fuel = inr (inr (inr refl))

  missed :
      (log : Log) (r : LockResult × (S × Log))
      → IsAcquired log r
      → (r.0 ≡ locked → ⊥)
      → IsBracketed log r.1.1
  missed log r (inl (e, _)) other = absurd (other e)
  missed log r (inr (_, e)) other = inl e

  held_end :
      (log : Log) (r : LockResult × (S × Log)) (end : Log)
      → IsAcquired log r
      → r.0 ≡ locked
      → Worked r.1.1 end
      → IsBracketed log (released ∷ end)
  held_end log r end (inl (_, t)) e (n, w) = inr (n, ap (λ l. released ∷ l) (w ∙ ap (works n) t))
  held_end log r end (inr (other, _)) e w = absurd (other e)

  lock_and_migrate-IsBracketed :
      (m : Migrator (S × Log)) (dir : D) (s : S) (log : Log)
      → IsBracketed log (lock_and_migrate (traced atlas) m dir (s, log)).1.1
  unfolding lock_and_migrate acquire_advisory_lock
  lock_and_migrate-IsBracketed m dir s log =
      let r = acquire (traced_world atlas.world) (atlas.world.clock s + max_wait) 62 (s, log) in
      let a : IsAcquired log r = acquire-IsAcquired (atlas.world.clock s + max_wait) 62 s log in
      elim (result_cases r.0) [
        | inl e ↦
            rw (e, lock_and_migrate, acquire_advisory_lock)
              (held_end log r (migrate_locked (traced atlas) m dir r.1).1.1 a e
                (migrate_locked-Worked m dir r.1.0 r.1.1))
        | inr (inl e) ↦
            rw (e, lock_and_migrate, acquire_advisory_lock) (missed log r a (λ l. cc (e, l)))
        | inr (inr (inl e)) ↦
            rw (e, lock_and_migrate, acquire_advisory_lock) (missed log r a (λ l. cc (e, l)))
        | inr (inr (inr e)) ↦
            rw (e, lock_and_migrate, acquire_advisory_lock) (missed log r a (λ l. cc (e, l)))
      ]

  loaded_cases :
      (l : Loaded D) → ((dir : D) × (l ≡ loaded dir)) ⊎ ((why : DirError) × (l ≡ refused why))
  loaded_cases (loaded dir) = inl (dir, refl)
  loaded_cases (refused why) = inr (why, refl)

  open_and_migrate-IsBracketed :
      (m : Migrator (S × Log)) (key : Text) (s : S) (log : Log)
      → IsBracketed log (open_and_migrate (traced atlas) m key (s, log)).1.1
  unfolding open_and_migrate
  open_and_migrate-IsBracketed m key s log = elim (Bool-cases (atlas.open_driver s).0) [
    | inr e ↦ rw (e, open_and_migrate) (inl refl)
    | inl e ↦
        elim (loaded_cases (
          embed_dir atlas.write_file m.migration_files
            (atlas.open_mem_dir (codes "migrations_" ++ key)))) [
              | inr (why, d) ↦ rw (e, open_and_migrate, d) (inl refl)
              | inl (dir, d) ↦
                  rw (e, open_and_migrate, d)
                    (lock_and_migrate-IsBracketed m dir (atlas.open_driver s).1 log)
            ]
  ]

  -- Whatever fails, migrating either does nothing about the advisory lock and nothing by Atlas on
  -- the database, or it takes the lock once, works, and calls the release once, last of all. Whether
  -- the release succeeds is only logged.
  pub run_migrations-IsBracketed :
      (m : Option (Migrator S)) (key schema : Text) (s : S) (log : Log)
      → IsBracketed log (run_migrations (traced atlas) (traced_migrator m) key schema (s, log)).1.1
  unfolding run_migrations
  run_migrations-IsBracketed none key schema s log = inl refl
  run_migrations-IsBracketed (some m) key schema s log =
      let sql = codes "SET search_path TO " ++ quote_ident schema in
      elim (Bool-cases (atlas.exec sql s).0) [
        | inr e ↦ rw (e, run_migrations) (inl refl)
        | inl e ↦
            rw (e, run_migrations) (open_and_migrate-IsBracketed _ key (atlas.exec sql s).1 log)
      ]
