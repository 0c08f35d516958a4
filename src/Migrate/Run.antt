-- ===== src/Migrate/Run.antt =====
-- postgres/migrate.go: `runMigrations`. What it calls of the database and of Atlas is a parameter
-- that changes the world `S`; a directory of Atlas is a `D`, a migration file its version.
pub mod Apply
pub mod Release
use orcacommon.Common.{ℕ, if◌then◌else◌, Bool, true, false, Option, none, some, List, [], ◌∷◌, ◌++◌}
use orcacommon.Common.Text.{Text, codes}
use orcacommon.Migrate.Dir.{Entry, DirError, Loaded, loaded, refused, embed_dir, quote_ident}
use orcacommon.Migrate.Lock.{
  World, LockResult, locked, query_failed, timed_out, out_of_fuel, acquire_advisory_lock,
}

-- The options of the executor.
pub record Options : Type 0 where
  pub baseline : Option Text
  pub allow_dirty : Bool

pub data Pending : Type 0 where
  no_pending : Pending
  pending_error : Pending
  pending_files : List Text → Pending

pub record Atlas (S D : Type 0) : Type 0 where
  pub world : World S
  -- `ExecContext`: whether the statement succeeds.
  pub exec : Text → S → Bool × S
  pub open_driver : S → Bool × S
  pub open_mem_dir : Text → D
  pub write_file : D → Text → Text → Option D
  pub files : D → Option (List Text)
  pub init : S → Bool × S
  pub new_executor : Options → D → S → Bool
  pub pending : Options → D → S → Pending × S
  pub execute : Options → D → Text → S → Bool × S
  -- `releaseAdvisoryLock`: whether the statement succeeds, which is only logged.
  pub release : S → Bool × S

-- `Migrator`, and `NewMigrator`; the files are what `fs.ReadDir` and `fs.ReadFile` give.
pub record Migrator (S : Type 0) : Type 0 where
  pub migration_files : Option (List Entry)
  pub is_baseline : Option (S → Bool)

pub data Outcome : Type 0 where
  done : Outcome
  search_path_failed : Outcome
  driver_failed : Outcome
  dir_failed : DirError → Outcome
  lock_failed : LockResult → Outcome
  init_failed : Outcome
  files_failed : Outcome
  executor_failed : Outcome
  pending_failed : Outcome
  apply_failed : Text → Outcome

module _ {S D : Type 0} (atlas : Atlas S D) where
  -- The loop over the pending files.
  unfoldable pub apply_pending : Options → D → List Text → S → Outcome × S
  apply_pending opts dir [] s = (done, s)
  apply_pending opts dir (v ∷ vs) s =
      let (applied, s') = atlas.execute opts dir v s in
      elim applied [ true ↦ apply_pending opts dir vs s' | false ↦ (apply_failed v, s') ]

  -- The options: `none` if the files of the directory cannot be listed.
  unfoldable pub options_of : Migrator S → D → S → Option Options
  options_of m dir s =
      let allow : Options = record { baseline = none; allow_dirty = true } in
      elim m.is_baseline [
        | none ↦ some allow
        | some is_baseline ↦ elim (is_baseline s) [
          | false ↦ some allow
          | true ↦ elim (atlas.files dir) [
            | none ↦ none
            | some [] ↦ some (record { baseline = none; allow_dirty = false })
            | some (v ∷ _) ↦ some (record { baseline = some v; allow_dirty = false })
          ]
        ]
      ]

  -- What happens under the lock.
  unfoldable pub migrate_locked : Migrator S → D → S → Outcome × S
  migrate_locked m dir s =
      let (created, s1) = atlas.init s in
      elim created [
        | false ↦ (init_failed, s1)
        | true ↦ elim (options_of m dir s1) [
          | none ↦ (files_failed, s1)
          | some opts ↦ elim (atlas.new_executor opts dir s1) [
            | false ↦ (executor_failed, s1)
            | true ↦
                let (found, s2) = atlas.pending opts dir s1 in
                elim found [
                  | no_pending ↦ (done, s2)
                  | pending_error ↦ (pending_failed, s2)
                  | pending_files vs ↦ apply_pending opts dir vs s2
                ]
          ]
        ]
      ]

  -- From the lock on, with the deferred release.
  unfoldable pub lock_and_migrate : Migrator S → D → S → Outcome × S
  lock_and_migrate m dir s =
      let (result, s') = acquire_advisory_lock atlas.world s in
      elim result [
        | locked ↦ let (out, end) = migrate_locked m dir s' in (out, (atlas.release end).1)
        | query_failed ↦ (lock_failed query_failed, s')
        | timed_out ↦ (lock_failed timed_out, s')
        | out_of_fuel ↦ (lock_failed out_of_fuel, s')
      ]

  unfoldable pub open_and_migrate : Migrator S → Text → S → Outcome × S
  open_and_migrate m key s =
      let (opened, s') = atlas.open_driver s in
      elim opened [
        | false ↦ (driver_failed, s')
        | true ↦
            elim (embed_dir atlas.write_file m.migration_files
              (atlas.open_mem_dir (codes "migrations_" ++ key))) [
                | refused why ↦ (dir_failed why, s')
                | loaded dir ↦ lock_and_migrate m dir s'
              ]
      ]

  -- `runMigrations`; the hook of the tests is left out.
  unfoldable pub run_migrations : Option (Migrator S) → Text → Text → S → Outcome × S
  run_migrations none key schema s = (done, s)
  run_migrations (some m) key schema s =
      let (set, s') = atlas.exec (codes "SET search_path TO " ++ quote_ident schema) s in
      elim set [ false ↦ (search_path_failed, s') | true ↦ open_and_migrate m key s' ]
