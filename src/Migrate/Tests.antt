-- ===== src/Migrate/Tests.antt =====
-- Migrations run on a sample database, and the theorems about them at the sample.
use orcacommon.Common.{
  ℕ, ◌+◌, ◌≤◌, ◌≡◌, ◌↔◌, refl, ltb, not, Bool, true, false, Option, none, some, List, [], ◌∷◌, ◌++◌,
  arith, inl, inr, Bool-cases,
}
use orcacommon.Common.Text.{Text, codes, text_eq, has_suffix, has_prefix, cut}
use orcacommon.Migrate.Dir.{
  Entry, duplicate, loaded, refused, find, clash, remember, version_prefix, guarded_version,
  load_file, load_entries, embed_dir, double_quotes, quote_ident,
}
use orcacommon.Migrate.Dir.Versions.{NoneTwice}
use orcacommon.Migrate.Dir.Unique.{write_all, embed_dir_iff}
use orcacommon.Migrate.Dir.Quote.{read_ident, read-quote_ident}
use orcacommon.Migrate.Lock.{max_wait, poll, World, timed_out, acquire, acquire_advisory_lock}
use orcacommon.Migrate.Lock.Bounded.{IsClocked, Ends, acquire_bounded}
use orcacommon.Migrate.Run.{
  Options, pending_files, Atlas, Migrator, apply_failed, lock_failed, apply_pending, options_of,
  migrate_locked, lock_and_migrate, open_and_migrate, run_migrations,
}
use orcacommon.Migrate.Run.Release.{
  traced, traced_migrator, IsBracketed, run_migrations-IsBracketed,
}

abbrev Files : Type 0
Files = List (Text × Text)

abbrev write : Files → Text → Text → Option Files
write dir name text = some ((name, text) ∷ dir)

abbrev entry : Text → Entry
entry name = record { name = name; is_dir = false; content = some [] }

abbrev twice : List Entry
twice = entry (codes "1_a.sql") ∷ entry (codes "atlas.sum") ∷ entry (codes "1_b.sql") ∷ []

abbrev once : List Entry
once = entry (codes "1_a.sql") ∷ entry (codes "2_b.sql") ∷ []

run : Unit {0}
unfolding text_eq has_suffix has_prefix cut find clash remember version_prefix guarded_version
    load_file load_entries embed_dir double_quotes quote_ident write_all acquire
    acquire_advisory_lock apply_pending options_of migrate_locked lock_and_migrate open_and_migrate
    run_migrations
run = tt

embed_tests :
    (embed_dir write (some twice) []
      ≡ refused (duplicate (codes "1") (codes "1_a.sql") (codes "1_b.sql")))
    × (embed_dir write (some once) [] ≡ loaded ((codes "2_b.sql", []) ∷ (codes "1_a.sql", []) ∷ []))
unfolding run
embed_tests = (refl, refl)

quote_test : quote_ident (codes "a\"b") ≡ codes "\"a\"\"b\""
unfolding run
quote_test = refl

-- A database that gives the lock at a time: the time, and whether the lock is held.
abbrev State : Type 0
State = ℕ × Bool

module _ (free_at : ℕ) where
  abbrev query : State → Option Bool × State
  query (time, held) = elim (ltb time free_at) [
    | true ↦ (some false, (time + 1, held))
    | false ↦ (some true, (time + 1, true))
  ]

  abbrev database : World State
  database = record { clock = λ s. s.0; query = query; sleep = λ s. (s.0 + poll, s.1) }

  query_takes : (s : State) → s.0 ≤ (query s).1.0
  query_takes (time, held) = elim (Bool-cases (ltb time free_at)) [
    | inl e ↦ rw (e, query) (omega arith)
    | inr e ↦ rw (e, query) (omega arith)
  ]

  database-IsClocked : IsClocked database
  database-IsClocked = record { query_takes = query_takes; sleep_takes = λ s. omega arith }

  abbrev atlas : Atlas State Files
  atlas = record {
    world = database;
    exec = λ sql s. (true, s);
    open_driver = λ s. (true, s);
    open_mem_dir = λ name. [];
    write_file = write;
    files = λ dir. some [];
    init = λ s. (true, s);
    new_executor = λ opts dir s. true;
    pending = λ opts dir s. (pending_files (codes "1" ∷ codes "2" ∷ codes "3" ∷ []), s);
    execute = λ opts dir v s. (not (text_eq v (codes "2")), s);
    release = λ s. (true, (s.0, false));
  }

abbrev migrator : Migrator State
migrator = record { migration_files = some once; is_baseline = none }

run_tests :
    (run_migrations (atlas 600000000) (some migrator) (codes "k") (codes "public") (0, false)
      ≡ (apply_failed (codes "2"), (1000000003, false)))
    × ((run_migrations
          (atlas 40000000000)
          (some migrator)
          (codes "k")
          (codes "public")
          (0, false)).0
        ≡ lock_failed timed_out)
unfolding run
run_tests = (refl, refl)

embed_dir_iff_example :
    (embed_dir write (some twice) [] ≡ loaded [])
    ↔ (NoneTwice twice × (write_all write twice [] ≡ some []))
embed_dir_iff_example = embed_dir_iff write twice [] []

read-quote_ident_example :
    read_ident (quote_ident (codes "a\"b") ++ codes "; x") ≡ some (codes "a\"b", codes "; x")
read-quote_ident_example = read-quote_ident (codes "a\"b") (codes "; x") refl

acquire_bounded_example :
    Ends
      (database 600000000)
      (0 + max_wait)
      (0, false)
      (acquire_advisory_lock (database 600000000) (0, false))
acquire_bounded_example =
    acquire_bounded (database 600000000) (0, false) (database-IsClocked 600000000)

abbrev options : Options
options = record { baseline = none; allow_dirty = true }

run_migrations-IsBracketed_example :
    IsBracketed []
      (run_migrations
        (traced (atlas 600000000))
        (traced_migrator (some migrator))
        (codes "k")
        (codes "public")
        ((0, false), [])).1.1
run_migrations-IsBracketed_example =
    run_migrations-IsBracketed (atlas 600000000) (some migrator) (codes "k") (codes "public")
      (0, false) []
