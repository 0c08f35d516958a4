-- ===== src/Migrate/Revisions/Tests.antt =====
-- A table of revisions with two writes and a deletion, and the theorem about it.
use orcacommon.Common.{ℕ, ◌≡◌, refl, Bool, false, none, some, List, [], ◌∷◌}
use orcacommon.Common.Text.{Text, codes, text_eq}
use orcacommon.Common.Word.{pos}
use orcacommon.Migrate.Revisions.{
  Revision, stored, init_table, is_empty_table, insert_by, order_by, read_revisions, not_exist,
  found, find_row, read_revision, upsert, delete_row, write_revision, delete_revision,
}
use orcacommon.Migrate.Revisions.Replay.{
  Change, write, delete, replay, latest, listed, read_revision-replay,
}

abbrev revision : Text → ℕ → Revision
revision version executed_at = record {
  version = version;
  description = codes "d";
  kind = 2;
  applied = 1;
  total = 1;
  executed_at = executed_at;
  execution_time = pos 5;
  error = [];
  error_stmt = [];
  hash = codes "h";
  partial_hashes = none;
  operator_version = [];
}

-- The latest change first.
abbrev changes : List Change
changes =
    delete (codes "1") ∷ write (revision (codes "2") 1234) ∷ write (revision (codes "1") 7) ∷ []

abbrev as_given : Text → Text → Bool
as_given u v = false

runs : Unit {0}
unfolding stored init_table is_empty_table insert_by order_by read_revisions find_row read_revision
    upsert delete_row write_revision delete_revision replay latest text_eq
runs = tt

replay_tests :
    (read_revision (codes "1") (replay changes) ≡ not_exist)
    × (read_revision (codes "2") (replay changes)
        ≡ found (record (revision (codes "2") 1000) { partial_hashes = some [] }))
    × (is_empty_table (replay changes) ≡ some false)
unfolding runs
replay_tests = (refl, refl, refl)

read_revision-replay_example :
    (read_revision (codes "2") (replay changes) ≡ latest (codes "2") changes)
    × (listed (codes "2") (read_revisions as_given (replay changes)) ≡ latest (codes "2") changes)
read_revision-replay_example = read_revision-replay as_given changes (codes "2")
