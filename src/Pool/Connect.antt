-- ===== src/Pool/Connect.antt =====
-- postgres/pool.go: `Connect`, for an embedded server, a test container or another database. What it
-- calls is the system of the processes, the database and the host, which change one world. Errors of
-- removing and closing files are ignored, as in the code.
pub mod Embedded
pub mod Clean
pub mod Open
use orcacommon.Common.{
  ℕ, ◌==◌, ◌&&◌, ◌||◌, not, if◌then◌else◌, Bool, true, false, Option, none, some, List, [], ◌∷◌,
  ◌++◌, is_empty,
}
use orcacommon.Common.Text.{Text, codes, text_eq}
use orcacommon.Common.Word.{ℤ, pos, negsuc}
use orcacommon.EmbeddedPg.Process.{System, State, made, log_closed}
use orcacommon.Pool.Dsn.{Sql}
use orcacommon.Pool.Options.{EmbeddedOptions}
use orcacommon.Pool.Stop.{Instance, remove_path, remove_if}

-- What a server is started with, besides its directories.
pub record Setup : Type 0 where
  pub port : ℕ
  pub options : EmbeddedOptions

-- The rest of the host: `none` and `false` are errors. `start` is the start of the server within the
-- time limit, `stop` its stop; `attach_container` makes a container a
-- resource of the entry of a key. A container is a number.
pub record Host (S : Type 0) : Type 0 where
  pub temp_root : Text
  pub is_shutting_down : S → Bool × S
  pub free_port : S → Option ℕ × S
  pub make_temp : S → Option Text × S
  pub make_dir : Text → S → Bool × S
  pub create_file : Text → S → Bool × S
  pub start : Setup → Text → Text → S → Bool × S
  pub stop : S → S
  pub new_pool : Text → S → Option ℕ × S
  pub start_container : Text → S → Option ℕ × S
  pub container_host : ℕ → S → Option Text × S
  pub container_port : ℕ → S → Option Text × S
  pub terminate_container : ℕ → S → S
  pub attach_container : Text → ℕ → S → S

abbrev pub Instances : Type 0
Instances = List (Text × Instance)

unfoldable pub instance_of : Text → Instances → Option Instance
instance_of k [] = none
instance_of k ((j, i) ∷ m) = if text_eq j k then some i else instance_of k m

unfoldable pub without : Text → Instances → Instances
without k [] = []
without k ((j, i) ∷ m) = let rest = without k m in if text_eq j k then rest else (j, i) ∷ rest

-- `embeddedRuntimePath`.
unfoldable pub embedded_runtime_path : Text → Text → Text
embedded_runtime_path root key = root ++ codes "/orcacommon-embedded-pg/" ++ key

module _ {S : Type 0} (sys : System S) (host : Host S) where
  -- A directory of our own.
  unfoldable pub make_temp_dir : State S → Option Text × State S
  make_temp_dir (s, log) =
      let (path, t) = host.make_temp s in
      elim path [ none ↦ (none, (t, log)) | some p ↦ (some p, (t, made p ∷ log)) ]

  unfoldable pub make_runtime_dir : Text → State S → Bool × State S
  make_runtime_dir path (s, log) =
      let (ok, t) = host.make_dir path s in
      elim ok [ false ↦ (false, (t, log)) | true ↦ (true, (t, made path ∷ log)) ]

  -- The runtime directory, and the data directory if it is our own.
  unfoldable pub discard : Bool → Text → Text → State S → State S
  discard owns path runtime st = remove_if sys owns path (remove_path sys runtime st)

  unfoldable pub close_log : State S → State S
  close_log (s, log) = (sys.close_log s, log_closed ∷ log)
