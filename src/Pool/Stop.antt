-- ===== src/Pool/Stop.antt =====
-- postgres/pool.go: `stopWithForceKill` and what it calls.
pub mod Guarded
pub mod Removal
use orcacommon.Common.{
  ℕ, zero, suc, ◌&&◌, ◌||◌, not, Bool, true, false, List, [], ◌∷◌, ◌++◌, is_empty,
}
use orcacommon.Common.Text.{Text, codes}
use orcacommon.Common.Word.{ℤ}
use orcacommon.EmbeddedPg.Process.{
  Signal, sigterm, Event, removed, log_closed, System, State, is_pos, int_eq, is_process_alive,
  check_pid_file, is_postgres_process, send_signal, kill_embedded_pg,
}

-- `embeddedInstance`; of the log file it matters only whether there is one.
pub record Instance : Type 0 where
  pub pid : ℤ
  pub data_path : Text
  pub owns_data_path : Bool
  pub runtime_path : Text
  pub has_log_file : Bool

-- `filepath.Join` of a directory and the name of the file.
abbrev pub pid_file_of : Text → Text
pid_file_of path = path ++ codes "/postmaster.pid"

module _ {S : Type 0} (sys : System S) where
  -- `os.Remove` and `os.RemoveAll`, whose errors are only logged.
  unfoldable pub remove_path : Text → State S → State S
  remove_path path (s, log) = (sys.remove path s, removed path ∷ log)

  -- The signal to a process that is Postgres.
  unfoldable pub terminate : ℤ → State S → State S
  terminate pid st =
      let (ok, t) = is_postgres_process sys pid st in
      elim ok [ false ↦ t | true ↦ (send_signal sys sigterm pid t).1 ]

  -- `sendPostgresSIGTERM`.
  unfoldable pub send_postgres_sigterm : Text → State S → State S
  send_postgres_sigterm path st = elim (is_empty path) [
    | true ↦ st
    | false ↦
        let (check, t) = check_pid_file sys path st in
        elim (not check.has_error && check.is_alive && is_pos check.pid) [
          | false ↦ t
          | true ↦ terminate check.pid t
        ]
  ]

  -- Whether the process is gone, or has been reaped.
  unfoldable pub gone_by_process : Instance → State S → Bool × State S
  gone_by_process inst st = elim (is_pos inst.pid) [
    | false ↦ (false, st)
    | true ↦
        let (b, (s, log)) = is_process_alive sys inst.pid st in
        elim b [
          | false ↦ (true, (s, log))
          | true ↦ let (reaped, t) = sys.wait4 inst.pid s in (int_eq reaped inst.pid, (t, log))
        ]
  ]

  -- Whether the PID file names no live process.
  unfoldable pub gone_by_pid_file : Instance → State S → Bool × State S
  gone_by_pid_file inst st = elim (is_empty inst.data_path) [
    | true ↦ (false, st)
    | false ↦ let (check, t) = check_pid_file sys inst.data_path st in (not check.is_alive, t)
  ]

  -- What the loop does on a tick.
  unfoldable pub is_gone : Instance → State S → Bool × State S
  is_gone inst st =
      let (gone, t) = gone_by_process inst st in
      elim gone [
        | true ↦ (true, t)
        | false ↦
            let (gone_too, u) = gone_by_pid_file inst t in
            (gone_too || (not (is_pos inst.pid) && is_empty inst.data_path), u)
      ]

  -- The loop: `false` where the deadline came first.
  unfoldable pub await_stop : ℕ → Instance → State S → Bool × State S
  await_stop zero inst st = (false, st)
  await_stop (suc n) inst st =
      let (gone, t) = is_gone inst st in
      elim gone [ true ↦ (true, t) | false ↦ await_stop n inst t ]

  unfoldable pub force_kill : Bool → Instance → State S → State S
  force_kill dead inst st = elim (not dead && is_pos inst.pid) [
    | false ↦ st
    | true ↦ (kill_embedded_pg sys inst.pid st).1
  ]

  unfoldable pub still_running : Instance → State S → Bool × State S
  still_running inst st = elim (is_pos inst.pid) [
    | false ↦ (false, st)
    | true ↦ is_process_alive sys inst.pid st
  ]

  unfoldable pub remove_if : Bool → Text → State S → State S
  remove_if b path st = elim b [ false ↦ st | true ↦ remove_path path st ]

  unfoldable pub close_log_file : Instance → State S → State S
  close_log_file inst (s, log) = elim inst.has_log_file [
    | false ↦ (s, log)
    | true ↦ (sys.close_log s, log_closed ∷ log)
  ]

  -- The PID file, the log file, and the directories that `Connect` made.
  unfoldable pub clean_up : Instance → State S → State S
  clean_up inst st =
      remove_if (inst.owns_data_path && not (is_empty inst.data_path)) inst.data_path (
        remove_if (not (is_empty inst.runtime_path)) inst.runtime_path (
          close_log_file inst
            (remove_if (not (is_empty inst.data_path)) (pid_file_of inst.data_path) st)))

  -- `stopWithForceKill`.
  unfoldable pub stop_with_force_kill : Instance → State S → State S
  stop_with_force_kill inst st =
      let (s, log) = send_postgres_sigterm inst.data_path st in
      let (n, t) = sys.ticks s in
      let (dead, u) = await_stop n inst (t, log) in
      let (running, v) = still_running inst (force_kill dead inst u) in
      elim running [ true ↦ v | false ↦ clean_up inst v ]
