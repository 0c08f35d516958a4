-- ===== src/EmbeddedPg/Process.antt =====
-- utils/embedded_pg.go: the operations on the processes of a server. The operating system is the
-- record of its calls, each of which changes the world `S`; what is done to processes and
-- directories is written to a log, the newest entry first.
use orcacommon.Common.{
  ℕ, zero, suc, ◌*◌, ltb, ◌==◌, not, if◌then◌else◌, Bool, true, false, Option, none, some, List, [],
  ◌∷◌,
}
use orcacommon.Common.Text.{Text}
use orcacommon.Common.Word.{ℤ, pos, negsuc}
use orcacommon.EmbeddedPg.PidFile.{
  FileRead, parsed, not_exist, invalid, no_file, read_failed, no_pid, pid_of, parse_postmaster_info,
  pid_line, is_zombie_stat, is_postgres_name,
}

pub data Signal : Type 0 where
  sigterm sigkill : Signal

-- What is asked of a process, and done to it and to the files. `command pid out` is the answer of
-- ps, `alive pid b` the answer of `IsProcessAlive`; times are in milliseconds.
pub data Event : Type 0 where
  command : ℤ → Option Text → Event
  signalled : Signal → ℤ → Event
  alive : ℤ → Bool → Event
  slept : ℕ → Event
  made : Text → Event
  removed : Text → Event
  log_closed : Event

pub data SignalResult : Type 0 where
  sent : SignalResult
  finished : SignalResult
  failed : SignalResult

-- The calls: `probe` is signal 0, `wait4` gives the process that was reaped, and `ps` and `stat` give `none` for an error.
pub record System (S : Type 0) : Type 0 where
  pub pid_file : Text → S → FileRead × S
  pub stat : ℤ → S → Option Text × S
  pub ps : ℤ → S → Option Text × S
  pub probe : ℤ → S → Bool × S
  pub listening : ℤ → S → Bool × S
  pub signal : Signal → ℤ → S → SignalResult × S
  pub wait4 : ℤ → S → ℤ × S
  pub sleep : ℕ → S → S
  pub remove : Text → S → S
  pub ticks : S → ℕ × S
  pub close_log : S → S

abbrev pub State : Type 0 → Type 0
State S = S × List Event

abbrev pub is_pos : ℤ → Bool
is_pos (pos zero) = false
is_pos (pos (suc n)) = true
is_pos (negsuc n) = false

abbrev pub int_eq : ℤ → ℤ → Bool
int_eq (pos a) (pos b) = a == b
int_eq (pos a) (negsuc b) = false
int_eq (negsuc a) (pos b) = false
int_eq (negsuc a) (negsuc b) = a == b

-- `exists`, `alive`, `pid`, and whether the error is there.
pub record PidCheck : Type 0 where
  pub file_exists : Bool
  pub is_alive : Bool
  pub pid : ℤ
  pub has_error : Bool

pub data KillResult : Type 0 where
  killed : KillResult
  invalid_pid : KillResult
  not_postgres : KillResult
  kill_failed : KillResult
  still_alive : KillResult

module _ {S : Type 0} (sys : System S) where
  unfoldable pub is_zombie : ℤ → State S → Bool × State S
  is_zombie pid (s, log) =
      let (line, t) = sys.stat pid s in
      elim line [ none ↦ (false, (t, log)) | some text ↦ (is_zombie_stat text, (t, log)) ]

  -- Signal 0, and no zombie.
  unfoldable pub is_running : ℤ → State S → Bool × State S
  is_running pid (s, log) =
      let (found, t) = sys.probe pid s in
      elim found [
        | false ↦ (false, (t, log))
        | true ↦ let (zombie, u) = is_zombie pid (t, log) in (not zombie, u)
      ]

  -- `IsProcessAlive`.
  unfoldable pub is_process_alive : ℤ → State S → Bool × State S
  is_process_alive pid st = elim (is_pos pid) [
    | false ↦ (false, (st.0, alive pid false ∷ st.1))
    | true ↦ let (b, (t, log)) = is_running pid st in (b, (t, alive pid b ∷ log))
  ]

  -- `CheckPIDFile`.
  unfoldable pub check_pid_file : Text → State S → PidCheck × State S
  check_pid_file path (s, log) =
      let (file, t) = sys.pid_file path s in
      elim (pid_line file) [
        | no_file ↦ (
          record { file_exists = false; is_alive = false; pid = pos 0; has_error = false },
          (t, log),
        )
        | read_failed ↦ (
          record { file_exists = true; is_alive = false; pid = pos 0; has_error = true },
          (t, log),
        )
        | no_pid ↦ (
          record { file_exists = true; is_alive = false; pid = pos 0; has_error = false },
          (t, log),
        )
        | pid_of p ↦
            let (b, u) = is_running p (t, log) in
            (record { file_exists = true; is_alive = b; pid = p; has_error = false }, u)
      ]

  -- `ReuseEmbeddedPG`: the port of a server that runs at the path, `none` where none is found.
  unfoldable pub reuse_embedded_pg : Text → State S → Option ℤ × State S
  reuse_embedded_pg [] st = (none, st)
  reuse_embedded_pg (c ∷ path) (s, log) =
      let (file, t) = sys.pid_file (c ∷ path) s in
      elim (parse_postmaster_info file) [
        | not_exist ↦ (none, (t, log))
        | invalid ↦ (none, (t, log))
        | parsed (pid, port) ↦
            let (b, (u, log₁)) = is_running pid (t, log) in
            elim b [
              | false ↦ (none, (u, log₁))
              | true ↦
                  let (open_port, v) = sys.listening port u in
                  (if open_port then some port else none, (v, log₁))
            ]
      ]

  -- `IsEmbeddedPGRunning`.
  unfoldable pub is_embedded_pg_running : Text → State S → Bool × State S
  is_embedded_pg_running path st =
      let (port, t) = reuse_embedded_pg path st in (elim port [ none ↦ false | some _ ↦ true ], t)

  -- `IsPostgresProcess`.
  unfoldable pub is_postgres_process : ℤ → State S → Bool × State S
  is_postgres_process pid (s, log) =
      let (out, t) = sys.ps pid s in
      (elim out [ none ↦ false | some text ↦ is_postgres_name text ], (t, command pid out ∷ log))

  unfoldable pub send_signal : Signal → ℤ → State S → SignalResult × State S
  send_signal sig pid (s, log) =
      let (r, t) = sys.signal sig pid s in (r, (t, signalled sig pid ∷ log))

  unfoldable pub pause : ℕ → State S → State S
  pause delay (s, log) = (sys.sleep delay s, slept delay ∷ log)

  -- The loop that waits for the process to be reaped; the delay doubles while it is below 500.
  unfoldable pub await_exit : ℕ → ℕ → ℤ → State S → KillResult × State S
  await_exit zero delay pid st = (still_alive, st)
  await_exit (suc rounds) delay pid st =
      let (b, (s, log)) = is_process_alive pid st in
      elim b [
        | false ↦ (killed, (s, log))
        | true ↦
            let (reaped, t) = sys.wait4 pid s in
            elim (int_eq reaped pid) [
              | true ↦ (killed, (t, log))
              | false ↦
                  await_exit rounds (if ltb delay 500 then delay * 2 else delay) pid
                    (pause delay (t, log))
            ]
      ]

  -- What `KillEmbeddedPG` does once the process is known to be Postgres.
  unfoldable pub kill_and_wait : ℤ → State S → KillResult × State S
  kill_and_wait pid st =
      let (r, t) = send_signal sigkill pid st in
      elim r [ sent ↦ await_exit 20 25 pid t | finished ↦ (killed, t) | failed ↦ (kill_failed, t) ]

  -- `KillEmbeddedPG`.
  unfoldable pub kill_embedded_pg : ℤ → State S → KillResult × State S
  kill_embedded_pg pid st = elim (is_pos pid) [
    | false ↦ (invalid_pid, st)
    | true ↦
        let (b, t) = is_postgres_process pid st in
        elim b [ false ↦ (not_postgres, t) | true ↦ kill_and_wait pid t ]
  ]
