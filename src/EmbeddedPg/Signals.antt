-- ===== src/EmbeddedPg/Signals.antt =====
-- A signal is sent to a process only where ps has just said that it is a PostgreSQL server.
use orcacommon.Common.{
  ℕ, zero, suc, ◌≡◌, ==_refl, ◌&&◌, Bool, true, false, some, List, [], ◌∷◌, arith, if◌then◌else◌,
  ltb, ◌*◌,
}
use orcacommon.Common.Text.{Text}
use orcacommon.Common.Word.{ℤ, pos, negsuc}
use orcacommon.EmbeddedPg.PidFile.{is_postgres_name}
use orcacommon.EmbeddedPg.Process.{
  Signal, sigkill, Event, command, signalled, System, State, int_eq, is_zombie, is_running,
  is_process_alive, check_pid_file, is_postgres_process, send_signal, pause, await_exit,
  kill_and_wait, kill_embedded_pg,
}

-- Whether the last thing asked is the name of this process, and it is Postgres.
unfoldable pub asked : ℤ → List Event → Bool
asked pid (command p (some out) ∷ _) = int_eq p pid && is_postgres_name out
asked pid _ = false

unfoldable pub guarded : List Event → Bool
guarded [] = true
guarded (signalled sig pid ∷ log) = asked pid log && guarded log
guarded (_ ∷ log) = guarded log

abbrev pub IsGuarded : List Event → Type 0
IsGuarded log = guarded log ≡ true

int_eq_refl : (z : ℤ) → int_eq z z ≡ true
int_eq_refl (pos n) = ==_refl n
int_eq_refl (negsuc n) = ==_refl n

module _ {S : Type 0} (sys : System S) where
  pub log-is_running : (pid : ℤ) (st : State S) → (is_running sys pid st).1.1 ≡ st.1
  unfolding is_running is_zombie
  log-is_running pid st = ground arith

  pub is_process_alive-IsGuarded :
      (pid : ℤ) (st : State S) → IsGuarded st.1 → IsGuarded (is_process_alive sys pid st).1.1
  unfolding is_process_alive guarded
  is_process_alive-IsGuarded pid st h = ground (arith, log-is_running pid st)

  pub log-check_pid_file : (path : Text) (st : State S) → (check_pid_file sys path st).1.1 ≡ st.1
  unfolding check_pid_file
  log-check_pid_file path st = grind (arith, log-is_running)

  -- The answer is in the log.
  pub is_postgres_process-asked :
      (pid : ℤ) (st : State S)
      → (is_postgres_process sys pid st).0 ≡ true
      → asked pid (is_postgres_process sys pid st).1.1 ≡ true
  unfolding is_postgres_process asked
  is_postgres_process-asked pid st h = ground (arith, int_eq_refl pid)

  pub is_postgres_process-IsGuarded :
      (pid : ℤ) (st : State S) → IsGuarded st.1 → IsGuarded (is_postgres_process sys pid st).1.1
  unfolding is_postgres_process guarded
  is_postgres_process-IsGuarded pid st h = h

  pub send_signal-IsGuarded :
      (sig : Signal) (pid : ℤ) (st : State S)
      → asked pid st.1 ≡ true
      → IsGuarded st.1
      → IsGuarded (send_signal sys sig pid st).1.1
  unfolding send_signal guarded
  send_signal-IsGuarded sig pid st a h = rw a h

  await_exit-IsGuarded :
      (rounds delay : ℕ) (pid : ℤ) (st : State S)
      → IsGuarded st.1
      → IsGuarded (await_exit sys rounds delay pid st).1.1
  unfolding await_exit pause guarded
  await_exit-IsGuarded zero delay pid st h = h
  await_exit-IsGuarded (suc rounds) delay pid st h =
      let g = is_process_alive-IsGuarded pid st h in
      let probed = (is_process_alive sys pid st).1 in
      ground (
        arith,
        await_exit-IsGuarded rounds (if ltb delay 500 then delay * 2 else delay) pid
            (pause sys delay ((sys.wait4 pid probed.0).1, probed.1)) g,
      )

  kill_and_wait-IsGuarded :
      (pid : ℤ) (st : State S)
      → asked pid st.1 ≡ true
      → IsGuarded st.1
      → IsGuarded (kill_and_wait sys pid st).1.1
  unfolding kill_and_wait
  kill_and_wait-IsGuarded pid st a h =
      let g = send_signal-IsGuarded sigkill pid st a h in
      ground (arith, await_exit-IsGuarded 20 25 pid (send_signal sys sigkill pid st).1 g)

  -- `KillEmbeddedPG` keeps the rule.
  pub kill_embedded_pg-IsGuarded :
      (pid : ℤ) (st : State S) → IsGuarded st.1 → IsGuarded (kill_embedded_pg sys pid st).1.1
  unfolding kill_embedded_pg
  kill_embedded_pg-IsGuarded pid st h =
      let g = is_postgres_process-IsGuarded pid st h in
      ground (
        arith,
        λ (a : (is_postgres_process sys pid st).0 ≡ true).
            kill_and_wait-IsGuarded pid (is_postgres_process sys pid st).1
              (is_postgres_process-asked pid st a) g,
      )
