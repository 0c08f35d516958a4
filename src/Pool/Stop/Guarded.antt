-- ===== src/Pool/Stop/Guarded.antt =====
-- Stopping a server signals only PostgreSQL processes.
use orcacommon.Common.{ℕ, zero, suc, ◌≡◌, Bool, true, arith}
use orcacommon.Common.Text.{Text}
use orcacommon.Common.Word.{ℤ}
use orcacommon.EmbeddedPg.Process.{sigterm, System, State, check_pid_file, is_postgres_process}
use orcacommon.EmbeddedPg.Signals.{
  guarded, IsGuarded, log-check_pid_file, is_process_alive-IsGuarded, is_postgres_process-asked,
  is_postgres_process-IsGuarded, send_signal-IsGuarded, kill_embedded_pg-IsGuarded,
}
use orcacommon.Pool.Stop.{
  Instance, remove_path, terminate, send_postgres_sigterm, gone_by_process, gone_by_pid_file,
  is_gone, await_stop, force_kill, still_running, remove_if, close_log_file, clean_up,
  stop_with_force_kill,
}

module _ {S : Type 0} (sys : System S) where
  terminate-IsGuarded :
      (pid : ℤ) (st : State S) → IsGuarded st.1 → IsGuarded (terminate sys pid st).1
  unfolding terminate
  terminate-IsGuarded pid st h =
      let asking = (is_postgres_process sys pid st).1 in
      let g = is_postgres_process-IsGuarded sys pid st h in
      ground (
        arith,
        λ (a : (is_postgres_process sys pid st).0 ≡ true).
            send_signal-IsGuarded sys sigterm pid asking (is_postgres_process-asked sys pid st a) g,
      )

  send_postgres_sigterm-IsGuarded :
      (path : Text) (st : State S)
      → IsGuarded st.1
      → IsGuarded (send_postgres_sigterm sys path st).1
  unfolding send_postgres_sigterm
  send_postgres_sigterm-IsGuarded path st h =
      let checked = check_pid_file sys path st in
      let g : IsGuarded checked.1.1 = rw (log-check_pid_file sys path st) h in
      ground (arith, terminate-IsGuarded checked.0.pid checked.1 g)

  gone_by_process-IsGuarded :
      (inst : Instance) (st : State S)
      → IsGuarded st.1
      → IsGuarded (gone_by_process sys inst st).1.1
  unfolding gone_by_process
  gone_by_process-IsGuarded inst st h = ground (arith, is_process_alive-IsGuarded sys inst.pid st h)

  pub log-gone_by_pid_file :
      (inst : Instance) (st : State S) → (gone_by_pid_file sys inst st).1.1 ≡ st.1
  unfolding gone_by_pid_file
  log-gone_by_pid_file inst st = ground (arith, log-check_pid_file sys inst.data_path st)

  is_gone-IsGuarded :
      (inst : Instance) (st : State S) → IsGuarded st.1 → IsGuarded (is_gone sys inst st).1.1
  unfolding is_gone
  is_gone-IsGuarded inst st h =
      let g = gone_by_process-IsGuarded inst st h in
      ground (arith, log-gone_by_pid_file inst (gone_by_process sys inst st).1)

  await_stop-IsGuarded :
      (n : ℕ) (inst : Instance) (st : State S)
      → IsGuarded st.1
      → IsGuarded (await_stop sys n inst st).1.1
  unfolding await_stop
  await_stop-IsGuarded zero inst st h = h
  await_stop-IsGuarded (suc n) inst st h =
      let g = is_gone-IsGuarded inst st h in
      ground (arith, await_stop-IsGuarded n inst (is_gone sys inst st).1 g)

  force_kill-IsGuarded :
      (dead : Bool) (inst : Instance) (st : State S)
      → IsGuarded st.1
      → IsGuarded (force_kill sys dead inst st).1
  unfolding force_kill
  force_kill-IsGuarded dead inst st h = ground (arith, kill_embedded_pg-IsGuarded sys inst.pid st h)

  still_running-IsGuarded :
      (inst : Instance) (st : State S) → IsGuarded st.1 → IsGuarded (still_running sys inst st).1.1
  unfolding still_running
  still_running-IsGuarded inst st h = ground (arith, is_process_alive-IsGuarded sys inst.pid st h)

  clean_up-IsGuarded :
      (inst : Instance) (st : State S) → IsGuarded st.1 → IsGuarded (clean_up sys inst st).1
  unfolding clean_up remove_if remove_path close_log_file guarded
  clean_up-IsGuarded inst st h = ground arith

  -- Stopping a server sends SIGTERM and SIGKILL only to processes that ps has just called postgres or
  -- postmaster: the log keeps the rule.
  pub stop_with_force_kill-IsGuarded :
      (inst : Instance) (st : State S)
      → IsGuarded st.1
      → IsGuarded (stop_with_force_kill sys inst st).1
  unfolding stop_with_force_kill
  stop_with_force_kill-IsGuarded inst st h =
      let asked_to = send_postgres_sigterm sys inst.data_path st in
      let limit = sys.ticks asked_to.0 in
      let waited = await_stop sys limit.0 inst (limit.1, asked_to.1) in
      let ended = force_kill sys waited.0 inst waited.1 in
      let g = still_running-IsGuarded inst ended (
        force_kill-IsGuarded waited.0 inst waited.1 (
          await_stop-IsGuarded limit.0 inst (limit.1, asked_to.1)
            (send_postgres_sigterm-IsGuarded inst.data_path st h))) in
      ground (arith, clean_up-IsGuarded inst (still_running sys inst ended).1 g)
