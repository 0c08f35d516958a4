-- ===== src/Pool/Stop/Removal.antt =====
-- Stopping a server removes nothing while its process lives.
use orcacommon.Common.{
  ℕ, zero, suc, ◌≡◌, refl, ap, ◌∙◌, ◌&&◌, not, if◌then◌else◌, ltb, ◌*◌, Bool, true, false, List, [],
  ◌∷◌, arith,
}
use orcacommon.Common.Text.{Text}
use orcacommon.Common.Word.{ℤ, pos, negsuc}
use orcacommon.EmbeddedPg.Process.{
  sigkill, Event, alive, removed, log_closed, System, State, is_pos, int_eq, is_process_alive,
  check_pid_file, is_postgres_process, send_signal, pause, await_exit, kill_and_wait,
  kill_embedded_pg,
}
use orcacommon.EmbeddedPg.Signals.{log-is_running, log-check_pid_file}
use orcacommon.Pool.Stop.{
  Instance, remove_path, terminate, send_postgres_sigterm, gone_by_process, is_gone, await_stop,
  force_kill, still_running, remove_if, close_log_file, clean_up, stop_with_force_kill,
}
use orcacommon.Pool.Stop.Guarded.{log-gone_by_pid_file}

-- Whether the last question about a process, before what was removed, was about this process and
-- answered by no.
unfoldable pub found_dead : ℤ → List Event → Bool
found_dead pid (removed path ∷ log) = found_dead pid log
found_dead pid (log_closed ∷ log) = found_dead pid log
found_dead pid (alive asked b ∷ log) = int_eq asked pid && not b
found_dead pid _ = false

unfoldable pub careful : ℤ → List Event → Bool
careful pid [] = true
careful pid (removed path ∷ log) = found_dead pid log && careful pid log
careful pid (_ ∷ log) = careful pid log

abbrev pub IsCareful : ℤ → List Event → Type 0
IsCareful pid log = careful pid log ≡ true

int_eq_refl : (n : ℤ) → int_eq n n ≡ true
int_eq_refl (pos n) = ground arith
int_eq_refl (negsuc n) = ground arith

-- What a step leaves to remove from: the same rule, whatever it asked and sent.
module _ {S : Type 0} (sys : System S) (own : ℤ) where
  careful-is_process_alive :
      (pid : ℤ) (st : State S) → careful own (is_process_alive sys pid st).1.1 ≡ careful own st.1
  unfolding is_process_alive careful
  careful-is_process_alive pid st = ground (arith, log-is_running sys pid st)

  careful-terminate :
      (pid : ℤ) (st : State S) → careful own (terminate sys pid st).1 ≡ careful own st.1
  unfolding terminate is_postgres_process send_signal careful
  careful-terminate pid st = ground arith

  careful-send_postgres_sigterm :
      (path : Text) (st : State S)
      → careful own (send_postgres_sigterm sys path st).1 ≡ careful own st.1
  unfolding send_postgres_sigterm
  careful-send_postgres_sigterm path st =
      let checked = check_pid_file sys path st in
      ground (
        arith,
        ap (careful own) (log-check_pid_file sys path st),
        careful-terminate checked.0.pid checked.1,
      )

  careful-is_gone :
      (inst : Instance) (st : State S) → careful own (is_gone sys inst st).1.1 ≡ careful own st.1
  unfolding is_gone gone_by_process
  careful-is_gone inst st = ground (
    arith,
    careful-is_process_alive inst.pid st,
    ap (careful own) (log-gone_by_pid_file sys inst (gone_by_process sys inst st).1),
  )

  careful-await_stop :
      (n : ℕ) (inst : Instance) (st : State S)
      → careful own (await_stop sys n inst st).1.1 ≡ careful own st.1
  unfolding await_stop
  careful-await_stop zero inst st = refl
  careful-await_stop (suc n) inst st =
      ground (arith, careful-is_gone inst st, careful-await_stop n inst (is_gone sys inst st).1)

  careful-await_exit :
      (rounds delay : ℕ) (pid : ℤ) (st : State S)
      → careful own (await_exit sys rounds delay pid st).1.1 ≡ careful own st.1
  unfolding await_exit pause careful
  careful-await_exit zero delay pid st = refl
  careful-await_exit (suc rounds) delay pid st =
      let probed = (is_process_alive sys pid st).1 in
      ground (
        arith,
        careful-is_process_alive pid st,
        careful-await_exit rounds (if ltb delay 500 then delay * 2 else delay) pid
            (pause sys delay ((sys.wait4 pid probed.0).1, probed.1)),
      )

  careful-force_kill :
      (dead : Bool) (inst : Instance) (st : State S)
      → careful own (force_kill sys dead inst st).1 ≡ careful own st.1
  unfolding force_kill kill_embedded_pg kill_and_wait send_signal is_postgres_process careful
  careful-force_kill dead inst st =
      let named = (is_postgres_process sys inst.pid st).1 in
      ground (arith, careful-await_exit 20 25 inst.pid (send_signal sys sigkill inst.pid named).1)

  clean_up-IsCareful :
      (inst : Instance) (st : State S)
      → found_dead own st.1 ≡ true
      → IsCareful own st.1
      → IsCareful own (clean_up sys inst st).1
  unfolding clean_up remove_if remove_path close_log_file careful found_dead
  clean_up-IsCareful inst st d h = ground arith

  careful-still_running :
      (inst : Instance) (st : State S)
      → careful own (still_running sys inst st).1.1 ≡ careful own st.1
  unfolding still_running
  careful-still_running inst st = ground (arith, careful-is_process_alive inst.pid st)

module _ {S : Type 0} (sys : System S) where
  found_dead-still_running :
      (inst : Instance) (st : State S)
      → is_pos inst.pid ≡ true
      → (still_running sys inst st).0 ≡ false
      → found_dead inst.pid (still_running sys inst st).1.1 ≡ true
  unfolding still_running is_process_alive found_dead
  found_dead-still_running inst st p e = ground (arith, int_eq_refl inst.pid)

  -- Where an instance has a process, `stopWithForceKill` removes its files and directories only after
  -- it has asked for that very process a last time and found that it does not run.
  pub stop_with_force_kill-IsCareful :
      (inst : Instance) (st : State S)
      → is_pos inst.pid ≡ true
      → IsCareful inst.pid st.1
      → IsCareful inst.pid (stop_with_force_kill sys inst st).1
  unfolding stop_with_force_kill
  stop_with_force_kill-IsCareful inst st p h =
      let asked_to = send_postgres_sigterm sys inst.data_path st in
      let limit = sys.ticks asked_to.0 in
      let waited = await_stop sys limit.0 inst (limit.1, asked_to.1) in
      let ended = force_kill sys waited.0 inst waited.1 in
      let asked_last = still_running sys inst ended in
      let c : careful inst.pid asked_last.1.1 ≡ true =
        careful-still_running sys inst.pid inst ended
        ∙ (careful-force_kill sys inst.pid waited.0 inst waited.1
            ∙ (careful-await_stop sys inst.pid limit.0 inst (limit.1, asked_to.1)
                ∙ (careful-send_postgres_sigterm sys inst.pid inst.data_path st ∙ h))) in
      ground (
        arith,
        λ (e : asked_last.0 ≡ false).
            clean_up-IsCareful sys inst.pid inst asked_last.1
              (found_dead-still_running inst ended p e) c,
      )
