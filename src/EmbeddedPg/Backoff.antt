-- ===== src/EmbeddedPg/Backoff.antt =====
-- How long `KillEmbeddedPG` waits: the delays of its 20 rounds are 25, 50, 100, 200 and 400
-- milliseconds and then 800 each.
use orcacommon.Common.{ℕ, zero, suc, ◌+◌, ◌*◌, ◌≤◌, ◌≡◌, ltb, if◌then◌else◌, List, [], ◌∷◌, arith}
use orcacommon.Common.Word.{ℤ}
use orcacommon.EmbeddedPg.Process.{
  Event, slept, System, State, is_process_alive, is_running, is_zombie, is_postgres_process,
  send_signal, sigkill, pause, await_exit, kill_and_wait, kill_embedded_pg,
}

-- The time slept by the log.
unfoldable pub total_slept : List Event → ℕ
total_slept [] = 0
total_slept (slept d ∷ log) = d + total_slept log
total_slept (_ ∷ log) = total_slept log

abbrev pub budget : ℕ → ℕ → ℕ
budget zero delay = 0
budget (suc rounds) delay = delay + budget rounds (if ltb delay 500 then delay * 2 else delay)

module _ {S : Type 0} (sys : System S) where
  pub total_slept-is_process_alive :
      (pid : ℤ) (st : State S) → total_slept (is_process_alive sys pid st).1.1 ≡ total_slept st.1
  unfolding is_process_alive is_running is_zombie total_slept
  total_slept-is_process_alive pid st = ground arith

  await_exit-le :
      (rounds delay : ℕ) (pid : ℤ) (st : State S)
      → total_slept (await_exit sys rounds delay pid st).1.1
        ≤ budget rounds delay + total_slept st.1
  unfolding await_exit pause total_slept
  await_exit-le zero delay pid st = omega arith
  await_exit-le (suc rounds) delay pid st =
      let same = total_slept-is_process_alive pid st in
      let probed = (is_process_alive sys pid st).1 in
      ground (
        arith,
        await_exit-le rounds (if ltb delay 500 then delay * 2 else delay) pid
            (pause sys delay ((sys.wait4 pid probed.0).1, probed.1)),
      )

  -- Killing a server waits for at most 12.775 seconds.
  pub kill_embedded_pg-le :
      (pid : ℤ) (st : State S)
      → total_slept (kill_embedded_pg sys pid st).1.1 ≤ 12775 + total_slept st.1
  unfolding kill_embedded_pg kill_and_wait send_signal is_postgres_process total_slept
  kill_embedded_pg-le pid st =
      let asked = (is_postgres_process sys pid st).1 in
      ground (arith, await_exit-le 20 25 pid (send_signal sys sigkill pid asked).1)
