-- ===== src/EmbeddedPg/Tests.antt =====
-- A host with one PostgreSQL server, and the theorems on it.
use orcacommon.Common.{
  ℕ, suc, ◌+◌, ◌≤◌, ◌≡◌, refl, ltb, if◌then◌else◌, Bool, true, false, some, [], arith,
}
use orcacommon.Common.Text.{
  codes, text_eq, trim_left, trim_space, trim_suffix, has_prefix, has_suffix, is_space, cut,
  cut_last, has_byte,
}
use orcacommon.Common.Word.{pos, negsuc}
use orcacommon.EmbeddedPg.PidFile.{
  content, parsed, scan, digits_value, parse_digits, atoi, number_at, read_postmaster_port,
  parse_postmaster_info, pid_line, pid_of, is_zombie_stat, base, trim_slashes, is_postgres_name,
}
use orcacommon.EmbeddedPg.Decimal.{itoa}
use orcacommon.EmbeddedPg.Written.{pid_file_text, parse-pid_file_text}
use orcacommon.EmbeddedPg.Process.{
  System, sent, killed, still_alive, State, is_zombie, is_running, is_process_alive, check_pid_file,
  reuse_embedded_pg, is_embedded_pg_running, is_postgres_process, send_signal, pause, await_exit,
  kill_and_wait, kill_embedded_pg,
}
use orcacommon.EmbeddedPg.Signals.{guarded, asked}
use orcacommon.EmbeddedPg.Backoff.{total_slept, kill_embedded_pg-le}

-- The world counts the signals, each of which may end the server; `stubborn` where none does.
abbrev pub host : Bool → System ℕ
host stubborn = record {
  pid_file = λ path s. (content (pid_file_text 77 (codes "/d") (codes "1") 5432 []) false, s);
  stat = λ pid s. (some (codes "77 (a b) S"), s);
  ps = λ pid s. (some (codes "/usr/bin/postgres"), s);
  probe = λ pid s. (if stubborn then true else ltb s 1, s);
  listening = λ port s. (true, s);
  signal = λ sig pid s. (sent, suc s);
  wait4 = λ pid s. (pos 0, s);
  sleep = λ d s. s;
  remove = λ path s. s;
  ticks = λ s. (3, s);
  close_log = λ s. s;
}

abbrev pub idle : State ℕ
idle = (0, [])

unfoldable pub runs : Unit {0}
unfolding text_eq trim_left trim_space trim_suffix has_prefix has_suffix is_space cut cut_last
    has_byte scan digits_value parse_digits atoi number_at read_postmaster_port
    parse_postmaster_info pid_line is_zombie_stat base trim_slashes is_postgres_name itoa is_zombie
    is_running is_process_alive check_pid_file reuse_embedded_pg is_embedded_pg_running
    is_postgres_process send_signal pause await_exit kill_and_wait kill_embedded_pg guarded asked
    total_slept
runs = tt

zombie : is_zombie_stat (codes "77 (a) b) Z 1") ≡ true
unfolding runs
zombie = refl

negative_pid : pid_line (content (codes "-5\r\n/d\n") false) ≡ pid_of (negsuc 4)
unfolding runs
negative_pid = refl

reuses : (reuse_embedded_pg (host false) (codes "/d") idle).0 ≡ some (pos 5432)
unfolding runs
reuses = refl

kills : (kill_embedded_pg (host false) (pos 77) idle).0 ≡ killed
unfolding runs
kills = refl

-- A server that does not die is waited for as long as the bound says.
waits_long :
    ((kill_embedded_pg (host true) (pos 77) idle).0 ≡ still_alive)
    × (total_slept (kill_embedded_pg (host true) (pos 77) idle).1.1 ≡ 12775)
unfolding runs
waits_long = (refl, refl)

kill_embedded_pg-le_example :
    total_slept (kill_embedded_pg (host true) (pos 77) idle).1.1 ≤ 12775 + total_slept []
kill_embedded_pg-le_example = kill_embedded_pg-le (host true) (pos 77) idle

parse-pid_file_text_example :
    (parse_postmaster_info (content (pid_file_text 77 (codes "/d") (codes "1") 5432 []) false)
      ≡ parsed (pos 77, pos 5432))
    × (read_postmaster_port (content (pid_file_text 77 (codes "/d") (codes "1") 5432 []) false)
        ≡ parsed (pos 5432))
    × (pid_line (content (pid_file_text 77 (codes "/d") (codes "1") 5432 []) false)
        ≡ pid_of (pos 77))
unfolding has_byte
parse-pid_file_text_example =
    parse-pid_file_text 77 5432 (codes "/d") (codes "1") [] false (omega arith) (omega arith) refl
      (omega arith) refl (omega arith)
