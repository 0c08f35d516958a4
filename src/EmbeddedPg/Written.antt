-- ===== src/EmbeddedPg/Written.antt =====
-- The PID and the port are read back from the file that the server writes.
use mathlib.Core.List.{reverse_aux, reverse-reverse}
use orcacommon.Common.{
  ℕ, suc, ◌+◌, ◌≤◌, ◌<◌, ◌≡◌, refl, ap, ◌∙◌, Bool, false, some, List, [], ◌∷◌, ◌++◌, reverse,
  length, arith,
}
use orcacommon.Common.Text.{Text, has_byte, trim_space}
use orcacommon.Common.Text.Laws.{not_first}
use orcacommon.Common.Word.{pos}
use orcacommon.EmbeddedPg.PidFile.{
  content, parsed, max_line, drop_cr, scan, atoi, number_at, max_int, parse_postmaster_info,
  read_postmaster_port, pid_line, pid_of,
}
use orcacommon.EmbeddedPg.Decimal.{
  itoa, itoa-IsDigits, length-itoa, atoi-itoa, trim_space-digits, drop_cr-digits, has_byte-digits,
}

rest_plain : (c a : ℕ) (s : Text) → has_byte c (a ∷ s) ≡ false → has_byte c s ≡ false
unfolding has_byte
rest_plain c a s h = ground arith

-- A line that fits, up to its end.
scan-line :
    (s line rest : Text) (n : ℕ)
    → has_byte 10 s ≡ false
    → n + length s < max_line
    → scan line n (s ++ 10 ∷ rest)
      ≡ (drop_cr (reverse (reverse_aux s line)) ∷ (scan [] 0 rest).0, (scan [] 0 rest).1)
unfolding scan
scan-line [] line rest n h l = refl
scan-line (c ∷ s) line rest n h l = ground (
  arith,
  not_first 10 c s h,
  scan-line s (c ∷ line) rest (suc n) (rest_plain 10 c s h) (omega arith),
)

-- The file: PID, data directory, start time and port, each on a line, and what else there is.
abbrev pub pid_file_text : ℕ → Text → Text → ℕ → Text → Text
pid_file_text pid dir time port rest =
    itoa pid ++ 10 ∷ (dir ++ 10 ∷ (time ++ 10 ∷ (itoa port ++ 10 ∷ rest)))

scan-next :
    (s rest : Text)
    → has_byte 10 s ≡ false
    → length s < max_line
    → (scan [] 0 (s ++ 10 ∷ rest)).0 ≡ drop_cr s ∷ (scan [] 0 rest).0
scan-next s rest h l =
    ap (λ (r : List Text × Bool). r.0) (scan-line s [] rest 0 h (omega arith))
    ∙ ap (λ t. drop_cr t ∷ (scan [] 0 rest).0) (reverse-reverse s)

scan-itoa :
    (n : ℕ) (rest : Text) → (scan [] 0 (itoa n ++ 10 ∷ rest)).0 ≡ itoa n ∷ (scan [] 0 rest).0
scan-itoa n rest =
    let small = length-itoa n in
    scan-next (itoa n) rest (has_byte-digits 10 (itoa n) refl (itoa-IsDigits n)) (omega arith)
    ∙ ap (λ t. t ∷ (scan [] 0 rest).0) (drop_cr-digits (itoa n) (itoa-IsDigits n))

atoi-trim : (n : ℕ) → n ≤ max_int → atoi (trim_space (itoa n)) ≡ some (pos n)
atoi-trim n h = ap atoi (trim_space-digits (itoa n) (itoa-IsDigits n)) ∙ atoi-itoa n h

-- The lines of the file.
scan-pid_file_text :
    (pid port : ℕ) (dir time rest : Text)
    → has_byte 10 dir ≡ false
    → length dir < max_line
    → has_byte 10 time ≡ false
    → length time < max_line
    → (scan [] 0 (pid_file_text pid dir time port rest)).0
      ≡ itoa pid ∷ drop_cr dir ∷ drop_cr time ∷ itoa port ∷ (scan [] 0 rest).0
scan-pid_file_text pid port dir time rest d dl t tl =
    let after_time = itoa port ++ 10 ∷ rest in
    let after_dir = time ++ 10 ∷ after_time in
    scan-itoa pid (dir ++ 10 ∷ after_dir)
    ∙ ap (λ ls. itoa pid ∷ ls)
        (scan-next dir after_dir d dl
          ∙ ap (λ ls. drop_cr dir ∷ ls)
              (scan-next time after_time t tl ∙ ap (λ ls. drop_cr time ∷ ls) (scan-itoa port rest)))

-- From a file with the PID on its first line and the port on its fourth, both are read back,
-- whatever the other lines hold, if the second and the third fit into the scanner's buffer and the
-- numbers are in the range of int.
pub parse-pid_file_text :
    (pid port : ℕ) (dir time rest : Text) (failing : Bool)
    → pid ≤ max_int
    → port ≤ max_int
    → has_byte 10 dir ≡ false
    → length dir < max_line
    → has_byte 10 time ≡ false
    → length time < max_line
    → (parse_postmaster_info (content (pid_file_text pid dir time port rest) failing)
        ≡ parsed (pos pid, pos port))
      × (read_postmaster_port (content (pid_file_text pid dir time port rest) failing)
          ≡ parsed (pos port))
      × (pid_line (content (pid_file_text pid dir time port rest) failing) ≡ pid_of (pos pid))
unfolding parse_postmaster_info read_postmaster_port pid_line number_at
parse-pid_file_text pid port dir time rest failing p q d dl t tl =
    let lines = scan-pid_file_text pid port dir time rest d dl t tl in
    rw (pid_line, lines, atoi-trim pid p, atoi-trim port q) (refl, refl, refl)
