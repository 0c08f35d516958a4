-- ===== src/EmbeddedPg/PidFile.antt =====
-- utils/embedded_pg.go: what is read of the file postmaster.pid and of /proc/<pid>/stat, and the
-- name of a process. A file is the bytes that are read of it; `bufio.Scanner`, `strconv.Atoi` and
-- `filepath.Base` are written out.
use orcacommon.Common.{
  ℕ, zero, suc, ◌+◌, ◌-◌, ◌*◌, leb, ◌==◌, ◌&&◌, ◌||◌, if◌then◌else◌, Bool, true, false, Option,
  none, some, List, [], ◌∷◌, map, reverse, is_empty, ◌>>=◌, get_elem?, not,
}
use orcacommon.Common.Text.{Text, codes, text_eq, trim_space, trim_suffix, cut_last, has_byte}
use orcacommon.Common.Word.{ℤ, pos, negsuc}

-- `content text failing`: the bytes, and whether reading on after them is an error.
pub data FileRead : Type 0 where
  missing : FileRead
  unopened : FileRead
  content : Text → Bool → FileRead

-- `bufio.MaxScanTokenSize`.
abbrev pub max_line : ℕ
max_line = 65536

abbrev pub drop_cr : Text → Text
drop_cr s = trim_suffix s (13 ∷ [])

-- The bytes after the last line end are a line if there are any.
abbrev pub last_line : Text → List Text
last_line [] = []
last_line (c ∷ s) = drop_cr (reverse (c ∷ s)) ∷ []

-- The lines that a `bufio.Scanner` gives, and whether it stops at a line that is too long. `line`
-- holds the bytes of the current line backwards, and `n` their number.
unfoldable pub scan : Text → ℕ → Text → List Text × Bool
scan line n [] = (last_line line, false)
scan line n (c ∷ s) = elim (c == 10) [
  | true ↦ let (lines, bad) = scan [] 0 s in (drop_cr (reverse line) ∷ lines, bad)
  | false ↦ elim (leb max_line (suc n)) [ true ↦ ([], true) | false ↦ scan (c ∷ line) (suc n) s ]
]

abbrev pub is_digit : ℕ → Bool
is_digit c = leb b'0' c && leb c b'9'

unfoldable pub digits_value : Text → ℕ → Option ℕ
digits_value [] n = some n
digits_value (c ∷ s) n = if is_digit c then digits_value s (n * 10 + (c - b'0')) else none

unfoldable pub parse_digits : Text → Option ℕ
parse_digits [] = none
parse_digits (c ∷ s) = digits_value (c ∷ s) 0

abbrev pub max_int : ℕ
max_int = 9223372036854775807

abbrev pub positive : ℕ → Option ℤ
positive n = if leb n max_int then some (pos n) else none

abbrev pub negative : ℕ → Option ℤ
negative zero = some (pos 0)
negative (suc n) = if leb n max_int then some (negsuc n) else none

-- `strconv.Atoi`, for the int of 64 bits.
unfoldable pub atoi : Text → Option ℤ
atoi [] = none
atoi (c ∷ s) =
    if c == b'-'
    then parse_digits s >>= negative
    else if c == b'+'
    then parse_digits s >>= positive
    else parse_digits (c ∷ s) >>= positive

-- The errors of reading the file: it is missing, or anything else.
pub data Parsed (A : Type 0) : Type 0 where
  parsed : A → Parsed A
  not_exist : Parsed A
  invalid : Parsed A

abbrev pub or_invalid : {A : Type 0} → Option A → Parsed A
or_invalid none = invalid
or_invalid (some a) = parsed a

-- The number on a line.
unfoldable pub number_at : List Text → ℕ → Option ℤ
number_at lines i = get_elem? lines i >>= λ line. atoi (trim_space line)

-- `ReadPostmasterPort`: line 4.
unfoldable pub read_postmaster_port : FileRead → Parsed ℤ
read_postmaster_port missing = not_exist
read_postmaster_port unopened = invalid
read_postmaster_port (content text failing) = or_invalid (number_at (scan [] 0 text).0 3)

-- `parsePostmasterInfo`: the PID on line 1 and the port on line 4.
unfoldable pub parse_postmaster_info : FileRead → Parsed (ℤ × ℤ)
parse_postmaster_info missing = not_exist
parse_postmaster_info unopened = invalid
parse_postmaster_info (content text failing) =
    let lines = (scan [] 0 text).0 in
    or_invalid (number_at lines 0 >>= λ pid. number_at lines 3 >>= λ port. some (pid, port))

-- What `CheckPIDFile` makes of the file before it asks for the process.
pub data PidLine : Type 0 where
  no_file : PidLine
  read_failed : PidLine
  no_pid : PidLine
  pid_of : ℤ → PidLine

-- The PID is read of the first line; a read error counts only where there is none, and where the
-- scanner has met it by then.
unfoldable pub pid_line : FileRead → PidLine
pid_line missing = no_file
pid_line unopened = read_failed
pid_line (content text failing) =
    let (lines, bad) = scan [] 0 text in
    elim lines [
      | [] ↦ if bad || failing then read_failed else no_pid
      | line ∷ _ ↦ elim (atoi (trim_space line)) [
        | some pid ↦ pid_of pid
        | none ↦ if failing && not (has_byte 10 text) then read_failed else no_pid
      ]
    ]

-- The state of a process, the second byte after the last parenthesis of its stat line.
unfoldable pub is_zombie_stat : Text → Bool
is_zombie_stat stat = elim (cut_last b')' stat) [
  | none ↦ false
  | some (before, after) ↦ elim (get_elem? after 1) [ none ↦ false | some c ↦ c == b'Z' ]
]

unfoldable pub trim_slashes : Text → Text
trim_slashes [] = []
trim_slashes (c ∷ s) = if c == b'/' then trim_slashes s else c ∷ s

-- `filepath.Base`.
unfoldable pub base : Text → Text
unfolding trim_slashes
base [] = codes "."
base (c ∷ s) =
    let kept = reverse (trim_slashes (reverse (c ∷ s))) in
    if is_empty kept
    then codes "/"
    else elim (cut_last b'/' kept) [ none ↦ kept | some (before, name) ↦ name ]

abbrev pub lower : ℕ → ℕ
lower c = if leb b'A' c && leb c b'Z' then c + 32 else c

-- Whether the output of ps names the server.
unfoldable pub is_postgres_name : Text → Bool
is_postgres_name out =
    let name = map lower (base (trim_space out)) in
    text_eq name (codes "postgres") || text_eq name (codes "postmaster")
