-- ===== src/Pool/Connect/Clean.antt =====
-- Which directories a server leaves behind that could not be started.
use orcacommon.Common.{
  ◌≡◌, not, is_empty, ◌&&◌, ◌||◌, if◌then◌else◌, Bool, true, false, List, [], ◌∷◌,
}
use orcacommon.Common.Text.{Text, text_eq}
use orcacommon.EmbeddedPg.Process.{Event, made, removed}
use orcacommon.Pool.Connect.Embedded.{Started, failed, up}

-- Whether a directory was made by the log and not removed since.
unfoldable pub is_left : Text → List Event → Bool
is_left p [] = false
is_left p (made q ∷ log) = text_eq q p || is_left p log
is_left p (removed q ∷ log) = if text_eq q p then false else is_left p log
is_left p (_ ∷ log) = is_left p log

abbrev pub is_up : Started → Bool
is_up failed = false
is_up (up inst port) = true

-- Where starting failed, `p` is left only if it was left before.
abbrev NoLeak : Text → Bool → Started → List Event → Type 0
NoLeak p b r log = is_up r ≡ false → is_left p log ≡ true → b ≡ true

-- Of the directories that were not left before, only those that the clean-up removes are there.
abbrev Held : Text → Bool → Bool → Text → Text → List Event → Type 0
Held p b owns path runtime log =
    is_left p log ≡ true → (b || text_eq runtime p || (owns && text_eq path p)) ≡ true

-- A data path of the caller, which a start makes and keeps.
abbrev given_path : Text → Text → Bool
given_path path p = not (is_empty path) && text_eq path p
