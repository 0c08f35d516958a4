-- ===== src/Common/Text.antt =====
-- A Go string is a list of bytes. The functions of package strings that the code calls, over such
-- lists. `trim_space` knows the white space of ASCII only.
pub mod Laws
use Prim.Native.Nat.{ℕ, suc, ◌+◌}
use Prim.Native.Char.{code}
use Prim.Native.String.{String}
use mathlib.Core.Bool.{Bool, true, false, ◌&&◌, ◌||◌}
use mathlib.Core.Option
use mathlib.Core.Option.{Option, none, some}
use mathlib.Core.List.{List, [], ◌∷◌, ◌++◌, reverse}
use orcacommon.Common.Tests.{◌==◌, if◌then◌else◌}
use orcacommon.Common.Lists.{length, take, drop}

abbrev pub Text : Type 0
Text = List ℕ

-- A literal of ASCII characters.
abbrev pub codes : String → Text
codes String.[] = []
codes (String.◌∷◌ c s) = code c ∷ codes s

-- `s == t`, and also `hmac.Equal`, which compares all bytes in constant time.
unfoldable pub text_eq : Text → Text → Bool
text_eq [] [] = true
text_eq [] (_ ∷ _) = false
text_eq (_ ∷ _) [] = false
text_eq (a ∷ s) (b ∷ t) = (a == b) && text_eq s t

-- `strings.HasPrefix(s, prefix)`.
unfoldable pub has_prefix : Text → Text → Bool
has_prefix s [] = true
has_prefix [] (p ∷ ps) = false
has_prefix (a ∷ s) (p ∷ ps) = (a == p) && has_prefix s ps

-- `strings.TrimPrefix(s, prefix)`.
unfoldable pub trim_prefix : Text → Text → Text
trim_prefix s p = if has_prefix s p then drop (length p) s else s

-- `strings.HasSuffix(s, suffix)`.
unfoldable pub has_suffix : Text → Text → Bool
has_suffix s p = has_prefix (reverse s) (reverse p)

unfoldable pub trim_suffix : Text → Text → Text
trim_suffix s p = if has_suffix s p then reverse (drop (length p) (reverse s)) else s

-- Whether a byte occurs in the text.
unfoldable pub has_byte : ℕ → Text → Bool
has_byte c [] = false
has_byte c (a ∷ s) = (a == c) || has_byte c s

-- The text before and after the first occurrence of a byte: `strings.Index` with the two slices.
unfoldable pub cut : ℕ → Text → Option (Text × Text)
cut c [] = none
cut c (a ∷ s) =
    if a == c then some ([], s) else Option.map (λ (p : Text × Text). (a ∷ p.0, p.1)) (cut c s)

-- `strings.LastIndex` with the two slices.
unfoldable pub cut_last : ℕ → Text → Option (Text × Text)
cut_last c s = Option.map (λ (p : Text × Text). (reverse p.1, reverse p.0)) (cut c (reverse s))

-- `strings.Contains(s, sub)`.
unfoldable pub contains : Text → Text → Bool
contains [] sub = has_prefix [] sub
contains (a ∷ s) sub = has_prefix (a ∷ s) sub || contains s sub

-- `strings.Replace(s, old, new, 1)`.
unfoldable pub replace_first : Text → Text → Text → Text
replace_first [] old new = if has_prefix [] old then new else []
replace_first (a ∷ s) old new =
    if has_prefix (a ∷ s) old then new ++ drop (length old) (a ∷ s) else a ∷ replace_first s old new

-- `strings.Join(parts, sep)`.
unfoldable pub join : List Text → Text → Text
join [] sep = []
join (p ∷ []) sep = p
join (p ∷ q ∷ ps) sep = p ++ sep ++ join (q ∷ ps) sep

unfoldable pub is_space : ℕ → Bool
is_space c = (c == 32) || (c == 9) || (c == 10) || (c == 11) || (c == 12) || (c == 13)

unfoldable pub trim_left : Text → Text
trim_left [] = []
trim_left (a ∷ s) = if is_space a then trim_left s else a ∷ s

-- `strings.TrimSpace(s)`.
unfoldable pub trim_space : Text → Text
unfolding trim_left is_space
trim_space s = reverse (trim_left (reverse (trim_left s)))

-- What is read of a body behind `io.LimitReader` or `http.MaxBytesReader`.
unfoldable pub read_limited : ℕ → Text → Text
read_limited n s = take n s
