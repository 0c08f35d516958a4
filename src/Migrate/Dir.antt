-- ===== src/Migrate/Dir.antt =====
-- postgres/migrate.go: `embedDir`, `versionPrefix` and `quoteIdent`. Atlas's in-memory directory is a
-- parameter: `write` gives the directory with a file, `none` for an error.
pub mod Versions
pub mod Unique
pub mod Quote
use orcacommon.Common.{
  ℕ, ◌==◌, if◌then◌else◌, Bool, true, false, Option, none, some, List, [], ◌∷◌, ◌++◌, is_empty,
}
use orcacommon.Common.Text.{Text, codes, cut, has_suffix, text_eq}

-- An entry of the directory; `content` is what `fs.ReadFile` gives, `none` for an error.
pub record Entry : Type 0 where
  pub name : Text
  pub is_dir : Bool
  pub content : Option Text

-- The errors of `embedDir`.
pub data DirError : Type 0 where
  unlisted : DirError
  duplicate : (version first second : Text) → DirError
  unreadable : Text → DirError
  unwritten : Text → DirError

pub data Loaded (D : Type 0) : Type 0 where
  loaded : D → Loaded D
  refused : DirError → Loaded D

-- `versionPrefix`: the text before the first underscore.
unfoldable pub version_prefix : Text → Text
version_prefix name = elim (cut b'_' name) [ none ↦ [] | some (prefix, _) ↦ prefix ]

abbrev pub Seen : Type 0
Seen = List (Text × Text)

unfoldable pub find : Text → Seen → Option Text
find v [] = none
find v ((u, name) ∷ seen) = if text_eq u v then some name else find v seen

-- The version that the guard looks at; empty if there is none.
unfoldable pub guarded_version : Text → Text
guarded_version name = if has_suffix name (codes ".sql") then version_prefix name else []

-- The file that has the version already.
unfoldable pub clash : Text → Seen → Option Text
clash v seen = if is_empty v then none else find v seen

unfoldable pub remember : Text → Text → Seen → Seen
remember v name seen = if is_empty v then seen else (v, name) ∷ seen

module _ {D : Type 0} (write : D → Text → Text → Option D) where
  unfoldable pub load_file : Entry → D → Loaded D
  load_file e dir = elim e.content [
    | none ↦ refused (unreadable e.name)
    | some text ↦ elim (write dir e.name text) [
      | none ↦ refused (unwritten e.name)
      | some dir' ↦ loaded dir'
    ]
  ]

  -- The loop of `embedDir`.
  unfoldable pub load_entries : Seen → List Entry → D → Loaded D
  load_entries seen [] dir = loaded dir
  load_entries seen (e ∷ rest) dir =
      let v = guarded_version e.name in
      elim e.is_dir [
        | true ↦ load_entries seen rest dir
        | false ↦ elim (clash v seen) [
          | some first ↦ refused (duplicate v first e.name)
          | none ↦ elim (load_file e dir) [
            | refused why ↦ refused why
            | loaded dir' ↦ load_entries (remember v e.name seen) rest dir'
          ]
        ]
      ]

  -- `embedDir`, from the empty directory.
  unfoldable pub embed_dir : Option (List Entry) → D → Loaded D
  embed_dir none dir = refused unlisted
  embed_dir (some entries) dir = load_entries [] entries dir

-- `quoteIdent`.
unfoldable pub double_quotes : Text → Text
double_quotes [] = []
double_quotes (c ∷ s) = if c == b'"' then b'"' ∷ b'"' ∷ double_quotes s else c ∷ double_quotes s

unfoldable pub quote_ident : Text → Text
quote_ident name = b'"' ∷ double_quotes name ++ b'"' ∷ []
