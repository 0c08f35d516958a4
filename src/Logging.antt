-- ===== src/Logging.antt =====
-- utils/slog_handler.go: `SplitLevelHandler`. `H` is the type of the handlers that it splits between,
-- `R` that of the records, `A` that of the attributes, and `S` what handling a record changes.
use orcacommon.Common.{arith, leb, Bool, false, if◌then◌else◌, ◌≡◌, List}
use orcacommon.Common.Text.{Text}
use orcacommon.Common.Word.{ℤ, pos, negsuc}

pub record Handlers (H R A S : Type 0) : Type 0 where
  pub level : R → ℤ
  pub is_enabled : H → ℤ → Bool
  pub handle : H → R → S → Bool × S
  pub with_attrs : H → List A → H
  pub with_group : H → Text → H

pub record SplitLevelHandler (H : Type 0) : Type 0 where
  pub std_handler : H
  pub err_handler : H

-- `level >= slog.LevelError`, which is 8.
unfoldable pub is_error : ℤ → Bool
is_error (pos n) = leb 8 n
is_error (negsuc n) = false

module _ {H R A S : Type 0} (handlers : Handlers H R A S) where
  abbrev pub chosen : SplitLevelHandler H → ℤ → H
  chosen h level = if is_error level then h.err_handler else h.std_handler

  -- `Enabled`.
  unfoldable pub split_enabled : SplitLevelHandler H → ℤ → Bool
  split_enabled h level = handlers.is_enabled (chosen h level) level

  -- `Handle`.
  unfoldable pub split_handle : SplitLevelHandler H → R → S → Bool × S
  split_handle h r s = handlers.handle (chosen h (handlers.level r)) r s

  -- `WithAttrs`.
  unfoldable pub split_with_attrs : SplitLevelHandler H → List A → SplitLevelHandler H
  split_with_attrs h attrs = record {
    std_handler = handlers.with_attrs h.std_handler attrs;
    err_handler = handlers.with_attrs h.err_handler attrs;
  }

  -- `WithGroup`.
  unfoldable pub split_with_group : SplitLevelHandler H → Text → SplitLevelHandler H
  split_with_group h name = record {
    std_handler = handlers.with_group h.std_handler name;
    err_handler = handlers.with_group h.err_handler name;
  }

  -- Attributes and groups do not change where a record goes, and the handler there has them.
  chosen_lem :
      (h : SplitLevelHandler H) (attrs : List A) (name : Text) (level : ℤ)
      → chosen (split_with_group (split_with_attrs h attrs) name) level
        ≡ handlers.with_group (handlers.with_attrs (chosen h level) attrs) name
  unfolding split_with_attrs split_with_group
  chosen_lem h attrs name level = ground arith
