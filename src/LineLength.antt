-- ===== src/LineLength.antt =====
-- get_line_length (lib/linelength.c, with TIOCGWINSZ defined).
use mandb.Base.{ℕ, suc, Option, none, some}
use mandb.Base.Int.{ℤ, pos}

-- What atoi reads off $MANWIDTH and $COLUMNS, if they are set, and the columns of the terminal, if
-- there is one and ioctl succeeds.
pub record Environment : Type 0 where
  pub manwidth : Option ℤ
  pub columns : Option ℤ
  pub ws_col : Option ℕ

-- A width, if it is above 0.
unfoldable pub positive : Option ℤ → Option ℕ
positive (some (pos (suc n))) = some (suc n)
positive _ = none

unfoldable pub terminal : Option ℕ → ℕ
terminal (some (suc n)) = suc n
terminal _ = 80

unfoldable pub width : Environment → ℕ
width env = elim (positive env.manwidth) [
  | some n ↦ n
  | none ↦ elim (positive env.columns) [ some n ↦ n | none ↦ terminal env.ws_col ]
]

-- The result, and the static line_length, which is `none` while it is -1.
unfoldable pub get_line_length : Environment → Option ℕ → ℕ × Option ℕ
get_line_length env (some n) = (n, some n)
get_line_length env none = (width env, some (width env))
