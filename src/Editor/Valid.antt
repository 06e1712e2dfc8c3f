-- ===== src/Editor/Valid.antt =====
-- What stays true of the editor of xiaobaios/apps/vim_main.c: the cursor stands in the text, which fits.
pub mod Moves
pub mod Changes
pub mod Removals
pub mod Loop
pub mod Saved
pub mod Runs
pub mod Undo
use xiaobai_os.Base.{ℕ, ◌≤◌, ◌<◌, ◌≡◌, refl, subst, arith, List, [], Bytes, length, get_or, All}
use xiaobai_os.Editor.State.{max_lines, cmd_max, Editor, line_at}
use xiaobai_os.Editor.Lists.{IsShort}

-- Lines that fit the array and a cursor in them.
pub record Fits (lines : List Bytes) (row col : ℕ) : Type 0 where
  pub few : length lines ≤ max_lines
  pub short : All IsShort lines
  pub on_line : row < length lines
  pub in_line : col ≤ length (get_or lines row [])

abbrev pub IsValid : Editor → Type 0
IsValid ed = Fits ed.lines ed.cursor_line ed.cursor_col × (length ed.command < cmd_max)
