-- ===== src/Tui.antt =====
-- src/tui.c: where the screen stands and what the keys do to it. What is painted is output of curses,
-- and is left out. `LINES` and `COLS`, the size of the terminal, are part of the state. The numbers
-- are `int` in the code and never negative here; a test with a subtraction is written as a sum.
pub mod Visible
mod Tests
use Prim.Native.Nat.{max}
use netproc.Base.{
  ℕ, zero, suc, ◌+◌, ◌-◌, ◌%◌, Bool, true, false, ◌&&◌, List, [], ◌∷◌, if◌then◌else◌, ltb, leb,
}

abbrev pub line_start : ℕ
line_start = 4

abbrev pub default_sort_by : ℕ
default_sort_by = 4

abbrev pub cols_to_sort : ℕ
cols_to_sort = 7

-- The static variables, with the terminal's size; the last is how often it beeped.
pub record Screen : Type 0 where
  pub sort_by : ℕ
  pub scroll_x : ℕ
  pub scroll_y : ℕ
  pub selected : ℕ
  pub tot_rows : ℕ
  pub cur_cols : ℕ
  pub cur_lines : ℕ
  pub lines : ℕ
  pub cols : ℕ
  pub beeps : ℕ

-- `MIN_COLS_PAD` and `MIN_LINES_PAD`
abbrev pub min_cols_pad : ℕ
min_cols_pad = 135

abbrev pub min_lines_pad : ℕ
min_lines_pad = 64

-- The initial values, and `set_lines_cols`.
abbrev pub tui_init : ℕ → ℕ → Screen
tui_init lines cols = record {
  sort_by = default_sort_by;
  scroll_x = 0;
  scroll_y = line_start + 1;
  selected = line_start + 1;
  tot_rows = 0;
  cur_cols = max cols min_cols_pad;
  cur_lines = max lines min_lines_pad;
  lines = lines;
  cols = cols;
  beeps = 0;
}

abbrev pub resize_pad : ℕ → ℕ → Screen → Screen
resize_pad l c s =
    if ltb l s.cur_lines && ltb c s.cur_cols
    then s
    else record s { cur_lines = max l s.cur_lines; cur_cols = max c s.cur_cols }

-- What `tui_show` does to the selection, once it has counted the rows.
unfoldable pub clamp_selected : Screen → Screen
clamp_selected s =
    if ltb (line_start + 1) s.tot_rows && ltb s.tot_rows s.selected
    then record s { selected = s.tot_rows }
    else s

abbrev pub beep : Screen → Screen
beep s = record s { beeps = s.beeps + 1 }

-- The loops over `i` from 5 down to 0.
abbrev pub scroll_right : ℕ → Screen → Screen
scroll_right zero s = beep s
scroll_right (suc i) s =
    let rest = scroll_right i s in
    if leb (s.scroll_x + suc i + s.cols) s.cur_cols
    then record s { scroll_x = s.scroll_x + suc i }
    else rest

abbrev pub scroll_left : ℕ → Screen → Screen
scroll_left zero s = beep s
scroll_left (suc i) s =
    let rest = scroll_left i s in
    if leb (suc i) s.scroll_x then record s { scroll_x = s.scroll_x - suc i } else rest

-- `if ( ++selected <= tot_rows )`
abbrev pub key_down : Screen → Screen
key_down s =
    if leb (s.selected + 1) s.tot_rows
    then (if leb s.lines (s.selected + 1 + 1)
        then record s { selected = s.selected + 1; scroll_y = s.scroll_y + 1 }
        else record s { selected = s.selected + 1 })
    else beep s

-- `if ( --selected > LINE_START )`
abbrev pub key_up : Screen → Screen
key_up s =
    if ltb line_start (s.selected - 1)
    then (if ltb (line_start + 1) s.scroll_y
        then record s { selected = s.selected - 1; scroll_y = s.scroll_y - 1 }
        else record s { selected = s.selected - 1 })
    else beep s

pub data Key : Type 0 where
  key_right : Key
  key_left : Key
  key_down_arrow : Key
  key_up_arrow : Key
  key_s : Key
  key_q : Key
  other_key : Key

-- The keys up to the end of the input; the result is whether the program is to end.
unfoldable pub tui_handle_input : List Key → Screen → Screen × Bool
tui_handle_input [] s = (s, false)
tui_handle_input (key_right ∷ keys) s = tui_handle_input keys (scroll_right 5 s)
tui_handle_input (key_left ∷ keys) s = tui_handle_input keys (scroll_left 5 s)
tui_handle_input (key_down_arrow ∷ keys) s = tui_handle_input keys (key_down s)
tui_handle_input (key_up_arrow ∷ keys) s = tui_handle_input keys (key_up s)
tui_handle_input (key_s ∷ keys) s =
    tui_handle_input keys (record s { sort_by = (s.sort_by + 1) % cols_to_sort })
tui_handle_input (key_q ∷ keys) s = (s, true)
tui_handle_input (other_key ∷ keys) s = tui_handle_input keys s
