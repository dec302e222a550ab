-- ===== src/Tui/Tests.antt =====
-- Keys on the screen of src/tui.c, and the theorem at them.
use netproc.Base.{◌≡◌, refl, false, List, [], ◌∷◌, ◌++◌, arith, replicate}
use netproc.Tui.{
  Screen, tui_init, clamp_selected, key_right, key_down_arrow, key_up_arrow, key_s,
  tui_handle_input, Key,
}
use netproc.Tui.Visible.{IsShown, InSight, tui_handle_input-IsShown}

-- A terminal of ten lines with twenty rows.
abbrev start : Screen
start = record (tui_init 10 80) { tot_rows = 20 }

abbrev keys : List Key
keys = replicate 6 key_down_arrow ++ (key_s ∷ key_right ∷ key_up_arrow ∷ [])

keys_test :
    tui_handle_input keys start
    ≡ (record start { selected = 10; scroll_y = 7; sort_by = 5; scroll_x = 5 }, false)
unfolding tui_handle_input
keys_test = refl

-- When the rows get fewer the selection follows, but the pad stays scrolled past it.
fewer_test :
    clamp_selected
      (record (tui_handle_input (replicate 15 key_down_arrow) start).0 { tot_rows = 6 })
    ≡ record start { selected = 6; scroll_y = 17; tot_rows = 6 }
unfolding tui_handle_input clamp_selected
fewer_test = refl

start-IsShown : IsShown start
start-IsShown = record {
  column = omega arith;
  first = omega arith;
  last = omega arith;
  scrolled = refl;
  across = omega arith;
  roomy = omega arith;
}

tui_handle_input-IsShown_example :
    IsShown (tui_handle_input keys start).0 × InSight (tui_handle_input keys start).0
tui_handle_input-IsShown_example = tui_handle_input-IsShown keys start start-IsShown
