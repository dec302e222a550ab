-- ===== src/Tui/Visible.antt =====
-- The selected row of src/tui.c stays in sight of the user.
use Prim.Native.Nat.{max}
use netproc.Base.{ℕ, zero, suc, ◌+◌, ◌≤◌, ◌<◌, ◌≡◌, List, [], ◌∷◌, leb, Bool-cases, inl, inr, arith}
use netproc.Tui.{
  line_start, cols_to_sort, Screen, scroll_right, scroll_left, key_down, key_up, Key, key_right,
  key_left, key_down_arrow, key_up_arrow, key_s, key_q, other_key, tui_handle_input,
}

-- The selection is a row, the rows are scrolled as far as it asks for and no farther, the columns
-- not past the pad's end, and the column to sort by is one of the seven.
pub record IsShown (s : Screen) : Type 0 where
  pub column : s.sort_by < cols_to_sort
  pub first : line_start < s.selected
  pub last : s.selected ≤ max s.tot_rows (line_start + 1)
  pub scrolled : s.scroll_y + s.lines ≡ 5 + max (s.selected + 2) s.lines
  pub across : s.scroll_x + s.cols ≤ max s.cols s.cur_cols
  pub roomy : 7 ≤ s.lines

-- The row is among those of the pad that the terminal shows below the header.
abbrev pub InSight : Screen → Type 0
InSight s = (s.scroll_y ≤ s.selected) × (s.selected + line_start + 2 ≤ s.scroll_y + s.lines)

scroll_right-IsShown : (i : ℕ) (s : Screen) → IsShown s → IsShown (scroll_right i s)
scroll_right-IsShown zero s v = record {
  column = v.column;
  first = v.first;
  last = v.last;
  scrolled = v.scrolled;
  across = v.across;
  roomy = v.roomy;
}
scroll_right-IsShown (suc i) s v =
    elim (Bool-cases (leb (s.scroll_x + suc i + s.cols) s.cur_cols)) [
      | inl e ↦ rw e record {
        column = v.column;
        first = v.first;
        last = v.last;
        scrolled = v.scrolled;
        across = ground (arith, e);
        roomy = v.roomy;
      }
      | inr e ↦ rw e (scroll_right-IsShown i s v)
    ]

scroll_left-IsShown : (i : ℕ) (s : Screen) → IsShown s → IsShown (scroll_left i s)
scroll_left-IsShown zero s v = record {
  column = v.column;
  first = v.first;
  last = v.last;
  scrolled = v.scrolled;
  across = v.across;
  roomy = v.roomy;
}
scroll_left-IsShown (suc i) s v = elim (Bool-cases (leb (suc i) s.scroll_x)) [
  | inl e ↦ rw e record {
    column = v.column;
    first = v.first;
    last = v.last;
    scrolled = v.scrolled;
    across = ground (arith, v.across);
    roomy = v.roomy;
  }
  | inr e ↦ rw e (scroll_left-IsShown i s v)
]

key_down-IsShown : (s : Screen) → IsShown s → IsShown (key_down s)
key_down-IsShown s v = record {
  column = ground (arith, v.column);
  first = ground (arith, v.first);
  last = ground (arith, v.last);
  scrolled = ground (arith, v.scrolled);
  across = ground (arith, v.across);
  roomy = ground (arith, v.roomy);
}

key_up-IsShown : (s : Screen) → IsShown s → IsShown (key_up s)
key_up-IsShown s v = record {
  column = ground (arith, v.column);
  first = ground (arith, v.first);
  last = ground (arith, v.last);
  scrolled = ground (arith, v.scrolled, v.first);
  across = ground (arith, v.across);
  roomy = ground (arith, v.roomy);
}

keys-IsShown : (keys : List Key) (s : Screen) → IsShown s → IsShown (tui_handle_input keys s).0
unfolding tui_handle_input
keys-IsShown [] s v = v
keys-IsShown (key_right ∷ keys) s v = keys-IsShown keys _ (scroll_right-IsShown 5 s v)
keys-IsShown (key_left ∷ keys) s v = keys-IsShown keys _ (scroll_left-IsShown 5 s v)
keys-IsShown (key_down_arrow ∷ keys) s v = keys-IsShown keys _ (key_down-IsShown s v)
keys-IsShown (key_up_arrow ∷ keys) s v = keys-IsShown keys _ (key_up-IsShown s v)
keys-IsShown (key_s ∷ keys) s v = keys-IsShown keys _ record {
  column = omega arith;
  first = v.first;
  last = v.last;
  scrolled = v.scrolled;
  across = v.across;
  roomy = v.roomy;
}
keys-IsShown (key_q ∷ keys) s v = v
keys-IsShown (other_key ∷ keys) s v = keys-IsShown keys s v

-- Whatever keys are pressed, on a terminal of at least seven lines: from a screen whose selection is a
-- row and scrolled to, the selection stays a row between the first and the last and in sight, the
-- pad is not scrolled past its columns, and the column to sort by is one of the seven.
pub tui_handle_input-IsShown :
    (keys : List Key) (s : Screen)
    → IsShown s
    → IsShown (tui_handle_input keys s).0 × InSight (tui_handle_input keys s).0
tui_handle_input-IsShown keys s v =
    let w = keys-IsShown keys s v in
    (w, (ground (arith, w.scrolled, w.first, w.roomy), ground (arith, w.scrolled)))
