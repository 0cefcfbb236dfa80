-- ===== src/Engine/Tests/Sessions.antt =====
-- terminal/terminal_session.hpp and terminal/ansi_parser.hpp on a session of two rows and three columns.
use kindle_myts.Base.{
  ℕ, ◌+◌, ◌-◌, ◌*◌, ◌≡◌, refl, arith, true, List, [], ◌∷◌, ◌++◌, Option, some, ◌>>=◌, if◌then◌else◌,
  get_elem?, Returns, inl, store, fill, splice, move,
}
use kindle_myts.Base.Int.{ℤ, pos}
use kindle_myts.Engine.Session.{
  Session, ground_state, blank, within, char_at, on_erase_display, on_print_char, print_plain,
  put_cell, next_line, advance_row, scroll_up, mark_rows, mark_row_dirty, new_session,
}
use kindle_myts.Engine.Parser.{feed, feed_byte}
use kindle_myts.Engine.Session.Invariant.{IsWf}
use kindle_myts.Engine.Session.Feed.{new_session-IsWf, never_behind, erases_behind}
use kindle_myts.Engine.Session.Contents.{
  Holds, with_cell, print_under, print_row, print_col, print_plain-Holds,
}
use kindle_myts.Engine.Session.Erased.{to_erase, erased_place, on_erase_display_blanks}
use kindle_myts.Engine.Session.Addressed.{AllDigits, decimal, feed_address}

abbrev pub small : Session
small = new_session (pos 2) (pos 3)

-- as much as an `int` holds
abbrev pub saturated : ℕ → ℤ
saturated n = pos 2147483647

-- four characters, of which the last wraps, and a new line, which scrolls
abbrev pub text : List ℕ
text = b'a' ∷ b'b' ∷ b'c' ∷ b'd' ∷ b'\r' ∷ b'\n' ∷ b'e' ∷ []

-- what is in the first row, and what in the second
abbrev shown : Option Session → Option (List ℕ)
shown m = do s ← m; a ← char_at s 0 0; b ← char_at s 0 1; c ← char_at s 1 0; some (a ∷ b ∷ c ∷ [])

text-shown : shown (feed saturated text small) ≡ some (b'd' ∷ b' ' ∷ b'e' ∷ [])
unfolding new_session char_at feed feed_byte on_print_char print_plain put_cell next_line
    advance_row scroll_up mark_rows mark_row_dirty store fill splice move
text-shown = refl

pub text_quiet : never_behind saturated text small ≡ true
unfolding new_session never_behind erases_behind feed_byte on_print_char print_plain put_cell
    next_line advance_row scroll_up mark_rows mark_row_dirty store fill splice move
text_quiet = refl

print_plain-Holds_example : Returns (print_plain b'x' small) (
    Holds
      (with_cell
        (print_under small)
        (print_row small * small.cols + print_col small)
        (record { c = b'x'; attr = 0 }))
      (print_row small)
      (print_col small + 1)
      small)
print_plain-Holds_example =
    print_plain-Holds b'x' small (new_session-IsWf (pos 2) (pos 3)) (omega arith)

-- the cursor in the second column of the second row
abbrev moved : Session
moved = record small { cursor_row = 1; cursor_col = 1 }

moved-IsWf : IsWf moved
unfolding new_session
moved-IsWf =
    let w = new_session-IsWf (pos 2) (pos 3) in
    record {
      some_cols = w.some_cols;
      row_in = omega arith;
      col_in = omega arith;
      cells_len = w.cells_len;
      dirty_len = w.dirty_len;
    }

on_erase_display_blanks_example : Returns (on_erase_display (pos 1) moved) (λ t.
    (get_elem? t.cells (1 * moved.cols + 0) ≡ (
      if to_erase (pos 1) moved.cursor_row moved.cursor_col 1 0
      then some blank
      else get_elem? moved.cells (1 * moved.cols + 0)))
    × (t.cursor_row ≡ erased_place (pos 1) moved.cursor_row)
    × (t.cursor_col ≡ erased_place (pos 1) moved.cursor_col))
unfolding new_session
on_erase_display_blanks_example =
    on_erase_display_blanks (pos 1) moved 1 0 moved-IsWf (omega arith) (omega arith)
      (inl (omega arith))

-- ESC [ 1 2 ; 3 H
feed_address_example :
    Returns
      (feed saturated
        (0x1b ∷ b'[' ∷ ((b'1' ∷ b'2' ∷ []) ++ (b';' ∷ ((b'3' ∷ []) ++ (b'H' ∷ [])))))
        small)
      (λ t.
        Holds
          (get_elem? small.cells)
          (within (decimal 0 (b'1' ∷ b'2' ∷ []) - 1) small.rows)
          (within (decimal 0 (b'3' ∷ []) - 1) small.cols)
          small
          t
        × (t.state ≡ ground_state))
unfolding new_session decimal AllDigits
feed_address_example =
    feed_address saturated (b'1' ∷ b'2' ∷ []) (b'3' ∷ []) small (new_session-IsWf (pos 2) (pos 3))
      refl (refl, (refl, tt)) (refl, tt) (omega arith) (omega arith)
