-- ===== src/Terminal/Tests/Pages.antt =====
-- terminal.c: scrolling and characters on a concrete screen.
use kindle_myts.Base.{◌≡◌, refl, arith, [], ◌∷◌, some, get_elem?, fill, move, copy, splice, Returns}
use kindle_myts.Terminal.{Screen}
use kindle_myts.Terminal.Tests.{small, scrolled, small-IsWf}
use kindle_myts.Terminal.Page.{
  erase, shift_history, store_line, count_line, save_line, move_cells, body_len, page_scroll,
  page_scrolldown,
}
use kindle_myts.Terminal.Page.Scrolled.{page_scroll_cells}
use kindle_myts.Terminal.Glyph.{put_code}
use kindle_myts.Terminal.Glyph.Echo.{Echoed, put_code-Echoed}

abbrev scrolled_down : Screen
scrolled_down = record small {
  page = b' ' ∷ b' ' ∷ b' ' ∷ b' ' ∷ b'a' ∷ b'b' ∷ b'c' ∷ b'd' ∷ b'e' ∷ b'f' ∷ b'g' ∷ b'h' ∷ [];
  attributes = 7 ∷ 7 ∷ 7 ∷ 7 ∷ 1 ∷ 1 ∷ 1 ∷ 1 ∷ 2 ∷ 2 ∷ 2 ∷ 2 ∷ [];
}

scroll_small : page_scroll small ≡ some scrolled
unfolding page_scroll body_len save_line count_line shift_history store_line move_cells erase fill
    move copy splice
scroll_small = refl

scroll_small_down : page_scrolldown small ≡ some scrolled_down
unfolding page_scrolldown body_len move_cells erase fill move splice
scroll_small_down = refl

page_scroll_cells_example :
    (get_elem? scrolled.page 5 ≡ get_elem? small.page 9)
    × (get_elem? scrolled.attributes 5 ≡ get_elem? small.attributes 9)
page_scroll_cells_example = page_scroll_cells 5 small-IsWf scroll_small

put_code-Echoed_example : Returns (put_code small b'x' 1) (Echoed small b'x')
put_code-Echoed_example =
    put_code-Echoed b'x' small-IsWf (omega arith) (omega arith) (omega arith) refl
