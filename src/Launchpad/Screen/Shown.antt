-- ===== src/Launchpad/Screen/Shown.antt =====
-- launchpad.c, `process_screen`, as a whole.
use kindle_myts.Base.{ℕ, ◌≡◌, refl, ap, ◌∙◌, arith, List, ◌++◌, some, Returns, min}
use kindle_myts.Launchpad.State.{Terminal, Draw, Pixmap, LpState, set_shell}
use kindle_myts.Launchpad.Screen.{
  print_both, clamp, blank_state, show_shell, show_terminal, process_screen,
}
use kindle_myts.Launchpad.Screen.View.{glyphs, glyphs-append, laid, IsFixed}
use kindle_myts.Launchpad.Screen.Window.{window, Fits, print_both_shows}
use kindle_myts.Terminal.{IsWf}
use kindle_myts.Terminal.Shell.{Shell, term_state, state_set, state_get}

-- The launchpad shows the terminal `t`, whose session is `sh`.
pub record Shows (lps : LpState) (t : Terminal) (p : Pixmap) (sh : Shell) : Type 0 where
  pub opened : lps.fb ≡ some p
  pub current : lps.curterm ≡ some t
  pub linked : lps.shells t.the_shell ≡ some sh

-- the state with which `process_screen` prints
abbrev pub ready : LpState → Terminal → Shell → LpState
ready lps t sh = record lps {
  screen_due = record { sec = 0; usec = 0 };
  sb_pos = clamp sh.screen.top lps.sb_pos;
  shells = set_shell lps.shells t.the_shell (some (state_set sh blank_state));
}

pub process_screen_prints :
    (glyph_size : ℕ → ℕ × ℕ) (lps : LpState) {t : Terminal} {p : Pixmap} {sh : Shell}
    → (ds : List Draw) → Shows lps t p sh
    → print_both glyph_size (ready lps t sh) (state_get sh blank_state) ≡ some ds
    → process_screen glyph_size lps ≡ some (record (ready lps t sh) { drawn = lps.drawn ++ ds })
unfolding process_screen show_terminal show_shell term_state
process_screen_prints glyph_size lps ds shows e =
    rw (shows.opened, shows.current, shows.linked, e) refl

-- What `process_screen` prints.
pub ready_shows :
    (glyph_size : ℕ → ℕ × ℕ) (w h : ℕ) (lps : LpState) (t : Terminal) (sh : Shell)
    → IsFixed glyph_size w h
    → IsWf sh.screen
    → lps.sb_lines ≡ sh.screen.sb_lines
    → lps.fontheight ≡ h
    → let pos = min lps.sb_pos sh.screen.top in
      Returns (print_both glyph_size (ready lps t sh) (state_get sh blank_state)) (λ ds.
        glyphs (lps.drawn ++ ds)
        ≡ glyphs lps.drawn ++ laid lps.xofs lps.yofs sh.screen.cols w h 0 (window sh.screen pos))
ready_shows glyph_size w h lps t sh fixed wf lines height =
    let pos : clamp sh.screen.top lps.sb_pos ≡ min lps.sb_pos sh.screen.top = ground arith in
    let fits : Fits (ready lps t sh) sh.screen h = record {
      same_lines = lines;
      same_height = height;
      pos_in = ground arith;
    } in
    let (ds, e, shown) = print_both_shows glyph_size w h (ready lps t sh) sh fixed wf fits in
    let lay = laid lps.xofs lps.yofs sh.screen.cols w h 0 in
    (
      ds,
      e,
      glyphs-append lps.drawn ds
          ∙ ap (λ g. glyphs lps.drawn ++ g) shown
          ∙ ap (λ n. glyphs lps.drawn ++ lay (window sh.screen n)) pos,
    )

-- With a font of one size, the one configured, and a scrollback area of the size configured,
-- `process_screen` on a well-formed screen returns. It draws, line by line from the corner, as many
-- cells as the page has out of the lines kept in the scrollback area with the page behind them,
-- beginning `sb_pos` lines above the page, or at the first line kept where there are fewer, and
-- leaves `sb_pos` at that line.
pub process_screen_lem :
    (glyph_size : ℕ → ℕ × ℕ) (w h : ℕ) (lps : LpState) {t : Terminal} {p : Pixmap} {sh : Shell}
    → IsFixed glyph_size w h
    → Shows lps t p sh
    → IsWf sh.screen
    → lps.sb_lines ≡ sh.screen.sb_lines
    → lps.fontheight ≡ h
    → let pos = min lps.sb_pos sh.screen.top in
      Returns (process_screen glyph_size lps) (λ l.
        (glyphs l.drawn
          ≡ glyphs lps.drawn ++ laid lps.xofs lps.yofs sh.screen.cols w h 0 (window sh.screen pos))
        × (l.sb_pos ≡ pos))
process_screen_lem glyph_size w h lps {t} {p} {sh} fixed shows wf lines height =
    let (ds, e, shown) = ready_shows glyph_size w h lps t sh fixed wf lines height in
    (
      record (ready lps t sh) { drawn = lps.drawn ++ ds },
      process_screen_prints glyph_size lps ds shows e,
      (shown, ground arith),
    )
