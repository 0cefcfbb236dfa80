-- ===== src/Launchpad/Term/Back.antt =====
-- launchpad.c, `process_term`: looking back.
use kindle_myts.Base.{
  ℕ, ◌+◌, ◌≡◌, refl, ◌∙◌, arith, true, false, [], ◌++◌, Option, some, Returns, min, ◌==◌,
}
use kindle_myts.Launchpad.{KeyEntry}
use kindle_myts.Launchpad.Typing.{key_bytes}
use kindle_myts.Launchpad.State.{Terminal, Pixmap, LpState, set_shell}
use kindle_myts.Launchpad.Screen.{process_screen, blank_state}
use kindle_myts.Launchpad.Screen.View.{glyphs, laid, IsFixed}
use kindle_myts.Launchpad.Screen.Window.{window}
use kindle_myts.Launchpad.Screen.Shown.{Shows, ready, ready_shows, process_screen_prints}
use kindle_myts.Launchpad.Term.{is_modifier, keyin, send_key, press_key, process_term}
use kindle_myts.Launchpad.Term.Keys.{IsPress, press_known}
use kindle_myts.Terminal.{IsWf}
use kindle_myts.Terminal.Shell.{Shell, type_keys, state_set}

pub set_shell_same :
    (shells : ℕ → Option Shell) (n : ℕ) (sh : Option Shell) → set_shell shells n sh n ≡ sh
unfolding set_shell
set_shell_same shells n sh = ground arith

-- `send_key` of no key
send_nothing :
    (glyph_size : ℕ → ℕ × ℕ) (lps : LpState) {t : Terminal} {sh : Shell}
    → lps.curterm ≡ some t
    → lps.shells t.the_shell ≡ some sh
    → send_key glyph_size lps []
      ≡ some (record lps { shells = set_shell lps.shells t.the_shell (some (type_keys sh [])) })
unfolding send_key keyin
send_nothing glyph_size lps cur linked = rw (cur, linked) refl

press_scrollup :
    (glyph_size : ℕ → ℕ × ℕ) (lps : LpState) (code : ℕ)
    → is_modifier lps.keymap code ≡ false
    → (code == lps.keymap.term_scrollup) ≡ true
    → press_key glyph_size lps code
      ≡ process_screen glyph_size (record lps { sb_pos = lps.sb_pos + lps.sb_step })
unfolding press_key
press_scrollup glyph_size lps code m up = rw (m, up) refl

-- A press of the key to look back, where that key sends nothing: `sb_step` more of the lines kept are
-- shown, as far as there are any, in the place of the last lines of the page.
pub process_term_scrolls :
    (glyph_size : ℕ → ℕ × ℕ) (w h : ℕ) {lps : LpState} {value code : ℕ} {e : KeyEntry}
    {t : Terminal}
    → {p : Pixmap} {sh : Shell} → IsPress lps value code e
    → is_modifier lps.keymap code ≡ false
    → (code == lps.keymap.term_scrollup) ≡ true
    → key_bytes lps.keymap lps.mods code e ≡ some []
    → IsFixed glyph_size w h
    → Shows lps t p sh
    → IsWf sh.screen
    → lps.sb_lines ≡ sh.screen.sb_lines
    → lps.fontheight ≡ h
    → let pos = min (lps.sb_pos + lps.sb_step) sh.screen.top in
      Returns (process_term glyph_size lps value code) (λ l.
        (glyphs l.drawn
          ≡ glyphs lps.drawn ++ laid lps.xofs lps.yofs sh.screen.cols w h 0 (window sh.screen pos))
        × (l.sb_pos ≡ pos))
process_term_scrolls glyph_size w h {lps} {value} {code} {e} {t} {p} {sh} press m up bytes fixed
      shows wf lines height =
    let back = record lps { sb_pos = lps.sb_pos + lps.sb_step } in
    let (ds, printed, shown) = ready_shows glyph_size w h back t sh fixed wf lines height in
    let after : LpState = record (ready back t sh) { drawn = lps.drawn ++ ds } in
    let sh₁ = state_set sh blank_state in
    let linked : after.shells t.the_shell ≡ some sh₁ =
      set_shell_same lps.shells t.the_shell (some sh₁) in
    let back_shows : Shows back t p sh = record {
      opened = shows.opened;
      current = shows.current;
      linked = shows.linked;
    } in
    let screen = process_screen_prints glyph_size back ds back_shows printed in
    let sent = send_nothing glyph_size after shows.current linked in
    (
      record after { shells = set_shell after.shells t.the_shell (some (type_keys sh₁ [])) },
      press_known glyph_size press
          ∙ rw (press_scrollup glyph_size lps code m up, screen, bytes) sent,
      (shown, ground arith),
    )
