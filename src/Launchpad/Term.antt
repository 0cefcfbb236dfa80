-- ===== src/Launchpad/Term.antt =====
-- launchpad.c: `curterm_end` and `process_term`, a key event in terminal mode.
pub mod Keys
pub mod Back
use kindle_myts.Base.{
  ℕ, ◌+◌, ◌-◌, Bool, true, false, not, ◌&&◌, ◌||◌, List, [], ◌∷◌, ◌++◌, Option, none, some, ◌>>=◌,
  ◌>>◌, require, ltb, leb, ◌==◌, if◌then◌else◌, length,
}
use kindle_myts.Launchpad.{KeyEntry, Keymap}
use kindle_myts.Launchpad.State.{Terminal, Pixmap, Draw, area, restored, LpState, set_shell}
use kindle_myts.Launchpad.Screen.{process_screen}
use kindle_myts.Launchpad.Help.{print_keymap}
use kindle_myts.Launchpad.Typing.{Mods, press_mods, release_mods, key_bytes}
use kindle_myts.Terminal.Shell.{Shell, type_keys}

-- The saved pixmap, if there is one, goes back to the surface, which must have room for it.
unfoldable pub restore_pixmap : LpState → Option Pixmap → Option LpState
restore_pixmap lps none = some lps
restore_pixmap lps (some p) = if length lps.save_pixmap == 0 then some lps else do
  require (leb (length lps.save_pixmap) (length p.surface))
  some (record lps {
    drawn = lps.drawn ++ (restored lps.save_pixmap ∷ area 0 0 p.width p.height ∷ []);
    save_pixmap = [];
  })

unfoldable pub curterm_end : LpState → Option LpState
unfolding restore_pixmap
curterm_end lps = restore_pixmap lps lps.fb >>= λ l.
    some (record l { curterm = none; fb = none; captured = false })

-- `term_keyin` of the session of the current terminal
unfoldable pub keyin : LpState → List ℕ → Option Terminal → Option LpState
unfolding type_keys
keyin lps k none = some lps
keyin lps k (some t) = lps.shells t.the_shell >>= λ sh.
    some (record lps { shells = set_shell lps.shells t.the_shell (some (type_keys sh k)) })

-- the keys that are held with others
abbrev pub is_modifier : Keymap → ℕ → Bool
is_modifier km code =
    code == km.term_shift
    || code == km.term_ctrl
    || code == km.term_sym
    || code == km.term_fn
    || code == km.term_lang

module _ (glyph_size : ℕ → ℕ × ℕ) where
  -- the end of `process_term`: a key that sends something ends the look back
  unfoldable pub send_key : LpState → List ℕ → Option LpState
  unfolding keyin
  send_key lps k =
      (if not (length k == 0) && not (lps.sb_pos == 0)
        then process_screen glyph_size (record lps { sb_pos = 0 })
        else some lps)
      >>= λ l. keyin l k l.curterm

  -- `term_end` with another key held shows the help
  unfoldable pub press_end : LpState → Option LpState
  press_end lps =
      let m = lps.mods in
      if m.shift || m.fn || m.ctrl || m.sym
      then ((if m.help then some lps else print_keymap glyph_size lps) >>= λ l.
          some (record l { mods = record l.mods { help = true } }))
      else some (record lps { mods = record m { help = false } })

  unfoldable pub release_end : LpState → Option LpState
  unfolding curterm_end
  release_end lps =
      (if lps.mods.help then process_screen glyph_size lps else curterm_end lps) >>= λ l.
      some (record l { mods = record l.mods { help = false } })

  -- the keys held, and the look back
  unfoldable pub press_key : LpState → ℕ → Option LpState
  unfolding press_mods
  press_key lps code =
      let km = lps.keymap in
      if is_modifier km code
      then some (record lps { mods = press_mods km lps.mods code })
      else if code == km.term_scrollup
      then process_screen glyph_size (record lps { sb_pos = lps.sb_pos + lps.sb_step })
      else if code == km.term_scrolldown
      then process_screen glyph_size (record lps { sb_pos = lps.sb_pos - lps.sb_step })
      else some lps

  unfoldable pub press : LpState → ℕ → KeyEntry → Option LpState
  unfolding press_end press_key send_key
  press lps code e =
      if code == lps.keymap.term_end
      then press_end lps
      else press_key lps code >>= λ l. (key_bytes l.keymap l.mods code e >>= λ k. send_key l k)

  unfoldable pub release : LpState → ℕ → Option LpState
  unfolding release_end send_key
  release lps code =
      if code == lps.keymap.term_end
      then release_end lps
      else send_key (record lps { mods = release_mods lps.keymap lps.mods code }) []

  unfoldable pub known_key : LpState → ℕ → ℕ → Option KeyEntry → Option LpState
  unfolding press release send_key
  known_key lps value code none = some lps
  known_key lps value code (some e) =
      if value == 1 || value == 2
      then press lps code e
      else if value == 0
      then release lps code
      else send_key lps []

  -- The value and the code of the event. A code behind the end of `by_code` is a fault.
  unfoldable pub process_term : LpState → ℕ → ℕ → Option LpState
  unfolding known_key
  process_term lps value code = do
    require (ltb code 256)
    known_key lps value code (lps.keymap.by_code code)
