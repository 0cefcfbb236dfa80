-- ===== src/Launchpad/Term/Keys.antt =====
-- launchpad.c, `process_term`: what a key does.
use kindle_myts.Terminal.Keys.{kmax, map_arrow, term_keyin}
use kindle_myts.Launchpad.Typing.Letters.{IsPlain, prefixed, letter_key}
use kindle_myts.Base.{
  ℕ, ◌+◌, ◌-◌, ◌≤◌, ap, take_all, if◌then◌else◌, [], ◌∷◌, ◌++◌, ◌<◌, ◌≡◌, refl, arith, true, false,
  not, ◌&&◌, ◌||◌, List, some, ◌>>=◌, lt→ltb, ◌==◌, length, ◌∙◌,
}
use kindle_myts.Launchpad.{KeyEntry, Keymap}
use kindle_myts.Launchpad.Typing.{is_silent, key_bytes}
use kindle_myts.Launchpad.State.{Terminal, LpState, set_shell}
use kindle_myts.Launchpad.Term.{
  is_modifier, keyin, send_key, press_key, press, known_key, process_term,
}
use kindle_myts.Terminal.Shell.{Shell, type_keys}

-- A press, or a repeat, of a known key that is not the end key.
pub record IsPress (lps : LpState) (value code : ℕ) (e : KeyEntry) : Type 0 where
  pub pressed : (value == 1 || value == 2) ≡ true
  pub in_table : code < 256
  pub known : lps.keymap.by_code code ≡ some e
  pub not_end : (code == lps.keymap.term_end) ≡ false

not_silent_steps :
    (km : Keymap) (code : ℕ)
    → is_silent km code ≡ false
    → (is_modifier km code ≡ false)
      × ((code == km.term_scrollup) ≡ false)
      × ((code == km.term_scrolldown) ≡ false)
not_silent_steps km code h = (ground arith, ground arith, ground arith)

press_key_plain :
    (glyph_size : ℕ → ℕ × ℕ) (lps : LpState) (code : ℕ)
    → is_silent lps.keymap code ≡ false
    → press_key glyph_size lps code ≡ some lps
unfolding press_key
press_key_plain glyph_size lps code h =
    let (a, b, c) = not_silent_steps lps.keymap code h in rw (a, b, c) refl

-- `send_key` with the newest lines on the screen
send_key_home :
    (glyph_size : ℕ → ℕ × ℕ) (lps : LpState) (k : List ℕ) {t : Terminal} {sh : Shell}
    → lps.sb_pos ≡ 0
    → lps.curterm ≡ some t
    → lps.shells t.the_shell ≡ some sh
    → send_key glyph_size lps k
      ≡ some (record lps { shells = set_shell lps.shells t.the_shell (some (type_keys sh k)) })
unfolding send_key keyin
send_key_home glyph_size lps k {t} {sh} home cur linked =
    let quiet : (not (length k == 0) && not (lps.sb_pos == 0)) ≡ false = ground (arith, home) in
    rw quiet (rw (cur, linked) refl)

module _ (glyph_size : ℕ → ℕ × ℕ) {lps : LpState} {value code : ℕ} {e : KeyEntry} where
  pub press_known :
      IsPress lps value code e
      → process_term glyph_size lps value code ≡ (
          press_key glyph_size lps code >>= λ l.
          (key_bytes l.keymap l.mods code e >>= λ k. send_key glyph_size l k))
  unfolding process_term known_key press
  press_known p = rw (lt→ltb code 256 p.in_table, p.known, p.pressed, p.not_end) refl

  -- A press of a known key that is neither the end key nor one of those held or used to look back,
  -- with the newest lines on the screen, does nothing but put the key's string into the key queue of
  -- the current terminal's session.
  pub process_term_types :
      {t : Terminal} {sh : Shell} {k : List ℕ}
      → IsPress lps value code e
      → is_silent lps.keymap code ≡ false
      → lps.sb_pos ≡ 0
      → lps.curterm ≡ some t
      → lps.shells t.the_shell ≡ some sh
      → key_bytes lps.keymap lps.mods code e ≡ some k
      → process_term glyph_size lps value code
        ≡ some (record lps { shells = set_shell lps.shells t.the_shell (some (type_keys sh k)) })
  process_term_types {t} {sh} {k} p loud home cur linked bytes =
      press_known p
      ∙ rw (press_key_plain glyph_size lps code loud, bytes)
          (send_key_home glyph_size lps k home cur linked)

-- a short string behind the keys of a session
type_short :
    (sh : Shell) (k : List ℕ)
    → length k ≤ 2
    → length sh.keys + 2 < kmax
    → type_keys sh k ≡ record sh { keys = sh.keys ++ k }
unfolding type_keys term_keyin map_arrow
type_short sh [] small room =
    rw (take_all {A = ℕ} (kmax - 1 - length sh.keys) [] (omega arith)) refl
type_short sh (a ∷ []) small room =
    rw (take_all {A = ℕ} (kmax - 1 - length sh.keys) (a ∷ []) (omega (arith, room))) refl
type_short sh (a ∷ b ∷ []) small room =
    rw (take_all {A = ℕ} (kmax - 1 - length sh.keys) (a ∷ b ∷ []) (omega (arith, room))) refl
type_short sh (a ∷ b ∷ c ∷ cs) small room = absurd (omega (arith, small))

-- A press, or a repeat, of the key of a small letter, without FN and SYM and with the newest lines on the
-- screen, puts the letter behind the keys that wait for the current terminal's shell: the capital
-- letter with SHIFT, else its control character with CTRL, else the letter itself, each behind an
-- escape with LANG held or locked. Nothing else changes, as long as the queue has room for two bytes.
pub process_term_letter :
    (glyph_size : ℕ → ℕ × ℕ) {lps : LpState} {value code c : ℕ} {e : KeyEntry} {t : Terminal}
    {sh : Shell}
    → IsPress lps value code e
    → IsPlain lps.keymap lps.mods code e c
    → 97 ≤ c
    → c ≤ 122
    → lps.sb_pos ≡ 0
    → lps.curterm ≡ some t
    → lps.shells t.the_shell ≡ some sh
    → length sh.keys + 2 < kmax
    → process_term glyph_size lps value code
      ≡ some (record lps {
        shells = set_shell lps.shells t.the_shell (
            some (record sh {
              keys =
                  sh.keys
                  ++ prefixed lps.mods
                      (if lps.mods.shift then c - 32 else if lps.mods.ctrl then c - 96 else c);
            }));
      })
process_term_letter glyph_size {lps} {value} {code} {c} {e} {t} {sh} p plain lo hi home cur linked
      room =
    let byte = if lps.mods.shift then c - 32 else if lps.mods.ctrl then c - 96 else c in
    let short : length (prefixed lps.mods byte) ≤ 2 = ground arith in
    process_term_types glyph_size p plain.not_silent home cur linked (letter_key plain lo hi)
    ∙ ap (λ (u : Shell). some (record lps { shells = set_shell lps.shells t.the_shell (some u) }))
        (type_short sh (prefixed lps.mods byte) short room)
