-- ===== src/Launchpad/State.antt =====
-- launchpad.c: `struct lp_state`, the shells it refers to, and what is drawn.
use kindle_myts.Base.{ℕ, List, Option, Bool, if◌then◌else◌, ◌==◌}
use kindle_myts.Events.Timers.{Time}
pub use kindle_myts.Pixop.{Pixmap}
use kindle_myts.Launchpad.{Keymap}
use kindle_myts.Launchpad.Typing.{Mods}
use kindle_myts.Terminal.Shell.{Shell}

-- `struct terminal`; `the_shell` is the number that stands for the pointer.
pub record Terminal : Type 0 where
  pub the_shell : ℕ
  pub name : List ℕ

-- What is drawn: a character of this code and background at a place, a call of `fb_update_area`, or
-- the saved pixmap copied back to the surface.
pub data Draw : Type 0 where
  put : ℕ → ℕ → ℕ → ℕ → Draw
  area : ℕ → ℕ → ℕ → ℕ → Draw
  restored : List ℕ → Draw

-- `struct iodesc`: the descriptors, -1 being `none`
pub record Iodesc : Type 0 where
  pub fdin : Option ℕ
  pub fdout : Option ℕ

-- The sessions are found under their numbers; `none` is memory that is no session, or no more.
pub record LpState : Type 0 where
  pub keymap : Keymap
  pub mods : Mods
  pub refresh_delay : ℕ
  pub kpad : Iodesc
  pub fw : Iodesc
  pub vol : Iodesc
  pub special : Iodesc
  pub fontheight : ℕ
  pub fontwidth : ℕ
  pub xofs : ℕ
  pub yofs : ℕ
  pub curterm : Option Terminal
  pub fb : Option Pixmap
  pub save_pixmap : List ℕ
  pub screen_due : Time
  pub got_signal : ℕ
  pub sb_lines : ℕ
  pub sb_pos : ℕ
  pub sb_step : ℕ
  pub allterm : List Terminal
  pub shells : ℕ → Option Shell
  pub drawn : List Draw
  -- the last argument of `capture_input`
  pub captured : Bool
  -- the sessions whose process `term_kill` was called for
  pub killed : List ℕ

-- a session stored under its number, or taken away
unfoldable pub set_shell : (ℕ → Option Shell) → ℕ → Option Shell → ℕ → Option Shell
set_shell shells n sh m = if m == n then sh else shells m
