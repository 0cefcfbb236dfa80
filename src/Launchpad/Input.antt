-- ===== src/Launchpad/Input.antt =====
-- launchpad.c: `process_event`, `launchpad_deinit`, `launchpad_start` and `handle_launchpad`.
-- The device of the screen, what `read` gives, and `launchpad_init`, which reads the configuration,
-- are parameters. Memory for a new session is taken to be there.
pub mod Signals
use kindle_myts.Base.{
  ℕ, ◌+◌, ◌*◌, ◌/◌, Bool, true, false, ◌&&◌, not, List, [], ◌∷◌, ◌++◌, Option, none, some, ◌>>=◌,
  ◌>>◌, require, ltb, leb, ◌==◌, if◌then◌else◌, take, length,
}
use kindle_myts.Events.Timers.{Time, timeradd_ms, timersetmin, timerdue, timerisset}
use kindle_myts.Events.Loop.{CbArgs}
use kindle_myts.Launchpad.State.{Terminal, Pixmap, Iodesc, LpState}
use kindle_myts.Launchpad.Screen.{is_open, process_screen}
use kindle_myts.Launchpad.Term.{curterm_end, process_term}
use kindle_myts.Launchpad.Shells.{Spawn, shell_find, free_terminals}
use kindle_myts.Terminal.Shell.{until_nul, fd_isset}

-- `struct input_event`
pub record InputEvent : Type 0 where
  pub type : ℕ
  pub value : ℕ
  pub code : ℕ

-- EV_KEY
abbrev pub ev_key : ℕ
ev_key = 1

-- What the system gives in a call of the handler: the framebuffer that `fb_open` opens, what a new
-- session gets, the time, the events read from a descriptor, and the bytes read from the special one.
pub record System : Type 0 where
  pub screen : Option Pixmap
  pub spawn : Spawn
  pub now : Time
  pub events : ℕ → List InputEvent
  pub special : List ℕ

-- the terminal `t` on the framebuffer, whose contents are saved
unfoldable pub enter_terminal : System → LpState → Terminal → Option Pixmap → Option LpState
enter_terminal sys lps t none = some lps
enter_terminal sys lps t (some pix) = do
  let l = pix.width * pix.height * pix.bpp / 8
  require (leb l (length pix.surface))
  some (record lps {
    curterm = some t;
    save_pixmap = take l pix.surface;
    captured = true;
    screen_due = sys.now;
  })

-- Where there is no terminal the framebuffer is closed, but stays in `fb`.
unfoldable pub start_terminal : System → Option Terminal × LpState → Option LpState
unfolding enter_terminal
start_terminal sys (none, lps) = some lps
start_terminal sys (some t, lps) = enter_terminal sys lps t lps.fb

-- a special event, of mode -3: A and a byte are the name of a terminal
unfoldable pub special_event : Bool → System → LpState → List ℕ → Option LpState
unfolding start_terminal
special_event utf8 sys lps [] = some lps
special_event utf8 sys lps (c ∷ buf) =
    if c == b'A'
    then shell_find utf8 sys.spawn (record lps { fb = sys.screen }) (until_nul (take 2 (c ∷ buf)))
      >>= start_terminal sys
    else some lps

module _ (glyph_size : ℕ → ℕ × ℕ) where
  unfoldable pub process_event : LpState → InputEvent → Option LpState
  process_event lps ev =
      if ev.type == ev_key && is_open lps.fb
      then process_term glyph_size lps ev.value ev.code
      else some lps

  unfoldable pub process_events : LpState → List InputEvent → Option LpState
  unfolding process_event
  process_events lps [] = some lps
  process_events lps (ev ∷ evs) = process_event lps ev >>= λ l. process_events l evs

  -- A descriptor that is ready gives at most two events. The Boolean is `ev`.
  unfoldable pub read_fd : System → CbArgs → Bool × LpState → Option ℕ → Option (Bool × LpState)
  unfolding process_events
  read_fd sys a (ev, lps) none = some (ev, lps)
  read_fd sys a (ev, lps) (some fd) =
      if fd_isset fd a.r
      then (process_events lps (take 2 (sys.events fd)) >>= λ l. some (true, l))
      else some (ev, lps)

  -- the three keypads, and the special events; then the screen, where it is due
  unfoldable pub serve_input : Bool → System → LpState → CbArgs → Option LpState
  unfolding read_fd special_event
  serve_input utf8 sys lps a = do
    k ← read_fd sys a (false, lps) lps.kpad.fdin
    f ← read_fd sys a k lps.fw.fdin
    v ← read_fd sys a f lps.vol.fdin
    l ← special_event utf8 sys v.1 sys.special
    if timerdue l.screen_due a.now then process_screen glyph_size l else some l

abbrev pub closed : Iodesc
closed = record { fdin = none; fdout = none }

-- `fd_close` of all descriptors
unfoldable pub close_all : LpState → LpState
close_all lps = record lps { kpad = closed; fw = closed; vol = closed; special = closed }

unfoldable pub launchpad_deinit : Bool → LpState → Option LpState
unfolding close_all
launchpad_deinit restart lps = do
  l ← curterm_end (record lps { got_signal = 0 })
  m ← if restart then some l else free_terminals l
  some (close_all m)

-- What the handler leaves, with the number of sessions of it that it has made.
pub record Handled : Type 0 where
  pub result : Bool
  pub lps : LpState
  pub args : CbArgs
  pub created : ℕ

module _ (glyph_size : ℕ → ℕ × ℕ) (init : LpState → Bool × LpState) where
  -- The session that `new_sess` makes is counted; the result of `launchpad_init` is whether it was
  -- successful.
  unfoldable pub launchpad_start : LpState → Option (ℕ × LpState)
  unfolding launchpad_deinit
  launchpad_start lps =
      let (good, l) = init lps in
      (if good then some l else launchpad_deinit false l) >>= λ m. some (1, m)

  -- `FD_SET` of an open descriptor, and `maxfd`
  unfoldable pub poll_fd : CbArgs → Option ℕ → CbArgs
  poll_fd a none = a
  poll_fd a (some fd) = record a { r = fd ∷ a.r; maxfd = if ltb a.maxfd fd then fd else a.maxfd }

  -- `term_state(the_shell, NULL)`: whether the current session has changed
  unfoldable pub is_modified : LpState → Option Terminal → Option Bool
  is_modified lps none = some false
  is_modified lps (some t) = lps.shells t.the_shell >>= λ sh. some sh.modified

  unfoldable pub due_screen : LpState → CbArgs → Bool → Option LpState
  due_screen lps a changed =
      if changed && is_open lps.fb && not (timerisset lps.screen_due)
      then (timeradd_ms a.now lps.refresh_delay >>= λ t. some (record lps { screen_due = t }))
      else some lps

  -- before `select`
  unfoldable pub prepare_input : LpState → CbArgs → Option Handled
  unfolding is_modified due_screen poll_fd
  prepare_input lps a = do
    changed ← is_modified lps lps.curterm
    l ← due_screen lps a changed
    let b = record a { due = timersetmin a.due l.screen_due }
    let polled = poll_fd (poll_fd (poll_fd b l.kpad.fdin) l.fw.fdin) l.vol.fdin
    some (record { result = true; lps = l; args = polled; created = 0 })

  -- Behind `select`: 1 is a restart, 2 the end.
  unfoldable pub run_input : Bool → System → LpState → CbArgs → Option Handled
  unfolding launchpad_deinit launchpad_start serve_input
  run_input utf8 sys lps a =
      if lps.got_signal == 1
      then (launchpad_deinit true lps >>= λ l.
          (launchpad_start l >>= λ (made, m).
          some (record { result = false; lps = m; args = a; created = made })))
      else (if lps.got_signal == 2
          then launchpad_deinit false lps
          else serve_input glyph_size utf8 sys lps a)
        >>= λ l. some (record { result = false; lps = l; args = a; created = 0 })

  -- the launchpad is dead
  unfoldable pub end_input : LpState → CbArgs → Option Handled
  unfolding launchpad_deinit
  end_input lps a =
      if a.run
      then (launchpad_deinit false lps >>= λ l.
          some (record { result = true; lps = l; args = a; created = 0 }))
      else some (record { result = false; lps = lps; args = a; created = 0 })

  unfoldable pub handle_fdin : Bool → System → LpState → CbArgs → Option ℕ → Option Handled
  unfolding end_input run_input prepare_input
  handle_fdin utf8 sys lps a none = end_input lps a
  handle_fdin utf8 sys lps a (some fd) =
      if a.run then run_input utf8 sys lps a else prepare_input lps a

  unfoldable pub handle_launchpad : Bool → System → LpState → CbArgs → Option Handled
  unfolding handle_fdin
  handle_launchpad utf8 sys lps a = handle_fdin utf8 sys lps a lps.kpad.fdin
