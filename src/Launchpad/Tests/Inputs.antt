-- ===== src/Launchpad/Tests/Inputs.antt =====
-- launchpad.c: terminals that start and die, and a restart.
use kindle_myts.Base.{
  ◌≡◌, refl, Bool, true, false, [], ◌∷◌, none, some, replicate, fill, splice, inl,
}
use kindle_myts.Config.{same_bytes}
use kindle_myts.Events.Loop.{CbArgs}
use kindle_myts.Launchpad.State.{Terminal, LpState, set_shell}
use kindle_myts.Launchpad.Tests.{shown, session, terminal, surface, size}
use kindle_myts.Launchpad.Term.{curterm_end}
use kindle_myts.Launchpad.Shells.{Spawn, free_terminals, shell_find, bury}
use kindle_myts.Launchpad.Shells.Links.{Linked, Absent, bury-Linked}
use kindle_myts.Launchpad.Input.{System, Handled, closed, handle_launchpad}
use kindle_myts.Terminal.Page.{erase}
use kindle_myts.Terminal.Shell.{Shell}
use kindle_myts.Terminal.Start.{term_new_screen, cleared}

shown-Linked : Linked shown
shown-Linked = record { alive = ((session, refl), tt); distinct = (tt, tt); current = inl refl }

abbrev buried : LpState
buried = record shown {
  allterm = [];
  curterm = none;
  fb = none;
  captured = false;
  shells = set_shell shown.shells 1 none;
}

bury-shown : bury shown 1 ≡ some buried
unfolding bury curterm_end
bury-shown = refl

bury-Linked_example : Linked buried × Absent 1 buried.allterm
bury-Linked_example = bury-Linked shown 1 shown-Linked bury-shown

abbrev spawn : Spawn
spawn = record { memory = true; number = some 2; fd = some 6 }

found : shell_find false spawn shown (b'A' ∷ b'1' ∷ []) ≡ some (some terminal, shown)
unfolding shell_find same_bytes
found = refl

-- room for 4 lines of 10 cells
abbrev large : LpState
large = record shown { fb = some (record { width = 80; height = 144; bpp = 4; surface = [] }) }

abbrev blank : Shell
unfolding cleared
blank = record {
  screen = record (cleared false 4 10 3) { page = replicate 40 b' ' };
  keys = [];
  sbuf = [];
  modified = true;
  fd = some 6;
  cb = true;
  name = b'A' ∷ b'2' ∷ [];
}

abbrev second : Terminal
second = record { the_shell = 2; name = b'A' ∷ b'2' ∷ [] }

abbrev two_terminals : LpState
unfolding blank
two_terminals = record large {
  allterm = second ∷ terminal ∷ [];
  shells = set_shell shown.shells 2 (some blank);
  sb_step = 2;
}

made_second : shell_find false spawn large (b'A' ∷ b'2' ∷ []) ≡ some (some second, two_terminals)
unfolding shell_find same_bytes term_new_screen erase fill splice
made_second = refl

-- SIGHUP, and a configuration that cannot be read again
abbrev hung_up : LpState
hung_up = record shown { got_signal = 1 }

abbrev system : System
system = record {
  screen = some surface;
  spawn = spawn;
  now = record { sec = 0; usec = 0 };
  events = λ fd. [];
  special = [];
}

abbrev running : CbArgs
running = record {
  now = record { sec = 0; usec = 0 };
  due = record { sec = 0; usec = 0 };
  r = [];
  w = [];
  maxfd = 0;
  run = true;
}

abbrev no_config : LpState → Bool × LpState
no_config lps = (false, lps)

abbrev ended : Handled
ended = record {
  result = false;
  lps = record hung_up {
    got_signal = 0;
    allterm = [];
    killed = 1 ∷ [];
    curterm = none;
    fb = none;
    captured = false;
    kpad = closed;
    fw = closed;
    vol = closed;
    special = closed;
  };
  args = running;
  created = 1;
}

-- SIGHUP: a second session of the launchpad is made, and the result keeps the first.
hang_up : handle_launchpad size no_config false system hung_up running ≡ some ended
unfolding handle_launchpad curterm_end free_terminals
hang_up = refl
