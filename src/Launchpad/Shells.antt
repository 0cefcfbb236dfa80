-- ===== src/Launchpad/Shells.antt =====
-- launchpad.c: the list of terminals, `shell_find`, `term_dead` and `free_terminals`.
-- What `calloc`, `new_sess` and `forkpty` give is a parameter.
pub mod Links
pub mod Found
use kindle_myts.Base.{
  ℕ, ◌-◌, ◌*◌, ◌/◌, Bool, true, false, ◌&&◌, not, List, [], ◌∷◌, ◌++◌, Option, none, some, ◌>>=◌,
  ◌>>◌, require, ltb, ◌==◌, if◌then◌else◌,
}
use kindle_myts.Config.{same_bytes}
use kindle_myts.Launchpad.State.{Terminal, Pixmap, LpState, set_shell}
use kindle_myts.Launchpad.Term.{curterm_end}
use kindle_myts.Terminal.Shell.{Shell}
use kindle_myts.Terminal.Start.{term_new_screen}

-- What the system gives for a new session: whether there is memory for the terminal, the number of
-- the session where there is memory for it, and the descriptor of the terminal of its process, if
-- there is one.
pub record Spawn : Type 0 where
  pub memory : Bool
  pub number : Option ℕ
  pub fd : Option ℕ

-- the loop over the list: the terminal of this name
unfoldable pub find_name : List Terminal → List ℕ → Option Terminal
find_name [] name = none
find_name (t ∷ ts) name =
    let rest = find_name ts name in if same_bytes name t.name then some t else rest

-- `term_new`: the session under its number, dead where there is no process. The result is NULL where
-- there is none.
unfoldable pub term_new : Bool → Spawn → LpState → Pixmap → List ℕ → ℕ → Option (Option ℕ × LpState)
term_new utf8 spawn lps pix name n = do
  screen ←
      term_new_screen utf8 ((pix.height - 2 * lps.yofs) / lps.fontheight)
        ((pix.width - 2 * lps.xofs) / lps.fontwidth) lps.sb_lines
  let sh : Shell = record {
    screen = screen;
    keys = [];
    sbuf = [];
    modified = true;
    fd = spawn.fd;
    cb = true;
    name = name;
  }
  let made : Option ℕ = spawn.fd >>= λ fd. some n
  some (made, record lps { shells = set_shell lps.shells n (some sh) })

-- `new_sess` in `term_new`
unfoldable pub try_new :
    Bool → Spawn → LpState → Pixmap → List ℕ → Option ℕ → Option (Option ℕ × LpState)
unfolding term_new
try_new utf8 spawn lps pix name none = some (none, lps)
try_new utf8 spawn lps pix name (some n) = term_new utf8 spawn lps pix name n

-- the new terminal in the list, or NULL
unfoldable pub add_terminal : LpState → List ℕ → Option ℕ → Option Terminal × LpState
add_terminal lps name none = (none, lps)
add_terminal lps name (some n) =
    let t : Terminal = record { the_shell = n; name = name } in
    (some t, record lps { allterm = t ∷ lps.allterm })

-- A new terminal needs the framebuffer and a font with a size.
unfoldable pub new_terminal :
    Bool → Spawn → LpState → List ℕ → Option Pixmap → Option (Option Terminal × LpState)
unfolding try_new add_terminal
new_terminal utf8 spawn lps name none = none
new_terminal utf8 spawn lps name (some pix) = do
  require (ltb 0 lps.fontheight && ltb 0 lps.fontwidth)
  (n, l) ← try_new utf8 spawn lps pix name spawn.number
  let step = (pix.height - 2 * lps.yofs) / lps.fontheight / 2
  some (add_terminal (record l { sb_step = step }) name n)

unfoldable pub found_or_new :
    Bool → Spawn → LpState → List ℕ → Option Terminal → Option (Option Terminal × LpState)
unfolding new_terminal
found_or_new utf8 spawn lps name (some t) = some (some t, lps)
found_or_new utf8 spawn lps name none =
    if spawn.memory then new_terminal utf8 spawn lps name lps.fb else some (none, lps)

unfoldable pub shell_find : Bool → Spawn → LpState → List ℕ → Option (Option Terminal × LpState)
unfolding found_or_new find_name
shell_find utf8 spawn lps name = found_or_new utf8 spawn lps name (find_name lps.allterm name)

-- the loop of `term_dead`: the terminal of the session, and the list without it
unfoldable pub unlink : List Terminal → ℕ → Option Terminal × List Terminal
unlink [] n = (none, [])
unlink (t ∷ ts) n =
    let (found, rest) = unlink ts n in if t.the_shell == n then (some t, ts) else (found, t ∷ rest)

-- `lps->curterm == cur`
abbrev pub is_current : Option Terminal → Terminal → Bool
is_current none t = false
is_current (some c) t = c.the_shell == t.the_shell

unfoldable pub end_dead : LpState → Option Terminal → Option LpState
end_dead lps none = some lps
end_dead lps (some t) = if is_current lps.curterm t then curterm_end lps else some lps

unfoldable pub term_dead : LpState → ℕ → Option LpState
unfolding unlink end_dead
term_dead lps n =
    let (found, rest) = unlink lps.allterm n in end_dead (record lps { allterm = rest }) found

-- `handle_shell` frees a dead session behind its callback.
unfoldable pub bury : LpState → ℕ → Option LpState
unfolding term_dead
bury lps n = term_dead lps n >>= λ l. some (record l { shells = set_shell l.shells n none })

-- the sessions that are sent a signal
abbrev pub all_shells : List Terminal → List ℕ
all_shells [] = []
all_shells (t ∷ ts) = t.the_shell ∷ all_shells ts

unfoldable pub free_terminals : LpState → Option LpState
free_terminals lps = do
  l ← curterm_end lps
  some (record l { allterm = []; killed = l.killed ++ all_shells l.allterm })
