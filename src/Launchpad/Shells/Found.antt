-- ===== src/Launchpad/Shells/Found.antt =====
-- launchpad.c, `shell_find`: a name has one session, and a new one is linked.
use kindle_myts.Base.{
  ℕ, ◌≡◌, refl, sym, ◌∙◌, arith, Bool, true, ◌&&◌, List, [], ◌∷◌, Option, none, some, ◌>>=◌,
  require, >>=-eq-some, from_either, ltb, ◌*◌, ◌-◌, ◌/◌, inr,
}
use mathlib.Core.Path.{subst}
use kindle_myts.Config.{same_bytes}
use kindle_myts.Launchpad.State.{Terminal, Pixmap, LpState, set_shell}
use kindle_myts.Launchpad.Shells.{
  Spawn, find_name, term_new, try_new, add_terminal, new_terminal, found_or_new, shell_find,
}
use kindle_myts.Launchpad.Shells.Links.{Linked, Alive, Absent, IsListed, Alive-set_shell}
use kindle_myts.Launchpad.Term.Back.{set_shell_same}
use kindle_myts.Terminal.Start.{term_new_screen}
use kindle_myts.Terminal.Shell.{Shell}

same_bytes_refl : (name : List ℕ) → same_bytes name name ≡ true
unfolding same_bytes
same_bytes_refl [] = refl
same_bytes_refl (c ∷ cs) = ground (arith, same_bytes_refl cs)

-- The list has the terminal `t` for the name.
HasName : List ℕ → Option Terminal × LpState → Type 0
HasName name (none, l) = Unit
HasName name (some t, l) = find_name l.allterm name ≡ some t

add_terminal-HasName :
    (lps : LpState) (name : List ℕ) (n : Option ℕ) → HasName name (add_terminal lps name n)
unfolding add_terminal HasName find_name
add_terminal-HasName lps name none = tt
add_terminal-HasName lps name (some n) = rw (same_bytes_refl name) refl

new_terminal-HasName :
    (utf8 : Bool) (spawn : Spawn) (lps : LpState) (name : List ℕ) (fb : Option Pixmap)
    → {r : Option Terminal × LpState} → new_terminal utf8 spawn lps name fb ≡ some r
    → HasName name r
unfolding new_terminal
new_terminal-HasName utf8 spawn lps name none e = cc
new_terminal-HasName utf8 spawn lps name (some pix) {r} e =
    let (_, _, e₁) = >>=-eq-some (require (ltb 0 lps.fontheight && ltb 0 lps.fontwidth)) _ e in
    let (m, em, e₂) = >>=-eq-some (try_new utf8 spawn lps pix name spawn.number) _ e₁ in
    let step = (pix.height - 2 * lps.yofs) / lps.fontheight / 2 in
    let i : add_terminal (record m.1 { sb_step = step }) name m.0 ≡ r = cc in
    subst (HasName name) i (add_terminal-HasName (record m.1 { sb_step = step }) name m.0)

found_or_new-HasName :
    (utf8 : Bool) (spawn : Spawn) (lps : LpState) (name : List ℕ) (found : Option Terminal)
    → {r : Option Terminal × LpState} → find_name lps.allterm name ≡ found
    → found_or_new utf8 spawn lps name found ≡ some r
    → HasName name r
unfolding found_or_new HasName
found_or_new-HasName utf8 spawn lps name (some t) {r} f e =
    let i : (some t, lps) ≡ r = cc in subst (HasName name) i f
found_or_new-HasName utf8 spawn lps name none {r} f e =
    from_either spawn.memory _ _ (new_terminal-HasName utf8 spawn lps name lps.fb)
      (λ e. let i : (none, lps) ≡ r = cc in subst (HasName name) i tt) e

-- A name that has got a terminal gets the same one again, whatever the system gives then, and nothing
-- changes.
pub shell_find_again :
    (utf8 : Bool) (spawn later : Spawn) (lps : LpState) (name : List ℕ) {t : Terminal} {l : LpState}
    → shell_find utf8 spawn lps name ≡ some (some t, l)
    → shell_find utf8 later l name ≡ some (some t, l)
unfolding shell_find HasName
shell_find_again utf8 spawn later lps name {t} {l} e =
    let h : find_name l.allterm name ≡ some t =
      found_or_new-HasName utf8 spawn lps name (find_name lps.allterm name) refl e in
    rw h refl

Alive-Absent :
    (shells : ℕ → Option Shell) (n : ℕ) (ts : List Terminal)
    → shells n ≡ none
    → Alive shells ts
    → Absent n ts
Alive-Absent shells n [] free h = tt
Alive-Absent shells n (t ∷ ts) free ((sh, e), h) = (
  λ same. let clash : none ≡ some sh = sym (subst (λ m. shells m ≡ none) (sym same) free) ∙ e in cc,
  Alive-Absent shells n ts free h,
)

-- A new session is linked to nothing.
Ready : Option ℕ × LpState → Type 0
Ready (none, l) = Linked l
Ready (some n, l) = Linked l × ((sh : Shell) × (l.shells n ≡ some sh)) × Absent n l.allterm

stored-Linked :
    (lps : LpState) (n : ℕ) (sh : Shell)
    → lps.shells n ≡ none
    → Linked lps
    → Linked (record lps { shells = set_shell lps.shells n (some sh) })
stored-Linked lps n sh free k =
    let absent = Alive-Absent lps.shells n lps.allterm free k.alive in
    record {
      alive = Alive-set_shell lps.shells n (some sh) lps.allterm absent k.alive;
      distinct = k.distinct;
      current = k.current;
    }

stored-Ready :
    (lps : LpState) (n : ℕ) (sh : Shell) (fd : Option ℕ)
    → lps.shells n ≡ none
    → Linked lps
    → Ready (fd >>= λ fd. some n, record lps { shells = set_shell lps.shells n (some sh) })
unfolding Ready
stored-Ready lps n sh none free k = stored-Linked lps n sh free k
stored-Ready lps n sh (some fd) free k = (
  stored-Linked lps n sh free k,
  (sh, set_shell_same lps.shells n (some sh)),
  Alive-Absent lps.shells n lps.allterm free k.alive,
)

term_new-Ready :
    (utf8 : Bool) (spawn : Spawn) (lps : LpState) (pix : Pixmap) (name : List ℕ) (n : ℕ)
    → {r : Option ℕ × LpState} → lps.shells n ≡ none
    → Linked lps
    → term_new utf8 spawn lps pix name n ≡ some r
    → Ready r
unfolding term_new Ready
term_new-Ready utf8 spawn lps pix name n {r} free k e =
    let (screen, _, e₁) =
      >>=-eq-some
        (term_new_screen utf8 ((pix.height - 2 * lps.yofs) / lps.fontheight)
          ((pix.width - 2 * lps.xofs) / lps.fontwidth) lps.sb_lines)
        _ e in
    let sh : Shell = record {
      screen = screen;
      keys = [];
      sbuf = [];
      modified = true;
      fd = spawn.fd;
      cb = true;
      name = name;
    } in
    let made : Option ℕ = spawn.fd >>= λ fd. some n in
    let i : (made, record lps { shells = set_shell lps.shells n (some sh) }) ≡ r = cc in
    subst Ready i (stored-Ready lps n sh spawn.fd free k)

IsListed-cons :
    (c : Option Terminal) (t : Terminal) (ts : List Terminal) → IsListed c ts → IsListed c (t ∷ ts)
IsListed-cons none t ts l = tt
IsListed-cons (some c) t ts l = inr l

add_terminal-Linked :
    (lps : LpState) (step : ℕ) (name : List ℕ) (n : Option ℕ)
    → Ready (n, lps)
    → Linked (add_terminal (record lps { sb_step = step }) name n).1
unfolding add_terminal Ready
add_terminal-Linked lps step name none k = record {
  alive = k.alive;
  distinct = k.distinct;
  current = k.current;
}
add_terminal-Linked lps step name (some n) (k, live, absent) = record {
  alive = (live, k.alive);
  distinct = (absent, k.distinct);
  current = IsListed-cons lps.curterm (record { the_shell = n; name = name }) lps.allterm k.current;
}

-- The number of a new session is not in use.
abbrev pub IsFresh : Option ℕ → (ℕ → Option Shell) → Type 0
IsFresh none shells = Unit
IsFresh (some n) shells = shells n ≡ none

try_new-Ready :
    (utf8 : Bool) (spawn : Spawn) (lps : LpState) (pix : Pixmap) (name : List ℕ) (n : Option ℕ)
    → {r : Option ℕ × LpState} → IsFresh n lps.shells
    → Linked lps
    → try_new utf8 spawn lps pix name n ≡ some r
    → Ready r
unfolding try_new Ready
try_new-Ready utf8 spawn lps pix name none {r} free k e =
    let i : (none, lps) ≡ r = cc in subst Ready i k
try_new-Ready utf8 spawn lps pix name (some n) free k e =
    term_new-Ready utf8 spawn lps pix name n free k e

LeavesLinked : Option Terminal × LpState → Type 0
LeavesLinked r = Linked r.1

new_terminal-Linked :
    (utf8 : Bool) (spawn : Spawn) (lps : LpState) (name : List ℕ) (fb : Option Pixmap)
    → {r : Option Terminal × LpState} → IsFresh spawn.number lps.shells
    → Linked lps
    → new_terminal utf8 spawn lps name fb ≡ some r
    → Linked r.1
unfolding new_terminal LeavesLinked
new_terminal-Linked utf8 spawn lps name none free k e = cc
new_terminal-Linked utf8 spawn lps name (some pix) {r} free k e =
    let (_, _, e₁) = >>=-eq-some (require (ltb 0 lps.fontheight && ltb 0 lps.fontwidth)) _ e in
    let (m, em, e₂) = >>=-eq-some (try_new utf8 spawn lps pix name spawn.number) _ e₁ in
    let step = (pix.height - 2 * lps.yofs) / lps.fontheight / 2 in
    let i : add_terminal (record m.1 { sb_step = step }) name m.0 ≡ r = cc in
    subst LeavesLinked i (
      add_terminal-Linked m.1 step name m.0
        (try_new-Ready utf8 spawn lps pix name spawn.number free k em))

found_or_new-Linked :
    (utf8 : Bool) (spawn : Spawn) (lps : LpState) (name : List ℕ) (found : Option Terminal)
    → {r : Option Terminal × LpState} → IsFresh spawn.number lps.shells
    → Linked lps
    → found_or_new utf8 spawn lps name found ≡ some r
    → Linked r.1
unfolding found_or_new LeavesLinked
found_or_new-Linked utf8 spawn lps name (some t) {r} free k e =
    let i : (some t, lps) ≡ r = cc in subst LeavesLinked i k
found_or_new-Linked utf8 spawn lps name none {r} free k e =
    from_either spawn.memory _ _ (new_terminal-Linked utf8 spawn lps name lps.fb free k)
      (λ e. let i : (none, lps) ≡ r = cc in subst LeavesLinked i k) e

-- Looking for a name, or making a terminal for it under a number not in use, keeps the links between
-- terminals and sessions, also where the system refuses memory or a process.
pub shell_find-Linked :
    (utf8 : Bool) (spawn : Spawn) (lps : LpState) (name : List ℕ) {r : Option Terminal × LpState}
    → IsFresh spawn.number lps.shells
    → Linked lps
    → shell_find utf8 spawn lps name ≡ some r
    → Linked r.1
unfolding shell_find
shell_find-Linked utf8 spawn lps name free k e =
    found_or_new-Linked utf8 spawn lps name (find_name lps.allterm name) free k e
