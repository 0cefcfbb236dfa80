-- ===== src/Terminal/Shell/Served.antt =====
-- myts.c and terminal.c: `handle_shell` as a handler of the event loop, on sessions with a number, in
-- a world that keeps a record of the calls behind `select`.
use kindle_myts.Base.{
  ℕ, ◌+◌, ◌≤◌, ◌<◌, ◌≡◌, refl, arith, Bool, true, false, List, [], ◌∷◌, ◌++◌, Option, none, some,
  >>=-eq-some, from_either, if◌then◌else◌, ◌==◌,
}
use mathlib.Core.Path.{subst}
use kindle_myts.Events.Loop.{CbArgs, Answer}
use kindle_myts.Events.Rounds.{Named, Logged, Counted, ended_by}
use kindle_myts.Terminal.Shell.{
  Shell, term_screen, send_keys, answer, poll_shell, serve_shell, handle_fd, handle_shell, fd_isset,
}

pub record Numbered : Type 0 where
  pub number : ℕ
  pub shell : Shell

-- the numbers of the sessions called and of those ended behind `select`, and the rest of the world
pub record Watched (W : Type 0) : Type 0 where
  pub called : List ℕ
  pub gone : List ℕ
  pub inner : W

abbrev pub number : Numbered → ℕ
number s = s.number

abbrev pub descriptor : Numbered → Option ℕ
descriptor s = s.shell.fd

-- how often session `n` has been called
abbrev pub count_of : ℕ → List ℕ → ℕ
count_of n [] = 0
count_of n (m ∷ ms) = if n == m then 1 + count_of n ms else count_of n ms

module _ {W : Type 0} (read : W → ℕ → ℕ → List ℕ × W) (write : W → ℕ → List ℕ → ℕ × W)
    (on_dead : Shell → W → W) where
  abbrev KeepsPhase : CbArgs → Answer Shell W → Type 0
  KeepsPhase a o = o.args.run ≡ a.run

  serve_shell-run :
      (sh : Shell) (fd : ℕ) (a : CbArgs) (w : W) {o : Answer Shell W}
      → serve_shell read write on_dead sh fd a w ≡ some o
      → o.args.run ≡ a.run
  unfolding serve_shell
  serve_shell-run sh fd a w {o} e =
      let q = if fd_isset fd a.w then send_keys read write on_dead sh fd w else (sh, w) in
      from_either (fd_isset fd a.r) _ _
        (λ f.
          let (r, _, e₁) = >>=-eq-some (term_screen read write on_dead q.0 fd q.1) _ f in
          let j : answer read write on_dead false r.1 a r.2 ≡ o = cc in subst (KeepsPhase a) j refl)
        (λ f.
          let j : answer read write on_dead false q.0 a q.1 ≡ o = cc in subst (KeepsPhase a) j refl)
        e

  -- The handler leaves the phase of the round as it is.
  handle_fd-run :
      (sh : Shell) (fd : Option ℕ) (a : CbArgs) (w : W) {o : Answer Shell W}
      → handle_fd read write on_dead sh fd a w ≡ some o
      → o.args.run ≡ a.run
  unfolding handle_fd poll_shell
  handle_fd-run sh none a w {o} =
      let dead = answer read write on_dead true sh a (if sh.cb then on_dead sh w else w) in
      from_either a.run _ _ (λ e. let j : dead ≡ o = cc in subst (KeepsPhase a) j refl)
        (λ e.
          let j : answer read write on_dead false sh a w ≡ o = cc in subst (KeepsPhase a) j refl)
  handle_fd-run sh (some fd) a w {o} =
      let polled = answer read write on_dead true sh (poll_shell read write on_dead sh fd a) w in
      from_either a.run _ _ (serve_shell-run sh fd a w)
        (λ e. let j : polled ≡ o = cc in subst (KeepsPhase a) j refl)

  -- what a call leaves in the record
  abbrev noted : Numbered → CbArgs → Watched W → Bool → W → Watched W
  noted s a w result inner = record {
    called = if a.run then s.number ∷ w.called else w.called;
    gone = w.gone ++ ended_by a.run result s.number;
    inner = inner;
  }

  -- A call that faults, `none`, counts as one that changes nothing.
  abbrev watched :
      Numbered → CbArgs → Watched W → Option (Answer Shell W) → Answer Numbered (Watched W)
  watched s a w none = record {
    result = false;
    sess = s;
    args = a;
    world = noted s a w false w.inner;
    created = [];
  }
  watched s a w (some o) = record {
    result = o.result;
    sess = record { number = s.number; shell = o.sess };
    args = o.args;
    world = noted s a w o.result o.world;
    created = [];
  }

  abbrev pub handle_numbered : Numbered → CbArgs → Watched W → Answer Numbered (Watched W)
  handle_numbered s a w = watched s a w (handle_shell read write on_dead s.shell a w.inner)

  watched-Named :
      (s : Numbered) (a : CbArgs) (w : Watched W) (r : Option (Answer Shell W))
      → handle_shell read write on_dead s.shell a w.inner ≡ r
      → let o = watched s a w r in (o.sess.number ≡ s.number) × (o.args.run ≡ a.run)
  unfolding handle_shell
  watched-Named s a w none e = (refl, refl)
  watched-Named s a w (some o) e = (refl, handle_fd-run s.shell s.shell.fd a w.inner e)

  pub handle_numbered-Named : Named handle_numbered descriptor number
  handle_numbered-Named s a w =
      watched-Named s a w (handle_shell read write on_dead s.shell a w.inner) refl

  watched-gone :
      (s : Numbered) (a : CbArgs) (w : Watched W) (r : Option (Answer Shell W))
      → let o = watched s a w r in o.world.gone ≡ w.gone ++ ended_by a.run o.result s.number
  watched-gone s a w none = refl
  watched-gone s a w (some o) = refl

  pub handle_numbered-Logged : Logged handle_numbered descriptor number (λ w. w.gone)
  handle_numbered-Logged s a w =
      watched-gone s a w (handle_shell read write on_dead s.shell a w.inner)

  watched-called :
      (s : Numbered) (a : CbArgs) (w : Watched W) (r : Option (Answer Shell W))
      → (watched s a w r).world.called ≡ (if a.run then s.number ∷ w.called else w.called)
  watched-called s a w none = refl
  watched-called s a w (some o) = refl

  counted :
      (n m : ℕ) (run : Bool) (ms : List ℕ)
      → (count_of n ms ≤ count_of n (if run then m ∷ ms else ms))
        × (run ≡ true → n ≡ m → count_of n ms < count_of n (if run then m ∷ ms else ms))
  counted n m run ms = (ground arith, λ r e. ground arith)

  pub handle_numbered-Counted :
      (n : ℕ) → Counted handle_numbered descriptor number n (λ w. count_of n w.called)
  handle_numbered-Counted n s a w =
      let same = watched-called s a w (handle_shell read write on_dead s.shell a w.inner) in
      let (more, here) = counted n s.number a.run w.called in
      (rw same more, λ r e. rw same (here r e))
