-- ===== src/Terminal/Shell/Safety.antt =====
-- terminal.c, `handle_shell`: the buffers of a session keep their bounds, and text never faults.
use kindle_myts.Base.{
  ℕ, ◌+◌, ◌-◌, ◌≤◌, ◌<◌, ◌≡◌, arith, Bool, true, false, List, [], ◌∷◌, ◌++◌, Option, none, some,
  ◌>>=◌, >>=-eq-some, length, length-append, length-take, length-drop, from_either, if◌then◌else◌,
  inl, inr, Bool-cases, take, suc, zero,
}
use mathlib.Core.Path.{subst}
use kindle_myts.Terminal.{Screen, IsWf}
use kindle_myts.Terminal.Append.{
  Round, next, stop, append_round, after_round, append_loop, page_append,
}
use kindle_myts.Terminal.Append.Fuel.{Takes, append_round-Takes}
use kindle_myts.Terminal.Append.Invariant.{page_append-IsWf}
use kindle_myts.Terminal.Keys.{kmax, map_arrow, term_keyin, term_keyboard}
use kindle_myts.Terminal.Shell.{
  Shell, smax, until_nul, type_keys, take_in, term_screen, send_keys, answer, poll_shell,
  serve_shell, handle_fd, handle_shell, fd_isset,
}
use kindle_myts.Events.Loop.{CbArgs, Answer}

-- What is left over is at most what was given.
abbrev LeavesNoMore : ℕ → Screen × List ℕ → Type 0
LeavesNoMore n out = length out.1 ≤ n

behind_round :
    (s : Screen) (pos a : ℕ) (rest : List ℕ) (go : ℕ → Screen → List ℕ → Option (Screen × List ℕ))
    → (r : Round) {out : Screen × List ℕ} → Takes (length rest) r
    → ((p : ℕ) (t : Screen) (l : List ℕ) → go p t l ≡ some out → length out.1 ≤ length l)
    → after_round go s pos (a ∷ rest) r ≡ some out
    → length out.1 ≤ suc (length rest)
unfolding after_round
behind_round s pos a rest go stop {out} k ih e =
    let i : (s, a ∷ rest) ≡ out = cc in subst (LeavesNoMore (suc (length rest))) i (omega arith)
behind_round s pos a rest go (next t l) k ih e =
    omega (arith, ih (pos + (suc (length rest) - length l)) t l e)

length-append_loop :
    (f pos : ℕ) (s : Screen) (bytes : List ℕ) {out : Screen × List ℕ}
    → append_loop f pos s bytes ≡ some out
    → length out.1 ≤ length bytes
unfolding append_loop
length-append_loop zero pos s bytes {out} e =
    let i : (s, bytes) ≡ out = cc in subst (LeavesNoMore (length bytes)) i (omega arith)
length-append_loop (suc f) pos s [] {out} e =
    let i : (s, []) ≡ out = cc in subst (LeavesNoMore 0) i (omega arith)
length-append_loop (suc f) pos s (a ∷ rest) {out} e =
    let (r, er, e₁) = >>=-eq-some (append_round s pos a rest) _ e in
    behind_round s pos a rest (append_loop f) r (append_round-Takes s pos a rest er)
      (λ p t l e'. length-append_loop f p t l e') e₁

length-until_nul : (bytes : List ℕ) → length (until_nul bytes) ≤ length bytes
unfolding until_nul
length-until_nul [] = omega arith
length-until_nul (b ∷ bs) = ground (arith, length-until_nul bs)

-- A well-formed screen, and strings that leave room for their NUL.
pub record IsShell (sh : Shell) : Type 0 where
  pub wf : IsWf sh.screen
  pub sbuf_fits : length sh.sbuf < smax
  pub keys_fit : length sh.keys < kmax

take_in-IsShell :
    (sh : Shell) (got : List ℕ) {r : Bool × Shell}
    → IsShell sh
    → length got ≤ smax - 1 - length sh.sbuf
    → take_in sh got ≡ some r
    → IsShell r.1
unfolding take_in page_append
take_in-IsShell sh [] {r} w h e =
    let i : (true, record sh { fd = none }) ≡ r = cc in
    subst (λ (q : Bool × Shell). IsShell q.1) i
      (record { wf = w.wf; sbuf_fits = w.sbuf_fits; keys_fit = w.keys_fit })
take_in-IsShell sh (b ∷ got) {r} w h e =
    let bytes = until_nul (sh.sbuf ++ (b ∷ got)) in
    let (out, eo, e₁) = >>=-eq-some (page_append sh.screen bytes) _ e in
    let i : (false, record sh { screen = out.0; sbuf = out.1; modified = true }) ≡ r = cc in
    let left = length-append_loop (length bytes) 0 sh.screen bytes eo in
    let all = length-until_nul (sh.sbuf ++ (b ∷ got)) in
    subst (λ (q : Bool × Shell). IsShell q.1) i
      (record {
        wf = page_append-IsWf sh.screen bytes w.wf eo;
        sbuf_fits = omega (arith, left, all, length-append sh.sbuf (b ∷ got), h, w.sbuf_fits);
        keys_fit = w.keys_fit;
      })

pub type_keys-IsShell : (sh : Shell) (k : List ℕ) → IsShell sh → IsShell (type_keys sh k)
unfolding type_keys term_keyin
type_keys-IsShell sh k w =
    let room = kmax - 1 - length sh.keys in
    let q = map_arrow sh.screen.priv k in
    record {
      wf = w.wf;
      sbuf_fits = w.sbuf_fits;
      keys_fit = omega (arith, w.keys_fit, length-append sh.keys (take room q), length-take room q);
    }

module _ {W : Type 0} (read : W → ℕ → ℕ → List ℕ × W) (write : W → ℕ → List ℕ → ℕ × W)
    (on_dead : Shell → W → W) where
  send_keys-IsShell :
      (sh : Shell) (fd : ℕ) (w : W) → IsShell sh → IsShell (send_keys read write on_dead sh fd w).0
  unfolding send_keys term_keyboard
  send_keys-IsShell sh fd w i = record {
    wf = i.wf;
    sbuf_fits = i.sbuf_fits;
    keys_fit = omega (arith, i.keys_fit, length-drop (write w fd sh.keys).0 sh.keys);
  }

  -- `read` gives at most the bytes asked for.
  abbrev pub ReadsWithin : Type 0
  ReadsWithin = (w : W) (fd n : ℕ) → length (read w fd n).0 ≤ n

  term_screen-IsShell :
      (sh : Shell) (fd : ℕ) (w : W) {r : Bool × Shell × W}
      → ReadsWithin
      → IsShell sh
      → term_screen read write on_dead sh fd w ≡ some r
      → IsShell r.1
  unfolding term_screen
  term_screen-IsShell sh fd w {r} within i e =
      let g = read w fd (smax - 1 - length sh.sbuf) in
      let (q, eq, e₁) = >>=-eq-some (take_in sh g.0) _ e in
      let j : (q.0, q.1, g.1) ≡ r = cc in
      subst (λ (q : Bool × Shell × W). IsShell q.1) j
        (take_in-IsShell sh g.0 i (within w fd (smax - 1 - length sh.sbuf)) eq)

  LeavesShell : Answer Shell W → Type 0
  LeavesShell o = IsShell o.sess

  read_round-IsShell :
      (b : Bool) (sh : Shell) (fd : ℕ) (a : CbArgs) (w : W) {o : Answer Shell W}
      → ReadsWithin
      → IsShell sh
      → (if b
          then (term_screen read write on_dead sh fd w >>= λ r.
              some (answer read write on_dead false r.1 a r.2))
          else some (answer read write on_dead false sh a w))
        ≡ some o
      → IsShell o.sess
  unfolding LeavesShell
  read_round-IsShell true sh fd a w {o} within i e =
      let (r, er, e₁) = >>=-eq-some (term_screen read write on_dead sh fd w) _ e in
      let j : answer read write on_dead false r.1 a r.2 ≡ o = cc in
      subst LeavesShell j (term_screen-IsShell sh fd w within i er)
  read_round-IsShell false sh fd a w {o} within i e =
      let j : answer read write on_dead false sh a w ≡ o = cc in subst LeavesShell j i

  serve_shell-IsShell :
      (sh : Shell) (fd : ℕ) (a : CbArgs) (w : W) {o : Answer Shell W}
      → ReadsWithin
      → IsShell sh
      → serve_shell read write on_dead sh fd a w ≡ some o
      → IsShell o.sess
  unfolding serve_shell
  serve_shell-IsShell sh fd a w within i e = elim (Bool-cases (fd_isset fd a.w)) [
    | inl ready ↦
        let s = send_keys read write on_dead sh fd w in
        read_round-IsShell (fd_isset fd a.r) s.0 fd a s.1 within (send_keys-IsShell sh fd w i)
          (rw ready at e)
    | inr quiet ↦ read_round-IsShell (fd_isset fd a.r) sh fd a w within i (rw quiet at e)
  ]

  handle_fd-IsShell :
      (sh : Shell) (fd : Option ℕ) (a : CbArgs) (w : W) {o : Answer Shell W}
      → ReadsWithin
      → IsShell sh
      → handle_fd read write on_dead sh fd a w ≡ some o
      → IsShell o.sess
  unfolding handle_fd LeavesShell
  handle_fd-IsShell sh none a w {o} within i =
      let gone = answer read write on_dead true sh a (if sh.cb then on_dead sh w else w) in
      from_either a.run _ _ (λ e. let j : gone ≡ o = cc in subst LeavesShell j i)
        (λ e. let j : answer read write on_dead false sh a w ≡ o = cc in subst LeavesShell j i)
  handle_fd-IsShell sh (some fd) a w {o} within i =
      let polled = answer read write on_dead true sh (poll_shell read write on_dead sh fd a) w in
      from_either a.run _ _ (serve_shell-IsShell sh fd a w within i)
        (λ e. let j : polled ≡ o = cc in subst LeavesShell j i)

  -- Where `read` gives at most the bytes asked for, a call of the handler that returns keeps a
  -- session's screen well formed and leaves room for the NUL in both of its buffers, whatever the
  -- shell has written.
  pub handle_shell-IsShell :
      (sh : Shell) (a : CbArgs) (w : W) {o : Answer Shell W}
      → ReadsWithin
      → IsShell sh
      → handle_shell read write on_dead sh a w ≡ some o
      → IsShell o.sess
  unfolding handle_shell
  handle_shell-IsShell sh a w within i e = handle_fd-IsShell sh sh.fd a w within i e
