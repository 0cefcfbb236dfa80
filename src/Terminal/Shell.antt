-- ===== src/Terminal/Shell.antt =====
-- terminal.c: a shell session and its callbacks, `term_state`, `term_screen` and `handle_shell`.
-- `read` and `write` of the C library, and the callback `cb`, are parameters.
pub mod Safety
pub mod Served
use kindle_myts.Base.{
  ℕ, ◌+◌, ◌-◌, Bool, true, false, List, [], ◌∷◌, ◌++◌, Option, none, some, ◌>>=◌, ◌==◌,
  if◌then◌else◌, length, not,
}
use kindle_myts.Terminal.{Screen}
use kindle_myts.Terminal.Append.{page_append}
use kindle_myts.Terminal.Keys.{Queue, term_keyin, term_keyboard}
use kindle_myts.Events.Loop.{CbArgs, Answer}

-- `struct my_sess`: `keys` and `sbuf` are strings, whose lengths are `klen` and `slen`; a negative
-- descriptor is `none`; `cb` says whether a callback is set.
pub record Shell : Type 0 where
  pub screen : Screen
  pub keys : List ℕ
  pub sbuf : List ℕ
  pub modified : Bool
  pub fd : Option ℕ
  pub cb : Bool
  pub name : List ℕ

-- SMAX, the size of `sbuf`
abbrev pub smax : ℕ
smax = 1024

abbrev pub queue : Shell → Queue
queue sh = record { priv = sh.screen.priv; keys = sh.keys }

-- `struct term_state`, the bits of `flags` being fields; -1 as the cursor is `none`. `page_data` is `data`.
pub record TermState : Type 0 where
  pub set_modified : Bool
  pub set_cb : Bool
  pub set_name : Bool
  pub modified : Bool
  pub cb : Bool
  pub name : List ℕ
  pub rows : ℕ
  pub cols : ℕ
  pub cur : Option ℕ
  pub top : ℕ
  pub page_data : List ℕ
  pub attr : List ℕ
  pub sb_data : List ℕ
  pub sb_attr : List ℕ

-- what `term_state` changes in the session
unfoldable pub state_set : Shell → TermState → Shell
state_set sh st = record sh {
  modified = if st.set_modified then st.modified else sh.modified;
  cb = if st.set_cb then st.cb else sh.cb;
  name = if st.set_name then st.name else sh.name;
}

-- what `term_state` fills in
unfoldable pub state_get : Shell → TermState → TermState
state_get sh st = record {
  set_modified = st.set_modified;
  set_cb = st.set_cb;
  set_name = st.set_name;
  modified = if st.set_modified then st.modified else sh.modified;
  cb = if st.set_cb then st.cb else sh.cb;
  name = if st.set_name then st.name else sh.name;
  rows = sh.screen.rows;
  cols = sh.screen.cols;
  cur = if sh.screen.nocursor then none else some sh.screen.cur;
  top = sh.screen.top;
  page_data = sh.screen.page;
  attr = sh.screen.attributes;
  sb_data = sh.screen.sb_page;
  sb_attr = sh.screen.sb_attributes;
}

-- The result is the mark `modified` of before.
unfoldable pub term_state : Shell → TermState → Bool × Shell × TermState
unfolding state_set state_get
term_state sh st = (sh.modified, state_set sh st, state_get sh st)

-- the bytes of a string, up to its NUL
unfoldable pub until_nul : List ℕ → List ℕ
until_nul [] = []
until_nul (b ∷ bs) = let rest = until_nul bs in if b == 0 then [] else b ∷ rest

unfoldable pub type_keys : Shell → List ℕ → Shell
unfolding term_keyin
type_keys sh k = record sh { keys = (term_keyin (queue sh) k).keys }

-- the bytes that `read` gave: none at the end of the input and on an error
unfoldable pub take_in : Shell → List ℕ → Option (Bool × Shell)
unfolding until_nul
take_in sh [] = some (true, record sh { fd = none })
take_in sh (b ∷ got) = page_append sh.screen (until_nul (sh.sbuf ++ (b ∷ got))) >>= λ out.
    some (false, record sh { screen = out.0; sbuf = out.1; modified = true })

-- `FD_SET` and `FD_ISSET`
abbrev pub fd_isset : ℕ → List ℕ → Bool
fd_isset fd [] = false
fd_isset fd (n ∷ ns) = if fd == n then true else fd_isset fd ns

module _ {W : Type 0} (read : W → ℕ → ℕ → List ℕ × W) (write : W → ℕ → List ℕ → ℕ × W)
    (on_dead : Shell → W → W) where
  -- `read` is asked for as many bytes as there is room for.
  unfoldable pub term_screen : Shell → ℕ → W → Option (Bool × Shell × W)
  unfolding take_in
  term_screen sh fd w =
      let (got, u) = read w fd (smax - 1 - length sh.sbuf) in
      take_in sh got >>= λ r. some (r.0, r.1, u)

  unfoldable pub send_keys : Shell → ℕ → W → Shell × W
  unfolding term_keyboard
  send_keys sh fd w =
      let (l, u) = write w fd sh.keys in
      (record sh { keys = (term_keyboard (queue sh) l).1.keys }, u)

  abbrev pub answer : Bool → Shell → CbArgs → W → Answer Shell W
  answer result sh a w = record { result = result; sess = sh; args = a; world = w; created = [] }

  -- the descriptors to wait for
  unfoldable pub poll_shell : Shell → ℕ → CbArgs → CbArgs
  poll_shell sh fd a = record a { r = fd ∷ a.r; w = if length sh.keys == 0 then a.w else fd ∷ a.w }

  -- the call behind `select`
  unfoldable pub serve_shell : Shell → ℕ → CbArgs → W → Option (Answer Shell W)
  unfolding term_screen send_keys
  serve_shell sh fd a w =
      let (sent, u) = if fd_isset fd a.w then send_keys sh fd w else (sh, w) in
      if fd_isset fd a.r
      then (term_screen sent fd u >>= λ r. some (answer false r.1 a r.2))
      else some (answer false sent a u)

  -- `none` as the descriptor: the session is dead, and is freed behind the callback.
  unfoldable pub handle_fd : Shell → Option ℕ → CbArgs → W → Option (Answer Shell W)
  unfolding poll_shell serve_shell
  handle_fd sh none a w =
      if a.run
      then some (answer true sh a (if sh.cb then on_dead sh w else w))
      else some (answer false sh a w)
  handle_fd sh (some fd) a w =
      if a.run then serve_shell sh fd a w else some (answer true sh (poll_shell sh fd a) w)

  unfoldable pub handle_shell : Shell → CbArgs → W → Option (Answer Shell W)
  unfolding handle_fd
  handle_shell sh a w = handle_fd sh sh.fd a w
