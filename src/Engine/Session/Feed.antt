-- ===== src/Engine/Session/Feed.antt =====
-- terminal/ansi_parser.hpp: `feed` on whatever a shell writes.
use kindle_myts.Base.{
  ℕ, zero, suc, ◌<◌, ◌≡◌, refl, arith, Bool, true, false, ◌&&◌, ◌||◌, not, List, [], ◌∷◌, Option,
  none, some, leb, ◌==◌, Returns, returns_test, leb_false→lt, length-replicate,
}
use kindle_myts.Base.Int.{ℤ, pos, negsuc}
use kindle_myts.Terminal.Csi.Params.{is_digit}
use kindle_myts.Engine.Session.{
  Session, ParseState, ground_state, escape, csi, new_session, positive_or,
}
use kindle_myts.Engine.Parser.{
  atoi, first_part, second_part, execute_csi, csi_byte, feed_byte, feed,
}
use kindle_myts.Engine.Session.Invariant.{IsWf, Drawn, Good, Drawn-refl, Drawn-trans, IsWf-parse}
use kindle_myts.Engine.Session.Safety.{
  on_cursor_move-Good, on_erase_display-IsWf, on_erase_display-Good, on_print_char-Good,
}

-- the session with another state of the parser
Good-parse :
    (st : ParseState) (buf : List ℕ) {s t : Session}
    → Good s t
    → Good s (record t { state = st; param_buf = buf })
Good-parse st buf (w, d) = (
  IsWf-parse st buf w,
  record { same_rows = d.same_rows; same_cols = d.same_cols; keeps = d.keeps; shows = d.shows },
)

positive_or-pos : (d : ℕ) (n : ℤ) → 0 < d → 0 < positive_or d n
positive_or-pos d (pos zero) h = h
positive_or-pos d (pos (suc n)) h = omega arith
positive_or-pos d (negsuc n) h = h

pub new_session-IsWf : (rows cols : ℤ) → IsWf (new_session rows cols)
unfolding new_session
new_session-IsWf rows cols =
    let n = positive_or-pos 24 rows (omega arith) in
    let m = positive_or-pos 80 cols (omega arith) in
    record {
      some_cols = m;
      row_in = n;
      col_in = omega arith;
      cells_len = length-replicate _ _;
      dirty_len = length-replicate _ _;
    }

abbrev pub is_one : ℤ → Bool
is_one (pos n) = n == 1
is_one (negsuc n) = false

abbrev pub in_csi : ParseState → Bool
in_csi ground_state = false
in_csi escape = false
in_csi csi = true

-- a test of a result, where there is one
abbrev pub holds_of : Option Session → (Session → Bool) → Bool
holds_of none test = true
holds_of (some t) test = test t

holds_of-some :
    (test : Session → Bool) {m : Option Session} {t : Session}
    → m ≡ some t
    → holds_of m test ≡ true
    → test t ≡ true
holds_of-some test e h = rw e at h

one_inside :
    (mode : ℤ) (s : Session)
    → mode ≡ pos 1
    → is_one mode && leb s.cols s.cursor_col ≡ false
    → s.cursor_col < s.cols
one_inside mode s e h = leb_false→lt s.cols s.cursor_col (rw e at h)

not-true : (a b : Bool) → (not a && b) ≡ true → a ≡ false
not-true true b h = cc
not-true false b h = refl

and_right : (a b : Bool) → (a && b) ≡ true → b ≡ true
and_right true b h = h
and_right false b h = cc

module _ (too_large : ℕ → ℤ) where
  execute_csi-IsWf : (c : ℕ) (s : Session) → IsWf s → Returns (execute_csi too_large c s) IsWf
  unfolding execute_csi
  execute_csi-IsWf c s w =
      returns_test IsWf (c == b'H' || c == b'f') _ _
        (λ _.
          let (t, e, (v, d)) =
            on_cursor_move-Good (atoi too_large (first_part s.param_buf))
              (atoi too_large (second_part s.param_buf)) s w in
          (t, e, v))
        (λ _.
          returns_test IsWf (c == b'J') _ _
            (λ _. on_erase_display-IsWf (atoi too_large (first_part s.param_buf)) s w)
            (λ _. (s, refl, w)))

  feed_byte-IsWf :
      (st : ParseState) (c : ℕ) (s : Session) → IsWf s → Returns (feed_byte too_large st c s) IsWf
  unfolding feed_byte csi_byte
  feed_byte-IsWf ground_state c s w =
      returns_test IsWf (c == 0x1b) _ _ (λ _. (_, refl, IsWf-parse escape s.param_buf w))
        (λ _. let (t, e, (v, d)) = on_print_char-Good c s w in (t, e, v))
  feed_byte-IsWf escape c s w =
      returns_test IsWf (c == b'[') _ _ (λ _. (_, refl, IsWf-parse csi [] w))
        (λ _. (_, refl, IsWf-parse ground_state s.param_buf w))
  feed_byte-IsWf csi c s w =
      returns_test IsWf (is_digit c || c == b';') _ _ (λ _. (_, refl, IsWf-parse s.state _ w))
        (λ _.
          let (t, e, v) = execute_csi-IsWf c s w in (_, rw e refl, IsWf-parse ground_state [] v))

  -- Whatever bytes come, in whatever pieces: no access of `feed` leaves a vector of the session, the
  -- cursor stays in its grid or behind the last column, and the vectors keep the sizes of the grid.
  pub feed-IsWf : (bytes : List ℕ) (s : Session) → IsWf s → Returns (feed too_large bytes s) IsWf
  unfolding feed
  feed-IsWf [] s w = (s, refl, w)
  feed-IsWf (c ∷ cs) s w =
      let (t, e, v) = feed_byte-IsWf s.state c s w in
      let (u, e', v') = feed-IsWf cs t v in (u, rw e e', v')

  -- The byte ends ESC [ 1 J while the cursor is behind the last column.
  unfoldable pub erases_behind : Session → ℕ → Bool
  erases_behind s c =
      in_csi s.state
      && (c == b'J'
          && (is_one (atoi too_large (first_part s.param_buf)) && leb s.cols s.cursor_col))

  unfoldable pub never_behind : List ℕ → Session → Bool
  unfolding erases_behind feed_byte
  never_behind [] s = true
  never_behind (c ∷ cs) s =
      not (erases_behind s c) && holds_of (feed_byte too_large s.state c s) (never_behind cs)

  execute_csi-Good :
      (c : ℕ) (s : Session)
      → IsWf s
      → (c == b'J') && (is_one (atoi too_large (first_part s.param_buf)) && leb s.cols s.cursor_col)
        ≡ false
      → Returns (execute_csi too_large c s) (Good s)
  unfolding execute_csi
  execute_csi-Good c s w h =
      let mode = atoi too_large (first_part s.param_buf) in
      returns_test (Good s) (c == b'H' || c == b'f') _ _
        (λ _. on_cursor_move-Good mode (atoi too_large (second_part s.param_buf)) s w)
        (λ _.
          returns_test (Good s) (c == b'J') _ _
            (λ j. on_erase_display-Good mode s w (λ e. one_inside mode s e (rw j at h)))
            (λ _. (s, refl, (w, Drawn-refl s))))

  feed_byte-Good :
      (st : ParseState) (c : ℕ) (s : Session)
      → IsWf s
      → in_csi st
          && (c == b'J'
              && (is_one (atoi too_large (first_part s.param_buf)) && leb s.cols s.cursor_col))
        ≡ false
      → Returns (feed_byte too_large st c s) (Good s)
  unfolding feed_byte csi_byte
  feed_byte-Good ground_state c s w h =
      returns_test (Good s) (c == 0x1b) _ _
        (λ _. (_, refl, Good-parse escape s.param_buf (w, Drawn-refl s)))
        (λ _. on_print_char-Good c s w)
  feed_byte-Good escape c s w h =
      returns_test (Good s) (c == b'[') _ _ (λ _. (_, refl, Good-parse csi [] (w, Drawn-refl s)))
        (λ _. (_, refl, Good-parse ground_state s.param_buf (w, Drawn-refl s)))
  feed_byte-Good csi c s w h =
      returns_test (Good s) (is_digit c || c == b';') _ _
        (λ _. (_, refl, Good-parse s.state _ (w, Drawn-refl s)))
        (λ _.
          let (t, e, g) = execute_csi-Good c s w h in (_, rw e refl, Good-parse ground_state [] g))

  -- What `feed` changes is shown by the next frame: unless ESC [ 1 J comes while the cursor is behind
  -- the last column, a cell that is not as before lies in a row that is marked, and no mark is lost.
  pub feed-Drawn :
      (bytes : List ℕ) (s : Session)
      → IsWf s
      → never_behind bytes s ≡ true
      → Returns (feed too_large bytes s) (λ t. IsWf t × Drawn s t)
  unfolding feed never_behind
  feed-Drawn [] s w h = (s, refl, (w, Drawn-refl s))
  feed-Drawn (c ∷ cs) s w h =
      let (t, e, (v, d)) = feed_byte-Good s.state c s w (not-true _ _ h) in
      let (u, e', (v', d')) =
        feed-Drawn cs t v
          (holds_of-some (never_behind cs) e (and_right (not (erases_behind s c)) _ h)) in
      (u, rw e e', (v', Drawn-trans d d'))
