-- ===== src/Engine/Parser.antt =====
-- terminal/ansi_parser.hpp: the parser of what a shell writes, which calls the session. What `atoi` gives for
-- a number that no `int` holds is a parameter.
use kindle_myts.Base.{
  ℕ, ◌||◌, List, [], ◌∷◌, ◌++◌, Option, some, ◌>>=◌, ltb, ◌==◌, if◌then◌else◌, int_limit,
}
use kindle_myts.Base.Int.{ℤ, pos}
use kindle_myts.Terminal.Csi.Params.{is_digit, digits_from}
use kindle_myts.Engine.Session.{
  ParseState, ground_state, escape, csi, Session, on_cursor_move, on_erase_display, on_print_char,
}

-- `param_buf_.substr(0, sep)`
unfoldable pub first_part : List ℕ → List ℕ
first_part [] = []
first_part (c ∷ cs) = if c == b';' then [] else c ∷ first_part cs

-- `param_buf_.substr(sep + 1)`
unfoldable pub second_part : List ℕ → List ℕ
second_part [] = []
second_part (c ∷ cs) = if c == b';' then cs else second_part cs

module _ (too_large : ℕ → ℤ) where
  -- `atoi`, on a text that begins with no blank and no sign
  unfoldable pub atoi : List ℕ → ℤ
  unfolding digits_from
  atoi text = let n = (digits_from 0 text).0 in if ltb n int_limit then pos n else too_large n

  unfoldable pub execute_csi : ℕ → Session → Option Session
  unfolding atoi first_part second_part on_cursor_move on_erase_display
  execute_csi cmd s =
      if cmd == b'H' || cmd == b'f'
      then on_cursor_move (atoi (first_part s.param_buf)) (atoi (second_part s.param_buf)) s
      else if cmd == b'J'
      then on_erase_display (atoi (first_part s.param_buf)) s
      else some s

  -- a byte in state `Csi`
  unfoldable pub csi_byte : ℕ → Session → Option Session
  unfolding execute_csi
  csi_byte c s =
      if is_digit c || c == b';'
      then some (record s { param_buf = s.param_buf ++ (c ∷ []) })
      else (execute_csi c s >>= λ t. some (record t { state = ground_state; param_buf = [] }))

  -- a byte, by the state of the parser
  unfoldable pub feed_byte : ParseState → ℕ → Session → Option Session
  unfolding csi_byte on_print_char
  feed_byte ground_state c s =
      if c == 0x1b then some (record s { state = escape }) else on_print_char c s
  feed_byte escape c s =
      if c == b'['
      then some (record s { state = csi; param_buf = [] })
      else some (record s { state = ground_state })
  feed_byte csi c s = csi_byte c s

  unfoldable pub feed : List ℕ → Session → Option Session
  unfolding feed_byte
  feed [] s = some s
  feed (c ∷ cs) s = feed_byte s.state c s >>= feed cs
