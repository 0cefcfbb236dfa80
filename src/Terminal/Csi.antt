-- ===== src/Terminal/Csi.antt =====
-- terminal.c: `do_csi`, which interprets one control sequence.
pub mod Params
pub mod Motion
pub mod Edit
pub mod Modes
pub mod Lines
pub mod Cells
pub mod Commands
pub mod Attributes
pub mod Bounds
pub mod Total
use kindle_myts.Base.{
  ℕ, ◌+◌, Bool, true, false, ◌&&◌, List, [], ◌∷◌, Option, some, ◌>>=◌, ◌>>◌, require, int_limit,
  ltb, ◌==◌, if◌then◌else◌,
}
use kindle_myts.Terminal.{Screen}
use kindle_myts.Terminal.Csi.Params.{Args, is_private, scan_args, span_params}
use kindle_myts.Terminal.Csi.Motion.{
  cursor_up, cursor_down, cursor_right, cursor_left, row_absolute, column_absolute, position,
  set_region,
}
use kindle_myts.Terminal.Csi.Edit.{
  insert_chars, delete_chars, erase_chars, erase_display, erase_line, insert_lines, delete_lines,
}
use kindle_myts.Terminal.Csi.Modes.{set_dec_mode, reset_dec_mode, graphic_rendition}

-- the final byte of a sequence; `ignored` has no effect: 'g', 't', and what the switch does not name
pub data Command : Type 0 where
  insert_char up down right left row column pos : Command
  set_mode display line reset_mode : Command
  insert_line rendition delete_line delete_char region erase_char ignored : Command

unfoldable pub command : ℕ → Command
command c =
    if c == b'@'
    then insert_char
    else if c == b'A'
    then up
    else if c == b'B'
    then down
    else if c == b'C'
    then right
    else if c == b'D'
    then left
    else if c == b'd'
    then row
    else if c == b'G'
    then column
    else if c == b'`'
    then column
    else if c == b'H'
    then pos
    else if c == b'f'
    then pos
    else if c == b'h'
    then set_mode
    else if c == b'J'
    then display
    else if c == b'K'
    then line
    else if c == b'l'
    then reset_mode
    else if c == b'L'
    then insert_line
    else if c == b'm'
    then rendition
    else if c == b'M'
    then delete_line
    else if c == b'P'
    then delete_char
    else if c == b'r'
    then region
    else if c == b'X'
    then erase_char
    else ignored

-- the switch on `cmd`; `dec` says that `mark` is '?'
unfoldable pub run_command : Command → Screen → Bool → Args → ℕ → Option Screen
run_command insert_char s dec a curcol = insert_chars s a.a1 curcol
run_command up s dec a curcol = cursor_up s a.a1 curcol
run_command down s dec a curcol = cursor_down s a.a1 curcol
run_command right s dec a curcol = some (cursor_right s a.a1 curcol)
run_command left s dec a curcol = some (cursor_left s a.a1 curcol)
run_command row s dec a curcol = some (row_absolute s a.a1 curcol)
run_command column s dec a curcol = some (column_absolute s a.a1 curcol)
run_command pos s dec a curcol = some (position s a.a1 a.a2)
run_command set_mode s dec a curcol = if dec then set_dec_mode s a.a1 else some s
run_command display s dec a curcol = erase_display s a.n a.a1
run_command line s dec a curcol = erase_line s a.n a.a1 curcol
run_command reset_mode s dec a curcol = if dec then reset_dec_mode s a.a1 else some s
run_command insert_line s dec a curcol = insert_lines s a.a1
run_command rendition s dec a curcol = some (graphic_rendition s a)
run_command delete_line s dec a curcol = delete_lines s a.a1
run_command delete_char s dec a curcol = delete_chars s a.a1 curcol
run_command region s dec a curcol = some (set_region s a.n a.a1 a.a2)
run_command erase_char s dec a curcol = erase_chars s a.a1 curcol
run_command ignored s dec a curcol = some s

-- `return 1`, or `return 0` with the screen and what stands behind the final byte
pub data Sequence : Type 0 where
  incomplete : Sequence
  complete : Screen → List ℕ → Sequence

-- The switch on the final byte `cmd`. A parameter that no `int` holds has no value in `sscanf`.
unfoldable pub csi_final : Screen → Bool → Args → List ℕ → ℕ → Option Sequence
csi_final s dec a [] curcol = some incomplete
csi_final s dec a (cmd ∷ rest) curcol = do
  require (ltb a.a1 int_limit && (ltb a.a2 int_limit && ltb a.a3 int_limit))
  s₁ ← run_command (command cmd) s dec a curcol
  some (complete s₁ rest)

-- behind the optional private mark
unfoldable pub csi_params : Screen → Bool → List ℕ → ℕ → Option Sequence
csi_params s dec base curcol =
    let (params, rest) = span_params base in csi_final s dec (scan_args params) rest curcol

-- `do_csi` on what stands behind ESC [
unfoldable pub do_csi : Screen → List ℕ → ℕ → Option Sequence
unfolding csi_params csi_final command run_command
do_csi s [] curcol = some incomplete
do_csi s (c ∷ cs) curcol =
    if is_private c then csi_params s (c == b'?') cs curcol else csi_params s false (c ∷ cs) curcol
