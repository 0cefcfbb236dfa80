-- ===== src/Terminal/Tests/Sequences.antt =====
-- terminal.c: `do_csi` on a concrete screen.
use kindle_myts.Base.{true, ◌≡◌, refl, arith, false, [], ◌∷◌, some, Returns}
use kindle_myts.Terminal.{IsWf}
use kindle_myts.Terminal.Tests.{small, small-IsWf}
use kindle_myts.Terminal.Csi.{insert_char, right, run_command}
use kindle_myts.Terminal.Csi.Params.{scan_args, scan_int, scan_next, digits_from}
use kindle_myts.Terminal.Cursor.{bound}
use kindle_myts.Terminal.Csi.Motion.{cursor_right}
use kindle_myts.Terminal.Csi.Total.{run_command_returns}

scan_position :
    scan_args (b'1' ∷ b'2' ∷ b';' ∷ b'3' ∷ []) ≡ record { n = 2; a1 = 12; a2 = 3; a3 = 1 }
unfolding scan_args scan_int scan_next digits_from
scan_position = refl

-- ESC [ 2 C from column 1
step_right :
    run_command right small false (record { n = 1; a1 = 2; a2 = 1; a3 = 1 }) 1
    ≡ some (record small { cur = 7 })
unfolding run_command cursor_right bound
step_right = refl

run_command_returns_example :
    Returns (run_command insert_char small true (record { n = 1; a1 = 2; a2 = 1; a3 = 1 }) 1) IsWf
run_command_returns_example =
    run_command_returns insert_char true (record { n = 1; a1 = 2; a2 = 1; a3 = 1 }) small-IsWf
      (omega arith) (omega arith) (λ _. omega arith)
