-- ===== src/Terminal/Tests/Shells.antt =====
-- terminal.c: a session whose shell writes, and text that arrives in two pieces.
use kindle_myts.Base.{
  ℕ, ◌≡◌, refl, arith, true, false, List, [], ◌∷◌, ◌++◌, some, ◌>>=◌, take, length-take, suc,
}
use kindle_myts.Events.Loop.{CbArgs}
use kindle_myts.Terminal.Tests.{small, small-IsWf}
use kindle_myts.Terminal.Tests.Texts.{greeted, greet}
use kindle_myts.Terminal.Append.{page_append}
use kindle_myts.Terminal.Append.Reads.{type_all, page_append_pieces}
use kindle_myts.Terminal.Shell.{
  Shell, handle_shell, handle_fd, serve_shell, send_keys, term_screen, take_in, until_nul,
}
use kindle_myts.Terminal.Shell.Safety.{IsShell, handle_shell-IsShell}
use kindle_myts.Terminal.Keys.{term_keyboard}

page_append_pieces_example :
    (page_append small (b'H' ∷ []) ≡ (type_all small (b'H' ∷ []) >>= λ t. some (t, [])))
    × (page_append small (b'H' ∷ b'i' ∷ [])
        ≡ (page_append small (b'H' ∷ []) >>= λ out. page_append out.0 (out.1 ++ (b'i' ∷ []))))
page_append_pieces_example =
    page_append_pieces (b'H' ∷ []) (b'i' ∷ []) small-IsWf refl (ground arith, tt) (ground arith, tt)

-- The shell writes an escape; the user has typed two keys, of which one is written.
abbrev pub shell : Shell
shell = record {
  screen = small;
  keys = b'l' ∷ b's' ∷ [];
  sbuf = b'H' ∷ [];
  modified = false;
  fd = some 5;
  cb = true;
  name = b'A' ∷ [];
}

abbrev written : List ℕ
written = b'i' ∷ 0x1b ∷ []

abbrev pub read_escape : ℕ → ℕ → ℕ → List ℕ × ℕ
read_escape w fd n = (take n written, w)

abbrev pub write_one : ℕ → ℕ → List ℕ → ℕ × ℕ
write_one w fd bytes = (1, w)

abbrev pub count_dead : Shell → ℕ → ℕ
count_dead sh w = suc w

abbrev both_ready : CbArgs
both_ready = record {
  now = record { sec = 0; usec = 0 };
  due = record { sec = 0; usec = 0 };
  r = 5 ∷ [];
  w = 5 ∷ [];
  maxfd = 5;
  run = true;
}

abbrev served : Shell
served = record shell { screen = greeted; keys = b's' ∷ []; sbuf = 0x1b ∷ []; modified = true }

serve_both :
    handle_shell read_escape write_one count_dead shell both_ready 0
    ≡ some (record { result = false; sess = served; args = both_ready; world = 0; created = [] })
unfolding handle_shell handle_fd serve_shell send_keys term_screen take_in until_nul term_keyboard
serve_both = rw greet refl

handle_shell-IsShell_example : IsShell served
handle_shell-IsShell_example =
    handle_shell-IsShell read_escape write_one count_dead shell both_ready 0
      (λ w fd n. omega (arith, length-take n written))
      (record { wf = small-IsWf; sbuf_fits = omega arith; keys_fit = omega arith }) serve_both
