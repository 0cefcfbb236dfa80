-- ===== src/Terminal/Tests/Rounds.antt =====
-- myts.c and terminal.c: rounds of the event loop with three shells, of which one is dead.
use kindle_myts.Base.{
  ℕ, ◌≡◌, ◌≤◌, refl, arith, true, false, List, [], ◌∷◌, ◌++◌, ◌⊎◌, inl, inr, none,
}
use kindle_myts.Events.Timers.{Time}
use kindle_myts.Events.Loop.{Me, Selected, round, main_rounds}
use kindle_myts.Events.Rounds.{names, Splits, Among, round_sessions, main_rounds_serve}
use kindle_myts.Terminal.Tests.Shells.{shell, read_escape, write_one, count_dead}
use kindle_myts.Terminal.Shell.{Shell, handle_shell, handle_fd, serve_shell}
use kindle_myts.Terminal.Shell.Served.{
  Numbered, Watched, number, descriptor, count_of, handle_numbered, handle_numbered-Named,
  handle_numbered-Logged, handle_numbered-Counted,
}

abbrev dead : Shell
dead = record shell { fd = none }

abbrev loop_state : Me Numbered
loop_state = record {
  sess = record { number = 2; shell = shell } ∷ record { number = 9; shell = dead } ∷ [];
  tmp_sess = record { number = 1; shell = shell } ∷ [];
}

abbrev begin : Watched ℕ
begin = record { called = []; gone = []; inner = 0 }

abbrev noon : Watched ℕ → Time
noon w = record { sec = 7; usec = 999500 }

-- every descriptor is ready, or none in time
abbrev ready : Watched ℕ → ℕ → List ℕ → List ℕ → Time → Selected (Watched ℕ)
ready w n r v t = record { ready = true; due = t; r = r; w = v; world = w }

abbrev late : Watched ℕ → ℕ → List ℕ → List ℕ → Time → Selected (Watched ℕ)
late w n r v t = record { ready = false; due = t; r = r; w = v; world = w }

abbrev no_child : Watched ℕ → Watched ℕ
no_child w = w

quiet_rounds :
    (main_rounds
      (handle_numbered read_escape write_one count_dead)
      descriptor
      noon
      late
      no_child
      2
      loop_state
      begin).world
    ≡ record { called = 2 ∷ 1 ∷ 9 ∷ 2 ∷ 1 ∷ []; gone = 9 ∷ []; inner = 1 }
unfolding main_rounds handle_shell handle_fd serve_shell
quiet_rounds = refl

round_sessions_example :
    let o =
      round
        (handle_numbered read_escape write_one count_dead)
        descriptor
        noon
        ready
        no_child
        loop_state
        begin in
    (gone : List ℕ) × (o.world.gone ≡ [] ++ gone)
    × Splits (1 ∷ 2 ∷ 9 ∷ []) (names number o.me.sess) gone
round_sessions_example =
    round_sessions (handle_numbered read_escape write_one count_dead) descriptor number noon ready
      no_child (λ w. w.gone) loop_state begin
      (handle_numbered-Named read_escape write_one count_dead)
      (handle_numbered-Logged read_escape write_one count_dead) (λ u m r v t. refl) (λ u. refl)

main_rounds_serve_example :
    let o =
      main_rounds
        (handle_numbered read_escape write_one count_dead)
        descriptor
        noon
        ready
        no_child
        2
        loop_state
        begin in
    (2 ≤ count_of 2 o.world.called) ⊎ ((gone : List ℕ) × (o.world.gone ≡ [] ++ gone) × Among 2 gone)
main_rounds_serve_example =
    main_rounds_serve (handle_numbered read_escape write_one count_dead) descriptor number noon
      ready no_child (λ w. w.gone) 2 (λ w. count_of 2 w.called) 2 loop_state begin
      (handle_numbered-Named read_escape write_one count_dead)
      (handle_numbered-Logged read_escape write_one count_dead)
      (handle_numbered-Counted read_escape write_one count_dead 2) (λ u m r v t. refl) (λ u. refl)
      (λ u m r v t. omega arith) (λ u. omega arith) (inr (inl refl))
