-- ===== src/Terminal/Tests/Sessions.antt =====
-- terminal.c: `term_new` at concrete sizes, and the keys of a session.
use kindle_myts.Base.{List, [], ◌∷◌, ◌++◌, ◌≡◌, refl, arith, true}
use kindle_myts.Terminal.Keys.{
  Queue, map_arrow, term_keyin, term_keyboard, Event, typed, wrote, run, all_typed, HasRoom,
  run_conserves,
}
use kindle_myts.Terminal.Start.{layout, name_bytes, checked_rows, checked_cols}

sizes : (checked_rows 200 ≡ 25) × (checked_rows 160 ≡ 160) × (checked_cols 9 ≡ 80)
unfolding checked_rows checked_cols
sizes = (refl, refl, refl)

places : layout true 121 5 25 80 0 ≡ record {
  name = 121;
  page = 128;
  attributes = 4128;
  sb_page = 6128;
  sb_attributes = 6128;
  size = 6129;
}
unfolding layout name_bytes
places = refl

-- private mode, with one byte in the queue
abbrev waiting : Queue
waiting = record { priv = true; keys = b'l' ∷ [] }

-- an arrow key, a write of two bytes, and 's'
abbrev strokes : List Event
strokes = typed (0x1b ∷ b'[' ∷ b'A' ∷ []) ∷ wrote 2 ∷ typed (b's' ∷ []) ∷ []

strokes-run :
    run waiting strokes ≡ (b'l' ∷ 0x1b ∷ [], record { priv = true; keys = b'O' ∷ b'A' ∷ b's' ∷ [] })
unfolding run term_keyin term_keyboard map_arrow
strokes-run = refl

strokes-HasRoom : HasRoom waiting strokes
unfolding term_keyin term_keyboard map_arrow
strokes-HasRoom = (omega arith, (omega arith, tt))

run_conserves_example :
    (run waiting strokes).0 ++ (run waiting strokes).1.keys ≡ (b'l' ∷ []) ++ all_typed true strokes
run_conserves_example = run_conserves waiting strokes strokes-HasRoom
