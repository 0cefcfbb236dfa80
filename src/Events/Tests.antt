-- ===== src/Events/Tests.antt =====
-- myts.c: the timers on concrete times, and rounds of three sessions, of which one ends at once.
use kindle_myts.Base.{
  ℕ, ◌≡◌, refl, Bool, true, List, [], ◌∷◌, Option, some, none, ◌==◌, if◌then◌else◌,
}
use kindle_myts.Events.Timers.{Time, timeradd_ms, select_timeout}
use kindle_myts.Events.Loop.{CbArgs, Answer, Me, Selected, new_sess, main_rounds}

abbrev late : Time
late = record { sec = 7; usec = 999500 }

abbrev soon : Time
soon = record { sec = 9; usec = 100 }

late_plus : timeradd_ms late 600 ≡ some (record { sec = 8; usec = 599500 })
unfolding timeradd_ms
late_plus = refl

soon_left : select_timeout soon late ≡ record { sec = 1; usec = 600 }
unfolding select_timeout
soon_left = refl

-- A session is its name, the world is the list of the names served. Session 9 ends.
abbrev ends : ℕ → Bool
ends n = n == 9

abbrev serve : ℕ → CbArgs → List ℕ → Answer ℕ (List ℕ)
serve s a w = record {
  result = if a.run then ends s else true;
  sess = s;
  args = a;
  world = if a.run then s ∷ w else w;
  created = [];
}

abbrev no_fd : ℕ → Option ℕ
no_fd s = none

abbrev frozen : List ℕ → Time
frozen w = late

abbrev ready : List ℕ → ℕ → List ℕ → List ℕ → Time → Selected (List ℕ)
ready w n r v t = record { ready = true; due = t; r = r; w = v; world = w }

abbrev no_child : List ℕ → List ℕ
no_child w = w

abbrev three : Me ℕ
three = record { sess = 2 ∷ 9 ∷ []; tmp_sess = 1 ∷ [] }

made : new_sess (record { sess = 2 ∷ 9 ∷ []; tmp_sess = [] }) 1 ≡ three
unfolding new_sess
made = refl

two_rounds :
    (main_rounds serve no_fd frozen ready no_child 2 three []).world ≡ 2 ∷ 1 ∷ 9 ∷ 2 ∷ 1 ∷ []
unfolding main_rounds
two_rounds = refl
