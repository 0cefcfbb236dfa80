-- ===== src/Terminal/Keys.antt =====
-- terminal.c: `term_keyin` and `term_keyboard`, the queue of bytes from the keyboard to the shell.
use kindle_myts.Base.{
  ℕ, ◌+◌, ◌-◌, ◌<◌, ◌≡◌, sym, ap, ◌∙◌, arith, Bool, ◌&&◌, false, refl, ◌||◌, Bool-cases, ==→eq, inl,
  inr, List, [], ◌∷◌, ◌++◌, leb, ◌==◌, if◌then◌else◌, length, take, drop, take_all, length-append,
  length-take, length-drop, take-append-drop, append_assoc, append_nil,
}

-- `priv` of `kflags`, and the string in `keys`, whose length is `klen`
pub record Queue : Type 0 where
  pub priv : Bool
  pub keys : List ℕ

-- KMAX, the size of `keys`
abbrev pub kmax : ℕ
kmax = 1024

-- the arrow keys in private mode: ESC [ A becomes ESC O A
unfoldable pub map_arrow : Bool → List ℕ → List ℕ
map_arrow priv [] = []
map_arrow priv (a ∷ []) = a ∷ []
map_arrow priv (a ∷ b ∷ []) = a ∷ b ∷ []
map_arrow priv (a ∷ b ∷ c ∷ cs) =
    if priv && (a == 0x1b && (b == b'[' && (leb b'A' c && leb c b'D')))
    then a ∷ b'O' ∷ c ∷ cs
    else a ∷ b ∷ c ∷ cs

-- `strncat` takes as many bytes as there is room for.
unfoldable pub term_keyin : Queue → List ℕ → Queue
unfolding map_arrow
term_keyin q k = record q { keys = q.keys ++ take (kmax - 1 - length q.keys) (map_arrow q.priv k) }

-- `l` is the result of `write`, 0 also for an error: the bytes written, and the queue behind.
unfoldable pub term_keyboard : Queue → ℕ → List ℕ × Queue
term_keyboard q l = (take l q.keys, record q { keys = drop l q.keys })

-- a key sequence of the user, or a write of the main loop with its result
pub data Event : Type 0 where
  typed : List ℕ → Event
  wrote : ℕ → Event

-- the bytes written over a sequence of events, and the queue behind them
unfoldable pub run : Queue → List Event → List ℕ × Queue
unfolding term_keyin term_keyboard
run q [] = ([], q)
run q (typed k ∷ es) = run (term_keyin q k) es
run q (wrote l ∷ es) =
    let (sent, q₁) = term_keyboard q l in let (more, q₂) = run q₁ es in (sent ++ more, q₂)

-- ESC [ and a letter
unfoldable pub is_sequence : List ℕ → ℕ → Bool
is_sequence [] c = false
is_sequence (a ∷ []) c = false
is_sequence (a ∷ b ∷ []) c = false
is_sequence (a ∷ b ∷ d ∷ rest) c = a == 0x1b && (b == b'[' && d == c)

-- a string that begins with the sequence of an arrow key
unfoldable pub begins_with_arrow : List ℕ → Bool
unfolding is_sequence
begins_with_arrow k =
    is_sequence k b'A' || (is_sequence k b'B' || (is_sequence k b'C' || is_sequence k b'D'))

-- The bytes that go out for a string: in private mode the second byte of an arrow key is O.
unfoldable pub sent_for : Bool → List ℕ → List ℕ
unfolding begins_with_arrow
sent_for priv k = if priv && begins_with_arrow k then 0x1b ∷ b'O' ∷ drop 2 k else k

-- the bytes that go out for all that is typed
unfoldable pub all_typed : Bool → List Event → List ℕ
unfolding sent_for
all_typed priv [] = []
all_typed priv (typed k ∷ es) = sent_for priv k ++ all_typed priv es
all_typed priv (wrote l ∷ es) = all_typed priv es

map_arrow-sent_for : (priv : Bool) (k : List ℕ) → map_arrow priv k ≡ sent_for priv k
unfolding map_arrow sent_for begins_with_arrow is_sequence
map_arrow-sent_for priv [] = ground arith
map_arrow-sent_for priv (a ∷ []) = ground arith
map_arrow-sent_for priv (a ∷ b ∷ []) = ground arith
map_arrow-sent_for priv (a ∷ b ∷ c ∷ cs) = elim (Bool-cases (a == 0x1b)) [
  | inl esc ↦ let z = ==→eq a 0x1b esc in rw z (ground arith)
  | inr other ↦ ground (arith, other)
]

length-map_arrow : (priv : Bool) (k : List ℕ) → length (map_arrow priv k) ≡ length k
unfolding map_arrow
length-map_arrow priv [] = refl
length-map_arrow priv (a ∷ []) = refl
length-map_arrow priv (a ∷ b ∷ []) = refl
length-map_arrow priv (a ∷ b ∷ c ∷ cs) = ground arith

-- Nothing typed meets a full queue.
abbrev pub HasRoom : Queue → List Event → Type 0
HasRoom q [] = Unit
HasRoom q (typed k ∷ es) = (length q.keys + length k < kmax) × HasRoom (term_keyin q k) es
HasRoom q (wrote l ∷ es) = HasRoom (term_keyboard q l).1 es

-- Whatever is typed and written, the queue keeps room for its NUL.
pub run-lt : (q : Queue) (es : List Event) → length q.keys < kmax → length (run q es).1.keys < kmax
unfolding run term_keyin term_keyboard
run-lt q [] h = h
run-lt q (typed k ∷ es) h = run-lt (term_keyin q k) es (
    omega (
      arith,
      length-append q.keys (take (kmax - 1 - length q.keys) (map_arrow q.priv k)),
      length-take (kmax - 1 - length q.keys) (map_arrow q.priv k),
    ))
run-lt q (wrote l ∷ es) h = run-lt (term_keyboard q l).1 es (omega (arith, length-drop l q.keys))

-- As long as nothing typed meets a full queue, no byte is lost, repeated or moved: what has been
-- written, with the queue behind it, is the queue at the start with all that was typed behind it,
-- where in private mode the arrow keys, ESC [ A to ESC [ D, have become ESC O A to ESC O D.
pub run_conserves :
    (q : Queue) (es : List Event)
    → HasRoom q es
    → (run q es).0 ++ (run q es).1.keys ≡ q.keys ++ all_typed q.priv es
unfolding run term_keyin term_keyboard all_typed
run_conserves q [] room = sym (append_nil q.keys)
run_conserves q (typed k ∷ es) (fits, room) =
    let whole =
      take_all (kmax - 1 - length q.keys) (map_arrow q.priv k)
        (omega (arith, fits, length-map_arrow q.priv k))
      ∙ map_arrow-sent_for q.priv k in
    run_conserves (term_keyin q k) es room
    ∙ append_assoc q.keys (take (kmax - 1 - length q.keys) (map_arrow q.priv k))
        (all_typed q.priv es)
    ∙ ap (λ m. q.keys ++ (m ++ all_typed q.priv es)) whole
run_conserves q (wrote l ∷ es) room =
    append_assoc (take l q.keys) (run (term_keyboard q l).1 es).0
      (run (term_keyboard q l).1 es).1.keys
    ∙ ap (λ m. take l q.keys ++ m) (run_conserves (term_keyboard q l).1 es room)
    ∙ sym (append_assoc (take l q.keys) (drop l q.keys) (all_typed q.priv es))
    ∙ ap (λ m. m ++ all_typed q.priv es) (take-append-drop l q.keys)
