-- ===== src/Engine/Help/Safety.antt =====
-- help/help_command_tracker.hpp: the observer stays inside its buffer on whatever is typed.
use kindle_myts.Base.{
  ℕ, ◌+◌, ◌-◌, ◌≤◌, ◌≡◌, refl, ◌∙◌, arith, Bool, true, ◌&&◌, ◌||◌, List, [], ◌∷◌, Option, some, ltb,
  leb, ◌==◌, inl, inr, ◌⊎◌, Bool-cases, length, store, fill_lem, length-fill, Returns, returns_test,
  tests, ltb→lt,
}
use kindle_myts.Engine.Help.{
  Tracker, text_len, flags, reset, handle_backspace, append_char, check_and_reset,
  process_escape_char, process_char, track, unseen,
}

-- The buffer has its 8 bytes; no flag is set and at most 7 of them are text, or there is one flag and no text.
pub record IsReady (t : Tracker) : Type 0 where
  pub room : length t.buffer ≡ 8
  pub flagged : (t.len ≤ 7) ⊎ ((t.len ≡ 0x80) ⊎ (t.len ≡ 0x40))

stored :
    (b : List ℕ) (i c : ℕ)
    → length b ≡ 8
    → i ≤ 7
    → (b' : List ℕ) × (store b i c ≡ some b') × (length b' ≡ 8)
unfolding store
stored b i c len h =
    let s = fill_lem b i 1 c (omega (arith, len, h)) in (_, s, length-fill b i 1 c s ∙ len)

abbrev pub Safe : Bool × Tracker → Type 0
Safe out = IsReady out.1

reset-IsReady : (t : Tracker) → length t.buffer ≡ 8 → Returns (reset t) IsReady
unfolding reset
reset-IsReady t len =
    let (b, e, l) = stored t.buffer 0 0 len (omega arith) in
    rw e (_, refl, record { room = l; flagged = inl (omega arith) })

unseen-Safe : (m : Option Tracker) → Returns m IsReady → Returns (unseen m) Safe
unseen-Safe m (t, e, r) = rw e (_, refl, r)

check-Safe : (t : Tracker) → length t.buffer ≡ 8 → Returns (check_and_reset t) Safe
unfolding check_and_reset
check-Safe t len = let (u, e, r) = reset-IsReady t len in rw e (_, refl, r)

backspace-IsReady :
    (t : Tracker) → length t.buffer ≡ 8 → t.len ≤ 7 → Returns (handle_backspace t) IsReady
unfolding handle_backspace
backspace-IsReady t len h = elim (Bool-cases (text_len t == 0)) [
  | inl none_left ↦ rw none_left (t, refl, record { room = len; flagged = inl h })
  | inr some_left ↦
      let (b, e, l) = stored t.buffer (text_len t - 1) 0 len (omega (arith, h)) in
      rw some_left (rw e (_, refl, record { room = l; flagged = inl (omega (arith, h)) }))
]

append-IsReady : (c : ℕ) (t : Tracker) → length t.buffer ≡ 8 → Returns (append_char c t) IsReady
unfolding append_char
append-IsReady c t len = elim (Bool-cases (ltb (text_len t) 7)) [
  | inl more ↦
      let h = ltb→lt (text_len t) 7 more in
      let (b, e, l) = stored t.buffer (text_len t) c len (omega (arith, h)) in
      let (b', e', l') = stored b (text_len t + 1) 0 l (omega (arith, h)) in
      rw more (rw e (rw e' (_, refl, record { room = l'; flagged = inl (omega (arith, h)) })))
  | inr full ↦
      let (b, e, l) = stored t.buffer 0 b'~' len (omega arith) in
      rw full (rw e (_, refl, record { room = l; flagged = inl (omega arith) }))
]

escape-Safe : (c : ℕ) (t : Tracker) → IsReady t → Returns (process_escape_char c t) Safe
unfolding process_escape_char
escape-Safe c t r =
    let again = unseen-Safe (reset t) (reset-IsReady t r.room) in
    returns_test Safe (c == b'\r' || c == b'\n') _ _ (λ _. again)
      (λ _.
        returns_test Safe (flags t == 0x80) _ _
          (λ _.
            returns_test Safe (c == b'[') _ _
              (λ _. (_, refl, record { room = r.room; flagged = inr (inr refl) })) (λ _. again))
          (λ _. returns_test Safe (leb 0x40 c && leb c 0x7e) _ _ (λ _. again) (λ _. (_, refl, r))))

small_len : (t : Tracker) → IsReady t → (flags t == 0) ≡ true → t.len ≤ 7
small_len t r h = elim r.flagged [
  | inl small ↦ small
  | inr flag ↦ elim flag [
    | inl e ↦ absurd (omega (tests, e, h))
    | inr e ↦ absurd (omega (tests, e, h))
  ]
]

process_char-Safe : (c : ℕ) (t : Tracker) → IsReady t → Returns (process_char c t) Safe
unfolding process_char
process_char-Safe c t r = elim (Bool-cases (flags t == 0)) [
  | inr flag ↦ rw flag (escape-Safe c t r)
  | inl no_flag ↦ rw no_flag (
      returns_test Safe (c == 0x1b) _ _
        (λ _.
          let (b, e, l) = stored t.buffer 0 0 r.room (omega arith) in
          rw e (_, refl, record { room = l; flagged = inr (inl refl) }))
        (λ _.
          returns_test Safe (c == b'\r' || c == b'\n') _ _ (λ _. check-Safe t r.room)
            (λ _.
              returns_test Safe (c == 0x7f || c == 8) _ _
                (λ _.
                  unseen-Safe (handle_backspace t)
                    (backspace-IsReady t r.room (small_len t r no_flag)))
                (λ _.
                  returns_test Safe (ltb c 32) _ _
                    (λ _. unseen-Safe (reset t) (reset-IsReady t r.room))
                    (λ _. unseen-Safe (append_char c t) (append-IsReady c t r.room))))))
]

-- Whatever bytes are typed, no access leaves the buffer, and the observer stays ready.
pub track-IsReady : (bytes : List ℕ) (t : Tracker) → IsReady t → Returns (track bytes t) Safe
unfolding track
track-IsReady [] t r = (_, refl, r)
track-IsReady (c ∷ cs) t r =
    let (out, e, s) = process_char-Safe c t r in
    let (out', e', s') = track-IsReady cs out.1 s in rw e (rw e' (_, refl, s'))
