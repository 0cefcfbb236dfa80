-- ===== src/Engine/Help/Typed.antt =====
-- help/help_command_tracker.hpp: a line of plain characters is taken for the command exactly when it is help.
use kindle_myts.Base.{
  ℕ, ◌+◌, ◌-◌, ◌≤◌, ◌<◌, ◌≡◌, refl, sym, ap, ◌∙◌, arith, Bool, true, false, ◌&&◌, not, List, [],
  ◌∷◌, ◌++◌, some, ltb, leb, ◌==◌, inl, inr, ◌↔◌, Bool-cases, take, length, store, get_elem?,
  Returns, fill_lem, length-fill, get_elem?-fill, get_elem?_ext, get_elem?-take, get_elem?-append,
  get_elem?_out, splice, length-append, lt→ltb, ltb→lt, ltb_false→le, append_assoc, append_nil,
}
use kindle_myts.Engine.Help.{
  Tracker, text_len, same_text, current_text, help_word, reset, append_char, check_and_reset,
  process_char, track, unseen, new_tracker,
}

-- What was typed on a line: all of it in the buffer, or too much for it and a mark in front.
pub data Typed (t : Tracker) (text : List ℕ) : Type 0 where
  fits : length text ≤ 7 → t.len ≡ length text → take (length text) t.buffer ≡ text → Typed t text
  too_long : 7 < length text → t.len ≡ 7 → get_elem? t.buffer 0 ≡ some b'~' → Typed t text

-- a character that is no control character and not DEL
unfoldable pub is_plain : ℕ → Bool
is_plain c = leb 32 c && not (c == 0x7f)

unfoldable pub AllPlain : List ℕ → Type 0
AllPlain [] = Unit
AllPlain (c ∷ cs) = (is_plain c ≡ true) × AllPlain cs

-- a character put behind those of the buffer
take-store :
    (text : List ℕ) (c : ℕ) (b b' b'' : List ℕ)
    → length text ≤ 6
    → take (length text) b ≡ text
    → store b (length text) c ≡ some b'
    → store b' (length text + 1) 0 ≡ some b''
    → length b ≡ 8
    → take (length (text ++ (c ∷ []))) b'' ≡ text ++ (c ∷ [])
unfolding store
take-store text c b b' b'' h e s s' len = get_elem?_ext _ _ (λ i. ground (
  arith,
  get_elem?-take (length (text ++ (c ∷ []))) b'' i,
  length-append text (c ∷ []),
  get_elem?-append text (c ∷ []) i,
  get_elem?-fill b (length text) 1 c i s,
  get_elem?-fill b' (length text + 1) 1 0 i s',
  get_elem?-take (length text) b i,
  ap (λ xs. get_elem? xs i) e,
  get_elem?_out (c ∷ []) (i - length text),
))

-- What a plain character leaves.
record Follows (text : List ℕ) (c : ℕ) (t : Tracker) : Type 0 where
  typed : Typed t (text ++ (c ∷ []))
  room : length t.buffer ≡ 8

append_room :
    (text : List ℕ) (c : ℕ) (t : Tracker)
    → length t.buffer ≡ 8
    → length text ≤ 6
    → t.len ≡ length text
    → take (length text) t.buffer ≡ text
    → Returns (append_char c t) (Follows text c)
unfolding append_char store
append_room text c t len h e k =
    let small : text_len t ≡ length text = omega (arith, e) in
    let s = fill_lem t.buffer (length text) 1 c (omega (arith, len, h)) in
    let l = length-fill t.buffer (length text) 1 c s in
    let b' = splice (length text) (c ∷ []) t.buffer in
    let s' = fill_lem b' (length text + 1) 1 0 (omega (arith, len, l, h)) in
    let l' = length-fill b' (length text + 1) 1 0 s' in
    rw (small, lt→ltb (length text) 7 (omega (arith, h)))
      (rw s (
        rw s' (
          _,
          refl,
          record {
            typed =
                fits (omega (arith, length-append text (c ∷ []), h))
                  (omega (arith, length-append text (c ∷ [])))
                  (take-store text c t.buffer b' _ h k s s' len);
            room = omega (arith, l, l', len);
          },
        )))

append_full :
    (text : List ℕ) (c : ℕ) (t : Tracker)
    → length t.buffer ≡ 8
    → t.len ≡ 7
    → 7 ≤ length text
    → Returns (append_char c t) (Follows text c)
unfolding append_char store
append_full text c t len e h =
    let s = fill_lem t.buffer 0 1 b'~' (omega (arith, len)) in
    let l = length-fill t.buffer 0 1 b'~' s in
    rw e (
      rw s (
        _,
        refl,
        record {
          typed =
              too_long (omega (arith, length-append text (c ∷ []), h)) refl
                (ground (arith, get_elem?-fill t.buffer 0 1 b'~' 0 s));
          room = omega (arith, l, len);
        },
      ))

append_char-Typed :
    (text : List ℕ) (c : ℕ) (t : Tracker)
    → length t.buffer ≡ 8
    → Typed t text
    → Returns (append_char c t) (Follows text c)
append_char-Typed text c t len (too_long h e k) = append_full text c t len e (omega (arith, h))
append_char-Typed text c t len (fits h e k) = elim (Bool-cases (ltb (length text) 7)) [
  | inl room ↦ append_room text c t len (omega (arith, ltb→lt (length text) 7 room)) e k
  | inr full ↦
      append_full text c t len (omega (arith, e, h, ltb_false→le (length text) 7 full))
        (ltb_false→le (length text) 7 full)
]

len-Typed : (text : List ℕ) (t : Tracker) → Typed t text → t.len ≤ 7
len-Typed text t (fits h e k) = omega (arith, h, e)
len-Typed text t (too_long h e k) = omega (arith, e)

plain_char :
    (c : ℕ) (t : Tracker)
    → is_plain c ≡ true
    → t.len ≤ 7
    → process_char c t ≡ unseen (append_char c t)
unfolding process_char is_plain
plain_char c t p h = ground (arith, p, h)

same_text_refl : (xs : List ℕ) → same_text xs xs ≡ true
unfolding same_text
same_text_refl [] = refl
same_text_refl (x ∷ xs) = ground (arith, same_text_refl xs)

same_text-eq : (xs ys : List ℕ) → same_text xs ys ≡ true → xs ≡ ys
unfolding same_text
same_text-eq [] [] h = refl
same_text-eq [] (y ∷ ys) h = cc
same_text-eq (x ∷ xs) [] h = cc
same_text-eq (x ∷ xs) (y ∷ ys) h = ground (arith, same_text-eq xs ys)

same_text_iff : (xs ys : List ℕ) → (same_text xs ys ≡ true) ↔ (xs ≡ ys)
same_text_iff xs ys = (same_text-eq xs ys, (λ e. rw e (same_text_refl ys)))

other_text : (xs ys : List ℕ) → ¬ (xs ≡ ys) → same_text xs ys ≡ false
other_text xs ys h = elim (Bool-cases (same_text xs ys)) [
  | inl same ↦ absurd (h (same_text-eq xs ys same))
  | inr other ↦ other
]

marked_text : (xs : List ℕ) → get_elem? xs 0 ≡ some b'~' → same_text (take 7 xs) help_word ≡ false
unfolding same_text
marked_text [] h = cc
marked_text (x ∷ xs) h = ground arith

checked :
    (text : List ℕ) (t : Tracker)
    → Typed t text
    → length t.buffer ≡ 8
    → same_text (current_text t) help_word ≡ same_text text help_word
checked text t (fits h e k) len =
    let small : text_len t ≡ length text = omega (arith, e, h) in rw (small, k) refl
checked text t (too_long h e k) len =
    rw e (
      marked_text t.buffer k ∙ sym (other_text text help_word (λ z. omega (arith, h, ap length z))))

reset-Typed :
    (t : Tracker)
    → length t.buffer ≡ 8
    → Returns (reset t) (λ u. Typed u [] × (length u.buffer ≡ 8))
unfolding reset store
reset-Typed t len =
    let s = fill_lem t.buffer 0 1 0 (omega (arith, len)) in
    let l = length-fill t.buffer 0 1 0 s in
    rw s (_, refl, (fits (omega arith) refl refl, omega (arith, l, len)))

return_char : (t : Tracker) → t.len ≤ 7 → process_char b'\r' t ≡ check_and_reset t
unfolding process_char
return_char t h = ground arith

-- What a line leaves: whether it was the command, and an observer that is ready for the next line.
record LineDone (text : List ℕ) (out : Bool × Tracker) : Type 0 where
  seen : out.0 ≡ same_text text help_word
  ready : Typed out.1 []
  room : length out.1.buffer ≡ 8

return-LineDone :
    (text : List ℕ) (t : Tracker)
    → length t.buffer ≡ 8
    → Typed t text
    → Returns (process_char b'\r' t) (LineDone text)
return-LineDone text t len typed =
    let (u, e, (r, l)) = reset-Typed t len in
    rw (return_char t (len-Typed text t typed)) (
      unfold check_and_reset in
      rw e (_, refl, record { seen = checked text t typed len; ready = r; room = l }))

track_from :
    (text front : List ℕ) (t : Tracker)
    → length t.buffer ≡ 8
    → Typed t front
    → AllPlain text
    → Returns (track (text ++ (b'\r' ∷ [])) t) (LineDone (front ++ text))
unfolding track AllPlain
track_from [] front t len typed plain =
    let (out, e, d) = return-LineDone front t len typed in
    rw (e, append_nil front)
      (_, refl, record { seen = ground (arith, d.seen); ready = d.ready; room = d.room })
track_from (c ∷ cs) front t len typed (p, plain) =
    let (u, e, f) = append_char-Typed front c t len typed in
    let (out, e', d) = track_from cs (front ++ (c ∷ [])) u f.room f.typed plain in
    rw (plain_char c t p (len-Typed front t typed), e)
      (rw e' (
        _,
        refl,
        record {
          seen = d.seen ∙ ap (λ xs. same_text xs help_word) (append_assoc front (c ∷ []) cs);
          ready = d.ready;
          room = d.room;
        },
      ))

-- A line is taken for the command exactly when it is the word help: for every text of plain characters,
-- of whatever length, the return key behind it reports the command if and only if the text is help.
pub track_command :
    (text : List ℕ)
    → AllPlain text
    → Returns
        (track (text ++ (b'\r' ∷ [])) new_tracker)
        (λ out. (out.0 ≡ true) ↔ (text ≡ help_word))
track_command text plain =
    let (out, e, d) = track_from text [] new_tracker refl (fits (omega arith) refl refl) plain in
    (out, e, rw d.seen (same_text_iff text help_word))
