-- ===== src/Terminal/Append/Text.antt =====
-- terminal.c, `page_append`: text with no escapes, and where the loop stops.
use kindle_myts.Base.{
  ℕ, zero, suc, ◌+◌, ◌-◌, ◌%◌, ◌≤◌, ◌≡◌, ◌≢◌, refl, arith, false, List, [], ◌∷◌, Option, some, ◌∙◌,
  >>=-eq-some, Returns, length,
}
use mathlib.Core.Path.{subst}
use kindle_myts.Terminal.{Screen, IsWf}
use kindle_myts.Terminal.Append.{
  Round, next, stop, skip, leave, dispatch, append_round, after_round, append_loop, page_append,
}
use kindle_myts.Terminal.Append.Fuel.{Takes, append_round-Takes}
use kindle_myts.Terminal.Glyph.Safety.{IsFine, put_code_returns}

-- No byte is ESC.
abbrev pub HasNoEscape : List ℕ → Type 0
HasNoEscape [] = Unit
HasNoEscape (b ∷ bytes) = (b ≢ 0x1b) × HasNoEscape bytes

byte_round :
    {s : Screen} (pos a : ℕ) (rest : List ℕ)
    → IsWf s
    → s.utf8 ≡ false
    → a ≢ 0x1b
    → (t : Screen) × (append_round s pos a rest ≡ some (next t rest)) × IsFine s t
unfolding append_round dispatch leave skip
byte_round {s} pos a rest w narrow plain =
    let (t, e, f) = put_code_returns a (s.cur % s.cols) w in (t, ground (arith, e), f)

text_loop :
    (pos : ℕ) {s : Screen} (bytes : List ℕ)
    → IsWf s
    → s.utf8 ≡ false
    → HasNoEscape bytes
    → Returns (append_loop (length bytes) pos s bytes) (λ out. IsWf out.0 × (out.1 ≡ []))
unfolding append_loop after_round
text_loop pos {s} [] w narrow h = ((s, []), refl, (w, refl))
text_loop pos {s} (a ∷ rest) w narrow h =
    let (t, e, f) = byte_round pos a rest w narrow h.0 in
    let (out, e', g) =
      text_loop (pos + (suc (length rest) - length rest)) rest f.0 (f.1 ∙ narrow) h.1 in
    (out, rw e e', g)

-- In the one-byte mode a text with no ESC is taken in whole and with no fault, whatever its bytes and
-- wherever the cursor stands, and leaves a well-formed screen well formed.
pub page_append_text :
    {s : Screen} (bytes : List ℕ)
    → IsWf s
    → s.utf8 ≡ false
    → HasNoEscape bytes
    → Returns (page_append s bytes) (λ out. IsWf out.0 × (out.1 ≡ []))
unfolding page_append
page_append_text bytes w narrow h = text_loop 0 bytes w narrow h

-- The loop has stopped: nothing is left, or the next round waits for more bytes.
abbrev pub HasStopped : Screen × List ℕ → Type 0
HasStopped (t, []) = Unit
HasStopped (t, a ∷ rest) = (pos : ℕ) × (append_round t pos a rest ≡ some stop)

behind_stopped :
    (s : Screen) (pos a : ℕ) (rest : List ℕ) (go : ℕ → Screen → List ℕ → Option (Screen × List ℕ))
    → (out : Screen × List ℕ) → (r : Round) → append_round s pos a rest ≡ some r
    → Takes (length rest) r
    → ((p : ℕ) (t : Screen) (l : List ℕ)
        → length l ≤ length rest
        → go p t l ≡ some out
        → HasStopped out)
    → after_round go s pos (a ∷ rest) r ≡ some out
    → HasStopped out
unfolding after_round
behind_stopped s pos a rest go out stop er k ih e =
    let i : (s, a ∷ rest) ≡ out = cc in subst HasStopped i (pos, er)
behind_stopped s pos a rest go out (next t l) er k ih e =
    ih (pos + (suc (length rest) - length l)) t l k e

loop_stopped :
    (f pos : ℕ) (s : Screen) (bytes : List ℕ) {out : Screen × List ℕ}
    → length bytes ≤ f
    → append_loop f pos s bytes ≡ some out
    → HasStopped out
unfolding append_loop
loop_stopped zero pos s [] {out} h e = let i : (s, []) ≡ out = cc in subst HasStopped i tt
loop_stopped zero pos s (a ∷ rest) h e = absurd (omega arith)
loop_stopped (suc f) pos s [] {out} h e = let i : (s, []) ≡ out = cc in subst HasStopped i tt
loop_stopped (suc f) pos s (a ∷ rest) {out} h e =
    let (r, er, e₁) = >>=-eq-some (append_round s pos a rest) _ e in
    behind_stopped s pos a rest (append_loop f) out r er (append_round-Takes s pos a rest er)
      (λ p t l k e'. loop_stopped f p t l (omega arith) e') e₁

-- `page_append` leaves bytes over only where the bytes left over begin with a character or an escape
-- sequence for which a round of the loop waits for more.
pub page_append_stops :
    (s : Screen) (bytes : List ℕ) {out : Screen × List ℕ}
    → page_append s bytes ≡ some out
    → HasStopped out
unfolding page_append
page_append_stops s bytes e = loop_stopped (length bytes) 0 s bytes (omega arith) e
