-- ===== src/Terminal/Append/Fuel.antt =====
-- terminal.c, `page_append`: every round takes at least one byte, so the loop ends.
use kindle_myts.Base.{
  ℕ, zero, suc, ◌+◌, ◌-◌, ◌%◌, ◌≤◌, ◌≡◌, refl, arith, Bool, false, List, [], ◌∷◌, Option, none,
  some, ◌>>=◌, >>=-eq-some, from_either, ltb, ◌==◌, if◌then◌else◌, ◌||◌, ◌&&◌, length, require,
  int_limit,
}
use mathlib.Core.Path.{subst}
use kindle_myts.Terminal.{Screen}
use kindle_myts.Terminal.Append.{
  Round, next, stop, charset, alignment, short_escape, csi_round, skip, leave, is_eight,
  charset_round, escape, dispatch, wide_round, append_round, after_round, append_loop,
}
use kindle_myts.Terminal.Csi.{
  Sequence, incomplete, complete, command, run_command, csi_final, csi_params, do_csi,
}
use kindle_myts.Terminal.Csi.Params.{Args, span_params, scan_args, is_private}
use kindle_myts.Terminal.Decode.{utf8_to_ucs2}
use kindle_myts.Terminal.Glyph.{put_code}

length-span_params : (bytes : List ℕ) → length (span_params bytes).1 ≤ length bytes
unfolding span_params
length-span_params [] = omega arith
length-span_params (c ∷ cs) = ground (arith, length-span_params cs)

-- What a sequence leaves of `n` bytes.
abbrev LeavesAtMost : ℕ → Sequence → Type 0
LeavesAtMost n incomplete = Unit
LeavesAtMost n (complete t rest) = length rest ≤ n

csi_final-LeavesAtMost :
    (s : Screen) (dec : Bool) (a : Args) (rest : List ℕ) (curcol : ℕ) {q : Sequence}
    → csi_final s dec a rest curcol ≡ some q
    → LeavesAtMost (length rest) q
unfolding csi_final
csi_final-LeavesAtMost s dec a [] curcol {q} e =
    let i : incomplete ≡ q = cc in subst (LeavesAtMost 0) i tt
csi_final-LeavesAtMost s dec a (cmd ∷ rest) curcol {q} e =
    let (u, _, e₁) =
      >>=-eq-some (require (ltb a.a1 int_limit && (ltb a.a2 int_limit && ltb a.a3 int_limit))) _
        e in
    let (t, et, e₂) = >>=-eq-some (run_command (command cmd) s dec a curcol) _ e₁ in
    let i : complete t rest ≡ q = cc in subst (LeavesAtMost (suc (length rest))) i (omega arith)

at_most_le : (m n : ℕ) (q : Sequence) → m ≤ n → LeavesAtMost m q → LeavesAtMost n q
at_most_le m n incomplete h l = tt
at_most_le m n (complete t rest) h l = omega arith

csi_params-LeavesAtMost :
    (s : Screen) (dec : Bool) (base : List ℕ) (curcol : ℕ) {q : Sequence}
    → csi_params s dec base curcol ≡ some q
    → LeavesAtMost (length base) q
unfolding csi_params
csi_params-LeavesAtMost s dec base curcol {q} e =
    at_most_le (length (span_params base).1) (length base) q (length-span_params base)
      (csi_final-LeavesAtMost s dec (scan_args (span_params base).0) (span_params base).1 curcol e)

do_csi-LeavesAtMost :
    (s : Screen) (bytes : List ℕ) (curcol : ℕ) {q : Sequence}
    → do_csi s bytes curcol ≡ some q
    → LeavesAtMost (length bytes) q
unfolding do_csi
do_csi-LeavesAtMost s [] curcol {q} e = let i : incomplete ≡ q = cc in subst (LeavesAtMost 0) i tt
do_csi-LeavesAtMost s (c ∷ cs) curcol {q} e =
    from_either (is_private c) _ _
      (λ e.
        at_most_le (length cs) (suc (length cs)) q (omega arith)
          (csi_params-LeavesAtMost s (c == b'?') cs curcol e))
      (csi_params-LeavesAtMost s false (c ∷ cs) curcol) e

-- A round that goes on leaves at most `n` bytes.
abbrev pub Takes : ℕ → Round → Type 0
Takes n stop = Unit
Takes n (next t bytes) = length bytes ≤ n

stop-Takes : (n : ℕ) {r : Round} → some stop ≡ some r → Takes n r
stop-Takes n {r} e = let i : stop ≡ r = cc in subst (Takes n) i tt

length-skip :
    (k : ℕ) (behind : List ℕ) {bytes : List ℕ}
    → skip k behind ≡ some bytes
    → length bytes ≤ length behind
unfolding skip
length-skip zero behind e = ground arith
length-skip (suc k) [] e = cc
length-skip (suc k) (b ∷ behind) e = omega (arith, length-skip k behind e)

leave-Takes :
    (m : Option Screen) (k : ℕ) (behind : List ℕ) {r : Round}
    → leave m k behind ≡ some r
    → Takes (length behind) r
unfolding leave
leave-Takes m k behind {r} e =
    let (t, em, e₁) = >>=-eq-some m _ e in
    let (bytes, es, e₂) = >>=-eq-some (skip k behind) _ e₁ in
    let i : next t bytes ≡ r = cc in subst (Takes (length behind)) i (length-skip k behind es)

csi_round-Takes :
    (s : Screen) (bytes : List ℕ) (curcol : ℕ) (n : ℕ) {r : Round}
    → length bytes ≤ n
    → csi_round (do_csi s bytes curcol) ≡ some r
    → Takes n r
unfolding csi_round
csi_round-Takes s bytes curcol n {r} h e = go (do_csi s bytes curcol) refl e
  where
    go : (m : Option Sequence) → do_csi s bytes curcol ≡ m → csi_round m ≡ some r → Takes n r
    go none eq e' = cc
    go (some incomplete) eq e' = stop-Takes n e'
    go (some (complete t rest)) eq e' =
        let i : next t rest ≡ r = cc in
        let l = do_csi-LeavesAtMost s bytes curcol eq in subst (Takes n) i (omega arith)

charset_round-Takes :
    (s : Screen) (paren : ℕ) (rest behind : List ℕ) {r : Round}
    → charset_round s paren rest behind ≡ some r
    → Takes (length behind) r
unfolding charset_round
charset_round-Takes s paren [] behind e = stop-Takes (length behind) e
charset_round-Takes s paren (d ∷ rest) behind e = leave-Takes (some (charset s paren d)) 2 behind e

Takes-le : (m n : ℕ) (r : Round) → m ≤ n → Takes m r → Takes n r
Takes-le m n stop h l = tt
Takes-le m n (next t bytes) h l = omega arith

dispatch-Takes :
    (s : Screen) (c : ℕ) (rest behind : List ℕ) {r : Round}
    → length behind ≤ length rest
    → dispatch s c rest behind ≡ some r
    → Takes (length rest) r
unfolding dispatch escape
dispatch-Takes s c [] behind {r} h =
    from_either (c == 0x1b) _ _ (stop-Takes 0)
      (λ e. Takes-le (length behind) 0 r h (leave-Takes (put_code s c (s.cur % s.cols)) 0 behind e))
dispatch-Takes s c (d ∷ rest) behind {r} h =
    let le = λ (l : Takes (length behind) r). Takes-le (length behind) (suc (length rest)) r h l in
    from_either (c == 0x1b) _ _
      (from_either (d == b'[') _ _
        (csi_round-Takes s rest (s.cur % s.cols) (suc (length rest)) (omega arith))
        (from_either (d == b'(' || d == b')') _ _ (λ e. le (charset_round-Takes s d rest behind e))
          (from_either (d == b'#') _ _
            (λ e. le (leave-Takes (if is_eight rest then alignment s else some s) 2 behind e))
            (λ e. le (leave-Takes (short_escape s d (s.cur % s.cols)) 1 behind e)))))
      (λ e. le (leave-Takes (put_code s c (s.cur % s.cols)) 0 behind e))

-- A decoded character is at least one byte.
length-utf8_to_ucs2 :
    (a : ℕ) (rest : List ℕ) (c : ℕ) (behind : List ℕ)
    → utf8_to_ucs2 (a ∷ rest) ≡ some (c, behind)
    → length behind ≤ length rest
unfolding utf8_to_ucs2
length-utf8_to_ucs2 a [] c behind e = ground arith
length-utf8_to_ucs2 a (b ∷ []) c behind e = ground arith
length-utf8_to_ucs2 a (b ∷ d ∷ rest) c behind e = ground arith

wide_round-Takes :
    (s : Screen) (pos a : ℕ) (rest : List ℕ) (decoded : Option (ℕ × List ℕ)) {r : Round}
    → utf8_to_ucs2 (a ∷ rest) ≡ decoded
    → wide_round s pos rest decoded ≡ some r
    → Takes (length rest) r
unfolding wide_round
wide_round-Takes s pos a rest (some (c, behind)) {r} d e =
    let shorter = length-utf8_to_ucs2 a rest c behind d in dispatch-Takes s c rest behind shorter e
wide_round-Takes s pos a rest none {r} d e =
    from_either (ltb 8 pos) _ _ (stop-Takes (length rest))
      (dispatch-Takes s 0xfffd rest rest (omega arith)) e

-- A round that goes on has taken at least one byte.
pub append_round-Takes :
    (s : Screen) (pos a : ℕ) (rest : List ℕ) {r : Round}
    → append_round s pos a rest ≡ some r
    → Takes (length rest) r
unfolding append_round
append_round-Takes s pos a rest {r} =
    from_either s.utf8 _ _ (wide_round-Takes s pos a rest (utf8_to_ucs2 (a ∷ rest)) refl)
      (dispatch-Takes s a rest rest (omega arith))

same_behind :
    (s : Screen) (pos : ℕ) (bytes : List ℕ)
    (go go' : ℕ → Screen → List ℕ → Option (Screen × List ℕ))
    → (n : ℕ) (m : Option Round) → ((r : Round) → m ≡ some r → Takes n r)
    → ((p : ℕ) (t : Screen) (l : List ℕ) → length l ≤ n → go p t l ≡ go' p t l)
    → (m >>= after_round go s pos bytes) ≡ (m >>= after_round go' s pos bytes)
unfolding after_round
same_behind s pos bytes go go' n none short ih = refl
same_behind s pos bytes go go' n (some stop) short ih = refl
same_behind s pos bytes go go' n (some (next t l)) short ih =
    ih (pos + (length bytes - length l)) t l (short (next t l) refl)

-- The loop of `page_append` ends within as many rounds as there are bytes: any two numbers of
-- rounds that are at least that give the same result.
pub append_loop_fuel :
    (f g pos : ℕ) (s : Screen) (bytes : List ℕ)
    → length bytes ≤ f
    → length bytes ≤ g
    → append_loop f pos s bytes ≡ append_loop g pos s bytes
unfolding append_loop
append_loop_fuel zero zero pos s bytes h k = refl
append_loop_fuel zero (suc g) pos s [] h k = refl
append_loop_fuel zero (suc g) pos s (a ∷ rest) h k = absurd (omega arith)
append_loop_fuel (suc f) zero pos s [] h k = refl
append_loop_fuel (suc f) zero pos s (a ∷ rest) h k = absurd (omega arith)
append_loop_fuel (suc f) (suc g) pos s [] h k = refl
append_loop_fuel (suc f) (suc g) pos s (a ∷ rest) h k =
    same_behind s pos (a ∷ rest) (append_loop f) (append_loop g) (length rest)
      (append_round s pos a rest) (λ r e. append_round-Takes s pos a rest e)
      (λ p t l short. append_loop_fuel f g p t l (omega arith) (omega arith))
