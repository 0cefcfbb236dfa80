-- ===== src/Terminal/Append/Invariant.antt =====
-- terminal.c, `page_append`: what the shell writes keeps the screen well formed.
use kindle_myts.Base.{
  ℕ, zero, suc, ◌+◌, ◌-◌, ◌%◌, ◌≤◌, ◌<◌, ◌≡◌, refl, arith, false, inl, inr, Bool-cases, List, [],
  ◌∷◌, Option, none, some, >>=-eq-some, Returns, returns_value, returns_if, returns_either,
  from_either, ltb, ◌==◌, ◌||◌, length, fill_lem, splice, replicate, length-fill,
}
use mathlib.Core.Path.{subst}
use native.Mathlib.Nat.{mod-lt}
use kindle_myts.Terminal.{Screen, IsWf, region_start}
use kindle_myts.Terminal.Append.{
  Round, next, stop, charset, new_line, reverse_index, alignment, short_escape, csi_round, skip,
  leave, is_eight, charset_round, escape, dispatch, wide_round, append_round, append_loop,
  after_round, page_append,
}
use kindle_myts.Terminal.Csi.Commands.{do_csi-Leaves}
use kindle_myts.Terminal.Csi.{Sequence, incomplete, complete, do_csi}
use kindle_myts.Terminal.Cursor.{bound, bound-le-pagelen}
use kindle_myts.Terminal.Decode.{utf8_to_ucs2}
use kindle_myts.Terminal.Glyph.Safety.{put_code_returns}
use kindle_myts.Terminal.Glyph.Scrolling.{IsWfBut, scroll_loop_ends}
use kindle_myts.Terminal.Glyph.{next_line, rounds}
use kindle_myts.Terminal.Page.Redraw.{page_scrolldown_returns}

new_line-IsWfBut :
    {s : Screen} (curcol : ℕ) → IsWf s → IsWfBut (next_line (record s { cur = s.cur - curcol }))
unfolding next_line
new_line-IsWfBut curcol w = record { at_home = ground arith }

new_line_returns : {s : Screen} (curcol : ℕ) → IsWf s → Returns (new_line s curcol) IsWf
unfolding new_line
new_line_returns curcol w =
    let (t, e, g) = scroll_loop_ends rounds (omega arith) (new_line-IsWfBut curcol w) in
    (t, e, g.wf)

settle-IsWf : {s : Screen} (c : ℕ) → IsWf s → IsWf (record s { cur = bound s c; wrapped = false })
settle-IsWf {s} c w = let b = bound-le-pagelen c w in ground arith

reverse_index_returns : {s : Screen} → IsWf s → Returns (reverse_index s) IsWf
unfolding reverse_index
reverse_index_returns {s} w = elim (Bool-cases (ltb s.cur (region_start s + s.cols))) [
  | inl first ↦
      let (t, e, r) = page_scrolldown_returns w in
      (record t { cur = bound t t.cur; wrapped = false }, rw (first, e), settle-IsWf t.cur r.wf)
  | inr below ↦ (
    record s { cur = bound s (s.cur - s.cols); wrapped = false },
    rw below,
    settle-IsWf (s.cur - s.cols) w,
  )
]

alignment_returns : {s : Screen} → IsWf s → Returns (alignment s) IsWf
unfolding alignment
alignment_returns {s} w =
    let p = fill_lem s.page 0 s.pagelen b'E' (omega arith) in
    let a = fill_lem s.attributes 0 s.pagelen s.cur_attr (omega arith) in
    (
      record s {
        page = splice 0 (replicate s.pagelen b'E') s.page;
        attributes = splice 0 (replicate s.pagelen s.cur_attr) s.attributes;
      },
      rw (p, a),
      ground (
        arith,
        length-fill s.page 0 s.pagelen b'E' p,
        length-fill s.attributes 0 s.pagelen s.cur_attr a,
      ),
    )

move-IsWf : {s : Screen} {c : ℕ} → IsWf s → c ≤ s.pagelen → IsWf (record s { cur = c })
move-IsWf w h = ground arith

-- The escapes of one byte are carried out on every well-formed screen.
pub short_escape_returns :
    {s : Screen} (c curcol : ℕ) → IsWf s → Returns (short_escape s c curcol) IsWf
unfolding short_escape
short_escape_returns {s} c curcol w = returns_if IsWf (c == b'c') _ _ (ground arith) (
    returns_if IsWf (c == b'D') _ _ (move-IsWf w (bound-le-pagelen (s.cur + s.cols) w)) (
      returns_either IsWf (c == b'E') _ _ (new_line_returns curcol w)
        (returns_either IsWf (c == b'M') _ _ (reverse_index_returns w) (s, refl, w))))

charset-IsWf : {s : Screen} (paren c : ℕ) → IsWf s → IsWf (charset s paren c)
unfolding charset
charset-IsWf paren c w = ground arith

-- What holds of the screen with which the loop goes on.
abbrev pub GoesOn : Round → Type 0
GoesOn stop = Unit
GoesOn (next t bytes) = IsWf t

leave-GoesOn :
    {m : Option Screen} (k : ℕ) (behind : List ℕ) {r : Round}
    → Returns m IsWf
    → leave m k behind ≡ some r
    → GoesOn r
unfolding leave
leave-GoesOn {m} k behind {r} g e =
    let (t, em, e₁) = >>=-eq-some m _ e in
    let (bytes, _, e₂) = >>=-eq-some (skip k behind) _ e₁ in
    let i : next t bytes ≡ r = cc in subst GoesOn i (returns_value IsWf g em)

stop-GoesOn : {r : Round} → some stop ≡ some r → GoesOn r
stop-GoesOn {r} e = let i : stop ≡ r = cc in subst GoesOn i tt

csi_round-GoesOn :
    {s : Screen} (bytes : List ℕ) (curcol : ℕ) {r : Round}
    → IsWf s
    → curcol < s.cols
    → csi_round (do_csi s bytes curcol) ≡ some r
    → GoesOn r
unfolding csi_round
csi_round-GoesOn {s} bytes curcol {r} w h e = go (do_csi s bytes curcol) refl e
  where
    go : (m : Option Sequence) → do_csi s bytes curcol ≡ m → csi_round m ≡ some r → GoesOn r
    go none eq e' = cc
    go (some incomplete) eq e' = stop-GoesOn e'
    go (some (complete t rest)) eq e' =
        let i : next t rest ≡ r = cc in subst GoesOn i (do_csi-Leaves bytes curcol w h eq)

charset_round-GoesOn :
    {s : Screen} (paren : ℕ) (rest behind : List ℕ) {r : Round}
    → IsWf s
    → charset_round s paren rest behind ≡ some r
    → GoesOn r
unfolding charset_round
charset_round-GoesOn paren [] behind w e = stop-GoesOn e
charset_round-GoesOn {s} paren (d ∷ rest) behind w e =
    leave-GoesOn 2 behind (charset s paren d, refl, charset-IsWf paren d w) e

escape-GoesOn :
    {s : Screen} (rest behind : List ℕ) (curcol : ℕ) {r : Round}
    → IsWf s
    → curcol < s.cols
    → escape s rest behind curcol ≡ some r
    → GoesOn r
unfolding escape
escape-GoesOn [] behind curcol w h e = stop-GoesOn e
escape-GoesOn {s} (c ∷ rest) behind curcol w h e = elim (Bool-cases (c == b'[')) [
  | inl csi ↦ csi_round-GoesOn rest curcol w h (rw csi at e)
  | inr not_csi ↦ elim (Bool-cases (c == b'(' || c == b')')) [
    | inl paren ↦ charset_round-GoesOn c rest behind w (rw (not_csi, paren) at e)
    | inr other ↦ elim (Bool-cases (c == b'#')) [
      | inl hash ↦
          leave-GoesOn 2 behind
            (returns_either IsWf (is_eight rest) _ _ (alignment_returns w) (s, refl, w))
            (rw (not_csi, other, hash) at e)
      | inr short ↦
          leave-GoesOn 1 behind (short_escape_returns c curcol w) (rw (not_csi, other, short) at e)
    ]
  ]
]

dispatch-GoesOn :
    {s : Screen} (c : ℕ) (rest behind : List ℕ) {r : Round}
    → IsWf s
    → dispatch s c rest behind ≡ some r
    → GoesOn r
unfolding dispatch
dispatch-GoesOn {s} c rest behind w e = elim (Bool-cases (c == 0x1b)) [
  | inl esc ↦ escape-GoesOn rest behind (s.cur % s.cols) w (mod-lt s.cur w.some_cols) (rw esc at e)
  | inr plain ↦
      let (t, et, f) = put_code_returns c (s.cur % s.cols) w in
      leave-GoesOn 0 behind (t, et, f.0) (rw plain at e)
]

wide_round-GoesOn :
    {s : Screen} (pos : ℕ) (rest : List ℕ) (decoded : Option (ℕ × List ℕ)) {r : Round}
    → IsWf s
    → wide_round s pos rest decoded ≡ some r
    → GoesOn r
unfolding wide_round
wide_round-GoesOn pos rest (some (c, behind)) w e = dispatch-GoesOn c rest behind w e
wide_round-GoesOn pos rest none w e = elim (Bool-cases (ltb 8 pos)) [
  | inl far ↦ stop-GoesOn (rw far at e)
  | inr near ↦ dispatch-GoesOn 0xfffd rest rest w (rw near at e)
]

append_round-GoesOn :
    {s : Screen} (pos a : ℕ) (rest : List ℕ) {r : Round}
    → IsWf s
    → append_round s pos a rest ≡ some r
    → GoesOn r
unfolding append_round
append_round-GoesOn {s} pos a rest w =
    from_either s.utf8 _ _ (wide_round-GoesOn pos rest (utf8_to_ucs2 (a ∷ rest)) w)
      (dispatch-GoesOn a rest rest w)

-- How the loop goes on behind a round, and what is known of the rounds to come.
behind_round :
    (s : Screen) (pos : ℕ) (bytes : List ℕ) (go : ℕ → Screen → List ℕ → Option (Screen × List ℕ))
    → (out : Screen × List ℕ)
    → ((p : ℕ) (t : Screen) (l : List ℕ) → IsWf t → go p t l ≡ some out → IsWf out.0)
    → (r : Round) → IsWf s
    → GoesOn r
    → after_round go s pos bytes r ≡ some out
    → IsWf out.0
unfolding after_round
behind_round s pos bytes go out ih stop w g e =
    let i : (s, bytes) ≡ out = cc in subst (λ (o : Screen × List ℕ). IsWf o.0) i w
behind_round s pos bytes go out ih (next t l) w g e = ih (pos + (length bytes - length l)) t l g e

append_loop-IsWf :
    (fuel pos : ℕ) (s : Screen) (bytes : List ℕ) {out : Screen × List ℕ}
    → IsWf s
    → append_loop fuel pos s bytes ≡ some out
    → IsWf out.0
unfolding append_loop
append_loop-IsWf zero pos s bytes {out} w e =
    let i : (s, bytes) ≡ out = cc in subst (λ (o : Screen × List ℕ). IsWf o.0) i w
append_loop-IsWf (suc fuel) pos s [] {out} w e =
    let i : (s, []) ≡ out = cc in subst (λ (o : Screen × List ℕ). IsWf o.0) i w
append_loop-IsWf (suc fuel) pos s (a ∷ rest) {out} w e =
    let (r, er, e₁) = >>=-eq-some (append_round s pos a rest) _ e in
    behind_round s pos (a ∷ rest) (append_loop fuel) out
      (λ p t l w' e'. append_loop-IsWf fuel p t l w' e') r w (append_round-GoesOn pos a rest w er)
      e₁

-- Whatever bytes the shell writes, if `page_append` takes them in with no fault, a well-formed
-- screen stays well formed.
pub page_append-IsWf :
    (s : Screen) (bytes : List ℕ) {out : Screen × List ℕ}
    → IsWf s
    → page_append s bytes ≡ some out
    → IsWf out.0
unfolding page_append
page_append-IsWf s bytes w e = append_loop-IsWf (length bytes) 0 s bytes w e
