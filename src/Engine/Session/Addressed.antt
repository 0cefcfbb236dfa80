-- ===== src/Engine/Session/Addressed.antt =====
-- terminal/ansi_parser.hpp: ESC [ row ; column H, from its bytes to the cursor.
use kindle_myts.Base.{
  ℕ, zero, suc, ◌+◌, ◌-◌, ◌*◌, ◌<◌, ◌≡◌, refl, ap, ◌∙◌, arith, true, false, List, [], ◌∷◌, ◌++◌,
  some, ◌>>=◌, ◌==◌, get_elem?, Returns, append_assoc, append_nil, int_limit, lt→ltb,
}
use kindle_myts.Base.Int.{ℤ, pos}
use kindle_myts.Terminal.Csi.Params.{is_digit, digits_from}
use kindle_myts.Engine.Session.{Session, ground_state, csi, from_one, within, on_cursor_move}
use kindle_myts.Engine.Parser.{
  atoi, first_part, second_part, execute_csi, csi_byte, feed_byte, feed,
}
use kindle_myts.Engine.Session.Marks.{mark_row_dirty-Marks}
use kindle_myts.Engine.Session.Invariant.{IsWf, IsWf-parse}
use kindle_myts.Engine.Session.Contents.{Holds}

-- the number that decimal digits stand for, read on from `acc`
unfoldable pub decimal : ℕ → List ℕ → ℕ
decimal acc [] = acc
decimal acc (c ∷ cs) = decimal (acc * 10 + (c - b'0')) cs

unfoldable pub AllDigits : List ℕ → Type 0
AllDigits [] = Unit
AllDigits (c ∷ cs) = (is_digit c ≡ true) × AllDigits cs

digits_from-decimal :
    (acc : ℕ) (ds : List ℕ) → AllDigits ds → (digits_from acc ds).0 ≡ decimal acc ds
unfolding digits_from decimal AllDigits
digits_from-decimal acc [] h = refl
digits_from-decimal acc (c ∷ cs) (d, h) = rw d (digits_from-decimal (acc * 10 + (c - b'0')) cs h)

digit_no_separator : (c : ℕ) → is_digit c ≡ true → (c == b';') ≡ false
digit_no_separator c h = ground arith

first_part_digits : (ds rest : List ℕ) → AllDigits ds → first_part (ds ++ (b';' ∷ rest)) ≡ ds
unfolding first_part AllDigits
first_part_digits [] rest h = refl
first_part_digits (c ∷ cs) rest (d, h) =
    rw (digit_no_separator c d) (ap (◌∷◌ c) (first_part_digits cs rest h))

second_part_digits : (ds rest : List ℕ) → AllDigits ds → second_part (ds ++ (b';' ∷ rest)) ≡ rest
unfolding second_part AllDigits
second_part_digits [] rest h = refl
second_part_digits (c ∷ cs) rest (d, h) = rw (digit_no_separator c d) (second_part_digits cs rest h)

on_cursor_move-Holds :
    (row col : ℤ) (s : Session)
    → IsWf s
    → Returns
        (on_cursor_move row col s)
        (Holds (get_elem? s.cells) (within (from_one row) s.rows) (within (from_one col) s.cols) s)
unfolding on_cursor_move
on_cursor_move-Holds row col s w =
    let (d, e, m) = mark_row_dirty-Marks s.cursor_row s w.dirty_len in
    let (d', e', m') =
      mark_row_dirty-Marks (within (from_one row) s.rows)
        (record s {
          dirty_rows = d;
          cursor_row = within (from_one row) s.rows;
          cursor_col = within (from_one col) s.cols;
        })
        (m.kept_len ∙ w.dirty_len) in
    rw e (
      _,
      e',
      record {
        cells_at = λ i. refl;
        row_at = refl;
        col_at = refl;
        same_cols = refl;
        same_rows = refl;
      },
    )

from_one-pos : (n : ℕ) → from_one (pos n) ≡ n - 1
from_one-pos zero = refl
from_one-pos (suc n) = omega arith

module _ (too_large : ℕ → ℤ) where
  -- digits go into the buffer
  feed_digits :
      (ds rest buf : List ℕ) (s : Session)
      → AllDigits ds
      → feed too_large (ds ++ rest) (record s { state = csi; param_buf = buf })
        ≡ feed too_large rest (record s { state = csi; param_buf = buf ++ ds })
  unfolding feed feed_byte csi_byte AllDigits
  feed_digits [] rest buf s h = rw (append_nil buf) refl
  feed_digits (c ∷ cs) rest buf s (d, h) = rw d (
      feed_digits cs rest (buf ++ (c ∷ [])) s h
      ∙ ap (λ b. feed too_large rest (record s { state = csi; param_buf = b }))
          (append_assoc buf (c ∷ []) cs))

  atoi-decimal :
      (ds : List ℕ)
      → AllDigits ds
      → decimal 0 ds < int_limit
      → atoi too_large ds ≡ pos (decimal 0 ds)
  unfolding atoi
  atoi-decimal ds h fits = rw (digits_from-decimal 0 ds h) (rw (lt→ltb _ _ fits) refl)

  -- the parameters gathered, and the letter
  execute_address :
      (ds es : List ℕ) (s : Session)
      → IsWf s
      → AllDigits ds
      → AllDigits es
      → decimal 0 ds < int_limit
      → decimal 0 es < int_limit
      → Returns
          (execute_csi too_large b'H' (record s { state = csi; param_buf = ds ++ (b';' ∷ es) }))
          (Holds
            (get_elem? s.cells)
            (within (decimal 0 ds - 1) s.rows)
            (within (decimal 0 es - 1) s.cols)
            s)
  unfolding execute_csi
  execute_address ds es s w h k fits fits' =
      let (t, e, p) =
        on_cursor_move-Holds (pos (decimal 0 ds)) (pos (decimal 0 es))
          (record s { state = csi; param_buf = ds ++ (b';' ∷ es) })
          (IsWf-parse csi (ds ++ (b';' ∷ es)) w) in
      rw
        (
          first_part_digits ds es h,
          second_part_digits ds es h,
          atoi-decimal ds h fits,
          atoi-decimal es k fits',
        )
        (
          t,
          e,
          record {
            cells_at = p.cells_at;
            row_at = p.row_at ∙ ap (λ n. within n s.rows) (from_one-pos (decimal 0 ds));
            col_at = p.col_at ∙ ap (λ n. within n s.cols) (from_one-pos (decimal 0 es));
            same_cols = p.same_cols;
            same_rows = p.same_rows;
          },
        )

  feed_start :
      (rest : List ℕ) (s : Session)
      → s.state ≡ ground_state
      → feed too_large (0x1b ∷ b'[' ∷ rest) s
        ≡ feed too_large rest (record s { state = csi; param_buf = [] })
  unfolding feed feed_byte
  feed_start rest s ready =
      ap (λ st. feed_byte too_large st 0x1b s >>= feed too_large (b'[' ∷ rest)) ready

  -- both parameters and the separator
  feed_params :
      (ds es rest : List ℕ) (s : Session)
      → AllDigits ds
      → AllDigits es
      → feed too_large (ds ++ (b';' ∷ (es ++ rest))) (record s { state = csi; param_buf = [] })
        ≡ feed too_large rest (record s { state = csi; param_buf = ds ++ (b';' ∷ es) })
  unfolding feed feed_byte csi_byte
  feed_params ds es rest s h k =
      feed_digits ds (b';' ∷ (es ++ rest)) [] s h
      ∙ (feed_digits es rest (ds ++ (b';' ∷ [])) s k
          ∙ ap (λ b. feed too_large rest (record s { state = csi; param_buf = b }))
              (append_assoc ds (b';' ∷ []) es))

  feed_letter :
      (buf : List ℕ) (s : Session) {t : Session}
      → execute_csi too_large b'H' (record s { state = csi; param_buf = buf }) ≡ some t
      → feed too_large (b'H' ∷ []) (record s { state = csi; param_buf = buf })
        ≡ some (record t { state = ground_state; param_buf = [] })
  unfolding feed feed_byte csi_byte
  feed_letter buf s e = rw e refl

  -- ESC [ row ; column H, with numbers in decimal that an `int` holds, brings the cursor to that row and
  -- column, counted from 1 and 0 taken as 1, or to the last ones of the grid; the cells stay as they
  -- are, and the parser is ready for text.
  pub feed_address :
      (ds es : List ℕ) (s : Session)
      → IsWf s
      → s.state ≡ ground_state
      → AllDigits ds
      → AllDigits es
      → decimal 0 ds < int_limit
      → decimal 0 es < int_limit
      → Returns (feed too_large (0x1b ∷ b'[' ∷ (ds ++ (b';' ∷ (es ++ (b'H' ∷ []))))) s) (λ t.
        Holds
          (get_elem? s.cells)
          (within (decimal 0 ds - 1) s.rows)
          (within (decimal 0 es - 1) s.cols)
          s
          t
        × (t.state ≡ ground_state))
  feed_address ds es s w ready h k fits fits' =
      let (t, e, p) = execute_address ds es s w h k fits fits' in
      (
        record t { state = ground_state; param_buf = [] },
        feed_start _ s ready
            ∙ (feed_params ds es (b'H' ∷ []) s h k ∙ feed_letter (ds ++ (b';' ∷ es)) s e),
        (
          record {
            cells_at = p.cells_at;
            row_at = p.row_at;
            col_at = p.col_at;
            same_cols = p.same_cols;
            same_rows = p.same_rows;
          },
          refl,
        ),
      )
