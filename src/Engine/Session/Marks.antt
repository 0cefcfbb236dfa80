-- ===== src/Engine/Session/Marks.antt =====
-- terminal/terminal_session.hpp: what `mark_row_dirty` and `mark_rows` leave.
use kindle_myts.Base.{
  ℕ, zero, suc, ◌+◌, ◌≡◌, refl, arith, Bool, true, ◌&&◌, List, some, ltb, leb, if◌then◌else◌, inl,
  inr, Bool-cases, length, get_elem?, store, fill_lem, length-fill, get_elem?-fill, ◌∙◌, ltb→lt,
}
use kindle_myts.Engine.Session.{Session, mark_row_dirty, mark_rows}

-- The dirty flags are those before, but for `n` rows from `row` on.
pub record Marks (s : Session) (row n : ℕ) (d : List Bool) : Type 0 where
  pub kept_len : length d ≡ length s.dirty_rows
  pub flags :
      (r : ℕ)
      → get_elem? d r ≡ (
          if leb row r && (ltb r (row + n) && ltb r s.rows)
          then some true
          else get_elem? s.dirty_rows r)

pub mark_row_dirty-Marks :
    (row : ℕ) (s : Session)
    → length s.dirty_rows ≡ s.rows
    → (d : List Bool) × (mark_row_dirty row s ≡ some (record s { dirty_rows = d }))
      × Marks s row 1 d
unfolding mark_row_dirty store
mark_row_dirty-Marks row s fits = elim (Bool-cases (ltb row s.rows)) [
  | inl inside ↦
      let e = fill_lem s.dirty_rows row 1 true (omega (arith, ltb→lt row s.rows inside)) in
      (
        _,
        rw (inside, e) refl,
        record {
          kept_len = length-fill s.dirty_rows row 1 true e;
          flags = λ r. ground (arith, get_elem?-fill s.dirty_rows row 1 true r e);
        },
      )
  | inr out ↦ (s.dirty_rows, rw out refl, record { kept_len = refl; flags = λ r. ground arith })
]

pub mark_rows-Marks :
    (row n : ℕ) (s : Session)
    → length s.dirty_rows ≡ s.rows
    → (d : List Bool) × (mark_rows row n s ≡ some (record s { dirty_rows = d })) × Marks s row n d
unfolding mark_rows
mark_rows-Marks row zero s fits =
    (s.dirty_rows, refl, record { kept_len = refl; flags = λ r. ground arith })
mark_rows-Marks row (suc n) s fits =
    let (d, e, m) = mark_row_dirty-Marks row s fits in
    let (d', e', m') =
      mark_rows-Marks (row + 1) n (record s { dirty_rows = d }) (m.kept_len ∙ fits) in
    (
      d',
      rw e e',
      record {
        kept_len = m'.kept_len ∙ m.kept_len;
        flags = λ r. ground (arith, m.flags r, m'.flags r);
      },
    )
