-- ===== src/Terminal/Append/Wide.antt =====
-- terminal.c: `page_append` on UTF-8 text with no escapes.
use kindle_myts.Base.{
  ℕ, zero, suc, ◌+◌, ◌-◌, ◌%◌, ◌/◌, ◌≤◌, ◌<◌, ◌≡◌, ◌≢◌, refl, ap, sym, arith, true, List, [], ◌∷◌,
  ◌++◌, some, ◌∙◌, Returns, length, length-append, ltb, Bool-cases, inl, inr,
}
use mathlib.Core.Path.{subst}
use kindle_myts.Terminal.{Screen, IsWf}
use kindle_myts.Terminal.Append.{
  next, skip, leave, dispatch, append_round, wide_round, after_round, append_loop, page_append,
}
use kindle_myts.Terminal.Decode.{utf8_to_ucs2}
use kindle_myts.Terminal.Decode.RoundTrip.{encode, utf8_to_ucs2-encode}
use kindle_myts.Terminal.Glyph.Safety.{IsFine, put_code_returns}

-- the bytes of a text
unfoldable pub encode_all : List ℕ → List ℕ
unfolding encode
encode_all [] = []
encode_all (c ∷ cs) = encode c ++ encode_all cs

-- Every code fits a cell and is neither NUL nor ESC.
abbrev pub HasCells : List ℕ → Type 0
HasCells [] = Unit
HasCells (c ∷ cs) = ((0 < c) × (c < 0x10000) × (c ≢ 0x1b)) × HasCells cs

-- An encoding has a first byte.
encode_first : (c : ℕ) → (a : ℕ) × (behind : List ℕ) × (encode c ≡ a ∷ behind)
unfolding encode
encode_first c = elim (Bool-cases (ltb c 0x80)) [
  | inl one ↦ (c, [], rw one refl)
  | inr more ↦ elim (Bool-cases (ltb c 0x800)) [
    | inl two ↦ (0xc0 + c / 64, (0x80 + c % 64) ∷ [], rw more (rw two refl))
    | inr three ↦
        (0xe0 + c / 4096, (0x80 + c / 64 % 64) ∷ (0x80 + c % 64) ∷ [], rw more (rw three refl))
  ]
]

code_round :
    {s : Screen} (pos c a : ℕ) (rest more : List ℕ)
    → IsWf s
    → s.utf8 ≡ true
    → utf8_to_ucs2 (a ∷ rest) ≡ some (c, more)
    → c ≢ 0x1b
    → (t : Screen) × (append_round s pos a rest ≡ some (next t more)) × IsFine s t
unfolding append_round wide_round dispatch leave skip
code_round {s} pos c a rest more w wide e plain =
    let (t, et, f) = put_code_returns c (s.cur % s.cols) w in
    let no_escape : append_round s pos a rest ≡ some (next t more) =
      rw wide (rw e (ground (arith, et))) in
    (t, no_escape, f)

loop_step :
    (fuel pos : ℕ) (s t : Screen) (a : ℕ) (rest more : List ℕ) {out : Screen × List ℕ}
    → append_round s pos a rest ≡ some (next t more)
    → append_loop fuel (pos + (suc (length rest) - length more)) t more ≡ some out
    → append_loop (suc fuel) pos s (a ∷ rest) ≡ some out
unfolding append_loop after_round
loop_step fuel pos s t a rest more e e' = rw e e'

wide_loop :
    (fuel pos : ℕ) {s : Screen} (codes : List ℕ)
    → IsWf s
    → s.utf8 ≡ true
    → HasCells codes
    → length (encode_all codes) ≤ fuel
    → Returns (append_loop fuel pos s (encode_all codes)) (λ out. IsWf out.0 × (out.1 ≡ []))
unfolding append_loop encode_all
wide_loop zero pos {s} [] w wide h enough = ((s, []), refl, (w, refl))
wide_loop (suc fuel) pos {s} [] w wide h enough = ((s, []), refl, (w, refl))
wide_loop zero pos {s} (c ∷ cs) w wide h enough =
    let (a, behind, ea) = encode_first c in
    let none_left : length (a ∷ behind ++ encode_all cs) ≤ 0 =
      subst (λ l. length (l ++ encode_all cs) ≤ 0) ea enough in
    absurd (omega arith)
wide_loop (suc fuel) pos {s} (c ∷ cs) w wide h enough =
    let (a, behind, ea) = encode_first c in
    let more = encode_all cs in
    let read : utf8_to_ucs2 (a ∷ behind ++ more) ≡ some (c, more) =
      ap (λ l. utf8_to_ucs2 (l ++ more)) (sym ea) ∙ utf8_to_ucs2-encode c more h.0.0 h.0.1 in
    let (t, e, f) = code_round pos c a (behind ++ more) more w wide read h.0.2 in
    let len : suc (length (behind ++ more)) ≤ suc fuel =
      subst (λ l. length (l ++ more) ≤ suc fuel) ea enough in
    let (out, e', g) =
      wide_loop fuel (pos + (suc (length (behind ++ more)) - length more)) cs f.0 (f.1 ∙ wide) h.1
        (omega (arith, length-append behind more)) in
    (
      out,
      ap (λ l. append_loop (suc fuel) pos s (l ++ more)) ea
          ∙ loop_step fuel pos s t a (behind ++ more) more e e',
      g,
    )

-- In the mode of UTF-8 a text of encoded codes below 0x10000, none of them NUL or ESC, is taken in
-- whole and with no fault, wherever the cursor stands, and leaves a well-formed screen well formed.
pub page_append_wide :
    {s : Screen} (codes : List ℕ)
    → IsWf s
    → s.utf8 ≡ true
    → HasCells codes
    → Returns (page_append s (encode_all codes)) (λ out. IsWf out.0 × (out.1 ≡ []))
unfolding page_append
page_append_wide codes w wide h =
    wide_loop (length (encode_all codes)) 0 codes w wide h (omega arith)
