-- ===== src/Terminal/Csi/Params.antt =====
-- terminal.c, `do_csi`: the parameters of a control sequence.
use kindle_myts.Base.{
  ℕ, ◌+◌, ◌-◌, ◌*◌, Bool, ◌&&◌, ◌||◌, List, [], ◌∷◌, Option, none, some, leb, ◌==◌, if◌then◌else◌,
}

abbrev pub is_digit : ℕ → Bool
is_digit c = leb b'0' c && leb c b'9'

-- `index("<=>?", c)`
abbrev pub is_private : ℕ → Bool
is_private c = leb b'<' c && leb c b'?'

-- `index("0123456789;", c)`
abbrev pub is_param : ℕ → Bool
is_param c = is_digit c || c == b';'

-- `n`, the number of conversions of `sscanf`, and its three targets
pub record Args : Type 0 where
  pub n : ℕ
  pub a1 : ℕ
  pub a2 : ℕ
  pub a3 : ℕ

-- a decimal number read on from `acc`, and what follows it
unfoldable pub digits_from : ℕ → List ℕ → ℕ × List ℕ
digits_from acc [] = (acc, [])
digits_from acc (c ∷ cs) =
    let more = digits_from (acc * 10 + (c - b'0')) cs in if is_digit c then more else (acc, c ∷ cs)

-- one `%d`, on a text that begins with no blank and no sign
unfoldable pub scan_int : List ℕ → Option (ℕ × List ℕ)
unfolding digits_from
scan_int [] = none
scan_int (c ∷ cs) = if is_digit c then some (digits_from 0 (c ∷ cs)) else none

-- `;%d`
unfoldable pub scan_next : List ℕ → Option (ℕ × List ℕ)
unfolding scan_int
scan_next [] = none
scan_next (c ∷ cs) = if c == b';' then scan_int cs else none

abbrev no_args : Args
no_args = record { n = 0; a1 = 1; a2 = 1; a3 = 1 }

-- `sscanf(base, "%d;%d;%d", &a1, &a2, &a3)`, the targets set to 1 before
unfoldable pub scan_args : List ℕ → Args
unfolding scan_next
scan_args base = elim (scan_int base) [
  | none ↦ no_args
  | some (x, r) ↦ elim (scan_next r) [
    | none ↦ record { n = 1; a1 = x; a2 = 1; a3 = 1 }
    | some (y, r') ↦ elim (scan_next r') [
      | none ↦ record { n = 2; a1 = x; a2 = y; a3 = 1 }
      | some (z, r'') ↦ record { n = 3; a1 = x; a2 = y; a3 = z }
    ]
  ]
]

-- `for (parm = base; *parm && index("0123456789;", *parm); parm++)`: the parameters, and the rest
unfoldable pub span_params : List ℕ → List ℕ × List ℕ
span_params [] = ([], [])
span_params (c ∷ cs) =
    let (ps, rest) = span_params cs in if is_param c then (c ∷ ps, rest) else ([], c ∷ cs)
