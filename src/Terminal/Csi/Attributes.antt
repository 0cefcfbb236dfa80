-- ===== src/Terminal/Csi/Attributes.antt =====
-- terminal.c, `do_csi`, case 'm': the colours in the attribute byte.
-- Over the bytes and the small arguments every value is checked.
use kindle_myts.Base.{
  ℕ, ◌+◌, ◌-◌, ◌*◌, ◌/◌, ◌%◌, ◌≤◌, ◌<◌, ◌≡◌, ◌≢◌, refl, arith, Bool, true, false, List, [], ◌∷◌,
  Option, none, some, Returns, ltb, ◌==◌, test_range, every_below, every_below_lem,
}
use native.Mathlib.Decide.{dec_lt}
use kindle_myts.Terminal.Csi.Modes.{rendition, renditions}

-- A test of the byte that a round gives, if it gives one.
abbrev tested : (ℕ → Bool) → Option ℕ → Bool
tested p none = false
tested p (some b) = p b

tested-some :
    (p : ℕ → Bool) (o : Option ℕ) → tested p o ≡ true → (b : ℕ) × (o ≡ some b) × (p b ≡ true)
tested-some p none h = cc
tested-some p (some b) h = (b, refl, h)

abbrev foreground_test : ℕ → ℕ → Bool
foreground_test attr i = tested (λ b. b == attr / 8 * 8 + (7 - i)) (rendition attr (30 + i))

abbrev background_test : ℕ → ℕ → Bool
background_test attr i =
    tested (λ b. b == attr / 64 * 64 + (7 - i) * 8 + attr % 8) (rendition attr (40 + i))

foreground_table : every_below 256 (λ attr. every_below 8 (foreground_test attr)) ≡ true
unfolding test_range rendition
foreground_table = refl

background_table : every_below 256 (λ attr. every_below 8 (background_test attr)) ≡ true
unfolding test_range rendition
background_table = refl

two_tables :
    (n m : ℕ) (p : ℕ → ℕ → Bool) (x y : ℕ)
    → every_below n (λ a. every_below m (p a)) ≡ true
    → x < n
    → y < m
    → p x y ≡ true
two_tables n m p x y h k l =
    every_below_lem m (p x) l (every_below_lem n (λ a. every_below m (p a)) k h)

-- The arguments 30 + i and 40 + i, for i below 8, put 7 - i into the foreground bits and into the
-- background bits of an attribute byte, and leave its other bits.
pub rendition_colours :
    (attr i : ℕ)
    → attr < 256
    → i < 8
    → (rendition attr (30 + i) ≡ some (attr / 8 * 8 + (7 - i)))
      × (rendition attr (40 + i) ≡ some (attr / 64 * 64 + (7 - i) * 8 + attr % 8))
rendition_colours attr i h k =
    let f =
      tested-some (λ b. b == attr / 8 * 8 + (7 - i)) (rendition attr (30 + i))
        (two_tables 256 8 foreground_test attr i foreground_table h k) in
    let b =
      tested-some (λ b. b == attr / 64 * 64 + (7 - i) * 8 + attr % 8) (rendition attr (40 + i))
        (two_tables 256 8 background_test attr i background_table h k) in
    (ground (arith, f), ground (arith, b))

abbrev six_bits_test : ℕ → ℕ → Bool
six_bits_test attr a = elim (rendition attr a) [ none ↦ true | some b ↦ ltb b 64 ]

six_bits_table : every_below 64 (λ attr. every_below 50 (six_bits_test attr)) ≡ true
unfolding test_range rendition
six_bits_table = refl

rendition_large : (attr a : ℕ) → 50 ≤ a → rendition attr a ≡ none
unfolding rendition
rendition_large attr a h = ground arith

rendition-lt : (attr a b : ℕ) → attr < 64 → rendition attr a ≡ some b → b < 64
rendition-lt attr a b h e = elim (dec_lt a 50) [
  | yes small ↦ ground (arith, two_tables 64 50 six_bits_test attr a six_bits_table h small)
  | no large ↦ cc (rendition_large attr a (omega arith))
]

-- The loop keeps the attributes within the six bits of the two colours.
pub renditions-lt : (attr : ℕ) (args : List ℕ) → attr < 64 → renditions attr args < 64
unfolding renditions
renditions-lt attr [] h = h
renditions-lt attr (a ∷ args) h = go (λ b k. renditions-lt b args k) (rendition attr a) refl
  where
    go :
        ((b : ℕ) → b < 64 → renditions b args < 64)
        → (o : Option ℕ) → rendition attr a ≡ o
        → renditions attr (a ∷ args) < 64
    go ih none e = rw (e, renditions) h
    go ih (some b) e = rw (e, renditions) (ih b (rendition-lt attr a b h e))

abbrev bold_test : ℕ → Bool
bold_test attr = tested (λ b. b / 32 % 2 == 1) (rendition attr 1)

bold_table : every_below 256 bold_test ≡ true
unfolding test_range rendition
bold_table = refl

-- Bold, argument 1, is treated as a foreground colour of 36, which sets the highest background bit
-- whatever the attributes were: where that bit was clear the background changes.
pub bold_sets_background :
    (attr : ℕ) → attr < 32 → Returns (rendition attr 1) (λ b. b / 8 ≢ attr / 8)
bold_sets_background attr h =
    let (b, e, t) =
      tested-some (λ b. b / 32 % 2 == 1) (rendition attr 1)
        (every_below_lem 256 bold_test {value = attr} (omega arith) bold_table) in
    (b, e, ground arith)
