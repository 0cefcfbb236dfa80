-- ===== src/Terminal/Decode/RoundTrip.antt =====
-- terminal.c: `utf8_to_ucs2` reads back what the encoding of UTF-8 writes for the codes that fit the
-- 16-bit cells of the page.
use kindle_myts.Base.{
  ℕ, ◌+◌, ◌*◌, ◌/◌, ◌%◌, ◌≤◌, ◌<◌, ◌≡◌, refl, ap, arith, Bool, true, false, not, ◌&&◌, ◌||◌, List,
  [], ◌∷◌, ◌++◌, some, ltb, ◌==◌, if◌then◌else◌, bit_and, test_range, every_below, every_below_lem,
  Bool-cases, inl, inr, tests,
}
use kindle_myts.Terminal.Decode.{utf8_to_ucs2, low6, three_bytes, two_bytes}

-- The standard's encoding of a code below 0x10000, in its shortest form.
unfoldable pub encode : ℕ → List ℕ
encode c =
    if ltb c 0x80
    then c ∷ []
    else if ltb c 0x800
    then (0xc0 + c / 64) ∷ (0x80 + c % 64) ∷ []
    else (0xe0 + c / 4096) ∷ (0x80 + c / 64 % 64) ∷ (0x80 + c % 64) ∷ []

-- The two tests on a lead byte, for every byte.
lead_test : ℕ → Bool
lead_test b =
    (not (bit_and b 0xe0 == 0xe0) || not (ltb b 0xe0))
    && (ltb b 0xe0 || bit_and b 0xe0 == 0xe0)
    && (ltb b 0xc0 || bit_and b 0xc0 == 0xc0)

lead_test_table : every_below 256 lead_test ≡ true
unfolding test_range lead_test
lead_test_table = refl

three_lead : (x : ℕ) → x < 16 → (bit_and (0xe0 + x) 0xe0 == 0xe0) ≡ true
unfolding lead_test
three_lead x h =
    let t = every_below_lem 256 lead_test {value = 0xe0 + x} (omega arith) lead_test_table in
    ground arith

two_lead :
    (x : ℕ)
    → x < 32
    → ((bit_and (0xc0 + x) 0xe0 == 0xe0) ≡ false) × ((bit_and (0xc0 + x) 0xc0 == 0xc0) ≡ true)
unfolding lead_test
two_lead x h =
    let t = every_below_lem 256 lead_test {value = 0xc0 + x} (omega arith) lead_test_table in
    (ground arith, ground arith)

-- the fields of a code in two and in three bytes
fields_two : (c : ℕ) → c < 0x800 → (0xc0 + c / 64) % 32 * 64 + low6 (0x80 + c % 64) ≡ c
fields_two c h = omega arith

fields_three :
    (c : ℕ)
    → c < 0x10000
    → (0xe0 + c / 4096) % 16 * 4096 + low6 (0x80 + c / 64 % 64) * 64 + low6 (0x80 + c % 64) ≡ c
fields_three c h = omega arith

read_two :
    (c : ℕ) (rest : List ℕ)
    → 0x80 ≤ c
    → c < 0x800
    → utf8_to_ucs2 ((0xc0 + c / 64) ∷ (0x80 + c % 64) ∷ rest) ≡ some (c, rest)
unfolding utf8_to_ucs2 two_bytes
read_two c rest lo hi =
    let (not_three, is_two) = two_lead (c / 64) (omega arith) in
    let large : ltb (0xc0 + c / 64) 0x80 ≡ false = ground arith in
    rw large (rw not_three (rw is_two (ap (λ x. some (x, rest)) (fields_two c hi))))

read_three :
    (c : ℕ) (rest : List ℕ)
    → c < 0x10000
    → utf8_to_ucs2 ((0xe0 + c / 4096) ∷ (0x80 + c / 64 % 64) ∷ (0x80 + c % 64) ∷ rest)
      ≡ some (c, rest)
unfolding utf8_to_ucs2 three_bytes
read_three c rest h =
    let is_three = three_lead (c / 4096) (omega arith) in
    let large : ltb (0xe0 + c / 4096) 0x80 ≡ false = ground arith in
    rw large (rw is_three (ap (λ x. some (x, rest)) (fields_three c h)))

-- Reading what the encoding of a code writes gives the code and what stands behind it, for
-- every code from 1 to 0xffff.
pub utf8_to_ucs2-encode :
    (c : ℕ) (rest : List ℕ) → 0 < c → c < 0x10000 → utf8_to_ucs2 (encode c ++ rest) ≡ some (c, rest)
unfolding utf8_to_ucs2 encode
utf8_to_ucs2-encode c rest nonzero h = elim (Bool-cases (ltb c 0x80)) [
  | inl one ↦ rw one (rw one refl)
  | inr more ↦ elim (Bool-cases (ltb c 0x800)) [
    | inl two ↦ rw more (rw two (read_two c rest (omega tests) (omega tests)))
    | inr three ↦ rw more (rw three (read_three c rest h))
  ]
]
