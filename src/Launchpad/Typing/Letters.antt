-- ===== src/Launchpad/Typing/Letters.antt =====
-- launchpad.c, `process_term`: the keys of letters and digits.
use kindle_myts.Base.{
  ℕ, ◌+◌, ◌-◌, ◌%◌, ◌≤◌, ◌<◌, ◌≡◌, refl, arith, true, false, ◌||◌, List, [], ◌∷◌, some, ◌==◌,
  if◌then◌else◌, ap, ◌∙◌,
}
use kindle_myts.Launchpad.{KeyEntry, Keymap, first_byte}
use kindle_myts.Launchpad.Typing.{
  Mods, mapped_bytes, plain_byte, with_lang, plain_bytes, or_plain, key_bytes, is_silent, isalpha,
  isdigit,
}

-- The key of one character, which is neither a key held nor Home, without FN and SYM.
pub record IsPlain (km : Keymap) (m : Mods) (code : ℕ) (e : KeyEntry) (c : ℕ) : Type 0 where
  pub one_byte : e.namelen ≡ 1
  pub its_byte : first_byte e.name ≡ c
  pub not_silent : is_silent km code ≡ false
  pub not_home : (code == km.term_home) ≡ false
  pub no_fn : m.fn ≡ false
  pub no_sym : m.sym ≡ false

-- ESC before the character where LANG is held or locked
abbrev pub prefixed : Mods → ℕ → List ℕ
prefixed m c = if m.lang || m.langlock then 0x1b ∷ c ∷ [] else c ∷ []

plain_key_bytes :
    {km : Keymap} {m : Mods} {code : ℕ} {e : KeyEntry} {c : ℕ}
    → IsPlain km m code e c
    → key_bytes km m code e ≡ some (with_lang m (plain_byte m c))
unfolding key_bytes mapped_bytes or_plain plain_bytes
plain_key_bytes {km} {m} {code} {e} {c} p =
    rw (p.not_silent, p.not_home, p.no_fn, p.no_sym, p.one_byte, p.its_byte) refl

with_lang_some : (m : Mods) (c : ℕ) → 0 < c → with_lang m c ≡ prefixed m c
with_lang_some m c h = ground arith

plain_byte_letter :
    (m : Mods) (c : ℕ)
    → 97 ≤ c
    → c ≤ 122
    → plain_byte m c ≡ (if m.shift then c - 32 else if m.ctrl then c - 96 else c)
unfolding plain_byte
plain_byte_letter m c lo hi =
    let up : (c + 224) % 256 ≡ c - 32 = omega arith in
    let ctrl : (c + 160) % 256 ≡ c - 96 = omega arith in
    let alpha : isalpha c ≡ true = ground arith in rw (alpha, up, ctrl) refl

-- The key of a small letter, which is neither a key held nor Home, without FN and SYM, is the capital
-- letter with SHIFT, else the letter's control character with CTRL, else the letter, and has an
-- escape before it with LANG held or locked.
pub letter_key :
    {km : Keymap} {m : Mods} {code : ℕ} {e : KeyEntry} {c : ℕ}
    → IsPlain km m code e c
    → 97 ≤ c
    → c ≤ 122
    → key_bytes km m code e
      ≡ some (prefixed m (if m.shift then c - 32 else if m.ctrl then c - 96 else c))
letter_key {km} {m} {code} {e} {c} p lo hi =
    let byte = if m.shift then c - 32 else if m.ctrl then c - 96 else c in
    plain_key_bytes p
    ∙ ap (λ b. some (with_lang m b)) (plain_byte_letter m c lo hi)
    ∙ ap some (with_lang_some m byte (ground arith))

-- CTRL with the key of a digit, without SHIFT, FN and SYM, sends a byte from 208 to 217, which is no
-- ASCII character.
pub ctrl_digit_key :
    {km : Keymap} {m : Mods} {code : ℕ} {e : KeyEntry} {c : ℕ}
    → IsPlain km m code e c
    → 48 ≤ c
    → c ≤ 57
    → m.shift ≡ false
    → m.ctrl ≡ true
    → key_bytes km m code e ≡ some (prefixed m (208 + (c - 48)))
unfolding plain_byte
ctrl_digit_key {km} {m} {code} {e} {c} p lo hi no_shift ctrl =
    let byte : (c + 160) % 256 ≡ 208 + (c - 48) = omega arith in
    let letter : isalpha c ≡ false = ground arith in
    let digit : isdigit c ≡ true = ground arith in
    let sent : plain_byte m c ≡ 208 + (c - 48) = rw (letter, digit, no_shift, ctrl) byte in
    plain_key_bytes p
    ∙ ap (λ b. some (with_lang m b)) sent
    ∙ ap some (with_lang_some m (208 + (c - 48)) (omega arith))
