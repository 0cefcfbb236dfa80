-- ===== src/Launchpad/Typing/Bounds.antt =====
-- launchpad.c, `process_term`: the string of a key fits its buffer.
use kindle_myts.Base.{
  ℕ, suc, ◌≤◌, ◌<◌, ◌≡◌, refl, arith, Bool, true, false, ◌&&◌, List, [], ◌∷◌, Option, none, some,
  ◌==◌, if◌then◌else◌, length, Returns, returns_if, returns_either, returns_bind, from_either,
  >>=-eq-some, inl, inr, Bool-cases, get_elem?_in, ==_false→ne,
}
use kindle_myts.Launchpad.{KeyEntry, Keymap, e_is, first_byte}
use kindle_myts.Launchpad.Typing.{
  Mods, fnk, backtab, find_fnk, fn_bytes, sym_keys, place, byte_string, symbol_at, mapped_symbol,
  sym_bytes, mapped_bytes, plain_byte, with_lang, plain_bytes, or_plain, key_bytes, escape_bracket,
  is_silent, enter, space, del, up, down, right, left,
}

-- The longest string is that of a function key.
abbrev pub IsShort : List ℕ → Type 0
IsShort k = length k ≤ 5

IsShort-if : (b : Bool) (k l : List ℕ) → IsShort k → IsShort l → IsShort (if b then k else l)
IsShort-if true k l p q = p
IsShort-if false k l p q = q

backtab-IsShort : (shift : Bool) (k : List ℕ) → IsShort k → IsShort (backtab shift k)
unfolding backtab
backtab-IsShort shift [] h = h
backtab-IsShort shift (c ∷ cs) h =
    IsShort-if (c == 9 && shift) (escape_bracket (b'Z' ∷ [])) (c ∷ cs) (omega arith) h

AreShort : List (ℕ × List ℕ) → Type 0
AreShort [] = Unit
AreShort ((key, bytes) ∷ table) = IsShort bytes × AreShort table

find_fnk-IsShort : (table : List (ℕ × List ℕ)) (c : ℕ) → AreShort table → IsShort (find_fnk table c)
unfolding find_fnk AreShort
find_fnk-IsShort [] c h = omega arith
find_fnk-IsShort ((key, bytes) ∷ table) c (h, rest) =
    IsShort-if (key == c) bytes (find_fnk table c) h (find_fnk-IsShort table c rest)

fnk-AreShort : AreShort fnk
unfolding AreShort
fnk-AreShort = search (arith)

byte_string-IsShort : (c : ℕ) → IsShort (byte_string c)
byte_string-IsShort c = IsShort-if (c == 0) [] (c ∷ []) (omega arith) (omega arith)

place-lt : (keys : List ℕ) (c : ℕ) {i : ℕ} → place keys c ≡ some i → i < length keys
unfolding place
place-lt [] c {i} e = cc
place-lt (k ∷ keys) c {i} e =
    from_either (k == c) _ _ (λ e. let z : 0 ≡ i = cc in omega (arith, z))
      (λ e.
        let (j, ej, e₁) = >>=-eq-some (place keys c) (λ j. some (suc j)) e in
        let z : suc j ≡ i = cc in omega (arith, z, place-lt keys c ej))
      e

symbol_at_returns :
    (symbols : List ℕ) (i : ℕ) → i ≤ length symbols → (s : ℕ) × (symbol_at symbols i ≡ some s)
unfolding symbol_at
symbol_at_returns symbols i h = elim (Bool-cases (i == length symbols)) [
  | inl end ↦ (0, rw end refl)
  | inr inner ↦
      let (s, e) = get_elem?_in symbols i (ground (arith, ==_false→ne i (length symbols) inner)) in
      (s, rw (inner, e) refl)
]

mapped_symbol_returns :
    (km : Keymap) (m : Mods) (c : ℕ) (found : Option ℕ)
    → ((i : ℕ) → found ≡ some i → i ≤ length km.symbols)
    → Returns (mapped_symbol km m c found) IsShort
unfolding mapped_symbol
mapped_symbol_returns km m c none h = (byte_string c, refl, byte_string-IsShort c)
mapped_symbol_returns km m c (some i) h =
    let (s, e) = symbol_at_returns km.symbols i (h i refl) in
    (
      backtab m.shift (byte_string s),
      rw e refl,
      backtab-IsShort m.shift (byte_string s) (byte_string-IsShort s),
    )

found_in :
    (km : Keymap) (c : ℕ) (i : ℕ)
    → 27 ≤ length km.symbols
    → (if c == 0 then none else place sym_keys c) ≡ some i
    → i ≤ length km.symbols
found_in km c i h =
    from_either (c == 0) none (place sym_keys c) (λ e. cc)
      (λ e. omega (arith, h, place-lt sym_keys c e))

sym_bytes_returns :
    (km : Keymap) (m : Mods) (e : KeyEntry)
    → 27 ≤ length km.symbols
    → Returns (sym_bytes km m e) IsShort
unfolding sym_bytes
sym_bytes_returns km m e h =
    let c = if e.namelen == 1 then first_byte e.name else if e_is e del then b'D' else 0 in
    mapped_symbol_returns km m c (if c == 0 then none else place sym_keys c)
      (λ i found. found_in km c i h found)

some-IsShort : (k : List ℕ) → IsShort k → Returns (some k) IsShort
some-IsShort k h = (k, refl, h)

mapped_bytes_returns :
    (km : Keymap) (m : Mods) (code : ℕ) (e : KeyEntry)
    → 27 ≤ length km.symbols
    → Returns (mapped_bytes km m code e) IsShort
unfolding mapped_bytes fn_bytes
mapped_bytes_returns km m code e h =
    let c = if e.namelen == 1 then first_byte e.name else if e_is e del then b'D' else b' ' in
    let mapped = find_fnk fnk c in
    returns_if IsShort (is_silent km code) [] _ (omega arith) (
      returns_if IsShort (code == km.term_home) _ _
        (IsShort-if m.shift (0x1b ∷ b'O' ∷ b'F' ∷ []) (0x1b ∷ b'O' ∷ b'H' ∷ []) (omega arith)
          (omega arith))
        (returns_if IsShort m.fn (backtab m.shift mapped) _
          (backtab-IsShort m.shift mapped (find_fnk-IsShort fnk c fnk-AreShort))
          (returns_either IsShort m.sym _ _ (sym_bytes_returns km m e h)
            (some-IsShort [] (omega arith)))))

with_lang-IsShort : (m : Mods) (c : ℕ) → IsShort (with_lang m c)
with_lang-IsShort m c = ground arith

paged_IsShort :
    (shift : Bool) (c d : ℕ) → IsShort (escape_bracket (if shift then c ∷ b'~' ∷ [] else d ∷ []))
paged_IsShort shift c d = ground arith

plain_bytes-IsShort :
    (km : Keymap) (m : Mods) (code : ℕ) (e : KeyEntry) → IsShort (plain_bytes km m code e)
unfolding plain_bytes
plain_bytes-IsShort km m code e =
    IsShort-if (e.namelen == 1) _ _ (with_lang-IsShort m (plain_byte m (first_byte e.name))) (
      IsShort-if (e_is e enter) _ _ (omega arith) (
        IsShort-if (code == km.term_esc) _ _ (omega arith) (
          IsShort-if (e_is e space) _ _ (omega arith) (
            IsShort-if (e_is e del) _ _ (omega arith) (
              IsShort-if (e_is e up) _ _ (paged_IsShort m.shift b'5' b'A') (
                IsShort-if (e_is e down) _ _ (paged_IsShort m.shift b'6' b'B') (
                  IsShort-if (e_is e right) _ _ (omega arith)
                    (IsShort-if (e_is e left) _ _ (omega arith) (omega arith)))))))))

or_plain-IsShort :
    (km : Keymap) (m : Mods) (code : ℕ) (e : KeyEntry) (k : List ℕ)
    → IsShort k
    → IsShort (or_plain km m code e k)
unfolding or_plain
or_plain-IsShort km m code e [] h = plain_bytes-IsShort km m code e
or_plain-IsShort km m code e (c ∷ cs) h = h

-- Where `symbols` has at least 27 bytes, every key, with whatever keys are held, has a string, of at
-- most 5 bytes, so that it and its NUL fit the 16 bytes of `k`.
pub key_bytes_returns :
    (km : Keymap) (m : Mods) (code : ℕ) (e : KeyEntry)
    → 27 ≤ length km.symbols
    → Returns (key_bytes km m code e) (λ k. length k ≤ 5)
unfolding key_bytes
key_bytes_returns km m code e h =
    returns_bind IsShort IsShort (mapped_bytes km m code e) (λ k. some (or_plain km m code e k))
      (mapped_bytes_returns km m code e h)
      (λ k short. some-IsShort (or_plain km m code e k) (or_plain-IsShort km m code e k short))
