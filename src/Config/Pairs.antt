-- ===== src/Config/Pairs.antt =====
-- config.c: how a line `key=value` is read.
use kindle_myts.Base.{
  ℕ, suc, ◌+◌, ◌≡◌, refl, ap, ◌∙◌, arith, Bool, true, false, not, ◌&&◌, ◌||◌, List, [], ◌∷◌, ◌++◌,
  Option, none, some, ◌==◌, length, take, drop, take_all, take-length, drop-length,
}
use kindle_myts.Config.{
  Include, Parser, next, add_pair, same_bytes, include_key, trimmed_line, parse_line, key_line,
  value_line,
}
use kindle_myts.Config.Text.{
  skipws, trimws, trim_loop, parse_name, name_length, to_equals, to_end, is_space, is_quote,
}

-- a byte with no meaning of its own in a line
abbrev pub is_plain : ℕ → Bool
is_plain c =
    not (is_space c)
    && not (is_quote c)
    && not (c == 92)
    && not (c == b';')
    && not (c == b'#')
    && not (c == b'=')
    && not (c == b'[')

abbrev pub IsPlain : List ℕ → Type 0
IsPlain [] = Unit
IsPlain (c ∷ cs) = (is_plain c ≡ true) × IsPlain cs

-- a byte that `trimws` keeps
abbrev is_kept : ℕ → Bool
is_kept c = is_plain c || c == b'='

abbrev IsKept : List ℕ → Type 0
IsKept [] = Unit
IsKept (c ∷ cs) = (is_kept c ≡ true) × IsKept cs

IsPlain-IsKept : (xs : List ℕ) → IsPlain xs → IsKept xs
IsPlain-IsKept [] p = tt
IsPlain-IsKept (c ∷ cs) (p, ps) = (rw p refl, IsPlain-IsKept cs ps)

IsKept-join : (xs ys : List ℕ) → IsKept xs → IsKept ys → IsKept (xs ++ ys)
IsKept-join [] ys p q = q
IsKept-join (c ∷ cs) ys (p, ps) q = (p, IsKept-join cs ys ps q)

trim_loop-kept : (at : ℕ) (xs : List ℕ) → IsKept xs → trim_loop false none at xs ≡ at + length xs
unfolding trim_loop
trim_loop-kept at [] p = omega arith
trim_loop-kept at (c ∷ []) (p, ps) = ground arith
trim_loop-kept at (c ∷ d ∷ cs) (p, ps) =
    let ih = trim_loop-kept (at + 1) (d ∷ cs) ps in ground arith

trimws-kept : (xs : List ℕ) → IsKept xs → trimws xs ≡ xs
unfolding trimws
trimws-kept xs p = rw (trim_loop-kept 0 xs p) (take_all (0 + length xs) xs (omega arith))

skipws-kept : (c : ℕ) (cs : List ℕ) → is_kept c ≡ true → skipws (c ∷ cs) ≡ c ∷ cs
unfolding skipws
skipws-kept c cs p = ground arith

key_length :
    (key val : List ℕ) → IsPlain key → name_length to_equals (key ++ (b'=' ∷ val)) ≡ length key
unfolding name_length
key_length [] [] p = refl
key_length [] (d ∷ val) p = refl
key_length (c ∷ []) val (p, ps) = let ih = key_length [] val tt in ground arith
key_length (c ∷ d ∷ cs) val (p, ps) = let ih = key_length (d ∷ cs) val ps in ground arith

value_length : (val : List ℕ) → IsPlain val → name_length to_end val ≡ length val
unfolding name_length
value_length [] p = refl
value_length (c ∷ []) (p, ps) = ground arith
value_length (c ∷ d ∷ cs) (p, ps) = let ih = value_length (d ∷ cs) ps in ground arith

drop_behind : (xs ys : List ℕ) (y : ℕ) → drop (length xs + 1) (xs ++ (y ∷ ys)) ≡ ys
drop_behind [] ys y = refl
drop_behind (x ∷ xs) ys y =
    let e : suc (length xs) + 1 ≡ suc (length xs + 1) = omega arith in rw e (drop_behind xs ys y)

drop_past : (xs : List ℕ) → drop (length xs + 1) xs ≡ []
drop_past [] = refl
drop_past (x ∷ xs) =
    let e : suc (length xs) + 1 ≡ suc (length xs + 1) = omega arith in rw e (drop_past xs)

IsPlain-first : (c : ℕ) → is_plain c ≡ true → is_kept c ≡ true
IsPlain-first c p = rw p refl

abbrev found : List ℕ → List ℕ → Option (List ℕ × List ℕ)
found name rest = some (name, rest)

pair_path : {a b c d : List ℕ} → a ≡ b → c ≡ d → found a c ≡ found b d
pair_path {b = b} {c = c} p q = ap (λ x. found x c) p ∙ ap (λ y. found b y) q

read_key :
    (c : ℕ) (cs val : List ℕ)
    → IsPlain (c ∷ cs)
    → parse_name true (c ∷ cs ++ (b'=' ∷ val)) ≡ some (c ∷ cs, val)
unfolding parse_name trimws
read_key c cs val p =
    let key = c ∷ cs in
    let whole = skipws-kept c (cs ++ (b'=' ∷ val)) (IsPlain-first c p.0) in
    let l = key_length key val p in
    let behind = drop-length key (b'=' ∷ val) in
    let name : trimws (take (length key) (key ++ (b'=' ∷ val))) ≡ key =
      ap trimws (take-length key (b'=' ∷ val)) ∙ trimws-kept key (IsPlain-IsKept key p) in
    rw whole (rw l (rw behind (pair_path name (drop_behind key val b'='))))

read_value :
    (d : ℕ) (ds : List ℕ) → IsPlain (d ∷ ds) → parse_name false (d ∷ ds) ≡ some (d ∷ ds, [])
unfolding parse_name trimws
read_value d ds p =
    let val = d ∷ ds in
    let whole = skipws-kept d ds (IsPlain-first d p.0) in
    let l = value_length val p in
    let name : trimws (take (length val) val) ≡ val =
      ap trimws (take_all (length val) val (omega arith))
      ∙ trimws-kept val (IsPlain-IsKept val p) in
    rw whole (rw l (pair_path name (drop_past val)))

read_pair :
    (include : Include) (p : Parser) (key val : List ℕ)
    → same_bytes key include_key ≡ false
    → value_line include p key (some (val, [])) ≡ next (add_pair p [] key val)
unfolding value_line
read_pair include p key val other = rw other refl

comment_free : (c : ℕ) → is_plain c ≡ true → (c == b';' || c == b'#') ≡ false
comment_free c p = ground arith

bracket_free : (c : ℕ) → is_plain c ≡ true → (c == b'[') ≡ false
bracket_free c p = ground arith

-- A line of a key, '=' and a value, both not empty and of bytes that are no blanks, quotes, escapes,
-- comments, brackets or '=', is read as this pair, unless the key is `include`.
pub parse_line_pair :
    (include : Include) (p : Parser) (c : ℕ) (cs : List ℕ) (d : ℕ) (ds : List ℕ)
    → IsPlain (c ∷ cs)
    → IsPlain (d ∷ ds)
    → same_bytes (c ∷ cs) include_key ≡ false
    → parse_line include p (c ∷ cs ++ (b'=' ∷ d ∷ ds))
      ≡ some (next (add_pair p [] (c ∷ cs) (d ∷ ds)))
unfolding parse_line trimmed_line key_line value_line
parse_line_pair include p c cs d ds key val other =
    let first = IsPlain-first c key.0 in
    let rest = cs ++ (b'=' ∷ d ∷ ds) in
    let kept : IsKept (c ∷ rest) =
      IsKept-join (c ∷ cs) (b'=' ∷ d ∷ ds) (IsPlain-IsKept (c ∷ cs) key)
        (refl, IsPlain-IsKept (d ∷ ds) val) in
    let no_comment : (c == b';' || c == b'#') ≡ false = comment_free c key.0 in
    let no_section : (c == b'[') ≡ false = bracket_free c key.0 in
    rw (skipws-kept c rest first) (
      rw (trimws-kept (c ∷ rest) kept) (
        rw no_comment (
          rw no_section (
            rw (read_key c cs (d ∷ ds) key) (
              ap (λ o. some (value_line include p (c ∷ cs) o)) (read_value d ds val)
              ∙ ap some (read_pair include p (c ∷ cs) (d ∷ ds) other))))))
