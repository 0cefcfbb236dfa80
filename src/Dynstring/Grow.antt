-- ===== src/Dynstring/Grow.antt =====
-- dynstring.c: valid strings, and the growth of their blocks.
use kindle_myts.Base.{
  ℕ, ◌≤◌, ◌<◌, ◌≡◌, refl, arith, false, List, Option, none, some, ◌>>=◌, >>=-eq-some, length,
  get_elem?, get_elem?-take, ltb, Bool-cases, inl, inr, tests,
}
use mathlib.Core.Path.{subst}
use kindle_myts.Dynstring.{
  Dynstr, Allocator, ds_readonly, contents, ds_data, ds_len, larger, make_space, ensure,
}

-- What the C library promises of `realloc`: the block has the new size, and the bytes that both
-- blocks have are kept.
pub record IsAllocator (m : Allocator) : Type 0 where
  pub resized : (xs ys : List ℕ) (n : ℕ) → m.realloc xs n ≡ some ys → length ys ≡ n
  pub kept :
      (xs ys : List ℕ) (n i : ℕ)
      → m.realloc xs n ≡ some ys
      → i < length xs
      → i < n
      → get_elem? ys i ≡ get_elem? xs i

-- A string has the bytes that `len` says, with one free for the NUL; a reference's memory has the
-- bytes that `used` says.
pub record IsSound (b : Dynstr) : Type 0 where
  pub fits : b.len ≤ length b.str
  pub room : 0 < b.len → b.used < b.len
  pub behind : b.len ≡ 0 → b.used ≤ length b.ref

-- the same of a handle: NULL is valid
abbrev pub IsValid : Option Dynstr → Type 0
IsValid none = Unit
IsValid (some b) = IsSound b

-- `c` has room for `need` bytes and the bytes of `b`.
pub record Grown (b : Dynstr) (need : ℕ) (c : Dynstr) : Type 0 where
  pub enough : need ≤ c.len
  pub whole : c.len ≤ length c.str
  pub used_eq : c.used ≡ b.used
  pub same : (i : ℕ) → i < b.used → get_elem? c.str i ≡ get_elem? (contents (some b)) i

kept_block : (b : Dynstr) (need : ℕ) → IsSound b → 0 < need → need ≤ b.len → Grown b need b
unfolding contents ds_data ds_len
kept_block b need v pos fits = record {
  enough = fits;
  whole = v.fits;
  used_eq = refl;
  same = λ i h. ground (arith, get_elem?-take b.used b.str i);
}

larger_block :
    (m : Allocator) (b : Dynstr) (need : ℕ) (str : List ℕ)
    → IsAllocator m
    → IsSound b
    → ds_readonly b ≡ false
    → b.len < need
    → m.realloc b.str (larger need) ≡ some str
    → Grown b need (record b { len = larger need; str = str })
unfolding contents ds_data ds_len
larger_block m b need str a v own more e =
    let size = a.resized b.str str (larger need) e in
    let l = larger need in
    let bigger : need ≤ l = ground arith in
    record {
      enough = bigger;
      whole = ground arith;
      used_eq = refl;
      same = λ i h.
          let room = v.room in
          let fits = v.fits in
          let owned : 0 < b.len = ground arith in
          let used_in = room owned in
          let k = a.kept b.str str l i e (omega arith) (omega arith) in
          ground (arith, get_elem?-take b.used b.str i);
    }

-- Where the block grows at all it keeps the contents and has room for what is needed.
pub ensure-Grown :
    (m : Allocator) (b : Dynstr) (need : ℕ) {c : Dynstr}
    → IsAllocator m
    → IsSound b
    → 0 < need
    → ensure m b need ≡ some c
    → Grown b need c
unfolding ensure make_space
ensure-Grown m b need {c} a v pos e = elim (Bool-cases (ltb b.len need)) [
  | inr fits ↦
      let i : b ≡ c = ground (arith, e) in
      subst (Grown b need) i (kept_block b need v pos (omega tests))
  | inl more ↦ elim (Bool-cases (ds_readonly b)) [
    | inl reference ↦ absurd (ground arith)
    | inr own ↦
        let grow = λ (str : List ℕ). some (record b { len = larger need; str = str }) in
        let e' : (m.realloc b.str (larger need) >>= grow) ≡ some c = ground arith in
        let (str, es, ec) = >>=-eq-some (m.realloc b.str (larger need)) grow e' in
        let i : record b { len = larger need; str = str } ≡ c = cc in
        subst (Grown b need) i (larger_block m b need str a v own (omega tests) es)
  ]
]
