-- ===== src/Dynstring/Contents.antt =====
-- dynstring.c: what appending, cutting and shifting do to the contents.
use kindle_myts.Base.{
  ℕ, ◌+◌, ◌-◌, ◌≤◌, ◌<◌, ◌≡◌, refl, sym, lt→ltb, ◌∙◌, arith, List, [], ◌++◌, Option, none, some,
  length, get_elem?, get_elem?-take, length-replicate, get_elem?_ext, take, drop, ltb, Bool-cases,
  inl, inr, tests, Returns, copy, copy_lem, length-copy, get_elem?-copy, store, fill_lem,
  length-fill, get_elem?-fill, splice, replicate, get_elem?-append, length-take,
}
use kindle_myts.Dynstring.{
  Dynstr, Allocator, pos, Code, value, error, contents, ds_data, ds_len, ensure, append_end,
  append_to, needed, put_bytes, opened, ds_create, ds_append, start_size,
}
use kindle_myts.Dynstring.Grow.{IsAllocator, IsSound, IsValid, Grown, ensure-Grown}

-- Behind the contents stands a NUL.
abbrev pub IsTerminated : Option Dynstr → Type 0
IsTerminated none = Unit
IsTerminated (some b) = get_elem? b.str b.used ≡ some 0

-- A call that was to make the contents `want` of a string with the contents `old` has done that and
-- reports no error, or it reports an error and has left the contents.
abbrev pub Outcome : List ℕ → List ℕ → Code × Option Dynstr → Type 0
Outcome old want (value r, t) = IsValid t × (contents t ≡ want) × IsTerminated t
Outcome old want (error, t) = IsValid t × (contents t ≡ old)

-- the cells behind a copy and the store of the NUL
appended_cells :
    (old d str : List ℕ) (used n i : ℕ)
    → used + n < length str
    → n ≤ length d
    → length old ≡ used
    → ((j : ℕ) → j < used → get_elem? str j ≡ get_elem? old j)
    → {str' str'' : List ℕ} → copy str used d 0 n ≡ some str'
    → store str' (used + n) 0 ≡ some str''
    → get_elem? (take (used + n) str'') i ≡ get_elem? (old ++ take n d) i
unfolding store
appended_cells old d str used n i room enough size same {str'} {str''} e e' =
    elim (Bool-cases (ltb i used)) [
      | inl before ↦
          let k = same i (omega tests) in
          ground (
            arith,
            get_elem?-take (used + n) str'' i,
            get_elem?-fill str' (used + n) 1 0 i e',
            get_elem?-copy str used d 0 n i e,
            get_elem?-append old (take n d) i,
          )
      | inr behind ↦ ground (
        arith,
        get_elem?-take (used + n) str'' i,
        get_elem?-fill str' (used + n) 1 0 i e',
        get_elem?-copy str used d 0 n i e,
        get_elem?-append old (take n d) i,
        get_elem?-take n d (i - used),
      )
    ]

pub length-contents : (b : Dynstr) → IsSound b → length (contents (some b)) ≡ b.used
unfolding contents ds_data ds_len
length-contents b v =
    let fits = v.fits in
    let room = v.room in
    let behind = v.behind in ground (arith, length-take b.used b.str, length-take b.used b.ref)

-- a block of its own, as users read it
pub contents-owned : (b : Dynstr) → 0 < b.len → contents (some b) ≡ take b.used b.str
unfolding contents ds_data ds_len
contents-owned b h = rw (lt→ltb _ _ h)

put_end :
    (b c : Dynstr) (d : List ℕ) (n : ℕ)
    → IsSound b
    → n ≤ length d
    → Grown b (b.used + n + 1) c
    → Returns
        (append_end b (some d) (pos n) (some c))
        (Outcome (contents (some b)) (contents (some b) ++ take n d))
unfolding append_end put_bytes store
put_end b c d n v enough g =
    let u = g.used_eq in
    let whole = g.whole in
    let more = g.enough in
    let end = c.used + n in
    let str' = splice c.used (take n (drop 0 d)) c.str in
    let e = copy_lem c.str c.used d 0 n (omega arith) (omega arith) in
    let size = length-copy c.str c.used d 0 n e in
    let str'' = splice end (replicate 1 0) str' in
    let e' = fill_lem str' end 1 0 (omega arith) in
    let size' = length-fill str' end 1 0 e' in
    let t = record c { used = end; str = str'' } in
    let old = contents (some b) in
    let cells = λ (i : ℕ).
      appended_cells old d c.str c.used n i (omega arith) enough (length-contents b v ∙ sym u)
        (λ j h. g.same j (omega arith)) e e' in
    (
      (value 0, some t),
      rw e (rw e' refl),
      (
        record { fits = omega arith; room = λ _. omega arith; behind = λ z. absurd (omega arith) },
        contents-owned t (omega arith) ∙ get_elem?_ext (take end str'') (old ++ take n d) cells,
        ground (arith, get_elem?-fill str' end 1 0 end e'),
      ),
    )

pub created-IsSound :
    (n : ℕ) → IsSound (record { len = n; used = 0; str = replicate n 0; ref = [] })
created-IsSound n = record {
  fits = omega (arith, length-replicate {A = ℕ} n 0);
  room = λ h. h;
  behind = λ _. omega arith;
}

append_some :
    (m : Allocator) (b : Dynstr) (d : List ℕ) (n : ℕ)
    → IsAllocator m
    → IsSound b
    → n ≤ length d
    → Returns
        (append_to m (some b) (some d) (pos n))
        (Outcome (contents (some b)) (contents (some b) ++ take n d))
unfolding append_to append_end needed
append_some m b d n a v enough = go (ensure m b (b.used + n + 1)) refl
  where
    go :
        (o : Option Dynstr)
        → ensure m b (b.used + n + 1) ≡ o
        → Returns
            (append_end b (some d) (pos n) o)
            (Outcome (contents (some b)) (contents (some b) ++ take n d))
    go none e = ((error, some b), refl, (v, refl))
    go (some c) e = put_end b c d n v enough (ensure-Grown m b (b.used + n + 1) a v (omega arith) e)

-- Appending n bytes of `d` to a valid string returns: either no error is reported, and the contents have
-- become the old ones with these bytes behind, with a NUL behind them; or an error is reported, and
-- the contents are the old ones. NULL is a string with no contents.
pub ds_append-Outcome :
    (m : Allocator) (s : Option Dynstr) (d : List ℕ) (n : ℕ)
    → IsAllocator m
    → IsValid s
    → n ≤ length d
    → Returns (ds_append m s (some d) (pos n)) (Outcome (contents s) (contents s ++ take n d))
unfolding ds_append opened ds_create append_to contents ds_data ds_len
ds_append-Outcome m (some b) d n a v enough = append_some m b d n a v enough
ds_append-Outcome m none d n a v enough = elim (Bool-cases (m.calloc start_size)) [
  | inl given ↦ rw given (
      append_some m (record { len = 48; used = 0; str = replicate 48 0; ref = [] }) d n a
        (created-IsSound 48) enough)
  | inr refused ↦ rw refused ((error, none), refl, (tt, refl))
]
