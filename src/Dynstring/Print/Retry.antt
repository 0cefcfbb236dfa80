-- ===== src/Dynstring/Print/Retry.antt =====
-- dynstring.c: the loop of `dsprintf` ends, and what it appends.
use kindle_myts.Base.{
  ℕ, suc, ◌+◌, ◌-◌, ◌≤◌, ◌<◌, ◌≡◌, refl, sym, ap, ◌∙◌, arith, true, false, List, [], ◌++◌, Option,
  none, some, ◌>>=◌, ltb, store, length, get_elem?, get_elem?_ext, get_elem?_out, get_elem?-take,
  get_elem?-append, take, Returns, Bool-cases, inl, inr, tests, fill_lem, length-fill,
  get_elem?-fill, splice, replicate, lt→ltb,
}
use mathlib.Core.Path.{subst}
use kindle_myts.Dynstring.{
  Dynstr, Allocator, Code, value, error, make_space, opened, contents, ensure, ds_readonly,
  start_size, ds_create,
}
use kindle_myts.Dynstring.Contents.{contents-owned, length-contents, created-IsSound, IsTerminated}
use kindle_myts.Dynstring.Cut.{contents-reference}
use kindle_myts.Dynstring.Grow.{IsAllocator, IsSound, IsValid, Grown, ensure-Grown}
use kindle_myts.Dynstring.Print.{
  Formatter, Round, finished, asked, grow_round, printed, print_offset, print_with, dynstr_helper,
  after_retry, print_loop, dsprintf,
}

-- What one call of `vsnprintf` returns and leaves: the length of the text; the bytes before the
-- place written; and where there is room, the text and a NUL.
pub record IsWritten (text mem : List ℕ) (offset size : ℕ) (out : ℕ × List ℕ) : Type 0 where
  pub result : out.0 ≡ length text
  pub whole : length out.1 ≡ length mem
  pub before : (i : ℕ) → i < offset → get_elem? out.1 i ≡ get_elem? mem i
  pub written :
      length text < size
      → (i : ℕ) → i < length text
      → get_elem? out.1 (offset + i) ≡ get_elem? text i
  pub terminated : length text < size → get_elem? out.1 (offset + length text) ≡ some 0

-- What the C library promises of `vsnprintf` on a format and arguments that make `text`.
abbrev pub IsFormatter : Formatter → List ℕ → Type 0
IsFormatter v text =
    (mem : List ℕ) (offset size : ℕ)
    → offset + size ≤ length mem
    → Returns (v mem offset size) (IsWritten text mem offset size)

-- The text has been appended and its length returned, or an error reported and the contents left.
abbrev pub Printed : List ℕ → List ℕ → Code × Option Dynstr → Type 0
Printed old text (value r, t) =
    (r ≡ length text) × IsValid t × (contents t ≡ old ++ text) × IsTerminated t
Printed old text (error, t) = IsValid t × (contents t ≡ old)

abbrev Done : List ℕ → List ℕ → Round → Type 0
Done old text r = (c : Code) × (t : Option Dynstr) × (r ≡ finished c t) × Printed old text (c, t)

written_cells :
    (text old str mem : List ℕ) (used size n i : ℕ)
    → n ≡ length text + used
    → length text < size
    → length old ≡ used
    → ((j : ℕ) → j < used → get_elem? mem j ≡ get_elem? old j)
    → {r : ℕ} → IsWritten text mem used size (r, str)
    → get_elem? (take n str) i ≡ get_elem? (old ++ text) i
written_cells text old str mem used size n i total room old_len same w =
    elim (Bool-cases (ltb i used)) [
      | inl low ↦
          let k = w.before i (omega tests) in
          let k' = same i (omega tests) in
          ground (arith, get_elem?-take n str i, get_elem?-append old text i)
      | inr high ↦ elim (Bool-cases (ltb i n)) [
        | inl inside ↦
            let k = w.written room (i - used) (omega tests) in
            let e : used + (i - used) ≡ i = omega tests in
            let k' : get_elem? str i ≡ get_elem? text (i - used) = ap (get_elem? str) (sym e) ∙ k in
            ground (arith, get_elem?-take n str i, get_elem?-append old text i)
        | inr past ↦
            let k = get_elem?_out text (i - used) (omega tests) in
            ground (arith, get_elem?-take n str i, get_elem?-append old text i)
      ]
    ]

kept_cells :
    (b : Dynstr)
    → 0 < b.len
    → (j : ℕ) → j < b.used
    → get_elem? b.str j ≡ get_elem? (contents (some b)) j
kept_cells b owned j h = rw (contents-owned b owned) (ground (arith, get_elem?-take b.used b.str j))

-- a round with enough space
round_fits :
    (m : Allocator) (v : Formatter) (text : List ℕ) (b : Dynstr)
    → IsFormatter v text
    → IsSound b
    → b.used + length text < b.len
    → Returns (print_with m v 0 (some b)) (Done (contents (some b)) text)
unfolding print_with printed
round_fits m v text b f s room =
    let fits = s.fits in
    let owned : ltb 0 b.len ≡ true = ground arith in
    let (out, e, w) = f b.str b.used (b.len - b.used) (omega arith) in
    let r = w.result in
    let size = w.whole in
    let t = record b { str = out.1; used = out.0 + b.used } in
    let enough : ltb b.len (out.0 + b.used + 1) ≡ false = ground arith in
    let in_block : ltb b.len (out.0 + b.used) ≡ false = ground arith in
    let cells = λ (i : ℕ).
      written_cells text (contents (some b)) out.1 b.str b.used (b.len - b.used) (out.0 + b.used) i
        (omega arith) (omega arith) (length-contents b s) (kept_cells b (omega arith)) w in
    let place : out.0 + b.used ≡ b.used + length text = omega arith in
    (
      finished (value out.0) (some t),
      rw owned (rw e (rw enough (rw in_block refl))),
      (
        value out.0,
        some t,
        refl,
        (
          r,
          record {
            fits = omega arith;
            room = λ _. omega arith;
            behind = λ z. absurd (omega arith);
          },
          contents-owned t (omega arith)
              ∙ get_elem?_ext (take (out.0 + b.used) out.1) (contents (some b) ++ text) cells,
          ap (get_elem? out.1) place ∙ w.terminated (omega arith),
        ),
      ),
    )

-- the loop, with enough space at its start
loop_fits :
    (fuel : ℕ) (m : Allocator) (v : Formatter) (text : List ℕ) (b : Dynstr)
    → IsFormatter v text
    → IsSound b
    → b.used + length text < b.len
    → Returns (print_loop (suc fuel) m v 0 (some b)) (Printed (contents (some b)) text)
unfolding print_loop dynstr_helper opened after_retry
loop_fits fuel m v text b f s room =
    let (r, e, (c, t, er, p)) = round_fits m v text b f s room in ((c, t), rw e (rw er refl), p)

-- A call of `vsnprintf` leaves the contents.
rewritten_contents :
    (text : List ℕ) (b : Dynstr) (size : ℕ) (out : ℕ × List ℕ)
    → IsWritten text b.str (print_offset b) size out
    → contents (some (record b { str = out.1 })) ≡ contents (some b)
rewritten_contents text b size out w = elim (Bool-cases (ltb 0 b.len)) [
  | inl owned ↦
      let h : 0 < b.len = omega tests in
      let off : print_offset b ≡ b.used = rw owned refl in
      contents-owned (record b { str = out.1 }) h
      ∙ get_elem?_ext (take b.used out.1) (take b.used b.str) (λ i.
        let k = w.before i in
        ground (arith, get_elem?-take b.used out.1 i, get_elem?-take b.used b.str i))
      ∙ sym (contents-owned b h)
  | inr reference ↦
      let z : b.len ≡ 0 = omega tests in
      contents-reference (record b { str = out.1 }) z ∙ sym (contents-reference b z)
]

rewritten-IsSound :
    (text : List ℕ) (b : Dynstr) (offset size : ℕ) (out : ℕ × List ℕ)
    → IsWritten text b.str offset size out
    → IsSound b
    → IsSound (record b { str = out.1 })
rewritten-IsSound text b offset size out w s =
    let l = w.whole in
    let fits = s.fits in record { fits = omega arith; room = s.room; behind = s.behind }

-- behind the growth of the block
retry_returns :
    (m : Allocator) (v : Formatter) (text : List ℕ) (b c : Dynstr) (need : ℕ)
    → IsFormatter v text
    → IsSound b
    → Grown b need c
    → b.used + length text < need
    → (o : ℕ) → o ≡ b.used
    → Returns
        (grow_round b o (some c) >>= after_retry (print_loop 1 m v 0))
        (Printed (contents (some b)) text)
unfolding grow_round after_retry store
retry_returns m v text b c need f s g room o at_end =
    let u = g.used_eq in
    let whole = g.whole in
    let enough = g.enough in
    let e = fill_lem c.str o 1 0 (omega arith) in
    let str = splice o (replicate 1 0) c.str in
    let size = length-fill c.str o 1 0 e in
    let t = record c { str = str } in
    let sound : IsSound t = record {
      fits = omega arith;
      room = λ _. omega arith;
      behind = λ z. absurd (omega arith);
    } in
    let same : contents (some t) ≡ contents (some b) =
      contents-owned t (omega arith)
      ∙ get_elem?_ext (take c.used str) (contents (some b)) (λ i.
        let k = g.same i in
        let l = length-contents b s in
        let past = get_elem?_out (contents (some b)) i in
        ground (arith, get_elem?-take c.used str i, get_elem?-fill c.str o 1 0 i e)) in
    let (r, er, p) = loop_fits 0 m v text t f sound (omega arith) in
    (r, rw e er, subst (λ old. Printed old text r) same p)

-- behind the first call of `vsnprintf`, where there was not enough space
short_returns :
    (m : Allocator) (v : Formatter) (text : List ℕ) (b : Dynstr) (need : ℕ)
    → IsAllocator m
    → IsFormatter v text
    → IsSound b
    → print_offset b + length text < need
    → b.len < need
    → (o : Option Dynstr) → make_space m b need ≡ o
    → Returns
        (grow_round b (print_offset b) o >>= after_retry (print_loop 1 m v 0))
        (Printed (contents (some b)) text)
unfolding grow_round after_retry make_space ensure
short_returns m v text b need a f s room short none e = ((error, some b), refl, (s, refl))
short_returns m v text b need a f s room short (some c) e =
    let tested : ltb b.len need ≡ true = lt→ltb _ _ short in
    let owned : ds_readonly b ≡ false = ground arith in
    let grows : ensure m b need ≡ some c = rw tested e in
    let at_end : print_offset b ≡ b.used = ground arith in
    retry_returns m v text b c need f s (ensure-Grown m b need a s (omega arith) grows)
      (omega arith) (print_offset b) at_end

print_twice :
    (m : Allocator) (v : Formatter) (text : List ℕ) (b : Dynstr)
    → IsAllocator m
    → IsFormatter v text
    → IsSound b
    → Returns (print_loop 2 m v 0 (some b)) (Printed (contents (some b)) text)
unfolding print_loop dynstr_helper opened after_retry print_with printed
print_twice m v text b a f s =
    let fits = s.fits in
    let room = s.room in
    let off = print_offset b in
    let (out, e, w) = f b.str off (b.len - off) (ground arith) in
    let r = w.result in
    let need = out.0 + off + 1 in
    let b₁ = record b { str = out.1 } in
    elim (Bool-cases (ltb b.len need)) [
      | inr enough ↦ loop_fits 1 m v text b f s (ground arith)
      | inl short ↦
          let sound = rewritten-IsSound text b off (b.len - off) out w s in
          let (q, eq, p) =
            short_returns m v text b₁ (asked 0 need) a f sound (omega arith) (omega tests)
              (make_space m b₁ (asked 0 need)) refl in
          (
            q,
            rw e (rw short eq),
            subst (λ old. Printed old text q) (rewritten_contents text b (b.len - off) out w) p,
          )
    ]

-- With an allocator and a formatter that keep their promises, `dsprintf` on a valid string ends
-- within two rounds: either it returns the length of the text, the contents have become the old
-- ones with the text behind, and a NUL stands behind them, or it returns an error and leaves the
-- contents.
pub dsprintf-Printed :
    (m : Allocator) (v : Formatter) (text : List ℕ) (s : Option Dynstr)
    → IsAllocator m
    → IsFormatter v text
    → IsValid s
    → Returns (dsprintf m v s) (Printed (contents s) text)
unfolding dsprintf print_loop dynstr_helper print_with after_retry opened ds_create contents
dsprintf-Printed m v text (some b) a f valid = print_twice m v text b a f valid
dsprintf-Printed m v text none a f valid = elim (Bool-cases (m.calloc start_size)) [
  | inl given ↦
      let b : Dynstr = record { len = 48; used = 0; str = replicate 48 0; ref = [] } in
      let (r, e, p) = print_twice m v text b a f (created-IsSound 48) in (r, rw given e, p)
  | inr refused ↦ rw refused ((error, none), refl, (tt, refl))
]
