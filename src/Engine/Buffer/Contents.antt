-- ===== src/Engine/Buffer/Contents.antt =====
-- core/byte_buffer.hpp: the buffer holds a list of bytes.
use kindle_myts.Base.{
  ℕ, ◌+◌, ◌-◌, ◌%◌, ◌^◌, ◌≤◌, ◌<◌, ◌≡◌, refl, sym, ap, ◌∙◌, arith, Bool, true, false, List, [], ◌∷◌,
  ◌++◌, Option, none, some, ltb, leb, ◌==◌, if◌then◌else◌, inl, inr, Bool-cases, length, take, copy,
  get_elem?_ext, get_elem?-take, get_elem?-append, get_elem?-copy, copy_lem, length-copy, Returns,
  length-take, tests, leb→le, leb_false→lt, ==→eq, get_elem?_out, append_nil,
}
use kindle_myts.Dynstring.{Allocator}
use kindle_myts.Dynstring.Grow.{IsAllocator}
use kindle_myts.Engine.Buffer.{
  ByteBuffer, capacity, contents, alloc_cap, resized, reserve, put_behind, append,
}

-- The bytes in use lie in the block, whose size has 32 bits.
pub record IsWf (b : ByteBuffer) : Type 0 where
  pub used : b.size ≤ capacity b
  pub sized : capacity b < 2 ^ 32

-- What `reserve` leaves: enough room where it succeeds, and the same bytes in use.
record Reserved (m : Allocator) (n : ℕ) (b : ByteBuffer) (out : Bool × ByteBuffer) : Type 0 where
  wf : IsWf out.1
  same_size : out.1.size ≡ b.size
  same : contents out.1 ≡ contents b
  room : out.0 ≡ true → n ≤ capacity out.1
  refused : out.0 ≡ false → m.realloc b.bytes (alloc_cap n b) ≡ none

alloc_cap_bounds :
    (n : ℕ) (b : ByteBuffer)
    → capacity b < n
    → n < 2 ^ 32
    → (n ≤ alloc_cap n b) × (alloc_cap n b < 2 ^ 32)
unfolding alloc_cap
alloc_cap_bounds n b h k = ground (arith, h, k)

contents_kept :
    (m : Allocator) (b : ByteBuffer) (n : ℕ) (ys : List ℕ)
    → IsAllocator m
    → IsWf b
    → capacity b ≤ n
    → m.realloc b.bytes n ≡ some ys
    → take b.size ys ≡ take b.size b.bytes
contents_kept m b n ys alloc w h e = get_elem?_ext _ _ (λ i. elim (Bool-cases (ltb i b.size)) [
  | inl used ↦
      let k =
        alloc.kept b.bytes ys n i e (omega (tests, used, w.used))
          (omega (tests, used, w.used, h)) in
      ground (arith, get_elem?-take b.size ys i, get_elem?-take b.size b.bytes i, k)
  | inr free ↦ ground (arith, free, get_elem?-take b.size ys i, get_elem?-take b.size b.bytes i)
])

grown :
    (m : Allocator) (n : ℕ) (b : ByteBuffer) (answer : Option (List ℕ))
    → IsAllocator m
    → IsWf b
    → capacity b < n
    → n < 2 ^ 32
    → m.realloc b.bytes (alloc_cap n b) ≡ answer
    → Reserved m n b (resized answer b)
unfolding resized contents
grown m n b none alloc w h k e = record {
  wf = w;
  same_size = refl;
  same = refl;
  room = λ z. cc;
  refused = λ z. e;
}
grown m n b (some ys) alloc w h k e =
    let (lo, hi) = alloc_cap_bounds n b h k in
    let len = alloc.resized b.bytes ys (alloc_cap n b) e in
    record {
      wf = record { used = omega (arith, w.used, len, lo, h); sized = omega (arith, len, hi) };
      same_size = refl;
      same = contents_kept m b (alloc_cap n b) ys alloc w (omega (arith, lo, h)) e;
      room = λ z. omega (arith, len, lo);
      refused = λ z. cc;
    }

reserve-Reserved :
    (m : Allocator) (n : ℕ) (b : ByteBuffer)
    → IsAllocator m
    → IsWf b
    → n < 2 ^ 32
    → Reserved m n b (reserve m n b)
unfolding reserve
reserve-Reserved m n b alloc w k = elim (Bool-cases (leb n (capacity b))) [
  | inl room ↦ rw room (record {
    wf = w;
    same_size = refl;
    same = refl;
    room = λ z. leb→le n (capacity b) room;
    refused = λ z. cc;
  })
  | inr more ↦ rw more (grown m n b _ alloc w (leb_false→lt n (capacity b) more) k refl)
]

-- the bytes behind those in use
contents_put :
    (b : ByteBuffer) (input ys : List ℕ)
    → b.size + length input ≤ length b.bytes
    → copy b.bytes b.size input 0 (length input) ≡ some ys
    → take (b.size + length input) ys ≡ take b.size b.bytes ++ input
contents_put b input ys h e = get_elem?_ext _ _ (λ i. ground (
  arith,
  get_elem?-take (b.size + length input) ys i,
  get_elem?-copy b.bytes b.size input 0 (length input) i e,
  get_elem?-append (take b.size b.bytes) input i,
  length-take b.size b.bytes,
  get_elem?-take b.size b.bytes i,
  get_elem?_out input (i - b.size),
))

contents_behind :
    (c : ByteBuffer) (input ys : List ℕ)
    → c.size + length input ≤ length c.bytes
    → copy c.bytes c.size input 0 (length input) ≡ some ys
    → (c.size + length input) % 2 ^ 32 ≡ c.size + length input
    → contents (record { bytes = ys; size = (c.size + length input) % 2 ^ 32 })
      ≡ contents c ++ input
unfolding contents
contents_behind c input ys h e small = rw small (contents_put c input ys h e)

-- What `append` leaves, with what it answers.
pub record Appended (m : Allocator) (input : List ℕ) (b : ByteBuffer) (out : Bool × ByteBuffer)
    : Type 0 where
  pub wf : IsWf out.1
  pub bytes : contents out.1 ≡ (if out.0 then contents b ++ input else contents b)
  pub refused : out.0 ≡ false → m.realloc b.bytes (alloc_cap (b.size + length input) b) ≡ none

no_bytes : (xs : List ℕ) → length xs ≡ 0 → xs ≡ []
no_bytes [] h = refl
no_bytes (x ∷ xs) h = absurd (omega (arith, h))

put_behind-Appended :
    (m : Allocator) (input : List ℕ) (b : ByteBuffer) (out : Bool × ByteBuffer)
    → IsWf b
    → b.size + length input < 2 ^ 32
    → Reserved m (b.size + length input) b out
    → Returns (put_behind input out) (Appended m input b)
unfolding put_behind
put_behind-Appended m input b (false, c) w k r =
    (_, refl, record { wf = r.wf; bytes = r.same; refused = r.refused })
put_behind-Appended m input b (true, c) w k r =
    let fits : c.size + length input ≤ length c.bytes = omega (arith, r.room refl, r.same_size) in
    let e = copy_lem c.bytes c.size input 0 (length input) fits (omega arith) in
    let len = length-copy c.bytes c.size input 0 (length input) e in
    let small : (c.size + length input) % 2 ^ 32 ≡ c.size + length input =
      omega (arith, r.same_size, k) in
    rw e (
      _,
      refl,
      record {
        wf = record {
          used = omega (arith, len, fits, small);
          sized = omega (arith, len, r.wf.sized);
        };
        bytes = contents_behind c input _ fits e small ∙ ap (λ xs. xs ++ input) r.same;
        refused = λ z. cc;
      },
    )

-- `append` puts the bytes behind those of the buffer and says so, or leaves the buffer its bytes and
-- reports that `realloc` has failed; no access leaves the block, as long as the sum of the sizes has
-- 32 bits.
pub append-Appended :
    (m : Allocator) (input : List ℕ) (b : ByteBuffer)
    → IsAllocator m
    → IsWf b
    → b.size + length input < 2 ^ 32
    → Returns (append m input b) (Appended m input b)
unfolding append
append-Appended m input b alloc w k = elim (Bool-cases (length input == 0)) [
  | inl void ↦ rw void (
    _,
    refl,
    record {
      wf = w;
      bytes = sym (
          ap (λ xs. contents b ++ xs) (no_bytes input (==→eq (length input) 0 void))
          ∙ append_nil (contents b));
      refused = λ z. cc;
    },
  )
  | inr some_bytes ↦
      let n : (b.size + length input) % 2 ^ 32 ≡ b.size + length input = omega (arith, k) in
      rw (some_bytes, n)
        (put_behind-Appended m input b _ w k
          (reserve-Reserved m (b.size + length input) b alloc w k))
]
