-- ===== src/Dynstring/Tests.antt =====
-- dynstring.c on concrete strings, with a concrete allocator and formatter.
use kindle_myts.Base.{
  ℕ, zero, suc, ◌+◌, ◌≤◌, ◌≡◌, refl, arith, List, [], ◌∷◌, ◌++◌, some, store, copy, fill, length,
  get_elem?-take, get_elem?-append, get_elem?-splice, length-splice, take, Returns, splice,
  length-append, length-take,
}
use kindle_myts.Dynstring.{
  Dynstr, pos, value, contents, ensure, make_space, append_end, append_to, needed, put_bytes,
  opened, ds_append,
}
use kindle_myts.Dynstring.Contents.{Outcome, ds_append-Outcome}
use kindle_myts.Dynstring.Grow.{IsSound}
use kindle_myts.Dynstring.Print.{Formatter, dsprintf}
use kindle_myts.Dynstring.Print.Retry.{IsFormatter, Printed, dsprintf-Printed}
use kindle_myts.Dynstring.Heap.{heap, heap-IsAllocator}

-- prints a text as far as there is room, and a NUL
abbrev printed_block : List ℕ → List ℕ → ℕ → ℕ → List ℕ
printed_block text mem offset zero = mem
printed_block text mem offset (suc room) = splice offset (take room text ++ (0 ∷ [])) mem

abbrev printer : List ℕ → Formatter
printer text mem offset size = some (length text, printed_block text mem offset size)

printer-IsFormatter : (text : List ℕ) → IsFormatter (printer text) text
printer-IsFormatter text mem offset zero h = (
  (length text, mem),
  refl,
  record {
    result = refl;
    whole = refl;
    before = λ i k. refl;
    written = λ k. absurd (omega arith);
    terminated = λ k. absurd (omega arith);
  },
)
printer-IsFormatter text mem offset (suc room) h =
    let line = take room text ++ (0 ∷ []) in
    let l = length-append (take room text) (0 ∷ []) in
    let l' = length-take room text in
    let fits : offset + length line ≤ length mem = omega arith in
    (
      (length text, splice offset line mem),
      refl,
      record {
        result = refl;
        whole = length-splice offset line mem fits;
        before = λ i k. ground (arith, get_elem?-splice offset line mem i fits);
        written = λ k i j. ground (
          arith,
          get_elem?-splice offset line mem (offset + i) fits,
          get_elem?-append (take room text) (0 ∷ []) i,
          get_elem?-take room text i,
        );
        terminated = λ k. ground (
          arith,
          get_elem?-splice offset line mem (offset + length text) fits,
          get_elem?-append (take room text) (0 ∷ []) (length text),
        );
      },
    )

-- "hi" in a block of four bytes
abbrev greeting : Dynstr
greeting = record { len = 4; used = 2; str = b'h' ∷ b'i' ∷ 0 ∷ 0 ∷ []; ref = [] }

greeting-IsSound : IsSound greeting
greeting-IsSound = record {
  fits = omega arith;
  room = λ _. omega arith;
  behind = λ z. absurd (omega arith);
}

ds_append-Outcome_example :
    Returns
      (ds_append heap (some greeting) (some (b'!' ∷ b'!' ∷ [])) (pos 2))
      (Outcome (contents (some greeting)) (contents (some greeting) ++ (b'!' ∷ b'!' ∷ [])))
ds_append-Outcome_example =
    ds_append-Outcome heap (some greeting) (b'!' ∷ b'!' ∷ []) 2 heap-IsAllocator greeting-IsSound
      (omega arith)

-- the first round has too little room
dsprintf-Printed_example :
    Returns
      (dsprintf heap (printer (b'y' ∷ b'o' ∷ b'u' ∷ [])) (some greeting))
      (Printed (contents (some greeting)) (b'y' ∷ b'o' ∷ b'u' ∷ []))
dsprintf-Printed_example =
    dsprintf-Printed heap (printer (b'y' ∷ b'o' ∷ b'u' ∷ [])) (b'y' ∷ b'o' ∷ b'u' ∷ [])
      (some greeting) heap-IsAllocator (printer-IsFormatter (b'y' ∷ b'o' ∷ b'u' ∷ []))
      greeting-IsSound

-- the block grows to ten bytes
append_grows :
    ds_append heap (some greeting) (some (b'!' ∷ b'?' ∷ [])) (pos 2)
    ≡ some (
      value 0,
      some (record {
        len = 10;
        used = 4;
        str = b'h' ∷ b'i' ∷ b'!' ∷ b'?' ∷ 0 ∷ 7 ∷ 7 ∷ 7 ∷ 7 ∷ 7 ∷ [];
        ref = [];
      }),
    )
unfolding ds_append opened append_to needed ensure make_space append_end put_bytes copy store fill
    splice
append_grows = refl
