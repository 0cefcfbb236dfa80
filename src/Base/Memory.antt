-- ===== src/Base/Memory.antt =====
-- `memset`, `memmove` and `memcpy` on an area of memory, which is a list of its cells.
use Prim.Native.Nat.{ℕ, ◌+◌, ◌-◌, ◌≤◌}
use mathlib.Core.Path.{◌≡◌}
use mathlib.Core.Logic.{inl, inr}
use mathlib.Core.Bool.{◌&&◌}
use mathlib.Core.Option.{Option, none, some}
use mathlib.Core.List.{List, ◌++◌}
use native.Mathlib.Omega.{arith}
use kindle_myts.Base.Tests.{ltb, leb, if◌then◌else◌, Bool-cases, le→leb, tests}
use kindle_myts.Base.Lists.{
  length, get_elem?, take, drop, replicate, length-append, length-take, length-drop,
  length-replicate, get_elem?-append, get_elem?-take, get_elem?-drop, get_elem?-replicate,
}

-- Cells are bytes, code points or bits of them: small types.
module _ {A : Type 0} where
  -- `xs` with `ys` written over it from index `at` on.
  unfoldable pub splice : ℕ → List A → List A → List A
  splice at ys xs = take at xs ++ (ys ++ drop (at + length ys) xs)

  pub length-splice :
      (at : ℕ) (ys xs : List A) → at + length ys ≤ length xs → length (splice at ys xs) ≡ length xs
  unfolding splice
  length-splice at ys xs h = omega (
    arith,
    length-append (take at xs) (ys ++ drop (at + length ys) xs),
    length-append ys (drop (at + length ys) xs),
    length-take at xs,
    length-drop (at + length ys) xs,
  )

  -- Each cell of a splice comes from `ys` inside the window, and from `xs` outside.
  pub get_elem?-splice :
      (at : ℕ) (ys xs : List A) (i : ℕ)
      → at + length ys ≤ length xs
      → get_elem? (splice at ys xs) i
        ≡ (if leb at i && ltb i (at + length ys) then get_elem? ys (i - at) else get_elem? xs i)
  unfolding splice
  get_elem?-splice at ys xs i h =
      let w : length (take at xs) ≡ at = omega (arith, length-take at xs) in
      rw
        (
          get_elem?-append (take at xs) (ys ++ drop (at + length ys) xs) i,
          get_elem?-append ys (drop (at + length ys) xs) (i - length (take at xs)),
          get_elem?-take at xs i,
          get_elem?-drop (at + length ys) xs,
          w,
        )
        (elim (Bool-cases (ltb i at)) [
          | inl before ↦ ground arith
          | inr from ↦ elim (Bool-cases (ltb i (at + length ys))) [
            | inl inside ↦ ground arith
            | inr behind ↦
                let e : at + length ys + (i - at - length ys) ≡ i = omega tests in
                rw e (ground arith)
          ]
        ])

  -- `memset(x + start, v, n)`
  unfoldable pub fill : List A → ℕ → ℕ → A → Option (List A)
  fill xs start n v =
      if leb (start + n) (length xs) then some (splice start (replicate n v) xs) else none

  -- `memmove(x + dst, x + src, n)`, and `memcpy` at disjoint or downward ranges
  unfoldable pub move : List A → ℕ → ℕ → ℕ → Option (List A)
  move xs dst src n =
      if leb (dst + n) (length xs) && leb (src + n) (length xs)
      then some (splice dst (take n (drop src xs)) xs)
      else none

  -- `memcpy(x + dst, y + src, n)` between two areas
  unfoldable pub copy : List A → ℕ → List A → ℕ → ℕ → Option (List A)
  copy xs dst ys src n =
      if leb (dst + n) (length xs) && leb (src + n) (length ys)
      then some (splice dst (take n (drop src ys)) xs)
      else none

  -- `x[i] = v`
  unfoldable pub store : List A → ℕ → A → Option (List A)
  store xs i v = fill xs i 1 v

module _ {A : Type 0} where
  pub fill_lem :
      (xs : List A) (start n : ℕ) (v : A)
      → start + n ≤ length xs
      → fill xs start n v ≡ some (splice start (replicate n v) xs)
  unfolding fill
  fill_lem xs start n v h = rw (le→leb _ _ h)

  pub length-fill :
      (xs : List A) (start n : ℕ) (v : A) {ys : List A}
      → fill xs start n v ≡ some ys
      → length ys ≡ length xs
  unfolding fill
  length-fill xs start n v e =
      ground (arith, length-splice start (replicate n v) xs, length-replicate n v)

  pub fill_fits :
      (xs : List A) (start n : ℕ) (v : A) {ys : List A}
      → fill xs start n v ≡ some ys
      → start + n ≤ length xs
  unfolding fill
  fill_fits xs start n v e = ground arith

  pub get_elem?-fill :
      (xs : List A) (start n : ℕ) (v : A) {ys : List A} (i : ℕ)
      → fill xs start n v ≡ some ys
      → get_elem? ys i ≡ (if leb start i && ltb i (start + n) then some v else get_elem? xs i)
  unfolding fill
  get_elem?-fill xs start n v i e = ground (
    arith,
    length-replicate n v,
    get_elem?-splice start (replicate n v) xs i,
    get_elem?-replicate n v (i - start),
  )

  pub move_lem :
      (xs : List A) (dst src n : ℕ)
      → dst + n ≤ length xs
      → src + n ≤ length xs
      → move xs dst src n ≡ some (splice dst (take n (drop src xs)) xs)
  unfolding move
  move_lem xs dst src n h k = rw (le→leb _ _ h, le→leb _ _ k)

  length-window :
      (xs : List A) (src n : ℕ) → src + n ≤ length xs → length (take n (drop src xs)) ≡ n
  length-window xs src n h = omega (arith, length-take n (drop src xs), length-drop src xs)

  pub length-move :
      (xs : List A) (dst src n : ℕ) {ys : List A}
      → move xs dst src n ≡ some ys
      → length ys ≡ length xs
  unfolding move
  length-move xs dst src n e =
      ground (arith, length-splice dst (take n (drop src xs)) xs, length-window xs src n)

  pub get_elem?-move :
      (xs : List A) (dst src n : ℕ) {ys : List A} (i : ℕ)
      → move xs dst src n ≡ some ys
      → get_elem? ys i
        ≡ (if leb dst i && ltb i (dst + n) then get_elem? xs (src + (i - dst)) else get_elem? xs i)
  unfolding move
  get_elem?-move xs dst src n i e = ground (
    arith,
    length-window xs src n,
    get_elem?-splice dst (take n (drop src xs)) xs i,
    get_elem?-take n (drop src xs) (i - dst),
    get_elem?-drop src xs (i - dst),
  )

  pub copy_lem :
      (xs : List A) (dst : ℕ) (ys : List A) (src n : ℕ)
      → dst + n ≤ length xs
      → src + n ≤ length ys
      → copy xs dst ys src n ≡ some (splice dst (take n (drop src ys)) xs)
  unfolding copy
  copy_lem xs dst ys src n h k = rw (le→leb _ _ h, le→leb _ _ k)

  pub length-copy :
      (xs : List A) (dst : ℕ) (ys : List A) (src n : ℕ) {zs : List A}
      → copy xs dst ys src n ≡ some zs
      → length zs ≡ length xs
  unfolding copy
  length-copy xs dst ys src n e =
      ground (arith, length-splice dst (take n (drop src ys)) xs, length-window ys src n)

  pub get_elem?-copy :
      (xs : List A) (dst : ℕ) (ys : List A) (src n : ℕ) {zs : List A} (i : ℕ)
      → copy xs dst ys src n ≡ some zs
      → get_elem? zs i
        ≡ (if leb dst i && ltb i (dst + n) then get_elem? ys (src + (i - dst)) else get_elem? xs i)
  unfolding copy
  get_elem?-copy xs dst ys src n i e = ground (
    arith,
    length-window ys src n,
    get_elem?-splice dst (take n (drop src ys)) xs i,
    get_elem?-take n (drop src ys) (i - dst),
    get_elem?-drop src ys (i - dst),
  )
