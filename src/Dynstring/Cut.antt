-- ===== src/Dynstring/Cut.antt =====
-- dynstring.c: what cutting a string at its end, shifting it and resetting it do to the contents.
use kindle_myts.Base.{
  ℕ, zero, suc, ◌+◌, ◌-◌, ◌≤◌, ◌<◌, ◌≡◌, refl, sym, ap, ◌∙◌, arith, true, false, List, [], Option,
  none, some, get_elem?-take, get_elem?_ext, take, drop, ltb, leb, ◌==◌, Bool-cases, inl, inr, ◌&&◌,
  Returns, move_lem, length-move, get_elem?-move, store, fill_lem, length-fill, get_elem?-fill,
  splice, replicate, get_elem?-drop, length-drop,
}
use kindle_myts.Dynstring.{
  Dynstr, Allocator, pos, negsuc, Code, value, ds_readonly, contents, ds_data, ds_len, ensure,
  append_end, append_to, needed, put_bytes, opened, ds_append, ds_truncate, truncate_end,
  shrink_reference, shift_by, ds_shift, ds_reset,
}
use kindle_myts.Dynstring.Grow.{IsSound, IsValid}
use kindle_myts.Dynstring.Contents.{contents-owned}

-- a reference, as users read it
pub contents-reference : (b : Dynstr) → b.len ≡ 0 → contents (some b) ≡ take b.used b.ref
unfolding contents ds_data ds_len
contents-reference b h = ground arith

take-take : (m n : ℕ) (xs : List ℕ) → m ≤ n → take m (take n xs) ≡ take m xs
take-take m n xs h = get_elem?_ext _ _ λ i.
    ground (arith, get_elem?-take m (take n xs) i, get_elem?-take n xs i, get_elem?-take m xs i)

-- The call has returned `code`, and the contents are `want`.
abbrev pub HasMade : ℕ → List ℕ → Code × Option Dynstr → Type 0
HasMade r want (c, t) = (c ≡ value r) × IsValid t × (contents t ≡ want)

cut_block :
    (m : Allocator) (b : Dynstr) (n : ℕ)
    → IsSound b
    → 0 < b.len
    → suc n ≤ b.used
    → Returns (append_to m (some b) none (negsuc n)) (HasMade 0 (take (suc n) (contents (some b))))
unfolding append_to append_end needed ensure store
cut_block m b n v owned h =
    let fits = v.fits in
    let room = v.room owned in
    let no_more : ltb b.len (suc n + 1) ≡ false = ground arith in
    let str = splice (suc n) (replicate 1 0) b.str in
    let e = fill_lem b.str (suc n) 1 0 (omega arith) in
    let size = length-fill b.str (suc n) 1 0 e in
    let t = record b { used = suc n; str = str } in
    let cells : take (suc n) str ≡ take (suc n) (contents (some b)) =
      get_elem?_ext (take (suc n) str) (take (suc n) (contents (some b))) λ i.
        rw (contents-owned b owned) (
          ground (
            arith,
            get_elem?-take (suc n) str i,
            get_elem?-fill b.str (suc n) 1 0 i e,
            get_elem?-take (suc n) (take b.used b.str) i,
            get_elem?-take b.used b.str i,
          )) in
    (
      (value 0, some t),
      rw no_more (rw e refl),
      (
        refl,
        record { fits = omega arith; room = λ _. omega arith; behind = λ z. absurd (omega arith) },
        contents-owned t owned ∙ cells,
      ),
    )

-- Cutting a valid string to a length from 1 to its own returns 0 and leaves the first bytes of the
-- contents.
pub ds_truncate-HasMade :
    (m : Allocator) (b : Dynstr) (want : ℕ)
    → IsSound b
    → 0 < want
    → want ≤ b.used
    → Returns (ds_truncate m (some b) (pos want)) (HasMade 0 (take want (contents (some b))))
unfolding ds_truncate truncate_end shrink_reference ds_append opened
ds_truncate-HasMade m b zero v some_left h = absurd (omega arith)
ds_truncate-HasMade m b (suc n) v some_left h = elim (Bool-cases (b.len == 0)) [
  | inl reference ↦
      let z : b.len ≡ 0 = ground arith in
      let t = record b { used = suc n } in
      let cut : (ds_readonly b && leb (suc n) b.used) ≡ true = ground arith in
      let behind = v.behind z in
      rw cut (
        (value 0, some t),
        refl,
        (
          refl,
          record { fits = v.fits; room = λ k. absurd (omega arith); behind = λ _. omega arith },
          contents-reference t z
              ∙ sym (take-take (suc n) b.used b.ref h)
              ∙ ap (take (suc n)) (sym (contents-reference b z)),
        ),
      )
  | inr own ↦
      let uncut : (ds_readonly b && leb (suc n) b.used) ≡ false = ground arith in
      rw uncut (cut_block m b n v (ground arith) h)
]

-- Cutting a string that owns its block to length 0 changes nothing: the call returns 0, and the
-- contents are the old ones.
pub ds_truncate_zero :
    (m : Allocator) (b : Dynstr)
    → IsSound b
    → 0 < b.len
    → Returns (ds_truncate m (some b) (pos 0)) (HasMade 0 (contents (some b)))
unfolding ds_truncate truncate_end shrink_reference ds_append append_to append_end needed ensure
    put_bytes opened store
ds_truncate_zero m b v owned =
    let fits = v.fits in
    let room = v.room owned in
    let uncut : (ds_readonly b && leb 0 b.used) ≡ false = ground arith in
    let no_more : ltb b.len (b.used + 0 + 1) ≡ false = ground arith in
    let str = splice (b.used + 0) (replicate 1 0) b.str in
    let e = fill_lem b.str (b.used + 0) 1 0 (omega arith) in
    let size = length-fill b.str (b.used + 0) 1 0 e in
    let t = record b { used = b.used + 0; str = str } in
    let cells : take (b.used + 0) str ≡ take b.used b.str =
      get_elem?_ext (take (b.used + 0) str) (take b.used b.str) λ i. ground (
        arith,
        get_elem?-take (b.used + 0) str i,
        get_elem?-fill b.str (b.used + 0) 1 0 i e,
        get_elem?-take b.used b.str i,
      ) in
    rw uncut (
      (value 0, some t),
      rw no_more (rw e refl),
      (
        refl,
        record { fits = omega arith; room = λ _. omega arith; behind = λ z. absurd (omega arith) },
        contents-owned t owned ∙ cells ∙ sym (contents-owned b owned),
      ),
    )

shift_block :
    (b : Dynstr) (n : ℕ)
    → IsSound b
    → 0 < b.len
    → n ≤ b.used
    → Returns (shift_by b n) (HasMade (b.used - n) (drop n (contents (some b))))
unfolding shift_by store
shift_block b n v owned h =
    let fits = v.fits in
    let room = v.room owned in
    let left = b.used - n in
    let own : ds_readonly (record b { used = left }) ≡ false = ground arith in
    let str = splice 0 (take left (drop n b.str)) b.str in
    let e = move_lem b.str 0 n left (omega arith) (omega arith) in
    let size = length-move b.str 0 n left e in
    let str' = splice left (replicate 1 0) str in
    let e' = fill_lem str left 1 0 (omega arith) in
    let size' = length-fill str left 1 0 e' in
    let t = record b { used = left; str = str' } in
    let cells : take left str' ≡ drop n (take b.used b.str) =
      get_elem?_ext (take left str') (drop n (take b.used b.str)) λ i. ground (
        arith,
        get_elem?-take left str' i,
        get_elem?-fill str left 1 0 i e',
        get_elem?-move b.str 0 n left i e,
        get_elem?-drop n (take b.used b.str) i,
        get_elem?-take b.used b.str (n + i),
      ) in
    rw own (
      (value left, some t),
      rw e (rw e' refl),
      (
        refl,
        record { fits = omega arith; room = λ _. omega arith; behind = λ z. absurd (omega arith) },
        contents-owned t owned ∙ cells ∙ ap (drop n) (sym (contents-owned b owned)),
      ),
    )

shift_reference :
    (b : Dynstr) (n : ℕ)
    → IsSound b
    → b.len ≡ 0
    → n < b.used
    → Returns (shift_by b n) (HasMade (b.used - n) (drop n (contents (some b))))
unfolding shift_by
shift_reference b n v reference h =
    let left = b.used - n in
    let behind = v.behind reference in
    let size = length-drop n b.ref in
    let still : ds_readonly (record b { used = left }) ≡ true = ground arith in
    let t = record b { used = left; ref = drop n b.ref } in
    let cells : take left (drop n b.ref) ≡ drop n (take b.used b.ref) =
      get_elem?_ext (take left (drop n b.ref)) (drop n (take b.used b.ref)) λ i. ground (
        arith,
        get_elem?-take left (drop n b.ref) i,
        get_elem?-drop n b.ref i,
        get_elem?-drop n (take b.used b.ref) i,
        get_elem?-take b.used b.ref (n + i),
      ) in
    rw still (
      (value left, some t),
      refl,
      (
        refl,
        record { fits = v.fits; room = λ k. absurd (omega arith); behind = λ _. omega arith },
        contents-reference t reference ∙ cells ∙ ap (drop n) (sym (contents-reference b reference)),
      ),
    )

-- Shifting a valid string by at most its length, or by less where it is a reference, returns the
-- length that is left and drops the first bytes of the contents.
pub ds_shift-HasMade :
    (b : Dynstr) (n : ℕ)
    → IsSound b
    → n ≤ b.used
    → (b.len ≡ 0 → n < b.used)
    → Returns (ds_shift (some b) (pos n)) (HasMade (b.used - n) (drop n (contents (some b))))
unfolding ds_shift
ds_shift-HasMade b n v h less =
    let in_string : ltb b.used n ≡ false = ground arith in
    rw in_string (elim (Bool-cases (b.len == 0)) [
      | inl reference ↦ let z : b.len ≡ 0 = ground arith in shift_reference b n v z (less z)
      | inr own ↦ shift_block b n v (ground arith) h
    ])

-- Resetting a valid string leaves a valid string with no contents.
pub ds_reset_empties :
    (s : Option Dynstr) → IsValid s → Returns (ds_reset s) (λ t. IsValid t × (contents t ≡ []))
unfolding ds_reset contents ds_data ds_len store
ds_reset_empties none v = (none, refl, (tt, refl))
ds_reset_empties (some b) v = elim (Bool-cases (b.len == 0)) [
  | inl reference ↦ rw reference (
    some (record b { used = 0 }),
    refl,
    (record { fits = v.fits; room = λ h. h; behind = λ _. omega arith }, refl),
  )
  | inr own ↦
      let fits = v.fits in
      let owned : 0 < b.len = ground arith in
      let e = fill_lem b.str 0 1 0 (omega arith) in
      let size = length-fill b.str 0 1 0 e in
      rw own (
        some (record b { used = 0; str = splice 0 (replicate 1 0) b.str }),
        rw e refl,
        (record { fits = omega arith; room = λ h. h; behind = λ _. omega arith }, refl),
      )
]
