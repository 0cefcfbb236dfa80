-- ===== src/Launchpad/Table/Unique/Once.antt =====
-- launchpad.c: what the removal of duplicates leaves of a sorted key table.
use kindle_myts.Base.{
  ℕ, ◌≡◌, refl, arith, Bool, true, false, List, [], ◌∷◌, length, if◌then◌else◌, inl, inr,
  Bool-cases,
}
use mathlib.Core.Path.{ap, sym, ◌∙◌}
use kindle_myts.Launchpad.{KeyEntry}
use kindle_myts.Launchpad.Table.{
  Sign, before, equal, after, ecmp, flip, not_after, flip-ecmp, ecmp_trans,
}
use kindle_myts.Launchpad.Table.Unique.Counts.{one_of, count_name, count_name-bubble}
use kindle_myts.Launchpad.Table.Unique.{
  is_equal, is_marked, is_name, mark_after, mark_dups, remove_dups, has_name, AllUnmarked,
  is_name_same, ecmp_marked,
}

-- a table that is sorted behind an entry
unfoldable pub SortedAfter : KeyEntry → List KeyEntry → Type 0
SortedAfter e [] = Unit
SortedAfter e (g ∷ rest) = (not_after (ecmp e g) ≡ true) × SortedAfter g rest

unfoldable pub IsSorted : List KeyEntry → Type 0
unfolding SortedAfter
IsSorted [] = Unit
IsSorted (e ∷ rest) = SortedAfter e rest

sign_before :
    (s t u : Sign)
    → (not_after s ≡ true → not_after t ≡ true → not_after u ≡ true)
    → (not_after t ≡ true → not_after (flip u) ≡ true → not_after (flip s) ≡ true)
    → s ≡ before
    → not_after t ≡ true
    → u ≡ before
sign_before s t before a b h k = refl
sign_before s t equal a b h k =
    let no_way : not_after (flip s) ≡ true = b k refl in
    let bad : false ≡ true = rw h at no_way in cc
sign_before s t after a b h k = let no_way : false ≡ true = a (rw h refl) k in cc

-- What is in front of an entry is in front of those behind it.
before_next :
    (f e g : KeyEntry) → ecmp f e ≡ before → not_after (ecmp e g) ≡ true → ecmp f g ≡ before
before_next f e g =
    sign_before (ecmp f e) (ecmp e g) (ecmp f g) (ecmp_trans f e g)
      (λ h k. rw (flip-ecmp f e) at (ecmp_trans e g f h (rw (flip-ecmp f g) k)))

none_of : (f e : KeyEntry) → is_name f e ≡ false → one_of f e ≡ 0
none_of f e h = elim (Bool-cases (is_marked e)) [
  | inl marked ↦ rw marked refl
  | inr free ↦ rw free (rw h refl)
]

is_equal-flip : (s : Sign) → is_equal (flip s) ≡ is_equal s
is_equal-flip before = refl
is_equal-flip equal = refl
is_equal-flip after = refl

is_name_comm : (e f : KeyEntry) → is_name f e ≡ is_name e f
is_name_comm e f = rw (flip-ecmp e f) (is_equal-flip (ecmp e f))

must_be_before : (s : Sign) → not_after s ≡ true → is_equal s ≡ false → s ≡ before
must_be_before before h k = refl
must_be_before equal h k = cc
must_be_before after h k = cc

name_not_after : (s : Sign) → is_equal s ≡ true → not_after s ≡ true
name_not_after before h = refl
name_not_after equal h = refl
name_not_after after h = cc

before_differs : (s : Sign) → s ≡ before → is_equal s ≡ false
before_differs s h = rw h refl

-- A mark does not change where an entry stands.
sorted_marked :
    (g : KeyEntry) (rest : List KeyEntry)
    → SortedAfter g rest
    → SortedAfter (record g { type = 255 }) rest
unfolding SortedAfter ecmp
sorted_marked g [] sorted = tt
sorted_marked g (h ∷ rest) sorted = sorted

none_behind :
    (f e : KeyEntry) (rest : List KeyEntry)
    → ecmp f e ≡ before
    → SortedAfter e rest
    → count_name f (mark_after e rest) ≡ 0
unfolding mark_after count_name SortedAfter
none_behind f e [] first sorted = refl
none_behind f e (g ∷ rest) first (next, sorted) =
    let g_first = before_next f e g first next in
    elim (Bool-cases (is_name e g)) [
      | inl dup ↦
          let ih =
            none_behind f (record g { type = 255 }) rest (ecmp_marked f g ∙ g_first)
              (sorted_marked g rest sorted) in
          rw dup (rw ih refl)
      | inr new ↦
          let ih = none_behind f g rest g_first sorted in
          let no_g = none_of f g (before_differs (ecmp f g) g_first) in
          rw new (rw no_g (rw ih refl))
    ]

-- The one that differs from an entry of the name comes behind the name.
name_before :
    (f e g : KeyEntry)
    → is_name f e ≡ true
    → is_name e g ≡ false
    → not_after (ecmp e g) ≡ true
    → ecmp f g ≡ before
name_before f e g same new next =
    must_be_before (ecmp f g) (ecmp_trans f e g (name_not_after (ecmp f e) same) next) (
      is_name_comm g f
      ∙ (sym (is_name_same g e f (is_name_comm f e ∙ same)) ∙ (is_name_comm e g ∙ new)))

none_again :
    (f e : KeyEntry) (rest : List KeyEntry)
    → is_name f e ≡ true
    → SortedAfter e rest
    → count_name f (mark_after e rest) ≡ 0
unfolding mark_after count_name SortedAfter
none_again f e [] same sorted = refl
none_again f e (g ∷ rest) same (next, sorted) = elim (Bool-cases (is_name e g)) [
  | inl dup ↦
      let ih =
        none_again f (record g { type = 255 }) rest
          (ap is_equal (ecmp_marked f g) ∙ (sym (is_name_same f e g dup) ∙ same))
          (sorted_marked g rest sorted) in
      rw dup (rw ih refl)
  | inr new ↦
      let g_first = name_before f e g same new next in
      let ih = none_behind f g rest g_first sorted in
      let no_g = none_of f g (before_differs (ecmp f g) g_first) in rw new (rw no_g (rw ih refl))
]

-- 1 where the name is there
abbrev pub once : Bool → ℕ
once b = if b then 1 else 0

first_counts :
    (f e : KeyEntry) (rest : List KeyEntry)
    → is_name f e ≡ false
    → AllUnmarked rest
    → SortedAfter e rest
    → count_name f (mark_after e rest) ≡ once (has_name f rest)
unfolding mark_after count_name SortedAfter AllUnmarked has_name
first_counts f e [] other free sorted = refl
first_counts f e (g ∷ rest) other (g_free, free) (next, sorted) = elim (Bool-cases (is_name e g)) [
  | inl dup ↦
      let no_g = sym (is_name_same f e g dup) ∙ other in
      let ih =
        first_counts f (record g { type = 255 }) rest (ap is_equal (ecmp_marked f g) ∙ no_g) free
          (sorted_marked g rest sorted) in
      rw dup (rw g_free (rw no_g (rw ih (omega arith))))
  | inr new ↦ elim (Bool-cases (is_name f g)) [
    | inl same ↦
        let ih = none_again f g rest same sorted in rw new (rw g_free (rw same (rw ih refl)))
    | inr other_g ↦
        let ih = first_counts f g rest other_g free sorted in
        rw new (rw g_free (rw other_g (rw ih (omega arith))))
  ]
]

mark_dups_counts :
    (f : KeyEntry) (es : List KeyEntry)
    → AllUnmarked es
    → IsSorted es
    → count_name f (mark_dups es) ≡ once (has_name f es)
unfolding mark_dups count_name IsSorted AllUnmarked has_name
mark_dups_counts f [] free sorted = refl
mark_dups_counts f (e ∷ rest) (e_free, free) sorted = elim (Bool-cases (is_name f e)) [
  | inl same ↦ let ih = none_again f e rest same sorted in rw e_free (rw same (rw ih refl))
  | inr other ↦
      let ih = first_counts f e rest other free sorted in rw e_free (rw other (rw ih (omega arith)))
]

-- For a sorted table without marks, the removal of duplicates leaves exactly one entry without a mark
-- for each name that the table has, and none for other names.
pub remove_dups-once :
    (f : KeyEntry) (es : List KeyEntry)
    → AllUnmarked es
    → IsSorted es
    → count_name f (remove_dups es) ≡ once (has_name f es)
unfolding remove_dups
remove_dups-once f es free sorted =
    count_name-bubble (length es) f (mark_dups es) ∙ mark_dups_counts f es free sorted
