-- ===== src/Launchpad/Table/Unique/Counts.antt =====
-- launchpad.c: the second pass of the removal of duplicates, counted.
use kindle_myts.Base.{
  ℕ, zero, suc, ◌+◌, ◌≡◌, refl, arith, ◌&&◌, not, List, [], ◌∷◌, ◌++◌, if◌then◌else◌, inl, inr,
  Bool-cases,
}
use mathlib.Core.Path.{ap, ◌∙◌}
use kindle_myts.Launchpad.{KeyEntry}
use kindle_myts.Launchpad.Table.Unique.{
  is_marked, is_name, last_entry, but_last, placed, left_behind, bubble,
}

-- 1 for an entry of the name without a mark
abbrev pub one_of : KeyEntry → KeyEntry → ℕ
one_of f e = if not (is_marked e) && is_name f e then 1 else 0

-- the number of entries of a name without a mark
unfoldable pub count_name : KeyEntry → List KeyEntry → ℕ
count_name f [] = 0
count_name f (e ∷ es) = one_of f e + count_name f es

count_name-append :
    (f : KeyEntry) (xs ys : List KeyEntry)
    → count_name f (xs ++ ys) ≡ count_name f xs + count_name f ys
unfolding count_name
count_name-append f [] ys = omega arith
count_name-append f (x ∷ xs) ys = let ih = count_name-append f xs ys in omega arith

count_name-last :
    (f e : KeyEntry) (rest : List KeyEntry)
    → count_name f (last_entry e rest ∷ but_last e rest) ≡ count_name f (e ∷ rest)
unfolding count_name last_entry but_last
count_name-last f e [] = refl
count_name-last f e (g ∷ rest) = let ih = count_name-last f g rest in omega arith

count_name-placed :
    (f e : KeyEntry) (rest : List KeyEntry)
    → count_name f (placed e rest) + count_name f (left_behind e rest) ≡ count_name f (e ∷ rest)
unfolding placed left_behind count_name
count_name-placed f e [] = elim (Bool-cases (is_marked e)) [
  | inl marked ↦ rw marked refl
  | inr free ↦ rw free (rw free (omega arith))
]
count_name-placed f e (g ∷ rest) = elim (Bool-cases (is_marked e)) [
  | inl marked ↦ let ih = count_name-last f g rest in rw marked (omega arith)
  | inr free ↦ rw free (rw free (omega arith))
]

pub count_name-bubble :
    (n : ℕ) (f : KeyEntry) (es : List KeyEntry) → count_name f (bubble n es) ≡ count_name f es
unfolding bubble
count_name-bubble zero f es = refl
count_name-bubble (suc n) f [] = refl
count_name-bubble (suc n) f (e ∷ rest) =
    count_name-append f (placed e rest) (bubble n (left_behind e rest))
    ∙ (ap (λ b. count_name f (placed e rest) + b) (count_name-bubble n f (left_behind e rest))
        ∙ count_name-placed f e rest)
