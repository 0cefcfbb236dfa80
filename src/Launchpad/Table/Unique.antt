-- ===== src/Launchpad/Table/Unique.antt =====
-- launchpad.c: the removal of duplicates from the sorted key table in `launchpad_init`.
pub mod Counts
pub mod Once
use kindle_myts.Base.{
  ℕ, zero, suc, ◌≡◌, refl, Bool, true, false, ◌&&◌, ◌||◌, not, List, [], ◌∷◌, ◌++◌, ◌==◌, length,
  if◌then◌else◌, inl, inr, Bool-cases,
}
use mathlib.Core.Path.{ap, sym, ◌∙◌}
use kindle_myts.Launchpad.{KeyEntry}
use kindle_myts.Launchpad.Table.{
  Sign, before, equal, after, ecmp, flip, not_after, flip-ecmp, ecmp_trans,
}

abbrev pub is_equal : Sign → Bool
is_equal before = false
is_equal equal = true
is_equal after = false

abbrev pub is_marked : KeyEntry → Bool
is_marked e = e.type == 255

-- the first pass, behind an entry
unfoldable pub mark_after : KeyEntry → List KeyEntry → List KeyEntry
mark_after e [] = []
mark_after e (g ∷ rest) =
    let h = if is_equal (ecmp e g) then record g { type = 255 } else g in h ∷ mark_after h rest

unfoldable pub mark_dups : List KeyEntry → List KeyEntry
unfolding mark_after
mark_dups [] = []
mark_dups (e ∷ rest) = e ∷ mark_after e rest

-- the last of entries that are not none
unfoldable pub last_entry : KeyEntry → List KeyEntry → KeyEntry
last_entry e [] = e
last_entry e (g ∷ rest) = last_entry g rest

-- the entries without the last
unfoldable pub but_last : KeyEntry → List KeyEntry → List KeyEntry
but_last e [] = []
but_last e (g ∷ rest) = e ∷ but_last g rest

-- what stands in the place of an entry in front of others
unfoldable pub placed : KeyEntry → List KeyEntry → List KeyEntry
unfolding last_entry
placed e [] = if is_marked e then [] else e ∷ []
placed e (g ∷ rest) = (if is_marked e then last_entry g rest else e) ∷ []

-- what is left behind it
unfoldable pub left_behind : KeyEntry → List KeyEntry → List KeyEntry
unfolding but_last
left_behind e [] = []
left_behind e (g ∷ rest) = if is_marked e then but_last g rest else g ∷ rest

-- The second pass. What is moved to a place is not looked at again.
unfoldable pub bubble : ℕ → List KeyEntry → List KeyEntry
unfolding placed left_behind
bubble zero es = es
bubble (suc n) [] = []
bubble (suc n) (e ∷ rest) = placed e rest ++ bubble n (left_behind e rest)

-- Each round is done with one entry.
unfoldable pub remove_dups : List KeyEntry → List KeyEntry
unfolding mark_dups bubble
remove_dups es = bubble (length es) (mark_dups es)

abbrev pub is_name : KeyEntry → KeyEntry → Bool
is_name f e = is_equal (ecmp f e)

-- an entry without a mark has the name
unfoldable pub has_name : KeyEntry → List KeyEntry → Bool
has_name f [] = false
has_name f (e ∷ es) = (not (is_marked e) && is_name f e) || has_name f es

unfoldable pub AllUnmarked : List KeyEntry → Type 0
AllUnmarked [] = Unit
AllUnmarked (e ∷ es) = (is_marked e ≡ false) × AllUnmarked es

-- Two signs that are after nothing, and before nothing, together are zero together.
equal_together :
    (s t : Sign)
    → (not_after s ≡ true → not_after t ≡ true)
    → (not_after t ≡ true → not_after s ≡ true)
    → (not_after (flip s) ≡ true → not_after (flip t) ≡ true)
    → (not_after (flip t) ≡ true → not_after (flip s) ≡ true)
    → is_equal s ≡ is_equal t
equal_together before before a b c d = refl
equal_together before after a b c d = refl
equal_together after before a b c d = refl
equal_together after after a b c d = refl
equal_together equal equal a b c d = refl
equal_together before equal a b c d = let no_way : false ≡ true = d refl in cc
equal_together equal before a b c d = let no_way : false ≡ true = c refl in cc
equal_together after equal a b c d = let no_way : false ≡ true = b refl in cc
equal_together equal after a b c d = let no_way : false ≡ true = a refl in cc

equal_not_after : (s : Sign) → is_equal s ≡ true → not_after s ≡ true
equal_not_after before h = refl
equal_not_after equal h = refl
equal_not_after after h = cc

flip_equal : (s : Sign) → is_equal s ≡ true → not_after (flip s) ≡ true
flip_equal before h = cc
flip_equal equal h = refl
flip_equal after h = refl

-- Entries of one name have the same names.
pub is_name_same : (f e g : KeyEntry) → is_name e g ≡ true → is_name f e ≡ is_name f g
is_name_same f e g h =
    let to : not_after (ecmp e g) ≡ true = equal_not_after (ecmp e g) h in
    let back : not_after (ecmp g e) ≡ true = rw (flip-ecmp e g) (flip_equal (ecmp e g) h) in
    equal_together (ecmp f e) (ecmp f g) (λ k. ecmp_trans f e g k to) (λ k. ecmp_trans f g e k back)
      (λ k. rw (flip-ecmp f g) at (ecmp_trans g e f back (rw (flip-ecmp f e) k)))
      (λ k. rw (flip-ecmp f e) at (ecmp_trans e g f to (rw (flip-ecmp f g) k)))

-- A mark is no part of a name.
pub ecmp_marked : (f g : KeyEntry) → ecmp f (record g { type = 255 }) ≡ ecmp f g
unfolding ecmp
ecmp_marked f g = refl
