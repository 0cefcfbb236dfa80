-- ===== src/Launchpad/Table.antt =====
-- launchpad.c: `ecmp` and `ecmp1`, the order of the key table that `qsort` and `bsearch` rely on.
pub mod Unique
use kindle_myts.Base.{
  ℕ, zero, suc, ◌≡◌, refl, arith, Bool, true, false, List, [], ◌∷◌, ltb, ◌==◌, if◌then◌else◌, inl,
  inr, Bool-cases,
}
use mathlib.Core.Path.{subst, sym}
use kindle_myts.Config.{lower}
use kindle_myts.Launchpad.{KeyEntry, first_byte}

-- the sign of a difference
pub data Sign : Type 0 where
  before : Sign
  equal : Sign
  after : Sign

abbrev pub sign : ℕ → ℕ → Sign
sign a b = if ltb a b then before else if a == b then equal else after

abbrev pub tail : List ℕ → List ℕ
tail [] = []
tail (c ∷ cs) = cs

-- One byte of `strncasecmp`, with the result for those behind.
abbrev pub compare_byte : ℕ → ℕ → Sign → Sign
compare_byte a b rest = if a == b then (if a == 0 then equal else rest) else sign a b

unfoldable pub strncasecmp : List ℕ → List ℕ → ℕ → Sign
strncasecmp l r zero = equal
strncasecmp l r (suc n) =
    compare_byte (lower (first_byte l)) (lower (first_byte r)) (strncasecmp (tail l) (tail r) n)

-- with names of the same length
unfoldable pub compare_names : KeyEntry → KeyEntry → Sign
unfolding strncasecmp
compare_names l r =
    if l.namelen == 1
    then sign (first_byte l.name) (first_byte r.name)
    else strncasecmp l.name r.name l.namelen

unfoldable pub ecmp : KeyEntry → KeyEntry → Sign
unfolding compare_names
ecmp l r = if l.namelen == r.namelen then compare_names l r else sign l.namelen r.namelen

-- `d ? d : l->type - r->type`
abbrev pub or_types : Sign → ℕ → ℕ → Sign
or_types before a b = before
or_types equal a b = sign a b
or_types after a b = after

unfoldable pub ecmp1 : KeyEntry → KeyEntry → Sign
unfolding ecmp
ecmp1 l r = or_types (ecmp l r) l.type r.type

abbrev pub flip : Sign → Sign
flip before = after
flip equal = equal
flip after = before

abbrev pub not_after : Sign → Bool
not_after before = true
not_after equal = true
not_after after = false

flip-sign : (a b : ℕ) → sign b a ≡ flip (sign a b)
flip-sign a b = ground arith

sign_trans :
    (a b c : ℕ)
    → not_after (sign a b) ≡ true
    → not_after (sign b c) ≡ true
    → not_after (sign a c) ≡ true
sign_trans a b c h k = ground arith

flip-compare_byte :
    (a b : ℕ) (s t : Sign) → t ≡ flip s → compare_byte b a t ≡ flip (compare_byte a b s)
flip-compare_byte a b s t h = ground arith

byte_trans :
    (a b c : ℕ) (s t u : Sign)
    → (not_after s ≡ true → not_after t ≡ true → not_after u ≡ true)
    → not_after (compare_byte a b s) ≡ true
    → not_after (compare_byte b c t) ≡ true
    → not_after (compare_byte a c u) ≡ true
byte_trans a b c s t u ih h k = ground arith

flip-strncasecmp : (l r : List ℕ) (n : ℕ) → strncasecmp r l n ≡ flip (strncasecmp l r n)
unfolding strncasecmp
flip-strncasecmp l r zero = refl
flip-strncasecmp l r (suc n) =
    flip-compare_byte (lower (first_byte l)) (lower (first_byte r))
      (strncasecmp (tail l) (tail r) n) (strncasecmp (tail r) (tail l) n)
      (flip-strncasecmp (tail l) (tail r) n)

strncasecmp_trans :
    (l m r : List ℕ) (n : ℕ)
    → not_after (strncasecmp l m n) ≡ true
    → not_after (strncasecmp m r n) ≡ true
    → not_after (strncasecmp l r n) ≡ true
unfolding strncasecmp
strncasecmp_trans l m r zero h k = refl
strncasecmp_trans l m r (suc n) h k =
    byte_trans (lower (first_byte l)) (lower (first_byte m)) (lower (first_byte r))
      (strncasecmp (tail l) (tail m) n) (strncasecmp (tail m) (tail r) n)
      (strncasecmp (tail l) (tail r) n) (strncasecmp_trans (tail l) (tail m) (tail r) n) h k

-- `compare_names` at a length of both names
names_at : ℕ → KeyEntry → KeyEntry → Sign
names_at n l r =
    if n == 1 then sign (first_byte l.name) (first_byte r.name) else strncasecmp l.name r.name n

flip-names_at : (n : ℕ) (l r : KeyEntry) → names_at n r l ≡ flip (names_at n l r)
unfolding names_at
flip-names_at n l r = elim (Bool-cases (n == 1)) [
  | inl one ↦ rw one (flip-sign (first_byte l.name) (first_byte r.name))
  | inr more ↦ rw more (flip-strncasecmp l.name r.name n)
]

names_at_trans :
    (n : ℕ) (l m r : KeyEntry)
    → not_after (names_at n l m) ≡ true
    → not_after (names_at n m r) ≡ true
    → not_after (names_at n l r) ≡ true
unfolding names_at
names_at_trans n l m r h k = elim (Bool-cases (n == 1)) [
  | inl one ↦ rw one (
      sign_trans (first_byte l.name) (first_byte m.name) (first_byte r.name) (rw one at h)
        (rw one at k))
  | inr more ↦ rw more (strncasecmp_trans l.name m.name r.name n (rw more at h) (rw more at k))
]

-- the order by length, and then by `s`
by_length : ℕ → ℕ → Sign → Sign
by_length a b s = if a == b then s else sign a b

flip-by_length :
    (a b : ℕ) (s t : Sign) → (a ≡ b → t ≡ flip s) → by_length b a t ≡ flip (by_length a b s)
unfolding by_length
flip-by_length a b s t h = ground arith

by_length_trans :
    (a b c : ℕ) (s t u : Sign)
    → (a ≡ b → b ≡ c → not_after s ≡ true → not_after t ≡ true → not_after u ≡ true)
    → not_after (by_length a b s) ≡ true
    → not_after (by_length b c t) ≡ true
    → not_after (by_length a c u) ≡ true
unfolding by_length
by_length_trans a b c s t u ih h k = ground arith

pub flip-ecmp : (l r : KeyEntry) → ecmp r l ≡ flip (ecmp l r)
unfolding ecmp by_length names_at
flip-ecmp l r =
    flip-by_length l.namelen r.namelen (names_at l.namelen l r) (names_at r.namelen r l) (λ e.
      subst (λ n. names_at n r l ≡ flip (names_at l.namelen l r)) e (flip-names_at l.namelen l r))

pub ecmp_trans :
    (l m r : KeyEntry)
    → not_after (ecmp l m) ≡ true
    → not_after (ecmp m r) ≡ true
    → not_after (ecmp l r) ≡ true
unfolding ecmp by_length names_at
ecmp_trans l m r =
    by_length_trans l.namelen m.namelen r.namelen (names_at l.namelen l m) (names_at m.namelen m r)
      (names_at l.namelen l r)
      (λ e f h k.
        names_at_trans l.namelen l m r h (subst (λ n. not_after (names_at n m r) ≡ true) (sym e) k))

flip-or_types : (s t : Sign) (a b : ℕ) → t ≡ flip s → or_types t b a ≡ flip (or_types s a b)
flip-or_types before t a b e = rw e refl
flip-or_types equal t a b e = rw e (flip-sign a b)
flip-or_types after t a b e = rw e refl

-- Ties broken by the types: the three conditions say that the signs of three entries fit together.
types_trans :
    (s t u : Sign) (a b c : ℕ)
    → (not_after s ≡ true → not_after t ≡ true → not_after u ≡ true)
    → (not_after t ≡ true → not_after (flip u) ≡ true → not_after (flip s) ≡ true)
    → (not_after (flip u) ≡ true → not_after s ≡ true → not_after (flip t) ≡ true)
    → not_after (or_types s a b) ≡ true
    → not_after (or_types t b c) ≡ true
    → not_after (or_types u a c) ≡ true
types_trans after t u a b c f g p h k = cc
types_trans before after u a b c f g p h k = cc
types_trans equal after u a b c f g p h k = cc
types_trans before before before a b c f g p h k = refl
types_trans before equal before a b c f g p h k = refl
types_trans equal before before a b c f g p h k = refl
types_trans equal equal before a b c f g p h k = refl
types_trans before before after a b c f g p h k = f refl refl
types_trans before equal after a b c f g p h k = f refl refl
types_trans equal before after a b c f g p h k = f refl refl
types_trans equal equal after a b c f g p h k = f refl refl
types_trans before before equal a b c f g p h k = let no_way : false ≡ true = g refl refl in cc
types_trans before equal equal a b c f g p h k = let no_way : false ≡ true = g refl refl in cc
types_trans equal before equal a b c f g p h k = let no_way : false ≡ true = p refl refl in cc
types_trans equal equal equal a b c f g p h k = sign_trans a b c h k

-- `ecmp` and `ecmp1` are orders that `qsort` and `bsearch` can use: exchanged arguments give the
-- opposite sign, and where one entry does not come after a second, and the second not after a third, the
-- first does not come after the third.
pub ecmp_sorts :
    (l m r : KeyEntry)
    → (ecmp r l ≡ flip (ecmp l r))
      × (ecmp1 r l ≡ flip (ecmp1 l r))
      × (not_after (ecmp l m) ≡ true → not_after (ecmp m r) ≡ true → not_after (ecmp l r) ≡ true)
      × (not_after (ecmp1 l m) ≡ true → not_after (ecmp1 m r) ≡ true → not_after (ecmp1 l r) ≡ true)
unfolding ecmp1
ecmp_sorts l m r = (
  flip-ecmp l r,
  flip-or_types (ecmp l r) (ecmp r l) l.type r.type (flip-ecmp l r),
  ecmp_trans l m r,
  types_trans (ecmp l m) (ecmp m r) (ecmp l r) l.type m.type r.type (ecmp_trans l m r)
      (λ h k.
        subst (λ s. not_after s ≡ true) (flip-ecmp l m)
          (ecmp_trans m r l h (subst (λ s. not_after s ≡ true) (sym (flip-ecmp l r)) k)))
      (λ h k.
        subst (λ s. not_after s ≡ true) (flip-ecmp m r)
          (ecmp_trans r l m (subst (λ s. not_after s ≡ true) (sym (flip-ecmp l r)) h) k)),
)
