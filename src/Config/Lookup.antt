-- ===== src/Config/Lookup.antt =====
-- config.c: a pair that is added is found, and the others stay.
use kindle_myts.Base.{
  ℕ, ◌≡◌, refl, ap, ◌∙◌, arith, true, false, List, [], ◌∷◌, none, some, Bool-cases, inl, inr,
}
use kindle_myts.Config.{
  Entry, Section, same_name, cfg_find_section, find_key, cfg_find_val, set_at, set_entry, set_pair,
}

pub same_name_refl : (name : List ℕ) → same_name name name ≡ true
unfolding same_name
same_name_refl [] = refl
same_name_refl (c ∷ cs) = ground (arith, same_name_refl cs)

set_entry_fresh :
    (keys : List Entry) (looked_up key val : List ℕ)
    → find_key keys looked_up ≡ none
    → set_entry keys looked_up key val ≡ record { key = key; value = val } ∷ keys
unfolding set_entry set_at
set_entry_fresh keys looked_up key val e = rw e refl

-- A pair whose look-up finds no entry is found under its key, and every key that is not the same
-- but for case is looked up as before.
pub cfg_find_val-set_pair :
    (db : List Section) (cur : List ℕ) (s : Section) (looked_up key val : List ℕ)
    → cfg_find_section db cur ≡ some s
    → find_key s.keys looked_up ≡ none
    → (cfg_find_val (set_pair db cur looked_up key val) cur key ≡ some val)
      × ((other : List ℕ)
          → same_name other key ≡ false
          → cfg_find_val (set_pair db cur looked_up key val) cur other ≡ cfg_find_val db cur other)
unfolding cfg_find_val cfg_find_section find_key set_pair
cfg_find_val-set_pair [] cur s looked_up key val found fresh = absurd (ground arith)
cfg_find_val-set_pair (t ∷ db) cur s looked_up key val found fresh =
    elim (Bool-cases (same_name cur t.name)) [
      | inl here ↦
          let e : t ≡ s = ground (arith, found) in
          let fresh' : find_key t.keys looked_up ≡ none =
            ap (λ u. find_key u.keys looked_up) e ∙ fresh in
          let set = set_entry_fresh t.keys looked_up key val fresh' in
          rw here (rw set (rw here (rw (same_name_refl key) (refl, λ other no. rw no refl))))
      | inr behind ↦
          let found' : cfg_find_section db cur ≡ some s = ground (arith, found) in
          let (same_key, other_key) =
            cfg_find_val-set_pair db cur s looked_up key val found' fresh in
          rw behind (rw behind same_key, λ other no. rw behind (other_key other no))
    ]
