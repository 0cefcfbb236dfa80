-- ===== src/Launchpad/Tests/Tables.antt =====
-- launchpad.c: the duplicates of a small key table.
use kindle_myts.Base.{ℕ, ◌≡◌, refl, List, [], ◌∷◌}
use kindle_myts.Launchpad.{KeyEntry}
use kindle_myts.Launchpad.Table.{ecmp, compare_names, strncasecmp}
use kindle_myts.Launchpad.Table.Unique.{
  mark_after, mark_dups, last_entry, but_last, placed, left_behind, bubble, remove_dups, has_name,
  AllUnmarked,
}
use kindle_myts.Launchpad.Table.Unique.Counts.{count_name}
use kindle_myts.Launchpad.Table.Unique.Once.{IsSorted, once, remove_dups-once}

abbrev key_of : ℕ → ℕ → KeyEntry
key_of c code = record { name = c ∷ []; namelen = 1; type = 0; code = code; ysteps = 0 }

abbrev table : List KeyEntry
table = key_of b'a' 30 ∷ key_of b'a' 31 ∷ key_of b'b' 48 ∷ key_of b'b' 49 ∷ []

-- The duplicate of b is moved to the place of the duplicate of a, and stays with its mark.
remove_dups_stays :
    remove_dups table
    ≡ key_of b'a' 30 ∷ record (key_of b'b' 49) { type = 255 } ∷ key_of b'b' 48 ∷ []
unfolding remove_dups bubble placed left_behind last_entry but_last mark_dups mark_after ecmp
    compare_names strncasecmp
remove_dups_stays = refl

remove_dups-once_example :
    count_name (key_of b'b' 0) (remove_dups table) ≡ once (has_name (key_of b'b' 0) table)
unfolding AllUnmarked IsSorted ecmp compare_names
remove_dups-once_example =
    remove_dups-once (key_of b'b' 0) table (refl, (refl, (refl, (refl, tt))))
      (refl, (refl, (refl, tt)))
