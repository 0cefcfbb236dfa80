-- ===== src/Engine/Display/Flashes.antt =====
-- graphics/eink_display.hpp: how many updates of an area come after one another.
use kindle_myts.Base.{
  ℕ, ◌+◌, ◌≡◌, refl, ◌∙◌, arith, Bool, true, false, Option, none, some, List, [], ◌∷◌, inl, inr,
  Bool-cases, if◌then◌else◌, ltb,
}
use mathlib.Core.Path.{subst}
use kindle_myts.Base.Int.{ℤ}
use kindle_myts.Engine.Geometry.{Rect}
use kindle_myts.Engine.Display.{
  RefreshConfig, Display, Update, full, area, mark_dirty, should_escalate_to_full, flush,
  flush_from, flush_region, refresh_full,
}

-- what the program does with a display
pub data DisplayOp : Type 0 where
  mark : Rect → DisplayOp
  flush_op refresh_op : DisplayOp

abbrev pub with_call : Option Update → List Update → List Update
with_call none us = us
with_call (some u) us = u ∷ us

module _ (reaches : ℤ → ℤ → Bool) where
  unfoldable pub operate : DisplayOp → Display → Option Update × Display
  unfolding mark_dirty flush refresh_full
  operate (mark box) d = (none, mark_dirty box d)
  operate flush_op d = flush reaches d
  operate refresh_op d = refresh_full d

  -- the calls of the driver, in their order
  unfoldable pub calls : List DisplayOp → Display → List Update
  unfolding operate
  calls [] d = []
  calls (op ∷ ops) d = let (u, e) = operate op d in with_call u (calls ops e)

-- After `n` updates of an area in a row, fewer than `limit` of them always come in a row.
unfoldable pub few_in_row : ℕ → ℕ → List Update → Bool
few_in_row limit n [] = true
few_in_row limit n (full ∷ us) = few_in_row limit 0 us
few_in_row limit n (area r ∷ us) = if ltb (n + 1) limit then few_in_row limit (n + 1) us else false

-- An area comes only where there is room for one more.
room :
    (reaches : ℤ → ℤ → Bool) (cfg : RefreshConfig) (r : Rect) (d : Display)
    → cfg.auto_full_refresh ≡ true
    → d.config ≡ cfg
    → should_escalate_to_full reaches r d ≡ false
    → ltb (d.partial_updates_count + 1) cfg.partial_limit ≡ true
unfolding should_escalate_to_full
room reaches cfg r d auto e part = ground arith

marked_config : (box : Rect) (d : Display) → (mark_dirty box d).config ≡ d.config
unfolding mark_dirty
marked_config box d = ground arith

marked_count :
    (box : Rect) (d : Display) → (mark_dirty box d).partial_updates_count ≡ d.partial_updates_count
unfolding mark_dirty
marked_count box d = ground arith

few_behind_flush :
    (reaches : ℤ → ℤ → Bool) (cfg : RefreshConfig) (region : Option Rect) (d : Display)
    (us : Display → List Update)
    → cfg.auto_full_refresh ≡ true
    → d.config ≡ cfg
    → ((f : Display)
        → f.config ≡ cfg
        → few_in_row cfg.partial_limit f.partial_updates_count (us f) ≡ true)
    → few_in_row cfg.partial_limit d.partial_updates_count
        (with_call (flush_from reaches region d).0 (us (flush_from reaches region d).1))
      ≡ true
unfolding flush_from flush_region few_in_row
few_behind_flush reaches cfg none d us auto e rest = rest d e
few_behind_flush reaches cfg (some r) d us auto e rest =
    elim (Bool-cases (should_escalate_to_full reaches r d)) [
      | inl all ↦ rw all (rest (record d { dirty_region = none; partial_updates_count = 0 }) e)
      | inr part ↦ rw part (
          rw (room reaches cfg r d auto e part) (
            rest
              (record d {
                dirty_region = none;
                partial_updates_count = d.partial_updates_count + 1;
              })
              e))
    ]

few_from :
    (reaches : ℤ → ℤ → Bool) (cfg : RefreshConfig) (ops : List DisplayOp) (d : Display)
    → cfg.auto_full_refresh ≡ true
    → d.config ≡ cfg
    → few_in_row cfg.partial_limit d.partial_updates_count (calls reaches ops d) ≡ true
unfolding calls operate few_in_row
few_from reaches cfg [] d auto e = refl
few_from reaches cfg (mark box ∷ ops) d auto e =
    subst (λ n. few_in_row cfg.partial_limit n (calls reaches ops (mark_dirty box d)) ≡ true)
      (marked_count box d)
      (few_from reaches cfg ops (mark_dirty box d) auto (marked_config box d ∙ e))
few_from reaches cfg (flush_op ∷ ops) d auto e =
    few_behind_flush reaches cfg d.dirty_region d (calls reaches ops) auto e
      (λ f same. few_from reaches cfg ops f auto same)
few_from reaches cfg (refresh_op ∷ ops) d auto e =
    few_from reaches cfg ops (record d { dirty_region = none; partial_updates_count = 0 }) auto e

-- With the automatic refresh on, whatever boxes are marked and whenever `flush` and `refresh_full` are
-- called, fewer than `partial_limit` calls of the driver in a row update an area; those that were counted
-- before the first call are taken in.
pub few_areas_in_row :
    (reaches : ℤ → ℤ → Bool) (ops : List DisplayOp) (d : Display)
    → d.config.auto_full_refresh ≡ true
    → few_in_row d.config.partial_limit d.partial_updates_count (calls reaches ops d) ≡ true
few_areas_in_row reaches ops d auto = few_from reaches d.config ops d auto refl
