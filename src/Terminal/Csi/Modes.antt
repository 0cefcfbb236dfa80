-- ===== src/Terminal/Csi/Modes.antt =====
-- terminal.c, `do_csi`: set and reset mode, and the graphic rendition.
use kindle_myts.Base.{
  ℕ, ◌-◌, ◌*◌, Bool, true, false, ◌&&◌, ◌||◌, List, [], ◌∷◌, Option, none, some, leb, ◌==◌,
  if◌then◌else◌, bit_and, bit_or, take,
}
use kindle_myts.Terminal.{Screen, region_start}
use kindle_myts.Terminal.Csi.Params.{Args}
use kindle_myts.Terminal.Page.{erase}

-- case 'h' behind a '?'
unfoldable pub set_dec_mode : Screen → ℕ → Option Screen
set_dec_mode s a1 =
    if a1 == 1
    then some (record s { priv = true })
    else if a1 == 3
    then erase (record s { cur = 0 }) 0 s.pagelen
    else if a1 == 25
    then some (record s { nocursor = false })
    else if a1 == 6
    then some (record s { originmode = true; cur = region_start s; wrapped = false })
    else if a1 == 7
    then some (record s { nowrap = false })
    else some s

-- case 'l' behind a '?'
unfoldable pub reset_dec_mode : Screen → ℕ → Option Screen
reset_dec_mode s a1 =
    if a1 == 1
    then some (record s { priv = false })
    else if a1 == 3
    then erase (record s { cur = 0 }) 0 s.pagelen
    else if a1 == 25
    then some (record s { nocursor = true })
    else if a1 == 6
    then some (record s { originmode = false; cur = 0; wrapped = false })
    else some s

-- The arguments that fall through to the foreground case: bold, underline, blink, reverse and
-- their removal, and 30 to 37.
abbrev pub is_foreground : ℕ → Bool
is_foreground a =
    (a == 1 || (a == 4 || (a == 5 || (a == 7 || (a == 22 || (a == 24 || (a == 25 || a == 27)))))))
    || (leb 30 a && leb a 37)

abbrev pub is_background : ℕ → Bool
is_background a = leb 40 a && leb a 47

-- One round of the loop of case 'm' on the `uint8_t` attributes; `none` is the `goto notfound`.
unfoldable pub rendition : ℕ → ℕ → Option ℕ
rendition attr a =
    if a == 0
    then some 0
    else if is_foreground a
    then some (bit_or (bit_and attr 0xf8) (37 - a))
    else if a == 39
    then some (bit_and attr 0xf8)
    else if is_background a
    then some (bit_or (bit_and attr 0xc7) ((47 - a) * 8))
    else if a == 49
    then some (bit_and attr 0xc7)
    else none

unfoldable pub renditions : ℕ → List ℕ → ℕ
renditions attr [] = attr
renditions attr (a ∷ as') = elim (rendition attr a) [ none ↦ attr | some b ↦ renditions b as' ]

-- case 'm'
unfoldable pub graphic_rendition : Screen → Args → Screen
unfolding renditions rendition
graphic_rendition s a =
    let args = if a.n == 0 then 0 ∷ [] else take a.n (a.a1 ∷ a.a2 ∷ a.a3 ∷ []) in
    record s { cur_attr = renditions s.cur_attr args }
