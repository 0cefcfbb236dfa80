-- ===== src/Terminal.antt =====
-- terminal.c: the screen of a shell session, `struct my_sess` without its process and queues.
-- A cell of `page` is one list element, of `BYTES` bytes in C. The bits of `kflags` are fields.
pub mod Cursor
pub mod Page
pub mod Csi
pub mod Decode
pub mod Glyph
pub mod Append
mod Tests
pub mod Start
pub mod Keys
pub mod Shell
use kindle_myts.Base.{ℕ, ◌+◌, ◌-◌, ◌*◌, ◌≤◌, ◌<◌, ◌≡◌, Bool, List, length}

pub record Screen : Type 0 where
  -- `BYTES == 2`, a global that `init_font` sets once
  pub utf8 : Bool
  pub rows : ℕ
  pub cols : ℕ
  pub pagelen : ℕ
  pub cur : ℕ
  pub nowrap : Bool
  pub originmode : Bool
  pub scroll_top : ℕ
  pub scroll_bottom : ℕ
  pub cur_attr : ℕ
  pub priv : Bool
  pub nocursor : Bool
  pub graphics : Bool
  pub dographic : Bool
  pub wrapped : Bool
  pub page : List ℕ
  pub attributes : List ℕ
  pub sb_lines : ℕ
  pub top : ℕ
  pub sb_page : List ℕ
  pub sb_attributes : List ℕ

abbrev pub region_start : Screen → ℕ
region_start s = s.scroll_top * s.cols

abbrev pub region_end : Screen → ℕ
region_end s = s.scroll_bottom * s.cols

-- What `term_new` sets up and every operation keeps. The cursor may stand one past the page.
pub record IsWf (s : Screen) : Type 0 where
  pub some_cols : 0 < s.cols
  pub area : s.pagelen ≡ s.rows * s.cols
  pub region : s.scroll_top < s.scroll_bottom
  pub region_in : s.scroll_bottom ≤ s.rows
  pub cur_in : s.cur ≤ s.pagelen
  pub page_len : length s.page ≡ s.pagelen
  pub attributes_len : length s.attributes ≡ s.pagelen
  pub top_in : s.top ≤ s.sb_lines - 1
  pub sb_page_len : length s.sb_page ≡ s.sb_lines * s.cols
  pub sb_attributes_len : length s.sb_attributes ≡ s.sb_lines * s.cols
