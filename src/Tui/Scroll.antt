-- ===== src/Tui/Scroll.antt =====
-- `next_scroll_offset` of src/tui/views/mod_browser.rs.
use ichr.Base.{ℕ, ◌+◌, ◌-◌, ◌<◌, ◌≤◌, arith}
use ichr.Tui.Update.Mods.{next_scroll_offset}

-- In a list that holds the selected row, a window of at least one row ends up over the selected row and
-- does not run past the end of the list where the list fills it.
pub next_scroll_offset_lem :
    (selected current_offset visible_rows results_len : ℕ)
    → 0 < visible_rows
    → selected < results_len
    → let offset = next_scroll_offset selected current_offset visible_rows results_len in
      (offset ≤ selected)
      × (selected < offset + visible_rows)
      × (offset ≤ results_len - visible_rows)
next_scroll_offset_lem selected current_offset visible_rows results_len h k = ground arith
