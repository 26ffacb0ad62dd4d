-- ===== src/Tui.antt =====
-- internal/tui: the form that edits a tuber.
pub mod Editor
