-- ===== src/Tiptap.antt =====
-- The plain text of an editor document (apps/core/tiptap/extract_text.py and constants.py).
-- `is_space` is Python's `str.isspace` of one character.
pub mod Words
pub mod Extract
pub mod Letters
