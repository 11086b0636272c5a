-- ===== src/Term.antt =====
-- fakeshell/term: keys, their decoder, and the line editor.
pub mod Keys
pub mod Utf8
pub mod Decoder
pub mod Line
pub mod Render
pub mod Editor
mod Tests
