-- ===== src/Sequence.antt =====
-- src/background/media/segment-sequence.js: playlists recovered from numbered segment URLs.
--
-- A text is the list of its code points. `new URL` is a parameter: what it gives of a URL is a `Url`.
pub mod Pattern
pub mod Ladder
