-- ===== src/Go.antt =====
-- What the controllers use of Go itself: `strings`, `strconv` and maps with string keys.
pub mod Text
pub mod Strconv
pub mod Map
