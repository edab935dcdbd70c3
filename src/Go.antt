-- ===== src/Go.antt =====
-- What the program uses of Go's standard library: `strings`, `strconv`, `sort` and `time`.
pub mod Text
pub mod Space
pub mod Number
pub mod Clock
pub mod Sort
