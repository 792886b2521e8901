-- ===== src/Go.antt =====
-- The parts of Go's standard library that the repository calls: `strings`, `path/filepath`, `sort`,
-- `bufio`, the errors of `io` and `net`, and the decimal and hexadecimal printing of `fmt` and `encoding/hex`.
pub mod Text
pub mod Numbers
pub mod FilePath
pub mod Sort
pub mod Host
pub mod Scan
pub mod Fault
