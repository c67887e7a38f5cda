-- ===== src/Bits.antt =====
-- Laws of `&`, `|` and `^` at every width: the equation for the lowest binary digit of each, and
-- what follows from it by strong induction. Milenage, the channel and string.c compute with these.
mod Digit
pub mod Xor
pub mod Align
