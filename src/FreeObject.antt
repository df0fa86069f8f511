-- ===== src/FreeObject.antt =====
-- `FreeObject` of src/span.rs: a free object holds the pointer to the next one in its first word.
-- The words of all objects are a function from addresses; lists through them are compared with
-- lists of addresses.
pub mod Links
use rtmalloc.Base.{ℕ}

abbrev pub Words : Type 0
Words = ℕ → ℕ
