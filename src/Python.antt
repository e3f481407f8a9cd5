-- ===== src/Python.antt =====
-- What the client uses of Python itself: exceptions, indexing of lists by integers of either sign,
-- the remainder of the % operator, the `struct` module, UTF-8, floating-point numbers and the classes
-- of characters.
pub mod Exec
pub mod Index
pub mod Struct
pub mod Utf8
pub mod Chars
pub mod Float
