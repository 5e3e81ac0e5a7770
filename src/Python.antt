-- ===== src/Python.antt =====
-- Python's dynamic values and exceptions, as far as the program uses them.
pub mod Json
pub mod Result
pub mod Dict
pub mod Utf8
pub mod Base64
