-- ===== src/Python.antt =====
-- rust/python: the bindings to Python.
pub mod Errors
pub mod Raised
pub mod Infos
pub mod Params
pub mod Objects
pub mod RoundTrip
pub mod File
pub mod Life
mod Tests
