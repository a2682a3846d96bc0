-- ===== src/Js.antt =====
-- What the sources use of the JavaScript language and its standard library.
pub mod Decimal
pub mod Integer
pub mod Text
pub mod Value
