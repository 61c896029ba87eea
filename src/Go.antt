-- ===== src/Go.antt =====
-- What the program uses of Go and its standard library: decimal and hexadecimal text, maps.
pub mod Decimal
pub mod Hex
pub mod Map
