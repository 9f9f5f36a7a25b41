-- ===== src/Std.antt =====
-- What the code uses of the C++ standard library: `std::string` as a sequence of bytes, and the
-- ordered containers `std::map` and `std::set`.
pub mod Text
pub mod Ordered
pub mod Map
pub mod Decimal
