-- ===== src/Text.antt =====
-- What the programs use of `std::string` and of the number conversions: `find`, `substr`,
-- `std::stoi`, `atoi` and `std::to_string(int)`. Texts are lists of bytes.
pub mod Search
pub mod Number
