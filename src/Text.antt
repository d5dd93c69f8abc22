-- ===== src/Text.antt =====
-- Strings and formatted output, freestanding/string/string.c. A string is the list of its character
-- codes before the terminator.
pub mod Number
pub mod Format
pub mod Search
pub mod Case
pub mod Compare
pub mod Move
mod Tests
