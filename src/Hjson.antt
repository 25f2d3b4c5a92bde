-- ===== src/Hjson.antt =====
-- src/hjson/hjson_parse.cpp: the HJSON parser.
pub mod Scan
pub mod Avx2
pub mod Blocks
pub mod Comments
pub mod Returns
pub mod Reader
pub mod Strings
pub mod Keys
pub mod Numbers
pub mod Values
pub mod Parse
pub mod Skips
pub mod Content
pub mod Ensures
pub mod Quoted
pub mod Document
pub mod Scalars
pub mod Unquoted
pub mod Members
pub mod Sound
pub mod ReadBack
pub mod Digits
pub mod Integers
pub mod Words
pub mod Starts
pub mod ReadItems
pub mod ReadFields
pub mod Again
mod Tests
