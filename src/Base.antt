-- ===== src/Base.antt =====
-- What the components share: library names, equality tests, lists, dictionaries and texts.
pub mod Names
pub mod Equality
pub mod Lists
pub mod Int
pub mod Dict
pub mod Sort
pub mod Text
pub mod TextOrder
pub mod Value
