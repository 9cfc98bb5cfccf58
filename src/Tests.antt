-- ===== src/Tests.antt =====
-- Runs of the model and the theorems at concrete inputs.
pub mod Program
pub mod Engine
pub mod Typing
pub mod States
pub mod Info
pub mod Ime
pub mod Keys
pub mod Panel
pub mod Pinyin
pub mod Strings
pub mod Dictionary
pub mod Searches
pub mod Lawful
