-- ===== src/Spelling.antt =====
-- src/share/spellingtrie.cpp and src/share/splparser.cpp: the ids of spellings, the trie that holds
-- the spellings, and the parser of a pinyin string.
pub mod Base
pub mod Flags
pub mod Ids
pub mod Build
pub mod Parser
pub mod Queries
pub mod Szm
pub mod FullToHalf
pub mod Index
pub mod Usable
pub mod Cuts
pub mod Reading
pub mod Rounds
pub mod Parse
pub mod Whole
