-- ===== src/UserDict.antt =====
-- src/share/userdict.cpp and src/include/userdict.h: the search key of the user's dictionary, and the
-- comparison of the spellings of a word with it.
pub mod Cache
pub mod Ring
pub mod Slots
pub mod Known
pub mod Saved
pub mod Heap
pub mod Reclaim
pub mod Picked
use scim_googlepinyin.Prelude.{
  ℕ, zero, suc, ◌+◌, ◌-◌, ◌*◌, Bool, true, false, not, ◌&&◌, ◌||◌, List, [], ◌∷◌, Option, none,
  some, ltb, leb, ◌==◌, if◌then◌else◌, length, get_elem?,
}
use scim_googlepinyin.Prelude.Errors.{◌>>=◌}

-- The array of two words of 32 bits.
pub record Signature : Type 0 where
  pub first : ℕ
  pub second : ℕ

-- The key: of each spelling the range of the full ids, and the initial letters in the signature.
pub record UserDictSearchable : Type 0 where
  pub splids_len : ℕ
  pub splid_start : List ℕ
  pub splid_count : List ℕ
  pub signature : Signature

-- The loop over the spellings from `i` on, `rounds` of them: each id lies in its range.
unfoldable pub in_ranges : List ℕ → UserDictSearchable → ℕ → ℕ → Option Bool
in_ranges fullids s zero i = some true
in_ranges fullids s (suc rounds) i = do
  id ← get_elem? fullids i
  start ← get_elem? s.splid_start i
  count ← get_elem? s.splid_count i
  let rest = in_ranges fullids s rounds (i + 1)
  if leb start id && ltb id (start + count) then rest else some false

unfoldable pub is_prefix_spell_id : List ℕ → ℕ → UserDictSearchable → Option Bool
unfolding in_ranges
is_prefix_spell_id fullids fulllen s =
    if ltb fulllen s.splids_len then some false else in_ranges fullids s s.splids_len 0

unfoldable pub equal_spell_id : List ℕ → ℕ → UserDictSearchable → Option Bool
unfolding in_ranges
equal_spell_id fullids fulllen s =
    if not (fulllen == s.splids_len) then some false else in_ranges fullids s fulllen 0
