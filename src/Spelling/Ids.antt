-- ===== src/Spelling/Ids.antt =====
-- src/share/spellingtrie.cpp: half ids (of a first character, or of Zh, Ch, Sh) and full ids.
use scim_googlepinyin.Prelude.{
  ℕ, zero, suc, ◌+◌, ◌-◌, Bool, true, false, ◌&&◌, ◌||◌, List, Option, none, some, ltb, leb, ◌==◌,
  if◌then◌else◌, length, get_elem?, set,
}
use Prim.Native.Nat.{bit_and}
use scim_googlepinyin.Prelude.Errors.{◌>>=◌, ◌>>◌, assert}
use scim_googlepinyin.Spelling.Base.{SpellingTrie, full_spl_id_start, half_id2sc}
use scim_googlepinyin.Spelling.Flags.{is_yunmu_char, szm_is_enabled}

-- The inner loop of `build_f2h`: the `rounds` full ids from `fid` on get the half id. A write
-- outside `f2h_` is a fault.
unfoldable pub map_full_ids : ℕ → ℕ → ℕ → List ℕ → Option (List ℕ)
map_full_ids hid zero fid f2h = some f2h
map_full_ids hid (suc rounds) fid f2h =
    if leb full_spl_id_start fid && ltb (fid - full_spl_id_start) (length f2h)
    then map_full_ids hid rounds (fid + 1) (set f2h (fid - full_spl_id_start) hid)
    else none

module _ (t : SpellingTrie) where
  -- The full id of a letter that is a spelling; it is asserted that there is one.
  unfoldable pub first_full_id : ℕ → Option (Option ℕ)
  first_full_id splid = do
    num ← get_elem? t.h2f_num splid
    assert (ltb 0 num)
    start ← get_elem? t.h2f_start splid
    some (some start)

  -- The id of a half id that is a letter: itself where the letter is enabled.
  unfoldable pub letter_id : ℕ → ℕ → Option (Option ℕ)
  unfolding first_full_id
  letter_id splid ch = do
    enabled ← szm_is_enabled t ch
    yunmu ← if enabled then some false else is_yunmu_char t ch
    if enabled then some (some splid) else if yunmu then first_full_id splid else some none

  -- `none` in the result is false; otherwise the result is true and has the id as it is updated.
  unfoldable pub if_valid_id_update : ℕ → Option (Option ℕ)
  unfolding letter_id
  if_valid_id_update splid =
      if splid == 0
      then some none
      else if leb full_spl_id_start splid
      then some (some splid)
      else do
        ch ← get_elem? half_id2sc splid
        if ltb b'Z' ch then some (some splid) else letter_id splid ch

  unfoldable pub is_half_id : ℕ → Bool
  is_half_id splid = if splid == 0 || leb full_spl_id_start splid then false else true

  unfoldable pub is_full_id : ℕ → Bool
  is_full_id splid =
      if ltb splid full_spl_id_start || leb (full_spl_id_start + t.spelling_num) splid
      then false
      else true

  unfoldable pub is_half_id_yunmu : ℕ → Option Bool
  is_half_id_yunmu splid = if splid == 0 || leb full_spl_id_start splid then some false else do
    ch ← get_elem? half_id2sc splid
    if leb b'a' ch then some false else is_yunmu_char t ch

  unfoldable pub half2full_num : ℕ → Option ℕ
  half2full_num half_id = elim t.root [
    | none ↦ some 0
    | some root ↦ if leb full_spl_id_start half_id then some 0 else get_elem? t.h2f_num half_id
  ]

  -- The first full id, if it is filled in, and the number of full ids.
  unfoldable pub half_to_full : ℕ → Option (Option ℕ × ℕ)
  half_to_full half_id = elim t.root [
    | none ↦ some (none, 0)
    | some root ↦ if leb full_spl_id_start half_id then some (none, 0) else do
      start ← get_elem? t.h2f_start half_id
      num ← get_elem? t.h2f_num half_id
      some (some start, num)
  ]

  unfoldable pub full_to_half : ℕ → Option ℕ
  full_to_half full_id = elim t.root [
    | none ↦ some 0
    | some root ↦
        if ltb full_id full_spl_id_start || ltb (t.spelling_num + full_spl_id_start) full_id
        then some 0
        else get_elem? t.f2h (full_id - full_spl_id_start)
  ]

  -- A character with the bit 0x20 cleared is upper case.
  unfoldable pub half_full_compatible : ℕ → ℕ → Option Bool
  half_full_compatible half_id full_id = do
    half_fr_full ← full_to_half full_id
    ch_f ← get_elem? half_id2sc half_fr_full
    ch_h ← get_elem? half_id2sc half_id
    some (half_fr_full == half_id || bit_and ch_f 0xdf == ch_h)

  -- The outer loop, with `rounds` half ids to go.
  unfoldable pub map_half_ids : ℕ → ℕ → List ℕ → Option (List ℕ)
  map_half_ids zero hid f2h = some f2h
  map_half_ids (suc rounds) hid f2h = do
    start ← get_elem? t.h2f_start hid
    num ← get_elem? t.h2f_num hid
    f2h' ← map_full_ids hid num start f2h
    map_half_ids rounds (hid + 1) f2h'

-- `uninit` is what the new array `f2h_` happens to hold.
unfoldable pub build_f2h : SpellingTrie → List ℕ → Option SpellingTrie
build_f2h t uninit = do
  f2h ← map_half_ids t full_spl_id_start 0 uninit
  some (record t { f2h = f2h })
