-- ===== src/Spelling/Flags.antt =====
-- src/share/spellingtrie.cpp: the flags of the characters, which say what may stand for a spelling by
-- its first character (ShouZiMu mode), and src/include/spellingtrie.h: the two tests on characters.
use Prim.Native.Nat.{bit_and, bit_or, bit_xor}
use scim_googlepinyin.Prelude.{
  ℕ, ◌+◌, ◌-◌, Bool, true, false, not, ◌&&◌, ◌||◌, List, [], ◌∷◌, map, Option, none, some, leb,
  ◌==◌, if◌then◌else◌, get_elem?,
}
use scim_googlepinyin.Prelude.Errors.{◌>>=◌}
use scim_googlepinyin.Spelling.Base.{SpellingTrie}

unfoldable pub is_valid_spl_char : ℕ → Bool
is_valid_spl_char ch = (leb b'a' ch && leb ch b'z') || (leb b'A' ch && leb ch b'Z')

-- The same letter, the case left aside.
unfoldable pub is_same_spl_char : ℕ → ℕ → Bool
is_same_spl_char ch1 ch2 = ch1 == ch2 || ch1 == ch2 + (b'a' - b'A') || ch2 == ch1 + (b'a' - b'A')

abbrev pub half_id_shengmu_mask : ℕ
half_id_shengmu_mask = 0x01

abbrev pub half_id_yunmu_mask : ℕ
half_id_yunmu_mask = 0x02

abbrev pub half_id_szm_mask : ℕ
half_id_szm_mask = 0x04

-- The flags from A to Z.
abbrev pub char_flags : List ℕ
char_flags =
    0x02 ∷ 0x01 ∷ 0x01 ∷ 0x01 ∷ 0x02 ∷ 0x01 ∷ 0x01 ∷ 0x01 ∷ 0x00 ∷ 0x01 ∷ 0x01 ∷ 0x01 ∷ 0x01 ∷ 0x01
    ∷ 0x02 ∷ 0x01 ∷ 0x01 ∷ 0x01 ∷ 0x01 ∷ 0x01 ∷ 0x00 ∷ 0x00 ∷ 0x01 ∷ 0x01 ∷ 0x01 ∷ 0x01 ∷ []

-- A flag byte with a bit of the mask set.
unfoldable pub has_flag : ℕ → ℕ → Bool
has_flag mask flags = not (bit_and flags mask == 0)

-- The element `ch - 'A'` of `char_flags_`; a read outside it is a fault.
unfoldable pub flags_of : SpellingTrie → ℕ → Option ℕ
flags_of t ch = if leb b'A' ch then get_elem? t.char_flags (ch - b'A') else none

module _ (t : SpellingTrie) (ch : ℕ) where
  unfoldable pub is_shengmu_char : Option Bool
  unfolding flags_of
  is_shengmu_char = do flags ← flags_of t ch; some (has_flag half_id_shengmu_mask flags)

  unfoldable pub is_yunmu_char : Option Bool
  unfolding flags_of
  is_yunmu_char = do flags ← flags_of t ch; some (has_flag half_id_yunmu_mask flags)

  -- `||` asks for the second flag only if the first is not set.
  unfoldable pub is_szm_char : Option Bool
  unfolding is_shengmu_char is_yunmu_char
  is_szm_char = do shengmu ← is_shengmu_char; if shengmu then some true else is_yunmu_char

  unfoldable pub szm_is_enabled : Option Bool
  unfolding flags_of
  szm_is_enabled = do flags ← flags_of t ch; some (has_flag half_id_szm_mask flags)

  unfoldable pub is_szm_enabled : Option Bool
  unfolding flags_of
  is_szm_enabled = do flags ← flags_of t ch; some (has_flag half_id_szm_mask flags)

-- The bit of ShouZiMu mode set or cleared.
unfoldable pub enable_szm : Bool → ℕ → ℕ
enable_szm true flags = bit_or flags half_id_szm_mask
enable_szm false flags = bit_and flags (bit_xor half_id_szm_mask 0xff)

-- The loops over all letters: those with a bit of the mask are enabled or disabled.
unfoldable pub szm_enable_shm : Bool → SpellingTrie → SpellingTrie
unfolding enable_szm
szm_enable_shm enable t = record t {
  char_flags =
      map (λ f. if has_flag half_id_shengmu_mask f then enable_szm enable f else f) t.char_flags;
}

unfoldable pub szm_enable_ym : Bool → SpellingTrie → SpellingTrie
unfolding enable_szm
szm_enable_ym enable t = record t {
  char_flags =
      map (λ f. if has_flag half_id_yunmu_mask f then enable_szm enable f else f) t.char_flags;
}
