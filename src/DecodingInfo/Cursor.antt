-- ===== src/DecodingInfo/Cursor.antt =====
-- src/decoding_info.cpp: the cursor in the pinyin string and its place in the composing string.
use mathlib.Core.Option
use scim_googlepinyin.Prelude.{
  ℕ, zero, suc, ◌+◌, ◌-◌, ◌%◌, Bool, List, [], ◌∷◌, Option, none, some, ltb, leb, ◌==◌, ◌&&◌,
  if◌then◌else◌, length, get_elem?,
}
use scim_googlepinyin.Prelude.Errors.{◌>>=◌, ◌>>◌, assert}
use scim_googlepinyin.Prelude.Int.{ℤ, pos, negsuc, sub_ℕ, ◌+ℤ◌, ltb_ℤ}
use scim_googlepinyin.DecodingInfo.{DecodingInfo, size_mod}

-- The loop of `move_cursor`: the first `hz_pos` with `spl_start[hz_pos + 1]` at the cursor. The list
-- is `spl_start` without its element 0.
unfoldable pub hz_pos_at : List ℕ → ℕ → ℕ → Option ℕ
hz_pos_at [] cursor hz_pos = none
hz_pos_at (start ∷ starts) cursor hz_pos =
    if cursor == start then some hz_pos else hz_pos_at starts cursor (hz_pos + 1)

abbrev pub tail : List ℕ → List ℕ
tail [] = []
tail (x ∷ xs) = xs

-- `m_cursor_pos += offset` of a `size_t` and an `int`.
unfoldable pub add_offset : ℕ → ℤ → ℕ
add_offset cursor (pos n) = (cursor + n) % size_mod
add_offset cursor (negsuc n) = (cursor + size_mod - (n + 1)) % size_mod

module _ {S : Type 0} (d : DecodingInfo S) where
  open d use {spl_start, cursor_pos, fixed_len, surface}

  unfoldable pub move_cursor_to_edge : Bool → DecodingInfo S
  move_cursor_to_edge left = record d { cursor_pos = if left then 0 else length surface }

  -- The offset that the loop of `move_cursor` settles on.
  unfoldable pub spelling_offset : ℤ → Option ℤ
  spelling_offset offset = elim (hz_pos_at (tail spl_start) cursor_pos 0) [
    | none ↦ some offset
    | some hz_pos ↦
        if ltb_ℤ offset (pos 0)
        then (if ltb 0 hz_pos
            then (do
              previous ← get_elem? spl_start hz_pos
              this ← get_elem? spl_start (hz_pos + 1)
              some (sub_ℕ previous this))
            else some offset)
        else if ltb hz_pos fixed_len
        then (do
          next ← get_elem? spl_start (hz_pos + 2)
          this ← get_elem? spl_start (hz_pos + 1)
          some (sub_ℕ next this))
        else some offset
  ]

  unfoldable pub adjusted_offset : ℤ → Option ℤ
  unfolding spelling_offset
  adjusted_offset (pos zero) = some (pos zero)
  adjusted_offset (pos (suc n)) = spelling_offset (pos (suc n))
  adjusted_offset (negsuc n) = spelling_offset (negsuc n)

  -- `m_cursor_pos` is unsigned: the test `m_cursor_pos < 0` of the source never holds, and only the
  -- bound from above is left.
  unfoldable pub clamp_cursor : ℕ → DecodingInfo S
  clamp_cursor cursor = record d {
    cursor_pos = if ltb (length surface) cursor then length surface else cursor;
  }

  unfoldable pub move_cursor : ℤ → Option (DecodingInfo S)
  unfolding adjusted_offset clamp_cursor add_offset
  move_cursor offset = do
    assert (ltb_ℤ (negsuc 1) offset && ltb_ℤ offset (pos 2))
    offset' ← adjusted_offset offset
    some (clamp_cursor (add_offset cursor_pos offset'))

-- The loop of `get_cursor_pos_in_cmps`: each fixed spelling before the cursor counts as one
-- character.
unfoldable pub fixed_part_offset : List ℕ → ℕ → ℕ → ℕ → ℤ → Option ℤ
fixed_part_offset spl_start cursor zero hz_pos acc = some acc
fixed_part_offset spl_start cursor (suc rounds) hz_pos acc = do
  end ← get_elem? spl_start (hz_pos + 2)
  start ← get_elem? spl_start (hz_pos + 1)
  let acc' = if leb end cursor then (acc +ℤ sub_ℕ start end) +ℤ pos 1 else acc
  fixed_part_offset spl_start cursor rounds (hz_pos + 1) acc'

-- The loop of `get_cursor_pos_in_cmps_display`: the spellings that start before the cursor.
unfoldable pub spaces_before : List ℕ → ℕ → ℕ → ℕ → Option ℕ
spaces_before spl_start cursor zero at = some 0
spaces_before spl_start cursor (suc rounds) at = do
  start ← get_elem? spl_start at
  let rest = spaces_before spl_start cursor rounds (at + 1)
  if leb cursor start then some 0 else Option.map suc rest

module _ {S : Type 0} (d : DecodingInfo S) where
  open d use {spl_start, cursor_pos, fixed_len}

  unfoldable pub get_cursor_pos_in_cmps : Option ℤ
  get_cursor_pos_in_cmps = fixed_part_offset spl_start cursor_pos fixed_len 0 (pos cursor_pos)

  unfoldable pub get_cursor_pos_in_cmps_display : Option ℤ
  unfolding get_cursor_pos_in_cmps
  get_cursor_pos_in_cmps_display = do
    in_cmps ← get_cursor_pos_in_cmps
    spaces ←
        spaces_before spl_start cursor_pos (length spl_start - 1 - (fixed_len + 1)) (fixed_len + 1)
    some (
        if ltb 0 spaces && (fixed_len == 0)
        then in_cmps +ℤ sub_ℕ spaces 1
        else in_cmps +ℤ pos spaces)
