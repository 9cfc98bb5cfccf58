-- ===== src/DecodingInfo/Moves.antt =====
-- How `move_cursor` moves the cursor.
use scim_googlepinyin.Prelude.{
  ℕ, zero, suc, ◌+◌, ◌-◌, ◌≤◌, ◌<◌, ◌≡◌, List, [], ◌∷◌, none, some, arith, length, ◌≢◌, min, inl,
  inr, Option-cases, some_of_ne_none,
}
use scim_googlepinyin.Prelude.Lists.{get_elem?-ne_none}
use scim_googlepinyin.Prelude.Int.{ℤ, pos, negsuc, pos_part, neg_part}
use scim_googlepinyin.DecodingInfo.{DecodingInfo, size_mod}
use scim_googlepinyin.DecodingInfo.Cursor.{
  move_cursor, spelling_offset, hz_pos_at, tail, clamp_cursor, add_offset, adjusted_offset,
}

-- A place that the search returns lies in the list.
hz_pos_at-lt :
    (starts : List ℕ) (cursor hz : ℕ) {at : ℕ}
    → hz_pos_at starts cursor hz ≡ some at
    → (hz ≤ at) × (at < hz + length starts)
unfolding hz_pos_at
hz_pos_at-lt [] cursor hz e = cc
hz_pos_at-lt (x ∷ xs) cursor hz {at = at} e =
    ground (arith, hz_pos_at-lt xs cursor (hz + 1) {at = at})

length-tail : (xs : List ℕ) → length (tail xs) ≡ length xs - 1
length-tail [] = omega arith
length-tail (x ∷ xs) = omega arith

module _ {S : Type 0} (d : DecodingInfo S) where
  -- The reads of the loop lie in `spl_start`.
  spelling_offset-ne_none :
      (offset : ℤ)
      → (0 < d.fixed_len → d.fixed_len + 2 ≤ length d.spl_start)
      → spelling_offset d offset ≢ none
  unfolding spelling_offset
  spelling_offset-ne_none offset h =
      elim (Option-cases (hz_pos_at (tail d.spl_start) d.cursor_pos 0)) [
        | inl e ↦ rw (e, spelling_offset) (λ f. cc)
        | inr (at, e) ↦
            rw (e, spelling_offset)
              (ground (
                arith,
                get_elem?-ne_none d.spl_start at,
                get_elem?-ne_none d.spl_start (at + 1),
                get_elem?-ne_none d.spl_start (at + 2),
                hz_pos_at-lt (tail d.spl_start) d.cursor_pos 0 e,
                length-tail d.spl_start,
              ))
      ]

  adjusted_offset-ne_none :
      (offset : ℤ)
      → (0 < d.fixed_len → d.fixed_len + 2 ≤ length d.spl_start)
      → adjusted_offset d offset ≢ none
  unfolding adjusted_offset
  adjusted_offset-ne_none (pos zero) h = λ e. cc
  adjusted_offset-ne_none (pos (suc n)) h = spelling_offset-ne_none (pos (suc n)) h
  adjusted_offset-ne_none (negsuc n) h = spelling_offset-ne_none (negsuc n) h

-- Where `spl_start` covers the fixed part, if there is one, a move by at most one does not fault. It changes the
-- cursor alone, and leaves it in the pinyin string, wherever it was before.
pub move_cursor-in_bounds :
    {S : Type 0} (d : DecodingInfo S) (offset : ℤ)
    → pos_part offset ≤ 1
    → neg_part offset ≤ 1
    → (0 < d.fixed_len → d.fixed_len + 2 ≤ length d.spl_start)
    → (cursor : ℕ) × (move_cursor d offset ≡ some (record d { cursor_pos = cursor }))
      × (cursor ≤ length d.surface)
unfolding move_cursor
move_cursor-in_bounds d offset up down h =
    let (o, e) = some_of_ne_none (adjusted_offset d offset) (adjusted_offset-ne_none d offset h) in
    ((clamp_cursor d (add_offset d.cursor_pos o)).cursor_pos, ground (arith, e), ground arith)

-- The left end is no bound: where the cursor stands at the start of the first spelling, a move to
-- the left wraps round to the end of the pinyin string.
pub move_cursor-left_end :
    {S : Type 0} (d : DecodingInfo S) (count : ℕ) (starts : List ℕ)
    → d.spl_start ≡ count ∷ 0 ∷ starts
    → d.cursor_pos ≡ 0
    → length d.surface < size_mod - 1
    → move_cursor d (negsuc 0) ≡ some (record d { cursor_pos = length d.surface })
unfolding move_cursor spelling_offset hz_pos_at
move_cursor-left_end d count starts e c h = rw (e, c) (ground arith)

-- With no fixed spelling a move to the right goes on by one character, and stops at the end.
pub move_cursor-right :
    {S : Type 0} (d : DecodingInfo S)
    → d.fixed_len ≡ 0
    → d.cursor_pos ≤ length d.surface
    → length d.surface < size_mod - 1
    → move_cursor d (pos 1)
      ≡ some (record d { cursor_pos = min (d.cursor_pos + 1) (length d.surface) })
unfolding move_cursor spelling_offset
move_cursor-right d f c h = elim (Option-cases (hz_pos_at (tail d.spl_start) d.cursor_pos 0)) [
  | inl e ↦ ground (arith, e)
  | inr (at, e) ↦ ground (arith, e)
]
