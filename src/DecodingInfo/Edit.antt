-- ===== src/DecodingInfo/Edit.antt =====
-- src/decoding_info.cpp: `reset`, `reset_candidates`, `add_spl_char` and the two functions that mark
-- what a deletion removes.
use scim_googlepinyin.Prelude.{
  ℕ, zero, suc, ◌+◌, ◌-◌, Bool, true, false, List, [], ◌∷◌, ◌++◌, Option, none, some, ltb, leb,
  ◌&&◌, if◌then◌else◌, length, get_elem?, take, drop,
}
use scim_googlepinyin.Prelude.Errors.{◌>>=◌}
use scim_googlepinyin.Prelude.Int.{ℤ, pos, negsuc}
use scim_googlepinyin.DecoderService
use scim_googlepinyin.DecoderService.{MatrixSearch}
use scim_googlepinyin.DecodingInfo.{DecodingInfo}

-- `std::string::insert` of one character, which throws if the place lies beyond the end.
unfoldable pub insert_char : List ℕ → ℕ → ℕ → Option (List ℕ)
insert_char xs at ch = if leb at (length xs) then some (take at xs ++ ch ∷ drop at xs) else none

-- The loop of both deletions: the first fixed spelling `pos` that holds the cursor. A read outside
-- `spl_start` is a fault.
unfoldable pub fixed_spelling_at : List ℕ → ℕ → ℕ → ℕ → Option (Option ℕ)
fixed_spelling_at spl_start cursor zero at = some none
fixed_spelling_at spl_start cursor (suc rounds) at = do
  hi ← get_elem? spl_start (at + 2)
  lo ← get_elem? spl_start (at + 1)
  let rest = fixed_spelling_at spl_start cursor rounds (at + 1)
  if leb cursor hi && ltb lo cursor then some (some at) else rest

module _ {S : Type 0} (d : DecodingInfo S) where
  unfoldable pub reset_candidates : DecodingInfo S
  reset_candidates = record d {
    candidates_list = [];
    total_choices_num = 0;
    page_start = 0 ∷ [];
    cn_to_page = 0 ∷ [];
  }

  -- `m_pos_del_spl`, `m_spl_start` and the engine are left as they are.
  unfoldable pub reset : DecodingInfo S
  unfolding reset_candidates
  reset = record reset_candidates {
    surface = [];
    surface_decoded_len = 0;
    cursor_pos = 0;
    full_sent = [];
    fixed_len = 0;
    finish_selection = false;
    composing_str = [];
    composing_str_display = [];
    active_cmps_len = pos 0;
    active_cmps_display_len = 0;
  }

module _ {S : Type 0} (m : MatrixSearch S) where
  clear_surface : Bool → DecodingInfo S → DecodingInfo S
  clear_surface false d = d
  clear_surface true d = record d {
    surface = [];
    surface_decoded_len = 0;
    cursor_pos = 0;
    decoder_service = DecoderService.reset_search m d.decoder_service;
  }

  unfoldable pub add_spl_char : DecodingInfo S → ℕ → Bool → Option (DecodingInfo S)
  unfolding clear_surface insert_char
  add_spl_char d ch reset = do
    let c = clear_surface reset d
    surface ← insert_char c.surface c.cursor_pos ch
    some (record c { surface = surface; cursor_pos = c.cursor_pos + 1 })

module _ {S : Type 0} (d : DecodingInfo S) where
  open d use {spl_start, cursor_pos, fixed_len, surface, pos_del_spl}

  -- Deletes the whole spelling `at`: the cursor goes to its start.
  unfoldable pub delete_spelling : ℕ → Option (DecodingInfo S)
  delete_spelling at = do
    start ← get_elem? spl_start (at + 1)
    some (record d { pos_del_spl = pos at; cursor_pos = start; is_pos_in_spl = true })

  unfoldable pub delete_char_before : ℤ → DecodingInfo S
  delete_char_before (pos n) = d
  delete_char_before (negsuc n) = record d {
    pos_del_spl = pos (cursor_pos - 1);
    cursor_pos = cursor_pos - 1;
    is_pos_in_spl = false;
  }

  unfoldable pub delete_char_after : ℤ → DecodingInfo S
  delete_char_after (pos n) = d
  delete_char_after (negsuc n) = record d { pos_del_spl = pos cursor_pos; is_pos_in_spl = false }

  unfoldable pub prepare_delete_before_cursor : Option (DecodingInfo S)
  unfolding delete_spelling delete_char_before
  prepare_delete_before_cursor =
      if ltb 0 cursor_pos
      then (do
        found ← fixed_spelling_at spl_start cursor_pos fixed_len 0
        elim found [ some at ↦ delete_spelling at | none ↦ some (delete_char_before pos_del_spl) ])
      else some d

  unfoldable pub prepare_delete_after_cursor : Option (DecodingInfo S)
  unfolding delete_spelling delete_char_after
  prepare_delete_after_cursor =
      if ltb cursor_pos (length surface)
      then (do
        found ← fixed_spelling_at spl_start cursor_pos fixed_len 0
        elim found [ some at ↦ delete_spelling at | none ↦ some (delete_char_after pos_del_spl) ])
      else some d
