-- ===== src/Tests/Info.antt =====
-- The theorems on `DecodingInfo` at the pinyin `ni`.
use scim_googlepinyin.Prelude.{
  ℕ, zero, suc, ◌+◌, ◌-◌, ◌≤◌, ◌<◌, ◌≡◌, ◌⊎◌, refl, Bool, true, false, List, [], ◌∷◌, ◌++◌, some,
  arith, length, get_elem?, min, leb→le, ltb→lt,
}
use scim_googlepinyin.Prelude.Int.{pos, negsuc}
use scim_googlepinyin.ImeState.{input}
use scim_googlepinyin.DecoderService
use scim_googlepinyin.DecodingInfo.{
  DecodingInfo, max_page_size_display, get_composing_str_active_part,
}
use scim_googlepinyin.DecodingInfo.Edit.{add_spl_char, prepare_delete_before_cursor}
use scim_googlepinyin.DecodingInfo.Cursor.{move_cursor}
use scim_googlepinyin.DecodingInfo.Page.{calculate_page, get_candidates_for_cache, prepare_page}
use scim_googlepinyin.DecodingInfo.Search.{take_over}
use scim_googlepinyin.DecodingInfo.Moves.{move_cursor-in_bounds, move_cursor-left_end}
use scim_googlepinyin.DecodingInfo.Typing.{
  IsInserted, add_spl_char-IsInserted, add_spl_char-reset, prepare_delete_before_cursor-marks,
  MarksSpelling, MarksChar,
}
use scim_googlepinyin.DecodingInfo.Paging.{IsPaged, calculate_page-IsPaged}
use scim_googlepinyin.DecodingInfo.Fetching.{
  get_candidates_for_cache-appends, prepare_page-IsReady, IsReady,
}
use scim_googlepinyin.DecodingInfo.Decoding.{
  take_over-IsConsistent, surface_of, fixed_of, composing_of,
}
use scim_googlepinyin.Tests.Program.{program}
use scim_googlepinyin.Tests.Engine.{Letters, letters}
use scim_googlepinyin.Tests.States.{info_ni, at_left_end}

move_cursor-in_bounds_example :
    (cursor : ℕ) × (move_cursor info_ni (negsuc 0) ≡ some (record info_ni { cursor_pos = cursor }))
    × (cursor ≤ length info_ni.surface)
unfolding program
move_cursor-in_bounds_example =
    move_cursor-in_bounds info_ni (negsuc 0) (leb→le _ _ refl) (leb→le _ _ refl)
      (λ h. leb→le _ _ refl)

move_cursor-left_end_example :
    move_cursor at_left_end.dec_info (negsuc 0)
    ≡ some (record (at_left_end.dec_info) { cursor_pos = length at_left_end.dec_info.surface })
unfolding program
move_cursor-left_end_example =
    move_cursor-left_end at_left_end.dec_info 2 (1 ∷ 2 ∷ []) refl refl (ltb→lt _ _ refl)

add_spl_char-IsInserted_example :
    (surface : List ℕ) × (add_spl_char letters info_ni b'h' false
      ≡ some (record info_ni { surface = surface; cursor_pos = info_ni.cursor_pos + 1 }))
    × IsInserted info_ni.surface surface info_ni.cursor_pos b'h'
unfolding program
add_spl_char-IsInserted_example = add_spl_char-IsInserted letters info_ni b'h' (leb→le _ _ refl)

add_spl_char-reset_example :
    add_spl_char letters info_ni b'h' true
    ≡ some (record info_ni {
      surface = b'h' ∷ [];
      surface_decoded_len = 0;
      cursor_pos = 1;
      decoder_service = DecoderService.reset_search letters info_ni.decoder_service;
    })
add_spl_char-reset_example = add_spl_char-reset letters info_ni b'h'

prepare_delete_before_cursor-marks_example :
    (d' : DecodingInfo Letters) × (prepare_delete_before_cursor info_ni ≡ some d')
    × (d'.cursor_pos < info_ni.cursor_pos)
    × (MarksSpelling info_ni d'
        ⊎ MarksChar info_ni d' (info_ni.cursor_pos - 1) (info_ni.cursor_pos - 1))
unfolding program
prepare_delete_before_cursor-marks_example =
    prepare_delete_before_cursor-marks info_ni (ltb→lt _ _ refl) refl (λ h. leb→le _ _ refl)

calculate_page-IsPaged_example :
    (table : List ℕ) × (calculate_page info_ni (pos 1) 9
      ≡ some (record info_ni { page_start = table }))
    × IsPaged 9 (length info_ni.candidates_list) table
    × (1 + 1 < length table)
unfolding program
calculate_page-IsPaged_example =
    calculate_page-IsPaged info_ni 1 9 (ltb→lt _ _ refl)
      (leb→le _ _ refl, leb→le _ _ refl, leb→le _ _ refl)

get_candidates_for_cache-appends_example :
    (fetched : List (List ℕ)) × (get_candidates_for_cache letters info_ni input
      ≡ some (record info_ni { candidates_list = info_ni.candidates_list ++ fetched }))
    × (fetched
        ≡ DecoderService.get_choice_list letters info_ni.decoder_service
            (length info_ni.candidates_list)
            (length fetched))
    × (length (info_ni.candidates_list ++ fetched)
        ≡ min info_ni.total_choices_num (length info_ni.candidates_list + max_page_size_display))
unfolding program
get_candidates_for_cache-appends_example =
    get_candidates_for_cache-appends letters info_ni input tt (leb→le _ _ refl)

prepare_page-IsReady_example :
    (d' : DecodingInfo Letters) × (answer : Bool) × (prepare_page letters info_ni input (pos 1)
      ≡ some (d', answer))
    × (d'.page_start ≡ info_ni.page_start)
    × (length d'.candidates_list ≤ d'.total_choices_num)
    × ((answer ≡ true) × IsReady d' 1 9 ⊎ (answer ≡ false) × (d'.total_choices_num ≤ 9))
unfolding program
prepare_page-IsReady_example =
    prepare_page-IsReady letters info_ni input 1 9 tt (leb→le _ _ refl) (ltb→lt _ _ refl) refl
      (leb→le _ _ refl)

-- The answer of the engine for `ni`: two spellings of a letter each.
positions_in_ni : (i x : ℕ) → 1 ≤ i → get_elem? (2 ∷ 0 ∷ 1 ∷ 2 ∷ []) i ≡ some x → x ≤ 2
positions_in_ni zero x h e = absurd (omega arith)
positions_in_ni (suc zero) x h e = ground arith
positions_in_ni (suc (suc zero)) x h e = ground arith
positions_in_ni (suc (suc (suc zero))) x h e = ground arith
positions_in_ni (suc (suc (suc (suc i)))) x h e = cc

take_over-IsConsistent_example :
    (d' : DecodingInfo Letters) × (active : List ℕ) × (take_over letters info_ni 12 ≡ some d')
    × (d'.surface ≡ surface_of letters info_ni.decoder_service)
    × (d'.fixed_len ≡ fixed_of letters info_ni.decoder_service)
    × (d'.total_choices_num ≡ 12)
    × (d'.composing_str ≡ composing_of letters info_ni.decoder_service 0)
    × (d'.cursor_pos ≤ length d'.surface)
    × (get_composing_str_active_part d' ≡ some active)
unfolding program
take_over-IsConsistent_example = take_over-IsConsistent letters info_ni 12 0 (record {
  long = ltb→lt _ _ refl;
  rest_start = refl;
  in_surface = positions_in_ni;
  decoded_part = leb→le _ _ refl;
  fixed_decoded = λ h. leb→le _ _ refl;
})
