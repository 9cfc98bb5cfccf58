-- ===== src/Tests/Program.antt =====
-- The definitions that a run of the input method computes with, under one name.
use scim_googlepinyin.DecoderService
use scim_googlepinyin.DecodingInfo
use scim_googlepinyin.DecodingInfo.Edit
use scim_googlepinyin.DecodingInfo.Cursor
use scim_googlepinyin.DecodingInfo.Page
use scim_googlepinyin.DecodingInfo.Search
use scim_googlepinyin.FunctionKeys
use scim_googlepinyin.HalfToFull
use scim_googlepinyin.PinyinIme
use scim_googlepinyin.PinyinIme.Candidates
use scim_googlepinyin.PinyinIme.Composing
use scim_googlepinyin.PinyinIme.Window
use scim_googlepinyin.PinyinIme.Choice
use scim_googlepinyin.PinyinIme.Keys
use scim_googlepinyin.Prelude.Int.{◌+ℤ◌}

unfoldable pub program : Unit {0}
unfolding DecoderService.search DecoderService.reset_search DecoderService.del_search
    DecoderService.choose DecoderService.get_spelling_start DecoderService.get_predict_num
    DecoderService.get_predict_item DecoderService.get_predict_list DecoderService.get_choice
    DecoderService.get_choice_list DecoderService.get_fixed_len DecoderService.get_py_str
    DecodingInfo.new_decoding_info DecodingInfo.is_spl_str_full
    DecodingInfo.get_composing_str_active_part DecodingInfo.get_current_full_sent
    DecodingInfo.can_do_prediction DecodingInfo.selection_finished DecodingInfo.get_candidate
    DecodingInfo.get_candidates_number DecodingInfo.is_candidates_list_empty
    DecodingInfo.char_before_cursor_is_separator DecodingInfo.get_current_page_size
    DecodingInfo.get_current_page_start DecodingInfo.page_ready DecodingInfo.page_forwardable
    DecodingInfo.page_backwardable Edit.insert_char Edit.fixed_spelling_at Edit.reset_candidates
    Edit.reset Edit.add_spl_char Edit.prepare_delete_before_cursor Edit.prepare_delete_after_cursor
    Cursor.hz_pos_at Cursor.add_offset Cursor.move_cursor_to_edge Cursor.spelling_offset
    Cursor.clamp_cursor Cursor.move_cursor Cursor.fixed_part_offset Cursor.spaces_before
    Cursor.get_cursor_pos_in_cmps Cursor.get_cursor_pos_in_cmps_display Page.fill_page
    Page.append_pages Page.calculate_page Page.fetch_size Page.get_candidates_for_cache
    Page.cached_after Page.prepare_page Search.display_spellings Search.prepare_display
    Search.compose Search.active_len Search.taken Search.take_over Search.first_page
    Search.update_for_search Search.choose_decoding_candidate Search.choose_predict_choice
    FunctionKeys.new_function_keys FunctionKeys.contains FunctionKeys.remove
    FunctionKeys.update_keys FunctionKeys.match_key_event FunctionKeys.set_mode_switch_key
    FunctionKeys.set_page_up_key FunctionKeys.set_page_down_key FunctionKeys.is_mode_switch_key
    FunctionKeys.is_page_up_key FunctionKeys.is_page_down_key FunctionKeys.is_full_width_punct_key
    FunctionKeys.remember_last_key HalfToFull.new_converter HalfToFull.half_punct_to_full
    HalfToFull.convert HalfToFull.toggle_punct_width HalfToFull.toggle_letter_width HalfToFull.reset
    PinyinIme.new_ime Candidates.through_int Candidates.clamp_candidate Candidates.show_page
    Candidates.set_visibility Candidates.enable_active_highlight Candidates.set_page_size
    Candidates.get_active_candidate_pos Candidates.or_else Candidates.cursor_back
    Candidates.step_forward Candidates.cursor_forward Candidates.turn_back Candidates.page_up
    Candidates.cursor_left Candidates.show_candidates Candidates.redraw Candidates.turn_forward
    Candidates.page_down Candidates.cursor_right Composing.draw_composing Composing.draw_for_pinyin
    Composing.draw_for_english Composing.redraw Composing.reset Composing.set_visibility
    Composing.move_cursor Composing.move_cursor_to_edge Composing.set_decoding_info
    Window.commit_result_text Window.update_composing_text Window.show_candidate_window
    Window.dismiss_candidate_window Window.reset_candidate_window Window.reset_to_idle_state
    Window.change_to_state_composing Window.change_to_state_input Window.trigger_input_mode
    Window.trigger_punct_width Window.trigger_letter_width Window.redraw Window.commit_char
    Window.input_comma_period Choice.to_int Choice.choose_in_english Choice.offer_prediction
    Choice.next_state Choice.go_on_choosing Choice.after_choice Choice.decide
    Choice.choose_in_chinese Choice.choose_and_update Choice.choose_if_any Choice.choose_candidate
    Choice.choose_candidate_in_page Keys.is_letter Keys.is_key Keys.is_digit Keys.digit_index
    Keys.is_new_separator Keys.add_and_update Keys.delete_before Keys.delete_after
    Keys.is_surface_char Keys.process_surface_change Keys.process_state_idle Keys.start_editing
    Keys.comma_period Keys.changes_surface Keys.is_comma_or_period Keys.input_other_keys
    Keys.process_state_input Keys.predict_to_input Keys.process_state_predict
    Keys.composing_other_keys Keys.composing_arrow_keys Keys.stop_editing
    Keys.process_state_edit_composing Keys.process_state Keys.process_in_chinese Keys.escape
    Keys.is_escape Keys.process_press Keys.remembered_key Keys.process_key ◌+ℤ◌
program = tt
