-- ===== src/PinyinIme/Keys.antt =====
-- src/pinyin_ime.cpp: the key handlers, one for each state.
use scim_googlepinyin.Prelude.{
  ℕ, ◌+◌, ◌-◌, ◌%◌, ◌^◌, Bool, true, false, not, [], ◌∷◌, Option, some, leb, ◌==◌, ◌&&◌, ◌||◌,
  if◌then◌else◌, length,
}
use scim_googlepinyin.Prelude.Errors.{◌>>=◌}
use scim_googlepinyin.Prelude.Int.{pos, negsuc}
use scim_googlepinyin.ImeState.{ImeState, idle, input, composing, predict, bypass, app_completion}
use scim_googlepinyin.DecoderService.{MatrixSearch}
use scim_googlepinyin.DecodingInfo.{
  is_spl_str_full, char_before_cursor_is_separator, selection_finished, get_current_full_sent,
}
use scim_googlepinyin.DecodingInfo.Edit
use scim_googlepinyin.Scim.{Scim, KeyEvent}
use scim_googlepinyin.FunctionKeys.{
  is_mode_switch_key, is_page_up_key, is_page_down_key, remember_last_key,
}
use scim_googlepinyin.PinyinIme.{Ime, input_chinese}
use scim_googlepinyin.PinyinIme.Candidates
use scim_googlepinyin.PinyinIme.Composing
use scim_googlepinyin.PinyinIme.Window.{
  commit_result_text, update_composing_text, reset_to_idle_state, change_to_state_composing,
  change_to_state_input, trigger_input_mode, commit_char, input_comma_period, is_composing,
}
use scim_googlepinyin.PinyinIme.Choice.{
  choose_and_update, choose_candidate, choose_candidate_in_page,
}

unfoldable pub is_letter : ℕ → Bool
is_letter ch = leb b'a' ch && leb ch b'z'

abbrev pub is_bypass : ImeState → Bool
is_bypass bypass = true
is_bypass idle = false
is_bypass input = false
is_bypass composing = false
is_bypass predict = false
is_bypass app_completion = false

abbrev pub handled : {S : Type 0} → Bool → Option (Ime S) → Option (Ime S × Bool)
handled b r = r >>= λ s. some (s, b)

module _ {S : Type 0} (m : MatrixSearch S) (k : Scim) (key : KeyEvent) where
  open k use {get_ascii_code, is_alt_down, is_control_down}

  -- `key.code == code`.
  unfoldable pub is_key : ℕ → Bool
  is_key code = key.code == code

  abbrev ch : ℕ
  ch = get_ascii_code key

  unfoldable pub is_digit : Bool
  is_digit = leb k.key_0 key.code && leb key.code k.key_9

  -- `key.code - SCIM_KEY_1` as an `unsigned`.
  unfoldable pub digit_index : ℕ
  digit_index = (key.code + 2 ^ 32 - k.key_1) % 2 ^ 32

  unfoldable pub is_new_separator : Ime S → Bool
  is_new_separator s = (ch == b'\'') && not (char_before_cursor_is_separator s.dec_info)

  unfoldable pub add_and_update : Bool → Ime S → Option (Ime S)
  add_and_update reset s = do
    dec_info ← Edit.add_spl_char m s.dec_info ch reset
    choose_and_update m (negsuc 0) (record s { dec_info = dec_info })

  unfoldable pub delete_before : Ime S → Option (Ime S)
  delete_before s = do
    dec_info ← Edit.prepare_delete_before_cursor s.dec_info
    choose_and_update m (negsuc 0) (record s { dec_info = dec_info })

  unfoldable pub delete_after : Ime S → Option (Ime S)
  delete_after s = do
    dec_info ← Edit.prepare_delete_after_cursor s.dec_info
    choose_and_update m (negsuc 0) (record s { dec_info = dec_info })

  -- The characters that the pinyin string takes: digits and spaces only while it is edited.
  unfoldable pub is_surface_char : Ime S → Bool
  is_surface_char s =
      is_letter ch
      || is_new_separator s
      || ((leb b'0' ch && leb ch b'9' || ch == b' ') && is_composing s.ime_state)

  unfoldable pub process_surface_change : Ime S → Option (Ime S × Bool)
  process_surface_change s =
      if is_spl_str_full s.dec_info && not (is_key k.key_backspace)
      then some (s, true)
      else if is_surface_char s
      then handled true (add_and_update false s)
      else if is_key k.key_backspace
      then handled true (delete_before s)
      else if is_key k.key_delete
      then handled true (delete_after s)
      else some (s, true)

  unfoldable pub process_state_idle : Ime S → Option (Ime S × Bool)
  process_state_idle s =
      if is_letter ch && not (is_alt_down key) && not (is_control_down key)
      then handled true (add_and_update true s)
      else if k.ispunct ch
      then some (commit_char k ch s)
      else some (s, false)

  -- Left and Home begin to edit the pinyin.
  unfoldable pub start_editing : Ime S → Option (Ime S)
  start_editing s =
      update_composing_text true
        (change_to_state_composing (Candidates.enable_active_highlight s false))

  unfoldable pub comma_period : Ime S → Option (Ime S)
  comma_period s = do
    sentence ← get_current_full_sent s.dec_info s.candidate_index
    input_comma_period k sentence ch true idle s

  unfoldable pub changes_surface : Ime S → Bool
  changes_surface s = is_letter ch || is_new_separator s || is_key k.key_backspace

  unfoldable pub is_comma_or_period : Bool
  is_comma_or_period = ch == b',' || ch == b'.'

  -- The branches of `process_state_input` from the paging keys on.
  unfoldable pub input_other_keys : Ime S → Option (Ime S × Bool)
  input_other_keys s =
      if is_page_up_key k s.func_keys key
      then Candidates.page_up s
      else if is_page_down_key k s.func_keys key
      then Candidates.page_down m s
      else if is_digit
      then handled true (choose_candidate_in_page m digit_index s)
      else if is_key k.key_return
      then handled true (reset_to_idle_state (commit_result_text s.dec_info.composing_str s))
      else if is_key k.key_space
      then handled true (choose_candidate m (negsuc 0) s)
      else if changes_surface s
      then process_surface_change s
      else if is_comma_or_period
      then handled true (comma_period s)
      else some (s, false)

  unfoldable pub process_state_input : Ime S → Option (Ime S × Bool)
  process_state_input s =
      if is_key k.key_up
      then Candidates.cursor_left s
      else if is_key k.key_down
      then Candidates.cursor_right m s
      else if is_key k.key_left
      then handled true (start_editing s)
      else if is_key k.key_home
      then handled true (start_editing s >>= Composing.move_cursor_to_edge true)
      else input_other_keys s

  unfoldable pub predict_to_input : Ime S → Option (Ime S)
  predict_to_input s = change_to_state_input s >>= add_and_update true

  unfoldable pub process_state_predict : Ime S → Option (Ime S × Bool)
  process_state_predict s =
      if is_letter ch
      then handled true (predict_to_input s)
      else if k.ispunct ch
      then handled true (comma_period s)
      else if is_key k.key_left
      then Candidates.cursor_left s
      else if is_key k.key_right
      then Candidates.cursor_right m s
      else if is_page_up_key k s.func_keys key
      then (do (t, up) ← Candidates.page_up s; some (t, true))
      else if is_page_down_key k s.func_keys key
      then Candidates.page_down m s
      else if is_digit
      then handled true (choose_candidate_in_page m digit_index s)
      else if is_key k.key_return
      then handled true (reset_to_idle_state (commit_result_text (b'\n' ∷ []) s))
      else if is_key k.key_space
      then handled true (choose_candidate m (negsuc 0) s)
      else some (s, true)

  -- The branches of `process_state_edit_composing` from the digits on.
  unfoldable pub composing_other_keys : Ime S → Option (Ime S × Bool)
  composing_other_keys s =
      if is_digit
      then handled true (choose_candidate_in_page m digit_index s)
      else if is_key k.key_space
      then handled true (choose_candidate m (negsuc 0) s)
      else if is_key k.key_return
      then handled true (reset_to_idle_state (commit_result_text s.dec_info.composing_str s))
      else process_surface_change s

  unfoldable pub composing_arrow_keys : Ime S → Option (Ime S × Bool)
  composing_arrow_keys s =
      if is_key k.key_left
      then handled true (Composing.move_cursor (negsuc 0) s)
      else if is_key k.key_right
      then handled true (Composing.move_cursor (pos 1) s)
      else composing_other_keys s

  -- Down goes back to the candidates, if there is something left to select.
  unfoldable pub stop_editing : Ime S → Option (Ime S)
  stop_editing s = if selection_finished s.dec_info then some s else change_to_state_input s

  unfoldable pub process_state_edit_composing : Ime S → Option (Ime S × Bool)
  process_state_edit_composing s =
      if is_key k.key_down
      then handled true (stop_editing s)
      else if is_key k.key_home
      then handled true (Composing.move_cursor_to_edge true s)
      else if is_key k.key_end
      then handled true (Composing.move_cursor_to_edge false s)
      else composing_arrow_keys s

  unfoldable pub process_state : ImeState → Ime S → Option (Ime S × Bool)
  process_state idle s = process_state_idle s
  process_state input s = process_state_input s
  process_state predict s = process_state_predict s
  process_state composing s = process_state_edit_composing s
  process_state bypass s = some (s, false)
  process_state app_completion s = some (s, false)

  unfoldable pub process_in_chinese : Ime S → Option (Ime S × Bool)
  process_in_chinese s = process_state s.ime_state s

  unfoldable pub escape : Ime S → Option (Ime S × Bool)
  escape s =
      if length s.dec_info.surface == 0
      then some (s, false)
      else handled true (reset_to_idle_state s)

  unfoldable pub is_escape : Bool
  is_escape = is_key k.key_escape && (key.mask == 0)

  unfoldable pub process_press : Ime S → Option (Ime S × Bool)
  process_press s =
      if is_escape
      then escape s
      else if s.input_mode == input_chinese
      then process_in_chinese s
      else some (s, false)

  -- What follows `remember_last_key`: a release is taken and does nothing more.
  unfoldable pub remembered_key : Ime S → Option (Ime S × Bool)
  remembered_key t = if k.is_key_release key then some (t, true) else process_press t

  unfoldable pub process_key : Ime S → Option (Ime S × Bool)
  process_key s =
      if is_bypass s.ime_state
      then some (s, false)
      else if is_mode_switch_key k s.func_keys key
      then handled true (trigger_input_mode s)
      else remembered_key (record s { func_keys = remember_last_key s.func_keys key })
