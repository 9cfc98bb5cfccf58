-- ===== src/PinyinIme/Choice.antt =====
-- src/pinyin_ime.cpp: choosing a candidate and what the choice, or a new decoding, changes.
use scim_googlepinyin.Prelude.{
  ℕ, ◌+◌, ◌-◌, ◌%◌, ◌^◌, Bool, true, false, List, Option, some, ltb, ◌==◌, ◌&&◌, if◌then◌else◌,
  length,
}
use scim_googlepinyin.Prelude.Errors.{◌>>=◌}
use scim_googlepinyin.Prelude.Int.{ℤ, pos, negsuc}
use scim_googlepinyin.ImeState.{ImeState, idle, input, composing, predict, bypass, app_completion}
use scim_googlepinyin.DecoderService.{MatrixSearch}
use scim_googlepinyin.DecodingInfo.{
  DecodingInfo, get_candidate, get_composing_str_active_part, can_do_prediction,
  get_candidates_number, selection_finished, get_current_page_size, get_current_page_start,
}
use scim_googlepinyin.DecodingInfo.Edit
use scim_googlepinyin.DecodingInfo.Search
use scim_googlepinyin.PinyinIme.{Ime, input_chinese}
use scim_googlepinyin.PinyinIme.Candidates
use scim_googlepinyin.PinyinIme.Window.{
  commit_result_text, show_candidate_window, reset_to_idle_state, change_to_state_composing,
  change_to_state_input,
}

-- The low 32 bits as an `int`.
unfoldable pub to_int : ℕ → ℤ
to_int n = if ltb (n % 2 ^ 32) (2 ^ 31) then pos (n % 2 ^ 32) else negsuc (2 ^ 32 - 1 - n % 2 ^ 32)

abbrev pub is_chosen : ℤ → Bool
is_chosen (pos n) = true
is_chosen (negsuc n) = false

module _ {S : Type 0} where
  -- A choice in English mode is committed as it stands.
  unfoldable pub choose_in_english : ℤ → Ime S → Option (Ime S)
  choose_in_english cand_id s =
      let choice = get_candidate s.dec_info cand_id in
      reset_to_idle_state (if length choice == 0 then s else commit_result_text choice s)

  -- The sentence is complete: it is committed, and predictions are offered if there are any.
  unfoldable pub offer_prediction : List ℕ → Ime S → Option (Ime S)
  offer_prediction result_str s =
      let t = commit_result_text result_str s in
      let u = record t { ime_state = predict; dec_info = Edit.reset_candidates t.dec_info } in
      if ltb 0 (get_candidates_number u.dec_info)
      then show_candidate_window false u
      else reset_to_idle_state u

  -- The state after a decoding that leaves something to choose.
  unfoldable pub next_state : ImeState → Ime S → Option (Ime S)
  next_state idle s =
      if s.dec_info.surface_decoded_len == 0
      then some (change_to_state_composing s)
      else change_to_state_input s
  next_state bypass s =
      some (if selection_finished s.dec_info then change_to_state_composing s else s)
  next_state input s =
      some (if selection_finished s.dec_info then change_to_state_composing s else s)
  next_state composing s =
      some (if selection_finished s.dec_info then change_to_state_composing s else s)
  next_state predict s =
      some (if selection_finished s.dec_info then change_to_state_composing s else s)
  next_state app_completion s =
      some (if selection_finished s.dec_info then change_to_state_composing s else s)

  unfoldable pub go_on_choosing : Ime S → Option (Ime S)
  go_on_choosing s = do t ← next_state s.ime_state s; show_candidate_window true t

  unfoldable pub after_choice : ℤ → Ime S → Option (Ime S)
  after_choice cand_id s =
      if length s.dec_info.composing_str == 0 then reset_to_idle_state s else do
        result_str ← get_composing_str_active_part s.dec_info
        if is_chosen cand_id && can_do_prediction s.dec_info
            then offer_prediction result_str s
            else go_on_choosing s

module _ {S : Type 0} (m : MatrixSearch S) where
  unfoldable pub decide : ImeState → ℤ → DecodingInfo S → Option (DecodingInfo S)
  decide predict cand_id d = Search.choose_predict_choice d predict cand_id
  decide bypass cand_id d = Search.choose_decoding_candidate m bypass d cand_id
  decide idle cand_id d = Search.choose_decoding_candidate m idle d cand_id
  decide input cand_id d = Search.choose_decoding_candidate m input d cand_id
  decide composing cand_id d = Search.choose_decoding_candidate m composing d cand_id
  decide app_completion cand_id d = Search.choose_decoding_candidate m app_completion d cand_id

  unfoldable pub choose_in_chinese : ℤ → Ime S → Option (Ime S)
  choose_in_chinese cand_id s = do
    dec_info ← decide s.ime_state cand_id s.dec_info
    after_choice cand_id (record s { dec_info = dec_info })

  unfoldable pub choose_and_update : ℤ → Ime S → Option (Ime S)
  choose_and_update cand_id s =
      if s.input_mode == input_chinese
      then choose_in_chinese cand_id s
      else choose_in_english cand_id s

  unfoldable pub choose_if_any : ℤ → Ime S → Option (Ime S)
  choose_if_any (negsuc n) s = some s
  choose_if_any (pos n) s = choose_and_update (pos n) s

  unfoldable pub choose_candidate : ℤ → Ime S → Option (Ime S)
  choose_candidate (pos n) s = choose_if_any (pos n) s
  choose_candidate (negsuc n) s = do
    active ← Candidates.get_active_candidate_pos s
    choose_if_any (to_int active) s

  -- `index` is an `unsigned`.
  unfoldable pub choose_candidate_in_page : ℕ → Ime S → Option (Ime S)
  choose_candidate_in_page index s = do
    size ← get_current_page_size s.dec_info s.cand_view.page_no
    if ltb index size
        then (do
          start ← get_current_page_start s.dec_info s.cand_view.page_no
          choose_and_update (to_int (index + start)) s)
        else some s
