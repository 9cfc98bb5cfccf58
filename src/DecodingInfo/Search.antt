-- ===== src/DecodingInfo/Search.antt =====
-- src/decoding_info.cpp: choosing a candidate, and what a new search of the engine changes.
use scim_googlepinyin.Prelude.{
  ℕ, zero, suc, ◌+◌, ◌-◌, Bool, true, false, not, List, [], ◌∷◌, ◌++◌, Option, some, ltb, leb, ◌==◌,
  ◌&&◌, if◌then◌else◌, length, get_elem?,
}
use scim_googlepinyin.Prelude.Errors.{◌>>=◌}
use scim_googlepinyin.Prelude.Int.{ℤ, pos, negsuc, sub_ℕ}
use scim_googlepinyin.DecoderService
use scim_googlepinyin.DecoderService.{MatrixSearch, PinyinDecoderService}
use scim_googlepinyin.DecodingInfo.{DecodingInfo, substr, substr_from, size_sub}
use scim_googlepinyin.DecodingInfo.Edit.{reset_candidates}
use scim_googlepinyin.DecodingInfo.Page.{prepare_page}
use scim_googlepinyin.ImeState.{ImeState, idle, input, composing, predict, bypass, app_completion}

-- The loop that lists the spellings after the fixed part, with spaces between those decoded.
unfoldable pub display_spellings : List ℕ → ℕ → List ℕ → ℕ → ℕ → List ℕ → Option (List ℕ)
display_spellings spl_start decoded surface zero at acc = some acc
display_spellings spl_start decoded surface (suc rounds) at acc = do
  start ← get_elem? spl_start at
  end ← get_elem? spl_start (at + 1)
  spelling ← substr surface start (size_sub end start)
  let spaced = if not (at == 1) && ltb start decoded then acc ++ b' ' ∷ [] else acc
  display_spellings spl_start decoded surface rounds (at + 1) (spaced ++ spelling)

-- The display string and the length of its active part.
unfoldable pub prepare_display : List ℕ → ℕ → List ℕ → List ℕ → ℕ → List ℕ → Option (List ℕ × ℕ)
prepare_display spl_start decoded surface full_sent fixed_len composing_str =
    if decoded == 0 then some (composing_str, length composing_str) else do
      fixed ← substr full_sent 0 fixed_len
      shown ←
          display_spellings spl_start decoded surface (length spl_start - 1 - (fixed_len + 1))
            (fixed_len + 1) fixed
      rest ← substr_from surface decoded
      some (if ltb decoded (length surface) then shown ++ rest else shown, length shown)

-- The composing string: the fixed characters, then the pinyin that they leave.
unfoldable pub compose : List ℕ → List ℕ → List ℕ → ℕ → Option (List ℕ)
compose spl_start surface full_sent fixed_len = do
  fixed ← substr full_sent 0 fixed_len
  start ← get_elem? spl_start (fixed_len + 1)
  rest ← substr_from surface start
  some (fixed ++ rest)

-- The length of the composing string less the pinyin that is not decoded.
unfoldable pub active_len : ℕ → List ℕ → List ℕ → ℤ
active_len decoded surface composing_str =
    if ltb 0 decoded
    then sub_ℕ (length composing_str + decoded) (length surface)
    else pos (length composing_str)

module _ {S : Type 0} (m : MatrixSearch S) where
  -- The fields that `update_for_search` assigns, from the engine's answers and the two strings that
  -- it composes of them.
  unfoldable pub taken : DecodingInfo S → ℕ → List ℕ → List ℕ × ℕ → DecodingInfo S
  taken d n_candidates composing_str display =
      let service = d.decoder_service in
      let surface = DecoderService.get_py_str m service false in
      let decoded = length (DecoderService.get_py_str m service true) in
      record d {
        total_choices_num = n_candidates;
        spl_start = DecoderService.get_spelling_start m service;
        surface_decoded_len = decoded;
        full_sent = DecoderService.get_choice m service 0;
        fixed_len = DecoderService.get_fixed_len m service;
        surface = surface;
        cursor_pos = if ltb (length surface) d.cursor_pos then length surface else d.cursor_pos;
        composing_str = composing_str;
        active_cmps_len = active_len decoded surface composing_str;
        composing_str_display = display.0;
        active_cmps_display_len = display.1;
        finish_selection =
            length (DecoderService.get_spelling_start m service)
            == DecoderService.get_fixed_len m service + 2;
      }

  -- The part of `update_for_search` that takes over the engine's answer.
  unfoldable pub take_over : DecodingInfo S → ℕ → Option (DecodingInfo S)
  take_over d n_candidates = do
    let service = d.decoder_service
    let spl_start = DecoderService.get_spelling_start m service
    let full_sent = DecoderService.get_choice m service 0
    let fixed_len = DecoderService.get_fixed_len m service
    let surface = DecoderService.get_py_str m service false
    composing_str ← compose spl_start surface full_sent fixed_len
    display ←
        prepare_display spl_start (length (DecoderService.get_py_str m service true)) surface
          full_sent fixed_len composing_str
    some (taken d n_candidates composing_str display)

  unfoldable pub first_page : ImeState → DecodingInfo S → Option (DecodingInfo S)
  first_page ime_state d =
      if d.finish_selection
      then some d
      else do prepared ← prepare_page m d ime_state (pos 0); some prepared.0

  unfoldable pub update_for_search : ImeState → DecodingInfo S → ℤ → Option (DecodingInfo S)
  update_for_search ime_state d (negsuc n) = some (record d { total_choices_num = 0 })
  update_for_search ime_state d (pos n) = do d' ← take_over d n; first_page ime_state d'

  unfoldable pub clear_fixed_this_step : ImeState → Bool
  clear_fixed_this_step composing = false
  clear_fixed_this_step bypass = true
  clear_fixed_this_step idle = true
  clear_fixed_this_step input = true
  clear_fixed_this_step predict = true
  clear_fixed_this_step app_completion = true

  -- A new search, or a search after the deletion that was prepared.
  unfoldable pub search_surface : ImeState → DecodingInfo S → ℤ → DecodingInfo S × ℕ
  unfolding clear_fixed_this_step
  search_surface ime_state d (negsuc n) =
      let (service, num) = DecoderService.search m d.decoder_service d.surface in
      (record d { decoder_service = service }, num)
  search_surface ime_state d (pos at) =
      let (service, num) =
        DecoderService.del_search m d.decoder_service at d.is_pos_in_spl
          (clear_fixed_this_step ime_state) in
      (record d { decoder_service = service; pos_del_spl = negsuc 0 }, num)

  unfoldable pub decode : ImeState → DecodingInfo S → ℤ → Option (DecodingInfo S × ℕ)
  unfolding search_surface
  decode ime_state d (pos cand_id) = do
    (service, num) ← DecoderService.choose m d.decoder_service cand_id
    some (record d { decoder_service = service }, num)
  decode ime_state d (negsuc n) =
      some (if length d.surface == 0 then (d, 0) else search_surface ime_state d d.pos_del_spl)

  unfoldable pub start_decoding : ImeState → DecodingInfo S → ℤ → Option (DecodingInfo S)
  unfolding decode
  start_decoding ime_state d cand_id = do
    (d', n_candidates) ← decode ime_state (reset_candidates d) cand_id
    update_for_search ime_state d' (pos n_candidates)

  unfoldable pub choose_decoding_candidate : ImeState → DecodingInfo S → ℤ → Option (DecodingInfo S)
  unfolding start_decoding
  choose_decoding_candidate predict d cand_id = some d
  choose_decoding_candidate bypass d cand_id = start_decoding bypass d cand_id
  choose_decoding_candidate idle d cand_id = start_decoding idle d cand_id
  choose_decoding_candidate input d cand_id = start_decoding input d cand_id
  choose_decoding_candidate composing d cand_id = start_decoding composing d cand_id
  choose_decoding_candidate app_completion d cand_id = start_decoding app_completion d cand_id

module _ {S : Type 0} (d : DecodingInfo S) where
  -- The chosen prediction becomes the whole sentence.
  unfoldable pub take_prediction : ℕ → Option (DecodingInfo S)
  take_prediction choice = do
    tmp ← get_elem? d.candidates_list choice
    some (record (reset_candidates d) {
      candidates_list = tmp ∷ [];
      total_choices_num = 1;
      surface = [];
      cursor_pos = 0;
      full_sent = tmp;
      fixed_len = length tmp;
      composing_str = tmp;
      active_cmps_len = pos (length tmp);
      finish_selection = true;
    })

  unfoldable pub choose_prediction : ℤ → Option (DecodingInfo S)
  unfolding take_prediction
  choose_prediction (negsuc n) = some d
  choose_prediction (pos choice) =
      if leb d.total_choices_num choice then some d else take_prediction choice

  unfoldable pub choose_predict_choice : ImeState → ℤ → Option (DecodingInfo S)
  unfolding choose_prediction
  choose_predict_choice predict choice = choose_prediction choice
  choose_predict_choice bypass choice = some d
  choose_predict_choice idle choice = some d
  choose_predict_choice input choice = some d
  choose_predict_choice composing choice = some d
  choose_predict_choice app_completion choice = some d
