-- ===== src/PinyinIme/States.antt =====
-- The states that the input method can reach by keys.
use scim_googlepinyin.Prelude.{ℕ, List, Bool, true, false, some, ◌≡◌, refl, arith}
use scim_googlepinyin.DecoderService.{MatrixSearch}
use scim_googlepinyin.Scim.{Scim}
use scim_googlepinyin.Prelude.Errors.{>>=-eq-some}
use scim_googlepinyin.Prelude.Int.{ℤ, pos, negsuc}
use scim_googlepinyin.ImeState.{ImeState, idle, input, composing, predict, bypass, app_completion}
use scim_googlepinyin.PinyinIme.{Ime}
use scim_googlepinyin.PinyinIme.Candidates
use scim_googlepinyin.PinyinIme.Candidates.{show_page, cursor_back, cursor_forward, page_up}
use scim_googlepinyin.PinyinIme.Composing
use scim_googlepinyin.PinyinIme.Window
use scim_googlepinyin.PinyinIme.Choice
use scim_googlepinyin.DecodingInfo.Edit
use scim_googlepinyin.DecodingInfo.{get_candidates_number}

-- The views and windows leave the state alone.
module _ {S : Type 0} (s : Ime S) {t : Ime S} where
  pub show_page_state :
      (n : ℤ) (c : ℕ) (h : Bool) → show_page s n c h ≡ some t → t.ime_state ≡ s.ime_state
  unfolding show_page
  show_page_state n c h e = ground arith

  pub draw_state : Composing.redraw s ≡ some t → t.ime_state ≡ s.ime_state
  unfolding Composing.redraw Composing.draw_for_pinyin Composing.draw_for_english
  draw_state e = ground arith

module _ {S : Type 0} (s : Ime S) {t : Ime S} where
  pub show_candidates_state :
      (h : Bool) → Candidates.show_candidates s h ≡ some t → t.ime_state ≡ s.ime_state
  unfolding Candidates.show_candidates Candidates.set_visibility
  show_candidates_state h e = grind (arith, show_page_state)

  pub cands_redraw_state : Candidates.redraw s ≡ some t → t.ime_state ≡ s.ime_state
  unfolding Candidates.redraw Candidates.set_visibility
  cands_redraw_state e = grind (arith, show_page_state)

  pub move_cursor_state :
      (offset : ℤ) → Composing.move_cursor offset s ≡ some t → t.ime_state ≡ s.ime_state
  unfolding Composing.move_cursor
  move_cursor_state offset e = grind (arith, draw_state)

  pub move_cursor_to_edge_state :
      (left : Bool) → Composing.move_cursor_to_edge left s ≡ some t → t.ime_state ≡ s.ime_state
  unfolding Composing.move_cursor_to_edge
  move_cursor_to_edge_state left e = grind (arith, draw_state)

  pub set_decoding_info_state :
      (st : ImeState) → Composing.set_decoding_info st s ≡ some t → t.ime_state ≡ s.ime_state
  unfolding Composing.set_decoding_info
  set_decoding_info_state st e = grind (arith, draw_state)

module _ {S : Type 0} (s : Ime S) {t : Ime S} where
  pub update_composing_text_state :
      (b : Bool) → Window.update_composing_text b s ≡ some t → t.ime_state ≡ s.ime_state
  unfolding Window.update_composing_text Composing.set_visibility
  update_composing_text_state b e = grind (arith, set_decoding_info_state)

module _ {S : Type 0} (s : Ime S) {t : Ime S} where
  pub show_candidate_window_state :
      (b : Bool) → Window.show_candidate_window b s ≡ some t → t.ime_state ≡ s.ime_state
  unfolding Window.show_candidate_window Candidates.set_visibility
  show_candidate_window_state b e =
      grind (arith, update_composing_text_state, show_candidates_state)

module _ {S : Type 0} (s : Ime S) {t : Ime S} where
  pub reset_candidate_window_state :
      Window.reset_candidate_window s ≡ some t → t.ime_state ≡ s.ime_state
  unfolding Window.reset_candidate_window Candidates.set_visibility
  reset_candidate_window_state e = grind (arith, show_candidate_window_state)

module _ {S : Type 0} (s : Ime S) {r : Ime S × Bool} where
  pub cursor_back_state : cursor_back s ≡ some r → r.0.ime_state ≡ s.ime_state
  unfolding cursor_back Candidates.set_visibility
  cursor_back_state e = grind (arith, show_page_state)

  pub cursor_forward_state : cursor_forward s ≡ some r → r.0.ime_state ≡ s.ime_state
  unfolding cursor_forward Candidates.step_forward Candidates.set_visibility
  cursor_forward_state e = grind (arith, show_page_state)

  pub page_up_state : page_up s ≡ some r → r.0.ime_state ≡ s.ime_state
  unfolding page_up Candidates.turn_back
  page_up_state e = grind (arith, show_page_state)

  pub page_down_state :
      (m : MatrixSearch S) → Candidates.page_down m s ≡ some r → r.0.ime_state ≡ s.ime_state
  unfolding Candidates.page_down Candidates.turn_forward
  page_down_state m e = grind (arith, show_page_state)

module _ {S : Type 0} (s : Ime S) {r : Ime S × Bool} where
  pub cursor_left_state : Candidates.cursor_left s ≡ some r → r.0.ime_state ≡ s.ime_state
  unfolding Candidates.cursor_left Candidates.or_else
  cursor_left_state e = grind (arith, cursor_back_state, page_up_state)

  pub cursor_right_state :
      (m : MatrixSearch S) → Candidates.cursor_right m s ≡ some r → r.0.ime_state ≡ s.ime_state
  unfolding Candidates.cursor_right Candidates.or_else
  cursor_right_state m e = grind (arith, cursor_forward_state, page_down_state)

-- The states between two keys: idle, input or composing.
unfoldable pub is_settled : ImeState → Bool
is_settled idle = true
is_settled input = true
is_settled composing = true
is_settled bypass = false
is_settled predict = false
is_settled app_completion = false

pub settled_idle : is_settled idle ≡ true
unfolding is_settled
settled_idle = refl

pub settled_input : is_settled input ≡ true
unfolding is_settled
settled_input = refl

pub settled_composing : is_settled composing ≡ true
unfolding is_settled
settled_composing = refl

module _ {S : Type 0} (s : Ime S) {t : Ime S} where
  pub reset_to_idle_state_state : Window.reset_to_idle_state s ≡ some t → t.ime_state ≡ idle
  unfolding Window.reset_to_idle_state Composing.reset
  reset_to_idle_state_state e = grind (arith, reset_candidate_window_state)

  pub change_to_state_input_state : Window.change_to_state_input s ≡ some t → t.ime_state ≡ input
  unfolding Window.change_to_state_input
  change_to_state_input_state e = grind (arith, show_candidate_window_state)

  pub input_comma_period_state :
      (k : Scim) (pre : List ℕ) (ch : ℕ) (d : Bool)
      → is_settled s.ime_state ≡ true
      → Window.input_comma_period k pre ch d idle s ≡ some t
      → is_settled t.ime_state ≡ true
  unfolding Window.input_comma_period
  input_comma_period_state k pre ch d h e = ground (arith, settled_idle)

module _ {S : Type 0} (s : Ime S) {t : Ime S} where
  pub next_state_state :
      (st : ImeState)
      → is_settled st ≡ true
      → is_settled s.ime_state ≡ true
      → Choice.next_state st s ≡ some t
      → is_settled t.ime_state ≡ true
  unfolding is_settled Choice.next_state Window.change_to_state_composing
  next_state_state idle h k e = grind (arith, change_to_state_input_state)
  next_state_state input h k e = ground arith
  next_state_state composing h k e = ground arith
  next_state_state bypass h k e = cc
  next_state_state predict h k e = cc
  next_state_state app_completion h k e = cc

  -- `reset_candidates` leaves no candidate, so that predictions are never shown.
  pub offer_prediction_state :
      (text : List ℕ) → Choice.offer_prediction text s ≡ some t → t.ime_state ≡ idle
  unfolding Choice.offer_prediction get_candidates_number Edit.reset_candidates
  offer_prediction_state text e = reset_to_idle_state_state _ e

module _ {S : Type 0} (s : Ime S) {t : Ime S} where
  pub go_on_choosing_state :
      is_settled s.ime_state ≡ true
      → Choice.go_on_choosing s ≡ some t
      → is_settled t.ime_state ≡ true
  unfolding Choice.go_on_choosing
  go_on_choosing_state h e = grind (arith, next_state_state, show_candidate_window_state)

  pub after_choice_state :
      (cand_id : ℤ)
      → is_settled s.ime_state ≡ true
      → Choice.after_choice cand_id s ≡ some t
      → is_settled t.ime_state ≡ true
  unfolding Choice.after_choice
  after_choice_state cand_id h e =
      grind (
        arith, offer_prediction_state, go_on_choosing_state, reset_to_idle_state_state,
        settled_idle,
      )

module _ {S : Type 0} (m : MatrixSearch S) (s : Ime S) {t : Ime S} where
  choose_in_chinese_state :
      (cand_id : ℤ)
      → is_settled s.ime_state ≡ true
      → Choice.choose_in_chinese m cand_id s ≡ some t
      → is_settled t.ime_state ≡ true
  unfolding Choice.choose_in_chinese
  choose_in_chinese_state cand_id h e =
      let (d, decided, after) = >>=-eq-some (Choice.decide m s.ime_state cand_id s.dec_info) _ e in
      after_choice_state (record s { dec_info = d }) cand_id h after

module _ {S : Type 0} (m : MatrixSearch S) (s : Ime S) {t : Ime S} where
  pub choose_and_update_state :
      (cand_id : ℤ)
      → is_settled s.ime_state ≡ true
      → Choice.choose_and_update m cand_id s ≡ some t
      → is_settled t.ime_state ≡ true
  unfolding Choice.choose_and_update Choice.choose_in_english
  choose_and_update_state cand_id h e =
      grind (arith, reset_to_idle_state_state, choose_in_chinese_state, settled_idle)

module _ {S : Type 0} (m : MatrixSearch S) (s : Ime S) {t : Ime S} where
  pub choose_if_any_state :
      (cand_id : ℤ)
      → is_settled s.ime_state ≡ true
      → Choice.choose_if_any m cand_id s ≡ some t
      → is_settled t.ime_state ≡ true
  unfolding Choice.choose_if_any
  choose_if_any_state (pos n) h e = choose_and_update_state m s (pos n) h e
  choose_if_any_state (negsuc n) h e = ground arith

module _ {S : Type 0} (m : MatrixSearch S) (s : Ime S) {t : Ime S} where
  pub choose_candidate_state :
      (cand_no : ℤ)
      → is_settled s.ime_state ≡ true
      → Choice.choose_candidate m cand_no s ≡ some t
      → is_settled t.ime_state ≡ true
  unfolding Choice.choose_candidate
  choose_candidate_state (pos n) h e = choose_if_any_state m s (pos n) h e
  choose_candidate_state (negsuc n) h e = grind (arith, choose_if_any_state)

  pub choose_candidate_in_page_state :
      (index : ℕ)
      → is_settled s.ime_state ≡ true
      → Choice.choose_candidate_in_page m index s ≡ some t
      → is_settled t.ime_state ≡ true
  unfolding Choice.choose_candidate_in_page
  choose_candidate_in_page_state index h e = grind (arith, choose_and_update_state)
