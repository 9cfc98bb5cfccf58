-- ===== src/PinyinIme/Reach.antt =====
-- Which states the keys lead to.
use scim_googlepinyin.Prelude.{Bool, true, some, ◌≡◌, arith}
use scim_googlepinyin.ImeState.{ImeState, idle, input, composing, predict, bypass, app_completion}
use scim_googlepinyin.Prelude.Errors.{>>=-eq-some}
use scim_googlepinyin.Prelude.Int.{ℤ, negsuc}
use scim_googlepinyin.DecodingInfo.Edit
use scim_googlepinyin.DecoderService.{MatrixSearch}
use scim_googlepinyin.Scim.{Scim, KeyEvent}
use scim_googlepinyin.FunctionKeys
use scim_googlepinyin.PinyinIme.{Ime}
use scim_googlepinyin.PinyinIme.Composing
use scim_googlepinyin.PinyinIme.Window
use scim_googlepinyin.PinyinIme.Keys
use scim_googlepinyin.PinyinIme.Keys.{process_key}
use scim_googlepinyin.PinyinIme.States.{
  is_settled, settled_idle, settled_input, settled_composing, cursor_left_state, cursor_right_state,
  page_up_state, page_down_state, choose_and_update_state, choose_candidate_state,
  choose_candidate_in_page_state, reset_to_idle_state_state, change_to_state_input_state,
  input_comma_period_state, update_composing_text_state, move_cursor_state,
  move_cursor_to_edge_state,
}

module _ {S : Type 0} (m : MatrixSearch S) (k : Scim) (key : KeyEvent) (s : Ime S) {t : Ime S} where
  add_and_update_state :
      (reset : Bool)
      → is_settled s.ime_state ≡ true
      → Keys.add_and_update m k key reset s ≡ some t
      → is_settled t.ime_state ≡ true
  unfolding Keys.add_and_update
  add_and_update_state reset h e =
      let (d, edited, chosen) =
        >>=-eq-some (Edit.add_spl_char m s.dec_info (k.get_ascii_code key) reset) _ e in
      choose_and_update_state m (record s { dec_info = d }) (negsuc 0) h chosen

  delete_before_state :
      is_settled s.ime_state ≡ true
      → Keys.delete_before m k key s ≡ some t
      → is_settled t.ime_state ≡ true
  unfolding Keys.delete_before
  delete_before_state h e =
      let (d, edited, chosen) = >>=-eq-some (Edit.prepare_delete_before_cursor s.dec_info) _ e in
      choose_and_update_state m (record s { dec_info = d }) (negsuc 0) h chosen

  delete_after_state :
      is_settled s.ime_state ≡ true
      → Keys.delete_after m k key s ≡ some t
      → is_settled t.ime_state ≡ true
  unfolding Keys.delete_after
  delete_after_state h e =
      let (d, edited, chosen) = >>=-eq-some (Edit.prepare_delete_after_cursor s.dec_info) _ e in
      choose_and_update_state m (record s { dec_info = d }) (negsuc 0) h chosen

  comma_period_state :
      is_settled s.ime_state ≡ true
      → Keys.comma_period m k key s ≡ some t
      → is_settled t.ime_state ≡ true
  unfolding Keys.comma_period
  comma_period_state h e = grind (arith, input_comma_period_state)

  stop_editing_state :
      is_settled s.ime_state ≡ true
      → Keys.stop_editing m k key s ≡ some t
      → is_settled t.ime_state ≡ true
  unfolding Keys.stop_editing
  stop_editing_state h e = grind (arith, change_to_state_input_state, settled_input)

  move_cursor_settled :
      (offset : ℤ)
      → is_settled s.ime_state ≡ true
      → Composing.move_cursor offset s ≡ some t
      → is_settled t.ime_state ≡ true
  move_cursor_settled offset h e = cc (move_cursor_state s offset e)

  move_cursor_to_edge_settled :
      (left : Bool)
      → is_settled s.ime_state ≡ true
      → Composing.move_cursor_to_edge left s ≡ some t
      → is_settled t.ime_state ≡ true
  move_cursor_to_edge_settled left h e = cc (move_cursor_to_edge_state s left e)

  start_editing_state : Keys.start_editing m k key s ≡ some t → t.ime_state ≡ composing
  unfolding Keys.start_editing Window.change_to_state_composing
  start_editing_state e = grind (arith, update_composing_text_state)

module _ {S : Type 0} (m : MatrixSearch S) (k : Scim) (key : KeyEvent) (s : Ime S)
    {r : Ime S × Bool} where
  process_surface_change_state :
      is_settled s.ime_state ≡ true
      → Keys.process_surface_change m k key s ≡ some r
      → is_settled r.0.ime_state ≡ true
  unfolding Keys.process_surface_change
  process_surface_change_state h e =
      grind (arith, add_and_update_state, delete_before_state, delete_after_state)

  process_state_idle_state :
      is_settled s.ime_state ≡ true
      → Keys.process_state_idle m k key s ≡ some r
      → is_settled r.0.ime_state ≡ true
  unfolding Keys.process_state_idle Window.commit_char Window.commit_result_text
      Composing.set_visibility
  process_state_idle_state h e = grind (arith, add_and_update_state)

module _ {S : Type 0} (m : MatrixSearch S) (k : Scim) (key : KeyEvent) (s : Ime S)
    {r : Ime S × Bool} where
  input_other_keys_state :
      is_settled s.ime_state ≡ true
      → Keys.input_other_keys m k key s ≡ some r
      → is_settled r.0.ime_state ≡ true
  unfolding Keys.input_other_keys
  input_other_keys_state h e = grind (
    arith, page_up_state, page_down_state, choose_candidate_in_page_state, choose_candidate_state,
    reset_to_idle_state_state, settled_idle, process_surface_change_state, comma_period_state,
  )

  composing_other_keys_state :
      is_settled s.ime_state ≡ true
      → Keys.composing_other_keys m k key s ≡ some r
      → is_settled r.0.ime_state ≡ true
  unfolding Keys.composing_other_keys
  composing_other_keys_state h e = grind (
    arith, choose_candidate_in_page_state, choose_candidate_state, reset_to_idle_state_state,
    settled_idle, process_surface_change_state,
  )

module _ {S : Type 0} (m : MatrixSearch S) (k : Scim) (key : KeyEvent) (s : Ime S)
    {r : Ime S × Bool} where
  composing_arrow_keys_state :
      is_settled s.ime_state ≡ true
      → Keys.composing_arrow_keys m k key s ≡ some r
      → is_settled r.0.ime_state ≡ true
  unfolding Keys.composing_arrow_keys
  composing_arrow_keys_state h e =
      grind (arith, move_cursor_settled m k key, composing_other_keys_state)

module _ {S : Type 0} (m : MatrixSearch S) (k : Scim) (key : KeyEvent) (s : Ime S)
    {r : Ime S × Bool} where
  process_state_input_state :
      is_settled s.ime_state ≡ true
      → Keys.process_state_input m k key s ≡ some r
      → is_settled r.0.ime_state ≡ true
  unfolding Keys.process_state_input
  process_state_input_state h e = grind (
    arith, cursor_left_state, cursor_right_state, start_editing_state, settled_composing,
    move_cursor_to_edge_state, input_other_keys_state,
  )

  process_state_edit_composing_state :
      is_settled s.ime_state ≡ true
      → Keys.process_state_edit_composing m k key s ≡ some r
      → is_settled r.0.ime_state ≡ true
  unfolding Keys.process_state_edit_composing
  process_state_edit_composing_state h e =
      grind
        (arith, stop_editing_state, move_cursor_to_edge_settled m k key, composing_arrow_keys_state)

module _ {S : Type 0} (m : MatrixSearch S) (k : Scim) (key : KeyEvent) (s : Ime S)
    {r : Ime S × Bool} where
  process_state_state :
      (st : ImeState)
      → is_settled st ≡ true
      → is_settled s.ime_state ≡ true
      → Keys.process_state m k key st s ≡ some r
      → is_settled r.0.ime_state ≡ true
  unfolding Keys.process_state is_settled
  process_state_state idle g h e = process_state_idle_state m k key s h e
  process_state_state input g h e = process_state_input_state m k key s h e
  process_state_state composing g h e = process_state_edit_composing_state m k key s h e
  process_state_state bypass g h e = cc
  process_state_state predict g h e = cc
  process_state_state app_completion g h e = cc

module _ {S : Type 0} (m : MatrixSearch S) (k : Scim) (key : KeyEvent) (s : Ime S)
    {r : Ime S × Bool} where
  process_press_state :
      is_settled s.ime_state ≡ true
      → Keys.process_press m k key s ≡ some r
      → is_settled r.0.ime_state ≡ true
  unfolding Keys.process_press Keys.escape Keys.process_in_chinese
  process_press_state h e =
      grind (arith, process_state_state, reset_to_idle_state_state, settled_idle)

module _ {S : Type 0} (s : Ime S) {r : Ime S × Bool} where
  trigger_input_mode_state :
      Keys.handled true (Window.trigger_input_mode s) ≡ some r → r.0.ime_state ≡ idle
  unfolding Window.trigger_input_mode
  trigger_input_mode_state e = grind (arith, reset_to_idle_state_state)

module _ {S : Type 0} (m : MatrixSearch S) (k : Scim) (key : KeyEvent) (s : Ime S)
    {r : Ime S × Bool} where
  remembered_key_state :
      is_settled s.ime_state ≡ true
      → Keys.remembered_key m k key s ≡ some r
      → is_settled r.0.ime_state ≡ true
  unfolding Keys.remembered_key
  remembered_key_state h e = grind (arith, process_press_state)

-- From a state that is idle, input or composing every key, pressed or released, leads to such a
-- state again, where it does not fault. So the prediction state, which `choose_and_update` enters,
-- is never the state between two keys.
pub process_key-is_settled :
    {S : Type 0} (m : MatrixSearch S) (k : Scim) (key : KeyEvent) (s : Ime S) {r : Ime S × Bool}
    → is_settled s.ime_state ≡ true
    → process_key m k key s ≡ some r
    → is_settled r.0.ime_state ≡ true
unfolding process_key
process_key-is_settled m k key s {r = r} h e = ground (
  arith,
  remembered_key_state m k key
      (record s { func_keys = FunctionKeys.remember_last_key s.func_keys key }) {r = r},
  trigger_input_mode_state s {r = r},
  settled_idle,
)
