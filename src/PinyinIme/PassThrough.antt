-- ===== src/PinyinIme/PassThrough.antt =====
-- Keys that the input method leaves to the application, and digits.
use scim_googlepinyin.Prelude.{
  ℕ, ◌+◌, ◌-◌, ◌%◌, ◌^◌, ◌<◌, ◌≡◌, true, false, some, arith, ◌==◌, if◌then◌else◌, ltb,
}
use scim_googlepinyin.ImeState.{idle, bypass}
use scim_googlepinyin.DecoderService.{MatrixSearch}
use scim_googlepinyin.Scim.{Scim, KeyEvent}
use scim_googlepinyin.FunctionKeys.{is_mode_switch_key, remember_last_key}
use scim_googlepinyin.DecodingInfo.{get_current_page_size, get_current_page_start}
use scim_googlepinyin.PinyinIme.{Ime}
use scim_googlepinyin.PinyinIme.Window.{trigger_input_mode}
use scim_googlepinyin.PinyinIme.Choice.{choose_candidate_in_page, choose_and_update, to_int}
use scim_googlepinyin.PinyinIme.Keys.{
  process_key, process_press, remembered_key, is_escape, is_bypass, digit_index,
}
use scim_googlepinyin.PinyinIme.Resetting.{idle_after_reset, switched}

module _ {S : Type 0} (m : MatrixSearch S) (k : Scim) (key : KeyEvent) (s : Ime S) where
  -- In the bypass state every key is refused and nothing changes, not even the key remembered.
  pub process_key-bypass : s.ime_state ≡ bypass → process_key m k key s ≡ some (s, false)
  unfolding process_key
  process_key-bypass h = rw h

  -- In English mode a key pressed that neither switches the mode nor is a plain Escape is left to the
  -- application: only the key is remembered, and nothing is sent to the interface.
  pub process_key-english :
      is_bypass s.ime_state ≡ false
      → is_mode_switch_key k s.func_keys key ≡ false
      → k.is_key_release key ≡ false
      → is_escape m k key ≡ false
      → (s.input_mode == 0) ≡ false
      → process_key m k key s
        ≡ some (record s { func_keys = remember_last_key s.func_keys key }, false)
  unfolding process_key remembered_key process_press
  process_key-english awake plain pressed other english = ground arith

  -- A key that switches the mode is taken in every state but bypass, and without a fault: the state
  -- is idle then, the mode is the other one, and the key is not remembered.
  pub process_key-mode_switch :
      is_bypass s.ime_state ≡ false
      → is_mode_switch_key k s.func_keys key ≡ true
      → (t : Ime S) × (process_key m k key s ≡ some (t, true))
        × (t.ime_state ≡ idle)
        × (t.input_mode ≡ (if s.input_mode == 0 then 1 else 0))
        × (t.func_keys ≡ s.func_keys)
  unfolding process_key trigger_input_mode
  process_key-mode_switch awake switch =
      let (t, run, state, mode, keys, half) = idle_after_reset (switched s) in
      (t, rw (awake, switch, run), state, mode, keys)

  -- Of the digits the one for 0 chooses nothing: its index wraps round to the largest `unsigned`.
  pub choose_candidate_in_page-zero :
      (size : ℕ)
      → k.key_1 ≡ k.key_0 + 1
      → k.key_1 < 2 ^ 32
      → key.code ≡ k.key_0
      → get_current_page_size s.dec_info s.cand_view.page_no ≡ some size
      → size < 2 ^ 32
      → choose_candidate_in_page m (digit_index m k key) s ≡ some s
  unfolding choose_candidate_in_page digit_index
  choose_candidate_in_page-zero size next range code e small = ground arith

  -- The digit for `i + 1` chooses candidate `i` of the page shown, if the page has it.
  pub choose_candidate_in_page-digit :
      (i size start : ℕ)
      → key.code ≡ k.key_1 + i
      → key.code < 2 ^ 32
      → get_current_page_size s.dec_info s.cand_view.page_no ≡ some size
      → get_current_page_start s.dec_info s.cand_view.page_no ≡ some start
      → choose_candidate_in_page m (digit_index m k key) s
        ≡ (if ltb i size then choose_and_update m (to_int (i + start)) s else some s)
  unfolding choose_candidate_in_page digit_index
  choose_candidate_in_page-digit i size start code range e f =
      let index : (key.code + 2 ^ 32 - k.key_1) % 2 ^ 32 ≡ i = omega arith in rw (index, e, f)
