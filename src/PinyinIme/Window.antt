-- ===== src/PinyinIme/Window.antt =====
-- src/pinyin_ime.cpp: showing, hiding and resetting the windows, and the changes of state.
use scim_googlepinyin.Prelude.{
  ℕ, Bool, true, false, not, List, ◌++◌, Option, some, ◌==◌, ◌||◌, if◌then◌else◌,
}
use scim_googlepinyin.Prelude.Errors.{◌>>=◌}
use scim_googlepinyin.ImeState.{ImeState, idle, input, composing, predict, bypass, app_completion}
use scim_googlepinyin.DecodingInfo.Edit
use scim_googlepinyin.Scim.{Scim}
use scim_googlepinyin.HalfToFull
use scim_googlepinyin.HalfToFull.{convert}
use scim_googlepinyin.PinyinIme.{Ime, call}
use scim_googlepinyin.PinyinIme
use scim_googlepinyin.PinyinIme.Candidates
use scim_googlepinyin.PinyinIme.Composing

abbrev pub is_composing : ImeState → Bool
is_composing composing = true
is_composing bypass = false
is_composing idle = false
is_composing input = false
is_composing predict = false
is_composing app_completion = false

abbrev pub is_idle : ImeState → Bool
is_idle idle = true
is_idle bypass = false
is_idle composing = false
is_idle input = false
is_idle predict = false
is_idle app_completion = false

module _ {S : Type 0} where
  unfoldable pub commit_result_text : List ℕ → Ime S → Ime S
  commit_result_text text s = Composing.set_visibility false (call (PinyinIme.commit_string text) s)

  unfoldable pub update_composing_text : Bool → Ime S → Option (Ime S)
  update_composing_text true s = do
    t ← Composing.set_decoding_info s.ime_state s
    some (Composing.set_visibility true t)
  update_composing_text false s = some (Composing.set_visibility false s)

  unfoldable pub show_candidate_window : Bool → Ime S → Option (Ime S)
  show_candidate_window show_composing_view s = do
    t ← update_composing_text show_composing_view (Candidates.set_visibility s true)
    Candidates.show_candidates t (not (is_composing t.ime_state))

  unfoldable pub dismiss_candidate_window : Ime S → Ime S
  dismiss_candidate_window s = Candidates.set_visibility s false

  unfoldable pub reset_candidate_window : Ime S → Option (Ime S)
  reset_candidate_window s = do
    t ← show_candidate_window false (record s { dec_info = Edit.reset_candidates s.dec_info })
    some (Candidates.set_visibility t false)

  unfoldable pub reset_to_idle_state : Ime S → Option (Ime S)
  reset_to_idle_state s =
      if is_idle s.ime_state
      then some s
      else reset_candidate_window
          (Composing.reset (record s { ime_state = idle; dec_info = Edit.reset s.dec_info }))

  unfoldable pub change_to_state_composing : Ime S → Ime S
  change_to_state_composing s = record s { ime_state = composing }

  unfoldable pub change_to_state_input : Ime S → Option (Ime S)
  change_to_state_input s = show_candidate_window true (record s { ime_state = input })

  -- `m_input_mode = !m_input_mode` on an `int`.
  unfoldable pub trigger_input_mode : Ime S → Option (Ime S)
  trigger_input_mode s =
      let t = record s { input_mode = if s.input_mode == 0 then 1 else 0 } in
      reset_to_idle_state
        (call (PinyinIme.refresh_status_property (t.input_mode == PinyinIme.input_chinese)) t)

  unfoldable pub trigger_punct_width : Ime S → Ime S
  trigger_punct_width s =
      let t = record s { half2full = HalfToFull.toggle_punct_width s.half2full } in
      call (PinyinIme.refresh_punct_property t.half2full.is_full_width_punct) t

  unfoldable pub trigger_letter_width : Ime S → Ime S
  trigger_letter_width s =
      let t = record s { half2full = HalfToFull.toggle_letter_width s.half2full } in
      call (PinyinIme.refresh_letter_property t.half2full.is_full_width_letter) t

  unfoldable pub redraw : Ime S → Option (Ime S)
  redraw s = Composing.redraw s >>= Candidates.redraw

  unfoldable pub commit_char : Scim → ℕ → Ime S → Ime S × Bool
  commit_char k punct s =
      if s.half2full.is_full_width_letter || s.half2full.is_full_width_punct
      then (let (half2full, text) = convert k s.half2full punct in
          (commit_result_text text (record s { half2full = half2full }), true))
      else (s, false)

  -- A character that is no punctuation is ignored.
  unfoldable pub input_comma_period : Scim → List ℕ → ℕ → Bool → ImeState → Ime S → Option (Ime S)
  input_comma_period k pre_edit ch dismiss_cand_window next_state s =
      if k.ispunct ch
      then (let (half2full, text) = convert k s.half2full ch in
          let t = commit_result_text (pre_edit ++ text) (record s { half2full = half2full }) in
          do
            u ← if dismiss_cand_window then reset_candidate_window t else some t
            some (record u { ime_state = next_state }))
      else some s
