-- ===== src/PinyinIme/Faultless.antt =====
-- No key makes the input method fault, where the engine answers what it is asked consistently.
use scim_googlepinyin.Prelude.{
  ℕ, ◌<◌, ◌≡◌, refl, Bool, true, false, List, ◌++◌, Option, some, arith, length, take, inl, inr,
  Bool-cases, if◌then◌else◌, get_elem?-lt, subst, sym,
}
use scim_googlepinyin.Prelude.Errors.{◌>>=◌}
use scim_googlepinyin.Prelude.Int.{pos, negsuc}
use scim_googlepinyin.ImeState.{ImeState, idle, input, composing, predict, bypass, app_completion}
use scim_googlepinyin.DecoderService
use scim_googlepinyin.DecoderService.{MatrixSearch}
use scim_googlepinyin.Scim.{Scim, KeyEvent}
use scim_googlepinyin.FunctionKeys
use scim_googlepinyin.HalfToFull.{convert}
use scim_googlepinyin.FunctionKeys.{is_mode_switch_key, is_page_up_key, is_page_down_key}
use scim_googlepinyin.DecodingInfo.{get_current_full_sent, selection_finished}
use scim_googlepinyin.DecodingInfo.Fetching.{Decodes}
use scim_googlepinyin.DecodingInfo.Safety.{Answers, IsSafe}
use scim_googlepinyin.PinyinIme.{Ime}
use scim_googlepinyin.PinyinIme.Composing
use scim_googlepinyin.PinyinIme.Window
use scim_googlepinyin.PinyinIme.Keys
use scim_googlepinyin.PinyinIme.Keys.{process_key}
use scim_googlepinyin.PinyinIme.States.{is_settled}
use scim_googlepinyin.PinyinIme.Reach.{process_key-is_settled}
use scim_googlepinyin.PinyinIme.Sound.{IsShown, Draws, move_cursor-Draws, move_cursor_to_edge-Draws}
use scim_googlepinyin.PinyinIme.Shows.{
  IsSound, RunsSound, RunsShown, shown-IsSound, reset_candidate_window-IsShown,
  reset_to_idle_state-IsSound, change_to_state_input-IsShown,
}
use scim_googlepinyin.PinyinIme.Pages.{
  page_up-IsShown, page_down-IsShown, cursor_left-IsShown, cursor_right-IsShown,
  choose_active-IsSound, choose_candidate_in_page-IsSound, ChoicesAnswered, OnPage,
}
use scim_googlepinyin.PinyinIme.Steps.{
  RunsKey, branch, handled-RunsKey, page-RunsKey, Draws-IsShown, process_surface_change-RunsKey,
  process_state_idle-RunsKey, start_editing-IsShown,
}

-- What a key may ask for. The engine answers consistently, as it is and after a reset, whether it is asked
-- to search, to delete, or to choose a candidate of the page shown; the space key finds the active
-- candidate on that page, and comma and period find a candidate at the index that the source reads.
pub record IsKnown {S : Type 0} (m : MatrixSearch S) (k : Scim) (key : KeyEvent) (s : Ime S)
    : Type 0 where
  pub answers : Answers m s.dec_info.decoder_service
  pub after_reset : Answers m (DecoderService.reset_search m s.dec_info.decoder_service)
  pub choices : ChoicesAnswered m s
  pub on_page : Keys.is_key m k key k.key_space ≡ true → OnPage s
  pub comma :
      Keys.is_comma_or_period m k key ≡ true → s.candidate_index < length s.dec_info.candidates_list

branch_if :
    {S : Type 0} (b : Bool) {x y : Option (Ime S × Bool)}
    → (b ≡ true → RunsKey x)
    → RunsKey y
    → RunsKey (if b then x else y)
branch_if true f g = f refl
branch_if false f g = g

module _ {S : Type 0} (m : MatrixSearch S) (k : Scim) (key : KeyEvent) (s : Ime S)
    (known : IsKnown m k key s) where
  input_comma_period-IsSound :
      (text : List ℕ)
      → IsSound s
      → RunsSound (Window.input_comma_period k text (k.get_ascii_code key) true idle s)
  unfolding Window.input_comma_period Window.commit_result_text Composing.set_visibility
  input_comma_period-IsSound text sound = elim (Bool-cases (k.ispunct (k.get_ascii_code key))) [
    | inr p ↦ (s, rw p refl, sound)
    | inl p ↦
        let t =
          Window.commit_result_text (text ++ (convert k s.half2full (k.get_ascii_code key)).1)
            (record s { half2full = (convert k s.half2full (k.get_ascii_code key)).0 }) in
        let (u, e, safe, shown) = reset_candidate_window-IsShown t sound.info in
        (
          record u { ime_state = idle },
          rw p (rw e refl),
          record { info = safe; shown = λ h. shown },
        )
  ]

  full_sent_runs :
      s.candidate_index < length s.dec_info.candidates_list
      → (str : List ℕ) × (get_current_full_sent s.dec_info s.candidate_index ≡ some str)
  unfolding get_current_full_sent
  full_sent_runs some_candidate =
      let (cand, e) = get_elem?-lt s.dec_info.candidates_list s.candidate_index some_candidate in
      (take s.dec_info.fixed_len s.dec_info.full_sent ++ cand, ground (arith, e))

  comma_period-IsSound :
      s.candidate_index < length s.dec_info.candidates_list
      → IsSound s
      → RunsSound (Keys.comma_period m k key s)
  unfolding Keys.comma_period
  comma_period-IsSound some_candidate sound =
      let (str, e) = full_sent_runs some_candidate in rw e (input_comma_period-IsSound str sound)

  last_keys :
      IsSound s
      → RunsKey (
          if Keys.is_comma_or_period m k key
          then Keys.handled true (Keys.comma_period m k key s)
          else some (s, false))
  last_keys sound = elim (Bool-cases (Keys.is_comma_or_period m k key)) [
    | inr c ↦ (s, false, rw c refl, sound)
    | inl c ↦ rw c (handled-RunsKey true (comma_period-IsSound (known.comma c) sound))
  ]

  start_at_edge :
      IsSafe s.dec_info
      → IsShown s
      → RunsShown (Keys.start_editing m k key s >>= Composing.move_cursor_to_edge true)
  start_at_edge safe shown =
      let (t, e, safe', shown') = start_editing-IsShown m k key s safe shown in
      rw e (Draws-IsShown t shown' (move_cursor_to_edge-Draws t true safe'))

  input_other_keys-RunsKey :
      Decodes s.ime_state → IsSound s → IsShown s → RunsKey (Keys.input_other_keys m k key s)
  unfolding Keys.input_other_keys Window.commit_result_text Composing.set_visibility
  input_other_keys-RunsKey h sound shown =
      branch _ (page-RunsKey (page_up-IsShown s sound.info shown)) (
        branch _ (page-RunsKey (page_down-IsShown m s h sound.info shown)) (
          branch _
            (handled-RunsKey true
              (choose_candidate_in_page-IsSound m _ s known.choices h sound.info shown))
            (branch _ (handled-RunsKey true (reset_to_idle_state-IsSound _ sound.info)) (
              branch_if _
                (λ space. handled-RunsKey true (
                  choose_active-IsSound m s known.choices (known.on_page space) h sound.info shown))
                (branch _
                  (process_surface_change-RunsKey m k key s known.answers known.after_reset h sound)
                  (last_keys sound))))))

  process_state_input-RunsKey :
      Decodes s.ime_state → IsSound s → IsShown s → RunsKey (Keys.process_state_input m k key s)
  unfolding Keys.process_state_input
  process_state_input-RunsKey h sound shown =
      branch _ (page-RunsKey (cursor_left-IsShown s sound.info shown)) (
        branch _ (page-RunsKey (cursor_right-IsShown m s h sound.info shown)) (
          branch _
            (handled-RunsKey true
              (shown-IsSound (start_editing-IsShown m k key s sound.info shown)))
            (branch _ (handled-RunsKey true (shown-IsSound (start_at_edge sound.info shown)))
              (input_other_keys-RunsKey h sound shown))))

  stop_editing-IsSound : IsSound s → RunsSound (Keys.stop_editing m k key s)
  unfolding Keys.stop_editing
  stop_editing-IsSound sound = elim (Bool-cases (selection_finished s.dec_info)) [
    | inl f ↦ (s, rw f refl, sound)
    | inr f ↦ rw f (shown-IsSound (change_to_state_input-IsShown s sound.info))
  ]

  drawn : {r : Option (Ime S)} → IsShown s → Draws s r → RunsKey (Keys.handled true r)
  drawn shown d = handled-RunsKey true (shown-IsSound (Draws-IsShown s shown d))

  composing_other_keys-RunsKey :
      Decodes s.ime_state → IsSound s → IsShown s → RunsKey (Keys.composing_other_keys m k key s)
  unfolding Keys.composing_other_keys Window.commit_result_text Composing.set_visibility
  composing_other_keys-RunsKey h sound shown =
      branch _
        (handled-RunsKey true
          (choose_candidate_in_page-IsSound m _ s known.choices h sound.info shown))
        (branch_if _
          (λ space.
            handled-RunsKey true
              (choose_active-IsSound m s known.choices (known.on_page space) h sound.info shown))
          (branch _ (handled-RunsKey true (reset_to_idle_state-IsSound _ sound.info))
            (process_surface_change-RunsKey m k key s known.answers known.after_reset h sound)))

  process_state_edit_composing-RunsKey :
      Decodes s.ime_state
      → IsSound s
      → IsShown s
      → RunsKey (Keys.process_state_edit_composing m k key s)
  unfolding Keys.process_state_edit_composing Keys.composing_arrow_keys
  process_state_edit_composing-RunsKey h sound shown =
      branch _ (handled-RunsKey true (stop_editing-IsSound sound)) (
        branch _ (drawn shown (move_cursor_to_edge-Draws s true sound.info)) (
          branch _ (drawn shown (move_cursor_to_edge-Draws s false sound.info)) (
            branch _
              (drawn shown (move_cursor-Draws s (negsuc 0) (omega arith) (omega arith) sound.info))
              (branch _
                (drawn shown (move_cursor-Draws s (pos 1) (omega arith) (omega arith) sound.info))
                (composing_other_keys-RunsKey h sound shown)))))

  process_state-RunsKey :
      (st : ImeState)
      → s.ime_state ≡ st
      → is_settled st ≡ true
      → IsSound s
      → RunsKey (Keys.process_state m k key st s)
  unfolding Keys.process_state is_settled
  process_state-RunsKey idle e g sound =
      process_state_idle-RunsKey m k key s known.answers known.after_reset
        (subst Decodes (sym e) tt) sound
  process_state-RunsKey input e g sound =
      process_state_input-RunsKey (subst Decodes (sym e) tt) sound (sound.shown (rw e refl))
  process_state-RunsKey composing e g sound =
      process_state_edit_composing-RunsKey (subst Decodes (sym e) tt) sound
        (sound.shown (rw e refl))
  process_state-RunsKey bypass e g sound = cc
  process_state-RunsKey predict e g sound = cc
  process_state-RunsKey app_completion e g sound = cc

  process_press-RunsKey :
      is_settled s.ime_state ≡ true → IsSound s → RunsKey (Keys.process_press m k key s)
  unfolding Keys.process_press Keys.escape Keys.process_in_chinese
  process_press-RunsKey g sound =
      branch _
        (branch _ (s, false, refl, sound)
          (handled-RunsKey true (reset_to_idle_state-IsSound s sound.info)))
        (branch _ (process_state-RunsKey s.ime_state refl g sound) (s, false, refl, sound))

module _ {S : Type 0} (m : MatrixSearch S) (k : Scim) (key : KeyEvent) (s : Ime S)
    (known : IsKnown m k key s) where
  process_key-RunsKey : is_settled s.ime_state ≡ true → IsSound s → RunsKey (process_key m k key s)
  unfolding process_key Keys.remembered_key Window.trigger_input_mode
  process_key-RunsKey g sound =
      let t = record s { func_keys = FunctionKeys.remember_last_key s.func_keys key } in
      let t-IsKnown : IsKnown m k key t = record {
        answers = known.answers;
        after_reset = known.after_reset;
        choices = known.choices;
        on_page = known.on_page;
        comma = known.comma;
      } in
      let t-IsSound : IsSound t = record { info = sound.info; shown = sound.shown } in
      branch _ (s, false, refl, sound)
        (branch _ (handled-RunsKey true (reset_to_idle_state-IsSound _ sound.info)) (
          branch _ (t, true, refl, t-IsSound)
            (process_press-RunsKey m k key t t-IsKnown g t-IsSound)))

-- No key, pressed or released, makes the input method fault in the idle, input or composing state, where
-- the bounds hold and the engine returns, with a consistent answer, from what the key may ask of it. For
-- the space key the active candidate must lie on the page shown, and for a comma or a period there must
-- be a candidate at the index that the source reads. The bounds hold again, and the state is one of those
-- three.
pub process_key-IsSound :
    {S : Type 0} (m : MatrixSearch S) (k : Scim) (key : KeyEvent) (s : Ime S)
    → IsKnown m k key s
    → is_settled s.ime_state ≡ true
    → IsSound s
    → (t : Ime S) × (b : Bool) × (process_key m k key s ≡ some (t, b))
      × IsSound t
      × (is_settled t.ime_state ≡ true)
process_key-IsSound m k key s known g sound =
    let (t, b, e, sound') = process_key-RunsKey m k key s known g sound in
    (t, b, e, sound', process_key-is_settled m k key s {r = (t, b)} g e)
