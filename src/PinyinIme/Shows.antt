-- ===== src/PinyinIme/Shows.antt =====
-- Showing candidates, going back to idle, turning pages and choosing: no fault, and the page shown is
-- in the table.
use scim_googlepinyin.Prelude.{
  ℕ, ◌≡◌, refl, Bool, true, false, not, List, Option, some, length, inl, inr, Bool-cases, ◌==◌,
  ◌&&◌, if◌then◌else◌,
}
use scim_googlepinyin.Prelude.Int.{ℤ, negsuc}
use scim_googlepinyin.ImeState.{ImeState, idle, input, composing, predict, bypass, app_completion}
use scim_googlepinyin.DecoderService.{MatrixSearch}
use scim_googlepinyin.DecodingInfo.Search.{decode}
use scim_googlepinyin.DecodingInfo.{
  DecodingInfo, get_candidate, can_do_prediction, get_candidates_number, selection_finished,
}
use scim_googlepinyin.DecodingInfo.Edit
use scim_googlepinyin.DecodingInfo.Fetching.{Decodes}
use scim_googlepinyin.DecodingInfo.Safety.{
  Answered, Answers, IsSafe, HasActivePart, choose_decoding_candidate-IsSafe,
  reset_candidates-IsSafe, decode-Answered,
}
use scim_googlepinyin.DecodingInfo.Edits.{reset-IsSafe}
use scim_googlepinyin.PinyinIme.{Ime, call}
use scim_googlepinyin.PinyinIme
use scim_googlepinyin.PinyinIme.Candidates
use scim_googlepinyin.PinyinIme.Composing
use scim_googlepinyin.PinyinIme.Window
use scim_googlepinyin.PinyinIme.Window.{is_idle, is_composing}
use scim_googlepinyin.PinyinIme.Choice
use scim_googlepinyin.PinyinIme.Sound.{IsShown, show_page-IsShown, update_composing_text-Draws}

-- The bounds hold, and in every state but idle a page is shown that is in the table.
pub record IsSound {S : Type 0} (s : Ime S) : Type 0 where
  pub info : IsSafe s.dec_info
  pub shown : is_idle s.ime_state ≡ false → IsShown s

abbrev pub RunsSound : {S : Type 0} → Option (Ime S) → Type 0
RunsSound {S = S} r = (t : Ime S) × (r ≡ some t) × IsSound t

abbrev pub RunsShown : {S : Type 0} → Option (Ime S) → Type 0
RunsShown {S = S} r = (t : Ime S) × (r ≡ some t) × IsSafe t.dec_info × IsShown t

module _ {S : Type 0} where
  pub shown-IsSound : {r : Option (Ime S)} → RunsShown r → RunsSound r
  shown-IsSound (t, e, safe, shown) = (t, e, record { info = safe; shown = λ h. shown })

  show_candidates-IsShown :
      (s : Ime S) (enable : Bool)
      → IsSafe s.dec_info
      → RunsShown (Candidates.show_candidates s enable)
  unfolding Candidates.show_candidates Candidates.set_visibility
  show_candidates-IsShown s enable safe =
      let (t, e, safe', state, shown) =
        show_page-IsShown (call PinyinIme.lookup_clear s) 0 0 enable safe in
      (Candidates.set_visibility t true, rw e refl, safe', shown)

  show_candidate_window-IsShown :
      (show : Bool) (s : Ime S)
      → IsSafe s.dec_info
      → RunsShown (Window.show_candidate_window show s)
  unfolding Window.show_candidate_window Candidates.set_visibility
  show_candidate_window-IsShown show s safe =
      let (t, e, safe', state, view, table) =
        update_composing_text-Draws (Candidates.set_visibility s true) show safe in
      let (u, f, safe'', shown) =
        show_candidates-IsShown t (not (is_composing t.ime_state)) safe' in
      (u, rw e f, safe'', shown)

  pub reset_candidate_window-IsShown :
      (s : Ime S) → IsSafe s.dec_info → RunsShown (Window.reset_candidate_window s)
  unfolding Window.reset_candidate_window Candidates.set_visibility
  reset_candidate_window-IsShown s safe =
      let (t, e, safe', shown) =
        show_candidate_window-IsShown false
          (record s { dec_info = Edit.reset_candidates s.dec_info })
          (reset_candidates-IsSafe s.dec_info safe) in
      (Candidates.set_visibility t false, rw e refl, safe', shown)

  pub reset_to_idle_state-IsSound :
      (s : Ime S) → IsSafe s.dec_info → RunsSound (Window.reset_to_idle_state s)
  unfolding Window.reset_to_idle_state Composing.reset
  reset_to_idle_state-IsSound s safe = elim (Bool-cases (is_idle s.ime_state)) [
    | inl i ↦ (s, rw i refl, record { info = safe; shown = λ h. cc })
    | inr n ↦ rw n (
        shown-IsSound (
          reset_candidate_window-IsShown
            (Composing.reset (record s { ime_state = idle; dec_info = Edit.reset s.dec_info }))
            (reset-IsSafe s.dec_info safe)))
  ]

  pub change_to_state_input-IsShown :
      (s : Ime S) → IsSafe s.dec_info → RunsShown (Window.change_to_state_input s)
  unfolding Window.change_to_state_input
  change_to_state_input-IsShown s safe =
      show_candidate_window-IsShown true (record s { ime_state = input }) safe

module _ {S : Type 0} (m : MatrixSearch S) where
  may_compose-IsSafe :
      (finished : Bool) (s : Ime S)
      → IsSafe s.dec_info
      → IsSafe (if finished then Window.change_to_state_composing s else s).dec_info
  unfolding Window.change_to_state_composing
  may_compose-IsSafe true s safe = safe
  may_compose-IsSafe false s safe = safe

  next_state-IsSafe :
      (st : ImeState) (s : Ime S)
      → IsSafe s.dec_info
      → (t : Ime S) × (Choice.next_state st s ≡ some t) × IsSafe t.dec_info
  unfolding Choice.next_state Window.change_to_state_composing
  next_state-IsSafe idle s safe = elim (Bool-cases (s.dec_info.surface_decoded_len == 0)) [
    | inl e ↦ (Window.change_to_state_composing s, rw e refl, safe)
    | inr e ↦
        let (t, run, safe', shown) = change_to_state_input-IsShown s safe in (t, rw e run, safe')
  ]
  next_state-IsSafe bypass s safe =
      (_, refl, may_compose-IsSafe (selection_finished s.dec_info) s safe)
  next_state-IsSafe input s safe =
      (_, refl, may_compose-IsSafe (selection_finished s.dec_info) s safe)
  next_state-IsSafe composing s safe =
      (_, refl, may_compose-IsSafe (selection_finished s.dec_info) s safe)
  next_state-IsSafe predict s safe =
      (_, refl, may_compose-IsSafe (selection_finished s.dec_info) s safe)
  next_state-IsSafe app_completion s safe =
      (_, refl, may_compose-IsSafe (selection_finished s.dec_info) s safe)

  go_on_choosing-IsShown : (s : Ime S) → IsSafe s.dec_info → RunsShown (Choice.go_on_choosing s)
  unfolding Choice.go_on_choosing
  go_on_choosing-IsShown s safe =
      let (t, e, safe') = next_state-IsSafe s.ime_state s safe in
      rw e (show_candidate_window-IsShown true t safe')

  offer_prediction-IsSound :
      (result_str : List ℕ) (s : Ime S)
      → IsSafe s.dec_info
      → RunsSound (Choice.offer_prediction result_str s)
  unfolding Choice.offer_prediction Window.commit_result_text Composing.set_visibility
      Edit.reset_candidates get_candidates_number
  offer_prediction-IsSound result_str s safe =
      reset_to_idle_state-IsSound _ (reset_candidates-IsSafe s.dec_info safe)

  after_choice-IsSound :
      (cand_id : ℤ) (s : Ime S)
      → IsSafe s.dec_info
      → HasActivePart s.dec_info
      → RunsSound (Choice.after_choice cand_id s)
  unfolding Choice.after_choice
  after_choice-IsSound cand_id s safe (active, part) =
      elim (Bool-cases (length s.dec_info.composing_str == 0)) [
        | inl e ↦ rw e (reset_to_idle_state-IsSound s safe)
        | inr e ↦ elim (Bool-cases (Choice.is_chosen cand_id && can_do_prediction s.dec_info)) [
          | inl f ↦ rw (part, e, f) (offer_prediction-IsSound active s safe)
          | inr f ↦ rw (part, e, f) (shown-IsSound (go_on_choosing-IsShown s safe))
        ]
      ]

  decide-IsSafe :
      (st : ImeState) (cand_id : ℤ) (d found : DecodingInfo S) (num : ℕ)
      → decode m st (Edit.reset_candidates d) cand_id ≡ some (found, num)
      → Answered m found.decoder_service
      → Decodes st
      → IsSafe d
      → (d' : DecodingInfo S) × (Choice.decide m st cand_id d ≡ some d')
        × IsSafe d'
        × HasActivePart d'
  unfolding Choice.decide
  decide-IsSafe idle cand_id d found num run a h safe =
      choose_decoding_candidate-IsSafe m idle d found cand_id num run a tt safe
  decide-IsSafe input cand_id d found num run a h safe =
      choose_decoding_candidate-IsSafe m input d found cand_id num run a tt safe
  decide-IsSafe composing cand_id d found num run a h safe =
      choose_decoding_candidate-IsSafe m composing d found cand_id num run a tt safe
  decide-IsSafe bypass cand_id d found num run a h safe = elim h [ ]
  decide-IsSafe predict cand_id d found num run a h safe = elim h [ ]
  decide-IsSafe app_completion cand_id d found num run a h safe = elim h [ ]

  -- In Chinese mode the engine returns from what `choose_and_update` asks of it, with a consistent answer.
  abbrev pub IsAnswered : ℤ → Ime S → Type 0
  IsAnswered cand_id s =
      (s.input_mode == 0) ≡ true
      → (found : DecodingInfo S) × (num : ℕ) × (decode m s.ime_state
            (Edit.reset_candidates s.dec_info) cand_id
          ≡ some (found, num))
        × Answered m found.decoder_service

  -- In a state in which pinyin is decoded, from the bounds, and where in Chinese mode the engine
  -- returns from the search, deletion or choice that is asked of it, with a consistent answer, a decoding
  -- or the choice of a candidate does not fault. The bounds hold again, and unless the state is idle
  -- the page shown is in the table of pages.
  pub choose_and_update-IsSound :
      (cand_id : ℤ) (s : Ime S)
      → IsAnswered cand_id s
      → Decodes s.ime_state
      → IsSafe s.dec_info
      → RunsSound (Choice.choose_and_update m cand_id s)
  unfolding Choice.choose_and_update Choice.choose_in_chinese Choice.choose_in_english
      Window.commit_result_text Composing.set_visibility
  choose_and_update-IsSound cand_id s a h safe = elim (Bool-cases (s.input_mode == 0)) [
    | inl e ↦
        let (found, num, asked, answered) = a e in
        let (d', run, safe', part) =
          decide-IsSafe s.ime_state cand_id s.dec_info found num asked answered h safe in
        rw (e, run) (after_choice-IsSound cand_id (record s { dec_info = d' }) safe' part)
    | inr e ↦ elim (Bool-cases (length (get_candidate s.dec_info cand_id) == 0)) [
      | inl f ↦ rw (e, f) (reset_to_idle_state-IsSound s safe)
      | inr f ↦ rw (e, f) (reset_to_idle_state-IsSound _ safe)
    ]
  ]

  pub decoding-IsAnswered :
      (s : Ime S) → Answers m s.dec_info.decoder_service → IsAnswered (negsuc 0) s
  unfolding Edit.reset_candidates
  decoding-IsAnswered s a e = decode-Answered m s.ime_state (Edit.reset_candidates s.dec_info) 0 a
