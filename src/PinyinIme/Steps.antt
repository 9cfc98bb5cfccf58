-- ===== src/PinyinIme/Steps.antt =====
-- Typing, deleting and beginning to edit: no fault, where the engine answers consistently.
use scim_googlepinyin.Prelude.{
  ◌+◌, ◌<◌, ◌≡◌, refl, Bool, true, false, Option, some, length, if◌then◌else◌, subst, sym,
}
use scim_googlepinyin.Prelude.Int.{pos, negsuc}
use scim_googlepinyin.DecoderService
use scim_googlepinyin.DecoderService.{MatrixSearch, PinyinDecoderService}
use scim_googlepinyin.DecodingInfo.{DecodingInfo}
use scim_googlepinyin.Prelude.Errors.{◌>>=◌}
use scim_googlepinyin.PinyinIme.Choice.{choose_and_update}
use scim_googlepinyin.Scim.{Scim, KeyEvent}
use scim_googlepinyin.DecodingInfo.Fetching.{Decodes}
use scim_googlepinyin.DecodingInfo.Safety.{Answers, IsSafe}
use scim_googlepinyin.DecodingInfo.Edits.{
  add_spl_char-IsSafe, prepare_delete_before_cursor-IsSafe, prepare_delete_after_cursor-IsSafe,
}
use scim_googlepinyin.PinyinIme.{Ime}
use scim_googlepinyin.PinyinIme.Candidates
use scim_googlepinyin.PinyinIme.Composing
use scim_googlepinyin.PinyinIme.Window
use scim_googlepinyin.PinyinIme.Keys
use scim_googlepinyin.PinyinIme.Keys.{process_key}
use scim_googlepinyin.PinyinIme.Sound.{IsShown, Draws, update_composing_text-Draws}
use scim_googlepinyin.PinyinIme.Shows.{
  IsSound, RunsSound, RunsShown, choose_and_update-IsSound, decoding-IsAnswered,
}
use scim_googlepinyin.PinyinIme.Pages.{RunsPage}

-- A handler that does not fault and leaves the bounds.
abbrev pub RunsKey : {S : Type 0} → Option (Ime S × Bool) → Type 0
RunsKey {S = S} r = (t : Ime S) × (b : Bool) × (r ≡ some (t, b)) × IsSound t

module _ {S : Type 0} where
  pub branch :
      (b : Bool) {x y : Option (Ime S × Bool)}
      → RunsKey x
      → RunsKey y
      → RunsKey (if b then x else y)
  branch true f g = f
  branch false f g = g

  either-IsSound :
      (b : Bool) (x y : Ime S × Bool) → IsSound x.0 → IsSound y.0 → IsSound (if b then x else y).0
  either-IsSound true x y f g = f
  either-IsSound false x y f g = g

  pub handled-RunsKey : (b : Bool) {r : Option (Ime S)} → RunsSound r → RunsKey (Keys.handled b r)
  handled-RunsKey b (t, e, sound) = (t, b, rw e refl, sound)

  pub page-RunsKey : {r : Option (Ime S × Bool)} → RunsPage r → RunsKey r
  page-RunsKey (t, b, e, safe, shown) = (t, b, e, record { info = safe; shown = λ h. shown })

  as_shown : (s : Ime S) → IsSafe s.dec_info → IsShown s → IsSound s
  as_shown s safe shown = record { info = safe; shown = λ h. shown }

  pub Draws-IsShown : (s : Ime S) {r : Option (Ime S)} → IsShown s → Draws s r → RunsShown r
  Draws-IsShown s (n, at, known) (t, e, safe, state, view, table) = (
    t,
    e,
    safe,
    (
      n,
      subst (λ v. v.page_no ≡ pos n) (sym view) at,
      subst (λ p. n + 1 < length p) (sym table) known,
    ),
  )

module _ {S : Type 0} (m : MatrixSearch S) (k : Scim) (key : KeyEvent) (s : Ime S)
    (answers : Answers m s.dec_info.decoder_service)
    (after_reset : Answers m (DecoderService.reset_search m s.dec_info.decoder_service)) where
  either-Answers :
      (reset : Bool)
      → Answers m (
          if reset
          then DecoderService.reset_search m s.dec_info.decoder_service
          else s.dec_info.decoder_service)
  either-Answers true = after_reset
  either-Answers false = answers

  -- A decoding after an edit that leaves the engine in the state `v`.
  edited-IsSound :
      (v : PinyinDecoderService S) (r : Option (DecodingInfo S))
      → Answers m v
      → Decodes s.ime_state
      → (d' : DecodingInfo S) × (r ≡ some d') × IsSafe d' × (d'.decoder_service ≡ v)
      → RunsSound (r >>= λ d. choose_and_update m (negsuc 0) (record s { dec_info = d }))
  edited-IsSound v r a h (d', e, safe', service) = rw e (
      choose_and_update-IsSound m (negsuc 0) (record s { dec_info = d' })
        (decoding-IsAnswered m (record s { dec_info = d' }) (subst (Answers m) (sym service) a)) h
        safe')

  add_and_update-IsSound :
      (reset : Bool)
      → Decodes s.ime_state
      → IsSafe s.dec_info
      → RunsSound (Keys.add_and_update m k key reset s)
  unfolding Keys.add_and_update
  add_and_update-IsSound reset h safe =
      edited-IsSound _ _ (either-Answers reset) h
        (add_spl_char-IsSafe m s.dec_info (k.get_ascii_code key) reset safe)

  delete_before-IsSound :
      Decodes s.ime_state → IsSafe s.dec_info → RunsSound (Keys.delete_before m k key s)
  unfolding Keys.delete_before
  delete_before-IsSound h safe =
      edited-IsSound _ _ answers h (prepare_delete_before_cursor-IsSafe s.dec_info safe)

  delete_after-IsSound :
      Decodes s.ime_state → IsSafe s.dec_info → RunsSound (Keys.delete_after m k key s)
  unfolding Keys.delete_after
  delete_after-IsSound h safe =
      edited-IsSound _ _ answers h (prepare_delete_after_cursor-IsSafe s.dec_info safe)

  pub process_surface_change-RunsKey :
      Decodes s.ime_state → IsSound s → RunsKey (Keys.process_surface_change m k key s)
  unfolding Keys.process_surface_change
  process_surface_change-RunsKey h sound =
      branch _ (s, true, refl, sound)
        (branch _ (handled-RunsKey true (add_and_update-IsSound false h sound.info)) (
          branch _ (handled-RunsKey true (delete_before-IsSound h sound.info)) (
            branch _ (handled-RunsKey true (delete_after-IsSound h sound.info))
              (s, true, refl, sound))))

  commit_char-IsSound : IsSound s → IsSound (Window.commit_char k (k.get_ascii_code key) s).0
  unfolding Window.commit_char Window.commit_result_text Composing.set_visibility
  commit_char-IsSound sound =
      either-IsSound _ _ _ (record { info = sound.info; shown = sound.shown }) sound

  pub process_state_idle-RunsKey :
      Decodes s.ime_state → IsSound s → RunsKey (Keys.process_state_idle m k key s)
  unfolding Keys.process_state_idle
  process_state_idle-RunsKey h sound =
      branch _ (handled-RunsKey true (add_and_update-IsSound true h sound.info)) (
        branch _
          (
            (Window.commit_char k (k.get_ascii_code key) s).0,
            (Window.commit_char k (k.get_ascii_code key) s).1,
            refl,
            commit_char-IsSound sound,
          )
          (s, false, refl, sound))

module _ {S : Type 0} (m : MatrixSearch S) (k : Scim) (key : KeyEvent) (s : Ime S) where
  pub start_editing-IsShown :
      IsSafe s.dec_info → IsShown s → RunsShown (Keys.start_editing m k key s)
  unfolding Keys.start_editing Window.change_to_state_composing Candidates.enable_active_highlight
  start_editing-IsShown safe shown =
      Draws-IsShown (Window.change_to_state_composing (Candidates.enable_active_highlight s false))
        shown
        (update_composing_text-Draws
          (Window.change_to_state_composing (Candidates.enable_active_highlight s false)) true safe)
