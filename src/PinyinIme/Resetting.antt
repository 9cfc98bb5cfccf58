-- ===== src/PinyinIme/Resetting.antt =====
-- Going back to the idle state, and switching the input mode.
use scim_googlepinyin.Prelude.{
  ℕ, zero, suc, ◌-◌, ◌≤◌, ◌≡◌, ◌≢◌, refl, true, false, not, [], ◌∷◌, some, arith, inl, inr,
  Bool-cases, ◌==◌, if◌then◌else◌, ◌∙◌,
}
use scim_googlepinyin.Prelude.Int.{pos}
use scim_googlepinyin.ImeState.{ImeState, idle}
use scim_googlepinyin.DecodingInfo.{DecodingInfo, get_current_page_size}
use scim_googlepinyin.DecodingInfo.Edit
use scim_googlepinyin.DecodingInfo.Page.{calculate_page, append_pages, fill_page}
use scim_googlepinyin.PinyinIme.{Ime, show_pinyin}
use scim_googlepinyin.PinyinIme
use scim_googlepinyin.PinyinIme.Candidates
use scim_googlepinyin.PinyinIme.Composing
use scim_googlepinyin.PinyinIme.Window
use scim_googlepinyin.PinyinIme.Window.{
  reset_to_idle_state, reset_candidate_window, trigger_input_mode, is_idle,
}

-- With no candidate the first page is empty.
fill_page_none : (rounds page_size : ℕ) → fill_page rounds 0 page_size 0 0 ≡ 0
unfolding fill_page
fill_page_none zero page_size = refl
fill_page_none (suc rounds) page_size = refl

-- What a reset makes of `old`: nothing is typed, decoded, composed, displayed, fixed or offered. The
-- spelling starts, the place marked for deletion and the engine are not reset.
pub record IsCleared {S : Type 0} (old d : DecodingInfo S) : Type 0 where
  pub no_decoded : d.surface_decoded_len ≡ 0
  pub no_active : d.active_cmps_len ≡ pos 0
  pub no_display : d.composing_str_display ≡ []
  pub no_active_display : d.active_cmps_display_len ≡ 0
  pub no_sentence : d.full_sent ≡ []
  pub not_finished : d.finish_selection ≡ false
  pub cn_pages : d.cn_to_page ≡ 0 ∷ []
  pub same_starts : d.spl_start ≡ old.spl_start
  pub same_mark : d.pos_del_spl ≡ old.pos_del_spl
  pub same_mark_kind : d.is_pos_in_spl ≡ old.is_pos_in_spl
  pub same_engine : d.decoder_service ≡ old.decoder_service
  pub no_surface : d.surface ≡ []
  pub at_start : d.cursor_pos ≡ 0
  pub no_composing : d.composing_str ≡ []
  pub no_fixed : d.fixed_len ≡ 0
  pub no_candidates : d.candidates_list ≡ []
  pub no_choices : d.total_choices_num ≡ 0
  pub one_page : d.page_start ≡ 0 ∷ 0 ∷ []

module _ {S : Type 0} (s : Ime S) where
  -- The windows that `reset_candidate_window` leaves: an empty first page, hidden.
  abbrev after_window : Ime S
  after_window = record s {
    dec_info = record (Edit.reset_candidates s.dec_info) { page_start = 0 ∷ 0 ∷ [] };
    cand_view = record (s.cand_view) {
      page_no = pos 0;
      cand_in_page = 0;
      active_highlight = not (Window.is_composing s.ime_state);
    };
    ui =
        PinyinIme.hide_lookup_table ∷ PinyinIme.refresh_lookup_table ∷ PinyinIme.show_lookup_table
        ∷ PinyinIme.refresh_lookup_table ∷ PinyinIme.lookup_clear ∷ PinyinIme.hide_preedit_string
        ∷ PinyinIme.show_lookup_table ∷ PinyinIme.refresh_lookup_table ∷ s.ui;
  }

  reset_candidate_window_lem : reset_candidate_window s ≡ some after_window
  unfolding reset_candidate_window Window.show_candidate_window Window.update_composing_text
      Candidates.set_visibility Candidates.show_candidates Candidates.show_page calculate_page
      append_pages Edit.reset_candidates get_current_page_size Composing.set_visibility
      Candidates.clamp_candidate
  reset_candidate_window_lem = rw (fill_page_none s.cand_view.page_size s.cand_view.page_size)

-- From any state but idle the reset does not fault. The state is idle, and all that was typed, decoded,
-- composed, displayed, fixed or offered is cleared; the spelling starts, the place marked for deletion
-- and the engine stay. The composing view shows pinyin, while the mode, the keys and the widths stay. A
-- second reset changes nothing more.
pub reset_to_idle_state-IsCleared :
    {S : Type 0} (s : Ime S)
    → is_idle s.ime_state ≡ false
    → (t : Ime S) × (reset_to_idle_state s ≡ some t)
      × (reset_to_idle_state t ≡ some t)
      × (t.ime_state ≡ idle)
      × IsCleared s.dec_info t.dec_info
      × (t.cmps_status ≡ show_pinyin)
      × (t.input_mode ≡ s.input_mode)
      × (t.func_keys ≡ s.func_keys)
      × (t.half2full ≡ s.half2full)
unfolding reset_to_idle_state Composing.reset Edit.reset Edit.reset_candidates
reset_to_idle_state-IsCleared s h =
    let u = Composing.reset (record s { ime_state = idle; dec_info = Edit.reset s.dec_info }) in
    (
      after_window u,
      rw h (reset_candidate_window_lem u),
      refl,
      refl,
      record {
        no_decoded = refl;
        no_active = refl;
        no_display = refl;
        no_active_display = refl;
        no_sentence = refl;
        not_finished = refl;
        cn_pages = refl;
        same_starts = refl;
        same_mark = refl;
        same_mark_kind = refl;
        same_engine = refl;
        no_surface = refl;
        at_start = refl;
        no_composing = refl;
        no_fixed = refl;
        no_candidates = refl;
        no_choices = refl;
        one_page = refl;
      },
      refl,
      refl,
      refl,
      refl,
    )

is_idle→idle : (st : ImeState) → is_idle st ≡ true → st ≡ idle
is_idle→idle st h = ground arith

pub idle_after_reset :
    {S : Type 0} (s : Ime S)
    → (t : Ime S) × (reset_to_idle_state s ≡ some t)
      × (t.ime_state ≡ idle)
      × (t.input_mode ≡ s.input_mode)
      × (t.func_keys ≡ s.func_keys)
      × (t.half2full ≡ s.half2full)
unfolding reset_to_idle_state
idle_after_reset s = elim (Bool-cases (is_idle s.ime_state)) [
  | inl i ↦ (s, rw i, is_idle→idle s.ime_state i, refl, refl, refl)
  | inr n ↦
      let (t, run, again, state, cleared, status, mode, keys, half) =
        reset_to_idle_state-IsCleared s n in
      (t, run, state, mode, keys, half)
]

-- The state with the mode switched, as the interface is told of it.
abbrev pub switched : {S : Type 0} → Ime S → Ime S
switched s =
    let t = record s { input_mode = if s.input_mode == 0 then 1 else 0 } in
    PinyinIme.call (PinyinIme.refresh_status_property (t.input_mode == PinyinIme.input_chinese)) t

-- The mode after one switch, and what two switches restore.
pub trigger_input_mode-both :
    {S : Type 0} (s : Ime S)
    → s.input_mode ≤ 1
    → (t u : Ime S) × (trigger_input_mode s ≡ some t)
      × (trigger_input_mode t ≡ some u)
      × (t.ime_state ≡ idle)
      × (t.input_mode ≡ 1 - s.input_mode)
      × (t.half2full ≡ s.half2full)
      × (u.input_mode ≡ s.input_mode)
      × (u.half2full ≡ s.half2full)
unfolding trigger_input_mode
trigger_input_mode-both s h =
    let (t, run, state, mode, keys, half) = idle_after_reset (switched s) in
    let (u, run', state', mode', keys', half') = idle_after_reset (switched t) in
    (t, u, run, run', state, ground arith, half, ground arith, half' ∙ half)

-- Switching the mode never faults and leads to the idle state; two switches restore a mode that is
-- 0 or 1, and one does not. The width modes stay.
pub trigger_input_mode-twice :
    {S : Type 0} (s : Ime S)
    → s.input_mode ≤ 1
    → (t u : Ime S) × (trigger_input_mode s ≡ some t)
      × (trigger_input_mode t ≡ some u)
      × (t.ime_state ≡ idle)
      × (t.input_mode ≢ s.input_mode)
      × (u.input_mode ≡ s.input_mode)
      × (u.half2full ≡ s.half2full)
trigger_input_mode-twice s h =
    let (t, u, run, run', state, flipped, half_t, mode, half) = trigger_input_mode-both s h in
    (t, u, run, run', state, ground arith, mode, half)
