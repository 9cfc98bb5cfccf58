-- ===== src/PinyinIme/Sound.antt =====
-- The windows: with the bounds of `DecodingInfo` no drawing and no paging faults.
use scim_googlepinyin.Prelude.{
  ℕ, ◌+◌, ◌≤◌, ◌<◌, ◌≡◌, refl, Bool, true, false, Option, some, arith, length, some_of_ne_none,
  get_elem?-lt,
}
use scim_googlepinyin.Prelude.Errors.{◌>>=◌}
use scim_googlepinyin.Prelude.Int.{ℤ, pos, pos_part, neg_part}
use scim_googlepinyin.ImeState.{ImeState, idle, input, composing, predict, bypass, app_completion}
use scim_googlepinyin.DecodingInfo.{get_current_page_size}
use scim_googlepinyin.DecodingInfo
use scim_googlepinyin.DecodingInfo.Cursor
use scim_googlepinyin.DecodingInfo.Safety.{IsSafe}
use scim_googlepinyin.DecodingInfo.Edits.{
  calculate_page-runs, move_cursor-IsSafe, move_cursor_to_edge-IsSafe,
  get_cursor_pos_in_cmps_display-ne_none,
}
use scim_googlepinyin.PinyinIme.{
  Ime, ComposingStatus, show_pinyin, edit_pinyin, show_string_lowercase,
}
use scim_googlepinyin.PinyinIme.Candidates
use scim_googlepinyin.PinyinIme.Candidates.{show_page}
use scim_googlepinyin.PinyinIme.Composing
use scim_googlepinyin.PinyinIme.Drawing.{draw_composing-all}
use scim_googlepinyin.PinyinIme.Window
use scim_googlepinyin.PinyinIme.Window.{is_idle}

-- The page shown is in the table.
abbrev pub IsShown : {S : Type 0} → Ime S → Type 0
IsShown s =
    (page_no : ℕ) × (s.cand_view.page_no ≡ pos page_no)
    × (page_no + 1 < length s.dec_info.page_start)

-- A call that does not fault and keeps the bounds; the state, the page shown and the page table stay.
abbrev pub Draws : {S : Type 0} → Ime S → Option (Ime S) → Type 0
Draws {S = S} s r =
    (t : Ime S) × (r ≡ some t)
    × IsSafe t.dec_info
    × (t.ime_state ≡ s.ime_state)
    × (t.cand_view ≡ s.cand_view)
    × (t.dec_info.page_start ≡ s.dec_info.page_start)

module _ {S : Type 0} (s : Ime S) where
  draw_for_pinyin-Draws : IsSafe s.dec_info → Draws s (Composing.draw_for_pinyin s)
  unfolding Composing.draw_for_pinyin
  draw_for_pinyin-Draws safe =
      let (at, e) =
        some_of_ne_none (Cursor.get_cursor_pos_in_cmps_display s.dec_info)
          (get_cursor_pos_in_cmps_display-ne_none s.dec_info safe) in
      let (w, run, aux) =
        draw_composing-all s.cmps_status s.dec_info.composing_str_display
          s.dec_info.active_cmps_display_len (Composing.to_size at) at safe.active_in in
      (Composing.refresh_preedit w s, rw (e, run) refl, safe, refl, refl, refl)

  redraw_status-Draws :
      (status : ComposingStatus) → IsSafe s.dec_info → Draws s (Composing.redraw_status status s)
  unfolding Composing.redraw_status Composing.draw_for_english
  redraw_status-Draws show_pinyin safe = draw_for_pinyin-Draws safe
  redraw_status-Draws edit_pinyin safe = draw_for_pinyin-Draws safe
  redraw_status-Draws show_string_lowercase safe = (_, refl, safe, refl, refl, refl)

  redraw-Draws : IsSafe s.dec_info → Draws s (Composing.redraw s)
  unfolding Composing.redraw
  redraw-Draws safe = redraw_status-Draws s.cmps_status safe

module _ {S : Type 0} (s : Ime S) where
  pub move_cursor_to_edge-Draws :
      (left : Bool) → IsSafe s.dec_info → Draws s (Composing.move_cursor_to_edge left s)
  unfolding Composing.move_cursor_to_edge Cursor.move_cursor_to_edge
  move_cursor_to_edge-Draws left safe =
      redraw-Draws (record s { dec_info = Cursor.move_cursor_to_edge s.dec_info left })
        (move_cursor_to_edge-IsSafe s.dec_info left safe)

  edit_status-Draws : IsSafe s.dec_info → Draws s (Composing.edit_status s >>= Composing.redraw)
  unfolding Composing.edit_status
  edit_status-Draws safe =
      let (cursor, e, safe') =
        move_cursor-IsSafe s.dec_info (pos 0) (omega arith) (omega arith) safe in
      rw e (
        redraw-Draws
          (record s {
            dec_info = record (s.dec_info) { cursor_pos = cursor };
            cmps_status = edit_pinyin;
          })
          safe')

  set_decoding_info-Draws :
      (st : ImeState) → IsSafe s.dec_info → Draws s (Composing.set_decoding_info st s)
  unfolding Composing.set_decoding_info Composing.enter_status Cursor.move_cursor_to_edge
  set_decoding_info-Draws input safe =
      redraw-Draws
        (record s {
          cmps_status = show_pinyin;
          dec_info = Cursor.move_cursor_to_edge s.dec_info false;
        })
        (move_cursor_to_edge-IsSafe s.dec_info false safe)
  set_decoding_info-Draws bypass safe = edit_status-Draws safe
  set_decoding_info-Draws idle safe = edit_status-Draws safe
  set_decoding_info-Draws composing safe = edit_status-Draws safe
  set_decoding_info-Draws predict safe = edit_status-Draws safe
  set_decoding_info-Draws app_completion safe = edit_status-Draws safe

  move_cursor_status-Draws :
      (status : ComposingStatus) (offset : ℤ)
      → pos_part offset ≤ 1
      → neg_part offset ≤ 1
      → IsSafe s.dec_info
      → Draws s (Composing.move_cursor_status status offset s >>= Composing.redraw)
  unfolding Composing.move_cursor_status
  move_cursor_status-Draws show_pinyin offset up down safe = redraw-Draws s safe
  move_cursor_status-Draws show_string_lowercase offset up down safe =
      redraw-Draws (record s { cmps_status = edit_pinyin }) safe
  move_cursor_status-Draws edit_pinyin offset up down safe =
      let (cursor, e, safe') = move_cursor-IsSafe s.dec_info offset up down safe in
      rw e
        (redraw-Draws (record s { dec_info = record (s.dec_info) { cursor_pos = cursor } }) safe')

  pub move_cursor-Draws :
      (offset : ℤ)
      → pos_part offset ≤ 1
      → neg_part offset ≤ 1
      → IsSafe s.dec_info
      → Draws s (Composing.move_cursor offset s)
  unfolding Composing.move_cursor
  move_cursor-Draws offset up down safe = move_cursor_status-Draws s.cmps_status offset up down safe

  pub update_composing_text-Draws :
      (show : Bool) → IsSafe s.dec_info → Draws s (Window.update_composing_text show s)
  unfolding Window.update_composing_text Composing.set_visibility
  update_composing_text-Draws false safe = (_, refl, safe, refl, refl, refl)
  update_composing_text-Draws true safe =
      let (t, run, safe', state, shown, table) = set_decoding_info-Draws s.ime_state safe in
      (Composing.set_visibility true t, rw run refl, safe', state, shown, table)

  -- A page shown is in the table.
  pub show_page-IsShown :
      (page_no cand : ℕ) (highlight : Bool)
      → IsSafe s.dec_info
      → (t : Ime S) × (show_page s (pos page_no) cand highlight ≡ some t)
        × IsSafe t.dec_info
        × (t.ime_state ≡ s.ime_state)
        × IsShown t
  unfolding show_page get_current_page_size
  show_page-IsShown page_no cand highlight safe =
      let (table, run, known) =
        calculate_page-runs s.dec_info page_no s.cand_view.page_size safe.some_page in
      let (hi, e) = get_elem?-lt table (page_no + 1) known in
      let (lo, f) = get_elem?-lt table page_no (omega arith) in
      (
        record s {
          dec_info = record (s.dec_info) { page_start = table };
          cand_view = record (s.cand_view) {
            page_no = pos page_no;
            cand_in_page = Candidates.clamp_candidate (DecodingInfo.size_sub hi lo) cand;
            active_highlight = highlight;
          };
        },
        ground (arith, run, e, f),
        record {
          cursor_in = safe.cursor_in;
          covers = safe.covers;
          active_in = safe.active_in;
          some_page = omega arith;
        },
        refl,
        (page_no, refl, known),
      )
