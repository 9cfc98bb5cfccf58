-- ===== src/PinyinIme/Composing.antt =====
-- src/composing_view.cpp: the preedit string with its caret.
use scim_googlepinyin.Prelude.{
  ℕ, ◌+◌, ◌-◌, Bool, true, false, List, [], ◌∷◌, ◌++◌, Option, some, ltb, if◌then◌else◌, length,
}
use scim_googlepinyin.Prelude.Errors.{◌>>=◌}
use scim_googlepinyin.Prelude.Int.{ℤ, pos, negsuc}
use scim_googlepinyin.ImeState.{ImeState, bypass, idle, input, composing, predict, app_completion}
use scim_googlepinyin.DecodingInfo.{size_mod, substr, substr_from, size_sub}
use scim_googlepinyin.DecodingInfo.Cursor.{get_cursor_pos_in_cmps_display}
use scim_googlepinyin.DecodingInfo.Cursor
use scim_googlepinyin.PinyinIme.{
  Ime, call, Attribute, undecorated, no_decoration, highlight, ComposingStatus, show_pinyin,
  show_string_lowercase, edit_pinyin,
}
use scim_googlepinyin.PinyinIme

-- An `int` stored in a `size_t`.
abbrev pub to_size : ℤ → ℕ
to_size (pos n) = n
to_size (negsuc n) = size_mod - (n + 1)

-- What `draw_for_pinyin` builds: the text, its attributes and the caret.
pub record Drawing : Type 0 where
  pub aux : List ℕ
  pub attrs : List Attribute
  pub caret_pos : ℤ

abbrev attribute : List ℕ → List ℕ → PinyinIme.Decoration → Attribute
attribute aux item decoration = record {
  start = length aux;
  len = length item;
  decoration = decoration;
}

-- Appends an item with its attribute.
append_item : Drawing → List ℕ → PinyinIme.Decoration → Drawing
append_item w item decoration = record w {
  aux = w.aux ++ item;
  attrs = w.attrs ++ attribute w.aux item decoration ∷ [];
}

-- The caret follows the text if the pinyin is being edited.
place_caret : ComposingStatus → Drawing → Drawing
place_caret edit_pinyin w = record w { caret_pos = pos (length w.aux) }
place_caret show_pinyin w = w
place_caret show_string_lowercase w = w

module _ (status : ComposingStatus) (cmps_str : List ℕ) (active : ℕ) where
  -- From the cursor to the end of the active part, if the cursor lies in it.
  draw_active : ℕ → ℕ → Drawing → Option Drawing
  unfolding append_item place_caret
  draw_active cursor cmps_pos w = if ltb active cursor then some w else do
    item ← substr cmps_str cmps_pos (size_sub active cmps_pos)
    some (append_item (place_caret status w) item highlight)

  -- Behind the active part, up to the cursor.
  draw_to_cursor : ℕ → Drawing → Option (Drawing × ℕ)
  unfolding append_item place_caret
  draw_to_cursor cursor w =
      if ltb active cursor
      then (let end = if ltb (length cmps_str) cursor then length cmps_str else cursor in
          do
            item ← substr cmps_str active (size_sub end active)
            some (place_caret status (append_item w item undecorated), end))
      else some (w, active)

  draw_inactive : ℕ → Drawing → Option Drawing
  unfolding draw_to_cursor
  draw_inactive cursor w =
      if ltb active (length cmps_str)
      then (do
        drawn ← draw_to_cursor cursor w
        item ← substr_from cmps_str drawn.1
        some (append_item drawn.0 item no_decoration))
      else some w

  -- `cursor` is the position as a `size_t`, `caret` the same as an `int`.
  unfoldable pub draw_composing : ℕ → ℤ → Option Drawing
  unfolding draw_active draw_inactive
  draw_composing cursor caret = do
    let cmps_pos = if ltb active cursor then active else cursor
    item ← substr cmps_str 0 cmps_pos
    let w = append_item (record { aux = []; attrs = []; caret_pos = caret }) item no_decoration
    w' ← draw_active cursor cmps_pos w
    draw_inactive cursor w'

module _ {S : Type 0} where
  abbrev pub refresh_preedit : Drawing → Ime S → Ime S
  refresh_preedit w s =
      call (PinyinIme.refresh_preedit_caret w.caret_pos)
        (call (PinyinIme.refresh_preedit_string w.aux w.attrs) s)

  unfoldable pub draw_for_pinyin : Ime S → Option (Ime S)
  draw_for_pinyin s = do
    cursor_pos ← get_cursor_pos_in_cmps_display s.dec_info
    w ←
        draw_composing s.cmps_status s.dec_info.composing_str_display
          s.dec_info.active_cmps_display_len (to_size cursor_pos) cursor_pos
    some (refresh_preedit w s)

  unfoldable pub draw_for_english : Ime S → Ime S
  draw_for_english s =
      call
        (PinyinIme.refresh_preedit_string s.dec_info.surface
          (record { start = 0; len = length s.dec_info.surface; decoration = highlight } ∷ []))
        s

  unfoldable pub redraw_status : ComposingStatus → Ime S → Option (Ime S)
  redraw_status edit_pinyin s = draw_for_pinyin s
  redraw_status show_pinyin s = draw_for_pinyin s
  redraw_status show_string_lowercase s = some (draw_for_english s)

  -- `redraw` and `invalidate`.
  unfoldable pub redraw : Ime S → Option (Ime S)
  unfolding redraw_status
  redraw s = redraw_status s.cmps_status s

  unfoldable pub reset : Ime S → Ime S
  reset s = record s { cmps_status = show_pinyin }

  unfoldable pub set_visibility : Bool → Ime S → Ime S
  set_visibility true s = call PinyinIme.show_preedit_string s
  set_visibility false s = call PinyinIme.hide_preedit_string s

  unfoldable pub move_cursor_status : ComposingStatus → ℤ → Ime S → Option (Ime S)
  move_cursor_status edit_pinyin offset s = do
    dec_info ← Cursor.move_cursor s.dec_info offset
    some (record s { dec_info = dec_info })
  move_cursor_status show_string_lowercase offset s = some (record s { cmps_status = edit_pinyin })
  move_cursor_status show_pinyin offset s = some s

  unfoldable pub move_cursor : ℤ → Ime S → Option (Ime S)
  unfolding move_cursor_status
  move_cursor offset s = move_cursor_status s.cmps_status offset s >>= redraw

  unfoldable pub move_cursor_to_edge : Bool → Ime S → Option (Ime S)
  move_cursor_to_edge left s =
      redraw (record s { dec_info = Cursor.move_cursor_to_edge s.dec_info left })

  unfoldable pub edit_status : Ime S → Option (Ime S)
  edit_status s = do
    dec_info ← Cursor.move_cursor s.dec_info (pos 0)
    some (record s { dec_info = dec_info; cmps_status = edit_pinyin })

  unfoldable pub enter_status : ImeState → Ime S → Option (Ime S)
  unfolding edit_status
  enter_status input s = some (record s {
    cmps_status = show_pinyin;
    dec_info = Cursor.move_cursor_to_edge s.dec_info false;
  })
  enter_status bypass s = edit_status s
  enter_status idle s = edit_status s
  enter_status composing s = edit_status s
  enter_status predict s = edit_status s
  enter_status app_completion s = edit_status s

  unfoldable pub set_decoding_info : ImeState → Ime S → Option (Ime S)
  unfolding enter_status
  set_decoding_info ime_status s = enter_status ime_status s >>= redraw
