-- ===== src/PinyinIme/Candidates.antt =====
-- src/candidate_view.cpp: paging through the candidates and the active one.
use scim_googlepinyin.Prelude.{
  ℕ, ◌+◌, ◌-◌, ◌%◌, ◌^◌, Bool, true, false, Option, some, ltb, if◌then◌else◌,
}
use scim_googlepinyin.Prelude.Errors.{◌>>=◌}
use scim_googlepinyin.Prelude.Int.{ℤ, pos, negsuc, ◌+ℤ◌}
use scim_googlepinyin.DecoderService.{MatrixSearch}
use scim_googlepinyin.DecodingInfo.{
  size_mod, page_ready, get_current_page_size, get_current_page_start, is_candidates_list_empty,
}
use scim_googlepinyin.DecodingInfo.Page.{calculate_page, prepare_page}
use scim_googlepinyin.PinyinIme.{Ime, call}
use scim_googlepinyin.PinyinIme

-- A `size_t` passed as an `int` and stored in a `size_t` again: the low 32 bits, sign-extended.
unfoldable pub through_int : ℕ → ℕ
through_int n = if ltb (n % 2 ^ 32) (2 ^ 31) then n % 2 ^ 32 else n % 2 ^ 32 + (size_mod - 2 ^ 32)

-- `get_current_page_size(m_page_no) - 1` if the candidate lies beyond that size.
unfoldable pub clamp_candidate : ℕ → ℕ → ℕ
clamp_candidate size cand = if ltb size cand then (size + size_mod - 1) % size_mod else cand

abbrev is_zero : ℤ → Bool
is_zero (pos n) = ltb n 1
is_zero (negsuc n) = false

module _ {S : Type 0} (s : Ime S) where
  open s use {cand_view, dec_info}

  unfoldable pub show_page : ℤ → ℕ → Bool → Option (Ime S)
  show_page page_no cand_in_page highlight = do
    dec_info' ← calculate_page dec_info page_no cand_view.page_size
    size ← get_current_page_size dec_info' page_no
    some (record s {
      dec_info = dec_info';
      cand_view = record cand_view {
        page_no = page_no;
        cand_in_page = clamp_candidate size cand_in_page;
        active_highlight = highlight;
      };
    })

  unfoldable pub set_visibility : Bool → Ime S
  set_visibility true = call PinyinIme.show_lookup_table (call PinyinIme.refresh_lookup_table s)
  set_visibility false = call PinyinIme.hide_lookup_table (call PinyinIme.refresh_lookup_table s)

  unfoldable pub enable_active_highlight : Bool → Ime S
  enable_active_highlight enable = record s {
    cand_view = record cand_view { active_highlight = enable };
  }

  unfoldable pub set_page_size : ℕ → Ime S
  set_page_size page_size = record s { cand_view = record cand_view { page_size = page_size } }

  unfoldable pub get_active_candidate_pos : Option ℕ
  get_active_candidate_pos = do
    start ← get_current_page_start dec_info cand_view.page_no
    some (start + cand_view.cand_in_page)

module _ {S : Type 0} where
  -- The second alternative of `a() || b()`, run if the first returns false.
  unfoldable pub or_else : (Ime S → Option (Ime S × Bool)) → Ime S × Bool → Option (Ime S × Bool)
  or_else b (s, true) = some (s, true)
  or_else b (s, false) = b s

  unfoldable pub cursor_back : Ime S → Option (Ime S × Bool)
  cursor_back s =
      if ltb 0 s.cand_view.cand_in_page
      then (do
        t ← show_page s s.cand_view.page_no (through_int (s.cand_view.cand_in_page - 1)) true
        some (set_visibility (call PinyinIme.lookup_cursor_left t) true, true))
      else some (s, false)

  unfoldable pub step_forward : Ime S → ℕ → Option (Ime S × Bool)
  step_forward s size =
      if ltb ((s.cand_view.cand_in_page + 1) % size_mod) size
      then (do
        t ← show_page s s.cand_view.page_no (through_int (s.cand_view.cand_in_page + 1)) true
        some (set_visibility (call PinyinIme.lookup_cursor_right t) true, true))
      else some (s, false)

  unfoldable pub cursor_forward : Ime S → Option (Ime S × Bool)
  cursor_forward s =
      if page_ready s.dec_info s.cand_view.page_no
      then (do size ← get_current_page_size s.dec_info s.cand_view.page_no; step_forward s size)
      else some (s, false)

  unfoldable pub turn_back : Ime S → Option (Ime S × Bool)
  turn_back s = do
    t ←
        show_page s (s.cand_view.page_no +ℤ negsuc 0) (through_int s.cand_view.cand_in_page)
          s.cand_view.active_highlight
    some (call PinyinIme.lookup_page_up t, true)

  unfoldable pub page_up : Ime S → Option (Ime S × Bool)
  page_up s = if is_zero s.cand_view.page_no then some (s, false) else turn_back s

  unfoldable pub cursor_left : Ime S → Option (Ime S × Bool)
  cursor_left s = cursor_back s >>= or_else page_up

  -- `enable_active_highlight` stands for the argument that the source passes.
  unfoldable pub show_candidates : Ime S → Bool → Option (Ime S)
  show_candidates s enable = do
    t ← show_page (call PinyinIme.lookup_clear s) (pos 0) 0 enable
    some (set_visibility t true)

  unfoldable pub redraw : Ime S → Option (Ime S)
  redraw s = if is_candidates_list_empty s.dec_info then some s else do
    t ← show_page s s.cand_view.page_no (through_int s.cand_view.cand_in_page) true
    some (set_visibility t true)

module _ {S : Type 0} (m : MatrixSearch S) where
  unfoldable pub turn_forward : Ime S × Bool → Option (Ime S × Bool)
  turn_forward (s, false) = some (s, false)
  turn_forward (s, true) = do
    t ←
        show_page s (s.cand_view.page_no +ℤ pos 1) (through_int s.cand_view.cand_in_page)
          s.cand_view.active_highlight
    some (call PinyinIme.lookup_page_down t, true)

  unfoldable pub page_down : Ime S → Option (Ime S × Bool)
  page_down s = do
    prepared ← prepare_page m s.dec_info s.ime_state (s.cand_view.page_no +ℤ pos 1)
    turn_forward (record s { dec_info = prepared.0 }, prepared.1)

  unfoldable pub cursor_right : Ime S → Option (Ime S × Bool)
  cursor_right s = cursor_forward s >>= or_else page_down
