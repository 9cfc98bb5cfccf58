-- ===== src/DecodingInfo.antt =====
-- src/decoding_info.cpp and src/decoding_info.h: what the input method knows of the pinyin being
-- typed. This file has the record, the constructor and the queries; the operations are in the children.
pub mod Edit
pub mod Cursor
pub mod Page
pub mod Search
pub mod Moves
pub mod Typing
pub mod Paging
pub mod Fetching
pub mod Decoding
pub mod Safety
pub mod Edits
use scim_googlepinyin.Prelude.{
  ℕ, zero, suc, ◌+◌, ◌-◌, ◌^◌, Bool, true, false, List, [], ◌∷◌, ◌++◌, Option, none, some, ltb, leb,
  ◌==◌, if◌then◌else◌, length, get_elem?, take, drop,
}
use scim_googlepinyin.Prelude.Errors.{◌>>=◌, ◌>>◌, assert}
use scim_googlepinyin.Prelude.Int.{ℤ, pos, negsuc}
use scim_googlepinyin.DecoderService.{PinyinDecoderService}

abbrev pub py_string_max : ℕ
py_string_max = 28

abbrev pub max_page_size_display : ℕ
max_page_size_display = 10

-- The values of `size_t`.
abbrev pub size_mod : ℕ
size_mod = 2 ^ 64

-- `m_total_choices_num`, `m_fixed_len` and the two display lengths never hold a negative value.
pub record DecodingInfo (S : Type 0) : Type 0 where
  pub surface : List ℕ
  pub surface_decoded_len : ℕ
  pub composing_str : List ℕ
  pub active_cmps_len : ℤ
  pub composing_str_display : List ℕ
  pub active_cmps_display_len : ℕ
  pub full_sent : List ℕ
  pub fixed_len : ℕ
  pub finish_selection : Bool
  pub spl_start : List ℕ
  pub decoder_service : PinyinDecoderService S
  pub cursor_pos : ℕ
  pub total_choices_num : ℕ
  pub candidates_list : List (List ℕ)
  pub page_start : List ℕ
  pub cn_to_page : List ℕ
  pub pos_del_spl : ℤ
  pub is_pos_in_spl : Bool

-- `std::string::substr`, which throws if the start lies beyond the end.
abbrev pub substr {ℓ} : {A : Type ℓ} → List A → ℕ → ℕ → Option (List A)
substr xs start count = if leb start (length xs) then some (take count (drop start xs)) else none

-- The same with no count.
abbrev pub substr_from {ℓ} : {A : Type ℓ} → List A → ℕ → Option (List A)
substr_from xs start = if leb start (length xs) then some (drop start xs) else none

-- `b - a` of two `int`s that are not negative, as the `size_t` that a count is.
abbrev pub size_sub : ℕ → ℕ → ℕ
size_sub b a = if ltb b a then size_mod - (a - b) else b - a

module _ {S : Type 0} where
  -- The constructor leaves some fields unset: they are arguments here.
  unfoldable pub new_decoding_info :
      PinyinDecoderService S → ℤ → ℕ → Bool → ℕ → Bool → DecodingInfo S
  new_decoding_info service active display finished total in_spl = record {
    surface = [];
    surface_decoded_len = 0;
    composing_str = [];
    active_cmps_len = active;
    composing_str_display = [];
    active_cmps_display_len = display;
    full_sent = [];
    fixed_len = 0;
    finish_selection = finished;
    spl_start = [];
    decoder_service = service;
    cursor_pos = 0;
    total_choices_num = total;
    candidates_list = [];
    page_start = [];
    cn_to_page = [];
    pos_del_spl = negsuc 0;
    is_pos_in_spl = in_spl;
  }

abbrev is_separator : Option ℕ → Bool
is_separator none = false
is_separator (some ch) = ch == b'\''

module _ {S : Type 0} (d : DecodingInfo S) where
  open d use {surface, composing_str, active_cmps_len, full_sent, fixed_len, cursor_pos}
  open d use {candidates_list, total_choices_num, page_start, finish_selection}

  unfoldable pub is_spl_str_full : Bool
  is_spl_str_full = leb (py_string_max - 1) (length surface)

  -- The assertion compares with a `size_t`, so a negative length fails it.
  unfoldable pub get_composing_str_active_part : Option (List ℕ)
  get_composing_str_active_part = elim active_cmps_len [
    | negsuc n ↦ none
    | pos n ↦ do assert (leb n (length composing_str)); substr composing_str 0 n
  ]

  unfoldable pub get_current_full_sent : ℕ → Option (List ℕ)
  get_current_full_sent active_cand_pos = do
    str ← substr full_sent 0 fixed_len
    cand ← get_elem? candidates_list active_cand_pos
    some (str ++ cand)

  unfoldable pub can_do_prediction : Bool
  can_do_prediction = length composing_str == fixed_len

  unfoldable pub selection_finished : Bool
  selection_finished = finish_selection

  -- A number out of range gives the empty string.
  unfoldable pub get_candidate : ℤ → List ℕ
  get_candidate (negsuc n) = []
  get_candidate (pos n) = elim (get_elem? candidates_list n) [ none ↦ [] | some str ↦ str ]

  unfoldable pub get_candidates_number : ℕ
  get_candidates_number = total_choices_num

  unfoldable pub is_candidates_list_empty : Bool
  is_candidates_list_empty = length candidates_list == 0

  unfoldable pub char_before_cursor_is_separator : Bool
  char_before_cursor_is_separator =
      if ltb (length surface) cursor_pos
      then false
      else if ltb 0 cursor_pos
      then is_separator (get_elem? surface (cursor_pos - 1))
      else false

  -- The page table. Page numbers are `int`s; `current_page + 1` is compared as a `size_t`.
  unfoldable pub get_current_page_size : ℤ → Option ℕ
  get_current_page_size (pos p) =
      if leb (length page_start) (p + 1)
      then some 0
      else do hi ← get_elem? page_start (p + 1); lo ← get_elem? page_start p; some (size_sub hi lo)
  get_current_page_size (negsuc zero) = if leb (length page_start) 0 then some 0 else none
  get_current_page_size (negsuc (suc n)) = some 0

  unfoldable pub get_current_page_start : ℤ → Option ℕ
  get_current_page_start (pos p) =
      if ltb (length page_start) (p + 1) then some total_choices_num else get_elem? page_start p
  get_current_page_start (negsuc zero) = none
  get_current_page_start (negsuc (suc n)) = some total_choices_num

  unfoldable pub page_ready : ℤ → Bool
  page_ready (negsuc n) = false
  page_ready (pos p) = if leb (length page_start) (p + 1) then false else true

  unfoldable pub page_forwardable : ℕ → Option Bool
  page_forwardable p = if leb (length page_start) (p + 1) then some false else do
    next ← get_elem? page_start (p + 1)
    some (if leb total_choices_num next then false else true)

  unfoldable pub page_backwardable : ℕ → Bool
  page_backwardable current_page = ltb 0 current_page
