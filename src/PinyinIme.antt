-- ===== src/PinyinIme.antt =====
-- src/pinyin_ime.cpp with its views, src/candidate_view.cpp and src/composing_view.cpp. This file has
-- their state and the calls that they make to the user interface (src/google_imengine.cpp).
pub mod Candidates
pub mod Composing
pub mod Window
pub mod Choice
pub mod Keys
pub mod States
pub mod Reach
pub mod Drawing
pub mod Resetting
pub mod PassThrough
pub mod Turning
pub mod Sound
pub mod Shows
pub mod Pages
pub mod Steps
pub mod Faultless
use scim_googlepinyin.Prelude.{ℕ, ◌+◌, ◌-◌, ◌%◌, ◌^◌, Bool, true, List, [], ◌∷◌, if◌then◌else◌, ltb}
use scim_googlepinyin.Prelude.Int.{ℤ, negsuc}
use scim_googlepinyin.ImeState.{ImeState, idle}
use scim_googlepinyin.DecodingInfo.{DecodingInfo, size_mod}
use scim_googlepinyin.FunctionKeys.{FunctionKeys}
use scim_googlepinyin.HalfToFull.{HalfToFullConverter, new_converter}

pub data Decoration : Type 0 where
  undecorated no_decoration highlight : Decoration

pub record Attribute : Type 0 where
  pub start : ℕ
  pub len : ℕ
  pub decoration : Decoration

-- The calls to `GooglePyInstance`.
pub data UiCall : Type 0 where
  commit_string : List ℕ → UiCall
  refresh_preedit_string : List ℕ → List Attribute → UiCall
  refresh_preedit_caret : ℤ → UiCall
  show_preedit_string hide_preedit_string : UiCall
  refresh_lookup_table show_lookup_table hide_lookup_table : UiCall
  lookup_clear lookup_cursor_left lookup_cursor_right lookup_page_up lookup_page_down : UiCall
  refresh_status_property refresh_letter_property refresh_punct_property : Bool → UiCall
  hide_aux_string register_properties lookup_show_cursor : UiCall
  set_lookup_page_size : ℕ → UiCall

pub data ComposingStatus : Type 0 where
  show_pinyin show_string_lowercase edit_pinyin : ComposingStatus

-- `m_cand_in_page` is a `size_t`; the page number starts as -1.
pub record CandidateView : Type 0 where
  pub page_no : ℤ
  pub cand_in_page : ℕ
  pub page_size : ℕ
  pub active_highlight : Bool

-- The members of `PinyinIME` with those of its views. `DecodingInfo` refers to `ime_state`, and the
-- views to the one `dec_info`. `ui` lists the calls made, the latest first.
pub record Ime (S : Type 0) : Type 0 where
  pub ime_state : ImeState
  pub dec_info : DecodingInfo S
  pub cand_view : CandidateView
  pub cmps_status : ComposingStatus
  pub func_keys : FunctionKeys
  pub half2full : HalfToFullConverter
  pub input_mode : ℕ
  pub candidate_index : ℕ
  pub ui : List UiCall

abbrev pub input_chinese : ℕ
input_chinese = 0

module _ {S : Type 0} where
  -- The constructor of `PinyinIME` and those of the views.
  unfoldable pub new_ime : DecodingInfo S → FunctionKeys → Ime S
  unfolding new_converter
  new_ime dec_info func_keys = record {
    ime_state = idle;
    dec_info = dec_info;
    cand_view = record {
      page_no = negsuc 0;
      cand_in_page = 0;
      page_size = 9;
      active_highlight = true;
    };
    cmps_status = show_pinyin;
    func_keys = func_keys;
    half2full = new_converter;
    input_mode = input_chinese;
    candidate_index = 0;
    ui = [];
  }

  abbrev pub call : UiCall → Ime S → Ime S
  call c s = record s { ui = c ∷ s.ui }
