-- ===== src/Imengine.antt =====
-- src/google_imengine.cpp: `GooglePyInstance`, the object that SCIM calls, and the configuration that
-- `GooglePyFactory` reads.
pub mod Config
pub mod Focus
use Prim.Native.Nat.{bit_or}
use scim_googlepinyin.Prelude.{
  ℕ, ◌+◌, Bool, true, false, List, [], ◌∷◌, Option, some, ltb, ◌==◌, if◌then◌else◌,
}
use scim_googlepinyin.Prelude.Errors.{◌>>=◌}
use scim_googlepinyin.DecoderService.{MatrixSearch}
use scim_googlepinyin.Scim.{Scim, KeyEvent}
use scim_googlepinyin.FunctionKeys.{
  FunctionKeys, set_mode_switch_key, set_page_up_key, set_page_down_key,
}
use scim_googlepinyin.PinyinIme.{Ime, call, input_chinese}
use scim_googlepinyin.PinyinIme
use scim_googlepinyin.PinyinIme.Candidates
use scim_googlepinyin.PinyinIme.Window
use scim_googlepinyin.PinyinIme.Choice
use scim_googlepinyin.PinyinIme.Keys

-- What `m_config->read` answers for the four keys of the configuration.
pub record UserConfig : Type 0 where
  pub mode_switch_shift : Bool
  pub mode_switch_control : Bool
  pub page_minus_equal : Bool
  pub page_comma_period : Bool

abbrev pub plain : ℕ → KeyEvent
plain code = record { code = code; mask = 0 }

module _ (k : Scim) where
  abbrev pub lshift : KeyEvent
  lshift = record { code = k.key_shift_l; mask = bit_or k.shift_mask k.release_mask }

  abbrev pub lcontrol : KeyEvent
  lcontrol = record { code = k.key_control_l; mask = bit_or k.control_mask k.release_mask }

  -- The factory and its instances share the one `FunctionKeys`.
  unfoldable pub load_user_config : UserConfig → FunctionKeys → FunctionKeys
  load_user_config config f =
      let f1 = set_mode_switch_key k f lshift config.mode_switch_shift in
      let f2 = set_mode_switch_key k f1 lcontrol config.mode_switch_control in
      let f3 = set_page_up_key k f2 (plain k.key_minus) config.page_minus_equal in
      let f4 = set_page_down_key k f3 (plain k.key_minus) config.page_minus_equal in
      let f5 = set_page_up_key k f4 (plain k.key_comma) config.page_comma_period in
      set_page_down_key k f5 (plain k.key_period) config.page_comma_period

pub record GooglePyInstance (S : Type 0) : Type 0 where
  pub pinyin_ime : Ime S
  pub focused : Bool

-- The properties of the panel; any other string is `other`.
pub data Property : Type 0 where
  status letter punct other : Property

module _ {S : Type 0} where
  unfoldable pub new_instance : Ime S → GooglePyInstance S
  new_instance s = record {
    pinyin_ime = call PinyinIme.lookup_show_cursor (call (PinyinIme.set_lookup_page_size 9) s);
    focused = false;
  }

  unfoldable pub init_lookup_table_labels : Ime S → Ime S
  init_lookup_table_labels s =
      call PinyinIme.lookup_show_cursor (call (PinyinIme.set_lookup_page_size 9) s)

  unfoldable pub refresh_all_properties : Ime S → Ime S
  refresh_all_properties s =
      call (PinyinIme.refresh_punct_property s.half2full.is_full_width_punct) (
        call (PinyinIme.refresh_letter_property s.half2full.is_full_width_letter)
          (call (PinyinIme.refresh_status_property (s.input_mode == input_chinese)) s))

  unfoldable pub initialize_all_properties : Ime S → Ime S
  initialize_all_properties s = refresh_all_properties (call PinyinIme.register_properties s)

  unfoldable pub trigger : Property → Ime S → Option (Ime S)
  trigger status s = Window.trigger_input_mode s
  trigger letter s = some (Window.trigger_letter_width s)
  trigger punct s = some (Window.trigger_punct_width s)
  trigger other s = some s

  unfoldable pub reset_windows : Ime S → Ime S
  reset_windows s = refresh_all_properties (
      call PinyinIme.hide_aux_string (
        call PinyinIme.hide_preedit_string
          (call PinyinIme.hide_lookup_table (call PinyinIme.lookup_clear s))))

  unfoldable pub redraw_if_chinese : Ime S → Option (Ime S)
  redraw_if_chinese s = if s.input_mode == input_chinese then Window.redraw s else some s

  abbrev pub put : GooglePyInstance S → Option (Ime S) → Option (GooglePyInstance S)
  put i r = r >>= λ s. some (record i { pinyin_ime = s })

module _ {S : Type 0} (i : GooglePyInstance S) where
  open i use {pinyin_ime, focused}

  -- A page size of 0 is ignored.
  unfoldable pub update_lookup_table_page_size : ℕ → GooglePyInstance S
  update_lookup_table_page_size page_size =
      if ltb 0 page_size
      then record i { pinyin_ime = Candidates.set_page_size pinyin_ime page_size }
      else i

  unfoldable pub lookup_table_page_up : Option (GooglePyInstance S)
  lookup_table_page_up = do
    turned ← Candidates.page_up pinyin_ime
    some (record i { pinyin_ime = turned.0 })

  unfoldable pub reset : Option (GooglePyInstance S)
  reset = do
    s ← Window.reset_to_idle_state pinyin_ime
    some (record i { pinyin_ime = reset_windows s })

  unfoldable pub focus_in : Option (GooglePyInstance S)
  focus_in = do
    s ← redraw_if_chinese (
        call PinyinIme.hide_aux_string
          (call PinyinIme.hide_preedit_string (initialize_all_properties pinyin_ime)))
    some (record { pinyin_ime = init_lookup_table_labels s; focused = true })

  unfoldable pub focus_out : GooglePyInstance S
  focus_out = record i { focused = false }

  unfoldable pub trigger_property : Property → Option (GooglePyInstance S)
  trigger_property p = put i (trigger p pinyin_ime)

  unfoldable pub reload_config : Scim → UserConfig → Option (GooglePyInstance S)
  reload_config k config = do
    r ← reset
    some (record r {
      pinyin_ime = record (r.pinyin_ime) {
        func_keys = load_user_config k config r.pinyin_ime.func_keys;
      };
    })

  module _ (m : MatrixSearch S) where
    unfoldable pub lookup_table_page_down : Option (GooglePyInstance S)
    lookup_table_page_down = do
      turned ← Candidates.page_down m pinyin_ime
      some (record i { pinyin_ime = turned.0 })

    unfoldable pub select_candidate : ℕ → Option (GooglePyInstance S)
    select_candidate item = put i (Choice.choose_candidate_in_page m item pinyin_ime)

    unfoldable pub process_key_event : Scim → KeyEvent → Option (GooglePyInstance S × Bool)
    process_key_event k key =
        if focused
        then (do r ← Keys.process_key m k key pinyin_ime; some (record i { pinyin_ime = r.0 }, r.1))
        else some (i, false)
