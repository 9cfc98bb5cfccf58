-- ===== src/Tests/Panel.antt =====
-- The theorems on the object that SCIM calls, at concrete inputs.
use scim_googlepinyin.Prelude.{◌≡◌, refl, true, false, some, leb→le}
use scim_googlepinyin.ImeState.{idle}
use scim_googlepinyin.FunctionKeys.{contains, new_function_keys, FunctionKeys}
use scim_googlepinyin.PinyinIme.Resetting.{IsCleared}
use scim_googlepinyin.Imengine.{
  GooglePyInstance, UserConfig, status, trigger_property, reload_config, load_user_config, plain,
}
use scim_googlepinyin.Imengine.Config.{load_user_config-page_down_keys}
use scim_googlepinyin.Imengine.Focus.{trigger_property-twice, reload_config-IsCleared}
use scim_googlepinyin.Tests.Program.{program}
use scim_googlepinyin.Tests.Engine.{Letters, x_keys, press}
use scim_googlepinyin.Tests.Keys.{x_keys-IsKeyEquality}
use scim_googlepinyin.Tests.States.{at_ni}

abbrev config : UserConfig
config = record {
  mode_switch_shift = false;
  mode_switch_control = true;
  page_minus_equal = false;
  page_comma_period = false;
}

abbrev keys : FunctionKeys
keys = new_function_keys x_keys (press 0)

abbrev instance_ni : GooglePyInstance Letters
instance_ni = record { pinyin_ime = at_ni; focused = true }

load_user_config-page_down_keys_example :
    (contains x_keys (load_user_config x_keys config keys).page_down_keys (plain b'.') ≡ false)
    × (contains x_keys (load_user_config x_keys config keys).page_down_keys (plain b'-') ≡ false)
    × (contains x_keys (load_user_config x_keys config keys).page_down_keys (plain b'=')
        ≡ contains x_keys keys.page_down_keys (plain b'='))
load_user_config-page_down_keys_example =
    load_user_config-page_down_keys x_keys x_keys-IsKeyEquality config keys refl refl refl

trigger_property-twice_example :
    (j l : GooglePyInstance Letters) × (trigger_property instance_ni status ≡ some j)
    × (j.pinyin_ime.input_mode ≡ 1)
    × (j.pinyin_ime.half2full.is_full_width_letter ≡ false)
    × (j.pinyin_ime.half2full.is_full_width_punct ≡ true)
    × (trigger_property j status ≡ some l)
    × (l.pinyin_ime.input_mode ≡ instance_ni.pinyin_ime.input_mode)
    × (l.pinyin_ime.half2full ≡ instance_ni.pinyin_ime.half2full)
    × (l.focused ≡ instance_ni.focused)
unfolding program
trigger_property-twice_example = trigger_property-twice instance_ni status (leb→le _ _ refl)

reload_config-IsCleared_example :
    (j : GooglePyInstance Letters) × (reload_config instance_ni x_keys config ≡ some j)
    × (j.pinyin_ime.ime_state ≡ idle)
    × IsCleared instance_ni.pinyin_ime.dec_info j.pinyin_ime.dec_info
    × (j.pinyin_ime.func_keys ≡ load_user_config x_keys config instance_ni.pinyin_ime.func_keys)
    × (j.pinyin_ime.input_mode ≡ instance_ni.pinyin_ime.input_mode)
    × (j.pinyin_ime.half2full ≡ instance_ni.pinyin_ime.half2full)
    × (j.focused ≡ instance_ni.focused)
unfolding program
reload_config-IsCleared_example = reload_config-IsCleared instance_ni x_keys config refl
