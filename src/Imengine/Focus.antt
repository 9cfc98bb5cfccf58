-- ===== src/Imengine/Focus.antt =====
-- Properties of the panel, the reset of an instance, and new configurations.
use scim_googlepinyin.Prelude.{
  ◌-◌, ◌≤◌, ◌≡◌, refl, Bool, true, false, not, some, arith, ap, if◌then◌else◌,
}
use scim_googlepinyin.ImeState.{idle}
use scim_googlepinyin.Scim.{Scim}
use scim_googlepinyin.HalfToFull.{HalfToFullConverter, toggle_letter_width, toggle_punct_width}
use scim_googlepinyin.PinyinIme.Window.{is_idle, trigger_letter_width, trigger_punct_width}
use scim_googlepinyin.PinyinIme.Resetting.{
  IsCleared, reset_to_idle_state-IsCleared, trigger_input_mode-both,
}
use scim_googlepinyin.Imengine.{
  GooglePyInstance, Property, status, letter, punct, other, UserConfig, trigger_property, trigger,
  reload_config, reset, reset_windows, refresh_all_properties, load_user_config,
}

toggle_letter_width-twice :
    (c : HalfToFullConverter) → toggle_letter_width (toggle_letter_width c) ≡ c
unfolding toggle_letter_width
toggle_letter_width-twice c = ground arith

toggle_punct_width-twice : (c : HalfToFullConverter) → toggle_punct_width (toggle_punct_width c) ≡ c
unfolding toggle_punct_width
toggle_punct_width-twice c = ground arith

abbrev is_status : Property → Bool
is_status status = true
is_status letter = false
is_status punct = false
is_status other = false

abbrev is_letter : Property → Bool
is_letter letter = true
is_letter status = false
is_letter punct = false
is_letter other = false

abbrev is_punct : Property → Bool
is_punct punct = true
is_punct status = false
is_punct letter = false
is_punct other = false

-- A click on a property of the panel does not fault, if the input mode is 0 or 1. It switches the input
-- mode just if the property is the status, the width of letters just if it is that of letters, and the
-- width of punctuation just if it is that of punctuation. A second click on the same property restores
-- all three; the focus stays.
pub trigger_property-twice :
    {S : Type 0} (i : GooglePyInstance S) (p : Property)
    → i.pinyin_ime.input_mode ≤ 1
    → (j l : GooglePyInstance S) × (trigger_property i p ≡ some j)
      × (j.pinyin_ime.input_mode
          ≡ (if is_status p then 1 - i.pinyin_ime.input_mode else i.pinyin_ime.input_mode))
      × (j.pinyin_ime.half2full.is_full_width_letter ≡ (
          if is_letter p
          then not i.pinyin_ime.half2full.is_full_width_letter
          else i.pinyin_ime.half2full.is_full_width_letter))
      × (j.pinyin_ime.half2full.is_full_width_punct ≡ (
          if is_punct p
          then not i.pinyin_ime.half2full.is_full_width_punct
          else i.pinyin_ime.half2full.is_full_width_punct))
      × (trigger_property j p ≡ some l)
      × (l.pinyin_ime.input_mode ≡ i.pinyin_ime.input_mode)
      × (l.pinyin_ime.half2full ≡ i.pinyin_ime.half2full)
      × (l.focused ≡ i.focused)
unfolding trigger_property trigger trigger_letter_width trigger_punct_width toggle_letter_width
    toggle_punct_width
trigger_property-twice i status h =
    let (t, u, run, run', state, flipped, half_t, mode, half) =
      trigger_input_mode-both i.pinyin_ime h in
    (
      record i { pinyin_ime = t },
      record i { pinyin_ime = u },
      rw run refl,
      flipped,
      ap (λ c. c.is_full_width_letter) half_t,
      ap (λ c. c.is_full_width_punct) half_t,
      rw run' refl,
      mode,
      half,
      refl,
    )
trigger_property-twice i letter h = (
  _,
  _,
  refl,
  refl,
  refl,
  refl,
  refl,
  refl,
  toggle_letter_width-twice i.pinyin_ime.half2full,
  refl,
)
trigger_property-twice i punct h = (
  _,
  _,
  refl,
  refl,
  refl,
  refl,
  refl,
  refl,
  toggle_punct_width-twice i.pinyin_ime.half2full,
  refl,
)
trigger_property-twice i other h = (_, _, refl, refl, refl, refl, refl, refl, refl, refl)

-- A new configuration drops what is being typed, in any state but idle: the state is idle, all that was
-- typed, decoded, composed, displayed, fixed or offered is cleared, and the keys are the old ones with
-- the configuration loaded. The spelling starts, the place marked for deletion, the engine, the input
-- mode, the width modes and the focus stay.
pub reload_config-IsCleared :
    {S : Type 0} (i : GooglePyInstance S) (k : Scim) (config : UserConfig)
    → is_idle i.pinyin_ime.ime_state ≡ false
    → (j : GooglePyInstance S) × (reload_config i k config ≡ some j)
      × (j.pinyin_ime.ime_state ≡ idle)
      × IsCleared i.pinyin_ime.dec_info j.pinyin_ime.dec_info
      × (j.pinyin_ime.func_keys ≡ load_user_config k config i.pinyin_ime.func_keys)
      × (j.pinyin_ime.input_mode ≡ i.pinyin_ime.input_mode)
      × (j.pinyin_ime.half2full ≡ i.pinyin_ime.half2full)
      × (j.focused ≡ i.focused)
unfolding reload_config reset reset_windows refresh_all_properties
reload_config-IsCleared i k config h =
    let (t, run, again, state, cleared, cmps, mode, keys, half) =
      reset_to_idle_state-IsCleared i.pinyin_ime h in
    (
      record i {
        pinyin_ime = record (reset_windows t) { func_keys = load_user_config k config t.func_keys };
      },
      rw run refl,
      state,
      cleared,
      rw keys refl,
      mode,
      half,
      refl,
    )
