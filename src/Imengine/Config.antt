-- ===== src/Imengine/Config.antt =====
-- What loading the configuration does to the keys.
use scim_googlepinyin.Prelude.{◌≡◌, refl, false, if◌then◌else◌}
use scim_googlepinyin.Scim.{Scim, KeyEvent}
use scim_googlepinyin.FunctionKeys.{
  FunctionKeys, contains, set_mode_switch_key, set_page_up_key, set_page_down_key,
}
use scim_googlepinyin.FunctionKeys.Updates.{IsKeyEquality, contains-update_keys}
use scim_googlepinyin.Imengine.{UserConfig, load_user_config, lshift, lcontrol, plain}

-- After the configuration was loaded, a key equal to the release of Control is a mode switch key just
-- if the setting for Control is on, any other key equal to that of the left Shift just if the setting
-- for Shift is on, and every other key just if it was one before.
pub load_user_config-mode_switch_keys :
    (k : Scim) (eq : IsKeyEquality k) (config : UserConfig) (f : FunctionKeys) (e : KeyEvent)
    → contains k (load_user_config k config f).mode_switch_keys e ≡ (
        if k.same_key (lcontrol k) e
        then config.mode_switch_control
        else if k.same_key (lshift k) e
        then config.mode_switch_shift
        else contains k f.mode_switch_keys e)
unfolding load_user_config set_mode_switch_key set_page_up_key set_page_down_key
load_user_config-mode_switch_keys k eq config f e =
    rw
      (
        contains-update_keys k eq _ (lcontrol k) e config.mode_switch_control,
        contains-update_keys k eq f.mode_switch_keys (lshift k) e config.mode_switch_shift,
      )
      refl

-- After the configuration was loaded, a key equal to comma turns pages back just if the setting for
-- comma and period is on, any other key equal to minus just if that for minus and equal is on, and
-- every other key just if it did before.
pub load_user_config-page_up_keys :
    (k : Scim) (eq : IsKeyEquality k) (config : UserConfig) (f : FunctionKeys) (e : KeyEvent)
    → contains k (load_user_config k config f).page_up_keys e ≡ (
        if k.same_key (plain k.key_comma) e
        then config.page_comma_period
        else if k.same_key (plain k.key_minus) e
        then config.page_minus_equal
        else contains k f.page_up_keys e)
unfolding load_user_config set_mode_switch_key set_page_up_key set_page_down_key
load_user_config-page_up_keys k eq config f e =
    rw
      (
        contains-update_keys k eq _ (plain k.key_comma) e config.page_comma_period,
        contains-update_keys k eq f.page_up_keys (plain k.key_minus) e config.page_minus_equal,
      )
      refl

-- Where period, minus and equal are different keys, the setting for comma and period decides whether
-- period turns pages forward, and that for minus and equal whether minus does. The equal key does just
-- if it did before, whatever is configured.
pub load_user_config-page_down_keys :
    (k : Scim) (eq : IsKeyEquality k) (config : UserConfig) (f : FunctionKeys)
    → k.same_key (plain k.key_period) (plain k.key_minus) ≡ false
    → k.same_key (plain k.key_period) (plain k.key_equal) ≡ false
    → k.same_key (plain k.key_minus) (plain k.key_equal) ≡ false
    → (contains k (load_user_config k config f).page_down_keys (plain k.key_period)
        ≡ config.page_comma_period)
      × (contains k (load_user_config k config f).page_down_keys (plain k.key_minus)
          ≡ config.page_minus_equal)
      × (contains k (load_user_config k config f).page_down_keys (plain k.key_equal)
          ≡ contains k f.page_down_keys (plain k.key_equal))
unfolding load_user_config set_mode_switch_key set_page_up_key set_page_down_key
load_user_config-page_down_keys k eq config f p q r = (
  rw
      (
        contains-update_keys k eq _ (plain k.key_period) (plain k.key_period)
            config.page_comma_period,
        eq.same_refl (plain k.key_period),
      )
      refl,
  rw
      (
        contains-update_keys k eq _ (plain k.key_period) (plain k.key_minus)
            config.page_comma_period,
        p,
        contains-update_keys k eq f.page_down_keys (plain k.key_minus) (plain k.key_minus)
            config.page_minus_equal,
        eq.same_refl (plain k.key_minus),
      )
      refl,
  rw
      (
        contains-update_keys k eq _ (plain k.key_period) (plain k.key_equal)
            config.page_comma_period,
        q,
        contains-update_keys k eq f.page_down_keys (plain k.key_minus) (plain k.key_equal)
            config.page_minus_equal,
        r,
      )
      refl,
)
