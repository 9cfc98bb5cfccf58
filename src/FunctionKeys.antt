-- ===== src/FunctionKeys.antt =====
-- src/function_keys.cpp: the configurable keys.
pub mod Updates
use Prim.Native.Nat.{bit_and, bit_or}
use scim_googlepinyin.Prelude.{
  ℕ, Bool, true, false, List, [], ◌∷◌, ◌++◌, ◌==◌, ◌&&◌, ◌||◌, if◌then◌else◌,
}
use scim_googlepinyin.Scim.{Scim, KeyEvent}

pub record FunctionKeys : Type 0 where
  pub mode_switch_keys : List KeyEvent
  pub page_up_keys : List KeyEvent
  pub page_down_keys : List KeyEvent
  pub full_width_punct_keys : List KeyEvent
  pub prev_key : KeyEvent

module _ (k : Scim) where
  open k use {same_key, release_mask, alt_mask, shift_mask, control_mask}

  abbrev key : ℕ → ℕ → KeyEvent
  key code mask = record { code = code; mask = mask }

  -- The constructor; `prev` is the default `KeyEvent`.
  unfoldable pub new_function_keys : KeyEvent → FunctionKeys
  new_function_keys prev = record {
    mode_switch_keys =
        key k.key_shift_l (bit_or alt_mask release_mask)
        ∷ key k.key_shift_r (bit_or alt_mask release_mask)
        ∷ key k.key_shift_l (bit_or shift_mask release_mask)
        ∷ key k.key_shift_r (bit_or shift_mask release_mask)
        ∷ [];
    page_up_keys =
        key k.key_comma 0 ∷ key k.key_minus 0 ∷ key k.key_bracketleft 0 ∷ key k.key_page_up 0 ∷ [];
    page_down_keys =
        key k.key_period 0
        ∷ key k.key_equal 0
        ∷ key k.key_bracketright 0
        ∷ key k.key_page_down 0
        ∷ [];
    full_width_punct_keys = key k.key_comma control_mask ∷ [];
    prev_key = prev;
  }

  -- `std::find` up to the end of the list.
  unfoldable pub contains : List KeyEvent → KeyEvent → Bool
  contains [] e = false
  contains (x ∷ xs) e = same_key x e || contains xs e

  -- `std::remove` and `erase`.
  unfoldable pub remove : List KeyEvent → KeyEvent → List KeyEvent
  remove [] e = []
  remove (x ∷ xs) e = if same_key x e then remove xs e else x ∷ remove xs e

  unfoldable pub update_keys : List KeyEvent → KeyEvent → Bool → List KeyEvent
  unfolding contains remove
  update_keys keys e true = if contains keys e then keys else keys ++ e ∷ []
  update_keys keys e false = remove keys e

  unfoldable pub match_key_event : KeyEvent → List KeyEvent → KeyEvent → Bool
  match_key_event prev [] e = false
  match_key_event prev (x ∷ xs) e =
      if (e.code == x.code)
        && (e.mask == x.mask)
        && (bit_and e.mask release_mask == 0 || prev.code == e.code)
      then true
      else match_key_event prev xs e

module _ (k : Scim) (f : FunctionKeys) where
  unfoldable pub set_mode_switch_key : KeyEvent → Bool → FunctionKeys
  set_mode_switch_key e enabled = record f {
    mode_switch_keys = update_keys k f.mode_switch_keys e enabled;
  }

  unfoldable pub set_page_up_key : KeyEvent → Bool → FunctionKeys
  set_page_up_key e enabled = record f { page_up_keys = update_keys k f.page_up_keys e enabled }

  unfoldable pub set_page_down_key : KeyEvent → Bool → FunctionKeys
  set_page_down_key e enabled = record f {
    page_down_keys = update_keys k f.page_down_keys e enabled;
  }

  unfoldable pub is_mode_switch_key : KeyEvent → Bool
  is_mode_switch_key e = match_key_event k f.prev_key f.mode_switch_keys e

  unfoldable pub is_page_up_key : KeyEvent → Bool
  is_page_up_key e = match_key_event k f.prev_key f.page_up_keys e

  unfoldable pub is_page_down_key : KeyEvent → Bool
  is_page_down_key e = match_key_event k f.prev_key f.page_down_keys e

  unfoldable pub is_full_width_punct_key : KeyEvent → Bool
  is_full_width_punct_key e = match_key_event k f.prev_key f.full_width_punct_keys e

unfoldable pub remember_last_key : FunctionKeys → KeyEvent → FunctionKeys
remember_last_key f e = record f { prev_key = e }
