-- ===== src/Scim.antt =====
-- What the input method takes from the SCIM headers and the C library: key events with their tests,
-- key symbols, and the full width form of a character. These are parameters of the model.
use scim_googlepinyin.Prelude.{ℕ, Bool}

-- `scim::KeyEvent`.
pub record KeyEvent : Type 0 where
  pub code : ℕ
  pub mask : ℕ

pub record Scim : Type 0 where
  pub get_ascii_code : KeyEvent → ℕ
  pub is_key_release : KeyEvent → Bool
  pub is_alt_down : KeyEvent → Bool
  pub is_control_down : KeyEvent → Bool
  -- `KeyEvent::operator==`
  pub same_key : KeyEvent → KeyEvent → Bool
  pub ispunct : ℕ → Bool
  pub isalpha : ℕ → Bool
  pub scim_wchar_to_full_width : ℕ → ℕ
  pub release_mask : ℕ
  pub alt_mask : ℕ
  pub shift_mask : ℕ
  pub control_mask : ℕ
  pub key_shift_l : ℕ
  pub key_control_l : ℕ
  pub key_shift_r : ℕ
  pub key_comma : ℕ
  pub key_minus : ℕ
  pub key_bracketleft : ℕ
  pub key_page_up : ℕ
  pub key_period : ℕ
  pub key_equal : ℕ
  pub key_bracketright : ℕ
  pub key_page_down : ℕ
  pub key_escape : ℕ
  pub key_delete : ℕ
  pub key_up : ℕ
  pub key_down : ℕ
  pub key_left : ℕ
  pub key_right : ℕ
  pub key_home : ℕ
  pub key_end : ℕ
  pub key_0 : ℕ
  pub key_1 : ℕ
  pub key_9 : ℕ
  pub key_return : ℕ
  pub key_space : ℕ
  pub key_backspace : ℕ
