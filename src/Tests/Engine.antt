-- ===== src/Tests/Engine.antt =====
-- A small engine and the key symbols of X, at which the runs are made.
use Prim.Native.Nat.{bit_and}
use scim_googlepinyin.Prelude.{
  ℕ, zero, suc, ◌+◌, Bool, true, false, not, List, [], ◌∷◌, ◌++◌, none, some, ltb, leb, ◌==◌, ◌&&◌,
  ◌||◌, if◌then◌else◌, length, take, drop,
}
use scim_googlepinyin.Prelude.Int.{pos}
use scim_googlepinyin.DecoderService.{MatrixSearch, PinyinDecoderService}
use scim_googlepinyin.DecodingInfo.{DecodingInfo, new_decoding_info}
use scim_googlepinyin.Scim.{Scim, KeyEvent}
use scim_googlepinyin.FunctionKeys.{new_function_keys}
use scim_googlepinyin.PinyinIme.{Ime, new_ime}

-- The engine keeps the pinyin and whether a choice has fixed all of it; each letter is a spelling.
pub record Letters : Type 0 where
  pub py : List ℕ
  pub fixed : Bool

abbrev pub up_to : ℕ → ℕ → List ℕ
up_to start zero = start ∷ []
up_to start (suc n) = start ∷ up_to (start + 1) n

abbrev pub hanzi : List ℕ → ℕ → List ℕ
hanzi [] i = []
hanzi (x ∷ xs) i = (19968 + i) ∷ hanzi xs i

abbrev pub remove_at : ℕ → List ℕ → List ℕ
remove_at n xs = take n xs ++ drop (n + 1) xs

abbrev pub letters : MatrixSearch Letters
letters = record {
  search = λ s py. record { py = py; fixed = false };
  reset_search = λ s. record { py = []; fixed = false };
  delsearch = λ s at in_spl clear. record { py = remove_at at s.py; fixed = false };
  choose = λ s i. if ltb i 12 then some (record { py = s.py; fixed = true }, 1) else none;
  get_candidate_num = λ s. 12;
  get_candidate = λ s i max. some (hanzi s.py i);
  get_spl_start = λ s. (up_to 0 (length s.py), length s.py);
  get_pystr = λ s. (s.py, length s.py);
  get_fixedlen = λ s. if s.fixed then length s.py else 0;
  get_predicts = λ s history max. 0;
}

abbrev pub x_keys : Scim
x_keys = record {
  get_ascii_code = λ e. if ltb e.code 128 then e.code else 0;
  is_key_release = λ e. not (bit_and e.mask 0x40000000 == 0);
  is_alt_down = λ e. not (bit_and e.mask 8 == 0);
  is_control_down = λ e. not (bit_and e.mask 4 == 0);
  same_key = λ a b. (a.code == b.code) && (a.mask == b.mask);
  ispunct = λ c.
      leb 33 c && leb c 47
      || leb 58 c && leb c 64
      || leb 91 c && leb c 96
      || leb 123 c && leb c 126;
  isalpha = λ c. leb b'a' c && leb c b'z' || leb b'A' c && leb c b'Z';
  scim_wchar_to_full_width = λ c. c + 0xFEE0;
  release_mask = 0x40000000;
  alt_mask = 8;
  shift_mask = 1;
  control_mask = 4;
  key_shift_l = 0xFFE1;
  key_control_l = 0xFFE3;
  key_shift_r = 0xFFE2;
  key_comma = b',';
  key_minus = b'-';
  key_bracketleft = b'[';
  key_page_up = 0xFF55;
  key_period = b'.';
  key_equal = b'=';
  key_bracketright = b']';
  key_page_down = 0xFF56;
  key_escape = 0xFF1B;
  key_delete = 0xFFFF;
  key_up = 0xFF52;
  key_down = 0xFF54;
  key_left = 0xFF51;
  key_right = 0xFF53;
  key_home = 0xFF50;
  key_end = 0xFF57;
  key_0 = b'0';
  key_1 = b'1';
  key_9 = b'9';
  key_return = 0xFF0D;
  key_space = b' ';
  key_backspace = 0xFF08;
}

abbrev pub press : ℕ → KeyEvent
press code = record { code = code; mask = 0 }

abbrev pub service : PinyinDecoderService Letters
service = record { matrix_search = record { py = []; fixed = false }; predict_len = 0 }

abbrev pub no_info : DecodingInfo Letters
no_info = new_decoding_info service (pos 0) 0 false 0 false

abbrev pub start : Ime Letters
start = new_ime no_info (new_function_keys x_keys (press 0))
