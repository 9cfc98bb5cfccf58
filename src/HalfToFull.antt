-- ===== src/HalfToFull.antt =====
-- src/pinyin_util.cpp: the conversion of punctuation and letters to their full width forms.
pub mod Quotes
use scim_googlepinyin.Prelude.{ℕ, Bool, true, false, not, List, [], ◌∷◌, ◌==◌, ◌&&◌, if◌then◌else◌}
use scim_googlepinyin.Scim.{Scim}

pub record HalfToFullConverter : Type 0 where
  pub is_full_width_punct : Bool
  pub is_full_width_letter : Bool
  pub left_single_quote : Bool
  pub left_double_quote : Bool

unfoldable pub new_converter : HalfToFullConverter
new_converter = record {
  is_full_width_punct = true;
  is_full_width_letter = false;
  left_single_quote = true;
  left_double_quote = true;
}

module _ (k : Scim) (c : HalfToFullConverter) where
  open c use {left_single_quote, left_double_quote, is_full_width_punct, is_full_width_letter}

  -- The `switch` of `half_punct_to_full`. A quote flips its flag, so that opening and closing forms
  -- alternate.
  unfoldable pub half_punct_to_full : ℕ → HalfToFullConverter × List ℕ
  half_punct_to_full ch =
      if ch == b'.'
      then (c, 0x3002 ∷ [])
      else if ch == b'\\'
      then (c, 0x3001 ∷ [])
      else if ch == b'^'
      then (c, 0x2026 ∷ 0x2026 ∷ [])
      else if ch == b'"'
      then (
        record c { left_double_quote = not left_double_quote },
        (if left_double_quote then 0x201C else 0x201D) ∷ [],
      )
      else if ch == b'\''
      then (
        record c { left_single_quote = not left_single_quote },
        (if left_single_quote then 0x2018 else 0x2019) ∷ [],
      )
      else if ch == b'<'
      then (c, 0x300A ∷ [])
      else if ch == b'>'
      then (c, 0x300B ∷ [])
      else if ch == b'$'
      then (c, 0xFFE5 ∷ [])
      else if ch == b'_'
      then (c, 0x2014 ∷ 0x2014 ∷ [])
      else (c, k.scim_wchar_to_full_width ch ∷ [])

  -- `operator ()`.
  unfoldable pub convert : ℕ → HalfToFullConverter × List ℕ
  convert ch =
      if is_full_width_punct && k.ispunct ch
      then half_punct_to_full ch
      else if is_full_width_letter && k.isalpha ch
      then (c, k.scim_wchar_to_full_width ch ∷ [])
      else (c, ch ∷ [])

module _ (c : HalfToFullConverter) where
  unfoldable pub toggle_punct_width : HalfToFullConverter
  toggle_punct_width = record c { is_full_width_punct = not c.is_full_width_punct }

  unfoldable pub toggle_letter_width : HalfToFullConverter
  toggle_letter_width = record c { is_full_width_letter = not c.is_full_width_letter }

  unfoldable pub reset : HalfToFullConverter
  reset = record c { left_double_quote = true; left_single_quote = true }
