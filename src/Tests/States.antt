-- ===== src/Tests/States.antt =====
-- States that the runs come to.
use scim_googlepinyin.Prelude.{[], ◌∷◌, Option, some, none}
use scim_googlepinyin.DecodingInfo.{DecodingInfo}
use scim_googlepinyin.PinyinIme.{Ime}
use scim_googlepinyin.Tests.Engine.{Letters, start}
use scim_googlepinyin.Tests.Typing.{type_keys}

abbrev pub reached : Option (Ime Letters) → Ime Letters
reached none = start
reached (some s) = s

-- The pinyin `ni` is typed.
abbrev pub at_ni : Ime Letters
at_ni = reached (type_keys start (b'n' ∷ b'i' ∷ []))

-- `ni` is typed, and Left was pressed until the cursor stands at the start.
abbrev pub at_left_end : Ime Letters
at_left_end = reached (type_keys start (b'n' ∷ b'i' ∷ 0xFF51 ∷ 0xFF51 ∷ 0xFF51 ∷ []))

abbrev pub info_ni : DecodingInfo Letters
info_ni = at_ni.dec_info
