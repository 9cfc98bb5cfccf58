-- ===== src/HalfToFull/Quotes.antt =====
-- Quotes alternate between their opening and closing forms.
use scim_googlepinyin.Prelude.{
  ℕ, ◌≤◌, ◌≡◌, Bool, true, false, [], ◌∷◌, arith, length, not, if◌then◌else◌,
}
use scim_googlepinyin.Scim.{Scim}
use scim_googlepinyin.HalfToFull.{HalfToFullConverter, convert, half_punct_to_full}

-- The double quote, then the single quote.
abbrev pub quote : Bool → ℕ
quote true = b'"'
quote false = b'\''

-- Their full width forms, U+201C and U+201D, U+2018 and U+2019.
abbrev pub opening : Bool → ℕ
opening true = 0x201C
opening false = 0x2018

abbrev pub closing : Bool → ℕ
closing true = 0x201D
closing false = 0x2019

-- The flag that the next quote of a kind opens.
abbrev pub opens : Bool → HalfToFullConverter → Bool
opens true c = c.left_double_quote
opens false c = c.left_single_quote

-- With full width punctuation two equal quotes in a row give both forms of that quote: first the opening
-- one if its flag is set, and else the closing one, and then the other. The first
-- quote flips that flag and not that of the other kind; the second leads back to the same state.
pub convert-quotes :
    (k : Scim) (c : HalfToFullConverter) (double : Bool)
    → c.is_full_width_punct ≡ true
    → k.ispunct (quote double) ≡ true
    → ((convert k c (quote double)).1
        ≡ (if opens double c then opening double else closing double) ∷ [])
      × ((convert k (convert k c (quote double)).0 (quote double)).1
          ≡ (if opens double c then closing double else opening double) ∷ [])
      × (opens double (convert k c (quote double)).0 ≡ not (opens double c))
      × (opens (not double) (convert k c (quote double)).0 ≡ opens (not double) c)
      × ((convert k (convert k c (quote double)).0 (quote double)).0 ≡ c)
unfolding convert half_punct_to_full
convert-quotes k c true full punct =
    (ground arith, ground arith, ground arith, ground arith, ground arith)
convert-quotes k c false full punct =
    (ground arith, ground arith, ground arith, ground arith, ground arith)

-- A conversion leaves the two width modes alone and gives one or two characters.
pub convert-width :
    (k : Scim) (c : HalfToFullConverter) (ch : ℕ)
    → ((convert k c ch).0.is_full_width_punct ≡ c.is_full_width_punct)
      × ((convert k c ch).0.is_full_width_letter ≡ c.is_full_width_letter)
      × (1 ≤ length (convert k c ch).1)
      × (length (convert k c ch).1 ≤ 2)
unfolding convert half_punct_to_full
convert-width k c ch = (ground arith, ground arith, ground arith, ground arith)
