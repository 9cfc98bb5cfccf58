-- ===== src/Utf16/Compare.antt =====
-- The comparisons are those of the strings as words.
use scim_googlepinyin.Prelude.{
  ℕ, zero, suc, ◌-◌, ltb→lt, ◌<◌, ◌≡◌, refl, Bool, true, false, not, ◌&&◌, List, [], ◌∷◌, ◌++◌,
  some, arith, length, take, ltb, leb, ◌==◌, if◌then◌else◌, inl, inr, Bool-cases, Ordering,
}
use scim_googlepinyin.Prelude.Int.{ℤ, pos, negsuc, sub_ℕ}
use scim_googlepinyin.Utf16.{utf16_strlen, utf16_strcmp, utf16_strncmp}

-- A word has no character 0.
unfoldable pub is_word : List ℕ → Bool
is_word [] = true
is_word (ch ∷ word) = not (ch == 0) && is_word word

-- The order of the dictionary: the first difference decides, and a prefix stands before.
pub lex : List ℕ → List ℕ → Ordering
lex [] [] = Ordering.eq
lex [] (b ∷ w2) = Ordering.lt
lex (a ∷ w1) [] = Ordering.gt
lex (a ∷ w1) (b ∷ w2) =
    let rest = lex w1 w2 in if a == b then rest else if ltb a b then Ordering.lt else Ordering.gt

-- The sign of a result.
unfoldable pub sign : ℤ → Ordering
sign (pos zero) = Ordering.eq
sign (pos (suc n)) = Ordering.gt
sign (negsuc n) = Ordering.lt

sign_pos : (n : ℕ) → 0 < n → sign (pos n) ≡ Ordering.gt
unfolding sign
sign_pos zero h = absurd (omega arith)
sign_pos (suc n) h = refl

sub_ℕ-lt : (a b : ℕ) → a < b → sign (sub_ℕ a b) ≡ Ordering.lt
unfolding sign
sub_ℕ-lt a b h = let e : leb b a ≡ false = ground arith in rw e

sub_ℕ-gt : (a b : ℕ) → b < a → sign (sub_ℕ a b) ≡ Ordering.gt
sub_ℕ-gt a b h = let e : leb b a ≡ true = ground arith in rw e (sign_pos (a - b) (omega arith))

-- The comparison of two terminated words, of `size` characters at most, gives the order of the words
-- cut to that size. It does not fault, whatever follows the terminating 0.
pub utf16_strncmp-lex :
    (word1 word2 rest1 rest2 : List ℕ) (size : ℕ)
    → is_word word1 ≡ true
    → is_word word2 ≡ true
    → (v : ℤ) × (utf16_strncmp (word1 ++ 0 ∷ rest1) (word2 ++ 0 ∷ rest2) size ≡ some v)
      × (sign v ≡ lex (take size word1) (take size word2))
unfolding utf16_strncmp lex is_word sign
utf16_strncmp-lex word1 word2 rest1 rest2 zero p q = (pos 0, refl, refl)
utf16_strncmp-lex [] [] rest1 rest2 (suc size) p q = (pos 0, refl, refl)
utf16_strncmp-lex [] (b ∷ word2) rest1 rest2 (suc size) p q =
    (sub_ℕ 0 b, ground arith, sub_ℕ-lt 0 b (ground arith))
utf16_strncmp-lex (a ∷ word1) [] rest1 rest2 (suc size) p q =
    (sub_ℕ a 0, ground arith, sub_ℕ-gt a 0 (ground arith))
utf16_strncmp-lex (a ∷ word1) (b ∷ word2) rest1 rest2 (suc size) p q = elim (Bool-cases (a == b)) [
  | inl equal ↦
      let (v, run, right) =
        utf16_strncmp-lex word1 word2 rest1 rest2 size (ground arith) (ground arith) in
      let more : (a == 0) ≡ false = ground arith in (v, rw (equal, more) run, rw equal right)
  | inr differ ↦ elim (Bool-cases (ltb a b)) [
    | inl less ↦ (sub_ℕ a b, rw differ, rw (differ, less) (sub_ℕ-lt a b (ltb→lt a b less)))
    | inr greater ↦ (sub_ℕ a b, rw differ, rw (differ, greater) (sub_ℕ-gt a b (ground arith)))
  ]
]

-- The comparison of terminated words without a size is that with any size beyond the first word.
pub utf16_strcmp-utf16_strncmp :
    (word1 str2 rest1 : List ℕ) (size : ℕ)
    → is_word word1 ≡ true
    → length word1 < size
    → utf16_strcmp (word1 ++ 0 ∷ rest1) str2 ≡ utf16_strncmp (word1 ++ 0 ∷ rest1) str2 size
unfolding utf16_strcmp utf16_strncmp is_word
utf16_strcmp-utf16_strncmp word1 str2 rest1 zero p h = absurd (omega arith)
utf16_strcmp-utf16_strncmp [] [] rest1 (suc size) p h = refl
utf16_strcmp-utf16_strncmp [] (b ∷ str2) rest1 (suc size) p h = ground arith
utf16_strcmp-utf16_strncmp (a ∷ word1) [] rest1 (suc size) p h = refl
utf16_strcmp-utf16_strncmp (a ∷ word1) (b ∷ str2) rest1 (suc size) p h =
    rw (utf16_strcmp-utf16_strncmp word1 str2 rest1 size (ground arith) (omega arith))

-- The length of a terminated word.
pub utf16_strlen-append :
    (word rest : List ℕ)
    → is_word word ≡ true
    → utf16_strlen (word ++ 0 ∷ rest) ≡ some (length word)
unfolding utf16_strlen is_word
utf16_strlen-append [] rest p = refl
utf16_strlen-append (a ∷ word) rest p =
    let more : (a == 0) ≡ false = ground arith in
    rw (more, utf16_strlen-append word rest (ground arith))
