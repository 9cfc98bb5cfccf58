-- ===== src/DictList.antt =====
-- src/share/dictlist.cpp: the list of words by their length. Words of one length stand one behind the
-- other in the buffer; `bsearch` of the C library is a parameter.
pub mod Queries
pub mod Words
pub mod Lookup
use scim_googlepinyin.Prelude.{
  ℕ, zero, suc, ◌+◌, ◌-◌, ◌*◌, ◌/◌, Bool, true, false, not, ◌&&◌, ◌||◌, List, [], ◌∷◌, ◌++◌, Option,
  none, some, ltb, leb, ◌==◌, if◌then◌else◌, length, get_elem?, take, drop,
}
use scim_googlepinyin.Prelude.Errors.{◌>>=◌, ◌>>◌, assert}
use scim_googlepinyin.Prelude.Int.{ℤ}
use scim_googlepinyin.Spelling.Base.{SpellingTrie}
use scim_googlepinyin.Spelling.Ids.{half_full_compatible}
use scim_googlepinyin.SearchUtility.{
  cmp_hanzis_1, cmp_hanzis, is_zero, NPredictItem, differ, max_predict_size,
}

abbrev pub max_lemma_size : ℕ
max_lemma_size = 8

pub record SpellingId : Type 0 where
  pub half_splid : ℕ
  pub full_splid : ℕ

pub record DictList : Type 0 where
  pub initialized : Bool
  pub scis_hz : List ℕ
  pub scis_splid : List SpellingId
  pub buf : List ℕ
  pub start_pos : List ℕ
  pub start_id : List ℕ

-- `cmp_func_[n - 1]`; a read outside the array is a fault.
unfoldable pub cmp_func : ℕ → List ℕ → List ℕ → Option ℤ
unfolding cmp_hanzis_1 cmp_hanzis
cmp_func n a b =
    if n == 0 || ltb max_lemma_size n
    then none
    else if n == 1
    then cmp_hanzis_1 a b
    else cmp_hanzis n a b

-- Given the number of elements and the comparison of the key with each.
abbrev pub Bsearch : Type 0
Bsearch = ℕ → (ℕ → Option ℤ) → Option (Option ℕ)

-- The copying of a word of `rounds` characters; a read outside the buffer is a fault.
unfoldable pub read_word : ℕ → ℕ → List ℕ → Option (List ℕ)
read_word zero at buf = some []
read_word (suc rounds) at buf = do
  ch ← get_elem? buf at
  rest ← read_word rounds (at + 1) buf
  some (ch ∷ rest)

module _ (d : DictList) where
  -- The loop over the lengths, with `rounds` of them to go. The string that is filled in, before its
  -- terminating 0; its length is returned, and 0 where there is none.
  unfoldable pub find_range : ℕ → ℕ → ℕ → ℕ → Option (List ℕ)
  unfolding read_word
  find_range zero i id_lemma str_max = some []
  find_range (suc rounds) i id_lemma str_max = do
    start ← get_elem? d.start_id i
    next ← get_elem? d.start_id (i + 1)
    pos ← get_elem? d.start_pos i
    let rest = find_range rounds (i + 1) id_lemma str_max
    if ltb (str_max - 1) (i + 1)
        then some []
        else (if leb start id_lemma && ltb id_lemma next
            then read_word (i + 1) (pos + (id_lemma - start) * (i + 1)) d.buf
            else rest)

  unfoldable pub get_lemma_str : ℕ → ℕ → Option (List ℕ)
  get_lemma_str id_lemma str_max = do
    end ← get_elem? d.start_id max_lemma_size
    if not d.initialized || leb end id_lemma || leb str_max 1
        then some []
        else find_range max_lemma_size 0 id_lemma str_max

  -- From the word `k` back to the first that compares equal to its neighbours.
  unfoldable pub first_equal : ℕ → ℕ → (List ℕ → List ℕ → Option ℤ) → ℕ → Option ℕ
  first_equal base word_len cmp zero = some 0
  first_equal base word_len cmp (suc k) = do
    v ← cmp (drop (base + suc k * word_len) d.buf) (drop (base + k * word_len) d.buf)
    let rest = first_equal base word_len cmp k
    if is_zero v then rest else some (suc k)

  module _ (search : Bsearch) where
    -- The number of the word among those of its length, if one is found.
    unfoldable pub find_pos_startedbyhzs :
        List ℕ → ℕ → (List ℕ → List ℕ → Option ℤ) → Option (Option ℕ)
    find_pos_startedbyhzs last_hzs word_len cmp = do
      base ← if word_len == 0 then none else get_elem? d.start_pos (word_len - 1)
      end ← get_elem? d.start_pos word_len
      found ←
          search ((end - base) / word_len) (λ i. cmp last_hzs (drop (base + i * word_len) d.buf))
      elim found [
        | none ↦ some none
        | some k ↦ first_equal base word_len cmp k >>= λ first. some (some first)
      ]

    -- The word must not stand at the start of the buffer, and the length 0 reads outside the array of
    -- comparisons.
    unfoldable pub get_lemma_id : List ℕ → ℕ → Option ℕ
    get_lemma_id str str_len = if ltb max_lemma_size str_len then some 0 else do
      found ← find_pos_startedbyhzs str str_len (cmp_func str_len)
      elim found [
        | none ↦ some 0
        | some k ↦ do
          base ← get_elem? d.start_pos (str_len - 1)
          assert (ltb 0 (base + k * str_len))
          start ← get_elem? d.start_id (str_len - 1)
          some (start + k)
      ]

  -- The characters of the string from ids.
  unfoldable pub convert_to_hanzis : List ℕ → Option (List ℕ)
  convert_to_hanzis [] = some []
  convert_to_hanzis (id ∷ str) = do
    hz ← get_elem? d.scis_hz id
    rest ← convert_to_hanzis str
    some (hz ∷ rest)

unfoldable pub convert_to_scis_ids : List ℕ → List ℕ
convert_to_scis_ids [] = []
convert_to_scis_ids (ch ∷ str) = 0x100 ∷ convert_to_scis_ids str
