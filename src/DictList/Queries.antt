-- ===== src/DictList/Queries.antt =====
-- src/share/dictlist.cpp: the spellings of a character, and the prediction of words from what was typed
-- before.
use scim_googlepinyin.Prelude.{
  ℕ, zero, suc, ◌+◌, ◌-◌, ◌*◌, ◌/◌, ◌%◌, ◌^◌, Bool, true, false, ◌&&◌, ◌||◌, List, [], ◌∷◌, ◌++◌,
  Option, none, some, ltb, leb, ◌==◌, if◌then◌else◌, length, get_elem?, drop,
}
use scim_googlepinyin.Prelude.Errors.{◌>>=◌, ◌>>◌, assert}
use scim_googlepinyin.Spelling.Base.{SpellingTrie}
use scim_googlepinyin.Spelling.Ids.{half_full_compatible}
use scim_googlepinyin.SearchUtility.{cmp_hanzis_1, is_zero, NPredictItem, differ, max_predict_size}
use scim_googlepinyin.DictList.{DictList, SpellingId, Bsearch, cmp_func, find_pos_startedbyhzs}

-- Back to the first place with the character.
unfoldable pub first_hanzi : List ℕ → ℕ → ℕ → Option ℕ
first_hanzi scis_hz hanzi zero = some 0
first_hanzi scis_hz hanzi (suc k) = do
  before ← get_elem? scis_hz k
  let rest = first_hanzi scis_hz hanzi k
  if hanzi == before then rest else some (suc k)

-- The spellings from the place `at` on, as long as the character is the same; the place is a `uint16`.
unfoldable pub spellings_of : ℕ → List SpellingId → ℕ → List ℕ → Option (List SpellingId)
spellings_of hanzi ids at [] = some []
spellings_of hanzi ids at (hz ∷ scis_hz) =
    let rest = spellings_of hanzi ids (at + 1) scis_hz in
    if hanzi == hz
    then (get_elem? ids (at % 2 ^ 16) >>= λ id. rest >>= λ r. some (id ∷ r))
    else some []

unfoldable pub is_strict : ℕ → List SpellingId → Bool
is_strict half_splid [] = false
is_strict half_splid (id ∷ ids) =
    (half_splid == 0 || id.half_splid == half_splid) || is_strict half_splid ids

-- The full ids of those that fit the half id; there must be room for one more.
unfoldable pub fitting : SpellingTrie → ℕ → Bool → ℕ → ℕ → List SpellingId → Option (List ℕ)
fitting t half_splid strict max_splids found_num [] = some []
fitting t half_splid strict max_splids found_num (id ∷ ids) = do
  fits ←
      if half_splid == 0
      then some true
      else if strict
      then some (id.half_splid == half_splid)
      else half_full_compatible t half_splid id.full_splid
  let rest = fitting t half_splid strict max_splids (if fits then found_num + 1 else found_num) ids
  if fits
      then assert (ltb (found_num + 1) max_splids) >> (rest >>= λ r. some (id.full_splid ∷ r))
      else rest

module _ (d : DictList) (search : Bsearch) where
  -- It is asserted that the character is in the list.
  unfoldable pub get_splids_for_hanzi : SpellingTrie → ℕ → ℕ → ℕ → Option (List ℕ)
  unfolding first_hanzi spellings_of is_strict fitting
  get_splids_for_hanzi t hanzi half_splid max_splids = do
    found ← search (length d.scis_hz) (λ i. cmp_hanzis_1 (hanzi ∷ []) (drop i d.scis_hz))
    k ← found
    here ← get_elem? d.scis_hz k
    assert (hanzi == here)
    first ← first_hanzi d.scis_hz hanzi k
    ids ← spellings_of hanzi d.scis_splid first (drop first d.scis_hz)
    fitting t half_splid (is_strict half_splid ids) max_splids 0 ids

zeros : ℕ → List ℕ
zeros zero = []
zeros (suc n) = 0 ∷ zeros n

-- `utf16_strncpy` of `n` characters to a string of zeros.
unfoldable pub copy_chars : ℕ → List ℕ → Option (List ℕ)
unfolding zeros
copy_chars zero src = some []
copy_chars (suc n) [] = none
copy_chars (suc n) (ch ∷ src) =
    let rest = copy_chars n src in
    if ch == 0 then some (zeros (suc n)) else (rest >>= λ r. some (ch ∷ r))

module _ {F : Type 0} (d : DictList) (search : Bsearch) (get_uni_psb : ℕ → F) where
  -- The words from `k` on that begin with the characters, `room` at most; `rounds` words are left.
  unfoldable pub predict_words : List ℕ → ℕ → ℕ → ℕ → ℕ → ℕ → ℕ → ℕ → Option (List (NPredictItem F))
  unfolding copy_chars
  predict_words last_hzs hzs_len pre_len base start_id zero k room = some []
  predict_words last_hzs hzs_len pre_len base start_id (suc rounds) k room = do
    let at = base + k * (hzs_len + pre_len)
    v ← cmp_func hzs_len (drop at d.buf) last_hzs
    let more = predict_words last_hzs hzs_len pre_len base start_id rounds (k + 1) (room - 1)
    let chars = copy_chars pre_len (drop (at + hzs_len) d.buf)
    if is_zero v && ltb 0 room
        then (chars >>= λ hzs. more >>= λ items. some (
            record {
              psb = get_uni_psb (k + start_id);
              pre_hzs = hzs ++ zeros (max_predict_size - pre_len);
              his_len = hzs_len;
            }
            ∷ items))
        else some []

  -- The loop over the lengths, with `rounds` of them to go; `room` places are left.
  unfoldable pub predict_lengths : List ℕ → ℕ → ℕ → ℕ → ℕ → Option (List (NPredictItem F))
  unfolding predict_words
  predict_lengths last_hzs hzs_len zero pre_len room = some []
  predict_lengths last_hzs hzs_len (suc rounds) pre_len room = do
    let word_len = hzs_len + pre_len
    found ← find_pos_startedbyhzs d search last_hzs word_len (cmp_func hzs_len)
    base ← get_elem? d.start_pos (word_len - 1)
    end ← get_elem? d.start_pos word_len
    start ← get_elem? d.start_id (word_len - 1)
    items ← elim found [
      | none ↦ some []
      | some k ↦
          predict_words last_hzs hzs_len pre_len base start
            ((end - base + word_len - 1) / word_len - k) k room
    ]
    rest ← predict_lengths last_hzs hzs_len rounds (pre_len + 1) (room - length items)
    some (items ++ rest)

  -- One of the items before has the string.
  unfoldable pub is_used : NPredictItem F → List (NPredictItem F) → Option Bool
  unfolding differ
  is_used item [] = some false
  is_used item (used ∷ before) = do
    new ← differ used item
    let rest = is_used item before
    if new then rest else some true

  -- The items that are not among those before.
  unfoldable pub unused :
      List (NPredictItem F) → List (NPredictItem F) → Option (List (NPredictItem F))
  unfolding is_used
  unused before [] = some []
  unused before (item ∷ items) = do
    used ← is_used item before
    rest ← unused before items
    some (if used then rest else item ∷ rest)

  -- `before` has the `b4_used` items in front of the place where the new ones go, the nearest first.
  unfoldable pub predict : List ℕ → ℕ → ℕ → List (NPredictItem F) → Option (List (NPredictItem F))
  unfolding predict_lengths unused
  predict last_hzs hzs_len npre_max before = do
    assert (leb hzs_len max_predict_size && ltb 0 hzs_len)
    items ← predict_lengths last_hzs hzs_len (max_predict_size + 1 - hzs_len) 1 npre_max
    unused before items
