-- ===== src/SearchUtility.antt =====
-- src/share/searchutility.cpp: the items of the searches, the orders that they are sorted by, and the
-- removal of predictions that occur twice.
pub mod Orders
pub mod Duplicates
use scim_googlepinyin.Prelude.{
  ℕ, zero, suc, ◌+◌, ◌-◌, ◌*◌, ◌/◌, Bool, true, false, not, ◌&&◌, List, [], ◌∷◌, Option, none, some,
  ltb, leb, ◌==◌, if◌then◌else◌, length, get_elem?, set,
}
use scim_googlepinyin.Prelude.Errors.{◌>>=◌}
use scim_googlepinyin.Prelude.Int.{ℤ, pos, negsuc}
use scim_googlepinyin.Utf16.{utf16_strcmp, utf16_strncmp}

abbrev pub sys_dict_id_end : ℕ
sys_dict_id_end = 500000

abbrev pub user_dict_id_start : ℕ
user_dict_id_start = 500001

abbrev pub user_dict_id_end : ℕ
user_dict_id_end = 600000

abbrev pub lemma_id_composing : ℕ
lemma_id_composing = 0xffffff

abbrev pub max_predict_size : ℕ
max_predict_size = 7

unfoldable pub is_system_lemma : ℕ → Bool
is_system_lemma lma_id = ltb 0 lma_id && leb lma_id sys_dict_id_end

unfoldable pub is_user_lemma : ℕ → Bool
is_user_lemma lma_id = leb user_dict_id_start lma_id && leb lma_id user_dict_id_end

unfoldable pub is_composing_lemma : ℕ → Bool
is_composing_lemma lma_id = lemma_id_composing == lma_id

pub record LmaPsbItem : Type 0 where
  pub id : ℕ
  pub lma_len : ℕ
  pub psb : ℕ
  pub hanzi : ℕ

pub record LmaPsbStrItem : Type 0 where
  pub lpi : LmaPsbItem
  pub str : List ℕ

-- -1, 1 or 0.
unfoldable pub three_way : ℕ → ℕ → ℤ
three_way a b = if ltb a b then negsuc 0 else if ltb b a then pos 1 else pos 0

unfoldable pub cmp_lpi_with_psb : LmaPsbItem → LmaPsbItem → ℤ
unfolding three_way
cmp_lpi_with_psb p1 p2 = three_way p1.psb p2.psb

-- The scores divided by the lengths, with the lengths multiplied across.
unfoldable pub cmp_lpi_with_unified_psb : LmaPsbItem → LmaPsbItem → ℤ
unfolding three_way
cmp_lpi_with_unified_psb p1 p2 = three_way (p1.psb * p2.lma_len) (p2.psb * p1.lma_len)

unfoldable pub cmp_lpi_with_id : LmaPsbItem → LmaPsbItem → ℤ
unfolding three_way
cmp_lpi_with_id p1 p2 = three_way p1.id p2.id

unfoldable pub cmp_lpi_with_hanzi : LmaPsbItem → LmaPsbItem → ℤ
unfolding three_way
cmp_lpi_with_hanzi p1 p2 = three_way p1.hanzi p2.hanzi

unfoldable pub cmp_lpsi_with_str : LmaPsbStrItem → LmaPsbStrItem → Option ℤ
unfolding utf16_strcmp
cmp_lpsi_with_str p1 p2 = utf16_strcmp p1.str p2.str

unfoldable pub cmp_hanzis_1 : List ℕ → List ℕ → Option ℤ
unfolding three_way
cmp_hanzis_1 p1 p2 = do a ← get_elem? p1 0; b ← get_elem? p2 0; some (three_way a b)

-- `cmp_hanzis_2` to `cmp_hanzis_8`, which differ in the number of characters.
unfoldable pub cmp_hanzis : ℕ → List ℕ → List ℕ → Option ℤ
unfolding utf16_strncmp
cmp_hanzis size p1 p2 = utf16_strncmp p1 p2 size

unfoldable pub is_zero : ℤ → Bool
is_zero (pos zero) = true
is_zero (pos (suc n)) = false
is_zero (negsuc n) = false

-- The scores of predictions are floating point numbers, of which only the order is used.
pub record NPredictItem (F : Type 0) : Type 0 where
  pub psb : F
  pub pre_hzs : List ℕ
  pub his_len : ℕ

module _ {F : Type 0} (less : F → F → Bool) where
  unfoldable pub cmp_npre_by_score : NPredictItem F → NPredictItem F → ℤ
  cmp_npre_by_score p1 p2 =
      if less p2.psb p1.psb then pos 1 else if less p1.psb p2.psb then negsuc 0 else pos 0

  -- The longer history first.
  unfoldable pub cmp_npre_by_hislen_score : NPredictItem F → NPredictItem F → ℤ
  unfolding cmp_npre_by_score
  cmp_npre_by_hislen_score p1 p2 =
      if ltb p1.his_len p2.his_len
      then pos 1
      else if ltb p2.his_len p1.his_len
      then negsuc 0
      else cmp_npre_by_score p1 p2

  unfoldable pub cmp_npre_by_hanzi_score : NPredictItem F → NPredictItem F → Option ℤ
  unfolding cmp_npre_by_score is_zero utf16_strncmp
  cmp_npre_by_hanzi_score p1 p2 = do
    ret_v ← utf16_strncmp p1.pre_hzs p2.pre_hzs max_predict_size
    some (if is_zero ret_v then cmp_npre_by_score p1 p2 else ret_v)

module _ {F : Type 0} where
  unfoldable pub differ : NPredictItem F → NPredictItem F → Option Bool
  unfolding utf16_strncmp is_zero
  differ a b = do v ← utf16_strncmp a.pre_hzs b.pre_hzs max_predict_size; some (not (is_zero v))

  -- An item that is kept moves to its place, unless it stands there.
  unfoldable pub keep_item : ℕ → ℕ → NPredictItem F → List (NPredictItem F) → List (NPredictItem F)
  keep_item remain_num at item npre_items =
      if remain_num == at then npre_items else set npre_items remain_num item

  -- The loop, with `rounds` items to go.
  unfoldable pub remove_loop :
      ℕ → ℕ → ℕ → List (NPredictItem F) → Option (List (NPredictItem F) × ℕ)
  unfolding differ keep_item
  remove_loop zero at remain_num npre_items = some (npre_items, remain_num)
  remove_loop (suc rounds) at remain_num npre_items = do
    item ← get_elem? npre_items at
    last ← get_elem? npre_items (remain_num - 1)
    new ← differ item last
    remove_loop rounds (at + 1) (if new then remain_num + 1 else remain_num)
        (if new then keep_item remain_num at item npre_items else npre_items)

  -- `sort` is `myqsort` by `cmp_npre_by_hanzi_score`. The array after the call, and the number of items
  -- that remain.
  unfoldable pub remove_duplicate_npre :
      (List (NPredictItem F) → List (NPredictItem F))
      → List (NPredictItem F)
      → Option (List (NPredictItem F) × ℕ)
  unfolding remove_loop
  remove_duplicate_npre sort [] = some ([], 0)
  remove_duplicate_npre sort (x ∷ rest) = remove_loop (length rest) 1 1 (sort (x ∷ rest))

-- `s` is `sizeof(size_t)`.
unfoldable pub align_to_size_t : ℕ → ℕ → ℕ
align_to_size_t s size = (size + s - 1) / s * s
