-- ===== src/DecoderService.antt =====
-- src/pinyin_decoder_service.cpp: the wrapper of the decoding engine. The engine, `MatrixSearch` of
-- src/share/matrixsearch.cpp, is an interface here: a type of states and its operations.
use scim_googlepinyin.Prelude.{
  ℕ, zero, suc, ◌+◌, ◌-◌, ◌≡◌, refl, Bool, List, [], ◌∷◌, Option, none, some, arith, ltb, ◌==◌,
  if◌then◌else◌, length, take, drop,
}
use scim_googlepinyin.Prelude.Errors.{◌>>=◌}
use scim_googlepinyin.Prelude.Int.{ℤ, pos, negsuc}

-- A string is the list of its codes, without the final NUL. `get_spl_start` returns the buffer of
-- starting positions with its length, and `get_pystr` the pinyin with its decoded length. `choose` reads
-- the item of the candidate and asserts what it finds: it faults on a number that is not a candidate's.
-- `get_predicts` fills as many buffers as the number that it gives.
pub record MatrixSearch (S : Type 0) : Type 0 where
  pub search : S → List ℕ → S
  pub reset_search : S → S
  pub delsearch : S → ℕ → Bool → Bool → S
  pub choose : S → ℕ → Option (S × ℕ)
  pub get_candidate_num : S → ℕ
  pub get_candidate : S → ℕ → ℕ → Option (List ℕ)
  pub get_spl_start : S → List ℕ × ℕ
  pub get_pystr : S → List ℕ × ℕ
  pub get_fixedlen : S → ℕ
  pub get_predicts : S → List ℕ → ℕ → ℕ

pub record PinyinDecoderService (S : Type 0) : Type 0 where
  pub matrix_search : S
  pub predict_len : ℕ

abbrev pub max_predict_size : ℕ
max_predict_size = 7

abbrev pub ret_buf_len : ℕ
ret_buf_len = 256

module _ {S : Type 0} (m : MatrixSearch S) (v : PinyinDecoderService S) where
  unfoldable pub search : List ℕ → PinyinDecoderService S × ℕ
  search spelling_str =
      let s = m.search v.matrix_search spelling_str in
      (record v { matrix_search = s }, m.get_candidate_num s)

  unfoldable pub reset_search : PinyinDecoderService S
  reset_search = record v { matrix_search = m.reset_search v.matrix_search }

  unfoldable pub del_search : ℕ → Bool → Bool → PinyinDecoderService S × ℕ
  del_search at is_pos_in_splid clear_fixed_this_step =
      let s = m.delsearch v.matrix_search at is_pos_in_splid clear_fixed_this_step in
      (record v { matrix_search = s }, m.get_candidate_num s)

  unfoldable pub choose : ℕ → Option (PinyinDecoderService S × ℕ)
  choose choice = do
    (s, n) ← m.choose v.matrix_search choice
    some (record v { matrix_search = s }, n)

  -- Element 0 of the result holds the length; then come the `len + 1` positions of the buffer.
  unfoldable pub get_spelling_start : List ℕ
  get_spelling_start =
      let (spelling_start, len) = m.get_spl_start v.matrix_search in
      len ∷ take (len + 1) spelling_start

  -- Only the last `max_predict_size` characters are kept as the history. The pointer to the buffers is
  -- NULL and stays so: to write a prediction to them is a fault.
  unfoldable pub get_predict_num : List ℕ → Option (PinyinDecoderService S × ℕ)
  get_predict_num fixed_str =
      let fixed_len = length fixed_str in
      let fixed_buf =
        if ltb max_predict_size fixed_len
        then drop (fixed_len - max_predict_size) fixed_str
        else fixed_str in
      let len = m.get_predicts v.matrix_search fixed_buf max_predict_size in
      if len == 0 then some (record v { predict_len = 0 }, 0) else none

  -- A negative or too large number gives the empty string, and any other reads through the NULL.
  unfoldable pub get_predict_item : ℤ → Option (List ℕ)
  get_predict_item (negsuc n) = some []
  get_predict_item (pos n) = if ltb n v.predict_len then none else some []

  unfoldable pub get_predict_list : ℕ → ℕ → Option (List (List ℕ))
  get_predict_list start zero = some []
  get_predict_list start (suc num) = do
    item ← get_predict_item (pos start)
    rest ← get_predict_list (start + 1) num
    some (item ∷ rest)

  unfoldable pub get_choice : ℕ → List ℕ
  get_choice index = elim (m.get_candidate v.matrix_search index ret_buf_len) [
    | none ↦ []
    | some str ↦ str
  ]

  -- `num` rounds from `start`; a negative number of rounds makes none, as 0 does.
  unfoldable pub get_choice_list : ℕ → ℕ → List (List ℕ)
  get_choice_list start zero = []
  get_choice_list start (suc num) = get_choice start ∷ get_choice_list (start + 1) num

  unfoldable pub get_fixed_len : ℕ
  get_fixed_len = m.get_fixedlen v.matrix_search

  unfoldable pub get_py_str : Bool → List ℕ
  get_py_str decoded =
      let (py, py_len) = m.get_pystr v.matrix_search in
      take (if decoded then py_len else length py) py

  -- The list has the requested number of strings.
  pub length-get_choice_list : (start num : ℕ) → length (get_choice_list start num) ≡ num
  unfolding get_choice_list
  length-get_choice_list start zero = refl
  length-get_choice_list start (suc num) = omega (arith, length-get_choice_list (start + 1) num)
