-- ===== src/Spelling/Queries.antt =====
-- src/share/splparser.cpp: the parser with full ids, and the functions that ask for one spelling.
use scim_googlepinyin.Prelude.{
  ℕ, Bool, true, false, ◌&&◌, List, [], ◌∷◌, Option, none, some, leb, ◌==◌, if◌then◌else◌, length,
  get_elem?,
}
use scim_googlepinyin.Prelude.Errors.{◌>>=◌}
use scim_googlepinyin.Spelling.Base.{SpellingTrie, full_spl_id_start}
use scim_googlepinyin.Spelling.Flags.{is_valid_spl_char}
use scim_googlepinyin.Spelling.Ids.{is_half_id_yunmu, half_to_full}
use scim_googlepinyin.Spelling.Parser.{Parsed, splstr_to_idxs}

-- `half_to_full(id, &id)`: the first full id, where there is one to fill in.
unfoldable pub first_full : SpellingTrie → ℕ → Option ℕ
first_full t id = do full ← half_to_full t id; some (elim full.0 [ some start ↦ start | none ↦ id ])

-- The loop over the ids. When the last one is changed, it is no prefix.
unfoldable pub yunmus_to_full : SpellingTrie → List ℕ → Bool → Option (List ℕ × Bool)
unfolding first_full
yunmus_to_full t [] last_is_pre = some ([], last_is_pre)
yunmus_to_full t (id ∷ ids) last_is_pre = do
  yunmu ← is_half_id_yunmu t id
  id' ← if yunmu then first_full t id else some id
  rest ← yunmus_to_full t ids (if yunmu && length ids == 0 then false else last_is_pre)
  some (id' ∷ rest.0, rest.1)

unfoldable pub splstr_to_idxs_f : SpellingTrie → List ℕ → ℕ → ℕ → Bool → Option Parsed
unfolding splstr_to_idxs yunmus_to_full
splstr_to_idxs_f t splstr str_len max_size last_is_pre = do
  p ← splstr_to_idxs t splstr str_len max_size last_is_pre
  full ← yunmus_to_full t p.spl_idx p.last_is_pre
  some (record p { spl_idx = full.0; last_is_pre = full.1 })

-- The only id, where the spelling ends at the end of the string.
unfoldable pub whole_id : Parsed → ℕ → Option ℕ
whole_id p str_len = do
  end ← get_elem? p.start_pos 1
  id ← get_elem? p.spl_idx 0
  some (if end == str_len then id else 0)

-- The one spelling that is the whole string, if it is one; 0 if it is not.
unfoldable pub get_splid_by_str : SpellingTrie → List ℕ → ℕ → Bool → Option (ℕ × Bool)
unfolding splstr_to_idxs whole_id
get_splid_by_str t splstr str_len is_pre = do
  p ← splstr_to_idxs t splstr str_len 2 is_pre
  id ← if length p.spl_idx == 1 then whole_id p str_len else some 0
  some (id, p.last_is_pre)

unfoldable pub get_splid_by_str_f : SpellingTrie → List ℕ → ℕ → Bool → Option (ℕ × Bool)
unfolding splstr_to_idxs
get_splid_by_str_f t splstr str_len is_pre = do
  (id, pre) ← get_splid_by_str t splstr str_len is_pre
  yunmu ← is_half_id_yunmu t id
  id' ← if yunmu then first_full t id else some id
  some (id', if yunmu then false else pre)

-- The id, if one was found, and `full_id_num` and `is_pre` as they are set.
pub record Parallel : Type 0 where
  pub splid : Option ℕ
  pub full_id_num : ℕ
  pub is_pre : Bool

unfoldable pub parallel_result : ℕ → Bool → Parallel
parallel_result id pre =
    if id == 0 then record { splid = none; full_id_num = 0; is_pre = pre } else record {
      splid = some id;
      full_id_num = if leb full_spl_id_start id then 1 else 0;
      is_pre = pre;
    }

unfoldable pub get_splids_parallel : SpellingTrie → List ℕ → ℕ → ℕ → ℕ → Bool → Option Parallel
unfolding get_splid_by_str parallel_result
get_splids_parallel t splstr str_len max_size full_id_num is_pre =
    if max_size == 0
    then some (record { splid = none; full_id_num = full_id_num; is_pre = is_pre })
    else do
      ch ← get_elem? splstr 0
      elim (is_valid_spl_char ch) [
        | false ↦ some (record { splid = none; full_id_num = full_id_num; is_pre = is_pre })
        | true ↦ do
          (id, pre) ← get_splid_by_str t splstr str_len is_pre
          some (parallel_result id pre)
      ]
