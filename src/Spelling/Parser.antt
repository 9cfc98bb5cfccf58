-- ===== src/Spelling/Parser.antt =====
-- src/share/splparser.cpp: a string of pinyin letters is cut into spellings. All characters but letters
-- are splitters. The functions on 16-bit characters are the same code.
use scim_googlepinyin.Prelude.{
  ℕ, zero, suc, ◌+◌, ◌-◌, Bool, true, false, not, ◌||◌, List, [], ◌∷◌, ◌++◌, Option, none, some,
  ltb, leb, ◌==◌, if◌then◌else◌, length, get_elem?, take,
}
use scim_googlepinyin.Prelude.Errors.{◌>>=◌}
use scim_googlepinyin.Spelling.Base.{SpellingNode, node, Sons, no_son, son, SpellingTrie}
use scim_googlepinyin.Spelling.Flags.{is_valid_spl_char, is_same_spl_char}
use scim_googlepinyin.Spelling.Ids.{if_valid_id_update}

abbrev pub spelling_idx : SpellingNode → ℕ
spelling_idx (node idx ch score sons) = idx

-- The search through the sons of a node; the first that fits is found.
unfoldable pub find_son : Sons → ℕ → Option SpellingNode
find_son no_son ch = none
find_son (son (node idx this score sons) rest) ch =
    if is_same_spl_char this ch then some (node idx this score sons) else find_son rest ch

abbrev pub sons_of : SpellingNode → Sons
sons_of (node idx ch score sons) = sons

-- The variables of the loop: the arrays hold what was written so far.
pub record Cursor : Type 0 where
  pub node_this : SpellingNode
  pub str_pos : ℕ
  pub spl_idx : List ℕ
  pub start_pos : List ℕ
  pub last_is_splitter : Bool

-- A round of the loop goes on, or returns from the function.
pub data Next : Type 0 where
  go : Cursor → Next
  return_now : Cursor → Next

-- `start_pos[idx_num] = str_pos`, where the array was written up to `idx_num`.
unfoldable pub put_start : ℕ → ℕ → List ℕ → List ℕ
put_start idx_num str_pos start_pos = take idx_num start_pos ++ str_pos ∷ []

-- An id and the position behind it are remembered.
unfoldable pub remember : Cursor → ℕ → ℕ → Cursor
unfolding put_start
remember c id pos = record c {
  spl_idx = c.spl_idx ++ id ∷ [];
  start_pos = put_start (length c.spl_idx + 1) pos c.start_pos;
}

module _ (t : SpellingTrie) (root : SpellingNode) (max_size : ℕ) where
  -- Back to the root after an id was remembered, unless the arrays are full.
  unfoldable pub after_id : Cursor → Next
  after_id c =
      if leb max_size (length c.spl_idx) then return_now c else go (record c { node_this = root })

  unfoldable pub splitter_step : Cursor → Option Next
  unfolding after_id remember
  splitter_step c = do
    valid ← if_valid_id_update t (spelling_idx c.node_this)
    some (elim valid [
      | some id ↦ after_id (
          remember (record c { str_pos = c.str_pos + 1; last_is_splitter = true }) id
            (c.str_pos + 1))
      | none ↦
          if c.last_is_splitter
          then go (record c {
            str_pos = c.str_pos + 1;
            start_pos = put_start (length c.spl_idx) (c.str_pos + 1) c.start_pos;
          })
          else return_now c
    ])

  -- The sons of the root are in an array of their own; a read outside it is a fault.
  unfoldable pub son_at : Cursor → ℕ → Option (Option SpellingNode)
  unfolding find_son
  son_at c ch =
      if c.str_pos == 0
      then get_elem? t.level1_sons (if leb b'a' ch then ch - b'a' else ch - b'A')
      else some (find_son (sons_of c.node_this) ch)

  -- The letter does not go on from here: the spelling ends before it.
  unfoldable pub end_before : Cursor → Option Next
  unfolding after_id remember
  end_before c = do
    valid ← if_valid_id_update t (spelling_idx c.node_this)
    some (elim valid [ some id ↦ after_id (remember c id c.str_pos) | none ↦ return_now c ])

  unfoldable pub letter_step : Cursor → ℕ → Option Next
  unfolding son_at end_before
  letter_step c ch = do
    found ← son_at c ch
    elim found [
      | some next ↦ some (go (record c { node_this = next; str_pos = c.str_pos + 1 }))
      | none ↦ end_before c
    ]

  -- The body of the loop.
  unfoldable pub parse_step : List ℕ → Cursor → Option Next
  unfolding splitter_step letter_step
  parse_step splstr c = do
    ch ← get_elem? splstr c.str_pos
    if is_valid_spl_char ch
        then letter_step (record c { last_is_splitter = false }) ch
        else splitter_step c

  -- The loop, which ends at the end of the string (`go`) or in a return.
  unfoldable pub parse_loop : ℕ → List ℕ → ℕ → Cursor → Option Next
  unfolding parse_step
  parse_loop zero splstr str_len c = none
  parse_loop (suc fuel) splstr str_len c =
      if ltb c.str_pos str_len
      then parse_step splstr c >>= (λ next. elim next [
        | go c' ↦ parse_loop fuel splstr str_len c'
        | return_now c' ↦ some (return_now c')
      ])
      else some (go c)

-- The ids, the starts of the spellings with the end of the last one, and `last_is_pre`.
pub record Parsed : Type 0 where
  pub spl_idx : List ℕ
  pub start_pos : List ℕ
  pub last_is_pre : Bool

-- The id that is not yet remembered at the end of the string.
unfoldable pub remember_last : Cursor → Option ℕ → Cursor
unfolding remember
remember_last c none = c
remember_last c (some id) = remember c id c.str_pos

-- What follows the loop; `last_is_pre` was set to false before it.
unfoldable pub finish : SpellingTrie → Next → Option Parsed
unfolding remember_last
finish t (return_now c) =
    some (record { spl_idx = c.spl_idx; start_pos = c.start_pos; last_is_pre = false })
finish t (go c) = do
  valid ← if_valid_id_update t (spelling_idx c.node_this)
  some (record {
    spl_idx = (remember_last c valid).spl_idx;
    start_pos = (remember_last c valid).start_pos;
    last_is_pre = not c.last_is_splitter;
  })

unfoldable pub first_cursor : SpellingNode → Cursor
first_cursor root = record {
  node_this = root;
  str_pos = 0;
  spl_idx = [];
  start_pos = 0 ∷ [];
  last_is_splitter = false;
}

-- `last_is_pre` is the variable that the caller passes by reference. The fuel is the number of
-- characters and of ids that can be remembered, and one for the last test.
unfoldable pub splstr_to_idxs : SpellingTrie → List ℕ → ℕ → ℕ → Bool → Option Parsed
unfolding parse_loop finish first_cursor
splstr_to_idxs t splstr str_len max_size last_is_pre =
    if max_size == 0 || str_len == 0
    then some (record { spl_idx = []; start_pos = []; last_is_pre = last_is_pre })
    else do
      ch ← get_elem? splstr 0
      root ← t.root
      elim (is_valid_spl_char ch) [
        | false ↦ some (record { spl_idx = []; start_pos = []; last_is_pre = last_is_pre })
        | true ↦
            parse_loop t root max_size (suc (str_len + max_size)) splstr str_len (first_cursor root)
            >>= finish t
      ]
