-- ===== src/Spelling/Base.antt =====
-- src/include/spellingtrie.h: the data of the trie of spellings, and the table of half ids.
use scim_googlepinyin.Prelude.{ℕ, List, [], ◌∷◌, Option}

-- `SpellingNode`, with its sons in the order of the array at `first_son`.
mutual
  pub data SpellingNode : Type 0 where
    node : (spelling_idx char_this_node score : ℕ) → Sons → SpellingNode

  pub data Sons : Type 0 where
    no_son : Sons
    son : SpellingNode → Sons → Sons

abbrev pub full_spl_id_start : ℕ
full_spl_id_start = 30

-- `level1_sons_` has a place for each letter, and `f2h_` one for each full id. `root` is `none`
-- before the trie was constructed.
pub record SpellingTrie : Type 0 where
  pub char_flags : List ℕ
  pub spelling_buf : List (List ℕ)
  pub spelling_size : ℕ
  pub spelling_num : ℕ
  pub average_score : ℕ
  pub dumb_node : Option SpellingNode
  pub splitter_node : Option SpellingNode
  pub root : Option SpellingNode
  pub level1_sons : List (Option SpellingNode)
  pub h2f_start : List ℕ
  pub h2f_num : List ℕ
  pub f2h : List ℕ

-- From half ids to characters; z, c and s stand for Zh, Ch and Sh.
abbrev pub half_id2sc : List ℕ
half_id2sc =
    b'0' ∷ b'A' ∷ b'B' ∷ b'C' ∷ b'c' ∷ b'D' ∷ b'E' ∷ b'F' ∷ b'G' ∷ b'H' ∷ b'I' ∷ b'J' ∷ b'K' ∷ b'L'
    ∷ b'M' ∷ b'N' ∷ b'O' ∷ b'P' ∷ b'Q' ∷ b'R' ∷ b'S' ∷ b's' ∷ b'T' ∷ b'U' ∷ b'V' ∷ b'W' ∷ b'X'
    ∷ b'Y' ∷ b'Z' ∷ b'z' ∷ 0 ∷ []
