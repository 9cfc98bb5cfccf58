-- ===== src/Spelling/Cuts.antt =====
-- What it means that a text is cut into spellings: each is a word that leads through the trie to a
-- valid id, and splitters may stand behind it.
use scim_googlepinyin.Prelude.{
  ℕ, suc, ◌+◌, ◌<◌, ◌≡◌, ◌≢◌, refl, Bool, true, false, ◌&&◌, List, [], ◌∷◌, ◌++◌, Option, none,
  some, arith, length, take, length-append, length-take, get_elem?, ◌⊎◌, Option-cases, inl, inr,
}
use scim_googlepinyin.Prelude.Errors.{◌>>=◌}
use scim_googlepinyin.Spelling.Base.{SpellingNode, SpellingTrie}
use scim_googlepinyin.Spelling.Flags.{is_valid_spl_char}
use scim_googlepinyin.Spelling.Ids.{if_valid_id_update}
use scim_googlepinyin.Spelling.Parser.{spelling_idx, sons_of, find_son}

-- Where a word leads from a node.
pub walk : SpellingNode → List ℕ → Option SpellingNode
walk n [] = some n
walk n (ch ∷ word) = find_son (sons_of n) ch >>= λ next. walk next word

pub all_letters : List ℕ → Bool
all_letters [] = true
all_letters (ch ∷ word) = is_valid_spl_char ch && all_letters word

pub walk_nil : (n : SpellingNode) → walk n [] ≡ some n
unfolding walk
walk_nil n = refl

pub walk-append :
    (n m next : SpellingNode) (word : List ℕ) (ch : ℕ)
    → walk n word ≡ some m
    → find_son (sons_of m) ch ≡ some next
    → walk n (word ++ ch ∷ []) ≡ some next
unfolding walk
walk-append n m next [] ch e f = ground (arith)
walk-append n m next (c ∷ word) ch e f = elim (Option-cases (find_son (sons_of n) c)) [
  | inl lost ↦ ground (arith, lost)
  | inr (x, found) ↦ rw found (walk-append x m next word ch (rw found at e) f)
]

pub all_letters-append :
    (word : List ℕ) (ch : ℕ)
    → all_letters word ≡ true
    → is_valid_spl_char ch ≡ true
    → all_letters (word ++ ch ∷ []) ≡ true
unfolding all_letters
all_letters-append [] ch e f = rw f
all_letters-append (c ∷ word) ch e f = ground (arith, all_letters-append word ch)

pub all_letters_nil : all_letters [] ≡ true
unfolding all_letters
all_letters_nil = refl

module _ (t : SpellingTrie) (root : SpellingNode) where
  -- The word is a spelling of that id.
  pub record Spells (word : List ℕ) (id : ℕ) : Type 0 where
    pub not_empty : word ≢ []
    pub letters : all_letters word ≡ true
    pub last_node : SpellingNode
    pub leads : walk root word ≡ some last_node
    pub valid : if_valid_id_update t (spelling_idx last_node) ≡ some (some id)

  -- The text, the ids of its spellings, and where each starts, with the end of the text.
  pub data Cuts : List ℕ → List ℕ → List ℕ → Type 0 where
    nothing : Cuts [] [] (0 ∷ [])
    spelling :
        {text ids starts : List ℕ} (word : List ℕ) (id : ℕ)
        → Cuts text ids starts
        → Spells word id
        → Cuts (text ++ word) (ids ++ id ∷ []) (starts ++ length (text ++ word) ∷ [])
    splitter :
        {text ids starts : List ℕ} (ch : ℕ)
        → Cuts text ids starts
        → is_valid_spl_char ch ≡ false
        → 0 < length ids
        → Cuts (text ++ ch ∷ []) ids (take (length ids) starts ++ length (text ++ ch ∷ []) ∷ [])

  -- There is one start more than there are ids.
  pub Cuts-length :
      {text ids starts : List ℕ} → Cuts text ids starts → length starts ≡ suc (length ids)
  Cuts-length nothing = refl
  Cuts-length (spelling {text} {ids} {starts} word id c s) = omega (
    arith,
    Cuts-length c,
    length-append ids (id ∷ []),
    length-append starts (length (text ++ word) ∷ []),
  )
  Cuts-length (splitter {text} {ids} {starts} ch c s h) = omega (
    arith,
    Cuts-length c,
    length-append (take (length ids) starts) (length (text ++ ch ∷ []) ∷ []),
    length-take (length ids) starts,
  )

  -- Why the cutting ended with `word` left over: there are as many ids as may be, the string is
  -- used up, or the word is no spelling and does not go on.
  pub data Ending (splstr : List ℕ) (str_len max_size : ℕ) (text word ids : List ℕ) : Type 0 where
    full : length ids ≡ max_size → Ending splstr str_len max_size text word ids
    used_up : length text ≡ str_len → Ending splstr str_len max_size text word ids
    stuck :
        (n : SpellingNode)
        → walk root word ≡ some n
        → if_valid_id_update t (spelling_idx n) ≡ some none
        → (length text + length word ≡ str_len)
          ⊎ ((ch : ℕ) × (get_elem? splstr (length text + length word) ≡ some ch)
              × ((is_valid_spl_char ch ≡ false) ⊎ (find_son (sons_of n) ch ≡ none)))
        → Ending splstr str_len max_size text word ids
