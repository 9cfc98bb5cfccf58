-- ===== src/Spelling/Build.antt =====
-- src/share/spellingtrie.cpp: `construct`, which builds the trie from the table of spellings, without
-- the parts for the builder of the dictionary (`___BUILD_MODEL___`).
use scim_googlepinyin.Prelude.{
  ℕ, zero, suc, ◌+◌, ◌-◌, ◌%◌, ◌^◌, Bool, true, false, not, ◌&&◌, ◌||◌, List, [], ◌∷◌, ◌++◌, Option,
  none, some, ltb, leb, ◌==◌, if◌then◌else◌, length, get_elem?, set,
}
use scim_googlepinyin.Prelude.Errors.{◌>>=◌, ◌>>◌, assert}
use scim_googlepinyin.Spelling.Base.{
  SpellingNode, node, Sons, no_son, son, SpellingTrie, full_spl_id_start,
}
use scim_googlepinyin.Spelling.Flags.{
  is_valid_spl_char, is_szm_char, szm_is_enabled, szm_enable_shm, szm_enable_ym, char_flags,
}
use scim_googlepinyin.Spelling.Ids.{build_f2h}

-- What `construct_spellings_subset` leaves in the parent, where it does not return NULL.
pub record Subset : Type 0 where
  pub sons : Sons
  pub score : ℕ

-- The variables of the second loop; `nodes` are the sons that are finished, `last_start` is the first
-- spelling of the group that begins at `item_start_next`.
pub record Group : Type 0 where
  pub last_start : List ℕ
  pub char_for_node : ℕ
  pub spelling_endable : Bool
  pub item_start_next : ℕ
  pub min_son_score : ℕ
  pub nodes : List SpellingNode
  pub trie : SpellingTrie

unfoldable pub to_sons : List SpellingNode → Sons
to_sons [] = no_son
to_sons (n ∷ nodes) = son n (to_sons nodes)

-- The half id of a letter; those of Ch and Sh stand between.
unfoldable pub half_id_of : ℕ → ℕ
half_id_of ch = ch - b'A' + 1 + (if ltb b'C' ch then 1 else 0) + (if ltb b'S' ch then 1 else 0)

-- The half id of Ch, Sh or Zh.
unfoldable pub part_id_of : ℕ → ℕ
part_id_of ch =
    if ch == b'C'
    then b'C' - b'A' + 1 + 1
    else if ch == b'S'
    then b'S' - b'A' + 1 + 2
    else if ch == b'Z'
    then b'Z' - b'A' + 1 + 3
    else 0

-- The half id that a node gets, or 0. The flag that is asked differs for the last group.
unfoldable pub node_half_id : (SpellingTrie → ℕ → Option Bool) → ℕ → Group → Option ℕ
unfolding half_id_of part_id_of
node_half_id is_szm level g =
    if level == 0
    then (do
      szm ← is_szm g.trie g.char_for_node
      some (if szm then half_id_of g.char_for_node else 0))
    else if level == 1 && g.char_for_node == b'h'
    then (do ch_level0 ← get_elem? g.last_start 0; some (part_id_of ch_level0))
    else some 0

-- The range of full ids of a half id.
unfoldable pub put_half_id : ℕ → ℕ → ℕ → SpellingTrie → SpellingTrie
put_half_id half_id num item_start_next t = record t {
  h2f_num = set t.h2f_num half_id (num % 2 ^ 16);
  h2f_start =
      set t.h2f_start half_id
        (if ltb 0 (num % 2 ^ 16) then (item_start_next + full_spl_id_start) % 2 ^ 16 else 0);
}

-- The array of the first level has a place for A to Z.
unfoldable pub put_level1 : ℕ → ℕ → SpellingNode → SpellingTrie → Option SpellingTrie
put_level1 level ch n t =
    if not (level == 0)
    then some t
    else if leb b'A' ch && ltb (ch - b'A') (length t.level1_sons)
    then some (record t { level1_sons = set t.level1_sons (ch - b'A') (some n) })
    else none

-- The score of an endable node is that of its spelling, if that is less.
unfoldable pub less_score : Bool → ℕ → ℕ → ℕ
less_score endable score_this score = if endable && ltb score_this score then score_this else score

-- The sons of a node that goes on; the first spelling is left out where it ends at the node.
unfoldable pub grow_on :
    (ℕ → ℕ → SpellingTrie → Option (Option Subset × SpellingTrie))
    → ℕ
    → Group
    → Bool
    → ℕ
    → Option (Subset × SpellingTrie)
unfolding less_score
grow_on build stop g ends score_this = do
  (built, t) ← build (g.item_start_next + (if ends then 1 else 0)) stop g.trie
  let below : Subset = elim built [ some s ↦ s | none ↦ record { sons = no_son; score = 0 } ]
  some (record below { score = less_score ends score_this below.score }, t)

-- The sons of the node, and its score. `build` is the recursive call.
unfoldable pub grow :
    (ℕ → ℕ → SpellingTrie → Option (Option Subset × SpellingTrie))
    → ℕ
    → ℕ
    → Group
    → Option (Subset × SpellingTrie)
unfolding grow_on
grow build level stop g = do
  next ← get_elem? g.last_start (level + 1)
  score_this ← get_elem? g.last_start (g.trie.spelling_size - 1)
  if not (next == 0) || ltb 1 (stop - g.item_start_next)
      then grow_on build stop g (next == 0) score_this
      else some (record { sons = no_son; score = score_this }, g.trie)

-- The node of a group that ends before `stop`.
unfoldable pub close_group :
    (ℕ → ℕ → SpellingTrie → Option (Option Subset × SpellingTrie))
    → (SpellingTrie → ℕ → Option Bool)
    → ℕ
    → ℕ
    → Group
    → Option Group
unfolding grow node_half_id put_half_id put_level1
close_group build is_szm level stop g = do
  (below, t) ← grow build level stop g
  half_id ← node_half_id is_szm level g
  let full_id = if g.spelling_endable then full_spl_id_start + g.item_start_next else 0
  let n =
      node (if half_id == 0 then full_id % 2 ^ 11 else half_id) g.char_for_node below.score
        below.sons
  let t' =
      if half_id == 0 then t else put_half_id half_id (stop - g.item_start_next) g.item_start_next t
  t'' ← put_level1 level g.char_for_node n t'
  some (record g {
    nodes = g.nodes ++ n ∷ [];
    min_son_score = if ltb below.score g.min_son_score then below.score else g.min_son_score;
    trie = t'';
  })

-- The group that begins at the spelling `i`.
unfoldable pub begin_group : List ℕ → ℕ → ℕ → Group → Option Group
begin_group spelling level i g = do
  ch ← get_elem? spelling level
  next ← get_elem? spelling (level + 1)
  some (record g {
    last_start = spelling;
    char_for_node = ch;
    spelling_endable = next == 0;
    item_start_next = i;
  })

-- The second loop, with `rounds` spellings to go.
unfoldable pub group_loop :
    (ℕ → ℕ → SpellingTrie → Option (Option Subset × SpellingTrie))
    → ℕ
    → ℕ
    → ℕ
    → Group
    → Option Group
unfolding close_group begin_group
group_loop build level zero i g = some g
group_loop build level (suc rounds) i g = do
  spelling ← get_elem? g.trie.spelling_buf i
  ch ← get_elem? spelling level
  assert (is_valid_spl_char ch)
  g' ←
      if ch == g.char_for_node
      then some g
      else close_group build is_szm_char level i g >>= begin_group spelling level i
  group_loop build level rounds (i + 1) g'

-- The recursion goes down to `spelling_size` levels; the first loop, which counts the sons for their
-- array, is left out, since a list grows.
unfoldable pub construct_spellings_subset :
    ℕ → ℕ → ℕ → ℕ → SpellingTrie → Option (Option Subset × SpellingTrie)
unfolding close_group begin_group group_loop to_sons
construct_spellings_subset zero level item_start item_end t = none
construct_spellings_subset (suc fuel) level item_start item_end t =
    if leb t.spelling_size level || leb item_end item_start then some (none, t) else do
      spelling ← get_elem? t.spelling_buf item_start
      ch ← get_elem? spelling level
      next ← get_elem? spelling (level + 1)
      assert ((leb b'A' ch && leb ch b'Z') || ch == b'h')
      let first : Group = record {
        last_start = spelling;
        char_for_node = ch;
        spelling_endable = next == 0;
        item_start_next = item_start;
        min_son_score = 255;
        nodes = [];
        trie = t;
      }
      let build = construct_spellings_subset fuel (level + 1)
      g ← group_loop build level (item_end - item_start - 1) (item_start + 1) first
      last ← close_group build szm_is_enabled level item_end g
      some (some (record { sons = to_sons last.nodes; score = last.min_son_score }), last.trie)

replicate : {A : Type 0} → ℕ → A → List A
replicate zero x = []
replicate (suc n) x = x ∷ replicate n x

-- The constructor.
unfoldable pub new_trie : SpellingTrie
unfolding szm_enable_shm szm_enable_ym replicate
new_trie = szm_enable_ym true (
    szm_enable_shm true (record {
      char_flags = char_flags;
      spelling_buf = [];
      spelling_size = 0;
      spelling_num = 0;
      average_score = 0;
      dumb_node = none;
      splitter_node = none;
      root = none;
      level1_sons = replicate 26 none;
      h2f_start = replicate full_spl_id_start 0;
      h2f_num = replicate full_spl_id_start 0;
      f2h = [];
    }))

-- `sort` is `qsort` by `strcmp`, and `uninit` what the new array `f2h_` holds. False is returned if
-- there is no spelling.
unfoldable pub construct :
    (List (List ℕ) → List (List ℕ))
    → List (List ℕ)
    → ℕ
    → ℕ
    → List ℕ
    → SpellingTrie
    → Option (SpellingTrie × Bool)
unfolding construct_spellings_subset replicate
construct sort spelling_arr item_size average_score uninit t = do
  let t' : SpellingTrie = record t {
    h2f_start = replicate full_spl_id_start 0;
    h2f_num = replicate full_spl_id_start 0;
    spelling_buf = sort spelling_arr;
    spelling_size = item_size;
    spelling_num = length spelling_arr;
    average_score = average_score;
    dumb_node = some (node 0 0 average_score no_son);
    splitter_node = some (node 0 0 average_score no_son);
    level1_sons = replicate 26 none;
  }
  (built, t'') ← construct_spellings_subset (suc item_size) 0 0 (length spelling_arr) t'
  elim built [
    | none ↦ some (record t'' { root = some (node 0 0 0 no_son) }, false)
    | some s ↦ do
      done ← build_f2h (record t'' { root = some (node 0 0 0 s.sons) }) uninit
      some (done, true)
  ]
