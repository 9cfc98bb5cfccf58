-- ===== src/Tests/Pinyin.antt =====
-- A trie of six spellings, and what the parser makes of strings with it.
use scim_googlepinyin.Prelude.{
  ℕ, zero, suc, ◌+◌, ◌≤◌, ◌<◌, ◌≡◌, ◌≢◌, refl, Bool, true, false, List, [], ◌∷◌, none, some, arith,
  length, get_elem?, take, ◌↔◌, ◌||◌, not, ltb, leb, ◌&&◌, ◌==◌, ltb→lt,
}
use scim_googlepinyin.Spelling.Base.{SpellingNode, node, no_son, SpellingTrie}
use scim_googlepinyin.Spelling.Build.{construct, new_trie}
use scim_googlepinyin.Spelling.Parser.{Parsed, splstr_to_idxs, find_son}
use scim_googlepinyin.Spelling.Flags.{
  is_szm_char, szm_is_enabled, is_shengmu_char, is_yunmu_char, szm_enable_shm, szm_enable_ym,
  has_flag, half_id_szm_mask, half_id_yunmu_mask, is_same_spl_char, is_valid_spl_char,
}
use scim_googlepinyin.Spelling.Ids.{
  full_to_half, build_f2h, map_half_ids, map_full_ids, if_valid_id_update,
}
use scim_googlepinyin.Spelling.Queries.{get_splid_by_str}
use scim_googlepinyin.Spelling.Szm.{
  AreBytes, EnablesSzm, szm_enable_shm-EnablesSzm, szm_enable_ym-EnablesSzm,
}
use scim_googlepinyin.Spelling.Index.{found_from, all_capital}
use scim_googlepinyin.Spelling.Usable.{IsUsable, all, enabled-has_ids, all-get_elem?}
use scim_googlepinyin.Spelling.Parse.{Result, splstr_to_idxs-Result}
use scim_googlepinyin.Spelling.Whole.{IsOne, get_splid_by_str-IsOne}
use scim_googlepinyin.Spelling.FullToHalf.{
  IsOf, IsRanged, full_to_half-build_f2h, full_to_half-eq-none,
}

-- A, AI, LI, NI, Zh with a score each; the table is sorted already.
abbrev pub table : List (List ℕ)
table =
    (b'A' ∷ 0 ∷ 0 ∷ 0 ∷ 1 ∷ [])
    ∷ (b'A' ∷ b'I' ∷ 0 ∷ 0 ∷ 2 ∷ [])
    ∷ (b'L' ∷ b'I' ∷ 0 ∷ 0 ∷ 3 ∷ [])
    ∷ (b'N' ∷ b'I' ∷ 0 ∷ 0 ∷ 4 ∷ [])
    ∷ (b'Z' ∷ b'A' ∷ 0 ∷ 0 ∷ 5 ∷ [])
    ∷ (b'Z' ∷ b'h' ∷ b'E' ∷ 0 ∷ 6 ∷ [])
    ∷ []

trie : SpellingTrie
unfolding construct new_trie is_valid_spl_char is_szm_char szm_is_enabled has_flag build_f2h
    map_half_ids map_full_ids
trie = elim (construct (λ x. x) table 5 10 (0 ∷ 0 ∷ 0 ∷ 0 ∷ 0 ∷ 0 ∷ []) new_trie) [
  | some (t, done) ↦ t
  | none ↦ new_trie
]

root : SpellingNode
unfolding trie
root = elim trie.root [ some n ↦ n | none ↦ node 0 0 0 no_son ]

trie-IsUsable : IsUsable trie root
unfolding trie root all_capital found_from find_son is_same_spl_char all has_flag
trie-IsUsable = record {
  flags_size = refl;
  h2f_start_size = refl;
  h2f_num_size = refl;
  yunmu_has_ids = λ id ch num e off yunmu n. absurd (enabled-has_ids trie ch all_enabled off yunmu);
  root_there = refl;
  root_no_id = refl;
  capital = refl;
  indexed = refl;
}
  where
    all_enabled :
        all
          (λ f. not (has_flag half_id_yunmu_mask f) || has_flag half_id_szm_mask f)
          trie.char_flags
        ≡ true
    all_enabled = refl

-- Each range that is not empty lies between 30 and 36.
ranges_within : List ℕ → List ℕ → Bool
ranges_within (s ∷ starts) (n ∷ nums) =
    (n == 0 || leb 30 s && leb (s + n) 36) && ranges_within starts nums
ranges_within starts nums = true

ranges_within-le :
    (starts nums : List ℕ) (i s n : ℕ)
    → ranges_within starts nums ≡ true
    → get_elem? starts i ≡ some s
    → get_elem? nums i ≡ some n
    → 0 < n
    → (30 ≤ s) × (s + n ≤ 36)
unfolding ranges_within
ranges_within-le [] nums i s n h e f p = cc
ranges_within-le (x ∷ starts) [] i s n h e f p = cc
ranges_within-le (x ∷ starts) (y ∷ nums) zero s n h e f p = ground arith
ranges_within-le (x ∷ starts) (y ∷ nums) (suc i) s n h e f p =
    ranges_within-le starts nums i s n (ground arith) e f p

trie-IsRanged : IsRanged trie
unfolding trie ranges_within
trie-IsRanged = record {
  starts = refl;
  nums = refl;
  ranged = λ hid start num es en p.
      ranges_within-le trie.h2f_start trie.h2f_num hid start num refl es en p;
}

-- `nizhe'a`, in any case, is `NI`, `ZhE` and the half id of `A`.
abbrev nizhea : List ℕ
nizhea = b'n' ∷ b'i' ∷ b'Z' ∷ b'h' ∷ b'e' ∷ b'\'' ∷ b'a' ∷ []

parse_nizhea :
    splstr_to_idxs trie nizhea 7 8 false
    ≡ some
        (record { spl_idx = 33 ∷ 35 ∷ 1 ∷ []; start_pos = 0 ∷ 2 ∷ 6 ∷ 7 ∷ []; last_is_pre = true })
unfolding splstr_to_idxs trie if_valid_id_update is_valid_spl_char is_same_spl_char
parse_nizhea = refl

splstr_to_idxs-Result_example :
    (p : Parsed) × (splstr_to_idxs trie nizhea 7 8 false ≡ some p)
    × Result trie root trie-IsUsable nizhea 7 8 (omega arith) p
unfolding is_valid_spl_char
splstr_to_idxs-Result_example =
    splstr_to_idxs-Result trie root trie-IsUsable nizhea 7 8 (omega arith) false
      (b'n', omega arith, omega arith, refl, refl)

get_splid_by_str-IsOne_example :
    (id : ℕ) × (pre : Bool) × (get_splid_by_str trie nizhea 2 false ≡ some (id, pre))
    × (id ≢ 0 → IsOne trie root (take 2 nizhea) id)
get_splid_by_str-IsOne_example =
    get_splid_by_str-IsOne trie root trie-IsUsable nizhea 2 (omega arith) false

full_to_half-eq-none_example : (full_to_half trie 36 ≡ none) ↔ (36 ≡ 30 + trie.spelling_num)
unfolding trie root
full_to_half-eq-none_example = full_to_half-eq-none trie root 36 refl refl

new_trie-AreBytes : AreBytes new_trie
unfolding new_trie all has_flag
new_trie-AreBytes i f e = ltb→lt _ _ (all-get_elem? (λ x. ltb x 256) new_trie.char_flags i f refl e)

szm_enable_shm-EnablesSzm_example :
    EnablesSzm is_shengmu_char false new_trie (szm_enable_shm false new_trie) b'B'
szm_enable_shm-EnablesSzm_example = szm_enable_shm-EnablesSzm new_trie false b'B' new_trie-AreBytes

szm_enable_ym-EnablesSzm_example :
    EnablesSzm is_yunmu_char false new_trie (szm_enable_ym false new_trie) b'A'
szm_enable_ym-EnablesSzm_example = szm_enable_ym-EnablesSzm new_trie false b'A' new_trie-AreBytes

full_to_half-build_f2h_example :
    (f2h : List ℕ) × (build_f2h trie (0 ∷ 0 ∷ 0 ∷ 0 ∷ 0 ∷ 0 ∷ [])
      ≡ some (record trie { f2h = f2h }))
    × (length f2h ≡ trie.spelling_num)
    × ((full_id half_id : ℕ)
        → 30 ≤ full_id
        → full_id < 30 + trie.spelling_num
        → half_id < 30
        → IsOf trie half_id full_id
        → ((later : ℕ) → half_id < later → later < 30 → ¬ IsOf trie later full_id)
        → full_to_half (record trie { f2h = f2h }) full_id ≡ some half_id)
unfolding trie root
full_to_half-build_f2h_example =
    full_to_half-build_f2h trie (0 ∷ 0 ∷ 0 ∷ 0 ∷ 0 ∷ 0 ∷ []) root trie-IsRanged refl refl
