-- ===== src/Spelling/Usable.antt =====
-- What a trie that was constructed is relied on for, and that its ids can then be tested.
use scim_googlepinyin.Prelude.{
  ℕ, zero, suc, ◌+◌, ◌-◌, ◌≤◌, ◌<◌, ◌≡◌, ap, sym, ◌≢◌, ◌⊎◌, refl, Bool, true, false, ◌&&◌, ◌||◌,
  not, Option-cases, some_inj, List, [], ◌∷◌, Option, none, some, arith, length, get_elem?, take,
  ltb, leb, ◌==◌, inl, inr, Bool-cases, get_elem?-lt, if◌then◌else◌, get_elem?-append_left, leb→le,
  ltb→ge, lt→ltb, ◌∙◌,
}
use scim_googlepinyin.Spelling.Base.{SpellingNode, SpellingTrie, full_spl_id_start, half_id2sc}
use scim_googlepinyin.Spelling.Flags.{
  is_valid_spl_char, is_yunmu_char, szm_is_enabled, flags_of, has_flag, half_id_szm_mask,
  half_id_yunmu_mask,
}
use scim_googlepinyin.Spelling.Ids.{if_valid_id_update, letter_id, first_full_id}
use scim_googlepinyin.Spelling.Index.{
  found_from, all_capital, get_elem?-found_from, find_son-capital,
}
use scim_googlepinyin.Spelling.Parser.{spelling_idx, sons_of, find_son}

-- The arrays have their sizes, a letter that is a spelling has full ids unless it is enabled, the
-- root has no id, its sons are capital letters, and the array of its sons has for each letter the
-- one that a search finds.
pub record IsUsable (t : SpellingTrie) (root : SpellingNode) : Type 0 where
  pub flags_size : length t.char_flags ≡ 26
  pub h2f_start_size : length t.h2f_start ≡ full_spl_id_start
  pub h2f_num_size : length t.h2f_num ≡ full_spl_id_start
  pub yunmu_has_ids :
      (id ch num : ℕ)
      → get_elem? half_id2sc id ≡ some ch
      → szm_is_enabled t ch ≡ some false
      → is_yunmu_char t ch ≡ some true
      → get_elem? t.h2f_num id ≡ some num
      → 0 < num
  pub root_there : t.root ≡ some root
  pub root_no_id : spelling_idx root ≡ 0
  pub capital : all_capital (sons_of root) ≡ true
  pub indexed : t.level1_sons ≡ found_from 26 b'A' (sons_of root)

pub level1-find_son :
    (t : SpellingTrie) (root : SpellingNode)
    → IsUsable t root
    → (ch : ℕ) → is_valid_spl_char ch ≡ true
    → get_elem? t.level1_sons (if leb b'a' ch then ch - b'a' else ch - b'A')
      ≡ some (find_son (sons_of root) ch)
unfolding is_valid_spl_char
level1-find_son t root u ch letter = elim (Bool-cases (leb b'a' ch)) [
  | inl small ↦
      let lo : b'a' ≤ ch = ground arith in
      let hi : ch ≤ b'z' = ground arith in
      let there = get_elem?-found_from 26 b'A' (ch - b'a') (sons_of root) (omega arith) in
      rw (small, u.indexed)
        (there ∙ ap some (sym (find_son-capital (sons_of root) ch u.capital lo hi)))
  | inr large ↦
      let lo : b'A' ≤ ch = ground arith in
      let hi : ch ≤ b'Z' = ground arith in
      let same : b'A' + (ch - b'A') ≡ ch = omega arith in
      let there = get_elem?-found_from 26 b'A' (ch - b'A') (sons_of root) (omega arith) in
      rw (large, u.indexed) (there ∙ ap (λ c. some (find_son (sons_of root) c)) same)
]

unfoldable pub all : (ℕ → Bool) → List ℕ → Bool
all p [] = true
all p (x ∷ xs) = p x && all p xs

pub all-get_elem? :
    (p : ℕ → Bool) (xs : List ℕ) (i x : ℕ) → all p xs ≡ true → get_elem? xs i ≡ some x → p x ≡ true
unfolding all
all-get_elem? p [] i x h e = cc
all-get_elem? p (y ∷ xs) zero x h e = ground arith
all-get_elem? p (y ∷ xs) (suc i) x h e = all-get_elem? p xs i x (ground arith) e

-- Where each letter that is a spelling is enabled, none is asked for full ids.
pub enabled-has_ids :
    (t : SpellingTrie) (ch : ℕ)
    → all (λ f. not (has_flag half_id_yunmu_mask f) || has_flag half_id_szm_mask f) t.char_flags
      ≡ true
    → szm_is_enabled t ch ≡ some false
    → is_yunmu_char t ch ≡ some true
    → ⊥
unfolding szm_is_enabled is_yunmu_char
enabled-has_ids t ch all_on off yunmu = elim (Bool-cases (leb b'A' ch)) [
  | inr small ↦ let lost : ◌≡◌ {A = Option Bool} none (some true) = rw small at yunmu in cc
  | inl large ↦ elim (Option-cases (get_elem? t.char_flags (ch - b'A'))) [
    | inl outside ↦
        let lost : ◌≡◌ {A = Option Bool} none (some true) = rw (large, outside) at yunmu in cc
    | inr (f, e) ↦
        let on = all-get_elem? _ t.char_flags (ch - b'A') f all_on e in
        let is_off : has_flag half_id_szm_mask f ≡ false = some_inj _ _ (rw (large, e) at off) in
        let is_yunmu : has_flag half_id_yunmu_mask f ≡ true =
          some_inj _ _ (rw (large, e) at yunmu) in
        let broken : false ≡ true = rw (is_yunmu, is_off) at on in cc
  ]
]

-- A half id stands for a letter, upper or lower case.
half_id2sc-lt :
    (id : ℕ)
    → id ≢ 0
    → id < full_spl_id_start
    → (ch : ℕ) × (get_elem? half_id2sc id ≡ some ch) × (b'A' ≤ ch)
unfolding all
half_id2sc-lt zero h lt = absurd (h refl)
half_id2sc-lt (suc i) h lt =
    let letters : List ℕ = take 29 (get_tail half_id2sc) in
    let (ch, e) = get_elem?-lt letters i (omega arith) in
    (
      ch,
      get_elem?-append_left letters (0 ∷ []) i (omega arith) ∙ e,
      leb→le _ _ (all-get_elem? (λ x. leb b'A' x) letters i ch all_letters e),
    )
  where
    get_tail : List ℕ → List ℕ
    get_tail [] = []
    get_tail (x ∷ xs) = xs

    all_letters : all (λ x. leb b'A' x) (take 29 (get_tail half_id2sc)) ≡ true
    all_letters = refl

module _ (t : SpellingTrie) (root : SpellingNode) (u : IsUsable t root) where
  flags_of-total : (ch : ℕ) → b'A' ≤ ch → ch ≤ b'Z' → (f : ℕ) × (flags_of t ch ≡ some f)
  unfolding flags_of
  flags_of-total ch lo hi =
      let (f, e) = get_elem?-lt t.char_flags (ch - b'A') (omega (arith, u.flags_size)) in
      (f, ground (arith, e))

  first_full_id-total :
      (id ch : ℕ)
      → id < full_spl_id_start
      → get_elem? half_id2sc id ≡ some ch
      → szm_is_enabled t ch ≡ some false
      → is_yunmu_char t ch ≡ some true
      → (r : Option ℕ) × (first_full_id t id ≡ some r)
  unfolding first_full_id
  first_full_id-total id ch lt e off yunmu =
      let (num, en) = get_elem?-lt t.h2f_num id (omega (arith, u.h2f_num_size)) in
      let (start, es) = get_elem?-lt t.h2f_start id (omega (arith, u.h2f_start_size)) in
      (some start, rw (en, lt→ltb _ _ (u.yunmu_has_ids id ch num e off yunmu en), es))

  letter_id-total :
      (id ch : ℕ)
      → id < full_spl_id_start
      → get_elem? half_id2sc id ≡ some ch
      → b'A' ≤ ch
      → ch ≤ b'Z'
      → (r : Option ℕ) × (letter_id t id ch ≡ some r)
  unfolding letter_id szm_is_enabled is_yunmu_char
  letter_id-total id ch lt e lo hi =
      let (f, ef) = flags_of-total ch lo hi in
      elim (Bool-cases (has_flag half_id_szm_mask f)) [
        | inl on ↦ (some id, rw (ef, on))
        | inr off ↦ elim (Bool-cases (has_flag half_id_yunmu_mask f)) [
          | inl yunmu ↦
              let (r, er) = first_full_id-total id ch lt e (rw (ef, off)) (rw (ef, yunmu)) in
              (r, rw (ef, off, yunmu) er)
          | inr other ↦ (none, rw (ef, off, other))
        ]
      ]

  -- The test of an id does not fault.
  pub if_valid_id_update-total : (id : ℕ) → (r : Option ℕ) × (if_valid_id_update t id ≡ some r)
  unfolding if_valid_id_update
  if_valid_id_update-total id = elim (Bool-cases (id == 0)) [
    | inl z ↦ (none, rw z)
    | inr nz ↦ elim (Bool-cases (leb full_spl_id_start id)) [
      | inl full ↦ (some id, rw (nz, full))
      | inr half ↦
          let below : id < full_spl_id_start = ground arith in
          let (ch, e, lo) = half_id2sc-lt id (ground arith) below in
          elim (Bool-cases (ltb b'Z' ch)) [
            | inl lower ↦ (some id, rw (nz, half, e, lower))
            | inr upper ↦
                let (r, er) = letter_id-total id ch below e lo (ltb→ge _ _ upper) in
                (r, rw (nz, half, e, upper) er)
          ]
    ]
  ]

  pub if_valid_id_update-cases :
      (id : ℕ)
      → (if_valid_id_update t id ≡ some none)
        ⊎ ((full : ℕ) × (if_valid_id_update t id ≡ some (some full)))
  if_valid_id_update-cases id = go (if_valid_id_update-total id)
    where
      go :
          (r : Option ℕ) × (if_valid_id_update t id ≡ some r)
          → (if_valid_id_update t id ≡ some none)
            ⊎ ((full : ℕ) × (if_valid_id_update t id ≡ some (some full)))
      go (none, e) = inl e
      go (some full, e) = inr (full, e)
