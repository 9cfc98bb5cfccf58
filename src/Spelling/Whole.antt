-- ===== src/Spelling/Whole.antt =====
-- `get_splid_by_str` finds the id of a string that is one spelling.
use scim_googlepinyin.Prelude.{
  ℕ, suc, ◌+◌, ◌≤◌, ◌<◌, ◌≡◌, ◌≢◌, refl, Bool, true, false, not, ◌&&◌, List, [], ◌∷◌, ◌++◌, some,
  arith, length, take, length-append, length-take, get_elem?, inl, inr, Bool-cases, get_elem?-lt,
  get_elem?-append_last, ◌==◌, if◌then◌else◌, sym, ◌∙◌, ap, subst, some_inj,
}
use scim_googlepinyin.Spelling.Base.{SpellingNode, SpellingTrie}
use scim_googlepinyin.Spelling.Flags.{is_valid_spl_char}
use scim_googlepinyin.Spelling.Parser.{Parsed}
use scim_googlepinyin.Spelling.Queries.{get_splid_by_str, whole_id}
use scim_googlepinyin.Spelling.Usable.{IsUsable}
use scim_googlepinyin.Spelling.Cuts.{Spells, Cuts, nothing, spelling, splitter, Cuts-length}
use scim_googlepinyin.Spelling.Reading.{append_assoc, append-nil, length-zero}
use scim_googlepinyin.Spelling.Parse.{splstr_to_idxs-Result, Result}

pub all_splitters : List ℕ → Bool
all_splitters [] = true
all_splitters (ch ∷ rest) = not (is_valid_spl_char ch) && all_splitters rest

all_splitters-append :
    (xs : List ℕ) (ch : ℕ)
    → all_splitters xs ≡ true
    → is_valid_spl_char ch ≡ false
    → all_splitters (xs ++ ch ∷ []) ≡ true
unfolding all_splitters
all_splitters-append [] ch e f = rw f
all_splitters-append (x ∷ xs) ch e f = ground (arith, all_splitters-append xs ch)

take-prefix : (a b xs : List ℕ) → take (length a + length b) xs ≡ a ++ b → take (length a) xs ≡ a
take-prefix [] b xs e = refl
take-prefix (x ∷ a) b [] e =
    let k : suc (length a) + length b ≡ suc (length a + length b) = omega arith in
    let none_left : [] ≡ x ∷ (a ++ b) = rw k at e in cc
take-prefix (x ∷ a) b (y ∷ xs) e =
    let k : suc (length a) + length b ≡ suc (length a + length b) = omega arith in
    let both : y ∷ take (length a + length b) xs ≡ x ∷ (a ++ b) = rw k at e in
    let head : y ≡ x = cc in
    let tail : take (length a + length b) xs ≡ a ++ b = cc in cc (take-prefix a b xs tail)

module _ (t : SpellingTrie) (root : SpellingNode) where
  -- The last start is the end of the text.
  Cuts-end :
      {text ids starts : List ℕ}
      → Cuts t root text ids starts
      → get_elem? starts (length ids) ≡ some (length text)
  Cuts-end nothing = refl
  Cuts-end (spelling {text} {ids} {starts} word id c s) =
      let e : length (ids ++ id ∷ []) ≡ length starts =
        omega (arith, Cuts-length t root c, length-append ids (id ∷ [])) in
      rw e (get_elem?-append_last starts (length (text ++ word)))
  Cuts-end (splitter {text} {ids} {starts} ch c s h) =
      let e : length ids ≡ length (take (length ids) starts) =
        omega (arith, Cuts-length t root c, length-take (length ids) starts) in
      subst
        (λ n.
          get_elem? (take (length ids) starts ++ length (text ++ ch ∷ []) ∷ []) n
          ≡ some (length (text ++ ch ∷ [])))
        (sym e) (get_elem?-append_last (take (length ids) starts) (length (text ++ ch ∷ [])))

  Cuts-none : {text ids starts : List ℕ} → Cuts t root text ids starts → length ids ≡ 0 → text ≡ []
  Cuts-none nothing e = refl
  Cuts-none (spelling {text} {ids} word id c s) e =
      absurd (omega (arith, length-append ids (id ∷ [])))
  Cuts-none (splitter ch c s h) e = absurd (omega arith)

  -- The text is one spelling with splitters behind it.
  pub IsOne : List ℕ → ℕ → Type 0
  IsOne text id =
      (word splitters : List ℕ) × (text ≡ word ++ splitters)
      × Spells t root word id
      × (all_splitters splitters ≡ true)

  Cuts-IsOne :
      {text ids starts : List ℕ} (id : ℕ)
      → Cuts t root text ids starts
      → length ids ≡ 1
      → get_elem? ids 0 ≡ some id
      → IsOne text id
  unfolding IsOne all_splitters
  Cuts-IsOne id nothing e f = absurd (omega arith)
  Cuts-IsOne id (spelling {text} {ids} {starts} word id' c s) e f =
      let no_ids : ids ≡ [] = length-zero ids (omega (arith, length-append ids (id' ∷ []))) in
      let no_text = Cuts-none c (omega (arith, ap length no_ids)) in
      let same : id' ≡ id =
        some_inj _ _ (subst (λ x. get_elem? (x ++ id' ∷ []) 0 ≡ some id) no_ids f) in
      (
        word,
        [],
        ap (λ x. x ++ word) no_text ∙ sym (append-nil word),
        subst (λ x. Spells t root word x) same s,
        refl,
      )
  Cuts-IsOne id (splitter {text} {ids} {starts} ch c s h) e f =
      let (word, splitters, eq, spells, alls) = Cuts-IsOne id c e f in
      (
        word,
        splitters ++ ch ∷ [],
        ap (λ x. x ++ ch ∷ []) eq ∙ append_assoc word splitters (ch ∷ []),
        spells,
        all_splitters-append splitters ch alls s,
      )

module _ (t : SpellingTrie) (root : SpellingNode) (u : IsUsable t root) (splstr : List ℕ)
    (str_len : ℕ) (long : str_len ≤ length splstr) where
  -- What the caller makes of the ids.
  whole :
      (p : Parsed)
      → Result t root u splstr str_len 2 long p
      → (id : ℕ) × ((if length p.spl_idx == 1 then whole_id p str_len else some 0) ≡ some id)
        × (id ≢ 0 → IsOne t root (take str_len splstr) id)
  unfolding whole_id
  whole p (text, word, ends, pre) = elim (Bool-cases (length p.spl_idx == 1)) [
    | inr other ↦ (0, rw other, λ h. absurd (h refl))
    | inl one ↦
        let single : length p.spl_idx ≡ 1 = ground arith in
        let (id, e) = get_elem?-lt p.spl_idx 0 (omega arith) in
        let at_end : get_elem? p.start_pos 1 ≡ some (length text) =
          subst (λ n. get_elem? p.start_pos n ≡ some (length text)) single
            (Cuts-end t root ends.cut) in
        elim (Bool-cases (length text == str_len)) [
          | inr short ↦ (0, rw (one, at_end, e, short), λ h. absurd (h refl))
          | inl all ↦
              let used : length text ≡ str_len = ground arith in
              let read : take str_len splstr ≡ text =
                subst (λ n. take n splstr ≡ text) used
                  (take-prefix text word splstr ends.at_start) in
              (
                id,
                rw (one, at_end, e, all),
                λ h.
                    subst (λ x. IsOne t root x id) (sym read)
                      (Cuts-IsOne t root id ends.cut single e),
              )
        ]
  ]

-- With a usable trie `get_splid_by_str` does not fault on a string of the length given. An id that it
-- returns, other than 0, is the id of the whole string: the string is a word of letters that leads
-- through the trie to that id, with splitters at most behind it.
pub get_splid_by_str-IsOne :
    (t : SpellingTrie) (root : SpellingNode) (u : IsUsable t root) (splstr : List ℕ) (str_len : ℕ)
    (long : str_len ≤ length splstr) (is_pre : Bool)
    → (id : ℕ) × (pre : Bool) × (get_splid_by_str t splstr str_len is_pre ≡ some (id, pre))
      × (id ≢ 0 → IsOne t root (take str_len splstr) id)
unfolding get_splid_by_str
get_splid_by_str-IsOne t root u splstr str_len long is_pre = elim (Bool-cases (str_len == 0)) [
  | inl empty ↦ (0, is_pre, rw empty, λ h. absurd (h refl))
  | inr some_str ↦
      let positive : 0 < str_len = ground arith in
      let (ch, e) = get_elem?-lt splstr 0 (omega arith) in
      elim (Bool-cases (is_valid_spl_char ch)) [
        | inl letter ↦
            let (p, run, result) =
              splstr_to_idxs-Result t root u splstr str_len 2 long is_pre
                (ch, positive, omega arith, e, letter) in
            let (id, asked, right) = whole t root u splstr str_len long p result in
            (id, p.last_is_pre, rw run (rw asked), right)
        | inr other ↦ (0, is_pre, rw (some_str, e, u.root_there, other), λ h. absurd (h refl))
      ]
]
