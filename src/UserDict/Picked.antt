-- ===== src/UserDict/Picked.antt =====
-- The pairs of the heap are pairs of the scores, each of another word.
use scim_googlepinyin.Prelude.{
  ℕ, zero, suc, ◌+◌, ◌<◌, ◌≡◌, refl, List, [], ◌∷◌, Option, none, some, arith, length, get_elem?,
  set, ◌==◌, if◌then◌else◌, inl, inr, Bool-cases, get_elem?-set, get_elem?-some, sym, ◌∙◌, ap,
  some_inj, subst, ◌⊎◌, ◌≢◌, Option-cases,
}
use scim_googlepinyin.Prelude.Int.{ℤ}
use scim_googlepinyin.UserDict.Heap.{UserDictScoreOffsetPair, first_pairs}

-- `new` has the elements of `old`, in another order.
abbrev pub IsRearranged : List UserDictScoreOffsetPair → List UserDictScoreOffsetPair → Type 0
IsRearranged old new =
    (from : ℕ → ℕ) × ((j k : ℕ) → from j ≡ from k → j ≡ k)
    × ((j : ℕ) → get_elem? new j ≡ get_elem? old (from j))

pub IsRearranged-refl : (pairs : List UserDictScoreOffsetPair) → IsRearranged pairs pairs
IsRearranged-refl pairs = ((λ j. j), (λ j k e. e), (λ j. refl))

pub IsRearranged-trans :
    (a b c : List UserDictScoreOffsetPair) → IsRearranged a b → IsRearranged b c → IsRearranged a c
IsRearranged-trans a b c (f, f_inj, ab) (g, g_inj, bc) =
    ((λ j. f (g j)), (λ j k e. g_inj j k (f_inj (g j) (g k) e)), (λ j. bc j ∙ ab (g j)))

abbrev exchanged : ℕ → ℕ → ℕ → ℕ
exchanged i j k = if j == k then i else if i == k then j else k

exchanged_inj : (i j k l : ℕ) → exchanged i j k ≡ exchanged i j l → k ≡ l
exchanged_inj i j k l e = ground arith

-- Two elements exchanged.
pub set-IsRearranged :
    (pairs : List UserDictScoreOffsetPair) (i j : ℕ) (a b : UserDictScoreOffsetPair)
    → get_elem? pairs i ≡ some a
    → get_elem? pairs j ≡ some b
    → length (set pairs i b) ≡ length pairs
    → IsRearranged pairs (set (set pairs i b) j a)
set-IsRearranged pairs i j a b ea eb same = (exchanged i j, exchanged_inj i j, at)
  where
    at : (k : ℕ) → get_elem? (set (set pairs i b) j a) k ≡ get_elem? pairs (exchanged i j k)
    at k =
        let in_i = get_elem?-some pairs i ea in
        let in_j = get_elem?-some pairs j eb in
        let outer = get_elem?-set (set pairs i b) j k a (omega arith) in
        let inner = get_elem?-set pairs i k b in_i in
        elim (Bool-cases (j == k)) [
          | inl here ↦ outer ∙ rw (here, ea)
          | inr away ↦ elim (Bool-cases (i == k)) [
            | inl there ↦ outer ∙ rw away (inner ∙ rw (there, eb))
            | inr other ↦ outer ∙ rw away (inner ∙ rw other)
          ]
        ]

-- The pairs belong to different words among the first `i`, and have their scores.
pub record IsPicked (scores : List ℤ) (i : ℕ) (pairs : List UserDictScoreOffsetPair) : Type 0 where
  pub below :
      (j : ℕ) (p : UserDictScoreOffsetPair) → get_elem? pairs j ≡ some p → p.offset_index < i
  pub scored :
      (j : ℕ) (p : UserDictScoreOffsetPair)
      → get_elem? pairs j ≡ some p
      → get_elem? scores p.offset_index ≡ some p.score
  pub distinct :
      (j k : ℕ) (p q : UserDictScoreOffsetPair)
      → get_elem? pairs j ≡ some p
      → get_elem? pairs k ≡ some q
      → p.offset_index ≡ q.offset_index
      → j ≡ k

pub rearranged-IsPicked :
    (scores : List ℤ) (i : ℕ) (old new : List UserDictScoreOffsetPair)
    → IsRearranged old new
    → IsPicked scores i old
    → IsPicked scores i new
rearranged-IsPicked scores i old new (from, inj, same) h = record {
  below = λ j p e. h.below (from j) p (sym (same j) ∙ e);
  scored = λ j p e. h.scored (from j) p (sym (same j) ∙ e);
  distinct = λ j k p q e f eq.
      inj j k (h.distinct (from j) (from k) p q (sym (same j) ∙ e) (sym (same k) ∙ f) eq);
}

pub IsPicked-later :
    (scores : List ℤ) (i : ℕ) (pairs : List UserDictScoreOffsetPair)
    → IsPicked scores i pairs
    → IsPicked scores (i + 1) pairs
IsPicked-later scores i pairs h = record {
  below = λ j p e. omega (arith, h.below j p e);
  scored = h.scored;
  distinct = h.distinct;
}

module _ (scores : List ℤ) (i : ℕ) (s : ℤ) (pairs : List UserDictScoreOffsetPair)
    (fits : 0 < length pairs) (score_there : get_elem? scores i ≡ some s)
    (h : IsPicked scores i pairs) where
  abbrev new_pair : UserDictScoreOffsetPair
  new_pair = record { score = s; offset_index = i }

  abbrev InNew : ℕ → UserDictScoreOffsetPair → Type 0
  InNew j p = get_elem? (set pairs 0 new_pair) j ≡ some p

  -- The new pair is at the front, and the others are old ones.
  at_place :
      (j : ℕ) (p : UserDictScoreOffsetPair)
      → InNew j p
      → ((0 ≡ j) × (new_pair ≡ p)) ⊎ (get_elem? pairs j ≡ some p)
  at_place j p e = elim (Bool-cases (0 == j)) [
    | inl here ↦
        inl (
          ground arith,
          some_inj _ _ (rw here at (sym (get_elem?-set pairs 0 j new_pair fits) ∙ e)),
        )
    | inr away ↦ inr (rw away at (sym (get_elem?-set pairs 0 j new_pair fits) ∙ e))
  ]

  below_next : (j : ℕ) (p : UserDictScoreOffsetPair) → InNew j p → p.offset_index < i + 1
  below_next j p e = elim (at_place j p e) [
    | inl (here, same) ↦ subst (λ q. q.offset_index < i + 1) same (omega arith)
    | inr old ↦ omega (arith, h.below j p old)
  ]

  scored_next :
      (j : ℕ) (p : UserDictScoreOffsetPair)
      → InNew j p
      → get_elem? scores p.offset_index ≡ some p.score
  scored_next j p e = elim (at_place j p e) [
    | inl (here, same) ↦
        subst (λ q. get_elem? scores q.offset_index ≡ some q.score) same score_there
    | inr old ↦ h.scored j p old
  ]

  -- An old pair belongs to an earlier word.
  not_new :
      (k : ℕ) (p q : UserDictScoreOffsetPair)
      → new_pair ≡ p
      → get_elem? pairs k ≡ some q
      → p.offset_index ≢ q.offset_index
  not_new k p q same old eq =
      let at : i ≡ p.offset_index = ap (λ x. x.offset_index) same in
      let lt = h.below k q old in absurd (omega arith)

  distinct_next :
      (j k : ℕ) (p q : UserDictScoreOffsetPair)
      → InNew j p
      → InNew k q
      → p.offset_index ≡ q.offset_index
      → j ≡ k
  distinct_next j k p q e f eq = elim (at_place j p e) [
    | inl (here, same) ↦ elim (at_place k q f) [
      | inl (there, same') ↦ sym here ∙ there
      | inr old ↦ absurd (not_new k p q same old eq)
    ]
    | inr old ↦ elim (at_place k q f) [
      | inl (there, same') ↦ absurd (not_new j q p same' old (sym eq))
      | inr old' ↦ h.distinct j k p q old old' eq
    ]
  ]

  -- The next word takes the place of the first pair.
  pub set-IsPicked : IsPicked scores (i + 1) (set pairs 0 new_pair)
  set-IsPicked = record { below = below_next; scored = scored_next; distinct = distinct_next }

-- The first pairs are those of the words in their order.
first_pairs-at :
    (rc i : ℕ) (scores : List ℤ) {pairs : List UserDictScoreOffsetPair}
    → first_pairs rc i scores ≡ some pairs
    → (j : ℕ) (p : UserDictScoreOffsetPair) → get_elem? pairs j ≡ some p
    → (p.offset_index ≡ i + j) × (get_elem? scores j ≡ some p.score) × (j < rc)
unfolding first_pairs
first_pairs-at zero i scores {pairs = pairs} e j p at =
    let empty : [] ≡ pairs = some_inj _ _ e in
    let lost : ◌≡◌ {A = Option UserDictScoreOffsetPair} none (some p) =
      subst (λ x. get_elem? x j ≡ some p) (sym empty) at in
    cc
first_pairs-at (suc rc) i [] e j p at = cc
first_pairs-at (suc rc) i (s ∷ scores) {pairs = pairs} e j p at =
    elim (Option-cases (first_pairs rc (i + 1) scores)) [
      | inl fault ↦
          let lost : ◌≡◌ {A = Option (List UserDictScoreOffsetPair)} none (some pairs) =
            rw fault at e in
          cc
      | inr (rest, run) ↦
          let whole : (record { score = s; offset_index = i } ∷ rest) ≡ pairs =
            some_inj _ _ (rw run at e) in
          go rest run j (subst (λ x. get_elem? x j ≡ some p) (sym whole) at)
            (first_pairs-at rc (i + 1) scores run)
    ]
  where
    go :
        (rest : List UserDictScoreOffsetPair)
        → first_pairs rc (i + 1) scores ≡ some rest
        → (j : ℕ) → get_elem? (record { score = s; offset_index = i } ∷ rest) j ≡ some p
        → ((j : ℕ) (p : UserDictScoreOffsetPair)
            → get_elem? rest j ≡ some p
            → (p.offset_index ≡ i + 1 + j) × (get_elem? scores j ≡ some p.score) × (j < rc))
        → (p.offset_index ≡ i + j) × (get_elem? (s ∷ scores) j ≡ some p.score) × (j < suc rc)
    go rest run zero at ih =
        let same : record { score = s; offset_index = i } ≡ p = some_inj _ _ at in
        (
          subst (λ q. q.offset_index ≡ i + 0) same (omega arith),
          subst (λ q. some s ≡ some q.score) same refl,
          omega arith,
        )
    go rest run (suc j) at ih =
        let (place, score, lt) = ih j p at in (omega arith, score, omega arith)

pub first_pairs-IsPicked :
    (rc : ℕ) (scores : List ℤ) {pairs : List UserDictScoreOffsetPair}
    → first_pairs rc 0 scores ≡ some pairs
    → IsPicked scores rc pairs
first_pairs-IsPicked rc scores run = record {
  below = λ j p at. let (place, score, lt) = first_pairs-at rc 0 scores run j p at in omega arith;
  scored = λ j p at.
      let (place, score, lt) = first_pairs-at rc 0 scores run j p at in
      let here : p.offset_index ≡ j = omega arith in rw here score;
  distinct = λ j k p q e f eq.
      let a = first_pairs-at rc 0 scores run j p e in
      let b = first_pairs-at rc 0 scores run k q f in omega (arith, a.0, b.0, eq);
}

pub IsPicked-empty :
    (scores : List ℤ) (i : ℕ) (pairs : List UserDictScoreOffsetPair)
    → length pairs ≡ 0
    → IsPicked scores i pairs
IsPicked-empty scores i [] len = record {
  below = λ j p e. cc;
  scored = λ j p e. cc;
  distinct = λ j k p q e f eq. cc;
}
IsPicked-empty scores i (x ∷ pairs) len = absurd (omega arith)
