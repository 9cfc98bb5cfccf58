-- ===== src/UserDict/Reclaim.antt =====
-- The selection of the words to remove ends, and where it does not fault.
use scim_googlepinyin.Prelude.{
  ℕ, zero, suc, ◌+◌, ◌*◌, ◌/◌, ◌%◌, ◌^◌, ◌≤◌, ◌<◌, ◌≡◌, refl, true, false, ◌&&◌, ◌||◌, List, [],
  ◌∷◌, Option, none, some, arith, leb, ◌==◌, if◌then◌else◌, length, set, drop, inl, inr, Bool-cases,
  get_elem?-lt, length-set, ◌∙◌, ap, not, some_inj, subst, sym, get_elem?, length-drop, Bool,
}
use scim_googlepinyin.Prelude.Int.{ℤ, ltb_ℤ}
use native.Mathlib.Nat.{mul-le-mul_left, mod-eq_of_lt}
use scim_googlepinyin.UserDict.Picked.{
  IsRearranged, IsRearranged-refl, IsRearranged-trans, set-IsRearranged, IsPicked,
  rearranged-IsPicked, IsPicked-later, set-IsPicked, first_pairs-IsPicked, IsPicked-empty,
}
use scim_googlepinyin.UserDict.Heap.{
  UserDictScoreOffsetPair, swap, larger_son, shift_down, first_pairs, make_heap, put_score,
  put_scores, lowest, reclaim_pairs,
}

larger_son-lt :
    (sop : List UserDictScoreOffsetPair) (par n : ℕ)
    → n ≤ length sop
    → (next : Option ℕ) × (larger_son sop par n ≡ some next)
      × ((son : ℕ) → next ≡ some son → (par < son) × (son < n))
unfolding larger_son
larger_son-lt sop par n h =
    elim (Bool-cases (leb n par || (leb n (par * 2 + 1) && leb n (par * 2 + 1 + 1)))) [
      | inl done ↦ (none, rw done, λ son e. cc)
      | inr more ↦
          let (p, ep) = get_elem?-lt sop par (ground arith) in
          let (l, el) = get_elem?-lt sop (par * 2 + 1) (ground arith) in
          elim (Bool-cases (leb n (par * 2 + 1 + 1))) [
            | inl one ↦ elim (Bool-cases (ltb_ℤ p.score l.score)) [
              | inl up ↦ (
                some (par * 2 + 1),
                rw (more, el, ep, one, up),
                λ son e. let s = some_inj _ _ e in ground arith,
              )
              | inr stays ↦ (none, rw (more, el, ep, one, stays), λ son e. cc)
            ]
            | inr two ↦
                let (r, er) = get_elem?-lt sop (par * 2 + 1 + 1) (ground arith) in
                elim (Bool-cases (ltb_ℤ r.score l.score && ltb_ℤ p.score l.score)) [
                  | inl to_left ↦ (
                    some (par * 2 + 1),
                    rw (more, el, ep, two, er, to_left),
                    λ son e. let s = some_inj _ _ e in ground arith,
                  )
                  | inr not_left ↦
                      elim (Bool-cases (ltb_ℤ l.score r.score && ltb_ℤ p.score r.score)) [
                        | inl to_right ↦ (
                          some (par * 2 + 1 + 1),
                          rw (more, el, ep, two, er, not_left, to_right),
                          λ son e. let s = some_inj _ _ e in ground arith,
                        )
                        | inr stays ↦
                            (none, rw (more, el, ep, two, er, not_left, stays), λ son e. cc)
                      ]
                ]
          ]
    ]

-- The place moves down the heap, so that the fuel of one more than its size is enough.
shift_down-length :
    (fuel : ℕ) (sop : List UserDictScoreOffsetPair) (par n : ℕ)
    → n ≤ length sop
    → par ≤ n
    → n + 1 ≤ fuel + par
    → (shifted : List UserDictScoreOffsetPair) × (shift_down fuel sop par n ≡ some shifted)
      × (length shifted ≡ length sop)
      × IsRearranged sop shifted
unfolding shift_down swap
shift_down-length zero sop par n h le f = absurd (omega arith)
shift_down-length (suc fuel) sop par n h le f =
    go
      (λ next son above len. shift_down-length fuel next son n len above.1 (omega (arith, above.0)))
      (larger_son-lt sop par n h)
  where
    go :
        ((next : List UserDictScoreOffsetPair) (son : ℕ)
          → (par < son) × (son ≤ n)
          → n ≤ length next
          → (shifted : List UserDictScoreOffsetPair) × (shift_down fuel next son n ≡ some shifted)
            × (length shifted ≡ length next)
            × IsRearranged next shifted)
        → (next : Option ℕ) × (larger_son sop par n ≡ some next)
          × ((son : ℕ) → next ≡ some son → (par < son) × (son < n))
        → (shifted : List UserDictScoreOffsetPair) × (shift_down (suc fuel) sop par n
            ≡ some shifted)
          × (length shifted ≡ length sop)
          × IsRearranged sop shifted
    go rest (none, run, down) = (sop, rw run, refl, IsRearranged-refl sop)
    go further (some son, run, down) =
        let (lower, inside) = down son refl in
        let (a, ea) = get_elem?-lt sop son (omega arith) in
        let (b, eb) = get_elem?-lt sop par (omega arith) in
        let same = length-set (set sop son b) par a ∙ length-set sop son b in
        let (shifted, rest, len, order) =
          further (set (set sop son b) par a) son (lower, omega arith) (omega arith) in
        (
          shifted,
          rw (run, ea, eb) rest,
          len ∙ same,
          IsRearranged-trans sop _ shifted
              (set-IsRearranged sop son par a b ea eb (length-set sop son b)) order,
        )

first_pairs-length :
    (rc i : ℕ) (scores : List ℤ)
    → rc ≤ length scores
    → (pairs : List UserDictScoreOffsetPair) × (first_pairs rc i scores ≡ some pairs)
      × (length pairs ≡ rc)
unfolding first_pairs
first_pairs-length zero i scores h = ([], refl, refl)
first_pairs-length (suc rc) i [] h = absurd (omega arith)
first_pairs-length (suc rc) i (s ∷ scores) h =
    let (pairs, run, len) = first_pairs-length rc (i + 1) scores (omega arith) in
    (record { score = s; offset_index = i } ∷ pairs, rw run, ap suc len)

make_heap-length :
    (i : ℕ) (sop : List UserDictScoreOffsetPair) (rc : ℕ)
    → i ≤ rc + 1
    → length sop ≡ rc
    → (heap : List UserDictScoreOffsetPair) × (make_heap i sop rc ≡ some heap)
      × (length heap ≡ rc)
      × IsRearranged sop heap
unfolding make_heap
make_heap-length zero sop rc h len = (sop, refl, len, IsRearranged-refl sop)
make_heap-length (suc i) sop rc h len =
    let (shifted, run, same, order) =
      shift_down-length (rc + 1) sop i rc (omega arith) (omega arith) (omega arith) in
    let (heap, rest, len', order') = make_heap-length i shifted rc (omega arith) (same ∙ len) in
    (heap, rw run rest, len', IsRearranged-trans sop shifted heap order order')

module _ (all : List ℤ) where
  put_score-IsPicked :
      (sop : List UserDictScoreOffsetPair) (rc i : ℕ) (s : ℤ)
      → 0 < rc
      → length sop ≡ rc
      → get_elem? all i ≡ some s
      → IsPicked all i sop
      → (heap : List UserDictScoreOffsetPair) × (put_score sop rc i s ≡ some heap)
        × (length heap ≡ rc)
        × IsPicked all (i + 1) heap
  unfolding put_score
  put_score-IsPicked sop rc i s h len there picked =
      let (top, e) = get_elem?-lt sop 0 (omega arith) in
      let new : UserDictScoreOffsetPair = record { score = s; offset_index = i } in
      elim (Bool-cases (ltb_ℤ s top.score)) [
        | inl low ↦
            let same = length-set sop 0 new in
            let (shifted, run, len', order) =
              shift_down-length (rc + 1) (set sop 0 new) 0 rc (omega arith) (omega arith)
                (omega arith) in
            (
              shifted,
              rw (e, low) run,
              len' ∙ (same ∙ len),
              rearranged-IsPicked all (i + 1) (set sop 0 new) shifted order
                  (set-IsPicked all i s sop (omega arith) there picked),
            )
        | inr high ↦ (sop, rw (e, high), len, IsPicked-later all i sop picked)
      ]

  put_scores-IsPicked :
      (sop : List UserDictScoreOffsetPair) (rc i : ℕ) (scores : List ℤ)
      → 0 < rc
      → length sop ≡ rc
      → ((j : ℕ) → get_elem? all (i + j) ≡ get_elem? scores j)
      → IsPicked all i sop
      → (heap : List UserDictScoreOffsetPair) × (put_scores sop rc i scores ≡ some heap)
        × (length heap ≡ rc)
        × IsPicked all (i + length scores) heap
  unfolding put_scores
  put_scores-IsPicked sop rc i [] h len suffix picked =
      let same : i + 0 ≡ i = omega arith in
      (sop, refl, len, subst (λ n. IsPicked all n sop) (sym same) picked)
  put_scores-IsPicked sop rc i (s ∷ scores) h len suffix picked =
      let here : i + 0 ≡ i = omega arith in
      let (next, run, len', picked') =
        put_score-IsPicked sop rc i s h len (rw here at (suffix 0)) picked in
      let (heap, rest, len'', picked'') =
        put_scores-IsPicked next rc (i + 1) scores h len'
          (λ j. ap (get_elem? all) (further j) ∙ suffix (suc j)) picked' in
      let total : i + 1 + length scores ≡ i + suc (length scores) = omega arith in
      (heap, rw run rest, len'', subst (λ n. IsPicked all n heap) total picked'')
    where
      further : (j : ℕ) → i + 1 + j ≡ i + suc j
      further j = omega arith

get_elem?-drop : (n j : ℕ) (xs : List ℤ) → get_elem? xs (n + j) ≡ get_elem? (drop n xs) j
get_elem?-drop zero j xs = let same : 0 + j ≡ j = omega arith in rw same
get_elem?-drop (suc n) j [] = refl
get_elem?-drop (suc n) j (x ∷ xs) =
    let e : suc n + j ≡ suc (n + j) = omega arith in rw e (get_elem?-drop n j xs)

put_scores-empty :
    (sop : List UserDictScoreOffsetPair) (rc i : ℕ) (s : ℤ) (scores : List ℤ)
    → length sop ≡ 0
    → put_scores sop rc i (s ∷ scores) ≡ none
unfolding put_scores put_score
put_scores-empty [] rc i s scores h = refl
put_scores-empty (x ∷ sop) rc i s scores h = absurd (omega arith)

lowest-IsPicked :
    (scores : List ℤ) (rc : ℕ)
    → rc ≤ length scores
    → (pairs : List UserDictScoreOffsetPair) × (lowest scores rc
        ≡ (if rc == 0 && not (length scores == 0) then none else some pairs))
      × (length pairs ≡ rc)
      × IsPicked scores (length scores) pairs
unfolding lowest put_scores
lowest-IsPicked scores rc h =
    let (pairs, run, len) = first_pairs-length rc 0 scores h in
    let (heap, make, len', order) =
      make_heap-length ((rc + 1) / 2 + 1) pairs rc (omega arith) len in
    let at : lowest scores rc ≡ put_scores heap rc rc (drop rc scores) = rw (run, make) in
    go scores rc heap h at len'
      (rearranged-IsPicked scores rc pairs heap order (first_pairs-IsPicked rc scores run))
  where
    go :
        (scores : List ℤ) (rc : ℕ) (heap : List UserDictScoreOffsetPair)
        → rc ≤ length scores
        → lowest scores rc ≡ put_scores heap rc rc (drop rc scores)
        → length heap ≡ rc
        → IsPicked scores rc heap
        → (pairs : List UserDictScoreOffsetPair) × (lowest scores rc
            ≡ (if rc == 0 && not (length scores == 0) then none else some pairs))
          × (length pairs ≡ rc)
          × IsPicked scores (length scores) pairs
    go [] zero heap h at len picked = (heap, at, len, picked)
    go (s ∷ scores) zero heap h at len picked =
        let full : (suc (length scores) == 0) ≡ false = ground arith in
        (
          heap,
          rw full (at ∙ put_scores-empty heap 0 0 s scores len),
          len,
          IsPicked-empty (s ∷ scores) (suc (length scores)) heap len,
        )
    go scores (suc rc) heap h at len picked =
        let more : (suc rc == 0) ≡ false = ground arith in
        let (result, rest, len', picked') =
          put_scores-IsPicked scores heap (suc rc) (suc rc) (drop (suc rc) scores) (omega arith) len
            (λ j. get_elem?-drop (suc rc) j scores) picked in
        let total : suc rc + length (drop (suc rc) scores) ≡ length scores =
          omega (arith, length-drop (suc rc) scores) in
        (result, rw more (at ∙ rest), len', subst (λ n. IsPicked scores n result) total picked')

reclaim_pairs-idle :
    (is_valid : Bool) (scores : List ℤ) (reclaim_ratio : ℕ)
    → (not is_valid || reclaim_ratio == 0) ≡ true
    → reclaim_pairs is_valid scores reclaim_ratio ≡ some []
unfolding reclaim_pairs
reclaim_pairs-idle is_valid scores reclaim_ratio idle = rw idle

reclaim_pairs-lowest :
    (is_valid : Bool) (scores : List ℤ) (reclaim_ratio : ℕ)
    → (not is_valid || reclaim_ratio == 0) ≡ false
    → reclaim_ratio < 100
    → length scores * reclaim_ratio % 2 ^ 32 ≡ length scores * reclaim_ratio
    → reclaim_pairs is_valid scores reclaim_ratio
      ≡ lowest scores (length scores * reclaim_ratio / 100)
unfolding reclaim_pairs
reclaim_pairs-lowest is_valid scores reclaim_ratio busy ratio small =
    let below : (reclaim_ratio == 100) ≡ false = ground arith in rw (busy, below, small)

-- Below a ratio of 100 and with less than 2 ^ 32 / 100 words the loops of the selection end. Nothing is
-- selected in a state that is not valid or for the ratio 0. Else it gives as many pairs as the ratio asks
-- for, each the score and the place of another word; it faults just where the ratio asks for none though
-- there are words: the top of the empty heap is read then.
pub reclaim_pairs-IsPicked :
    (is_valid : Bool) (scores : List ℤ) (reclaim_ratio : ℕ)
    → reclaim_ratio < 100
    → length scores * 100 < 2 ^ 32
    → (pairs : List UserDictScoreOffsetPair) × (reclaim_pairs is_valid scores reclaim_ratio ≡ (
        if not is_valid || reclaim_ratio == 0
        then some []
        else if length scores * reclaim_ratio / 100 == 0 && not (length scores == 0)
        then none
        else some pairs))
      × (length pairs ≡ length scores * reclaim_ratio / 100)
      × IsPicked scores (length scores) pairs
reclaim_pairs-IsPicked is_valid scores reclaim_ratio ratio few =
    let le : reclaim_ratio ≤ 100 = omega arith in
    let product = mul-le-mul_left (length scores) le in
    let small : length scores * reclaim_ratio % 2 ^ 32 ≡ length scores * reclaim_ratio =
      mod-eq_of_lt (omega (arith, product)) in
    let (pairs, run, len, picked) =
      lowest-IsPicked scores (length scores * reclaim_ratio / 100) (omega (arith, product)) in
    elim (Bool-cases (not is_valid || reclaim_ratio == 0)) [
      | inl idle ↦
          (pairs, rw idle (reclaim_pairs-idle is_valid scores reclaim_ratio idle), len, picked)
      | inr busy ↦ (
        pairs,
        rw busy (reclaim_pairs-lowest is_valid scores reclaim_ratio busy ratio small ∙ run),
        len,
        picked,
      )
    ]
