-- ===== src/UserDict/Heap.antt =====
-- src/share/userdict.cpp: which words `reclaim` removes, those with the lowest scores as a heap finds
-- them. What is read or written outside the array of pairs is a fault.
use scim_googlepinyin.Prelude.{
  ℕ, zero, suc, ◌+◌, ◌*◌, ◌/◌, ◌%◌, ◌^◌, ◌&&◌, ◌||◌, ◌==◌, Bool, not, List, [], ◌∷◌, Option, none,
  some, leb, if◌then◌else◌, length, get_elem?, set, drop,
}
use scim_googlepinyin.Prelude.Errors.{◌>>=◌}
use scim_googlepinyin.Prelude.Int.{ℤ, ltb_ℤ}

pub record UserDictScoreOffsetPair : Type 0 where
  pub score : ℤ
  pub offset_index : ℕ

unfoldable pub swap : List UserDictScoreOffsetPair → ℕ → ℕ → Option (List UserDictScoreOffsetPair)
swap sop i j = do a ← get_elem? sop i; b ← get_elem? sop j; some (set (set sop i b) j a)

-- The son to swap with, if the loop goes on. It does not where both sons have the same score.
unfoldable pub larger_son : List UserDictScoreOffsetPair → ℕ → ℕ → Option (Option ℕ)
larger_son sop par n =
    let left = par * 2 + 1 in
    let right = left + 1 in
    if leb n par || (leb n left && leb n right) then some none else do
      l ← get_elem? sop left
      p ← get_elem? sop par
      if leb n right then some (if ltb_ℤ p.score l.score then some left else none) else do
        r ← get_elem? sop right
        some (
            if ltb_ℤ r.score l.score && ltb_ℤ p.score l.score
            then some left
            else if ltb_ℤ l.score r.score && ltb_ℤ p.score r.score
            then some right
            else none)

-- The loop, with fuel.
unfoldable pub shift_down :
    ℕ → List UserDictScoreOffsetPair → ℕ → ℕ → Option (List UserDictScoreOffsetPair)
unfolding swap larger_son
shift_down zero sop par n = none
shift_down (suc fuel) sop par n = do
  next ← larger_son sop par n
  elim next [
    | none ↦ some sop
    | some son ↦ do swapped ← swap sop son par; shift_down fuel swapped son n
  ]

-- The first `rc` pairs.
unfoldable pub first_pairs : ℕ → ℕ → List ℤ → Option (List UserDictScoreOffsetPair)
first_pairs zero i scores = some []
first_pairs (suc rc) i [] = none
first_pairs (suc rc) i (s ∷ scores) = do
  rest ← first_pairs rc (i + 1) scores
  some (record { score = s; offset_index = i } ∷ rest)

-- The shifting down from the place `i - 1` down to 0.
unfoldable pub make_heap :
    ℕ → List UserDictScoreOffsetPair → ℕ → Option (List UserDictScoreOffsetPair)
unfolding shift_down
make_heap zero sop rc = some sop
make_heap (suc i) sop rc = do shifted ← shift_down (rc + 1) sop i rc; make_heap i shifted rc

-- A score that is lower than the top takes its place.
unfoldable pub put_score :
    List UserDictScoreOffsetPair → ℕ → ℕ → ℤ → Option (List UserDictScoreOffsetPair)
unfolding shift_down
put_score sop rc i s = do
  top ← get_elem? sop 0
  if ltb_ℤ s top.score
      then shift_down (rc + 1) (set sop 0 (record { score = s; offset_index = i })) 0 rc
      else some sop

-- The loop over the other scores, from the place `i` on.
unfoldable pub put_scores :
    List UserDictScoreOffsetPair → ℕ → ℕ → List ℤ → Option (List UserDictScoreOffsetPair)
unfolding put_score
put_scores sop rc i [] = some sop
put_scores sop rc i (s ∷ scores) = do
  shifted ← put_score sop rc i s
  put_scores shifted rc (i + 1) scores

-- The pairs that are left in the heap, which are meant to be those of the `rc` lowest scores.
unfoldable pub lowest : List ℤ → ℕ → Option (List UserDictScoreOffsetPair)
unfolding first_pairs make_heap put_scores
lowest scores rc = do
  pairs ← first_pairs rc 0 scores
  heap ← make_heap ((rc + 1) / 2 + 1) pairs rc
  put_scores heap rc rc (drop rc scores)

-- The pairs whose words are removed, for whether the state is valid, all scores and the ratio in
-- percent. A ratio of 100 fails an assertion. The allocation of the pairs is taken to succeed.
unfoldable pub reclaim_pairs : Bool → List ℤ → ℕ → Option (List UserDictScoreOffsetPair)
unfolding lowest
reclaim_pairs is_valid scores reclaim_ratio =
    if not is_valid || reclaim_ratio == 0
    then some []
    else if reclaim_ratio == 100
    then none
    else lowest scores (length scores * reclaim_ratio % 2 ^ 32 / 100)
