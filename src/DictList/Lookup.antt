-- ===== src/DictList/Lookup.antt =====
-- The id of the word of an id.
use scim_googlepinyin.Prelude.{
  ℕ, zero, suc, ◌+◌, ◌-◌, ◌*◌, ◌/◌, ◌≤◌, ◌<◌, ◌≡◌, refl, true, false, ◌||◌, List, [], ◌∷◌, Option,
  none, some, arith, take, drop, ltb, if◌then◌else◌, inl, inr, Bool-cases, sym, ◌∙◌, ap, some_inj,
  ◌==◌, compare, Ordering,
}
use native.Mathlib.Nat.{le-div_iff_mul-le}
use scim_googlepinyin.Prelude.Int.{ℤ, pos, negsuc}
use scim_googlepinyin.Utf16.{utf16_strncmp}
use scim_googlepinyin.Utf16.Compare.{sign}
use scim_googlepinyin.SearchUtility.{is_zero, cmp_hanzis_1}
use scim_googlepinyin.DictList.{
  DictList, Bsearch, cmp_func, first_equal, find_pos_startedbyhzs, get_lemma_id, get_lemma_str,
  max_lemma_size,
}
use scim_googlepinyin.DictList.Words.{IsLaid, IsWord, get_lemma_str-word}

-- The key compares with the elements as in an array that is sorted.
abbrev pub IsDescending : ℕ → (ℕ → Option ℤ) → Type 0
IsDescending n cmp =
    (i j : ℕ)
    → i ≤ j
    → j < n
    → (a b : ℤ) × (cmp i ≡ some a)
      × (cmp j ≡ some b)
      × (sign b ≡ Ordering.gt → sign a ≡ Ordering.gt)
      × (sign a ≡ Ordering.lt → sign b ≡ Ordering.lt)

-- `bsearch` finds an element that compares equal, if there is one.
pub record IsBsearch (search : Bsearch) : Type 0 where
  pub sound :
      (n : ℕ) (cmp : ℕ → Option ℤ) (k : ℕ)
      → search n cmp ≡ some (some k)
      → (k < n) × (cmp k ≡ some (pos 0))
  pub complete :
      (n : ℕ) (cmp : ℕ → Option ℤ) (k : ℕ)
      → IsDescending n cmp
      → k < n
      → cmp k ≡ some (pos 0)
      → (j : ℕ) × (search n cmp ≡ some (some j))

-- The words of a length are in the strict order of their comparison.
abbrev pub IsOrdered : DictList → ℕ → ℕ → ℕ → Type 0
IsOrdered d base count word_len =
    (j k : ℕ)
    → j < count
    → k < count
    → (v : ℤ) × (cmp_func word_len (drop (base + j * word_len) d.buf)
          (drop (base + k * word_len) d.buf)
        ≡ some v)
      × (sign v ≡ compare j k)

above : (a b : ℕ) → b < a → compare a b ≡ Ordering.gt
above a b h = ground arith

above_inv : (a b : ℕ) → compare a b ≡ Ordering.gt → b < a
above_inv a b h = ground arith

below : (a b : ℕ) → a < b → compare a b ≡ Ordering.lt
below a b h = ground arith

below_inv : (a b : ℕ) → compare a b ≡ Ordering.lt → a < b
below_inv a b h = ground arith

level : (a : ℕ) → compare a a ≡ Ordering.eq
level a = ground arith

level_inv : (a b : ℕ) → compare a b ≡ sign (pos 0) → a ≡ b
unfolding sign
level_inv a b h = ground arith

sign_eq : (v : ℤ) → sign v ≡ Ordering.eq → v ≡ pos 0
unfolding sign
sign_eq (pos zero) h = refl
sign_eq (pos (suc n)) h = cc
sign_eq (negsuc n) h = cc

is_zero-sign : (v : ℤ) → sign v ≡ Ordering.gt → is_zero v ≡ false
unfolding sign is_zero
is_zero-sign (pos zero) h = cc
is_zero-sign (pos (suc n)) h = refl
is_zero-sign (negsuc n) h = cc

utf16_strncmp-take :
    (n : ℕ) (xs ys : List ℕ) → utf16_strncmp (take n xs) ys n ≡ utf16_strncmp xs ys n
unfolding utf16_strncmp
utf16_strncmp-take zero xs ys = refl
utf16_strncmp-take (suc n) [] ys = refl
utf16_strncmp-take (suc n) (x ∷ xs) [] = refl
utf16_strncmp-take (suc n) (x ∷ xs) (y ∷ ys) = rw (utf16_strncmp-take n xs ys)

cmp_hanzis_1-take : (xs ys : List ℕ) → cmp_hanzis_1 (take 1 xs) ys ≡ cmp_hanzis_1 xs ys
unfolding cmp_hanzis_1
cmp_hanzis_1-take [] ys = refl
cmp_hanzis_1-take (x ∷ xs) ys = refl

-- Of the key only its characters are compared.
cmp_func-take : (n : ℕ) (xs ys : List ℕ) → cmp_func n (take n xs) ys ≡ cmp_func n xs ys
unfolding cmp_func
cmp_func-take n xs ys = elim (Bool-cases (n == 0 || ltb max_lemma_size n)) [
  | inl bad ↦ rw bad
  | inr good ↦ elim (Bool-cases (n == 1)) [
    | inl one ↦ let e : n ≡ 1 = ground arith in rw (good, one) (rw e (cmp_hanzis_1-take xs ys))
    | inr more ↦ rw (good, more) (utf16_strncmp-take n xs ys)
  ]
]

module _ (d : DictList) (laid : IsLaid d) (search : Bsearch) (right : IsBsearch search)
    (id_lemma i start next pos' next_pos : ℕ) (w : IsWord d id_lemma i start next pos' next_pos)
    (short : i < max_lemma_size)
    (ordered : IsOrdered d pos' ((next_pos - pos') / (i + 1)) (i + 1)) where
  -- The number of the word among those of its length.
  abbrev rank : ℕ
  rank = id_lemma - start

  abbrev place : ℕ → List ℕ
  place j = drop (pos' + j * (i + 1)) d.buf

  abbrev key : List ℕ
  key = take (i + 1) (place rank)

  -- The words of that length.
  abbrev count : ℕ
  count = (next_pos - pos') / (i + 1)

  in_range : rank < count
  in_range =
      let at =
        laid.consecutive i start next pos' next_pos w.start_there w.next_there w.pos_there
          w.end_there in
      let ids : next - start ≤ count =
        (le-div_iff_mul-le {k = i + 1} {x = next - start} {y = next_pos - pos'} (omega arith)).1
          (omega (arith, at.1)) in
      omega (arith, w.from_start, w.before_next)

  key_compares :
      (j : ℕ)
      → j < count
      → (v : ℤ) × (cmp_func (i + 1) key (place j) ≡ some v) × (sign v ≡ compare rank j)
  key_compares j h =
      let (v, run, order) = ordered rank j in_range h in
      (v, cmp_func-take (i + 1) (place rank) (place j) ∙ run, order)

  key-IsDescending : IsDescending count (λ j. cmp_func (i + 1) key (place j))
  key-IsDescending a b le h =
      let (u, run_u, order_u) = key_compares a (omega arith) in
      let (v, run_v, order_v) = key_compares b h in
      (
        u,
        v,
        run_u,
        run_v,
        (λ gt. order_u ∙ above rank a (omega (arith, above_inv rank b (sym order_v ∙ gt)))),
        (λ lt. order_v ∙ below rank b (omega (arith, below_inv rank a (sym order_u ∙ lt)))),
      )

  search_key : search count (λ j. cmp_func (i + 1) key (place j)) ≡ some (some rank)
  search_key =
      let (v, run, order) = key_compares rank in_range in
      let zero_v = sign_eq v (order ∙ level rank) in
      let (j, found) =
        right.complete count (λ j. cmp_func (i + 1) key (place j)) rank key-IsDescending in_range
          (run ∙ ap some zero_v) in
      let (inside, equal) = right.sound _ _ j found in
      let (u, run_u, order_u) = key_compares j inside in
      let zero_u : u ≡ pos 0 = some_inj _ _ (sym run_u ∙ equal) in
      let same : rank ≡ j = level_inv rank j (sym order_u ∙ ap sign zero_u) in
      found ∙ ap (λ k. some (some k)) (sym same)

  first_equal-rank : (k : ℕ) → k < count → first_equal d pos' (i + 1) (cmp_func (i + 1)) k ≡ some k
  unfolding first_equal
  first_equal-rank zero h = refl
  first_equal-rank (suc k) h =
      let (v, run, order) = ordered (suc k) k h (omega arith) in
      let gt : is_zero v ≡ false = is_zero-sign v (order ∙ above (suc k) k (omega arith)) in
      rw (run, gt)

  find_key : find_pos_startedbyhzs d search key (i + 1) (cmp_func (i + 1)) ≡ some (some rank)
  unfolding find_pos_startedbyhzs
  find_key =
      let back : i + 1 - 1 ≡ i = omega arith in
      let some_len : (i + 1 == 0) ≡ false = ground arith in
      rw (some_len, back, w.pos_there, w.end_there, search_key)
        (rw (first_equal-rank rank in_range))

  get_id :
      get_lemma_id d search key (i + 1)
      ≡ (if pos' + rank * (i + 1) == 0 then none else some id_lemma)
  unfolding get_lemma_id
  get_id =
      let fits : ltb max_lemma_size (i + 1) ≡ false = ground arith in
      let back : i + 1 - 1 ≡ i = omega arith in
      let whole : start + rank ≡ id_lemma = omega (arith, w.from_start) in
      elim (Bool-cases (pos' + rank * (i + 1) == 0)) [
        | inl first ↦
            let test : ltb 0 (pos' + rank * (i + 1)) ≡ false = ground arith in
            rw (fits, find_key, back, w.pos_there, test, first)
        | inr later ↦
            let test : ltb 0 (pos' + rank * (i + 1)) ≡ true = ground arith in
            rw (fits, find_key, back, w.pos_there, test, w.start_there, whole, later)
      ]

-- The id of the word of an id is that id, where `bsearch` keeps its promise and the words of its length
-- are strictly sorted in a list that is laid out. Only for the word at the very start of the buffer the
-- lookup faults, by an assertion.
pub get_lemma_id-get_lemma_str :
    (d : DictList) (search : Bsearch) (id_lemma str_max i start next pos' next_pos : ℕ)
    → IsLaid d
    → IsBsearch search
    → IsWord d id_lemma i start next pos' next_pos
    → i < max_lemma_size
    → i + 2 ≤ str_max
    → IsOrdered d pos' ((next_pos - pos') / (i + 1)) (i + 1)
    → (str : List ℕ) × (get_lemma_str d id_lemma str_max ≡ some str)
      × (get_lemma_id d search str (i + 1)
          ≡ (if pos' + (id_lemma - start) * (i + 1) == 0 then none else some id_lemma))
get_lemma_id-get_lemma_str d search id_lemma str_max i start next pos' next_pos laid right w short
      room ordered =
    (
      take (i + 1) (drop (pos' + (id_lemma - start) * (i + 1)) d.buf),
      (get_lemma_str-word d id_lemma str_max i start next pos' next_pos laid w short room).0,
      get_id d laid search right id_lemma i start next pos' next_pos w short ordered,
    )
