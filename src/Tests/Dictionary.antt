-- ===== src/Tests/Dictionary.antt =====
-- A list of four words, a search, and the lookups in the list.
use scim_googlepinyin.Prelude.{
  ℕ, zero, suc, ◌+◌, ◌-◌, ◌*◌, ◌≤◌, ◌<◌, ◌≡◌, refl, Bool, true, false, ◌&&◌, List, [], ◌∷◌, Option,
  none, some, arith, get_elem?, leb, if◌then◌else◌, inl, inr, Bool-cases, sym, ◌∙◌, ◌==◌, some_inj,
  Option-cases, ap,
}
use scim_googlepinyin.Prelude.Errors.{◌>>=◌}
use scim_googlepinyin.Prelude.Int.{ℤ, pos, negsuc}
use scim_googlepinyin.Utf16.Compare.{sign}
use scim_googlepinyin.SearchUtility.{is_zero}
use scim_googlepinyin.DictList.{DictList, Bsearch, get_lemma_id, get_lemma_str, cmp_func}
use scim_googlepinyin.DictList.Words.{IsLaid}
use scim_googlepinyin.DictList.Lookup.{
  IsBsearch, IsDescending, IsOrdered, get_lemma_id-get_lemma_str,
}

-- A search from the first element on.
linear : ℕ → ℕ → (ℕ → Option ℤ) → Option (Option ℕ)
linear zero i cmp = some none
linear (suc rounds) i cmp = do
  v ← cmp i
  let rest = linear rounds (i + 1) cmp
  if is_zero v then some (some i) else rest

is_zero-eq : (v : ℤ) → is_zero v ≡ true → v ≡ pos 0
unfolding is_zero
is_zero-eq (pos zero) h = refl
is_zero-eq (pos (suc n)) h = cc
is_zero-eq (negsuc n) h = cc

zero_is_zero : ¬ (is_zero (pos 0) ≡ false)
unfolding is_zero
zero_is_zero h = cc

linear_sound :
    (rounds i n : ℕ) (cmp : ℕ → Option ℤ) (k : ℕ)
    → i + rounds ≡ n
    → linear rounds i cmp ≡ some (some k)
    → (k < n) × (cmp k ≡ some (pos 0))
unfolding linear
linear_sound zero i n cmp k e f = let lost : ◌≡◌ {A = Option ℕ} none (some k) = some_inj _ _ f in cc
linear_sound (suc rounds) i n cmp k e f = elim (Option-cases (cmp i)) [
  | inl fault ↦ let lost : ◌≡◌ {A = Option (Option ℕ)} none (some (some k)) = rw fault at f in cc
  | inr (v, run) ↦ elim (Bool-cases (is_zero v)) [
    | inl hit ↦
        let found : some (some i) ≡ some (some k) = rw (run, hit) at f in
        let same : i ≡ k = cc in rw (sym same) (omega arith, run ∙ ap some (is_zero-eq v hit))
    | inr miss ↦ linear_sound rounds (i + 1) n cmp k (omega arith) (rw (run, miss) at f)
  ]
]

linear_complete :
    (rounds i n : ℕ) (cmp : ℕ → Option ℤ) (k : ℕ)
    → i + rounds ≡ n
    → IsDescending n cmp
    → i ≤ k
    → k < n
    → cmp k ≡ some (pos 0)
    → (j : ℕ) × (linear rounds i cmp ≡ some (some j))
unfolding linear
linear_complete zero i n cmp k e sorted le lt f = absurd (omega arith)
linear_complete (suc rounds) i n cmp k e sorted le lt f =
    let (v, w, run, run_k, up, down) = sorted i k le lt in
    elim (Bool-cases (is_zero v)) [
      | inl hit ↦ (i, rw (run, hit))
      | inr miss ↦
          let (j, rest) =
            linear_complete rounds (i + 1) n cmp k (omega arith) sorted (further v run miss) lt f in
          (j, rw (run, miss) rest)
    ]
  where
    further : (v : ℤ) → cmp i ≡ some v → is_zero v ≡ false → i + 1 ≤ k
    further v run miss = elim (Bool-cases (i == k)) [
      | inl here ↦
          let same : i ≡ k = ground arith in
          let zero_v : v ≡ pos 0 = some_inj _ _ (sym run ∙ (ap cmp same ∙ f)) in
          let broken : is_zero (pos 0) ≡ false = rw zero_v at miss in absurd (zero_is_zero broken)
      | inr away ↦ ground arith
    ]

abbrev search_all : Bsearch
search_all n cmp = linear n 0 cmp

search_all-IsBsearch : IsBsearch search_all
search_all-IsBsearch = record {
  sound = λ n cmp k e. linear_sound n 0 n cmp k (omega arith) e;
  complete =
      λ n cmp k sorted lt e. linear_complete n 0 n cmp k (omega arith) sorted (omega arith) lt e;
}

-- The words 5, 7, 56 and 59, with the ids from 1 on; the last is beyond the range.
abbrev words : DictList
words = record {
  initialized = true;
  scis_hz = [];
  scis_splid = [];
  buf = 5 ∷ 7 ∷ 5 ∷ 6 ∷ 5 ∷ 9 ∷ [];
  start_pos = 0 ∷ 2 ∷ 6 ∷ 6 ∷ 6 ∷ 6 ∷ 6 ∷ 6 ∷ 6 ∷ [];
  start_id = 1 ∷ 3 ∷ 4 ∷ 4 ∷ 4 ∷ 4 ∷ 4 ∷ 4 ∷ 4 ∷ [];
}

-- The ids and places go together, for lengths from `len` on.
go_together : ℕ → List ℕ → List ℕ → Bool
go_together len (a ∷ b ∷ ids) (p ∷ q ∷ places) =
    (leb a b && leb (p + (b - a) * len) q && leb q 6)
    && go_together (len + 1) (b ∷ ids) (q ∷ places)
go_together len ids places = true

go_together-at :
    (len i : ℕ) (ids places : List ℕ) (a b p q : ℕ)
    → go_together len ids places ≡ true
    → get_elem? ids i ≡ some a
    → get_elem? ids (i + 1) ≡ some b
    → get_elem? places i ≡ some p
    → get_elem? places (i + 1) ≡ some q
    → (a ≤ b) × (p + (b - a) * (len + i) ≤ q) × (q ≤ 6)
unfolding go_together
go_together-at len i [] places a b p q h ea eb ep eq = cc
go_together-at len zero (x ∷ []) places a b p q h ea eb ep eq = cc
go_together-at len (suc i) (x ∷ []) places a b p q h ea eb ep eq = cc
go_together-at len i (x ∷ y ∷ ids) [] a b p q h ea eb ep eq = cc
go_together-at len zero (x ∷ y ∷ ids) (z ∷ []) a b p q h ea eb ep eq = cc
go_together-at len (suc i) (x ∷ y ∷ ids) (z ∷ []) a b p q h ea eb ep eq = cc
go_together-at len zero (x ∷ y ∷ ids) (z ∷ u ∷ places) a b p q h ea eb ep eq =
    let e1 : x ≡ a = some_inj _ _ ea in
    let e2 : y ≡ b = some_inj _ _ eb in
    let e3 : z ≡ p = some_inj _ _ ep in
    let e4 : u ≡ q = some_inj _ _ eq in
    let same : len + 0 ≡ len = omega arith in
    rw (same, sym e1, sym e2, sym e3, sym e4) (ground arith, ground arith, ground arith)
go_together-at len (suc i) (x ∷ y ∷ ids) (z ∷ u ∷ places) a b p q h ea eb ep eq =
    let k : suc i + 1 ≡ suc (i + 1) = omega arith in
    let more : len + suc i ≡ len + 1 + i = omega arith in
    rw more (
      go_together-at (len + 1) i (y ∷ ids) (u ∷ places) a b p q (ground arith) ea (rw k at eb) ep
        (rw k at eq))

words-IsLaid : IsLaid words
unfolding go_together
words-IsLaid = record {
  ready = refl;
  ids = refl;
  positions = refl;
  consecutive = λ i start next p q es en ep eq.
      let one_more : i + 1 ≡ 1 + i = omega arith in
      let at = go_together-at 1 i words.start_id words.start_pos start next p q refl es en ep eq in
      (at.0, rw one_more at.1, at.2);
}

words-IsOrdered : IsOrdered words 2 2 2
unfolding cmp_func sign
words-IsOrdered zero zero a b = (pos 0, refl, refl)
words-IsOrdered zero (suc zero) a b = (negsuc 2, refl, refl)
words-IsOrdered (suc zero) zero a b = (pos 3, refl, refl)
words-IsOrdered (suc zero) (suc zero) a b = (pos 0, refl, refl)
words-IsOrdered zero (suc (suc k)) a b = absurd (omega arith)
words-IsOrdered (suc zero) (suc (suc k)) a b = absurd (omega arith)
words-IsOrdered (suc (suc j)) k a b = absurd (omega arith)

-- The word 56.
get_lemma_id-get_lemma_str_example :
    (str : List ℕ) × (get_lemma_str words 3 9 ≡ some str)
    × (get_lemma_id words search_all str 2 ≡ some 3)
get_lemma_id-get_lemma_str_example =
    get_lemma_id-get_lemma_str words search_all 3 9 1 3 4 2 6 words-IsLaid search_all-IsBsearch
      (record {
        start_there = refl;
        next_there = refl;
        pos_there = refl;
        end_there = refl;
        from_start = omega arith;
        before_next = omega arith;
      })
      (omega arith) (omega arith) words-IsOrdered
