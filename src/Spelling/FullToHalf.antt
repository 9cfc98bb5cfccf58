-- ===== src/Spelling/FullToHalf.antt =====
-- The map from full ids to half ids that `build_f2h` makes.
use scim_googlepinyin.Prelude.{
  ℕ, zero, suc, ◌+◌, ◌-◌, ◌≤◌, ◌<◌, ◌≡◌, ◌⊎◌, ◌↔◌, inl, inr, refl, true, false, ◌&&◌, ◌||◌, List,
  [], ◌∷◌, Option, none, some, arith, length, get_elem?, set, ltb, leb, ◌==◌, Bool-cases,
  get_elem?-lt, ◌∙◌, length-set, get_elem?-set, ==_refl, get_elem?-ne_none, ltb→lt, ltb→ge,
}
use scim_googlepinyin.Spelling.Base.{SpellingNode, SpellingTrie, full_spl_id_start}
use scim_googlepinyin.Spelling.Ids.{map_full_ids, map_half_ids, build_f2h, full_to_half}

get_elem?-ge : (xs : List ℕ) (i : ℕ) → length xs ≤ i → get_elem? xs i ≡ none
get_elem?-ge [] i h = refl
get_elem?-ge (x ∷ xs) zero h = absurd (omega arith)
get_elem?-ge (x ∷ xs) (suc i) h = get_elem?-ge xs i (omega arith)

-- The array after the inner loop: the ids of the range have the half id, the others are kept.
record Fills (hid fid rounds : ℕ) (old new : List ℕ) : Type 0 where
  same_length : length new ≡ length old
  filled :
      (at : ℕ) → fid ≤ at → at < fid + rounds → get_elem? new (at - full_spl_id_start) ≡ some hid
  kept :
      (at : ℕ)
      → full_spl_id_start ≤ at
      → (at < fid) ⊎ (fid + rounds ≤ at)
      → get_elem? new (at - full_spl_id_start) ≡ get_elem? old (at - full_spl_id_start)

map_full_ids-Fills :
    (hid rounds fid : ℕ) (f2h : List ℕ)
    → (0 < rounds → full_spl_id_start ≤ fid)
    → (0 < rounds → fid + rounds ≤ full_spl_id_start + length f2h)
    → (new : List ℕ) × (map_full_ids hid rounds fid f2h ≡ some new) × Fills hid fid rounds f2h new
unfolding map_full_ids
map_full_ids-Fills hid zero fid f2h lo hi = (
  f2h,
  refl,
  record { same_length = refl; filled = λ at a b. absurd (omega arith); kept = λ at a b. refl },
)
map_full_ids-Fills hid (suc rounds) fid f2h lo hi =
    let lo' = lo (omega arith) in
    let hi' = hi (omega arith) in
    let at_id = fid - full_spl_id_start in
    let f2h' = set f2h at_id hid in
    let same = length-set f2h at_id hid in
    let (new, run, fills) =
      map_full_ids-Fills hid rounds (fid + 1) f2h' (λ p. omega arith) (λ p. omega arith) in
    (
      new,
      rw (test lo' hi') run,
      record {
        same_length = omega (arith, fills.same_length);
        filled = λ at a b. filled_or_first new fills at a b lo' (omega arith);
        kept = λ at a b. kept_but_first new fills at a b lo' (omega arith);
      },
    )
  where
    filled_or_first :
        (new : List ℕ)
        → Fills hid (fid + 1) rounds (set f2h (fid - full_spl_id_start) hid) new
        → (at : ℕ) → fid ≤ at
        → at < fid + suc rounds
        → full_spl_id_start ≤ fid
        → fid - full_spl_id_start < length f2h
        → get_elem? new (at - full_spl_id_start) ≡ some hid
    filled_or_first new fills at a b c d = elim (Bool-cases (at == fid)) [
      | inl first ↦
          let e : at ≡ fid = ground arith in
          rw e (
            fills.kept fid c (inl (omega arith))
            ∙ (get_elem?-set f2h (fid - full_spl_id_start) (fid - full_spl_id_start) hid d
                ∙ rw (==_refl (fid - full_spl_id_start))))
      | inr later ↦ fills.filled at (ground arith) (omega arith)
    ]

    apart :
        (at : ℕ)
        → full_spl_id_start ≤ at
        → (at < fid) ⊎ (fid + suc rounds ≤ at)
        → full_spl_id_start ≤ fid
        → (fid - full_spl_id_start == at - full_spl_id_start) ≡ false
    apart at a b c = ground arith

    wider :
        (at : ℕ) → (at < fid) ⊎ (fid + suc rounds ≤ at) → (at < fid + 1) ⊎ (fid + 1 + rounds ≤ at)
    wider at (inl b) = inl (omega arith)
    wider at (inr b) = inr (omega arith)

    kept_but_first :
        (new : List ℕ)
        → Fills hid (fid + 1) rounds (set f2h (fid - full_spl_id_start) hid) new
        → (at : ℕ) → full_spl_id_start ≤ at
        → (at < fid) ⊎ (fid + suc rounds ≤ at)
        → full_spl_id_start ≤ fid
        → fid - full_spl_id_start < length f2h
        → get_elem? new (at - full_spl_id_start) ≡ get_elem? f2h (at - full_spl_id_start)
    kept_but_first new fills at a b c d =
        let other : (fid - full_spl_id_start == at - full_spl_id_start) ≡ false = apart at a b c in
        fills.kept at a (wider at b)
        ∙ (get_elem?-set f2h (fid - full_spl_id_start) (at - full_spl_id_start) hid d ∙ rw other)

    test :
        full_spl_id_start ≤ fid
        → fid + suc rounds ≤ full_spl_id_start + length f2h
        → (leb full_spl_id_start fid && ltb (fid - full_spl_id_start) (length f2h)) ≡ true
    test a b = ground arith

module _ (t : SpellingTrie) where
  -- The full id belongs to the half id.
  abbrev pub IsOf : ℕ → ℕ → Type 0
  IsOf hid full_id =
      (start num : ℕ) × (get_elem? t.h2f_start hid ≡ some start)
      × (get_elem? t.h2f_num hid ≡ some num)
      × (start ≤ full_id)
      × (full_id < start + num)

  -- The ranges of full ids are ranges of the spellings.
  pub record IsRanged : Type 0 where
    pub starts : length t.h2f_start ≡ full_spl_id_start
    pub nums : length t.h2f_num ≡ full_spl_id_start
    pub ranged :
        (hid start num : ℕ)
        → get_elem? t.h2f_start hid ≡ some start
        → get_elem? t.h2f_num hid ≡ some num
        → 0 < num
        → (full_spl_id_start ≤ start) × (start + num ≤ full_spl_id_start + t.spelling_num)

  -- After the half ids from `hid` on were mapped.
  record MapsFrom (hid rounds : ℕ) (old new : List ℕ) : Type 0 where
    same_length : length new ≡ length old
    last_one :
        (full_id h : ℕ)
        → full_spl_id_start ≤ full_id
        → hid ≤ h
        → h < hid + rounds
        → IsOf h full_id
        → ((h' : ℕ) → h < h' → h' < hid + rounds → ¬ IsOf h' full_id)
        → get_elem? new (full_id - full_spl_id_start) ≡ some h
    kept :
        (full_id : ℕ)
        → full_spl_id_start ≤ full_id
        → ((h' : ℕ) → hid ≤ h' → h' < hid + rounds → ¬ IsOf h' full_id)
        → get_elem? new (full_id - full_spl_id_start) ≡ get_elem? old (full_id - full_spl_id_start)

  module _ (hid rounds : ℕ) (f2h f2h' new : List ℕ) (start num : ℕ)
      (es : get_elem? t.h2f_start hid ≡ some start) (en : get_elem? t.h2f_num hid ≡ some num)
      (fills : Fills hid start num f2h f2h') (maps : MapsFrom (hid + 1) rounds f2h' new) where
    outside : (full_id : ℕ) → ¬ IsOf hid full_id → (full_id < start) ⊎ (start + num ≤ full_id)
    outside full_id not_of = elim (Bool-cases (ltb full_id start)) [
      | inl below ↦ inl (ltb→lt _ _ below)
      | inr above ↦ elim (Bool-cases (ltb full_id (start + num))) [
        | inl inside ↦ absurd (not_of (start, num, es, en, ltb→ge _ _ above, ltb→lt _ _ inside))
        | inr beyond ↦ inr (ltb→ge _ _ beyond)
      ]
    ]

    kept_step :
        (full_id : ℕ)
        → full_spl_id_start ≤ full_id
        → ((h' : ℕ) → hid ≤ h' → h' < hid + suc rounds → ¬ IsOf h' full_id)
        → get_elem? new (full_id - full_spl_id_start) ≡ get_elem? f2h (full_id - full_spl_id_start)
    kept_step full_id a none_of =
        maps.kept full_id a (λ h' x y. none_of h' (omega arith) (omega arith))
        ∙ fills.kept full_id a (outside full_id (none_of hid (omega arith) (omega arith)))

    last_step :
        (full_id h : ℕ)
        → full_spl_id_start ≤ full_id
        → hid ≤ h
        → h < hid + suc rounds
        → IsOf h full_id
        → ((h' : ℕ) → h < h' → h' < hid + suc rounds → ¬ IsOf h' full_id)
        → get_elem? new (full_id - full_spl_id_start) ≡ some h
    last_step full_id h a b c (start', num', es', en', lo, hi) last = elim (Bool-cases (h == hid)) [
      | inl first ↦
          let e : h ≡ hid = ground arith in
          let e1 : start' ≡ start = cc in
          let e2 : num' ≡ num = cc in
          rw e (
            maps.kept full_id a (λ h' x y. last h' (omega arith) (omega arith))
            ∙ fills.filled full_id (omega arith) (omega arith))
      | inr later ↦
          let further : hid + 1 ≤ h = ground arith in
          maps.last_one full_id h a further (omega arith) (start', num', es', en', lo, hi)
            (λ h' x y. last h' x (omega arith))
    ]

    MapsFrom-step : MapsFrom hid (suc rounds) f2h new
    MapsFrom-step = record {
      same_length = omega (arith, maps.same_length, fills.same_length);
      last_one = last_step;
      kept = kept_step;
    }

  map_half_ids-MapsFrom :
      IsRanged
      → (rounds hid : ℕ) (f2h : List ℕ) → hid + rounds ≡ full_spl_id_start
      → length f2h ≡ t.spelling_num
      → (new : List ℕ) × (map_half_ids t rounds hid f2h ≡ some new) × MapsFrom hid rounds f2h new
  unfolding map_half_ids
  map_half_ids-MapsFrom ranges zero hid f2h e l = (
    f2h,
    refl,
    record {
      same_length = refl;
      last_one = λ full_id h a b c of last. absurd (omega arith);
      kept = λ full_id a none_of. refl;
    },
  )
  map_half_ids-MapsFrom ranges (suc rounds) hid f2h e l =
      let (start, es) = get_elem?-lt t.h2f_start hid (omega (arith, ranges.starts)) in
      let (num, en) = get_elem?-lt t.h2f_num hid (omega (arith, ranges.nums)) in
      let range = ranges.ranged hid start num es en in
      let (f2h', fill, fills) =
        map_full_ids-Fills hid num start f2h (λ p. (range p).0) (λ p. omega (arith, (range p).1)) in
      let (new, run, maps) =
        map_half_ids-MapsFrom ranges rounds (hid + 1) f2h' (omega arith)
          (omega (arith, fills.same_length)) in
      (new, rw (es, en, fill) run, MapsFrom-step hid rounds f2h f2h' new start num es en fills maps)

-- Where the ranges of the half ids are ranges of the spellings, `build_f2h` does not fault, whatever
-- the new array holds, and then `full_to_half` maps each full id to the last half id whose range has
-- it: to Zh, and not to Z, where both have it. Nothing but the map is changed.
pub full_to_half-build_f2h :
    (t : SpellingTrie) (uninit : List ℕ) (root : SpellingNode)
    → IsRanged t
    → length uninit ≡ t.spelling_num
    → t.root ≡ some root
    → (f2h : List ℕ) × (build_f2h t uninit ≡ some (record t { f2h = f2h }))
      × (length f2h ≡ t.spelling_num)
      × ((full_id half_id : ℕ)
          → full_spl_id_start ≤ full_id
          → full_id < full_spl_id_start + t.spelling_num
          → half_id < full_spl_id_start
          → IsOf t half_id full_id
          → ((later : ℕ) → half_id < later → later < full_spl_id_start → ¬ IsOf t later full_id)
          → full_to_half (record t { f2h = f2h }) full_id ≡ some half_id)
unfolding build_f2h full_to_half
full_to_half-build_f2h t uninit root ranges size there =
    let (f2h, run, maps) =
      map_half_ids-MapsFrom t ranges full_spl_id_start 0 uninit (omega arith) size in
    (
      f2h,
      rw run,
      omega (arith, maps.same_length),
      λ full_id half_id a b c of last.
          let inside : (ltb full_id full_spl_id_start
                || ltb (t.spelling_num + full_spl_id_start) full_id)
              ≡ false =
            ground arith in
          rw (there, inside) (maps.last_one full_id half_id a (omega arith) (omega arith) of last),
    )

-- With a map for all spellings `full_to_half` reads outside the map for exactly one id, the one behind
-- the last full id: the test of the bound lets it pass.
pub full_to_half-eq-none :
    (t : SpellingTrie) (root : SpellingNode) (id : ℕ)
    → t.root ≡ some root
    → length t.f2h ≡ t.spelling_num
    → (full_to_half t id ≡ none) ↔ (id ≡ full_spl_id_start + t.spelling_num)
unfolding full_to_half
full_to_half-eq-none t root id there size =
    (only, λ e. rw (there, at_end e) (get_elem?-ge t.f2h (id - full_spl_id_start) (omega arith)))
  where
    at_end :
        id ≡ full_spl_id_start + t.spelling_num
        → (ltb id full_spl_id_start || ltb (t.spelling_num + full_spl_id_start) id) ≡ false
    at_end e = ground arith

    only : full_to_half t id ≡ none → id ≡ full_spl_id_start + t.spelling_num
    only e =
        elim (Bool-cases
          (ltb id full_spl_id_start || ltb (t.spelling_num + full_spl_id_start) id)) [
            | inl refused ↦
                let zero_id : ◌≡◌ {A = Option ℕ} (some 0) none = rw (there, refused) at e in cc
            | inr passed ↦
                let missing : get_elem? t.f2h (id - full_spl_id_start) ≡ none =
                  rw (there, passed) at e in
                elim (Bool-cases (ltb (id - full_spl_id_start) (length t.f2h))) [
                  | inl within ↦ absurd (get_elem?-ne_none t.f2h _ (ltb→lt _ _ within) missing)
                  | inr beyond ↦ ground (arith, ltb→ge _ _ beyond)
                ]
          ]
