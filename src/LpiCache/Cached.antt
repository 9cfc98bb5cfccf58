-- ===== src/LpiCache/Cached.antt =====
-- The cache holds a short list for each half id.
use scim_googlepinyin.Prelude.{
  ℕ, zero, suc, ◌+◌, ◌*◌, ◌≤◌, ◌<◌, ◌≡◌, ◌⊎◌, refl, true, false, not, List, [], ◌∷◌, some, arith,
  length, get_elem?, set, take, ltb, leb, ◌==◌, if◌then◌else◌, inl, inr, Bool-cases, get_elem?-lt,
  length-set, get_elem?-set, sym, ◌∙◌, lt→ltb, ==_refl, ap, subst, length-take, min, take-all,
  ltb→lt,
}
use scim_googlepinyin.Spelling.Base.{full_spl_id_start}
use scim_googlepinyin.SearchUtility.{LmaPsbItem}
use scim_googlepinyin.LpiCache.{
  LpiCache, max_lpi_cache_per_id, is_cached, copy_in, copy_out, put_cache, get_cache,
}

-- The abstract cache: a list of items for each id. `Holds c lists` says that `c` is laid out so that
-- each half id has its list, 15 items at most, in its part of the array.
pub record Holds (c : LpiCache) (lists : ℕ → List LmaPsbItem) : Type 0 where
  pub cache_size : length c.lpi_cache ≡ full_spl_id_start * max_lpi_cache_per_id
  pub len_size : length c.lpi_cache_len ≡ full_spl_id_start
  pub short : (id : ℕ) → id < full_spl_id_start → length (lists id) ≤ max_lpi_cache_per_id
  pub lens :
      (id : ℕ) → id < full_spl_id_start → get_elem? c.lpi_cache_len id ≡ some (length (lists id))
  pub items :
      (id at : ℕ)
      → id < full_spl_id_start
      → at < length (lists id)
      → get_elem? c.lpi_cache (id * max_lpi_cache_per_id + at) ≡ get_elem? (lists id) at

-- The lists with that of one id replaced.
pub update : (ℕ → List LmaPsbItem) → ℕ → List LmaPsbItem → ℕ → List LmaPsbItem
update lists id new other = if id == other then new else lists other

-- What the copying loop leaves.
record CopiesIn (rounds from to : ℕ) (lpi_items old new : List LmaPsbItem) : Type 0 where
  same_length : length new ≡ length old
  copied : (at : ℕ) → at < rounds → get_elem? new (to + at) ≡ get_elem? lpi_items (from + at)
  kept : (at : ℕ) → (at < to) ⊎ (to + rounds ≤ at) → get_elem? new at ≡ get_elem? old at

copy_in-CopiesIn :
    (rounds from to : ℕ) (lpi_items old : List LmaPsbItem)
    → from + rounds ≤ length lpi_items
    → to + rounds ≤ length old
    → (new : List LmaPsbItem) × (copy_in rounds from lpi_items to old ≡ some new)
      × CopiesIn rounds from to lpi_items old new
unfolding copy_in
copy_in-CopiesIn zero from to lpi_items old a b = (
  old,
  refl,
  record { same_length = refl; copied = λ at h. absurd (omega arith); kept = λ at h. refl },
)
copy_in-CopiesIn (suc rounds) from to lpi_items old a b =
    let (item, here) = get_elem?-lt lpi_items from (omega arith) in
    let fits : to < length old = omega arith in
    let same = length-set old to item in
    let (new, run, rest) =
      copy_in-CopiesIn rounds (from + 1) (to + 1) lpi_items (set old to item) (omega arith)
        (omega arith) in
    (
      new,
      rw (here, lt→ltb _ _ fits) run,
      record {
        same_length = rest.same_length ∙ same;
        copied = λ at h. copied_one new item here fits rest at h;
        kept = λ at h. kept_one new item fits rest at h;
      },
    )
  where
    written :
        (item : LmaPsbItem) (at : ℕ)
        → to < length old
        → get_elem? (set old to item) at ≡ (if to == at then some item else get_elem? old at)
    written item at fits = get_elem?-set old to at item fits

    copied_one :
        (new : List LmaPsbItem) (item : LmaPsbItem)
        → get_elem? lpi_items from ≡ some item
        → to < length old
        → CopiesIn rounds (from + 1) (to + 1) lpi_items (set old to item) new
        → (at : ℕ) → at < suc rounds
        → get_elem? new (to + at) ≡ get_elem? lpi_items (from + at)
    copied_one new item here fits rest zero h =
        let t : to + 0 ≡ to = omega arith in
        let f : from + 0 ≡ from = omega arith in
        let w : get_elem? (set old to item) to ≡ some item =
          written item to fits ∙ rw (==_refl to) in
        rw (t, f) (rest.kept to (inl (omega arith)) ∙ (w ∙ sym here))
    copied_one new item here fits rest (suc at) h =
        let t : to + suc at ≡ to + 1 + at = omega arith in
        let f : from + suc at ≡ from + 1 + at = omega arith in
        rw (t, f) (rest.copied at (omega arith))

    kept_one :
        (new : List LmaPsbItem) (item : LmaPsbItem)
        → to < length old
        → CopiesIn rounds (from + 1) (to + 1) lpi_items (set old to item) new
        → (at : ℕ) → (at < to) ⊎ (to + suc rounds ≤ at)
        → get_elem? new at ≡ get_elem? old at
    kept_one new item fits rest at (inl h) =
        let away : (to == at) ≡ false = ground arith in
        rest.kept at (inl (omega arith)) ∙ (written item at fits ∙ rw away)
    kept_one new item fits rest at (inr h) =
        let away : (to == at) ≡ false = ground arith in
        rest.kept at (inr (omega arith)) ∙ (written item at fits ∙ rw away)

get_elem?-take :
    (n at : ℕ) (xs : List LmaPsbItem) → at < n → get_elem? (take n xs) at ≡ get_elem? xs at
get_elem?-take zero at xs h = absurd (omega arith)
get_elem?-take (suc n) at [] h = refl
get_elem?-take (suc n) zero (x ∷ xs) h = refl
get_elem?-take (suc n) (suc at) (x ∷ xs) h = get_elem?-take n at xs (omega arith)

module _ (c : LpiCache) (lists : ℕ → List LmaPsbItem) (splid : ℕ) (lpi_items : List LmaPsbItem)
    (h : Holds c lists) (below : splid < full_spl_id_start) (new : List LmaPsbItem)
    (copies : CopiesIn
      (min max_lpi_cache_per_id (length lpi_items))
      0
      (splid * max_lpi_cache_per_id)
      lpi_items
      c.lpi_cache
      new) where
  abbrev stored : ℕ
  stored = min max_lpi_cache_per_id (length lpi_items)

  abbrev lists' : ℕ → List LmaPsbItem
  lists' = update lists splid (take max_lpi_cache_per_id lpi_items)

  at_other : (id : ℕ) → (splid == id) ≡ false → lists' id ≡ lists id
  unfolding update
  at_other id other = rw other

  at_same : (id : ℕ) → (splid == id) ≡ true → lists' id ≡ take max_lpi_cache_per_id lpi_items
  unfolding update
  at_same id same = rw same

  length-stored : length (take max_lpi_cache_per_id lpi_items) ≡ stored
  length-stored = length-take max_lpi_cache_per_id lpi_items

  short' : (id : ℕ) → id < full_spl_id_start → length (lists' id) ≤ max_lpi_cache_per_id
  short' id l = elim (Bool-cases (splid == id)) [
    | inl same ↦ rw (at_same id same) (omega (arith, length-stored))
    | inr other ↦ rw (at_other id other) (h.short id l)
  ]

  lens' :
      (id : ℕ)
      → id < full_spl_id_start
      → get_elem? (set c.lpi_cache_len splid stored) id ≡ some (length (lists' id))
  lens' id l =
      let fits : splid < length c.lpi_cache_len = omega (arith, h.len_size) in
      get_elem?-set c.lpi_cache_len splid id stored fits ∙ elim (Bool-cases (splid == id)) [
        | inl same ↦ rw (same, at_same id same) (ap some (sym length-stored))
        | inr other ↦ rw (other, at_other id other) (h.lens id l)
      ]

  items' :
      (id at : ℕ)
      → id < full_spl_id_start
      → at < length (lists' id)
      → get_elem? new (id * max_lpi_cache_per_id + at) ≡ get_elem? (lists' id) at
  items' id at l k = elim (Bool-cases (splid == id)) [
    | inl same ↦ items_same id at same k
    | inr other ↦ items_other id at l other k
  ]
    where
      apart :
          (id at : ℕ)
          → (splid == id) ≡ false
          → at < max_lpi_cache_per_id
          → (id * max_lpi_cache_per_id + at < splid * max_lpi_cache_per_id)
            ⊎ (splid * max_lpi_cache_per_id + stored ≤ id * max_lpi_cache_per_id + at)
      apart id at other k = elim (Bool-cases (ltb id splid)) [
        | inl before ↦ inl (omega (arith, ltb→lt id splid before))
        | inr behind ↦ let after : splid < id = ground arith in inr (omega arith)
      ]

      items_same :
          (id at : ℕ)
          → (splid == id) ≡ true
          → at < length (lists' id)
          → get_elem? new (id * max_lpi_cache_per_id + at) ≡ get_elem? (lists' id) at
      items_same id at same k =
          let e : splid ≡ id = ground arith in
          let inside : at < stored = omega (arith, length-stored, ap length (at_same id same)) in
          let from_zero : 0 + at ≡ at = omega arith in
          subst (λ i. get_elem? new (i * max_lpi_cache_per_id + at) ≡ get_elem? (lists' id) at) e
            (rw from_zero at (copies.copied at inside)
              ∙ (sym (get_elem?-take max_lpi_cache_per_id at lpi_items (omega arith))
                  ∙ ap (λ x. get_elem? x at) (sym (at_same id same))))

      items_other :
          (id at : ℕ)
          → id < full_spl_id_start
          → (splid == id) ≡ false
          → at < length (lists' id)
          → get_elem? new (id * max_lpi_cache_per_id + at) ≡ get_elem? (lists' id) at
      items_other id at l other k =
          let short = h.short id l in
          let inside : at < length (lists id) = omega (arith, ap length (at_other id other)) in
          copies.kept (id * max_lpi_cache_per_id + at) (apart id at other (omega arith))
          ∙ (h.items id at l inside ∙ ap (λ x. get_elem? x at) (sym (at_other id other)))

  put_Holds :
      Holds (record { lpi_cache = new; lpi_cache_len = set c.lpi_cache_len splid stored }) lists'
  put_Holds = record {
    cache_size = copies.same_length ∙ h.cache_size;
    len_size = length-set c.lpi_cache_len splid stored ∙ h.len_size;
    short = short';
    lens = lens';
    items = items';
  }

  put_run :
      copy_in stored 0 lpi_items (splid * max_lpi_cache_per_id) c.lpi_cache ≡ some new
      → put_cache c splid lpi_items (length lpi_items)
        ≡ some
            (record { lpi_cache = new; lpi_cache_len = set c.lpi_cache_len splid stored }, stored)
  unfolding put_cache
  put_run run =
      let num : (if ltb (length lpi_items) 15 then length lpi_items else 15) ≡ stored =
        ground arith in
      rw (num, run, lt→ltb splid (length c.lpi_cache_len) (omega (arith, h.len_size)))

-- Putting a list into the cache for a half id stores its first 15 items, and nothing else changes: the
-- cache holds the same lists otherwise. It does not fault where as many items are given as it is told.
pub put_cache-Holds :
    (c : LpiCache) (lists : ℕ → List LmaPsbItem) (splid : ℕ) (lpi_items : List LmaPsbItem)
    → Holds c lists
    → splid < full_spl_id_start
    → (c' : LpiCache) × (put_cache c splid lpi_items (length lpi_items)
        ≡ some (c', min max_lpi_cache_per_id (length lpi_items)))
      × Holds c' (update lists splid (take max_lpi_cache_per_id lpi_items))
put_cache-Holds c lists splid lpi_items h below =
    let n = min max_lpi_cache_per_id (length lpi_items) in
    let (new, run, copies) =
      copy_in-CopiesIn n 0 (splid * max_lpi_cache_per_id) lpi_items c.lpi_cache (omega arith)
        (omega (arith, h.cache_size)) in
    (
      record { lpi_cache = new; lpi_cache_len = set c.lpi_cache_len splid n },
      put_run c lists splid lpi_items h below new copies run,
      put_Holds c lists splid lpi_items h below new copies,
    )

copy_out-eq :
    (rounds from : ℕ) (cache list : List LmaPsbItem)
    → rounds ≤ length list
    → ((at : ℕ) → at < length list → get_elem? cache (from + at) ≡ get_elem? list at)
    → copy_out rounds from cache ≡ some (take rounds list)
unfolding copy_out
copy_out-eq zero from cache list h same = refl
copy_out-eq (suc rounds) from cache [] h same = absurd (omega arith)
copy_out-eq (suc rounds) from cache (x ∷ list) h same =
    let f : from + 0 ≡ from = omega arith in
    let here : get_elem? cache from ≡ some x = rw f at (same 0 (omega arith)) in
    let rest = copy_out-eq rounds (from + 1) cache list (omega arith) (λ at l.
      let e : from + suc at ≡ from + 1 + at = omega arith in
      rw e at (same (suc at) (omega arith))) in
    rw (here, rest)

-- Getting from the cache gives the list held for the half id, as many items as are asked for at most,
-- without a fault; an id is cached exactly where its list is not empty, and full ids are not.
pub get_cache-Holds :
    (c : LpiCache) (lists : ℕ → List LmaPsbItem) (splid lpi_max : ℕ)
    → Holds c lists
    → (splid < full_spl_id_start
        → (get_cache c splid lpi_max ≡ some (take lpi_max (lists splid)))
          × (is_cached c splid ≡ some (not (length (lists splid) == 0))))
      × (full_spl_id_start ≤ splid → is_cached c splid ≡ some false)
unfolding get_cache is_cached
get_cache-Holds c lists splid lpi_max h =
    (λ below. (got below, cached below), λ full. let e : leb 30 splid ≡ true = ground arith in rw e)
  where
    got : splid < full_spl_id_start → get_cache c splid lpi_max ≡ some (take lpi_max (lists splid))
    got below =
        let e = h.lens splid below in
        let read = λ (n : ℕ) (l : n ≤ length (lists splid)).
          copy_out-eq n (splid * max_lpi_cache_per_id) c.lpi_cache (lists splid) l
            (λ at k. h.items splid at below k) in
        elim (Bool-cases (ltb (length (lists splid)) lpi_max)) [
          | inl less ↦
              let whole = take-all (length (lists splid)) (lists splid) (omega arith) in
              let all = take-all lpi_max (lists splid) (ground arith) in
              rw (e, less, all) (read (length (lists splid)) (omega arith) ∙ ap some whole)
          | inr more ↦ rw (e, more) (read lpi_max (ground arith))
        ]

    cached : splid < full_spl_id_start → is_cached c splid ≡ some (not (length (lists splid) == 0))
    cached below = let e : leb 30 splid ≡ false = ground arith in rw (e, h.lens splid below)
