-- ===== src/UserDict/Saved.antt =====
-- What a search that is saved changes in the caches.
use scim_googlepinyin.Prelude.{
  ℕ, ◌+◌, ◌-◌, ◌≡◌, refl, true, false, List, [], ◌∷◌, ◌++◌, some, length, set, drop, ◌==◌, inl, inr,
  Bool-cases, ◌∙◌, lt→ltb, ==_refl,
}
use scim_googlepinyin.UserDict.{Signature, UserDictSearchable}
use scim_googlepinyin.UserDict.Cache.{
  wrap, same_signature, user_dict_cache_size, user_dict_miss_cache_size, UserDictCache,
  UserDictMissCache, Caches, user_dict_miss_cache, cache_at, save_cache, save_miss_cache, cache_hit,
  cache_push, new_head,
}
use scim_googlepinyin.UserDict.Ring.{IsRing, newest, newest-IsRing, tail-lt}
use scim_googlepinyin.UserDict.Slots.{map-newest, cache_at-set}
use scim_googlepinyin.UserDict.Known.{Entry, IsCache, is_member, load_miss_cache-is_member}

-- Of the caches only that for the length of the key is another one.
pub record IsReplaced {A : Type 0} (old new : List A) (s : UserDictSearchable) (c : A)
    : Type 0 where
  pub here : cache_at new s ≡ some c
  pub others :
      (t : UserDictSearchable)
      → (s.splids_len == t.splids_len) ≡ false
      → cache_at new t ≡ cache_at old t

set-IsReplaced :
    {A : Type 0} (caches : List A) (s : UserDictSearchable) (c c' : A)
    → cache_at caches s ≡ some c
    → IsReplaced caches (set caches (s.splids_len - 1) c') s c'
set-IsReplaced caches s c c' at = record {
  here = cache_at-set caches s s c c' at ∙ rw (==_refl s.splids_len);
  others = λ t other. cache_at-set caches s t c c' at ∙ rw other;
}

-- The cache after the search was saved.
abbrev saved : UserDictCache → Signature → ℕ → ℕ → UserDictCache
saved c signature offset len =
    let next = wrap user_dict_cache_size (c.tail + 1) in
    record {
      signatures = set c.signatures c.tail signature;
      offsets = set c.offsets c.tail offset;
      lengths = set c.lengths c.tail len;
      head = new_head user_dict_cache_size next c.head;
      tail = next;
    }

abbrev saved_miss : UserDictMissCache → Signature → UserDictMissCache
saved_miss c signature =
    let next = wrap user_dict_miss_cache_size (c.tail + 1) in
    record {
      signatures = set c.signatures c.tail signature;
      head = new_head user_dict_miss_cache_size next c.head;
      tail = next;
    }

-- Saving a search never faults where the cache for the length of its key holds a list of entries: that cache
-- holds then the new entry behind them, without the oldest where that would make four, and the other
-- caches stay.
pub save_cache-IsCache :
    (caches : List UserDictCache) (s : UserDictSearchable) (offset len : ℕ) (c : UserDictCache)
    (entries : List Entry)
    → cache_at caches s ≡ some c
    → IsCache c entries
    → (new : List UserDictCache) × (c' : UserDictCache) × (save_cache caches s offset len
        ≡ some new)
      × IsReplaced caches new s c'
      × IsCache c' (
          newest user_dict_cache_size entries
            (record { signature = s.signature; offset = offset; length = len }))
unfolding save_cache
save_cache-IsCache caches s offset len c entries at h =
    let e : Entry = record { signature = s.signature; offset = offset; length = len } in
    let fits = lt→ltb _ _ (tail-lt _ _ _ _ _ h.signatures s.signature) in
    (
      set caches (s.splids_len - 1) (saved c s.signature offset len),
      saved c s.signature offset len,
      rw (at, fits),
      set-IsReplaced caches s c _ at,
      record {
        signatures =
            rw (map-newest (λ (e : Entry). e.signature) user_dict_cache_size entries e)
              (newest-IsRing _ _ _ _ _ h.signatures s.signature);
        offsets =
            rw (map-newest (λ (e : Entry). e.offset) user_dict_cache_size entries e)
              (newest-IsRing _ _ _ _ _ h.offsets offset);
        lengths =
            rw (map-newest (λ (e : Entry). e.length) user_dict_cache_size entries e)
              (newest-IsRing _ _ _ _ _ h.lengths len);
      },
    )

save_miss_cache-IsRing :
    (caches : List UserDictMissCache) (s : UserDictSearchable) (c : UserDictMissCache)
    (l : List Signature)
    → cache_at caches s ≡ some c
    → IsRing user_dict_miss_cache_size c.signatures c.head c.tail l
    → (new : List UserDictMissCache) × (c' : UserDictMissCache) × (save_miss_cache caches s
        ≡ some new)
      × IsReplaced caches new s c'
      × IsRing user_dict_miss_cache_size c'.signatures c'.head c'.tail
          (newest user_dict_miss_cache_size l s.signature)
unfolding save_miss_cache
save_miss_cache-IsRing caches s c l at h =
    let fits = lt→ltb _ _ (tail-lt _ _ _ _ _ h s.signature) in
    (
      set caches (s.splids_len - 1) (saved_miss c s.signature),
      saved_miss c s.signature,
      rw (at, fits),
      set-IsReplaced caches s c _ at,
      newest-IsRing _ _ _ _ _ h s.signature,
    )

same_signature_refl : (s : Signature) → same_signature s s ≡ true
unfolding same_signature
same_signature_refl s = rw (==_refl s.first, ==_refl s.second)

is_member-append_last : (s : Signature) (l : List Signature) → is_member s (l ++ s ∷ []) ≡ true
unfolding is_member
is_member-append_last s [] = rw (same_signature_refl s)
is_member-append_last s (x ∷ l) = elim (Bool-cases (same_signature x s)) [
  | inl hit ↦ rw hit
  | inr miss ↦ rw miss (is_member-append_last s l)
]

is_member-newest :
    (s : Signature) (l : List Signature) → is_member s (newest user_dict_miss_cache_size l s) ≡ true
is_member-newest s l = elim (Bool-cases (length l + 1 == user_dict_miss_cache_size)) [
  | inl full ↦ rw full (dropped l full)
  | inr space ↦ rw space (is_member-append_last s l)
]
  where
    dropped :
        (l : List Signature)
        → (length l + 1 == user_dict_miss_cache_size) ≡ true
        → is_member s (drop 1 (l ++ s ∷ [])) ≡ true
    dropped [] full = let short : (1 == 7) ≡ false = refl in cc
    dropped (x ∷ l) full = is_member-append_last s l

-- After a key was pushed as not found, it is known, with an empty range, whatever the cache of the found
-- ones says of it, and nothing faults.
pub cache_push-cache_hit :
    (caches : Caches) (s : UserDictSearchable) (offset len : ℕ) (m : UserDictMissCache)
    (l : List Signature)
    → cache_at caches.miss_caches s ≡ some m
    → IsRing user_dict_miss_cache_size m.signatures m.head m.tail l
    → (new : Caches) × (cache_push caches user_dict_miss_cache s offset len ≡ some new)
      × (new.caches ≡ caches.caches)
      × (cache_hit new s ≡ some (some (0, 0)))
unfolding cache_push cache_hit
cache_push-cache_hit caches s offset len m l at h =
    let (new, m', run, replaced, ring) = save_miss_cache-IsRing caches.miss_caches s m l at h in
    (
      record caches { miss_caches = new },
      rw run,
      refl,
      rw (load_miss_cache-is_member new s m' _ replaced.here ring, is_member-newest s.signature l),
    )
