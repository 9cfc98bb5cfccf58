-- ===== src/Tests/Searches.antt =====
-- Rings of searches that go round the end of their slots.
use scim_googlepinyin.Prelude.{
  ℕ, zero, suc, ◌+◌, ◌*◌, ◌<◌, ◌≡◌, refl, true, List, [], ◌∷◌, some, arith, length, get_elem?,
}
use scim_googlepinyin.UserDict.{Signature, UserDictSearchable}
use scim_googlepinyin.UserDict.Cache.{
  wrap, UserDictCache, UserDictMissCache, Caches, user_dict_miss_cache, cache_at, load_cache,
  save_cache, cache_hit, cache_push,
}
use scim_googlepinyin.Prelude.Int.{ℤ, pos}
use scim_googlepinyin.UserDict.Heap.{UserDictScoreOffsetPair, reclaim_pairs}
use scim_googlepinyin.UserDict.Reclaim.{reclaim_pairs-IsPicked}
use scim_googlepinyin.UserDict.Picked.{IsPicked}
use scim_googlepinyin.UserDict.Ring.{IsRing}
use scim_googlepinyin.UserDict.Known.{Entry, IsCache, lookup, load_cache-lookup}
use scim_googlepinyin.UserDict.Saved.{IsReplaced, save_cache-IsCache, cache_push-cache_hit}

ring_of_four : {A : Type 0} (a b c d : A) → IsRing 4 (b ∷ c ∷ d ∷ a ∷ []) 3 2 (a ∷ b ∷ c ∷ [])
unfolding wrap
ring_of_four {A} a b c d = record {
  whole = refl;
  below = omega arith;
  room = omega arith;
  ends = refl;
  items = items;
}
  where
    items :
        (k : ℕ)
        → k < 3
        → get_elem? (b ∷ c ∷ d ∷ a ∷ []) (wrap 4 (3 + k)) ≡ get_elem? (a ∷ b ∷ c ∷ []) k
    items zero h = refl
    items (suc zero) h = refl
    items (suc (suc zero)) h = refl
    items (suc (suc (suc k))) h = absurd (omega arith)

-- The key of the letters in the signature.
abbrev letters_of : ℕ → UserDictSearchable
letters_of first = record {
  splids_len = 1;
  splid_start = 0 ∷ [];
  splid_count = 1 ∷ [];
  signature = record { first = first; second = 0 };
}

abbrev entry : ℕ → Entry
entry n = record { signature = record { first = n; second = 0 }; offset = 10 * n; length = n + 1 }

-- The searches 1, 2 and 3; the first stands in the last slot.
abbrev three : UserDictCache
three = record {
  signatures =
      (entry 2).signature ∷ (entry 3).signature ∷ (entry 9).signature ∷ (entry 1).signature ∷ [];
  offsets = 20 ∷ 30 ∷ 90 ∷ 10 ∷ [];
  lengths = 3 ∷ 4 ∷ 10 ∷ 2 ∷ [];
  head = 3;
  tail = 2;
}

three-IsCache : IsCache three (entry 1 ∷ entry 2 ∷ entry 3 ∷ [])
three-IsCache = record {
  signatures = ring_of_four _ _ _ _;
  offsets = ring_of_four _ _ _ _;
  lengths = ring_of_four _ _ _ _;
}

load_cache-lookup_example :
    load_cache (three ∷ []) (letters_of 2)
    ≡ some (lookup (record { first = 2; second = 0 }) (entry 1 ∷ entry 2 ∷ entry 3 ∷ []))
unfolding cache_at
load_cache-lookup_example =
    load_cache-lookup (three ∷ []) (letters_of 2) three (entry 1 ∷ entry 2 ∷ entry 3 ∷ []) refl
      three-IsCache

-- The oldest search goes.
save_cache-IsCache_example :
    (new : List UserDictCache) × (c' : UserDictCache) × (save_cache (three ∷ []) (letters_of 4) 40 5
      ≡ some new)
    × IsReplaced (three ∷ []) new (letters_of 4) c'
    × IsCache c' (entry 2 ∷ entry 3 ∷ entry 4 ∷ [])
unfolding cache_at
save_cache-IsCache_example =
    save_cache-IsCache (three ∷ []) (letters_of 4) 40 5 three (entry 1 ∷ entry 2 ∷ entry 3 ∷ [])
      refl three-IsCache

abbrev blank : Signature
blank = record { first = 0; second = 0 }

abbrev none_missed : UserDictMissCache
none_missed = record {
  signatures = blank ∷ blank ∷ blank ∷ blank ∷ blank ∷ blank ∷ blank ∷ [];
  head = 6;
  tail = 6;
}

abbrev searches : Caches
searches = record { caches = three ∷ []; miss_caches = none_missed ∷ [] }

-- The search 2 is pushed as not found though the other cache has it.
cache_push-cache_hit_example :
    (new : Caches) × (cache_push searches user_dict_miss_cache (letters_of 2) 0 0 ≡ some new)
    × (new.caches ≡ three ∷ [])
    × (cache_hit new (letters_of 2) ≡ some (some (0, 0)))
unfolding cache_at wrap
cache_push-cache_hit_example =
    cache_push-cache_hit searches (letters_of 2) 0 0 none_missed [] refl (record {
      whole = refl;
      below = omega arith;
      room = omega arith;
      ends = refl;
      items = λ k h. absurd (omega arith);
    })

-- Four words, and a ratio that asks for two of them.
abbrev scores : List ℤ
scores = pos 5 ∷ pos 3 ∷ pos 9 ∷ pos 1 ∷ []

reclaim_pairs-IsPicked_example :
    (pairs : List UserDictScoreOffsetPair) × (reclaim_pairs true scores 50 ≡ some pairs)
    × (length pairs ≡ 2)
    × IsPicked scores 4 pairs
reclaim_pairs-IsPicked_example = reclaim_pairs-IsPicked true scores 50 (omega arith) (omega arith)

-- The words that are found are those with the scores 1 and 3.
reclaims_the_lowest :
    reclaim_pairs true scores 50
    ≡ some (
        record { score = pos 3; offset_index = 1 }
        ∷ record { score = pos 1; offset_index = 3 }
        ∷ [])
unfolding reclaim_pairs
reclaims_the_lowest = refl

-- Two sons of the same score, higher than the top, stay where they are: the top is the score 1 then, and
-- the score 3 does not take its place, though it is lower than 5.
reclaims_another :
    reclaim_pairs true (pos 1 ∷ pos 5 ∷ pos 5 ∷ pos 3 ∷ []) 75
    ≡ some (
        record { score = pos 1; offset_index = 0 }
        ∷ record { score = pos 5; offset_index = 1 }
        ∷ record { score = pos 5; offset_index = 2 }
        ∷ [])
unfolding reclaim_pairs
reclaims_another = refl
