-- ===== src/UserDict/Cache.antt =====
-- src/share/userdict.cpp: the caches of searches, a ring buffer for each length of the key. One holds
-- the places that searches found, the other the keys that were not found.
use scim_googlepinyin.Prelude.{
  ℕ, zero, suc, ◌+◌, ◌-◌, Bool, true, false, ◌&&◌, List, Option, none, some, ltb, leb, ◌==◌,
  if◌then◌else◌, length, get_elem?, set,
}
use scim_googlepinyin.Prelude.Errors.{◌>>=◌, ◌>>◌, assert}
use scim_googlepinyin.UserDict.{Signature, UserDictSearchable}

abbrev pub user_dict_cache_size : ℕ
user_dict_cache_size = 4

abbrev pub user_dict_miss_cache_size : ℕ
user_dict_miss_cache_size = 7

pub record UserDictMissCache : Type 0 where
  pub signatures : List Signature
  pub head : ℕ
  pub tail : ℕ

pub record UserDictCache : Type 0 where
  pub signatures : List Signature
  pub offsets : List ℕ
  pub lengths : List ℕ
  pub head : ℕ
  pub tail : ℕ

pub data UserDictCacheType : Type 0 where
  user_dict_cache user_dict_miss_cache : UserDictCacheType

-- Of the dictionary the two arrays of caches.
pub record Caches : Type 0 where
  pub caches : List UserDictCache
  pub miss_caches : List UserDictMissCache

-- A place that is one round too far goes back by one round.
unfoldable pub wrap : ℕ → ℕ → ℕ
wrap size i = if leb size i then i - size else i

-- The head when the tail moves to `next`.
unfoldable pub new_head : ℕ → ℕ → ℕ → ℕ
unfolding wrap
new_head size next head = if next == head then wrap size (head + 1) else head

unfoldable pub same_signature : Signature → Signature → Bool
same_signature a b = a.first == b.first && a.second == b.second

-- The loop from the place `i` on, with fuel; the place of the signature.
unfoldable pub find_slot : ℕ → ℕ → List Signature → ℕ → Signature → ℕ → Option (Option ℕ)
unfolding wrap same_signature
find_slot size zero signatures tail s i = none
find_slot size (suc fuel) signatures tail s i = do
  here ← get_elem? signatures i
  let next = wrap size (i + 1)
  let rest = find_slot size fuel signatures tail s next
  if same_signature here s then some (some i) else if next == tail then some none else rest

-- The element for a length of the key; there is none for an empty one.
unfoldable pub cache_at : {A : Type 0} → List A → UserDictSearchable → Option A
cache_at caches s = if s.splids_len == 0 then none else get_elem? caches (s.splids_len - 1)

-- What stands at the place that was found.
unfoldable pub read_found : UserDictCache → Option ℕ → Option (Option (ℕ × ℕ))
read_found cache none = some none
read_found cache (some i) = do
  offset ← get_elem? cache.offsets i
  length ← get_elem? cache.lengths i
  some (some (offset, length))

unfoldable pub is_found : Option ℕ → Bool
is_found none = false
is_found (some i) = true

-- The offset and the length, if the key is found.
unfoldable pub load_cache : List UserDictCache → UserDictSearchable → Option (Option (ℕ × ℕ))
unfolding cache_at find_slot read_found
load_cache caches s = do
  cache ← cache_at caches s
  if cache.head == cache.tail then some none else do
    found ←
        find_slot user_dict_cache_size user_dict_cache_size cache.signatures cache.tail s.signature
          cache.head
    read_found cache found

-- A write outside the arrays is a fault.
unfoldable pub save_cache :
    List UserDictCache → UserDictSearchable → ℕ → ℕ → Option (List UserDictCache)
unfolding cache_at new_head wrap
save_cache caches s offset length = do
  cache ← cache_at caches s
  assert (ltb cache.tail user_dict_cache_size)
  let next = wrap user_dict_cache_size (cache.tail + 1)
  some (
      set caches (s.splids_len - 1) (record {
        signatures = set cache.signatures cache.tail s.signature;
        offsets = set cache.offsets cache.tail offset;
        lengths = set cache.lengths cache.tail length;
        head = new_head user_dict_cache_size next cache.head;
        tail = next;
      }))

unfoldable pub load_miss_cache : List UserDictMissCache → UserDictSearchable → Option Bool
unfolding cache_at find_slot is_found
load_miss_cache caches s = do
  cache ← cache_at caches s
  if cache.head == cache.tail then some false else do
    found ←
        find_slot user_dict_miss_cache_size user_dict_miss_cache_size cache.signatures cache.tail
          s.signature cache.head
    some (is_found found)

unfoldable pub save_miss_cache :
    List UserDictMissCache → UserDictSearchable → Option (List UserDictMissCache)
unfolding cache_at new_head wrap
save_miss_cache caches s = do
  cache ← cache_at caches s
  assert (ltb cache.tail user_dict_miss_cache_size)
  let next = wrap user_dict_miss_cache_size (cache.tail + 1)
  some (
      set caches (s.splids_len - 1) (record {
        signatures = set cache.signatures cache.tail s.signature;
        head = new_head user_dict_miss_cache_size next cache.head;
        tail = next;
      }))

-- Whether the key is known, with the offset and the length; of a key that was not found before they
-- are 0.
unfoldable pub cache_hit : Caches → UserDictSearchable → Option (Option (ℕ × ℕ))
unfolding load_cache load_miss_cache
cache_hit c s = do
  hit ← load_miss_cache c.miss_caches s
  let found = load_cache c.caches s
  if hit then some (some (0, 0)) else found

unfoldable pub cache_push : Caches → UserDictCacheType → UserDictSearchable → ℕ → ℕ → Option Caches
unfolding save_cache save_miss_cache
cache_push c user_dict_miss_cache s offset length = do
  miss_caches ← save_miss_cache c.miss_caches s
  some (record c { miss_caches = miss_caches })
cache_push c user_dict_cache s offset length = do
  caches ← save_cache c.caches s offset length
  some (record c { caches = caches })
