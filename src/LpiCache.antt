-- ===== src/LpiCache.antt =====
-- src/share/lpicache.cpp: the cache of the items for half ids.
pub mod Cached
use scim_googlepinyin.Prelude.{
  ℕ, zero, suc, ◌+◌, ◌-◌, ◌*◌, Bool, true, false, not, List, [], ◌∷◌, ◌++◌, Option, none, some, ltb,
  leb, ◌==◌, if◌then◌else◌, length, get_elem?, set,
}
use scim_googlepinyin.Prelude.Errors.{◌>>=◌, ◌>>◌, assert}
use scim_googlepinyin.Spelling.Base.{full_spl_id_start}
use scim_googlepinyin.SearchUtility.{LmaPsbItem}

abbrev pub max_lpi_cache_per_id : ℕ
max_lpi_cache_per_id = 15

pub record LpiCache : Type 0 where
  pub lpi_cache : List LmaPsbItem
  pub lpi_cache_len : List ℕ

replicate : ℕ → List ℕ
replicate zero = []
replicate (suc n) = 0 ∷ replicate n

-- The constructor; `uninit` is what the new array holds.
unfoldable pub new_cache : List LmaPsbItem → LpiCache
unfolding replicate
new_cache uninit = record { lpi_cache = uninit; lpi_cache_len = replicate full_spl_id_start }

unfoldable pub is_cached : LpiCache → ℕ → Option Bool
is_cached c splid =
    if leb full_spl_id_start splid
    then some false
    else do len ← get_elem? c.lpi_cache_len splid; some (not (len == 0))

-- The loop that copies `rounds` items from place `from` on to place `to` on; a read or write outside
-- is a fault.
unfoldable pub copy_in : ℕ → ℕ → List LmaPsbItem → ℕ → List LmaPsbItem → Option (List LmaPsbItem)
copy_in zero from lpi_items to cache = some cache
copy_in (suc rounds) from lpi_items to cache = do
  item ← get_elem? lpi_items from
  assert (ltb to (length cache))
  copy_in rounds (from + 1) lpi_items (to + 1) (set cache to item)

-- The cache, and the number of items that went in.
unfoldable pub put_cache : LpiCache → ℕ → List LmaPsbItem → ℕ → Option (LpiCache × ℕ)
unfolding copy_in
put_cache c splid lpi_items lpi_num = do
  let num = if ltb lpi_num max_lpi_cache_per_id then lpi_num else max_lpi_cache_per_id
  cache ← copy_in num 0 lpi_items (splid * max_lpi_cache_per_id) c.lpi_cache
  assert (ltb splid (length c.lpi_cache_len))
  some (record { lpi_cache = cache; lpi_cache_len = set c.lpi_cache_len splid num }, num)

-- The loop that reads `rounds` items from place `from` on.
unfoldable pub copy_out : ℕ → ℕ → List LmaPsbItem → Option (List LmaPsbItem)
copy_out zero from cache = some []
copy_out (suc rounds) from cache = do
  item ← get_elem? cache from
  rest ← copy_out rounds (from + 1) cache
  some (item ∷ rest)

-- The items, `lpi_max` at most; their number is returned.
unfoldable pub get_cache : LpiCache → ℕ → ℕ → Option (List LmaPsbItem)
unfolding copy_out
get_cache c splid lpi_max = do
  len ← get_elem? c.lpi_cache_len splid
  copy_out (if ltb len lpi_max then len else lpi_max) (splid * max_lpi_cache_per_id) c.lpi_cache
