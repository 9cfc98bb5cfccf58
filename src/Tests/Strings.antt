-- ===== src/Tests/Strings.antt =====
-- The theorems on strings, orders and the cache at concrete inputs.
use scim_googlepinyin.Prelude.{
  ℕ, zero, suc, ◌+◌, ◌*◌, ◌≤◌, ◌<◌, ◌≡◌, inr, refl, true, false, List, [], ◌∷◌, some, arith, length,
  take, min, get_elem?,
}
use scim_googlepinyin.Prelude.Int.{ℤ, negsuc}
use scim_googlepinyin.Utf16.{utf16_strncmp, utf16_strncpy, utf16_strtok, utf16_atoi}
use scim_googlepinyin.Utf16.Compare.{is_word, lex, sign, utf16_strncmp-lex}
use scim_googlepinyin.Utf16.Copy.{IsCopied, utf16_strncpy-IsCopied, utf16_strncpy-overlap}
use scim_googlepinyin.SearchUtility.{LmaPsbItem, NPredictItem, remove_duplicate_npre}
use scim_googlepinyin.SearchUtility.Duplicates.{dedup, remove_duplicate_npre-dedup}
use scim_googlepinyin.LpiCache.{LpiCache, new_cache, put_cache, get_cache, is_cached}
use scim_googlepinyin.LpiCache.Cached.{Holds, update, put_cache-Holds, get_cache-Holds}

utf16_strncmp-lex_example :
    (v : ℤ) × (utf16_strncmp (1 ∷ 2 ∷ 0 ∷ []) (1 ∷ 3 ∷ 0 ∷ 9 ∷ []) 4 ≡ some v)
    × (sign v ≡ lex (take 4 (1 ∷ 2 ∷ [])) (take 4 (1 ∷ 3 ∷ [])))
unfolding is_word
utf16_strncmp-lex_example = utf16_strncmp-lex (1 ∷ 2 ∷ []) (1 ∷ 3 ∷ []) [] (9 ∷ []) 4 refl refl

utf16_strncpy-IsCopied_example :
    (new : List ℕ) × (utf16_strncpy (7 ∷ 8 ∷ 0 ∷ 1 ∷ 2 ∷ 3 ∷ []) 3 0 3 ≡ some new)
    × IsCopied (7 ∷ 8 ∷ 0 ∷ 1 ∷ 2 ∷ 3 ∷ []) new 3 0 3
utf16_strncpy-IsCopied_example =
    utf16_strncpy-IsCopied (7 ∷ 8 ∷ 0 ∷ 1 ∷ 2 ∷ 3 ∷ []) 3 0 3 (inr (omega arith)) (omega arith)
      (omega arith)

utf16_strncpy-overlap_example : utf16_strncpy (7 ∷ 8 ∷ 9 ∷ 0 ∷ []) 1 0 3 ≡ some (7 ∷ 8 ∷ 9 ∷ 0 ∷ [])
utf16_strncpy-overlap_example =
    utf16_strncpy-overlap (7 ∷ 8 ∷ 9 ∷ 0 ∷ []) 1 0 3 (omega arith) (omega arith) (omega arith)

-- The first word of ` ab c`.
strtok_ab :
    utf16_strtok (b' ' ∷ b'a' ∷ b'b' ∷ b' ' ∷ b'c' ∷ 0 ∷ []) 0
    ≡ some (record {
      buffer = b' ' ∷ b'a' ∷ b'b' ∷ 0 ∷ b'c' ∷ 0 ∷ [];
      token = some 1;
      token_size = 2;
      utf16_str_next = some 4;
    })
unfolding utf16_strtok
strtok_ab = refl

atoi_minus : utf16_atoi (b'-' ∷ b'4' ∷ b'2' ∷ 0 ∷ []) ≡ some (negsuc 41)
unfolding utf16_atoi
atoi_minus = refl

abbrev item : ℕ → NPredictItem ℕ
item first = record { psb = 0; pre_hzs = first ∷ 2 ∷ 3 ∷ 4 ∷ 5 ∷ 6 ∷ 7 ∷ []; his_len = 1 }

remove_duplicate_npre-dedup_example :
    (new : List (NPredictItem ℕ)) × (remove_duplicate_npre (λ x. x) (item 1 ∷ item 1 ∷ item 2 ∷ [])
      ≡ some (new, length (item 1 ∷ dedup (item 1) (item 1 ∷ item 2 ∷ []))))
    × (length new ≡ 3)
    × (take (length (item 1 ∷ dedup (item 1) (item 1 ∷ item 2 ∷ []))) new
        ≡ item 1 ∷ dedup (item 1) (item 1 ∷ item 2 ∷ []))
remove_duplicate_npre-dedup_example =
    remove_duplicate_npre-dedup (λ x. x) (item 1) (item 1) (item 1 ∷ item 2 ∷ [])
      (item 1 ∷ item 2 ∷ []) refl refl (refl, (refl, (refl, tt)))

abbrev lemma_item : ℕ → ℕ → LmaPsbItem
lemma_item len psb = record { id = 1; lma_len = len; psb = psb; hanzi = 0 }

junk : ℕ → List LmaPsbItem
junk zero = []
junk (suc n) = lemma_item 0 0 ∷ junk n

abbrev empty_cache : LpiCache
empty_cache = new_cache (junk 450)

abbrev no_lists : ℕ → List LmaPsbItem
no_lists id = []

zeros : ℕ → List ℕ
zeros zero = []
zeros (suc n) = 0 ∷ zeros n

get_elem?-zeros : (n id : ℕ) → id < n → get_elem? (zeros n) id ≡ some 0
unfolding zeros
get_elem?-zeros zero id h = absurd (omega arith)
get_elem?-zeros (suc n) zero h = refl
get_elem?-zeros (suc n) (suc id) h = get_elem?-zeros n id (omega arith)

empty_cache-Holds : Holds empty_cache no_lists
unfolding new_cache junk zeros
empty_cache-Holds = record {
  cache_size = refl;
  len_size = refl;
  short = λ id l. omega arith;
  lens = λ id l. get_elem?-zeros 30 id l;
  items = λ id at l k. absurd (omega arith);
}

put_cache-Holds_example :
    (c' : LpiCache) × (put_cache empty_cache 3 (lemma_item 2 10 ∷ []) 1 ≡ some (c', min 15 1))
    × Holds c' (update no_lists 3 (take 15 (lemma_item 2 10 ∷ [])))
put_cache-Holds_example =
    put_cache-Holds empty_cache no_lists 3 (lemma_item 2 10 ∷ []) empty_cache-Holds (omega arith)

-- The half id 0 has one item.
one_list : ℕ → List LmaPsbItem
one_list zero = lemma_item 2 10 ∷ []
one_list (suc id) = []

one_item : LpiCache
unfolding junk zeros
one_item = record { lpi_cache = lemma_item 2 10 ∷ junk 449; lpi_cache_len = 1 ∷ zeros 29 }

one_item-Holds : Holds one_item one_list
unfolding one_item one_list
one_item-Holds = record {
  cache_size = refl;
  len_size = refl;
  short = short_lists;
  lens = lens_of;
  items = items_of;
}
  where
    short_lists : (id : ℕ) → id < 30 → length (one_list id) ≤ 15
    short_lists zero l = omega arith
    short_lists (suc id) l = omega arith

    lens_of : (id : ℕ) → id < 30 → get_elem? one_item.lpi_cache_len id ≡ some (length (one_list id))
    lens_of zero l = refl
    lens_of (suc id) l = get_elem?-zeros 29 id (omega arith)

    items_of :
        (id at : ℕ)
        → id < 30
        → at < length (one_list id)
        → get_elem? one_item.lpi_cache (id * 15 + at) ≡ get_elem? (one_list id) at
    items_of zero zero l k = refl
    items_of zero (suc at) l k = absurd (omega arith)
    items_of (suc id) at l k = absurd (omega arith)

get_cache-Holds_example :
    (0 < 30
      → (get_cache one_item 0 7 ≡ some (take 7 (one_list 0))) × (is_cached one_item 0 ≡ some true))
    × (30 ≤ 0 → is_cached one_item 0 ≡ some false)
unfolding one_list
get_cache-Holds_example = get_cache-Holds one_item one_list 0 7 one_item-Holds
