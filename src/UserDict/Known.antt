-- ===== src/UserDict/Known.antt =====
-- The caches of searches against lists of what was put in.
use scim_googlepinyin.Prelude.{
  ℕ, suc, ◌+◌, ◌<◌, ◌≡◌, refl, Bool, ◌&&◌, true, false, List, [], ◌∷◌, Option, none, some, arith,
  length, get_elem?, ◌==◌, if◌then◌else◌, inl, inr, Bool-cases, sym, ◌∙◌, ap, subst, ==_refl, map,
}
use scim_googlepinyin.UserDict.{Signature, UserDictSearchable}
use scim_googlepinyin.UserDict.Cache.{
  wrap, same_signature, find_slot, user_dict_cache_size, user_dict_miss_cache_size, UserDictCache,
  UserDictMissCache, cache_at, read_found, is_found, load_cache, load_miss_cache,
}
use scim_googlepinyin.UserDict.Ring.{
  IsRing, index_from, find_slot-index_from, wrap_below, wrap-before,
}
use scim_googlepinyin.UserDict.Slots.{length-map}

-- A search that is known: its key, and the place of what it found.
pub record Entry : Type 0 where
  pub signature : Signature
  pub offset : ℕ
  pub length : ℕ

pub record IsCache (c : UserDictCache) (entries : List Entry) : Type 0 where
  pub signatures :
      IsRing user_dict_cache_size c.signatures c.head c.tail
        (map (λ (e : Entry). e.signature) entries)
  pub offsets :
      IsRing user_dict_cache_size c.offsets c.head c.tail (map (λ (e : Entry). e.offset) entries)
  pub lengths :
      IsRing user_dict_cache_size c.lengths c.head c.tail (map (λ (e : Entry). e.length) entries)

-- The oldest entry with the signature.
pub lookup : Signature → List Entry → Option (ℕ × ℕ)
lookup s [] = none
lookup s (e ∷ entries) =
    let rest = lookup s entries in
    if e.signature.first == s.first && e.signature.second == s.second
    then some (e.offset, e.length)
    else rest

unfoldable pub is_member : Signature → List Signature → Bool
is_member s [] = false
is_member s (x ∷ l) = let rest = is_member s l in if same_signature x s then true else rest

-- The loop over a ring that is not empty finds the first place with the signature.
module _ (size head tail : ℕ) (slots : List Signature) (s x : Signature) (l : List Signature)
    (r : IsRing size slots head tail (x ∷ l)) where
  find_ring : find_slot size size slots tail s head ≡ some (index_from size head 0 s (x ∷ l))
  find_ring =
      let zero_on : head + 0 ≡ head = omega arith in
      let from : wrap size (head + 0) ≡ head =
        ap (wrap size) zero_on ∙ wrap_below size head r.below in
      let len : 0 + length l + 1 ≡ length (x ∷ l) = omega arith in
      let ends : tail ≡ wrap size (head + (0 + length l + 1)) =
        r.ends ∙ ap (λ n. wrap size (head + n)) (sym len) in
      subst (λ i. find_slot size size slots tail s i ≡ some (index_from size head 0 s (x ∷ l))) from
        (find_slot-index_from size head tail 0 size slots s x l r.below (omega (arith, r.room)) ends
          (λ j h.
            ap (λ n. get_elem? slots (wrap size (head + n))) (zero_plus j)
            ∙ r.items j (omega arith))
          (omega (arith, r.room)))
    where
      zero_plus : (j : ℕ) → 0 + j ≡ j
      zero_plus j = omega arith

  tail-ne_head : (head == tail) ≡ false
  tail-ne_head = rw r.ends (
      rw (wrap_below size head r.below) at (
        wrap-before size head (head + suc (length l)) (omega arith) (omega (arith, r.room))
          (omega (arith, r.room, r.below))))

module _ (c : UserDictCache) (s : Signature) where
  -- What is read at the place found is the entry.
  read_found-index_from :
      (k : ℕ) (entries : List Entry)
      → ((j : ℕ)
          → j < length entries
          → get_elem? c.offsets (wrap user_dict_cache_size (c.head + (k + j)))
            ≡ get_elem? (map (λ (e : Entry). e.offset) entries) j)
      → ((j : ℕ)
          → j < length entries
          → get_elem? c.lengths (wrap user_dict_cache_size (c.head + (k + j)))
            ≡ get_elem? (map (λ (e : Entry). e.length) entries) j)
      → read_found c
          (index_from user_dict_cache_size c.head k s (map (λ (e : Entry). e.signature) entries))
        ≡ some (lookup s entries)
  unfolding read_found index_from lookup same_signature
  read_found-index_from k [] os ls = refl
  read_found-index_from k (e ∷ entries) os ls =
      let zero_on : k + 0 ≡ k = omega arith in
      let offset : get_elem? c.offsets (wrap user_dict_cache_size (c.head + k)) ≡ some e.offset =
        rw zero_on at (os 0 (omega arith)) in
      let len : get_elem? c.lengths (wrap user_dict_cache_size (c.head + k)) ≡ some e.length =
        rw zero_on at (ls 0 (omega arith)) in
      elim (Bool-cases (same_signature e.signature s)) [
        | inl hit ↦ rw (hit, offset, len)
        | inr miss ↦ rw miss (
            read_found-index_from (k + 1) entries
              (λ j h.
                ap (λ n. get_elem? c.offsets (wrap user_dict_cache_size (c.head + n))) (next j)
                ∙ os (suc j) (omega arith))
              (λ j h.
                ap (λ n. get_elem? c.lengths (wrap user_dict_cache_size (c.head + n))) (next j)
                ∙ ls (suc j) (omega arith)))
      ]
    where
      next : (j : ℕ) → k + 1 + j ≡ k + suc j
      next j = omega arith

is_found-index_from :
    (size head k : ℕ) (s : Signature) (l : List Signature)
    → is_found (index_from size head k s l) ≡ is_member s l
unfolding is_found index_from is_member
is_found-index_from size head k s [] = refl
is_found-index_from size head k s (x ∷ l) = elim (Bool-cases (same_signature x s)) [
  | inl hit ↦ rw hit
  | inr miss ↦ rw miss (is_found-index_from size head (k + 1) s l)
]

empty-tail :
    {A : Type 0} (size head tail : ℕ) (slots : List A)
    → IsRing size slots head tail []
    → (head == tail) ≡ true
empty-tail size head tail slots r =
    let zero_on : head + 0 ≡ head = omega arith in
    let e : tail ≡ head = r.ends ∙ (ap (wrap size) zero_on ∙ wrap_below size head r.below) in
    rw e (==_refl head)

-- Loading gives the oldest entry with the signature of the key, and nothing where there is none, for a
-- cache that holds the entries. The loop ends, and nothing outside the arrays is read.
pub load_cache-lookup :
    (caches : List UserDictCache) (s : UserDictSearchable) (c : UserDictCache)
    (entries : List Entry)
    → cache_at caches s ≡ some c
    → IsCache c entries
    → load_cache caches s ≡ some (lookup s.signature entries)
unfolding load_cache lookup
load_cache-lookup caches s c [] at h = rw (at, empty-tail _ _ _ _ h.signatures)
load_cache-lookup caches s c (e ∷ entries) at h =
    rw
      (
        at,
        tail-ne_head _ _ _ _ s.signature _ _ h.signatures,
        find_ring _ _ _ _ s.signature _ _ h.signatures,
      )
      (read_found-index_from c s.signature 0 (e ∷ entries)
        (λ j lt.
          ap (λ n. get_elem? c.offsets (wrap user_dict_cache_size (c.head + n))) (zero_plus j)
          ∙ h.offsets.items j (omega (arith, length-map (λ (e : Entry). e.offset) entries)))
        (λ j lt.
          ap (λ n. get_elem? c.lengths (wrap user_dict_cache_size (c.head + n))) (zero_plus j)
          ∙ h.lengths.items j (omega (arith, length-map (λ (e : Entry). e.length) entries))))
  where
    zero_plus : (j : ℕ) → 0 + j ≡ j
    zero_plus j = omega arith

pub load_miss_cache-is_member :
    (caches : List UserDictMissCache) (s : UserDictSearchable) (c : UserDictMissCache)
    (l : List Signature)
    → cache_at caches s ≡ some c
    → IsRing user_dict_miss_cache_size c.signatures c.head c.tail l
    → load_miss_cache caches s ≡ some (is_member s.signature l)
unfolding load_miss_cache is_member
load_miss_cache-is_member caches s c [] at h = rw (at, empty-tail _ _ _ _ h)
load_miss_cache-is_member caches s c (x ∷ l) at h =
    rw (at, tail-ne_head _ _ _ _ s.signature _ _ h, find_ring _ _ _ _ s.signature _ _ h)
      (ap some (is_found-index_from _ c.head 0 s.signature (x ∷ l)))
