-- ===== src/UserDict/Slots.antt =====
-- Lists of elements and their parts, and the array with a cache for each length.
use scim_googlepinyin.Prelude.{
  ℕ, zero, suc, ◌+◌, ◌-◌, ◌≡◌, refl, false, List, [], ◌∷◌, ◌++◌, Option, none, some, arith, length,
  get_elem?, set, drop, ◌==◌, if◌then◌else◌, inl, inr, Bool-cases, get_elem?-set, ◌∙◌, ap, map,
  get_elem?-some, some_inj,
}
use scim_googlepinyin.UserDict.{UserDictSearchable}
use scim_googlepinyin.UserDict.Cache.{cache_at}
use scim_googlepinyin.UserDict.Ring.{newest}

pub length-map : {A B : Type 0} (f : A → B) (l : List A) → length (map f l) ≡ length l
length-map f [] = refl
length-map f (x ∷ l) = ap suc (length-map f l)

get_elem?-map :
    {A B : Type 0} (f : A → B) (l : List A) (k : ℕ) (x : A)
    → get_elem? l k ≡ some x
    → get_elem? (map f l) k ≡ some (f x)
get_elem?-map f [] k x e = cc
get_elem?-map f (y ∷ l) zero x e = let same : y ≡ x = some_inj _ _ e in rw same
get_elem?-map f (y ∷ l) (suc k) x e = get_elem?-map f l k x e

map-append :
    {A B : Type 0} (f : A → B) (l : List A) (x : A) → map f (l ++ x ∷ []) ≡ map f l ++ f x ∷ []
map-append f [] x = refl
map-append f (y ∷ l) x = rw (map-append f l x)

map-drop_one : {A B : Type 0} (f : A → B) (l : List A) → map f (drop 1 l) ≡ drop 1 (map f l)
map-drop_one f [] = refl
map-drop_one f (x ∷ l) = refl

pub map-newest :
    {A B : Type 0} (f : A → B) (size : ℕ) (l : List A) (x : A)
    → map f (newest size l x) ≡ newest size (map f l) (f x)
map-newest f size l x = elim (Bool-cases (length l + 1 == size)) [
  | inl full ↦ rw (length-map f l, full) (map-drop_one f (l ++ x ∷ []) ∙ rw (map-append f l x))
  | inr space ↦ rw (length-map f l, space) (map-append f l x)
]

-- The array of caches after one of them was replaced.
pub cache_at-set :
    {A : Type 0} (caches : List A) (s t : UserDictSearchable) (c c' : A)
    → cache_at caches s ≡ some c
    → cache_at (set caches (s.splids_len - 1) c') t
      ≡ (if s.splids_len == t.splids_len then some c' else cache_at caches t)
unfolding cache_at
cache_at-set caches s t c c' e = elim (Bool-cases (s.splids_len == 0)) [
  | inl empty ↦ let lost : ◌≡◌ {A = Option _} none (some c) = rw empty at e in cc
  | inr long ↦
      let at : get_elem? caches (s.splids_len - 1) ≡ some c = rw long at e in
      let fits = get_elem?-some caches (s.splids_len - 1) at in
      elim (Bool-cases (t.splids_len == 0)) [
        | inl none_t ↦
            let other : (s.splids_len == t.splids_len) ≡ false = ground arith in rw (none_t, other)
        | inr long_t ↦
            let same : (s.splids_len - 1 == t.splids_len - 1) ≡ (s.splids_len == t.splids_len) =
              ground arith in
            rw (long_t)
              (get_elem?-set caches (s.splids_len - 1) (t.splids_len - 1) c' fits ∙ rw same)
      ]
]
