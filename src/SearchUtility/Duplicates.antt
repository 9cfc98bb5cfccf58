-- ===== src/SearchUtility/Duplicates.antt =====
-- The removal in place leaves what a removal from a list leaves.
use scim_googlepinyin.Prelude.{
  ℕ, zero, suc, ◌+◌, ◌≤◌, ◌≡◌, refl, Bool, true, false, not, List, [], ◌∷◌, ◌++◌, some, arith,
  length, get_elem?, set, take, ◌==◌, if◌then◌else◌, inl, inr, Bool-cases, ◌-◌, leb, sym, ◌∙◌, ap,
  length-append, length-set, subst,
}
use scim_googlepinyin.Prelude.Int.{ℤ, pos, sub_ℕ}
use scim_googlepinyin.Utf16.{utf16_strncmp}
use scim_googlepinyin.SearchUtility.{
  NPredictItem, differ, is_zero, keep_item, remove_loop, remove_duplicate_npre, max_predict_size,
}

-- Two strings of `n` characters are the same up to `n` characters or a 0.
pub same_up_to : ℕ → List ℕ → List ℕ → Bool
same_up_to zero xs ys = true
same_up_to (suc n) (x ∷ xs) (y ∷ ys) =
    let rest = same_up_to n xs ys in if x == y then (if x == 0 then true else rest) else false
same_up_to (suc n) xs ys = true

sub_ℕ-not_zero : (a b : ℕ) → (a == b) ≡ false → is_zero (sub_ℕ a b) ≡ false
unfolding is_zero
sub_ℕ-not_zero a b h = elim (Bool-cases (leb b a)) [
  | inl more ↦ let e : a - b ≡ suc (a - b - 1) = ground arith in rw (more, e)
  | inr less ↦ rw less
]

utf16_strncmp-same_up_to :
    (n : ℕ) (xs ys : List ℕ)
    → n ≤ length xs
    → n ≤ length ys
    → (v : ℤ) × (utf16_strncmp xs ys n ≡ some v) × (is_zero v ≡ same_up_to n xs ys)
unfolding utf16_strncmp same_up_to is_zero
utf16_strncmp-same_up_to zero xs ys p q = (pos 0, refl, refl)
utf16_strncmp-same_up_to (suc n) [] ys p q = absurd (omega arith)
utf16_strncmp-same_up_to (suc n) (x ∷ xs) [] p q = absurd (omega arith)
utf16_strncmp-same_up_to (suc n) (x ∷ xs) (y ∷ ys) p q = elim (Bool-cases (x == y)) [
  | inr other ↦ (sub_ℕ x y, rw other, rw other (sub_ℕ-not_zero x y other))
  | inl same ↦ elim (Bool-cases (x == 0)) [
    | inl end ↦
        let e : x ≡ 0 = ground arith in
        let f : y ≡ 0 = ground arith in (pos 0, rw (e, f), rw (e, f))
    | inr more ↦
        let (v, run, right) = utf16_strncmp-same_up_to n xs ys (omega arith) (omega arith) in
        (v, rw (same, more) run, rw (same, more) right)
  ]
]

module _ {F : Type 0} where
  get_elem?-append_at :
      (xs ys : List (NPredictItem F)) (y : NPredictItem F) (n : ℕ)
      → n ≡ length xs
      → get_elem? (xs ++ y ∷ ys) n ≡ some y
  get_elem?-append_at [] ys y zero e = refl
  get_elem?-append_at [] ys y (suc n) e = absurd (omega arith)
  get_elem?-append_at (x ∷ xs) ys y zero e = absurd (omega arith)
  get_elem?-append_at (x ∷ xs) ys y (suc n) e = get_elem?-append_at xs ys y n (omega arith)

  set-append_at :
      (xs ys : List (NPredictItem F)) (y v : NPredictItem F) (n : ℕ)
      → n ≡ length xs
      → set (xs ++ y ∷ ys) n v ≡ xs ++ v ∷ ys
  set-append_at [] ys y v zero e = refl
  set-append_at [] ys y v (suc n) e = absurd (omega arith)
  set-append_at (x ∷ xs) ys y v zero e = absurd (omega arith)
  set-append_at (x ∷ xs) ys y v (suc n) e = ap (◌∷◌ x) (set-append_at xs ys y v n (omega arith))

  append_assoc : (xs ys zs : List (NPredictItem F)) → (xs ++ ys) ++ zs ≡ xs ++ (ys ++ zs)
  append_assoc [] ys zs = refl
  append_assoc (x ∷ xs) ys zs = ap (◌∷◌ x) (append_assoc xs ys zs)

  take_append_self : (xs ys : List (NPredictItem F)) → take (length xs) (xs ++ ys) ≡ xs
  take_append_self [] ys = refl
  take_append_self (x ∷ xs) ys = ap (◌∷◌ x) (take_append_self xs ys)

  -- The items' strings have all their characters.
  abbrev pub AreSized : List (NPredictItem F) → Type 0
  AreSized [] = Unit
  AreSized (x ∷ xs) = (length x.pre_hzs ≡ max_predict_size) × AreSized xs

  -- Without the items that have the string of the item before, of those that are kept.
  pub dedup : NPredictItem F → List (NPredictItem F) → List (NPredictItem F)
  dedup last [] = []
  dedup last (x ∷ xs) =
      if same_up_to max_predict_size x.pre_hzs last.pre_hzs then dedup last xs else x ∷ dedup x xs

  differ-same_up_to :
      (a b : NPredictItem F)
      → length a.pre_hzs ≡ max_predict_size
      → length b.pre_hzs ≡ max_predict_size
      → differ a b ≡ some (not (same_up_to max_predict_size a.pre_hzs b.pre_hzs))
  unfolding differ
  differ-same_up_to a b p q =
      let (v, run, right) =
        utf16_strncmp-same_up_to max_predict_size a.pre_hzs b.pre_hzs (omega arith) (omega arith) in
      rw run (ap (λ x. some (not x)) right)

  -- The items that were dropped, when `x` is kept: it overwrites the first.
  shift : List (NPredictItem F) → NPredictItem F → List (NPredictItem F)
  shift [] x = []
  shift (j ∷ junk) x = junk ++ x ∷ []

  length-shift :
      (junk : List (NPredictItem F)) (x : NPredictItem F) → length (shift junk x) ≡ length junk
  unfolding shift
  length-shift [] x = refl
  length-shift (j ∷ junk) x = omega (arith, length-append junk (x ∷ []))

  module _ (kept : List (NPredictItem F)) (last x : NPredictItem F)
      (todo : List (NPredictItem F)) where
    keep_item-shift :
        (junk : List (NPredictItem F)) (at remain : ℕ)
        → remain ≡ length kept + 1
        → at ≡ remain + length junk
        → keep_item remain at x (kept ++ last ∷ (junk ++ x ∷ todo))
          ≡ (kept ++ last ∷ []) ++ x ∷ (shift junk x ++ todo)
    unfolding keep_item shift
    keep_item-shift [] at remain e f =
        let here : (remain == at) ≡ true = ground arith in
        rw here (sym (append_assoc kept (last ∷ []) (x ∷ todo)))
    keep_item-shift (j ∷ junk) at remain e f =
        let away : (remain == at) ≡ false = ground arith in
        let count : remain ≡ length (kept ++ last ∷ []) =
          omega (arith, length-append kept (last ∷ [])) in
        rw away (
          ap (λ l. set l remain x) (sym (append_assoc kept (last ∷ []) (j ∷ (junk ++ x ∷ todo))))
          ∙ (set-append_at (kept ++ last ∷ []) (junk ++ x ∷ todo) j x remain count
              ∙ ap (λ l. (kept ++ last ∷ []) ++ x ∷ l) (sym (append_assoc junk (x ∷ []) todo))))

    item_at :
        (junk : List (NPredictItem F)) (at : ℕ)
        → at ≡ length kept + 1 + length junk
        → get_elem? (kept ++ last ∷ (junk ++ x ∷ todo)) at ≡ some x
    item_at junk at e =
        ap (λ l. get_elem? l at) (sym (append_assoc kept (last ∷ junk) (x ∷ todo)))
        ∙ get_elem?-append_at (kept ++ last ∷ junk) todo x at
            (omega (arith, length-append kept (last ∷ junk)))

  -- After `rounds` more items the array begins with `out`, which is what remains.
  abbrev Leaves : ℕ → ℕ → ℕ → List (NPredictItem F) → List (NPredictItem F) → Type 0
  Leaves rounds at remain items out =
      (new : List (NPredictItem F)) × (remove_loop rounds at remain items ≡ some (new, length out))
      × (length new ≡ length items)
      × (take (length out) new ≡ out)

  remove_step :
      (rounds at remain : ℕ) (items : List (NPredictItem F)) (x last : NPredictItem F) (new : Bool)
      → get_elem? items at ≡ some x
      → get_elem? items (remain - 1) ≡ some last
      → differ x last ≡ some new
      → remove_loop (suc rounds) at remain items
        ≡ remove_loop rounds
            (at + 1)
            (if new then remain + 1 else remain)
            (if new then keep_item remain at x items else items)
  unfolding remove_loop
  remove_step rounds at remain items x last new a b c = rw (a, b, c)

  last_at :
      (kept rest : List (NPredictItem F)) (last : NPredictItem F) (remain : ℕ)
      → remain ≡ length kept + 1
      → get_elem? (kept ++ last ∷ rest) (remain - 1) ≡ some last
  last_at kept rest last remain e = get_elem?-append_at kept rest last (remain - 1) (omega arith)

  length-keep_item :
      (remain at : ℕ) (x : NPredictItem F) (items : List (NPredictItem F))
      → length (keep_item remain at x items) ≡ length items
  unfolding keep_item
  length-keep_item remain at x items = elim (Bool-cases (remain == at)) [
    | inl here ↦ rw here
    | inr away ↦ rw away (length-set items remain x)
  ]

  remove_end :
      (kept : List (NPredictItem F)) (last : NPredictItem F) (rest : List (NPredictItem F))
      (at remain : ℕ)
      → remain ≡ length kept + 1
      → Leaves 0 at remain (kept ++ last ∷ rest) (kept ++ last ∷ [])
  unfolding remove_loop
  remove_end kept last rest at remain e =
      let count : remain ≡ length (kept ++ last ∷ []) =
        omega (arith, length-append kept (last ∷ [])) in
      (
        kept ++ last ∷ rest,
        ap (λ n. some (kept ++ last ∷ rest, n)) count,
        refl,
        ap (λ l. take (length (kept ++ last ∷ [])) l) (sym (append_assoc kept (last ∷ []) rest))
            ∙ take_append_self (kept ++ last ∷ []) rest,
      )

  remove_on :
      (rounds at remain : ℕ) (items out : List (NPredictItem F)) (x last : NPredictItem F)
      (new : Bool)
      → get_elem? items at ≡ some x
      → get_elem? items (remain - 1) ≡ some last
      → differ x last ≡ some new
      → Leaves rounds
          (at + 1)
          (if new then remain + 1 else remain)
          (if new then keep_item remain at x items else items)
          out
      → length (if new then keep_item remain at x items else items) ≡ length items
      → Leaves (suc rounds) at remain items out
  remove_on rounds at remain items out x last new a b c (result, run, size, right) kept =
      (result, remove_step rounds at remain items x last new a b c ∙ run, size ∙ kept, right)

  remove_loop-dedup :
      (todo kept : List (NPredictItem F)) (last : NPredictItem F) (junk : List (NPredictItem F))
      (at remain : ℕ)
      → remain ≡ length kept + 1
      → at ≡ remain + length junk
      → length last.pre_hzs ≡ max_predict_size
      → AreSized todo
      → Leaves
          (length todo)
          at
          remain
          (kept ++ last ∷ (junk ++ todo))
          (kept ++ last ∷ dedup last todo)
  unfolding dedup
  remove_loop-dedup [] kept last junk at remain e f p q =
      remove_end kept last (junk ++ []) at remain e
  remove_loop-dedup (x ∷ todo) kept last junk at remain e f p q =
      let count = length-append junk (x ∷ []) in
      let item = item_at kept last x todo junk at (omega arith) in
      let before = last_at kept (junk ++ x ∷ todo) last remain e in
      let test = differ-same_up_to x last q.0 p in
      elim (Bool-cases (same_up_to max_predict_size x.pre_hzs last.pre_hzs)) [
        | inl same ↦
            let dropped : differ x last ≡ some false = rw same at test in
            rw same (
              remove_on (length todo) at remain _ _ x last false item before dropped
                (subst
                  (λ l.
                    Leaves (length todo) (at + 1) remain (kept ++ last ∷ l)
                      (kept ++ last ∷ dedup last todo))
                  (append_assoc junk (x ∷ []) todo)
                  (remove_loop-dedup todo kept last (junk ++ x ∷ []) (at + 1) remain e (omega arith)
                    p q.1))
                refl)
        | inr other ↦
            let new : differ x last ≡ some true = rw other at test in
            let more = length-append kept (last ∷ []) in
            let shifted = length-shift junk x in
            rw other (
              remove_on (length todo) at remain _ _ x last true item before new
                (subst
                  (λ l.
                    Leaves (length todo) (at + 1) (remain + 1) l (kept ++ last ∷ x ∷ dedup x todo))
                  (sym (keep_item-shift kept last x todo junk at remain e f))
                  (subst
                    (λ out.
                      Leaves (length todo) (at + 1) (remain + 1)
                        ((kept ++ last ∷ []) ++ x ∷ (shift junk x ++ todo)) out)
                    (append_assoc kept (last ∷ []) (x ∷ dedup x todo))
                    (remove_loop-dedup todo (kept ++ last ∷ []) x (shift junk x) (at + 1)
                      (remain + 1) (omega arith) (omega arith) q.0 q.1)))
                (length-keep_item remain at x (kept ++ last ∷ (junk ++ x ∷ todo))))
      ]

-- Where sorting gives as many items, with strings of their full size, the removal does not fault: what
-- remains, in the first places of the array, is the first item and each one whose string differs from
-- that of the item kept before it, in the order of sorting. The number of these is returned.
pub remove_duplicate_npre-dedup :
    {F : Type 0} (sort : List (NPredictItem F) → List (NPredictItem F)) (x first : NPredictItem F)
    (rest others : List (NPredictItem F))
    → sort (x ∷ rest) ≡ first ∷ others
    → length others ≡ length rest
    → AreSized (first ∷ others)
    → (new : List (NPredictItem F)) × (remove_duplicate_npre sort (x ∷ rest)
        ≡ some (new, length (first ∷ dedup first others)))
      × (length new ≡ length (x ∷ rest))
      × (take (length (first ∷ dedup first others)) new ≡ first ∷ dedup first others)
unfolding remove_duplicate_npre
remove_duplicate_npre-dedup sort x first rest others sorted count sized =
    let (new, run, size, right) =
      remove_loop-dedup others [] first [] 1 1 refl refl sized.0 sized.1 in
    (new, rw (sorted, sym count) run, omega arith, right)
