-- ===== src/UserDict/Ring.antt =====
-- The ring buffers of the caches keep the newest entries, in their order.
use scim_googlepinyin.Prelude.{
  ℕ, zero, suc, ◌+◌, ◌-◌, ◌≤◌, ◌<◌, ◌≡◌, refl, false, List, [], ◌∷◌, ◌++◌, Option, none, some,
  arith, length, get_elem?, set, drop, ◌==◌, if◌then◌else◌, inl, inr, Bool-cases, get_elem?-set,
  length-set, length-append, get_elem?-append_left, get_elem?-append_last, sym, ◌∙◌, ==_refl,
}
use scim_googlepinyin.UserDict.{Signature}
use scim_googlepinyin.UserDict.Cache.{wrap, new_head, same_signature, find_slot}

wrap-wrap : (size a b : ℕ) → a + b < size + size → wrap size (wrap size a + b) ≡ wrap size (a + b)
unfolding wrap
wrap-wrap size a b h = ground arith

wrap-lt : (size a : ℕ) → a < size + size → wrap size a < size
unfolding wrap
wrap-lt size a h = ground arith

wrap-ne :
    (size a b : ℕ) → a < b → b < a + size → b < size + size → (wrap size b == wrap size a) ≡ false
unfolding wrap
wrap-ne size a b h k l = ground arith

pub wrap-before :
    (size a b : ℕ) → a < b → b < a + size → b < size + size → (wrap size a == wrap size b) ≡ false
unfolding wrap
wrap-before size a b h k l = ground arith

pub wrap_below : (size a : ℕ) → a < size → wrap size a ≡ a
unfolding wrap
wrap_below size a h = ground arith

wrap_size : (size a : ℕ) → wrap size (a + size) ≡ a
unfolding wrap
wrap_size size a = ground arith

module _ {A : Type 0} (size : ℕ) where
  -- The elements `l`, from the oldest to the newest, stand in the slots from the head on, and the tail
  -- is the place behind them.
  pub record IsRing (slots : List A) (head tail : ℕ) (l : List A) : Type 0 where
    pub whole : length slots ≡ size
    pub below : head < size
    pub room : length l < size
    pub ends : tail ≡ wrap size (head + length l)
    pub items : (k : ℕ) → k < length l → get_elem? slots (wrap size (head + k)) ≡ get_elem? l k

  -- One more element; where there are `size` of them then, the oldest goes.
  abbrev pub newest : List A → A → List A
  newest l x = if length l + 1 == size then drop 1 (l ++ x ∷ []) else l ++ x ∷ []

  get_elem?-drop_one : (l : List A) (k : ℕ) → get_elem? (drop 1 l) k ≡ get_elem? l (k + 1)
  get_elem?-drop_one [] k = refl
  get_elem?-drop_one (x ∷ l) k = let e : k + 1 ≡ suc k = omega arith in rw e

  length-drop_one : (l : List A) → length (drop 1 l) ≡ length l - 1
  length-drop_one [] = refl
  length-drop_one (x ∷ l) = omega arith

  module _ (slots : List A) (head tail : ℕ) (l : List A) (r : IsRing slots head tail l)
      (x : A) where
    pub tail-lt : tail < size
    tail-lt = rw r.ends (wrap-lt size (head + length l) (omega (arith, r.below, r.room)))

    length-more : length (l ++ x ∷ []) ≡ length l + 1
    length-more = omega (arith, length-append l (x ∷ []))

    -- The slots hold one more element, all of them where the ring was full.
    more_items :
        (k : ℕ)
        → k < length l + 1
        → get_elem? (set slots tail x) (wrap size (head + k)) ≡ get_elem? (l ++ x ∷ []) k
    more_items k h =
        let fits : tail < length slots = omega (arith, tail-lt, r.whole) in
        elim (Bool-cases (k == length l)) [
          | inl same ↦
              let e : k ≡ length l = ground arith in
              rw (e, sym r.ends)
                (get_elem?-set slots tail tail x fits
                  ∙ (rw (==_refl tail) (sym (get_elem?-append_last l x))))
          | inr other ↦
              let lt : k < length l = ground arith in
              let away : (tail == wrap size (head + k)) ≡ false = rw r.ends (
                wrap-ne size (head + k) (head + length l) (omega arith) (omega (arith, r.room))
                  (omega (arith, r.room, r.below))) in
              get_elem?-set slots tail (wrap size (head + k)) x fits
              ∙ (rw away (r.items k lt ∙ sym (get_elem?-append_left l (x ∷ []) k lt)))
        ]

    tail_moves : wrap size (tail + 1) ≡ wrap size (head + (length l + 1))
    tail_moves =
        let e : head + (length l + 1) ≡ head + length l + 1 = omega arith in
        rw (r.ends, e) (wrap-wrap size (head + length l) 1 (omega (arith, r.below, r.room)))

    abbrev next : ℕ
    next = wrap size (tail + 1)

    -- The ring was full: the head moves, and the oldest element goes.
    full :
        length l + 1 ≡ size
        → IsRing (set slots tail x) (new_head size next head) next (drop 1 (l ++ x ∷ []))
    unfolding new_head
    full e =
        let all : head + (length l + 1) ≡ head + size = omega arith in
        let at_head : next ≡ head = tail_moves ∙ (rw all (wrap_size size head)) in
        let moved : new_head size next head ≡ wrap size (head + 1) = rw (at_head, ==_refl head) in
        let len : length (drop 1 (l ++ x ∷ [])) ≡ length l =
          omega (arith, length-drop_one (l ++ x ∷ []), length-more) in
        rw moved (record {
          whole = length-set slots tail x ∙ r.whole;
          below = wrap-lt size (head + 1) (omega (arith, r.below));
          room = omega (arith, len, r.room);
          ends = rw len (
              rw (tail_moves, shift (length l))
                (sym (wrap-wrap size (head + 1) (length l) (omega (arith, r.below, r.room)))));
          items = λ k h.
              let lt : k < length l = omega (arith, len) in
              wrapped k lt
              ∙ (more_items (k + 1) (omega arith) ∙ sym (get_elem?-drop_one (l ++ x ∷ []) k));
        })
      where
        shift : (k : ℕ) → head + (k + 1) ≡ head + 1 + k
        shift k = omega arith

        wrapped :
            (k : ℕ)
            → k < length l
            → get_elem? (set slots tail x) (wrap size (wrap size (head + 1) + k))
              ≡ get_elem? (set slots tail x) (wrap size (head + (k + 1)))
        wrapped k lt =
            rw (wrap-wrap size (head + 1) k (omega (arith, r.below, r.room)), shift k) refl

    -- The ring was not full: the head stays.
    not_full :
        (length l + 1 == size) ≡ false
        → IsRing (set slots tail x) (new_head size next head) next (l ++ x ∷ [])
    unfolding new_head
    not_full other =
        let away : (next == head) ≡ false = rw tail_moves (
          rw (wrap_below size head r.below) at (
            wrap-ne size head (head + (length l + 1)) (omega arith) (ground (arith, r.room))
              (omega (arith, r.below, r.room)))) in
        rw away (record {
          whole = length-set slots tail x ∙ r.whole;
          below = r.below;
          room = ground (arith, length-more, r.room);
          ends = rw length-more tail_moves;
          items = λ k h. more_items k (omega (arith, length-more));
        })

    pub newest-IsRing : IsRing (set slots tail x) (new_head size next head) next (newest l x)
    newest-IsRing = elim (Bool-cases (length l + 1 == size)) [
      | inl filled ↦ rw filled (full (ground arith))
      | inr space ↦ rw space (not_full space)
    ]

-- The first place from `k` on whose element has the signature.
unfoldable pub index_from : ℕ → ℕ → ℕ → Signature → List Signature → Option ℕ
index_from size head k s [] = none
index_from size head k s (x ∷ l) =
    let rest = index_from size head (k + 1) s l in
    if same_signature x s then some (wrap size (head + k)) else rest

-- The loop reads the elements that are left, one at least, and ends at the tail.
pub find_slot-index_from :
    (size head tail k fuel : ℕ) (slots : List Signature) (s x : Signature) (l : List Signature)
    → head < size
    → k + length l + 1 < size
    → tail ≡ wrap size (head + (k + length l + 1))
    → ((j : ℕ)
        → j < length l + 1
        → get_elem? slots (wrap size (head + (k + j))) ≡ get_elem? (x ∷ l) j)
    → length l + 1 ≤ fuel
    → find_slot size fuel slots tail s (wrap size (head + k))
      ≡ some (index_from size head k s (x ∷ l))
unfolding find_slot index_from
find_slot-index_from size head tail k zero slots s x l below room ends items f =
    absurd (omega arith)
find_slot-index_from size head tail k (suc fuel) slots s x [] below room ends items f =
    let same : k + 0 ≡ k = omega arith in
    let here : get_elem? slots (wrap size (head + k)) ≡ some x =
      rw same at (items 0 (omega arith)) in
    let last : head + (k + 0 + 1) ≡ head + k + 1 = omega arith in
    let step : wrap size (wrap size (head + k) + 1) ≡ tail =
      wrap-wrap size (head + k) 1 (omega arith) ∙ sym (rw last at ends) in
    elim (Bool-cases (same_signature x s)) [
      | inl hit ↦ rw (here, hit)
      | inr miss ↦ rw (here, miss, step, ==_refl tail)
    ]
find_slot-index_from size head tail k (suc fuel) slots s x (y ∷ l) below room ends items f =
    let same : k + 0 ≡ k = omega arith in
    let here : get_elem? slots (wrap size (head + k)) ≡ some x =
      rw same at (items 0 (omega arith)) in
    let one_more : head + (k + 1) ≡ head + k + 1 = omega arith in
    let longer : k + suc (length l) + 1 ≡ k + 1 + length l + 1 = omega arith in
    let step : wrap size (wrap size (head + k) + 1) ≡ wrap size (head + (k + 1)) =
      rw one_more (wrap-wrap size (head + k) 1 (omega arith)) in
    let away : (wrap size (head + (k + 1)) == tail) ≡ false = rw ends (
      wrap-before size (head + (k + 1)) (head + (k + suc (length l) + 1)) (omega arith)
        (omega arith) (omega arith)) in
    let rest =
      find_slot-index_from size head tail (k + 1) fuel slots s y l below (omega arith)
        (rw longer at ends) (λ j h. later j (items (j + 1) (omega arith))) (omega arith) in
    elim (Bool-cases (same_signature x s)) [
      | inl hit ↦ rw (here, hit)
      | inr miss ↦ rw (here, miss, step, away) rest
    ]
  where
    later :
        (j : ℕ)
        → get_elem? slots (wrap size (head + (k + (j + 1)))) ≡ get_elem? (x ∷ y ∷ l) (j + 1)
        → get_elem? slots (wrap size (head + (k + 1 + j))) ≡ get_elem? (y ∷ l) j
    later j e =
        let a : k + 1 + j ≡ k + (j + 1) = omega arith in
        let b : j + 1 ≡ suc j = omega arith in rw a (e ∙ rw b)
