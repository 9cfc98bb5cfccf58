-- ===== src/DecodingInfo/Paging.antt =====
-- The table of pages.
use scim_googlepinyin.Prelude.{
  ℕ, zero, suc, ◌+◌, ◌-◌, ◌≤◌, ◌<◌, ◌≡◌, refl, List, [], ◌∷◌, ◌++◌, some, arith, length, get_elem?,
  min, inl, inr, Bool-cases, ltb, ltb→lt, ltb→ge, length-append, get_elem?-lt, subst,
}
use scim_googlepinyin.Prelude.Int.{pos}
use scim_googlepinyin.DecodingInfo.{DecodingInfo, get_current_page_size}
use scim_googlepinyin.DecodingInfo.Page.{fill_page, append_pages, calculate_page}

-- A page takes what is left of the candidates, `page_size` at most: the rounds given are enough.
fill_page-min :
    (rounds cand_size page_size p_start p_size : ℕ)
    → p_size + rounds ≡ page_size
    → p_start + p_size ≤ cand_size
    → fill_page rounds cand_size page_size p_start p_size ≡ min page_size (cand_size - p_start)
unfolding fill_page
fill_page-min zero n ps start size e h = omega arith
fill_page-min (suc rounds) n ps start size e h = elim (Bool-cases (ltb (start + size) n)) [
  | inl more ↦ ground (
    arith,
    fill_page-min rounds n ps start (size + 1) (omega arith) (omega (arith, ltb→lt _ _ more)),
  )
  | inr full ↦ rw full (omega (arith, ltb→ge _ _ full))
]

-- The starts rise by a page size at most, and none lies beyond the candidates.
abbrev pub IsPaged : ℕ → ℕ → List ℕ → Type 0
IsPaged page_size cand_size [] = Unit
IsPaged page_size cand_size (a ∷ []) = a ≤ cand_size
IsPaged page_size cand_size (a ∷ b ∷ starts) =
    (a ≤ b) × (b ≤ a + page_size) × IsPaged page_size cand_size (b ∷ starts)

module _ (page_size cand_size : ℕ) where
  IsPaged-append :
      (starts : List ℕ) (at last next : ℕ)
      → length starts ≡ suc at
      → get_elem? starts at ≡ some last
      → last ≤ next
      → next ≤ last + page_size
      → next ≤ cand_size
      → IsPaged page_size cand_size starts
      → IsPaged page_size cand_size (starts ++ next ∷ [])
  IsPaged-append [] at last next l e a b c h = absurd (omega arith)
  IsPaged-append (x ∷ []) zero last next l e a b c h = ground arith
  IsPaged-append (x ∷ []) (suc at) last next l e a b c h = cc
  IsPaged-append (x ∷ y ∷ r) zero last next l e a b c h = absurd (omega arith)
  IsPaged-append (x ∷ y ∷ r) (suc at) last next l e a b c h =
      (h.0, h.1, IsPaged-append (y ∷ r) at last next (omega arith) e a b c h.2)

  IsPaged-le :
      (starts : List ℕ) (at start : ℕ)
      → IsPaged page_size cand_size starts
      → get_elem? starts at ≡ some start
      → start ≤ cand_size
  IsPaged-le [] at start h e = cc
  IsPaged-le (x ∷ []) zero start h e = ground arith
  IsPaged-le (x ∷ []) (suc at) start h e = cc
  IsPaged-le (x ∷ y ∷ r) zero start h e = ground (arith, IsPaged-le (y ∷ r) zero y h.2 refl)
  IsPaged-le (x ∷ y ∷ r) (suc at) start h e = IsPaged-le (y ∷ r) at start h.2 e

  IsPaged-step :
      (starts : List ℕ) (at lo hi : ℕ)
      → IsPaged page_size cand_size starts
      → get_elem? starts at ≡ some lo
      → get_elem? starts (suc at) ≡ some hi
      → (lo ≤ hi) × (hi ≤ lo + page_size)
  IsPaged-step [] at lo hi h e f = cc
  IsPaged-step (x ∷ []) zero lo hi h e f = cc
  IsPaged-step (x ∷ []) (suc at) lo hi h e f = cc
  IsPaged-step (x ∷ y ∷ r) zero lo hi h e f = ground arith
  IsPaged-step (x ∷ y ∷ r) (suc at) lo hi h e f = IsPaged-step (y ∷ r) at lo hi h.2 e f

  -- The new pages go behind the table, one for each round.
  append_pages-IsPaged :
      (rounds at : ℕ) (starts : List ℕ)
      → length starts ≡ suc at
      → IsPaged page_size cand_size starts
      → (table : List ℕ) × (append_pages rounds at cand_size page_size starts ≡ some table)
        × IsPaged page_size cand_size table
        × (length table ≡ length starts + rounds)
  unfolding append_pages
  append_pages-IsPaged zero at starts l h = (starts, refl, h, omega arith)
  append_pages-IsPaged (suc rounds) at starts l h =
      let (start, e) = get_elem?-lt starts at (omega arith) in
      let below = IsPaged-le starts at start h e in
      let size = fill_page page_size cand_size page_size start 0 in
      let filled =
        fill_page-min page_size cand_size page_size start 0 (omega arith) (omega arith) in
      let longer = length-append starts ((start + size) ∷ []) in
      let (table, run, paged, count) =
        append_pages-IsPaged rounds (at + 1) (starts ++ (start + size) ∷ []) (omega arith) (
          IsPaged-append starts at start (start + size) l e (omega arith) (omega arith)
            (omega arith) h) in
      (table, rw e run, paged, omega arith)

-- A table that is not empty and well formed for the candidates stays so when a page is calculated;
-- that does not fault, changes the table alone, and the page then has an end.
pub calculate_page-IsPaged :
    {S : Type 0} (d : DecodingInfo S) (page_no page_size : ℕ)
    → 0 < length d.page_start
    → IsPaged page_size (length d.candidates_list) d.page_start
    → (table : List ℕ) × (calculate_page d (pos page_no) page_size
        ≡ some (record d { page_start = table }))
      × IsPaged page_size (length d.candidates_list) table
      × (page_no + 1 < length table)
unfolding calculate_page
calculate_page-IsPaged d page_no page_size some_page h =
    elim (Bool-cases (ltb page_no (length d.page_start - 1))) [
      | inl known ↦ (d.page_start, ground (arith, known), h, omega (arith, ltb→lt _ _ known))
      | inr new ↦
          let (table, run, paged, count) =
            append_pages-IsPaged page_size (length d.candidates_list)
              (page_no + 1 - (length d.page_start - 1)) (length d.page_start - 1) d.page_start
              (omega arith) h in
          (table, ground (arith, new, run), paged, omega (arith, ltb→ge _ _ new))
    ]

-- In a well-formed table every page has `page_size` candidates at most, all of them fetched, and the
-- next page starts where it ends.
pub get_current_page_size-IsPaged :
    {S : Type 0} (d : DecodingInfo S) (page_no page_size start : ℕ)
    → IsPaged page_size (length d.candidates_list) d.page_start
    → page_no + 1 < length d.page_start
    → get_elem? d.page_start page_no ≡ some start
    → (size : ℕ) × (get_current_page_size d (pos page_no) ≡ some size)
      × (size ≤ page_size)
      × (start + size ≤ length d.candidates_list)
      × (get_elem? d.page_start (page_no + 1) ≡ some (start + size))
unfolding get_current_page_size
get_current_page_size-IsPaged d page_no page_size start h known e =
    let (next, f) = get_elem?-lt d.page_start (page_no + 1) known in
    let one_more : page_no + 1 ≡ suc page_no = omega arith in
    let (up, near) =
      IsPaged-step page_size _ d.page_start page_no start next h e
        (subst (λ i. get_elem? d.page_start i ≡ some next) one_more f) in
    let below = IsPaged-le page_size _ d.page_start (page_no + 1) next h f in
    let total : start + (next - start) ≡ next = omega arith in
    (next - start, ground (arith, e, f), omega arith, omega arith, rw total f)
