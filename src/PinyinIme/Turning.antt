-- ===== src/PinyinIme/Turning.antt =====
-- Turning pages, and the active candidate.
use scim_googlepinyin.Prelude.{
  ℕ, ◌+◌, ◌≤◌, ◌<◌, ◌≡◌, refl, Bool, true, some, arith, length, get_elem?, get_elem?-lt,
  get_elem?-some, Option, none, Option-cases, inl, inr, some_inj, false, subst, sym, ◌∙◌, ap,
}
use scim_googlepinyin.DecodingInfo.Page.{prepare_page, calculate_page}
use scim_googlepinyin.DecodingInfo.Edits.{calculate_page-runs}
use scim_googlepinyin.DecodingInfo.Safety.{prepare_page_kept}
use scim_googlepinyin.PinyinIme.{call}
use scim_googlepinyin.PinyinIme
use scim_googlepinyin.Prelude.Int.{ℤ, pos, negsuc, ◌+ℤ◌}
use scim_googlepinyin.DecoderService.{MatrixSearch}
use scim_googlepinyin.DecodingInfo.{
  DecodingInfo, get_current_page_size, get_current_page_start, size_sub,
}
use scim_googlepinyin.DecodingInfo.Paging.{
  IsPaged, calculate_page-IsPaged, get_current_page_size-IsPaged,
}
use scim_googlepinyin.PinyinIme.{Ime}
use scim_googlepinyin.PinyinIme.Candidates.{
  show_page, page_up, page_down, turn_back, turn_forward, clamp_candidate, get_active_candidate_pos,
  through_int,
}

module _ {S : Type 0} (s : Ime S) where
  -- On a well-formed page table showing a page does not fault. The page shown is the one asked for,
  -- it has `page_size` candidates at most, the active candidate's index is what `clamp_candidate`
  -- makes of the index asked for, and the page table stays well-formed.
  pub show_page-IsPaged :
      (page_no cand : ℕ) (highlight : Bool)
      → 0 < length s.dec_info.page_start
      → IsPaged s.cand_view.page_size (length s.dec_info.candidates_list) s.dec_info.page_start
      → (t : Ime S) × (size : ℕ) × (show_page s (pos page_no) cand highlight ≡ some t)
        × (t.cand_view.page_no ≡ pos page_no)
        × (get_current_page_size t.dec_info (pos page_no) ≡ some size)
        × (size ≤ s.cand_view.page_size)
        × (t.cand_view.cand_in_page ≡ clamp_candidate size cand)
        × IsPaged s.cand_view.page_size (length t.dec_info.candidates_list) t.dec_info.page_start
  unfolding show_page
  show_page-IsPaged page_no cand highlight some_page h =
      let (table, run, paged, ended) =
        calculate_page-IsPaged s.dec_info page_no s.cand_view.page_size some_page h in
      let d' = record (s.dec_info) { page_start = table } in
      let (start, e) = get_elem?-lt table page_no (omega arith) in
      let (size, sized, small, within, next) =
        get_current_page_size-IsPaged d' page_no s.cand_view.page_size start paged ended e in
      (
        record s {
          dec_info = d';
          cand_view = record (s.cand_view) {
            page_no = pos page_no;
            cand_in_page = clamp_candidate size cand;
            active_highlight = highlight;
          };
        },
        size,
        rw (run, sized),
        refl,
        sized,
        small,
        refl,
        paged,
      )

-- The bound is not strict. On a page that has just as many candidates as the active index says, the
-- active candidate is the one behind the page's last: the first of the next page.
pub show_page-past_end :
    {S : Type 0} (s : Ime S) (page_no cand start : ℕ) (highlight : Bool) {t : Ime S}
    → show_page s (pos page_no) cand highlight ≡ some t
    → get_current_page_size t.dec_info (pos page_no) ≡ some cand
    → get_elem? t.dec_info.page_start page_no ≡ some start
    → get_active_candidate_pos t ≡ some (start + cand)
unfolding show_page clamp_candidate get_active_candidate_pos get_current_page_start
show_page-past_end s page_no cand start highlight {t = t} shown size e =
    ground (arith, get_elem?-some t.dec_info.page_start page_no e)

-- A page that is in the table is shown without a change of the table.
show_page_known :
    {S : Type 0} (t : Ime S) (page_no cand : ℕ) (highlight : Bool)
    → page_no + 1 < length t.dec_info.page_start
    → (size : ℕ) × (get_current_page_size t.dec_info (pos page_no) ≡ some size)
      × (show_page t (pos page_no) cand highlight
          ≡ some (record t {
            cand_view = record (t.cand_view) {
              page_no = pos page_no;
              cand_in_page = clamp_candidate size cand;
              active_highlight = highlight;
            };
          }))
unfolding show_page calculate_page get_current_page_size
show_page_known t page_no cand highlight known =
    let (hi, e) = get_elem?-lt t.dec_info.page_start (page_no + 1) known in
    let (lo, f) = get_elem?-lt t.dec_info.page_start page_no (omega arith) in
    (size_sub hi lo, ground (arith, e, f), ground (arith, e, f))

show_page_table :
    {S : Type 0} (s : Ime S) (page_no cand : ℕ) (highlight : Bool) {t : Ime S}
    → 0 < length s.dec_info.page_start
    → show_page s (pos page_no) cand highlight ≡ some t
    → (t.cand_view.page_no ≡ pos page_no) × (page_no + 1 < length t.dec_info.page_start)
unfolding show_page
show_page_table s page_no cand highlight some_page shown =
    let (table, run, known) =
      calculate_page-runs s.dec_info page_no s.cand_view.page_size some_page in
    (grind arith, ground (arith, run, known))

next_page : (z : ℤ) (n : ℕ) → z ≡ pos n → z +ℤ pos 1 ≡ pos (n + 1)
unfolding ◌+ℤ◌
next_page z n e = ground (arith, e)

before_page : (z : ℤ) (n : ℕ) → z ≡ pos (n + 1) → z +ℤ negsuc 0 ≡ pos n
unfolding ◌+ℤ◌
before_page z n e = ground (arith, e)

-- Showing the page that a turn forward leads to.
turned_forward-table :
    {S : Type 0} (m : MatrixSearch S) (s : Ime S) (page_no : ℕ) {t : Ime S}
    → s.cand_view.page_no ≡ pos page_no
    → 0 < length s.dec_info.page_start
    → turn_forward m (s, true) ≡ some (t, true)
    → (t.cand_view.page_no ≡ pos (page_no + 1)) × (page_no + 2 < length t.dec_info.page_start)
unfolding turn_forward
turned_forward-table {S = S} m s page_no {t = t} at some_page turned =
    let step = next_page s.cand_view.page_no page_no at in
    let shown =
      show_page s (pos (page_no + 1)) (through_int s.cand_view.cand_in_page)
        s.cand_view.active_highlight in
    elim (Option-cases shown) [
      | inl fault ↦
          let lost : ◌≡◌ {A = Option (Ime S × Bool)} none (some (t, true)) =
            rw (step, fault) at turned in
          cc
      | inr (u, run) ↦
          let same : (call PinyinIme.lookup_page_down u, true) ≡ (t, true) =
            some_inj _ _ (rw (step, run) at turned) in
          let (at_page, known) = show_page_table s (page_no + 1) _ _ some_page run in
          (
            subst (λ x. x.0.cand_view.page_no ≡ pos (page_no + 1)) same at_page,
            subst (λ x. page_no + 2 < length x.0.dec_info.page_start) same (omega arith),
          )
    ]

-- A page turned forward is in the table.
page_down-table :
    {S : Type 0} (m : MatrixSearch S) (s : Ime S) (page_no : ℕ) {t : Ime S}
    → s.cand_view.page_no ≡ pos page_no
    → 0 < length s.dec_info.page_start
    → page_down m s ≡ some (t, true)
    → (t.cand_view.page_no ≡ pos (page_no + 1)) × (page_no + 2 < length t.dec_info.page_start)
unfolding page_down turn_forward
page_down-table {S = S} m s page_no {t = t} at some_page down =
    elim (Option-cases (prepare_page m s.dec_info s.ime_state (pos (page_no + 1)))) [
      | inl fault ↦
          let lost : ◌≡◌ {A = Option (Ime S × Bool)} none (some (t, true)) =
            rw (step, fault) at down in
          cc
      | inr (r, run) ↦ go r.0 r.1 run
    ]
  where
    step : s.cand_view.page_no +ℤ pos 1 ≡ pos (page_no + 1)
    step = next_page s.cand_view.page_no page_no at

    turned :
        (d' : DecodingInfo S)
        → prepare_page m s.dec_info s.ime_state (pos (page_no + 1)) ≡ some (d', true)
        → turn_forward m (record s { dec_info = d' }, true) ≡ some (t, true)
    turned d' run = rw (step, run) at down

    go :
        (d' : DecodingInfo S) (ready : Bool)
        → prepare_page m s.dec_info s.ime_state (pos (page_no + 1)) ≡ some (d', ready)
        → (t.cand_view.page_no ≡ pos (page_no + 1)) × (page_no + 2 < length t.dec_info.page_start)
    go d' false run =
        let other : (record s { dec_info = d' }, false) ≡ (t, true) =
          some_inj _ _ (rw (step, run) at down) in
        let lost : false ≡ true = ap (λ x. x.1) other in cc
    go d' true run =
        let kept = prepare_page_kept m s.ime_state s.dec_info (page_no + 1) run in
        turned_forward-table m (record s { dec_info = d' }) page_no at
          (subst (λ d. 0 < length d.page_start) (sym kept) some_page) (turned d' run)

page_up_turns :
    {S : Type 0} (t : Ime S) (page_no : ℕ)
    → t.cand_view.page_no ≡ pos (page_no + 1)
    → page_up t ≡ turn_back t
unfolding page_up
page_up_turns t page_no at = ground arith

-- After a page was turned forward, from a table that is not empty, turning back does not fault: it leads
-- to the page before, with the table and the candidates as they are, and the active candidate is what
-- `clamp_candidate` makes of it for the size of that page.
pub page_up-page_down :
    {S : Type 0} (m : MatrixSearch S) (s : Ime S) (page_no : ℕ) {t : Ime S}
    → s.cand_view.page_no ≡ pos page_no
    → 0 < length s.dec_info.page_start
    → page_down m s ≡ some (t, true)
    → (r : Ime S) × (size : ℕ) × (page_up t ≡ some (r, true))
      × (r.cand_view.page_no ≡ pos page_no)
      × (r.dec_info ≡ t.dec_info)
      × (get_current_page_size t.dec_info (pos page_no) ≡ some size)
      × (r.cand_view.cand_in_page ≡ clamp_candidate size (through_int t.cand_view.cand_in_page))
unfolding turn_back
page_up-page_down m s page_no {t = t} at some_page down =
    let (next, known) = page_down-table m s page_no at some_page down in
    let (size, sized, shown) =
      show_page_known t page_no (through_int t.cand_view.cand_in_page) t.cand_view.active_highlight
        (omega arith) in
    (
      call PinyinIme.lookup_page_up (record t {
        cand_view = record (t.cand_view) {
          page_no = pos page_no;
          cand_in_page = clamp_candidate size (through_int t.cand_view.cand_in_page);
        };
      }),
      size,
      page_up_turns t page_no next ∙ rw (before_page t.cand_view.page_no page_no next, shown),
      refl,
      refl,
      sized,
      refl,
    )
