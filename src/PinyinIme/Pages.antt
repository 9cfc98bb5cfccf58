-- ===== src/PinyinIme/Pages.antt =====
-- Turning pages, moving the active candidate and choosing from a page: no fault where a page is shown.
use scim_googlepinyin.Prelude.{
  ℕ, zero, suc, ◌+◌, ◌-◌, ◌%◌, ◌<◌, ◌≡◌, refl, Bool, true, false, Option, some, arith, length, inl,
  inr, Bool-cases, ltb, ltb→lt, get_elem?-lt, subst, sym,
}
use scim_googlepinyin.Prelude.Errors.{◌>>=◌}
use scim_googlepinyin.Prelude.Int.{ℤ, pos, negsuc, ◌+ℤ◌}
use scim_googlepinyin.DecoderService.{MatrixSearch}
use scim_googlepinyin.DecodingInfo.{
  get_current_page_size, get_current_page_start, page_ready, size_sub, size_mod,
}
use scim_googlepinyin.DecodingInfo.Fetching.{Decodes}
use scim_googlepinyin.DecodingInfo.Safety.{IsSafe, prepare_page-IsSafe}
use scim_googlepinyin.DecodingInfo.Page.{prepare_page}
use scim_googlepinyin.PinyinIme.{Ime, call}
use scim_googlepinyin.PinyinIme
use scim_googlepinyin.PinyinIme.Candidates
use scim_googlepinyin.PinyinIme.Candidates.{through_int}
use scim_googlepinyin.PinyinIme.Choice
use scim_googlepinyin.PinyinIme.Sound.{IsShown, show_page-IsShown}
use scim_googlepinyin.PinyinIme.Shows.{IsSound, RunsSound, IsAnswered, choose_and_update-IsSound}

-- The active candidate lies on the page shown.
abbrev pub OnPage : {S : Type 0} → Ime S → Type 0
OnPage s =
    (size : ℕ)
    → get_current_page_size s.dec_info s.cand_view.page_no ≡ some size
    → s.cand_view.cand_in_page < size

-- A handler that does not fault, after which the page shown is in the table.
abbrev pub RunsPage : {S : Type 0} → Option (Ime S × Bool) → Type 0
RunsPage {S = S} r = (t : Ime S) × (b : Bool) × (r ≡ some (t, b)) × IsSafe t.dec_info × IsShown t

module _ {S : Type 0} (s : Ime S) where
  show_at :
      (page_no : ℤ) (n cand : ℕ) (highlight : Bool)
      → page_no ≡ pos n
      → IsSafe s.dec_info
      → (t : Ime S) × (Candidates.show_page s page_no cand highlight ≡ some t)
        × IsSafe t.dec_info
        × IsShown t
  show_at page_no n cand highlight at safe =
      let (t, e, safe', state, shown) = show_page-IsShown s n cand highlight safe in
      (t, subst (λ p. Candidates.show_page s p cand highlight ≡ some t) (sym at) e, safe', shown)

  pub page_up-IsShown : IsSafe s.dec_info → IsShown s → RunsPage (Candidates.page_up s)
  unfolding Candidates.page_up Candidates.turn_back ◌+ℤ◌
  page_up-IsShown safe (zero, at, known) = (s, false, ground (arith, at), safe, (zero, at, known))
  page_up-IsShown safe (suc n, at, known) =
      let (t, e, safe', shown) =
        show_at (s.cand_view.page_no +ℤ negsuc 0) n (through_int s.cand_view.cand_in_page)
          s.cand_view.active_highlight (ground (arith, at)) safe in
      (call PinyinIme.lookup_page_up t, true, ground (arith, at, e), safe', shown)

  cursor_back-IsShown : IsSafe s.dec_info → IsShown s → RunsPage (Candidates.cursor_back s)
  unfolding Candidates.cursor_back Candidates.set_visibility
  cursor_back-IsShown safe (n, at, known) = elim (Bool-cases (ltb 0 s.cand_view.cand_in_page)) [
    | inr f ↦ (s, false, rw f refl, safe, (n, at, known))
    | inl f ↦
        let (t, e, safe', shown) =
          show_at s.cand_view.page_no n (through_int (s.cand_view.cand_in_page - 1)) true at safe in
        (
          Candidates.set_visibility (call PinyinIme.lookup_cursor_left t) true,
          true,
          rw f (rw e refl),
          safe',
          shown,
        )
  ]

  step_forward-IsShown :
      (size : ℕ) → IsSafe s.dec_info → IsShown s → RunsPage (Candidates.step_forward s size)
  unfolding Candidates.step_forward Candidates.set_visibility
  step_forward-IsShown size safe (n, at, known) =
      elim (Bool-cases (ltb ((s.cand_view.cand_in_page + 1) % size_mod) size)) [
        | inr f ↦ (s, false, rw f refl, safe, (n, at, known))
        | inl f ↦
            let (t, e, safe', shown) =
              show_at s.cand_view.page_no n (through_int (s.cand_view.cand_in_page + 1)) true at
                safe in
            (
              Candidates.set_visibility (call PinyinIme.lookup_cursor_right t) true,
              true,
              rw f (rw e refl),
              safe',
              shown,
            )
      ]

  -- The size and the start of a page shown can be read.
  page_readable :
      IsShown s
      → (size start : ℕ) × (get_current_page_size s.dec_info s.cand_view.page_no ≡ some size)
        × (get_current_page_start s.dec_info s.cand_view.page_no ≡ some start)
  unfolding get_current_page_size get_current_page_start
  page_readable (n, at, known) =
      let (hi, e) = get_elem?-lt s.dec_info.page_start (n + 1) known in
      let (lo, f) = get_elem?-lt s.dec_info.page_start n (omega arith) in
      (size_sub hi lo, lo, ground (arith, at, e, f), ground (arith, at, f))

  cursor_forward-IsShown : IsSafe s.dec_info → IsShown s → RunsPage (Candidates.cursor_forward s)
  unfolding Candidates.cursor_forward
  cursor_forward-IsShown safe shown =
      let (size, start, e, f) = page_readable shown in
      elim (Bool-cases (page_ready s.dec_info s.cand_view.page_no)) [
        | inr r ↦ (s, false, rw r refl, safe, shown)
        | inl r ↦
            let (t, b, run, safe', shown') = step_forward-IsShown size safe shown in
            (t, b, rw r (rw e run), safe', shown')
      ]

cursor_forward_stays :
    {S : Type 0} (s : Ime S) {t : Ime S} → Candidates.cursor_forward s ≡ some (t, false) → t ≡ s
unfolding Candidates.cursor_forward Candidates.step_forward
cursor_forward_stays s e = ground arith

module _ {S : Type 0} where
  -- `a() || b()`
  or_else-IsShown :
      (b : Ime S → Option (Ime S × Bool))
      → ((s : Ime S) → IsSafe s.dec_info → IsShown s → RunsPage (b s))
      → {r : Option (Ime S × Bool)} → RunsPage r
      → RunsPage (r >>= Candidates.or_else b)
  unfolding Candidates.or_else
  or_else-IsShown b f (t, true, e, safe, shown) = (t, true, rw e refl, safe, shown)
  or_else-IsShown b f (t, false, e, safe, shown) =
      let (u, c, run, safe', shown') = f t safe shown in (u, c, rw e run, safe', shown')

  pub cursor_left-IsShown :
      (s : Ime S) → IsSafe s.dec_info → IsShown s → RunsPage (Candidates.cursor_left s)
  unfolding Candidates.cursor_left
  cursor_left-IsShown s safe shown =
      or_else-IsShown Candidates.page_up (page_up-IsShown) (cursor_back-IsShown s safe shown)

module _ {S : Type 0} (m : MatrixSearch S) where
  turn_forward-IsShown :
      (s : Ime S) (b : Bool)
      → IsSafe s.dec_info
      → IsShown s
      → RunsPage (Candidates.turn_forward m (s, b))
  unfolding Candidates.turn_forward ◌+ℤ◌
  turn_forward-IsShown s false safe shown = (s, false, refl, safe, shown)
  turn_forward-IsShown s true safe (n, at, known) =
      let (t, e, safe', shown) =
        show_at s (s.cand_view.page_no +ℤ pos 1) (n + 1) (through_int s.cand_view.cand_in_page)
          s.cand_view.active_highlight (ground (arith, at)) safe in
      (call PinyinIme.lookup_page_down t, true, rw e refl, safe', shown)

  pub page_down-IsShown :
      (s : Ime S)
      → Decodes s.ime_state
      → IsSafe s.dec_info
      → IsShown s
      → RunsPage (Candidates.page_down m s)
  unfolding Candidates.page_down ◌+ℤ◌
  page_down-IsShown s h safe (n, at, known) =
      let next : (s.cand_view.page_no +ℤ pos 1) ≡ pos (n + 1) = ground (arith, at) in
      let (r, e, kept, safe') = prepare_page-IsSafe m s.ime_state s.dec_info (n + 1) h safe in
      let e' = subst (λ p. prepare_page m s.dec_info s.ime_state p ≡ some r) (sym next) e in
      let (t, b, run, safe'', shown) =
        turn_forward-IsShown (record s { dec_info = r.0 }) r.1 safe'
          (n, at, subst (λ d. n + 1 < length d.page_start) (sym kept) known) in
      (t, b, rw e' run, safe'', shown)

  pub cursor_right-IsShown :
      (s : Ime S)
      → Decodes s.ime_state
      → IsSafe s.dec_info
      → IsShown s
      → RunsPage (Candidates.cursor_right m s)
  unfolding Candidates.cursor_right Candidates.or_else
  cursor_right-IsShown s h safe shown =
      let (t, b, e, safe', shown') = cursor_forward-IsShown s safe shown in go t b e safe' shown'
    where
      go :
          (t : Ime S) (b : Bool)
          → Candidates.cursor_forward s ≡ some (t, b)
          → IsSafe t.dec_info
          → IsShown t
          → RunsPage (Candidates.cursor_right m s)
      go t true e safe' shown' = (t, true, rw e refl, safe', shown')
      go t false e safe' shown' = rw e (
          page_down-IsShown t (subst (λ x. Decodes x.ime_state) (sym (cursor_forward_stays s e)) h)
            safe' shown')

  -- The engine answers the choice of each candidate of the page shown.
  abbrev pub ChoicesAnswered : Ime S → Type 0
  ChoicesAnswered s =
      (index size start : ℕ)
      → get_current_page_size s.dec_info s.cand_view.page_no ≡ some size
      → index < size
      → get_current_page_start s.dec_info s.cand_view.page_no ≡ some start
      → IsAnswered m (Choice.to_int (start + index)) s

  choose_if_any-IsSound :
      (cand_id : ℤ) (s : Ime S)
      → IsAnswered m cand_id s
      → Decodes s.ime_state
      → IsSound s
      → RunsSound (Choice.choose_if_any m cand_id s)
  unfolding Choice.choose_if_any
  choose_if_any-IsSound (pos n) s a h sound = choose_and_update-IsSound m (pos n) s a h sound.info
  choose_if_any-IsSound (negsuc n) s a h sound = (s, refl, sound)

  -- The space key chooses the active candidate, which lies on the page.
  pub choose_active-IsSound :
      (s : Ime S)
      → ChoicesAnswered s
      → OnPage s
      → Decodes s.ime_state
      → IsSafe s.dec_info
      → IsShown s
      → RunsSound (Choice.choose_candidate m (negsuc 0) s)
  unfolding Choice.choose_candidate Candidates.get_active_candidate_pos
  choose_active-IsSound s choices on_page h safe shown =
      let (size, start, e, f) = page_readable s shown in
      rw f (
        choose_if_any-IsSound (Choice.to_int (start + s.cand_view.cand_in_page)) s
          (choices s.cand_view.cand_in_page size start e (on_page size e) f) h
          (record { info = safe; shown = λ k. shown }))

  pub choose_candidate_in_page-IsSound :
      (index : ℕ) (s : Ime S)
      → ChoicesAnswered s
      → Decodes s.ime_state
      → IsSafe s.dec_info
      → IsShown s
      → RunsSound (Choice.choose_candidate_in_page m index s)
  unfolding Choice.choose_candidate_in_page
  choose_candidate_in_page-IsSound index s choices h safe shown =
      let (size, start, e, f) = page_readable s shown in
      elim (Bool-cases (ltb index size)) [
        | inr k ↦ (s, rw e (rw k refl), record { info = safe; shown = λ k. shown })
        | inl k ↦
            let order : start + index ≡ index + start = omega arith in
            let answered : IsAnswered m (Choice.to_int (index + start)) s =
              subst (λ n. IsAnswered m (Choice.to_int n) s) order
                (choices index size start e (ltb→lt _ _ k) f) in
            let (t, run, sound) =
              choose_and_update-IsSound m (Choice.to_int (index + start)) s answered h safe in
            (t, rw e (rw k (rw f run)), sound)
      ]
