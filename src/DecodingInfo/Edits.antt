-- ===== src/DecodingInfo/Edits.antt =====
-- Typing, deleting, moving and paging keep the bounds and do not fault.
use scim_googlepinyin.Prelude.{
  ℕ, zero, suc, ◌+◌, ◌-◌, ◌≤◌, ◌<◌, ◌≡◌, ◌≢◌, refl, Bool, true, false, List, [], ◌∷◌, ◌++◌, Option,
  none, some, arith, length, get_elem?, take, drop, inl, inr, Bool-cases, ltb, ltb→lt, ltb→ge,
  length-append, some_of_ne_none, get_elem?-lt, length-insert, if◌then◌else◌,
}
use scim_googlepinyin.Prelude.Lists.{get_elem?-ne_none}
use scim_googlepinyin.Prelude.Int.{ℤ, pos, negsuc, pos_part, neg_part}
use scim_googlepinyin.DecoderService
use scim_googlepinyin.DecoderService.{MatrixSearch}
use scim_googlepinyin.DecodingInfo.{DecodingInfo}
use scim_googlepinyin.DecodingInfo.Edit
use scim_googlepinyin.DecodingInfo.Edit.{
  add_spl_char, prepare_delete_before_cursor, prepare_delete_after_cursor, fixed_spelling_at,
  insert_char,
}
use scim_googlepinyin.DecodingInfo.Cursor.{
  move_cursor, move_cursor_to_edge, fixed_part_offset, spaces_before,
  get_cursor_pos_in_cmps_display,
}
use scim_googlepinyin.DecodingInfo.Page.{calculate_page, append_pages, fill_page}
use scim_googlepinyin.DecodingInfo.Moves.{move_cursor-in_bounds}
use scim_googlepinyin.DecodingInfo.Typing.{fixed_spelling_at-Found, Found, Holds}
use scim_googlepinyin.DecodingInfo.Safety.{IsSafe}

module _ {S : Type 0} (m : MatrixSearch S) (d : DecodingInfo S) where
  pub add_spl_char-IsSafe :
      (ch : ℕ) (reset : Bool)
      → IsSafe d
      → (d' : DecodingInfo S) × (add_spl_char m d ch reset ≡ some d')
        × IsSafe d'
        × (d'.decoder_service ≡ (
            if reset then DecoderService.reset_search m d.decoder_service else d.decoder_service))
  unfolding add_spl_char DecoderService.reset_search
  add_spl_char-IsSafe ch true safe = (
    _,
    refl,
    record {
      cursor_in = omega arith;
      covers = safe.covers;
      active_in = safe.active_in;
      some_page = safe.some_page;
    },
    refl,
  )
  add_spl_char-IsSafe ch false safe = (
    record d {
      surface = take d.cursor_pos d.surface ++ ch ∷ drop d.cursor_pos d.surface;
      cursor_pos = d.cursor_pos + 1;
    },
    ground (arith, safe.cursor_in),
    record {
      cursor_in =
          omega (arith, length-insert d.cursor_pos d.surface ch safe.cursor_in, safe.cursor_in);
      covers = safe.covers;
      active_in = safe.active_in;
      some_page = safe.some_page;
    },
    refl,
  )

module _ {S : Type 0} (d : DecodingInfo S) where
  -- A deletion that is marked moves the cursor to the left, if at all.
  marked-IsSafe :
      (at : ℤ) (cursor : ℕ) (in_spl : Bool)
      → IsSafe d
      → cursor ≤ d.cursor_pos
      → IsSafe (record d { pos_del_spl = at; cursor_pos = cursor; is_pos_in_spl = in_spl })
  marked-IsSafe at cursor in_spl safe h = record {
    cursor_in = omega (arith, safe.cursor_in);
    covers = safe.covers;
    active_in = safe.active_in;
    some_page = safe.some_page;
  }

  delete_char_before-IsSafe : (at : ℤ) → IsSafe d → IsSafe (Edit.delete_char_before d at)
  unfolding Edit.delete_char_before
  delete_char_before-IsSafe (pos n) safe = safe
  delete_char_before-IsSafe (negsuc n) safe = marked-IsSafe _ _ _ safe (omega arith)

  delete_char_after-IsSafe : (at : ℤ) → IsSafe d → IsSafe (Edit.delete_char_after d at)
  unfolding Edit.delete_char_after
  delete_char_after-IsSafe (pos n) safe = safe
  delete_char_after-IsSafe (negsuc n) safe = marked-IsSafe _ _ _ safe (omega arith)

  before_service : (at : ℤ) → (Edit.delete_char_before d at).decoder_service ≡ d.decoder_service
  unfolding Edit.delete_char_before
  before_service (pos n) = refl
  before_service (negsuc n) = refl

  after_service : (at : ℤ) → (Edit.delete_char_after d at).decoder_service ≡ d.decoder_service
  unfolding Edit.delete_char_after
  after_service (pos n) = refl
  after_service (negsuc n) = refl

  -- It does not fault, keeps the bounds, and does not ask the engine.
  abbrev pub RunsSafe : Option (DecodingInfo S) → Type 0
  RunsSafe r =
      (d' : DecodingInfo S) × (r ≡ some d') × IsSafe d' × (d'.decoder_service ≡ d.decoder_service)

  delete_spelling-IsSafe :
      (at lo : ℕ)
      → IsSafe d
      → Holds d.spl_start d.cursor_pos at lo
      → RunsSafe (Edit.delete_spelling d at)
  unfolding Edit.delete_spelling
  delete_spelling-IsSafe at lo safe (hi, elo, ehi, inside, up) =
      (_, rw elo refl, marked-IsSafe (pos at) lo true safe (omega arith), refl)

  pub prepare_delete_before_cursor-IsSafe : IsSafe d → RunsSafe (prepare_delete_before_cursor d)
  unfolding prepare_delete_before_cursor
  prepare_delete_before_cursor-IsSafe safe = elim (Bool-cases (ltb 0 d.cursor_pos)) [
    | inr start ↦ (d, rw start refl, safe, refl)
    | inl behind ↦ go behind (
        fixed_spelling_at-Found d.spl_start d.cursor_pos d.fixed_len 0 d.fixed_len (omega arith)
          safe.covers)
  ]
    where
      go :
          ltb 0 d.cursor_pos ≡ true
          → (found : Option ℕ) × (fixed_spelling_at d.spl_start d.cursor_pos d.fixed_len 0
              ≡ some found)
            × Found d.spl_start d.cursor_pos 0 d.fixed_len found
          → RunsSafe (prepare_delete_before_cursor d)
      go behind (none, e, f) = (
        _,
        rw (behind, e) refl,
        delete_char_before-IsSafe d.pos_del_spl safe,
        before_service d.pos_del_spl,
      )
      go behind (some at, e, (lo, ge, lt, holds, first)) =
          let (d', run, safe', service) = delete_spelling-IsSafe at lo safe holds in
          (d', rw (behind, e) run, safe', service)

  pub prepare_delete_after_cursor-IsSafe : IsSafe d → RunsSafe (prepare_delete_after_cursor d)
  unfolding prepare_delete_after_cursor
  prepare_delete_after_cursor-IsSafe safe =
      elim (Bool-cases (ltb d.cursor_pos (length d.surface))) [
        | inr end ↦ (d, rw end refl, safe, refl)
        | inl before ↦ go before (
            fixed_spelling_at-Found d.spl_start d.cursor_pos d.fixed_len 0 d.fixed_len (omega arith)
              safe.covers)
      ]
    where
      go :
          ltb d.cursor_pos (length d.surface) ≡ true
          → (found : Option ℕ) × (fixed_spelling_at d.spl_start d.cursor_pos d.fixed_len 0
              ≡ some found)
            × Found d.spl_start d.cursor_pos 0 d.fixed_len found
          → RunsSafe (prepare_delete_after_cursor d)
      go before (none, e, f) = (
        _,
        rw (before, e) refl,
        delete_char_after-IsSafe d.pos_del_spl safe,
        after_service d.pos_del_spl,
      )
      go before (some at, e, (lo, ge, lt, holds, first)) =
          let (d', run, safe', service) = delete_spelling-IsSafe at lo safe holds in
          (d', rw (before, e) run, safe', service)

module _ (spl_start : List ℕ) (cursor : ℕ) where
  fixed_part_offset-ne_none :
      (rounds hz_pos : ℕ) (acc : ℤ)
      → (0 < rounds → hz_pos + rounds + 2 ≤ length spl_start)
      → fixed_part_offset spl_start cursor rounds hz_pos acc ≢ none
  unfolding fixed_part_offset
  fixed_part_offset-ne_none zero hz_pos acc h = λ e. cc
  fixed_part_offset-ne_none (suc rounds) hz_pos acc h =
      let (end, e) =
        some_of_ne_none (get_elem? spl_start (hz_pos + 2))
          (get_elem?-ne_none spl_start (hz_pos + 2) (omega (arith, h (omega arith)))) in
      let (start, f) =
        some_of_ne_none (get_elem? spl_start (hz_pos + 1))
          (get_elem?-ne_none spl_start (hz_pos + 1) (omega (arith, h (omega arith)))) in
      rw (e, f)
        (fixed_part_offset-ne_none rounds (hz_pos + 1) _ (λ k. omega (arith, h (omega arith))))

  spaces_before-ne_none :
      (rounds at : ℕ)
      → (0 < rounds → at + rounds ≤ length spl_start)
      → spaces_before spl_start cursor rounds at ≢ none
  unfolding spaces_before
  spaces_before-ne_none zero at h = λ e. cc
  spaces_before-ne_none (suc rounds) at h = ground (
    arith,
    h (omega arith),
    get_elem?-ne_none spl_start at,
    spaces_before-ne_none rounds (at + 1) (λ k. omega (arith, h (omega arith))),
  )

module _ {S : Type 0} (d : DecodingInfo S) where
  pub get_cursor_pos_in_cmps_display-ne_none : IsSafe d → get_cursor_pos_in_cmps_display d ≢ none
  unfolding get_cursor_pos_in_cmps_display
  get_cursor_pos_in_cmps_display-ne_none safe = ground (
    arith,
    fixed_part_offset-ne_none d.spl_start d.cursor_pos d.fixed_len 0 (pos d.cursor_pos)
        (λ h. omega (arith, safe.covers h)),
    spaces_before-ne_none d.spl_start d.cursor_pos (length d.spl_start - 1 - (d.fixed_len + 1))
        (d.fixed_len + 1) (λ h. omega arith),
  )

module _ {S : Type 0} (d : DecodingInfo S) where
  IsSafe-cursor :
      (cursor : ℕ)
      → IsSafe d
      → cursor ≤ length d.surface
      → IsSafe (record d { cursor_pos = cursor })
  IsSafe-cursor cursor safe h = record {
    cursor_in = h;
    covers = safe.covers;
    active_in = safe.active_in;
    some_page = safe.some_page;
  }

  pub move_cursor-IsSafe :
      (offset : ℤ)
      → pos_part offset ≤ 1
      → neg_part offset ≤ 1
      → IsSafe d
      → (cursor : ℕ) × (move_cursor d offset ≡ some (record d { cursor_pos = cursor }))
        × IsSafe (record d { cursor_pos = cursor })
  move_cursor-IsSafe offset up down safe =
      let (cursor, e, h) = move_cursor-in_bounds d offset up down safe.covers in
      (cursor, e, IsSafe-cursor cursor safe h)

  pub move_cursor_to_edge-IsSafe : (left : Bool) → IsSafe d → IsSafe (move_cursor_to_edge d left)
  unfolding move_cursor_to_edge
  move_cursor_to_edge-IsSafe true safe = IsSafe-cursor 0 safe (omega arith)
  move_cursor_to_edge-IsSafe false safe = IsSafe-cursor (length d.surface) safe (omega arith)

  pub reset-IsSafe : IsSafe d → IsSafe (Edit.reset d)
  unfolding Edit.reset Edit.reset_candidates
  reset-IsSafe safe = record {
    cursor_in = omega arith;
    covers = λ h. absurd (omega arith);
    active_in = omega arith;
    some_page = omega arith;
  }

append_pages-runs :
    (cand_size page_size rounds at : ℕ) (starts : List ℕ)
    → length starts ≡ suc at
    → (table : List ℕ) × (append_pages rounds at cand_size page_size starts ≡ some table)
      × (length table ≡ length starts + rounds)
unfolding append_pages
append_pages-runs cand_size page_size zero at starts h = (starts, refl, omega arith)
append_pages-runs cand_size page_size (suc rounds) at starts h =
    let (start, e) = get_elem?-lt starts at (omega arith) in
    let size = fill_page page_size cand_size page_size start 0 in
    let longer = length-append starts ((start + size) ∷ []) in
    let (table, run, long) =
      append_pages-runs cand_size page_size rounds (at + 1) (starts ++ (start + size) ∷ [])
        (omega (arith, longer)) in
    (table, rw e run, omega (arith, longer))

-- After `calculate_page` the page asked for is in the table.
pub calculate_page-runs :
    {S : Type 0} (d : DecodingInfo S) (page_no page_size : ℕ)
    → 0 < length d.page_start
    → (table : List ℕ) × (calculate_page d (pos page_no) page_size
        ≡ some (record d { page_start = table }))
      × (page_no + 1 < length table)
unfolding calculate_page
calculate_page-runs d page_no page_size known =
    elim (Bool-cases (ltb page_no (length d.page_start - 1))) [
      | inl old ↦ (d.page_start, ground (arith, old), omega (arith, ltb→lt _ _ old))
      | inr new ↦
          let (table, run, long) =
            append_pages-runs (length d.candidates_list) page_size
              (page_no + 1 - (length d.page_start - 1)) (length d.page_start - 1) d.page_start
              (omega arith) in
          (table, ground (arith, new, run), omega (arith, ltb→ge _ _ new))
    ]
