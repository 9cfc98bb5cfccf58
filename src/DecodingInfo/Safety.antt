-- ===== src/DecodingInfo/Safety.antt =====
-- The bounds of `DecodingInfo` from which no operation faults, with an engine that answers consistently.
use scim_googlepinyin.Prelude.{
  ℕ, ◌+◌, ◌≤◌, ◌<◌, ◌≡◌, ◌≢◌, refl, Bool, List, none, some, arith, length, inl, inr, Bool-cases,
  ◌==◌, length-append, some_of_ne_none, subst, sym, Option, Option-cases, some_inj, true, false,
  if◌then◌else◌,
}
use scim_googlepinyin.Prelude.Lists.{get_elem?-ne_none}
use scim_googlepinyin.Prelude.Int.{ℤ, pos, negsuc}
use scim_googlepinyin.ImeState.{ImeState, idle, input, composing, predict, bypass, app_completion}
use scim_googlepinyin.DecoderService
use scim_googlepinyin.DecoderService.{MatrixSearch, PinyinDecoderService}
use scim_googlepinyin.DecodingInfo.{DecodingInfo, get_composing_str_active_part}
use scim_googlepinyin.DecodingInfo.Edit.{reset_candidates}
use scim_googlepinyin.DecodingInfo.Page.{prepare_page, get_candidates_for_cache, fetch_page}
use scim_googlepinyin.DecodingInfo.Search.{
  prepare_display, take_over, taken, first_page, update_for_search, choose_decoding_candidate,
  decode, search_surface, start_decoding,
}
use scim_googlepinyin.DecodingInfo.Fetching.{Decodes, new_list-choices}
use scim_googlepinyin.DecodingInfo.Decoding.{
  IsConsistent, take_over-IsConsistent, surface_of, decoded_of, fixed_of,
}

-- What the engine answers in this state is consistent.
abbrev pub Answered : {S : Type 0} → MatrixSearch S → PinyinDecoderService S → Type 0
Answered m v =
    (start : ℕ) × IsConsistent (DecoderService.get_spelling_start m v) (surface_of m v)
      (decoded_of m v) (fixed_of m v) start

-- The answers of this state are consistent, and those after one search or deletion from it.
pub record Answers {S : Type 0} (m : MatrixSearch S) (v : PinyinDecoderService S) : Type 0 where
  pub present : Answered m v
  pub searched : (py : List ℕ) → Answered m (DecoderService.search m v py).0
  pub deleted :
      (at : ℕ) (in_spl clear : Bool) → Answered m (DecoderService.del_search m v at in_spl clear).0

-- The bounds that the operations rely on.
pub record IsSafe {S : Type 0} (d : DecodingInfo S) : Type 0 where
  pub cursor_in : d.cursor_pos ≤ length d.surface
  pub covers : 0 < d.fixed_len → d.fixed_len + 2 ≤ length d.spl_start
  pub active_in : d.active_cmps_display_len ≤ length d.composing_str_display
  pub some_page : 0 < length d.page_start

-- The active part of the composing string can be read.
abbrev pub HasActivePart : {S : Type 0} → DecodingInfo S → Type 0
HasActivePart d = (active : List ℕ) × (get_composing_str_active_part d ≡ some active)

-- The active part of the display string is a prefix of it.
prepare_display-bound :
    (spl_start : List ℕ) (decoded : ℕ) (surface full_sent : List ℕ) (fixed_len : ℕ)
    (composing_str : List ℕ) {w : List ℕ × ℕ}
    → prepare_display spl_start decoded surface full_sent fixed_len composing_str ≡ some w
    → w.1 ≤ length w.0
unfolding prepare_display
prepare_display-bound spl_start decoded surface full_sent fixed_len composing_str e =
    grind (arith, length-append)

pub reset_candidates-IsSafe :
    {S : Type 0} (d : DecodingInfo S) → IsSafe d → IsSafe (reset_candidates d)
unfolding reset_candidates
reset_candidates-IsSafe d safe = record {
  cursor_in = safe.cursor_in;
  covers = safe.covers;
  active_in = safe.active_in;
  some_page = omega arith;
}

module _ {S : Type 0} (m : MatrixSearch S) where
  take_over-IsSafe :
      (d : DecodingInfo S) (n : ℕ) {d' : DecodingInfo S}
      → Answered m d.decoder_service
      → IsSafe d
      → take_over m d n ≡ some d'
      → IsSafe d'
  unfolding take_over taken
  take_over-IsSafe d n (start, c) safe e = record {
    cursor_in = ground arith;
    covers = λ h. ground (arith, c.long);
    active_in = grind (arith, prepare_display-bound);
    some_page = ground (arith, safe.some_page);
  }

  prepare_page-ne_none :
      (st : ImeState) (d : DecodingInfo S) (page_no : ℕ)
      → Decodes st
      → prepare_page m d st (pos page_no) ≢ none
  unfolding prepare_page fetch_page get_candidates_for_cache
  prepare_page-ne_none st d page_no h =
      ground (arith, new_list-choices m d st h, get_elem?-ne_none d.page_start page_no)

  -- Preparing a page changes the cached candidates alone.
  pub prepare_page_kept :
      (st : ImeState) (d : DecodingInfo S) (page_no : ℕ) {r : DecodingInfo S × Bool}
      → prepare_page m d st (pos page_no) ≡ some r
      → r.0 ≡ record d { candidates_list = r.0.candidates_list }
  unfolding prepare_page fetch_page get_candidates_for_cache
  prepare_page_kept st d page_no e = ground arith

  pub IsSafe-candidates :
      (d : DecodingInfo S) (candidates : List (List ℕ))
      → IsSafe d
      → IsSafe (record d { candidates_list = candidates })
  IsSafe-candidates d candidates safe = record {
    cursor_in = safe.cursor_in;
    covers = safe.covers;
    active_in = safe.active_in;
    some_page = safe.some_page;
  }

  IsSafe-service :
      (d : DecodingInfo S) (v : PinyinDecoderService S) (at : ℤ)
      → IsSafe d
      → IsSafe (record d { decoder_service = v; pos_del_spl = at })
  IsSafe-service d v at safe = record {
    cursor_in = safe.cursor_in;
    covers = safe.covers;
    active_in = safe.active_in;
    some_page = safe.some_page;
  }

  -- Fetching candidates touches none of the bounds.
  pub prepare_page-IsSafe :
      (st : ImeState) (d : DecodingInfo S) (page_no : ℕ)
      → Decodes st
      → IsSafe d
      → (r : DecodingInfo S × Bool) × (prepare_page m d st (pos page_no) ≡ some r)
        × (r.0 ≡ record d { candidates_list = r.0.candidates_list })
        × IsSafe r.0
  prepare_page-IsSafe st d page_no h safe =
      let (r, e) =
        some_of_ne_none (prepare_page m d st (pos page_no)) (prepare_page-ne_none st d page_no h) in
      let kept = prepare_page_kept st d page_no e in
      (r, e, kept, subst IsSafe (sym kept) (IsSafe-candidates d r.0.candidates_list safe))

  first_page-IsSafe :
      (st : ImeState) (d : DecodingInfo S)
      → Decodes st
      → IsSafe d
      → (d' : DecodingInfo S) × (first_page m st d ≡ some d')
        × (d' ≡ record d { candidates_list = d'.candidates_list })
        × IsSafe d'
  unfolding first_page
  first_page-IsSafe st d h safe = elim (Bool-cases d.finish_selection) [
    | inl f ↦ (d, rw f refl, refl, safe)
    | inr f ↦
        let (r, e, kept, kept_safe) = prepare_page-IsSafe st d 0 h safe in
        (r.0, rw (e, f) refl, kept, kept_safe)
  ]

  search_surface-IsSafe :
      (st : ImeState) (d : DecodingInfo S) (at : ℤ) → IsSafe d → IsSafe (search_surface m st d at).0
  unfolding search_surface
  search_surface-IsSafe st d (pos n) safe = IsSafe-service d _ _ safe
  search_surface-IsSafe st d (negsuc n) safe = IsSafe-service d _ _ safe

  search_surface-Answered :
      (st : ImeState) (d : DecodingInfo S) (at : ℤ)
      → Answers m d.decoder_service
      → Answered m (search_surface m st d at).0.decoder_service
  unfolding search_surface
  search_surface-Answered st d (pos n) a = a.deleted n d.is_pos_in_spl _
  search_surface-Answered st d (negsuc n) a = a.searched d.surface

  decode-IsSafe :
      (st : ImeState) (d : DecodingInfo S) (cand_id : ℤ) {r : DecodingInfo S × ℕ}
      → IsSafe d
      → decode m st d cand_id ≡ some r
      → IsSafe r.0
  unfolding decode
  decode-IsSafe st d (pos n) {r = r} safe e =
      elim (Option-cases (DecoderService.choose m d.decoder_service n)) [
        | inl fault ↦
            let lost : ◌≡◌ {A = Option (DecodingInfo S × ℕ)} none (some r) = rw fault at e in cc
        | inr (w, run) ↦
            let same : (record d { decoder_service = w.0 }, w.1) ≡ r = some_inj _ _ (rw run at e) in
            subst (λ x. IsSafe x.0) same (IsSafe-service d w.0 d.pos_del_spl safe)
      ]
  decode-IsSafe st d (negsuc n) safe e =
      subst (λ x. IsSafe x.0) (some_inj _ _ e) (searched-IsSafe (length d.surface == 0))
    where
      searched-IsSafe :
          (b : Bool) → IsSafe (if b then (d, 0) else search_surface m st d d.pos_del_spl).0
      searched-IsSafe true = safe
      searched-IsSafe false = search_surface-IsSafe st d d.pos_del_spl safe

  -- A decoding that is no choice of a candidate is answered.
  pub decode-Answered :
      (st : ImeState) (d : DecodingInfo S) (n : ℕ)
      → Answers m d.decoder_service
      → (d' : DecodingInfo S) × (num : ℕ) × (decode m st d (negsuc n) ≡ some (d', num))
        × Answered m d'.decoder_service
  unfolding decode
  decode-Answered st d n a = elim (Bool-cases (length d.surface == 0)) [
    | inl e ↦ (d, 0, rw e, a.present)
    | inr e ↦ (
      (search_surface m st d d.pos_del_spl).0,
      (search_surface m st d d.pos_del_spl).1,
      rw e,
      search_surface-Answered st d d.pos_del_spl a,
    )
  ]

  update_for_search-IsSafe :
      (st : ImeState) (d : DecodingInfo S) (n : ℕ)
      → Answered m d.decoder_service
      → Decodes st
      → IsSafe d
      → (d' : DecodingInfo S) × (update_for_search m st d (pos n) ≡ some d')
        × IsSafe d'
        × HasActivePart d'
  unfolding update_for_search get_composing_str_active_part
  update_for_search-IsSafe st d n (start, c) h safe =
      let (t, active, run, surface, fixed, total, comp, cursor, part) =
        take_over-IsConsistent m d n start c in
      let (d', e, kept, kept_safe) =
        first_page-IsSafe st t h (take_over-IsSafe d n (start, c) safe run) in
      (
        d',
        rw (run, e) refl,
        kept_safe,
        (active, subst (λ x. get_composing_str_active_part x ≡ some active) (sym kept) part),
      )

  start_decoding-IsSafe :
      (st : ImeState) (d found : DecodingInfo S) (cand_id : ℤ) (num : ℕ)
      → decode m st (reset_candidates d) cand_id ≡ some (found, num)
      → Answered m found.decoder_service
      → Decodes st
      → IsSafe d
      → (d' : DecodingInfo S) × (start_decoding m st d cand_id ≡ some d')
        × IsSafe d'
        × HasActivePart d'
  unfolding start_decoding
  start_decoding-IsSafe st d found cand_id num run a h safe = rw run (
      update_for_search-IsSafe st found num a h
        (decode-IsSafe st (reset_candidates d) cand_id (reset_candidates-IsSafe d safe) run))

-- In the idle, input or composing state and from the bounds, where the engine returns from the search,
-- deletion or choice that is asked of it, with a consistent answer, the decoding does not fault: the
-- bounds hold again, and the active part of the composing string can be read.
pub choose_decoding_candidate-IsSafe :
    {S : Type 0} (m : MatrixSearch S) (st : ImeState) (d found : DecodingInfo S) (cand_id : ℤ)
    (num : ℕ)
    → decode m st (reset_candidates d) cand_id ≡ some (found, num)
    → Answered m found.decoder_service
    → Decodes st
    → IsSafe d
    → (d' : DecodingInfo S) × (choose_decoding_candidate m st d cand_id ≡ some d')
      × IsSafe d'
      × HasActivePart d'
unfolding choose_decoding_candidate
choose_decoding_candidate-IsSafe m idle d found cand_id num run a h safe =
    start_decoding-IsSafe m idle d found cand_id num run a h safe
choose_decoding_candidate-IsSafe m input d found cand_id num run a h safe =
    start_decoding-IsSafe m input d found cand_id num run a h safe
choose_decoding_candidate-IsSafe m composing d found cand_id num run a h safe =
    start_decoding-IsSafe m composing d found cand_id num run a h safe
choose_decoding_candidate-IsSafe m bypass d found cand_id num run a h safe = elim h [ ]
choose_decoding_candidate-IsSafe m predict d found cand_id num run a h safe = elim h [ ]
choose_decoding_candidate-IsSafe m app_completion d found cand_id num run a h safe = elim h [ ]
