-- ===== src/DecodingInfo/Page.antt =====
-- src/decoding_info.cpp: the candidates that were fetched and the table of pages.
use scim_googlepinyin.Prelude.{
  ℕ, zero, suc, ◌+◌, ◌-◌, ◌%◌, Bool, true, false, List, [], ◌∷◌, ◌++◌, Option, none, some, ltb, leb,
  ◌==◌, ◌&&◌, if◌then◌else◌, length, get_elem?, min,
}
use scim_googlepinyin.Prelude.Errors.{◌>>=◌}
use scim_googlepinyin.Prelude.Int.{ℤ, pos, negsuc}
use scim_googlepinyin.DecoderService
use scim_googlepinyin.DecoderService.{MatrixSearch}
use scim_googlepinyin.DecodingInfo.{DecodingInfo, max_page_size_display, size_mod}
use scim_googlepinyin.ImeState.{ImeState, idle, input, composing, predict, bypass, app_completion}

-- `while (p_start + p_size < cand_size && p_size < page_size) p_size++`. The appended candidates go
-- to `CandidateView::append_candidate`, whose body is empty. `page_size` rounds are enough.
unfoldable pub fill_page : ℕ → ℕ → ℕ → ℕ → ℕ → ℕ
fill_page zero cand_size page_size p_start p_size = p_size
fill_page (suc rounds) cand_size page_size p_start p_size =
    let rest = fill_page rounds cand_size page_size p_start (p_size + 1) in
    if ltb (p_start + p_size) cand_size && ltb p_size page_size then rest else p_size

-- The rounds `p = from_page … page_no` that add a page to the table.
unfoldable pub append_pages : ℕ → ℕ → ℕ → ℕ → List ℕ → Option (List ℕ)
append_pages zero p cand_size page_size page_start = some page_start
append_pages (suc rounds) p cand_size page_size page_start = do
  p_start ← get_elem? page_start p
  let p_size = fill_page page_size cand_size page_size p_start 0
  append_pages rounds (p + 1) cand_size page_size (page_start ++ (p_start + p_size) ∷ [])

module _ {S : Type 0} (d : DecodingInfo S) where
  open d use {page_start, candidates_list}

  -- With `only_extra_margin` the one round changes nothing but reads the page's start. A negative
  -- page is read outside the table.
  unfoldable pub calculate_page : ℤ → ℕ → Option (DecodingInfo S)
  calculate_page (negsuc n) page_size = none
  calculate_page (pos page_no) page_size =
      if length page_start == 0
      then none
      else if ltb page_no (length page_start - 1)
      then some d
      else do
        table ←
            append_pages (page_no + 1 - (length page_start - 1)) (length page_start - 1)
              (length candidates_list) page_size page_start
        some (record d { page_start = table })

module _ {S : Type 0} (m : MatrixSearch S) (d : DecodingInfo S) where
  open d use {page_start, candidates_list, total_choices_num, fixed_len, decoder_service}

  -- The rest of the choices, `max_page_size_display` at most. Where the source has a negative size
  -- this one is 0: both fetch nothing.
  unfoldable pub fetch_size : ℕ
  fetch_size = min (total_choices_num - length candidates_list) max_page_size_display

  unfoldable pub new_list : ImeState → Option (List (List ℕ))
  new_list input =
      some (DecoderService.get_choice_list m decoder_service (length candidates_list) fetch_size)
  new_list idle =
      some (DecoderService.get_choice_list m decoder_service (length candidates_list) fetch_size)
  new_list composing =
      some (DecoderService.get_choice_list m decoder_service (length candidates_list) fetch_size)
  new_list predict =
      DecoderService.get_predict_list m decoder_service (length candidates_list) fetch_size
  new_list bypass = some []
  new_list app_completion = some []

  unfoldable pub get_candidates_for_cache : ImeState → Option (DecodingInfo S)
  unfolding new_list
  get_candidates_for_cache ime_state = do
    fetched ← new_list ime_state
    some (record d { candidates_list = candidates_list ++ fetched })

  -- `m_candidates_list.size() - m_page_start[page_no]`, of `size_t`.
  unfoldable pub cached_after : ℕ → ℕ
  cached_after start = (length candidates_list + size_mod - start) % size_mod

  unfoldable pub fetch_page : ImeState → ℕ → Option (DecodingInfo S × Bool)
  fetch_page ime_state start = do
    d' ← get_candidates_for_cache ime_state
    some (d', ltb start (length d'.candidates_list))

  unfoldable pub prepare_page : ImeState → ℤ → Option (DecodingInfo S × Bool)
  unfolding fetch_page
  prepare_page ime_state (negsuc n) = some (d, false)
  prepare_page ime_state (pos page_no) =
      if leb (length page_start) page_no
      then some (d, false)
      else if ltb (page_no + 1) (length page_start)
      then some (d, true)
      else do
        start ← get_elem? page_start page_no
        let fetched = fetch_page ime_state start
        if leb max_page_size_display (cached_after start) then some (d, true) else fetched
