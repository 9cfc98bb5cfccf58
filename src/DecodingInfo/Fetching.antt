-- ===== src/DecodingInfo/Fetching.antt =====
-- Fetching candidates from the engine.
use scim_googlepinyin.Prelude.{
  ℕ, ◌+◌, ◌≤◌, ◌<◌, ◌≡◌, refl, Bool, true, false, List, ◌++◌, some, arith, length, get_elem?, min,
  inl, inr, Bool-cases, ltb, leb, ltb→lt, ltb→ge, leb→le, length-append, get_elem?-some, ◌⊎◌,
}
use scim_googlepinyin.Prelude.Int.{pos}
use scim_googlepinyin.ImeState.{ImeState, idle, input, composing, predict, bypass, app_completion}
use scim_googlepinyin.DecoderService
use scim_googlepinyin.DecoderService.{MatrixSearch, length-get_choice_list}
use scim_googlepinyin.DecodingInfo.{DecodingInfo, max_page_size_display, size_mod}
use scim_googlepinyin.DecodingInfo.Page.{
  get_candidates_for_cache, fetch_size, new_list, prepare_page, cached_after, fetch_page,
}

-- The states in which the engine offers choices.
abbrev pub Decodes : ImeState → Type 0
Decodes idle = Unit
Decodes input = Unit
Decodes composing = Unit
Decodes bypass = ⊥
Decodes predict = ⊥
Decodes app_completion = ⊥

module _ {S : Type 0} (m : MatrixSearch S) (d : DecodingInfo S) where
  abbrev pub choices : List (List ℕ)
  choices =
      DecoderService.get_choice_list m d.decoder_service (length d.candidates_list) (fetch_size m d)

  pub new_list-choices : (st : ImeState) → Decodes st → new_list m d st ≡ some choices
  unfolding new_list
  new_list-choices idle h = refl
  new_list-choices input h = refl
  new_list-choices composing h = refl
  new_list-choices bypass h = elim h [ ]
  new_list-choices predict h = elim h [ ]
  new_list-choices app_completion h = elim h [ ]

  -- While pinyin is decoded a fetch appends the engine's next choices to those cached: as many as are
  -- left, ten at most. It changes nothing else, and the cache never exceeds the total.
  pub get_candidates_for_cache-appends :
      (st : ImeState)
      → Decodes st
      → length d.candidates_list ≤ d.total_choices_num
      → (fetched : List (List ℕ)) × (get_candidates_for_cache m d st
          ≡ some (record d { candidates_list = d.candidates_list ++ fetched }))
        × (fetched
            ≡ DecoderService.get_choice_list m d.decoder_service
                (length d.candidates_list)
                (length fetched))
        × (length (d.candidates_list ++ fetched)
            ≡ min d.total_choices_num (length d.candidates_list + max_page_size_display))
  unfolding get_candidates_for_cache fetch_size
  get_candidates_for_cache-appends st h le =
      let size =
        length-get_choice_list m d.decoder_service (length d.candidates_list) (fetch_size m d) in
      (
        choices,
        rw (new_list-choices st h),
        rw size,
        omega (arith, size, length-append d.candidates_list choices),
      )

-- Whether page `page_no` can be shown: its end is known, ten candidates are cached from its start
-- on, or candidates from its start on could be fetched.
abbrev pub IsReady : {S : Type 0} → DecodingInfo S → ℕ → ℕ → Type 0
IsReady d page_no start = (page_no + 1 < length d.page_start) ⊎ (start < length d.candidates_list)

-- While pinyin is decoded, and with a page table that does not reach beyond the cached candidates,
-- `prepare_page` of a page whose start is known does not fault. It returns true with
-- the page ready, or false with no candidate left from its start on; it keeps the page table, and
-- fetches only candidates that exist.
pub prepare_page-IsReady :
    {S : Type 0} (m : MatrixSearch S) (d : DecodingInfo S) (st : ImeState) (page_no start : ℕ)
    → Decodes st
    → length d.candidates_list ≤ d.total_choices_num
    → d.total_choices_num < size_mod
    → get_elem? d.page_start page_no ≡ some start
    → start ≤ length d.candidates_list
    → (d' : DecodingInfo S) × (answer : Bool) × (prepare_page m d st (pos page_no)
        ≡ some (d', answer))
      × (d'.page_start ≡ d.page_start)
      × (length d'.candidates_list ≤ d'.total_choices_num)
      × ((answer ≡ true) × IsReady d' page_no start
          ⊎ (answer ≡ false) × (d'.total_choices_num ≤ start))
unfolding prepare_page fetch_page cached_after
prepare_page-IsReady m d st page_no start decodes le small e known =
    elim (Bool-cases (ltb (page_no + 1) (length d.page_start))) [
      | inl ended ↦ (
        d,
        true,
        ground (arith, ended, get_elem?-some d.page_start page_no e),
        refl,
        le,
        inl (refl, inl (ltb→lt _ _ ended)),
      )
      | inr open_end ↦ elim (Bool-cases (leb max_page_size_display (cached_after m d start))) [
        | inl enough ↦ (
          d,
          true,
          ground (arith, open_end, e, enough, get_elem?-some d.page_start page_no e),
          refl,
          le,
          inl (refl, inr (omega (arith, leb→le _ _ enough))),
        )
        | inr few ↦
            let (fetched, run, same, size) = get_candidates_for_cache-appends m d st decodes le in
            (
              record d { candidates_list = d.candidates_list ++ fetched },
              ltb start (length (d.candidates_list ++ fetched)),
              ground (arith, open_end, e, few, run, get_elem?-some d.page_start page_no e),
              refl,
              omega (arith, size),
              elim (Bool-cases (ltb start (length (d.candidates_list ++ fetched)))) [
                | inl t ↦ inl (t, inr (ltb→lt _ _ t))
                | inr f ↦ inr (f, omega (arith, size, ltb→ge _ _ f))
              ],
            )
      ]
    ]
