-- ===== src/DecodingInfo/Decoding.antt =====
-- Taking over the engine's answer to a search.
use scim_googlepinyin.Prelude.{
  ℕ, zero, suc, ◌+◌, ◌-◌, ◌≤◌, ◌<◌, ◌≡◌, refl, true, false, not, List, [], ◌∷◌, ◌++◌, some, arith,
  length, get_elem?, take, drop, inl, inr, Bool-cases, ltb, ◌==◌, ◌&&◌, ltb→lt, length-append,
  length-drop, get_elem?-lt, if◌then◌else◌, ◌∙◌,
}
use scim_googlepinyin.Prelude.Int.{pos}
use scim_googlepinyin.DecoderService
use scim_googlepinyin.DecoderService.{MatrixSearch, PinyinDecoderService}
use scim_googlepinyin.DecodingInfo.{DecodingInfo, size_sub, get_composing_str_active_part}
use scim_googlepinyin.DecodingInfo.Search.{
  display_spellings, prepare_display, compose, active_len, take_over, taken,
}

-- What an answer of the engine must satisfy: `spl_start` reaches behind the fixed part, its
-- positions lie in the pinyin string, and the fixed part lies in the decoded part, if any is.
pub record IsConsistent (spl_start surface : List ℕ) (decoded fixed_len start : ℕ) : Type 0 where
  pub long : fixed_len + 1 < length spl_start
  pub rest_start : get_elem? spl_start (fixed_len + 1) ≡ some start
  pub in_surface : (i x : ℕ) → 1 ≤ i → get_elem? spl_start i ≡ some x → x ≤ length surface
  pub decoded_part : decoded ≤ length surface
  pub fixed_decoded : 0 < decoded → start ≤ decoded

module _ (spl_start surface : List ℕ) (decoded : ℕ) where
  display_spellings_total :
      ((i x : ℕ) → 1 ≤ i → get_elem? spl_start i ≡ some x → x ≤ length surface)
      → (rounds at : ℕ) (acc : List ℕ) → 1 ≤ at
      → at + rounds < length spl_start
      → (shown : List ℕ) × (display_spellings spl_start decoded surface rounds at acc ≡ some shown)
  unfolding display_spellings
  display_spellings_total inside zero at acc h k = (acc, refl)
  display_spellings_total inside (suc rounds) at acc h k =
      let (start, e) = get_elem?-lt spl_start at (omega arith) in
      let (end, f) = get_elem?-lt spl_start (at + 1) (omega arith) in
      let fits = inside at start h e in
      let spelling = take (size_sub end start) (drop start surface) in
      let spaced = if not (at == 1) && ltb start decoded then acc ++ b' ' ∷ [] else acc in
      let (shown, run) =
        display_spellings_total inside rounds (at + 1) (spaced ++ spelling) (omega arith)
          (omega arith) in
      (shown, ground (arith, e, f, run))

  module _ (full_sent composing_str : List ℕ) (fixed_len start : ℕ) where
    prepare_display_total :
        IsConsistent spl_start surface decoded fixed_len start
        → (display : List ℕ × ℕ) × (prepare_display spl_start decoded surface full_sent fixed_len
              composing_str
            ≡ some display)
    unfolding prepare_display
    prepare_display_total c = elim (Bool-cases (decoded == 0)) [
      | inl nothing ↦ ((composing_str, length composing_str), rw nothing)
      | inr something ↦
          let (shown, run) =
            display_spellings_total c.in_surface (length spl_start - 1 - (fixed_len + 1))
              (fixed_len + 1) (take fixed_len full_sent) (omega arith) (omega (arith, c.long)) in
          (
            (
              if ltb decoded (length surface) then shown ++ drop decoded surface else shown,
              length shown,
            ),
            ground (arith, something, run, c.decoded_part),
          )
    ]

module _ {S : Type 0} (m : MatrixSearch S) (v : PinyinDecoderService S) where
  -- The engine's answers, as `update_for_search` asks for them.
  abbrev pub surface_of : List ℕ
  surface_of = DecoderService.get_py_str m v false

  abbrev pub decoded_of : ℕ
  decoded_of = length (DecoderService.get_py_str m v true)

  abbrev pub fixed_of : ℕ
  fixed_of = DecoderService.get_fixed_len m v

  abbrev pub composing_of : ℕ → List ℕ
  composing_of start = take fixed_of (DecoderService.get_choice m v 0) ++ drop start surface_of

compose-some :
    (spl_start surface full_sent : List ℕ) {decoded : ℕ} (fixed_len start : ℕ)
    → IsConsistent spl_start surface decoded fixed_len start
    → compose spl_start surface full_sent fixed_len
      ≡ some (take fixed_len full_sent ++ drop start surface)
unfolding compose
compose-some spl_start surface full_sent fixed_len start c =
    ground (arith, c.rest_start, c.in_surface (fixed_len + 1) start (omega arith) c.rest_start)

-- The active length lies between 0 and the length of the composing string.
active_len-pos :
    (decoded : ℕ) (surface fixed : List ℕ) (start : ℕ)
    → start ≤ length surface
    → decoded ≤ length surface
    → (0 < decoded → start ≤ decoded)
    → (n : ℕ) × (active_len decoded surface (fixed ++ drop start surface) ≡ pos n)
      × (n ≤ length (fixed ++ drop start surface))
unfolding active_len
active_len-pos decoded surface fixed start in_surface part inside =
    elim (Bool-cases (ltb 0 decoded)) [
      | inl some_decoded ↦ (
        length (fixed ++ drop start surface) + decoded - length surface,
        ground (
          arith,
          inside (ltb→lt _ _ some_decoded),
          length-append fixed (drop start surface),
          length-drop start surface,
        ),
        omega arith,
      )
      | inr none_decoded ↦ (length (fixed ++ drop start surface), rw none_decoded, omega arith)
    ]

active_part :
    {S : Type 0} (d : DecodingInfo S) (decoded : ℕ) (fixed : List ℕ) (start : ℕ)
    → start ≤ length d.surface
    → decoded ≤ length d.surface
    → (0 < decoded → start ≤ decoded)
    → d.composing_str ≡ fixed ++ drop start d.surface
    → d.active_cmps_len ≡ active_len decoded d.surface d.composing_str
    → (active : List ℕ) × (get_composing_str_active_part d ≡ some active)
unfolding get_composing_str_active_part
active_part d decoded fixed start in_surface part inside comp len =
    let (n, e, le) = active_len-pos decoded d.surface fixed start in_surface part inside in
    let e' : d.active_cmps_len ≡ pos n = rw comp at len ∙ e in
    (take n d.composing_str, ground (arith, e', comp, le))

-- Of a consistent answer the update takes over the pinyin string, the fixed length and the number of
-- candidates; the composing string is the fixed characters followed by the pinyin that they leave.
-- It does not fault, leaves the cursor in the pinyin string, and the active part of the composing
-- string can be read: its length, which the source asserts to be in range, is.
pub take_over-IsConsistent :
    {S : Type 0} (m : MatrixSearch S) (d : DecodingInfo S) (n start : ℕ)
    → IsConsistent
        (DecoderService.get_spelling_start m d.decoder_service)
        (surface_of m d.decoder_service)
        (decoded_of m d.decoder_service)
        (fixed_of m d.decoder_service)
        start
    → (d' : DecodingInfo S) × (active : List ℕ) × (take_over m d n ≡ some d')
      × (d'.surface ≡ surface_of m d.decoder_service)
      × (d'.fixed_len ≡ fixed_of m d.decoder_service)
      × (d'.total_choices_num ≡ n)
      × (d'.composing_str ≡ composing_of m d.decoder_service start)
      × (d'.cursor_pos ≤ length d'.surface)
      × (get_composing_str_active_part d' ≡ some active)
unfolding take_over taken
take_over-IsConsistent m d n start c =
    let v = d.decoder_service in
    let spl_start = DecoderService.get_spelling_start m v in
    let full_sent = DecoderService.get_choice m v 0 in
    let comp = composing_of m v start in
    let (display, shown) =
      prepare_display_total spl_start (surface_of m v) (decoded_of m v) full_sent comp
        (fixed_of m v) start c in
    let (active, part) =
      active_part (taken m d n comp display) (decoded_of m v) (take (fixed_of m v) full_sent) start
        (c.in_surface (fixed_of m v + 1) start (omega arith) c.rest_start) c.decoded_part
        c.fixed_decoded refl refl in
    (
      taken m d n comp display,
      active,
      rw (compose-some spl_start (surface_of m v) full_sent (fixed_of m v) start c, shown),
      refl,
      refl,
      refl,
      refl,
      ground arith,
      part,
    )
