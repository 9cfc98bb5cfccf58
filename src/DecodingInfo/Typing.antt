-- ===== src/DecodingInfo/Typing.antt =====
-- What typing a character and marking a deletion do.
use scim_googlepinyin.Prelude.{
  ℕ, zero, suc, ◌+◌, ◌-◌, ◌≤◌, ◌<◌, ◌≡◌, ◌⊎◌, refl, true, false, List, [], ◌∷◌, ◌++◌, Option, none,
  some, arith, length, get_elem?, take, drop, inl, inr, ◌==◌, get_elem?-lt, Bool-cases, leb, ltb,
  ◌&&◌, lt→ltb, subst, sym, some_inj, ◌∙◌, take-insert, drop-insert, get_elem?-insert,
  length-insert,
}
use native.Mathlib.Nat.{le_refl}
use scim_googlepinyin.Prelude.Int.{pos, negsuc}
use scim_googlepinyin.DecoderService
use scim_googlepinyin.DecoderService.{MatrixSearch}
use scim_googlepinyin.DecodingInfo.{DecodingInfo, char_before_cursor_is_separator}
use scim_googlepinyin.DecodingInfo.Edit.{
  add_spl_char, prepare_delete_before_cursor, fixed_spelling_at,
}

-- `new` is `old` with `ch` put in at `at`: the parts before and behind it are the old ones.
pub record IsInserted (old new : List ℕ) (at ch : ℕ) : Type 0 where
  pub length_grows : length new ≡ suc (length old)
  pub char_there : get_elem? new at ≡ some ch
  pub same_before : take at new ≡ take at old
  pub same_behind : drop (suc at) new ≡ drop at old

take_insert-IsInserted :
    (xs : List ℕ) (at ch : ℕ) → at ≤ length xs → IsInserted xs (take at xs ++ ch ∷ drop at xs) at ch
take_insert-IsInserted xs at ch h = record {
  length_grows = length-insert at xs ch h;
  char_there = get_elem?-insert at xs ch _ h;
  same_before = take-insert at xs _ h;
  same_behind = drop-insert at xs ch _ h;
}

-- With the cursor in the string a character goes in at the cursor, which then stands behind it. Only
-- the string and the cursor change.
pub add_spl_char-IsInserted :
    {S : Type 0} (m : MatrixSearch S) (d : DecodingInfo S) (ch : ℕ)
    → d.cursor_pos ≤ length d.surface
    → (surface : List ℕ) × (add_spl_char m d ch false
        ≡ some (record d { surface = surface; cursor_pos = d.cursor_pos + 1 }))
      × IsInserted d.surface surface d.cursor_pos ch
unfolding add_spl_char
add_spl_char-IsInserted m d ch h = (
  take d.cursor_pos d.surface ++ ch ∷ drop d.cursor_pos d.surface,
  ground arith,
  take_insert-IsInserted d.surface d.cursor_pos ch h,
)

-- The first character of a new string replaces what was there, wherever the cursor was, and the
-- engine is reset.
pub add_spl_char-reset :
    {S : Type 0} (m : MatrixSearch S) (d : DecodingInfo S) (ch : ℕ)
    → add_spl_char m d ch true
      ≡ some (record d {
        surface = ch ∷ [];
        surface_decoded_len = 0;
        cursor_pos = 1;
        decoder_service = DecoderService.reset_search m d.decoder_service;
      })
unfolding add_spl_char
add_spl_char-reset m d ch = refl

separator_behind :
    {S : Type 0} (d : DecodingInfo S) (surface : List ℕ) (cursor ch : ℕ)
    → get_elem? surface cursor ≡ some ch
    → cursor < length surface
    → char_before_cursor_is_separator (record d { surface = surface; cursor_pos = cursor + 1 })
      ≡ (ch == b'\'')
unfolding char_before_cursor_is_separator
separator_behind d surface cursor ch e h =
    let back : cursor + 1 - 1 ≡ cursor = omega arith in rw (back, e) (ground arith)

-- After a character was typed, the test for a separator before the cursor says whether that
-- character was one. So a second separator is refused directly behind the first.
pub char_before_cursor-add_spl_char :
    {S : Type 0} (m : MatrixSearch S) (d : DecodingInfo S) (ch : ℕ) {d' : DecodingInfo S}
    → d.cursor_pos ≤ length d.surface
    → add_spl_char m d ch false ≡ some d'
    → char_before_cursor_is_separator d' ≡ (ch == b'\'')
char_before_cursor-add_spl_char m d ch h e =
    let (surface, added, inserted) = add_spl_char-IsInserted m d ch h in
    subst (λ x. char_before_cursor_is_separator x ≡ (ch == b'\'')) (some_inj _ _ (sym added ∙ e))
      (separator_behind d surface d.cursor_pos ch inserted.char_there
        (omega (arith, inserted.length_grows)))

module _ (spl_start : List ℕ) (cursor : ℕ) where
  -- The cursor lies in the fixed spelling `at`, which starts at `lo`.
  abbrev pub Holds : ℕ → ℕ → Type 0
  Holds at lo =
      (hi : ℕ) × (get_elem? spl_start (at + 1) ≡ some lo)
      × (get_elem? spl_start (at + 2) ≡ some hi)
      × (lo < cursor)
      × (cursor ≤ hi)

  -- None of the spellings from `at` on and before `end` holds it.
  abbrev pub NoneHolds : ℕ → ℕ → Type 0
  NoneHolds at end = (p lo : ℕ) → at ≤ p → p < end → ¬ Holds p lo

  -- The first spelling that holds the cursor, if one does.
  abbrev pub Found : ℕ → ℕ → Option ℕ → Type 0
  Found at end none = NoneHolds at end
  Found at end (some p) = (lo : ℕ) × (at ≤ p) × (p < end) × Holds p lo × NoneHolds at p

  pub fixed_spelling_at-Found :
      (rounds at end : ℕ)
      → at + rounds ≡ end
      → (0 < rounds → end + 2 ≤ length spl_start)
      → (found : Option ℕ) × (fixed_spelling_at spl_start cursor rounds at ≡ some found)
        × Found at end found
  unfolding fixed_spelling_at
  fixed_spelling_at-Found zero at end e h = (none, refl, λ p lo ge lt f. absurd (omega arith))
  fixed_spelling_at-Found (suc rounds) at end e h =
      let long = h (omega arith) in
      let (hi, ehi) = get_elem?-lt spl_start (at + 2) (omega arith) in
      let (lo, elo) = get_elem?-lt spl_start (at + 1) (omega arith) in
      let (found, step, holds) =
        fixed_spelling_at-Found rounds (at + 1) end (omega arith) (λ k. long) in
      elim (Bool-cases (leb cursor hi && ltb lo cursor)) [
        | inl inside ↦ (
          some at,
          rw (ehi, elo, inside),
          (
            lo,
            le_refl at,
            omega arith,
            (hi, elo, ehi, ground arith, ground arith),
            λ p l ge lt f. absurd (omega arith),
          ),
        )
        | inr outside ↦
            (found, rw (ehi, elo, outside) step, later (not_here lo hi elo ehi outside) found holds)
      ]
    where
      not_here :
          (lo hi : ℕ)
          → get_elem? spl_start (at + 1) ≡ some lo
          → get_elem? spl_start (at + 2) ≡ some hi
          → (leb cursor hi && ltb lo cursor) ≡ false
          → (l : ℕ) → ¬ Holds at l
      not_here lo hi elo ehi outside l (h, el, eh, below, above) =
          let same_lo : lo ≡ l = some_inj _ _ (sym elo ∙ el) in
          let same_hi : hi ≡ h = some_inj _ _ (sym ehi ∙ eh) in
          let inside : (leb cursor hi && ltb lo cursor) ≡ true = ground arith in cc

      none_from :
          ((l : ℕ) → ¬ Holds at l) → (last : ℕ) → NoneHolds (at + 1) last → NoneHolds at last
      none_from here last f p l ge lt holds = elim (Bool-cases (p == at)) [
        | inl same ↦ let e : p ≡ at = ground arith in here l (subst (λ q. Holds q l) e holds)
        | inr other ↦ f p l (ground arith) lt holds
      ]

      later : ((l : ℕ) → ¬ Holds at l) → (o : Option ℕ) → Found (at + 1) end o → Found at end o
      later here none f = none_from here end f
      later here (some p) (lo, ge, lt, holds, first) =
          (lo, omega arith, lt, holds, none_from here p first)

module _ {S : Type 0} (d d' : DecodingInfo S) where
  -- The first fixed spelling that holds the cursor is marked as a whole, and the cursor goes to its start.
  abbrev pub MarksSpelling : Type 0
  MarksSpelling =
      (at lo : ℕ) × (at < d.fixed_len)
      × Holds d.spl_start d.cursor_pos at lo
      × NoneHolds d.spl_start d.cursor_pos 0 at
      × (d' ≡ record d { pos_del_spl = pos at; cursor_pos = lo; is_pos_in_spl = true })

  -- No fixed spelling holds the cursor, and the character `at` of the pinyin is marked.
  abbrev pub MarksChar : ℕ → ℕ → Type 0
  MarksChar at cursor =
      NoneHolds d.spl_start d.cursor_pos 0 d.fixed_len
      × (d' ≡ record d { pos_del_spl = pos at; cursor_pos = cursor; is_pos_in_spl = false })

-- With nothing marked yet, the cursor behind some character, and `spl_start` covering the fixed part if
-- there is one, Backspace marks the first fixed spelling that holds the cursor, whole; just where no
-- fixed spelling holds it, it marks the character before the cursor. It does not fault, and the cursor
-- moves to the left.
pub prepare_delete_before_cursor-marks :
    {S : Type 0} (d : DecodingInfo S)
    → 0 < d.cursor_pos
    → d.pos_del_spl ≡ negsuc 0
    → (0 < d.fixed_len → d.fixed_len + 2 ≤ length d.spl_start)
    → (d' : DecodingInfo S) × (prepare_delete_before_cursor d ≡ some d')
      × (d'.cursor_pos < d.cursor_pos)
      × (MarksSpelling d d' ⊎ MarksChar d d' (d.cursor_pos - 1) (d.cursor_pos - 1))
unfolding prepare_delete_before_cursor
prepare_delete_before_cursor-marks {S = S} d positive unmarked long =
    go (
      fixed_spelling_at-Found d.spl_start d.cursor_pos d.fixed_len 0 d.fixed_len (omega arith) long)
  where
    go :
        (found : Option ℕ) × (fixed_spelling_at d.spl_start d.cursor_pos d.fixed_len 0 ≡ some found)
          × Found d.spl_start d.cursor_pos 0 d.fixed_len found
        → (d' : DecodingInfo S) × (prepare_delete_before_cursor d ≡ some d')
          × (d'.cursor_pos < d.cursor_pos)
          × (MarksSpelling d d' ⊎ MarksChar d d' (d.cursor_pos - 1) (d.cursor_pos - 1))
    go (none, e, f) = (
      record d {
        pos_del_spl = pos (d.cursor_pos - 1);
        cursor_pos = d.cursor_pos - 1;
        is_pos_in_spl = false;
      },
      rw (lt→ltb _ _ positive, e, unmarked),
      omega arith,
      inr (f, refl),
    )
    go (some at, e, (lo, ge, lt, (hi, elo, ehi, inside, up), first)) = (
      record d { pos_del_spl = pos at; cursor_pos = lo; is_pos_in_spl = true },
      rw (lt→ltb _ _ positive, e, elo),
      inside,
      inl (at, lo, lt, (hi, elo, ehi, inside, up), first, refl),
    )
