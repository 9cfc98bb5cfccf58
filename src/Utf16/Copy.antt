-- ===== src/Utf16/Copy.antt =====
-- What the copying functions write.
use scim_googlepinyin.Prelude.{
  ℕ, zero, suc, ◌+◌, ◌-◌, ◌≤◌, ◌<◌, ◌≡◌, ◌≢◌, ◌⊎◌, refl, true, false, ◌&&◌, ◌||◌, List, [], ◌∷◌,
  ◌++◌, some, arith, length, get_elem?, set, drop, ltb, leb, ◌==◌, inl, inr, Bool-cases,
  get_elem?-lt, length-set, get_elem?-set, sym, ◌∙◌, subst, lt→ltb, ==_refl,
}
use scim_googlepinyin.Utf16.{utf16_strcpy, utf16_strncpy, copy_forward, copy_backward, store}
use scim_googlepinyin.Utf16.Compare.{is_word}

-- A terminated word that fits is copied with its 0, and what stands behind it in the buffer is kept.
pub utf16_strcpy-append :
    (dst word rest : List ℕ)
    → is_word word ≡ true
    → length word < length dst
    → utf16_strcpy dst (word ++ 0 ∷ rest) ≡ some (word ++ 0 ∷ drop (length word + 1) dst)
unfolding utf16_strcpy is_word
utf16_strcpy-append [] word rest p h = absurd (omega arith)
utf16_strcpy-append (old ∷ dst) [] rest p h = refl
utf16_strcpy-append (old ∷ dst) (ch ∷ word) rest p h =
    let tail = utf16_strcpy-append dst word rest (ground arith) (omega arith) in
    let more : (ch == 0) ≡ false = ground arith in
    let k : suc (length word) + 1 ≡ suc (length word + 1) = omega arith in rw (more, tail, k)

copy_backward-eq :
    (size : ℕ) (mem : List ℕ) (cp src : ℕ)
    → size ≤ cp
    → cp ≤ length mem
    → size ≤ src
    → src ≤ length mem
    → copy_backward size mem cp src ≡ some mem
unfolding copy_backward
copy_backward-eq zero mem cp src a b c d = refl
copy_backward-eq (suc size) mem cp src a b c d =
    let (x, ex) = get_elem?-lt mem (cp - 1) (omega arith) in
    let (y, ey) = get_elem?-lt mem (src - 1) (omega arith) in
    let rest =
      copy_backward-eq size mem (cp - 1) (src - 1) (omega arith) (omega arith) (omega arith)
        (omega arith) in
    elim (Bool-cases (x == y)) [
      | inl same ↦ rw (ex, ey, same) rest
      | inr other ↦ rw (ex, ey, other)
    ]

-- Where the destination begins inside the source, nothing is copied at all: the loop for that case
-- compares the characters. The function does not fault there, and the memory stays as it was.
pub utf16_strncpy-overlap :
    (mem : List ℕ) (dst src size : ℕ)
    → src < dst
    → dst < src + size
    → dst + size ≤ length mem
    → utf16_strncpy mem dst src size ≡ some mem
unfolding utf16_strncpy
utf16_strncpy-overlap mem dst src size a b c =
    let some_size : (size == 0 || src == dst) ≡ false = ground arith in
    let overlap : (ltb dst src || (ltb src dst && leb (src + size) dst)) ≡ false = ground arith in
    rw (some_size, overlap)
      (copy_backward-eq size mem (dst + size) (src + size) (omega arith) (omega arith) (omega arith)
        (omega arith))

-- The characters before `at` in the string at `src` are not 0.
abbrev pub Runs : List ℕ → ℕ → ℕ → Type 0
Runs mem src at = (j : ℕ) → j < at → get_elem? mem (src + j) ≢ some 0

-- `new` is `old` with the string at `src`, up to its 0 and of `size` characters at most, copied to
-- `dst`. What stands behind the 0 in the destination is left open.
pub record IsCopied (old new : List ℕ) (dst src size : ℕ) : Type 0 where
  pub same_length : length new ≡ length old
  pub copied :
      (at : ℕ) → at < size → Runs old src at → get_elem? new (dst + at) ≡ get_elem? old (src + at)
  pub kept : (at : ℕ) → (at < dst) ⊎ (dst + size ≤ at) → get_elem? new at ≡ get_elem? old at

module _ (mem : List ℕ) (dst src size ch : ℕ) (here : get_elem? mem src ≡ some ch)
    (fits : dst < length mem) (apart : (dst < src) ⊎ (src + suc size ≤ dst)) where
  there : get_elem? (set mem dst ch) dst ≡ some ch
  there = get_elem?-set mem dst dst ch fits ∙ rw (==_refl dst)

  elsewhere : (at : ℕ) → dst ≢ at → get_elem? (set mem dst ch) at ≡ get_elem? mem at
  elsewhere at h =
      let other : (dst == at) ≡ false = ground arith in get_elem?-set mem dst at ch fits ∙ rw other

  in_source : (at : ℕ) → at < size → dst ≢ src + suc at
  in_source at h = sides apart
    where
      sides : (dst < src) ⊎ (src + suc size ≤ dst) → dst ≢ src + suc at
      sides (inl x) = λ e. omega arith
      sides (inr x) = λ e. omega arith

  shifted :
      (at : ℕ)
      → at < size
      → get_elem? (set mem dst ch) (src + 1 + at) ≡ get_elem? mem (src + suc at)
  shifted at h =
      let s : src + suc at ≡ src + 1 + at = omega arith in
      subst (λ i. get_elem? (set mem dst ch) i ≡ get_elem? mem (src + suc at)) s
        (elsewhere (src + suc at) (in_source at h))

  first_copied :
      (new : List ℕ)
      → get_elem? new dst ≡ some ch
      → get_elem? new (dst + 0) ≡ get_elem? mem (src + 0)
  first_copied new e =
      let d : dst + 0 ≡ dst = omega arith in
      let s : src + 0 ≡ src = omega arith in rw (d, s) (e ∙ sym here)

  -- A 0 ends the copy.
  end_step : ch ≡ 0 → IsCopied mem (set mem dst ch) dst src (suc size)
  end_step is_end = record {
    same_length = length-set mem dst ch;
    copied = copied_here;
    kept = λ at h. elsewhere at (outside at h);
  }
    where
      copied_here :
          (at : ℕ)
          → at < suc size
          → Runs mem src at
          → get_elem? (set mem dst ch) (dst + at) ≡ get_elem? mem (src + at)
      copied_here zero h runs = first_copied (set mem dst ch) there
      copied_here (suc at) h runs =
          let s : src + 0 ≡ src = omega arith in
          absurd (runs 0 (omega arith) (rw s (rw is_end at here)))

      outside : (at : ℕ) → (at < dst) ⊎ (dst + suc size ≤ at) → dst ≢ at
      outside at (inl x) = λ e. omega arith
      outside at (inr x) = λ e. omega arith

  more_step :
      (new : List ℕ)
      → IsCopied (set mem dst ch) new (dst + 1) (src + 1) size
      → IsCopied mem new dst src (suc size)
  more_step new rest = record {
    same_length = rest.same_length ∙ length-set mem dst ch;
    copied = copied_here;
    kept = kept_here;
  }
    where
      copied_here :
          (at : ℕ)
          → at < suc size
          → Runs mem src at
          → get_elem? new (dst + at) ≡ get_elem? mem (src + at)
      copied_here zero h runs = first_copied new (rest.kept dst (inl (omega arith)) ∙ there)
      copied_here (suc at) h runs =
          let d : dst + suc at ≡ dst + 1 + at = omega arith in
          rw d (
            rest.copied at (omega arith)
              (λ j l e. runs (suc j) (omega arith) (sym (shifted j (omega arith)) ∙ e))
            ∙ shifted at (omega arith))

      kept_here :
          (at : ℕ) → (at < dst) ⊎ (dst + suc size ≤ at) → get_elem? new at ≡ get_elem? mem at
      kept_here at (inl x) = rest.kept at (inl (omega arith)) ∙ elsewhere at (λ e. omega arith)
      kept_here at (inr x) = rest.kept at (inr (omega arith)) ∙ elsewhere at (λ e. omega arith)

copy_forward-IsCopied :
    (size : ℕ) (mem : List ℕ) (dst src : ℕ)
    → dst + size ≤ length mem
    → src + size ≤ length mem
    → (dst < src) ⊎ (src + size ≤ dst)
    → (new : List ℕ) × (copy_forward size mem dst src ≡ some new) × IsCopied mem new dst src size
unfolding copy_forward store
copy_forward-IsCopied zero mem dst src a b c = (
  mem,
  refl,
  record { same_length = refl; copied = λ at h r. absurd (omega arith); kept = λ at h. refl },
)
copy_forward-IsCopied (suc size) mem dst src a b c =
    let (ch, here) = get_elem?-lt mem src (omega arith) in
    let fits = lt→ltb dst (length mem) (omega arith) in
    let same = length-set mem dst ch in
    elim (Bool-cases (ch == 0)) [
      | inl end ↦ (
        set mem dst ch,
        rw (here, fits, end),
        end_step mem dst src size ch here (omega arith) c (ground arith),
      )
      | inr more ↦
          let (new, run, rest) =
            copy_forward-IsCopied size (set mem dst ch) (dst + 1) (src + 1) (omega arith)
              (omega arith) (apart c) in
          (
            new,
            rw (here, fits, more) run,
            more_step mem dst src size ch here (omega arith) c new rest,
          )
    ]
  where
    apart : (dst < src) ⊎ (src + suc size ≤ dst) → (dst + 1 < src + 1) ⊎ (src + 1 + size ≤ dst + 1)
    apart (inl x) = inl (omega arith)
    apart (inr x) = inr (omega arith)

-- Where the destination does not begin inside the source, and both lie in the memory, the string is
-- copied: each character up to the 0, or `size` of them. The function does not fault, and the memory
-- outside the destination stays as it was.
pub utf16_strncpy-IsCopied :
    (mem : List ℕ) (dst src size : ℕ)
    → (dst < src) ⊎ (src + size ≤ dst)
    → dst + size ≤ length mem
    → src + size ≤ length mem
    → (new : List ℕ) × (utf16_strncpy mem dst src size ≡ some new) × IsCopied mem new dst src size
unfolding utf16_strncpy
utf16_strncpy-IsCopied mem dst src zero c a b = (
  mem,
  refl,
  record { same_length = refl; copied = λ at h r. absurd (omega arith); kept = λ at h. refl },
)
utf16_strncpy-IsCopied mem dst src (suc size) c a b =
    let (new, run, right) = copy_forward-IsCopied (suc size) mem dst src a b c in
    (new, rw (test c, forward c) run, right)
  where
    test : (dst < src) ⊎ (src + suc size ≤ dst) → (suc size == 0 || src == dst) ≡ false
    test (inl x) = ground arith
    test (inr x) = ground arith

    forward :
        (dst < src) ⊎ (src + suc size ≤ dst)
        → (ltb dst src || (ltb src dst && leb (src + suc size) dst)) ≡ true
    forward (inl x) = ground arith
    forward (inr x) = ground arith
