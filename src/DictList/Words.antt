-- ===== src/DictList/Words.antt =====
-- The words that `get_lemma_str` gives for the ids.
use scim_googlepinyin.Prelude.{
  ℕ, zero, suc, ◌+◌, ◌-◌, ◌*◌, ◌≤◌, ◌<◌, ◌≡◌, refl, true, false, not, ◌&&◌, ◌||◌, List, [], ◌∷◌,
  some, arith, length, get_elem?, take, drop, ltb, leb, inl, inr, Bool-cases, get_elem?-lt, sym,
  ◌∙◌, some_inj, length-take, length-drop, ◌==◌,
}
use native.Mathlib.Nat.{mul-le-mul_right}
use scim_googlepinyin.DictList.{DictList, read_word, find_range, get_lemma_str, max_lemma_size}

-- The words of each length have consecutive ids and stand one behind the other in the buffer: those of
-- `i + 1` characters from `start_pos[i]` on, with ids from `start_id[i]` on. There may be more words than
-- ids: the last word of all has an id that is no longer in the range.
pub record IsLaid (d : DictList) : Type 0 where
  pub ready : d.initialized ≡ true
  pub ids : length d.start_id ≡ max_lemma_size + 1
  pub positions : length d.start_pos ≡ max_lemma_size + 1
  pub consecutive :
      (i start next pos next_pos : ℕ)
      → get_elem? d.start_id i ≡ some start
      → get_elem? d.start_id (i + 1) ≡ some next
      → get_elem? d.start_pos i ≡ some pos
      → get_elem? d.start_pos (i + 1) ≡ some next_pos
      → (start ≤ next) × (pos + (next - start) * (i + 1) ≤ next_pos) × (next_pos ≤ length d.buf)

drop-get_elem? :
    (xs : List ℕ) (at ch : ℕ) → get_elem? xs at ≡ some ch → drop at xs ≡ ch ∷ drop (at + 1) xs
drop-get_elem? [] at ch e = cc
drop-get_elem? (x ∷ xs) zero ch e = ground arith
drop-get_elem? (x ∷ xs) (suc at) ch e =
    let k : suc at + 1 ≡ suc (at + 1) = omega arith in rw k (drop-get_elem? xs at ch e)

read_word-take :
    (rounds at : ℕ) (buf : List ℕ)
    → at + rounds ≤ length buf
    → read_word rounds at buf ≡ some (take rounds (drop at buf))
unfolding read_word
read_word-take zero at buf h = refl
read_word-take (suc rounds) at buf h =
    let (ch, e) = get_elem?-lt buf at (omega arith) in
    let rest = read_word-take rounds (at + 1) buf (omega arith) in
    rw (e, rest, drop-get_elem? buf at ch e)

module _ (d : DictList) (id_lemma : ℕ) where
  -- The lemma is a word of `i + 1` characters.
  pub record IsWord (i start next pos next_pos : ℕ) : Type 0 where
    pub start_there : get_elem? d.start_id i ≡ some start
    pub next_there : get_elem? d.start_id (i + 1) ≡ some next
    pub pos_there : get_elem? d.start_pos i ≡ some pos
    pub end_there : get_elem? d.start_pos (i + 1) ≡ some next_pos
    pub from_start : start ≤ id_lemma
    pub before_next : id_lemma < next

module _ (d : DictList) (laid : IsLaid d) (id_lemma str_max : ℕ) where
  start_id-le :
      (k i a b : ℕ)
      → i + k ≤ max_lemma_size
      → get_elem? d.start_id i ≡ some a
      → get_elem? d.start_id (i + k) ≡ some b
      → a ≤ b
  start_id-le zero i a b h e f =
      let same : i + 0 ≡ i = omega arith in
      let eq : a ≡ b = some_inj _ _ (sym e ∙ rw same at f) in omega arith
  start_id-le (suc k) i a b h e f =
      let further : i + suc k ≡ i + 1 + k = omega arith in
      let (next, en) = get_elem?-lt d.start_id (i + 1) (omega (arith, laid.ids)) in
      let (pos, ep) = get_elem?-lt d.start_pos i (omega (arith, laid.positions)) in
      let (next_pos, eq) = get_elem?-lt d.start_pos (i + 1) (omega (arith, laid.positions)) in
      let up = laid.consecutive i a next pos next_pos e en ep eq in
      let rest = start_id-le k (i + 1) next b (omega arith) en (rw further at f) in omega arith

  module _ (i start next pos next_pos : ℕ) (w : IsWord d id_lemma i start next pos next_pos)
      (short : i < max_lemma_size) (room : i + 2 ≤ str_max) where
    -- The characters of the word in the buffer.
    abbrev pub word : List ℕ
    word = take (i + 1) (drop (pos + (id_lemma - start) * (i + 1)) d.buf)

    in_buffer : pos + (id_lemma - start) * (i + 1) + (i + 1) ≤ length d.buf
    in_buffer =
        let at =
          laid.consecutive i start next pos next_pos w.start_there w.next_there w.pos_there
            w.end_there in
        let before : id_lemma - start + 1 ≤ next - start =
          omega (arith, w.from_start, w.before_next) in
        omega (arith, at.1, at.2, mul-le-mul_right (i + 1) before)

    -- The round for the length of the word reads it; the rounds before go on.
    here_round :
        (ltb (str_max - 1) (i + 1) ≡ false)
        × ((leb start id_lemma && ltb id_lemma next) ≡ true)
        × (read_word (i + 1) (pos + (id_lemma - start) * (i + 1)) d.buf ≡ some word)
    here_round = (
      ground arith,
      ground (arith, w.from_start, w.before_next),
      read_word-take (i + 1) (pos + (id_lemma - start) * (i + 1)) d.buf in_buffer,
    )

    find_range-word :
        (rounds j : ℕ)
        → j + rounds ≡ max_lemma_size
        → j ≤ i
        → find_range d rounds j id_lemma str_max ≡ some word
    unfolding find_range
    find_range-word zero j e le = absurd (omega arith)
    find_range-word (suc rounds) j e le = elim (Bool-cases (j == i)) [
      | inl same ↦
          let at : j ≡ i = ground arith in
          let (fits, inside, read) = here_round in
          rw (at, w.start_there, w.next_there, w.pos_there, fits, inside) read
      | inr other ↦
          let further : j < i = ground arith in
          let (a, ea) = get_elem?-lt d.start_id j (omega (arith, laid.ids)) in
          let (b, eb) = get_elem?-lt d.start_id (j + 1) (omega (arith, laid.ids)) in
          let (p, ep) = get_elem?-lt d.start_pos j (omega (arith, laid.positions)) in
          let fits : ltb (str_max - 1) (j + 1) ≡ false = ground arith in
          let gap : j + 1 + (i - (j + 1)) ≡ i = omega arith in
          let le_start =
            start_id-le (i - (j + 1)) (j + 1) b start (omega arith) eb (rw gap w.start_there) in
          let beyond : (leb a id_lemma && ltb id_lemma b) ≡ false = ground (arith, w.from_start) in
          rw (ea, eb, ep, fits, beyond) (find_range-word rounds (j + 1) (omega arith) (omega arith))
    ]

-- In a list that is laid out, a lemma id in the range of the words of `i + 1` characters gives the word
-- that stands at its place in the buffer, where the string has room for it and its 0. It has that many
-- characters, and nothing outside the arrays is read.
pub get_lemma_str-word :
    (d : DictList) (id_lemma str_max i start next pos next_pos : ℕ)
    → IsLaid d
    → IsWord d id_lemma i start next pos next_pos
    → i < max_lemma_size
    → i + 2 ≤ str_max
    → (get_lemma_str d id_lemma str_max
        ≡ some (take (i + 1) (drop (pos + (id_lemma - start) * (i + 1)) d.buf)))
      × (length (take (i + 1) (drop (pos + (id_lemma - start) * (i + 1)) d.buf)) ≡ i + 1)
unfolding get_lemma_str
get_lemma_str-word d id_lemma str_max i start next pos next_pos laid w short room =
    let (end, ee) = get_elem?-lt d.start_id max_lemma_size (omega (arith, laid.ids)) in
    let gap : i + 1 + (max_lemma_size - (i + 1)) ≡ max_lemma_size = omega arith in
    let le_end =
      start_id-le d laid id_lemma str_max (max_lemma_size - (i + 1)) (i + 1) next end (omega arith)
        w.next_there (rw gap ee) in
    let valid : (not d.initialized || leb end id_lemma || leb str_max 1) ≡ false =
      ground (arith, laid.ready, w.before_next) in
    let at = pos + (id_lemma - start) * (i + 1) in
    let inside = in_buffer d laid id_lemma str_max i start next pos next_pos w short room in
    (
      rw (ee, valid)
          (find_range-word d laid id_lemma str_max i start next pos next_pos w short room
            max_lemma_size 0 refl (omega arith)),
      omega (arith, length-take (i + 1) (drop at d.buf), length-drop at d.buf),
    )
