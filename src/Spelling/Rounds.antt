-- ===== src/Spelling/Rounds.antt =====
-- A round of the parser's loop keeps the invariant, comes nearer to the end, and does not fault.
use scim_googlepinyin.Prelude.{
  ℕ, ◌+◌, ◌-◌, ◌≤◌, ◌<◌, ◌≡◌, ◌⊎◌, inl, inr, refl, Bool, true, false, List, [], ◌∷◌, ◌++◌, none,
  some, arith, length, get_elem?, take, leb, ◌==◌, Bool-cases, if◌then◌else◌, sym, ◌∙◌, ap, ap₂,
  subst, length-append, Option-cases, some_inj,
}
use scim_googlepinyin.Spelling.Base.{SpellingNode, SpellingTrie}
use scim_googlepinyin.Spelling.Flags.{is_valid_spl_char}
use scim_googlepinyin.Spelling.Ids.{if_valid_id_update}
use scim_googlepinyin.Spelling.Parser.{
  spelling_idx, sons_of, find_son, Cursor, Next, go, return_now, put_start, remember, after_id,
  splitter_step, son_at, end_before, letter_step, parse_step,
}
use scim_googlepinyin.Spelling.Usable.{level1-find_son, IsUsable, if_valid_id_update-cases}
use scim_googlepinyin.Spelling.Cuts.{
  walk, walk_nil, walk-append, all_letters-append, all_letters_nil, Cuts, splitter, stuck,
}
use scim_googlepinyin.Spelling.Reading.{
  take-suc, append_assoc, append-nil, take_append_self, length-zero, put_start-append, Reads, Ends,
  measure, Advances, Reads-length, after_id-Advances, total_length, starts_length, spelling-Cuts,
}

module _ (t : SpellingTrie) (root : SpellingNode) (u : IsUsable t root) (splstr : List ℕ)
    (str_len max_size : ℕ) (long : str_len ≤ length splstr) (text word : List ℕ) (c : Cursor)
    (r : Reads t root u splstr str_len max_size long text word c) (ch : ℕ)
    (here : get_elem? splstr c.str_pos ≡ some ch) (before_end : c.str_pos < str_len) where
  abbrev Near : Next → Type 0
  Near next =
      Advances t root u splstr str_len max_size long
        (measure t root u splstr str_len max_size long c) next

  -- The word is no spelling and does not go on.
  stuck-Ends :
      if_valid_id_update t (spelling_idx c.node_this) ≡ some none
      → (is_valid_spl_char ch ≡ false) ⊎ (find_son (sons_of c.node_this) ch ≡ none)
      → Ends t root u splstr str_len max_size long text word c.spl_idx c.start_pos
  stuck-Ends invalid why =
      let e = Reads-length t root u splstr str_len max_size long text word c r in
      record {
        at_start = rw e r.read;
        cut = r.cut;
        fits = omega (arith, r.room);
        ending = stuck c.node_this r.led invalid (inr (ch, rw e here, why));
      }

  -- A letter that does not go on ends the spelling before it.
  end_before-Advances :
      (is_splitter : Bool)
      → find_son (sons_of c.node_this) ch ≡ none
      → (next : Next) × (end_before t root max_size (record c { last_is_splitter = is_splitter })
          ≡ some next)
        × Near next
  unfolding end_before remember
  end_before-Advances is_splitter lost =
      elim (if_valid_id_update-cases t root u (spelling_idx c.node_this)) [
        | inl invalid ↦ (
          return_now (record c { last_is_splitter = is_splitter }),
          rw invalid,
          (text, word, stuck-Ends invalid (inr lost)),
        )
        | inr (id, valid) ↦
            let at_end : put_start (length c.spl_idx + 1) c.str_pos c.start_pos
                ≡ c.start_pos ++ c.str_pos ∷ [] =
              put_start-append _ _ _
                (starts_length t root u splstr str_len max_size long text word c r) in
            let one_more = length-append c.spl_idx (id ∷ []) in
            (
              after_id t root max_size
                  (remember (record c { last_is_splitter = is_splitter }) id c.str_pos),
              rw valid,
              after_id-Advances t root u splstr str_len max_size long _ (text ++ word)
                  (remember (record c { last_is_splitter = is_splitter }) id c.str_pos) r.read
                  r.within
                  (rw at_end
                    (spelling-Cuts t root u splstr str_len max_size long text word c r id valid))
                  (omega arith) (omega (arith, r.room)) (omega (arith, r.room)),
            )
      ]

  -- What is read when the splitter is read.
  read_one_more : take (c.str_pos + 1) splstr ≡ (text ++ word) ++ ch ∷ []
  read_one_more = take-suc splstr c.str_pos ch here ∙ ap (λ x. x ++ ch ∷ []) r.read

  splitter_length : length ((text ++ word) ++ ch ∷ []) ≡ c.str_pos + 1
  splitter_length = omega (
    arith,
    length-append (text ++ word) (ch ∷ []),
    (total_length t root u splstr str_len max_size long text word c r),
  )

  -- The word with its id, and the splitter behind it.
  splitter-Cuts :
      (id : ℕ)
      → is_valid_spl_char ch ≡ false
      → if_valid_id_update t (spelling_idx c.node_this) ≡ some (some id)
      → Cuts t root
          ((text ++ word) ++ ch ∷ [])
          (c.spl_idx ++ id ∷ [])
          (c.start_pos ++ (c.str_pos + 1) ∷ [])
  splitter-Cuts id not_letter valid =
      let one_more = length-append c.spl_idx (id ∷ []) in
      let kept : take (length (c.spl_idx ++ id ∷ [])) (c.start_pos ++ c.str_pos ∷ [])
          ≡ c.start_pos =
        take_append_self _ _ _
          (omega (arith, (starts_length t root u splstr str_len max_size long text word c r))) in
      subst (λ starts. Cuts t root ((text ++ word) ++ ch ∷ []) (c.spl_idx ++ id ∷ []) starts)
        (ap₂ (λ x at. x ++ at ∷ []) kept splitter_length)
        (splitter ch (spelling-Cuts t root u splstr str_len max_size long text word c r id valid)
          not_letter (omega arith))

  -- One more splitter behind a splitter.
  another_splitter :
      word ≡ []
      → 0 < length c.spl_idx
      → is_valid_spl_char ch ≡ false
      → Cuts t root
          ((text ++ word) ++ ch ∷ [])
          c.spl_idx
          (put_start (length c.spl_idx) (c.str_pos + 1) c.start_pos)
  unfolding put_start
  another_splitter empty some_id not_letter =
      let same : text ≡ text ++ word = sym (ap (λ w. text ++ w) empty ∙ append-nil text) in
      subst
        (λ at.
          Cuts t root ((text ++ word) ++ ch ∷ []) c.spl_idx
            (take (length c.spl_idx) c.start_pos ++ at ∷ []))
        splitter_length
        (splitter ch (subst (λ x. Cuts t root x c.spl_idx c.start_pos) same r.cut) not_letter
          some_id)

  splitter_step-Advances :
      is_valid_spl_char ch ≡ false
      → (next : Next) × (splitter_step t root max_size c ≡ some next) × Near next
  unfolding splitter_step remember
  splitter_step-Advances not_letter =
      elim (if_valid_id_update-cases t root u (spelling_idx c.node_this)) [
        | inl invalid ↦ elim (Bool-cases c.last_is_splitter) [
          | inl behind ↦
              let (empty, some_id) = r.parted behind in
              (
                go (record c {
                  str_pos = c.str_pos + 1;
                  start_pos = put_start (length c.spl_idx) (c.str_pos + 1) c.start_pos;
                }),
                rw (invalid, behind),
                (
                  (text ++ word) ++ ch ∷ [],
                  [],
                  record {
                    read = read_one_more ∙ sym (append-nil _);
                    cut = another_splitter empty some_id not_letter;
                    led = subst (λ w. walk root w ≡ some c.node_this) empty r.led;
                    letters = all_letters_nil;
                    room = r.room;
                    within = omega arith;
                    parted = λ e. (refl, some_id);
                  },
                  omega (arith, r.room),
                ),
              )
          | inr lone ↦
              (return_now c, rw (invalid, lone), (text, word, stuck-Ends invalid (inl not_letter)))
        ]
        | inr (id, valid) ↦
            let c' : Cursor = record c { str_pos = c.str_pos + 1; last_is_splitter = true } in
            let at_end : put_start (length c.spl_idx + 1) (c.str_pos + 1) c.start_pos
                ≡ c.start_pos ++ (c.str_pos + 1) ∷ [] =
              put_start-append _ _ _
                (starts_length t root u splstr str_len max_size long text word c r) in
            let one_more = length-append c.spl_idx (id ∷ []) in
            (
              after_id t root max_size (remember c' id (c.str_pos + 1)),
              rw valid,
              after_id-Advances t root u splstr str_len max_size long _ ((text ++ word) ++ ch ∷ [])
                  (remember c' id (c.str_pos + 1)) read_one_more (omega arith)
                  (rw at_end (splitter-Cuts id not_letter valid)) (omega arith)
                  (omega (arith, r.room)) (omega (arith, r.room)),
            )
      ]

  -- The array of the root's sons is used at the first letter alone, where the node is the root.
  son_at-find_son :
      is_valid_spl_char ch ≡ true
      → son_at t root max_size (record c { last_is_splitter = false }) ch
        ≡ some (find_son (sons_of c.node_this) ch)
  unfolding son_at
  son_at-find_son letter = elim (Bool-cases (c.str_pos == 0)) [
    | inl first ↦
        let at_zero : c.str_pos ≡ 0 = ground arith in
        let empty = length-zero word (
          omega (
            arith,
            total_length t root u splstr str_len max_size long text word c r,
            length-append text word,
          )) in
        let same : root ≡ c.node_this =
          some_inj _ _
            (sym (walk_nil root) ∙ subst (λ w. walk root w ≡ some c.node_this) empty r.led) in
        rw first (
          subst
            (λ n.
              get_elem? t.level1_sons (if leb b'a' ch then ch - b'a' else ch - b'A')
              ≡ some (find_son (sons_of n) ch))
            same (level1-find_son t root u ch letter))
    | inr later ↦ rw later
  ]

  letter_step-Advances :
      is_valid_spl_char ch ≡ true
      → (next : Next) × (letter_step t root max_size (record c { last_is_splitter = false }) ch
          ≡ some next)
        × Near next
  unfolding letter_step
  letter_step-Advances letter = elim (Option-cases (find_son (sons_of c.node_this) ch)) [
    | inl lost ↦
        let (next, run, near) = end_before-Advances false lost in
        (next, rw (son_at-find_son letter, lost) run, near)
    | inr (n, found) ↦ (
      go (record c { node_this = n; str_pos = c.str_pos + 1; last_is_splitter = false }),
      rw (son_at-find_son letter, found),
      (
        text,
        word ++ ch ∷ [],
        record {
          read = read_one_more ∙ append_assoc text word (ch ∷ []);
          cut = r.cut;
          led = walk-append root c.node_this n word ch r.led found;
          letters = all_letters-append word ch r.letters letter;
          room = r.room;
          within = omega arith;
          parted = λ e. cc;
        },
        omega arith,
      ),
    )
  ]

  pub parse_step-Advances :
      (next : Next) × (parse_step t root max_size splstr c ≡ some next) × Near next
  unfolding parse_step
  parse_step-Advances = elim (Bool-cases (is_valid_spl_char ch)) [
    | inl letter ↦
        let (next, run, near) = letter_step-Advances letter in (next, rw (here, letter) run, near)
    | inr not_letter ↦
        let (next, run, near) = splitter_step-Advances not_letter in
        (next, rw (here, not_letter) run, near)
  ]
