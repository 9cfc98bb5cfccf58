-- ===== src/Spelling/Parse.antt =====
-- The parser never faults, its loop ends, and what it returns are the spellings of the string.
use scim_googlepinyin.Prelude.{
  ℕ, zero, suc, ◌+◌, ◌≤◌, ◌<◌, ◌≡◌, inl, inr, refl, Bool, true, false, ◌||◌, not, List, [], ◌∷◌,
  ◌++◌, some, arith, length, get_elem?, ltb, ◌==◌, Bool-cases, get_elem?-lt, ltb→ge, ltb→lt, sym,
  ◌∙◌, length-append,
}
use scim_googlepinyin.Spelling.Base.{SpellingNode, SpellingTrie}
use scim_googlepinyin.Spelling.Flags.{is_valid_spl_char}
use scim_googlepinyin.Spelling.Ids.{if_valid_id_update}
use scim_googlepinyin.Spelling.Parser.{
  spelling_idx, Cursor, Next, go, return_now, put_start, remember, parse_loop, Parsed, finish,
  remember_last, first_cursor, splstr_to_idxs,
}
use scim_googlepinyin.Spelling.Usable.{IsUsable, if_valid_id_update-cases}
use scim_googlepinyin.Spelling.Cuts.{walk_nil, all_letters_nil, nothing, used_up, stuck}
use scim_googlepinyin.Spelling.Reading.{
  append-nil, put_start-append, Reads, Ends, measure, Advances, Reads-length, starts_length,
  spelling-Cuts, total_length,
}
use scim_googlepinyin.Spelling.Rounds.{parse_step-Advances}

-- The string is empty, no id may be returned, or the string does not start with a letter.
abbrev pub Parses : List ℕ → ℕ → ℕ → Type 0
Parses splstr str_len max_size =
    (ch : ℕ) × (0 < str_len)
    × (0 < max_size)
    × (get_elem? splstr 0 ≡ some ch)
    × (is_valid_spl_char ch ≡ true)

module _ (t : SpellingTrie) (root : SpellingNode) (u : IsUsable t root) (splstr : List ℕ)
    (str_len max_size : ℕ) (long : str_len ≤ length splstr) where
  -- How the loop ends: at the end of the string, or by a return.
  abbrev Stops : Next → Type 0
  Stops (go c) =
      (text word : List ℕ) × Reads t root u splstr str_len max_size long text word c
      × (c.str_pos ≡ str_len)
  Stops (return_now c) =
      (text word : List ℕ) × Ends t root u splstr str_len max_size long text word c.spl_idx
        c.start_pos

  -- Fuel above the measure is enough.
  parse_loop-Stops :
      (fuel : ℕ) (text word : List ℕ) (c : Cursor)
      → Reads t root u splstr str_len max_size long text word c
      → measure t root u splstr str_len max_size long c < fuel
      → (next : Next) × (parse_loop t root max_size fuel splstr str_len c ≡ some next) × Stops next
  unfolding parse_loop
  parse_loop-Stops zero text word c r less = absurd (omega arith)
  parse_loop-Stops (suc fuel) text word c r less = elim (Bool-cases (ltb c.str_pos str_len)) [
    | inr at_end ↦ (go c, rw at_end, (text, word, r, omega (arith, r.within, ltb→ge _ _ at_end)))
    | inl inside ↦
        let before = ltb→lt _ _ inside in
        let (ch, here) = get_elem?-lt splstr c.str_pos (omega arith) in
        let (next, run, near) =
          parse_step-Advances t root u splstr str_len max_size long text word c r ch here before in
        let (last, rest, stops) =
          after next near (λ x w c' r' l. parse_loop-Stops fuel x w c' r' l) less in
        (last, rw (inside, run) rest, stops)
  ]
    where
      after :
          (next : Next)
          → Advances t root u splstr str_len max_size long
              (measure t root u splstr str_len max_size long c)
              next
          → ((x w : List ℕ) (c' : Cursor)
              → Reads t root u splstr str_len max_size long x w c'
              → measure t root u splstr str_len max_size long c' < fuel
              → (last : Next) × (parse_loop t root max_size fuel splstr str_len c' ≡ some last)
                × Stops last)
          → measure t root u splstr str_len max_size long c < suc fuel
          → (last : Next) × (elim next [
            | go c' ↦ parse_loop t root max_size fuel splstr str_len c'
            | return_now c' ↦ some (return_now c')
          ]
              ≡ some last)
            × Stops last
      after (go c') (x, w, r', l') loop less' = loop x w c' r' (omega arith)
      after (return_now c') ends loop less' = (return_now c', refl, ends)

  -- The ids and starts returned cut a text; `last_is_pre` is set only if the string is used up.
  abbrev pub Result : Parsed → Type 0
  Result p =
      (text word : List ℕ) × Ends t root u splstr str_len max_size long text word p.spl_idx
        p.start_pos
      × (p.last_is_pre ≡ true → length text + length word ≡ str_len)

  -- The last spelling ends with the string.
  last_spelling :
      (text word : List ℕ) (c : Cursor)
      → Reads t root u splstr str_len max_size long text word c
      → c.str_pos ≡ str_len
      → (id : ℕ) → if_valid_id_update t (spelling_idx c.node_this) ≡ some (some id)
      → Ends t root u splstr str_len max_size long
          (text ++ word)
          []
          (c.spl_idx ++ id ∷ [])
          (put_start (length c.spl_idx + 1) c.str_pos c.start_pos)
  last_spelling text word c r at_end id valid =
      let total = total_length t root u splstr str_len max_size long text word c r in
      let starts = starts_length t root u splstr str_len max_size long text word c r in
      let count : length (text ++ word) + 0 ≡ c.str_pos = omega arith in
      let behind : put_start (length c.spl_idx + 1) c.str_pos c.start_pos
          ≡ c.start_pos ++ c.str_pos ∷ [] =
        put_start-append _ _ _ starts in
      record {
        at_start = rw count (r.read ∙ sym (append-nil _));
        cut =
            rw behind (spelling-Cuts t root u splstr str_len max_size long text word c r id valid);
        fits = omega (arith, r.room, length-append c.spl_idx (id ∷ []));
        ending = used_up (omega arith);
      }

  finish-Result : (next : Next) → Stops next → (p : Parsed) × (finish t next ≡ some p) × Result p
  unfolding finish remember_last remember
  finish-Result (return_now c) (text, word, ends) = (
    record { spl_idx = c.spl_idx; start_pos = c.start_pos; last_is_pre = false },
    refl,
    (text, word, ends, λ e. cc),
  )
  finish-Result (go c) (text, word, r, at_end) =
      let count = Reads-length t root u splstr str_len max_size long text word c r in
      elim (if_valid_id_update-cases t root u (spelling_idx c.node_this)) [
        | inl invalid ↦ (
          record {
            spl_idx = c.spl_idx;
            start_pos = c.start_pos;
            last_is_pre = not c.last_is_splitter;
          },
          rw invalid,
          (
            text,
            word,
            record {
              at_start = rw count r.read;
              cut = r.cut;
              fits = omega (arith, r.room);
              ending = stuck c.node_this r.led invalid (inl (omega arith));
            },
            λ e. omega arith,
          ),
        )
        | inr (id, valid) ↦ (
          record {
            spl_idx = c.spl_idx ++ id ∷ [];
            start_pos = put_start (length c.spl_idx + 1) c.str_pos c.start_pos;
            last_is_pre = not c.last_is_splitter;
          },
          rw valid,
          (
            text ++ word,
            [],
            last_spelling text word c r at_end id valid,
            λ e. omega (arith, length-append text word),
          ),
        )
      ]

  first_cursor-Reads :
      0 < max_size → Reads t root u splstr str_len max_size long [] [] (first_cursor root)
  unfolding first_cursor
  first_cursor-Reads some_room = record {
    read = refl;
    cut = nothing;
    led = walk_nil root;
    letters = all_letters_nil;
    room = some_room;
    within = omega arith;
    parted = λ e. cc;
  }

-- With a usable trie the parser does not fault and its loop ends, on any string that starts with a
-- letter and has the length given. The ids returned, no more than there is room for, are those of the
-- words that a prefix of the string is cut into: each word of letters leads through the trie to the
-- id, and splitters stand only behind words. `start_pos` has where each word starts, and the end.
-- What follows the prefix is nothing, or it is not read as the arrays are full, or it is a word that
-- is no spelling and does not go on. `last_is_pre` is set only if the whole string was read.
pub splstr_to_idxs-Result :
    (t : SpellingTrie) (root : SpellingNode) (u : IsUsable t root) (splstr : List ℕ)
    (str_len max_size : ℕ) (long : str_len ≤ length splstr) (last_is_pre : Bool)
    → Parses splstr str_len max_size
    → (p : Parsed) × (splstr_to_idxs t splstr str_len max_size last_is_pre ≡ some p)
      × Result t root u splstr str_len max_size long p
unfolding splstr_to_idxs first_cursor
splstr_to_idxs-Result t root u splstr str_len max_size long last_is_pre
      (ch, some_str, some_room, e, letter) =
    let (next, run, stops) =
      parse_loop-Stops t root u splstr str_len max_size long (suc (str_len + max_size)) [] []
        (first_cursor root) (first_cursor-Reads t root u splstr str_len max_size long some_room)
        (first_measure root) in
    let (p, ends, result) = finish-Result t root u splstr str_len max_size long next stops in
    let tests : (max_size == 0 || str_len == 0) ≡ false = ground arith in
    (p, rw (tests, e, u.root_there, letter, run) ends, result)
  where
    first_measure :
        (n : SpellingNode)
        → measure t root u splstr str_len max_size long (first_cursor n) < suc (str_len + max_size)
    first_measure n = omega arith
