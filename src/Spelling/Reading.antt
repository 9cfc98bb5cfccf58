-- ===== src/Spelling/Reading.antt =====
-- The invariant of the parser's loop: what was read is cut into spellings.
use scim_googlepinyin.Prelude.{
  ℕ, zero, suc, ◌+◌, ◌-◌, ◌≤◌, ◌<◌, ◌≡◌, inl, inr, refl, true, List, [], ◌∷◌, ◌++◌, none, some,
  arith, length, get_elem?, take, leb, Bool-cases, leb→le, sym, ◌∙◌, ap, subst, length-append,
  length-take, some_inj,
}
use scim_googlepinyin.Spelling.Base.{SpellingNode, SpellingTrie}
use scim_googlepinyin.Spelling.Ids.{if_valid_id_update}
use scim_googlepinyin.Spelling.Parser.{
  spelling_idx, Cursor, Next, go, return_now, put_start, after_id,
}
use scim_googlepinyin.Spelling.Usable.{IsUsable}
use scim_googlepinyin.Spelling.Cuts.{
  walk, walk_nil, all_letters, all_letters_nil, Spells, Cuts, spelling, Cuts-length, Ending, full,
}

pub take-suc :
    (xs : List ℕ) (n x : ℕ) → get_elem? xs n ≡ some x → take (n + 1) xs ≡ take n xs ++ x ∷ []
take-suc [] n x e = cc
take-suc (y ∷ xs) zero x e = ground arith
take-suc (y ∷ xs) (suc n) x e =
    let k : suc n + 1 ≡ suc (n + 1) = omega arith in rw k (ap (◌∷◌ y) (take-suc xs n x e))

pub append_assoc : (xs ys zs : List ℕ) → (xs ++ ys) ++ zs ≡ xs ++ (ys ++ zs)
append_assoc [] ys zs = refl
append_assoc (x ∷ xs) ys zs = ap (◌∷◌ x) (append_assoc xs ys zs)

pub append-nil : (xs : List ℕ) → xs ++ [] ≡ xs
append-nil [] = refl
append-nil (x ∷ xs) = ap (◌∷◌ x) (append-nil xs)

pub take-length : (n : ℕ) (xs : List ℕ) → n ≡ length xs → take n xs ≡ xs
take-length zero [] e = refl
take-length zero (x ∷ xs) e = absurd (omega arith)
take-length (suc n) [] e = refl
take-length (suc n) (x ∷ xs) e = ap (◌∷◌ x) (take-length n xs (omega arith))

pub take_append_self : (n : ℕ) (xs ys : List ℕ) → n ≡ length xs → take n (xs ++ ys) ≡ xs
take_append_self zero [] ys e = refl
take_append_self zero (x ∷ xs) ys e = absurd (omega arith)
take_append_self (suc n) [] ys e = absurd (omega arith)
take_append_self (suc n) (x ∷ xs) ys e = ap (◌∷◌ x) (take_append_self n xs ys (omega arith))

pub length-zero : (xs : List ℕ) → length xs ≡ 0 → xs ≡ []
length-zero [] e = refl
length-zero (x ∷ xs) e = absurd (omega arith)

-- A new start is put behind the others.
pub put_start-append :
    (n pos : ℕ) (starts : List ℕ) → length starts ≡ n → put_start n pos starts ≡ starts ++ pos ∷ []
unfolding put_start
put_start-append n pos starts e = ap (λ x. x ++ pos ∷ []) (take-length n starts (sym e))

module _ (t : SpellingTrie) (root : SpellingNode) (u : IsUsable t root) (splstr : List ℕ)
    (str_len max_size : ℕ) (long : str_len ≤ length splstr) where
  -- The string is read up to the cursor, and cut into spellings up to `word`.
  pub record Reads (text word : List ℕ) (c : Cursor) : Type 0 where
    pub read : take c.str_pos splstr ≡ text ++ word
    pub cut : Cuts t root text c.spl_idx c.start_pos
    pub led : walk root word ≡ some c.node_this
    pub letters : all_letters word ≡ true
    pub room : length c.spl_idx < max_size
    pub within : c.str_pos ≤ str_len
    pub parted : c.last_is_splitter ≡ true → (word ≡ []) × (0 < length c.spl_idx)

  pub record Ends (text word ids starts : List ℕ) : Type 0 where
    pub at_start : take (length text + length word) splstr ≡ text ++ word
    pub cut : Cuts t root text ids starts
    pub fits : length ids ≤ max_size
    pub ending : Ending t root splstr str_len max_size text word ids

  abbrev pub measure : Cursor → ℕ
  measure c = (str_len - c.str_pos) + (max_size - length c.spl_idx)

  -- A round goes on nearer to the end, or returns with a cut text.
  abbrev pub Advances : ℕ → Next → Type 0
  Advances before (go c) = (text word : List ℕ) × Reads text word c × (measure c < before)
  Advances before (return_now c) = (text word : List ℕ) × Ends text word c.spl_idx c.start_pos

  pub Reads-length :
      (text word : List ℕ) (c : Cursor) → Reads text word c → length text + length word ≡ c.str_pos
  Reads-length text word c r =
      omega
        (arith, ap length r.read, length-append text word, length-take c.str_pos splstr, r.within)

  no_id : if_valid_id_update t 0 ≡ some none
  unfolding if_valid_id_update
  no_id = refl

  -- A word that has a valid id is not empty: the root has none.
  pub Reads-Spells :
      (text word : List ℕ) (c : Cursor) (id : ℕ)
      → Reads text word c
      → if_valid_id_update t (spelling_idx c.node_this) ≡ some (some id)
      → Spells t root word id
  Reads-Spells text word c id r e = record {
    not_empty = λ empty.
        let at_root : some root ≡ some c.node_this =
          sym (walk_nil root) ∙ subst (λ w. walk root w ≡ some c.node_this) empty r.led in
        cc (some_inj _ _ at_root, u.root_no_id, no_id, e);
    letters = r.letters;
    last_node = c.node_this;
    leads = r.led;
    valid = e;
  }

  pub take-at :
      (pos : ℕ) (text : List ℕ) → take pos splstr ≡ text → pos ≤ str_len → length text ≡ pos
  take-at pos text e h = omega (arith, ap length e, length-take pos splstr)

  -- After an id was remembered the loop goes on at the root, or returns as the arrays are full.
  pub after_id-Advances :
      (before : ℕ) (text : List ℕ) (c : Cursor)
      → take c.str_pos splstr ≡ text
      → c.str_pos ≤ str_len
      → Cuts t root text c.spl_idx c.start_pos
      → 0 < length c.spl_idx
      → length c.spl_idx ≤ max_size
      → measure c < before
      → Advances before (after_id t root max_size c)
  unfolding after_id
  after_id-Advances before text c read within cut some_id fits less =
      elim (Bool-cases (leb max_size (length c.spl_idx))) [
        | inl many ↦ rw many (
          text,
          [],
          record {
            at_start =
                let e : length text + 0 ≡ c.str_pos =
                  omega (arith, take-at c.str_pos text read within) in
                rw e (read ∙ sym (append-nil text));
            cut = cut;
            fits = fits;
            ending = full (omega (arith, leb→le _ _ many));
          },
        )
        | inr few ↦ rw few (
          text,
          [],
          record {
            read = read ∙ sym (append-nil text);
            cut = cut;
            led = walk_nil root;
            letters = all_letters_nil;
            room = ground arith;
            within = within;
            parted = λ e. (refl, some_id);
          },
          less,
        )
      ]

  module _ (text word : List ℕ) (c : Cursor) (r : Reads text word c) where
    pub total_length : length (text ++ word) ≡ c.str_pos
    total_length = take-at c.str_pos (text ++ word) r.read r.within

    pub starts_length : length c.start_pos ≡ length c.spl_idx + 1
    starts_length = omega (arith, Cuts-length t root r.cut)

    -- The word with its id.
    pub spelling-Cuts :
        (id : ℕ)
        → if_valid_id_update t (spelling_idx c.node_this) ≡ some (some id)
        → Cuts t root (text ++ word) (c.spl_idx ++ id ∷ []) (c.start_pos ++ c.str_pos ∷ [])
    spelling-Cuts id e =
        subst (λ at. Cuts t root (text ++ word) (c.spl_idx ++ id ∷ []) (c.start_pos ++ at ∷ []))
          total_length (spelling word id r.cut (Reads-Spells text word c id r e))
