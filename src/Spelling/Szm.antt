-- ===== src/Spelling/Szm.antt =====
-- What enabling and disabling ShouZiMu mode changes.
use scim_googlepinyin.Prelude.{
  ℕ, zero, suc, ◌-◌, ◌<◌, ◌≡◌, refl, Bool, true, false, not, ◌&&◌, List, [], ◌∷◌, map, Option, none,
  some, arith, get_elem?, leb, ◌==◌, inl, inr, Bool-cases, if◌then◌else◌, ap, sym, ◌∙◌,
  Option-cases,
}
use scim_googlepinyin.Prelude.Errors.{◌>>=◌}
use scim_googlepinyin.Spelling.Base.{SpellingTrie}
use scim_googlepinyin.Spelling.Flags.{
  has_flag, flags_of, is_shengmu_char, is_yunmu_char, szm_is_enabled, enable_szm, szm_enable_shm,
  szm_enable_ym, half_id_shengmu_mask, half_id_yunmu_mask, half_id_szm_mask,
}

-- A test of all numbers below `n`.
all_below : ℕ → (ℕ → Bool) → Bool
all_below zero p = true
all_below (suc n) p = p n && all_below n p

all_below-lt : (n : ℕ) (p : ℕ → Bool) (x : ℕ) → all_below n p ≡ true → x < n → p x ≡ true
unfolding all_below
all_below-lt zero p x h lt = absurd (omega arith)
all_below-lt (suc n) p x h lt = elim (Bool-cases (x == n)) [
  | inl same ↦ let e : x ≡ n = ground arith in rw e (ground arith)
  | inr other ↦ all_below-lt n p x (ground arith) (ground arith)
]

same : Bool → Bool → Bool
same true b = b
same false b = not b

same-eq : (a b : Bool) → same a b ≡ true → a ≡ b
unfolding same
same-eq true b h = sym h
same-eq false true h = cc
same-eq false false h = refl

-- The bit of the mode is as it was set, and the other two bits stay.
bits_kept : Bool → ℕ → Bool
bits_kept enable f =
    same (has_flag half_id_szm_mask (enable_szm enable f)) enable
    && (same (has_flag half_id_shengmu_mask (enable_szm enable f)) (has_flag half_id_shengmu_mask f)
        && same (has_flag half_id_yunmu_mask (enable_szm enable f)) (has_flag half_id_yunmu_mask f))

all_bits_kept : (enable : Bool) → all_below 256 (bits_kept enable) ≡ true
unfolding all_below bits_kept same has_flag enable_szm
all_bits_kept true = refl
all_bits_kept false = refl

pub bits_kept_at :
    (enable : Bool) (f : ℕ)
    → f < 256
    → (has_flag half_id_szm_mask (enable_szm enable f) ≡ enable)
      × (has_flag half_id_shengmu_mask (enable_szm enable f) ≡ has_flag half_id_shengmu_mask f)
      × (has_flag half_id_yunmu_mask (enable_szm enable f) ≡ has_flag half_id_yunmu_mask f)
unfolding bits_kept
bits_kept_at enable f h =
    let all = all_below-lt 256 (bits_kept enable) f (all_bits_kept enable) h in
    (same-eq _ _ (ground arith), same-eq _ _ (ground arith), same-eq _ _ (ground arith))

get_elem?-map :
    (g : ℕ → ℕ) (xs : List ℕ) (i : ℕ)
    → get_elem? (map g xs) i ≡ (get_elem? xs i >>= λ x. some (g x))
get_elem?-map g [] i = refl
get_elem?-map g (x ∷ xs) zero = refl
get_elem?-map g (x ∷ xs) (suc i) = get_elem?-map g xs i

flags_of-map :
    (g : ℕ → ℕ) (t : SpellingTrie) (ch : ℕ)
    → flags_of (record t { char_flags = map g t.char_flags }) ch
      ≡ (flags_of t ch >>= λ x. some (g x))
unfolding flags_of
flags_of-map g t ch = elim (Bool-cases (leb b'A' ch)) [
  | inl letter ↦ rw letter (get_elem?-map g t.char_flags (ch - b'A'))
  | inr other ↦ rw other
]

-- The flags are bytes.
abbrev pub AreBytes : SpellingTrie → Type 0
AreBytes t = (i f : ℕ) → get_elem? t.char_flags i ≡ some f → f < 256

flags_of-lt : (t : SpellingTrie) (ch f : ℕ) → AreBytes t → flags_of t ch ≡ some f → f < 256
unfolding flags_of
flags_of-lt t ch f bytes e = elim (Bool-cases (leb b'A' ch)) [
  | inl letter ↦ bytes (ch - b'A') f (rw letter at e)
  | inr other ↦ let absurd_e : none ≡ some f = rw other at e in cc
]

-- `new` is `old`, but the characters of which the flag is asked are enabled or not as given.
pub record EnablesSzm (flag : SpellingTrie → ℕ → Option Bool) (enable : Bool)
    (old new : SpellingTrie) (ch : ℕ) : Type 0 where
  pub enabled :
      szm_is_enabled new ch
      ≡ (flag old ch >>= λ asked. if asked then some enable else szm_is_enabled old ch)
  pub shengmu_kept : is_shengmu_char new ch ≡ is_shengmu_char old ch
  pub yunmu_kept : is_yunmu_char new ch ≡ is_yunmu_char old ch

-- The change of one flag byte in both loops.
abbrev change : ℕ → Bool → ℕ → ℕ
change mask enable f = if has_flag mask f then enable_szm enable f else f

module _ (mask : ℕ) (enable : Bool) (f : ℕ) (h : f < 256) where
  change-szm :
      has_flag half_id_szm_mask (change mask enable f)
      ≡ (if has_flag mask f then enable else has_flag half_id_szm_mask f)
  change-szm = elim (Bool-cases (has_flag mask f)) [
    | inl asked ↦ rw asked (bits_kept_at enable f h).0
    | inr other ↦ rw other
  ]

  change-shengmu :
      has_flag half_id_shengmu_mask (change mask enable f) ≡ has_flag half_id_shengmu_mask f
  change-shengmu = elim (Bool-cases (has_flag mask f)) [
    | inl asked ↦ rw asked (bits_kept_at enable f h).1
    | inr other ↦ rw other
  ]

  change-yunmu : has_flag half_id_yunmu_mask (change mask enable f) ≡ has_flag half_id_yunmu_mask f
  change-yunmu = elim (Bool-cases (has_flag mask f)) [
    | inl asked ↦ rw asked (bits_kept_at enable f h).2
    | inr other ↦ rw other
  ]

-- A Boolean under `some` comes out of the test.
some_if : (b x y : Bool) → some (if b then x else y) ≡ (if b then some x else some y)
some_if true x y = refl
some_if false x y = refl

change-EnablesSzm :
    (mask : ℕ) (enable : Bool) (t : SpellingTrie) (ch : ℕ)
    → AreBytes t
    → EnablesSzm
        (λ old at. flags_of old at >>= λ f. some (has_flag mask f))
        enable
        t
        (record t { char_flags = map (change mask enable) t.char_flags })
        ch
unfolding szm_is_enabled is_shengmu_char is_yunmu_char
change-EnablesSzm mask enable t ch bytes = elim (Option-cases (flags_of t ch)) [
  | inl outside ↦
      let new = flags_of-map (change mask enable) t ch in
      record {
        enabled = rw (new, outside);
        shengmu_kept = rw (new, outside);
        yunmu_kept = rw (new, outside);
      }
  | inr (f, here) ↦
      let new = flags_of-map (change mask enable) t ch in
      let byte = flags_of-lt t ch f bytes here in
      record {
        enabled = rw (new, here) (ap some (change-szm mask enable f byte) ∙ some_if _ _ _);
        shengmu_kept = rw (new, here) (ap some (change-shengmu mask enable f byte));
        yunmu_kept = rw (new, here) (ap some (change-yunmu mask enable f byte));
      }
]

-- Enabling or disabling the initials (Shengmu) sets ShouZiMu mode of each initial so, and of no other
-- letter; which letters are initials and which are finals stays. The flags are bytes.
pub szm_enable_shm-EnablesSzm :
    (t : SpellingTrie) (enable : Bool) (ch : ℕ)
    → AreBytes t
    → EnablesSzm is_shengmu_char enable t (szm_enable_shm enable t) ch
unfolding szm_enable_shm is_shengmu_char
szm_enable_shm-EnablesSzm t enable ch bytes =
    change-EnablesSzm half_id_shengmu_mask enable t ch bytes

-- Enabling or disabling the finals (Yunmu) sets ShouZiMu mode of each letter that is a final so, and
-- of no other letter; which letters are initials and which are finals stays. The flags are bytes.
pub szm_enable_ym-EnablesSzm :
    (t : SpellingTrie) (enable : Bool) (ch : ℕ)
    → AreBytes t
    → EnablesSzm is_yunmu_char enable t (szm_enable_ym enable t) ch
unfolding szm_enable_ym is_yunmu_char
szm_enable_ym-EnablesSzm t enable ch bytes = change-EnablesSzm half_id_yunmu_mask enable t ch bytes
