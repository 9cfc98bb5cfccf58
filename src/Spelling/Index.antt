-- ===== src/Spelling/Index.antt =====
-- The array of the root's sons: it holds what a search through them finds.
use scim_googlepinyin.Prelude.{
  ℕ, zero, suc, ◌+◌, ◌-◌, ◌≤◌, ◌<◌, ◌≡◌, subst, refl, Bool, true, ◌&&◌, List, [], ◌∷◌, Option, some,
  arith, get_elem?, leb,
}
use scim_googlepinyin.Spelling.Base.{SpellingNode, node, Sons, no_son, son}
use scim_googlepinyin.Spelling.Flags.{is_same_spl_char}
use scim_googlepinyin.Spelling.Parser.{find_son}

-- What the search finds for `n` letters from `ch` on.
unfoldable pub found_from : ℕ → ℕ → Sons → List (Option SpellingNode)
found_from zero ch sons = []
found_from (suc n) ch sons = find_son sons ch ∷ found_from n (suc ch) sons

unfoldable pub all_capital : Sons → Bool
all_capital no_son = true
all_capital (son (node idx ch score below) rest) = leb b'A' ch && leb ch b'Z' && all_capital rest

pub get_elem?-found_from :
    (n ch i : ℕ) (sons : Sons)
    → i < n
    → get_elem? (found_from n ch sons) i ≡ some (find_son sons (ch + i))
unfolding found_from
get_elem?-found_from zero ch i sons h = absurd (omega arith)
get_elem?-found_from (suc n) ch zero sons h = let e : ch + 0 ≡ ch = omega arith in rw e
get_elem?-found_from (suc n) ch (suc i) sons h =
    let e : suc ch + i ≡ ch + suc i = omega arith in
    subst (λ c. get_elem? (found_from n (suc ch) sons) i ≡ some (find_son sons c)) e
      (get_elem?-found_from n (suc ch) i sons (omega arith))

-- Among capital letters a small letter finds what its capital finds.
pub find_son-capital :
    (sons : Sons) (ch : ℕ)
    → all_capital sons ≡ true
    → b'a' ≤ ch
    → ch ≤ b'z'
    → find_son sons ch ≡ find_son sons (b'A' + (ch - b'a'))
unfolding find_son is_same_spl_char all_capital
find_son-capital no_son ch h lo hi = refl
find_son-capital (son (node idx this score below) rest) ch h lo hi =
    ground (arith, find_son-capital rest ch)
