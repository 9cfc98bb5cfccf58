-- ===== src/PinyinIme/Drawing.antt =====
-- What `draw_for_pinyin` draws.
use scim_googlepinyin.Prelude.{
  ℕ, ◌≤◌, ◌≡◌, List, some, none, ◌≢◌, some_of_ne_none, take-append-take-drop, take-all, arith,
  length, take-append-drop,
}
use scim_googlepinyin.Prelude.Int.{ℤ}
use scim_googlepinyin.PinyinIme.{ComposingStatus}
use scim_googlepinyin.PinyinIme.Composing.{Drawing, draw_composing}

module _ (status : ComposingStatus) (str : List ℕ) (active cursor : ℕ) (caret : ℤ) where
  draw_composing-ne_none :
      active ≤ length str → draw_composing status str active cursor caret ≢ none
  unfolding draw_composing
  draw_composing-ne_none h = ground arith

  draw_composing_aux :
      {w : Drawing}
      → active ≤ length str
      → draw_composing status str active cursor caret ≡ some w
      → w.aux ≡ str
  unfolding draw_composing
  draw_composing_aux h e = ground (
    arith,
    take-append-take-drop cursor active str,
    take-append-take-drop active (length str) str,
    take-append-take-drop active cursor str,
    take-append-drop active str,
    take-append-drop cursor str,
    take-append-drop (length str) str,
    take-all active str,
  )

-- With the active part inside the string, drawing does not fault, and the text drawn is the whole
-- string, wherever the cursor stands, also beyond the end.
pub draw_composing-all :
    (status : ComposingStatus) (str : List ℕ) (active cursor : ℕ) (caret : ℤ)
    → active ≤ length str
    → (w : Drawing) × (draw_composing status str active cursor caret ≡ some w) × (w.aux ≡ str)
draw_composing-all status str active cursor caret h =
    let (w, e) =
      some_of_ne_none (draw_composing status str active cursor caret)
        (draw_composing-ne_none status str active cursor caret h) in
    (w, e, draw_composing_aux status str active cursor caret h e)
