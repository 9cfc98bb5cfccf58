-- ===== src/Tests/Ime.antt =====
-- The theorems on the input method, at concrete states and keys.
use scim_googlepinyin.Prelude.{
  ℕ, ◌+◌, ◌≤◌, ◌≡◌, ◌≢◌, refl, Bool, true, false, [], ◌∷◌, Option, some, none, length, leb→le,
  ltb→lt,
}
use scim_googlepinyin.Prelude.Int.{pos}
use scim_googlepinyin.ImeState.{idle, bypass}
use scim_googlepinyin.HalfToFull.{new_converter, convert}
use scim_googlepinyin.HalfToFull.Quotes.{convert-quotes, quote, opens}
use scim_googlepinyin.DecodingInfo.{get_current_page_size}
use scim_googlepinyin.DecodingInfo.Paging.{IsPaged}
use scim_googlepinyin.PinyinIme.{Ime, show_pinyin}
use scim_googlepinyin.PinyinIme.Candidates.{
  show_page, page_up, page_down, clamp_candidate, get_active_candidate_pos, through_int,
}
use scim_googlepinyin.PinyinIme.Composing.{Drawing, draw_composing}
use scim_googlepinyin.PinyinIme.Window.{reset_to_idle_state, trigger_input_mode}
use scim_googlepinyin.PinyinIme.Keys.{process_key}
use scim_googlepinyin.PinyinIme.States.{is_settled}
use scim_googlepinyin.PinyinIme.Reach.{process_key-is_settled}
use scim_googlepinyin.PinyinIme.Drawing.{draw_composing-all}
use scim_googlepinyin.PinyinIme.Resetting.{
  IsCleared, reset_to_idle_state-IsCleared, trigger_input_mode-twice,
}
use scim_googlepinyin.PinyinIme.PassThrough.{process_key-bypass}
use scim_googlepinyin.PinyinIme.Turning.{show_page-IsPaged, show_page-past_end, page_up-page_down}
use scim_googlepinyin.Tests.Program.{program}
use scim_googlepinyin.Tests.Engine.{Letters, letters, x_keys, press, start}
use scim_googlepinyin.Tests.States.{at_ni, reached}
use scim_googlepinyin.Tests.Typing.{type_keys}

-- The third candidate is chosen.
process_key-is_settled_example :
    is_settled (reached (type_keys start (b'n' ∷ b'i' ∷ b'3' ∷ []))).ime_state ≡ true
unfolding program is_settled
process_key-is_settled_example =
    process_key-is_settled letters x_keys (press b'3') at_ni
      {r = (reached (type_keys start (b'n' ∷ b'i' ∷ b'3' ∷ [])), true)} refl refl

abbrev bypassed : Ime Letters
bypassed = record start { ime_state = bypass }

process_key-bypass_example :
    process_key letters x_keys (press b'n') bypassed ≡ some (bypassed, false)
process_key-bypass_example = process_key-bypass letters x_keys (press b'n') bypassed refl

reset_to_idle_state-IsCleared_example :
    (t : Ime Letters) × (reset_to_idle_state at_ni ≡ some t)
    × (reset_to_idle_state t ≡ some t)
    × (t.ime_state ≡ idle)
    × IsCleared at_ni.dec_info t.dec_info
    × (t.cmps_status ≡ show_pinyin)
    × (t.input_mode ≡ at_ni.input_mode)
    × (t.func_keys ≡ at_ni.func_keys)
    × (t.half2full ≡ at_ni.half2full)
unfolding program
reset_to_idle_state-IsCleared_example = reset_to_idle_state-IsCleared at_ni refl

trigger_input_mode-twice_example :
    (t u : Ime Letters) × (trigger_input_mode at_ni ≡ some t)
    × (trigger_input_mode t ≡ some u)
    × (t.ime_state ≡ idle)
    × (t.input_mode ≢ at_ni.input_mode)
    × (u.input_mode ≡ at_ni.input_mode)
    × (u.half2full ≡ at_ni.half2full)
unfolding program
trigger_input_mode-twice_example = trigger_input_mode-twice at_ni (leb→le _ _ refl)

show_page-IsPaged_example :
    (t : Ime Letters) × (size : ℕ) × (show_page at_ni (pos 1) 9 true ≡ some t)
    × (t.cand_view.page_no ≡ pos 1)
    × (get_current_page_size t.dec_info (pos 1) ≡ some size)
    × (size ≤ at_ni.cand_view.page_size)
    × (t.cand_view.cand_in_page ≡ clamp_candidate size 9)
    × IsPaged at_ni.cand_view.page_size (length t.dec_info.candidates_list) t.dec_info.page_start
unfolding program
show_page-IsPaged_example =
    show_page-IsPaged at_ni 1 9 true (ltb→lt _ _ refl)
      (leb→le _ _ refl, leb→le _ _ refl, leb→le _ _ refl)

abbrev first_page_shown : Option (Ime Letters)
first_page_shown = show_page at_ni (pos 0) 9 true

show_page-past_end_example : get_active_candidate_pos (reached first_page_shown) ≡ some (0 + 9)
unfolding program
show_page-past_end_example =
    show_page-past_end at_ni 0 9 0 true {t = reached first_page_shown} refl refl refl

abbrev turned : Option (Ime Letters × Bool) → Ime Letters × Bool
turned (some r) = r
turned none = (start, false)

abbrev second_page : Ime Letters
second_page = (turned (page_down letters at_ni)).0

page_up-page_down_example :
    (r : Ime Letters) × (size : ℕ) × (page_up second_page ≡ some (r, true))
    × (r.cand_view.page_no ≡ pos 0)
    × (r.dec_info ≡ second_page.dec_info)
    × (get_current_page_size second_page.dec_info (pos 0) ≡ some size)
    × (r.cand_view.cand_in_page
        ≡ clamp_candidate size (through_int second_page.cand_view.cand_in_page))
unfolding program
page_up-page_down_example =
    page_up-page_down letters at_ni 0 {t = second_page} refl (ltb→lt _ _ refl) refl

draw_composing-all_example :
    (w : Drawing) × (draw_composing show_pinyin (b'n' ∷ b'i' ∷ []) 1 7 (pos 0) ≡ some w)
    × (w.aux ≡ b'n' ∷ b'i' ∷ [])
draw_composing-all_example =
    draw_composing-all show_pinyin (b'n' ∷ b'i' ∷ []) 1 7 (pos 0) (leb→le _ _ refl)

convert-quotes_example :
    ((convert x_keys new_converter (quote true)).1 ≡ 0x201C ∷ [])
    × ((convert x_keys (convert x_keys new_converter (quote true)).0 (quote true)).1 ≡ 0x201D ∷ [])
    × (opens true (convert x_keys new_converter (quote true)).0 ≡ false)
    × (opens false (convert x_keys new_converter (quote true)).0 ≡ true)
    × ((convert x_keys (convert x_keys new_converter (quote true)).0 (quote true)).0
        ≡ new_converter)
unfolding program
convert-quotes_example = convert-quotes x_keys new_converter true refl refl
