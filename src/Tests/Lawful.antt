-- ===== src/Tests/Lawful.antt =====
-- The small engine answers consistently; the theorems on faults at concrete inputs.
use scim_googlepinyin.Prelude.{
  true, Bool, ℕ, zero, suc, ◌+◌, ◌%◌, ◌^◌, ◌<◌, ltb, ◌≤◌, ◌≡◌, refl, List, [], ◌∷◌, some_inj, some,
  arith, length, get_elem?, leb→le, ltb→lt, length-take, take-all, get_elem?-some,
}
use scim_googlepinyin.Prelude.Int.{pos, negsuc}
use scim_googlepinyin.ImeState.{input}
use scim_googlepinyin.DecoderService
use scim_googlepinyin.DecoderService.{PinyinDecoderService}
use scim_googlepinyin.DecodingInfo.{DecodingInfo}
use scim_googlepinyin.DecodingInfo.Edit.{reset_candidates}
use scim_googlepinyin.DecodingInfo.Search.{choose_decoding_candidate}
use scim_googlepinyin.DecodingInfo.Decoding.{IsConsistent, surface_of, decoded_of, fixed_of}
use scim_googlepinyin.DecodingInfo.Safety.{
  Answers, IsSafe, HasActivePart, choose_decoding_candidate-IsSafe,
}
use scim_googlepinyin.PinyinIme.{Ime}
use scim_googlepinyin.PinyinIme.Choice.{choose_and_update, to_int}
use scim_googlepinyin.PinyinIme.Shows.{
  IsSound, IsAnswered, choose_and_update-IsSound, decoding-IsAnswered,
}
use scim_googlepinyin.PinyinIme.Keys.{process_key}
use scim_googlepinyin.PinyinIme.States.{is_settled}
use scim_googlepinyin.PinyinIme.Faultless.{IsKnown, process_key-IsSound}
use scim_googlepinyin.Tests.Program.{program}
use scim_googlepinyin.Tests.Engine.{Letters, letters, x_keys, press, up_to}
use scim_googlepinyin.Tests.States.{info_ni, at_ni}

length-up_to : (start n : ℕ) → length (up_to start n) ≡ n + 1
length-up_to start zero = omega arith
length-up_to start (suc n) = omega (arith, length-up_to (start + 1) n)

get_elem?-up_to : (start n i : ℕ) → i ≤ n → get_elem? (up_to start n) i ≡ some (start + i)
get_elem?-up_to start zero zero h = ground arith
get_elem?-up_to start zero (suc i) h = absurd (omega arith)
get_elem?-up_to start (suc n) zero h = ground arith
get_elem?-up_to start (suc n) (suc i) h =
    ground (arith, get_elem?-up_to (start + 1) n i (omega arith))

spelling_start :
    (v : PinyinDecoderService Letters)
    → DecoderService.get_spelling_start letters v
      ≡ length v.matrix_search.py ∷ up_to 0 (length v.matrix_search.py)
unfolding DecoderService.get_spelling_start
spelling_start v = rw (
    take-all (length v.matrix_search.py + 1) (up_to 0 (length v.matrix_search.py))
      (omega (arith, length-up_to 0 (length v.matrix_search.py))))

surface : (v : PinyinDecoderService Letters) → surface_of letters v ≡ v.matrix_search.py
unfolding DecoderService.get_py_str
surface v = take-all (length v.matrix_search.py) v.matrix_search.py (omega arith)

decoded : (v : PinyinDecoderService Letters) → decoded_of letters v ≡ length v.matrix_search.py
unfolding DecoderService.get_py_str
decoded v = omega (arith, length-take (length v.matrix_search.py) v.matrix_search.py)

consistent :
    (py : List ℕ) (fixed : ℕ)
    → fixed ≤ length py
    → IsConsistent (length py ∷ up_to 0 (length py)) py (length py) fixed fixed
consistent py fixed h = record {
  long = omega (arith, length-up_to 0 (length py));
  rest_start = ground (arith, get_elem?-up_to 0 (length py) fixed h);
  in_surface = inside;
  decoded_part = omega arith;
  fixed_decoded = λ k. h;
}
  where
    inside :
        (i x : ℕ) → 1 ≤ i → get_elem? (length py ∷ up_to 0 (length py)) i ≡ some x → x ≤ length py
    inside zero x a e = absurd (omega arith)
    inside (suc i) x a e =
        let small = get_elem?-some (up_to 0 (length py)) i e in
        let le : i ≤ length py = omega (arith, length-up_to 0 (length py)) in
        ground (arith, get_elem?-up_to 0 (length py) i le)

fixed_le : (v : PinyinDecoderService Letters) → fixed_of letters v ≤ length v.matrix_search.py
unfolding DecoderService.get_fixed_len
fixed_le v = ground arith

answer :
    (v : PinyinDecoderService Letters)
    → (start : ℕ) × IsConsistent
        (DecoderService.get_spelling_start letters v)
        (surface_of letters v)
        (decoded_of letters v)
        (fixed_of letters v)
        start
answer v = (
  fixed_of letters v,
  rw (spelling_start v, surface v, decoded v)
      (consistent v.matrix_search.py (fixed_of letters v) (fixed_le v)),
)

letters-Answers : (v : PinyinDecoderService Letters) → Answers letters v
letters-Answers v = record {
  present = answer v;
  searched = λ py. answer (DecoderService.search letters v py).0;
  deleted = λ at in_spl clear. answer (DecoderService.del_search letters v at in_spl clear).0;
}

info_ni-IsSafe : IsSafe info_ni
unfolding program
info_ni-IsSafe = record {
  cursor_in = leb→le _ _ refl;
  covers = λ h. leb→le _ _ refl;
  active_in = leb→le _ _ refl;
  some_page = ltb→lt _ _ refl;
}

-- The service after the first candidate was chosen.
abbrev chosen : PinyinDecoderService Letters
chosen = record { matrix_search = record { py = b'n' ∷ b'i' ∷ []; fixed = true }; predict_len = 0 }

-- The first candidate is chosen.
choose_decoding_candidate-IsSafe_example :
    (d' : DecodingInfo Letters) × (choose_decoding_candidate letters input info_ni (pos 0)
      ≡ some d')
    × IsSafe d'
    × HasActivePart d'
unfolding program
choose_decoding_candidate-IsSafe_example =
    choose_decoding_candidate-IsSafe letters input info_ni
      (record (reset_candidates info_ni) { decoder_service = chosen }) (pos 0) 1 refl
      (answer chosen) tt info_ni-IsSafe

choose_and_update-IsSound_example :
    (t : Ime Letters) × (choose_and_update letters (negsuc 0) at_ni ≡ some t) × IsSound t
unfolding program
choose_and_update-IsSound_example =
    choose_and_update-IsSound letters (negsuc 0) at_ni
      (decoding-IsAnswered letters at_ni (letters-Answers at_ni.dec_info.decoder_service)) tt
      info_ni-IsSafe

at_ni-IsSound : IsSound at_ni
unfolding program
at_ni-IsSound = record { info = info_ni-IsSafe; shown = λ h. (0, refl, ltb→lt _ _ refl) }

-- The engine answers the choice of any of its twelve candidates.
choice-IsAnswered : (i : ℕ) → i < 12 → IsAnswered letters (to_int i) at_ni
unfolding program
choice-IsAnswered i h e =
    let small : (i % 2 ^ 32) ≡ i = omega arith in
    let below : ltb i (2 ^ 31) ≡ true = ground arith in
    let known : ltb i 12 ≡ true = ground arith in
    (
      record (reset_candidates info_ni) { decoder_service = chosen },
      1,
      rw (small, below, known),
      answer chosen,
    )

at_ni-IsKnown : (code : ℕ) → IsKnown letters x_keys (press code) at_ni
unfolding program
at_ni-IsKnown code = record {
  answers = letters-Answers _;
  after_reset = letters-Answers _;
  choices = λ index size start e h f.
      let nine : 9 ≡ size = some_inj _ _ e in
      let zero_start : 0 ≡ start = some_inj _ _ f in
      choice-IsAnswered (start + index) (omega arith);
  on_page = λ space size e. let nine : 9 ≡ size = some_inj _ _ e in omega arith;
  comma = λ c. ltb→lt _ _ refl;
}

-- A space with `ni` typed.
process_key-IsSound_example :
    (t : Ime Letters) × (b : Bool) × (process_key letters x_keys (press b' ') at_ni ≡ some (t, b))
    × IsSound t
    × (is_settled t.ime_state ≡ true)
unfolding program is_settled
process_key-IsSound_example =
    process_key-IsSound letters x_keys (press b' ') at_ni (at_ni-IsKnown b' ') refl at_ni-IsSound
