-- ===== src/Tests/Typing.antt =====
-- Keys typed one after the other.
use scim_googlepinyin.Prelude.{ℕ, List, [], ◌∷◌, Option, some, ◌≡◌, refl}
use scim_googlepinyin.Prelude.Errors.{◌>>=◌}
use scim_googlepinyin.ImeState.{ImeState, idle, input, composing}
use scim_googlepinyin.PinyinIme.{Ime}
use scim_googlepinyin.PinyinIme.Keys.{process_key}
use scim_googlepinyin.Tests.Program.{program}
use scim_googlepinyin.Tests.Engine.{Letters, letters, x_keys, press, start}

abbrev pub type_keys : Ime Letters → List ℕ → Option (Ime Letters)
type_keys s [] = some s
type_keys s (c ∷ cs) = process_key letters x_keys (press c) s >>= λ r. type_keys r.0 cs

abbrev pub view : Ime Letters → ImeState × List ℕ × ℕ × List ℕ
view s = (s.ime_state, s.dec_info.surface, s.dec_info.cursor_pos, s.dec_info.composing_str)

abbrev pub typed : List ℕ → Option (ImeState × List ℕ × ℕ × List ℕ)
typed cs = type_keys start cs >>= λ s. some (view s)

types_two : typed (b'n' ∷ b'i' ∷ []) ≡ some (input, b'n' ∷ b'i' ∷ [], 2, b'n' ∷ b'i' ∷ [])
unfolding program
types_two = refl

deletes_one : typed (b'n' ∷ b'i' ∷ 0xFF08 ∷ []) ≡ some (input, b'n' ∷ [], 1, b'n' ∷ [])
unfolding program
deletes_one = refl

chooses_third : typed (b'n' ∷ b'i' ∷ b'3' ∷ []) ≡ some (idle, [], 0, [])
unfolding program
chooses_third = refl

-- Left twice from the end comes to the start; once more jumps to the end.
left_wraps :
    typed (b'n' ∷ b'i' ∷ 0xFF51 ∷ 0xFF51 ∷ 0xFF51 ∷ 0xFF51 ∷ [])
    ≡ some (composing, b'n' ∷ b'i' ∷ [], 2, b'n' ∷ b'i' ∷ [])
unfolding program
left_wraps = refl

left_reaches_start :
    typed (b'n' ∷ b'i' ∷ 0xFF51 ∷ 0xFF51 ∷ 0xFF51 ∷ [])
    ≡ some (composing, b'n' ∷ b'i' ∷ [], 0, b'n' ∷ b'i' ∷ [])
unfolding program
left_reaches_start = refl
