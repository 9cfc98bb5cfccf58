-- ===== src/Utf16.antt =====
-- src/share/utf16char.cpp: strings of 16-bit characters that end with 0, in buffers. A string is its
-- buffer from the pointer on; a read or write outside the buffer is a fault.
pub mod Compare
pub mod Copy
use scim_googlepinyin.Prelude.{
  ℕ, zero, suc, ◌+◌, ◌-◌, ◌*◌, ◌≡◌, Bool, true, false, not, ◌&&◌, ◌||◌, List, [], ◌∷◌, ◌++◌, Option,
  none, some, ltb, leb, ◌==◌, if◌then◌else◌, length, get_elem?, set, take, drop,
}
use scim_googlepinyin.Prelude.Errors.{◌>>=◌}
use scim_googlepinyin.Prelude.Int.{ℤ, pos, neg, sub_ℕ}

unfoldable pub utf16_strlen : List ℕ → Option ℕ
utf16_strlen [] = none
utf16_strlen (ch ∷ str) =
    let rest = utf16_strlen str in if ch == 0 then some 0 else rest >>= λ size. some (suc size)

unfoldable pub utf16_strcmp : List ℕ → List ℕ → Option ℤ
utf16_strcmp [] str2 = none
utf16_strcmp (a ∷ str1) [] = none
utf16_strcmp (a ∷ str1) (b ∷ str2) =
    let rest = utf16_strcmp str1 str2 in if a == b && not (a == 0) then rest else some (sub_ℕ a b)

-- Nothing is read once `size` characters are equal.
unfoldable pub utf16_strncmp : List ℕ → List ℕ → ℕ → Option ℤ
utf16_strncmp str1 str2 zero = some (pos 0)
utf16_strncmp [] str2 (suc size) = none
utf16_strncmp (a ∷ str1) [] (suc size) = none
utf16_strncmp (a ∷ str1) (b ∷ str2) (suc size) =
    let rest = utf16_strncmp str1 str2 size in
    if a == b && not (a == 0) then rest else some (sub_ℕ a b)

-- The buffer `dst` after the copy; the buffers do not overlap.
unfoldable pub utf16_strcpy : List ℕ → List ℕ → Option (List ℕ)
utf16_strcpy dst [] = none
utf16_strcpy [] (ch ∷ src) = none
utf16_strcpy (old ∷ dst) (ch ∷ src) =
    let rest = utf16_strcpy dst src in
    if ch == 0 then some (ch ∷ dst) else rest >>= λ copied. some (ch ∷ copied)

-- A write to a place in memory.
unfoldable pub store : List ℕ → ℕ → ℕ → Option (List ℕ)
store mem at ch = if ltb at (length mem) then some (set mem at ch) else none

-- The loop `while (size-- && (*cp++ = *src++))`.
unfoldable pub copy_forward : ℕ → List ℕ → ℕ → ℕ → Option (List ℕ)
unfolding store
copy_forward zero mem cp src = some mem
copy_forward (suc size) mem cp src = do
  ch ← get_elem? mem src
  mem' ← store mem cp ch
  let rest = copy_forward size mem' (cp + 1) (src + 1)
  if ch == 0 then some mem' else rest

-- The loop `while (size-- && (*cp-- == *src--))`, which compares where it means to copy. The pointers
-- stand one place further.
unfoldable pub copy_backward : ℕ → List ℕ → ℕ → ℕ → Option (List ℕ)
copy_backward zero mem cp src = some mem
copy_backward (suc size) mem cp src = do
  a ← get_elem? mem (cp - 1)
  b ← get_elem? mem (src - 1)
  let rest = copy_backward size mem (cp - 1) (src - 1)
  if a == b then rest else some mem

-- Both buffers are in one memory, `dst` and `src` are places in it.
unfoldable pub utf16_strncpy : List ℕ → ℕ → ℕ → ℕ → Option (List ℕ)
unfolding copy_forward copy_backward
utf16_strncpy mem dst src size =
    if size == 0 || src == dst
    then some mem
    else if ltb dst src || (ltb src dst && leb (src + size) dst)
    then copy_forward size mem dst src
    else copy_backward size mem (dst + size) (src + size)

unfoldable pub is_splitter : ℕ → Bool
is_splitter ch = ch == b' ' || ch == b'\n' || ch == b'\t'

-- How many splitters are skipped.
unfoldable pub skip_splitters : List ℕ → Option ℕ
unfolding is_splitter
skip_splitters [] = none
skip_splitters (ch ∷ str) =
    let rest = skip_splitters str in if is_splitter ch then (rest >>= λ n. some (suc n)) else some 0

-- How long the token is.
unfoldable pub token_length : List ℕ → Option ℕ
unfolding is_splitter
token_length [] = none
token_length (ch ∷ str) =
    let rest = token_length str in
    if ch == 0 || is_splitter ch then some 0 else rest >>= λ n. some (suc n)

-- The buffer, and where the token and the next string start in it; `token` is `none` for NULL.
pub record Token : Type 0 where
  pub buffer : List ℕ
  pub token : Option ℕ
  pub token_size : ℕ
  pub utf16_str_next : Option ℕ

-- `token_size` is what the caller's variable holds before.
unfoldable pub utf16_strtok : List ℕ → ℕ → Option Token
unfolding skip_splitters token_length
utf16_strtok str token_size = do
  start ← skip_splitters str
  size ← token_length (drop start str)
  end ← get_elem? str (start + size)
  some (
      if end == 0 && size == 0
      then record { buffer = str; token = none; token_size = token_size; utf16_str_next = none }
      else record {
        buffer = set str (start + size) 0;
        token = some start;
        token_size = size;
        utf16_str_next = if end == 0 then none else some (start + size + 1);
      })

-- The loop over the digits.
unfoldable pub atoi_digits : ℕ → List ℕ → Option ℕ
atoi_digits value [] = none
atoi_digits value (ch ∷ str) =
    let rest = atoi_digits (value * 10 + (ch - b'0')) str in
    if leb b'0' ch && leb ch b'9' then rest else some value

-- A value that does not fit an `int` is a fault.
unfoldable pub utf16_atoi : List ℕ → Option ℤ
unfolding atoi_digits
utf16_atoi [] = none
utf16_atoi (ch ∷ str) =
    (if ch == b'-' then atoi_digits 0 str else atoi_digits 0 (ch ∷ str)) >>= λ value.
    if ltb value 0x80000000 then some (if ch == b'-' then neg (pos value) else pos value) else none
