-- ===== src/Text.antt =====
-- The conversions of tstl/include/string.hpp between numbers and text, and `split`. A text is the
-- list of its character codes; `char` is unsigned (`-funsigned-char` in cpp.mk).
pub mod Numbers
pub mod Raw
pub mod Split
mod Tests
use thor_os.Prelude.{
  ℕ, zero, suc, ◌+◌, ◌-◌, ◌*◌, ◌/◌, ◌%◌, ◌^◌, Bool, not, ◌&&◌, ◌||◌, List, [], ◌∷◌, ◌++◌, ◌==◌, ltb,
  if◌then◌else◌, length,
}
use thor_os.Prelude.{set as write}
use mathlib.Core.List.{reverse}

abbrev pub Text : Type 0
Text = List ℕ

-- `c - '0'` as an `int`, converted to `uint64_t` by the multiplication that follows.
pub digit_value : ℕ → ℕ
digit_value c = (c + 2 ^ 64 - 48) % 2 ^ 64

-- The loop of `parse`, over the characters from the last one back to the first.
pub parse_back : Text → ℕ → ℕ → ℕ
parse_back [] factor acc = acc
parse_back (c ∷ cs) factor acc =
    parse_back cs ((factor * 10) % 2 ^ 64) ((acc + (digit_value c * factor) % 2 ^ 64) % 2 ^ 64)

-- `parse(it, end)` and `parse(const string&)`
pub parse : Text → ℕ
parse s = parse_back (reverse s) 1 0

-- The loop of `digits`; `fuel` bounds its rounds.
pub count_digits : ℕ → ℕ → ℕ → ℕ
count_digits zero number i = i
count_digits (suc fuel) number i =
    let rest = count_digits fuel (number / 10) (i + 1) in if number == 0 then i else rest

-- `digits` of a 64-bit number.
pub digits : ℕ → ℕ
digits number = if ltb number 10 then 1 else count_digits 20 number 0

-- The loop that fills `buffer`, lowest digit first. The rounds are bounded by the 20 places of the
-- buffer; `parse-to_string` needs no more of them.
pub fill_buffer : ℕ → ℕ → Text
fill_buffer zero rem = []
fill_buffer (suc places) rem =
    let rest = fill_buffer places (rem / 10) in if rem == 0 then [] else (b'0' + rem % 10) ∷ rest

-- `to_string<uint64_t>`
pub to_string : ℕ → Text
to_string value = if value == 0 then b'0' ∷ [] else reverse (fill_buffer 20 value)

-- `buffer[j++] = c` for each character.
pub put_all : ℕ → Text → Text → Text
put_all j [] buffer = buffer
put_all j (c ∷ cs) buffer = put_all (suc j) cs (write buffer j c)

-- `to_raw_string<uint64_t>(value, buffer, n)`: the memory from the address `buffer` on, before and
-- after the call. It goes on behind the caller's array of `n` characters: the function writes
-- wherever its index points, inside the array or behind it.
pub to_raw_string : ℕ → Text → ℕ → Text
to_raw_string value memory n =
    let digits_written = reverse (fill_buffer 20 value) in
    if ltb n 20
    then memory
    else if value == 0
    then write (write memory 0 b'0') 1 0
    else write (put_all 0 digits_written memory) (length digits_written) 0

-- The loop of `atoui`, over the characters from the last one back to the first.
pub atoui_back : Text → ℕ → ℕ → ℕ
atoui_back [] value mul = value
atoui_back (c ∷ cs) value mul =
    let rest = atoui_back cs ((value + (mul * (c - 48)) % 2 ^ 64) % 2 ^ 64) ((mul * 10) % 2 ^ 64) in
    if ltb c b'0' || ltb b'9' c then value else rest

pub atoui : Text → ℕ
atoui s = atoui_back (reverse s) 0 1

abbrev pub is_empty : Text → Bool
is_empty [] = Bool.true
is_empty (c ∷ cs) = Bool.false

-- The loop of `split` and `split_append`: the characters left, the part being read, the parts.
pub split_from : ℕ → Text → Text → List Text → List Text
split_from sep [] current parts = if is_empty current then parts else parts ++ (current ∷ [])
split_from sep (c ∷ cs) current parts =
    let full = split_from sep cs [] (parts ++ (current ∷ [])) in
    let skip = split_from sep cs current parts in
    let more = split_from sep cs (current ++ (c ∷ [])) parts in
    if c == sep && not (is_empty current) then full else if c == sep then skip else more

pub split : Text → ℕ → List Text
split s sep = split_from sep s [] []

pub split_append : Text → List Text → ℕ → List Text
split_append s container sep = split_from sep s [] container
