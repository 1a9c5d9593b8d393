-- ===== src/Text/Tests.antt =====
-- Runs of the conversions, and their theorems at concrete texts.
use thor_os.Prelude.{◌^◌, ◌≡◌, refl, arith, List, [], ◌∷◌, ◌++◌, length, replicate}
use thor_os.Text.{Text, parse, to_string, digits, to_raw_string, atoui, split, split_append}
use thor_os.Text
use thor_os.Text.Numbers.{parse-to_string}
use thor_os.Text.Raw.{to_raw_string_overruns}
use thor_os.Text.Split.{join, split-join}

-- 1203
abbrev number_text : Text
number_text = b'1' ∷ b'2' ∷ b'0' ∷ b'3' ∷ []

to_string_runs : to_string 1203 ≡ number_text
unfolding to_string Text.fill_buffer
to_string_runs = refl

parse_runs : parse number_text ≡ 1203
unfolding parse Text.parse_back Text.digit_value
parse_runs = refl

-- The reading stops at the first character from the right that is no digit.
atoui_stops : atoui (b'4' ∷ b'x' ∷ b'7' ∷ []) ≡ 7
unfolding atoui Text.atoui_back
atoui_stops = refl

-- "  ls -l "
abbrev line : Text
line = b' ' ∷ b' ' ∷ b'l' ∷ b's' ∷ b' ' ∷ b'-' ∷ b'l' ∷ b' ' ∷ []

abbrev words : List Text
words = (b'l' ∷ b's' ∷ []) ∷ (b'-' ∷ b'l' ∷ []) ∷ []

split_runs : split line b' ' ≡ words
unfolding split Text.split_from
split_runs = refl

parse-to_string_example : parse (to_string 1203) ≡ 1203
parse-to_string_example = parse-to_string 1203 (omega arith)

to_raw_string_overruns_example :
    (to_raw_string (10 ^ 19) (replicate 20 1 ++ (7 ∷ 8 ∷ [])) 20
      ≡ to_string (10 ^ 19) ++ (0 ∷ 8 ∷ []))
    × (length (to_string (10 ^ 19)) ≡ 20)
to_raw_string_overruns_example =
    to_raw_string_overruns (10 ^ 19) (replicate 20 1) 7 (8 ∷ []) (omega arith) (omega arith)
      (omega arith)

split-join_example :
    (split (join b' ' (words ++ (number_text ∷ []))) b' ' ≡ words ++ (number_text ∷ []))
    × (split (join b' ' words ++ number_text) b' ' ≡ words ++ (number_text ∷ []))
    × (split_append (join b' ' (words ++ (number_text ∷ []))) words b' '
        ≡ words ++ (words ++ (number_text ∷ [])))
    × (split_append (join b' ' words ++ number_text) words b' '
        ≡ words ++ (words ++ (number_text ∷ [])))
split-join_example =
    split-join b' ' words words number_text
      (refl, (refl, (refl, tt)), (refl, (refl, (refl, tt)), tt)) refl
      (refl, (refl, (refl, (refl, tt))))
