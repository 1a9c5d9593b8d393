-- ===== src/Text/Raw.antt =====
-- tstl/include/string.hpp, `to_raw_string`: what it leaves in the buffer.
use mathlib.Core.List.{reverse}
use thor_os.Prelude.{
  ℕ, zero, suc, ◌^◌, ◌≤◌, ◌<◌, ◌≡◌, refl, ap, ◌∙◌, arith, false, [], ◌∷◌, ◌++◌, ◌==◌, ltb, length,
  length-append, drop, Bool-cases, inl, inr, append-nil, append_assoc,
}
use thor_os.Prelude.{set as write}
use thor_os.Text.{Text, fill_buffer, to_string, put_all, to_raw_string}
use thor_os.Text.Numbers.{length-reverse, length-fill_buffer, le-length-fill_buffer}

write-append :
    (pre : Text) (x : ℕ) (post : Text) (c : ℕ)
    → write (pre ++ (x ∷ post)) (length pre) c ≡ pre ++ (c ∷ post)
write-append [] x post c = refl
write-append (p ∷ pre) x post c = ap (◌∷◌ p) (write-append pre x post c)

-- Writing the characters one by one from place `length pre` on.
put_all-append :
    (cs pre post : Text)
    → length cs ≤ length post
    → put_all (length pre) cs (pre ++ post) ≡ (pre ++ cs) ++ drop (length cs) post
unfolding put_all
put_all-append [] pre post h = rw append-nil
put_all-append (c ∷ cs) pre [] h = absurd (omega arith)
put_all-append (c ∷ cs) pre (x ∷ post) h =
    let e : suc (length pre) ≡ length (pre ++ (c ∷ [])) =
      omega (arith, length-append {0} pre (c ∷ [])) in
    let ih = put_all-append cs (pre ++ (c ∷ [])) post (omega arith) in
    rw (write-append pre x post c, e) (simp append_assoc (simp append_assoc at ih))

drop-cons : (i : ℕ) (xs : Text) → i < length xs → (x : ℕ) × (drop i xs ≡ x ∷ drop (suc i) xs)
drop-cons i [] h = absurd (omega arith)
drop-cons zero (x ∷ xs) h = (x, refl)
drop-cons (suc i) (x ∷ xs) h = drop-cons i xs (omega arith)

-- The digits, then the terminator, then what the buffer held.
terminated :
    (cs buffer : Text)
    → length cs < length buffer
    → write (put_all 0 cs buffer) (length cs) 0 ≡ cs ++ (0 ∷ drop (suc (length cs)) buffer)
terminated cs buffer h =
    let (x, e) = drop-cons (length cs) buffer h in
    rw (put_all-append cs [] buffer (omega arith)) (rw e (write-append cs x _ 0))

zero_text :
    (buffer : Text) → 2 ≤ length buffer → write (write buffer 0 48) 1 0 ≡ 48 ∷ 0 ∷ drop 2 buffer
zero_text [] h = absurd (omega arith)
zero_text (x ∷ []) h = absurd (omega arith)
zero_text (x ∷ y ∷ rest) h = refl

printed_length : (v : ℕ) → v < 2 ^ 64 → length (reverse (fill_buffer 20 v)) ≤ 20
printed_length v h = omega (
  arith,
  length-reverse {0} (fill_buffer 20 v),
  length-fill_buffer 20 20 v (omega arith) (omega arith),
)

-- With room for 21 characters, `to_raw_string` leaves the text of `to_string`, a terminator, and
-- behind them what the memory held.
pub to_raw_string-to_string :
    (v n : ℕ) (buffer : Text)
    → v < 2 ^ 64
    → 20 ≤ n
    → 21 ≤ length buffer
    → to_raw_string v buffer n ≡ to_string v ++ (0 ∷ drop (suc (length (to_string v))) buffer)
unfolding to_raw_string to_string
to_raw_string-to_string v n buffer small enough room =
    let t : ltb n 20 ≡ false = ground arith in
    rw t (elim (Bool-cases (v == 0)) [
      | inl e ↦ rw e (zero_text buffer (omega arith))
      | inr e ↦
          rw e
            (terminated (reverse (fill_buffer 20 v)) buffer (omega (arith, printed_length v small)))
    ])

-- An array of 20 characters, which `to_raw_string` accepts, and a value of 20 digits: the digits fill
-- the array, and the terminator overwrites the character that stands in the memory behind it. The
-- other characters behind it are kept.
pub to_raw_string_overruns :
    (v : ℕ) (array : Text) (behind : ℕ) (rest : Text)
    → 10 ^ 19 ≤ v
    → v < 2 ^ 64
    → length array ≡ 20
    → (to_raw_string v (array ++ (behind ∷ rest)) 20 ≡ to_string v ++ (0 ∷ rest))
      × (length (to_string v) ≡ 20)
unfolding to_raw_string to_string
to_raw_string_overruns v array behind rest large small room =
    let z : (v == 0) ≡ false = ground arith in
    let cs : Text = reverse (fill_buffer 20 v) in
    let full : length cs ≡ 20 = omega (
      arith,
      printed_length v small,
      length-reverse {0} (fill_buffer 20 v),
      le-length-fill_buffer 20 19 v large (omega arith),
    ) in
    let size = length-append {0} array (behind ∷ rest) in
    rw z (
      terminated cs (array ++ (behind ∷ rest)) (omega (arith, full, size, room))
          ∙ ap (λ (k : ℕ). cs ++ (0 ∷ drop (suc k) (array ++ (behind ∷ rest)))) full
          ∙ ap (λ (t : Text). cs ++ (0 ∷ t)) (drop_behind array 20 room),
      full,
    )
  where
    drop_behind : (xs : Text) (n : ℕ) → length xs ≡ n → drop (suc n) (xs ++ (behind ∷ rest)) ≡ rest
    drop_behind [] zero h = refl
    drop_behind [] (suc n) h = absurd (omega arith)
    drop_behind (x ∷ xs) zero h = absurd (omega arith)
    drop_behind (x ∷ xs) (suc n) h = drop_behind xs n (omega arith)
