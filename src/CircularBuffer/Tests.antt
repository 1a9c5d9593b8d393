-- ===== src/CircularBuffer/Tests.antt =====
-- Runs of a circular buffer of three cells, and instances of its theorems.
use thor_os.Prelude.{ℕ, ◌≡◌, refl, arith, Bool, not, [], ◌∷◌, ◌++◌, ◌==◌, if◌then◌else◌}
use thor_os.CircularBuffer.{CircularBuffer, full, push}
use thor_os.CircularBuffer.Cells.{IsValid, cells, distance, contents}
use thor_os.CircularBuffer.Queue.{push-contents}

-- Two elements, 8 and 9, around the end of the array.
abbrev around : CircularBuffer ℕ
around = record { size = 4; buffer = 9 ∷ 5 ∷ 6 ∷ 8 ∷ []; start = 3; end = 1 }

around-IsValid : IsValid around
around-IsValid = record { stored = refl; start_inside = omega arith; end_inside = omega arith }

contents_runs : contents around 0 ≡ 8 ∷ 9 ∷ []
unfolding contents distance cells
contents_runs = refl

push_runs : contents (push around 7).1 0 ≡ 8 ∷ 9 ∷ 7 ∷ []
unfolding push full contents distance cells
push_runs = refl

push-contents_example :
    ((push around 7).0 ≡ not (full around))
    × (contents (push around 7).1 0
        ≡ (if full around then contents around 0 else contents around 0 ++ (7 ∷ [])))
push-contents_example = push-contents around 0 around-IsValid 7

abbrev is_nine : ℕ → Bool
is_nine a = a == 9
