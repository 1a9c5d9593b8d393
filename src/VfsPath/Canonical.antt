-- ===== src/VfsPath/Canonical.antt =====
-- kernel/src/path.cpp, `update_positions`: the text that a path keeps.
use thor_os.Prelude.{
  ℕ, ◌+◌, ◌-◌, ◌<◌, ◌≡◌, ◌≢◌, refl, sym, ap, ◌∙◌, arith, true, false, ◌&&◌, List, [], ◌∷◌, ◌++◌,
  append_assoc, ◌==◌, leb, if◌then◌else◌, if_true, if_false, and_true, and_false, Bool-cases,
  Option-cases, inl, inr, length, length-append, get_or, get_or-append_right, take, drop,
  take-append, drop-append, last,
}
use mathlib.Core.List.{reverse_aux}
use thor_os.Text.{Text, is_empty}
use thor_os.Text.Split.{join}
use thor_os.VfsPath.{slash, erase, collapse, ended, update_positions, starts_with_slash}

-- The names in a text: its longest runs of characters other than the slash, in order.
unfoldable pub add_char : ℕ → Text → List Text → List Text
add_char c [] ps = (c ∷ []) ∷ ps
add_char c (d ∷ cs) [] = (c ∷ []) ∷ []
add_char c (d ∷ cs) (p ∷ ps) = if d == slash then (c ∷ []) ∷ p ∷ ps else (c ∷ p) ∷ ps

unfoldable pub names : Text → List Text
names [] = []
names (c ∷ cs) = if c == slash then names cs else add_char c cs (names cs)

-- A slash if the text starts with one.
abbrev pub lead : Text → Text
lead s = if starts_with_slash s then slash ∷ [] else []

-- One round of the first loop, seen from the front of the text.
push : ℕ → Text → Text
push c r = if c == slash && starts_with_slash r then r else c ∷ r

squeeze : Text → Text
squeeze [] = []
squeeze (c ∷ cs) = push c (squeeze cs)

module _ (front : Text) (c d : ℕ) (r : Text) where
  first_char : get_or (front ++ (c ∷ d ∷ r)) (length front) 0 ≡ c
  first_char =
      let none_left : length front - length front ≡ 0 = omega arith in
      get_or-append_right front (c ∷ d ∷ r) (length front) 0 (omega arith)
      ∙ ap (λ (k : ℕ). get_or (c ∷ d ∷ r) k 0) none_left

  second_char : get_or (front ++ (c ∷ d ∷ r)) (length front + 1) 0 ≡ d
  second_char =
      let one_left : length front + 1 - length front ≡ 1 = omega arith in
      get_or-append_right front (c ∷ d ∷ r) (length front + 1) 0 (omega arith)
      ∙ ap (λ (k : ℕ). get_or (c ∷ d ∷ r) k 0) one_left

  front_taken : take (length front + 1) (front ++ (c ∷ d ∷ r)) ≡ front ++ (c ∷ [])
  front_taken =
      ap (λ (k : ℕ). take k (front ++ (c ∷ d ∷ r))) (omega (arith, length-append front (c ∷ [])))
      ∙ ap (λ (l : Text). take (length (front ++ (c ∷ []))) l)
          (sym (append_assoc front (c ∷ []) (d ∷ r)))
      ∙ take-append (front ++ (c ∷ [])) (d ∷ r)

  back_dropped : drop (length front + 1 + 1) (front ++ (c ∷ d ∷ r)) ≡ r
  back_dropped =
      ap (λ (k : ℕ). drop k (front ++ (c ∷ d ∷ r)))
        (omega (arith, length-append front (c ∷ d ∷ [])))
      ∙ ap (λ (l : Text). drop (length (front ++ (c ∷ d ∷ []))) l)
          (sym (append_assoc front (c ∷ d ∷ []) r))
      ∙ drop-append (front ++ (c ∷ d ∷ [])) r

  erased : erase (front ++ (c ∷ d ∷ r)) (length front + 1) ≡ front ++ (c ∷ r)
  unfolding erase
  erased =
      if_false _ _ (
        inside (length (front ++ (c ∷ d ∷ r))) (length front + 1)
          (omega (arith, length-append front (c ∷ d ∷ r))))
      ∙ ap (λ (l : Text). l ++ drop (length front + 1 + 1) (front ++ (c ∷ d ∷ r))) front_taken
      ∙ ap (λ (l : Text). (front ++ (c ∷ [])) ++ l) back_dropped
      ∙ append_assoc front (c ∷ []) r
    where
      inside : (n k : ℕ) → k < n → leb n k ≡ false
      inside n k h = ground arith

-- One round of the first loop, at the index of the character `c`.
round : (i : ℕ) → Text → Text
round i base =
    if get_or base i 0 == slash && get_or base (i + 1) 0 == slash then erase base (i + 1) else base

round-push :
    (front : Text) (c d : ℕ) (r : Text)
    → round (length front) (front ++ (c ∷ d ∷ r)) ≡ front ++ push c (d ∷ r)
unfolding round push
round-push front c d r =
    rw (first_char front c d r, second_char front c d r, erased front c d r)
      (elim (Bool-cases (c == slash && d == slash)) [
        | inl e ↦ rw e (ap (λ (x : ℕ). front ++ (x ∷ r)) (ground arith))
        | inr e ↦ rw e refl
      ])

reverse_aux-split : (zs r : Text) → reverse_aux zs r ≡ reverse_aux zs [] ++ r
reverse_aux-split [] r = refl
reverse_aux-split (c ∷ zs) r =
    reverse_aux-split zs (c ∷ r)
    ∙ sym (append_assoc (reverse_aux zs []) (c ∷ []) r)
    ∙ ap (λ (l : Text). l ++ r) (sym (reverse_aux-split zs (c ∷ [])))

length-reverse_aux : (zs r : Text) → length (reverse_aux zs r) ≡ length zs + length r
length-reverse_aux [] r = omega arith
length-reverse_aux (c ∷ zs) r = omega (arith, length-reverse_aux zs (c ∷ r))

fold_push : Text → Text → Text
fold_push [] r = r
fold_push (c ∷ zs) r = fold_push zs (push c r)

squeeze-reverse_aux : (zs r : Text) → squeeze (reverse_aux zs r) ≡ fold_push zs (squeeze r)
unfolding squeeze fold_push
squeeze-reverse_aux [] r = refl
squeeze-reverse_aux (c ∷ zs) r = squeeze-reverse_aux zs (c ∷ r)

push-nonempty : (c d : ℕ) (r : Text) → is_empty (push c (d ∷ r)) ≡ false
unfolding push
push-nonempty c d r = ground arith

collapse-fold_push :
    (zs r : Text) → is_empty r ≡ false → collapse (length zs) (reverse_aux zs r) ≡ fold_push zs r
unfolding collapse fold_push round
collapse-fold_push [] r h = refl
collapse-fold_push (c ∷ zs) [] h = absurd (cc)
collapse-fold_push (c ∷ zs) (d ∷ r) h =
    let front = reverse_aux zs [] in
    let size : length zs ≡ length front = omega (arith, length-reverse_aux zs []) in
    let one_round : round (length zs) (reverse_aux zs (c ∷ d ∷ r))
        ≡ reverse_aux zs (push c (d ∷ r)) =
      ap (λ (l : Text). round (length zs) l) (reverse_aux-split zs (c ∷ d ∷ r))
      ∙ ap (λ (k : ℕ). round k (front ++ (c ∷ d ∷ r))) size
      ∙ round-push front c d r
      ∙ sym (reverse_aux-split zs (push c (d ∷ r))) in
    ap (λ (b : Text). collapse (length zs) b) one_round
    ∙ collapse-fold_push zs (push c (d ∷ r)) (push-nonempty c d r)

squeeze_one : (y : ℕ) → squeeze (y ∷ []) ≡ y ∷ []
unfolding squeeze push
squeeze_one y = ground arith

last_first :
    (zs : Text) (x : ℕ) (xs : Text)
    → (zs' : Text) × (y : ℕ) × (reverse_aux zs (x ∷ xs) ≡ reverse_aux zs' (y ∷ []))
      × (length zs' ≡ length zs + length xs)
last_first zs x [] = (zs, x, refl, omega arith)
last_first zs x (w ∷ xs) =
    let (zs', y, same, size) = last_first (x ∷ zs) w xs in (zs', y, same, omega (arith, size))

collapse-squeeze : (x : ℕ) (xs : Text) → collapse (length (x ∷ xs) - 1) (x ∷ xs) ≡ squeeze (x ∷ xs)
collapse-squeeze x xs =
    let (zs, y, same, size) = last_first [] x xs in
    let count : length (x ∷ xs) - 1 ≡ length zs = omega (arith, size) in
    ap (λ (k : ℕ). collapse k (x ∷ xs)) count
    ∙ ap (λ (l : Text). collapse (length zs) l) same
    ∙ collapse-fold_push zs (y ∷ []) refl
    ∙ ap (λ (l : Text). fold_push zs l) (sym (squeeze_one y))
    ∙ sym (ap squeeze same ∙ squeeze-reverse_aux zs (y ∷ []))

squeeze-start :
    (d : ℕ) (cs : Text)
    → (starts_with_slash (squeeze (d ∷ cs)) ≡ (d == slash)) × (is_empty (squeeze (d ∷ cs)) ≡ false)
unfolding squeeze push
squeeze-start d [] = ground arith
squeeze-start d (c ∷ cs) = ground (arith, squeeze-start c cs)

ended-cons : (c : ℕ) (r : Text) → is_empty r ≡ false → ended (c ∷ r) ≡ c ∷ ended r
unfolding ended
ended-cons c [] h = absurd (cc)
ended-cons c (d ∷ r) h = elim (Option-cases (last (d ∷ r))) [
  | inl e ↦ rw (e, ended) refl
  | inr (k, e) ↦ elim (Bool-cases (k == slash)) [
    | inl f ↦ rw (e, ended) (rw f refl)
    | inr f ↦ rw (e, ended) (rw f refl)
  ]
]

pub add_char-cons :
    (c : ℕ) (cs : Text) (ps : List Text)
    → (q : Text) × (qs : List Text) × (add_char c cs ps ≡ q ∷ qs)
unfolding add_char
add_char-cons c [] ps = (c ∷ [], ps, refl)
add_char-cons c (d ∷ cs) [] = (c ∷ [], [], refl)
add_char-cons c (d ∷ cs) (p ∷ ps) = elim (Bool-cases (d == slash)) [
  | inl e ↦ (c ∷ [], p ∷ ps, if_true _ _ e)
  | inr e ↦ (c ∷ p, ps, if_false _ _ e)
]

join-add_char-lead :
    (c d : ℕ) (cs : Text) (ns : List Text)
    → ((d == slash) ≡ false → ns ≢ [])
    → join slash (add_char c (d ∷ cs) ns) ≡ c ∷ lead (d ∷ cs) ++ join slash ns
unfolding add_char join
join-add_char-lead c d cs [] h = elim (Bool-cases (d == slash)) [
  | inl e ↦ rw e refl
  | inr e ↦ absurd (h e refl)
]
join-add_char-lead c d cs (p ∷ ps) h = elim (Bool-cases (d == slash)) [
  | inl e ↦ rw e refl
  | inr e ↦ rw e refl
]

names-ne-nil : (d : ℕ) (cs : Text) → (d == slash) ≡ false → names (d ∷ cs) ≢ []
unfolding names
names-ne-nil d cs e h =
    let (q, qs, same) = add_char-cons d cs (names cs) in
    cons_nil (sym same ∙ sym (if_false _ _ e) ∙ h)
  where
    cons_nil : {q : Text} {qs : List Text} → q ∷ qs ≡ [] → ⊥
    cons_nil k = cc

names_slash : (c : ℕ) (cs : Text) → (c == slash) ≡ true → names (c ∷ cs) ≡ names cs
unfolding names
names_slash c cs e = if_true _ _ e

names_char : (c : ℕ) (cs : Text) → (c == slash) ≡ false → names (c ∷ cs) ≡ add_char c cs (names cs)
unfolding names
names_char c cs e = if_false _ _ e

is_slash : (c : ℕ) → (c == slash) ≡ true → c ≡ slash
is_slash c h = ground arith

ended_one : (c : ℕ) → ended (c ∷ []) ≡ lead (c ∷ []) ++ join slash (names (c ∷ []))
unfolding ended names join add_char
ended_one c = elim (Bool-cases (c == slash)) [
  | inl e ↦ rw e (ap (λ (k : ℕ). k ∷ []) (is_slash c e))
  | inr e ↦ rw e refl
]

ended-squeeze :
    (c : ℕ) (cs : Text) → ended (squeeze (c ∷ cs)) ≡ lead (c ∷ cs) ++ join slash (names (c ∷ cs))
unfolding squeeze push
ended-squeeze c [] = ap ended (squeeze_one c) ∙ ended_one c
ended-squeeze c (d ∷ cs) =
    let r = squeeze (d ∷ cs) in
    let ns = names (d ∷ cs) in
    let (starts, nonempty) = squeeze-start d cs in
    let ih = ended-squeeze d cs in
    elim (Bool-cases (c == slash)) [
      | inl e ↦ elim (Bool-cases (d == slash)) [
        | inl f ↦
            ap ended (if_true _ _ (and_true e (starts ∙ f)))
            ∙ ih
            ∙ ap (λ (l : Text). l ++ join slash ns) (if_true _ _ f ∙ sym (if_true _ _ e))
            ∙ ap (λ (n : List Text). lead (c ∷ d ∷ cs) ++ join slash n)
                (sym (names_slash c (d ∷ cs) e))
        | inr f ↦
            ap ended (if_false _ _ (and_false (c == slash) (starts ∙ f)))
            ∙ ended-cons c r nonempty
            ∙ ap (λ (l : Text). c ∷ l) (ih ∙ ap (λ (l : Text). l ++ join slash ns) (if_false _ _ f))
            ∙ ap (λ (k : ℕ). k ∷ join slash ns) (is_slash c e)
            ∙ ap (λ (l : Text). l ++ join slash ns) (sym (if_true _ _ e))
            ∙ ap (λ (n : List Text). lead (c ∷ d ∷ cs) ++ join slash n)
                (sym (names_slash c (d ∷ cs) e))
      ]
      | inr e ↦
          let kept : (c == slash && starts_with_slash r) ≡ false = rw e refl in
          ap ended (if_false _ _ kept)
          ∙ ended-cons c r nonempty
          ∙ ap (λ (l : Text). c ∷ l) ih
          ∙ sym (join-add_char-lead c d cs ns (names-ne-nil d cs))
          ∙ ap (λ (n : List Text). join slash n) (sym (names_char c (d ∷ cs) e))
          ∙ ap (λ (l : Text). l ++ join slash (names (c ∷ d ∷ cs))) (sym (if_false _ _ e))
    ]

-- The base of a path is canonical: a slash if the text starts with one, and then each name of the
-- text followed by one slash. The text must not be empty.
pub update_positions-canonical :
    (s : Text) → is_empty s ≡ false → (update_positions s).base ≡ lead s ++ join slash (names s)
unfolding update_positions
update_positions-canonical [] h = absurd (cc)
update_positions-canonical (c ∷ cs) h = ap ended (collapse-squeeze c cs) ∙ ended-squeeze c cs
