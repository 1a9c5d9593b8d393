-- ===== src/Text/Split.antt =====
-- tstl/include/string.hpp: `split` against the characters of its input and against joining.
use mathlib.Core.List.{flatten}
use thor_os.Prelude.{
  ℕ, ◌≡◌, refl, sym, ◌∙◌, ap, false, List, [], ◌∷◌, ◌++◌, ◌==◌, if◌then◌else◌, Bool-cases, inl, inr,
  append-nil, append_assoc, ==_iff,
}
use thor_os.Text.{Text, is_empty, split_from, split, split_append}

-- The characters of a text that are not `sep`.
pub without : ℕ → Text → Text
without sep [] = []
without sep (c ∷ cs) = let rest = without sep cs in if c == sep then rest else c ∷ rest

abbrev pub NoSeparator : ℕ → Text → Type 0
NoSeparator sep [] = Unit {0}
NoSeparator sep (c ∷ cs) = ((c == sep) ≡ false) × NoSeparator sep cs

-- Every part has a character, and none is `sep`.
abbrev pub AllTokens : ℕ → List Text → Type 0
AllTokens sep [] = Unit {0}
AllTokens sep (p ∷ ps) = (is_empty p ≡ false) × NoSeparator sep p × AllTokens sep ps

flatten-append : (ps qs : List Text) → flatten (ps ++ qs) ≡ flatten ps ++ flatten qs
unfolding flatten
flatten-append [] qs = refl
flatten-append (p ∷ ps) qs =
    rw (flatten-append ps qs) (sym (append_assoc p (flatten ps) (flatten qs)))

module _ (sep : ℕ) where
  NoSeparator-append :
      (p : Text) (c : ℕ) → NoSeparator sep p → (c == sep) ≡ false → NoSeparator sep (p ++ (c ∷ []))
  NoSeparator-append [] c n e = (e, tt)
  NoSeparator-append (x ∷ p) c n e = (n.0, NoSeparator-append p c n.1 e)

  AllTokens-append :
      (ps : List Text) (p : Text)
      → AllTokens sep ps
      → is_empty p ≡ false
      → NoSeparator sep p
      → AllTokens sep (ps ++ (p ∷ []))
  AllTokens-append [] p a e n = (e, n, tt)
  AllTokens-append (q ∷ ps) p a e n = (a.0, a.1, AllTokens-append ps p a.2 e n)

  -- The parts so far, the part being read, and what is left to read.
  split_from-flatten :
      (s current : Text) (parts : List Text)
      → flatten (split_from sep s current parts) ≡ flatten parts ++ (current ++ without sep s)
  unfolding split_from without flatten
  split_from-flatten [] [] parts = simp append-nil
  split_from-flatten [] (x ∷ current) parts = simp (flatten-append, append-nil)
  split_from-flatten (c ∷ s) [] parts = elim (Bool-cases (c == sep)) [
    | inl e ↦ rw e (split_from-flatten s [] parts)
    | inr e ↦ rw e (split_from-flatten s (c ∷ []) parts)
  ]
  split_from-flatten (c ∷ s) (x ∷ current) parts = elim (Bool-cases (c == sep)) [
    | inl e ↦ rw e (
        split_from-flatten s [] (parts ++ ((x ∷ current) ∷ []))
        ∙ simp (flatten-append, append-nil, append_assoc))
    | inr e ↦ rw e (split_from-flatten s (x ∷ current ++ (c ∷ [])) parts ∙ simp append_assoc)
  ]

  split_from-AllTokens :
      (s current : Text) (parts : List Text)
      → NoSeparator sep current
      → AllTokens sep parts
      → AllTokens sep (split_from sep s current parts)
  unfolding split_from
  split_from-AllTokens [] [] parts n a = a
  split_from-AllTokens [] (x ∷ current) parts n a = AllTokens-append parts (x ∷ current) a refl n
  split_from-AllTokens (c ∷ s) [] parts n a = elim (Bool-cases (c == sep)) [
    | inl e ↦ rw e (split_from-AllTokens s [] parts tt a)
    | inr e ↦ rw e (split_from-AllTokens s (c ∷ []) parts (e, tt) a)
  ]
  split_from-AllTokens (c ∷ s) (x ∷ current) parts n a = elim (Bool-cases (c == sep)) [
    | inl e ↦ rw e (
        split_from-AllTokens s [] (parts ++ ((x ∷ current) ∷ [])) tt
          (AllTokens-append parts (x ∷ current) a refl n))
    | inr e ↦ rw e (
        split_from-AllTokens s (x ∷ current ++ (c ∷ [])) parts
          (NoSeparator-append (x ∷ current) c n e) a)
  ]

  -- Reading a run of other characters adds them to the part being read.
  split_from-run :
      (p s current : Text) (parts : List Text)
      → NoSeparator sep p
      → split_from sep (p ++ s) current parts ≡ split_from sep s (current ++ p) parts
  unfolding split_from
  split_from-run [] s current parts n = rw append-nil
  split_from-run (c ∷ p) s current parts n = rw n.0 (
      split_from-run p s (current ++ (c ∷ [])) parts n.1
      ∙ ap (λ x. split_from sep s x parts) (append_assoc current (c ∷ []) p))

  -- The parts one after the other, each followed by `sep`.
  unfoldable pub join : List Text → Text
  join [] = []
  join (p ∷ ps) = p ++ (sep ∷ join ps)

  split_from-join :
      (ps parts : List Text) → AllTokens sep ps → split_from sep (join ps) [] parts ≡ parts ++ ps
  unfolding split_from join
  split_from-join [] parts a = sym (append-nil parts)
  split_from-join (p ∷ ps) parts a =
      split_from-run p (sep ∷ join ps) [] parts a.1
      ∙ rw ((==_iff sep sep).1 refl, a.0)
          (split_from-join ps (parts ++ (p ∷ [])) a.2 ∙ append_assoc parts (p ∷ []) ps)

  -- `split` drops the separators and nothing else: the parts, one after the other, are the text
  -- without them, and each part is not empty and has no separator.
  pub split-flatten :
      (s : Text) → (flatten (split s sep) ≡ without sep s) × AllTokens sep (split s sep)
  unfolding split flatten
  split-flatten s = (split_from-flatten s [] [], split_from-AllTokens s [] [] tt tt)

  -- A last part that no separator follows.
  split_from-open :
      (ps parts : List Text) (p : Text)
      → AllTokens sep ps
      → is_empty p ≡ false
      → NoSeparator sep p
      → split_from sep (join ps ++ p) [] parts ≡ (parts ++ ps) ++ (p ∷ [])
  unfolding split_from join
  split_from-open [] parts p a e n =
      ap (λ x. split_from sep x [] parts) (sym (append-nil p))
      ∙ split_from-run p [] [] parts n
      ∙ rw e (ap (λ (l : List Text). l ++ (p ∷ [])) (sym (append-nil parts)))
  split_from-open (q ∷ ps) parts p a e n =
      ap (λ x. split_from sep x [] parts) (append_assoc q (sep ∷ join ps) p)
      ∙ split_from-run q (sep ∷ (join ps ++ p)) [] parts a.1
      ∙ rw ((==_iff sep sep).1 refl, a.0)
          (split_from-open ps (parts ++ (q ∷ [])) p a.2 e n
            ∙ ap (λ (l : List Text). l ++ (p ∷ [])) (append_assoc parts (q ∷ []) ps))

  -- `split` finds the parts of a text that was put together from parts which are not empty and
  -- have no separator, each followed by one separator, except for the last part `p`, which may be
  -- followed by one or by the end of the text; `split_append` appends them to the container.
  pub split-join :
      (ps container : List Text) (p : Text)
      → AllTokens sep ps
      → is_empty p ≡ false
      → NoSeparator sep p
      → (split (join (ps ++ (p ∷ []))) sep ≡ ps ++ (p ∷ []))
        × (split (join ps ++ p) sep ≡ ps ++ (p ∷ []))
        × (split_append (join (ps ++ (p ∷ []))) container sep ≡ container ++ (ps ++ (p ∷ [])))
        × (split_append (join ps ++ p) container sep ≡ container ++ (ps ++ (p ∷ [])))
  unfolding split split_append
  split-join ps container p a e n =
      let all = AllTokens-append ps p a e n in
      (
        split_from-join (ps ++ (p ∷ [])) [] all,
        split_from-open ps [] p a e n,
        split_from-join (ps ++ (p ∷ [])) container all,
        split_from-open ps container p a e n ∙ append_assoc container ps (p ∷ []),
      )
