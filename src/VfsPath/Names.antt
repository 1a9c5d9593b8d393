-- ===== src/VfsPath/Names.antt =====
-- kernel/src/path.cpp: the names of a path, one by one, and the paths made from others.
use thor_os.Prelude.{
  ℕ, zero, suc, ◌+◌, ◌-◌, ◌%◌, ◌^◌, ◌<◌, ◌≡◌, refl, sym, ap, ◌∙◌, arith, true, false, Option, some,
  List, [], ◌∷◌, ◌++◌, append_assoc, ◌==◌, if◌then◌else◌, if_false, if_true, Bool-cases, elim-if,
  subst, inl, inr, ◌>>=◌, length, length-append, get_elem?, take, drop, take-append, drop-append,
}
use thor_os.Text.{Text, is_empty}
use thor_os.Text.Split.{AllTokens, NoSeparator, join}
use thor_os.VfsPath.{
  VfsPath, empty, is_root, is_relative, slash, sub64, slashes, update_positions, starts_with_slash,
  is_absolute, view, middle_name, name, size, is_sub_root, branch_path, path, append, empty_path,
}
use thor_os.VfsPath.Canonical.{names, lead, add_char, add_char-cons, update_positions-canonical}

-- The positions of the slashes behind the names, the first of which starts at `k`.
ends_of : List Text → ℕ → List ℕ
ends_of [] k = []
ends_of (p ∷ ps) k = (k + length p) ∷ ends_of ps (k + length p + 1)

slashes-run :
    (p s : Text) (k : ℕ) → NoSeparator slash p → slashes (p ++ s) k ≡ slashes s (k + length p)
unfolding slashes
slashes-run [] s k n = ap (λ (i : ℕ). slashes s i) (omega arith)
slashes-run (c ∷ p) s k n =
    if_false _ _ n.0 ∙ slashes-run p s (k + 1) n.1 ∙ ap (λ (i : ℕ). slashes s i) (omega arith)

slashes-join :
    (ps : List Text) (k : ℕ)
    → AllTokens slash ps
    → k + length (join slash ps) < 2 ^ 16
    → slashes (join slash ps) k ≡ ends_of ps k
unfolding slashes ends_of join
slashes-join [] k a short = refl
slashes-join (p ∷ ps) k a short =
    let total = length-append p (slash ∷ join slash ps) in
    slashes-run p (slash ∷ join slash ps) k a.1
    ∙ ap (λ (i : ℕ). i ∷ slashes (join slash ps) (k + length p + 1))
        (small_mod (k + length p) (omega (arith, total)))
    ∙ ap (λ (l : List ℕ). (k + length p) ∷ l)
        (slashes-join ps (k + length p + 1) a.2 (omega (arith, total)))
  where
    small_mod : (n : ℕ) → n < 2 ^ 16 → n % 2 ^ 16 ≡ n
    small_mod n h = omega arith

-- Where the name stands between two neighbouring positions.
record Between (b : Text) (positions : List ℕ) (j : ℕ) (n : Text) : Type 0 where
  before : ℕ
  here : ℕ
  at_before : get_elem? positions j ≡ some before
  at_here : get_elem? positions (suc j) ≡ some here
  distance : here ≡ before + 1 + length n
  small : here < 2 ^ 16
  found : view b (before + 1) (length n) ≡ n

between :
    (ps : List Text) (pre : Text) (b j : ℕ) (n : Text)
    → length pre ≡ b + 1
    → length pre + length (join slash ps) < 2 ^ 16
    → get_elem? ps j ≡ some n
    → Between (pre ++ join slash ps) (b ∷ ends_of ps (b + 1)) j n
unfolding ends_of join
between [] pre b j n size short h = absurd (cc)
between (p ∷ ps) pre b zero n size short h =
    let e : p ≡ n = cc in
    rw (← e) (record {
      before = b;
      here = b + 1 + length p;
      at_before = refl;
      at_here = refl;
      distance = refl;
      small = omega (arith, length-append p (slash ∷ join slash ps));
      found =
          ap (λ (k : ℕ). take (length p) (drop k (pre ++ (p ++ (slash ∷ join slash ps)))))
            (sym size)
          ∙ ap (λ (l : Text). take (length p) l) (drop-append pre (p ++ (slash ∷ join slash ps)))
          ∙ take-append p (slash ∷ join slash ps);
    })
between (p ∷ ps) pre b (suc j) n size short h =
    let pre' = pre ++ (p ++ (slash ∷ [])) in
    let grown : length pre' ≡ b + 1 + length p + 1 =
      omega (arith, length-append pre (p ++ (slash ∷ [])), length-append p (slash ∷ [])) in
    let same : pre' ++ join slash ps ≡ pre ++ (p ++ (slash ∷ join slash ps)) =
      append_assoc pre (p ++ (slash ∷ [])) (join slash ps)
      ∙ ap (λ (l : Text). pre ++ l) (append_assoc p (slash ∷ []) (join slash ps)) in
    let m =
      between ps pre' (b + 1 + length p) j n grown
        (omega (arith, grown, length-append p (slash ∷ join slash ps))) h in
    record {
      before = m.before;
      here = m.here;
      at_before = m.at_before;
      at_here = m.at_here;
      distance = m.distance;
      small = m.small;
      found = ap (λ (l : Text). view l (m.before + 1) (length n)) (sym same) ∙ m.found;
    }

middle_name-Between :
    (b : Text) (positions : List ℕ) (j : ℕ) (n : Text)
    → Between b positions j n
    → middle_name (record { base = b; positions = positions }) (suc j) ≡ some n
unfolding middle_name
middle_name-Between b positions j n m =
    let first : get_elem? positions (suc j - 1) ≡ some m.before =
      ap (λ (k : ℕ). get_elem? positions k) (omega arith) ∙ m.at_before in
    let count : sub64 (sub64 m.here 1) m.before ≡ length n = omega (arith, m.distance, m.small) in
    ap
      (λ (o : Option ℕ). do
        before ← o
        here ← get_elem? positions (suc j)
        some (view b (before + 1) (sub64 (sub64 here 1) before)))
      first
    ∙ ap
        (λ (o : Option ℕ). do
          here ← o
          some (view b (m.before + 1) (sub64 (sub64 here 1) m.before)))
        m.at_here
    ∙ ap (λ (k : ℕ). some (view b (m.before + 1) k)) count
    ∙ ap some m.found

add_char-AllTokens :
    (c : ℕ) (cs : Text) (ps : List Text)
    → (c == slash) ≡ false
    → AllTokens slash ps
    → AllTokens slash (add_char c cs ps)
unfolding add_char
add_char-AllTokens c [] ps e a = (refl, (e, tt), a)
add_char-AllTokens c (d ∷ cs) [] e a = (refl, (e, tt), tt)
add_char-AllTokens c (d ∷ cs) (p ∷ ps) e a =
    elim-if (λ (l : List Text). AllTokens slash l) (d == slash) (λ f. (refl, (e, tt), a))
      (λ f. (refl, (e, a.1), a.2))

names-AllTokens : (s : Text) → AllTokens slash (names s)
unfolding names
names-AllTokens [] = tt
names-AllTokens (c ∷ cs) =
    elim-if (λ (l : List Text). AllTokens slash l) (c == slash) (λ f. names-AllTokens cs)
      (λ f. add_char-AllTokens c cs (names cs) f (names-AllTokens cs))

-- A path whose base is the given text.
of_base : Text → VfsPath
of_base b = record { base = b; positions = slashes b 0 }

not_zero : (j : ℕ) → (suc j == 0) ≡ false
not_zero j = ground arith

name_absolute :
    (ns : List Text) (j : ℕ) (n : Text)
    → AllTokens slash ns
    → length (slash ∷ join slash ns) < 2 ^ 16
    → get_elem? ns j ≡ some n
    → name (of_base (slash ∷ join slash ns)) (suc j) ≡ some n
unfolding name is_absolute of_base slashes
name_absolute ns j n a short h =
    let at : slashes (join slash ns) 1 ≡ ends_of ns 1 =
      slashes-join ns 1 a (omega (arith, short)) in
    if_false _ _ (not_zero j)
    ∙ ap
        (λ (l : List ℕ).
          middle_name (record { base = slash ∷ join slash ns; positions = 0 ∷ l }) (suc j))
        at
    ∙ middle_name-Between (slash ∷ join slash ns) (0 ∷ ends_of ns 1) j n
        (between ns (slash ∷ []) 0 j n refl (omega (arith, short)) h)

starts-token :
    (p r : Text) → is_empty p ≡ false → NoSeparator slash p → starts_with_slash (p ++ r) ≡ false
starts-token [] r e n = absurd (cc)
starts-token (c ∷ p) r e n = n.0

slashes_start :
    (p : Text) (ps : List Text)
    → AllTokens slash (p ∷ ps)
    → length (join slash (p ∷ ps)) < 2 ^ 16
    → slashes (join slash (p ∷ ps)) 0 ≡ length p ∷ ends_of ps (length p + 1)
unfolding ends_of
slashes_start p ps a short =
    slashes-join (p ∷ ps) 0 a (omega (arith, short))
    ∙ ap (λ (k : ℕ). k ∷ ends_of ps (k + 1)) (omega arith)

name_relative :
    (ns : List Text) (j : ℕ) (n : Text)
    → AllTokens slash ns
    → length (join slash ns) < 2 ^ 16
    → get_elem? ns j ≡ some n
    → name (of_base (join slash ns)) j ≡ some n
unfolding name is_absolute of_base ends_of join
name_relative [] j n a short h = absurd (cc)
name_relative (p ∷ ps) zero n a short h =
    let at = slashes_start p ps a short in
    let b = p ++ (slash ∷ join slash ps) in
    if_false _ _ (starts-token p (slash ∷ join slash ps) a.0 a.1)
    ∙ ap (λ (l : List ℕ). do here ← get_elem? l 0; some (view b 0 here)) at
    ∙ ap some (take-append p (slash ∷ join slash ps))
    ∙ h
name_relative (p ∷ ps) (suc j) n a short h =
    let at = slashes_start p ps a short in
    let b = p ++ (slash ∷ join slash ps) in
    let pre = p ++ (slash ∷ []) in
    let same : pre ++ join slash ps ≡ b = append_assoc p (slash ∷ []) (join slash ps) in
    let size : length pre ≡ length p + 1 = length-append p (slash ∷ []) in
    let total = length-append p (slash ∷ join slash ps) in
    if_false _ _ (starts-token p (slash ∷ join slash ps) a.0 a.1)
    ∙ if_false _ _ (not_zero j)
    ∙ ap (λ (l : List ℕ). middle_name (record { base = b; positions = l }) (suc j)) at
    ∙ ap
        (λ (t : Text).
          middle_name (record { base = t; positions = length p ∷ ends_of ps (length p + 1) })
            (suc j))
        (sym same)
    ∙ middle_name-Between (pre ++ join slash ps) (length p ∷ ends_of ps (length p + 1)) j n
        (between ps pre (length p) j n size (omega (arith, size, total, short)) h)

update_positions-of_base :
    (s : Text) → is_empty s ≡ false → update_positions s ≡ of_base (lead s ++ join slash (names s))
unfolding of_base update_positions
update_positions-of_base [] h = absurd (cc)
update_positions-of_base (c ∷ cs) h = ap of_base (update_positions-canonical (c ∷ cs) h)

name-run :
    (s : Text) (j : ℕ) (n : Text)
    → is_empty s ≡ false
    → length (update_positions s).base < 2 ^ 16
    → get_elem? (names s) j ≡ some n
    → name (update_positions s) (if starts_with_slash s then suc j else j) ≡ some n
name-run s j n filled short h =
    let a = names-AllTokens s in
    let same = update_positions-of_base s filled in
    let short' : length (lead s ++ join slash (names s)) < 2 ^ 16 =
      subst (λ (t : Text). length t < 2 ^ 16) (update_positions-canonical s filled) short in
    ap (λ (p : VfsPath). name p (if starts_with_slash s then suc j else j)) same ∙ split a short'
  where
    split :
        AllTokens slash (names s)
        → length (lead s ++ join slash (names s)) < 2 ^ 16
        → name (of_base (lead s ++ join slash (names s))) (if starts_with_slash s then suc j else j)
          ≡ some n
    split a short' = elim (Bool-cases (starts_with_slash s)) [
      | inl e ↦ rw e (name_absolute (names s) j n a (rw e at short') h)
      | inr e ↦ rw e (name_relative (names s) j n a (rw e at short') h)
    ]

name-root :
    (s : Text)
    → is_empty s ≡ false
    → starts_with_slash s ≡ true
    → name (update_positions s) 0 ≡ some (slash ∷ [])
unfolding name is_absolute of_base
name-root s filled rooted =
    ap (λ (p : VfsPath). name p 0)
      (update_positions-of_base s filled
        ∙ ap (λ (t : Text). of_base (t ++ join slash (names s))) (if_true _ _ rooted))

name-first :
    (s : Text)
    → is_empty s ≡ false
    → length (update_positions s).base < 2 ^ 16
    → name (update_positions s) 0
      ≡ (if starts_with_slash s then some (slash ∷ []) else get_elem? (names s) 0)
unfolding names
name-first [] filled short = absurd (cc)
name-first (c ∷ cs) filled short = elim (Bool-cases (c == slash)) [
  | inl e ↦ name-root (c ∷ cs) filled e ∙ sym (if_true _ _ e)
  | inr e ↦
      let (q, qs, same) = add_char-cons c cs (names cs) in
      let first : get_elem? (names (c ∷ cs)) 0 ≡ some q =
        ap (λ (l : List Text). get_elem? l 0) (if_false _ _ e ∙ same) in
      let found = name-run (c ∷ cs) 0 q filled short first in
      ap (λ (i : ℕ). name (update_positions (c ∷ cs)) i) (sym (if_false _ _ e))
      ∙ found
      ∙ sym first
      ∙ sym (if_false _ _ e)
]

-- The names of a path are the runs of characters between the slashes of the text it was made
-- from, in order: run number j is `name(j + 1)` of an absolute path, whose `name(0)` is the root
-- slash, and `name(j)` of a relative one. The text is not empty, and the kept base is shorter than the 2^16 characters that a
-- position can count.
pub name-names :
    (s : Text) (j : ℕ) (n : Text)
    → is_empty s ≡ false
    → length (update_positions s).base < 2 ^ 16
    → get_elem? (names s) j ≡ some n
    → (name (update_positions s) (if starts_with_slash s then suc j else j) ≡ some n)
      × (name (update_positions s) 0
          ≡ (if starts_with_slash s then some (slash ∷ []) else get_elem? (names s) 0))
name-names s j n filled short h = (name-run s j n filled short h, name-first s filled short)

names-token :
    (c : ℕ) (p r : Text)
    → NoSeparator slash (c ∷ p)
    → names ((c ∷ p) ++ (slash ∷ r)) ≡ (c ∷ p) ∷ names r
unfolding names add_char
names-token c [] r n = if_false _ _ n.0 ∙ alone (names r)
  where
    alone : (ns : List Text) → add_char c (slash ∷ r) ns ≡ (c ∷ []) ∷ ns
    alone [] = refl
    alone (q ∷ qs) = refl
names-token c (d ∷ p) r n =
    if_false _ _ n.0
    ∙ ap (λ (ns : List Text). add_char c (d ∷ p ++ (slash ∷ r)) ns) (names-token d p r n.1)
    ∙ longer
  where
    longer : add_char c (d ∷ p ++ (slash ∷ r)) ((d ∷ p) ∷ names r) ≡ (c ∷ d ∷ p) ∷ names r
    longer = if_false _ _ n.1.0

names-join :
    (ns : List Text) (r : Text) → AllTokens slash ns → names (join slash ns ++ r) ≡ ns ++ names r
unfolding join
names-join [] r a = refl
names-join ([] ∷ ns) r a = absurd (let e : true ≡ false = a.0 in ground arith)
names-join ((c ∷ p) ∷ ns) r a =
    ap names (append_assoc (c ∷ p) (slash ∷ join slash ns) r)
    ∙ names-token c p (join slash ns ++ r) a.1
    ∙ ap (λ (l : List Text). (c ∷ p) ∷ l) (names-join ns r a.2)

-- What a path that was made from a text is extended by: its base and the other text.
extended_tokens :
    (q : Text) (qs : List Text) (r : Text)
    → AllTokens slash (q ∷ qs)
    → let b = join slash (q ∷ qs) ++ r in
      (is_empty b ≡ false) × (lead b ≡ []) × (names b ≡ (q ∷ qs) ++ names r)
unfolding join
extended_tokens [] qs r a = absurd (let e : true ≡ false = a.0 in ground arith)
extended_tokens (c ∷ p) qs r a =
    let joined : names (join slash ((c ∷ p) ∷ qs) ++ r) ≡ ((c ∷ p) ∷ qs) ++ names r =
      names-join ((c ∷ p) ∷ qs) r a in
    (refl, if_false _ _ a.1.0, joined)

extended :
    (s r : Text)
    → is_empty s ≡ false
    → let b = (lead s ++ join slash (names s)) ++ r in
      (is_empty b ≡ false) × (lead b ≡ lead s) × (names b ≡ names s ++ names r)
unfolding names
extended [] r h = absurd (cc)
extended (c ∷ cs) r h = elim (Bool-cases (c == slash)) [
  | inl e ↦ rw e (refl, refl, names-join (names cs) r (names-AllTokens cs))
  | inr e ↦
      let a = add_char-AllTokens c cs (names cs) e (names-AllTokens cs) in
      let (q, qs, same) = add_char-cons c cs (names cs) in
      rw (e, same) (extended_tokens q qs r (subst (λ (l : List Text). AllTokens slash l) same a))
]

-- A path extended by a relative text has the names of the two texts, one after the other, and
-- starts with a slash if the first does. The first text is not empty.
pub append-names :
    (s r : Text)
    → is_empty s ≡ false
    → starts_with_slash r ≡ false
    → (p : VfsPath) × (append (update_positions s) r ≡ some p)
      × (p.base ≡ lead s ++ join slash (names s ++ names r))
unfolding append
append-names s r filled relative =
    let b = (lead s ++ join slash (names s)) ++ r in
    let (nonempty, same_lead, same_names) = extended s r filled in
    (
      update_positions b,
      if_false _ _ relative
          ∙ ap (λ (t : Text). some (update_positions (t ++ r)))
              (update_positions-canonical s filled),
      update_positions-canonical b nonempty
          ∙ ap (λ (t : Text). t ++ join slash (names b)) same_lead
          ∙ ap (λ (ns : List Text). lead s ++ join slash ns) same_names,
    )

two_slashes :
    (c : ℕ) (n : Text)
    → NoSeparator slash (c ∷ n)
    → length (c ∷ n) < 2 ^ 16 - 2
    → let t = slash ∷ (c ∷ n) ++ (slash ∷ []) in
      update_positions t ≡ record { base = t; positions = 0 ∷ (length n + 2) ∷ [] }
unfolding of_base slashes ends_of names join
two_slashes c n a short =
    let t = slash ∷ (c ∷ n) ++ (slash ∷ []) in
    let one_name : names t ≡ (c ∷ n) ∷ [] = names-token c n [] a in
    let at : slashes ((c ∷ n) ++ (slash ∷ [])) 1 ≡ (1 + suc (length n)) ∷ [] =
      slashes-join ((c ∷ n) ∷ []) 1 (refl, a, tt)
        (omega (arith, short, length-append (c ∷ n) (slash ∷ []))) in
    update_positions-of_base t refl
    ∙ ap (λ (ns : List Text). of_base (slash ∷ join slash ns)) one_name
    ∙ ap (λ (l : List ℕ). record { base = t; positions = 0 ∷ l }) at
    ∙ ap (λ (k : ℕ). record { base = t; positions = 0 ∷ k ∷ [] }) (omega arith)

-- `branch_path` of an absolute path with one name is the empty path, not the root: the text that
-- is cut off at the root slash has no character. The name is not empty, has no slash, and leaves
-- room for two slashes in 2^16 characters.
pub branch_path_of_sub_root :
    (c : ℕ) (n : Text)
    → NoSeparator slash (c ∷ n)
    → length (c ∷ n) < 2 ^ 16 - 2
    → (p : VfsPath) × (path (slash ∷ (c ∷ n) ++ (slash ∷ [])) ≡ some p)
      × (is_sub_root p ≡ true)
      × (branch_path p ≡ some empty_path)
unfolding branch_path path is_sub_root size is_absolute is_root is_relative empty update_positions
branch_path_of_sub_root c n a short = (
  record { base = slash ∷ (c ∷ n) ++ (slash ∷ []); positions = 0 ∷ (length n + 2) ∷ [] },
  ap some (two_slashes c n a short),
  refl,
  refl,
)
