-- ===== src/KernelHeap/Lists.antt =====
-- Properties of all elements of a list of addresses, and lists without repetition.
use thor_os.Prelude.{ℕ, ◌≢◌, sym, List, [], ◌∷◌, ◌++◌}

abbrev pub All : (ℕ → Type 0) → List ℕ → Type 0
All P [] = Unit {0}
All P (a ∷ l) = P a × All P l

abbrev pub NotIn : ℕ → List ℕ → Type 0
NotIn x l = All (λ a. a ≢ x) l

abbrev pub Distinct : List ℕ → Type 0
Distinct [] = Unit {0}
Distinct (a ∷ l) = NotIn a l × Distinct l

pub All-split : (P : ℕ → Type 0) (l m : List ℕ) → All P (l ++ m) → All P l × All P m
All-split P [] m p = (tt, p)
All-split P (a ∷ l) m p = let r = All-split P l m p.1 in ((p.0, r.0), r.1)

pub NotIn-both :
    (P : ℕ → Type 0) (x y : ℕ)
    → ((a : ℕ) → a ≢ x → a ≢ y → P a)
    → (l : List ℕ) → NotIn x l
    → NotIn y l
    → All P l
NotIn-both P x y h [] p q = tt
NotIn-both P x y h (a ∷ l) p q = (h a p.0 q.0, NotIn-both P x y h l p.1 q.1)

-- A list without the element `c` in its middle.
pub All-without :
    (P : ℕ → Type 0) (l m : List ℕ) (c : ℕ) → All P (l ++ (c ∷ m)) → P c × All P (l ++ m)
All-without P [] m c p = p
All-without P (a ∷ l) m c p = let r = All-without P l m c p.1 in (r.0, (p.0, r.1))

pub Distinct-without :
    (l m : List ℕ) (c : ℕ) → Distinct (l ++ (c ∷ m)) → NotIn c (l ++ m) × Distinct (l ++ m)
Distinct-without [] m c d = d
Distinct-without (a ∷ l) m c d =
    let here = All-without (λ b. b ≢ a) l m c d.0 in
    let r = Distinct-without l m c d.1 in (((λ e. here.0 (sym e)), r.0), (here.1, r.1))

pub All-put_after :
    (P : ℕ → Type 0) (l m : List ℕ) (c d : ℕ)
    → P d
    → All P (l ++ (c ∷ m))
    → All P (l ++ (c ∷ d ∷ m))
All-put_after P [] m c d h p = (p.0, (h, p.1))
All-put_after P (a ∷ l) m c d h p = (p.0, All-put_after P l m c d h p.1)

pub Distinct-put_after :
    (l m : List ℕ) (c d : ℕ)
    → Distinct (l ++ (c ∷ m))
    → NotIn d (l ++ (c ∷ m))
    → Distinct (l ++ (c ∷ d ∷ m))
Distinct-put_after [] m c d k n = (((λ e. n.0 (sym e)), k.0), (n.1, k.1))
Distinct-put_after (a ∷ l) m c d k n =
    (All-put_after (λ b. b ≢ a) l m c d (λ e. n.0 (sym e)) k.0, Distinct-put_after l m c d k.1 n.1)

pub All-implies : {P Q : ℕ → Type 0} (l : List ℕ) → ((a : ℕ) → P a → Q a) → All P l → All Q l
All-implies [] h p = tt
All-implies (a ∷ l) h p = (h a p.0, All-implies l h p.1)

pub All-both :
    {P Q R : ℕ → Type 0} (l : List ℕ) → ((a : ℕ) → P a → Q a → R a) → All P l → All Q l → All R l
All-both [] h p q = tt
All-both (a ∷ l) h p q = (h a p.0 q.0, All-both l h p.1 q.1)
