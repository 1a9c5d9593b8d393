-- ===== src/KernelHeap/Ring.antt =====
-- kernel/src/kalloc.cpp: chunks that are linked both ways, as the list of their addresses.
use thor_os.Prelude.{ℕ, ◌≡◌, ◌≢◌, sym, subst, ◌∙◌, List, [], ◌∷◌, ◌++◌}
use thor_os.KernelHeap.{Chunk}
use thor_os.KernelHeap.Lists.{All, NotIn, Distinct, All-split, NotIn-both}

-- From `x` over the chunks `l` to `y`.
abbrev pub Linked : (ℕ → Chunk) → ℕ → List ℕ → ℕ → Type 0
Linked f x [] y = ((f x).next ≡ y) × ((f y).prev ≡ x)
Linked f x (a ∷ l) y = ((f x).next ≡ a) × ((f a).prev ≡ x) × Linked f a l y

abbrev pub SameNext : (ℕ → Chunk) → (ℕ → Chunk) → ℕ → Type 0
SameNext f g a = (g a).next ≡ (f a).next

abbrev pub SamePrev : (ℕ → Chunk) → (ℕ → Chunk) → ℕ → Type 0
SamePrev f g a = (g a).prev ≡ (f a).prev

pub Linked-frame :
    (f g : ℕ → Chunk) (x : ℕ) (l : List ℕ) (y : ℕ)
    → Linked f x l y
    → All (SameNext f g) (x ∷ l)
    → All (SamePrev f g) l
    → SamePrev f g y
    → Linked g x l y
Linked-frame f g x [] y k n p e = (n.0 ∙ k.0, e ∙ k.1)
Linked-frame f g x (a ∷ l) y k n p e = (n.0 ∙ k.0, p.0 ∙ k.1, Linked-frame f g a l y k.2 n.1 p.1 e)

-- `g` is `f` with chunk `c` taken out: its neighbours are linked to each other.
pub record Unlinked (f g : ℕ → Chunk) (c : ℕ) : Type 0 where
  pub over : (g (f c).prev).next ≡ (f c).next
  pub back : (g (f c).next).prev ≡ (f c).prev
  pub nexts : (a : ℕ) → a ≢ (f c).prev → a ≢ c → SameNext f g a
  pub prevs : (a : ℕ) → a ≢ (f c).next → a ≢ c → SamePrev f g a

-- `g` is `f` with chunk `c` put in after chunk `x`.
pub record PutIn (f g : ℕ → Chunk) (x c : ℕ) : Type 0 where
  pub to : (g x).next ≡ c
  pub to_back : (g c).prev ≡ x
  pub on : (g c).next ≡ (f x).next
  pub on_back : (g (f x).next).prev ≡ c
  pub nexts : (a : ℕ) → a ≢ x → a ≢ c → SameNext f g a
  pub prevs : (a : ℕ) → a ≢ (f x).next → a ≢ c → SamePrev f g a

-- After chunk `x`, at the front of the chunks `l`.
pub Linked-put :
    (f g : ℕ → Chunk) (x c : ℕ) (l : List ℕ) (y : ℕ)
    → PutIn f g x c
    → Linked f x l y
    → NotIn c (x ∷ l)
    → NotIn x l
    → y ≢ c
    → Distinct l
    → NotIn y l
    → Linked g x (c ∷ l) y
Linked-put f g x c [] y p k new apart other d n =
    (p.to, p.to_back, (p.on ∙ k.0, subst (λ (a : ℕ). (g a).prev ≡ c) k.0 p.on_back))
Linked-put f g x c (a ∷ l) y p k new apart other d n = (
  p.to,
  p.to_back,
  (
    p.on ∙ k.0,
    subst (λ (a : ℕ). (g a).prev ≡ c) k.0 p.on_back,
    Linked-frame f g a l y k.2 (NotIn-both (SameNext f g) x c p.nexts (a ∷ l) apart new.1)
        (NotIn-both (SamePrev f g) a c (λ b u v. p.prevs b (λ e. u (e ∙ k.0)) v) l d.0 new.1.1)
        (p.prevs y (λ e. n.0 (sym (e ∙ k.0))) other),
  ),
)

-- The front chunk `c` taken out of the chunks after `x`.
unlinked_front :
    (f g : ℕ → Chunk) (x c : ℕ) (l : List ℕ) (y : ℕ)
    → Unlinked f g c
    → (f c).prev ≡ x
    → Linked f c l y
    → NotIn c l
    → NotIn x l
    → y ≢ c
    → Distinct l
    → NotIn y l
    → Linked g x l y
unlinked_front f g x c [] y p e k new apart other d n = (
  subst (λ (a : ℕ). (g a).next ≡ y) e (p.over ∙ k.0),
  subst (λ (a : ℕ). (g a).prev ≡ x) k.0 (p.back ∙ e),
)
unlinked_front f g x c (a ∷ l) y p e k new apart other d n = (
  subst (λ (b : ℕ). (g b).next ≡ a) e (p.over ∙ k.0),
  subst (λ (b : ℕ). (g b).prev ≡ x) k.0 (p.back ∙ e),
  Linked-frame f g a l y k.2
      (NotIn-both (SameNext f g) x c (λ b u v. p.nexts b (λ q. u (q ∙ e)) v) (a ∷ l) apart new)
      (NotIn-both (SamePrev f g) a c (λ b u v. p.prevs b (λ q. u (q ∙ k.0)) v) l d.0 new.1)
      (p.prevs y (λ q. n.0 (sym (q ∙ k.0))) other),
)

-- The neighbours of chunk `c` are among the chunks before it and after it.
pub prev_apart :
    (f : ℕ → Chunk) (x a c : ℕ) (l m : List ℕ) (y : ℕ)
    → Linked f a (l ++ (c ∷ m)) y
    → NotIn x (a ∷ l)
    → x ≢ (f c).prev
prev_apart f x a c [] m y k n = λ e. n.0 (sym (e ∙ k.1))
prev_apart f x a c (b ∷ l) m y k n = prev_apart f x b c l m y k.2 n.1

pub next_apart :
    (f : ℕ → Chunk) (x a c : ℕ) (l m : List ℕ) (y : ℕ)
    → Linked f a (l ++ (c ∷ m)) y
    → NotIn x m
    → y ≢ x
    → x ≢ (f c).next
next_apart f x a c [] [] y k n h = λ e. h (sym (e ∙ k.2.0))
next_apart f x a c [] (b ∷ m) y k n h = λ e. n.0 (sym (e ∙ k.2.0))
next_apart f x a c (b ∷ l) m y k n h = next_apart f x b c l m y k.2 n h

-- A chunk taken out, wherever it stands.
pub Linked-unlink :
    (f g : ℕ → Chunk) (x c : ℕ) (l m : List ℕ) (y : ℕ)
    → Unlinked f g c
    → Linked f x (l ++ (c ∷ m)) y
    → Distinct (l ++ (c ∷ m))
    → NotIn x (l ++ (c ∷ m))
    → NotIn y (l ++ (c ∷ m))
    → Linked g x (l ++ m) y
Linked-unlink f g x c [] m y p k d n n' =
    unlinked_front f g x c m y p k.1 k.2 d.0 n.1 (λ e. n'.0 (sym e)) d.1 n'.1
Linked-unlink f g x c (a ∷ l) m y p k d n n' =
    let before = All-split (λ b. b ≢ x) (a ∷ l) (c ∷ m) n in
    let after = All-split (λ b. b ≢ a) l (c ∷ m) d.0 in
    (
      p.nexts x (prev_apart f x a c l m y k.2 before.0) (λ e. before.1.0 (sym e)) ∙ k.0,
      p.prevs a (next_apart f a a c l m y k.2 after.1.1 (λ e. n'.0 (sym e)))
            (λ e. after.1.0 (sym e))
          ∙ k.1,
      Linked-unlink f g a c l m y p k.2 d.1 d.0 n'.1,
    )

-- A chunk put in after chunk `c`, wherever that stands.
pub Linked-put_middle :
    (f g : ℕ → Chunk) (x c d : ℕ) (l m : List ℕ) (y : ℕ)
    → PutIn f g c d
    → Linked f x (l ++ (c ∷ m)) y
    → Distinct (l ++ (c ∷ m))
    → NotIn x (l ++ (c ∷ m))
    → NotIn y (l ++ (c ∷ m))
    → x ≢ d
    → y ≢ d
    → NotIn d (l ++ (c ∷ m))
    → Linked g x (l ++ (c ∷ d ∷ m)) y
Linked-put_middle f g x c d [] m y p k dis n n' new new' apart = (
  p.nexts x (λ e. n.0 (sym e)) new ∙ k.0,
  p.prevs c (front m k.2 dis.0 (λ e. n'.0 (sym e))) apart.0 ∙ k.1,
  Linked-put f g c d m y p k.2 apart dis.0 new' dis.1 n'.1,
)
  where
    front : (l : List ℕ) → Linked f c l y → NotIn c l → y ≢ c → c ≢ (f c).next
    front [] q r t = λ e. t (sym (e ∙ q.0))
    front (a ∷ l) q r t = λ e. r.0 (sym (e ∙ q.0))
Linked-put_middle f g x c d (a ∷ l) m y p k dis n n' new new' apart =
    let before = All-split (λ b. b ≢ x) l (c ∷ m) n.1 in
    let after = All-split (λ b. b ≢ a) l (c ∷ m) dis.0 in
    (
      p.nexts x (λ e. before.1.0 (sym e)) new ∙ k.0,
      p.prevs a (next_apart f a a c l m y k.2 after.1.1 (λ e. n'.0 (sym e))) apart.0 ∙ k.1,
      Linked-put_middle f g a c d l m y p k.2 dis.1 dis.0 n'.1 apart.0 new' apart.1,
    )

pub Linked-same :
    (f g : ℕ → Chunk) (x : ℕ) (l : List ℕ) (y : ℕ)
    → ((a : ℕ) → SameNext f g a)
    → ((a : ℕ) → SamePrev f g a)
    → Linked f x l y
    → Linked g x l y
Linked-same f g x [] y n p k = (n x ∙ k.0, p y ∙ k.1)
Linked-same f g x (a ∷ l) y n p k = (n x ∙ k.0, p a ∙ k.1, Linked-same f g a l y n p k.2)

pub next_other :
    (f : ℕ → Chunk) (x c : ℕ) (l : List ℕ) (y : ℕ)
    → Linked f x l y
    → NotIn c l
    → y ≢ c
    → (f x).next ≢ c
next_other f x c [] y k n h = λ e. h (sym k.0 ∙ e)
next_other f x c (a ∷ l) y k n h = λ e. n.0 (sym k.0 ∙ e)
