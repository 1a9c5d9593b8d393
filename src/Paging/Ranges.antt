-- ===== src/Paging/Ranges.antt =====
-- kernel/src/paging.cpp: `map_pages` and `unmap_pages` over a range of pages of the kernel.
use thor_os.Prelude.{
  ℕ, zero, suc, ◌+◌, ◌-◌, ◌*◌, ◌/◌, ◌%◌, ◌^◌, ◌≤◌, ◌<◌, bit_or, ◌≡◌, refl, sym, ap, ◌∙◌, arith,
  Bool, true, false, not, Option, some, none, ◌==◌, leb, ltb, ◌&&◌, if◌then◌else◌, ◌>>=◌, if_false,
  elim-if,
}
use native.Mathlib.Decide.{dec_lt}
use thor_os.Paging.{
  Paging, is_present, nth_page, page_aligned, page_present, page_free_or_set, range_free_or_set,
  map, map_range, map_pages, unmap, unmap_range, unmap_pages,
}
use thor_os.Paging.Walk.{
  IsLinked, slot, with_slot, with_slot-IsLinked, slot-with_slot, page_aligned-mod,
  page_present-slot,
}
use thor_os.Paging.Map.{map_lem, unmap_lem}

abbrev pub in_range : ℕ → ℕ → ℕ → Bool
in_range first count u = leb first u && ltb u (first + count)

-- Every page of the range has no frame.
abbrev pub IsUnmapped : Paging → ℕ → ℕ → Type 0
IsUnmapped p first count = (u : ℕ) → in_range first count u ≡ true → is_present (slot p u) ≡ false

-- `q` is `p` with the entries of the range as `f` gives them.
pub record Written (first count : ℕ) (f : ℕ → ℕ) (p q : Paging) : Type 0 where
  pub linked : IsLinked q
  pub slots : (u : ℕ) → slot q u ≡ (if in_range first count u then f u else slot p u)

Written-none : {p : Paging} (first : ℕ) (f : ℕ → ℕ) → IsLinked p → Written first 0 f p p
Written-none {p} first f h = record { linked = h; slots = λ u. ground arith }

Written-step :
    {p q : Paging} (first count : ℕ) (f : ℕ → ℕ)
    → Written (first + 1) count f (with_slot p first (f first)) q
    → Written first (suc count) f p q
Written-step {p} {q} first count f w = record { linked = w.linked; slots = same }
  where
    same : (u : ℕ) → slot q u ≡ (if in_range first (suc count) u then f u else slot p u)
    same u = ground (arith, w.slots u, slot-with_slot p first (f first) u)

nth_page-plain : (v page : ℕ) → v < 2 ^ 52 → page < 2 ^ 40 → nth_page v page ≡ v + page * 4096
nth_page-plain v page h l = omega arith

-- The entry that a range from address `v` on gets for page `u`.
abbrev pub target : ℕ → ℕ → ℕ → ℕ → ℕ
target v physical flags u = bit_or (physical + (u - v / 4096) * 4096) flags

module _ (v physical flags : ℕ) (aligned : v % 4096 ≡ 0) (small : physical < 2 ^ 52) where
  map-nth_page :
      {p : Paging} (page first : ℕ)
      → IsLinked p
      → first ≡ v / 4096 + page
      → v + suc page * 4096 ≤ 2 ^ 30
      → is_present (slot p first) ≡ false
      → map p (nth_page v page) (nth_page physical page) flags
        ≡ some (true, with_slot p first ((target v physical flags) first))
  map-nth_page {p} page first h at room free =
      let e : nth_page v page ≡ v + page * 4096 =
        nth_page-plain v page (omega arith) (omega arith) in
      let e' : nth_page physical page ≡ physical + (first - v / 4096) * 4096 =
        nth_page-plain physical page small (omega arith) ∙ omega arith in
      let at' : (v + page * 4096) / 4096 ≡ first = omega arith in
      ap (λ (x : ℕ). map p x (nth_page physical page) flags) e
      ∙ map_lem h (v + page * 4096) (omega arith) (omega arith) (nth_page physical page) flags
      ∙ ap
          (λ (x : ℕ). some (
            if is_present (slot p x)
            then (slot p x == bit_or (nth_page physical page) flags, p)
            else (true, with_slot p x (bit_or (nth_page physical page) flags))))
          at'
      ∙ ap some (if_false _ _ free)
      ∙ ap (λ (x : ℕ). some (true, with_slot p first (bit_or x flags))) e'

  map_range_lem :
      {p : Paging} (rounds page first : ℕ)
      → IsLinked p
      → first ≡ v / 4096 + page
      → v + (page + rounds) * 4096 ≤ 2 ^ 30
      → IsUnmapped p first rounds
      → (q : Paging) × (map_range p v physical flags rounds page ≡ some (true, q))
        × Written first rounds (target v physical flags) p q
  unfolding map_range
  map_range_lem {p} zero page first h at room free =
      (p, refl, Written-none first (target v physical flags) h)
  map_range_lem {p} (suc rounds) page first h at room free =
      let p' : Paging = with_slot p first ((target v physical flags) first) in
      let step : map p (nth_page v page) (nth_page physical page) flags ≡ some (true, p') =
        map-nth_page page first h at (omega arith) (free first (ground arith)) in
      let rest =
        map_range_lem {p = p'} rounds (page + 1) (first + 1)
          (with_slot-IsLinked first ((target v physical flags) first) h) (omega arith) (omega arith)
          (λ u l.
            ap is_present (slot-with_slot p first ((target v physical flags) first) u)
            ∙ later u l) in
      (rest.0, rw step rest.1, Written-step first rounds (target v physical flags) rest.2)
    where
      later :
          (u : ℕ)
          → in_range (first + 1) rounds u ≡ true
          → is_present (if u == first then (target v physical flags) first else slot p u) ≡ false
      later u l =
          ap is_present (if_false {b = u == first} _ _ (ground arith)) ∙ free u (ground arith)

  range_free-unmapped :
      {p : Paging} (rounds page first : ℕ)
      → IsLinked p
      → first ≡ v / 4096 + page
      → v + (page + rounds) * 4096 ≤ 2 ^ 30
      → IsUnmapped p first rounds
      → range_free_or_set p v physical rounds page ≡ true
  unfolding range_free_or_set page_free_or_set
  range_free-unmapped zero page first h at room free = refl
  range_free-unmapped {p} (suc rounds) page first h at room free =
      let e : nth_page v page ≡ v + page * 4096 =
        nth_page-plain v page (omega arith) (omega arith) in
      let at' : (v + page * 4096) / 4096 ≡ first = omega arith in
      let none_there : page_present p (nth_page v page) ≡ false =
        ap (page_present p) e
        ∙ page_present-slot h (v + page * 4096) (omega arith)
        ∙ ap (λ (x : ℕ). is_present (slot p x)) at'
        ∙ free first (ground arith) in
      rw none_there (
        range_free-unmapped rounds (page + 1) (first + 1) h (omega arith) (omega arith)
          (λ u l. free u (ground arith)))

  -- Over pages that have no frame `map_pages` succeeds, gives each its own frame and leaves the
  -- entries of all other pages. The tables must be linked, the address aligned, the range below 1
  -- GiB and the first frame below 2 ^ 52.
  pub map_pages-Written :
      {p : Paging} (n : ℕ)
      → IsLinked p
      → v + n * 4096 ≤ 2 ^ 30
      → IsUnmapped p (v / 4096) n
      → (q : Paging) × (map_pages p v physical n flags ≡ some (true, q))
        × Written (v / 4096) n (target v physical flags) p q
  unfolding map_pages
  map_pages-Written {p} n h room free =
      let r = map_range_lem n 0 (v / 4096) h (omega arith) (omega arith) free in
      let ok : page_aligned v ≡ true = page_aligned-mod v ∙ ground arith in
      let checked : range_free_or_set p v physical n 0 ≡ true =
        range_free-unmapped n 0 (v / 4096) h (omega arith) (omega arith) free in
      (r.0, rw (ok, checked) r.1, r.2)

range_refused :
    (p : Paging) (v physical k rounds page : ℕ)
    → page ≤ k
    → k < page + rounds
    → page_free_or_set p (nth_page v k) (nth_page physical k) ≡ false
    → range_free_or_set p v physical rounds page ≡ false
unfolding range_free_or_set
range_refused p v physical k zero page a b taken = absurd (omega arith)
range_refused p v physical k (suc rounds) page a b taken = elim (dec_lt page k) [
  | no n ↦
      (let e : k ≡ page = omega arith in
        let there : page_free_or_set p (nth_page v page) (nth_page physical page) ≡ false =
          ap (λ (x : ℕ). page_free_or_set p (nth_page v x) (nth_page physical x)) (sym e) ∙ taken in
        rw there refl)
  | yes l ↦
      elim-if (λ (b : Bool). b ≡ false)
        (not (page_free_or_set p (nth_page v page) (nth_page physical page))) (λ h. refl)
        (λ h. range_refused p v physical k rounds (page + 1) (omega arith) (omega arith) taken)
]

module _ (v : ℕ) (aligned : v % 4096 ≡ 0) where
  unmap_range_lem :
      {p : Paging} (rounds page first : ℕ)
      → IsLinked p
      → first ≡ v / 4096 + page
      → v + (page + rounds) * 4096 ≤ 2 ^ 30
      → (q : Paging) × (unmap_range p v rounds page ≡ (true, q)) × Written first rounds (λ u. 0) p q
  unfolding unmap_range
  unmap_range_lem {p} zero page first h at room = (p, refl, Written-none first (λ u. 0) h)
  unmap_range_lem {p} (suc rounds) page first h at room =
      let p' : Paging = with_slot p first 0 in
      let e : nth_page v page ≡ v + page * 4096 =
        nth_page-plain v page (omega arith) (omega arith) in
      let at' : (v + page * 4096) / 4096 ≡ first = omega arith in
      let step : unmap p (nth_page v page) ≡ (true, p') =
        ap (unmap p) e
        ∙ unmap_lem h (v + page * 4096) (omega arith) (omega arith)
        ∙ ap (λ (x : ℕ). (true, with_slot p x 0)) at' in
      let rest =
        unmap_range_lem {p = p'} rounds (page + 1) (first + 1) (with_slot-IsLinked first 0 h)
          (omega arith) (omega arith) in
      (
        rest.0,
        ap
              (λ (r : Bool × Paging). elim r.0 [
                | false ↦ (false, r.1)
                | true ↦ unmap_range r.1 v rounds (page + 1)
              ])
              step
            ∙ rest.1,
        Written-step first rounds (λ u. 0) rest.2,
      )

  -- `unmap_pages` succeeds, clears the entries of the range and leaves all others.
  pub unmap_pages-Written :
      {p : Paging} (n : ℕ)
      → IsLinked p
      → v + n * 4096 ≤ 2 ^ 30
      → (q : Paging) × (unmap_pages p v n ≡ (true, q)) × Written (v / 4096) n (λ u. 0) p q
  unfolding unmap_pages
  unmap_pages-Written {p} n h room =
      let r = unmap_range_lem n 0 (v / 4096) h (omega arith) (omega arith) in
      let ok : page_aligned v ≡ true = page_aligned-mod v ∙ ground arith in (r.0, rw ok r.1, r.2)

  -- A range with one page that is mapped elsewhere is refused before any entry is written.
  pub map_pages-refused :
      (p : Paging) (physical flags n k : ℕ)
      → k < n
      → page_free_or_set p (nth_page v k) (nth_page physical k) ≡ false
      → map_pages p v physical n flags ≡ some (false, p)
  unfolding map_pages
  map_pages-refused p physical flags n k l taken =
      let ok : page_aligned v ≡ true = page_aligned-mod v ∙ ground arith in
      let stop : range_free_or_set p v physical n 0 ≡ false =
        range_refused p v physical k n 0 (omega arith) (omega arith) taken in
      rw (ok, stop) refl

module _ (p : Paging) (v physical flags : ℕ) (aligned : v % 4096 ≡ 0) (low : v < 2 ^ 30)
    (small : physical < 2 ^ 52) where
  -- The check and the writing of a range of one page.
  pub map_pages-one :
      map_pages p v physical 1 flags
      ≡ (if page_free_or_set p v physical then map p v physical flags else some (false, p))
  unfolding map_pages range_free_or_set map_range
  map_pages-one =
      let ok : page_aligned v ≡ true = page_aligned-mod v ∙ ground arith in
      let e : nth_page v 0 ≡ v = nth_page-plain v 0 (omega arith) (omega arith) ∙ omega arith in
      let e' : nth_page physical 0 ≡ physical =
        nth_page-plain physical 0 small (omega arith) ∙ omega arith in
      rw (ok, e, e') (branch (page_free_or_set p v physical) (map p v physical flags))
    where
      again :
          (o : Option (Bool × Paging))
          → (do r ← o; elim r.0 [ false ↦ some (false, r.1) | true ↦ some (true, r.1) ]) ≡ o
      again none = refl
      again (some (false, q)) = refl
      again (some (true, q)) = refl

      branch :
          (b : Bool) (o : Option (Bool × Paging))
          → (if not (if not b then false else true)
              then some (false, p)
              else (do r ← o; elim r.0 [ false ↦ some (false, r.1) | true ↦ some (true, r.1) ]))
            ≡ (if b then o else some (false, p))
      branch true o = again o
      branch false o = refl

-- One page that has no frame, by `map` itself, and one page cleared by `unmap`.
pub map-Written :
    {p : Paging} (v physical flags : ℕ)
    → v % 4096 ≡ 0
    → physical < 2 ^ 52
    → IsLinked p
    → v < 2 ^ 30
    → is_present (slot p (v / 4096)) ≡ false
    → (q : Paging) × (map p v physical flags ≡ some (true, q))
      × Written (v / 4096) 1 (target v physical flags) p q
map-Written {p} v physical flags aligned small h low free =
    let q : Paging = with_slot p (v / 4096) (target v physical flags (v / 4096)) in
    let value : bit_or physical flags ≡ target v physical flags (v / 4096) =
      ap (λ (x : ℕ). bit_or x flags) (omega arith) in
    (
      q,
      map_lem h v low aligned physical flags
          ∙ ap some (if_false _ _ free)
          ∙ ap (λ (x : ℕ). some (true, with_slot p (v / 4096) x)) value,
      Written-step (v / 4096) 0 (target v physical flags) (
          Written-none (v / 4096 + 1) (target v physical flags)
            (with_slot-IsLinked (v / 4096) _ h)),
    )

pub unmap-Written :
    {p : Paging} (v : ℕ)
    → v % 4096 ≡ 0
    → IsLinked p
    → v < 2 ^ 30
    → (q : Paging) × (unmap p v ≡ (true, q)) × Written (v / 4096) 1 (λ u. 0) p q
unmap-Written {p} v aligned h low = (
  with_slot p (v / 4096) 0,
  unmap_lem h v low aligned,
  Written-step (v / 4096) 0 (λ u. 0)
      (Written-none (v / 4096 + 1) (λ u. 0) (with_slot-IsLinked (v / 4096) 0 h)),
)
