-- ===== src/PhysicalPointer/Window.antt =====
-- kernel/include/physical_pointer.hpp: the virtual allocator and the tables stay in step.
use thor_os.Prelude.{
  ℕ, ◌+◌, ◌-◌, ◌*◌, ◌/◌, ◌%◌, ◌^◌, ◌≤◌, ◌<◌, ◌≡◌, ◌≢◌, refl, sym, ap, subst, ◌∙◌, arith, Bool, true,
  false, not, some, ltb, ◌==◌, if◌then◌else◌, ◌⊎◌, inl, inr, Bool-cases, clash, ◌&&◌, if_true,
  if_false,
}
use thor_os.Buddy.{BuddyAllocator}
use thor_os.Buddy
use thor_os.Buddy.Pages.{is_free, among}
use thor_os.Buddy.Sound.{IsSound, Allocated}
use thor_os.Buddy.AllocateWord.{allocate-Outcome}
use thor_os.Paging.{Paging, is_present, unmap, unmap_pages}
use thor_os.Paging.Walk.{IsLinked, slot, is_present-zero}
use thor_os.Paging.Ranges.{
  Written, IsUnmapped, in_range, target, map-Written, map_pages-Written, unmap-Written,
  unmap_pages-Written,
}
use thor_os.VirtualAllocator.{VirtualAllocator, free_memory, free}
use thor_os.Buddy.Free.{free-allocate, first_address-free}
use thor_os.VirtualAllocator.Counters.{reserved, allocate_lem, allocator-free}
use thor_os.PhysicalPointer.{
  PhysicalPointer, default_flags, map_window, create, destroy, open_window,
}

-- `n` whole pages below 1 GiB are managed, and those that are free have no frame.
pub record InStep (n : ℕ) (a : BuddyAllocator) (p : Paging) : Type 0 where
  pub sound : IsSound n a
  pub linked : IsLinked p
  pub aligned : a.first_address % 4096 ≡ 0
  pub inside : a.first_address + n * 4096 ≤ 2 ^ 30
  pub unmapped :
      (u : ℕ)
      → is_free a.bitmaps u ≡ true
      → u < n
      → is_present (slot p (a.first_address / 4096 + u)) ≡ false

module _ {p : Paging} (linked : IsLinked p) (virt phys pages : ℕ) (aligned : virt % 4096 ≡ 0)
    (small : phys < 2 ^ 52) (some_pages : 0 < pages) (room : virt + pages * 4096 ≤ 2 ^ 30)
    (free_range : IsUnmapped p (virt / 4096) pages) where
  map_window-Written :
      (q : Paging) × (map_window p virt phys pages ≡ some (true, q))
      × Written (virt / 4096) pages (target virt phys default_flags) p q
  unfolding map_window
  map_window-Written = elim (Bool-cases (pages == 1)) [
    | inl e ↦
        (let one : pages ≡ 1 = ground arith in
          let r =
            map-Written virt phys default_flags aligned small linked (omega arith)
              (free_range (virt / 4096) (ground arith)) in
          (
            r.0,
            if_true _ _ e ∙ r.1,
            subst (λ (k : ℕ). Written (virt / 4096) k (target virt phys default_flags) p r.0)
                (sym one) r.2,
          ))
    | inr e ↦
        (let r =
            map_pages-Written virt phys default_flags aligned small pages linked room free_range in
          (r.0, if_false _ _ e ∙ r.1, r.2))
  ]

-- Page `u` of the managed ones is not in the run, and its entry is not in the range of the run.
module _ (start from size pages virt u : ℕ) (at : virt ≡ start + from) (enough : pages ≤ size) where
  range_of_run :
      in_range virt pages u ≡ true
      → (from ≤ u - start) × (u - start < from + size) × (start + (u - start) ≡ u)
  range_of_run inside = (ground arith, ground arith, ground arith)

  outside_range : among from (from + size) u ≡ false → in_range virt pages (start + u) ≡ false
  outside_range outside = ground arith

kept_free : (x y : Bool) {z : Bool} → z ≡ (not x && y) → z ≡ true → (x ≡ false) × (y ≡ true)
kept_free true y e h = clash h e
kept_free false y e h = (refl, sym e ∙ h)

-- The pages that the buddy allocator answers with, mapped or cleared.
module _ {n : ℕ} {a : BuddyAllocator} {p : Paging} (h : InStep n a p) (pages : ℕ)
    (r : ℕ × BuddyAllocator) (al : Allocated n a pages r) where
  virt_page : (r.0 % 4096 ≡ 0) × (r.0 / 4096 ≡ a.first_address / 4096 + al.from)
  virt_page = (omega (arith, al.address, h.aligned), omega (arith, al.address, h.aligned))

  virt_room : r.0 + pages * 4096 ≤ 2 ^ 30
  virt_room = omega (arith, al.address, al.inside, al.enough, h.inside)

  virt-IsUnmapped : IsUnmapped p (r.0 / 4096) pages
  virt-IsUnmapped u inside =
      let w : ℕ = u - a.first_address / 4096 in
      let near =
        range_of_run (a.first_address / 4096) al.from al.size pages (r.0 / 4096) u virt_page.1
          al.enough inside in
      let run : among al.from (al.from + al.size) w ≡ true = ground (arith, near.0, near.1) in
      ap (λ (x : ℕ). is_present (slot p x)) (sym near.2)
      ∙ h.unmapped w (al.were_free w run) (omega (arith, al.inside, near.1))

  taken-InStep : {f : ℕ → ℕ} {q : Paging} → Written (r.0 / 4096) pages f p q → InStep n r.1 q
  taken-InStep {f} {q} w = record {
    sound = al.sound;
    linked = w.linked;
    aligned = rw (al.same_start) h.aligned;
    inside = rw (al.same_start) h.inside;
    unmapped = λ u free low.
        let kept =
          kept_free (among al.from (al.from + al.size) u) (is_free a.bitmaps u) (al.taken u) free in
        let outside : in_range (r.0 / 4096) pages (a.first_address / 4096 + u) ≡ false =
          outside_range (a.first_address / 4096) al.from al.size pages (r.0 / 4096) u virt_page.1
            al.enough kept.0 in
        rw (al.same_start) (
          ap is_present (w.slots (a.first_address / 4096 + u) ∙ if_false _ _ outside)
          ∙ h.unmapped u kept.1 low);
  }

module _ (p : Paging) (phys pages : ℕ) where
  open_window-zero : open_window p 0 phys pages ≡ some (0, p)
  unfolding open_window
  open_window-zero = refl

  open_window-map_window :
      (virt : ℕ) (q : Paging)
      → 0 < virt
      → map_window p virt phys pages ≡ some (true, q)
      → open_window p virt phys pages ≡ some (virt, q)
  unfolding open_window
  open_window-map_window virt q pos e = let t : (virt == 0) ≡ false = ground arith in rw (t, e) refl

-- The same pages are free and present.
freed-InStep :
    {n : ℕ} {a : BuddyAllocator} {p : Paging}
    → InStep n a p
    → (b : BuddyAllocator) (q : Paging) → IsSound n b
    → ((u : ℕ) → is_free b.bitmaps u ≡ is_free a.bitmaps u)
    → b.first_address ≡ a.first_address
    → IsLinked q
    → ((u : ℕ) → is_present (slot q u) ≡ is_present (slot p u))
    → InStep n b q
freed-InStep {a} h b q sound same start linked present = record {
  sound = sound;
  linked = linked;
  aligned = rw start h.aligned;
  inside = rw start h.inside;
  unmapped = λ u free low.
      rw start (present (a.first_address / 4096 + u) ∙ h.unmapped u (sym (same u) ∙ free) low);
}

-- The state `r` is in step, and has the same pages free and present as `v` and `p`.
abbrev pub Restored : ℕ → VirtualAllocator → Paging → VirtualAllocator × Paging → Type 0
Restored n v p r =
    InStep n r.0.allocator r.1
    × ((u : ℕ) → is_free r.0.allocator.bitmaps u ≡ is_free v.allocator.bitmaps u)
    × ((u : ℕ) → is_present (slot r.1 u) ≡ is_present (slot p u))

clear_window :
    {p : Paging}
    → IsLinked p
    → (virt pages : ℕ) → virt % 4096 ≡ 0
    → 0 < pages
    → virt + pages * 4096 ≤ 2 ^ 30
    → (q : Paging) × ((if pages == 1 then unmap p virt else unmap_pages p virt pages) ≡ (true, q))
      × Written (virt / 4096) pages (λ u. 0) p q
clear_window {p} linked virt pages aligned some_pages room = elim (Bool-cases (pages == 1)) [
  | inl e ↦
      (let one : pages ≡ 1 = ground arith in
        let r = unmap-Written virt aligned linked (omega arith) in
        (
          r.0,
          if_true _ _ e ∙ r.1,
          subst (λ (k : ℕ). Written (virt / 4096) k (λ u. 0) p r.0) (sym one) r.2,
        ))
  | inr e ↦
      (let r = unmap_pages-Written virt aligned pages linked room in
        (r.0, if_false _ _ e ∙ r.1, r.2))
]

-- A page without a frame has none after its entry was written and cleared.
cleared :
    {p q q' : Paging} {f : ℕ → ℕ} (first pages : ℕ)
    → IsUnmapped p first pages
    → Written first pages f p q
    → Written first pages (λ u. 0) q q'
    → (u : ℕ) → is_present (slot q' u) ≡ is_present (slot p u)
cleared {p} {q} {q'} {f} first pages free w w' u = elim (Bool-cases (in_range first pages u)) [
  | inl e ↦ ap is_present (w'.slots u ∙ if_true _ _ e) ∙ is_present-zero ∙ sym (free u e)
  | inr e ↦ ap is_present (w'.slots u ∙ if_false _ _ e ∙ w.slots u ∙ if_false _ _ e)
]

module _ (n : ℕ) (overflow : ℕ → ℕ) (v : VirtualAllocator) (p : Paging) (phys pages : ℕ)
    (h : InStep n v.allocator p) (small : phys < 2 ^ 52) (some_pages : 0 < pages)
    (room : pages < free_memory v / 4096) where
  abbrev answer : ℕ × BuddyAllocator
  answer = Buddy.allocate v.allocator pages

  abbrev state : VirtualAllocator
  state = reserved overflow v pages

  create-open_window :
      (virt : ℕ) (q : Paging)
      → open_window p answer.0 phys pages ≡ some (virt, q)
      → create overflow v p phys pages
        ≡ some (record { phys = phys; pages = pages; virt = virt }, state, q)
  unfolding create
  create-open_window virt q e =
      let t : ltb 0 pages ≡ true = ground arith in
      rw (t, allocate_lem overflow v pages room, e) refl

  -- The buddy allocator has no run: the window is empty.
  create_empty :
      answer ≡ (0, v.allocator)
      → create overflow v p phys pages
        ≡ some (record { phys = phys; pages = pages; virt = 0 }, state, p)
  create_empty e = create-open_window 0 p (
      ap (λ (r : ℕ × BuddyAllocator). open_window p r.0 phys pages) e
      ∙ open_window-zero p phys pages)

  module _ (al : Allocated n v.allocator pages answer) where
    positive : 0 < answer.0
    positive = omega (arith, al.address, h.sound.start)

    window :
        (q : Paging) × (map_window p answer.0 phys pages ≡ some (true, q))
        × Written (answer.0 / 4096) pages (target answer.0 phys default_flags) p q
    window =
        map_window-Written h.linked answer.0 phys pages (virt_page h pages answer al).0 small
          some_pages (virt_room h pages answer al) (virt-IsUnmapped h pages answer al)

    create_mapped :
        create overflow v p phys pages
        ≡ some (record { phys = phys; pages = pages; virt = answer.0 }, state, window.0)
    create_mapped =
        create-open_window answer.0 window.0
          (open_window-map_window p phys pages answer.0 window.0 positive window.1)

  -- The constructor returns with the allocator and the tables in step, as they must be before.
  -- Its window is empty and the managed pages and the tables are as before, or it shows the
  -- frames from `phys` on, one for each of its pages, and the entries of all other pages are as
  -- before. There is at least one page, the request passes the assertion of the virtual
  -- allocator, and `phys` is below 2 ^ 52.
  pub create-InStep :
      (virt : ℕ) × (w : VirtualAllocator) × (q : Paging) × (create overflow v p phys pages
        ≡ some (record { phys = phys; pages = pages; virt = virt }, w, q))
      × InStep n w.allocator q
      × (((virt ≡ 0) × (w.allocator ≡ v.allocator) × (q ≡ p))
          ⊎ ((virt ≢ 0) × Written (virt / 4096) pages (target virt phys default_flags) p q))
  create-InStep = elim (allocate-Outcome h.sound pages) [
    | inl e ↦
        (let same : answer.1 ≡ v.allocator = ap (λ (r : ℕ × BuddyAllocator). r.1) e in
          (
            0,
            state,
            p,
            create_empty e,
            subst (λ (a : BuddyAllocator). InStep n a p) (sym same) h,
            inl (refl, same, refl),
          ))
    | inr al ↦
        (let q = window al in
          (
            answer.0,
            state,
            q.0,
            create_mapped al,
            taken-InStep h pages answer al q.2,
            inr (omega (arith, positive al), q.2),
          ))
  ]

  -- The destructor undoes the constructor for a window of 1 to 128 pages: the allocator and the
  -- tables are in step, as they must be before, and the same pages are free and present as before
  -- the constructor. The request must pass the assertion of the virtual allocator, and `phys` be
  -- below 2 ^ 52.
  pub destroy-create :
      pages ≤ 128
      → (ptr : PhysicalPointer) × (w : VirtualAllocator) × (q : Paging) × (create overflow v p phys
            pages
          ≡ some (ptr, w, q))
        × Restored n v p (destroy overflow w q ptr)
  unfolding destroy
  destroy-create few = elim (allocate-Outcome h.sound pages) [
    | inl e ↦
        (let same : answer.1 ≡ v.allocator = ap (λ (r : ℕ × BuddyAllocator). r.1) e in
          (
            record { phys = phys; pages = pages; virt = 0 },
            state,
            p,
            create_empty e,
            (
              subst (λ (a : BuddyAllocator). InStep n a p) (sym same) h,
              (λ u. ap (λ (a : BuddyAllocator). is_free a.bitmaps u) same),
              (λ u. refl),
            ),
          ))
    | inr al ↦
        (let nonzero : answer.0 ≢ 0 = omega (arith, positive al) in
          let t : (answer.0 == 0) ≡ false = ground (arith, positive al) in
          let q = window al in
          let c =
            clear_window q.2.linked answer.0 pages (virt_page h pages answer al).0 some_pages
              (virt_room h pages answer al) in
          let undone = free-allocate n v.allocator pages h.sound few nonzero in
          let e : destroy overflow state q.0
                (record { phys = phys; pages = pages; virt = answer.0 })
              ≡ (free overflow state answer.0 pages, c.0) =
            if_true _ _ (ap not t)
            ∙ ap (λ (z : Bool × Paging). (free overflow state answer.0 pages, z.1)) c.1 in
          let same : (free overflow state answer.0 pages).allocator
              ≡ Buddy.free answer.1 answer.0 pages =
            allocator-free overflow state answer.0 pages in
          let present : (u : ℕ) → is_present (slot c.0 u) ≡ is_present (slot p u) =
            cleared (answer.0 / 4096) pages (virt-IsUnmapped h pages answer al) q.2 c.2 in
          let before : (Buddy.free answer.1 answer.0 pages).first_address
              ≡ v.allocator.first_address =
            first_address-free answer.1 answer.0 pages ∙ al.same_start in
          let freed =
            freed-InStep h (Buddy.free answer.1 answer.0 pages) c.0 undone.0 undone.1 before
              c.2.linked present in
          (
            record { phys = phys; pages = pages; virt = answer.0 },
            state,
            q.0,
            create_mapped al,
            subst (Restored n v p) (sym e) (
              subst (λ (a : BuddyAllocator). InStep n a c.0) (sym same) freed,
              (λ u. ap (λ (a : BuddyAllocator). is_free a.bitmaps u) same ∙ undone.1 u),
              present,
            ),
          ))
  ]
