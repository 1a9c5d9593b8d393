-- ===== src/Paging/Map.antt =====
-- kernel/src/paging.cpp: `map` and `unmap` of one page of the kernel.
use thor_os.Prelude.{
  ℕ, ◌/◌, ◌%◌, ◌^◌, ◌<◌, bit_or, ◌≡◌, refl, ap, ◌∙◌, arith, Bool, true, false, some, ◌==◌,
  if◌then◌else◌,
}
use thor_os.Paging.{Paging, is_present, pt_entry, pt_of, page_aligned, set_entry, map, unmap}
use thor_os.Paging.Walk.{
  IsLinked, slot, with_slot, page_aligned-mod, pml4_present, pdpt_present, pd_present, at-slot,
  address-linked,
}

module _ {p : Paging} (linked : IsLinked p) (v : ℕ) (low : v < 2 ^ 30) where
  set_entry-with_slot :
      (value : ℕ) → set_entry p (pt_of p v) (pt_entry v) value ≡ with_slot p (v / 4096) value
  unfolding set_entry with_slot
  set_entry-with_slot value =
      ap (λ (b : ℕ). record p { memory = λ a. if a == b then value else p.memory a })
        (address-linked linked v low)

  module _ (aligned : v % 4096 ≡ 0) where
    is_aligned : page_aligned v ≡ true
    is_aligned = page_aligned-mod v ∙ ground arith

    -- What `map` does with a page of the kernel.
    pub map_lem :
        (physical flags : ℕ)
        → map p v physical flags
          ≡ some (
              if is_present (slot p (v / 4096))
              then (slot p (v / 4096) == bit_or physical flags, p)
              else (true, with_slot p (v / 4096) (bit_or physical flags)))
    unfolding map
    map_lem physical flags =
        rw
          (
            is_aligned,
            pml4_present linked v low,
            pdpt_present linked v low,
            pd_present linked v low,
            at-slot linked v low,
            set_entry-with_slot (bit_or physical flags),
          )
          (push (is_present (slot p (v / 4096))) _ _)
      where
        push :
            (b : Bool) (x y : Bool × Paging)
            → (if b then some x else some y) ≡ some (if b then x else y)
        push true x y = refl
        push false x y = refl

    pub unmap_lem : unmap p v ≡ (true, with_slot p (v / 4096) 0)
    unfolding unmap
    unmap_lem =
        rw
          (
            is_aligned,
            pml4_present linked v low,
            pdpt_present linked v low,
            pd_present linked v low,
            set_entry-with_slot 0,
          )
          refl
