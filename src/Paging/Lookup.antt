-- ===== src/Paging/Lookup.antt =====
-- kernel/src/paging.cpp: what `physical_address` and `page_free_or_set` say of a mapped page.
use thor_os.Prelude.{
  ℕ, ◌+◌, ◌*◌, ◌/◌, ◌%◌, ◌^◌, ◌<◌, bit_or, ◌≡◌, refl, sym, ap, ap₂, ◌∙◌, arith, Bool, true, false,
  some, ◌==◌, if◌then◌else◌, if_true, if_false, elim-if, Option,
}
use thor_os.Word.Shift.{bit_and-ones, bit_or_low}
use thor_os.Buddy.{add64}
use thor_os.Paging.{
  Paging, at, frame, is_present, pt_entry, pt_of, page_present, physical_address, page_free_or_set,
  map, map_pages,
}
use thor_os.Paging.Walk.{
  IsLinked, slot, with_slot, with_slot-IsLinked, slot-with_slot, frame_lem, is_present-odd,
  page_present-slot, at-slot,
}
use thor_os.Paging.Map.{map_lem}
use thor_os.Paging.Ranges.{map_pages-one}

-- The entry for frame `f` with flags that have PRESENT.
entry_lem : (f flags : ℕ) → flags < 256 → bit_or (f * 4096) flags ≡ f * 4096 + flags
entry_lem f flags h = bit_or_low 12 f (f * 4096) flags (omega arith) (omega arith)

odd_flags : (f flags : ℕ) → flags % 2 ≡ 1 → ((f * 4096 + flags) % 2 == 1) ≡ true
odd_flags f flags odd = ground arith

module _ {p : Paging} (linked : IsLinked p) (v : ℕ) (low : v < 2 ^ 30) where
  -- A page whose entry holds frame `f`: the offset of 13 bits adds a page when the page is odd.
  pub physical_address-slot :
      (f flags : ℕ)
      → slot p (v / 4096) ≡ f * 4096 + flags
      → flags < 4096
      → flags % 2 ≡ 1
      → f < 2 ^ 40
      → physical_address p v ≡ f * 4096 + v % 8192
  unfolding physical_address
  physical_address-slot f flags e small odd high =
      let there : page_present p v ≡ true =
        page_present-slot linked v low
        ∙ is_present-odd (slot p (v / 4096))
        ∙ ap (λ (x : ℕ). x % 2 == 1) e
        ∙ odd_flags f flags odd in
      let hit : frame (at p (pt_of p v) (pt_entry v)) ≡ f * 4096 =
        ap frame (at-slot linked v low ∙ e) ∙ frame_lem f flags (omega arith) small in
      rw (there, hit) (ap (λ (x : ℕ). add64 x (f * 4096)) (bit_and-ones 13 v) ∙ omega arith)

  page_free_or_set-slot :
      (f flags : ℕ)
      → slot p (v / 4096) ≡ f * 4096 + flags
      → flags < 4096
      → flags % 2 ≡ 1
      → f < 2 ^ 40
      → v % 4096 ≡ 0
      → page_free_or_set p v (f * 4096) ≡ (v / 4096 % 2 == 0)
  unfolding page_free_or_set
  page_free_or_set-slot f flags e small odd high aligned =
      let there : page_present p v ≡ true =
        page_present-slot linked v low
        ∙ is_present-odd (slot p (v / 4096))
        ∙ ap (λ (x : ℕ). x % 2 == 1) e
        ∙ odd_flags f flags odd in
      rw (there, physical_address-slot f flags e small odd high) (ground arith)

-- Page `v` has no frame, and `map` gives it frame `f`: the state after.
module _ {p : Paging} (linked : IsLinked p) (v f flags : ℕ) (low : v < 2 ^ 30)
    (aligned : v % 4096 ≡ 0) (small : flags < 256) (odd : flags % 2 ≡ 1) (high : f < 2 ^ 40) where
  abbrev pub mapped : Paging
  mapped = with_slot p (v / 4096) (bit_or (f * 4096) flags)

  mapped-IsLinked : IsLinked mapped
  mapped-IsLinked = with_slot-IsLinked (v / 4096) (bit_or (f * 4096) flags) linked

  slot-mapped : (a : ℕ) → a / 4096 ≡ v / 4096 → slot mapped (a / 4096) ≡ f * 4096 + flags
  slot-mapped a e =
      slot-with_slot p (v / 4096) (bit_or (f * 4096) flags) (a / 4096)
      ∙ if_true {b = a / 4096 == v / 4096} _ _ (ground arith)
      ∙ entry_lem f flags small

  -- After `map` of a page without a frame the addresses of the page are present, and
  -- `physical_address` gives the byte of the frame when the page's number is even; when it is odd,
  -- the byte one page further.
  pub physical_address-map :
      is_present (slot p (v / 4096)) ≡ false
      → (q : Paging) × (map p v (f * 4096) flags ≡ some (true, q))
        × ((offset : ℕ)
            → offset < 4096
            → (page_present q (v + offset) ≡ true)
              × (physical_address q (v + offset) ≡ f * 4096 + offset + v / 4096 % 2 * 4096))
  physical_address-map free = (
    mapped,
    map_lem linked v low aligned (f * 4096) flags ∙ ap some (if_false _ _ free),
    λ offset inside. (
      page_present-slot mapped-IsLinked (v + offset) (omega arith)
          ∙ is_present-odd (slot mapped ((v + offset) / 4096))
          ∙ ap (λ (x : ℕ). x % 2 == 1) (slot-mapped (v + offset) (omega arith))
          ∙ odd_flags f flags odd,
      physical_address-slot mapped-IsLinked (v + offset) (omega arith) f flags
            (slot-mapped (v + offset) (omega arith)) (omega arith) odd high
          ∙ omega arith,
    ),
  )

  -- Mapping a page again to the frame that it was just given: `map` accepts it; `map_pages`
  -- accepts it only when the page's number is even, and refuses it otherwise, both without a
  -- change. The tables must be linked, the address aligned and below 1 GiB, the frame's number
  -- below 2 ^ 40, and the flags eight bits with PRESENT.
  pub map-map :
      (map mapped v (f * 4096) flags ≡ some (true, mapped))
      × (map_pages mapped v (f * 4096) 1 flags ≡ some (v / 4096 % 2 == 0, mapped))
  unfolding map_pages
  map-map =
      let here : slot mapped (v / 4096) ≡ f * 4096 + flags = slot-mapped v refl in
      let there : is_present (slot mapped (v / 4096)) ≡ true =
        is_present-odd (slot mapped (v / 4096))
        ∙ ap (λ (x : ℕ). x % 2 == 1) here
        ∙ odd_flags f flags odd in
      let again : map mapped v (f * 4096) flags ≡ some (true, mapped) =
        map_lem mapped-IsLinked v low aligned (f * 4096) flags
        ∙ ap some (if_true _ _ there)
        ∙ ap (λ (x : Bool). some (x, mapped)) same in
      let free : page_free_or_set mapped v (f * 4096) ≡ (v / 4096 % 2 == 0) =
        page_free_or_set-slot mapped-IsLinked v low f flags here (omega arith) odd high aligned in
      (
        again,
        map_pages-one mapped v (f * 4096) flags aligned low (omega arith)
            ∙ ap₂ (λ (b : Bool) (o : Option (Bool × Paging)). if b then o else some (false, mapped))
                free again
            ∙ elim-if (λ (o : Option (Bool × Paging)). o ≡ some (v / 4096 % 2 == 0, mapped))
                (v / 4096 % 2 == 0) (λ h. ap (λ (b : Bool). some (b, mapped)) (sym h))
                (λ h. ap (λ (b : Bool). some (b, mapped)) (sym h)),
      )
    where
      same : (slot mapped (v / 4096) == bit_or (f * 4096) flags) ≡ true
      same = ground (arith, slot-mapped v refl, entry_lem f flags small)
