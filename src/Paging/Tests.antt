-- ===== src/Paging/Tests.antt =====
-- Tables of the kernel, and instances of the theorems on paging.
use thor_os.Prelude.{
  ℕ, ◌+◌, ◌-◌, ◌*◌, ◌/◌, ◌≡◌, refl, ap, ◌∙◌, arith, true, false, ◌&&◌, leb, ltb, ◌==◌,
  if◌then◌else◌, some, bit_or,
}
use thor_os.Paging.{Paging, map, map_pages, is_present}
use thor_os.Paging.Walk.{IsLinked, slot, is_present-zero, with_slot}
use thor_os.Paging.Ranges.{Written, target, map_pages-Written}
use thor_os.Paging.Lookup.{map-map}

-- The words of the tables at 2 MiB, whose frames start at 3 MiB; no page has a frame.
abbrev word_of : ℕ → ℕ
word_of a =
    if a == 2097152
    then 3149831
    else if a == 2101248
    then 3153927
    else if leb 2105344 a && ltb a 2109440
    then 3158023 + (a - 2105344) / 8 * 4096
    else 0

abbrev pub empty_tables : Paging
empty_tables = record {
  virtual_pml4t_start = 2097152;
  virtual_pdpt_start = 2101248;
  virtual_pd_start = 2105344;
  virtual_pt_start = 2109440;
  physical_pml4t_start = 3145728;
  physical_pdpt_start = 3149824;
  physical_pd_start = 3153920;
  physical_pt_start = 3158016;
  memory = word_of;
}

pub empty_tables-IsLinked : IsLinked empty_tables
empty_tables-IsLinked = record {
  low = omega arith;
  virtual_pdpt = refl;
  virtual_pd = refl;
  virtual_pt = refl;
  base = 768;
  physical_low = omega arith;
  physical_pdpt = refl;
  physical_pd = refl;
  physical_pt = refl;
  pml4_link = refl;
  pdpt_link = refl;
  pd_link = λ k h. ground arith;
}

pub empty_slot : (u : ℕ) → is_present (slot empty_tables u) ≡ false
empty_slot u = ap is_present nothing ∙ is_present-zero
  where
    nothing : slot empty_tables u ≡ 0
    nothing = ground arith

-- Ten pages from 4 MiB on at the frames from 8 MiB on.
map_pages-Written_example :
    (q : Paging) × (map_pages empty_tables 4194304 8388608 10 3 ≡ some (true, q))
    × Written 1024 10 (target 4194304 8388608 3) empty_tables q
map_pages-Written_example =
    map_pages-Written 4194304 8388608 3 (omega arith) (omega arith) 10 empty_tables-IsLinked
      (omega arith) (λ u h. empty_slot u)

-- Page 1025, with frame 2048.
map-map_example :
    let p = with_slot empty_tables 1025 (bit_or 8388608 3) in
    (map p 4198400 8388608 3 ≡ some (true, p)) × (map_pages p 4198400 8388608 1 3 ≡ some (false, p))
map-map_example =
    map-map empty_tables-IsLinked 4198400 2048 3 (omega arith) (omega arith) (omega arith)
      (omega arith) (omega arith)
