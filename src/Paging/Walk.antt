-- ===== src/Paging/Walk.antt =====
-- kernel/src/paging.cpp: where the lookup of a kernel address ends.
use thor_os.Prelude.{
  ℕ, suc, ◌+◌, ◌-◌, ◌*◌, ◌/◌, ◌%◌, ◌^◌, ◌≤◌, ◌<◌, bit_and, ◌≡◌, refl, ap, ◌∙◌, arith, true, false,
  not, ◌==◌, if◌then◌else◌,
}
use thor_os.Word.Shift.{bit_and-ones, bit_and-field}
use thor_os.Buddy.{add64, sub64}
use thor_os.Paging.{
  Paging, at, frame, is_present, find_pdpt, find_pd, find_pt, pml4_entry, pdpt_entry, pd_entry,
  pt_entry, pdpt_of, pd_of, pt_of, page_present, page_aligned, physical_memory_pages, pml4_entries,
  pdpt_entries, pd_entries, entries,
}

-- The tables stand one after the other, in physical memory and where they are mapped, and each
-- entry for the first GiB leads to the next table.
pub record IsLinked (p : Paging) : Type 0 where
  pub low : p.virtual_pml4t_start ≤ 2 ^ 40
  pub virtual_pdpt : p.virtual_pdpt_start ≡ p.virtual_pml4t_start + 4096
  pub virtual_pd : p.virtual_pd_start ≡ p.virtual_pml4t_start + 8192
  pub virtual_pt : p.virtual_pt_start ≡ p.virtual_pml4t_start + 12288
  pub base : ℕ
  pub physical_low : base ≤ 2 ^ 40
  pub physical_pdpt : p.physical_pdpt_start ≡ base * 4096 + 4096
  pub physical_pd : p.physical_pd_start ≡ base * 4096 + 8192
  pub physical_pt : p.physical_pt_start ≡ base * 4096 + 12288
  pub pml4_link : at p p.virtual_pml4t_start 0 ≡ p.physical_pdpt_start + 7
  pub pdpt_link : at p p.virtual_pdpt_start 0 ≡ p.physical_pd_start + 7
  pub pd_link : (k : ℕ) → k < 512 → at p p.virtual_pd_start k ≡ p.physical_pt_start + k * 4096 + 7

-- The entry of the tables of the last level for page `page`.
abbrev pub slot : Paging → ℕ → ℕ
slot p page = p.memory (p.virtual_pt_start + 8 * page)

pub frame_lem : (f low : ℕ) → f < 2 ^ 52 → low < 4096 → frame (f * 4096 + low) ≡ f * 4096
unfolding frame
frame_lem f low h l =
    let q : (f * 4096 + low) / 2 ^ 12 ≡ f = omega arith in
    bit_and-field 12 (2 ^ 52 - 1) (f * 4096 + low)
    ∙ ap (λ (x : ℕ). bit_and x (2 ^ 52 - 1) * 4096) q
    ∙ ap (λ (x : ℕ). x * 4096) (bit_and-ones 52 f)
    ∙ omega arith

pub is_present-odd : (e : ℕ) → is_present e ≡ (e % 2 == 1)
unfolding is_present
is_present-odd e = ap (λ (x : ℕ). not (x == 0)) (bit_and-ones 1 e) ∙ ground arith

pub is_present-zero : is_present 0 ≡ false
unfolding is_present
is_present-zero = refl

pub is_present-linked : (x y : ℕ) → x ≡ y * 4096 + 7 → is_present x ≡ true
is_present-linked x y e = is_present-odd x ∙ ground arith

pub page_aligned-mod : (v : ℕ) → page_aligned v ≡ (v % 4096 == 0)
unfolding page_aligned
page_aligned-mod v = ap (λ (x : ℕ). x == 0) (bit_and-ones 12 v)

pml4_entry-low : (v : ℕ) → v < 2 ^ 30 → pml4_entry v ≡ 0
unfolding pml4_entry
pml4_entry-low v h = bit_and-ones 9 (v / 2 ^ 39) ∙ omega arith

pdpt_entry-low : (v : ℕ) → v < 2 ^ 30 → pdpt_entry v ≡ 0
unfolding pdpt_entry
pdpt_entry-low v h = bit_and-ones 9 (v / 2 ^ 30) ∙ omega arith

pd_entry-low : (v : ℕ) → v < 2 ^ 30 → pd_entry v ≡ v / 2 ^ 21
unfolding pd_entry
pd_entry-low v h = bit_and-ones 9 (v / 2 ^ 21) ∙ omega arith

pt_entry-mod : (v : ℕ) → pt_entry v ≡ v / 4096 % 512
unfolding pt_entry
pt_entry-mod v = bit_and-ones 9 (v / 2 ^ 12)

module _ {p : Paging} (linked : IsLinked p) (v : ℕ) (low : v < 2 ^ 30) where
  pml4_at : at p p.virtual_pml4t_start (pml4_entry v) ≡ suc linked.base * 4096 + 7
  pml4_at =
      ap (at p p.virtual_pml4t_start) (pml4_entry-low v low)
      ∙ linked.pml4_link
      ∙ omega (arith, linked.physical_pdpt)

  pdpt_of-linked : pdpt_of p v ≡ p.virtual_pdpt_start
  unfolding find_pdpt
  pdpt_of-linked =
      let f : frame (at p p.virtual_pml4t_start (pml4_entry v)) ≡ suc linked.base * 4096 =
        ap frame pml4_at
        ∙ frame_lem (suc linked.base) 7 (omega (arith, linked.physical_low)) (omega arith) in
      ap (λ (x : ℕ). add64 p.virtual_pdpt_start (sub64 x p.physical_pdpt_start)) f
      ∙ omega (arith, linked.physical_pdpt, linked.physical_low, linked.virtual_pdpt, linked.low)

  pdpt_at : at p (pdpt_of p v) (pdpt_entry v) ≡ (linked.base + 2) * 4096 + 7
  pdpt_at =
      ap (λ (t : ℕ). at p t (pdpt_entry v)) pdpt_of-linked
      ∙ ap (at p p.virtual_pdpt_start) (pdpt_entry-low v low)
      ∙ linked.pdpt_link
      ∙ omega (arith, linked.physical_pd)

  pd_of-linked : pd_of p v ≡ p.virtual_pd_start
  unfolding find_pd
  pd_of-linked =
      let f : frame (at p (pdpt_of p v) (pdpt_entry v)) ≡ (linked.base + 2) * 4096 =
        ap frame pdpt_at
        ∙ frame_lem (linked.base + 2) 7 (omega (arith, linked.physical_low)) (omega arith) in
      ap (λ (x : ℕ). add64 p.virtual_pd_start (sub64 x p.physical_pd_start)) f
      ∙ omega (arith, linked.physical_pd, linked.physical_low, linked.virtual_pd, linked.low)

  pd_at : at p (pd_of p v) (pd_entry v) ≡ (linked.base + 3 + v / 2 ^ 21) * 4096 + 7
  pd_at =
      ap (λ (t : ℕ). at p t (pd_entry v)) pd_of-linked
      ∙ ap (at p p.virtual_pd_start) (pd_entry-low v low)
      ∙ linked.pd_link (v / 2 ^ 21) (omega arith)
      ∙ omega (arith, linked.physical_pt)

  pt_of-linked : pt_of p v ≡ p.virtual_pt_start + v / 2 ^ 21 * 4096
  unfolding find_pt
  pt_of-linked =
      let f : frame (at p (pd_of p v) (pd_entry v)) ≡ (linked.base + 3 + v / 2 ^ 21) * 4096 =
        ap frame pd_at
        ∙ frame_lem (linked.base + 3 + v / 2 ^ 21) 7 (omega (arith, linked.physical_low))
            (omega arith) in
      ap (λ (x : ℕ). add64 p.virtual_pt_start (sub64 x p.physical_pt_start)) f
      ∙ omega (arith, linked.physical_pt, linked.physical_low, linked.virtual_pt, linked.low)

  -- The word that the lookup ends in.
  pub address-linked : pt_of p v + 8 * pt_entry v ≡ p.virtual_pt_start + 8 * (v / 4096)
  address-linked = omega (arith, pt_of-linked, pt_entry-mod v)

  pub at-slot : at p (pt_of p v) (pt_entry v) ≡ slot p (v / 4096)
  at-slot = ap p.memory address-linked

  pub pml4_present : is_present (at p p.virtual_pml4t_start (pml4_entry v)) ≡ true
  pml4_present = is_present-linked _ (suc linked.base) pml4_at

  pub pdpt_present : is_present (at p (pdpt_of p v) (pdpt_entry v)) ≡ true
  pdpt_present = is_present-linked _ (linked.base + 2) pdpt_at

  pub pd_present : is_present (at p (pd_of p v) (pd_entry v)) ≡ true
  pd_present = is_present-linked _ (linked.base + 3 + v / 2 ^ 21) pd_at

  pub page_present-slot : page_present p v ≡ is_present (slot p (v / 4096))
  unfolding page_present
  page_present-slot = rw (pml4_present, pdpt_present, pd_present) (ap is_present at-slot)

-- Writing an entry of the last level.
unfoldable pub with_slot : Paging → ℕ → ℕ → Paging
with_slot p page value = record p {
  memory = λ a. if a == p.virtual_pt_start + 8 * page then value else p.memory a;
}

pub with_slot-IsLinked :
    {p : Paging} (page value : ℕ) → IsLinked p → IsLinked (with_slot p page value)
unfolding with_slot
with_slot-IsLinked {p} page value h = record {
  low = h.low;
  virtual_pdpt = h.virtual_pdpt;
  virtual_pd = h.virtual_pd;
  virtual_pt = h.virtual_pt;
  base = h.base;
  physical_low = h.physical_low;
  physical_pdpt = h.physical_pdpt;
  physical_pd = h.physical_pd;
  physical_pt = h.physical_pt;
  pml4_link = below _ (omega (arith, h.virtual_pt)) ∙ h.pml4_link;
  pdpt_link = below _ (omega (arith, h.virtual_pt, h.virtual_pdpt)) ∙ h.pdpt_link;
  pd_link = λ k l. below _ (omega (arith, h.virtual_pt, h.virtual_pd)) ∙ h.pd_link k l;
}
  where
    below :
        (a : ℕ)
        → a < p.virtual_pt_start
        → (if a == p.virtual_pt_start + 8 * page then value else p.memory a) ≡ p.memory a
    below a l = ground arith

pub slot-with_slot :
    (p : Paging) (page value u : ℕ)
    → slot (with_slot p page value) u ≡ (if u == page then value else slot p u)
unfolding with_slot
slot-with_slot p page value u = ground arith

-- One page for each table: 1, 1, 1 and 512 of them.
pub physical_memory_pages_lem : physical_memory_pages ≡ 515
unfolding physical_memory_pages pml4_entries pdpt_entries pd_entries entries
physical_memory_pages_lem = refl
