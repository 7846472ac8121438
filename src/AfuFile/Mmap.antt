-- ===== src/AfuFile/Mmap.antt =====
-- Which memory a process gets by mmap.
use opae_intel_fpga_driver.Base.{
  ℕ, ◌+◌, ◌-◌, ◌*◌, ◌/◌, ◌%◌, ◌^◌, ◌≤◌, ◌<◌, ◌≡◌, refl, ap, ◌∙◌, Bool, true, false, not, ◌&&◌,
  Option, none, some, arith, inl, inr, In, All, All-In, List, [], ◌∷◌, Bool-cases, page_size, u64,
  Status, ok, err, einval,
}
use mathlib.Core.Path.{subst}
use opae_intel_fpga_driver.AfuData.{Afu, AfuRegion}
use opae_intel_fpga_driver.Region.{afu_get_region_by_offset}
use opae_intel_fpga_driver.Region.Layout.{IsLaidOut, Stacked}
use opae_intel_fpga_driver.Region.Lookup.{afu_get_region_by_offset_iff}
use opae_intel_fpga_driver.AfuFile.{Vma, Remap, can_read, can_write, can_mmap, map_region, afu_mmap}

-- The pages lie in the region and the region allows the accesses that the process asks for.
abbrev pub Granted : Vma → AfuRegion → Remap → Type 0
Granted vma region (pfn, size) =
    (region.phys ≤ pfn * page_size)
    × (pfn * page_size + size ≤ region.phys + region.size)
    × (can_mmap region ≡ true)
    × (vma.readable ≡ true → can_read region ≡ true)
    × (vma.writable ≡ true → can_write region ≡ true)

implied : (a b : Bool) → a && not b ≡ false → a ≡ true → b ≡ true
implied true true h e = refl
implied true false h e = absurd cc
implied false b h e = absurd cc

first_frame : AfuRegion → ℕ → ℕ
first_frame region offset = u64 (region.phys + u64 (offset + 2 ^ 64 - region.offset)) / page_size

first_frame_lem :
    (region : AfuRegion) (offset : ℕ)
    → region.offset ≤ offset
    → offset ≤ region.offset + region.size
    → offset < 2 ^ 64
    → region.phys + region.size < 2 ^ 64
    → region.phys % page_size ≡ 0
    → region.offset % page_size ≡ 0
    → offset % page_size ≡ 0
    → first_frame region offset * page_size ≡ region.phys + (offset - region.offset)
unfolding first_frame
first_frame_lem region offset low high small phys a b c = omega arith

some_pair :
    {A : Type 0} {x y : A}
    → let p : Status × Option A = (ok, some x) in
      let q : Status × Option A = (ok, some y) in p ≡ q → x ≡ y
some_pair e = cc

map_region_lem :
    (vma : Vma) (offset size : ℕ) (region : AfuRegion) (remap : Remap)
    → region.offset ≤ offset
    → offset + size ≤ region.offset + region.size
    → offset < 2 ^ 64
    → region.phys + region.size < 2 ^ 64
    → region.phys % page_size ≡ 0
    → region.offset % page_size ≡ 0
    → offset % page_size ≡ 0
    → map_region vma offset size (ok, region) ≡ (ok, some remap)
    → Granted vma region remap
unfolding map_region first_frame
map_region_lem vma offset size region remap low high small phys a b c e =
    elim (Bool-cases (can_mmap region)) [
      | inr m ↦ absurd (ground (arith, e, m))
      | inl m ↦ elim (Bool-cases (vma.readable && not (can_read region))) [
        | inl r ↦ absurd (ground (arith, e, m, r))
        | inr r ↦ elim (Bool-cases (vma.writable && not (can_write region))) [
          | inl w ↦ absurd (ground (arith, e, m, r, w))
          | inr w ↦
              let pages = first_frame_lem region offset low (omega arith) small phys a b c in
              let same : (first_frame region offset, size) ≡ remap =
                some_pair (rw (m, r, w) at e) in
              subst (Granted vma region) same (
                omega (arith, pages),
                omega (arith, pages),
                m,
                implied vma.readable (can_read region) r,
                implied vma.writable (can_write region) w,
              )
        ]
      ]
    ]

offset-aligned :
    (r : AfuRegion) (top : ℕ) (rs : List AfuRegion)
    → Stacked top rs
    → In r rs
    → r.offset % page_size ≡ 0
offset-aligned r top [] st m = absurd m
offset-aligned r top (x ∷ rs) st (inl e) = ap (λ (z : AfuRegion). z.offset % page_size) e ∙ st.0
offset-aligned r top (x ∷ rs) st (inr m) = offset-aligned r x.offset rs st.4 m

-- The memory of a region starts on a page and does not run past the address space.
abbrev pub IsPaged : AfuRegion → Type 0
IsPaged r = (r.phys % page_size ≡ 0) × (r.phys + r.size < 2 ^ 64)

-- When the regions of the port are laid out, start on a page of memory and end within the address
-- space: an accepted request for a non-empty mapping, whose range of the file ends below 2^64,
-- remaps pages that lie in the memory of one region of the port, which allows mapping and whatever
-- of reading and writing the process asks for.
pub afu_mmap-Granted :
    (blank : AfuRegion) (afu : Afu) (vma : Vma) (remap : Remap)
    → IsLaidOut afu
    → All IsPaged afu.regions
    → vma.vm_start < vma.vm_end
    → vma.vm_end < 2 ^ 64
    → vma.vm_pgoff * page_size + (vma.vm_end - vma.vm_start) < 2 ^ 64
    → afu_mmap blank afu vma ≡ (ok, some remap)
    → (region : AfuRegion) × In region afu.regions × Granted vma region remap
unfolding afu_mmap map_region
afu_mmap-Granted blank afu vma remap laid paged nonempty below fits e =
    let size = u64 (vma.vm_end + 2 ^ 64 - vma.vm_start) in
    let offset = u64 (vma.vm_pgoff * page_size) in
    let size_eq : size ≡ vma.vm_end - vma.vm_start = omega arith in
    let offset_eq : offset ≡ vma.vm_pgoff * page_size = omega arith in
    elim (Bool-cases (not vma.shared && vma.writable)) [
      | inl p ↦ absurd (refused einval (rw p at e))
      | inr p ↦
          found size offset (omega (arith, size_eq)) (omega (arith, size_eq, offset_eq))
            (omega (arith, offset_eq)) (afu_get_region_by_offset afu offset size blank) refl
            (rw p at e)
    ]
  where
    refused :
        (k : ℕ)
        → let p : Status × Option Remap = (err k, none) in
          let q : Status × Option Remap = (ok, some remap) in ¬ (p ≡ q)
    refused k e = cc

    found :
        (size offset : ℕ)
        → 0 < size
        → offset + size < 2 ^ 64
        → offset % page_size ≡ 0
        → (r : Status × AfuRegion) → afu_get_region_by_offset afu offset size blank ≡ r
        → map_region vma offset size r ≡ (ok, some remap)
        → (region : AfuRegion) × In region afu.regions × Granted vma region remap
    found size offset some_bytes small aligned (err k, region) e m = absurd (refused k m)
    found size offset some_bytes small aligned (ok, region) e m =
        let (there, low, high) =
          (afu_get_region_by_offset_iff afu offset size blank region laid some_bytes small).0 e in
        let (phys, room) = All-In IsPaged afu.regions region paged there in
        (
          region,
          there,
          map_region_lem vma offset size region remap low high (omega arith) room phys
              (offset-aligned region afu.region_cur_offset afu.regions laid.stacked there) aligned
              m,
        )
