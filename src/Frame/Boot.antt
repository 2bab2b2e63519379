-- ===== src/Frame/Boot.antt =====
-- `FrameAllocator::new`: which frames are free after boot.
use fantuan_kernel.Base.{
  ℕ, ◌+◌, ◌-◌, ◌*◌, ◌/◌, ◌≤◌, ◌<◌, ◌≡◌, refl, sym, ◌∙◌, Bool, true, false, ◌⊎◌, inl, inr, ◌&&◌,
  List, [], ◌∷◌, arith, ltb, leb, if◌then◌else◌, Bool-cases, true≢false, max,
}
use fantuan_kernel.Frame.{
  Descriptor, BootInfo, frame_size, low_memory_cutoff, bitmap_max, is_reclaimable, range_first,
  range_last, mark_range, usable_end, mark_descriptor, mark_memmap, punch, reserved_ranges,
  boot_bitmap, new,
}
use fantuan_kernel.Frame.Fill.{fill_lem}
use fantuan_kernel.Frame.Inv.{IsValid}

module _ (total : ℕ) where
  mark_range_lem :
      (f : ℕ → Bool) (begin end : ℕ) (v : Bool) (i : ℕ)
      → mark_range total f begin end v i
        ≡ (if leb (range_first begin) i && ltb i (range_last total end) then v else f i)
  unfolding mark_range
  mark_range_lem f begin end v i =
      ground (arith, fill_lem f (range_first begin) (range_last total end - range_first begin) v i)

  -- Some descriptor of a reclaimable type reaches into frame i.
  abbrev pub Backed : List Descriptor → ℕ → Type 0
  Backed [] i = ⊥
  Backed (d ∷ ds) i =
      ((is_reclaimable d.type_ ≡ true)
        × (d.physical_start < (i + 1) * frame_size)
        × (i * frame_size < usable_end total d))
      ⊎ Backed ds i

  -- What boot may leave free: a frame inside the map, from 1 MiB on, that a descriptor backs.
  abbrev pub MayBeFree : List Descriptor → ℕ → Type 0
  MayBeFree ds i = (low_memory_cutoff ≤ i * frame_size) × (i < total) × Backed ds i

  mark_descriptor_sound :
      (f : ℕ → Bool) (d : Descriptor) (i : ℕ)
      → mark_descriptor total f d i ≡ true
      → (f i ≡ true) ⊎ MayBeFree (d ∷ []) i
  unfolding mark_descriptor
  mark_descriptor_sound f d i e =
      ground (
        arith,
        mark_range_lem f (max d.physical_start low_memory_cutoff) (usable_end total d) true i,
      )

  mark_memmap_sound :
      (f : ℕ → Bool) (ds : List Descriptor) (i : ℕ)
      → mark_memmap total f ds i ≡ true
      → (f i ≡ true) ⊎ MayBeFree ds i
  unfolding mark_memmap
  mark_memmap_sound f [] i e = inl e
  mark_memmap_sound f (d ∷ ds) i e = elim (mark_memmap_sound (mark_descriptor total f d) ds i e) [
    | inl m ↦ ground (arith, mark_descriptor_sound f d i m)
    | inr b ↦ inr (b.0, b.1, inr b.2)
  ]

  -- Punching holes sets no bit.
  punch-le : (f : ℕ → Bool) (rs : List (ℕ × ℕ)) (i : ℕ) → punch total f rs i ≡ true → f i ≡ true
  unfolding punch
  punch-le f [] i e = e
  punch-le f ((begin, end) ∷ rs) i e = ground (
    arith,
    punch-le (mark_range total f begin end false) rs i e,
    mark_range_lem f begin end false i,
  )

  -- The address lies in one of the ranges.
  abbrev pub InRanges : ℕ → List (ℕ × ℕ) → Type 0
  InRanges x [] = ⊥
  InRanges x ((begin, end) ∷ rs) = ((begin ≤ x) × (x < end)) ⊎ InRanges x rs

  mark_range_hole :
      (f : ℕ → Bool) (begin end x : ℕ)
      → begin ≤ x
      → x < end
      → low_memory_cutoff ≤ x
      → x < bitmap_max total
      → mark_range total f begin end false (x / frame_size) ≡ false
  mark_range_hole f begin end x h l m n =
      let low : range_first begin ≤ x / frame_size = omega arith in
      let high : x / frame_size < range_last total end = omega arith in
      ground (arith, mark_range_lem f begin end false (x / frame_size))

  punch_hole :
      (f : ℕ → Bool) (rs : List (ℕ × ℕ)) (x : ℕ)
      → low_memory_cutoff ≤ x
      → x < bitmap_max total
      → InRanges x rs
      → punch total f rs (x / frame_size) ≡ false
  unfolding punch
  punch_hole f [] x m n r = absurd r
  punch_hole f ((begin, end) ∷ rs) x m n (inl (h, l)) =
      elim (Bool-cases (punch total (mark_range total f begin end false) rs (x / frame_size))) [
        | inl t ↦
            absurd (true≢false (sym (punch-le _ rs _ t) ∙ mark_range_hole f begin end x h l m n))
        | inr e ↦ e
      ]
  punch_hole f ((begin, end) ∷ rs) x m n (inr r) =
      punch_hole (mark_range total f begin end false) rs x m n r

  -- A frame that is free after boot lies in the map and from 1 MiB on, and a descriptor of a
  -- reclaimable type reaches into it.
  pub new-MayBeFree :
      (bi : BootInfo) (kernel_end : ℕ) (extra : List (ℕ × ℕ)) (i : ℕ)
      → (new total bi kernel_end extra).bitmap i ≡ true
      → MayBeFree bi.memmap i
  unfolding new boot_bitmap
  new-MayBeFree bi kernel_end extra i e = ground (
    arith,
    mark_memmap_sound (λ i. false) bi.memmap i
        (punch-le (mark_memmap total (λ i. false) bi.memmap) (reserved_ranges bi kernel_end extra) i
          e),
  )

  -- No frame that holds a byte of a reserved range is free after boot.
  pub new_reserved :
      (bi : BootInfo) (kernel_end : ℕ) (extra : List (ℕ × ℕ)) (x : ℕ)
      → InRanges x (reserved_ranges bi kernel_end extra)
      → (new total bi kernel_end extra).bitmap (x / frame_size) ≡ false
  unfolding new boot_bitmap
  new_reserved bi kernel_end extra x r =
      elim (Bool-cases (boot_bitmap total bi kernel_end extra (x / frame_size))) [
        | inl t ↦
            let b = new-MayBeFree bi kernel_end extra (x / frame_size) t in
            punch_hole (mark_memmap total (λ i. false) bi.memmap)
              (reserved_ranges bi kernel_end extra) x (omega (arith, b.0)) (omega (arith, b.1)) r
        | inr e ↦ e
      ]

  -- Boot establishes the invariant, and owns no frame.
  pub new-IsValid :
      (bi : BootInfo) (kernel_end : ℕ) (extra : List (ℕ × ℕ))
      → 0 < total
      → IsValid total (new total bi kernel_end extra)
  unfolding new
  new-IsValid bi kernel_end extra h = record {
    counted = refl;
    cursor = h;
    disjoint = λ i o. absurd (true≢false (sym o));
  }
