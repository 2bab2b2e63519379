-- ===== src/Witnesses/Frames.antt =====
-- The frame allocator on a map of eight frames.
use fantuan_kernel.Base.{
  ◌≡◌, refl, false, some, [], ◌∷◌, arith, ltb, leb, ◌&&◌, count, find_from, inl,
}
use fantuan_kernel.Frame.{
  Frames, BootInfo, new, alloc_unlocked, free_unlocked, alloc_contiguous_unlocked, claim,
  reserved_ranges,
}
use fantuan_kernel.Frame.Inv.{IsValid}
use fantuan_kernel.Frame.Boot.{new_reserved}
use fantuan_kernel.Frame.Alloc.{Allocated, alloc-IsValid, alloc-Allocated}
use fantuan_kernel.Frame.Free.{free-IsValid, free-alloc}
use fantuan_kernel.Frame.Contiguous.{RunAnswer, alloc_contiguous-RunAnswer}

-- Frames 2, 3, 4 and 5 of eight are free; the cursor stands at 4.
abbrev small : Frames
small = record { bitmap = λ i. leb 2 i && ltb i 6; owned = λ i. false; free_frames = 4; next = 4 }

small-IsValid : IsValid 8 small
unfolding count
small-IsValid = record { counted = refl; cursor = omega arith; disjoint = λ i o. ground arith }

alloc_small : (alloc_unlocked 8 small).0 ≡ some 16384
unfolding alloc_unlocked find_from
alloc_small = refl

alloc-IsValid_example : IsValid 8 (alloc_unlocked 8 small).1
alloc-IsValid_example = alloc-IsValid 8 small small-IsValid

alloc-Allocated_example : Allocated 8 small (alloc_unlocked 8 small)
alloc-Allocated_example = alloc-Allocated 8 small small-IsValid

free-alloc_example : (free_unlocked 8 (claim 8 small 4) 16384).free_frames ≡ 4
unfolding alloc_unlocked find_from
free-alloc_example = (free-alloc 8 small small-IsValid refl).1

free-IsValid_example : IsValid 8 (free_unlocked 8 small 12288)
free-IsValid_example = free-IsValid 8 small 12288 small-IsValid

contiguous_example : RunAnswer 8 small 2 (alloc_contiguous_unlocked 8 small 2)
contiguous_example = alloc_contiguous-RunAnswer 8 small 2 small-IsValid (omega arith)

-- One usable descriptor of four frames at 1 MiB.
abbrev machine : BootInfo
machine = record {
  memmap = record { type_ = 7; physical_start = 0x10_0000; number_of_pages = 4 } ∷ [];
  memmap_ptr = 0x5000;
  desc_size = 48;
  kernel_base = 0x10_0000;
  stack_top = 0x2_0000;
  boot_pml4 = 0x6000;
  boot_tables_pages = 2;
  address = 0x4000;
}

new_reserved_example : (new 512 machine 0x10_1000 []).bitmap 256 ≡ false
unfolding reserved_ranges
new_reserved_example =
    new_reserved 512 machine 0x10_1000 [] 0x10_0123 (inl (omega arith, omega arith))
