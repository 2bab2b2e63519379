-- ===== src/Witnesses/Spaces.antt =====
-- The address-space calls on small tables.
use fantuan_kernel.Base.{
  ℕ, ◌+◌, ◌-◌, ◌*◌, ◌^◌, ◌<◌, ◌≤◌, ◌≡◌, ◌↔◌, refl, count, [], arith, true, false, ltb, some,
}
use fantuan_kernel.Process.Types.{Proc, empty_proc}
use fantuan_kernel.Process.Abi.{phys_offset, user_mmap_base}
use fantuan_kernel.Process.Vma.{
  Space, vma_forget, vma_contains, mmap2, munmap, max_end, page_down, reserve, kprot, rw_,
}
use fantuan_kernel.Process.Vma.Cover.{Covered, Inside}
use fantuan_kernel.Process.Vma.Forget.{Reserved, vma_forget_lem}
use fantuan_kernel.Process.Vma.Contains.{vma_contains_iff}
use fantuan_kernel.Process.Vma.Map.{IsValid, mmap2-IsValid}
use fantuan_kernel.Process.Vma.Unmap.{Unmapped, munmap_lem}
use fantuan_kernel.Process.Vma.Faults.{mmap2_fixed_wraps}

-- A process with n ranges of eight pages, 64 KiB apart.
abbrev ranges : ℕ → Proc
ranges n = record empty_proc {
  vmas = λ i. record {
    start = 0x1000_0000 + i * 0x1_0000;
    end = 0x1000_8000 + i * 0x1_0000;
    prot = 3;
  };
  vma_n = n;
}

abbrev space : ℕ → Space
space n = record {
  proc = ranges n;
  frames = record { bitmap = λ i. ltb i 8; owned = λ i. false; free_frames = 8; next = 0 };
  ops = [];
}

vma_forget_example :
    Reserved (vma_forget (ranges 2) 0x1000_2000 0x1000_3000) 0x1000_1000
    ↔ (Reserved (ranges 2) 0x1000_1000 × ¬ Inside 0x1000_2000 0x1000_3000 0x1000_1000)
unfolding count
vma_forget_example =
    vma_forget_lem (ranges 2) 0x1000_2000 0x1000_3000 0x1000_1000 (omega arith) (omega arith)

vma_contains_example :
    (vma_contains (ranges 1) 0x1000_0000 0x1000_8000 ≡ true)
    ↔ ((x : ℕ) → 0x1000_0000 ≤ x → x < 0x1000_8000 → Covered (ranges 1).vmas 1 x)
vma_contains_example = vma_contains_iff (ranges 1) 0x1000_0000 0x1000_8000

mmap2-IsValid_example :
    (r : ℕ × Space) × (mmap2 8 (space 0) 0 8192 3 0x22 (2 ^ 64 - 1) ≡ some r) × IsValid r.1.proc
unfolding max_end
mmap2-IsValid_example =
    mmap2-IsValid 8 (space 0) 0 8192 3 0x22 (2 ^ 64 - 1)
      (record { bounded = omega arith; disjoint = λ i j x l. absurd (omega arith) }) (omega arith)

munmap_example : Unmapped (space 1) 0x1000_2000 4096 (munmap (space 1) 0x1000_2000 4096)
unfolding count
munmap_example =
    munmap_lem (space 1) 0x1000_2000 4096 (omega arith) (omega arith)
      (λ x l m. (0, omega arith, (omega arith, omega arith))) (omega arith)

fixed_wraps_example :
    let addr : ℕ = 2 ^ 64 - 4096 in
    let end = page_down addr + page_down (8192 + 0xFFF) - 2 ^ 64 in
    (mmap2 8 (space 0) addr 8192 3 0x32 (2 ^ 64 - 1)
      ≡ some
          (page_down addr, record (space 0) { proc = reserve (ranges 0) (page_down addr) end 3 }))
    × (phys_offset < page_down addr)
    × (end < user_mmap_base)
unfolding max_end kprot
fixed_wraps_example =
    mmap2_fixed_wraps 8 (space 0) (2 ^ 64 - 4096) 8192 3 0x32 (2 ^ 64 - 1) rw_
      (record {
        some_length = omega arith;
        small = omega arith;
        anonymous = refl;
        not_shared = refl;
        no_file = omega arith;
        fixed = refl;
        word = omega arith;
        past_top = omega arith;
        user_ranges = omega arith;
        free_entry = omega arith;
      })
      refl
