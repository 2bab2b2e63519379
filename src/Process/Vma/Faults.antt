-- ===== src/Process/Vma/Faults.antt =====
-- Inputs on which the address-space calls do what they do not mean to.
use fantuan_kernel.Base.{
  subst, ℕ, ◌+◌, ◌-◌, ◌*◌, ◌/◌, ◌^◌, ◌≤◌, ◌<◌, ◌≡◌, refl, sym, ap, ◌∙◌, ◌≢◌, Bool, true, false,
  some, none, ◌++◌, arith, ==_self, ==_of_ne, lt→not_leb, le→not_ltb, none-ne-some, zero, suc,
}
use fantuan_kernel.Process.Types.{Proc}
use fantuan_kernel.Process.Abi.{sys_ok, err_inval, bit_set, phys_offset, user_mmap_base}
use fantuan_kernel.Process.Vma.{
  Space, page_down, range_end, u64, munmap, mmap2, unmap_pages, map_refusal, place, map_reserved,
  max_end, reserve, kprot, map_start, map_probe, Table, Prot, probe_from, vma_overlaps, map_pages,
}
use fantuan_kernel.Process.Vma.Probe.{mmap2_cases, placed, some_fuel, max_end-le, vma_overlaps-true}
use fantuan_kernel.Process.Vma.Contains.{vma_contains_iff}
use fantuan_kernel.Process.Vma.Unmap.{munmap_go}
use fantuan_kernel.Process.Vma.Forget.{vma_forget_full}

place_prot_none :
    (total : ℕ) (m : Space) (rounded start p : ℕ)
    → m.proc.vma_n < 8
    → let r = place total m rounded 0 start false p in
      (r.0 ≡ err_inval) × (r.1.proc.vma_n ≡ m.proc.vma_n + 1)
unfolding place map_reserved kprot reserve
place_prot_none total m rounded start p h = rw (lt→not_leb m.proc.vma_n 8 h) (refl, refl)

-- A request for PROT_NONE that passes the guards, without MAP_FIXED, on a table that is not full
-- and whose ranges end more than a page below 2^64, fails with EINVAL and nevertheless takes an
-- entry of the table.
pub mmap2_prot_none_leaks :
    (total : ℕ) (m : Space) (addr len flags fd : ℕ)
    → map_refusal m.proc addr len flags fd ≡ none
    → bit_set flags 4 ≡ false
    → m.proc.vma_n < 8
    → max_end m.proc.vmas m.proc.vma_n < 2 ^ 64 - 4096
    → (m' : Space) × (mmap2 total m addr len 0 flags fd ≡ some (err_inval, m'))
      × (m'.proc.vma_n ≡ m.proc.vma_n + 1)
mmap2_prot_none_leaks total m addr len flags fd passes free room small =
    let (r, e, done) =
      mmap2_cases (λ r. (r.0 ≡ err_inval) × (r.1.proc.vma_n ≡ m.proc.vma_n + 1)) total m addr len 0
        flags fd small (λ e q. absurd (none-ne-some (sym passes ∙ q)))
        (λ p q f. rw free (
          place_prot_none total m (page_down (len + 0xFFF)) (map_start m.proc addr flags) p
            room)) in
    (r.1, e ∙ ap (λ c. some (c, r.1)) done.0, done.1)

-- On a full table, `munmap` of a range strictly inside the first range, whose end does not wrap,
-- succeeds and unmaps the pages, but the process record still lists them.
pub munmap_full_table_keeps_record :
    (m : Space) (addr len : ℕ)
    → len ≢ 0
    → addr + len + 0xFFF < 2 ^ 64
    → m.proc.vma_n ≡ 8
    → (m.proc.vmas 0).start < page_down addr
    → range_end addr len < (m.proc.vmas 0).end
    → munmap m addr len ≡ (
      sys_ok,
      record m {
        ops = m.ops ++ unmap_pages ((range_end addr len - page_down addr) / 4096) (page_down addr);
      },
    )
munmap_full_table_keeps_record m addr len h small full low high = rw (
  munmap_go m addr len h (
      (vma_contains_iff m.proc (page_down addr) (range_end addr len)).1
        (λ x l r. (0, omega arith, (omega arith, omega arith)))),
  vma_forget_full m.proc (page_down addr) (range_end addr len) (omega arith) full low high,
)

probe_first :
    (vs : Table) (n rounded fuel probe : ℕ)
    → 0 < fuel
    → vma_overlaps vs n probe (u64 (probe + rounded)) ≡ false
    → probe_from vs n rounded fuel probe ≡ some probe
unfolding probe_from
probe_first vs n rounded zero probe h e = absurd (omega arith)
probe_first vs n rounded (suc fuel) probe h e = rw (e, probe_from)

-- What a request must be for the end of its range to wrap round to 0 or above.
pub record IsWrapping (p : Proc) (addr len prot flags fd : ℕ) : Type 0 where
  pub some_length : 0 < len
  pub small : len ≤ 64 * 2 ^ 20
  pub anonymous : bit_set flags 5 ≡ true
  pub not_shared : bit_set flags 0 ≡ false
  pub no_file : 2 ^ 63 ≤ fd
  pub fixed : bit_set flags 4 ≡ true
  pub word : addr < 2 ^ 64
  pub past_top : 2 ^ 64 ≤ page_down addr + page_down (len + 0xFFF)
  pub user_ranges : max_end p.vmas p.vma_n ≤ phys_offset
  pub free_entry : p.vma_n < 8

wraps_passes :
    (p : Proc) (addr len prot flags fd : ℕ)
    → IsWrapping p addr len prot flags fd
    → map_refusal p addr len flags fd ≡ none
unfolding map_refusal map_start
wraps_passes p addr len prot flags fd w = rw (
  ==_of_ne len 0 (omega (arith, w.some_length)),
  le→not_ltb (64 * 2 ^ 20) len w.small,
  w.anonymous,
  w.not_shared,
  le→not_ltb fd (2 ^ 63) w.no_file,
  w.fixed,
  le→not_ltb (page_down addr) user_mmap_base (omega (arith, w.past_top, w.small)),
  le→not_ltb phys_offset (u64 (page_down addr + page_down (len + 0xFFF)))
      (omega (arith, w.past_top, w.small, w.word)),
)

wraps_probe :
    (p : Proc) (addr len prot flags fd : ℕ)
    → IsWrapping p addr len prot flags fd
    → map_probe p addr len flags ≡ some (page_down addr)
unfolding map_start
wraps_probe p addr len prot flags fd w = rw w.fixed (
    probe_first p.vmas p.vma_n (page_down (len + 0xFFF)) _ (page_down addr)
      (some_fuel p.vmas p.vma_n) (clear (vma_overlaps p.vmas p.vma_n (page_down addr) _) refl))
  where
    clear :
        (b : Bool)
        → vma_overlaps p.vmas p.vma_n
            (page_down addr)
            (u64 (page_down addr + page_down (len + 0xFFF)))
          ≡ b
        → b ≡ false
    clear false e = refl
    clear true e =
        let (j, k, l) = vma_overlaps-true p.vmas p.vma_n (page_down addr) _ e in
        absurd (omega (arith, max_end-le p.vmas p.vma_n j k, w.user_ranges, w.past_top, w.small))

map_start_fixed :
    (p : Proc) (addr flags : ℕ) → bit_set flags 4 ≡ true → map_start p addr flags ≡ page_down addr
unfolding map_start
map_start_fixed p addr flags f = rw f

map_reserved_empty :
    (total : ℕ) (m : Space) (base end prot : ℕ) (kp : Prot)
    → end ≤ base
    → kprot prot ≡ some kp
    → map_reserved total m base end prot ≡ (base, m)
unfolding map_reserved map_pages
map_reserved_empty total m base end prot kp h k =
    let none_left : (end - base) / 4096 ≡ 0 = omega arith in
    rw (k, map_reserved, none_left, map_pages)

place_empty :
    (total : ℕ) (m : Space) (rounded prot start end : ℕ) (kp : Prot)
    → u64 (start + rounded) ≡ end
    → end ≤ start
    → m.proc.vma_n < 8
    → kprot prot ≡ some kp
    → place total m rounded prot start true start
      ≡ (start, record m { proc = reserve m.proc start end prot })
unfolding place
place_empty total m rounded prot start end kp e l h k =
    let at : ℕ → Space = λ x. record m { proc = reserve m.proc start x prot } in
    rw (==_self start, lt→not_leb m.proc.vma_n 8 h)
      (subst (λ x. map_reserved total (at x) start x prot ≡ (start, at end)) (sym e)
        (map_reserved_empty total (at end) start end prot kp l k))

-- A MAP_FIXED request at the top of the address space that meets `IsWrapping` and asks for a protection
-- that is granted passes the range check: `mmap2` returns the kernel address as a success, maps no
-- page, records the range and sets `mmap_next` to the wrapped end, below the base of the mmap
-- region.
pub mmap2_fixed_wraps :
    (total : ℕ) (m : Space) (addr len prot flags fd : ℕ) (kp : Prot)
    → IsWrapping m.proc addr len prot flags fd
    → kprot prot ≡ some kp
    → let end = page_down addr + page_down (len + 0xFFF) - 2 ^ 64 in
      (mmap2 total m addr len prot flags fd
        ≡ some (page_down addr, record m { proc = reserve m.proc (page_down addr) end prot }))
      × (phys_offset < page_down addr)
      × (end < user_mmap_base)
mmap2_fixed_wraps total m addr len prot flags fd kp w k =
    let start = page_down addr in
    let rounded = page_down (len + 0xFFF) in
    (
      placed total m addr len prot flags fd start (wraps_passes m.proc addr len prot flags fd w)
            (wraps_probe m.proc addr len prot flags fd w)
          ∙ ap some (
              rw (map_start_fixed m.proc addr flags w.fixed, w.fixed)
                (place_empty total m rounded prot start (start + rounded - 2 ^ 64) kp
                  (omega (arith, w.past_top, w.small, w.word)) (omega (arith, w.small, w.past_top))
                  w.free_entry k)),
      omega (arith, w.past_top, w.small),
      omega (arith, w.word, w.small),
    )
