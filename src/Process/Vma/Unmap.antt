-- ===== src/Process/Vma/Unmap.antt =====
-- `munmap` and `mprotect` on a range that is reserved as a whole.
use fantuan_kernel.Base.{
  ℕ, ◌+◌, ◌-◌, ◌*◌, ◌/◌, ◌%◌, ◌^◌, ◌≤◌, ◌<◌, ◌≡◌, refl, ap, ◌∙◌, none, ◌≢◌, ◌↔◌, inl, inr, true,
  ◌++◌, arith, Bool-cases, ==_of_ne,
}
use fantuan_kernel.Process.Types.{Proc}
use fantuan_kernel.Process.Abi.{sys_ok, err_inval}
use fantuan_kernel.Process.Vma.{
  Space, page_down, range_end, munmap, mprotect, unmap_pages, vma_contains, vma_forget,
}
use fantuan_kernel.Process.Vma.Cover.{Inside}
use fantuan_kernel.Process.Vma.Pages.{
  Pages, replay, replay-append, unmap_pages-Inside, unmap_pages_outside,
}
use fantuan_kernel.Process.Vma.Contains.{vma_contains_iff}
use fantuan_kernel.Process.Vma.Forget.{Reserved, stricts, vma_forget_lem}

-- The whole of `start..end` is reserved.
abbrev pub AllReserved : Proc → ℕ → ℕ → Type 0
AllReserved p start end = (x : ℕ) → start ≤ x → x < end → Reserved p x

pub munmap_go :
    (m : Space) (addr len : ℕ)
    → len ≢ 0
    → vma_contains m.proc (page_down addr) (range_end addr len) ≡ true
    → munmap m addr len ≡ (
      sys_ok,
      record m {
        proc = vma_forget m.proc (page_down addr) (range_end addr len);
        ops = m.ops ++ unmap_pages ((range_end addr len - page_down addr) / 4096) (page_down addr);
      },
    )
unfolding munmap
munmap_go m addr len h e = rw (==_of_ne len 0 h, e)

-- The call succeeds; what is reserved and the pages that are there are those that were, less the
-- page range. `t` is what the address space was before the first of the operations.
abbrev pub Unmapped : Space → ℕ → ℕ → ℕ × Space → Type 0
Unmapped m addr len (r, m') =
    (r ≡ sys_ok)
    × ((x : ℕ)
        → Reserved m'.proc x
          ↔ (Reserved m.proc x × ¬ Inside (page_down addr) (range_end addr len) x))
    × ((t : Pages) (x : ℕ)
        → x % 4096 ≡ 0
        → Inside (page_down addr) (range_end addr len) x
        → replay m'.ops t x ≡ none)
    × ((t : Pages) (x : ℕ)
        → ¬ Inside (page_down addr) (range_end addr len) x
        → replay m'.ops t x ≡ replay m.ops t x)

-- For a length that is not 0, if the end of the range does not wrap when it is rounded up, the
-- whole page range is reserved and the table has room for the splits that are due, then `munmap`
-- succeeds, takes exactly the page range out of what is reserved, leaves no page of the range
-- mapped, and leaves every page outside it as it was.
pub munmap_lem :
    (m : Space) (addr len : ℕ)
    → len ≢ 0
    → addr + len + 0xFFF < 2 ^ 64
    → AllReserved m.proc (page_down addr) (range_end addr len)
    → stricts (page_down addr) (range_end addr len) m.proc.vmas m.proc.vma_n + m.proc.vma_n ≤ 8
    → Unmapped m addr len (munmap m addr len)
munmap_lem m addr len h small all room =
    let start = page_down addr in
    let k = (range_end addr len - start) / 4096 in
    let end : start + k * 4096 ≡ range_end addr len = omega (arith, small) in
    rw
      (munmap_go m addr len h
        ((vma_contains_iff m.proc (page_down addr) (range_end addr len)).1 all))
      (
        refl,
        λ x. vma_forget_lem m.proc (page_down addr) (range_end addr len) x (omega arith) room,
        λ t x a i.
            ap (λ (q : Pages). q x) (replay-append m.ops (unmap_pages k start) t)
            ∙ unmap_pages-Inside k start (replay m.ops t) x (omega arith) a
                (i.0, omega (arith, end, i.1)),
        λ t x out.
            ap (λ (q : Pages). q x) (replay-append m.ops (unmap_pages k start) t)
            ∙ unmap_pages_outside k start (replay m.ops t) x
                (λ i. out (i.0, omega (arith, end, i.1))),
      )

-- If some address of the page range is not reserved, `munmap` and `mprotect` fail and change
-- nothing.
pub unreserved_refused :
    (m : Space) (addr len prot x : ℕ)
    → page_down addr ≤ x
    → x < range_end addr len
    → ¬ Reserved m.proc x
    → (munmap m addr len ≡ (err_inval, m)) × (mprotect m addr len prot ≡ (err_inval, m))
unfolding munmap mprotect
unreserved_refused m addr len prot x l h out =
    elim (Bool-cases (vma_contains m.proc (page_down addr) (range_end addr len))) [
      | inl t ↦
          absurd (out ((vma_contains_iff m.proc (page_down addr) (range_end addr len)).0 t x l h))
      | inr f ↦ (ground arith, ground arith)
    ]
