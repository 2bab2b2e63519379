-- ===== src/Process/Brk/Inv.antt =====
-- The heap of a task grows by whole pages, and the break lies in what is mapped.
use fantuan_kernel.Base.{
  ℕ, ◌+◌, ◌-◌, ◌/◌, ◌%◌, ◌^◌, ◌≤◌, ◌<◌, ◌≡◌, refl, ap, ◌∙◌, ◌⊎◌, inl, inr, Bool, true, false, ◌||◌,
  arith, subst, sym, ◌==◌, ltb, if◌then◌else◌, if_elim, Bool-cases, ltb→lt, ltb→le, ==_of_ne,
  le→not_ltb, lt→ltb,
}
use fantuan_kernel.Frame.Inv as Frame
use fantuan_kernel.Process.Abi.{user_heap_base, err_inval, err_nomem}
use fantuan_kernel.Process.Vma.{page_down}
use fantuan_kernel.Process.Vma.Pages.{Pages}
use fantuan_kernel.Process.Brk.{
  heap_base, fresh_heap, Heap, State, grow, needed_end, set_break, brk,
}
use fantuan_kernel.Process.Brk.Growth.{
  IsMapped, Extends, Grown, unextended, grow-Grown, extended-IsMapped,
}

pub record IsValid (h : Heap) : Type 0 where
  pub above : user_heap_base ≤ h.base
  pub start : h.base % 4096 ≡ 0
  pub ordered : h.base ≤ h.brk
  pub inside : h.brk ≤ h.mapped
  pub whole : h.mapped % 4096 ≡ 0

-- The heap that a task starts with is valid, unless the rounding up wraps.
fresh_heap-IsValid : (base : ℕ) → base + 0xFFF < 2 ^ 64 → IsValid (fresh_heap base)
unfolding fresh_heap heap_base
fresh_heap-IsValid base small =
    if_elim (λ b. IsValid (record { base = b; brk = b; mapped = b })) (ltb base user_heap_base)
      (λ l. record {
        above = omega arith;
        start = refl;
        ordered = omega arith;
        inside = omega arith;
        whole = refl;
      })
      (λ l.
        let h : user_heap_base ≤ base = ltb→le base user_heap_base l in
        record {
          above = omega (arith, h, small);
          start = omega arith;
          ordered = omega arith;
          inside = omega arith;
          whole = omega arith;
        })

-- The outcomes of a call: a valid heap and a valid allocator, whose pages are there if they were before, with the pages
-- outside what it grew by as they were and the new ones zeroed; and either the break as it is now, or an error with the break
-- unchanged.
pub record Answered (t : Pages) (total addr : ℕ) (m : State) (r : ℕ × State) : Type 0 where
  pub valid : IsValid r.1.heap
  pub base : r.1.heap.base ≡ m.heap.base
  pub monotone : m.heap.mapped ≤ r.1.heap.mapped
  pub pages : Extends t m r.1
  pub frames : Frame.IsValid total r.1.frames
  pub mapped : IsMapped t m.heap m.ops → IsMapped t r.1.heap r.1.ops
  pub answer :
      ((r.0 ≡ r.1.heap.brk) × ((addr ≡ 0) ⊎ (r.0 ≡ addr)))
      ⊎ (((r.0 ≡ err_inval) ⊎ (r.0 ≡ err_nomem)) × (r.1.heap.brk ≡ m.heap.brk))

as_is :
    (total : ℕ) (m : State) (addr : ℕ) → IsValid m.heap → brk total m addr ≡ set_break total m addr
unfolding brk
as_is total m addr v =
    ap (λ x. set_break total x addr)
      (if_elim (λ (x : State). x ≡ m) (m.heap.brk == 0)
        (λ t. absurd (ground (arith, v.above, v.ordered))) (λ f. refl))

set_break-Answered :
    (t : Pages) (total : ℕ) (m : State) (addr : ℕ)
    → IsValid m.heap
    → addr + 0xFFF < 2 ^ 64
    → Frame.IsValid total m.frames
    → Answered t total addr m (set_break total m addr)
unfolding set_break
set_break-Answered t total m addr v small fs =
    if_elim (Answered t total addr m) (addr == 0 || addr == m.heap.brk)
      (λ z. unchanged m v refl refl refl refl (inl (refl, ground arith)))
      λ n.
        if_elim (Answered t total addr m) (ltb addr m.heap.base)
          (λ z. unchanged m v refl refl refl refl (inr (inl refl, refl)))
          λ h. elim (Bool-cases (ltb m.heap.mapped addr)) [
            | inl z ↦ rw z (
                grown
                  (grow total ((needed_end addr - page_down m.heap.mapped) / 4096)
                    (page_down m.heap.mapped) m)
                  (ltb→lt m.heap.mapped addr z) (ltb→le addr m.heap.base h)
                  (grow-Grown t total ((needed_end addr - page_down m.heap.mapped) / 4096)
                    (page_down m.heap.mapped) m (omega (arith, v.whole)) (omega arith) fs))
            | inr f ↦ rw f (
                unchanged (record m { heap = record m.heap { brk = addr } })
                  (record {
                    above = v.above;
                    start = v.start;
                    ordered = ltb→le addr m.heap.base h;
                    inside = ltb→le m.heap.mapped addr f;
                    whole = v.whole;
                  })
                  refl refl refl refl (inl (refl, inr refl)))
          ]
  where
    -- The heap did not grow.
    unchanged :
        {r : ℕ} (m' : State)
        → IsValid m'.heap
        → m'.heap.base ≡ m.heap.base
        → m'.heap.mapped ≡ m.heap.mapped
        → m'.ops ≡ m.ops
        → m'.frames ≡ m.frames
        → ((r ≡ m'.heap.brk) × ((addr ≡ 0) ⊎ (r ≡ addr)))
          ⊎ (((r ≡ err_inval) ⊎ (r ≡ err_nomem)) × (m'.heap.brk ≡ m.heap.brk))
        → Answered t total addr m (r, m')
    unchanged m' v' b e o f a =
        let x = unextended t m m' e o f in
        record {
          valid = v';
          base = b;
          monotone = omega (arith, e);
          pages = x;
          frames = subst (Frame.IsValid total) (sym f) fs;
          mapped = extended-IsMapped t m m' b x;
          answer = a;
        }

    grown :
        (r : Bool × State)
        → m.heap.mapped < addr
        → m.heap.base ≤ addr
        → Grown t total
            ((needed_end addr - page_down m.heap.mapped) / 4096)
            (page_down m.heap.mapped)
            m
            r
        → Answered t total addr m (
            if r.0
            then (addr, record r.1 { heap = record r.1.heap { brk = addr } })
            else (err_nomem, r.1))
    grown (true, m') l h g = record {
      valid = record {
        above = omega (arith, v.above, g.base);
        start = omega (arith, v.start, g.base);
        ordered = omega (arith, g.base);
        inside = omega (arith, g.reached refl, v.whole, small);
        whole = g.whole;
      };
      base = g.base;
      monotone = g.monotone;
      pages = record {
        added = g.extends.added;
        same = g.extends.same;
        fresh = g.extends.fresh;
        kept = g.extends.kept;
        own = g.extends.own;
        used_kept = g.extends.used_kept;
        owned_kept = g.extends.owned_kept;
      };
      frames = g.frames;
      mapped = extended-IsMapped t m m' g.base g.extends;
      answer = inl (refl, inr refl);
    }
    grown (false, m') l h g = record {
      valid = record {
        above = omega (arith, v.above, g.base);
        start = omega (arith, v.start, g.base);
        ordered = omega (arith, v.ordered, g.base, g.brk);
        inside = omega (arith, v.inside, g.brk, g.monotone);
        whole = g.whole;
      };
      base = g.base;
      monotone = g.monotone;
      pages = g.extends;
      frames = g.frames;
      mapped = extended-IsMapped t m m' g.base g.extends;
      answer = inr (inr refl, g.brk);
    }

-- On a valid heap and a valid allocator, for an address at which the rounding up does not wrap,
-- `brk` leaves both valid, with the same base and the break below the mapped end; if every page of
-- the heap was mapped, writable, before, then so it is after; each page that the heap grew by is
-- mapped to a frame of its own that was free, and that the call takes and zeroes, and the pages
-- outside these are as they were. The call answers with the break, which is the address unless
-- that is 0, or fails and leaves the break as it was.
pub brk-Answered :
    (t : Pages) (total : ℕ) (m : State) (addr : ℕ)
    → IsValid m.heap
    → addr + 0xFFF < 2 ^ 64
    → Frame.IsValid total m.frames
    → Answered t total addr m (brk total m addr)
brk-Answered t total m addr v small fs =
    rw (as_is total m addr v) (set_break-Answered t total m addr v small fs)

set_break_wraps :
    (total : ℕ) (m : State) (addr : ℕ)
    → IsValid m.heap
    → m.heap.mapped < addr
    → addr < 2 ^ 64
    → 2 ^ 64 ≤ addr + 0xFFF
    → set_break total m addr ≡ (addr, record m { heap = record m.heap { brk = addr } })
unfolding set_break grow
set_break_wraps total m addr v l word past =
    let none_needed : (needed_end addr - page_down m.heap.mapped) / 4096 ≡ 0 =
      omega (arith, word, past) in
    rw
      (
        ==_of_ne addr 0 (omega arith),
        ==_of_ne addr m.heap.brk (omega (arith, v.inside)),
        le→not_ltb addr m.heap.base (omega (arith, v.inside, v.ordered)),
        lt→ltb m.heap.mapped addr l,
        none_needed,
        grow,
      )
      refl

-- On a valid heap, for an address in the last page of the address space and above what is mapped,
-- the rounding up wraps to 0: the call maps no page and answers with the new break, which lies
-- beyond what is mapped.
brk_wraps :
    (total : ℕ) (m : State) (addr : ℕ)
    → IsValid m.heap
    → m.heap.mapped < addr
    → addr < 2 ^ 64
    → 2 ^ 64 ≤ addr + 0xFFF
    → brk total m addr ≡ (addr, record m { heap = record m.heap { brk = addr } })
brk_wraps total m addr v l word past =
    as_is total m addr v ∙ set_break_wraps total m addr v l word past
