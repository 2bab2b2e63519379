-- ===== src/Process/Vma/Map.antt =====
-- `mmap2`: what every outcome keeps.
use fantuan_kernel.Base.{
  ℕ, zero, suc, ◌+◌, ◌-◌, ◌/◌, ◌^◌, ◌≤◌, ◌<◌, ◌≡◌, refl, ap, ◌∙◌, ◌≢◌, inl, inr, Bool, false, ◌&&◌,
  not, some, arith, leb, ◌==◌, Option-cases, Bool-cases, update, update_self, update_ne, ℕ_discrete,
  subst,
}
use fantuan_kernel.Frame.{alloc_unlocked}
use fantuan_kernel.Process.Types.{Vma, Proc}
use fantuan_kernel.Process.Abi.{bit_set}
use fantuan_kernel.Process.Vma.{
  Table, Space, u64, page_down, vma_overlaps, max_end, reserve, map_reserved, place, map_pages,
  map_start, mmap2, kprot, Prot,
}
use fantuan_kernel.Process.Vma.Probe.{vma_overlaps-false, probe_from-free, mmap2_cases}
use fantuan_kernel.Process.Vma.Cover.{Within}

-- No two ranges in use share an address, and the table is within its bound.
pub record IsValid (p : Proc) : Type 0 where
  pub bounded : p.vma_n ≤ 8
  pub disjoint :
      (i j x : ℕ)
      → i < p.vma_n
      → j < p.vma_n
      → i ≢ j
      → ¬ (Within (p.vmas i) x × Within (p.vmas j) x)

map_pages-proc :
    (total : ℕ) (kp : Prot) (k va : ℕ) (m : Space) → (map_pages total kp k va m).1.proc ≡ m.proc
unfolding map_pages
map_pages-proc total kp zero va m = refl
map_pages-proc total kp (suc k) va m = elim (Option-cases (alloc_unlocked total m.frames).0) [
  | inl e ↦ rw (e, map_pages)
  | inr (f, e) ↦ rw (e, map_pages) (map_pages-proc total kp k (va + 0x1000) _)
]

map_reserved-proc :
    (total : ℕ) (m : Space) (base end prot : ℕ)
    → (map_reserved total m base end prot).1.proc ≡ m.proc
unfolding map_reserved
map_reserved-proc total m base end prot = elim (Option-cases (kprot prot)) [
  | inl e ↦ rw (e, map_reserved)
  | inr (kp, e) ↦ rw (e, map_reserved) (map_pages-proc total kp ((end - base) / 4096) base m)
]

-- A range that meets no other is added to a table with a free entry.
reserve-IsValid :
    (p : Proc) (start end prot : ℕ)
    → IsValid p
    → p.vma_n < 8
    → vma_overlaps p.vmas p.vma_n start end ≡ false
    → IsValid (reserve p start end prot)
unfolding reserve
reserve-IsValid p start end prot v l free = record {
  bounded = omega arith;
  disjoint = λ i j x a b d w. apart i j x a b d w.0 w.1;
}
  where
    new : Vma
    new = record { start = start; end = end; prot = prot }

    table : Table
    table = update p.vmas p.vma_n new

    met : (i j x : ℕ) → i ≡ p.vma_n → j < p.vma_n → Within (table i) x → Within (table j) x → ⊥
    met i j x e b w u =
        let a = subst (λ r. Within r x) (ap table e ∙ update_self p.vmas p.vma_n new) w in
        let c = subst (λ r. Within r x) (update_ne p.vmas p.vma_n j new (omega arith)) u in
        vma_overlaps-false p.vmas p.vma_n start end x free a.0 a.1 (j, b, c)

    apart :
        (i j x : ℕ)
        → i < p.vma_n + 1
        → j < p.vma_n + 1
        → i ≢ j
        → Within (table i) x
        → Within (table j) x
        → ⊥
    apart i j x a b d w u = elim (ℕ_discrete i p.vma_n) [
      | yes e ↦ met i j x e (omega arith) w u
      | no h ↦ elim (ℕ_discrete j p.vma_n) [
        | yes e ↦ met j i x e (omega arith) u w
        | no k ↦ v.disjoint i j x (omega arith) (omega arith) d (
          subst (λ r. Within r x) (update_ne p.vmas p.vma_n i new h) w,
          subst (λ r. Within r x) (update_ne p.vmas p.vma_n j new k) u,
        )
      ]
    ]

place-IsValid :
    (total : ℕ) (m : Space) (rounded prot start : ℕ) (fixed : Bool) (p : ℕ)
    → IsValid m.proc
    → vma_overlaps m.proc.vmas m.proc.vma_n p (u64 (p + rounded)) ≡ false
    → IsValid (place total m rounded prot start fixed p).1.proc
unfolding place
place-IsValid total m rounded prot start fixed p v free =
    elim (Bool-cases (fixed && not (p == start))) [
      | inl t ↦ rw t v
      | inr f ↦ rw f (elim (Bool-cases (leb 8 m.proc.vma_n)) [
        | inl t ↦ rw t v
        | inr g ↦
            rw
              (
                g,
                map_reserved-proc total
                    (record m { proc = reserve m.proc p (u64 (p + rounded)) prot }) p
                    (u64 (p + rounded)) prot,
              )
              (reserve-IsValid m.proc p (u64 (p + rounded)) prot v (ground arith) free)
      ])
    ]

-- On a valid table whose ranges end more than a page below the end of the address space, `mmap2`
-- returns, and leaves a valid table on every outcome.
pub mmap2-IsValid :
    (total : ℕ) (m : Space) (addr len prot flags fd : ℕ)
    → IsValid m.proc
    → max_end m.proc.vmas m.proc.vma_n < 2 ^ 64 - 4096
    → (r : ℕ × Space) × (mmap2 total m addr len prot flags fd ≡ some r) × IsValid r.1.proc
mmap2-IsValid total m addr len prot flags fd v small =
    mmap2_cases (λ r. IsValid r.1.proc) total m addr len prot flags fd small (λ e q. v)
      (λ p q f.
        place-IsValid total m (page_down (len + 0xFFF)) prot (map_start m.proc addr flags)
          (bit_set flags 4) p v
          (probe_from-free m.proc.vmas m.proc.vma_n (page_down (len + 0xFFF)) _ _ f))
