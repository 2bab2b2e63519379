-- ===== src/Process/Vma/Probe.antt =====
-- `mmap2`: the probe for a free range, and how it ends.
use fantuan_kernel.Base.{
  ℕ, zero, suc, ◌+◌, ◌-◌, ◌*◌, ◌^◌, ◌≤◌, ◌<◌, ◌≡◌, inl, inr, true, false, some, none, arith,
  find_from, find_from-some, find_from-none, is_some, Option-cases, Bool-cases, ℕ_discrete, subst,
}
use fantuan_kernel.Process.Abi.{bit_set}
use fantuan_kernel.Process.Vma.{
  Table, Space, u64, page_down, overlaps, vma_overlaps, probe_from, probe_fuel, max_end, place,
  map_start, map_refusal, map_probe, mmap2,
}
use fantuan_kernel.Process.Vma.Cover.{Covered}

pub vma_overlaps-false :
    (vs : Table) (n start end x : ℕ)
    → vma_overlaps vs n start end ≡ false
    → start ≤ x
    → x < end
    → ¬ Covered vs n x
unfolding vma_overlaps is_some
vma_overlaps-false vs n start end x e h l (j, m, w) =
    elim (Option-cases (find_from (λ i. overlaps (vs i) start end) 0 n)) [
      | inl q ↦ absurd (
          ground (
            arith,
            find_from-none (λ i. overlaps (vs i) start end) 0 n q j (omega arith) (omega arith),
          ))
      | inr (k, q) ↦ absurd (ground arith)
    ]

pub vma_overlaps-true :
    (vs : Table) (n start end : ℕ)
    → vma_overlaps vs n start end ≡ true
    → (j : ℕ) × (j < n) × (start < (vs j).end)
unfolding vma_overlaps is_some
vma_overlaps-true vs n start end e =
    elim (Option-cases (find_from (λ i. overlaps (vs i) start end) 0 n)) [
      | inl q ↦ absurd (ground arith)
      | inr (k, q) ↦
          let f = find_from-some (λ i. overlaps (vs i) start end) 0 n q in
          (k, omega (arith, f.1), ground (arith, f.2))
    ]

-- Where the probe stops, nothing is reserved.
pub probe_from-free :
    (vs : Table) (n rounded fuel probe : ℕ) {p : ℕ}
    → probe_from vs n rounded fuel probe ≡ some p
    → vma_overlaps vs n p (u64 (p + rounded)) ≡ false
unfolding probe_from
probe_from-free vs n rounded zero probe e = absurd (ground arith)
probe_from-free vs n rounded (suc fuel) probe {p = p} e =
    elim (Bool-cases (vma_overlaps vs n probe (u64 (probe + rounded)))) [
      | inl t ↦ probe_from-free vs n rounded fuel (u64 (probe + 0x1000)) {p = p} (ground arith)
      | inr f ↦
          let q : probe ≡ p = ground arith in
          subst (λ k. vma_overlaps vs n k (u64 (k + rounded)) ≡ false) q f
    ]

pub max_end-le : (vs : Table) (n j : ℕ) → j < n → (vs j).end ≤ max_end vs n
unfolding max_end
max_end-le vs zero j l = absurd (omega arith)
max_end-le vs (suc n) j l = elim (ℕ_discrete j n) [
  | yes e ↦ rw e (omega arith)
  | no d ↦ omega (arith, max_end-le vs n j (omega arith))
]

-- Past the last range nothing overlaps, so the probe ends in at most one round for each page
-- below it.
probe_from_total :
    (vs : Table) (n rounded fuel probe : ℕ)
    → max_end vs n < 2 ^ 64 - 4096
    → max_end vs n + 4096 ≤ probe + 4096 * fuel
    → 0 < fuel
    → (p : ℕ) × (probe_from vs n rounded fuel probe ≡ some p)
unfolding probe_from
probe_from_total vs n rounded zero probe small h l = absurd (omega arith)
probe_from_total vs n rounded (suc fuel) probe small h l =
    elim (Bool-cases (vma_overlaps vs n probe (u64 (probe + rounded)))) [
      | inl t ↦
          let (j, k, m) = vma_overlaps-true vs n probe (u64 (probe + rounded)) t in
          let r =
            probe_from_total vs n rounded fuel (u64 (probe + 0x1000)) small
              (omega (arith, max_end-le vs n j k)) (omega (arith, max_end-le vs n j k)) in
          (r.0, rw (t, probe_from) r.1)
      | inr f ↦ (probe, rw (f, probe_from))
    ]

pub refused :
    (total : ℕ) (m : Space) (addr len prot flags fd : ℕ) {e : ℕ}
    → map_refusal m.proc addr len flags fd ≡ some e
    → mmap2 total m addr len prot flags fd ≡ some (e, m)
unfolding mmap2
refused total m addr len prot flags fd e = rw (e, mmap2)

pub placed :
    (total : ℕ) (m : Space) (addr len prot flags fd p : ℕ)
    → map_refusal m.proc addr len flags fd ≡ none
    → map_probe m.proc addr len flags ≡ some p
    → mmap2 total m addr len prot flags fd
      ≡ some (
          place total m
            (page_down (len + 0xFFF))
            prot
            (map_start m.proc addr flags)
            (bit_set flags 4)
            p)
unfolding mmap2
placed total m addr len prot flags fd p e f = rw (e, mmap2, f)

enough : (vs : Table) (n start : ℕ) → max_end vs n + 4096 ≤ start + 4096 * probe_fuel vs n
unfolding probe_fuel
enough vs n start = omega arith

pub some_fuel : (vs : Table) (n : ℕ) → 0 < probe_fuel vs n
unfolding probe_fuel
some_fuel vs n = omega arith

-- `mmap2` is refused and changes nothing, or its probe finds the range that it tries to place.
pub mmap2_cases {κ} :
    (P : ℕ × Space → Type κ) (total : ℕ) (m : Space) (addr len prot flags fd : ℕ)
    → max_end m.proc.vmas m.proc.vma_n < 2 ^ 64 - 4096
    → ((e : ℕ) → map_refusal m.proc addr len flags fd ≡ some e → P (e, m))
    → ((p : ℕ)
        → map_refusal m.proc addr len flags fd ≡ none
        → map_probe m.proc addr len flags ≡ some p
        → P (
            place total m
              (page_down (len + 0xFFF))
              prot
              (map_start m.proc addr flags)
              (bit_set flags 4)
              p))
    → (r : ℕ × Space) × (mmap2 total m addr len prot flags fd ≡ some r) × P r
mmap2_cases P total m addr len prot flags fd small no_way way =
    elim (Option-cases (map_refusal m.proc addr len flags fd)) [
      | inr (e, q) ↦ (_, refused total m addr len prot flags fd q, no_way e q)
      | inl q ↦
          let (p, f) =
            probe_from_total m.proc.vmas m.proc.vma_n (page_down (len + 0xFFF))
              (probe_fuel m.proc.vmas m.proc.vma_n) (map_start m.proc addr flags) small
              (enough m.proc.vmas m.proc.vma_n (map_start m.proc addr flags))
              (some_fuel m.proc.vmas m.proc.vma_n) in
          (_, placed total m addr len prot flags fd p q f, way p q f)
    ]
