-- ===== src/Vfs/Runlist/Chain.antt =====
-- What `decode` accepts: runs that follow one another from cluster 0 to the end, so that `run_at`
-- finds every cluster below it.
use fantuan_kernel.Base.{
  ℕ, zero, suc, ◌+◌, ◌/◌, ◌%◌, ◌^◌, ◌≤◌, ◌<◌, ◌≡◌, refl, ap, ◌∙◌, subst, false, ◌||◌, Option, none,
  some, List, [], ◌∷◌, arith, length, ◌==◌, ltb, leb, if_elim, Bool-cases, Option-cases, inl, inr,
  some-inj, none-ne-some,
}
use fantuan_kernel.Vfs.Runlist.{
  Run, RunList, read_uint, read_lcn, read_run, decode_from, decode, not_empty, covers, run_at,
}

-- Runs of at least one cluster each that follow one another from one cluster to another.
pub data Chain : ℕ → ℕ → List Run → Type 0 where
  ends : (v : ℕ) → Chain v v []
  run :
      (v w : ℕ) (r : Run) (rs : List Run)
      → r.vcn ≡ v
      → 0 < r.len
      → v + r.len < 2 ^ 64
      → Chain (v + r.len) w rs
      → Chain v w (r ∷ rs)

-- A run that is read has at least one cluster.
read_run-pos :
    (h : ℕ) (bytes : List ℕ) (lcn : ℕ) (x : ℕ × Option ℕ × ℕ × List ℕ)
    → read_run h bytes lcn ≡ some x
    → 0 < x.0
unfolding read_run
read_run-pos h bytes lcn x =
    if_elim P ((h % 16 == 0 || ltb 8 (h % 16)) || ltb 8 (h / 16)) (λ t e. absurd (none-ne-some e))
      (λ f. elim (Option-cases (read_uint (h % 16) bytes)) [
        | inl q ↦ rw q (λ e. absurd (none-ne-some e))
        | inr (y, q) ↦ rw q (
            if_elim P (y.0 == 0) (λ t e. absurd (none-ne-some e))
              (λ nz. elim (Option-cases (read_lcn (h / 16) y.1 lcn)) [
                | inl r ↦ rw r (λ e. absurd (none-ne-some e))
                | inr (z, r) ↦ rw r (λ e.
                    subst (λ w. 0 < w.0) {x = (y.0, z.0, z.1, z.2)} (some-inj e)
                      (ground (arith, nz)))
              ]))
      ])
  where
    P : Option (ℕ × Option ℕ × ℕ × List ℕ) → Type 0
    P o = o ≡ some x → 0 < x.0

no_runs :
    (vcn left : ℕ) (l : RunList)
    → record { runs = []; clusters = vcn } ≡ l
    → Chain vcn l.clusters l.runs × (length l.runs ≤ left)
no_runs vcn left l e =
    subst (λ k. Chain vcn k.clusters k.runs × (length k.runs ≤ left)) e (ends vcn, omega arith)

-- What the loop accepts.
decode_from-Chain :
    (left : ℕ) (bytes : List ℕ) (lcn vcn : ℕ) (l : RunList)
    → decode_from left bytes lcn vcn ≡ some l
    → Chain vcn l.clusters l.runs × (length l.runs ≤ left)
unfolding decode_from
decode_from-Chain left [] lcn vcn l = λ e. absurd (none-ne-some e)
decode_from-Chain zero (h ∷ bytes) lcn vcn l =
    if_elim (λ o. o ≡ some l → Chain vcn l.clusters l.runs × (length l.runs ≤ 0)) (h == 0)
      (λ t e. no_runs vcn 0 l (some-inj e)) (λ f e. absurd (none-ne-some e))
decode_from-Chain (suc left) (h ∷ bytes) lcn vcn l =
    if_elim P (h == 0) (λ t e. no_runs vcn (suc left) l (some-inj e))
      (λ f. elim (Option-cases (read_run h bytes lcn)) [
        | inl q ↦ rw q (λ e. absurd (none-ne-some e))
        | inr (x, q) ↦ rw q (
            if_elim P (leb (2 ^ 64) (vcn + x.0)) (λ t e. absurd (none-ne-some e))
              (λ small. elim (Option-cases (decode_from left x.3 x.2 (vcn + x.0))) [
                | inl r ↦ rw r (λ e. absurd (none-ne-some e))
                | inr (m, r) ↦ rw r (λ e.
                    let rest = decode_from-Chain left x.3 x.2 (vcn + x.0) m r in
                    subst (λ k. Chain vcn k.clusters k.runs × (length k.runs ≤ suc left))
                      (some-inj e)
                      (
                        run vcn m.clusters (record { vcn = vcn; len = x.0; lcn = x.1 }) m.runs refl
                            (read_run-pos h bytes lcn x q) (ground (arith, small)) rest.0,
                        omega (arith, rest.1),
                      ))
              ]))
      ])
  where
    P : Option RunList → Type 0
    P o = o ≡ some l → Chain vcn l.clusters l.runs × (length l.runs ≤ suc left)

-- Clusters in a chain have a run, and those at or behind its end have none.
run_at-some :
    (v w : ℕ) (rs : List Run) (c : ℕ)
    → Chain v w rs
    → v ≤ c
    → c < w
    → (r : Run) × (run_at rs c ≡ some r) × (r.vcn ≤ c) × (c < r.vcn + r.len)
unfolding run_at
run_at-some v w _ c (ends _) l m = absurd (omega arith)
run_at-some v w _ c (run _ _ r rs e p s h) l m = elim (Bool-cases (covers r c)) [
  | inl t ↦ (r, rw t, ground (arith, t), ground (arith, t))
  | inr f ↦
      let rest = run_at-some (v + r.len) w rs c h (ground (arith, f, e, l)) m in
      (rest.0, rw f rest.1, rest.2, rest.3)
]

chain_le : (v w : ℕ) (rs : List Run) → Chain v w rs → v ≤ w
chain_le v w _ (ends _) = omega arith
chain_le v w _ (run _ _ r rs e p s h) = omega (arith, chain_le (v + r.len) w rs h)

chain_pos : (v w : ℕ) (rs : List Run) → Chain v w rs → 0 < length rs → v < w
chain_pos v w _ (ends _) l = absurd (omega (arith, l))
chain_pos v w _ (run _ _ r rs e p s h) l = omega (arith, chain_le (v + r.len) w rs h, p)

run_at-none : (v w : ℕ) (rs : List Run) (c : ℕ) → Chain v w rs → w ≤ c → run_at rs c ≡ none
unfolding run_at
run_at-none v w _ c (ends _) l = refl
run_at-none v w _ c (run _ _ r rs e p s h) l =
    let f : covers r c ≡ false = ground (arith, e, chain_le (v + r.len) w rs h, l) in
    rw f (run_at-none (v + r.len) w rs c h l)

accepted : (m l : RunList) → not_empty m ≡ some l → (m ≡ l) × (0 < length m.runs)
accepted m l e = go m.runs m.clusters e
  where
    go :
        (rs : List Run) (c : ℕ)
        → not_empty (record { runs = rs; clusters = c }) ≡ some l
        → (record { runs = rs; clusters = c } ≡ l) × (0 < length rs)
    go [] c q = absurd (none-ne-some q)
    go (r ∷ rs) c q = (some-inj q, omega arith)

-- What `decode` accepts is a chain of at most 24 runs from cluster 0 to the number of clusters, which
-- is not 0 and below 2^64; run_at finds a run over each cluster below it, and fails for the others.
pub decode-Chain :
    (bytes : List ℕ) (l : RunList)
    → decode bytes ≡ some l
    → Chain 0 l.clusters l.runs
      × (length l.runs ≤ 24)
      × (0 < l.clusters)
      × ((c : ℕ)
          → c < l.clusters
          → (r : Run) × (run_at l.runs c ≡ some r) × (r.vcn ≤ c) × (c < r.vcn + r.len))
      × ((c : ℕ) → l.clusters ≤ c → run_at l.runs c ≡ none)
unfolding decode
decode-Chain bytes l = elim (Option-cases (decode_from 24 bytes 0 0)) [
  | inl q ↦ rw (decode, q) (λ e. absurd (none-ne-some e))
  | inr (m, q) ↦
      rw (decode, q)
        (λ e.
          let same : (m ≡ l) × (0 < length m.runs) = accepted m l e in
          let d = decode_from-Chain 24 bytes 0 0 l (q ∙ ap some same.0) in
          (
            d.0,
            d.1,
            chain_pos 0 l.clusters l.runs d.0 (subst (λ k. 0 < length k.runs) same.0 same.1),
            λ c k. run_at-some 0 l.clusters l.runs c d.0 (omega arith) k,
            λ c k. run_at-none 0 l.clusters l.runs c d.0 k,
          ))
]
