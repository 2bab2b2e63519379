-- ===== src/Process/Signal/Dequeue.antt =====
-- Which signal is taken next.
use fantuan_kernel.Base.{
  ℕ, ◌<◌, ◌≡◌, refl, ◌≢◌, ◌⊎◌, inl, inr, true, false, ◌&&◌, ◌||◌, not, Option, none, some, arith,
  find_from-some, find_from-none, find_from-hits, Option-cases, Bool-cases, is_some, sym, ap, ◌∙◌,
  true≢false,
}
use fantuan_kernel.Process.Types.{Mask, Proc}
use fantuan_kernel.Process.Abi.{sigkill, nsig}
use fantuan_kernel.Process.Signal.{
  sig_mask, mask_without, ready, lowest, dequeue, queue_slot, has_deliverable,
}

-- Signal s is pending, and is SIGKILL or not blocked.
abbrev pub Deliverable : Proc → ℕ → Type 0
Deliverable p s = (p.pending s ≡ true) × ((s ≡ sigkill) ⊎ (p.blocked s ≡ false))

-- The signal that is taken: it is deliverable, it is SIGKILL if that is pending, and otherwise no
-- lower signal is deliverable; it is pending no more, and nothing else changes.
pub record Taken (p : Proc) (s : ℕ) (q : Proc) : Type 0 where
  pub in_range : s < nsig
  pub deliverable : Deliverable p s
  pub kill_first : p.pending sigkill ≡ true → s ≡ sigkill
  pub lowest_first : s ≢ sigkill → (t : ℕ) → t < s → ¬ Deliverable p t
  pub cleared : q.pending s ≡ false
  pub kept : (t : ℕ) → t ≢ s → q.pending t ≡ p.pending t
  pub blocked_kept : q.blocked ≡ p.blocked
  pub actions_kept : q.actions ≡ p.actions

abbrev pub Dequeued : Proc → Option ℕ × Proc → Type 0
Dequeued p (none, q) = (q ≡ p) × ((s : ℕ) → s < nsig → ¬ Deliverable p s)
Dequeued p (some s, q) = Taken p s q

taken :
    (p : Proc) (s : ℕ)
    → s < nsig
    → Deliverable p s
    → (p.pending sigkill ≡ true → s ≡ sigkill)
    → (s ≢ sigkill → (t : ℕ) → t < s → ¬ Deliverable p t)
    → Taken p s (record p { pending = mask_without p.pending (sig_mask s) })
taken p s l d k f = record {
  in_range = l;
  deliverable = d;
  kill_first = k;
  lowest_first = f;
  cleared = ground arith;
  kept = λ t n. ground arith;
  blocked_kept = refl;
  actions_kept = refl;
}

not_ready : (p : Proc) (t : ℕ) → p.pending sigkill ≡ false → ready p t ≡ false → ¬ Deliverable p t
not_ready p t f h (d, inl e) = absurd (true≢false (sym (ap p.pending (sym e) ∙ d) ∙ f))
not_ready p t f h (d, inr b) = absurd (ground arith)

is_ready : (p : Proc) (s : ℕ) → ready p s ≡ true → Deliverable p s
is_ready p s h = (ground arith, ground arith)

-- `dequeue` takes SIGKILL if it is pending, else the lowest pending signal that is not blocked,
-- and clears just that bit; it takes none only if no signal is deliverable, and then changes
-- nothing.
pub dequeue-Dequeued : (p : Proc) → Dequeued p (dequeue p)
unfolding dequeue
dequeue-Dequeued p = elim (Bool-cases (p.pending sigkill)) [
  | inl t ↦ rw t (taken p sigkill (omega arith) (t, inl refl) (λ e. refl) (λ n. absurd (n refl)))
  | inr f ↦ rw f (elim (Option-cases (lowest (ready p))) [
    | inl e ↦
        rw (e, dequeue)
          (
            refl,
            λ s l.
                not_ready p s f (find_from-none (ready p) 0 nsig e s (omega arith) (omega arith)),
          )
    | inr (s, e) ↦
        let r = find_from-some (ready p) 0 nsig e in
        rw (e, dequeue)
          (taken p s (omega (arith, r.1)) (is_ready p s r.2) (λ t. absurd (true≢false (sym t ∙ f)))
            (λ n t l. not_ready p t f (r.3 t (omega arith) l)))
  ])
]

-- `has_deliverable` says whether `dequeue` takes a signal.
pub has_deliverable-dequeue : (p : Proc) → has_deliverable p ≡ is_some (dequeue p).0
unfolding has_deliverable is_some
has_deliverable-dequeue p = go (dequeue p) (dequeue-Dequeued p)
  where
    mask : Mask
    mask s = p.pending s && (not (p.blocked s) || sig_mask sigkill s)

    holds : (s : ℕ) → Deliverable p s → mask s ≡ true
    holds s (t, inl e) = ground arith
    holds s (t, inr b) = ground arith

    back : (s : ℕ) → mask s ≡ true → Deliverable p s
    back s h = (ground arith, ground arith)

    go : (r : Option ℕ × Proc) → Dequeued p r → is_some (lowest mask) ≡ is_some r.0
    go (some s, q) t =
        rw
          (find_from-hits mask 0 nsig s (omega arith) (omega (arith, t.in_range))
            (holds s t.deliverable)).1
    go (none, q) d = elim (Option-cases (lowest mask)) [
      | inl e ↦ rw e
      | inr (i, e) ↦
          let r = find_from-some mask 0 nsig e in absurd (d.1 i (omega (arith, r.1)) (back i r.2))
    ]

-- A queued SIGKILL is the next signal taken, whatever is blocked.
pub dequeue-queue_slot_kill : (p : Proc) → (dequeue (queue_slot p sigkill)).0 ≡ some sigkill
unfolding dequeue queue_slot
dequeue-queue_slot_kill p = ground arith
