-- ===== src/InputRing/Refine.antt =====
-- The ring implements the queue.
use fantuan_kernel.Base.{
  ℕ, zero, suc, ◌+◌, ◌-◌, ◌%◌, ◌<◌, ◌≡◌, refl, ap, ap₂, ◌∙◌, List, [], ◌∷◌, ◌++◌, arith, update,
  update_self, update_ne, length, Bool-cases, inl, inr, ◌==◌, eq_of_==,
}
use fantuan_kernel.InputRing.{Ring, InputEvent, Call, pushes, pops, ring_capacity, push, pop, run}
use fantuan_kernel.InputRing.Queue
use fantuan_kernel.InputRing.Queue.{Queue}
use fantuan_kernel.InputRing.Inv.{IsValid, push-IsValid, pop-IsValid}

-- The n events from index h on, going round at the capacity.
unfoldable pub window : (ℕ → InputEvent) → ℕ → ℕ → Queue
window ev h zero = []
window ev h (suc n) = ev h ∷ window ev ((h + 1) % ring_capacity) n

unfoldable pub contents : Ring → Queue
contents r = window r.events r.tail r.len

length-window : (ev : ℕ → InputEvent) (h n : ℕ) → length (window ev h n) ≡ n
unfolding window
length-window ev h zero = refl
length-window ev h (suc n) = ap suc (length-window ev ((h + 1) % ring_capacity) n)

window_pos :
    (ev : ℕ → InputEvent) (h n : ℕ)
    → 0 < n
    → window ev h n ≡ ev h ∷ window ev ((h + 1) % ring_capacity) (n - 1)
unfolding window
window_pos ev h zero p = absurd (omega arith)
window_pos ev h (suc n) p = ap (λ k. ev h ∷ window ev ((h + 1) % ring_capacity) k) (omega arith)

window_none : (ev : ℕ → InputEvent) (h n : ℕ) → n ≡ 0 → window ev h n ≡ []
unfolding window
window_none ev h zero e = refl
window_none ev h (suc n) e = absurd (omega arith)

window-update :
    (ev : ℕ → InputEvent) (h n i : ℕ) (x : InputEvent)
    → h < ring_capacity
    → n < ring_capacity
    → i ≡ (h + n) % ring_capacity
    → window (update ev i x) h (suc n) ≡ window ev h n ++ (x ∷ [])
unfolding window
window-update ev h zero i x l m e =
    ap (λ y. y ∷ []) (ap (update ev i x) {x = h} {y = i} (omega arith) ∙ update_self ev i x)
window-update ev h (suc n) i x l m e =
    ap₂ ◌∷◌ (update_ne ev i h x (omega arith))
      (window-update ev ((h + 1) % ring_capacity) n i x (omega arith) (omega arith) (omega arith))

-- `push` appends the stamped event, after dropping the oldest of a full ring.
pub push_refines :
    (now : ℕ) (ev : InputEvent) (r : Ring)
    → IsValid r
    → contents (push now ev r) ≡ Queue.push now ev (contents r)
unfolding push contents Queue.push Queue.rest
push_refines now ev r v = elim (Bool-cases (r.len == ring_capacity)) [
  | inl e ↦
      let full : r.len ≡ 64 = eq_of_== _ _ e in
      let x : InputEvent = record ev { ts = now } in
      let h = (r.tail + 1) % ring_capacity in
      rw (length-window r.events r.tail r.len, e, window_pos r.events r.tail r.len (omega arith))
        (ap (window (update r.events r.head x) h) {x = r.len} {y = suc (r.len - 1)} (omega arith)
          ∙ window-update r.events h (r.len - 1) r.head x (omega arith) (omega arith)
              (omega (arith, v.head_at)))
  | inr f ↦
      let x : InputEvent = record ev { ts = now } in
      let room : r.len < 64 = ground (arith, v.len_in) in
      rw (length-window r.events r.tail r.len, f)
        (ap (window (update r.events r.head x) r.tail) {x = r.len + 1} {y = suc r.len} (omega arith)
          ∙ window-update r.events r.tail r.len r.head x v.tail_in room v.head_at)
]

-- `pop` returns the oldest event and leaves the others.
pub pop_refines :
    (r : Ring) → IsValid r → let (out, r') = pop r in (out, contents r') ≡ Queue.pop (contents r)
unfolding pop contents Queue.pop
pop_refines r v = elim (Bool-cases (r.len == 0)) [
  | inl e ↦ rw (e, window_none r.events r.tail r.len (eq_of_== _ _ e))
  | inr f ↦ rw (f, window_pos r.events r.tail r.len (ground arith))
]

-- No sequence of pushes and pops tells a valid ring from the queue of its contents, and every
-- such sequence leaves the ring valid and holding what the queue holds.
pub run_refines :
    (cs : List Call) (r : Ring)
    → IsValid r
    → let (outs, r') = run cs r in ((outs, contents r') ≡ Queue.run cs (contents r)) × IsValid r'
unfolding run Queue.run
run_refines [] r v = (refl, v)
run_refines (pushes now ev ∷ cs) r v =
    rw (← push_refines now ev r v) (run_refines cs (push now ev r) (push-IsValid now ev r v))
run_refines (pops ∷ cs) r v =
    let (e, w) = run_refines cs (pop r).1 (pop-IsValid r v) in
    (rw (← pop_refines r v) (ap (λ q. ((pop r).0 ∷ q.0, q.1)) e), w)
