-- ===== src/Process/Signal/Deliver.antt =====
-- Delivery of a signal to a handler, and the way back.
use fantuan_kernel.Base.{
  ℕ, ◌+◌, ◌%◌, ◌^◌, ◌≤◌, ◌<◌, ◌≡◌, refl, sym, ap, ◌∙◌, subst, ◌≢◌, ◌⊎◌, inl, inr, Bool, true, false,
  ◌||◌, not, Option, none, some, arith, ◌==◌, update, update_self, eq_of_==, ℕ_discrete, Bool-cases,
}
use fantuan_kernel.Process.Types.{Proc, Action}
use fantuan_kernel.Process.Abi.{sigkill, nsig, sig_ign, sig_dfl}
use fantuan_kernel.Process.Signal.{
  frame_of, context_of, dequeue, set_blocked, block_for_handler, UserContext, UserStack,
  SignalFrame, Delivery, nothing, ignored, exits, enters, frame_sp, enter_handler, dispose,
  deliver_current, sigreturn, default_ignored, mask_without, sig_mask,
}
use fantuan_kernel.Process.Signal.Kill.{IsKillable, dequeue-IsKillable}
use fantuan_kernel.Process.Signal.Dequeue.{Deliverable, Taken, Dequeued, dequeue-Dequeued}

-- For a 64-bit stack pointer of at least 200, the stack pointer at the handler's entry is 8 modulo
-- 16, as after a call, the frame with the return address fits between it and the interrupted stack
-- pointer, and at most 200 bytes lie between the two.
pub frame_sp_lem :
    (rsp : ℕ)
    → 200 ≤ rsp
    → rsp < 2 ^ 64
    → (frame_sp rsp % 16 ≡ 8) × (frame_sp rsp + 8 + 160 ≤ rsp) × (rsp ≤ frame_sp rsp + 200)
unfolding frame_sp
frame_sp_lem rsp h l = omega arith

-- What a handler's entry promises: the handler runs with the signal in its argument register, the
-- signal and the handler's mask are blocked, and when it has returned through the trampoline
-- (which leaves the stack pointer at the frame), `sigreturn` gives back the interrupted registers
-- and the interrupted mask. The word at the stack pointer is the trampoline's address.
pub record Enters (p : Proc) (ctx : UserContext) (sig : ℕ) (ctx' : UserContext) (stack' : UserStack)
    (p' : Proc) : Type 0 where
  pub argument : ctx'.rdi ≡ sig
  pub handler : ctx'.rip ≡ (p.actions sig).handler
  pub pointer : ctx'.rsp ≡ frame_sp ctx.rsp
  pub self_blocked : p'.blocked sig ≡ true
  pub mask_blocked : (s : ℕ) → s ≢ sigkill → (p.actions sig).mask s ≡ true → p'.blocked s ≡ true
  pub trampoline : stack'.words (frame_sp ctx.rsp) ≡ some (p.actions sig).restorer
  pub returns :
      (later : UserContext)
      → later.rsp ≡ (frame_sp ctx.rsp + 8) % 2 ^ 64
      → (q : Proc) × (sigreturn p' later stack' ≡ some (ctx, q))
        × ((s : ℕ) → q.blocked s ≡ p.blocked s)

-- The handler of the disposition is a function of the user's.
abbrev pub IsHandled : Action → Type 0
IsHandled act = (act.handler ≢ sig_ign) × (act.handler ≢ sig_dfl)

-- Both parts of the trampoline can be written.
abbrev pub HasRoom : UserStack → ℕ → Type 0
HasRoom stack rsp =
    (stack.writable ((frame_sp rsp + 8) % 2 ^ 64) ≡ true) × (stack.writable (frame_sp rsp) ≡ true)

-- Why a task ends with x on the signal s: SIGKILL; a signal whose default action is to end the task;
-- a handler that could not return; a stack that has no room for the trampoline.
abbrev pub Ends : Action → UserStack → ℕ → ℕ → ℕ → Type 0
Ends act stack rsp s x =
    ((s ≡ sigkill) × (x ≡ sigkill))
    ⊎ ((s ≢ sigkill) × (act.handler ≡ sig_dfl) × (default_ignored s ≡ false) × (x ≡ s))
    ⊎ ((s ≢ sigkill) × IsHandled act × (act.restorer ≡ 0) × (x ≡ s))
    ⊎ ((s ≢ sigkill) × IsHandled act × (act.restorer ≢ 0) × (¬ HasRoom stack rsp) × (x ≡ 11))

-- The outcome of a delivery. The four kinds of outcome exclude one another by the signal that is
-- taken, its disposition and the stack.
abbrev pub Delivered : Proc → UserContext → UserStack → Delivery × Proc → Type 0
Delivered p ctx stack (nothing, q) = (q ≡ p) × ((s : ℕ) → s < nsig → ¬ Deliverable p s)
Delivered p ctx stack (ignored s, q) =
    Taken p s q
    × (s ≢ sigkill)
    × (((p.actions s).handler ≡ sig_ign)
        ⊎ (((p.actions s).handler ≡ sig_dfl) × (default_ignored s ≡ true)))
Delivered p ctx stack (exits x, q) = (s : ℕ) × Taken p s q × Ends (p.actions s) stack ctx.rsp s x
Delivered p ctx stack (enters s ctx' stack', q) =
    (p' : Proc) × Taken p s p'
    × (s ≢ sigkill)
    × IsHandled (p.actions s)
    × ((p.actions s).restorer ≢ 0)
    × HasRoom stack ctx.rsp
    × Enters p' ctx s ctx' stack' q

-- Unblocking SIGKILL changes nothing where it is not blocked.
restored :
    (p : Proc) → IsKillable p → (s : ℕ) → mask_without p.blocked (sig_mask sigkill) s ≡ p.blocked s
restored p v s = elim (ℕ_discrete s sigkill) [
  | yes e ↦ ground (arith, ap p.blocked e, v.unblocked)
  | no d ↦ ground arith
]

returned :
    (p b : Proc) (later ctx : UserContext) (frames : ℕ → Option SignalFrame) (writable : ℕ → Bool)
    (words : ℕ → Option ℕ) (sig at : ℕ)
    → later.rsp ≡ at
    → sigreturn b later (record {
      writable = writable;
      frames = update frames at (some (frame_of ctx sig p.blocked));
      words = words;
    })
      ≡ some (ctx, set_blocked b p.blocked)
unfolding sigreturn frame_of context_of
returned p b later ctx frames writable words sig at e =
    let frame : SignalFrame = frame_of ctx sig p.blocked in
    rw (ap (update frames at (some frame)) e ∙ update_self frames at (some frame), sigreturn) refl

entered :
    (p : Proc) (ctx : UserContext) (stack : UserStack) (sig : ℕ)
    → IsKillable p
    → sig ≢ sigkill
    → sig < nsig
    → let act = p.actions sig in
      let at = (frame_sp ctx.rsp + 8) % 2 ^ 64 in
      Enters p ctx sig
        (record ctx { rdi = sig; rip = act.handler; rsp = frame_sp ctx.rsp })
        (record stack {
          frames = update stack.frames at (some (frame_of ctx sig p.blocked));
          words = update stack.words (frame_sp ctx.rsp) (some act.restorer);
        })
        (block_for_handler p sig act.mask)
unfolding block_for_handler sigreturn set_blocked
entered p ctx stack sig v n l = record {
  argument = refl;
  handler = refl;
  pointer = refl;
  trampoline = update_self stack.words (frame_sp ctx.rsp) (some (p.actions sig).restorer);
  self_blocked = ground arith;
  mask_blocked = λ s d h. ground arith;
  returns = λ later e. (
    set_blocked (block_for_handler p sig (p.actions sig).mask) p.blocked,
    returned p (block_for_handler p sig (p.actions sig).mask) later ctx stack.frames stack.writable
        (update stack.words (frame_sp ctx.rsp) (some (p.actions sig).restorer)) sig
        ((frame_sp ctx.rsp + 8) % 2 ^ 64) e,
    restored p v,
  );
}

ne_of_== : {a b : ℕ} → (a == b) ≡ false → a ≢ b
ne_of_== e q = absurd (ground arith)

no_room :
    (stack : UserStack) (rsp : ℕ)
    → (not (stack.writable ((frame_sp rsp + 8) % 2 ^ 64)) || not (stack.writable (frame_sp rsp)))
      ≡ true
    → ¬ HasRoom stack rsp
no_room stack rsp e h = absurd (ground (arith, e, h))

room :
    (stack : UserStack) (rsp : ℕ)
    → (not (stack.writable ((frame_sp rsp + 8) % 2 ^ 64)) || not (stack.writable (frame_sp rsp)))
      ≡ false
    → HasRoom stack rsp
room stack rsp e = (ground (arith, e), ground (arith, e))

-- The end of a task, for the disposition that was there before the signal was taken.
ended :
    (p q : Proc) (ctx : UserContext) (stack : UserStack) (sig x : ℕ)
    → Taken p sig q
    → Ends (q.actions sig) stack ctx.rsp sig x
    → Delivered p ctx stack (exits x, q)
ended p q ctx stack sig x t e =
    (sig, t, subst (λ act. Ends act stack ctx.rsp sig x) (ap (λ f. f sig) t.actions_kept) e)

enter_handler-Delivered :
    (p q : Proc) (ctx : UserContext) (stack : UserStack) (sig : ℕ)
    → Taken p sig q
    → IsKillable q
    → sig ≢ sigkill
    → IsHandled (q.actions sig)
    → (q.actions sig).restorer ≢ 0
    → Delivered p ctx stack (enter_handler q ctx stack sig (q.actions sig))
unfolding enter_handler
enter_handler-Delivered p q ctx stack sig t v n h r =
    let same : q.actions sig ≡ p.actions sig = ap (λ f. f sig) t.actions_kept in
    elim (Bool-cases (
      not (stack.writable ((frame_sp ctx.rsp + 8) % 2 ^ 64))
      || not (stack.writable (frame_sp ctx.rsp)))) [
        | inl b ↦ rw b (
            ended p q ctx stack sig 11 t (inr (inr (inr (n, h, r, no_room stack ctx.rsp b, refl)))))
        | inr b ↦ rw b (
          q,
          t,
          n,
          subst IsHandled same h,
          subst (λ act. act.restorer ≢ 0) same r,
          room stack ctx.rsp b,
          entered q ctx stack sig v n t.in_range,
        )
      ]

dispose-Delivered :
    (p q : Proc) (ctx : UserContext) (stack : UserStack) (sig : ℕ)
    → Taken p sig q
    → IsKillable q
    → Delivered p ctx stack (dispose q ctx stack sig)
unfolding dispose
dispose-Delivered p q ctx stack sig t v = elim (Bool-cases (sig == sigkill)) [
  | inl a ↦ rw a (ended p q ctx stack sig sigkill t (inl (eq_of_== _ _ a, refl)))
  | inr a ↦
      let n : sig ≢ sigkill = ne_of_== a in
      let same : q.actions sig ≡ p.actions sig = ap (λ f. f sig) t.actions_kept in
      let alike = ap (λ (f : Action). f.handler) (sym same) in
      rw a (elim (Bool-cases ((q.actions sig).handler == sig_ign)) [
        | inl b ↦ rw b (t, n, inl (alike ∙ eq_of_== _ _ b))
        | inr b ↦ rw b (elim (Bool-cases ((q.actions sig).handler == sig_dfl)) [
          | inl c ↦ rw c (elim (Bool-cases (default_ignored sig)) [
            | inl d ↦ rw d (t, n, inr (alike ∙ eq_of_== _ _ c, d))
            | inr d ↦ rw d (ended p q ctx stack sig sig t (inr (inl (n, eq_of_== _ _ c, d, refl))))
          ])
          | inr c ↦
              let h : IsHandled (q.actions sig) = (ne_of_== b, ne_of_== c) in
              rw c (elim (Bool-cases ((q.actions sig).restorer == 0)) [
                | inl d ↦
                    rw d
                      (ended p q ctx stack sig sig t (inr (inr (inl (n, h, eq_of_== _ _ d, refl)))))
                | inr d ↦ rw d (enter_handler-Delivered p q ctx stack sig t v n h (ne_of_== d))
              ])
        ])
      ])
]

-- For a process in which SIGKILL is neither blocked nor handled, a delivery does one of these:
-- nothing, if no signal is deliverable; or it takes the signal that `dequeue` names and discards
-- it (when it is ignored, or ignored by default); or it ends the task, with SIGKILL, with a signal
-- whose default action that is or whose handler has no restorer, or with SIGSEGV for a handler
-- whose trampoline cannot be written; or, with a handler, a restorer and room on the stack, it
-- enters the handler, from which `sigreturn` restores the interrupted registers and mask.
pub deliver_current-Delivered :
    (p : Proc) (ctx : UserContext) (stack : UserStack)
    → IsKillable p
    → Delivered p ctx stack (deliver_current p ctx stack)
unfolding deliver_current
deliver_current-Delivered p ctx stack v =
    go (dequeue p) (dequeue-Dequeued p) (dequeue-IsKillable p v)
  where
    then_dispose : Option ℕ × Proc → Delivery × Proc
    then_dispose r = elim r.0 [ none ↦ (nothing, r.1) | some sig ↦ dispose r.1 ctx stack sig ]

    go :
        (r : Option ℕ × Proc)
        → Dequeued p r
        → IsKillable r.1
        → Delivered p ctx stack (then_dispose r)
    go (none, q) d k = d
    go (some sig, q) d k = dispose-Delivered p q ctx stack sig d k
