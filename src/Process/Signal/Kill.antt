-- ===== src/Process/Signal/Kill.antt =====
-- SIGKILL can be neither blocked nor handled, whatever a process asks for.
use fantuan_kernel.Base.{
  ℕ, ◌≡◌, ◌≢◌, false, List, [], ◌∷◌, arith, update_lem, Option-cases, inl, inr,
}
use fantuan_kernel.Process.Types.{Mask, Action, default_action, Proc}
use fantuan_kernel.Process.Abi.{sigkill}
use fantuan_kernel.Process.Signal.{
  set_action, sigaction_set, new_mask, sigprocmask, set_blocked, queue_slot, dequeue,
  block_for_handler, signal_reset_for_exec,
}

-- The calls that change the signal state of a process.
pub data Call : Type 0 where
  writes_action : ℕ → Action → Call
  sets_action : ℕ → Action → Call
  changes_mask : ℕ → Mask → Call
  sets_mask : Mask → Call
  queues : ℕ → Call
  dequeues : Call
  enters_handler : ℕ → Mask → Call
  execs : Call

unfoldable pub step : Call → Proc → Proc
step (writes_action sig act) p = set_action p sig act
step (sets_action sig act) p = (sigaction_set p sig act).1
step (changes_mask how set) p = (sigprocmask p how set).1
step (sets_mask mask) p = set_blocked p mask
step (queues sig) p = queue_slot p sig
step dequeues p = (dequeue p).1
step (enters_handler sig mask) p = block_for_handler p sig mask
step execs p = signal_reset_for_exec p

unfoldable pub run : List Call → Proc → Proc
run [] p = p
run (c ∷ cs) p = run cs (step c p)

-- The unguarded `set_action` is not called for SIGKILL; any other call is as it may be.
abbrev pub Spares : Call → Type 0
Spares (writes_action sig act) = sig ≢ sigkill
Spares (sets_action sig act) = Unit
Spares (changes_mask how set) = Unit
Spares (sets_mask mask) = Unit
Spares (queues sig) = Unit
Spares dequeues = Unit
Spares (enters_handler sig mask) = Unit
Spares execs = Unit

abbrev pub AllSpare : List Call → Type 0
AllSpare [] = Unit
AllSpare (c ∷ cs) = Spares c × AllSpare cs

-- SIGKILL is not blocked, and its disposition is the default one.
pub record IsKillable (p : Proc) : Type 0 where
  pub unblocked : p.blocked sigkill ≡ false
  pub default : p.actions sigkill ≡ default_action

sigaction_set-IsKillable :
    (sig : ℕ) (act : Action) (p : Proc) → IsKillable p → IsKillable (sigaction_set p sig act).1
unfolding sigaction_set
sigaction_set-IsKillable sig act p v = record {
  unblocked = ground arith;
  default = ground (arith, update_lem p.actions sig sigkill act);
}

sigprocmask-IsKillable :
    (how : ℕ) (set : Mask) (p : Proc) → IsKillable p → IsKillable (sigprocmask p how set).1
unfolding sigprocmask
sigprocmask-IsKillable how set p v = elim (Option-cases (new_mask p.blocked how set)) [
  | inl e ↦ rw (e, sigprocmask) v
  | inr (mask, e) ↦ rw (e, sigprocmask) (record { unblocked = ground arith; default = v.default })
]

pub dequeue-IsKillable : (p : Proc) → IsKillable p → IsKillable (dequeue p).1
unfolding dequeue
dequeue-IsKillable p v = record { unblocked = ground arith; default = ground arith }

step-IsKillable : (c : Call) (p : Proc) → Spares c → IsKillable p → IsKillable (step c p)
unfolding step set_action set_blocked queue_slot block_for_handler signal_reset_for_exec
step-IsKillable (writes_action sig act) p k v = record {
  unblocked = v.unblocked;
  default = ground (arith, update_lem p.actions sig sigkill act);
}
step-IsKillable (sets_action sig act) p k v = sigaction_set-IsKillable sig act p v
step-IsKillable (changes_mask how set) p k v = sigprocmask-IsKillable how set p v
step-IsKillable (sets_mask mask) p k v = record { unblocked = ground arith; default = v.default }
step-IsKillable (queues sig) p k v = record { unblocked = ground arith; default = ground arith }
step-IsKillable dequeues p k v = dequeue-IsKillable p v
step-IsKillable (enters_handler sig mask) p k v = record {
  unblocked = ground arith;
  default = v.default;
}
step-IsKillable execs p k v = record { unblocked = v.unblocked; default = ground arith }

-- Where SIGKILL is neither blocked nor handled, no sequence of signal calls, of which
-- `set_action` is not called for SIGKILL, makes it blocked or gives it another disposition.
pub run-IsKillable :
    (cs : List Call) (p : Proc) → AllSpare cs → IsKillable p → IsKillable (run cs p)
unfolding run
run-IsKillable [] p k v = v
run-IsKillable (c ∷ cs) p k v = run-IsKillable cs (step c p) k.1 (step-IsKillable c p k.0 v)
