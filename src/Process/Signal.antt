-- ===== src/Process/Signal.antt =====
-- kernel-core/src/process/sigstate.rs and kernel-core/src/signal.rs: the pending and blocked masks
-- of a process, the disposition table, and the delivery of a signal with its return.
-- Each function works on `procs()[slot]`. The registers are numbers below 2^64.
pub mod Kill
pub mod Dequeue
pub mod Deliver
use fantuan_kernel.Base.{
  ℕ, zero, suc, ◌+◌, ◌-◌, ◌*◌, ◌/◌, ◌%◌, ◌^◌, Bool, true, false, ◌||◌, ◌&&◌, not, Option, none,
  some, List, [], ◌∷◌, if◌then◌else◌, ◌==◌, ltb, leb, update, find_from, is_some,
}
use fantuan_kernel.Process.Types.{Mask, empty_mask, Action, default_action, Proc}
use fantuan_kernel.Process.Abi.{sigkill, nsig, sig_dfl, sig_ign, sys_ok, err_inval}

abbrev pub sig_mask : ℕ → Mask
sig_mask sig s = (s == sig) && ltb sig nsig

abbrev pub mask_or : Mask → Mask → Mask
mask_or a b s = a s || b s

-- `a & !b`
abbrev pub mask_without : Mask → Mask → Mask
mask_without a b s = a s && not (b s)

unfoldable pub sigaction_set : Proc → ℕ → Action → ℕ × Proc
sigaction_set p sig act =
    if sig == 0 || (leb nsig sig || sig == sigkill)
    then (err_inval, p)
    else (sys_ok, record p { actions = update p.actions sig act })

-- `set_action` has no guard; an index past the table panics.
unfoldable pub set_action : Proc → ℕ → Action → Proc
set_action p sig act = record p { actions = update p.actions sig act }

unfoldable pub sigaction_get : Proc → ℕ → Option Action
sigaction_get p sig =
    if sig == 0 || (leb nsig sig || sig == sigkill) then none else some (p.actions sig)

-- The new mask of `sigprocmask`: SIG_BLOCK is 0, SIG_UNBLOCK 1, SIG_SETMASK 2.
unfoldable pub new_mask : Mask → ℕ → Mask → Option Mask
new_mask blocked how set =
    if how == 0
    then some (mask_or blocked set)
    else if how == 1
    then some (mask_without blocked set)
    else if how == 2
    then some set
    else none

unfoldable pub sigprocmask : Proc → ℕ → Mask → ℕ × Proc
sigprocmask p how set = elim (new_mask p.blocked how set) [
  | none ↦ (err_inval, p)
  | some mask ↦ (sys_ok, record p { blocked = mask_without mask (sig_mask sigkill) })
]

unfoldable pub set_blocked : Proc → Mask → Proc
set_blocked p mask = record p { blocked = mask_without mask (sig_mask sigkill) }

unfoldable pub queue_slot : Proc → ℕ → Proc
queue_slot p sig =
    if sig == 0 || leb nsig sig then p else record p { pending = mask_or p.pending (sig_mask sig) }

-- `p.pending & !p.blocked`
abbrev pub ready : Proc → Mask
ready p = mask_without p.pending p.blocked

-- `ready.trailing_zeros()`, none for an empty mask.
abbrev pub lowest : Mask → Option ℕ
lowest mask = find_from mask 0 nsig

unfoldable pub dequeue : Proc → Option ℕ × Proc
dequeue p =
    if p.pending sigkill
    then (some sigkill, record p { pending = mask_without p.pending (sig_mask sigkill) })
    else elim (lowest (ready p)) [
      | none ↦ (none, p)
      | some sig ↦ (some sig, record p { pending = mask_without p.pending (sig_mask sig) })
    ]

-- SIGCHLD, SIGCONT, SIGURG, SIGWINCH, SIGSTOP, SIGTSTP, SIGTTIN, SIGTTOU.
pub default_ignored : ℕ → Bool
default_ignored sig =
    sig == 17
    || sig == 18
    || sig == 23
    || sig == 28
    || sig == 19
    || sig == 20
    || sig == 21
    || sig == 22

pub pending_handled : Proc → Bool
pending_handled p = is_some (find_from (λ s. ready p s && not (default_ignored s)) 1 (nsig - 1))

unfoldable pub block_for_handler : Proc → ℕ → Mask → Proc
block_for_handler p sig mask = record p {
  blocked = mask_without (mask_or p.blocked (mask_or (sig_mask sig) mask)) (sig_mask sigkill);
}

unfoldable pub has_deliverable : Proc → Bool
has_deliverable p = is_some (lowest (λ s. p.pending s && (not (p.blocked s) || sig_mask sigkill s)))

-- `signal_reset_for_exec`: ignored signals stay ignored.
unfoldable pub signal_reset_for_exec : Proc → Proc
signal_reset_for_exec p = record p {
  actions = λ s.
      if (leb 1 s && ltb s nsig) && not ((p.actions s).handler == sig_ign)
      then default_action
      else p.actions s;
  pending = empty_mask;
}

-- The register context at a boundary to user mode.
pub record UserContext : Type 0 where
  pub r15 : ℕ
  pub r14 : ℕ
  pub r13 : ℕ
  pub r12 : ℕ
  pub r11 : ℕ
  pub r10 : ℕ
  pub r9 : ℕ
  pub r8 : ℕ
  pub rbp : ℕ
  pub rdi : ℕ
  pub rsi : ℕ
  pub rdx : ℕ
  pub rcx : ℕ
  pub rbx : ℕ
  pub rax : ℕ
  pub rip : ℕ
  pub rflags : ℕ
  pub rsp : ℕ

-- The frame on the user stack: the registers, the signal and the mask to restore.
pub record SignalFrame : Type 0 where
  pub r15 : ℕ
  pub r14 : ℕ
  pub r13 : ℕ
  pub r12 : ℕ
  pub r11 : ℕ
  pub r10 : ℕ
  pub r9 : ℕ
  pub r8 : ℕ
  pub rbp : ℕ
  pub rdi : ℕ
  pub rsi : ℕ
  pub rdx : ℕ
  pub rcx : ℕ
  pub rbx : ℕ
  pub rax : ℕ
  pub rip : ℕ
  pub rflags : ℕ
  pub rsp : ℕ
  pub signum : ℕ
  pub mask : Mask

-- The frame that `deliver_current` builds.
unfoldable pub frame_of : UserContext → ℕ → Mask → SignalFrame
frame_of ctx sig mask = record {
  r15 = ctx.r15;
  r14 = ctx.r14;
  r13 = ctx.r13;
  r12 = ctx.r12;
  r11 = ctx.r11;
  r10 = ctx.r10;
  r9 = ctx.r9;
  r8 = ctx.r8;
  rbp = ctx.rbp;
  rdi = ctx.rdi;
  rsi = ctx.rsi;
  rdx = ctx.rdx;
  rcx = ctx.rcx;
  rbx = ctx.rbx;
  rax = ctx.rax;
  rip = ctx.rip;
  rflags = ctx.rflags;
  rsp = ctx.rsp;
  signum = sig;
  mask = mask;
}

-- The registers that `sigreturn` restores.
unfoldable pub context_of : SignalFrame → UserContext
context_of frame = record {
  r15 = frame.r15;
  r14 = frame.r14;
  r13 = frame.r13;
  r12 = frame.r12;
  r11 = frame.r11;
  r10 = frame.r10;
  r9 = frame.r9;
  r8 = frame.r8;
  rbp = frame.rbp;
  rdi = frame.rdi;
  rsi = frame.rsi;
  rdx = frame.rdx;
  rcx = frame.rcx;
  rbx = frame.rbx;
  rax = frame.rax;
  rip = frame.rip;
  rflags = frame.rflags;
  rsp = frame.rsp;
}

-- `size_of::<SignalFrame>()`: twenty words.
abbrev pub frame_bytes : ℕ
frame_bytes = 160

-- What `user::copy_out` and `copy_in` reach: for an address, whether it may be written, and the
-- frame and the return address that were written there.
pub record UserStack : Type 0 where
  pub writable : ℕ → Bool
  pub frames : ℕ → Option SignalFrame
  pub words : ℕ → Option ℕ

-- Where the trampoline is built: `((rsp - (size + 8)) & !15) - 8`, wrapping.
unfoldable pub frame_sp : ℕ → ℕ
frame_sp rsp = ((rsp + 2 ^ 64 - (frame_bytes + 8)) % 2 ^ 64 / 16 * 16 + 2 ^ 64 - 8) % 2 ^ 64

pub data Delivery : Type 0 where
  nothing : Delivery
  ignored : ℕ → Delivery
  exits : ℕ → Delivery
  enters : ℕ → UserContext → UserStack → Delivery

-- `deliver_current` from the trampoline on.
unfoldable pub enter_handler : Proc → UserContext → UserStack → ℕ → Action → Delivery × Proc
enter_handler p ctx stack sig act =
    let sp = frame_sp ctx.rsp in
    let at = (sp + 8) % 2 ^ 64 in
    if not (stack.writable at) || not (stack.writable sp) then (exits 11, p) else (
      enters sig (record ctx { rdi = sig; rip = act.handler; rsp = sp })
          (record stack {
            frames = update stack.frames at (some (frame_of ctx sig p.blocked));
            words = update stack.words sp (some act.restorer);
          }),
      block_for_handler p sig act.mask,
    )

-- What `deliver_current` does with a signal that it has taken from the pending ones.
unfoldable pub dispose : Proc → UserContext → UserStack → ℕ → Delivery × Proc
dispose p ctx stack sig =
    let act = p.actions sig in
    if sig == sigkill
    then (exits sigkill, p)
    else if act.handler == sig_ign
    then (ignored sig, p)
    else if act.handler == sig_dfl
    then (if default_ignored sig then (ignored sig, p) else (exits sig, p))
    else if act.restorer == 0
    then (exits sig, p)
    else enter_handler p ctx stack sig act

unfoldable pub deliver_current : Proc → UserContext → UserStack → Delivery × Proc
deliver_current p ctx stack =
    let (next, p') = dequeue p in
    elim next [ none ↦ (nothing, p') | some sig ↦ dispose p' ctx stack sig ]

-- `sigreturn`: none is the exit with SIGSEGV.
unfoldable pub sigreturn : Proc → UserContext → UserStack → Option (UserContext × Proc)
sigreturn p ctx stack = elim (stack.frames ctx.rsp) [
  | none ↦ none
  | some frame ↦ some (context_of frame, set_blocked p frame.mask)
]
