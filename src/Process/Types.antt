-- ===== src/Process/Types.antt =====
-- kernel-core/src/process/mod.rs: the process record, one per task slot.
-- A u32 signal mask is the function that says which of its bits are set; bits from 32 on are never
-- read. PROCS is a function of the slot.
use fantuan_kernel.Base.{ℕ, Bool, false, update}
use fantuan_kernel.Process.Abi.{user_mmap_base, sig_dfl}

abbrev pub max_tasks : ℕ
max_tasks = 16

abbrev pub Mask : Type 0
Mask = ℕ → Bool

abbrev pub empty_mask : Mask
empty_mask s = false

pub record Action : Type 0 where
  pub handler : ℕ
  pub mask : Mask
  pub flags : ℕ
  pub restorer : ℕ

pub record Vma : Type 0 where
  pub start : ℕ
  pub end : ℕ
  pub prot : ℕ

pub record Proc : Type 0 where
  pub used : Bool
  pub alive : Bool
  pub id : ℕ
  pub ppid : ℕ
  pub pgid : ℕ
  pub sid : ℕ
  pub exit_status : ℕ
  pub waited : Bool
  pub pending : Mask
  pub blocked : Mask
  pub actions : ℕ → Action
  pub vmas : ℕ → Vma
  pub vma_n : ℕ
  pub mmap_next : ℕ

abbrev pub default_action : Action
default_action = record { handler = sig_dfl; mask = empty_mask; flags = 0; restorer = 0 }

abbrev pub empty_vma : Vma
empty_vma = record { start = 0; end = 0; prot = 0 }

abbrev pub empty_proc : Proc
empty_proc = record {
  used = false;
  alive = false;
  id = 0;
  ppid = 0;
  pgid = 0;
  sid = 0;
  exit_status = 0;
  waited = false;
  pending = empty_mask;
  blocked = empty_mask;
  actions = λ s. default_action;
  vmas = λ i. empty_vma;
  vma_n = 0;
  mmap_next = user_mmap_base;
}

abbrev pub Procs : Type 0
Procs = ℕ → Proc

-- `let p = &mut procs()[slot]; *p = f(p)`
unfoldable pub modify : Procs → ℕ → (Proc → Proc) → Procs
modify ps slot f = update ps slot (f (ps slot))
