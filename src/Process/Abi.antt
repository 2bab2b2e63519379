-- ===== src/Process/Abi.antt =====
-- The constants of abi/src/lib.rs that the process layer uses, for a 64-bit x86 kernel.
use fantuan_kernel.Base.{ℕ, ◌-◌, ◌^◌, ◌/◌, ◌%◌, Bool, ◌==◌}

abbrev pub sigkill : ℕ
sigkill = 9

abbrev pub sigchld : ℕ
sigchld = 17

abbrev pub nsig : ℕ
nsig = 32

abbrev pub sig_dfl : ℕ
sig_dfl = 0

abbrev pub sig_ign : ℕ
sig_ign = 1

abbrev pub user_mmap_base : ℕ
user_mmap_base = 0x1000_0000

abbrev pub user_heap_base : ℕ
user_heap_base = 0x50_0000

abbrev pub phys_offset : ℕ
phys_offset = 0xFFFF_8000_0000_0000

abbrev pub max_vmas : ℕ
max_vmas = 8

-- `u64::MAX - n`: the errors that a call returns.
abbrev pub sys_err : ℕ → ℕ
sys_err n = 2 ^ 64 - 1 - n

abbrev pub sys_ok : ℕ
sys_ok = 0

abbrev pub err_nosys : ℕ
err_nosys = sys_err 0

abbrev pub err_inval : ℕ
err_inval = sys_err 1

abbrev pub err_nomem : ℕ
err_nomem = sys_err 5

-- `x & (1 << k) != 0`
abbrev pub bit_set : ℕ → ℕ → Bool
bit_set x k = x / 2 ^ k % 2 == 1
