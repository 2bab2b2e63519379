-- ===== src/Witnesses/Disks.antt =====
-- A list of one run, and a registry of one buffer.
use fantuan_kernel.Base.{
  ℕ, ◌+◌, ◌≤◌, ◌<◌, ◌≡◌, refl, sym, true≢false, true, false, List, [], ◌∷◌, length, some, none,
}
use fantuan_kernel.Graphics.Kms.{Kms, bpp32, dumb_empty, fb_empty}
use fantuan_kernel.Graphics.Kms.Registry.{
  IsRegistered, creates, adds, destroys, run, run-IsRegistered,
}
use fantuan_kernel.Vfs.Runlist.{
  Run, RunList, decode, decode_from, read_run, read_uint, read_lcn, add_delta, run_at,
}
use fantuan_kernel.Vfs.Runlist.Chain.{Chain, decode-Chain}

-- Four clusters from LCN 10 on.
abbrev packed : List ℕ
packed = 0x11 ∷ (4 ∷ (10 ∷ (0 ∷ [])))

abbrev one_run : RunList
one_run = record { runs = record { vcn = 0; len = 4; lcn = some 10 } ∷ []; clusters = 4 }

decoded : decode packed ≡ some one_run
unfolding decode decode_from read_run read_uint read_lcn add_delta
decoded = refl

decode-Chain_example :
    Chain 0 4 one_run.runs
    × (length one_run.runs ≤ 24)
    × (0 < 4)
    × ((c : ℕ)
        → c < 4
        → (r : Run) × (run_at one_run.runs c ≡ some r) × (r.vcn ≤ c) × (c < r.vcn + r.len))
    × ((c : ℕ) → 4 ≤ c → run_at one_run.runs c ≡ none)
decode-Chain_example = decode-Chain packed one_run decoded

abbrev kms : Kms
kms = record {
  dumb = λ i. dumb_empty;
  fbs = λ i. fb_empty;
  memory = record { bitmap = λ i. true; owned = λ i. false; free_frames = 64; next = 0 };
}

-- A 16 by 16 buffer, a framebuffer in it, and the buffer destroyed.
run-IsRegistered_example :
    IsRegistered (run 64 kms (creates 16 16 bpp32 ∷ (adds 1 16 16 64 bpp32 ∷ (destroys 1 ∷ []))))
run-IsRegistered_example =
    run-IsRegistered 64 kms (creates 16 16 bpp32 ∷ (adds 1 16 16 64 bpp32 ∷ (destroys 1 ∷ [])))
      (λ i l u. absurd (true≢false (sym u)))
