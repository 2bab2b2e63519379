-- ===== src/Graphics/Kms.antt =====
-- kernel-core/src/graphics/kms/fbobj.rs: the pool of dumb buffers and the registry of framebuffers,
-- over the frame allocator (`total` frames). A handle or an id is the slot's index and 1. `base` is
-- the physical address, which `phys_to_virt` only moves.
pub mod Registry
use fantuan_kernel.Base.{
  ℕ, zero, suc, ◌+◌, ◌-◌, ◌*◌, ◌/◌, ◌%◌, ◌^◌, Bool, true, false, ◌&&◌, ◌||◌, not, Option, none,
  some, if◌then◌else◌, ◌==◌, ltb, leb, update, find_from, count,
}
use fantuan_kernel.Frame.{Frames, frame_size, alloc_contiguous_unlocked, free_unlocked, u64}

abbrev pub max_dumb : ℕ
max_dumb = 8

abbrev pub max_fb : ℕ
max_fb = 16

pub data Format : Type 0 where
  bpp32 bpp24 bpp16 : Format

abbrev pub bytes_per_pixel : Format → ℕ
bytes_per_pixel bpp32 = 4
bytes_per_pixel bpp24 = 3
bytes_per_pixel bpp16 = 2

abbrev pub same_format : Format → Format → Bool
same_format bpp32 bpp32 = true
same_format bpp32 bpp24 = false
same_format bpp32 bpp16 = false
same_format bpp24 bpp32 = false
same_format bpp24 bpp24 = true
same_format bpp24 bpp16 = false
same_format bpp16 bpp32 = false
same_format bpp16 bpp24 = false
same_format bpp16 bpp16 = true

pub record FbInfo : Type 0 where
  pub base : ℕ
  pub width : ℕ
  pub height : ℕ
  pub pitch : ℕ
  pub format : Format

abbrev pub null_fb : FbInfo
null_fb = record { base = 0; width = 0; height = 0; pitch = 0; format = bpp32 }

pub record DumbSlot : Type 0 where
  pub phys : ℕ
  pub frames : ℕ
  pub fb : FbInfo
  pub used : Bool

pub record FbSlot : Type 0 where
  pub handle : ℕ
  pub fb : FbInfo
  pub used : Bool

abbrev pub dumb_empty : DumbSlot
dumb_empty = record { phys = 0; frames = 0; fb = null_fb; used = false }

abbrev pub fb_empty : FbSlot
fb_empty = record { handle = 0; fb = null_fb; used = false }

pub record Kms : Type 0 where
  pub dumb : ℕ → DumbSlot
  pub fbs : ℕ → FbSlot
  pub memory : Frames

abbrev pub u32 : ℕ → ℕ
u32 n = n % 2 ^ 32

-- `dumb_slot` and `fb_slot`.
abbrev pub slot_of : ℕ → ℕ → Option ℕ
slot_of limit id = if id == 0 then none else if ltb (id - 1) limit then some (id - 1) else none

-- `checked_mul` of three factors, and the frames that hold as many bytes: the sum that rounds up
-- wraps at 2^64, to 0 frames, which the allocator refuses.
abbrev pub frames_for : ℕ → ℕ → Format → Option ℕ
frames_for width height format =
    if leb (2 ^ 64) (width * height * bytes_per_pixel format)
    then none
    else some
        (u64 (u64 (width * height * bytes_per_pixel format + frame_size) + 2 ^ 64 - 1) / frame_size)

-- `fbs()[i] = FB_EMPTY` for each framebuffer of the handle.
unfoldable pub forget_fbs : (ℕ → FbSlot) → ℕ → ℕ → FbSlot
forget_fbs fbs handle i =
    if ltb i max_fb && ((fbs i).used && (fbs i).handle == handle) then fb_empty else fbs i

unfoldable pub addfb : Kms → ℕ → ℕ → ℕ → ℕ → Format → Option ℕ × Kms
addfb k handle width height pitch format = elim (slot_of max_dumb handle) [
  | none ↦ (none, k)
  | some slot ↦
      let buf = k.dumb slot in
      if not buf.used
      then (none, k)
      else if (width == 0 || height == 0) || not (same_format format buf.fb.format)
      then (none, k)
      else if ltb pitch (u32 (width * bytes_per_pixel format))
      then (none, k)
      else if ltb (buf.frames * frame_size) (pitch * height)
      then (none, k)
      else elim (find_from (λ i. not (k.fbs i).used) 0 max_fb) [
        | none ↦ (none, k)
        | some i ↦ (
          some (i + 1),
          record k {
            fbs = update k.fbs i (record {
              handle = handle;
              fb = record {
                base = buf.fb.base;
                width = width;
                height = height;
                pitch = pitch;
                format = format;
              };
              used = true;
            });
          },
        )
      ]
]

unfoldable pub rmfb : Kms → ℕ → Bool × Kms
rmfb k fb_id = elim (slot_of max_fb fb_id) [
  | none ↦ (false, k)
  | some slot ↦
      if not (k.fbs slot).used
      then (false, k)
      else (true, record k { fbs = update k.fbs slot fb_empty })
]

pub fb_info : Kms → ℕ → Option FbInfo
fb_info k fb_id = elim (slot_of max_fb fb_id) [
  | none ↦ none
  | some slot ↦ if (k.fbs slot).used then some (k.fbs slot).fb else none
]

pub dumb_info : Kms → ℕ → Option FbInfo
dumb_info k handle = elim (slot_of max_dumb handle) [
  | none ↦ none
  | some slot ↦ if (k.dumb slot).used then some (k.dumb slot).fb else none
]

pub dumb_used : Kms → ℕ
dumb_used k = count (λ i. (k.dumb i).used) max_dumb

-- The end of `dumb_create`; `width * bpp` wraps.
unfoldable pub enter : Kms → ℕ → ℕ → ℕ → Format → ℕ → Option ℕ × Frames → Option ℕ × Kms
enter k slot width height format frames (none, memory) = (none, record k { memory = memory })
enter k slot width height format frames (some phys, memory) = (
  some (slot + 1),
  record k {
    memory = memory;
    dumb = update k.dumb slot (record {
      phys = phys;
      frames = frames;
      fb = record {
        base = phys;
        width = width;
        height = height;
        pitch = u32 (width * bytes_per_pixel format);
        format = format;
      };
      used = true;
    });
  },
)

module _ (total : ℕ) where
  -- The free slot and the frames are both found before anything is entered.
  unfoldable pub dumb_create : Kms → ℕ → ℕ → Format → Option ℕ × Kms
  dumb_create k width height format =
      if width == 0 || height == 0 then (none, k) else elim (frames_for width height format) [
        | none ↦ (none, k)
        | some frames ↦ elim (find_from (λ i. not (k.dumb i).used) 0 max_dumb) [
          | none ↦ (none, k)
          | some slot ↦
              enter k slot width height format frames
                (alloc_contiguous_unlocked total k.memory frames)
        ]
      ]

  -- `for i in 0..frames { free(phys + i * FRAME_SIZE) }`, from i on.
  unfoldable pub free_frames : Frames → ℕ → ℕ → ℕ → Frames
  free_frames memory phys i zero = memory
  free_frames memory phys i (suc n) =
      free_frames (free_unlocked total memory (phys + i * frame_size)) phys (i + 1) n

  unfoldable pub dumb_destroy : Kms → ℕ → Bool × Kms
  dumb_destroy k handle = elim (slot_of max_dumb handle) [
    | none ↦ (false, k)
    | some slot ↦
        let s = k.dumb slot in
        if not s.used then (false, k) else (
          true,
          record {
            fbs = forget_fbs k.fbs handle;
            memory = free_frames k.memory s.phys 0 s.frames;
            dumb = update k.dumb slot dumb_empty;
          },
        )
  ]
