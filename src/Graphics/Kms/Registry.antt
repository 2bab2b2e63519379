-- ===== src/Graphics/Kms/Registry.antt =====
-- Every framebuffer in the registry lies in a dumb buffer in use.
use fantuan_kernel.Base.{
  ℕ, List, [], ◌∷◌, ◌+◌, ◌*◌, ◌≤◌, ◌<◌, ◌≡◌, ◌≢◌, refl, sym, ◌∙◌, subst, inl, inr, Bool, true,
  false, not, ◌&&◌, ◌||◌, Option, some, none, arith, ltb, ◌==◌, Option-cases, if_elim, update,
  update_ne, find_from, find_from-some, true≢false,
}
use fantuan_kernel.Frame.{Frames, frame_size, alloc_contiguous_unlocked}
use fantuan_kernel.Graphics.Kms.{
  Kms, FbSlot, DumbSlot, Format, dumb_empty, slot_of, max_dumb, max_fb, addfb, rmfb, dumb_create,
  dumb_destroy, forget_fbs, enter, frames_for, same_format, u32, bytes_per_pixel,
}

-- A framebuffer's handle is that of a dumb buffer in use, in whose frames its lines fit, from the
-- same base and with the same format.
pub record IsBacked (dumb : ℕ → DumbSlot) (f : FbSlot) : Type 0 where
  pub slot : ℕ
  pub named : (f.handle ≡ slot + 1) × (slot < 8)
  pub live : (dumb slot).used ≡ true
  pub sized : (0 < f.fb.width) × (0 < f.fb.height)
  pub covers : u32 (f.fb.width * bytes_per_pixel f.fb.format) ≤ f.fb.pitch
  pub fits : f.fb.pitch * f.fb.height ≤ (dumb slot).frames * 4096
  pub same :
      (f.fb.base ≡ (dumb slot).fb.base) × (same_format f.fb.format (dumb slot).fb.format ≡ true)

abbrev pub IsRegistered : Kms → Type 0
IsRegistered k = (i : ℕ) → i < 16 → (k.fbs i).used ≡ true → IsBacked k.dumb (k.fbs i)

slot_of-some : (limit id slot : ℕ) → slot_of limit id ≡ some slot → (id ≡ slot + 1) × (slot < limit)
slot_of-some limit id slot e = (ground arith, ground arith)

-- A buffer that stays as it is backs what it backed.
update-IsBacked :
    (dumb : ℕ → DumbSlot) (slot : ℕ) (d : DumbSlot) (f : FbSlot) (b : IsBacked dumb f)
    → b.slot ≢ slot
    → IsBacked (update dumb slot d) f
update-IsBacked dumb slot d f b ne =
    let same : dumb b.slot ≡ update dumb slot d b.slot = sym (update_ne dumb slot b.slot d ne) in
    record {
      slot = b.slot;
      named = b.named;
      sized = b.sized;
      covers = b.covers;
      live = subst (λ x. x.used ≡ true) same b.live;
      fits = subst (λ x. f.fb.pitch * f.fb.height ≤ x.frames * 4096) same b.fits;
      same =
          subst (λ x. (f.fb.base ≡ x.fb.base) × (same_format f.fb.format x.fb.format ≡ true)) same
            b.same;
    }

pub addfb-IsRegistered :
    (k : Kms) (handle width height pitch : ℕ) (format : Format)
    → IsRegistered k
    → IsRegistered (addfb k handle width height pitch format).1
unfolding addfb update
addfb-IsRegistered k handle width height pitch format v =
    elim (Option-cases (slot_of max_dumb handle)) [
      | inl e ↦ rw (addfb, e) v
      | inr (slot, e) ↦
          let n = slot_of-some max_dumb handle slot e in
          let buf : DumbSlot = k.dumb slot in
          rw (addfb, e)
            (if_elim P (not buf.used) (λ t. v)
              (λ a.
                if_elim P ((width == 0 || height == 0) || not (same_format format buf.fb.format))
                  (λ t. v)
                  (λ b.
                    if_elim P (ltb pitch (u32 (width * bytes_per_pixel format))) (λ t. v)
                      (λ c.
                        if_elim P (ltb (buf.frames * frame_size) (pitch * height)) (λ t. v)
                          (λ d. elim (Option-cases (find_from (λ i. not (k.fbs i).used) 0 max_fb)) [
                            | inl q ↦ rw q v
                            | inr (i, q) ↦ rw q (λ j l.
                                if_elim (λ (f : FbSlot). f.used ≡ true → IsBacked k.dumb f) (j == i)
                                  (λ t u. record {
                                    slot = slot;
                                    named = n;
                                    live = ground (arith, a);
                                    sized = (ground (arith, b), ground (arith, b));
                                    covers = ground (arith, c);
                                    fits = ground (arith, d);
                                    same = (refl, ground (arith, b));
                                  })
                                  (λ f. v j l))
                          ])))))
    ]
  where
    P : Option ℕ × Kms → Type 0
    P r = IsRegistered r.1

pub rmfb-IsRegistered : (k : Kms) (fb_id : ℕ) → IsRegistered k → IsRegistered (rmfb k fb_id).1
unfolding rmfb update
rmfb-IsRegistered k fb_id v = elim (Option-cases (slot_of max_fb fb_id)) [
  | inl e ↦ rw (rmfb, e) v
  | inr (slot, e) ↦
      rw (rmfb, e)
        (if_elim (λ (r : Bool × Kms). IsRegistered r.1) (not (k.fbs slot).used) (λ t. v)
          (λ f j l.
            if_elim (λ (g : FbSlot). g.used ≡ true → IsBacked k.dumb g) (j == slot)
              (λ t u. absurd (true≢false (sym u))) (λ g. v j l)))
]

module _ (total : ℕ) where
  pub dumb_create-IsRegistered :
      (k : Kms) (width height : ℕ) (format : Format)
      → IsRegistered k
      → IsRegistered (dumb_create total k width height format).1
  unfolding dumb_create enter
  dumb_create-IsRegistered k width height format v =
      if_elim P (width == 0 || height == 0) (λ t. v)
        (λ f. elim (Option-cases (frames_for width height format)) [
          | inl e ↦ rw e v
          | inr (frames, e) ↦
              elim (Option-cases (find_from (λ i. not (k.dumb i).used) 0 max_dumb)) [
                | inl q ↦ rw (e, q) v
                | inr (slot, q) ↦
                    let r = find_from-some (λ i. not (k.dumb i).used) 0 max_dumb {i = slot} q in
                    let free : not (k.dumb slot).used ≡ true = r.2 in
                    rw (e, q)
                      (go slot frames (ground (arith, free))
                        (alloc_contiguous_unlocked total k.memory frames))
              ]
        ])
    where
      P : Option ℕ × Kms → Type 0
      P r = IsRegistered r.1

      go :
          (slot frames : ℕ)
          → (k.dumb slot).used ≡ false
          → (a : Option ℕ × Frames) → IsRegistered (enter k slot width height format frames a).1
      go slot frames free (none, memory) = v
      go slot frames free (some phys, memory) = λ i l u.
          update-IsBacked k.dumb slot _ (k.fbs i) (v i l u)
            (λ e. true≢false (sym (subst (λ s. (k.dumb s).used ≡ true) e (v i l u).live) ∙ free))

  pub dumb_destroy-IsRegistered :
      (k : Kms) (handle : ℕ) → IsRegistered k → IsRegistered (dumb_destroy total k handle).1
  unfolding dumb_destroy forget_fbs
  dumb_destroy-IsRegistered k handle v = elim (Option-cases (slot_of max_dumb handle)) [
    | inl e ↦ rw (dumb_destroy, e) v
    | inr (slot, e) ↦
        let n = slot_of-some max_dumb handle slot e in
        rw (dumb_destroy, e)
          (if_elim (λ (r : Bool × Kms). IsRegistered r.1) (not (k.dumb slot).used) (λ t. v)
            (λ f i l.
              if_elim (λ (g : FbSlot). g.used ≡ true → IsBacked (update k.dumb slot dumb_empty) g)
                (ltb i max_fb && ((k.fbs i).used && (k.fbs i).handle == handle))
                (λ t u. absurd (true≢false (sym u)))
                (λ g u.
                  update-IsBacked k.dumb slot dumb_empty (k.fbs i) (v i l u)
                    (λ q. absurd (ground (arith, g, u, l, (v i l u).named, q, n))))))
  ]

-- The calls of the pool and the registry.
pub data Call : Type 0 where
  creates : ℕ → ℕ → Format → Call
  destroys : ℕ → Call
  adds : ℕ → ℕ → ℕ → ℕ → Format → Call
  removes : ℕ → Call

abbrev pub step : ℕ → Kms → Call → Kms
step total k (creates width height format) = (dumb_create total k width height format).1
step total k (destroys handle) = (dumb_destroy total k handle).1
step total k (adds handle width height pitch format) = (addfb k handle width height pitch format).1
step total k (removes fb_id) = (rmfb k fb_id).1

abbrev pub run : ℕ → Kms → List Call → Kms
run total k [] = k
run total k (c ∷ cs) = run total (step total k c) cs

step-IsRegistered :
    (total : ℕ) (k : Kms) (c : Call) → IsRegistered k → IsRegistered (step total k c)
step-IsRegistered total k (creates width height format) =
    dumb_create-IsRegistered total k width height format
step-IsRegistered total k (destroys handle) = dumb_destroy-IsRegistered total k handle
step-IsRegistered total k (adds handle width height pitch format) =
    addfb-IsRegistered k handle width height pitch format
step-IsRegistered total k (removes fb_id) = rmfb-IsRegistered k fb_id

-- From a registry in which every framebuffer is backed, this stays so whatever calls are made, in
-- whatever order and with whatever arguments: its handle is that of a dumb buffer in use, its base
-- and format are the buffer's, it has pixels, its pitch is at least the bytes of a row modulo
-- 2^32, and pitch times height bytes fit in the buffer's frames.
pub run-IsRegistered :
    (total : ℕ) (k : Kms) (cs : List Call) → IsRegistered k → IsRegistered (run total k cs)
run-IsRegistered total k [] v = v
run-IsRegistered total k (c ∷ cs) v =
    run-IsRegistered total (step total k c) cs (step-IsRegistered total k c v)
