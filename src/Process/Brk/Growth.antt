-- ===== src/Process/Brk/Growth.antt =====
-- The growth loop of `brk` maps a zeroed frame to each page that it adds.
use fantuan_kernel.Base.{
  ℕ, zero, suc, ◌+◌, ◌*◌, ◌/◌, ◌%◌, ◌≤◌, ◌<◌, ◌≡◌, refl, sym, ap, ◌∙◌, ◌⊎◌, inl, inr, Bool, arith,
  Option-cases, true≢false, Option, some, some-inj, none-ne-some, none, subst, true, false, List,
  ◌≢◌, append-nil, append_assoc, update, update_self, update_ne, ℕ_discrete, dec_lt, ◌++◌, ◌∷◌, [],
}
use fantuan_kernel.Frame.{Frames, frame_size, alloc_unlocked}
use fantuan_kernel.Frame.Inv as Frame
use fantuan_kernel.Frame.Alloc.{Allocated, alloc-IsValid, alloc-Allocated}
use fantuan_kernel.Process.Vma.{PageOp, maps, zeroes, rw_}
use fantuan_kernel.Process.Vma.Pages.{Page, Pages, replay, replay-append, IsZeroed}
use fantuan_kernel.Process.Brk.{Heap, State, grow}

-- Every page of the heap is mapped to a frame and may be written, when `t` is what the address space
-- was before the first of the operations.
abbrev pub IsMapped : Pages → Heap → List PageOp → Type 0
IsMapped t h ops =
    (x : ℕ)
    → x % 4096 ≡ 0
    → h.base ≤ x
    → x < h.mapped
    → (f : ℕ) × (replay ops t x ≡ some (record { frame = f; prot = rw_ }))

-- The frame at f was free in the first allocator, and is used and owned in the second.
abbrev pub Taken : Frames → Frames → ℕ → Type 0
Taken a b f =
    (a.bitmap (f / frame_size) ≡ true)
    × (b.bitmap (f / frame_size) ≡ false)
    × (b.owned (f / frame_size) ≡ true)

-- The second state has the pages of the first, and between the two ends new ones, each mapped to a
-- frame of its own that was free and is taken and zeroed.
pub record Extends (t : Pages) (m m' : State) : Type 0 where
  pub added : List PageOp
  pub same : m'.ops ≡ m.ops ++ added
  pub fresh :
      (x : ℕ)
      → x % 4096 ≡ 0
      → m.heap.mapped ≤ x
      → x < m'.heap.mapped
      → (f : ℕ) × (replay m'.ops t x ≡ some (record { frame = f; prot = rw_ }))
        × IsZeroed added f
        × Taken m.frames m'.frames f
  pub own :
      (x y : ℕ)
      → x % 4096 ≡ 0
      → y % 4096 ≡ 0
      → m.heap.mapped ≤ x
      → x < y
      → y < m'.heap.mapped
      → replay m'.ops t x ≢ replay m'.ops t y
  pub used_kept : (i : ℕ) → m.frames.bitmap i ≡ false → m'.frames.bitmap i ≡ false
  pub owned_kept : (i : ℕ) → m.frames.owned i ≡ true → m'.frames.owned i ≡ true
  pub kept :
      (x : ℕ) → (x < m.heap.mapped) ⊎ (m'.heap.mapped ≤ x) → replay m'.ops t x ≡ replay m.ops t x

pub unextended :
    (t : Pages) (m m' : State)
    → m'.heap.mapped ≡ m.heap.mapped
    → m'.ops ≡ m.ops
    → m'.frames ≡ m.frames
    → Extends t m m'
unextended t m m' e o g = record {
  own = λ x y a b c d l. absurd (omega (arith, e, c, d, l));
  used_kept = λ i h. ap (λ (a : Frames). a.bitmap i) g ∙ h;
  owned_kept = λ i h. ap (λ (a : Frames). a.owned i) g ∙ h;
  added = [];
  same = o ∙ sym (append-nil m.ops);
  fresh = λ x a l u. absurd (omega (arith, e, l, u));
  kept = λ x h. ap (λ ops. replay ops t x) o;
}

-- One round of the growth loop.
abbrev mapped_one : State → Frames → ℕ → ℕ → State
mapped_one m frames va f = record m {
  heap = record m.heap { mapped = va + 4096 };
  frames = frames;
  ops = m.ops ++ (maps va f rw_ ∷ zeroes f ∷ []);
}

-- What taking one frame leaves of the others.
one_frame :
    (total : ℕ) (a b : Frames) (f : ℕ)
    → Allocated total a (some f, b)
    → Taken a b f
      × ((i : ℕ) → a.bitmap i ≡ false → b.bitmap i ≡ false)
      × ((i : ℕ) → a.owned i ≡ true → b.owned i ≡ true)
      × ((i : ℕ) → b.bitmap i ≡ true → a.bitmap i ≡ true)
one_frame total a b f g =
    let e : g.index ≡ f / frame_size = omega (arith, g.address) in
    (
      subst (λ i. (a.bitmap i ≡ true) × (b.bitmap i ≡ false) × (b.owned i ≡ true)) e
          (g.was_free, g.now_used, g.now_owned),
      λ i h. elim (ℕ_discrete i g.index) [
        | yes q ↦ ap b.bitmap q ∙ g.now_used
        | no q ↦ (g.others i q).0 ∙ h
      ],
      λ i h. elim (ℕ_discrete i g.index) [
        | yes q ↦ ap b.owned q ∙ g.now_owned
        | no q ↦ (g.others i q).1 ∙ h
      ],
      λ i h. elim (ℕ_discrete i g.index) [
        | yes q ↦ ap a.bitmap q ∙ g.was_free
        | no q ↦ sym (g.others i q).0 ∙ h
      ],
    )

extended_one :
    (t : Pages) (total : ℕ) (m m' : State) (frames : Frames) (va f : ℕ)
    → m.heap.mapped ≡ va
    → va % 4096 ≡ 0
    → va + 4096 ≤ m'.heap.mapped
    → Allocated total m.frames (some f, frames)
    → Extends t (mapped_one m frames va f) m'
    → Extends t m m'
unfolding replay
extended_one t total m m' frames va f e w l g r =
    let now = m.ops ++ (maps va f rw_ ∷ zeroes f ∷ []) in
    let page : Option Page = some (record { frame = f; prot = rw_ }) in
    let n = one_frame total m.frames frames f g in
    let one : (x : ℕ) → replay now t x ≡ update (replay m.ops t) va page x =
      λ x. ap (λ (q : Pages). q x) (replay-append m.ops (maps va f rw_ ∷ zeroes f ∷ []) t) in
    record {
      added = maps va f rw_ ∷ (zeroes f ∷ r.added);
      same = r.same ∙ append_assoc m.ops (maps va f rw_ ∷ zeroes f ∷ []) r.added;
      fresh = λ x a b c. elim (ℕ_discrete x va) [
        | yes q ↦ (
          f,
          at_va x q,
          inr (inl refl),
          (n.0.0, r.used_kept (f / frame_size) n.0.1, r.owned_kept (f / frame_size) n.0.2),
        )
        | no q ↦
            let k = r.fresh x a (omega (arith, a, b, e, w, q)) c in
            (k.0, k.1, inr (inr k.2), (n.3 (k.0 / frame_size) k.3.0, k.3.1, k.3.2))
      ];
      own = λ x y a b c d h u. elim (ℕ_discrete x va) [
        | yes q ↦
            let k = r.fresh y b (omega (arith, a, b, c, d, e, w)) h in
            let same : f ≡ k.0 =
              ap (λ (p : Page). p.frame) (some-inj (sym (at_va x q) ∙ (u ∙ k.1))) in
            true≢false (sym k.3.0 ∙ (ap (λ i. frames.bitmap (i / frame_size)) (sym same) ∙ n.0.1))
        | no q ↦ r.own x y a b (omega (arith, a, c, e, w, q)) d h u
      ];
      used_kept = λ i h. r.used_kept i (n.1 i h);
      owned_kept = λ i h. r.owned_kept i (n.2 i h);
      kept = λ x h.
          r.kept x (in_tail x h) ∙ (one x ∙ update_ne (replay m.ops t) va x page (apart x h));
    }
  where
    at_va : (x : ℕ) → x ≡ va → replay m'.ops t x ≡ some (record { frame = f; prot = rw_ })
    at_va x q =
        let now = m.ops ++ (maps va f rw_ ∷ zeroes f ∷ []) in
        let page : Option Page = some (record { frame = f; prot = rw_ }) in
        let one : (x : ℕ) → replay now t x ≡ update (replay m.ops t) va page x =
          λ x. ap (λ (q : Pages). q x) (replay-append m.ops (maps va f rw_ ∷ zeroes f ∷ []) t) in
        r.kept x (inl (omega (arith, q)))
        ∙ (one x ∙ (ap (update (replay m.ops t) va page) q ∙ update_self (replay m.ops t) va page))

    in_tail :
        (x : ℕ)
        → (x < m.heap.mapped) ⊎ (m'.heap.mapped ≤ x)
        → (x < va + 4096) ⊎ (m'.heap.mapped ≤ x)
    in_tail x (inl k) = inl (omega (arith, k, e))
    in_tail x (inr k) = inr k

    apart : (x : ℕ) → (x < m.heap.mapped) ⊎ (m'.heap.mapped ≤ x) → x ≢ va
    apart x (inl k) q = absurd (omega (arith, k, e, q))
    apart x (inr k) q = absurd (omega (arith, k, l, q))

-- What the growth loop leaves: the base and the break as they were, and the mapped end at the end of
-- the last page that it got, all of which are there.
pub record Grown (t : Pages) (total k va : ℕ) (m : State) (r : Bool × State) : Type 0 where
  pub base : r.1.heap.base ≡ m.heap.base
  pub brk : r.1.heap.brk ≡ m.heap.brk
  pub monotone : m.heap.mapped ≤ r.1.heap.mapped
  pub whole : r.1.heap.mapped % 4096 ≡ 0
  pub reached : r.0 ≡ true → r.1.heap.mapped ≡ va + k * 4096
  pub extends : Extends t m r.1
  pub frames : Frame.IsValid total r.1.frames

pub grow-Grown :
    (t : Pages) (total k va : ℕ) (m : State)
    → m.heap.mapped ≡ va
    → va % 4096 ≡ 0
    → Frame.IsValid total m.frames
    → Grown t total k va m (grow total k va m)
unfolding grow
grow-Grown t total zero va m e w fs = record {
  base = refl;
  brk = refl;
  monotone = omega arith;
  whole = omega (arith, e, w);
  reached = λ d. omega (arith, e);
  extends = unextended t m m refl refl refl;
  frames = fs;
}
grow-Grown t total (suc k) va m e w fs = elim (Option-cases (alloc_unlocked total m.frames).0) [
  | inl z ↦
      rw (z, grow)
        (record {
          base = refl;
          brk = refl;
          monotone = omega arith;
          whole = omega (arith, e, w);
          reached = λ d. absurd (true≢false (sym d));
          extends =
              unextended t m _ refl refl
                (none_kept (alloc_unlocked total m.frames) (alloc-Allocated total m.frames fs) z);
          frames = alloc-IsValid total m.frames fs;
        })
  | inr (f, z) ↦
      let frames = (alloc_unlocked total m.frames).1 in
      let ih =
        grow-Grown t total k (va + 4096) (mapped_one m frames va f) refl (omega (arith, w))
          (alloc-IsValid total m.frames fs) in
      rw (z, grow)
        (record {
          base = ih.base;
          brk = ih.brk;
          monotone = omega (arith, e, ih.monotone);
          whole = ih.whole;
          reached = λ d. omega (arith, ih.reached d);
          extends =
              extended_one t total m _ frames va f e w ih.monotone
                (some_taken (alloc_unlocked total m.frames) (alloc-Allocated total m.frames fs) z)
                ih.extends;
          frames = ih.frames;
        })
]
  where
    none_kept : (r : Option ℕ × Frames) → Allocated total m.frames r → r.0 ≡ none → r.1 ≡ m.frames
    none_kept (none, b) g e = g.0
    none_kept (some p, b) g e = absurd (none-ne-some (sym e))

    some_taken :
        {p : ℕ} (r : Option ℕ × Frames)
        → Allocated total m.frames r
        → r.0 ≡ some p
        → Allocated total m.frames (some p, r.1)
    some_taken (none, b) g e = absurd (none-ne-some e)
    some_taken (some p, b) g e = subst (λ q. Allocated total m.frames (some q, b)) (some-inj e) g

-- The pages of a heap that grew from one whose pages were there.
pub extended-IsMapped :
    (t : Pages) (m m' : State)
    → m'.heap.base ≡ m.heap.base
    → Extends t m m'
    → IsMapped t m.heap m.ops
    → IsMapped t m'.heap m'.ops
extended-IsMapped t m m' e r h x a b c = elim (dec_lt x m.heap.mapped) [
  | yes l ↦ let k = h x a (omega (arith, e, b)) l in (k.0, r.kept x (inl l) ∙ k.1)
  | no n ↦ let k = r.fresh x a (omega (arith, n)) c in (k.0, k.1)
]
