-- ===== src/Graphics/Cover.antt =====
-- The dirty list covers every pixel that was added since it was cleared.
use fantuan_kernel.Base.{
  ℕ, zero, suc, ◌+◌, ◌-◌, ◌^◌, ◌≤◌, ◌<◌, ◌≡◌, sym, ◌⊎◌, inl, inr, arith, ltb, if_elim, update_self,
  update_ne, ℕ_discrete, Bool-cases, subst,
}
use fantuan_kernel.Graphics.{
  Rect, right, bottom, is_empty, union, overlaps, Damage, max_damage, merge, append, growth,
  add_from, add,
}

-- The pixel lies in the rectangle.
abbrev pub Inside : Rect → ℕ → ℕ → Type 0
Inside r px py = ((r.x ≤ px) × (px < right r)) × ((r.y ≤ py) × (py < bottom r))

-- Some entry of the list holds the pixel.
abbrev pub Covered : Damage → ℕ → ℕ → Type 0
Covered d px py = (i : ℕ) × (i < d.len) × Inside (d.rects i) px py

pub union-Inside :
    (a b : Rect) (px py : ℕ) → Inside a px py ⊎ Inside b px py → Inside (union a b) px py
unfolding union
union-Inside a b px py (inl h) =
    if_elim (λ (u : Rect). Inside u px py) (is_empty a)
      (λ t. absurd (ground (arith, t, h.0.0, h.0.1, h.1.0, h.1.1)))
      λ f.
        if_elim (λ (u : Rect). Inside u px py) (is_empty b) (λ t. h)
          (λ g. (
            (omega (arith, h.0.0), omega (arith, h.0.0, h.0.1)),
            (omega (arith, h.1.0), omega (arith, h.1.0, h.1.1)),
          ))
union-Inside a b px py (inr h) =
    if_elim (λ (u : Rect). Inside u px py) (is_empty a) (λ t. h)
      λ f.
        if_elim (λ (u : Rect). Inside u px py) (is_empty b)
          (λ t. absurd (ground (arith, t, h.0.0, h.0.1, h.1.0, h.1.1)))
          (λ g. (
            (omega (arith, h.0.0), omega (arith, h.0.0, h.0.1)),
            (omega (arith, h.1.0), omega (arith, h.1.0, h.1.1)),
          ))

-- A list in bounds that covers what d covers, and r.
pub record Extends (d : Damage) (r : Rect) (e : Damage) : Type 0 where
  pub bounded : e.len ≤ max_damage
  pub kept : (px py : ℕ) → Covered d px py → Covered e px py
  pub added : (px py : ℕ) → Inside r px py → Covered e px py

merge-Extends :
    (d : Damage) (i : ℕ) (r : Rect) → d.len ≤ max_damage → i < d.len → Extends d r (merge d i r)
merge-Extends d i r v l = record {
  bounded = v;
  kept = λ px py (j, m, h). elim (ℕ_discrete j i) [
    | yes e ↦ (
      i,
      l,
      subst (λ (x : Rect). Inside x px py) (sym (update_self d.rects i (union (d.rects i) r)))
          (union-Inside (d.rects i) r px py (inl (subst (λ k. Inside (d.rects k) px py) e h))),
    )
    | no n ↦ (
      j,
      m,
      subst (λ (x : Rect). Inside x px py) (sym (update_ne d.rects i j (union (d.rects i) r) n)) h,
    )
  ];
  added = λ px py h. (
    i,
    l,
    subst (λ (x : Rect). Inside x px py) (sym (update_self d.rects i (union (d.rects i) r)))
        (union-Inside (d.rects i) r px py (inr h)),
  );
}

append-Extends :
    (d : Damage) (r : Rect) (best : ℕ)
    → d.len ≤ max_damage
    → (best < d.len) ⊎ (d.len ≡ 0)
    → Extends d r (append d r best)
unfolding append
append-Extends d r best v b =
    if_elim (Extends d r) (ltb d.len max_damage)
      (λ t. record {
        bounded = ground (arith, t);
        kept = λ px py (j, m, h). (
          j,
          omega (arith, m),
          subst (λ (x : Rect). Inside x px py)
              (sym (update_ne d.rects d.len j r (λ e. omega (arith, m, e)))) h,
        );
        added = λ px py h. (
          d.len,
          omega arith,
          subst (λ (x : Rect). Inside x px py) (sym (update_self d.rects d.len r)) h,
        );
      })
      (λ f.
        if_elim (Extends d r) (ltb 0 d.len)
          (λ t.
            merge-Extends d best r v (elim b [ inl l ↦ l | inr z ↦ absurd (ground (arith, z, t)) ]))
          (λ n. absurd (ground (arith, n, f))))

add_from-Extends :
    (d : Damage) (r : Rect) (i n best bg : ℕ)
    → d.len ≤ max_damage
    → i + n ≡ d.len
    → (best < d.len) ⊎ (d.len ≡ 0)
    → Extends d r (add_from d r i n best bg)
unfolding add_from
add_from-Extends d r i zero best bg v e b = append-Extends d r best v b
add_from-Extends d r i (suc n) best bg v e b = elim (Bool-cases (overlaps (d.rects i) r)) [
  | inl t ↦ rw (t, add_from) (merge-Extends d i r v (omega (arith, e)))
  | inr f ↦ elim (Bool-cases (ltb (growth (d.rects i) r) bg)) [
    | inl t ↦
        rw (add_from, f, t)
          (add_from-Extends d r (i + 1) n i (growth (d.rects i) r) v (omega (arith, e))
            (inl (omega (arith, e))))
    | inr z ↦ rw (add_from, f, z) (add_from-Extends d r (i + 1) n best bg v (omega (arith, e)) b)
  ]
]

-- On a list of at most 16 entries, `add` leaves one of at most 16, which covers every pixel that was
-- covered and every pixel of the new rectangle.
pub add-Extends : (d : Damage) (r : Rect) → d.len ≤ max_damage → Extends d r (add d r)
unfolding add
add-Extends d r v =
    if_elim (Extends d r) (is_empty r)
      (λ t. record {
        bounded = v;
        kept = λ px py c. c;
        added = λ px py h. absurd (ground (arith, t));
      })
      (λ f.
        add_from-Extends d r 0 d.len 0 (2 ^ 64 - 1) v (omega arith)
          (elim (ℕ_discrete d.len 0) [ yes z ↦ inr z | no n ↦ inl (omega (arith, n)) ]))
