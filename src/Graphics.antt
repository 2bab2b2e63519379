-- ===== src/Graphics.antt =====
-- kernel-core/src/graphics/mod.rs and damage.rs: rectangles and the bounded list of dirty ones.
-- Coordinates and sizes are below 2^32. `rects` is a function of the index; entries from `len` on are
-- never read.
pub mod Cover
pub mod Kms
use fantuan_kernel.Base.{
  ℕ, zero, suc, ◌+◌, ◌-◌, ◌*◌, ◌^◌, min, max, Bool, true, false, not, ◌&&◌, ◌||◌, Option, none,
  some, if◌then◌else◌, ◌==◌, ltb, leb, update,
}

pub record Rect : Type 0 where
  pub x : ℕ
  pub y : ℕ
  pub w : ℕ
  pub h : ℕ

abbrev pub u32_max : ℕ
u32_max = 2 ^ 32 - 1

abbrev pub is_empty : Rect → Bool
is_empty r = r.w == 0 || r.h == 0

-- `saturating_add`
abbrev pub right : Rect → ℕ
right r = min (r.x + r.w) u32_max

abbrev pub bottom : Rect → ℕ
bottom r = min (r.y + r.h) u32_max

abbrev pub empty_rect : Rect
empty_rect = record { x = 0; y = 0; w = 0; h = 0 }

unfoldable pub intersect : Rect → Rect → Rect
intersect a b =
    let x = max a.x b.x in
    let y = max a.y b.y in
    let r = min (right a) (right b) in
    let d = min (bottom a) (bottom b) in
    if is_empty a || is_empty b
    then empty_rect
    else if leb r x || leb d y
    then empty_rect
    else record { x = x; y = y; w = r - x; h = d - y }

unfoldable pub union : Rect → Rect → Rect
union a b =
    let x = min a.x b.x in
    let y = min a.y b.y in
    if is_empty a
    then b
    else if is_empty b
    then a
    else record { x = x; y = y; w = max (right a) (right b) - x; h = max (bottom a) (bottom b) - y }

abbrev pub area : Rect → ℕ
area r = r.w * r.h

unfoldable pub overlaps : Rect → Rect → Bool
overlaps a b =
    (not (is_empty a) && not (is_empty b))
    && ((ltb a.x (right b) && ltb b.x (right a)) && (ltb a.y (bottom b) && ltb b.y (bottom a)))

abbrev pub max_damage : ℕ
max_damage = 16

pub record Damage : Type 0 where
  pub rects : ℕ → Rect
  pub len : ℕ

abbrev pub new : Damage
new = record { rects = λ i. empty_rect; len = 0 }

abbrev pub clear : Damage → Damage
clear d = record d { len = 0 }

-- The union of a and of n entries from i on.
unfoldable pub fold_union : (ℕ → Rect) → ℕ → ℕ → Rect → Rect
fold_union rects i zero a = a
fold_union rects i (suc n) a = fold_union rects (i + 1) n (union a (rects i))

unfoldable pub bbox : Damage → Option Rect
bbox d = if d.len == 0 then none else some (fold_union d.rects 1 (d.len - 1) (d.rects 0))

-- Entry i is replaced by its union with r.
abbrev pub merge : Damage → ℕ → Rect → Damage
merge d i r = record d { rects = update d.rects i (union (d.rects i) r) }

-- The end of `add`, when no entry overlaps.
unfoldable pub append : Damage → Rect → ℕ → Damage
append d r best =
    if ltb d.len max_damage
    then record { rects = update d.rects d.len r; len = d.len + 1 }
    else if ltb 0 d.len
    then merge d best r
    else d

abbrev pub growth : Rect → Rect → ℕ
growth cur r = area (union cur r) - area cur

-- The loop of `add`, n entries from i on.
unfoldable pub add_from : Damage → Rect → ℕ → ℕ → ℕ → ℕ → Damage
add_from d r i zero best best_growth = append d r best
add_from d r i (suc n) best best_growth =
    let g = growth (d.rects i) r in
    elim (overlaps (d.rects i) r) [
      | true ↦ merge d i r
      | false ↦ elim (ltb g best_growth) [
        | true ↦ add_from d r (i + 1) n i g
        | false ↦ add_from d r (i + 1) n best best_growth
      ]
    ]

unfoldable pub add : Damage → Rect → Damage
add d r = if is_empty r then d else add_from d r 0 d.len 0 (2 ^ 64 - 1)
