-- ===== src/Process/Vma/Pages.antt =====
-- What a sequence of page operations makes of the pages of an address space: the calls of `UserOps`
-- map one page to a frame, drop one page, and change the protection of one page.
use fantuan_kernel.Base.{
  ℕ, zero, suc, ◌+◌, ◌*◌, ◌%◌, ◌≡◌, refl, ◌∙◌, ap, ◌⊎◌, Option, none, some, List, [], ◌∷◌, ◌++◌,
  arith, update, update_self, update_ne, ℕ_discrete,
}
use fantuan_kernel.Process.Vma.{Prot, PageOp, maps, zeroes, unmaps, protects, unmap_pages}
use fantuan_kernel.Process.Vma.Cover.{Inside}

-- The frame and the protection of a page.
pub record Page : Type 0 where
  pub frame : ℕ
  pub prot : Prot

-- Pages by their address.
abbrev pub Pages : Type 0
Pages = ℕ → Option Page

abbrev pub reprotected : Option Page → Prot → Option Page
reprotected none kp = none
reprotected (some page) kp = some (record page { prot = kp })

unfoldable pub replay : List PageOp → Pages → Pages
replay [] t = t
replay (maps va f kp ∷ ops) t = replay ops (update t va (some (record { frame = f; prot = kp })))
replay (zeroes f ∷ ops) t = replay ops t
replay (unmaps va ∷ ops) t = replay ops (update t va none)
replay (protects va kp ∷ ops) t = replay ops (update t va (reprotected (t va) kp))

-- The frame f is filled with zeros.
abbrev pub IsZeroed : List PageOp → ℕ → Type 0
IsZeroed [] f = ⊥
IsZeroed (op ∷ ops) f = (op ≡ zeroes f) ⊎ IsZeroed ops f

pub replay-append :
    (xs ys : List PageOp) (t : Pages) → replay (xs ++ ys) t ≡ replay ys (replay xs t)
unfolding replay
replay-append [] ys t = refl
replay-append (maps va f kp ∷ xs) ys t = replay-append xs ys _
replay-append (zeroes f ∷ xs) ys t = replay-append xs ys t
replay-append (unmaps va ∷ xs) ys t = replay-append xs ys _
replay-append (protects va kp ∷ xs) ys t = replay-append xs ys _

-- Unmapping k pages leaves the pages outside the range.
pub unmap_pages_outside :
    (k va : ℕ) (t : Pages) (x : ℕ)
    → ¬ Inside va (va + k * 4096) x
    → replay (unmap_pages k va) t x ≡ t x
unfolding replay unmap_pages
unmap_pages_outside zero va t x out = refl
unmap_pages_outside (suc k) va t x out =
    unmap_pages_outside k (va + 0x1000) (update t va none) x
      (λ i. out (omega (arith, i.0), omega (arith, i.1)))
    ∙ update_ne t va x none (λ e. out (omega (arith, e), omega (arith, e)))

-- Unmapping k pages leaves none of them.
pub unmap_pages-Inside :
    (k va : ℕ) (t : Pages) (x : ℕ)
    → va % 4096 ≡ 0
    → x % 4096 ≡ 0
    → Inside va (va + k * 4096) x
    → replay (unmap_pages k va) t x ≡ none
unfolding replay unmap_pages
unmap_pages-Inside zero va t x a b i = absurd (omega (arith, i.0, i.1))
unmap_pages-Inside (suc k) va t x a b i = elim (ℕ_discrete x va) [
  | yes e ↦
      unmap_pages_outside k (va + 0x1000) (update t va none) x (λ j. omega (arith, e, j.0))
      ∙ ap (update t va none) e
      ∙ update_self t va none
  | no ne ↦
      unmap_pages-Inside k (va + 0x1000) (update t va none) x (omega (arith, a)) b
        (omega (arith, a, b, i.0, ne), omega (arith, i.1))
]
