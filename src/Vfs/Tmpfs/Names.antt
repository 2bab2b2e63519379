-- ===== src/Vfs/Tmpfs/Names.antt =====
-- Names as byte lists: the test that compares two slices, and the scan for a child.
use fantuan_kernel.Base.{
  ℕ, ◌<◌, ◌≡◌, ◌≢◌, refl, sym, ap, ap₂, ◌∙◌, true, false, List, [], ◌∷◌, none, some, arith, ==_self,
  true≢false, find_from-some, find_from-none,
}
use fantuan_kernel.Vfs.Tmpfs.{Tree, name_eq, find_child, is_child, max_nodes}

pub name_eq_self : (xs : List ℕ) → name_eq xs xs ≡ true
unfolding name_eq
name_eq_self [] = refl
name_eq_self (x ∷ xs) = rw (==_self x, name_eq_self xs)

pub name_eq_sound : (xs ys : List ℕ) → name_eq xs ys ≡ true → xs ≡ ys
unfolding name_eq
name_eq_sound [] [] e = refl
name_eq_sound [] (y ∷ ys) e = absurd (true≢false (sym e))
name_eq_sound (x ∷ xs) [] e = absurd (true≢false (sym e))
name_eq_sound (x ∷ xs) (y ∷ ys) e = ap₂ ◌∷◌ (ground arith) (name_eq_sound xs ys (ground arith))

-- A hit of `find_child` is a used node of the directory with the name.
pub find_child-some :
    (t : Tree) (d : ℕ) (name : List ℕ) {i : ℕ}
    → find_child t d name ≡ some i
    → (i < 32) × ((t.nodes i).used ≡ true) × ((t.nodes i).parent ≡ d) × ((t.nodes i).name ≡ name)
unfolding find_child
find_child-some t d name {i = i} e =
    let r = find_from-some (is_child t d name) 0 max_nodes {i = i} e in
    let t' : is_child t d name i ≡ true = r.2 in
    (
      omega (arith, r),
      ground (arith, t'),
      ground (arith, t'),
      name_eq_sound (t.nodes i).name name (ground (arith, t')),
    )

-- A miss means that no used node of the directory has the name.
pub find_child-none :
    (t : Tree) (d : ℕ) (name : List ℕ)
    → find_child t d name ≡ none
    → (j : ℕ) → j < 32
    → (t.nodes j).used ≡ true
    → (t.nodes j).parent ≡ d
    → (t.nodes j).name ≢ name
unfolding find_child
find_child-none t d name e j l u p q =
    let miss : is_child t d name j ≡ false =
      find_from-none (is_child t d name) 0 max_nodes e j (omega arith) (omega arith) in
    let same : name_eq (t.nodes j).name name ≡ true =
      ap (λ n. name_eq n name) q ∙ name_eq_self name in
    ground (arith, miss, same, u, p)
