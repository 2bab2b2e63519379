-- ===== src/Vfs/Tmpfs/Inv.antt =====
-- The shape of the tree: which nodes are fixed, what a used node's parent is, and that a directory
-- has a name once. Every operation of tmpfs.rs writes one node.
use fantuan_kernel.Base.{
  ℕ, ◌≤◌, ◌<◌, ◌≡◌, ◌≢◌, refl, sym, ap, ◌∙◌, true, arith, ℕ_discrete, subst, update, update_self,
  update_ne,
}
use fantuan_kernel.Vfs.Tmpfs.{Node, is_dir, fixed_nodes, valid_name}

abbrev pub IsUsed : (ℕ → Node) → ℕ → Type 0
IsUsed nodes i = (nodes i).used ≡ true

-- Node i is a directory in use.
abbrev pub IsFolder : (ℕ → Node) → ℕ → Type 0
IsFolder nodes i = (i < 32) × IsUsed nodes i × (is_dir (nodes i).kind ≡ true)

pub record IsShaped (nodes : ℕ → Node) : Type 0 where
  pub fixed : (i : ℕ) → i < 8 → nodes i ≡ fixed_nodes i
  pub linked : (i : ℕ) → i < 32 → IsUsed nodes i → IsFolder nodes (nodes i).parent
  pub named : (i : ℕ) → i < 32 → i ≢ 0 → IsUsed nodes i → valid_name (nodes i).name ≡ true
  pub distinct :
      (i j : ℕ)
      → i < 32
      → j < 32
      → IsUsed nodes i
      → IsUsed nodes j
      → (nodes i).parent ≡ (nodes j).parent
      → (nodes i).name ≡ (nodes j).name
      → i ≡ j

-- What a node needs for its place at idx: its parent is a directory in use, none of its siblings
-- has its name, and it stays a directory in use for the children it has.
pub record Fits (nodes : ℕ → Node) (idx : ℕ) (n : Node) : Type 0 where
  pub slot : (8 ≤ idx) × (idx < 32)
  pub parent_ok : n.used ≡ true → IsFolder nodes n.parent × (n.parent ≡ idx → is_dir n.kind ≡ true)
  pub valid : n.used ≡ true → valid_name n.name ≡ true
  pub alone :
      n.used ≡ true
      → (j : ℕ) → j < 32
      → IsUsed nodes j
      → j ≢ idx
      → (nodes j).parent ≡ n.parent
      → (nodes j).name ≢ n.name
  pub keeps :
      (j : ℕ)
      → j < 32
      → IsUsed nodes j
      → j ≢ idx
      → (nodes j).parent ≡ idx
      → (n.used ≡ true) × (is_dir n.kind ≡ true)

-- A directory in use other than idx still is one.
update-IsFolder :
    (nodes : ℕ → Node) (idx i : ℕ) (n : Node)
    → IsFolder nodes i
    → (i ≡ idx → (n.used ≡ true) × (is_dir n.kind ≡ true))
    → IsFolder (update nodes idx n) i
update-IsFolder nodes idx i n f h = elim (ℕ_discrete i idx) [
  | yes e ↦
      let at : update nodes idx n i ≡ n = ap (update nodes idx n) e ∙ update_self nodes idx n in
      (f.0, ap (λ m. m.used) at ∙ (h e).0, ap (λ m. is_dir m.kind) at ∙ (h e).1)
  | no ne ↦
      let at : update nodes idx n i ≡ nodes i = update_ne nodes idx i n ne in
      (f.0, ap (λ m. m.used) at ∙ f.1, ap (λ m. is_dir m.kind) at ∙ f.2)
]

module _ (nodes : ℕ → Node) (idx : ℕ) (n : Node) (inv : IsShaped nodes)
    (fit : Fits nodes idx n) where
  linked_at :
      (i : ℕ) (m : Node)
      → m ≡ update nodes idx n i
      → (i ≡ idx → m ≡ n)
      → (i ≢ idx → m ≡ nodes i)
      → i < 32
      → m.used ≡ true
      → IsFolder (update nodes idx n) m.parent
  linked_at i m at new old l u = elim (ℕ_discrete i idx) [
    | yes e ↦
        let p : m.parent ≡ n.parent = ap (λ k. k.parent) (new e) in
        let v : n.used ≡ true = sym (ap (λ k. k.used) (new e)) ∙ u in
        subst (IsFolder (update nodes idx n)) (sym p) (
          update-IsFolder nodes idx n.parent n (fit.parent_ok v).0
            (λ q. (v, (fit.parent_ok v).1 q)))
    | no ne ↦
        let p : m.parent ≡ (nodes i).parent = ap (λ k. k.parent) (old ne) in
        let v : IsUsed nodes i = sym (ap (λ k. k.used) (old ne)) ∙ u in
        subst (IsFolder (update nodes idx n)) (sym p) (
          update-IsFolder nodes idx (nodes i).parent n (inv.linked i l v)
            (λ q. fit.keeps i l v ne q))
  ]

  -- Only the new node and one other can share a place in a directory, and they do not.
  distinct_new :
      (i j : ℕ)
      → i ≡ idx
      → j ≢ idx
      → j < 32
      → IsUsed (update nodes idx n) i
      → IsUsed (update nodes idx n) j
      → (update nodes idx n i).parent ≡ (update nodes idx n j).parent
      → (update nodes idx n i).name ≡ (update nodes idx n j).name
      → ⊥
  distinct_new i j e ne l u v p q =
      let at : update nodes idx n i ≡ n = ap (update nodes idx n) e ∙ update_self nodes idx n in
      let other : update nodes idx n j ≡ nodes j = update_ne nodes idx j n ne in
      fit.alone (sym (ap (λ k. k.used) at) ∙ u) j l (sym (ap (λ k. k.used) other) ∙ v) ne
        (sym (ap (λ k. k.parent) other) ∙ sym p ∙ ap (λ k. k.parent) at)
        (sym (ap (λ k. k.name) other) ∙ sym q ∙ ap (λ k. k.name) at)

  -- Writing a node that fits keeps the tree.
  pub update-IsShaped : IsShaped (update nodes idx n)
  update-IsShaped = record {
    fixed = λ i l. update_ne nodes idx i n (λ e. absurd (omega (arith, fit.slot))) ∙ inv.fixed i l;
    linked = λ i l u.
        linked_at i (update nodes idx n i) refl
          (λ e. ap (update nodes idx n) e ∙ update_self nodes idx n)
          (λ ne. update_ne nodes idx i n ne) l u;
    named = λ i l z u. elim (ℕ_discrete i idx) [
      | yes e ↦
          let at : update nodes idx n i ≡ n = ap (update nodes idx n) e ∙ update_self nodes idx n in
          ap (λ m. valid_name m.name) at ∙ fit.valid (sym (ap (λ m. m.used) at) ∙ u)
      | no ne ↦
          let at : update nodes idx n i ≡ nodes i = update_ne nodes idx i n ne in
          ap (λ m. valid_name m.name) at ∙ inv.named i l z (sym (ap (λ m. m.used) at) ∙ u)
    ];
    distinct = λ i j l k u v p q. elim (ℕ_discrete i idx) [
      | yes e ↦ elim (ℕ_discrete j idx) [
        | yes f ↦ e ∙ sym f
        | no nf ↦ absurd (distinct_new i j e nf k u v p q)
      ]
      | no ne ↦ elim (ℕ_discrete j idx) [
        | yes f ↦ absurd (distinct_new j i f ne l v u (sym p) (sym q))
        | no nf ↦
            let a : update nodes idx n i ≡ nodes i = update_ne nodes idx i n ne in
            let b : update nodes idx n j ≡ nodes j = update_ne nodes idx j n nf in
            inv.distinct i j l k (sym (ap (λ m. m.used) a) ∙ u) (sym (ap (λ m. m.used) b) ∙ v)
              (sym (ap (λ m. m.parent) a) ∙ p ∙ ap (λ m. m.parent) b)
              (sym (ap (λ m. m.name) a) ∙ q ∙ ap (λ m. m.name) b)
      ]
    ];
  }
