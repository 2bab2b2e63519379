-- ===== src/Vfs/Tmpfs/Chunks.antt =====
-- Every operation of tmpfs.rs and tmpfs_file.rs leaves each file its own chunk of the pool.
use fantuan_kernel.Base.{
  ℕ, ◌+◌, ◌≤◌, ◌<◌, ◌≡◌, ◌≢◌, refl, sym, ap, ◌∙◌, subst, inl, inr, true, false, not, ◌&&◌, ◌||◌,
  List, arith, Option-cases, if_elim, true≢false, is_some, leb, ltb, length, max, update,
  update_self, update_ne, ℕ_discrete, copy_to,
}
use fantuan_kernel.Vfs.Errno.{Result}
use fantuan_kernel.Vfs.Tmpfs.{
  Node, Kind, Tree, is_dir, is_file, find_child, create, place, remove, rename, write, truncate,
  new_node, free_node, init_tree, file_cap, u64, fixed_nodes, valid_name, count_files, has_children,
  taken_by_other,
}
use fantuan_kernel.Vfs.Tmpfs.Edit.{reserve-cases}
use fantuan_kernel.Vfs.Tmpfs.Bytes.{IsFile, IsStored, AreApart}

-- The node n has a chunk of its own in a pool that ends at bound.
record HasChunk (t : Tree) (idx : ℕ) (n : Node) (bound : ℕ) : Type 0 where
  inside : (n.off + 8192 ≤ bound) × (n.size ≤ 8192)
  own : (j : ℕ) → IsFile t.nodes j → j ≢ idx → AreApart n.off (t.nodes j).off

flip : {a b : ℕ} → AreApart a b → AreApart b a
flip (inl l) = inr l
flip (inr r) = inl r

-- Writing a node with a chunk of its own, or one that is no file, keeps the chunks.
update-IsStored :
    (t : Tree) (idx : ℕ) (n : Node) (pool : ℕ → ℕ) (bound : ℕ)
    → IsStored t
    → t.pool_end ≤ bound
    → bound ≤ 65536
    → (n.used ≡ true → is_file n.kind ≡ true → HasChunk t idx n bound)
    → IsStored (record { nodes = update t.nodes idx n; pool = pool; pool_end = bound })
update-IsStored t idx n pool bound inv l m h = record {
  in_pool = m;
  chunk = λ i f. elim (ℕ_discrete i idx) [
    | yes e ↦
        let c : HasChunk t idx n bound =
          h (ap (λ k. k.used) (sym (new i e)) ∙ f.1)
            (ap (λ k. is_file k.kind) (sym (new i e)) ∙ f.2) in
        subst (λ k. (k.off + 8192 ≤ bound) × (k.size ≤ 8192)) (sym (new i e)) c.inside
    | no ne ↦
        let c = inv.chunk i (was i ne f) in
        subst (λ k. (k.off + 8192 ≤ bound) × (k.size ≤ 8192)) (sym (old i ne))
          (omega (arith, c.0), c.1)
  ];
  apart = λ i j f g d. elim (ℕ_discrete i idx) [
    | yes e ↦ elim (ℕ_discrete j idx) [
      | yes e' ↦ absurd (d (e ∙ sym e'))
      | no ne ↦ meets i j e ne f g
    ]
    | no ne ↦ elim (ℕ_discrete j idx) [
      | yes e' ↦ flip (meets j i e' ne g f)
      | no ne' ↦
          subst (λ k. AreApart k.off (update t.nodes idx n j).off) (sym (old i ne))
            (subst (λ k. AreApart (t.nodes i).off k.off) (sym (old j ne'))
              (inv.apart i j (was i ne f) (was j ne' g) d))
    ]
  ];
}
  where
    new : (i : ℕ) → i ≡ idx → update t.nodes idx n i ≡ n
    new i e = ap (update t.nodes idx n) e ∙ update_self t.nodes idx n

    old : (i : ℕ) → i ≢ idx → update t.nodes idx n i ≡ t.nodes i
    old i ne = update_ne t.nodes idx i n ne

    was : (i : ℕ) → i ≢ idx → IsFile (update t.nodes idx n) i → IsFile t.nodes i
    was i ne f = (
      f.0,
      ap (λ k. k.used) (sym (old i ne)) ∙ f.1,
      ap (λ k. is_file k.kind) (sym (old i ne)) ∙ f.2,
    )

    meets :
        (i j : ℕ)
        → i ≡ idx
        → j ≢ idx
        → IsFile (update t.nodes idx n) i
        → IsFile (update t.nodes idx n) j
        → AreApart (update t.nodes idx n i).off (update t.nodes idx n j).off
    meets i j e ne f g =
        let c : HasChunk t idx n bound =
          h (ap (λ k. k.used) (sym (new i e)) ∙ f.1)
            (ap (λ k. is_file k.kind) (sym (new i e)) ∙ f.2) in
        subst (λ k. AreApart k.off (update t.nodes idx n j).off) (sym (new i e))
          (subst (λ k. AreApart n.off k.off) (sym (old j ne)) (c.own j (was j ne g) ne))

-- A node that keeps its kind, its use, its offset and a size in bounds keeps its chunk.
same_chunk :
    (t : Tree) (id : ℕ) (n : Node)
    → IsStored t
    → id < 32
    → (t.nodes id).used ≡ true
    → n.off ≡ (t.nodes id).off
    → n.kind ≡ (t.nodes id).kind
    → ((t.nodes id).size ≤ 8192 → n.size ≤ 8192)
    → (n.used ≡ true → is_file n.kind ≡ true → HasChunk t id n t.pool_end)
same_chunk t id n inv l u o k s v f =
    let g : IsFile t.nodes id = (l, u, ap is_file (sym k) ∙ f) in
    record {
      inside = (omega (arith, o, inv.chunk id g), s (inv.chunk id g).1);
      own = λ j w ne.
          subst (λ x. AreApart x (t.nodes j).off) (sym o) (inv.apart id j g w (λ e. ne (sym e)));
    }

place-IsStored :
    (t : Tree) (parent : ℕ) (name : List ℕ) (want : Kind) (i : ℕ)
    → IsStored t
    → IsStored (place t parent name want i).1
unfolding place
place-IsStored t parent name want i inv =
    if_elim (λ (r : Result ℕ × Tree). IsStored r.1) (is_file want)
      (λ y. elim (reserve-cases t) [
        | inl e ↦ rw e inv
        | inr (e, l) ↦ rw e (
            update-IsStored t i (new_node want parent name t.pool_end) t.pool (t.pool_end + 8192)
              inv (omega arith) l
              (λ u f. record {
                inside = (omega arith, omega arith);
                own = λ j g ne. inr (inv.chunk j g).0;
              }))
      ])
      (λ n.
        update-IsStored t i (new_node want parent name 0) t.pool t.pool_end inv (omega arith)
          inv.in_pool (λ u f. absurd (true≢false (sym f ∙ n))))

pub create-IsStored :
    (t : Tree) (parent : ℕ) (name : List ℕ) (want : Kind)
    → IsStored t
    → IsStored (create t parent name want).1
unfolding create
create-IsStored t parent name want inv =
    let P : Result ℕ × Tree → Type 0 = λ r. IsStored r.1 in
    if_elim P (not (is_dir want) && not (is_file want)) (λ a. inv)
      (λ a.
        if_elim P (not (is_dir (t.nodes parent).kind)) (λ b. inv)
          (λ b.
            if_elim P (not (valid_name name)) (λ c. inv)
              (λ c.
                if_elim P (is_some (find_child t parent name)) (λ d. inv)
                  (λ d.
                    if_elim P (is_file want && leb 8 (count_files t)) (λ e. inv)
                      (λ e. elim (Option-cases (free_node t)) [
                        | inl f ↦ rw f inv
                        | inr (i, f) ↦ rw f (place-IsStored t parent name want i inv)
                      ])))))

pub remove-IsStored : (t : Tree) (id : ℕ) → IsStored t → IsStored (remove t id).1
unfolding remove
remove-IsStored t id inv =
    let P : Result (Unit {0}) × Tree → Type 0 = λ r. IsStored r.1 in
    if_elim P (not (t.nodes id).used || leb id 7) (λ a. inv)
      (λ a.
        if_elim P (is_dir (t.nodes id).kind && has_children t id) (λ b. inv)
          (λ b.
            update-IsStored t id (record (t.nodes id) { used = false }) t.pool t.pool_end inv
              (omega arith) inv.in_pool (λ u f. absurd (true≢false (sym u)))))

pub write-IsStored :
    (t : Tree) (id off : ℕ) (bytes : List ℕ)
    → IsStored t
    → id < 32
    → IsStored (write t id off bytes).1
unfolding write
write-IsStored t id off bytes inv l =
    let P : Result ℕ × Tree → Type 0 = λ r. IsStored r.1 in
    if_elim P (not (is_file (t.nodes id).kind)) (λ a. inv)
      (λ a.
        if_elim P (ltb file_cap (u64 (off + length bytes))) (λ b. inv)
          (λ b.
            let n : Node = record (t.nodes id) {
              size = max (t.nodes id).size (u64 (off + length bytes));
            } in
            update-IsStored t id n (copy_to t.pool (u64 ((t.nodes id).off + off)) bytes) t.pool_end
              inv (omega arith) inv.in_pool
              (λ u. same_chunk t id n inv l u refl refl (λ s. ground (arith, b, s)) u)))

pub truncate-IsStored : (t : Tree) (id : ℕ) → IsStored t → id < 32 → IsStored (truncate t id)
unfolding truncate
truncate-IsStored t id inv l =
    let n : Node = record (t.nodes id) { size = 0 } in
    update-IsStored t id n t.pool t.pool_end inv (omega arith) inv.in_pool
      (λ u. same_chunk t id n inv l u refl refl (λ s. omega arith) u)

pub rename-IsStored :
    (t : Tree) (id new_parent : ℕ) (new_name : List ℕ)
    → IsStored t
    → id < 32
    → IsStored (rename t id new_parent new_name).1
unfolding rename
rename-IsStored t id new_parent new_name inv l =
    let P : Result (Unit {0}) × Tree → Type 0 = λ r. IsStored r.1 in
    if_elim P (not (t.nodes id).used || leb id 7) (λ a. inv)
      (λ a.
        if_elim P (not (is_dir (t.nodes new_parent).kind)) (λ b. inv)
          (λ b.
            if_elim P (not (valid_name new_name)) (λ c. inv)
              (λ c.
                if_elim P (taken_by_other (find_child t new_parent new_name) id) (λ d. inv)
                  (λ d.
                    let n : Node = record (t.nodes id) { parent = new_parent; name = new_name } in
                    update-IsStored t id n t.pool t.pool_end inv (omega arith) inv.in_pool
                      (λ u. same_chunk t id n inv l u refl refl (λ s. s) u)))))

pub init_tree-IsStored : IsStored init_tree
init_tree-IsStored = record {
  in_pool = omega arith;
  chunk = λ i f. absurd (no_file i f.1 f.2);
  apart = λ i j f g. absurd (no_file i f.1 f.2);
}
  where
    no_file : (i : ℕ) → (fixed_nodes i).used ≡ true → is_file (fixed_nodes i).kind ≡ true → ⊥
    no_file i u f = ground arith
