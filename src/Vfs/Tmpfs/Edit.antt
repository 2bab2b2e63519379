-- ===== src/Vfs/Tmpfs/Edit.antt =====
-- create, remove, truncate, write and rename keep the tree.
use fantuan_kernel.Base.{
  ℕ, ◌+◌, ◌≤◌, ◌<◌, ◌≡◌, ◌≢◌, refl, sym, ap, ◌∙◌, subst, fun_ext, ◌⊎◌, inl, inr, true, false, not,
  ◌&&◌, ◌||◌, List, Option, none, some, arith, is_some, find_from, find_from-some, find_from-none,
  Bool-cases, Option-cases, if_elim, true≢false, leb, ltb, ◌==◌, length, max, update, update_self,
  update_ne, ℕ_discrete,
}
use fantuan_kernel.Vfs.Errno.{Result}
use fantuan_kernel.Vfs.Tmpfs.{
  Kind, Tree, is_dir, is_file, find_child, create, place, reserve, remove, rename, write, truncate,
  new_node, free_node, has_children, fixed_nodes, init_tree, max_nodes, pool_bytes, file_cap, u64,
  count_files, valid_name, name_eq, contains, taken_by_other,
}
use fantuan_kernel.Vfs.Tmpfs.Names.{find_child-none, find_child-some}
use fantuan_kernel.Vfs.Tmpfs.Inv.{IsUsed, IsFolder, IsShaped, Fits, update-IsShaped}

-- A slot that create takes is a free one behind the fixed nodes.
pub free_node-some :
    (t : Tree) (i : ℕ) → free_node t ≡ some i → (i < 32) × ((t.nodes i).used ≡ false)
free_node-some t i e =
    let r = find_from-some (λ j. not (t.nodes j).used) 0 max_nodes {i = i} e in
    let u : not (t.nodes i).used ≡ true = r.2 in (omega (arith, r), ground (arith, u))

fixed_used : (i : ℕ) → i < 8 → (fixed_nodes i).used ≡ true
fixed_used i l = ground arith

pub fixed_is_used : (t : Tree) → IsShaped t.nodes → (i : ℕ) → i < 8 → (t.nodes i).used ≡ true
fixed_is_used t inv i l = ap (λ n. n.used) (inv.fixed i l) ∙ fixed_used i l

free_slot :
    (t : Tree) (i : ℕ) → IsShaped t.nodes → i < 32 → (t.nodes i).used ≡ false → (8 ≤ i) × (i < 32)
free_slot t i inv l f = elim (Bool-cases (leb 8 i)) [
  | inl y ↦ (ground (arith, y), l)
  | inr n ↦ absurd (true≢false (sym (fixed_is_used t inv i (ground (arith, n))) ∙ f))
]

-- A new node fits in a free slot when its directory has no such name.
new_node-Fits :
    (t : Tree) (parent : ℕ) (name : List ℕ) (want : Kind) (off i : ℕ)
    → IsShaped t.nodes
    → IsFolder t.nodes parent
    → i < 32
    → (t.nodes i).used ≡ false
    → find_child t parent name ≡ none
    → valid_name name ≡ true
    → Fits t.nodes i (new_node want parent name off)
new_node-Fits t parent name want off i inv f l free miss v = record {
  slot = free_slot t i inv l free;
  parent_ok = λ u. (f, λ e. absurd (true≢false (sym (subst (IsUsed t.nodes) e f.1) ∙ free)));
  valid = λ u. v;
  alone = λ u j k w ne p. find_child-none t parent name miss j k w p;
  keeps = λ j k u ne p.
      absurd (true≢false (sym (subst (IsUsed t.nodes) p (inv.linked j k u).1) ∙ free));
}

-- reserve hands out the end of the pool while a whole chunk is left.
pub reserve-cases :
    (t : Tree)
    → (reserve t ≡ none)
      ⊎ ((reserve t ≡ some (t.pool_end, record t { pool_end = t.pool_end + 8192 }))
          × (t.pool_end + 8192 ≤ 65536))
unfolding reserve
reserve-cases t = elim (Bool-cases (ltb pool_bytes (t.pool_end + file_cap))) [
  | inl e ↦ inl (rw e)
  | inr e ↦ inr (rw e, ground (arith, e))
]

place-IsShaped :
    (t : Tree) (parent : ℕ) (name : List ℕ) (want : Kind) (i : ℕ)
    → IsShaped t.nodes
    → ((off : ℕ) → Fits t.nodes i (new_node want parent name off))
    → IsShaped (place t parent name want i).1.nodes
unfolding place reserve
place-IsShaped t parent name want i inv fit =
    if_elim (λ (r : Result ℕ × Tree). IsShaped r.1.nodes) (is_file want)
      (λ y. elim (reserve-cases t) [
        | inl e ↦ rw e inv
        | inr (e, l) ↦
            rw e (
              update-IsShaped t.nodes i (new_node want parent name t.pool_end) inv (fit t.pool_end))
      ])
      (λ n. update-IsShaped t.nodes i (new_node want parent name 0) inv (fit 0))

is_none : (o : Option ℕ) → is_some o ≡ false → o ≡ none
unfolding is_some
is_none none e = refl
is_none (some x) e = absurd (true≢false e)

-- create keeps the tree, when the directory it is given is in use.
pub create-IsShaped :
    (t : Tree) (parent : ℕ) (name : List ℕ) (want : Kind)
    → IsShaped t.nodes
    → parent < 32
    → (t.nodes parent).used ≡ true
    → IsShaped (create t parent name want).1.nodes
unfolding create
create-IsShaped t parent name want inv l u =
    let P : Result ℕ × Tree → Type 0 = λ r. IsShaped r.1.nodes in
    if_elim P (not (is_dir want) && not (is_file want)) (λ a. inv)
      (λ a.
        if_elim P (not (is_dir (t.nodes parent).kind)) (λ b. inv)
          (λ b.
            if_elim P (not (valid_name name)) (λ c. inv)
              (λ c.
                if_elim P (is_some (find_child t parent name)) (λ d. inv)
                  (λ d.
                    if_elim P (is_file want && leb 8 (count_files t)) (λ e. inv)
                      (λ e. elim (Option-cases (free_node t)) [
                        | inl f ↦ rw f inv
                        | inr (i, f) ↦
                            let s = free_node-some t i f in
                            rw f (
                              place-IsShaped t parent name want i inv (λ off.
                                new_node-Fits t parent name want off i inv (l, u, ground (arith, b))
                                  s.0 s.1 (is_none (find_child t parent name) d)
                                  (ground (arith, c))))
                      ])))))

-- A node whose kind is no directory, or that has_children misses, is no node's parent.
childless :
    (t : Tree) (id : ℕ)
    → IsShaped t.nodes
    → (is_dir (t.nodes id).kind && has_children t id) ≡ false
    → (j : ℕ) → j < 32
    → IsUsed t.nodes j
    → j ≢ id
    → (t.nodes j).parent ≢ id
unfolding has_children is_some
childless t id inv h j l u ne p =
    let d : is_dir (t.nodes id).kind ≡ true =
      subst (λ k. is_dir (t.nodes k).kind ≡ true) p (inv.linked j l u).2 in
    let miss : has_children t id ≡ false = ground (arith, d, h) in
    let child : ((t.nodes j).used && (not (j == id) && (t.nodes j).parent == id)) ≡ true =
      ground arith in
    true≢false (
      sym child
      ∙ find_from-none (λ i. (t.nodes i).used && (not (i == id) && (t.nodes i).parent == id)) 0
          max_nodes
          (is_none
            (find_from (λ i. (t.nodes i).used && (not (i == id) && (t.nodes i).parent == id)) 0
              max_nodes)
            miss)
          j (omega arith) (omega arith))

pub remove-IsShaped :
    (t : Tree) (id : ℕ) → IsShaped t.nodes → id < 32 → IsShaped (remove t id).1.nodes
unfolding remove
remove-IsShaped t id inv l =
    let P : Result (Unit {0}) × Tree → Type 0 = λ r. IsShaped r.1.nodes in
    if_elim P (not (t.nodes id).used || leb id 7) (λ a. inv)
      (λ a.
        if_elim P (is_dir (t.nodes id).kind && has_children t id) (λ b. inv)
          (λ b.
            update-IsShaped t.nodes id (record (t.nodes id) { used = false }) inv
              (record {
                slot = (ground (arith, a), l);
                parent_ok = λ u. absurd (true≢false (sym u));
                valid = λ u. absurd (true≢false (sym u));
                alone = λ u. absurd (true≢false (sym u));
                keeps = λ j k u ne p. absurd (childless t id inv b j k u ne p);
              })))

-- Writes to the contents keep the node's place.
same_place :
    (t : Tree) (id size : ℕ)
    → IsShaped t.nodes
    → id < 32
    → 8 ≤ id
    → IsShaped (update t.nodes id (record (t.nodes id) { size = size }))
same_place t id size inv l h =
    update-IsShaped t.nodes id (record (t.nodes id) { size = size }) inv
      (record {
        slot = (h, l);
        parent_ok = λ u. (
          inv.linked id l u,
          λ e. subst (λ k. is_dir (t.nodes k).kind ≡ true) e (inv.linked id l u).2,
        );
        valid = λ u. inv.named id l (λ e. absurd (omega arith)) u;
        alone = λ u j k v ne p q. ne (inv.distinct j id k l v u p q);
        keeps = λ j k u ne p.
            let f : IsFolder t.nodes id = subst (IsFolder t.nodes) p (inv.linked j k u) in
            (f.1, f.2);
      })

fixed_no_file : (i : ℕ) → i < 8 → is_file (fixed_nodes i).kind ≡ false
fixed_no_file i l = ground arith

-- The fixed nodes are no files.
file_above : (t : Tree) (id : ℕ) → IsShaped t.nodes → is_file (t.nodes id).kind ≡ true → 8 ≤ id
file_above t id inv f = elim (Bool-cases (leb 8 id)) [
  | inl y ↦ ground (arith, y)
  | inr n ↦
      let l : id < 8 = ground (arith, n) in
      absurd (true≢false (sym f ∙ ap (λ n. is_file n.kind) (inv.fixed id l) ∙ fixed_no_file id l))
]

pub write-IsShaped :
    (t : Tree) (id off : ℕ) (bytes : List ℕ)
    → IsShaped t.nodes
    → id < 32
    → IsShaped (write t id off bytes).1.nodes
unfolding write
write-IsShaped t id off bytes inv l =
    let P : Result ℕ × Tree → Type 0 = λ r. IsShaped r.1.nodes in
    if_elim P (not (is_file (t.nodes id).kind)) (λ a. inv)
      (λ a.
        if_elim P (ltb file_cap (u64 (off + length bytes))) (λ b. inv)
          (λ b.
            same_place t id (max (t.nodes id).size (u64 (off + length bytes))) inv l
              (file_above t id inv (ground (arith, a)))))

-- When the name is not another node's, no node but id has it.
not_taken :
    (t : Tree) (id d : ℕ) (name : List ℕ)
    → IsShaped t.nodes
    → id < 32
    → (t.nodes id).used ≡ true
    → taken_by_other (find_child t d name) id ≡ false
    → (j : ℕ) → j < 32
    → (t.nodes j).used ≡ true
    → j ≢ id
    → (t.nodes j).parent ≡ d
    → (t.nodes j).name ≢ name
not_taken t id d name inv l u h j k v ne p q = elim (Option-cases (find_child t d name)) [
  | inl e ↦ find_child-none t d name e j k v p q
  | inr (i, e) ↦
      let s = find_child-some t d name {i = i} e in
      let same : taken_by_other (some i) id ≡ false = ap (λ o. taken_by_other o id) (sym e) ∙ h in
      ne (inv.distinct j i k s.0 v s.1 (p ∙ sym s.2) (q ∙ sym s.3) ∙ ground (arith, same))
]

-- rename keeps the tree, when the directory it moves the node to is in use.
pub rename-IsShaped :
    (t : Tree) (id new_parent : ℕ) (new_name : List ℕ)
    → IsShaped t.nodes
    → id < 32
    → new_parent < 32
    → (t.nodes new_parent).used ≡ true
    → IsShaped (rename t id new_parent new_name).1.nodes
unfolding rename
rename-IsShaped t id new_parent new_name inv l m v =
    let P : Result (Unit {0}) × Tree → Type 0 = λ r. IsShaped r.1.nodes in
    if_elim P (not (t.nodes id).used || leb id 7) (λ a. inv)
      (λ a.
        if_elim P (not (is_dir (t.nodes new_parent).kind)) (λ b. inv)
          (λ b.
            if_elim P (not (valid_name new_name)) (λ c. inv)
              (λ c.
                if_elim P (taken_by_other (find_child t new_parent new_name) id) (λ d. inv)
                  (λ d.
                    update-IsShaped t.nodes id
                      (record (t.nodes id) { parent = new_parent; name = new_name }) inv
                      (record {
                        slot = (ground (arith, a), l);
                        parent_ok = λ u. (
                          (m, v, ground (arith, b)),
                          λ e. subst (λ k. is_dir (t.nodes k).kind ≡ true) e (ground (arith, b)),
                        );
                        valid = λ u. ground (arith, c);
                        alone = λ u j k w ne p q.
                            not_taken t id new_parent new_name inv l (ground (arith, a)) d j k w ne
                              p q;
                        keeps = λ j k u ne p. (
                          ground (arith, a),
                          subst (λ i. is_dir (t.nodes i).kind ≡ true) p (inv.linked j k u).2,
                        );
                      })))))

fixed_size : (i : ℕ) → i < 8 → (fixed_nodes i).size ≡ 0
fixed_size i l = ground arith

-- Emptying a node keeps the tree: the fixed nodes are empty.
pub truncate-IsShaped :
    (t : Tree) (id : ℕ) → IsShaped t.nodes → id < 32 → IsShaped (truncate t id).nodes
unfolding truncate
truncate-IsShaped t id inv l = elim (Bool-cases (leb 8 id)) [
  | inl y ↦ same_place t id 0 inv l (ground (arith, y))
  | inr n ↦
      let below : id < 8 = ground (arith, n) in
      let empty : (t.nodes id).size ≡ 0 =
        ap (λ m. m.size) (inv.fixed id below) ∙ fixed_size id below in
      subst IsShaped
        (sym (
          fun_ext (λ j. elim (ℕ_discrete j id) [
            | yes e ↦
                ap (update t.nodes id (record (t.nodes id) { size = 0 })) e
                ∙ update_self t.nodes id (record (t.nodes id) { size = 0 })
                ∙ ap (λ k. record (t.nodes id) { size = k }) (sym empty)
                ∙ ap t.nodes (sym e)
            | no ne ↦ update_ne t.nodes id j (record (t.nodes id) { size = 0 }) ne
          ])))
        inv
]

below_8 : (i : ℕ) → (fixed_nodes i).used ≡ true → i < 8
below_8 i u = ground arith

fixed_linked : (i : ℕ) → i < 8 → IsFolder fixed_nodes (fixed_nodes i).parent
fixed_linked i l = ground arith

fixed_distinct :
    (i j : ℕ)
    → i < 8
    → j < 8
    → (fixed_nodes i).parent ≡ (fixed_nodes j).parent
    → (fixed_nodes i).name ≡ (fixed_nodes j).name
    → i ≡ j
fixed_distinct i j l k p q = ground arith

fixed_named : (i : ℕ) → i < 8 → i ≢ 0 → valid_name (fixed_nodes i).name ≡ true
unfolding valid_name name_eq contains
fixed_named i l z = ground arith

-- The first tree is a tree.
pub init_tree-IsShaped : IsShaped init_tree.nodes
init_tree-IsShaped = record {
  fixed = λ i l. refl;
  linked = λ i l u. fixed_linked i (below_8 i u);
  named = λ i l z u. fixed_named i (below_8 i u) z;
  distinct = λ i j l k u v p q. fixed_distinct i j (below_8 i u) (below_8 j v) p q;
}
