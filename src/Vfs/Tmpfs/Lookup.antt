-- ===== src/Vfs/Tmpfs/Lookup.antt =====
-- `lookup` walks the components of a path, and finds what `create` made.
use fantuan_kernel.Base.{
  ℕ, ◌+◌, ◌<◌, ◌≡◌, ◌≢◌, refl, sym, ap, ◌∙◌, subst, inl, inr, true, false, not, ◌&&◌, List, [], ◌∷◌,
  ◌++◌, some, arith, append_assoc, append-nil, Option-cases, if_elim, true≢false, is_some, ltb, leb,
  ◌==◌, length, find_from-hits, update, update_self, update_ne,
}
use fantuan_kernel.Vfs.Errno.{Err, Result, ok, err, Result-cases, ok-inj, err-ne-ok}
use fantuan_kernel.Vfs.Tmpfs.{
  Node, Kind, Tree, is_dir, is_file, find_child, is_child, create, place, new_node, free_node,
  valid_name, contains, name_eq, enter, lookup, lookup_from, slash, root, is_dot, is_dot_dot,
  count_files, max_nodes,
}
use fantuan_kernel.Vfs.Tmpfs.Names.{find_child-some, name_eq_self}
use fantuan_kernel.Vfs.Tmpfs.Inv.{IsShaped, IsUsed}
use fantuan_kernel.Vfs.Tmpfs.Edit.{reserve-cases, free_node-some, create-IsShaped}

-- Walking a list of components, one `enter` each.
unfoldable pub walk : Tree → ℕ → List (List ℕ) → Result ℕ
walk t cur [] = ok cur
walk t cur (comp ∷ comps) = elim (enter t cur comp) [ ok next ↦ walk t next comps | err e ↦ err e ]

-- The path with these components: a slash before each.
unfoldable pub join : List (List ℕ) → List ℕ
join [] = []
join (comp ∷ comps) = slash ∷ (comp ++ join comps)

-- A component is not empty and has no slash.
abbrev pub IsComponent : List ℕ → Type 0
IsComponent [] = ⊥
IsComponent (c ∷ cs) = contains (c ∷ cs) slash ≡ false

abbrev pub AreComponents : List (List ℕ) → Type 0
AreComponents [] = Unit
AreComponents (comp ∷ comps) = IsComponent comp × AreComponents comps

-- The scan collects a component.
lookup_from-append :
    (t : Tree) (cur : ℕ) (acc name rest : List ℕ)
    → contains name slash ≡ false
    → lookup_from t cur acc (name ++ rest) ≡ lookup_from t cur (acc ++ name) rest
unfolding contains lookup_from
lookup_from-append t cur acc [] rest h = ap (λ a. lookup_from t cur a rest) (sym (append-nil acc))
lookup_from-append t cur acc (c ∷ name) rest h =
    let e : (c == slash) ≡ false = ground arith in
    rw (e, lookup_from)
      (lookup_from-append t cur (acc ++ (c ∷ [])) name rest (ground (arith, h))
        ∙ ap (λ a. lookup_from t cur a rest) (append_assoc acc (c ∷ []) name))

pub walk_ok :
    (t : Tree) (cur next : ℕ) (comp : List ℕ) (comps : List (List ℕ))
    → enter t cur comp ≡ ok next
    → walk t cur (comp ∷ comps) ≡ walk t next comps
unfolding walk
walk_ok t cur next comp comps e = rw (e, walk)

walk_err :
    (t : Tree) (cur : ℕ) (comp : List ℕ) (comps : List (List ℕ)) (x : Err)
    → enter t cur comp ≡ err x
    → walk t cur (comp ∷ comps) ≡ err x
unfolding walk
walk_err t cur comp comps x e = rw (e, walk)

separator_err :
    (t : Tree) (cur c : ℕ) (cs rest : List ℕ) (x : Err)
    → enter t cur (c ∷ cs) ≡ err x
    → lookup_from t cur (c ∷ cs) (slash ∷ rest) ≡ err x
unfolding lookup_from
separator_err t cur c cs rest x e = rw (e, lookup_from)

pub walk_nil : (t : Tree) (cur : ℕ) → walk t cur [] ≡ ok cur
unfolding walk
walk_nil t cur = refl

separator :
    (t : Tree) (cur next c : ℕ) (cs rest : List ℕ)
    → enter t cur (c ∷ cs) ≡ ok next
    → lookup_from t cur (c ∷ cs) (slash ∷ rest) ≡ lookup_from t next [] rest
unfolding lookup_from
separator t cur next c cs rest e = rw (e, lookup_from)

-- From a collected component, the scan enters it and goes on with the rest of the path.
pub lookup_from-join :
    (t : Tree) (cur : ℕ) (comp : List ℕ) (comps : List (List ℕ))
    → IsComponent comp
    → AreComponents comps
    → lookup_from t cur comp (join comps) ≡ walk t cur (comp ∷ comps)
unfolding lookup_from join walk
lookup_from-join t cur [] comps h hs = absurd h
lookup_from-join t cur (c ∷ cs) [] h hs = elim (Result-cases (enter t cur (c ∷ cs))) [
  | inl (next, e) ↦ rw (e, walk)
  | inr (x, e) ↦ rw (e, walk)
]
lookup_from-join t cur (c ∷ cs) ([] ∷ comps) h hs = absurd hs.0
lookup_from-join t cur (c ∷ cs) ((d ∷ ds) ∷ comps) h hs =
    elim (Result-cases (enter t cur (c ∷ cs))) [
      | inl (next, e) ↦
          separator t cur next c cs ((d ∷ ds) ++ join comps) e
          ∙ lookup_from-append t next [] (d ∷ ds) (join comps) hs.0
          ∙ lookup_from-join t next (d ∷ ds) comps hs.0 hs.1
          ∙ sym (walk_ok t cur next (c ∷ cs) ((d ∷ ds) ∷ comps) e)
      | inr (x, e) ↦
          separator_err t cur c cs ((d ∷ ds) ++ join comps) x e
          ∙ sym (walk_err t cur (c ∷ cs) ((d ∷ ds) ∷ comps) x e)
    ]

-- For components that are not empty and have no slash, lookup of the path that joins them by
-- slashes enters them one by one, from the root if the path begins with a slash and from the
-- directory it is given if not.
pub lookup-join :
    (t : Tree) (cwd : ℕ) (comp : List ℕ) (comps : List (List ℕ))
    → IsComponent comp
    → AreComponents comps
    → (lookup t cwd (join (comp ∷ comps)) ≡ walk t root (comp ∷ comps))
      × (lookup t cwd (comp ++ join comps) ≡ walk t cwd (comp ∷ comps))
unfolding lookup join contains lookup_from
lookup-join t cwd [] comps h hs = absurd h
lookup-join t cwd (c ∷ cs) comps h hs =
    let e : (c == slash) ≡ false = ground (arith, h) in
    (
      lookup_from-append t root [] (c ∷ cs) (join comps) h
          ∙ lookup_from-join t root (c ∷ cs) comps h hs,
      rw e (
          lookup_from-append t cwd [] (c ∷ cs) (join comps) h
          ∙ lookup_from-join t cwd (c ∷ cs) comps h hs),
    )

-- What a successful create did: a free slot became the node.
pub create-ok :
    (t : Tree) (parent : ℕ) (name : List ℕ) (want : Kind) (i : ℕ)
    → (create t parent name want).0 ≡ ok i
    → (is_dir (t.nodes parent).kind ≡ true)
      × (valid_name name ≡ true)
      × (i < 32)
      × ((t.nodes i).used ≡ false)
      × ((off : ℕ) × ((create t parent name want).1.nodes
            ≡ update t.nodes i (new_node want parent name off)))
unfolding create place
create-ok t parent name want i =
    if_elim P (not (is_dir want) && not (is_file want)) (λ a x. absurd (err-ne-ok x))
      (λ a.
        if_elim P (not (is_dir (t.nodes parent).kind)) (λ b x. absurd (err-ne-ok x))
          (λ b.
            if_elim P (not (valid_name name)) (λ c x. absurd (err-ne-ok x))
              (λ c.
                if_elim P (is_some (find_child t parent name)) (λ d x. absurd (err-ne-ok x))
                  (λ d.
                    if_elim P (is_file want && leb 8 (count_files t)) (λ e x. absurd (err-ne-ok x))
                      (λ e. elim (Option-cases (free_node t)) [
                        | inl f ↦ rw f (λ x. absurd (err-ne-ok x))
                        | inr (j, f) ↦ rw f (
                            placed (ground (arith, b)) (ground (arith, c)) j (free_node-some t j f))
                      ])))))
  where
    P : Result ℕ × Tree → Type 0
    P r =
        r.0 ≡ ok i
        → (is_dir (t.nodes parent).kind ≡ true)
          × (valid_name name ≡ true)
          × (i < 32)
          × ((t.nodes i).used ≡ false)
          × ((off : ℕ) × (r.1.nodes ≡ update t.nodes i (new_node want parent name off)))

    at :
        (off j : ℕ) (u : Tree)
        → is_dir (t.nodes parent).kind ≡ true
        → valid_name name ≡ true
        → (j < 32) × ((t.nodes j).used ≡ false)
        → u.nodes ≡ update t.nodes j (new_node want parent name off)
        → P (ok j, u)
    at off j u b c s e x =
        let k : j ≡ i = ok-inj x in
        (
          b,
          c,
          omega (arith, s.0, k),
          ap (λ m. (t.nodes m).used) (sym k) ∙ s.1,
          (off, e ∙ ap (λ m. update t.nodes m (new_node want parent name off)) k),
        )

    placed :
        is_dir (t.nodes parent).kind ≡ true
        → valid_name name ≡ true
        → (j : ℕ) → (j < 32) × ((t.nodes j).used ≡ false)
        → P (place t parent name want j)
    placed b c j s =
        if_elim P (is_file want)
          (λ y. elim (reserve-cases t) [
            | inl e ↦ rw e (λ x. absurd (err-ne-ok x))
            | inr (e, l) ↦ rw e (
                at t.pool_end j
                  (record t {
                    nodes = update t.nodes j (new_node want parent name t.pool_end);
                    pool_end = t.pool_end + 8192;
                  })
                  b c s refl)
          ])
          (λ n.
            at 0 j (record t { nodes = update t.nodes j (new_node want parent name 0) }) b c s refl)

pub enter_child :
    (t : Tree) (d : ℕ) (name : List ℕ) (i : ℕ)
    → valid_name name ≡ true
    → is_dir (t.nodes d).kind ≡ true
    → find_child t d name ≡ some i
    → enter t d name ≡ ok i
unfolding enter valid_name
enter_child t d name i v k e =
    let n : is_dot name ≡ false = ground (arith, v) in
    let m : is_dot_dot name ≡ false = ground (arith, v) in
    let l : ltb 31 (length name) ≡ false = ground (arith, v) in rw (n, m, l, k, e)

pub valid_name-IsComponent : (name : List ℕ) → valid_name name ≡ true → IsComponent name
unfolding valid_name
valid_name-IsComponent [] v = absurd (true≢false (sym v))
valid_name-IsComponent (c ∷ cs) v = ground (arith, v)

pub is_new :
    (t : Tree) (n : Node) (d : ℕ) (name : List ℕ) (i : ℕ)
    → t.nodes i ≡ n
    → n.used ≡ true
    → n.parent ≡ d
    → n.name ≡ name
    → is_child t d name i ≡ true
is_new t n d name i e u p q =
    let a : (t.nodes i).used ≡ true = ap (λ m. m.used) e ∙ u in
    let b : (t.nodes i).parent ≡ d = ap (λ m. m.parent) e ∙ p in
    let c : name_eq (t.nodes i).name name ≡ true =
      ap (λ m. name_eq m name) (ap (λ m. m.name) e ∙ q) ∙ name_eq_self name in
    ground (arith, a, b, c)

pub lookup_name :
    (t : Tree) (d : ℕ) (name : List ℕ) (i : ℕ)
    → valid_name name ≡ true
    → is_dir (t.nodes d).kind ≡ true
    → find_child t d name ≡ some i
    → lookup t d name ≡ ok i
unfolding join
lookup_name t d name i v k e =
    ap (lookup t d) (sym (append-nil name))
    ∙ (lookup-join t d name [] (valid_name-IsComponent name v) tt).1
    ∙ walk_ok t d i name [] (enter_child t d name i v k e)
    ∙ walk_nil t i

-- In a tree of the shape that calls keep, when create succeeds in a directory in use, lookup from
-- that directory finds the node it returned by the name.
pub lookup-create :
    (t : Tree) (parent : ℕ) (name : List ℕ) (want : Kind) (i : ℕ)
    → IsShaped t.nodes
    → parent < 32
    → (t.nodes parent).used ≡ true
    → (create t parent name want).0 ≡ ok i
    → lookup (create t parent name want).1 parent name ≡ ok i
unfolding find_child join
lookup-create t parent name want i inv l u e =
    let c = create-ok t parent name want i e in
    let t' : Tree = (create t parent name want).1 in
    let ne : parent ≢ i = λ q. true≢false (sym (subst (IsUsed t.nodes) q u) ∙ c.3) in
    let n : Node = new_node want parent name c.4.0 in
    let at : t'.nodes i ≡ n = ap (λ f. f i) c.4.1 ∙ update_self t.nodes i n in
    let old : t'.nodes parent ≡ t.nodes parent =
      ap (λ f. f parent) c.4.1 ∙ update_ne t.nodes i parent n ne in
    let inv' : IsShaped t'.nodes = create-IsShaped t parent name want inv l u in
    let hit : is_child t' parent name i ≡ true = is_new t' n parent name i at refl refl refl in
    let f =
      find_from-hits (is_child t' parent name) 0 max_nodes i (omega arith) (omega (arith, c.2))
        hit in
    let s = find_child-some t' parent name {i = f.0} f.1 in
    let same : f.0 ≡ i =
      inv'.distinct f.0 i s.0 c.2 s.1 (ap (λ m. m.used) at) (s.2 ∙ sym (ap (λ m. m.parent) at))
        (s.3 ∙ sym (ap (λ m. m.name) at)) in
    lookup_name t' parent name i c.1 (ap (λ m. is_dir m.kind) old ∙ c.0) (f.1 ∙ ap some same)
