-- ===== src/Vfs/Space/Paths.antt =====
-- Paths: where `split_parent` cuts one, and that the path `getcwd` gives leads to the directory.
use fantuan_kernel.Base.{
  ℕ, zero, suc, ◌≤◌, ◌<◌, ◌≡◌, ◌≢◌, refl, sym, ap, ◌∙◌, Bool, true, false, List, [], ◌∷◌, ◌++◌,
  Option, some, none, arith, if_elim, eq_of_==, ℕ_discrete, ltb, ◌==◌, ==_of_ne, find_from-hits,
  length, if◌then◌else◌,
}
use fantuan_kernel.Vfs.Errno.{ok, err, fault, ok-inj, err-ne-ok}
use fantuan_kernel.Vfs.Tmpfs.{
  Tree, root, slash, contains, lookup, lookup_from, is_child, find_child, max_nodes,
}
use fantuan_kernel.Vfs.Tmpfs.Names.{find_child-some}
use fantuan_kernel.Vfs.Tmpfs.Inv.{IsShaped, IsFolder, IsUsed}
use fantuan_kernel.Vfs.Tmpfs.Lookup.{
  walk, join, AreComponents, lookup-join, enter_child, walk_ok, walk_nil, valid_name-IsComponent,
  is_new,
}
use fantuan_kernel.Vfs.Space.{Space, cwd, last_slash, ancestors, path_of, getcwd}

-- The cut is at a slash, and none is behind it; where there is no cut there is no slash.
pub data Cut (path : List ℕ) : Option (List ℕ × List ℕ) → Type 0 where
  whole : contains path slash ≡ false → Cut path none
  parts :
      (before behind : List ℕ)
      → path ≡ before ++ (slash ∷ behind)
      → contains behind slash ≡ false
      → Cut path (some (before, behind))

-- `last_slash` cuts a path at its last slash, and does not where it has none.
pub last_slash-Cut : (path : List ℕ) → Cut path (last_slash path)
unfolding last_slash contains
last_slash-Cut [] = whole refl
last_slash-Cut (c ∷ cs) = go (last_slash cs) (last_slash-Cut cs)
  where
    go :
        (o : Option (List ℕ × List ℕ))
        → Cut cs o
        → Cut (c ∷ cs) (elim o [
          | some (before, behind) ↦ some (c ∷ before, behind)
          | none ↦ if c == slash then some ([], cs) else none
        ])
    go _ (whole n) =
        if_elim (Cut (c ∷ cs)) (c == slash)
          (λ e. parts [] cs (ap (λ d. d ∷ cs) (eq_of_== c slash e)) n)
          (λ ne. whole (ground (arith, ne, n)))
    go _ (parts before behind e n) = parts (c ∷ before) behind (ap (λ l. c ∷ l) e) n

-- From the root to cur it is n names down.
pub data Below (t : Tree) : ℕ → ℕ → Type 0 where
  here : Below t root zero
  down : (cur n : ℕ) → cur ≢ root → Below t (t.nodes cur).parent n → Below t cur (suc n)

abbrev names_of : Tree → List ℕ → List (List ℕ)
names_of t [] = []
names_of t (i ∷ is) = (t.nodes i).name ∷ names_of t is

path_is_join : (t : Tree) (is : List ℕ) → path_of t is ≡ join (names_of t is)
unfolding path_of join
path_is_join t [] = refl
path_is_join t (i ∷ is) = ap (λ p. slash ∷ ((t.nodes i).name ++ p)) (path_is_join t is)

-- A node in use is what its directory finds by its name.
found :
    (t : Tree) (i : ℕ)
    → IsShaped t.nodes
    → i < 32
    → IsUsed t.nodes i
    → find_child t (t.nodes i).parent (t.nodes i).name ≡ some i
unfolding find_child
found t i inv l u =
    let d : ℕ = (t.nodes i).parent in
    let name : List ℕ = (t.nodes i).name in
    let f =
      find_from-hits (is_child t d name) 0 max_nodes i (omega arith) (omega (arith, l))
        (is_new t (t.nodes i) d name i refl u refl refl) in
    let s = find_child-some t d name {i = f.0} f.1 in
    f.1 ∙ ap some (inv.distinct f.0 i s.0 l s.1 u s.2 s.3)

-- Entering the names from the root down to cur, and then those below it, is entering those from cur.
climb :
    (t : Tree) (cur n fuel : ℕ) (below : List ℕ)
    → IsShaped t.nodes
    → cur < 32
    → IsUsed t.nodes cur
    → Below t cur n
    → n ≤ fuel
    → walk t root (names_of t (ancestors t fuel cur below)) ≡ walk t cur (names_of t below)
unfolding ancestors
climb t cur n zero below inv l u here m = refl
climb t cur n (suc fuel) below inv l u here m = refl
climb t cur n zero below inv l u (down _ k ne h) m = absurd (omega arith)
climb t cur n (suc fuel) below inv l u (down _ k ne h) m =
    let f : IsFolder t.nodes (t.nodes cur).parent = inv.linked cur l u in
    rw (==_of_ne cur root ne) (
      climb t (t.nodes cur).parent k fuel (cur ∷ below) inv f.0 f.1 h (omega arith)
      ∙ walk_ok t (t.nodes cur).parent cur (t.nodes cur).name (names_of t below) (
          enter_child t (t.nodes cur).parent (t.nodes cur).name cur (inv.named cur l ne u) f.2
            (found t cur inv l u)))

-- The names on the way are components of a path.
ancestors-AreComponents :
    (t : Tree) (cur n fuel : ℕ) (below : List ℕ)
    → IsShaped t.nodes
    → cur < 32
    → IsUsed t.nodes cur
    → AreComponents (names_of t below)
    → AreComponents (names_of t (ancestors t fuel cur below))
unfolding ancestors
ancestors-AreComponents t cur n zero below inv l u a = a
ancestors-AreComponents t cur n (suc fuel) below inv l u a = elim (ℕ_discrete cur root) [
  | yes e ↦ rw e a
  | no ne ↦
      let f : IsFolder t.nodes (t.nodes cur).parent = inv.linked cur l u in
      rw (==_of_ne cur root ne) (
        ancestors-AreComponents t (t.nodes cur).parent n fuel (cur ∷ below) inv f.0 f.1
          (valid_name-IsComponent (t.nodes cur).name (inv.named cur l ne u), a))
]

not_fault : (b : Bool) (p path : List ℕ) → (if b then err fault else ok p) ≡ ok path → p ≡ path
not_fault true p path e = absurd (err-ne-ok e)
not_fault false p path e = ok-inj e

lookup-slash : (t : Tree) (from : ℕ) → lookup t from (slash ∷ []) ≡ ok root
unfolding lookup lookup_from
lookup-slash t from = refl

-- In a tree of the shape that calls keep, where the directory of a task is in use and at most
-- eight names below the root, a path that getcwd gives leads lookup back to it, whatever directory
-- that starts from.
pub lookup-getcwd :
    (s : Space) (slot room n from : ℕ) (path : List ℕ)
    → IsShaped s.tree.nodes
    → cwd s slot < 32
    → IsUsed s.tree.nodes (cwd s slot)
    → Below s.tree (cwd s slot) n
    → n ≤ 8
    → getcwd s slot room ≡ ok path
    → lookup s.tree from path ≡ ok (cwd s slot)
unfolding getcwd
lookup-getcwd s slot room n from path inv l u h m e =
    go (ancestors s.tree 8 (cwd s slot) []) (climb s.tree (cwd s slot) n 8 [] inv l u h m)
      (ancestors-AreComponents s.tree (cwd s slot) n 8 [] inv l u tt) e
  where
    go :
        (is : List ℕ)
        → walk s.tree root (names_of s.tree is) ≡ walk s.tree (cwd s slot) []
        → AreComponents (names_of s.tree is)
        → elim is [
          | [] ↦ if room == 0 then err fault else ok (slash ∷ [])
          | i ∷ is ↦
              let path = path_of s.tree (i ∷ is) in
              if ltb room (length path) then err fault else ok path
        ]
          ≡ ok path
        → lookup s.tree from path ≡ ok (cwd s slot)
    go [] w a q =
        ap (lookup s.tree from) (sym (not_fault (room == 0) (slash ∷ []) path q))
        ∙ lookup-slash s.tree from
        ∙ (sym (walk_nil s.tree root) ∙ w ∙ walk_nil s.tree (cwd s slot))
    go (i ∷ is) w a q =
        ap (lookup s.tree from) (
          sym (
            not_fault (ltb room (length (path_of s.tree (i ∷ is)))) (path_of s.tree (i ∷ is)) path
              q)
          ∙ path_is_join s.tree (i ∷ is))
        ∙ (lookup-join s.tree from (s.tree.nodes i).name (names_of s.tree is) a.0 a.1).0
        ∙ (w ∙ walk_nil s.tree (cwd s slot))
