-- ===== src/Kernel/Cap/Chains.antt =====
-- The children of a capability in kernel/src/cap/node.rs as a list.
use project_zero.Base.{◌≡◌, sym, subst, true, false, List, [], ◌∷◌, ◌++◌, All, arith}
use project_zero.Kernel.Ipc.{Link, link_eq}
use project_zero.Kernel.Cap.{Nodes, in_table}

-- The links from one on are those of the list, and then one that is outside the table.
unfoldable pub IsChain : Nodes → Link → List Link → Type 0
IsChain n l [] = in_table l ≡ false
IsChain n l (x ∷ xs) = (l ≡ x) × (in_table x ≡ true) × IsChain n (n x).next_sibling xs

abbrev pub Lacks : List Link → Link → Type 0
Lacks xs y = All (λ x. link_eq x y ≡ false) xs

-- No link stands twice in the list.
unfoldable pub IsDistinct : List Link → Type 0
IsDistinct [] = Unit
IsDistinct (x ∷ xs) = Lacks xs x × IsDistinct xs

pub record HasChildren (n : Nodes) (parent : Link) (children : List Link) : Type 0 where
  pub chain : IsChain n (n parent).first_child children
  pub distinct : IsDistinct children

-- A chain depends on the siblings of its own links only.
pub IsChain-frame :
    (n m : Nodes) (l : Link) (xs : List Link)
    → All (λ x. (m x).next_sibling ≡ (n x).next_sibling) xs
    → IsChain n l xs
    → IsChain m l xs
unfolding IsChain
IsChain-frame n m l [] h c = c
IsChain-frame n m l (x ∷ xs) (h, hs) (e, i, c) =
    (e, i, subst (λ k. IsChain m k xs) (sym h) (IsChain-frame n m (n x).next_sibling xs hs c))

pub IsDistinct-drop :
    (xs ys : List Link) (c : Link)
    → IsDistinct (xs ++ (c ∷ ys))
    → IsDistinct (xs ++ ys) × Lacks xs c × Lacks ys c
unfolding IsDistinct
IsDistinct-drop [] ys c (away, d) = (d, tt, away)
IsDistinct-drop (x ∷ xs) ys c (away, d) =
    let (d', before, after) = IsDistinct-drop xs ys c d in
    let (a, b) = split xs away in ((a, d'), (ground (arith, b), before), after)
  where
    split : (zs : List Link) → Lacks (zs ++ (c ∷ ys)) x → Lacks (zs ++ ys) x × (link_eq c x ≡ false)
    split [] (e, h) = (h, e)
    split (z ∷ zs) (e, h) = let (a, b) = split zs h in ((e, a), b)

-- A chain is the chain of its first part, up to where the second begins.
pub IsChain-in_table :
    (n : Nodes) (l : Link) (xs : List Link) → IsChain n l xs → All (λ x. in_table x ≡ true) xs
unfolding IsChain
IsChain-in_table n l [] c = tt
IsChain-in_table n l (x ∷ xs) (e, i, c) = (i, IsChain-in_table n (n x).next_sibling xs c)
