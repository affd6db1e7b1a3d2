-- ===== src/Base/Sets.antt =====
-- `Set<number>`, as the list of its members in the order in which they were added.
use Prim.Native.Nat.{ℕ}
use mathlib.Core.Path.{◌≡◌, refl}
use mathlib.Core.Bool.{true, not, ◌&&◌, ◌||◌}
use mathlib.Core.List.{List, [], ◌∷◌, ◌++◌}
use mathlib.Core.Logic.{inl, inr}
use native.Mathlib.Decide.{ℕ_discrete}
use native.Mathlib.Omega.{arith}
use oblimap.Base.Tests.{◌==◌, ==_refl, if◌then◌else◌, Bool-cases}
use oblimap.Base.Rows.{elem, elem-append}

-- `set.add(n)`
unfoldable pub set_add : ℕ → List ℕ → List ℕ
set_add n s = if elem n s then s else s ++ n ∷ []

-- `set.delete(n)`
unfoldable pub set_delete : ℕ → List ℕ → List ℕ
set_delete n [] = []
set_delete n (x ∷ s) = if n == x then set_delete n s else x ∷ set_delete n s

-- `for (const n of ns) set.add(n)`
unfoldable pub add_all : List ℕ → List ℕ → List ℕ
add_all [] s = s
add_all (n ∷ ns) s = add_all ns (set_add n s)

elem_same : (m n : ℕ) (s : List ℕ) → elem n s ≡ true → elem m s ≡ (m == n || elem m s)
elem_same m n s h = elim (ℕ_discrete m n) [ yes e ↦ rw (e, h, ==_refl) refl | no e ↦ ground arith ]

pub elem-set_add : (m n : ℕ) (s : List ℕ) → elem m (set_add n s) ≡ (m == n || elem m s)
unfolding set_add elem
elem-set_add m n s = elim (Bool-cases (elem n s)) [
  | inl e ↦ rw e (elem_same m n s e)
  | inr e ↦ rw (e, elem-append m s (n ∷ [])) (ground arith)
]

pub elem-set_delete : (m n : ℕ) (s : List ℕ) → elem m (set_delete n s) ≡ (not (m == n) && elem m s)
unfolding set_delete elem
elem-set_delete m n [] = ground arith
elem-set_delete m n (x ∷ s) = ground (arith, elem-set_delete m n s)

pub elem-add_all : (m : ℕ) (ns s : List ℕ) → elem m (add_all ns s) ≡ (elem m ns || elem m s)
unfolding add_all elem
elem-add_all m [] s = refl
elem-add_all m (n ∷ ns) s = ground (arith, elem-add_all m ns (set_add n s), elem-set_add m n s)
