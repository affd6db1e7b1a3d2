-- ===== src/Group/Closure/Refers.antt =====
-- The foreign key of `parent_id`, and the lookup of a row, seen through the parents.
use oblimap.Base.{
  ℕ, ◌≡◌, inl, inr, true, false, Option, none, some, arith, ◌==◌, Option-cases, first,
}
use oblimap.Group.{Group, Hierarchy, find_group, refers}
use oblimap.Group.Closure.{parent}

pub refers→exists :
    (h : Hierarchy) (p : ℕ)
    → refers h (some p) ≡ true
    → (q : Option ℕ) × (parent h.groups p ≡ some q)
unfolding refers find_group
refers→exists h p e = elim (Option-cases (first (λ g. g.id == p) h.groups)) [
  | inl missing ↦ absurd (ground (arith, missing, e))
  | inr (g, found) ↦ (g.parent_id, rw found)
]

pub refers-missing : (h : Hierarchy) (p : ℕ) → refers h (some p) ≡ false → parent h.groups p ≡ none
unfolding refers find_group
refers-missing h p e = elim (Option-cases (first (λ g. g.id == p) h.groups)) [
  | inl missing ↦ rw missing
  | inr (g, found) ↦ absurd (ground (arith, found, e))
]

pub row_of :
    (h : Hierarchy) (id : ℕ) (g : Group)
    → find_group id h ≡ some g
    → parent h.groups id ≡ some g.parent_id
unfolding find_group
row_of h id g e = rw e
