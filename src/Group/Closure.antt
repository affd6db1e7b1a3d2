-- ===== src/Group/Closure.antt =====
-- The closure table against the parents: what makes a hierarchy well formed, and which rows the
-- statements of `create` and `move` leave.
pub mod Create
pub mod Refers
pub mod Rehang
pub mod Move
pub mod Delete
use native.Mathlib.Decide.{ℕ_discrete}
use mathlib.Core.List.Memᴰ
use oblimap.Base.{
  ℕ, suc, ◌+◌, ◌≡◌, ◌≤◌, ◌<◌, refl, sym, ap, ◌∙◌, subst, ◌⊎◌, inl, inr, Bool, true, false, not,
  ◌&&◌, Option, none, some, arith, ◌==◌, if◌then◌else◌, Bool-cases, ==_iff, List, [], ◌∷◌, ◌++◌,
  Memᴰ, where_, any, first, update, elem, map, pairs, where_→mem, mem→where_, any→mem, mem→any,
  pairs→mem, mem→pairs, elem-map-where_, fun_ext, is_some, or_else, truthy,
}
use oblimap.Group.{
  Group, Link, Hierarchy, find_group, get_descendant_ids, outside, rehang, reconnect, grow,
  copy_paths,
}
use oblimap.Group.Ancestry.{Chain, Through, Stays}

abbrev pub parent_of : Option Group → Option (Option ℕ)
parent_of none = none
parent_of (some g) = some g.parent_id

-- The parent of a group, as its row has it.
abbrev pub parent : List Group → ℕ → Option (Option ℕ)
parent groups d = parent_of (first (λ g. g.id == d) groups)

abbrev pub link : ℕ → ℕ → ℕ → Link
link a d n = record { ancestor_id = a; descendant_id = d; depth = n }

-- The closure table lists exactly the chains of parents, each with its length.
pub record Mirrors (closure : List Link) (par : ℕ → Option (Option ℕ)) : Type 0 where
  pub sound : (a d n : ℕ) → Memᴰ (link a d n) closure → Chain par a d n
  pub complete : (a d n : ℕ) → Chain par a d n → Memᴰ (link a d n) closure

-- The parents form a forest over the existing groups.
pub record IsForest (par : ℕ → Option (Option ℕ)) : Type 0 where
  pub acyclic : (x n : ℕ) → Chain par x x n → n ≡ 0
  pub present : (d p : ℕ) → par d ≡ some (some p) → (q : Option ℕ) × (par p ≡ some q)

-- What every operation relies on: ids are below the sequence and never 0, parents form a forest,
-- and the closure table mirrors them.
pub record IsValid (h : Hierarchy) : Type 0 where
  pub mirrors : Mirrors h.closure (parent h.groups)
  pub forest : IsForest (parent h.groups)
  pub fresh : (d : ℕ) → h.next_id ≤ d → parent h.groups d ≡ none
  pub positive : parent h.groups 0 ≡ none
  pub started : 0 < h.next_id

module _ (par : ℕ → Option (Option ℕ)) (closure : List Link) (id : ℕ)
    (m : Mirrors closure par) where
  -- `id` has a row above `d` exactly if a chain of parents leads there.
  pub into : (d : ℕ) → elem d (get_descendant_ids id closure) ≡ true → (n : ℕ) × Chain par id d n
  unfolding get_descendant_ids
  into d h =
      let (l, k, t) =
        any→mem _ closure
          (sym (elem-map-where_ (λ l. l.descendant_id) (λ l. l.ancestor_id == id) d closure) ∙ h) in
      (
        l.depth,
        subst (λ x. Chain par x d l.depth) (ground arith)
            (subst (λ x. Chain par l.ancestor_id x l.depth) (ground arith)
              (m.sound l.ancestor_id l.descendant_id l.depth k)),
      )

  pub back : (d n : ℕ) → Chain par id d n → elem d (get_descendant_ids id closure) ≡ true
  unfolding get_descendant_ids
  back d n c =
      elem-map-where_ (λ l. l.descendant_id) (λ l. l.ancestor_id == id) d closure
      ∙ mem→any _ (link id d n) (m.complete id d n c) (ground arith)
