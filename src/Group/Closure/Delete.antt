-- ===== src/Group/Closure/Delete.antt =====
-- `delete`: the closure table loses the rows of the group, the children lose their parent.
use oblimap.Base.{
  ℕ, ◌≡◌, refl, sym, ap, ◌∙◌, subst, ◌⊎◌, inl, inr, not, ◌&&◌, Option, none, some, arith, ◌==◌,
  ◌==?◌, if◌then◌else◌, Option-cases, List, [], ◌∷◌, Memᴰ, where_, first, update, where_→mem,
  mem→where_, fun_ext, ◌≢◌,
}
use oblimap.Group.{Group, Link, Hierarchy, delete}
use oblimap.Group.Ancestry.{Chain-root, Chain, here, up}
use oblimap.Group.Closure.{parent, link, Mirrors, IsForest, IsValid}

-- `ON DELETE SET NULL`
abbrev cut : ℕ → Option (Option ℕ) → Option (Option ℕ)
cut id none = none
cut id (some q) = some (if q ==? some id then none else q)

-- The parents after `id` is gone.
abbrev orphaned : (ℕ → Option (Option ℕ)) → ℕ → ℕ → Option (Option ℕ)
orphaned par id d = if d == id then none else cut id (par d)

cut-eq-some :
    (id : ℕ) (o : Option (Option ℕ)) (p : ℕ)
    → cut id o ≡ some (some p)
    → (o ≡ some (some p)) × (p ≢ id)
cut-eq-some id none p e = ground arith
cut-eq-some id (some none) p e = ground arith
cut-eq-some id (some (some q)) p e = ground arith

parent-delete_at :
    (id : ℕ) (groups : List Group) (d : ℕ)
    → parent
        (update
          (λ g. g.parent_id ==? some id)
          (λ g. record g { parent_id = none })
          (where_ (λ g. not (g.id == id)) groups))
        d
      ≡ orphaned (parent groups) id d
unfolding update where_ first
parent-delete_at id [] d = ground arith
parent-delete_at id (g ∷ groups) d = ground (arith, parent-delete_at id groups d)

parent-delete :
    (h : Hierarchy) (id : ℕ) → parent (delete id h).1.groups ≡ orphaned (parent h.groups) id
unfolding delete
parent-delete h id = fun_ext (parent-delete_at id h.groups)

module _ (par : ℕ → Option (Option ℕ)) (id : ℕ) (f : IsForest par) where
  -- Chains of the remaining groups were chains before.
  orphaned→ :
      (a : ℕ) {d n : ℕ} → Chain (orphaned par id) a d n → Chain par a d n × (a ≢ id) × (d ≢ id)
  orphaned→ a {d} (here q e s z) = elim (Option-cases (par d)) [
    | inl missing ↦ absurd (ground (arith, missing))
    | inr (r, there) ↦ (here r there s z, ground (arith, s), ground arith)
  ]
  orphaned→ a {d} (up p m e c s) =
      let (c', start, _) = orphaned→ a c in
      (up p m (cut-eq-some id (par d) p (ground arith)).0 c' s, start, ground arith)

  -- The group that goes has no parent, or no children.
  abbrev Free : Type 0
  Free = (par id ≡ some none) ⊎ ((d : ℕ) → par d ≢ some (some id))

  not_above : Free → (a p m d : ℕ) → a ≢ id → par d ≡ some (some p) → Chain par a p m → p ≢ id
  not_above (inr childless) a p m d ne e c same =
      childless d (subst (λ z. par d ≡ some (some z)) same e)
  not_above (inl root) a p m d ne e (here q k s z) same = ne (s ∙ same)
  not_above (inl root) a p m d ne e (up p' m' k c s) same =
      absurd (ground (arith, subst (λ z. par z ≡ some (some p')) same k))

  →orphaned :
      Free → (a : ℕ) {d n : ℕ} → Chain par a d n → a ≢ id → d ≢ id → Chain (orphaned par id) a d n
  →orphaned free a {d} (here q e s z) na nd =
      here (if q ==? some id then none else q) (rw e (ground arith)) s z
  →orphaned free a {d} (up p m e c s) na nd =
      let np = not_above free a p m d na e c in
      up p m (rw e (ground arith)) (→orphaned free a c na np) s

  orphaned-IsForest : IsForest (orphaned par id)
  orphaned-IsForest = record {
    acyclic = λ x n c. f.acyclic x n (orphaned→ x c).0;
    present = λ d p e.
        let (e', ne) = cut-eq-some id (par d) p (ground arith) in
        let (q, k) = f.present d p e' in (if q ==? some id then none else q, rw k (ground arith));
  }

  orphaned-Mirrors :
      Free
      → (closure : List Link) → Mirrors closure par
      → Mirrors
          (where_ (λ l. not (l.ancestor_id == id) && not (l.descendant_id == id)) closure)
          (orphaned par id)
  orphaned-Mirrors free closure m = record {
    sound = λ a d n h.
        let (k, t) = where_→mem _ (link a d n) closure h in
        →orphaned free a (m.sound a d n k) (ground arith) (ground arith);
    complete = λ a d n c.
        let (c', na, nd) = orphaned→ a c in
        mem→where_ _ (link a d n) (m.complete a d n c') (ground arith);
  }

-- In well-formed tables, `delete` keeps the tables well formed if the group has no parent or no
-- children.
pub delete-IsValid :
    (h : Hierarchy) (id : ℕ)
    → IsValid h
    → (parent h.groups id ≡ some none) ⊎ ((d : ℕ) → parent h.groups d ≢ some (some id))
    → IsValid (delete id h).1
unfolding delete
delete-IsValid h id v free =
    let e = sym (parent-delete h id) in
    record {
      mirrors =
          subst (Mirrors _) e
            (orphaned-Mirrors (parent h.groups) id v.forest free h.closure v.mirrors);
      forest = subst IsForest e (orphaned-IsForest (parent h.groups) id v.forest);
      fresh = λ d le. subst (λ f. f d ≡ none) e (rw (v.fresh d le) (ground arith));
      positive = subst (λ f. f 0 ≡ none) e (rw v.positive (ground arith));
      started = v.started;
    }

-- In well-formed tables, deleting a group that has a parent and a child leaves them no longer well
-- formed: the child has become a root, and the closure table keeps the row from the parent to the
-- child.
pub delete_between :
    (h : Hierarchy) (a id c : ℕ)
    → IsValid h
    → parent h.groups id ≡ some (some a)
    → parent h.groups c ≡ some (some id)
    → Memᴰ (link a c 2) (delete id h).1.closure
      × (parent (delete id h).1.groups c ≡ some none)
      × ¬ IsValid (delete id h).1
unfolding delete
delete_between h a id c v above below =
    let par = parent h.groups in
    let (q, known) = v.forest.present id a above in
    let upper = up a 0 above (here q known refl refl) refl in
    let chain = up id 1 below upper refl in
    let a-id : a ≢ id = λ same.
      absurd (omega (arith, v.forest.acyclic id 1 (subst (λ z. Chain par z id 1) same upper))) in
    let c-id : c ≢ id = λ same. absurd (
      omega (
        arith,
        v.forest.acyclic id 1 (
            up id 0 (subst (λ z. par z ≡ some (some id)) same below) (here (some a) above refl refl)
              refl),
      )) in
    let row = mem→where_ _ (link a c 2) (v.mirrors.complete a c 2 chain) (ground arith) in
    let root : parent (delete id h).1.groups c ≡ some none =
      ap (λ f. f c) (parent-delete h id) ∙ (rw below (ground arith)) in
    (
      row,
      root,
      λ w. absurd (
          omega
            (arith, Chain-root (parent (delete id h).1.groups) a root (w.mirrors.sound a c 2 row))),
    )
