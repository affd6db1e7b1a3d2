-- ===== src/Group/Closure/Move.antt =====
-- `move` as a whole: what it keeps, how it ends, and what its failing update leaves behind.
use native.Mathlib.Decide.{ℕ_discrete}
use mathlib.Core.List.Memᴰ
use oblimap.Base.{
  ℕ, suc, ◌≡◌, refl, sym, ap, ◌∙◌, subst, ◌⊎◌, inl, inr, true, false, not, Option, none, some,
  arith, ◌==◌, Bool-cases, Option-cases, Memᴰ, where_, update, where_→mem, pairs→mem,
}
use oblimap.Group.{
  Group, Link, Hierarchy, done, circular, foreign_key, find_group, refers, get_descendant_ids,
  outside, rehang, reconnect, is_descendant, move,
}
use oblimap.Group.Ancestry.{Chain-exists, Chain, here, up, moved}
use oblimap.Group.Closure.Refers.{refers→exists, refers-missing, row_of}
use oblimap.Group.Closure.Rehang.{parent-moved, rehang-Mirrors, moved-IsForest, is_descendant_iff}
use oblimap.Group.Closure.{parent, link, Mirrors, IsForest, IsValid, into, back}

-- The tables after a move that goes through.
abbrev hung : Hierarchy → ℕ → Option ℕ → Hierarchy
hung h id np = record h {
  groups = update (λ g. g.id == id) (λ g. record g { parent_id = np }) h.groups;
  closure = rehang id np h.closure;
}

module _ (h : Hierarchy) (id : ℕ) (np row : Option ℕ) (exists : parent h.groups id ≡ some row)
    (v : IsValid h) where
  moved_away : (d : ℕ) → parent h.groups d ≡ none → moved (parent h.groups) id np d ≡ none
  moved_away d e = elim (ℕ_discrete d id) [
    | yes same ↦ absurd (ground (arith, subst (λ x. parent h.groups x ≡ none) same e))
    | no other ↦ ground arith
  ]

  hung-IsValid : refers h np ≡ true → is_descendant id np h.closure ≡ false → IsValid (hung h id np)
  hung-IsValid ref free =
      let e = sym (parent-moved id np row h.groups exists) in
      record {
        mirrors =
            subst (Mirrors (rehang id np h.closure)) e
              (rehang-Mirrors (parent h.groups) h.closure id np row exists v.forest v.mirrors free);
        forest = subst IsForest e (
            moved-IsForest (parent h.groups) h.closure id np row exists v.forest v.mirrors free
              λ p t. refers→exists h p (subst (λ o. refers h o ≡ true) t ref));
        fresh = λ d le. subst (λ f. f d ≡ none) e (moved_away d (v.fresh d le));
        positive = subst (λ f. f 0 ≡ none) e (moved_away 0 v.positive);
        started = v.started;
      }

-- In well-formed tables, `move` keeps them well formed, whichever way it ends, if the new parent
-- exists: the closure table again lists exactly the chains of parents, with their lengths, and no
-- group is above itself.
pub move-IsValid :
    (h : Hierarchy) (id : ℕ) (np : Option ℕ)
    → IsValid h
    → refers h np ≡ true
    → IsValid (move id np h).1
unfolding move
move-IsValid h id np v ref = elim (Option-cases (find_group id h)) [
  | inl missing ↦ rw (missing, move) v
  | inr (g, found) ↦ elim (Bool-cases (is_descendant id np h.closure)) [
    | inl under ↦ rw (found, move, under) v
    | inr free ↦
        rw (found, move, free, ref)
          (hung-IsValid h id np g.parent_id (row_of h id g found) v ref free)
  ]
]

-- In well-formed tables, `move` of an existing group to an existing parent is refused as circular,
-- with nothing changed, exactly if a chain of parents leads from the new parent up to the group;
-- otherwise it succeeds and changes the parent of that group and of no other.
pub move_cases :
    (h : Hierarchy) (id p : ℕ) (g : Group)
    → IsValid h
    → find_group id h ≡ some g
    → refers h (some p) ≡ true
    → (((n : ℕ) × Chain (parent h.groups) id p n) × (move id (some p) h ≡ (circular, h)))
      ⊎ (¬ ((n : ℕ) × Chain (parent h.groups) id p n)
          × ((move id (some p) h).0 ≡ done (record g { parent_id = some p }))
          × (parent (move id (some p) h).1.groups ≡ moved (parent h.groups) id (some p)))
unfolding move
move_cases h id p g v found ref = elim (Bool-cases (is_descendant id (some p) h.closure)) [
  | inl under ↦ inl (
    (is_descendant_iff (parent h.groups) h.closure id p v.mirrors).0 under,
    rw (found, move, under) refl,
  )
  | inr free ↦ inr (
    (λ c.
        absurd (
          ground
            (arith, free, (is_descendant_iff (parent h.groups) h.closure id p v.mirrors).1 c))),
    rw (found, move, free, ref) refl,
    rw (found, move, free, ref)
        (parent-moved id (some p) g.parent_id h.groups (row_of h id g found)),
  )
]

module _ (h : Hierarchy) (id p : ℕ) (v : IsValid h) (dangling : parent h.groups p ≡ none) where
  nothing_below : (a n : ℕ) → ¬ Chain (parent h.groups) a p n
  nothing_below a n c = let (q, e) = Chain-exists (parent h.groups) a c in absurd (ground arith)

  nothing_hung :
      (l : Link)
      → ¬ Memᴰ l (
          reconnect id p
            (where_ (λ l. not (outside (get_descendant_ids id h.closure) l)) h.closure))
  unfolding reconnect
  nothing_hung l m =
      let (x, y, hx, _, _) = pairs→mem _ l _ _ m in
      let (kx, tx) = where_→mem _ x _ hx in
      let (k, _) = where_→mem _ x _ kx in
      nothing_below x.ancestor_id x.depth (
        subst (λ z. Chain (parent h.groups) x.ancestor_id z x.depth) (ground arith)
          (v.mirrors.sound x.ancestor_id x.descendant_id x.depth k))

  not_circular : is_descendant id (some p) h.closure ≡ false
  not_circular = elim (Bool-cases (is_descendant id (some p) h.closure)) [
    | inl under ↦
        let (n, c) = (is_descendant_iff (parent h.groups) h.closure id p v.mirrors).0 under in
        absurd (nothing_below id n c)
    | inr free ↦ free
  ]

  -- The link to the old parent is gone.
  link_lost :
      (q : ℕ)
      → parent h.groups id ≡ some (some q)
      → ¬ Memᴰ (link q id 1) (rehang id (some p) h.closure)
  unfolding rehang
  link_lost q e m =
      elim (Memᴰ.append_cases
        (reconnect id p (where_ (λ l. not (outside (get_descendant_ids id h.closure) l)) h.closure))
        m) [
          | inl new ↦ nothing_hung (link q id 1) new
          | inr old ↦
              let (_, t) = where_→mem _ (link q id 1) h.closure old in
              let inside =
                back (parent h.groups) h.closure id v.mirrors id 0 (here (some q) e refl refl) in
              let (n, c) = into (parent h.groups) h.closure id v.mirrors q (ground arith) in
              let loop = v.forest.acyclic id (suc n) (up q n e c refl) in absurd (omega arith)
        ]

-- In well-formed tables, a move of a group that has a parent to one that does not exist is refused
-- by the database only after the closure rows are rewritten, and leaves the tables no longer well
-- formed.
pub move_missing_parent :
    (h : Hierarchy) (id p q : ℕ) (g : Group)
    → IsValid h
    → find_group id h ≡ some g
    → g.parent_id ≡ some q
    → refers h (some p) ≡ false
    → ((move id (some p) h).0 ≡ foreign_key) × ¬ IsValid (move id (some p) h).1
unfolding move
move_missing_parent h id p q g v found above missing =
    let dangling = refers-missing h p missing in
    let e = row_of h id g found ∙ ap some above in
    let (r, k) = v.forest.present id q e in
    rw (found, move, not_circular h id p v dangling, missing)
      (
        refl,
        λ w.
            link_lost h id p v dangling q e
              (w.mirrors.complete q id 1 (up q 0 e (here r k refl refl) refl)),
      )
