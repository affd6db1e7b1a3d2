-- ===== src/Group/Ancestry.antt =====
-- Chains of `parent_id`, independent of the closure table, and how they change when one group gets
-- another parent. `par d` is none where there is no group `d`, and otherwise its nullable parent.
use native.Mathlib.Decide.{ℕ_discrete}
use oblimap.Base.{
  ◌≢◌, sym, subst, ℕ, suc, ◌+◌, ◌≡◌, refl, ◌⊎◌, inl, inr, Bool, true, false, not, ◌&&◌, Option,
  none, some, arith, ◌==◌, if◌then◌else◌, Bool-cases,
}

-- `a` is `n` steps above `d`, and every group on the way exists.
pub data Chain (par : ℕ → Option (Option ℕ)) (a : ℕ) : ℕ → ℕ → Type 0 where
  here : {d n : ℕ} (q : Option ℕ) → par d ≡ some q → a ≡ d → n ≡ 0 → Chain par a d n
  up : {d n : ℕ} (p m : ℕ) → par d ≡ some (some p) → Chain par a p m → n ≡ suc m → Chain par a d n

pub Chain-trans :
    (par : ℕ → Option (Option ℕ)) (a b m : ℕ) {d n : ℕ}
    → Chain par a b m
    → Chain par b d n
    → Chain par a d (m + n)
Chain-trans par a b m p (here q e s z) = rw (← s) (subst (λ k. Chain par a b k) (omega arith) p)
Chain-trans par a b m p (up p' n' e r s) =
    up p' (m + n') e (Chain-trans par a b m p r) (omega arith)

pub Chain-exists :
    (par : ℕ → Option (Option ℕ)) (a : ℕ) {d n : ℕ}
    → Chain par a d n
    → (q : Option ℕ) × (par d ≡ some q)
Chain-exists par a (here q e s z) = (q, e)
Chain-exists par a (up p m e r s) = (some p, e)

pub Chain-source :
    (par : ℕ → Option (Option ℕ)) (a : ℕ) {d n : ℕ}
    → Chain par a d n
    → (q : Option ℕ) × (par a ≡ some q)
Chain-source par a (here q e s z) = (q, rw s e)
Chain-source par a (up p m e r s) = Chain-source par a r

pub Chain-root :
    (par : ℕ → Option (Option ℕ)) (a : ℕ) {d n : ℕ} → par d ≡ some none → Chain par a d n → n ≡ 0
Chain-root par a root (here q e s z) = z
Chain-root par a root (up p m e r s) = absurd (ground (arith, root, e))

-- The parents after `id` has moved under `np`.
abbrev pub moved : (ℕ → Option (Option ℕ)) → ℕ → Option ℕ → ℕ → Option (Option ℕ)
moved par id np d = if d == id then some np else par d

module _ (par : ℕ → Option (Option ℕ)) (id : ℕ) (np row : Option ℕ) (exists : par id ≡ some row)
    (acyclic : (x n : ℕ) → Chain par x x n → n ≡ 0)
    (guard : (p n : ℕ) → np ≡ some p → Chain par id p n → ⊥) (sub : ℕ → Bool)
    (into : (d : ℕ) → sub d ≡ true → (n : ℕ) × Chain par id d n)
    (back : (d n : ℕ) → Chain par id d n → sub d ≡ true) where
  -- A chain through the new link: above the new parent, and inside the subtree.
  pub record Through (a d n : ℕ) : Type 0 where
    pub parent : ℕ
    pub above : ℕ
    pub below : ℕ
    pub target : np ≡ some parent
    pub upper : Chain par a parent above
    pub lower : Chain par id d below
    pub total : n ≡ above + below + 1

  abbrev pub Stays : ℕ → ℕ → Type 0
  Stays a d = (sub d && not (sub a)) ≡ false

  pub moved_exists :
      (d : ℕ) (q : Option ℕ) → par d ≡ some q → (q' : Option ℕ) × (moved par id np d ≡ some q')
  moved_exists d q e = elim (Bool-cases (d == id)) [
    | inl same ↦ (np, rw same)
    | inr other ↦ (q, rw other e)
  ]

  par_exists :
      (d : ℕ) (q : Option ℕ) → moved par id np d ≡ some q → (q' : Option ℕ) × (par d ≡ some q')
  par_exists d q e = elim (ℕ_discrete d id) [
    | yes same ↦ (row, rw same exists)
    | no other ↦ (q, ground arith)
  ]

  -- The subtree is closed under children, and under parents below its root.
  sub_child : (d p : ℕ) → par d ≡ some (some p) → sub p ≡ true → sub d ≡ true
  sub_child d p e h = let (n, c) = into p h in back d (suc n) (up p n e c refl)

  sub_parent : (d p : ℕ) → d ≢ id → par d ≡ some (some p) → sub d ≡ true → sub p ≡ true
  sub_parent d p other e h = let (n, c) = into d h in go n c
    where
      go : (n : ℕ) → Chain par id d n → sub p ≡ true
      go n (here q e' s z) = absurd (other (sym s))
      go n (up p' m e' r s) = back p m (subst (λ k. Chain par id k m) (ground arith) r)

  pub from_moved :
      (a : ℕ) {d n : ℕ}
      → Chain (moved par id np) a d n
      → (Chain par a d n × Stays a d) ⊎ Through a d n
  from_moved a {d} (here q e s z) =
      let (q', e') = par_exists d q e in inl (here q' e' s z, rw s (ground arith))
  from_moved a {d} {n} (up p m e r s) = elim (ℕ_discrete d id) [
    | yes same ↦ elim (from_moved a r) [
      | inl (c, st) ↦ inr (record {
        parent = p;
        above = m;
        below = 0;
        target = ground arith;
        upper = c;
        lower = here row (rw same exists) (sym same) refl;
        total = omega arith;
      })
      | inr t ↦ absurd (guard p t.below (ground arith) t.lower)
    ]
    | no other ↦
        let e' : par d ≡ some (some p) = ground arith in
        elim (from_moved a r) [
          | inl (c, st) ↦ inl (up p m e' c s, ground (arith, sub_parent d p other e'))
          | inr t ↦ inr (record {
            parent = t.parent;
            above = t.above;
            below = suc t.below;
            target = t.target;
            upper = t.upper;
            lower = up p t.below e' t.lower refl;
            total = omega arith;
          })
        ]
  ]

  pub kept_moved : (a : ℕ) {d n : ℕ} → Chain par a d n → Stays a d → Chain (moved par id np) a d n
  kept_moved a {d} (here q e s z) h = let (q', e') = moved_exists d q e in here q' e' s z
  kept_moved a {d} (up p m e r s) h = elim (ℕ_discrete d id) [
    | yes same ↦
        let inside : sub d ≡ true = back d 0 (here row (rw same exists) (sym same) refl) in
        let (k, c) = into a (ground arith) in
        let loop = acyclic id (k + suc m) (
          subst (λ x. Chain par id x (k + suc m)) same
            (Chain-trans par id a k c (up p m e r refl))) in
        absurd (omega arith)
    | no other ↦ up p m (ground arith) (kept_moved a r (ground (arith, sub_child d p e))) s
  ]

  pub through_moved :
      (a p m : ℕ) {d n : ℕ}
      → np ≡ some p
      → Chain par a p m
      → Chain par id d n
      → Chain (moved par id np) a d (m + n + 1)
  through_moved a p m t u (here q e s z) = elim (Bool-cases (sub p)) [
    | inl inside ↦ let (k, c) = into p inside in absurd (guard p k t c)
    | inr free ↦ up p m (ground arith) (kept_moved a u (rw free)) (omega arith)
  ]
  through_moved a p m {d} t u (up p' n' e r s) = elim (ℕ_discrete d id) [
    | yes same ↦
        let loop =
          acyclic id (suc n') (subst (λ x. Chain par id x (suc n')) same (up p' n' e r refl)) in
        absurd (omega arith)
    | no other ↦ up p' (m + n' + 1) (ground arith) (through_moved a p m t u r) (omega arith)
  ]

  pub moved-acyclic : (x n : ℕ) → Chain (moved par id np) x x n → n ≡ 0
  moved-acyclic x n p = elim (from_moved x p) [
    | inl (c, _) ↦ acyclic x n c
    | inr t ↦
        absurd (
          guard t.parent (t.below + t.above) t.target
            (Chain-trans par id x t.below t.lower t.upper))
  ]
