-- ===== src/Group/Closure/Create.antt =====
-- `create` adds the row of the new group and copies the paths of its parent.
use native.Mathlib.Decide.{ℕ_discrete}
use mathlib.Core.List.Memᴰ
use oblimap.Base.{
  ℕ, suc, ◌+◌, ◌≡◌, refl, sym, ◌∙◌, subst, ◌⊎◌, inl, inr, true, Option, none, some, arith, ◌==◌,
  if◌then◌else◌, Bool-cases, ==_refl, List, ◌∷◌, Memᴰ, first, where_→mem, mem→where_, ==_refl,
  fun_ext, truthy, ◌≢◌,
}
use oblimap.Group.{Group, Link, Hierarchy, refers, grow, copy_paths, create, NewGroup, new_row}
use oblimap.Group.Ancestry.{Chain-source, Chain, here, up}
use oblimap.Group.Closure.Refers.{refers→exists}
use oblimap.Group.Closure.{parent, link, Mirrors, IsForest, IsValid}

-- The parents after a group `id` is added under `np`.
abbrev added : (ℕ → Option (Option ℕ)) → ℕ → Option ℕ → ℕ → Option (Option ℕ)
added par id np d = if id == d then some np else par d

module _ (par : ℕ → Option (Option ℕ)) (id : ℕ) (np : Option ℕ) (absent : par id ≡ none)
    (f : IsForest par) (known : (p : ℕ) → np ≡ some p → (q : Option ℕ) × (par p ≡ some q)) where
  is_old : (d : ℕ) {q : Option ℕ} → par d ≡ some q → d ≢ id
  is_old d e same = absurd (ground (arith, subst (λ x. par x ≡ none) (sym same) absent))

  keep_chain : (a : ℕ) {d n : ℕ} → Chain par a d n → Chain (added par id np) a d n
  keep_chain a {d} (here q e s z) = here q (ground (arith, is_old d e)) s z
  keep_chain a {d} (up p m e c s) = up p m (ground (arith, is_old d e)) (keep_chain a c) s

  -- A chain to the new group: the group itself, or one step below a chain to its parent.
  pub data New (a n : ℕ) : Type 0 where
    own : a ≡ id → n ≡ 0 → New a n
    below : (p m : ℕ) → np ≡ some p → Chain par a p m → n ≡ suc m → New a n

  split_chain :
      (a : ℕ) {d n : ℕ}
      → Chain (added par id np) a d n
      → ((d ≢ id) × Chain par a d n) ⊎ ((d ≡ id) × New a n)
  split_chain a {d} (here q e s z) = elim (ℕ_discrete d id) [
    | yes same ↦ inr (same, own (s ∙ same) z)
    | no other ↦ inl (other, here q (ground arith) s z)
  ]
  split_chain a {d} (up p m e c s) = elim (ℕ_discrete d id) [
    | yes same ↦
        let t : np ≡ some p = ground arith in
        elim (split_chain a c) [
          | inl (_, c') ↦ inr (same, below p m t c' s)
          | inr (loop, _) ↦ let (q, k) = known p t in absurd (is_old p k loop)
        ]
    | no other ↦
        let e' : par d ≡ some (some p) = ground arith in
        elim (split_chain a c) [
          | inl (_, c') ↦ inl (other, up p m e' c' s)
          | inr (loop, _) ↦ let (q, k) = f.present d p e' in absurd (is_old p k loop)
        ]
  ]

  added-IsForest : IsForest (added par id np)
  added-IsForest = record {
    acyclic = λ x n c. elim (split_chain x c) [
      | inl (_, c') ↦ f.acyclic x n c'
      | inr (same, own _ z) ↦ z
      | inr (same, below p m t c' _) ↦
          let (q, k) = Chain-source par x c' in absurd (is_old x k same)
    ];
    present = λ d p e. elim (ℕ_discrete d id) [
      | yes same ↦ let (q, k) = known p (ground arith) in (q, ground (arith, is_old p k))
      | no other ↦ let (q, k) = f.present d p (ground arith) in (q, ground (arith, is_old p k))
    ];
  }

  -- The closure rows after the insert of the group itself, and after the copy of its parent's paths.
  abbrev own_row : List Link → List Link
  own_row closure = link id id 0 ∷ closure

  module _ (closure : List Link) (m : Mirrors closure par) where
    own_sound : (a d n : ℕ) → Memᴰ (link a d n) (own_row closure) → Chain (added par id np) a d n
    own_sound a d n h = elim (Memᴰ.cases_cons h) [
      | inl e ↦
          subst (λ z. Chain (added par id np) z.ancestor_id z.descendant_id z.depth) (sym e)
            (here np (ground arith) refl refl)
      | inr k ↦ keep_chain a (m.sound a d n k)
    ]

    own_complete :
        (a d n : ℕ)
        → Chain (added par id np) a d n
        → Memᴰ (link a d n) (own_row closure)
          ⊎ ((d ≡ id) × ((p : ℕ) × (k : ℕ) × (np ≡ some p) × Chain par a p k × (n ≡ suc k)))
    own_complete a d n c = elim (split_chain a c) [
      | inl (_, c') ↦ inl (Memᴰ.tail (m.complete a d n c'))
      | inr (same, own s z) ↦ inl (Memᴰ.head (λ i. link (s i) (same i) (z i)))
      | inr (same, below p k t c' s) ↦ inr (same, (p, k, t, c', s))
    ]

    copies_sound :
        (p a d n : ℕ)
        → np ≡ some p
        → Memᴰ (link a d n) (copy_paths id p (own_row closure))
        → Chain (added par id np) a d n
    unfolding copy_paths
    copies_sound p a d n t h =
        let (gc, k, e) = Memᴰ.of_map _ _ h in
        let (k', onto) = where_→mem _ gc _ k in
        let (r, old) = known p t in
        elim (Memᴰ.cases_cons k') [
          | inl same ↦ absurd (is_old p old (ground (arith, same)))
          | inr there ↦
              let c =
                subst (λ z. Chain par gc.ancestor_id z gc.depth) (ground arith)
                  (m.sound gc.ancestor_id gc.descendant_id gc.depth there) in
              subst (λ z. Chain (added par id np) z.ancestor_id z.descendant_id z.depth) e
                (up p gc.depth (ground arith) (keep_chain gc.ancestor_id c) (omega arith))
        ]

    copies_complete :
        (p k a d n : ℕ)
        → d ≡ id
        → n ≡ suc k
        → Chain par a p k
        → Memᴰ (link a d n) (copy_paths id p (own_row closure))
    unfolding copy_paths
    copies_complete p k a d n same s c =
        subst (λ z. Memᴰ z (copy_paths id p (own_row closure)))
          (λ i. link a (sym same i) (let e : k + 1 ≡ n = omega arith in e i))
          (Memᴰ.map _ (
            mem→where_ (λ gc. gc.descendant_id == p) (link a p k) (Memᴰ.tail (m.complete a p k c))
              (==_refl p)))

grow-Mirrors :
    (par : ℕ → Option (Option ℕ)) (id : ℕ) (np : Option ℕ) (closure : List Link)
    → par id ≡ none
    → IsForest par
    → ((p : ℕ) → np ≡ some p → (q : Option ℕ) × (par p ≡ some q))
    → Mirrors closure par
    → par 0 ≡ none
    → Mirrors (grow id np closure) (added par id np)
unfolding grow
grow-Mirrors par id none closure absent f known m positive = record {
  sound = own_sound par id none absent f known closure m;
  complete = λ a d n c. elim (own_complete par id none absent f known closure m a d n c) [
    | inl h ↦ h
    | inr (_, (p, k, t, _, _)) ↦ absurd (ground arith)
  ];
}
grow-Mirrors par id (some p) closure absent f known m positive =
    let (q, old) = known p refl in
    let nonzero : truthy (some p) ≡ true = ground (arith, old, positive) in
    rw nonzero (record {
      sound = λ a d n h.
          elim (Memᴰ.append_cases (copy_paths id p (own_row par id (some p) absent f known closure))
            h) [
              | inl new ↦ copies_sound par id (some p) absent f known closure m p a d n refl new
              | inr old_ ↦ own_sound par id (some p) absent f known closure m a d n old_
            ];
      complete = λ a d n c. elim (own_complete par id (some p) absent f known closure m a d n c) [
        | inl h ↦
            Memᴰ.append_right (copy_paths id p (own_row par id (some p) absent f known closure)) h
        | inr (same, (p', k, t, c', s)) ↦
            Memᴰ.append_left (own_row par id (some p) absent f known closure) (
              copies_complete par id (some p) absent f known closure m p k a d n same s
                (subst (λ z. Chain par a z k) (ground arith) c'))
      ];
    })

parent-added :
    (id : ℕ) (data_ : NewGroup) (tenant_id : ℕ) (groups : List Group)
    → parent (new_row id data_ tenant_id ∷ groups) ≡ added (parent groups) id data_.parent_id
unfolding new_row first
parent-added id data_ tenant_id groups = fun_ext λ d. ground arith

-- In well-formed tables, `create` keeps the tables well formed, also where the database refuses
-- the parent.
pub create-IsValid :
    (data_ : NewGroup) (tenant_id : ℕ) (h : Hierarchy)
    → IsValid h
    → IsValid (create data_ tenant_id h).1
unfolding create
create-IsValid data_ tenant_id h v = elim (Bool-cases (refers h data_.parent_id)) [
  | inl ref ↦ rw ref (
      let id = h.next_id in
      let np = data_.parent_id in
      let absent = v.fresh id (omega arith) in
      let known : (p : ℕ) → np ≡ some p → (q : Option ℕ) × (parent h.groups p ≡ some q) =
        λ p t. refers→exists h p (subst (λ o. refers h o ≡ true) t ref) in
      let e = sym (parent-added id data_ tenant_id h.groups) in
      record {
        mirrors = subst (Mirrors (grow id np h.closure)) e (
            grow-Mirrors (parent h.groups) id np h.closure absent v.forest known v.mirrors
              v.positive);
        forest = subst IsForest e (added-IsForest (parent h.groups) id np absent v.forest known);
        fresh = λ d le. subst (λ f. f d ≡ none) e (ground (arith, v.fresh d, v.started));
        positive = subst (λ f. f 0 ≡ none) e (ground (arith, v.positive, v.started));
        started = omega arith;
      })
  | inr dangling ↦ rw dangling (record {
    mirrors = v.mirrors;
    forest = v.forest;
    fresh = λ d le. v.fresh d (omega arith);
    positive = v.positive;
    started = omega arith;
  })
]
