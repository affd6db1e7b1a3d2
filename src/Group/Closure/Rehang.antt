-- ===== src/Group/Closure/Rehang.antt =====
-- What `move` does to the closure table: it mirrors the new parents.
use native.Mathlib.Decide.{ℕ_discrete}
use mathlib.Core.List.Memᴰ
use oblimap.Base.{
  ℕ, ◌+◌, ◌≡◌, refl, sym, ap, ◌∙◌, subst, inl, inr, Bool, true, false, not, ◌&&◌, Option, none,
  some, arith, ◌==◌, if◌then◌else◌, Bool-cases, ==_refl, List, [], ◌∷◌, Memᴰ, where_, first, update,
  elem, where_→mem, mem→where_, any→mem, mem→any, pairs→mem, mem→pairs, fun_ext, is_some, ◌↔◌,
}
use oblimap.Group.{Group, Link, get_descendant_ids, outside, rehang, reconnect, is_descendant}
use oblimap.Group.Ancestry.{
  Chain, here, moved, from_moved, kept_moved, through_moved, moved_exists, moved-acyclic,
}
use oblimap.Group.Closure.{parent, link, Mirrors, IsForest, into, back}

-- The update of `parent_id`, seen through the parents.
parent-update :
    (id : ℕ) (np : Option ℕ) (groups : List Group) (d : ℕ)
    → parent (update (λ g. g.id == id) (λ g. record g { parent_id = np }) groups) d
      ≡ (if d == id && is_some (first (λ g. g.id == d) groups) then some np else parent groups d)
unfolding update first
parent-update id np [] d = ground arith
parent-update id np (g ∷ groups) d = ground (arith, parent-update id np groups d)

pub parent-moved :
    (id : ℕ) (np row : Option ℕ) (groups : List Group)
    → parent groups id ≡ some row
    → parent (update (λ g. g.id == id) (λ g. record g { parent_id = np }) groups)
      ≡ moved (parent groups) id np
parent-moved id np row groups e = fun_ext λ d.
    parent-update id np groups d
    ∙ (elim (ℕ_discrete d id) [ yes same ↦ rw same (ground arith) | no other ↦ ground arith ])

module _ (par : ℕ → Option (Option ℕ)) (closure : List Link) (id : ℕ) (row : Option ℕ)
    (exists : par id ≡ some row) (f : IsForest par) (m : Mirrors closure par) where
  abbrev sub : ℕ → Bool
  sub d = elem d (get_descendant_ids id closure)

  abbrev kept : List Link
  kept = where_ (λ l. not (outside (get_descendant_ids id closure) l)) closure

  kept_sound :
      (a d n : ℕ) → Memᴰ (link a d n) kept → Chain par a d n × ((sub d && not (sub a)) ≡ false)
  kept_sound a d n h =
      let (k, t) = where_→mem _ (link a d n) closure h in (m.sound a d n k, ground arith)

  kept_complete :
      (a d n : ℕ) → Chain par a d n → (sub d && not (sub a)) ≡ false → Memᴰ (link a d n) kept
  kept_complete a d n c s = mem→where_ _ (link a d n) (m.complete a d n c) (rw s)

  rehang-none : Mirrors (rehang id none closure) (moved par id none)
  unfolding rehang
  rehang-none = record {
    sound = λ a d n h.
        let (c, s) = kept_sound a d n h in
        kept_moved par id none row exists f.acyclic (λ p k e _. cc) sub (into par closure id m)
          (back par closure id m) a c s;
    complete = λ a d n c.
        elim (from_moved par id none row exists f.acyclic (λ p k e _. cc) sub
          (into par closure id m) (back par closure id m) a c) [
            | inl (c', s) ↦ kept_complete a d n c' s
            | inr t ↦ absurd (ground arith)
          ];
  }

  module _ (p : ℕ) (guard : (q n : ℕ) → some p ≡ some q → Chain par id q n → ⊥) where
    -- The rows of the cross join are the chains through the new link.
    hung :
        (a d n : ℕ) → Memᴰ (link a d n) (reconnect id p kept) → Chain (moved par id (some p)) a d n
    unfolding reconnect
    hung a d n h =
        let (x, y, hx, hy, e) = pairs→mem _ (link a d n) _ _ h in
        let (kx, tx) = where_→mem _ x _ hx in
        let (ky, ty) = where_→mem _ y _ hy in
        let (ux, sx) = kept_sound x.ancestor_id x.descendant_id x.depth kx in
        let (uy, sy) = kept_sound y.ancestor_id y.descendant_id y.depth ky in
        let above = subst (λ z. Chain par x.ancestor_id z x.depth) (ground arith) ux in
        let below = subst (λ z. Chain par z y.descendant_id y.depth) (ground arith) uy in
        let c =
          through_moved par id (some p) row exists f.acyclic guard sub (into par closure id m)
            (back par closure id m) x.ancestor_id p x.depth refl above below in
        subst (λ z. Chain (moved par id (some p)) z.ancestor_id z.descendant_id z.depth) e c

    above_stays : (a : ℕ) → (sub p && not (sub a)) ≡ false
    above_stays a = elim (Bool-cases (sub p)) [
      | inl inside ↦ let (n, c) = into par closure id m p inside in absurd (guard p n refl c)
      | inr free ↦ rw free
    ]

    hang :
        (a d n q u l : ℕ)
        → some p ≡ some q
        → Chain par a q u
        → Chain par id d l
        → n ≡ u + l + 1
        → Memᴰ (link a d n) (reconnect id p kept)
    unfolding reconnect
    hang a d n q u l e upper lower total =
        let onto = subst (λ z. Chain par a z u) (ground arith) upper in
        let root = back par closure id m id 0 (here row exists refl refl) in
        let hx =
          mem→where_ (λ z. z.descendant_id == p) (link a p u)
            (kept_complete a p u onto (above_stays a)) (==_refl p) in
        let hy =
          mem→where_ (λ z. z.ancestor_id == id) (link id d l)
            (kept_complete id d l lower (ground arith)) (==_refl id) in
        subst (λ z. Memᴰ z (reconnect id p kept)) (ap (link a d) (sym total))
          (mem→pairs _ (link a p u) (link id d l) hx hy)

    rehang-some : Mirrors (rehang id (some p) closure) (moved par id (some p))
    unfolding rehang
    rehang-some = record {
      sound = λ a d n h. elim (Memᴰ.append_cases (reconnect id p kept) h) [
        | inl new ↦ hung a d n new
        | inr old ↦
            let (c, s) = kept_sound a d n old in
            kept_moved par id (some p) row exists f.acyclic guard sub (into par closure id m)
              (back par closure id m) a c s
      ];
      complete = λ a d n c.
          elim (from_moved par id (some p) row exists f.acyclic guard sub (into par closure id m)
            (back par closure id m) a c) [
              | inl (c', s) ↦ Memᴰ.append_right (reconnect id p kept) (kept_complete a d n c' s)
              | inr t ↦
                  Memᴰ.append_left kept
                    (hang a d n t.parent t.above t.below t.target t.upper t.lower t.total)
            ];
    }

-- The test for a circular move, against the chains of parents.
pub is_descendant_iff :
    (par : ℕ → Option (Option ℕ)) (closure : List Link) (id p : ℕ)
    → Mirrors closure par
    → (is_descendant id (some p) closure ≡ true) ↔ ((n : ℕ) × Chain par id p n)
unfolding is_descendant
is_descendant_iff par closure id p m = (to, from)
  where
    to : is_descendant id (some p) closure ≡ true → (n : ℕ) × Chain par id p n
    to h =
        let (l, k, t) = any→mem _ closure h in
        (
          l.depth,
          subst (λ z. Chain par z p l.depth) (ground arith)
              (subst (λ z. Chain par l.ancestor_id z l.depth) (ground arith)
                (m.sound l.ancestor_id l.descendant_id l.depth k)),
        )

    from : (n : ℕ) × Chain par id p n → is_descendant id (some p) closure ≡ true
    from (n, c) = mem→any _ (link id p n) (m.complete id p n c) (ground arith)

module _ (par : ℕ → Option (Option ℕ)) (closure : List Link) (id : ℕ) (np row : Option ℕ)
    (exists : par id ≡ some row) (f : IsForest par) (m : Mirrors closure par)
    (free : is_descendant id np closure ≡ false) where
  guard : (q n : ℕ) → np ≡ some q → Chain par id q n → ⊥
  guard q n t c =
      let found = (is_descendant_iff par closure id q m).1 (n, c) in
      absurd (ground (arith, subst (λ o. is_descendant id o closure ≡ false) t free))

  pub rehang-Mirrors : Mirrors (rehang id np closure) (moved par id np)
  rehang-Mirrors = by_parent np refl
    where
      by_parent : (o : Option ℕ) → np ≡ o → Mirrors (rehang id np closure) (moved par id np)
      by_parent none e = rw e (rehang-none par closure id row exists f m)
      by_parent (some p) e =
          rw e (rehang-some par closure id row exists f m p (λ q n t. guard q n (e ∙ t)))

  pub moved-IsForest :
      ((p : ℕ) → np ≡ some p → (q : Option ℕ) × (par p ≡ some q)) → IsForest (moved par id np)
  moved-IsForest known = record {
    acyclic =
        moved-acyclic par id np row exists f.acyclic guard (sub par closure id row exists f m)
          (into par closure id m) (back par closure id m);
    present = λ d p e. elim (ℕ_discrete d id) [
      | yes same ↦ let (q, k) = known p (ground arith) in still p q k
      | no other ↦ let (q, k) = f.present d p (ground arith) in still p q k
    ];
  }
    where
      still :
          (p : ℕ) (q : Option ℕ) → par p ≡ some q → (q' : Option ℕ) × (moved par id np p ≡ some q')
      still =
          moved_exists par id np row exists f.acyclic guard (sub par closure id row exists f m)
            (into par closure id m) (back par closure id m)
