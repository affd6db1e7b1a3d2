-- ===== src/Base/Order.antt =====
-- Laws of `orderBy`: rows of key 0 come last in descending order, and the first row in ascending
-- order has the least key.
use Prim.Native.Nat.{ℕ, ◌≤◌, ◌<◌}
use mathlib.Core.Path.{◌≡◌, refl, ◌∙◌, ap}
use mathlib.Core.Logic.{inl, inr}
use mathlib.Core.Bool.{true, false}
use mathlib.Core.List.{List, [], ◌∷◌, ◌++◌, Memᴰ}
use mathlib.Core.List.Memᴰ
use native.Mathlib.Omega.{arith}
use oblimap.Base.Tests.{leb, ltb, ◌==◌, Bool-cases}
use oblimap.Base.Rows.{where_, insert_by, insert_by_desc, order_by, order_by_desc}

module _ {ℓ} {A : Type ℓ} (key : A → ℕ) where
  abbrev Positive : List A → Type 0
  Positive [] = Unit
  Positive (x ∷ xs) = (0 < key x) × Positive xs

  abbrev Zero : List A → Type 0
  Zero [] = Unit
  Zero (x ∷ xs) = (key x ≡ 0) × Zero xs

  insert_zero :
      (x : A) (ys zs : List A)
      → key x ≡ 0
      → Positive ys
      → insert_by_desc key x (ys ++ zs) ≡ ys ++ insert_by_desc key x zs
  unfolding insert_by_desc
  insert_zero x [] zs e p = refl
  insert_zero x (y ∷ ys) zs e p = ground (arith, insert_zero x ys zs e p.1)

  insert_front : (x : A) (zs : List A) → Zero zs → insert_by_desc key x zs ≡ x ∷ zs
  unfolding insert_by_desc
  insert_front x [] z = refl
  insert_front x (y ∷ zs) z = ground arith

  insert_positive :
      (x : A) (ys zs : List A)
      → Zero zs
      → insert_by_desc key x (ys ++ zs) ≡ insert_by_desc key x ys ++ zs
  unfolding insert_by_desc
  insert_positive x [] zs z = insert_front x zs z
  insert_positive x (y ∷ ys) zs z = ground (arith, insert_positive x ys zs z)

  Positive-insert :
      (x : A) (ys : List A) → 0 < key x → Positive ys → Positive (insert_by_desc key x ys)
  unfolding insert_by_desc
  Positive-insert x [] h p = (h, tt)
  Positive-insert x (y ∷ ys) h p = ground (arith, Positive-insert x ys h p.1)

  Positive-order : (xs : List A) → Positive (order_by_desc key (where_ (λ x. ltb 0 (key x)) xs))
  unfolding order_by_desc where_
  Positive-order [] = tt
  Positive-order (x ∷ xs) = elim (Bool-cases (ltb 0 (key x))) [
    | inl e ↦ rw e (Positive-insert x _ (ground arith) (Positive-order xs))
    | inr e ↦ rw e (Positive-order xs)
  ]

  Zero-where_ : (xs : List A) → Zero (where_ (λ x. key x == 0) xs)
  unfolding where_
  Zero-where_ [] = tt
  Zero-where_ (x ∷ xs) = elim (Bool-cases (key x == 0)) [
    | inl e ↦ rw e (ground arith, Zero-where_ xs)
    | inr e ↦ rw e (Zero-where_ xs)
  ]

  pub order_by_desc-zero :
      (xs : List A)
      → order_by_desc key xs
        ≡ order_by_desc key (where_ (λ x. ltb 0 (key x)) xs) ++ where_ (λ x. key x == 0) xs
  unfolding order_by_desc where_
  order_by_desc-zero [] = refl
  order_by_desc-zero (x ∷ xs) = elim (Bool-cases (key x == 0)) [
    | inl e ↦
        let flat : ltb 0 (key x) ≡ false = ground arith in
        rw (e, flat, order_by_desc-zero xs)
          (insert_zero x _ _ (ground arith) (Positive-order xs)
            ∙ ap (◌++◌ (order_by_desc key (where_ (λ y. ltb 0 (key y)) xs)))
                (insert_front x (where_ (λ y. key y == 0) xs) (Zero-where_ xs)))
    | inr e ↦
        let deep : ltb 0 (key x) ≡ true = ground arith in
        rw (e, deep, order_by_desc-zero xs) (insert_positive x _ _ (Zero-where_ xs))
  ]

  -- No row of the list has a smaller key.
  abbrev pub Least : ℕ → List A → Type 0
  Least k [] = Unit
  Least k (x ∷ xs) = (k ≤ key x) × Least k xs

  pub least→le : (k : ℕ) (x : A) {xs : List A} → Memᴰ x xs → Least k xs → k ≤ key x
  least→le k x (Memᴰ.head e) h = rw e h.0
  least→le k x (Memᴰ.tail m) h = least→le k x m h.1

  Least-mono : (j k : ℕ) (xs : List A) → j ≤ k → Least k xs → Least j xs
  Least-mono j k [] le h = tt
  Least-mono j k (x ∷ xs) le h = (omega arith, Least-mono j k xs le h.1)

  abbrev pub IsAscending : List A → Type 0
  IsAscending [] = Unit
  IsAscending (x ∷ xs) = Least (key x) xs × IsAscending xs

  Least-insert :
      (k : ℕ) (x : A) (xs : List A) → k ≤ key x → Least k xs → Least k (insert_by key x xs)
  unfolding insert_by
  Least-insert k x [] le h = (le, tt)
  Least-insert k x (y ∷ xs) le h = ground (arith, Least-insert k x xs le h.1)

  IsAscending-insert : (x : A) (xs : List A) → IsAscending xs → IsAscending (insert_by key x xs)
  unfolding insert_by
  IsAscending-insert x [] h = (tt, tt)
  IsAscending-insert x (y ∷ xs) h = elim (Bool-cases (leb (key x) (key y))) [
    | inl e ↦ rw e ((ground arith, Least-mono (key x) (key y) xs (ground arith) h.0), h)
    | inr e ↦ rw e (Least-insert (key y) x xs (ground arith) h.0, IsAscending-insert x xs h.1)
  ]

  pub order_by-IsAscending : (xs : List A) → IsAscending (order_by key xs)
  unfolding order_by
  order_by-IsAscending [] = tt
  order_by-IsAscending (x ∷ xs) = IsAscending-insert x _ (order_by-IsAscending xs)

  insert→mem : (a x : A) (xs : List A) → Memᴰ a (insert_by key x xs) → Memᴰ a (x ∷ xs)
  unfolding insert_by
  insert→mem a x [] m = m
  insert→mem a x (y ∷ xs) m = elim (Bool-cases (leb (key x) (key y))) [
    | inl e ↦ rw e at m
    | inr e ↦ elim (Memᴰ.cases_cons (rw e at m)) [
      | inl q ↦ Memᴰ.tail (Memᴰ.head q)
      | inr n ↦ elim (Memᴰ.cases_cons (insert→mem a x xs n)) [
        | inl q ↦ Memᴰ.head q
        | inr k ↦ Memᴰ.tail (Memᴰ.tail k)
      ]
    ]
  ]

  mem→insert : (a x : A) (xs : List A) → Memᴰ a (x ∷ xs) → Memᴰ a (insert_by key x xs)
  unfolding insert_by
  mem→insert a x [] m = m
  mem→insert a x (y ∷ xs) m = elim (Bool-cases (leb (key x) (key y))) [
    | inl e ↦ rw e m
    | inr e ↦ rw e (elim (Memᴰ.cases_cons m) [
      | inl q ↦ Memᴰ.tail (mem→insert a x xs (Memᴰ.head q))
      | inr n ↦ elim (Memᴰ.cases_cons n) [
        | inl q ↦ Memᴰ.head q
        | inr k ↦ Memᴰ.tail (mem→insert a x xs (Memᴰ.tail k))
      ]
    ])
  ]

  pub order→mem : (a : A) (xs : List A) → Memᴰ a (order_by key xs) → Memᴰ a xs
  unfolding order_by
  order→mem a [] m = m
  order→mem a (x ∷ xs) m = elim (Memᴰ.cases_cons (insert→mem a x _ m)) [
    | inl q ↦ Memᴰ.head q
    | inr n ↦ Memᴰ.tail (order→mem a xs n)
  ]

  pub mem→order : (a : A) (xs : List A) → Memᴰ a xs → Memᴰ a (order_by key xs)
  unfolding order_by
  mem→order a [] m = m
  mem→order a (x ∷ xs) m = elim (Memᴰ.cases_cons m) [
    | inl q ↦ mem→insert a x _ (Memᴰ.head q)
    | inr n ↦ mem→insert a x _ (Memᴰ.tail (mem→order a xs n))
  ]
