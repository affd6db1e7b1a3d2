-- ===== src/Base/Descending.antt =====
-- Laws of `orderBy(key, 'desc')`: the rows are the same, and none is below a later one.
use Prim.Native.Nat.{ℕ, ◌≤◌}
use mathlib.Core.Logic.{inl, inr}
use mathlib.Core.List.{List, [], ◌∷◌, Memᴰ}
use mathlib.Core.List.Memᴰ
use native.Mathlib.Omega.{arith}
use oblimap.Base.Tests.{leb, Bool-cases}
use oblimap.Base.Rows.{insert_by_desc, order_by_desc}

module _ {ℓ} {A : Type ℓ} (key : A → ℕ) where
  -- No row of the list has a greater key.
  abbrev pub Greatest : ℕ → List A → Type 0
  Greatest k [] = Unit
  Greatest k (x ∷ xs) = (key x ≤ k) × Greatest k xs

  pub greatest→le : (k : ℕ) (x : A) {xs : List A} → Memᴰ x xs → Greatest k xs → key x ≤ k
  greatest→le k x (Memᴰ.head e) h = rw e h.0
  greatest→le k x (Memᴰ.tail m) h = greatest→le k x m h.1

  Greatest-mono : (j k : ℕ) (xs : List A) → j ≤ k → Greatest j xs → Greatest k xs
  Greatest-mono j k [] le h = tt
  Greatest-mono j k (x ∷ xs) le h = (omega arith, Greatest-mono j k xs le h.1)

  abbrev pub IsDescending : List A → Type 0
  IsDescending [] = Unit
  IsDescending (x ∷ xs) = Greatest (key x) xs × IsDescending xs

  Greatest-insert :
      (k : ℕ) (x : A) (xs : List A)
      → key x ≤ k
      → Greatest k xs
      → Greatest k (insert_by_desc key x xs)
  unfolding insert_by_desc
  Greatest-insert k x [] le h = (le, tt)
  Greatest-insert k x (y ∷ xs) le h = ground (arith, Greatest-insert k x xs le h.1)

  IsDescending-insert :
      (x : A) (xs : List A) → IsDescending xs → IsDescending (insert_by_desc key x xs)
  unfolding insert_by_desc
  IsDescending-insert x [] h = (tt, tt)
  IsDescending-insert x (y ∷ xs) h = elim (Bool-cases (leb (key y) (key x))) [
    | inl e ↦ rw e ((ground arith, Greatest-mono (key y) (key x) xs (ground arith) h.0), h)
    | inr e ↦ rw e (Greatest-insert (key y) x xs (ground arith) h.0, IsDescending-insert x xs h.1)
  ]

  pub order_by_desc-IsDescending : (xs : List A) → IsDescending (order_by_desc key xs)
  unfolding order_by_desc
  order_by_desc-IsDescending [] = tt
  order_by_desc-IsDescending (x ∷ xs) = IsDescending-insert x _ (order_by_desc-IsDescending xs)

  insert_desc→mem : (a x : A) (xs : List A) → Memᴰ a (insert_by_desc key x xs) → Memᴰ a (x ∷ xs)
  unfolding insert_by_desc
  insert_desc→mem a x [] m = m
  insert_desc→mem a x (y ∷ xs) m = elim (Bool-cases (leb (key y) (key x))) [
    | inl e ↦ rw e at m
    | inr e ↦ elim (Memᴰ.cases_cons (rw e at m)) [
      | inl q ↦ Memᴰ.tail (Memᴰ.head q)
      | inr n ↦ elim (Memᴰ.cases_cons (insert_desc→mem a x xs n)) [
        | inl q ↦ Memᴰ.head q
        | inr k ↦ Memᴰ.tail (Memᴰ.tail k)
      ]
    ]
  ]

  mem→insert_desc : (a x : A) (xs : List A) → Memᴰ a (x ∷ xs) → Memᴰ a (insert_by_desc key x xs)
  unfolding insert_by_desc
  mem→insert_desc a x [] m = m
  mem→insert_desc a x (y ∷ xs) m = elim (Bool-cases (leb (key y) (key x))) [
    | inl e ↦ rw e m
    | inr e ↦ rw e (elim (Memᴰ.cases_cons m) [
      | inl q ↦ Memᴰ.tail (mem→insert_desc a x xs (Memᴰ.head q))
      | inr n ↦ elim (Memᴰ.cases_cons n) [
        | inl q ↦ Memᴰ.head q
        | inr k ↦ Memᴰ.tail (mem→insert_desc a x xs (Memᴰ.tail k))
      ]
    ])
  ]

  pub order_desc→mem : (a : A) (xs : List A) → Memᴰ a (order_by_desc key xs) → Memᴰ a xs
  unfolding order_by_desc
  order_desc→mem a [] m = m
  order_desc→mem a (x ∷ xs) m = elim (Memᴰ.cases_cons (insert_desc→mem a x _ m)) [
    | inl q ↦ Memᴰ.head q
    | inr n ↦ Memᴰ.tail (order_desc→mem a xs n)
  ]

  pub mem→order_desc : (a : A) (xs : List A) → Memᴰ a xs → Memᴰ a (order_by_desc key xs)
  unfolding order_by_desc
  mem→order_desc a [] m = m
  mem→order_desc a (x ∷ xs) m = elim (Memᴰ.cases_cons m) [
    | inl q ↦ mem→insert_desc a x _ (Memᴰ.head q)
    | inr n ↦ mem→insert_desc a x _ (Memᴰ.tail (mem→order_desc a xs n))
  ]
