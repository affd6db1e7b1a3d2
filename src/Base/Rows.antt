-- ===== src/Base/Rows.antt =====
-- A table is the list of its rows. These are the queries that the services make of one.
use Prim.Native.Nat.{ℕ, zero, suc}
use mathlib.Core.Path.{◌≡◌, refl, subst}
use mathlib.Core.Logic.{inl, inr}
use mathlib.Core.Bool.{Bool, true, false, ◌&&◌, ◌||◌}
use mathlib.Core.Option.{Option, none, some}
use mathlib.Core.List.Memᴰ
use mathlib.Core.List.{List, [], ◌∷◌, ◌++◌, map, Memᴰ}
use native.Mathlib.Omega.{arith}
use oblimap.Base.Tests.{leb, ◌==◌, if◌then◌else◌, Bool-cases}

module _ {ℓ} {A : Type ℓ} where
  abbrev pub length : List A → ℕ
  length [] = 0
  length (x ∷ xs) = suc (length xs)

  abbrev pub take : ℕ → List A → List A
  take zero xs = []
  take (suc n) [] = []
  take (suc n) (x ∷ xs) = x ∷ take n xs

  -- `where(test)`
  unfoldable pub where_ : (A → Bool) → List A → List A
  where_ test [] = []
  where_ test (x ∷ xs) = if test x then x ∷ where_ test xs else where_ test xs

  -- Is there a row that passes the test?
  unfoldable pub any : (A → Bool) → List A → Bool
  any test [] = false
  any test (x ∷ xs) = test x || any test xs

  -- `where(test).first()`
  unfoldable pub first : (A → Bool) → List A → Option A
  first test [] = none
  first test (x ∷ xs) = if test x then some x else first test xs

  -- `where(test).update(change)`
  unfoldable pub update : (A → Bool) → (A → A) → List A → List A
  update test change [] = []
  update test change (x ∷ xs) = (if test x then change x else x) ∷ update test change xs

  unfoldable pub insert_by : (A → ℕ) → A → List A → List A
  insert_by key a [] = a ∷ []
  insert_by key a (x ∷ xs) = if leb (key a) (key x) then a ∷ x ∷ xs else x ∷ insert_by key a xs

  -- `orderBy(key, 'asc')`; rows with the same key keep their order.
  unfoldable pub order_by : (A → ℕ) → List A → List A
  unfolding insert_by
  order_by key [] = []
  order_by key (x ∷ xs) = insert_by key x (order_by key xs)

  unfoldable pub insert_by_desc : (A → ℕ) → A → List A → List A
  insert_by_desc key a [] = a ∷ []
  insert_by_desc key a (x ∷ xs) =
      if leb (key x) (key a) then a ∷ x ∷ xs else x ∷ insert_by_desc key a xs

  -- `orderBy(key, 'desc')`; rows with the same key keep their order.
  unfoldable pub order_by_desc : (A → ℕ) → List A → List A
  unfolding insert_by_desc
  order_by_desc key [] = []
  order_by_desc key (x ∷ xs) = insert_by_desc key x (order_by_desc key xs)

-- `ids.includes(n)`, `whereIn(column, ids)`
unfoldable pub elem : ℕ → List ℕ → Bool
elem n [] = false
elem n (x ∷ xs) = n == x || elem n xs

module _ {ℓ} {A : Type ℓ} where
  pub any→mem :
      (test : A → Bool) (xs : List A) → any test xs ≡ true → (x : A) × Memᴰ x xs × (test x ≡ true)
  unfolding any
  any→mem test [] h = absurd (ground arith)
  any→mem test (x ∷ xs) h = elim (Bool-cases (test x)) [
    | inl e ↦ (x, Memᴰ.head refl, e)
    | inr e ↦ let (y, m, t) = any→mem test xs (ground arith) in (y, Memᴰ.tail m, t)
  ]

  pub mem→any :
      (test : A → Bool) (x : A) {xs : List A} → Memᴰ x xs → test x ≡ true → any test xs ≡ true
  unfolding any
  mem→any test x (Memᴰ.head e) h = rw (← e, h)
  mem→any test x (Memᴰ.tail m) h = ground (arith, mem→any test x m h)

  pub any-eq-false :
      (test : A → Bool) (xs : List A) → ((x : A) → Memᴰ x xs → test x ≡ false) → any test xs ≡ false
  unfolding any
  any-eq-false test [] h = refl
  any-eq-false test (x ∷ xs) h =
      rw (h x (Memᴰ.head refl)) (any-eq-false test xs (λ y m. h y (Memᴰ.tail m)))

  pub mem→where_ :
      (test : A → Bool) (x : A) {xs : List A} → Memᴰ x xs → test x ≡ true → Memᴰ x (where_ test xs)
  unfolding where_
  mem→where_ test x (Memᴰ.head e) h = rw (← e, h) (Memᴰ.head refl)
  mem→where_ test x {xs = y ∷ ys} (Memᴰ.tail m) h = elim (Bool-cases (test y)) [
    | inl e ↦ rw e (Memᴰ.tail (mem→where_ test x m h))
    | inr e ↦ rw e (mem→where_ test x m h)
  ]

  pub where_→mem :
      (test : A → Bool) (x : A) (xs : List A)
      → Memᴰ x (where_ test xs)
      → Memᴰ x xs × (test x ≡ true)
  unfolding where_
  where_→mem test x [] m = elim m [ ]
  where_→mem test x (y ∷ xs) m = elim (Bool-cases (test y)) [
    | inl e ↦ elim (Memᴰ.cases_cons (rw e at m)) [
      | inl q ↦ (Memᴰ.head q, rw (q, e))
      | inr n ↦ let (n', t) = where_→mem test x xs n in (Memᴰ.tail n', t)
    ]
    | inr e ↦ let (n, t) = where_→mem test x xs (rw e at m) in (Memᴰ.tail n, t)
  ]

pub elem-append : (n : ℕ) (xs ys : List ℕ) → elem n (xs ++ ys) ≡ (elem n xs || elem n ys)
unfolding elem
elem-append n [] ys = refl
elem-append n (x ∷ xs) ys = ground (arith, elem-append n xs ys)

-- A column of a table holds `n` exactly if some row does.
pub elem-map {ℓ} :
    {A : Type ℓ} (column : A → ℕ) (n : ℕ) (xs : List A)
    → elem n (map column xs) ≡ any (λ x. n == column x) xs
unfolding elem any
elem-map column n [] = refl
elem-map column n (x ∷ xs) = ground (arith, elem-map column n xs)

-- A column of selected rows.
pub elem-map-where_ {ℓ} :
    {A : Type ℓ} (column : A → ℕ) (test : A → Bool) (n : ℕ) (xs : List A)
    → elem n (map column (where_ test xs)) ≡ any (λ x. test x && n == column x) xs
unfolding elem any where_
elem-map-where_ column test n [] = refl
elem-map-where_ column test n (x ∷ xs) = ground (arith, elem-map-where_ column test n xs)

pub any-append {ℓ} :
    {A : Type ℓ} (test : A → Bool) (xs ys : List A)
    → any test (xs ++ ys) ≡ (any test xs || any test ys)
unfolding any
any-append test [] ys = refl
any-append test (x ∷ xs) ys = ground (arith, any-append test xs ys)

module _ {ℓ κ μ} {A : Type ℓ} {B : Type κ} {C : Type μ} where
  -- `CROSS JOIN`
  unfoldable pub pairs : (A → B → C) → List A → List B → List C
  pairs f [] ys = []
  pairs f (x ∷ xs) ys = map (f x) ys ++ pairs f xs ys

  pub pairs→mem :
      (f : A → B → C) (c : C) (xs : List A) (ys : List B)
      → Memᴰ c (pairs f xs ys)
      → (x : A) × (y : B) × Memᴰ x xs × Memᴰ y ys × (f x y ≡ c)
  unfolding pairs
  pairs→mem f c [] ys m = elim m [ ]
  pairs→mem f c (x ∷ xs) ys m = elim (Memᴰ.append_cases (map (f x) ys) m) [
    | inl n ↦ let (y, h, e) = Memᴰ.of_map (f x) ys n in (x, y, Memᴰ.head refl, h, e)
    | inr n ↦ let (x', y, h, k, e) = pairs→mem f c xs ys n in (x', y, Memᴰ.tail h, k, e)
  ]

  pub mem→pairs :
      (f : A → B → C) (x : A) (y : B) {xs : List A} {ys : List B}
      → Memᴰ x xs
      → Memᴰ y ys
      → Memᴰ (f x y) (pairs f xs ys)
  unfolding pairs
  mem→pairs f x y {xs = []} h k = elim h [ ]
  mem→pairs f x y {xs = x' ∷ xs} {ys} (Memᴰ.head e) k =
      Memᴰ.append_left _ (subst (λ z. Memᴰ (f x y) (map (f z) ys)) e (Memᴰ.map (f x) k))
  mem→pairs f x y {xs = x' ∷ xs} {ys} (Memᴰ.tail h) k =
      Memᴰ.append_right (map (f x') ys) (mem→pairs f x y h k)

pub where_-where_ {ℓ} :
    {A : Type ℓ} (p q : A → Bool) (xs : List A)
    → where_ q (where_ p xs) ≡ where_ (λ x. p x && q x) xs
unfolding where_
where_-where_ p q [] = refl
where_-where_ p q (x ∷ xs) = ground (arith, where_-where_ p q xs)

module _ {ℓ κ} {A : Type ℓ} {B : Type κ} where
  -- `JOIN … ON on`
  unfoldable pub join : (A → B → Bool) → List A → List B → List (A × B)
  unfolding where_ pairs
  join on xs ys = where_ (λ r. on r.0 r.1) (pairs (λ x y. (x, y)) xs ys)

  pub join→mem :
      (on : A → B → Bool) (r : A × B) (xs : List A) (ys : List B)
      → Memᴰ r (join on xs ys)
      → Memᴰ r.0 xs × Memᴰ r.1 ys × (on r.0 r.1 ≡ true)
  unfolding join
  join→mem on r xs ys m =
      let (n, t) = where_→mem (λ r. on r.0 r.1) r (pairs (λ x y. (x, y)) xs ys) m in
      let (x, y, h, k, e) = pairs→mem (λ x y. (x, y)) r xs ys n in
      (subst (λ r. Memᴰ r.0 xs) e h, subst (λ r. Memᴰ r.1 ys) e k, t)

  pub mem→join :
      (on : A → B → Bool) (x : A) (y : B) {xs : List A} {ys : List B}
      → Memᴰ x xs
      → Memᴰ y ys
      → on x y ≡ true
      → Memᴰ (x, y) (join on xs ys)
  unfolding join
  mem→join on x y h k t = mem→where_ (λ r. on r.0 r.1) (x, y) (mem→pairs (λ x y. (x, y)) x y h k) t

-- A value is in a column of the selected rows exactly if some selected row has it there.
pub column→mem {ℓ} :
    {A : Type ℓ} (column : A → ℕ) (test : A → Bool) (n : ℕ) (xs : List A)
    → elem n (map column (where_ test xs)) ≡ true
    → (x : A) × Memᴰ x xs × (test x ≡ true) × (n ≡ column x)
column→mem column test n xs h =
    let (x, m, t) =
      any→mem (λ x. test x && n == column x) xs (rw (elem-map-where_ column test n xs) at h) in
    (x, m, ground (arith, t), ground (arith, t))

pub mem→column {ℓ} :
    {A : Type ℓ} (column : A → ℕ) (test : A → Bool) (x : A) {xs : List A}
    → Memᴰ x xs
    → test x ≡ true
    → elem (column x) (map column (where_ test xs)) ≡ true
mem→column column test x {xs} m t =
    rw (elem-map-where_ column test (column x) xs)
      (mem→any (λ y. test y && column x == column y) x m (ground (arith, t)))
