-- ===== src/Base/Counts.antt =====
-- How many rows of a table pass a test.
use Prim.Native.Nat.{ℕ, ◌+◌, ◌≤◌}
use mathlib.Core.Path.{◌≡◌, refl, sym, ap, subst, ◌∙◌}
use mathlib.Core.Logic.{inl, inr}
use mathlib.Core.Bool.{Bool, true, false, not, ◌&&◌}
use mathlib.Core.Option.{none, some}
use mathlib.Core.List.{List, [], ◌∷◌, Memᴰ}
use native.Mathlib.Omega.{arith}
use oblimap.Base.Tests.{◌==◌, if◌then◌else◌, Bool-cases, ==_iff, ==_refl}
use oblimap.Base.Rows.{where_, first, update, length}

module _ {ℓ} {A : Type ℓ} where
  unfoldable pub count_where : (A → Bool) → List A → ℕ
  unfolding where_
  count_where test xs = length (where_ test xs)

  pub count-update :
      (p hit : A → Bool) (change : A → A) (xs : List A)
      → count_where p (update hit change xs)
        ≤ count_where p xs + count_where (λ x. hit x && p (change x)) xs
  unfolding count_where where_ update
  count-update p hit change [] = omega arith
  count-update p hit change (x ∷ xs) = ground (arith, count-update p hit change xs)

  pub count_mono :
      (p q : A → Bool) (xs : List A)
      → ((x : A) → p x ≡ true → q x ≡ true)
      → count_where p xs ≤ count_where q xs
  unfolding count_where where_
  count_mono p q [] h = omega arith
  count_mono p q (x ∷ xs) h = ground (arith, h x, count_mono p q xs h)

  pub count_disjoint :
      (p q r : A → Bool) (xs : List A)
      → ((x : A) → p x ≡ true → r x ≡ true)
      → ((x : A) → q x ≡ true → r x ≡ true)
      → ((x : A) → (p x && q x) ≡ false)
      → count_where p xs + count_where q xs ≤ count_where r xs
  unfolding count_where where_
  count_disjoint p q r [] f g d = omega arith
  count_disjoint p q r (x ∷ xs) f g d = ground (arith, f x, g x, d x, count_disjoint p q r xs f g d)

  pub mem-count :
      (test : A → Bool) (x : A) {xs : List A} → Memᴰ x xs → test x ≡ true → 1 ≤ count_where test xs
  unfolding count_where where_
  mem-count test x {xs = []} m t = elim m [ ]
  mem-count test x {xs = y ∷ ys} (Memᴰ.head e) t =
      let t' : test y ≡ true = subst (λ z. test z ≡ true) e t in ground (arith, t')
  mem-count test x {xs = y ∷ ys} (Memᴰ.tail m) t = ground (arith, mem-count test x m t)

  pub first→mem :
      (test : A → Bool) (x : A) (xs : List A) → first test xs ≡ some x → Memᴰ x xs × (test x ≡ true)
  unfolding first
  first→mem test x [] h = absurd (ground (arith, h))
  first→mem test x (y ∷ ys) h = elim (Bool-cases (test y)) [
    | inl e ↦
        let q : y ≡ x = ground (arith, rw e at h) in
        (Memᴰ.head (sym q), subst (λ z. test z ≡ true) q e)
    | inr e ↦ let (m, t) = first→mem test x ys (rw e at h) in (Memᴰ.tail m, t)
  ]

  pub first-none-count :
      (test : A → Bool) (xs : List A) → first test xs ≡ none → count_where test xs ≡ 0
  unfolding first count_where where_
  first-none-count test [] h = refl
  first-none-count test (x ∷ xs) h = elim (Bool-cases (test x)) [
    | inl e ↦ absurd (ground (arith, rw e at h))
    | inr e ↦ rw e (first-none-count test xs (rw e at h))
  ]

  -- A row whose id nobody else has.
  pub same_row :
      (id : A → ℕ) (x y : A) {xs : List A}
      → ((i : ℕ) → count_where (λ z. id z == i) xs ≤ 1)
      → Memᴰ x xs
      → Memᴰ y xs
      → id x ≡ id y
      → x ≡ y
  unfolding count_where where_
  same_row id x y {xs = []} u m n h = elim m [ ]
  same_row id x y {xs = z ∷ zs} u (Memᴰ.head e) (Memᴰ.head f) h = e ∙ sym f
  same_row id x y {xs = z ∷ zs} u (Memᴰ.head e) (Memᴰ.tail m) h =
      let q : (id z == id y) ≡ true = (==_iff _ _).1 (sym (ap id e) ∙ h) in
      absurd (ground (arith, u (id y), q, mem-count (λ w. id w == id y) y m (==_refl (id y))))
  same_row id x y {xs = z ∷ zs} u (Memᴰ.tail m) (Memᴰ.head f) h =
      let q : (id z == id x) ≡ true = (==_iff _ _).1 (sym (ap id f) ∙ sym h) in
      absurd (ground (arith, u (id x), q, mem-count (λ w. id w == id x) x m (==_refl (id x))))
  same_row id x y {xs = z ∷ zs} u (Memᴰ.tail m) (Memᴰ.tail n) h =
      same_row id x y (λ i. ground (arith, u i)) m n h

  pub update→mem :
      (hit : A → Bool) (change : A → A) (y : A) (xs : List A)
      → Memᴰ y (update hit change xs)
      → (x : A) × Memᴰ x xs × (y ≡ (if hit x then change x else x))
  unfolding update
  update→mem hit change y [] m = elim m [ ]
  update→mem hit change y (x ∷ xs) (Memᴰ.head e) = (x, Memᴰ.head refl, e)
  update→mem hit change y (x ∷ xs) (Memᴰ.tail m) =
      let (z, n, e) = update→mem hit change y xs m in (z, Memᴰ.tail n, e)

  pub mem→update :
      (hit : A → Bool) (change : A → A) (x : A) {xs : List A}
      → Memᴰ x xs
      → Memᴰ (if hit x then change x else x) (update hit change xs)
  unfolding update
  mem→update hit change x {xs = []} m = elim m [ ]
  mem→update hit change x {xs = y ∷ ys} (Memᴰ.head e) =
      Memᴰ.head (ap (λ z. if hit z then change z else z) e)
  mem→update hit change x {xs = y ∷ ys} (Memᴰ.tail m) = Memᴰ.tail (mem→update hit change x m)

  pub count-update_same :
      (p hit : A → Bool) (change : A → A) (xs : List A)
      → ((x : A) → p (change x) ≡ p x)
      → count_where p (update hit change xs) ≡ count_where p xs
  unfolding count_where where_ update
  count-update_same p hit change [] same = refl
  count-update_same p hit change (x ∷ xs) same =
      ground (arith, same x, count-update_same p hit change xs same)

  pub count_none : (p : A → Bool) (xs : List A) → ((x : A) → p x ≡ false) → count_where p xs ≡ 0
  unfolding count_where where_
  count_none p [] none_ = refl
  count_none p (x ∷ xs) none_ = ground (arith, none_ x, count_none p xs none_)

  -- Of the rows with the id of a row, only that row passes a test or not.
  pub count_row :
      (id : A → ℕ) (test : A → Bool) (x : A) (xs : List A)
      → ((i : ℕ) → count_where (λ z. id z == i) xs ≤ 1)
      → Memᴰ x xs
      → count_where (λ z. id z == id x && test z) xs ≡ (if test x then 1 else 0)
  count_row id test x xs u m = elim (Bool-cases (test x)) [
    | inl e ↦ rw e (
        omega (
          arith,
          u (id x),
          mem-count (λ z. id z == id x && test z) x m (ground (arith, e)),
          count_mono (λ z. id z == id x && test z) (λ z. id z == id x) xs
              (λ z h. ground (arith, h)),
        ))
    | inr e ↦ rw e (
        omega (
          arith,
          u (id x),
          mem-count (λ z. id z == id x && not (test z)) x m (ground (arith, e)),
          count_disjoint (λ z. id z == id x && test z) (λ z. id z == id x && not (test z))
              (λ z. id z == id x) xs (λ z h. ground (arith, h)) (λ z h. ground (arith, h))
              (λ z. ground arith),
        ))
  ]
