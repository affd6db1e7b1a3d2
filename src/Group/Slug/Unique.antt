-- ===== src/Group/Slug/Unique.antt =====
-- The search for a slug ends, and its slug is free.
use mathlib.Core.List.{append_cancel_left, append-nil, tail-eq_of_cons-eq}
use oblimap.Base.{
  ℕ, zero, suc, ◌≤◌, ◌<◌, ◌≡◌, ◌≢◌, refl, sym, ap, ◌∙◌, true, false, not, ◌||◌, Option, some, List,
  [], ◌∷◌, ◌=ᵗ◌, text_eq→≡, where_, any, length, Text, codes, arith, Bool-cases, inl, inr,
}
use oblimap.Group.{Group}
use oblimap.Group.Slug.{has_slug, candidate, search_slug, ensure_unique_slug}

-- Dropping the rows with one slug changes no test for another.
any_other :
    (x : Option ℕ) (s t : Text) (groups : List Group)
    → t ≢ s
    → any (has_slug x t) (where_ (λ g. not (has_slug x s g)) groups) ≡ any (has_slug x t) groups
unfolding any where_
any_other x s t [] d = refl
any_other x s t (g ∷ gs) d = elim (Bool-cases (has_slug x s g)) [
  | inl e ↦
      let same : codes g.slug ≡ s = text_eq→≡ _ _ (ground (arith, e)) in
      let apart : (codes g.slug =ᵗ t) ≡ false = elim (Bool-cases (codes g.slug =ᵗ t)) [
        | inl q ↦ absurd (d (sym (text_eq→≡ _ _ q) ∙ same))
        | inr q ↦ q
      ] in
      rw e (ground (arith, apart, any_other x s t gs d))
  | inr e ↦ rw e (ap (λ b. has_slug x t g || b) (any_other x s t gs d))
]

no_more :
    (x : Option ℕ) (s : Text) (groups : List Group)
    → length (where_ (λ g. not (has_slug x s g)) groups) ≤ length groups
unfolding where_
no_more x s [] = omega arith
no_more x s (g ∷ gs) = ground (arith, no_more x s gs)

fewer :
    (x : Option ℕ) (s : Text) (groups : List Group)
    → any (has_slug x s) groups ≡ true
    → length (where_ (λ g. not (has_slug x s g)) groups) < length groups
unfolding any where_
fewer x s [] h = absurd (ground (arith, h))
fewer x s (g ∷ gs) h = elim (Bool-cases (has_slug x s g)) [
  | inl e ↦ rw e (omega (arith, no_more x s gs))
  | inr e ↦ rw e (omega (arith, fewer x s gs (ground (arith, h, e))))
]

module _ (print : ℕ → Text) (injective : (i j : ℕ) → print i ≡ print j → i ≡ j) where
  candidate_apart :
      (slug : Text) (i j : ℕ) → i < j → candidate print slug j ≢ candidate print slug i
  unfolding candidate
  candidate_apart slug i zero h e = absurd (omega (arith, h))
  candidate_apart slug zero (suc j) h e =
      let more : b'-' ∷ print (suc j) ≡ [] =
        append_cancel_left slug (b'-' ∷ print (suc j)) [] (e ∙ sym (append-nil slug)) in
      absurd (ground (arith, more))
  candidate_apart slug (suc i) (suc j) h e =
      let same : suc j ≡ suc i =
        injective (suc j) (suc i) (tail-eq_of_cons-eq (append_cancel_left slug _ _ e)) in
      absurd (omega (arith, same, h))

  -- Rows with an earlier candidate do not matter to the search.
  search_skip :
      (fuel : ℕ) (x : Option ℕ) (slug : Text) (i j : ℕ) (groups : List Group)
      → i < j
      → search_slug print fuel x slug j
          (where_ (λ g. not (has_slug x (candidate print slug i) g)) groups)
        ≡ search_slug print fuel x slug j groups
  unfolding search_slug
  search_skip zero x slug i j groups h = refl
  search_skip (suc fuel) x slug i j groups h =
      rw
        (
          any_other x (candidate print slug i) (candidate print slug j) groups
              (candidate_apart slug i j h),
          search_skip fuel x slug i (suc j) groups (omega (arith, h)),
        )
        refl

  search_finds :
      (fuel : ℕ) (x : Option ℕ) (slug : Text) (i : ℕ) (groups : List Group)
      → length groups < fuel
      → (j : ℕ) × (i ≤ j)
        × (search_slug print fuel x slug i groups ≡ some (candidate print slug j))
        × (any (has_slug x (candidate print slug j)) groups ≡ false)
  unfolding search_slug
  search_finds zero x slug i groups h = absurd (omega (arith, h))
  search_finds (suc fuel) x slug i groups h =
      elim (Bool-cases (any (has_slug x (candidate print slug i)) groups)) [
        | inr free ↦ (i, omega arith, rw free refl, free)
        | inl taken ↦
            let rest = where_ (λ g. not (has_slug x (candidate print slug i) g)) groups in
            let (j, le, found, free) =
              search_finds fuel x slug (suc i) rest
                (omega (arith, h, fewer x (candidate print slug i) groups taken)) in
            (
              j,
              omega (arith, le),
              rw taken (sym (search_skip fuel x slug i (suc i) groups (omega arith)) ∙ found),
              sym (
                    any_other x (candidate print slug i) (candidate print slug j) groups
                      (candidate_apart slug i j (omega (arith, le))))
                  ∙ free,
            )
      ]

  -- If different numbers are printed differently, `ensureUniqueSlug` ends after at most one round for each group and one
  -- more, and no group but the excluded one has the slug that it returns.
  pub ensure_unique_slug-free :
      (x : Option ℕ) (slug : Text) (groups : List Group)
      → (s : Text) × (ensure_unique_slug print x slug groups ≡ some s)
        × (any (has_slug x s) groups ≡ false)
  unfolding ensure_unique_slug
  ensure_unique_slug-free x slug groups =
      let (j, le, found, free) = search_finds (suc (length groups)) x slug 0 groups (omega arith) in
      (candidate print slug j, found, free)
