-- ===== src/Notification/Effect.antt =====
-- `_applyBindings` as a formula: which channels remain after one level of bindings.
use oblimap.Base.{
  ℕ, ◌≡◌, refl, ◌∙◌, Bool, true, false, not, ◌&&◌, ◌||◌, List, [], ◌∷◌, ◌==◌, if◌then◌else◌, any,
  elem, elem-set_add, elem-set_delete, set_add, set_delete, arith, Bool-cases, inl, inr,
}
use oblimap.Notification.{Binding, is_replace, is_exclude, add_bound, drop_excluded, apply_bindings}

-- The level has a merge or replace binding of the channel.
abbrev pub binds : ℕ → List Binding → Bool
binds c = any (λ b. not (is_exclude b.override_mode) && c == b.channel_id)

-- The level excludes the channel.
abbrev pub excludes : ℕ → List Binding → Bool
excludes c = any (λ b. is_exclude b.override_mode && c == b.channel_id)

-- The level discards what it inherits.
abbrev pub replaces : List Binding → Bool
replaces = any (λ b. is_replace b.override_mode)

elem-add_bound :
    (c : ℕ) (bs : List Binding) (ids : List ℕ)
    → elem c (add_bound bs ids) ≡ (binds c bs || elem c ids)
unfolding add_bound any
elem-add_bound c [] ids = refl
elem-add_bound c (b ∷ bs) ids = elim (Bool-cases (is_exclude b.override_mode)) [
  | inl out ↦ ground (arith, out, elem-add_bound c bs ids)
  | inr kept ↦
      ground (
        arith,
        kept,
        elem-add_bound c bs (set_add b.channel_id ids),
        elem-set_add c b.channel_id ids,
      )
]

elem-drop_excluded :
    (c : ℕ) (bs : List Binding) (ids : List ℕ)
    → elem c (drop_excluded bs ids) ≡ (not (excludes c bs) && elem c ids)
unfolding drop_excluded any
elem-drop_excluded c [] ids = refl
elem-drop_excluded c (b ∷ bs) ids = elim (Bool-cases (is_exclude b.override_mode)) [
  | inl out ↦ ground (
    arith,
    out,
    elem-drop_excluded c bs (set_delete b.channel_id ids),
    elem-set_delete c b.channel_id ids,
  )
  | inr kept ↦ ground (arith, kept, elem-drop_excluded c bs ids)
]

elem-kept :
    (c : ℕ) (ids : List ℕ) (fresh : Bool)
    → elem c (if fresh then [] else ids) ≡ (not fresh && elem c ids)
unfolding elem
elem-kept c ids true = refl
elem-kept c ids false = refl

-- After a level of bindings a channel fires exactly if the level does not exclude it, and either
-- binds it, or inherits it with no replace binding among its own.
pub elem-apply_bindings :
    (c : ℕ) (ids : List ℕ) (bs : List Binding)
    → elem c (apply_bindings ids bs)
      ≡ (not (excludes c bs) && (binds c bs || not (replaces bs) && elem c ids))
unfolding apply_bindings any elem
elem-apply_bindings c ids [] = refl
elem-apply_bindings c ids (b ∷ bs) =
    elem-drop_excluded c (b ∷ bs) _
    ∙ rw
        (
          elem-add_bound c (b ∷ bs) (if replaces (b ∷ bs) then [] else ids),
          elem-kept c ids (replaces (b ∷ bs)),
        )
        refl
