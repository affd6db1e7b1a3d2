-- ===== src/Notification/Agreement.antt =====
-- The sets of channels that fire and the views with sources are built by different code. Here each
-- step of the one agrees with the step of the other.
use oblimap.Base.{
  ℕ, ◌≡◌, refl, Bool, false, not, ◌&&◌, Option, some, List, [], ◌∷◌, ◌==◌, if◌then◌else◌, any, elem,
  elem-set_add, elem-set_delete, String, arith, Bool-cases, inl, inr,
}
use oblimap.Group.{Hierarchy}
use oblimap.Notification.{
  Scope, Binding, is_replace, add_bound, drop_excluded, apply_bindings, apply_groups, get_bindings,
  group,
}
use oblimap.Notification.Sources.{
  SourceInfo, View, put_info, mark_excluded, put_bound, mark_bound, apply_with_sources,
  groups_with_sources, info_of,
}

-- The view shows the channel, and not as excluded.
abbrev pub active : ℕ → List SourceInfo → Bool
active c [] = false
active c (x ∷ xs) = if x.channel_id == c then not x.is_excluded else active c xs

-- The channels of a set are the active ones of a view.
abbrev pub Agrees : List ℕ → View → Type 0
Agrees ids v = (c : ℕ) → elem c ids ≡ active c v.result

active-put_info :
    (c : ℕ) (info : SourceInfo) (xs : List SourceInfo)
    → active c (put_info info xs)
      ≡ (if info.channel_id == c then not info.is_excluded else active c xs)
unfolding put_info
active-put_info c info [] = refl
active-put_info c info (x ∷ xs) = ground (arith, active-put_info c info xs)

active-mark_excluded :
    (c d : ℕ) (xs : List SourceInfo) → active c (mark_excluded d xs) ≡ (not (c == d) && active c xs)
unfolding mark_excluded
active-mark_excluded c d [] = ground arith
active-mark_excluded c d (x ∷ xs) = ground (arith, active-mark_excluded c d xs)

module _ (source : Scope) (source_id : Option ℕ) (name : String) (is_direct : Bool) where
  bound-Agrees :
      (bs : List Binding) (ids : List ℕ) (v : View)
      → Agrees ids v
      → Agrees (add_bound bs ids) (put_bound source source_id name is_direct bs v)
  unfolding add_bound put_bound
  bound-Agrees [] ids v h = h
  bound-Agrees (b ∷ bs) ids v h = bound-Agrees bs _ _ λ c. ground (
    arith,
    h c,
    elem-set_add c b.channel_id ids,
    active-put_info c (info_of source source_id name is_direct b) v.result,
  )

  mark-Agrees :
      (bs : List Binding) (ids : List ℕ) (v : View)
      → Agrees ids v
      → Agrees (drop_excluded bs ids) (mark_bound source source_id name is_direct bs v)
  unfolding drop_excluded mark_bound
  mark-Agrees [] ids v h = h
  mark-Agrees (b ∷ bs) ids v h = mark-Agrees bs _ _ λ c.
      ground (
        arith,
        h c,
        elem-set_delete c b.channel_id ids,
        active-mark_excluded c b.channel_id v.result,
      )

  pub apply-Agrees :
      (bs : List Binding) (ids : List ℕ) (v : View)
      → Agrees ids v
      → Agrees (apply_bindings ids bs) (apply_with_sources source source_id name is_direct bs v)
  unfolding apply_bindings apply_with_sources elem
  apply-Agrees [] ids v h = h
  apply-Agrees (b ∷ bs) ids v h = mark-Agrees (b ∷ bs) _ _ (bound-Agrees (b ∷ bs) _ _ kept)
    where
      kept : Agrees (if any (λ x. is_replace x.override_mode) (b ∷ bs) then [] else ids) (
          if any (λ x. is_replace x.override_mode) (b ∷ bs)
          then record { result = []; excluded_set = [] }
          else v)
      kept = elim (Bool-cases (any (λ x. is_replace x.override_mode) (b ∷ bs))) [
        | inl r ↦ rw r (λ c. refl)
        | inr n ↦ rw n h
      ]

module _ (print : ℕ → String) (table : List Binding) (h : Hierarchy) where
  pub groups-Agrees :
      (gs ids : List ℕ) (v : View)
      → Agrees ids v
      → Agrees (apply_groups table gs ids) (groups_with_sources print table h gs v)
  unfolding apply_groups groups_with_sources
  groups-Agrees [] ids v k = k
  groups-Agrees (g ∷ gs) ids v k =
      groups-Agrees gs _ _
        (apply-Agrees group (some g) _ false (get_bindings table group (some g)) ids v k)
