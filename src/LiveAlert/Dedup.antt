-- ===== src/LiveAlert/Dedup.antt =====
-- Repeated alerts are not stored twice.
use text.Mathlib.Text.{◌==◌ as str_eq}
use text.Mathlib.TextEquality.{eq_iff}
use oblimap.Base.{
  ℕ, ◌≤◌, ◌≡◌, refl, ap, subst, Bool, true, false, not, ◌&&◌, Option, none, some, List, [], ◌∷◌,
  ◌==◌, ==_iff, where_, any, length, String, arith, Bool-cases, inl, inr,
}
use oblimap.LiveAlert.{LiveAlert, NewAlert, has_key, unread_with, is_repeated, trim, new_alert, add}

-- No tenant has two unread alerts with the same key, where the key is not empty.
unfoldable pub IsDeduplicated : List LiveAlert → Type 0
IsDeduplicated alerts =
    (t : ℕ) (key : String) → str_eq key "" ≡ false → length (where_ (unread_with t key) alerts) ≤ 1

none_left :
    (test : LiveAlert → Bool) (xs : List LiveAlert)
    → any test xs ≡ false
    → length (where_ test xs) ≡ 0
unfolding any where_
none_left test [] h = refl
none_left test (x ∷ xs) h = ground (arith, h, none_left test xs)

fewer :
    (p q : LiveAlert → Bool) (xs : List LiveAlert)
    → length (where_ p (where_ q xs)) ≤ length (where_ p xs)
unfolding where_
fewer p q [] = omega arith
fewer p q (x ∷ xs) = ground (arith, fewer p q xs)

matching :
    (t k : ℕ) (key : String) (o : Option String)
    → ((t == k) && (has_key key o && true)) ≡ true
    → (t ≡ k) × (o ≡ some key)
matching t k key none h = absurd (ground (arith, h))
matching t k key (some s) h =
    ((==_iff t k).0 (ground (arith, h)), ap some ((eq_iff s key).0 (ground (arith, h))))

inserted-IsDeduplicated :
    (id now tenant : ℕ) (opts : NewAlert) (alerts : List LiveAlert)
    → is_repeated tenant opts.stable_key alerts ≡ false
    → IsDeduplicated alerts
    → IsDeduplicated (new_alert id now tenant opts ∷ alerts)
unfolding IsDeduplicated where_ new_alert is_repeated
inserted-IsDeduplicated id now tenant opts alerts fresh d t key real =
    elim (Bool-cases (unread_with t key (new_alert id now tenant opts))) [
      | inl e ↦
          let (same, stored) = matching tenant t key opts.stable_key e in
          let clear : (not (str_eq key "") && any (unread_with tenant key) alerts) ≡ false =
            subst (λ o. is_repeated tenant o alerts ≡ false) stored fresh in
          let absent : any (unread_with t key) alerts ≡ false =
            subst (λ k. any (unread_with k key) alerts ≡ false) same
              (ground (arith, clear, real)) in
          ground (arith, e, none_left (unread_with t key) alerts absent)
      | inr e ↦ ground (arith, e, d t key real)
    ]

-- If no tenant has two unread alerts with the same key that is not empty, none has after `add`.
pub add-IsDeduplicated :
    (id now tenant : ℕ) (opts : NewAlert) (alerts : List LiveAlert)
    → IsDeduplicated alerts
    → IsDeduplicated (add id now tenant opts alerts).1
unfolding add trim IsDeduplicated
add-IsDeduplicated id now tenant opts alerts d t key real =
    elim (Bool-cases (is_repeated tenant opts.stable_key alerts)) [
      | inl again ↦ rw again (d t key real)
      | inr fresh ↦ rw fresh (
          omega (
            arith,
            fewer (unread_with t key) _ (new_alert id now tenant opts ∷ alerts),
            inserted-IsDeduplicated id now tenant opts alerts fresh d t key real,
          ))
    ]
