-- ===== src/Base/Texts.antt =====
-- JavaScript strings that a service takes apart, as the lists of their code units.
use Prim.Native.Nat.{ℕ, ◌+◌, ◌-◌}
use mathlib.Core.Path.{◌≡◌, refl}
use mathlib.Core.Bool.{Bool, true, false, ◌&&◌, ◌||◌}
use mathlib.Core.Option.{Option, none, some}
use mathlib.Core.List.{List, [], ◌∷◌}
use native.Mathlib.Omega.{arith}
use Prim.Native.Char.{code}
use Prim.Native.String.{String}
use oblimap.Base.Tests.{leb, ◌==◌, if◌then◌else◌, ==_iff, ==_refl}

abbrev pub Text : Type 0
Text = List ℕ

-- The code units of a literal in ASCII.
abbrev pub codes : String → Text
codes String.[] = []
codes (String.◌∷◌ c s) = code c ∷ codes s

-- `a === b`
infix 50 ◌=ᵗ◌
abbrev pub ◌=ᵗ◌ : Text → Text → Bool
[] =ᵗ [] = true
[] =ᵗ (d ∷ t) = false
(c ∷ s) =ᵗ [] = false
(c ∷ s) =ᵗ (d ∷ t) = c == d && s =ᵗ t

pub text_eq→≡ : (s t : Text) → (s =ᵗ t) ≡ true → s ≡ t
text_eq→≡ [] [] h = refl
text_eq→≡ [] (d ∷ t) h = absurd (ground (arith, h))
text_eq→≡ (c ∷ s) [] h = absurd (ground (arith, h))
text_eq→≡ (c ∷ s) (d ∷ t) h =
    let e : c ≡ d = (==_iff c d).0 (ground (arith, h)) in
    let p : s ≡ t = text_eq→≡ s t (ground (arith, h)) in cc (e, p)

pub text_eq_refl : (s : Text) → (s =ᵗ s) ≡ true
text_eq_refl [] = refl
text_eq_refl (c ∷ s) = ground (arith, ==_refl c, text_eq_refl s)

-- A text in a nullable column against a nullable text.
infix 50 ◌=ᵗ?◌
abbrev pub ◌=ᵗ?◌ : Option Text → Option Text → Bool
none =ᵗ? none = true
none =ᵗ? some t = false
some s =ᵗ? none = false
some s =ᵗ? some t = s =ᵗ t

abbrev pub is_lower : ℕ → Bool
is_lower c = leb b'a' c && leb c b'z'

abbrev pub is_upper : ℕ → Bool
is_upper c = leb b'A' c && leb c b'Z'

-- `toUpperCase` and `toLowerCase` of one letter; letters outside ASCII stay as they are.
unfoldable pub to_upper : ℕ → ℕ
to_upper c = if is_lower c then c - 32 else c

unfoldable pub to_lower : ℕ → ℕ
to_lower c = if is_upper c then c + 32 else c

-- `text.startsWith(prefix)`
unfoldable pub starts_with : Text → Text → Bool
starts_with [] s = true
starts_with (c ∷ p) [] = false
starts_with (c ∷ p) (d ∷ s) = c == d && starts_with p s

-- `text.includes(part)`
unfoldable pub includes : Text → Text → Bool
unfolding starts_with
includes part [] = starts_with part []
includes part (c ∷ s) = starts_with part (c ∷ s) || includes part s
