-- ===== src/Probe/Mac.antt =====
-- `normalizeMac`: one spelling for each MAC address.
use oblimap.Base.{
  ℕ, zero, suc, ◌+◌, ◌-◌, List, Option, none, some, false, ◌↔◌, sym, ◌≡◌, refl, Bool, true, ◌&&◌,
  ◌||◌, [], ◌∷◌, ◌==◌, leb, if◌then◌else◌, where_, length, map, Text, to_upper, arith, ap, ◌∙◌,
  Bool-cases, inl, inr,
}

-- `[0-9A-F]`
abbrev is_hex : ℕ → Bool
is_hex c = (leb b'0' c && leb c b'9') || (leb b'A' c && leb c b'F')

-- `clean.match(/.{2}/g).join(':')`, where the length is even
join_pairs : Text → Text
join_pairs [] = []
join_pairs (a ∷ []) = []
join_pairs (a ∷ b ∷ []) = a ∷ b ∷ []
join_pairs (a ∷ b ∷ c ∷ s) = a ∷ b ∷ b':' ∷ join_pairs (c ∷ s)

-- `mac.toUpperCase().replace(/[^0-9A-F]/g, '')`
clean : Text → Text
unfolding to_upper where_
clean mac = where_ is_hex (map to_upper mac)

unfoldable pub normalize_mac : Text → Text
unfolding clean join_pairs
normalize_mac mac = if length (clean mac) == 12 then join_pairs (clean mac) else map to_upper mac

to_upper_idem : (c : ℕ) → to_upper (to_upper c) ≡ to_upper c
unfolding to_upper
to_upper_idem c = ground arith

map-to_upper_idem : (s : Text) → map to_upper (map to_upper s) ≡ map to_upper s
map-to_upper_idem [] = refl
map-to_upper_idem (c ∷ s) = cc (to_upper_idem c, map-to_upper_idem s)

to_upper_hex : (c : ℕ) → is_hex c ≡ true → to_upper c ≡ c
unfolding to_upper
to_upper_hex c h = ground (arith, h)

-- Every character is a hexadecimal digit in upper case.
AreHex : Text → Type 0
AreHex [] = Unit
AreHex (c ∷ s) = (is_hex c ≡ true) × AreHex s

where_-AreHex : (s : Text) → AreHex (where_ is_hex s)
unfolding AreHex where_
where_-AreHex [] = tt
where_-AreHex (c ∷ s) = elim (Bool-cases (is_hex c)) [
  | inl e ↦ rw e (e, where_-AreHex s)
  | inr e ↦ rw e (where_-AreHex s)
]

clean-AreHex : (s : Text) → AreHex (clean s)
unfolding clean
clean-AreHex s = where_-AreHex (map to_upper s)

IsEven : Text → Type 0
IsEven [] = Unit
IsEven (a ∷ []) = ⊥
IsEven (a ∷ b ∷ s) = IsEven s

length-IsEven : (k : ℕ) (s : Text) → length s ≡ k + k → IsEven s
unfolding IsEven
length-IsEven zero [] h = tt
length-IsEven zero (a ∷ s) h = absurd (omega (arith, h))
length-IsEven (suc k) [] h = absurd (omega (arith, h))
length-IsEven (suc k) (a ∷ []) h = absurd (omega (arith, h))
length-IsEven (suc k) (a ∷ b ∷ s) h = length-IsEven k s (omega (arith, h))

clean_digit : (c : ℕ) (s : Text) → is_hex c ≡ true → clean (c ∷ s) ≡ c ∷ clean s
unfolding clean where_
clean_digit c s h = rw (to_upper_hex c h, h) refl

clean_nil : clean [] ≡ []
unfolding clean where_
clean_nil = refl

clean_upper : (s : Text) → clean (map to_upper s) ≡ clean s
unfolding clean
clean_upper s = ap (where_ is_hex) (map-to_upper_idem s)

clean_colon : (s : Text) → clean (b':' ∷ s) ≡ clean s
unfolding clean where_ to_upper
clean_colon s = refl

-- The colons go again, and the digits stay.
clean-join_pairs : (s : Text) → AreHex s → IsEven s → clean (join_pairs s) ≡ s
unfolding AreHex IsEven join_pairs
clean-join_pairs [] h e = clean_nil
clean-join_pairs (a ∷ []) h e = absurd e
clean-join_pairs (a ∷ b ∷ []) (p, (q, h)) e =
    clean_digit a (b ∷ []) p ∙ ap (λ t. a ∷ t) (clean_digit b [] q ∙ ap (λ t. b ∷ t) clean_nil)
clean-join_pairs (a ∷ b ∷ c ∷ s) (p, (q, h)) e =
    clean_digit a _ p
    ∙ ap (λ t. a ∷ t)
        (clean_digit b _ q ∙ ap (λ t. b ∷ t) (clean_colon _ ∙ clean-join_pairs (c ∷ s) h e))

-- A normalized address is not changed by normalizing it again.
pub normalize_mac_idem : (mac : Text) → normalize_mac (normalize_mac mac) ≡ normalize_mac mac
unfolding normalize_mac
normalize_mac_idem mac = elim (Bool-cases (length (clean mac) == 12)) [
  | inl e ↦
      let back : clean (join_pairs (clean mac)) ≡ clean mac =
        clean-join_pairs (clean mac) (clean-AreHex mac)
          (length-IsEven 6 (clean mac) (ground (arith, e))) in
      rw (e, back, e) refl
  | inr e ↦
      let same : clean (map to_upper mac) ≡ clean mac = clean_upper mac in
      rw (e, same, e) (map-to_upper_idem mac)
]

-- Addresses with the same twelve digits left after cleaning are written alike.
clean_iff :
    (a b : Text)
    → length (clean a) ≡ 12
    → length (clean b) ≡ 12
    → (normalize_mac a ≡ normalize_mac b) ↔ (clean a ≡ clean b)
unfolding normalize_mac
clean_iff a b h k =
    let canonical : (m : Text) → length (clean m) ≡ 12 → clean (join_pairs (clean m)) ≡ clean m =
      λ m e. clean-join_pairs (clean m) (clean-AreHex m) (length-IsEven 6 (clean m) e) in
    rw (h, k) (λ e. sym (canonical a h) ∙ (ap clean e ∙ canonical b k), λ e. ap join_pairs e)

-- The value of a hexadecimal digit, in either case.
abbrev pub hex_value : ℕ → Option ℕ
hex_value c =
    if leb b'0' c && leb c b'9'
    then some (c - b'0')
    else if leb b'A' c && leb c b'F'
    then some (c - b'A' + 10)
    else if leb b'a' c && leb c b'f'
    then some (c - b'a' + 10)
    else none

abbrev pub with_value : Option ℕ → List ℕ → List ℕ
with_value none vs = vs
with_value (some v) vs = v ∷ vs

-- The values of the hexadecimal digits of a text, in order; all else is skipped.
unfoldable pub hex_values : Text → List ℕ
hex_values [] = []
hex_values (c ∷ s) = with_value (hex_value c) (hex_values s)

-- The digit with a value, in upper case, and the value of such a digit.
abbrev digit : ℕ → ℕ
digit v = if leb v 9 then b'0' + v else b'A' + (v - 10)

abbrev undigit : ℕ → ℕ
undigit c = if leb c b'9' then c - b'0' else c - b'A' + 10

-- What one character adds to the cleaned text is the digit of its value.
Kept : Option ℕ → ℕ → Type 0
Kept none c = is_hex (to_upper c) ≡ false
Kept (some v) c = (is_hex (to_upper c) ≡ true) × (to_upper c ≡ digit v) × (undigit (digit v) ≡ v)

hex_value-Kept : (c : ℕ) → Kept (hex_value c) c
unfolding Kept to_upper
hex_value-Kept c = ground arith

clean-cons :
    (c : ℕ) (s : Text) (o : Option ℕ)
    → Kept o c
    → clean s ≡ map digit (hex_values s)
    → clean (c ∷ s) ≡ map digit (with_value o (hex_values s))
unfolding Kept clean where_
clean-cons c s none k h = rw k h
clean-cons c s (some v) (k, e, u) h = rw k (ap (λ x. x ∷ clean s) e ∙ ap (λ l. digit v ∷ l) h)

clean-hex_values : (s : Text) → clean s ≡ map digit (hex_values s)
unfolding hex_values
clean-hex_values [] = clean_nil
clean-hex_values (c ∷ s) = clean-cons c s (hex_value c) (hex_value-Kept c) (clean-hex_values s)

values_cons :
    (c : ℕ) (vs : List ℕ) (o : Option ℕ)
    → Kept o c
    → map undigit (map digit vs) ≡ vs
    → map undigit (map digit (with_value o vs)) ≡ with_value o vs
unfolding Kept
values_cons c vs none k h = h
values_cons c vs (some v) (k, e, u) h =
    ap (λ x. x ∷ map undigit (map digit vs)) u ∙ ap (λ l. v ∷ l) h

hex_values_back : (s : Text) → map undigit (map digit (hex_values s)) ≡ hex_values s
unfolding hex_values
hex_values_back [] = refl
hex_values_back (c ∷ s) =
    values_cons c (hex_values s) (hex_value c) (hex_value-Kept c) (hex_values_back s)

length-map : (f : ℕ → ℕ) (vs : List ℕ) → length (map f vs) ≡ length vs
length-map f [] = refl
length-map f (v ∷ vs) = ap suc (length-map f vs)

length-clean : (s : Text) → length (clean s) ≡ length (hex_values s)
length-clean s = ap length (clean-hex_values s) ∙ length-map digit (hex_values s)

-- Addresses with twelve hexadecimal digits are written alike exactly if their digits have the same values in
-- the same order, however they are separated and whichever case they have.
pub normalize_mac_iff :
    (a b : Text)
    → length (hex_values a) ≡ 12
    → length (hex_values b) ≡ 12
    → (normalize_mac a ≡ normalize_mac b) ↔ (hex_values a ≡ hex_values b)
normalize_mac_iff a b h k =
    let same = clean_iff a b (length-clean a ∙ h) (length-clean b ∙ k) in
    (
      λ e.
          sym (hex_values_back a)
          ∙ (ap (map undigit) (sym (clean-hex_values a) ∙ (same.0 e ∙ clean-hex_values b))
              ∙ hex_values_back b),
      λ e. same.1 (clean-hex_values a ∙ (ap (map digit) e ∙ sym (clean-hex_values b))),
    )
