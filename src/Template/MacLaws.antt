-- ===== src/Template/MacLaws.antt =====
-- The `mac` filter of playbook_template.py.
use models_utils.Prelude.{
  ℕ, zero, suc, ◌-◌, ◌≡◌, refl, sym, ◌∙◌, ap, true, false, some, [], ◌∷◌, nat_beq, Text, length,
  keep_if, All, arith, Bool-cases, Option-cases, inl, inr,
}
use models_utils.Template.Errors.{ok}
use models_utils.Template.Filters.{
  is_hex, hex_upper, hex_lower, each, spaced, MacStyle, colon, dash, dot, bare, mac_style?,
  mac_text, mac_filter,
}

abbrev AreHex : Text → Type 0
AreHex s = All (λ c. is_hex c ≡ true) s

keep_if-AreHex : (s : Text) → AreHex (keep_if is_hex s)
keep_if-AreHex [] = tt
keep_if-AreHex (c ∷ s) = elim (Bool-cases (is_hex c)) [
  | inl e ↦ rw e (e, keep_if-AreHex s)
  | inr e ↦ rw e (keep_if-AreHex s)
]

keep_if-spaced :
    (sep : ℕ) (size left : ℕ) (s : Text)
    → is_hex sep ≡ false
    → AreHex s
    → keep_if is_hex (spaced (sep ∷ []) size left s) ≡ s
unfolding spaced
keep_if-spaced sep size left [] n h = refl
keep_if-spaced sep size zero (c ∷ s) n (h, hs) =
    rw (n, h, keep_if-spaced sep size (size - 1) s n hs)
keep_if-spaced sep size (suc left) (c ∷ s) n (h, hs) = rw (h, keep_if-spaced sep size left s n hs)

keep_if-same : (s : Text) → AreHex s → keep_if is_hex s ≡ s
keep_if-same [] h = refl
keep_if-same (c ∷ s) (h, hs) = rw (h, keep_if-same s hs)

module _ (f : ℕ → ℕ) where
  each-AreHex :
      (s : Text) → ((c : ℕ) → is_hex c ≡ true → is_hex (f c) ≡ true) → AreHex s → AreHex (each f s)
  each-AreHex [] k h = tt
  each-AreHex (c ∷ s) k (h, hs) = (k c h, each-AreHex s k hs)

  length-each : (s : Text) → length (each f s) ≡ length s
  length-each [] = refl
  length-each (c ∷ s) = omega (arith, length-each s)

  each-each :
      (g : ℕ → ℕ) (s : Text)
      → ((c : ℕ) → is_hex c ≡ true → g (f c) ≡ g c)
      → AreHex s
      → each g (each f s) ≡ each g s
  each-each g [] k h = refl
  each-each g (c ∷ s) k (h, hs) = rw (k c h, each-each g s k hs)

-- The case of a style's digits.
abbrev casing : MacStyle → ℕ → ℕ
casing dot c = hex_lower c
casing colon c = hex_upper c
casing dash c = hex_upper c
casing bare c = hex_upper c

casing-is_hex : (m : MacStyle) (c : ℕ) → is_hex c ≡ true → is_hex (casing m c) ≡ true
casing-is_hex dot c h = ground arith
casing-is_hex _ c h = ground arith

-- The later case wins.
hex_upper-casing : (m : MacStyle) (c : ℕ) → is_hex c ≡ true → hex_upper (casing m c) ≡ hex_upper c
hex_upper-casing dot c h = ground arith
hex_upper-casing _ c h = ground arith

hex_lower-casing : (m : MacStyle) (c : ℕ) → is_hex c ≡ true → hex_lower (casing m c) ≡ hex_lower c
hex_lower-casing dot c h = ground arith
hex_lower-casing _ c h = ground arith

-- The digits of an address in some style, up to their case.
mac_text-digits :
    (m : MacStyle) (ds : Text) → AreHex ds → keep_if is_hex (mac_text m ds) ≡ each (casing m) ds
unfolding mac_text
mac_text-digits dot ds h =
    keep_if-spaced b'.' 4 4 (each hex_lower ds) refl
      (each-AreHex hex_lower ds (casing-is_hex dot) h)
mac_text-digits bare ds h =
    keep_if-same (each hex_upper ds) (each-AreHex hex_upper ds (casing-is_hex bare) h)
mac_text-digits colon ds h =
    keep_if-spaced b':' 2 2 (each hex_upper ds) refl
      (each-AreHex hex_upper ds (casing-is_hex colon) h)
mac_text-digits dash ds h =
    keep_if-spaced b'-' 2 2 (each hex_upper ds) refl
      (each-AreHex hex_upper ds (casing-is_hex dash) h)

mac_text-casing :
    (m n : MacStyle) (ds : Text) → AreHex ds → mac_text n (each (casing m) ds) ≡ mac_text n ds
unfolding mac_text
mac_text-casing m dot ds h = rw (each-each (casing m) hex_lower ds (hex_lower-casing m) h)
mac_text-casing m _ ds h = rw (each-each (casing m) hex_upper ds (hex_upper-casing m) h)

mac_text-again :
    (m : MacStyle) (s t style : Text)
    → nat_beq (length (keep_if is_hex s)) 12 ≡ true
    → mac_text m (keep_if is_hex s) ≡ t
    → (n : MacStyle) → mac_style? style ≡ some n
    → mac_filter t style ≡ mac_filter s style
unfolding mac_filter
mac_text-again m s t style twelve e n k =
    let ds = keep_if is_hex s in
    let digits : keep_if is_hex t ≡ each (casing m) ds =
      ap (keep_if is_hex) (sym e) ∙ mac_text-digits m ds (keep_if-AreHex s) in
    rw (k, digits, length-each (casing m) ds, twelve, mac_text-casing m n ds (keep_if-AreHex s))

-- The style of an address can be changed at will: the `mac` filter gives the same of an address
-- that it has written in some style as of the text that it read. In particular it is idempotent.
pub mac_filter-mac_filter :
    (s t first second : Text)
    → mac_filter s first ≡ ok t
    → mac_filter t second ≡ mac_filter s second
unfolding mac_filter
mac_filter-mac_filter s t first second h = elim (Option-cases (mac_style? first)) [
  | inl k ↦ let g = rw k at h in cc
  | inr (m, k) ↦ elim (Bool-cases (nat_beq (length (keep_if is_hex s)) 12)) [
    | inr other ↦ let g = rw (k, other) at h in cc
    | inl twelve ↦
        let g = rw (k, twelve) at h in
        let e : mac_text m (keep_if is_hex s) ≡ t = cc in
        elim (Option-cases (mac_style? second)) [
          | inl other ↦ rw other
          | inr (n, k') ↦ mac_text-again m s t second twelve e n k'
        ]
  ]
]
