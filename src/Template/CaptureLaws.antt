-- ===== src/Template/CaptureLaws.antt =====
-- The gate of captures in playbook_render.py: what it lets into a command, and that it is stable.
use models_utils.Prelude.{
  ◌≡◌, refl, sym, ◌∙◌, ap, ℕ, zero, suc, Bool, true, false, Option, none, some, List, [], ◌∷◌, ◌++◌,
  leb, ltb, not, ◌&&◌, nat_beq, nat_beq_iff, nat_eq, Text, codes, ◌==◌, text_eq, contains, length,
  take, any, all, All, arith, Bool-cases, &&-eq-true, inl, inr, if◌then◌else◌,
}
use models_utils.Template.Filters.{digit?}
use models_utils.Template.Parser.{span}
use models_utils.Template.Captures.{
  in_charset, is_plain, is_decimal, all_decimal, is_unsigned, drop_minus, is_number_text,
  gate_capture, add_item, gate_items, join_lines, split_lines,
}

-- Blanks, the usual control characters, and each punctuation character of ASCII that a capture may
-- not have: quotes, brackets, and the operators and patterns of a shell.
abbrev pub harmful : List ℕ
harmful =
    0 ∷ 11 ∷ 12 ∷ b'\n' ∷ b'\r' ∷ b'\t' ∷ b' ' ∷ b'!' ∷ b'"' ∷ b'#' ∷ b'$' ∷ b'%' ∷ b'&' ∷ b'\''
    ∷ b'(' ∷ b')' ∷ b'*' ∷ b',' ∷ b';' ∷ b'<' ∷ b'=' ∷ b'>' ∷ b'?' ∷ b'@' ∷ b'[' ∷ b'\\' ∷ b']'
    ∷ b'^' ∷ b'`' ∷ b'{' ∷ b'|' ∷ b'}' ∷ b'~' ∷ 127 ∷ []

abbrev pub IsHarmless : Text → Type 0
IsHarmless s = All (λ c. contains harmful c ≡ false) s

in_charset_lem : (c : ℕ) → in_charset c ≡ true → contains harmful c ≡ false
in_charset_lem c h = ground (arith, h)

no_clash : true ≡ false → ⊥
no_clash h = cc

none_decimal :
    (hs : List ℕ) (c : ℕ) → any is_decimal hs ≡ false → is_decimal c ≡ true → contains hs c ≡ false
none_decimal [] c n d = refl
none_decimal (h ∷ hs) c n d = elim (Bool-cases (is_decimal h)) [
  | inl b ↦ absurd (no_clash (rw b at n))
  | inr b ↦ elim (Bool-cases (nat_beq c h)) [
    | inl e ↦ absurd (no_clash (sym d ∙ (ap is_decimal ((nat_beq_iff c h).0 e) ∙ b)))
    | inr e ↦ rw e (none_decimal hs c (rw b at n) d)
  ]
]

harmful_decimal : any is_decimal harmful ≡ false
unfolding is_decimal digit?
harmful_decimal = refl

charset-IsHarmless : (s : Text) → all in_charset s ≡ true → IsHarmless s
charset-IsHarmless [] h = tt
charset-IsHarmless (c ∷ s) h =
    let (a, b) = &&-eq-true (in_charset c) (all in_charset s) h in
    (in_charset_lem c a, charset-IsHarmless s b)

decimals-IsHarmless : (s : Text) → all is_decimal s ≡ true → IsHarmless s
decimals-IsHarmless [] h = tt
decimals-IsHarmless (c ∷ s) h =
    let (a, b) = &&-eq-true (is_decimal c) (all is_decimal s) h in
    (none_decimal harmful c harmful_decimal a, decimals-IsHarmless s b)

not_newline : (c : ℕ) → contains harmful c ≡ false → nat_beq c b'\n' ≡ false
not_newline c h = ground (arith, h)

-- The lines of lines that have no newline.
split_lines-append : (s t : Text) → IsHarmless s → split_lines (s ++ b'\n' ∷ t) ≡ s ∷ split_lines t
unfolding split_lines
split_lines-append [] t h = refl
split_lines-append (c ∷ s) t (h, hs) = rw (not_newline c h, split_lines-append s t hs) refl

split_lines_one : (s : Text) → IsHarmless s → split_lines s ≡ s ∷ []
unfolding split_lines
split_lines_one [] h = refl
split_lines_one (c ∷ s) (h, hs) = rw (not_newline c h, split_lines_one s hs) refl

pub split_lines-join_lines :
    (s : Text) (ss : List Text)
    → All IsHarmless (s ∷ ss)
    → split_lines (join_lines (s ∷ ss)) ≡ s ∷ ss
split_lines-join_lines s [] (h, hs) = split_lines_one s h
split_lines-join_lines s (t ∷ ts) (h, hs) =
    split_lines-append s (join_lines (t ∷ ts)) h ∙ ap (λ l. s ∷ l) (split_lines-join_lines t ts hs)

pub take_again {ℓ} : {A : Type ℓ} (n : ℕ) (xs : List A) → take n (take n xs) ≡ take n xs
take_again zero xs = refl
take_again (suc n) [] = refl
take_again (suc n) (x ∷ xs) = ap (λ l. x ∷ l) (take_again n xs)

-- A single value that the gate lets through is that value, it passes again, and it is harmless.
abbrev pub Passes : Text → Text → Option Text → Type 0
Passes s kind none = Unit
Passes s kind (some t) = (t ≡ s) × (gate_capture t kind ≡ some t) × IsHarmless t

is_plain-IsHarmless : (s : Text) → is_plain s ≡ true → IsHarmless s
unfolding is_plain
is_plain-IsHarmless s h =
    charset-IsHarmless s (&&-eq-true (all in_charset s) (leb (length s) 128) h).0

span-IsHarmless : (s : Text) → IsHarmless (span is_decimal s).1 → IsHarmless s
unfolding span
span-IsHarmless [] h = tt
span-IsHarmless (c ∷ s) h = elim (Bool-cases (is_decimal c)) [
  | inl e ↦ (none_decimal harmful c harmful_decimal e, span-IsHarmless s (rw e at h))
  | inr e ↦ rw e at h
]

point-IsHarmless : (c : ℕ) → nat_beq c b'.' ≡ true → contains harmful c ≡ false
point-IsHarmless c h = ground (arith, h)

minus-IsHarmless : (c : ℕ) → nat_beq c b'-' ≡ true → contains harmful c ≡ false
minus-IsHarmless c h = ground (arith, h)

all_decimal-IsHarmless : (s : Text) → all_decimal s ≡ true → IsHarmless s
all_decimal-IsHarmless [] h = tt
all_decimal-IsHarmless (c ∷ s) h = decimals-IsHarmless (c ∷ s) h

is_unsigned-IsHarmless : (p : Text × Text) → is_unsigned p ≡ true → IsHarmless p.1
is_unsigned-IsHarmless ([], rest) h = cc
is_unsigned-IsHarmless (d ∷ ds, []) h = tt
is_unsigned-IsHarmless (d ∷ ds, c ∷ s) h =
    let (a, b) = &&-eq-true (nat_beq c b'.') (all_decimal s) h in
    (point-IsHarmless c a, all_decimal-IsHarmless s b)

drop_minus-IsHarmless : (s : Text) → IsHarmless (drop_minus s) → IsHarmless s
drop_minus-IsHarmless [] h = tt
drop_minus-IsHarmless (c ∷ s) h = elim (Bool-cases (nat_beq c b'-')) [
  | inl e ↦ (minus-IsHarmless c e, rw e at h)
  | inr e ↦ rw e at h
]

is_number_text-IsHarmless : (s : Text) → is_number_text s ≡ true → IsHarmless s
unfolding is_number_text
is_number_text-IsHarmless s h =
    drop_minus-IsHarmless s
      (span-IsHarmless (drop_minus s) (is_unsigned-IsHarmless (span is_decimal (drop_minus s)) h))

-- The test of a kind.
abbrev passes : Text → Text → Bool
passes kind s = if kind == codes "number" then is_number_text s else is_plain s

passes-IsHarmless : (kind s : Text) → passes kind s ≡ true → IsHarmless s
passes-IsHarmless kind s h = elim (Bool-cases (kind == codes "number")) [
  | inl e ↦ is_number_text-IsHarmless s (rw e at h)
  | inr e ↦ is_plain-IsHarmless s (rw e at h)
]

pub gate_capture-Passes : (s kind : Text) → Passes s kind (gate_capture s kind)
unfolding gate_capture
gate_capture-Passes s kind = elim (Bool-cases (passes kind s)) [
  | inl e ↦ rw e (refl, rw e refl, passes-IsHarmless kind s e)
  | inr e ↦ rw e tt
]

-- Items that all pass are those items; they pass again, and each is harmless.
abbrev pub AllPass : List Text → Option (List Text) → Type 0
AllPass ss none = Unit
AllPass ss (some ts) = (ts ≡ ss) × (gate_items ts ≡ some ts) × All IsHarmless ts

add_item-AllPass :
    (s : Text) (ss : List Text) (o : Option Text) (os : Option (List Text))
    → Passes s (codes "text") o
    → AllPass ss os
    → AllPass (s ∷ ss) (add_item o os)
unfolding gate_items
add_item-AllPass s ss none os h hs = tt
add_item-AllPass s ss (some t) none h hs = tt
add_item-AllPass s ss (some t) (some ts) (same, again, ok) (sames, agains, oks) =
    (rw (same, sames) refl, rw (again, agains) refl, (ok, oks))

pub gate_items-AllPass : (ss : List Text) → AllPass ss (gate_items ss)
unfolding gate_items
gate_items-AllPass [] = (refl, refl, tt)
gate_items-AllPass (s ∷ ss) =
    add_item-AllPass s ss (gate_capture s (codes "text")) (gate_items ss)
      (gate_capture-Passes s (codes "text")) (gate_items-AllPass ss)

-- A printable character of ASCII that is not harmful.
abbrev pub is_printable : ℕ → Bool
is_printable c = ltb b' ' c && (ltb c 127 && not (contains harmful c))

in_charset_of : (c : ℕ) → is_printable c ≡ true → in_charset c ≡ true
in_charset_of c h = ground (arith, h)

-- What a capture of one match may always be.
abbrev pub is_short_plain : Text → Bool
is_short_plain s = leb (length s) 128 && all is_printable s

charset-printable : (s : Text) → all is_printable s ≡ true → all in_charset s ≡ true
charset-printable [] h = refl
charset-printable (c ∷ s) h =
    let (a, b) = &&-eq-true (is_printable c) (all is_printable s) h in
    rw (in_charset_of c a, charset-printable s b) refl

pub gate_capture-is_short_plain :
    (s kind : Text)
    → (kind == codes "number") ≡ false
    → is_short_plain s ≡ true
    → gate_capture s kind ≡ some s
unfolding gate_capture is_plain
gate_capture-is_short_plain s kind other h =
    let (short, plain) = &&-eq-true (leb (length s) 128) (all is_printable s) h in
    rw (other, charset-printable s plain, short) refl
