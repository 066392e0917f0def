-- ===== src/Policy/Strings.antt =====
-- `str.strip()`, which the modules under database_utils/utils/ use on settings.
use mathlib.Core.List.{reverse}
use models_utils.Prelude.{
  ℕ, Bool, ◌||◌, ◌&&◌, Option, none, some, [], ◌∷◌, leb, nat_beq, Text, if◌then◌else◌,
}

-- The characters of `str.isspace`.
abbrev pub is_space : ℕ → Bool
is_space c =
    (leb 9 c && leb c 13)
    || ((leb 28 c && leb c 32)
        || (nat_beq c 0x85
            || (nat_beq c 0xa0
                || (nat_beq c 0x1680
                    || ((leb 0x2000 c && leb c 0x200a)
                        || (nat_beq c 0x2028
                            || (nat_beq c 0x2029
                                || (nat_beq c 0x202f
                                    || (nat_beq c 0x205f || nat_beq c 0x3000)))))))))

abbrev pub drop_spaces : Text → Text
drop_spaces [] = []
drop_spaces (c ∷ s) = let rest = drop_spaces s in if is_space c then rest else c ∷ s

unfoldable pub strip : Text → Text
strip s = reverse (drop_spaces (reverse (drop_spaces s)))

-- `(value or "").strip()`
unfoldable pub stripped : Option Text → Text
unfolding strip
stripped none = []
stripped (some s) = strip s

-- `text or None`
abbrev pub non_empty : Text → Option Text
non_empty [] = none
non_empty (c ∷ s) = some (c ∷ s)
