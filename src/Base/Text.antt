-- ===== src/Base/Text.antt =====
-- Python's `str`, as the list of its code points, with the whitespace rules of `str.strip`.
use mathlib.Core.Path.{◌≡◌, refl, ◌∙◌}
use mathlib.Core.Bool.{Bool, true, false, not, ◌&&◌, ◌||◌}
use mathlib.Core.List.{List, [], ◌∷◌, reverse, reverse_aux}
use Prim.Native.Nat.{ℕ, ◌+◌}
use Prim.Native.Char.{code}
use Prim.Native.String.{String}
use jz_investment_os.Base.Tests.{◌==◌, leb, if◌then◌else◌}
use jz_investment_os.Base.Lists.{is_empty, any}
use native.Mathlib.Omega.{arith}

abbrev pub Text : Type 0
Text = List ℕ

-- The code points of a literal.
abbrev pub codes : String → Text
codes String.[] = []
codes (String.◌∷◌ c s) = code c ∷ codes s

-- The code points for which `str.isspace` holds.
unfoldable pub is_space : ℕ → Bool
is_space c =
    leb 9 c && leb c 13
    || leb 28 c && leb c 32
    || c == 133
    || c == 160
    || c == 5760
    || leb 8192 c && leb c 8202
    || c == 8232
    || c == 8233
    || c == 8239
    || c == 8287
    || c == 12288

unfoldable pub strip_left : Text → Text
strip_left [] = []
strip_left (c ∷ cs) = let rest = strip_left cs in if is_space c then rest else c ∷ cs

-- `text.strip()`
unfoldable pub strip : Text → Text
unfolding strip_left is_space
strip cs = reverse (strip_left (reverse (strip_left cs)))

-- `not text.strip()`
unfoldable pub is_blank : Text → Bool
unfolding strip
is_blank cs = is_empty (strip cs)

blank_tests : (is_blank (codes " \t") ≡ true) × (strip (codes " a b ") ≡ codes "a b")
unfolding is_blank
blank_tests = (refl, refl)

-- `str.lower` on an ASCII letter; other code points stay.
abbrev pub lower : ℕ → ℕ
lower c = if leb 65 c && leb c 90 then c + 32 else c

-- The characters of a text that are not spaces survive `strip`.
has_ink : Text → Bool
has_ink cs = any (λ c. not (is_space c)) cs

has_ink-strip_left : (cs : Text) → has_ink (strip_left cs) ≡ has_ink cs
unfolding has_ink strip_left
has_ink-strip_left [] = refl
has_ink-strip_left (c ∷ cs) = ground (arith, has_ink-strip_left cs)

has_ink-reverse_aux : (cs ds : Text) → has_ink (reverse_aux cs ds) ≡ (has_ink cs || has_ink ds)
unfolding has_ink
has_ink-reverse_aux [] ds = refl
has_ink-reverse_aux (c ∷ cs) ds = ground (arith, has_ink-reverse_aux cs (c ∷ ds))

has_ink-reverse : (cs : Text) → has_ink (reverse cs) ≡ has_ink cs
unfolding has_ink
has_ink-reverse cs = ground (arith, has_ink-reverse_aux cs [])

has_ink-strip : (cs : Text) → has_ink (strip cs) ≡ has_ink cs
unfolding strip
has_ink-strip cs =
    let once = strip_left cs in
    has_ink-reverse (strip_left (reverse once))
    ∙ has_ink-strip_left (reverse once)
    ∙ has_ink-reverse once
    ∙ has_ink-strip_left cs

-- A text that begins with another character than a space is not blank.
pub is_empty-strip : (c : ℕ) (cs : Text) → is_space c ≡ false → is_empty (strip (c ∷ cs)) ≡ false
unfolding has_ink
is_empty-strip c cs h =
    let ink : has_ink (c ∷ cs) ≡ true = ground (arith, h) in
    inked (strip (c ∷ cs)) (has_ink-strip (c ∷ cs) ∙ ink)
  where
    inked : (ds : Text) → has_ink ds ≡ true → is_empty ds ≡ false
    inked [] k = cc
    inked (d ∷ ds) k = refl
