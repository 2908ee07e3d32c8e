-- ===== src/Base/Texts.antt =====
-- Texts: the native strings where code only compares them, code points where it walks them.
use Prim.Native.Nat.{ℕ}
use Prim.Native.Char.{code}
use Prim.Native.String.{String}
use mathlib.Core.Bool.{Bool, true, false, ◌&&◌, ◌||◌}
use mathlib.Core.Option.{Option, none, some}
use mathlib.Core.List.{List, [], ◌∷◌}
use mathlib.Core.Path.{◌≡◌, refl}
use mathlib.Core.Logic.{◌↔◌}
use native.Mathlib.Omega.{arith}
use aizk.Base.Tests.{◌==◌, if◌then◌else◌}
use aizk.Base.Lists.{any_by}
unfoldable pub use text.Mathlib.Text.{◌==◌ as str_eq}
pub use text.Mathlib.TextEquality.{eq_iff as str_eq_iff}
pub use Prim.Native.String.{String}

abbrev pub Text : Type 0
Text = List ℕ

abbrev pub codes : String → Text
codes String.[] = []
codes (String.◌∷◌ c s) = code c ∷ codes s

abbrev pub opt_str_eq : Option String → Option String → Bool
opt_str_eq none none = true
opt_str_eq none (some b) = false
opt_str_eq (some a) none = false
opt_str_eq (some a) (some b) = str_eq a b

abbrev pub text_eq : Text → Text → Bool
text_eq [] [] = true
text_eq [] (c ∷ t) = false
text_eq (c ∷ s) [] = false
text_eq (c ∷ s) (d ∷ t) = (c == d) && text_eq s t

-- `in` over a set of texts.
abbrev pub one_of : Text → List Text → Bool
one_of t ts = any_by (text_eq t) ts

abbrev pub starts_with : Text → Text → Bool
starts_with [] text = true
starts_with (q ∷ qs) [] = false
starts_with (q ∷ qs) (c ∷ text) = (q == c) && starts_with qs text

-- Python's `in` on two texts.
abbrev pub contains : Text → Text → Bool
contains part [] = starts_with part []
contains part (c ∷ text) = starts_with part (c ∷ text) || contains part text

-- `dict.fromkeys`: each text once, in the order of its first occurrence.
abbrev pub first_of : List Text → List Text → List Text
first_of seen [] = []
first_of seen (p ∷ ps) =
    let again = first_of seen ps in
    let next = first_of (p ∷ seen) ps in if one_of p seen then again else p ∷ next

pub text_eq_iff : (s t : Text) → (text_eq s t ≡ true) ↔ (s ≡ t)
text_eq_iff [] [] = (λ e. refl, λ e. refl)
text_eq_iff [] (c ∷ t) = (λ e. cc, λ e. cc)
text_eq_iff (c ∷ s) [] = (λ e. cc, λ e. cc)
text_eq_iff (c ∷ s) (d ∷ t) = ground (arith, text_eq_iff s t)

pub text_eq_refl : (s : Text) → text_eq s s ≡ true
text_eq_refl [] = refl
text_eq_refl (c ∷ s) = ground (arith, text_eq_refl s)
