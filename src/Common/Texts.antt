-- ===== src/Common/Texts.antt =====
-- The concatenation of texts, under a name of its own: `◌++◌` is that of lists; and their code points.
use Prim.Native.Char.{code}
use Prim.Native.Nat.{ℕ}
use Prim.Native.String.{String, ◌++◌}
use mathlib.Core.Path.{◌≡◌, ap, ◌∙◌}
use mathlib.Core.List
use mathlib.Core.List.{List}
use text.Mathlib.TextLemmas.{nil-append, cons-append}

abbrev pub concat_text : String → String → String
concat_text s t = s ++ t

abbrev pub codes : String → List ℕ
codes String.[] = List.[]
codes (String.◌∷◌ c s) = List.◌∷◌ (code c) (codes s)

pub codes-concat_text : (s t : String) → codes (concat_text s t) ≡ List.◌++◌ (codes s) (codes t)
codes-concat_text String.[] t = ap codes (nil-append t)
codes-concat_text (String.◌∷◌ c s) t =
    ap codes (cons-append c s t) ∙ ap (List.◌∷◌ (code c)) (codes-concat_text s t)
