-- ===== src/Cashback/Payments/Text.antt =====
-- The regular expressions of payment-provider.ts, over the code points of a message. `toLowerCase` is
-- that of the ASCII letters: the patterns hold no others.
use bumpa_achievement_system.Common.{
  codes, ℕ, ◌+◌, String, Bool, true, false, ◌&&◌, ◌||◌, List, [], ◌∷◌, if◌then◌else◌, leb, nat_eq,
  any,
}

abbrev pub to_lower : ℕ → ℕ
to_lower c = if leb b'A' c && leb c b'Z' then c + 32 else c

lower : List ℕ → List ℕ
lower [] = []
lower (c ∷ cs) = to_lower c ∷ lower cs

-- message.toLowerCase()
unfoldable pub lower_codes : String → List ℕ
unfolding lower
lower_codes s = lower (codes s)

starts_with : List ℕ → List ℕ → Bool
starts_with [] xs = true
starts_with (p ∷ ps) [] = false
starts_with (p ∷ ps) (x ∷ xs) = nat_eq p x && starts_with ps xs

-- /pattern/.test(text) for a literal pattern.
unfoldable pub contains : List ℕ → List ℕ → Bool
unfolding starts_with
contains p [] = starts_with p []
contains p (x ∷ xs) = starts_with p (x ∷ xs) || contains p xs

-- /a|b|…/.test(text)
unfoldable pub contains_any : List String → List ℕ → Bool
unfolding contains
contains_any patterns text = any (λ p. contains (codes p) text) patterns

-- The rest of the line: `.` does not match a line terminator.
line : List ℕ → List ℕ
line [] = []
line (c ∷ cs) =
    let rest = line cs in
    if nat_eq c 10 || nat_eq c 13 || nat_eq c 0x2028 || nat_eq c 0x2029 then [] else c ∷ rest

skip : List ℕ → List ℕ → List ℕ
skip [] xs = xs
skip (p ∷ ps) [] = []
skip (p ∷ ps) (x ∷ xs) = skip ps xs

-- /first.*second/.test(text)
unfoldable pub contains_both : String → String → List ℕ → Bool
unfolding starts_with contains line skip
contains_both first second [] = false
contains_both first second (x ∷ xs) =
    starts_with (codes first) (x ∷ xs)
      && contains (codes second) (line (skip (codes first) (x ∷ xs)))
    || contains_both first second xs

is_digit : ℕ → Bool
is_digit c = leb b'0' c && leb c b'9'

-- /5\d\d/.test(text)
unfoldable pub contains_5xx : List ℕ → Bool
unfolding is_digit
contains_5xx [] = false
contains_5xx (x ∷ []) = false
contains_5xx (x ∷ y ∷ []) = false
contains_5xx (x ∷ y ∷ z ∷ xs) =
    nat_eq x b'5' && is_digit y && is_digit z || contains_5xx (y ∷ z ∷ xs)
