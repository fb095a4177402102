-- ===== src/Text.antt =====
-- Texts as lists of code points, for the code that looks into them: `lower`, `strip`, `in`,
-- `startswith`, `endswith`. Letters outside ASCII are left as they are by `lower`.
pub mod Equal
use Prim.Native.Char.{code}
use knovaryn.Base.{
  ℕ, ◌+◌, Bool, true, false, not, ◌&&◌, ◌||◌, String, List, [], ◌∷◌, ◌++◌, leb, ltb, ◌==◌,
  if◌then◌else◌, zero, suc, ◌/◌, ◌%◌,
}
use mathlib.Core.List.{reverse}

abbrev pub codes : String → List ℕ
codes String.[] = []
codes (String.◌∷◌ c s) = code c ∷ codes s

unfoldable pub lower_code : ℕ → ℕ
lower_code c = if leb b'A' c && leb c b'Z' then c + 32 else c

unfoldable pub lower : List ℕ → List ℕ
unfolding lower_code
lower [] = []
lower (c ∷ s) = lower_code c ∷ lower s

-- str.isspace
abbrev is_space : ℕ → Bool
is_space c =
    (leb 9 c && leb c 13)
    || (leb 28 c && leb c 32)
    || c == 133
    || c == 160
    || c == 5760
    || (leb 8192 c && leb c 8202)
    || c == 8232
    || c == 8233
    || c == 8239
    || c == 8287
    || c == 12288

unfoldable pub strip_left : List ℕ → List ℕ
strip_left [] = []
strip_left (c ∷ s) = let rest = strip_left s in if is_space c then rest else c ∷ s

unfoldable pub strip : List ℕ → List ℕ
unfolding strip_left
strip s = reverse (strip_left (reverse (strip_left s)))

unfoldable pub text_eq : List ℕ → List ℕ → Bool
text_eq [] [] = true
text_eq (c ∷ s) (d ∷ t) = c == d && text_eq s t
text_eq _ _ = false

-- t.startswith(s)
unfoldable pub starts : List ℕ → List ℕ → Bool
starts [] t = true
starts (c ∷ s) [] = false
starts (c ∷ s) (d ∷ t) = c == d && starts s t

-- `s in t`
unfoldable pub infix_of : List ℕ → List ℕ → Bool
unfolding starts
infix_of s [] = starts s []
infix_of s (d ∷ t) = starts s (d ∷ t) || infix_of s t

-- t.endswith(s)
unfoldable pub ends : List ℕ → List ℕ → Bool
unfolding text_eq
ends s [] = text_eq s []
ends s (d ∷ t) = text_eq s (d ∷ t) || ends s t

-- len(s.split())
unfoldable pub word_count : List ℕ → ℕ
word_count [] = 0
word_count (c ∷ []) = if is_space c then 0 else 1
word_count (c ∷ d ∷ s) =
    let rest = word_count (d ∷ s) in if not (is_space c) && is_space d then suc rest else rest

abbrev close_word : List ℕ × List (List ℕ) → List (List ℕ)
close_word ([], ws) = ws
close_word (c ∷ w, ws) = (c ∷ w) ∷ ws

abbrev split_word : List ℕ → List ℕ × List (List ℕ)
split_word [] = ([], [])
split_word (c ∷ s) =
    let r = split_word s in if is_space c then ([], close_word r) else (c ∷ r.0, r.1)

-- s.split()
unfoldable pub words : List ℕ → List (List ℕ)
words s = close_word (split_word s)

-- s < t
unfoldable pub text_lt : List ℕ → List ℕ → Bool
text_lt s [] = false
text_lt [] (d ∷ t) = true
text_lt (c ∷ s) (d ∷ t) = ltb c d || (c == d && text_lt s t)

-- sep.join(ts)
unfoldable pub join : List ℕ → List (List ℕ) → List ℕ
join sep [] = []
join sep (t ∷ []) = t
join sep (t ∷ u ∷ ts) = t ++ sep ++ join sep (u ∷ ts)

digits : ℕ → ℕ → List ℕ → List ℕ
digits zero n rest = rest
digits (suc fuel) n rest =
    let more = digits fuel (n / 10) ((48 + n % 10) ∷ rest) in
    if ltb n 10 then (48 + n) ∷ rest else more

-- str(n)
unfoldable pub decimal : ℕ → List ℕ
unfolding digits
decimal n = digits (suc n) n []
