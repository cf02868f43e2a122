-- ===== src/Prune/Patterns.antt =====
-- core/utils.ts: `globToRegExp` and `matchPatterns`. A regular expression made of literal text and
-- `.*` is modelled by the matching it denotes: `*` stands for any characters but line terminators.
use sqlanvil.Base.{
  ℕ, Text, text_eq, nat_eq, Bool, true, false, not, ◌&&◌, ◌||◌, if◌then◌else◌, ◌==◌, List, [], ◌∷◌,
  ◌++◌, contains, filter_by,
}

abbrev pub is_line_terminator : ℕ → Bool
is_line_terminator c = c == 10 || c == 13 || c == 0x2028 || c == 0x2029

unfoldable pub glob : Text → Text → Bool
glob [] [] = true
glob [] (c ∷ cs) = false
glob (p ∷ ps) [] = let rest = glob ps [] in p == b'*' && rest
glob (p ∷ ps) (c ∷ cs) =
    let none_taken = glob ps (c ∷ cs) in
    let one_taken = glob (p ∷ ps) cs in
    let literal = glob ps cs in
    if p == b'*'
    then none_taken || (not (is_line_terminator c) && one_taken)
    else (p == c && literal)

-- `s.split(separator).slice(-1)[0]`: what stands behind the last separator.
abbrev pub after_last : ℕ → Text → Text → Text
after_last separator best [] = best
after_last separator best (c ∷ cs) = after_last separator (if c == separator then cs else best) cs

abbrev pub last_segment : ℕ → Text → Text
last_segment separator s = after_last separator s s

-- A result, or the error for a name that stands for several actions.
pub data Matching {ℓ} (A : Type ℓ) : Type ℓ where
  matched : A → Matching A
  ambiguous : Text → List Text → Matching A

abbrev pub also : Matching (List Text) → Matching (List Text) → Matching (List Text)
also (ambiguous p ms) rest = ambiguous p ms
also (matched ns) (matched ms) = matched (ns ++ ms)
also (matched ns) (ambiguous p ms) = ambiguous p ms

abbrev pub only_match : Text → List Text → Matching (List Text)
only_match pattern [] = matched []
only_match pattern (m ∷ []) = matched (m ∷ [])
only_match pattern (m ∷ n ∷ ms) = ambiguous pattern (m ∷ n ∷ ms)

abbrev pub scope_of : Text → Text → Text
scope_of pattern value = if contains pattern b'.' then value else last_segment b'.' value

-- One round of the loop over the patterns.
unfoldable pub match_pattern : Text → List Text → Matching (List Text)
match_pattern pattern values =
    if contains pattern b'*'
    then matched (filter_by (λ value. glob pattern (scope_of pattern value)) values)
    else if contains pattern b'.'
    then matched (if contains values pattern then pattern ∷ [] else [])
    else only_match pattern (filter_by (λ value. pattern == last_segment b'.' value) values)

unfoldable pub match_patterns : List Text → List Text → Matching (List Text)
match_patterns [] values = matched []
match_patterns (pattern ∷ patterns) values =
    also (match_pattern pattern values) (match_patterns patterns values)
