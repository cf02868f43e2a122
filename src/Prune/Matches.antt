-- ===== src/Prune/Matches.antt =====
-- core/utils.ts: `matchPatterns` finds the values that some pattern selects, and refuses just the
-- bare names that stand for several values.
use sqlanvil.Base.{
  nat_eq, Text, text_eq, Bool, true, false, ◌||◌, ◌&&◌, if◌then◌else◌, ◌==◌, ==_iff, List, [], ◌∷◌,
  ◌++◌, any, length, ◌≤◌, contains, contains-append, contains-filter_by, filter_by, IsSubset, ◌≡◌,
  refl, sym, ◌⊎◌, inl, inr, arith,
}
use sqlanvil.Prune.Patterns.{
  Matching, matched, ambiguous, match_pattern, match_patterns, also, only_match, glob, scope_of,
  last_segment,
}

-- Whether a pattern stands for a value, whatever the other values are.
abbrev pub selects : Text → Text → Bool
selects pattern value =
    if contains pattern b'*'
    then glob pattern (scope_of pattern value)
    else if contains pattern b'.'
    then value == pattern
    else pattern == last_segment b'.' value

contains-only_match :
    (pattern : Text) (ms names : List Text) (n : Text)
    → only_match pattern ms ≡ matched names
    → contains names n ≡ contains ms n
contains-only_match pattern [] names n e = let same : [] ≡ names = cc e in rw (← same) refl
contains-only_match pattern (m ∷ []) names n e =
    let same : m ∷ [] ≡ names = cc e in rw (← same) refl
contains-only_match pattern (m ∷ k ∷ ms) names n e = absurd (cc e)

choice-selects :
    (star dot : Bool) (p q : Text → Bool) (pattern : Text) (values names : List Text) (n : Text)
    → (if star
        then matched (filter_by p values)
        else if dot
        then matched (if contains values pattern then pattern ∷ [] else [])
        else only_match pattern (filter_by q values))
      ≡ matched names
    → contains names n
      ≡ (contains values n && (if star then p n else if dot then n == pattern else q n))
choice-selects true dot p q pattern values names n e =
    let same : filter_by p values ≡ names = cc e in
    rw (← same) (ground (arith, contains-filter_by p values n))
choice-selects false true p q pattern values names n e =
    let same : (if contains values pattern then pattern ∷ [] else []) ≡ names = cc e in
    rw (← same) (ground (arith, ==_iff n pattern))
choice-selects false false p q pattern values names n e = ground (
  arith,
  contains-only_match pattern (filter_by q values) names n e,
  contains-filter_by q values n,
)

match_pattern-selects :
    (pattern : Text) (values names : List Text) (n : Text)
    → match_pattern pattern values ≡ matched names
    → contains names n ≡ (contains values n && selects pattern n)
unfolding match_pattern
match_pattern-selects pattern values names n e =
    choice-selects (contains pattern b'*') (contains pattern b'.')
      (λ value. glob pattern (scope_of pattern value)) (λ value. pattern == last_segment b'.' value)
      pattern values names n e

also-contains :
    (first rest : Matching (List Text)) (names : List Text) (n : Text) (b c : Bool)
    → ((ns : List Text) → first ≡ matched ns → contains ns n ≡ b)
    → ((ns : List Text) → rest ≡ matched ns → contains ns n ≡ c)
    → also first rest ≡ matched names
    → contains names n ≡ (b || c)
also-contains (ambiguous p ms) rest names n b c hf hr e = absurd (cc e)
also-contains (matched ns) (ambiguous p ms) names n b c hf hr e = absurd (cc e)
also-contains (matched ns) (matched ms) names n b c hf hr e =
    let same : ns ++ ms ≡ names = cc e in
    rw (← same) (ground (arith, contains-append ns ms n, hf ns refl, hr ms refl))

-- Where no pattern is ambiguous, `matchPatterns` finds exactly the values that one of the
-- patterns selects, whatever the other values are.
pub match_patterns-selects :
    (patterns values names : List Text) (n : Text)
    → match_patterns patterns values ≡ matched names
    → contains names n ≡ (contains values n && any (λ pattern. selects pattern n) patterns)
unfolding match_patterns
match_patterns-selects [] values names n e =
    let same : [] ≡ names = cc e in rw (← same) (ground arith)
match_patterns-selects (pattern ∷ patterns) values names n e = ground (
  arith,
  also-contains (match_pattern pattern values) (match_patterns patterns values) names n
      (contains values n && selects pattern n)
      (contains values n && any (λ p. selects p n) patterns)
      (λ ns. match_pattern-selects pattern values ns n)
      (λ ns. match_patterns-selects patterns values ns n) e,
)

pub match_patterns-IsSubset :
    (patterns values names : List Text)
    → match_patterns patterns values ≡ matched names
    → IsSubset names values
match_patterns-IsSubset patterns values names e n h =
    ground (arith, h, match_patterns-selects patterns values names n e)

-- A bare name that several values end in.
abbrev pub IsAmbiguous : List Text → Text → List Text → Type 0
IsAmbiguous values p ms =
    (contains p b'*' ≡ false)
    × (contains p b'.' ≡ false)
    × (ms ≡ filter_by (λ value. p == last_segment b'.' value) values)
    × (2 ≤ length ms)

only_match-ambiguous :
    (pattern p : Text) (found ms : List Text)
    → only_match pattern found ≡ ambiguous p ms
    → (p ≡ pattern) × (ms ≡ found) × (2 ≤ length ms)
only_match-ambiguous pattern p [] ms e = absurd (cc e)
only_match-ambiguous pattern p (m ∷ []) ms e = absurd (cc e)
only_match-ambiguous pattern p (m ∷ k ∷ found) ms e =
    let same : m ∷ k ∷ found ≡ ms = cc e in (cc e, sym same, rw (← same) (omega arith))

choice-IsAmbiguous :
    (star dot : Bool) (f g : Text → Bool) (pattern p : Text) (values ms : List Text)
    → (if star
        then matched (filter_by f values)
        else if dot
        then matched (if contains values pattern then pattern ∷ [] else [])
        else only_match pattern (filter_by g values))
      ≡ ambiguous p ms
    → (star ≡ false) × (dot ≡ false) × (p ≡ pattern) × (ms ≡ filter_by g values) × (2 ≤ length ms)
choice-IsAmbiguous true dot f g pattern p values ms e = absurd (cc e)
choice-IsAmbiguous false true f g pattern p values ms e = absurd (cc e)
choice-IsAmbiguous false false f g pattern p values ms e =
    let (same, found, several) = only_match-ambiguous pattern p (filter_by g values) ms e in
    (refl, refl, same, found, several)

match_pattern-ambiguous :
    (pattern p : Text) (values ms : List Text)
    → match_pattern pattern values ≡ ambiguous p ms
    → (p ≡ pattern) × IsAmbiguous values p ms
unfolding match_pattern
match_pattern-ambiguous pattern p values ms e =
    let (star, dot, same, found, several) =
      choice-IsAmbiguous (contains pattern b'*') (contains pattern b'.')
        (λ value. glob pattern (scope_of pattern value))
        (λ value. pattern == last_segment b'.' value) pattern p values ms e in
    (same, rw same (star, dot, found, several))

also-ambiguous :
    (first rest : Matching (List Text)) (p : Text) (ms : List Text)
    → also first rest ≡ ambiguous p ms
    → (first ≡ ambiguous p ms) ⊎ (rest ≡ ambiguous p ms)
also-ambiguous (ambiguous q ns) rest p ms e = inl e
also-ambiguous (matched ns) (ambiguous q ks) p ms e = inr e
also-ambiguous (matched ns) (matched ks) p ms e = absurd (cc e)

-- The error of `matchPatterns` is about a listed name without star and dot, and lists the
-- values, at least two, that end in that name.
pub match_patterns-IsAmbiguous :
    (patterns values : List Text) (p : Text) (ms : List Text)
    → match_patterns patterns values ≡ ambiguous p ms
    → (contains patterns p ≡ true) × IsAmbiguous values p ms
unfolding match_patterns
match_patterns-IsAmbiguous [] values p ms e = absurd (cc e)
match_patterns-IsAmbiguous (pattern ∷ patterns) values p ms e =
    elim (also-ambiguous (match_pattern pattern values) (match_patterns patterns values) p ms e) [
      | inl here ↦
          let (same, found) = match_pattern-ambiguous pattern p values ms here in
          (ground (arith, ==_iff p pattern, same), found)
      | inr later ↦
          let (listed, found) = match_patterns-IsAmbiguous patterns values p ms later in
          (ground (arith, listed), found)
    ]
