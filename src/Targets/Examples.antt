-- ===== src/Targets/Examples.antt =====
-- A run of the model of common/strings/stringifier.ts with a concrete way to quote texts.
use sqlanvil.Base.{
  ℕ, Text, Option, none, some, Bool, true, false, ◌∷◌, [], ◌++◌, ◌||◌, if◌then◌else◌, ◌==◌, nat_eq,
  ◌≡◌, refl, arith,
}
use sqlanvil.Targets.{Target}
use sqlanvil.Targets.Laws.{ReadsBack, stringify-injective}

-- A text in double quotes, with a backslash before a quote and a backslash; control characters are left
-- as they are.
abbrev quoted_from : Text → Text
quoted_from [] = 34 ∷ []
quoted_from (c ∷ cs) =
    let rest = quoted_from cs in if c == 34 || c == 92 then 92 ∷ c ∷ rest else c ∷ rest

abbrev in_quotes : Text → Text
in_quotes s = 34 ∷ quoted_from s

abbrev push : ℕ → Option (Text × Text) → Option (Text × Text)
push c none = none
push c (some (s, rest)) = some (c ∷ s, rest)

-- The flag says that the last character was a backslash.
abbrev read_from : Bool → Text → Option (Text × Text)
read_from escape [] = none
read_from true (c ∷ cs) = push c (read_from false cs)
read_from false (c ∷ cs) =
    let plain = push c (read_from false cs) in
    let escaped = read_from true cs in
    if c == 34 then some ([], cs) else if c == 92 then escaped else plain

abbrev read_quoted : Text → Option (Text × Text)
read_quoted [] = none
read_quoted (c ∷ cs) = let more = read_from false cs in if c == 34 then more else none

read_from-quoted_from : (s rest : Text) → read_from false (quoted_from s ++ rest) ≡ some (s, rest)
read_from-quoted_from [] rest = refl
read_from-quoted_from (c ∷ cs) rest = ground (arith, read_from-quoted_from cs rest)

in_quotes-ReadsBack : ReadsBack in_quotes read_quoted
in_quotes-ReadsBack s rest = read_from-quoted_from s rest

abbrev orders : Target
orders = record {
  database = some (34 ∷ 44 ∷ []);
  schema = some (b's' ∷ []);
  name = b'o' ∷ [];
  include_dependent_assertions = some true;
}

stringify-injective_example : orders ≡ orders
stringify-injective_example =
    stringify-injective in_quotes read_quoted in_quotes-ReadsBack orders orders refl
