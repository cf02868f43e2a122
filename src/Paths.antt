-- ===== src/Paths.antt =====
-- core/path.ts: paths on every platform, as texts.
pub mod Parts
pub mod Normal
pub mod Laws
mod Examples
use sqlanvil.Base.{
  ℕ, zero, suc, ◌+◌, ◌-◌, Text, text_eq, nat_eq, leb, Bool, true, false, not, ◌&&◌, ◌||◌,
  if◌then◌else◌, ◌==◌, List, [], ◌∷◌, ◌++◌, Option, none, some, filter_by, length, take, drop, map,
}

-- `toPosixPath`
unfoldable pub to_posix_path : Text → Text
to_posix_path [] = []
to_posix_path (c ∷ cs) = (if c == b'\\' then b'/' else c) ∷ to_posix_path cs

abbrev pub is_ascii_letter : ℕ → Bool
is_ascii_letter c = (leb b'A' c && leb c b'Z') || (leb b'a' c && leb c b'z')

-- `WINDOWS_DRIVE_LETTER`: a letter, a colon, and then a slash or the end.
abbrev pub is_windows_drive : Text → Bool
is_windows_drive [] = false
is_windows_drive (c ∷ []) = false
is_windows_drive (c ∷ colon ∷ []) = is_ascii_letter c && colon == b':'
is_windows_drive (c ∷ colon ∷ slash ∷ cs) = is_ascii_letter c && colon == b':' && slash == b'/'

-- `toLowerCase` of a character that is a letter A to Z or a to z.
abbrev pub lower_case : ℕ → ℕ
lower_case c = if leb b'A' c && leb c b'Z' then c + 32 else c

abbrev pub lower_first : Text → Text
lower_first [] = []
lower_first (c ∷ cs) = lower_case c ∷ cs

-- `comparablePath`
unfoldable pub comparable_path : Text → Text
unfolding to_posix_path
comparable_path path =
    let posix_path = to_posix_path path in
    if is_windows_drive posix_path then lower_first posix_path else posix_path

abbrev pub ends_with_slash : Text → Bool
ends_with_slash [] = false
ends_with_slash (c ∷ []) = c == b'/'
ends_with_slash (_ ∷ c ∷ cs) = ends_with_slash (c ∷ cs)

abbrev pub with_trailing_slash : Text → Text
with_trailing_slash p = if ends_with_slash p then p else p ++ b'/' ∷ []

-- `p.startsWith(base)`
abbrev pub is_start : Text → Text → Bool
is_start [] p = true
is_start (b ∷ bs) [] = false
is_start (b ∷ bs) (c ∷ cs) = b == c && is_start bs cs

abbrev pub is_empty : Text → Bool
is_empty [] = true
is_empty (_ ∷ _) = false

-- `startsWithPath`
unfoldable pub starts_with_path : Text → Text → Bool
unfolding comparable_path
starts_with_path path base =
    if is_empty path || is_empty base
    then false
    else is_start (with_trailing_slash (comparable_path base))
        (with_trailing_slash (comparable_path path))

abbrev pub without_first_slash : Text → Text
without_first_slash [] = []
without_first_slash (c ∷ cs) = if c == b'/' then cs else c ∷ cs

-- `relativePath`
unfoldable pub relative_path : Text → Text → Text
unfolding starts_with_path
relative_path full_path base =
    let normalized_full = to_posix_path full_path in
    let normalized_base = to_posix_path base in
    if is_empty base
    then normalized_full
    else if not (starts_with_path normalized_full normalized_base)
    then normalized_full
    else without_first_slash (drop (length normalized_base) normalized_full)

-- `s.split("/")`: the part that is being read, and the ones behind it.
abbrev pub split_from : Text → Text → List Text
split_from part [] = part ∷ []
split_from part (c ∷ cs) =
    let next = split_from [] cs in
    let same = split_from (part ++ c ∷ []) cs in if c == b'/' then part ∷ next else same

abbrev pub split : Text → List Text
split s = split_from [] s

abbrev pub join_by : Text → List Text → Text
join_by separator [] = []
join_by separator (p ∷ []) = p
join_by separator (p ∷ q ∷ ps) = p ++ separator ++ join_by separator (q ∷ ps)

-- The last part of a `split`, which is never empty.
abbrev pub last_part : List Text → Text
last_part [] = []
last_part (p ∷ []) = p
last_part (_ ∷ p ∷ ps) = last_part (p ∷ ps)

-- `filename`
unfoldable pub filename : Text → Text
unfolding to_posix_path
filename path = last_part (split (to_posix_path path))

-- `s.lastIndexOf(c)`
abbrev pub last_index_of : ℕ → Text → Option ℕ
last_index_of c [] = none
last_index_of c (x ∷ xs) = elim (last_index_of c xs) [
  | some n ↦ some (suc n)
  | none ↦ if x == c then some 0 else none
]

-- The two halves of `basename` and `fileExtension`: no dot, or a dot in front, is no extension.
abbrev pub before_dot : Text → Option ℕ → Text
before_dot f none = f
before_dot f (some zero) = f
before_dot f (some (suc n)) = take (suc n) f

abbrev pub behind_dot : Text → Option ℕ → Text
behind_dot f none = []
behind_dot f (some zero) = []
behind_dot f (some (suc n)) = drop (suc n + 1) f

-- `basename`
unfoldable pub basename : Text → Text
basename path = let f = filename path in before_dot f (last_index_of b'.' f)

-- `fileExtension`
unfoldable pub file_extension : Text → Text
file_extension path = let f = filename path in behind_dot f (last_index_of b'.' f)

-- `/^[a-zA-Z]:$/`
abbrev pub is_bare_drive : Text → Bool
is_bare_drive [] = false
is_bare_drive (c ∷ []) = false
is_bare_drive (c ∷ colon ∷ []) = is_ascii_letter c && colon == b':'
is_bare_drive (c ∷ colon ∷ d ∷ cs) = false

abbrev pub cut_at : Text → Option ℕ → Text
cut_at normalized none = []
cut_at normalized (some zero) = take 1 normalized
cut_at normalized (some (suc n)) =
    if is_bare_drive (take (suc n) normalized)
    then take (suc n + 1) normalized
    else take (suc n) normalized

-- `dirName`
unfoldable pub dir_name : Text → Text
unfolding to_posix_path
dir_name full_path =
    let normalized = to_posix_path full_path in cut_at normalized (last_index_of b'/' normalized)

abbrev pub without_last : Text → Text
without_last [] = []
without_last (c ∷ []) = []
without_last (c ∷ d ∷ cs) = c ∷ without_last (d ∷ cs)

abbrev pub trimmed : Text → Text
trimmed path =
    let rest = without_first_slash path in if ends_with_slash rest then without_last rest else rest

-- `join`
unfoldable pub join : List Text → Text
unfolding to_posix_path
join paths =
    join_by (b'/' ∷ [])
      (filter_by (λ p. not (is_empty p)) (map (λ p. trimmed (to_posix_path p)) paths))

-- The loop of `normalize`: the parts so far, the last one first, and how many `..` lead out.
abbrev pub is_dot_dot : Text → Bool
is_dot_dot part = part == b'.' ∷ b'.' ∷ []

abbrev pub popped : List Text → List Text
popped [] = []
popped (_ ∷ parts) = parts

abbrev pub one_more : List Text → ℕ → ℕ
one_more [] count = count + 1
one_more (_ ∷ _) count = count

unfoldable pub walk_parts : List Text → List Text → ℕ → List Text × ℕ
walk_parts [] parts count = (parts, count)
walk_parts (part ∷ rest) parts count =
    let up = walk_parts rest (popped parts) (one_more parts count) in
    let down = walk_parts rest (part ∷ parts) count in if is_dot_dot part then up else down

abbrev pub reversed_parts : List Text → List Text → List Text
reversed_parts [] ys = ys
reversed_parts (x ∷ xs) ys = reversed_parts xs (x ∷ ys)

abbrev pub dot_dots : ℕ → List Text → List Text
dot_dots zero parts = parts
dot_dots (suc n) parts = (b'.' ∷ b'.' ∷ []) ∷ dot_dots n parts

abbrev pub is_rooted : Text → Bool
is_rooted [] = false
is_rooted (c ∷ cs) = c == b'/'

abbrev pub absolute : List Text → Text
absolute [] = b'/' ∷ []
absolute (p ∷ ps) = join_by (b'/' ∷ []) ([] ∷ p ∷ ps)

abbrev pub relative : List Text → Text
relative [] = b'.' ∷ []
relative (p ∷ ps) = join_by (b'/' ∷ []) (p ∷ ps)

abbrev pub is_real_part : Text → Bool
is_real_part p = not (is_empty p) && not (p == b'.' ∷ [])

-- `normalize`
unfoldable pub normalize : Text → Text
unfolding to_posix_path walk_parts
normalize path =
    let normalized = to_posix_path path in
    let walked = walk_parts (filter_by is_real_part (split normalized)) [] 0 in
    let parts = reversed_parts walked.0 [] in
    if is_rooted normalized then absolute parts else relative (dot_dots walked.1 parts)
