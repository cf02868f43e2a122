-- ===== src/Paths/Parts.antt =====
-- core/path.ts: lemmas on slashes, and on splitting a path at them.
use sqlanvil.Base.{
  ℕ, Text, text_eq, nat_eq, false, ◌==◌, ==_iff, List, [], ◌∷◌, ◌++◌, none, some, contains, length,
  drop, take, ◌≡◌, refl, ap, arith, append_assoc, append-nil, ◌∙◌, Bool-cases, inl, inr,
}
use sqlanvil.Paths.{to_posix_path, split_from, last_part, last_index_of}

pub to_posix_path-append :
    (xs ys : Text) → to_posix_path (xs ++ ys) ≡ to_posix_path xs ++ to_posix_path ys
unfolding to_posix_path
to_posix_path-append [] ys = refl
to_posix_path-append (x ∷ xs) ys = rw (to_posix_path-append xs ys) refl

-- A text without backslashes is as it was.
pub to_posix_path-id : (xs : Text) → contains xs b'\\' ≡ false → to_posix_path xs ≡ xs
unfolding to_posix_path
to_posix_path-id [] h = refl
to_posix_path-id (x ∷ xs) h = ground (arith, h, to_posix_path-id xs, ==_iff x b'\\', ==_iff b'\\' x)

pub contains-to_posix_path : (xs : Text) → contains (to_posix_path xs) b'\\' ≡ false
unfolding to_posix_path
contains-to_posix_path [] = refl
contains-to_posix_path (x ∷ xs) =
    ground (arith, contains-to_posix_path xs, ==_iff x b'\\', ==_iff b'\\' x)

pub drop-append {ℓ} : {A : Type ℓ} (xs ys : List A) → drop (length xs) (xs ++ ys) ≡ ys
drop-append [] ys = refl
drop-append (x ∷ xs) ys = drop-append xs ys

pub take-append {ℓ} : {A : Type ℓ} (xs ys : List A) → take (length xs) (xs ++ ys) ≡ xs
take-append [] ys = refl
take-append (x ∷ xs) ys = ap (λ r. x ∷ r) (take-append xs ys)

pub last_index_of-none : (c : ℕ) (xs : Text) → contains xs c ≡ false → last_index_of c xs ≡ none
last_index_of-none c [] h = refl
last_index_of-none c (x ∷ xs) h =
    rw (last_index_of-none c xs (ground (arith, h))) (ground (arith, h, ==_iff x c, ==_iff c x))

pub last_index_of-append :
    (c : ℕ) (xs ys : Text)
    → contains ys c ≡ false
    → last_index_of c (xs ++ c ∷ ys) ≡ some (length xs)
last_index_of-append c [] ys h = rw (last_index_of-none c ys h) (ground (arith, ==_iff c c))
last_index_of-append c (x ∷ xs) ys h = rw (last_index_of-append c xs ys h) refl

snoc-append : (part : Text) (x : ℕ) (xs : Text) → (part ++ x ∷ []) ++ xs ≡ part ++ x ∷ xs
snoc-append part x xs = append_assoc part (x ∷ []) xs

-- A part without slashes is read as one part.
pub split_from-plain :
    (part xs : Text) → contains xs b'/' ≡ false → split_from part xs ≡ (part ++ xs) ∷ []
split_from-plain part [] h = rw (append-nil part) refl
split_from-plain part (x ∷ xs) h =
    let next : split_from (part ++ x ∷ []) xs ≡ (part ++ x ∷ xs) ∷ [] =
      split_from-plain (part ++ x ∷ []) xs (ground (arith, h))
      ∙ ap (λ r. r ∷ []) (snoc-append part x xs) in
    ground (arith, h, next, ==_iff x b'/', ==_iff b'/' x)

pub split_from-append :
    (part xs ys : Text)
    → contains xs b'/' ≡ false
    → split_from part (xs ++ b'/' ∷ ys) ≡ (part ++ xs) ∷ split_from [] ys
split_from-append part [] ys h = rw (append-nil part) refl
split_from-append part (x ∷ xs) ys h =
    let next : split_from (part ++ x ∷ []) (xs ++ b'/' ∷ ys) ≡ (part ++ x ∷ xs) ∷ split_from [] ys =
      split_from-append (part ++ x ∷ []) xs ys (ground (arith, h))
      ∙ ap (λ r. r ∷ split_from [] ys) (snoc-append part x xs) in
    ground (arith, h, next, ==_iff x b'/', ==_iff b'/' x)

last_part-cons :
    (p part xs : Text) → last_part (p ∷ split_from part xs) ≡ last_part (split_from part xs)
last_part-cons p part [] = refl
last_part-cons p part (x ∷ xs) = elim (Bool-cases (x == b'/')) [
  | inl slash ↦ rw slash refl
  | inr other ↦ rw other (last_part-cons p (part ++ x ∷ []) xs)
]

pub last_part-split_from :
    (part xs ys : Text)
    → last_part (split_from part (xs ++ b'/' ∷ ys)) ≡ last_part (split_from [] ys)
last_part-split_from part [] ys = last_part-cons part [] ys
last_part-split_from part (x ∷ xs) ys = elim (Bool-cases (x == b'/')) [
  | inl slash ↦ rw slash (last_part-cons part [] (xs ++ b'/' ∷ ys) ∙ last_part-split_from [] xs ys)
  | inr other ↦ rw other (last_part-split_from (part ++ x ∷ []) xs ys)
]
