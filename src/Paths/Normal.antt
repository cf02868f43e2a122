-- ===== src/Paths/Normal.antt =====
-- core/path.ts: what `normalize` gives is normal, so it changes nothing the second time.
use sqlanvil.Base.{
  ℕ, zero, suc, ◌+◌, Text, text_eq, nat_eq, true, false, if◌then◌else◌, ◌==◌, ==_iff, List, [], ◌∷◌,
  ◌++◌, contains, contains-append, filter_by, ◌≡◌, refl, ap, arith, append_assoc, append-nil, All,
  sym, ◌∙◌, Bool-cases, inl, inr,
}
use sqlanvil.Paths.{
  to_posix_path, split_from, split, join_by, is_dot_dot, popped, one_more, walk_parts,
  reversed_parts, dot_dots, is_rooted, absolute, relative, is_real_part, normalize,
}
use sqlanvil.Paths.Parts.{
  to_posix_path-id, contains-to_posix_path, split_from-plain, split_from-append,
}

-- A part without separators.
abbrev IsFlat : Text → Type 0
IsFlat p = (contains p b'/' ≡ false) × (contains p b'\\' ≡ false)

-- A part that `normalize` reads, and one that it keeps.
abbrev IsPart : Text → Type 0
IsPart p = IsFlat p × (is_real_part p ≡ true)

abbrev IsKept : Text → Type 0
IsKept p = IsPart p × (is_dot_dot p ≡ false)

IsFlat-snoc :
    (part : Text) (x : ℕ)
    → IsFlat part
    → x == b'/' ≡ false
    → x == b'\\' ≡ false
    → IsFlat (part ++ x ∷ [])
IsFlat-snoc part x flat h1 h2 = (
  rw (contains-append part (x ∷ []) b'/')
      (ground (arith, flat.0, h1, ==_iff x b'/', ==_iff b'/' x)),
  rw (contains-append part (x ∷ []) b'\\')
      (ground (arith, flat.1, h2, ==_iff x b'\\', ==_iff b'\\' x)),
)

split_from-IsFlat :
    (part xs : Text) → IsFlat part → contains xs b'\\' ≡ false → All IsFlat (split_from part xs)
split_from-IsFlat part [] flat h = (flat, tt)
split_from-IsFlat part (x ∷ xs) flat h = elim (Bool-cases (x == b'/')) [
  | inl slash ↦ rw slash (flat, split_from-IsFlat [] xs (refl, refl) (ground (arith, h)))
  | inr other ↦ rw other (
      split_from-IsFlat (part ++ x ∷ []) xs
        (IsFlat-snoc part x flat other (ground (arith, h, ==_iff x b'\\', ==_iff b'\\' x)))
        (ground (arith, h)))
]

real-IsPart : (ps : List Text) → All IsFlat ps → All IsPart (filter_by is_real_part ps)
real-IsPart [] h = tt
real-IsPart (p ∷ ps) h = elim (Bool-cases (is_real_part p)) [
  | inl real ↦ rw real ((h.0, real), real-IsPart ps h.1)
  | inr other ↦ rw other (real-IsPart ps h.1)
]

popped-IsKept : (ps : List Text) → All IsKept ps → All IsKept (popped ps)
popped-IsKept [] h = tt
popped-IsKept (p ∷ ps) h = h.1

walk_parts-IsKept :
    (ps kept : List Text) (count : ℕ)
    → All IsPart ps
    → All IsKept kept
    → All IsKept (walk_parts ps kept count).0
unfolding walk_parts
walk_parts-IsKept [] kept count h k = k
walk_parts-IsKept (p ∷ ps) kept count h k = elim (Bool-cases (is_dot_dot p)) [
  | inl up ↦
      rw up (walk_parts-IsKept ps (popped kept) (one_more kept count) h.1 (popped-IsKept kept k))
  | inr down ↦ rw down (walk_parts-IsKept ps (p ∷ kept) count h.1 ((h.0, down), k))
]

reversed_parts-IsKept :
    (xs ys : List Text) → All IsKept xs → All IsKept ys → All IsKept (reversed_parts xs ys)
reversed_parts-IsKept [] ys hx hy = hy
reversed_parts-IsKept (x ∷ xs) ys hx hy = reversed_parts-IsKept xs (x ∷ ys) hx.1 (hx.0, hy)

reversed_parts-reversed_parts :
    (xs ys zs : List Text) → reversed_parts (reversed_parts xs ys) zs ≡ reversed_parts ys (xs ++ zs)
reversed_parts-reversed_parts [] ys zs = refl
reversed_parts-reversed_parts (x ∷ xs) ys zs = reversed_parts-reversed_parts xs (x ∷ ys) zs

-- Normal parts are read as they are.
walk_parts-IsKept_id :
    (ps kept : List Text) (count : ℕ)
    → All IsKept ps
    → walk_parts ps kept count ≡ (reversed_parts ps kept, count)
unfolding walk_parts
walk_parts-IsKept_id [] kept count h = refl
walk_parts-IsKept_id (p ∷ ps) kept count h = rw h.0.1 (walk_parts-IsKept_id ps (p ∷ kept) count h.1)

walk_parts-dot_dots :
    (n : ℕ) (ps : List Text) (count : ℕ)
    → walk_parts (dot_dots n ps) [] count ≡ walk_parts ps [] (n + count)
unfolding walk_parts
walk_parts-dot_dots zero ps count = let same : 0 + count ≡ count = omega arith in rw same refl
walk_parts-dot_dots (suc n) ps count =
    let same : n + (count + 1) ≡ suc n + count = omega arith in
    walk_parts-dot_dots n ps (count + 1) ∙ ap (λ c. walk_parts ps [] c) same

IsKept→IsPart : (ps : List Text) → All IsKept ps → All IsPart ps
IsKept→IsPart [] h = tt
IsKept→IsPart (p ∷ ps) h = (h.0.0, IsKept→IsPart ps h.1)

dot_dots-IsPart : (n : ℕ) (ps : List Text) → All IsPart ps → All IsPart (dot_dots n ps)
dot_dots-IsPart zero ps h = h
dot_dots-IsPart (suc n) ps h = (((refl, refl), refl), dot_dots-IsPart n ps h)

filter_by-IsPart : (ps : List Text) → All IsPart ps → filter_by is_real_part ps ≡ ps
filter_by-IsPart [] h = refl
filter_by-IsPart (p ∷ ps) h = rw (h.0.1) (ap (λ r. p ∷ r) (filter_by-IsPart ps h.1))

abbrev slashed : List Text → Text
slashed ps = join_by (b'/' ∷ []) ps

slashed-cons : (p q : Text) (ps : List Text) → slashed (p ∷ q ∷ ps) ≡ p ++ b'/' ∷ slashed (q ∷ ps)
slashed-cons p q ps = append_assoc p (b'/' ∷ []) (slashed (q ∷ ps))

split-slashed :
    (p : Text) (ps : List Text) → All IsFlat (p ∷ ps) → split_from [] (slashed (p ∷ ps)) ≡ p ∷ ps
split-slashed p [] h = split_from-plain [] p h.0.0
split-slashed p (q ∷ ps) h =
    ap (split_from []) (slashed-cons p q ps)
    ∙ split_from-append [] p (slashed (q ∷ ps)) h.0.0
    ∙ ap (λ r. p ∷ r) (split-slashed q ps h.1)

slashed-posix : (ps : List Text) → All IsFlat ps → contains (slashed ps) b'\\' ≡ false
slashed-posix [] h = refl
slashed-posix (p ∷ []) h = h.0.1
slashed-posix (p ∷ q ∷ ps) h =
    rw (slashed-cons p q ps, contains-append p (b'/' ∷ slashed (q ∷ ps)) b'\\')
      (ground (arith, h.0.1, slashed-posix (q ∷ ps) h.1))

IsPart→IsFlat : (ps : List Text) → All IsPart ps → All IsFlat ps
IsPart→IsFlat [] h = tt
IsPart→IsFlat (p ∷ ps) h = (h.0.0, IsPart→IsFlat ps h.1)

-- A text whose parts are normal.
normalize-parts :
    (s : Text) (n : ℕ) (ps : List Text)
    → contains s b'\\' ≡ false
    → filter_by is_real_part (split s) ≡ dot_dots n ps
    → All IsKept ps
    → normalize s ≡ (if is_rooted s then absolute ps else relative (dot_dots n ps))
unfolding normalize
normalize-parts s n ps posix parts kept =
    let same : to_posix_path s ≡ s = to_posix_path-id s posix in
    let walked : walk_parts (dot_dots n ps) [] 0 ≡ (reversed_parts ps [], n + 0) =
      walk_parts-dot_dots n ps 0 ∙ walk_parts-IsKept_id ps [] (n + 0) kept in
    let back : reversed_parts (reversed_parts ps []) [] ≡ ps =
      reversed_parts-reversed_parts ps [] [] ∙ append-nil ps in
    let count : n + 0 ≡ n = omega arith in rw (same, parts, walked, back, count) refl

is_rooted-slashed : (p : Text) (ps : List Text) → IsPart p → is_rooted (slashed (p ∷ ps)) ≡ false
is_rooted-slashed [] ps h = absurd (ground (arith, h.1))
is_rooted-slashed (c ∷ p) [] h = ground (arith, h.0.0, ==_iff c b'/', ==_iff b'/' c)
is_rooted-slashed (c ∷ p) (q ∷ ps) h = ground (arith, h.0.0, ==_iff c b'/', ==_iff b'/' c)

normalize-absolute : (ps : List Text) → All IsKept ps → normalize (absolute ps) ≡ absolute ps
normalize-absolute [] kept = normalize-parts (b'/' ∷ []) 0 [] refl refl tt
normalize-absolute (p ∷ ps) kept =
    let parts = IsKept→IsPart (p ∷ ps) kept in
    let flat : All IsFlat ([] ∷ p ∷ ps) = ((refl, refl), IsPart→IsFlat (p ∷ ps) parts) in
    normalize-parts (absolute (p ∷ ps)) 0 (p ∷ ps) (slashed-posix ([] ∷ p ∷ ps) flat)
      (ap (filter_by is_real_part) (split-slashed [] (p ∷ ps) flat)
        ∙ filter_by-IsPart (p ∷ ps) parts)
      kept

relative-parts :
    (n : ℕ) (ps qs : List Text)
    → All IsKept ps
    → All IsPart qs
    → dot_dots n ps ≡ qs
    → normalize (relative qs) ≡ relative qs
relative-parts n ps [] kept h e = normalize-parts (b'.' ∷ []) n ps refl (sym e) kept ∙ ap relative e
relative-parts n ps (q ∷ qs) kept h e =
    let flat = IsPart→IsFlat (q ∷ qs) h in
    let read : filter_by is_real_part (split (slashed (q ∷ qs))) ≡ dot_dots n ps =
      rw (split-slashed q qs flat) (filter_by-IsPart (q ∷ qs) h ∙ sym e) in
    normalize-parts (slashed (q ∷ qs)) n ps (slashed-posix (q ∷ qs) flat) read kept
    ∙ rw (is_rooted-slashed q qs h.0) (ap relative e)

normalize-relative :
    (n : ℕ) (ps : List Text)
    → All IsKept ps
    → normalize (relative (dot_dots n ps)) ≡ relative (dot_dots n ps)
normalize-relative n ps kept =
    relative-parts n ps (dot_dots n ps) kept (dot_dots-IsPart n ps (IsKept→IsPart ps kept)) refl

-- Normalizing a normalized path changes nothing.
pub normalize-normalize : (path : Text) → normalize (normalize path) ≡ normalize path
unfolding normalize
normalize-normalize path =
    let posix = to_posix_path path in
    let walked = walk_parts (filter_by is_real_part (split posix)) [] 0 in
    let parts = reversed_parts walked.0 [] in
    let flat : All IsFlat (split posix) =
      split_from-IsFlat [] posix (refl, refl) (contains-to_posix_path path) in
    let kept : All IsKept parts =
      reversed_parts-IsKept walked.0 []
        (walk_parts-IsKept (filter_by is_real_part (split posix)) [] 0
          (real-IsPart (split posix) flat) tt)
        tt in
    elim (Bool-cases (is_rooted posix)) [
      | inl rooted ↦ rw rooted (normalize-absolute parts kept)
      | inr other ↦ rw other (normalize-relative walked.1 parts kept)
    ]
