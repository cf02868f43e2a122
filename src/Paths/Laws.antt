-- ===== src/Paths/Laws.antt =====
-- core/path.ts: a path and its directory, its name, and its place below a base.
use sqlanvil.Base.{
  ℕ, suc, ◌+◌, Text, text_eq, nat_eq, true, false, ◌||◌, if◌then◌else◌, ◌==◌, ==_iff, [], ◌∷◌, ◌++◌,
  some, contains, length, take, ◌≡◌, refl, ap, arith, append_assoc, ◌∙◌, Bool-cases, inl, inr,
}
use sqlanvil.Paths.{
  to_posix_path, ends_with_slash, last_part, filename, dir_name, cut_at, is_bare_drive, is_empty,
  is_windows_drive, comparable_path, lower_first, lower_case, with_trailing_slash, is_start,
  starts_with_path, relative_path,
}
use sqlanvil.Paths.Parts.{
  to_posix_path-append, to_posix_path-id, contains-to_posix_path, drop-append, take-append,
  last_index_of-append, split_from-plain, last_part-split_from,
}

take_suc-append : (d name : Text) (c : ℕ) → take (length d + 1) (d ++ c ∷ name) ≡ d ++ c ∷ []
take_suc-append [] name c = refl
take_suc-append (x ∷ d) name c =
    let one_more : length (x ∷ d) + 1 ≡ suc (length d + 1) = omega arith in
    rw one_more (ap (λ r. x ∷ r) (take_suc-append d name c))

cut_at-length :
    (d name : Text)
    → cut_at (d ++ b'/' ∷ name) (some (length d))
      ≡ (if is_empty d || is_bare_drive d then d ++ b'/' ∷ [] else d)
cut_at-length [] name = refl
cut_at-length (c ∷ d) name =
    let whole = take-append (c ∷ d) (b'/' ∷ name) in
    let with_slash = take_suc-append (c ∷ d) name b'/' in ground (arith, whole, with_slash)

module _ (dir name : Text) (plain : contains name b'/' ≡ false)
    (no_backslash : contains name b'\\' ≡ false) where
  posix-below : to_posix_path (dir ++ b'/' ∷ name) ≡ to_posix_path dir ++ b'/' ∷ name
  unfolding to_posix_path
  posix-below =
      to_posix_path-append dir (b'/' ∷ name) ∙ rw (to_posix_path-id name no_backslash) refl

  filename-append : filename (dir ++ b'/' ∷ name) ≡ name
  unfolding filename
  filename-append = rw posix-below (
      last_part-split_from [] (to_posix_path dir) name
      ∙ ap last_part (split_from-plain [] name plain))

  dir_name-append :
      dir_name (dir ++ b'/' ∷ name)
      ≡ (let d = to_posix_path dir in if is_empty d || is_bare_drive d then d ++ b'/' ∷ [] else d)
  unfolding dir_name
  dir_name-append =
      rw (posix-below, last_index_of-append b'/' (to_posix_path dir) name plain)
        (cut_at-length (to_posix_path dir) name)

  -- A path whose last slash stands before `name` has the file name `name` and as directory what
  -- stands before that slash, with the slash where that is a root: nothing, or a drive.
  pub dir_name-filename :
      (filename (dir ++ b'/' ∷ name) ≡ name)
      × (dir_name (dir ++ b'/' ∷ name) ≡ (
          let d = to_posix_path dir in if is_empty d || is_bare_drive d then d ++ b'/' ∷ [] else d))
  dir_name-filename = (filename-append, dir_name-append)

ends_with_slash-snoc : (p : Text) → ends_with_slash (p ++ b'/' ∷ []) ≡ true
ends_with_slash-snoc [] = refl
ends_with_slash-snoc (c ∷ []) = refl
ends_with_slash-snoc (c ∷ d ∷ p) = ends_with_slash-snoc (d ∷ p)

lower_case-slash : (c : ℕ) → (lower_case c == b'/') ≡ (c == b'/')
lower_case-slash c = ground arith

ends_with_slash-lower_first : (p : Text) → ends_with_slash (lower_first p) ≡ ends_with_slash p
ends_with_slash-lower_first [] = refl
ends_with_slash-lower_first (c ∷ []) = lower_case-slash c
ends_with_slash-lower_first (c ∷ d ∷ p) = refl

ends_with_slash-comparable_path :
    (p : Text) → ends_with_slash (comparable_path p) ≡ ends_with_slash (to_posix_path p)
unfolding comparable_path
ends_with_slash-comparable_path p = ground (arith, ends_with_slash-lower_first (to_posix_path p))

is_start-append : (p s : Text) → is_start p (p ++ s) ≡ true
is_start-append [] s = refl
is_start-append (c ∷ p) s = ground (arith, is_start-append p s, ==_iff c c)

is_windows_drive-below : (b r : Text) → is_windows_drive (b ++ b'/' ∷ r) ≡ is_windows_drive b
is_windows_drive-below [] [] = refl
is_windows_drive-below [] (c ∷ []) = refl
is_windows_drive-below [] (c ∷ d ∷ r) = refl
is_windows_drive-below (x ∷ []) [] = ground arith
is_windows_drive-below (x ∷ []) (c ∷ r) = ground arith
is_windows_drive-below (x ∷ y ∷ []) r = ground arith
is_windows_drive-below (x ∷ y ∷ z ∷ b) r = refl

lower_first-below :
    (b r : Text) → is_windows_drive b ≡ true → lower_first (b ++ r) ≡ lower_first b ++ r
lower_first-below [] r h = absurd (ground (arith, h))
lower_first-below (c ∷ b) r h = refl

comparable_path-below :
    (base rest : Text)
    → comparable_path (base ++ b'/' ∷ rest) ≡ comparable_path base ++ b'/' ∷ to_posix_path rest
unfolding comparable_path to_posix_path
comparable_path-below base rest =
    rw
      (
        to_posix_path-append base (b'/' ∷ rest),
        is_windows_drive-below (to_posix_path base) (to_posix_path rest),
      )
      (elim (Bool-cases (is_windows_drive (to_posix_path base))) [
        | inl drive ↦
            rw (comparable_path, drive)
              (lower_first-below (to_posix_path base) (b'/' ∷ to_posix_path rest) drive)
        | inr other ↦ rw (comparable_path, other) refl
      ])

is_empty-append : (b r : Text) (c : ℕ) → is_empty (b ++ c ∷ r) ≡ false
is_empty-append [] r c = refl
is_empty-append (x ∷ b) r c = refl

is_start-with_trailing_slash :
    (b r : Text) → is_start (b ++ b'/' ∷ []) (with_trailing_slash (b ++ b'/' ∷ r)) ≡ true
is_start-with_trailing_slash b r =
    let same : (b ++ b'/' ∷ []) ++ r ≡ b ++ b'/' ∷ r = append_assoc b (b'/' ∷ []) r in
    elim (Bool-cases (ends_with_slash (b ++ b'/' ∷ r))) [
      | inl closed ↦ rw (closed, ← same) (is_start-append (b ++ b'/' ∷ []) r)
      | inr not_closed ↦
          rw (not_closed, ← same, append_assoc (b ++ b'/' ∷ []) r (b'/' ∷ []))
            (is_start-append (b ++ b'/' ∷ []) (r ++ b'/' ∷ []))
    ]

-- A base without a slash at its end.
starts_with_path-below :
    (base rest : Text)
    → is_empty base ≡ false
    → ends_with_slash (to_posix_path base) ≡ false
    → starts_with_path (base ++ b'/' ∷ rest) base ≡ true
unfolding starts_with_path
starts_with_path-below base rest h no_slash =
    rw
      (
        is_empty-append base rest b'/',
        h,
        comparable_path-below base rest,
        ends_with_slash-comparable_path base,
        no_slash,
      )
      (is_start-with_trailing_slash (comparable_path base) (to_posix_path rest))

is_empty-to_posix_path : (p : Text) → is_empty (to_posix_path p) ≡ is_empty p
unfolding to_posix_path
is_empty-to_posix_path [] = refl
is_empty-to_posix_path (c ∷ p) = refl

-- Of a path that reads, with slashes for backslashes, as a base without a slash at its end, a slash
-- and a rest, `relativePath` gives that rest, whichever separators the path and the base have.
pub relative_path-append :
    (path base rest : Text)
    → is_empty base ≡ false
    → ends_with_slash (to_posix_path base) ≡ false
    → to_posix_path path ≡ to_posix_path base ++ b'/' ∷ to_posix_path rest
    → relative_path path base ≡ to_posix_path rest
unfolding relative_path to_posix_path
relative_path-append path base rest h no_slash reads =
    let b = to_posix_path base in
    let same : to_posix_path b ≡ b = to_posix_path-id b (contains-to_posix_path base) in
    let below : starts_with_path (b ++ b'/' ∷ to_posix_path rest) b ≡ true =
      starts_with_path-below b (to_posix_path rest) (is_empty-to_posix_path base ∙ h)
        (rw same no_slash) in
    rw (h, reads, below, drop-append b (b'/' ∷ to_posix_path rest)) refl
