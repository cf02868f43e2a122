-- ===== src/Paths/Examples.antt =====
-- Runs of the models of core/path.ts on short paths.
use sqlanvil.Base.{Text, ◌∷◌, [], ◌++◌, ◌≡◌, refl}
use sqlanvil.Paths.{to_posix_path, normalize, walk_parts, relative_path}
use sqlanvil.Paths.Laws.{relative_path-append}
use sqlanvil.Paths.Normal.{normalize-normalize}

-- `../x\\.\\..\\a`
abbrev crooked : Text
crooked = b'.' ∷ b'.' ∷ b'/' ∷ b'x' ∷ b'\\' ∷ b'.' ∷ b'\\' ∷ b'.' ∷ b'.' ∷ b'\\' ∷ b'a' ∷ []

normalized : normalize crooked ≡ b'.' ∷ b'.' ∷ b'/' ∷ b'a' ∷ []
unfolding normalize to_posix_path walk_parts
normalized = refl

normalize-normalize_example : normalize (normalize crooked) ≡ normalize crooked
normalize-normalize_example = normalize-normalize crooked

-- `C:\p` and `d\a`
abbrev project : Text
project = b'C' ∷ b':' ∷ b'\\' ∷ b'p' ∷ []

abbrev file : Text
file = b'd' ∷ b'\\' ∷ b'a' ∷ []

relative_path-append_example : relative_path (project ++ b'/' ∷ file) project ≡ to_posix_path file
unfolding to_posix_path
relative_path-append_example =
    relative_path-append (project ++ b'/' ∷ file) project file refl refl refl

abbrev drive : Text
drive = b'C' ∷ b':' ∷ []
