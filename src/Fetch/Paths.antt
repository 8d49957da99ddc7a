-- ===== src/Fetch/Paths.antt =====
-- The paths that crates/hull-ci-fetch/src/extract.rs reads and builds. A path is its bytes, and
-- `components` is that of the standard library on Unix. A path that was checked is the list of its names.
use hull_ci.Base.{
  ◌≡◌, ◌↔◌, Bool, true, false, ◌&&◌, List, [], ◌∷◌, ◌++◌, Text, text_eq, text_eq_iff, Eq, any, ◌==◌,
  if◌then◌else◌, arith,
}

pub data Component : Type 0 where
  root_dir cur_dir parent_dir : Component
  normal : Text → Component

-- The parts between the slashes, the first of them and the rest.
unfoldable pub split_slash : Text → Text × List Text
split_slash [] = ([], [])
split_slash (c ∷ cs) =
    let (p, ps) = split_slash cs in if c == b'/' then ([], p ∷ ps) else (c ∷ p, ps)

abbrev dot : Text
dot = b'.' ∷ []

-- What is left of the parts after the first: empty ones and `.` are passed over.
unfoldable pub later_parts : List Text → List Component
later_parts [] = []
later_parts ([] ∷ ps) = later_parts ps
later_parts ((c ∷ cs) ∷ ps) =
    let rest = later_parts ps in
    if text_eq (c ∷ cs) dot
    then rest
    else if text_eq (c ∷ cs) (b'.' ∷ b'.' ∷ [])
    then parent_dir ∷ rest
    else normal (c ∷ cs) ∷ rest

-- A leading `.` is a component, and so is a leading slash.
unfoldable pub first_parts : Bool → Text × List Text → List Component
unfolding later_parts
first_parts rooted ([], ps) = if rooted then root_dir ∷ later_parts ps else later_parts ps
first_parts rooted (c ∷ cs, ps) =
    if text_eq (c ∷ cs) dot then cur_dir ∷ later_parts ps else later_parts ((c ∷ cs) ∷ ps)

unfoldable pub is_absolute : Text → Bool
is_absolute [] = false
is_absolute (c ∷ cs) = c == b'/'

unfoldable pub components : Text → List Component
unfolding first_parts split_slash is_absolute
components path = first_parts (is_absolute path) (split_slash path)

-- A path as its names.
abbrev pub Names : Type 0
Names = List Text

pub path_eq : Names → Names → Bool
path_eq [] [] = true
path_eq [] (y ∷ ys) = false
path_eq (x ∷ xs) [] = false
path_eq (x ∷ xs) (y ∷ ys) = text_eq x y && path_eq xs ys

pub path_eq_iff : (xs ys : Names) → (path_eq xs ys ≡ true) ↔ (xs ≡ ys)
unfolding path_eq
path_eq_iff [] [] = ground arith
path_eq_iff [] (y ∷ ys) = ground arith
path_eq_iff (x ∷ xs) [] = ground arith
path_eq_iff (x ∷ xs) (y ∷ ys) = ground (arith, text_eq_iff x y, path_eq_iff xs ys)

instance abbrev pub path_keys : Eq Names
path_keys = record { same = path_eq; same_iff = path_eq_iff }

unfoldable pub has_path : Names → List Names → Bool
unfolding any path_eq
has_path p paths = any (λ q. path_eq q p) paths

-- `Path::to_string_lossy` of a checked path, which is text.
unfoldable pub join : Names → Text
join [] = []
join (n ∷ []) = n
join (n ∷ m ∷ ms) = n ++ b'/' ∷ join (m ∷ ms)

-- `Path::parent` of a path of one name at least.
unfoldable pub parent : Names → Names
parent [] = []
parent (n ∷ []) = []
parent (n ∷ m ∷ ms) = n ∷ parent (m ∷ ms)
