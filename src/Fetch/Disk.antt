-- ===== src/Fetch/Disk.antt =====
-- What `std::fs` does for crates/hull-ci-fetch/src/extract.rs, in the empty directory that an archive is
-- extracted into. A call that would go through a link is carried out where the link leads, outside of
-- what is modelled: then `astray` is set. The disk does not fail by itself.
pub mod Ways
use hull_ci.Base.{
  ℕ, ◌+◌, ◌≡◌, Bool, true, false, List, [], ◌∷◌, ◌++◌, Option, none, some, Text, get, if◌then◌else◌,
}
use hull_ci.Fetch.Paths.{Names, path_keys}

pub data Node : Type 0 where
  dir : Node
  file : (size : ℕ) → (executable : Bool) → Node
  link : (target : Text) → Node

abbrev pub Nodes : Type 0
Nodes = List (Names × Node)

pub record Disk : Type 0 where
  pub nodes : Nodes
  pub astray : Bool

pub data Way : Type 0 where
  clear blocked followed : Way

unfoldable pub past : Option Node → Way → Way
past none rest = blocked
past (some dir) rest = rest
past (some (file size x)) rest = blocked
past (some (link target)) rest = followed

-- What stands on the way to the last name: directories only, or first something else.
unfoldable pub walk : Nodes → (prefix rest : Names) → Way
unfolding past
walk nodes prefix [] = clear
walk nodes prefix (c ∷ []) = clear
walk nodes prefix (c ∷ d ∷ r) =
    past (get (prefix ++ c ∷ []) nodes) (walk nodes (prefix ++ c ∷ []) (d ∷ r))

is_free : Option Node → Bool
is_free none = true
is_free (some n) = false

create_by : Disk → Names → Node → Way → Disk × Bool
unfolding is_free
create_by d p n clear =
    if is_free (get p d.nodes) then (record d { nodes = (p, n) ∷ d.nodes }, true) else (d, false)
create_by d p n blocked = (d, false)
create_by d p n followed = (record d { astray = true }, true)

-- `create_dir`, `symlink`, and `open` with `create_new`: never on what is there already.
unfoldable pub create : Disk → Names → Node → Disk × Bool
unfolding create_by walk
create d p n = create_by d p n (walk d.nodes [] p)
