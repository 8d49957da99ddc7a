-- ===== src/Fetch/Extract/Checks.antt =====
-- crates/hull-ci-fetch/src/extract.rs: the checks of an entry's path and of its place in the tree.
use hull_ci.Base.{
  ℕ, suc, min, Bool, true, false, not, ◌&&◌, ◌||◌, List, [], ◌∷◌, ◌++◌, Option, none, some, Text,
  text_eq, text_keys, get, put, any, leb, ltb, length, take, ◌==◌, if◌then◌else◌,
}
use hull_ci.Fetch.Paths.{
  Component, root_dir, cur_dir, parent_dir, normal, components, Names, path_keys, has_path, join,
}
use hull_ci.Fetch.Extract.Model.{
  Unicode, Limits, Result, Checked, State, absolute_path, parent_traversal, non_utf8_path,
  illegal_byte, backslash_in_name, duplicate, name_too_long, too_deep, unicode_collision,
  symlink_ancestor, rejected, good, bad, ok, err,
}

unfoldable pub is_control : ℕ → Bool
is_control c = ltb c 32 || (leb 127 c && ltb c 160)

abbrev pub max_display_bytes : ℕ
max_display_bytes = 512

-- The path as an error shows it; 8230 is the ellipsis.
unfoldable pub display_path : Unicode → Text → Text
display_path u raw =
    let shown = u.lossy (take (min (length raw) max_display_bytes) raw) in
    if ltb max_display_bytes (length raw) then shown ++ 8230 ∷ [] else shown

unfoldable pub check_chars : Option Text → Checked (Unit {0})
unfolding is_control
check_chars none = bad non_utf8_path
check_chars (some chars) = if any is_control chars then bad illegal_byte else good tt

unfoldable pub has_backslash : Text → Bool
unfolding any
has_backslash name = any (λ c. c == b'\\') name

unfoldable pub is_some : Option Text → Bool
is_some none = false
is_some (some t) = true

module _ (u : Unicode) (l : Limits) where
  unfoldable pub check_name : Text → Checked (Unit {0})
  unfolding check_chars has_backslash is_some
  check_name name =
      if not (is_some (u.decode name))
      then bad non_utf8_path
      else if ltb l.max_name_bytes (length name)
      then bad (name_too_long l.max_name_bytes)
      else if has_backslash name
      then bad backslash_in_name
      else check_chars (u.decode name)

  unfoldable pub after_name : Checked (Unit {0}) → ℕ → Checked Names → Checked Names
  after_name (bad r) depth rest = bad r
  after_name (good t) depth rest =
      if ltb l.max_path_depth depth then bad (too_deep l.max_path_depth) else rest

  -- The loop over the components: the names that were pushed, and their number.
  unfoldable pub check_components : List Component → (out : Names) → ℕ → Checked Names
  unfolding after_name check_name
  check_components [] out depth = good out
  check_components (cur_dir ∷ cs) out depth = check_components cs out depth
  check_components (parent_dir ∷ cs) out depth = bad parent_traversal
  check_components (root_dir ∷ cs) out depth = bad absolute_path
  check_components (normal name ∷ cs) out depth =
      after_name (check_name name) (suc depth) (check_components cs (out ++ name ∷ []) (suc depth))

  -- The empty path is the root of the archive, `None` in the source.
  unfoldable pub check_path : Text → Checked Names
  unfolding check_components
  check_path path = check_components (components path) [] 0

  unfoldable pub claim : State → Names → (display : Text) → Result State
  claim st rel display =
      let key = u.nfc (u.lossy (join rel)) in
      let st' = record st { claimed = put key display st.claimed } in
      elim (get key st.claimed) [
        | none ↦ ok st'
        | some prev ↦
            if text_eq prev display
            then err (rejected display duplicate)
            else err (rejected display (unicode_collision prev))
      ]

-- The first prefix of the path that is a link.
unfoldable pub link_on_path : List Names → (prefix rest : Names) → Option Names
link_on_path symlinks prefix [] = none
link_on_path symlinks prefix (c ∷ cs) =
    let later = link_on_path symlinks (prefix ++ c ∷ []) cs in
    if has_path (prefix ++ c ∷ []) symlinks then some (prefix ++ c ∷ []) else later

unfoldable pub no_link : Unicode → Option Names → Checked (Unit {0})
no_link u none = good tt
no_link u (some p) = bad (symlink_ancestor (u.lossy (join p)))

unfoldable pub check_symlink_ancestors : Unicode → State → Names → Checked (Unit {0})
unfolding no_link link_on_path
check_symlink_ancestors u st rel = no_link u (link_on_path st.symlinks [] rel)
