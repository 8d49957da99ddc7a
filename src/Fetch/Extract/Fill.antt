-- ===== src/Fetch/Extract/Fill.antt =====
-- crates/hull-ci-fetch/src/extract.rs: the entries made on the disk.
use hull_ci.Base.{
  ℕ, zero, suc, ◌+◌, ◌-◌, ◌/◌, ◌%◌, min, Bool, true, false, not, ◌||◌, List, [], ◌∷◌, ◌++◌, Option,
  none, some, Text, text_keys, leb, ltb, length, ◌==◌, if◌then◌else◌,
}
use hull_ci.Fetch.Paths.{
  Component, root_dir, cur_dir, parent_dir, normal, components, is_absolute, Names, path_keys,
  has_path, parent,
}
use hull_ci.Fetch.Disk.{dir, file, link, Disk, create}
use hull_ci.Fetch.Extract.Model.{
  Unicode, Limits, Result, Checked, or_rejected, EntryType, Body, Entry, State, hard_link,
  special_file, absolute_symlink_target, symlink_escapes_root, conflict, privileged_mode,
  file_too_large, malformed, destination_not_empty, too_many_entries, content_too_large, rejected,
  good, bad, regular, continuous, directory, symlink, hard, x_global, holds, breaks, ok, err, ◌>>=◌,
}
use hull_ci.Fetch.Extract.Checks.{display_path, check_path, claim, check_symlink_ancestors}

-- `create_dir`, and the note of it.
unfoldable pub made_dir : State → Names → Disk × Bool → Checked State
made_dir st p (disk, true) = good (record st { disk = disk; dirs = p ∷ st.dirs })
made_dir st p (disk, false) = bad conflict

unfoldable pub make_dir : State → Names → Checked State
unfolding made_dir
make_dir st p = if has_path p st.dirs then good st else made_dir st p (create st.disk p dir)

unfoldable pub make_dirs_from : State → (prefix rest : Names) → Checked State
unfolding make_dir
make_dirs_from st prefix [] = good st
make_dirs_from st prefix (c ∷ cs) = elim (make_dir st (prefix ++ c ∷ [])) [
  | bad r ↦ bad r
  | good st' ↦ make_dirs_from st' (prefix ++ c ∷ []) cs
]

unfoldable pub make_dirs : State → Names → Checked State
unfolding make_dirs_from
make_dirs st rel = make_dirs_from st [] rel

-- `io::copy` from the entry, limited to so many bytes: how many were written.
unfoldable pub copy : Body → ℕ → Result ℕ
copy (holds n) limit = ok (min n limit)
copy (breaks n e) limit = if ltb n limit then err e else ok limit

unfoldable pub copied : Result ℕ → ℕ
copied (ok n) = n
copied (err e) = 0

-- `mode & 0o111 != 0` and `mode & 0o7000 != 0`.
unfoldable pub is_executable : ℕ → Bool
is_executable mode = not (mode % 2 == 0) || not (mode / 8 % 2 == 0) || not (mode / 64 % 2 == 0)

unfoldable pub is_privileged : ℕ → Bool
is_privileged mode = not (mode / 512 % 8 == 0)

unfoldable pub or_default : ℕ → Option ℕ → ℕ
or_default d none = d
or_default d (some n) = n

unfoldable pub linked : State → Names → (display : Text) → Disk × Bool → Result State
linked st rel display (disk, true) = ok (record st { disk = disk; symlinks = rel ∷ st.symlinks })
linked st rel display (disk, false) = err (rejected display conflict)

-- The loop over the target: how many names the stack holds, and the refusal where it would pop none.
unfoldable pub check_target : List Component → (stack : ℕ) → Checked (Unit {0})
check_target [] stack = good tt
check_target (cur_dir ∷ cs) stack = check_target cs stack
check_target (normal n ∷ cs) stack = check_target cs (suc stack)
check_target (root_dir ∷ cs) stack = bad absolute_symlink_target
check_target (parent_dir ∷ cs) zero = bad symlink_escapes_root
check_target (parent_dir ∷ cs) (suc stack) = check_target cs stack

unfoldable pub has_target : Option Text → Result Text
has_target none = err malformed
has_target (some target) = ok target

unfoldable pub add_dir : State → State
add_dir st = record st { out = record st.out { dirs = suc st.out.dirs } }

unfoldable pub add_file : State → State
add_file st = record st { out = record st.out { files = suc st.out.files } }

unfoldable pub add_symlink : State → State
add_symlink st = record st { out = record st.out { symlinks = suc st.out.symlinks } }

unfoldable pub is_x_global : EntryType → Bool
is_x_global x_global = true
is_x_global _ = false

-- `create_new`. The node has the size that is written, or what was written before an error.
unfoldable pub opened : (display : Text) → Disk × Bool → Result Disk
opened display (disk, true) = ok disk
opened display (disk, false) = err (rejected display conflict)

module _ (u : Unicode) (l : Limits) where
  unfoldable pub written_to : State → (display : Text) → Disk → (room written : ℕ) → Result State
  written_to st display disk room written =
      if ltb l.max_file_bytes written
      then err (rejected display (file_too_large l.max_file_bytes))
      else if ltb room written
      then err (content_too_large l.max_total_bytes)
      else ok (record st { disk = disk; out = record st.out { bytes = st.out.bytes + written } })

  unfoldable pub write_file : State → Entry → Names → (mode : ℕ) → (display : Text) → Result State
  unfolding copy copied is_executable opened written_to
  write_file st e rel mode display =
      if ltb l.max_file_bytes (or_default 0 e.size)
      then err (rejected display (file_too_large l.max_file_bytes))
      else do
        st1 ← or_rejected display (make_dirs st (parent rel))
        let room = min l.max_file_bytes (l.max_total_bytes - st1.out.bytes)
        disk ←
            opened display
              (create st1.disk rel (file (copied (copy e.body (room + 1))) (is_executable mode)))
        written ← copy e.body (room + 1)
        written_to st1 display disk room written

  unfoldable pub write_symlink : State → Names → (target display : Text) → Result State
  unfolding linked check_target
  write_symlink st rel target display =
      if is_absolute target then err (rejected display absolute_symlink_target) else do
        t ← or_rejected display (check_target (components target) (length (parent rel)))
        st1 ← or_rejected display (make_dirs st (parent rel))
        linked st1 rel display (create st1.disk rel (link target))

  unfoldable pub put_file : State → Entry → Names → (mode : ℕ) → (display : Text) → Result State
  unfolding add_file
  put_file st e rel mode display = do
    st1 ← claim u l st rel display
    st2 ← write_file st1 e rel mode display
    ok (add_file st2)

  unfoldable pub put_dir : State → Names → (display : Text) → Result State
  unfolding add_dir
  put_dir st rel display = do
    st1 ← claim u l st rel display
    st2 ← or_rejected display (make_dirs st1 rel)
    ok (add_dir st2)

  unfoldable pub put_symlink : State → Entry → Names → (display : Text) → Result State
  unfolding add_symlink has_target
  put_symlink st e rel display = do
    st1 ← claim u l st rel display
    target ← has_target e.link_name
    st2 ← write_symlink st1 rel target display
    ok (add_symlink st2)

  unfoldable pub materialize :
      State → Entry → Names → (mode : ℕ) → (display : Text) → EntryType → Result State
  materialize st e rel mode display directory = put_dir st rel display
  materialize st e rel mode display regular = put_file st e rel mode display
  materialize st e rel mode display continuous = put_file st e rel mode display
  materialize st e rel mode display symlink = put_symlink st e rel display
  materialize st e rel mode display hard = err (rejected display hard_link)
  materialize st e rel mode display _ = err (rejected display special_file)

  unfoldable pub checked_entry :
      State → Entry → (mode : ℕ) → (display : Text) → Names → Result State
  checked_entry st e mode display [] = ok st
  checked_entry st e mode display (c ∷ cs) = do
    t ← or_rejected display (check_symlink_ancestors u st (c ∷ cs))
    materialize st e (c ∷ cs) mode display e.kind

  unfoldable pub entry : State → Entry → Result State
  unfolding checked_entry is_x_global is_privileged
  entry st e =
      let display = display_path u e.path in
      let mode = or_default 420 e.mode in
      if is_x_global e.kind
      then ok st
      else if leb l.max_entries (st.out.files + st.out.dirs + st.out.symlinks)
      then err (too_many_entries l.max_entries)
      else if is_privileged mode
      then err (rejected display (privileged_mode mode))
      else do rel ← or_rejected display (check_path u l e.path); checked_entry st e mode display rel

  -- The loop over the entries; a broken stream is an error in place of one.
  unfoldable pub entries : State → List (Result Entry) → Result State
  unfolding entry
  entries st [] = ok st
  entries st (r ∷ rs) = do e ← r; st' ← entry st e; entries st' rs

  unfoldable pub start : State
  start = record {
    disk = record { nodes = []; astray = false };
    claimed = [];
    dirs = [];
    symlinks = [];
    out = record { files = 0; dirs = 0; symlinks = 0; bytes = 0 };
  }

  -- `is_empty` says whether the destination holds nothing.
  unfoldable pub extract_into : (is_empty : Bool) → List (Result Entry) → Result State
  unfolding start entries
  extract_into is_empty archive =
      if not is_empty then err destination_not_empty else entries start archive
