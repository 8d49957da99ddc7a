-- ===== src/Fetch/Examples.antt =====
-- crates/hull-ci-fetch/src/extract.rs: the theorem at a directory, a file in it and a link to it.
use hull_ci.Fetch.Paths.{
  components, has_path, join, first_parts, is_absolute, later_parts, parent, split_slash,
}
use hull_ci.Base.{◌≡◌, refl, true, false, [], ◌∷◌, none, some, lit, text_eq, get, put, any}
use hull_ci.Fetch.Extract.{
  Unicode, Limits, Entry, State, ok, extract_into, directory, regular, symlink, holds, or_default,
  or_rejected, check_path, check_symlink_ancestors, materialize, put_dir, claim, make_dirs,
  put_file, write_file, check_components, check_name, check_target, display_path, entries, entry,
  is_control, link_on_path, make_dirs_from, put_symlink, start, write_symlink,
}
use hull_ci.Fetch.Disk.{Node, create, past, walk}
use hull_ci.Fetch.Extract.Tree.{IsExtracted, extract_into-IsExtracted}

abbrev ascii : Unicode
ascii = record { decode = λ t. some t; lossy = λ t. t; nfc = λ t. t }

abbrev limits : Limits
limits = record {
  max_entries = 10;
  max_file_bytes = 100;
  max_total_bytes = 150;
  max_path_depth = 4;
  max_name_bytes = 20;
}

abbrev bin : Entry
bin = record {
  kind = directory;
  path = lit "bin/";
  mode = some 493;
  size = some 0;
  link_name = none;
  body = holds 0;
}

abbrev tool : Entry
tool = record {
  kind = regular;
  path = lit "bin/sh";
  mode = some 493;
  size = some 64;
  link_name = none;
  body = holds 64;
}

abbrev link : Entry
link = record {
  kind = symlink;
  path = lit "sh";
  mode = some 511;
  size = some 0;
  link_name = some (lit "bin/sh");
  body = holds 0;
}

abbrev tree : State
tree = record {
  disk = record {
    nodes =
        (lit "sh" ∷ [], Node.link (lit "bin/sh"))
        ∷ (lit "bin" ∷ lit "sh" ∷ [], Node.file 64 true)
        ∷ (lit "bin" ∷ [], Node.dir)
        ∷ [];
    astray = false;
  };
  claimed = (lit "bin", lit "bin/") ∷ (lit "bin/sh", lit "bin/sh") ∷ (lit "sh", lit "sh") ∷ [];
  dirs = (lit "bin" ∷ []) ∷ [];
  symlinks = (lit "sh" ∷ []) ∷ [];
  out = record { files = 1; dirs = 1; symlinks = 1; bytes = 64 };
}

extracts : extract_into ascii limits true (ok bin ∷ ok tool ∷ ok link ∷ []) ≡ ok tree
unfolding extract_into lit or_default or_rejected check_path components text_eq
    check_symlink_ancestors has_path materialize put_dir claim get make_dirs create put_file put
    join write_file any past walk check_components check_name check_target display_path entries
    entry is_control link_on_path make_dirs_from put_symlink start write_symlink first_parts
    is_absolute later_parts parent split_slash
extracts = refl

extract_into-IsExtracted_example : IsExtracted ascii limits tree
extract_into-IsExtracted_example =
    extract_into-IsExtracted ascii limits true (ok bin ∷ ok tool ∷ ok link ∷ []) tree extracts
