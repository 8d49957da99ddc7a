-- ===== src/Fetch/Extract/Tree.antt =====
-- crates/hull-ci-fetch/src/extract.rs: what an archive can be extracted to.
use hull_ci.Base.{
  ℕ, suc, ◌+◌, ◌≤◌, ◌≡◌, refl, Bool, List, [], ◌∷◌, Option, none, some, Text, text_eq, text_keys,
  get, put, leb, arith, Bool-cases, inl, inr, sym, ap, subst, Option-cases,
}
use hull_ci.Fetch.Paths.{Names, path_keys, join}
use hull_ci.Fetch.Extract.{
  >>=-eq-ok, ok_inj, Unicode, Limits, good, Result, ok, or_rejected, State, Extracted, Entry,
  EntryType, regular, continuous, directory, symlink, hard, char_device, block_device, fifo,
  x_global, other, no_link, check_symlink_ancestors, check_path, make_dirs, write_file,
  write_symlink, or_default, claim, put_file, put_dir, put_symlink, add_file, add_dir, add_symlink,
  has_target, materialize, checked_entry, entry, entries, start, extract_into, is_x_global,
  is_privileged, display_path,
}
use hull_ci.Fetch.Extract.Created.{IsAllowedPath, IsTree, total_size}
use hull_ci.Fetch.Extract.Dirs.{IsSound, IsClean, make_dirs-MakesDirs}
use hull_ci.Fetch.Extract.Allowed.{check_path-IsAllowedPath}
use hull_ci.Fetch.Extract.Writes.{rejected_inv, write_file-Writes, write_symlink-Writes}

-- The number of entries that were counted.
abbrev pub entry_count : State → ℕ
entry_count st = st.out.files + st.out.dirs + st.out.symlinks

module _ (u : Unicode) (l : Limits) where
  -- What is true of a state between two entries.
  pub record IsExtracted (st : State) : Type 0 where
    pub tree : IsTree u l st.disk st.symlinks st.out.bytes
    pub few : entry_count st ≤ l.max_entries

  claim_inv :
      (st : State) (rel : Names) (display : Text) (out : State)
      → claim u l st rel display ≡ ok out
      → (claimed : List (Text × Text)) × (out ≡ record st { claimed = claimed })
  unfolding claim
  claim_inv st rel display out h =
      elim (Option-cases (get (u.nfc (u.lossy (join rel))) st.claimed)) [
        | inl e ↦
            (put (u.nfc (u.lossy (join rel))) display st.claimed, sym (ok_inj (rw (e, claim) at h)))
        | inr (prev, e) ↦ elim (Bool-cases (text_eq prev display)) [
          | inl f ↦ let no = rw (e, claim, f) at h in absurd (ground arith)
          | inr f ↦ let no = rw (e, claim, f) at h in absurd (ground arith)
        ]
      ]

  -- A claimed path changes nothing that the tree is about.
  module _ (st : State) (c : Text) (cs : Names) (display : Text) (sound : IsSound u l st)
      (clean : IsClean u l st (c ∷ cs)) (room : suc (entry_count st) ≤ l.max_entries) where
    claimed-IsSound : (claimed : List (Text × Text)) → IsSound u l (record st { claimed = claimed })
    claimed-IsSound claimed = record { tree = sound.tree }

    claimed-IsClean :
        (claimed : List (Text × Text)) → IsClean u l (record st { claimed = claimed }) (c ∷ cs)
    claimed-IsClean claimed = record { path = clean.path; no_link = clean.no_link }

    put_file-IsExtracted :
        (e : Entry) (mode : ℕ) (out : State)
        → put_file u l st e (c ∷ cs) mode display ≡ ok out
        → IsExtracted out
    unfolding put_file add_file
    put_file-IsExtracted e mode out h =
        let (st1, e1, h1) = >>=-eq-ok (claim u l st (c ∷ cs) display) _ h in
        let (claimed, same) = claim_inv st (c ∷ cs) display st1 e1 in
        let (st2, e2, h2) = >>=-eq-ok (write_file u l st1 e (c ∷ cs) mode display) _ h1 in
        let w =
          write_file-Writes u l (record st { claimed = claimed }) e c cs mode display st2
            (claimed-IsSound claimed) (claimed-IsClean claimed)
            (subst (λ s. write_file u l s e (c ∷ cs) mode display ≡ ok st2) same e2) in
        subst IsExtracted (ok_inj h2) (record {
          tree = w.sound.tree;
          few = omega (arith, room, w.same_files, w.same_dirs, w.same_symlinks);
        })

    put_symlink-IsExtracted :
        (e : Entry) (out : State) → put_symlink u l st e (c ∷ cs) display ≡ ok out → IsExtracted out
    unfolding put_symlink add_symlink
    put_symlink-IsExtracted e out h =
        let (st1, e1, h1) = >>=-eq-ok (claim u l st (c ∷ cs) display) _ h in
        let (claimed, same) = claim_inv st (c ∷ cs) display st1 e1 in
        let (target, e2, h2) = >>=-eq-ok (has_target e.link_name) _ h1 in
        let (st2, e3, h3) = >>=-eq-ok (write_symlink u l st1 (c ∷ cs) target display) _ h2 in
        let w =
          write_symlink-Writes u l (record st { claimed = claimed }) c cs target display st2
            (claimed-IsSound claimed) (claimed-IsClean claimed)
            (subst (λ s. write_symlink u l s (c ∷ cs) target display ≡ ok st2) same e3) in
        subst IsExtracted (ok_inj h3) (record {
          tree = w.sound.tree;
          few = omega (arith, room, w.same_files, w.same_dirs, w.same_symlinks);
        })

    put_dir-IsExtracted : (out : State) → put_dir u l st (c ∷ cs) display ≡ ok out → IsExtracted out
    unfolding put_dir add_dir
    put_dir-IsExtracted out h =
        let (st1, e1, h1) = >>=-eq-ok (claim u l st (c ∷ cs) display) _ h in
        let (claimed, same) = claim_inv st (c ∷ cs) display st1 e1 in
        let (st2, e2, h2) = >>=-eq-ok (or_rejected display (make_dirs st1 (c ∷ cs))) _ h1 in
        let m =
          make_dirs-MakesDirs u l (record st { claimed = claimed }) st2 (c ∷ cs)
            (claimed-IsSound claimed) (claimed-IsClean claimed)
            (subst (λ s. make_dirs s (c ∷ cs) ≡ good st2) same (rejected_inv display _ e2)) in
        subst IsExtracted (ok_inj h2) (record {
          tree = m.sound.tree;
          few = omega (
            arith,
            room,
            ap (λ (o : Extracted). o.files) m.same_out,
            ap (λ (o : Extracted). o.dirs) m.same_out,
            ap (λ (o : Extracted). o.symlinks) m.same_out,
          );
        })

    materialize-IsExtracted :
        (e : Entry) (mode : ℕ) (kind : EntryType) (out : State)
        → materialize u l st e (c ∷ cs) mode display kind ≡ ok out
        → IsExtracted out
    unfolding materialize
    materialize-IsExtracted e mode directory out h = put_dir-IsExtracted out h
    materialize-IsExtracted e mode regular out h = put_file-IsExtracted e mode out h
    materialize-IsExtracted e mode continuous out h = put_file-IsExtracted e mode out h
    materialize-IsExtracted e mode symlink out h = put_symlink-IsExtracted e out h
    materialize-IsExtracted e mode hard out h = absurd (ground arith)
    materialize-IsExtracted e mode char_device out h = absurd (ground arith)
    materialize-IsExtracted e mode block_device out h = absurd (ground arith)
    materialize-IsExtracted e mode fifo out h = absurd (ground arith)
    materialize-IsExtracted e mode x_global out h = absurd (ground arith)
    materialize-IsExtracted e mode other out h = absurd (ground arith)

  no_link_inv : (o : Option Names) {t : Unit {0}} → no_link u o ≡ good t → o ≡ none
  unfolding no_link
  no_link_inv none h = refl
  no_link_inv (some p) h = absurd (ground arith)

  checked_entry-IsExtracted :
      (st : State) (e : Entry) (mode : ℕ) (display : Text) (rel : Names) (out : State)
      → IsExtracted st
      → suc (entry_count st) ≤ l.max_entries
      → IsAllowedPath u l rel
      → checked_entry u l st e mode display rel ≡ ok out
      → IsExtracted out
  unfolding checked_entry check_symlink_ancestors
  checked_entry-IsExtracted st e mode display [] out x room p h = subst IsExtracted (ok_inj h) x
  checked_entry-IsExtracted st e mode display (c ∷ cs) out x room p h =
      let (t, e1, h1) =
        >>=-eq-ok (or_rejected display (check_symlink_ancestors u st (c ∷ cs))) _ h in
      materialize-IsExtracted st c cs display (record { tree = x.tree })
        (record { path = p; no_link = no_link_inv _ {t = t} (rejected_inv display _ e1) }) room e
        mode e.kind out h1

  entry-IsExtracted :
      (st : State) (e : Entry) (out : State)
      → IsExtracted st
      → entry u l st e ≡ ok out
      → IsExtracted out
  unfolding entry
  entry-IsExtracted st e out x h = elim (Bool-cases (is_x_global e.kind)) [
    | inl a ↦ subst IsExtracted (ok_inj (rw a at h)) x
    | inr a ↦ elim (Bool-cases (leb l.max_entries (entry_count st))) [
      | inl b ↦ let no = rw (a, b) at h in absurd (ground arith)
      | inr b ↦ elim (Bool-cases (is_privileged (or_default 420 e.mode))) [
        | inl d ↦ let no = rw (a, b, d) at h in absurd (ground arith)
        | inr d ↦
            let (rel, e1, h1) =
              >>=-eq-ok (or_rejected (display_path u e.path) (check_path u l e.path)) _
                (rw (a, b, d) at h) in
            checked_entry-IsExtracted st e (or_default 420 e.mode) (display_path u e.path) rel out x
              (ground arith)
              (check_path-IsAllowedPath u l e.path rel (rejected_inv (display_path u e.path) _ e1))
              h1
      ]
    ]
  ]

  entries-IsExtracted :
      (st : State) (archive : List (Result Entry)) (out : State)
      → IsExtracted st
      → entries u l st archive ≡ ok out
      → IsExtracted out
  unfolding entries
  entries-IsExtracted st [] out x h = subst IsExtracted (ok_inj h) x
  entries-IsExtracted st (r ∷ rs) out x h =
      let (e, e1, h1) = >>=-eq-ok r _ h in
      let (st', e2, h2) = >>=-eq-ok (entry u l st e) _ h1 in
      entries-IsExtracted st' rs out (entry-IsExtracted st e st' x e2) h2

  start-IsExtracted : IsExtracted (start u l)
  unfolding start get total_size
  start-IsExtracted = record {
    tree = record {
      not_astray = refl;
      grounded = λ p n h. absurd (ground arith);
      noted = λ p t h. absurd (ground arith);
      allowed = tt;
      counted = refl;
      within = omega arith;
    };
    few = omega arith;
  }

  -- Whatever archive is extracted, no call went through a link and everything above what was made is a
  -- directory that was made; every name and every file keeps to the limits, no name is `..` or has a
  -- backslash or a control character, every link's target read on its own stays inside the tree; the
  -- bytes that were counted are those on the disk, and neither they nor the entries exceed their limits.
  pub extract_into-IsExtracted :
      (is_empty : Bool) (archive : List (Result Entry)) (out : State)
      → extract_into u l is_empty archive ≡ ok out
      → IsExtracted out
  unfolding extract_into
  extract_into-IsExtracted is_empty archive out h = elim (Bool-cases is_empty) [
    | inl e ↦ entries-IsExtracted (start u l) archive out start-IsExtracted (rw e at h)
    | inr e ↦ let no = rw e at h in absurd (ground arith)
  ]
