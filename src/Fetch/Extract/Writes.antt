-- ===== src/Fetch/Extract/Writes.antt =====
-- crates/hull-ci-fetch/src/extract.rs: the writing of a file and of a link.
use hull_ci.Base.{
  ℕ, ◌+◌, ◌-◌, ◌≤◌, ◌≡◌, refl, Bool, true, false, List, [], ◌∷◌, ◌++◌, Text, text_keys, any, ltb,
  min, length, arith, Bool-cases, inl, inr, sym, ap, subst,
}
use hull_ci.Fetch.Paths.{components, is_absolute, Names, path_keys, path_eq_iff, has_path, parent}
use hull_ci.Fetch.Disk.{file, link, Disk, create}
use hull_ci.Fetch.Extract.{
  >>=-eq-ok, ok_inj, Unicode, Limits, Checked, good, bad, Result, ok, err, or_rejected, State,
  Extracted, Entry, make_dirs, copy, copied, opened, written_to, write_file, check_target, linked,
  write_symlink, or_default, is_executable,
}
use hull_ci.Fetch.Extract.Created.{IsTree, create-IsTree}
use hull_ci.Fetch.Extract.Dirs.{IsSound, IsClean, IsClean-front, make_dirs-MakesDirs, IsClean-same}
use hull_ci.Fetch.Extract.Allowed.{check_target-StaysInside}

pub rejected_inv {ℓ} :
    {A : Type ℓ} (display : Text) (o : Checked A) {x : A}
    → or_rejected display o ≡ ok x
    → o ≡ good x
unfolding or_rejected
rejected_inv display (good a) h = ap (λ y. good y) (ok_inj h)
rejected_inv display (bad r) h = absurd (ground arith)

parent-front : (c : Text) (cs : Names) → (last : Text) × (parent (c ∷ cs) ++ last ∷ [] ≡ c ∷ cs)
unfolding parent
parent-front c [] = (c, refl)
parent-front c (d ∷ ds) = let (last, e) = parent-front d ds in (last, ap (λ r. c ∷ r) e)

plus-zero : (n : ℕ) → n + 0 ≡ n
plus-zero n = omega arith

copied-ok : (r : Result ℕ) (n : ℕ) → r ≡ ok n → copied r ≡ n
unfolding copied
copied-ok (ok m) n h = ok_inj h
copied-ok (err e) n h = absurd (ground arith)

has_path-later :
    (p q : Names) (paths : List Names) → has_path q paths ≡ true → has_path q (p ∷ paths) ≡ true
unfolding has_path any
has_path-later p q paths h = ground arith

has_path-own : (p : Names) (paths : List Names) → has_path p (p ∷ paths) ≡ true
unfolding has_path any
has_path-own p paths = rw ((path_eq_iff p p).1 refl) refl

module _ (u : Unicode) (l : Limits) where
  IsClean-parent :
      (st : State) (c : Text) (cs : Names)
      → IsClean u l st (c ∷ cs)
      → IsClean u l st (parent (c ∷ cs))
  IsClean-parent st c cs h =
      let (last, e) = parent-front c cs in
      IsClean-front u l st (parent (c ∷ cs)) (last ∷ []) (subst (IsClean u l st) (sym e) h)

  -- What the writing of a node leaves.
  pub record Writes (st out : State) : Type 0 where
    pub sound : IsSound u l out
    pub same_files : out.out.files ≡ st.out.files
    pub same_dirs : out.out.dirs ≡ st.out.dirs
    pub same_symlinks : out.out.symlinks ≡ st.out.symlinks

  opened_inv :
      (display : Text) (o : Disk × Bool) {disk : Disk}
      → opened display o ≡ ok disk
      → (o.1 ≡ true) × (o.0 ≡ disk)
  unfolding opened
  opened_inv display (d, true) h = (refl, ok_inj h)
  opened_inv display (d, false) h = absurd (ground arith)

  written_to-Writes :
      (st st1 : State) (p : Names) (x : Bool) (display : Text) (room n : ℕ) (out : State)
      → room ≡ min l.max_file_bytes (l.max_total_bytes - st1.out.bytes)
      → st1.out ≡ st.out
      → IsSound u l st1
      → IsClean u l st1 p
      → (create st1.disk p (file n x)).1 ≡ true
      → written_to u l st1 display (create st1.disk p (file n x)).0 room n ≡ ok out
      → Writes st out
  unfolding written_to
  written_to-Writes st st1 p x display room n out r same s c done h =
      elim (Bool-cases (ltb l.max_file_bytes n)) [
        | inl e ↦ let no = rw e at h in absurd (ground arith)
        | inr e ↦ elim (Bool-cases (ltb room n)) [
          | inl f ↦ let no = rw (e, f) at h in absurd (ground arith)
          | inr f ↦ subst (Writes st) (ok_inj (rw (e, f) at h)) (record {
            sound = record {
              tree =
                  create-IsTree u l st1.disk st1.symlinks st1.symlinks st1.out.bytes p (file n x)
                    s.tree c.no_link (λ q k. k) (λ t g. absurd (ground arith)) c.path (ground arith)
                    (fits s.tree.within (ground arith)) done;
            };
            same_files = ap (λ (o : Extracted). o.files) same;
            same_dirs = ap (λ (o : Extracted). o.dirs) same;
            same_symlinks = ap (λ (o : Extracted). o.symlinks) same;
          })
        ]
      ]
    where
      fits :
          st1.out.bytes ≤ l.max_total_bytes
          → n ≤ min l.max_file_bytes (l.max_total_bytes - st1.out.bytes)
          → st1.out.bytes + n ≤ l.max_total_bytes
      fits a b = omega arith

  pub write_file-Writes :
      (st : State) (e : Entry) (c : Text) (cs : Names) (mode : ℕ) (display : Text) (out : State)
      → IsSound u l st
      → IsClean u l st (c ∷ cs)
      → write_file u l st e (c ∷ cs) mode display ≡ ok out
      → Writes st out
  unfolding write_file
  write_file-Writes st e c cs mode display out s cl h =
      elim (Bool-cases (ltb l.max_file_bytes (or_default 0 e.size))) [
        | inl x ↦ let no = rw x at h in absurd (ground arith)
        | inr x ↦
            let (st1, e1, h1) =
              >>=-eq-ok (or_rejected display (make_dirs st (parent (c ∷ cs)))) _ (rw x at h) in
            let m =
              make_dirs-MakesDirs u l st st1 (parent (c ∷ cs)) s (IsClean-parent st c cs cl)
                (rejected_inv display _ e1) in
            let room : ℕ = min l.max_file_bytes (l.max_total_bytes - st1.out.bytes) in
            let (disk, e2, h2) =
              >>=-eq-ok
                (opened display (
                  create st1.disk (c ∷ cs)
                    (file (copied (copy e.body (room + 1))) (is_executable mode))))
                _ h1 in
            let (n, e3, h3) = >>=-eq-ok (copy e.body (room + 1)) _ h2 in
            let (done, made) = opened_inv display _ e2 in
            let size : copied (copy e.body (room + 1)) ≡ n =
              copied-ok (copy e.body (room + 1)) n e3 in
            written_to-Writes st st1 (c ∷ cs) (is_executable mode) display room n out refl
              m.same_out m.sound (IsClean-same u l st st1 (c ∷ cs) m.same_links cl)
              (subst (λ k. (create st1.disk (c ∷ cs) (file k (is_executable mode))).1 ≡ true) size
                done)
              (subst
                (λ k.
                  written_to u l st1 display
                    (create st1.disk (c ∷ cs) (file k (is_executable mode))).0 room n
                  ≡ ok out)
                size (subst (λ d. written_to u l st1 display d room n ≡ ok out) (sym made) h3))
      ]

  linked_inv :
      (st : State) (rel : Names) (display : Text) (o : Disk × Bool) (out : State)
      → linked st rel display o ≡ ok out
      → (o.1 ≡ true) × (out ≡ record st { disk = o.0; symlinks = rel ∷ st.symlinks })
  unfolding linked
  linked_inv st rel display (d, true) out h = (refl, sym (ok_inj h))
  linked_inv st rel display (d, false) out h = absurd (ground arith)

  pub write_symlink-Writes :
      (st : State) (c : Text) (cs : Names) (target display : Text) (out : State)
      → IsSound u l st
      → IsClean u l st (c ∷ cs)
      → write_symlink u l st (c ∷ cs) target display ≡ ok out
      → Writes st out
  unfolding write_symlink
  write_symlink-Writes st c cs target display out s cl h = elim (Bool-cases (is_absolute target)) [
    | inl x ↦ let no = rw x at h in absurd (ground arith)
    | inr x ↦
        let (t, e0, h0) =
          >>=-eq-ok
            (or_rejected display (check_target (components target) (length (parent (c ∷ cs))))) _
            (rw x at h) in
        let (st1, e1, h1) = >>=-eq-ok (or_rejected display (make_dirs st (parent (c ∷ cs)))) _ h0 in
        let m =
          make_dirs-MakesDirs u l st st1 (parent (c ∷ cs)) s (IsClean-parent st c cs cl)
            (rejected_inv display _ e1) in
        let (done, made) = linked_inv st1 (c ∷ cs) display _ out h1 in
        let clean = IsClean-same u l st st1 (c ∷ cs) m.same_links cl in
        subst (Writes st) (sym made) (record {
          sound = record {
            tree =
                subst
                  (IsTree u l (create st1.disk (c ∷ cs) (link target)).0 ((c ∷ cs) ∷ st1.symlinks))
                  (plus-zero st1.out.bytes)
                  (create-IsTree u l st1.disk st1.symlinks ((c ∷ cs) ∷ st1.symlinks) st1.out.bytes
                    (c ∷ cs) (link target) m.sound.tree clean.no_link
                    (λ q k. has_path-later (c ∷ cs) q st1.symlinks k)
                    (λ t' f. has_path-own (c ∷ cs) st1.symlinks) clean.path
                    (
                      x,
                      check_target-StaysInside (components target) (length (parent (c ∷ cs)))
                          {t = t} (rejected_inv display _ e0),
                    )
                    (omega (arith, m.sound.tree.within)) done);
          };
          same_files = ap (λ (o : Extracted). o.files) m.same_out;
          same_dirs = ap (λ (o : Extracted). o.dirs) m.same_out;
          same_symlinks = ap (λ (o : Extracted). o.symlinks) m.same_out;
        })
  ]
