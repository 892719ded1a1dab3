-- ===== src/Profiles/Whole.antt =====
-- The file of preferences stays whole (`markProfileExitedCleanly` of profile_dir.go).
use devbrowser.Prelude.{
  ◌≡◌, ◌≢◌, refl, sym, ◌∙◌, ap, ◌⊎◌, inl, inr, Option, none, some, List, arith, ◌+◌, length,
  length-append, Result, ok, err, Outcome, done, panic,
}
use devbrowser.Text.{Text, codes}
use devbrowser.Profiles.Directory.{
  Disk, ReadFile, content, missing, unreadable, with_clean_exit, prefs_path, tmp_path, renamed,
  encoded, decoded, marked_file, mark_profile_exited_cleanly,
}

-- What is documented of the files: a write changes at most its own file, and is read back if it had
-- no error; a rename with no error puts the old file in the place of the new one, and one with an
-- error leaves that as it was.
pub record IsDisk (disk : Disk) : Type 0 where
  pub write_ne :
      (p q t : Text) (w : disk.World) → q ≢ p → disk.read q (disk.write p t w).1 ≡ disk.read q w
  pub write_self :
      (p t : Text) (w : disk.World)
      → (disk.write p t w).0 ≡ none
      → disk.read p (disk.write p t w).1 ≡ content t
  pub rename_done :
      (p q : Text) (w : disk.World)
      → (disk.rename p q w).0 ≡ none
      → disk.read q (disk.rename p q w).1 ≡ disk.read p w
  pub rename_failed :
      (p q : Text) (w : disk.World) (e : Text)
      → (disk.rename p q w).0 ≡ some e
      → disk.read q (disk.rename p q w).1 ≡ disk.read q w

tmp_ne : (path : Text) → path ≢ tmp_path path
tmp_ne path e =
    let same : length path ≡ length path + 4 = ap length e ∙ length-append path (codes ".tmp") in
    absurd (omega arith)

module _ (disk : Disk) (laws : IsDisk disk) (path : Text) (w : disk.World) where
  -- The file holds what it held with the clean exit, and there was no error.
  pub record IsMarked (raw : Text) (prefs : List (Text × disk.Value)) (r : Option Text × disk.World)
      : Type 0 where
    pub out : Text
    pub encodes : disk.encode (with_clean_exit disk prefs) ≡ ok out
    pub written : disk.read path r.1 ≡ content out
    pub success : r.0 ≡ none

  abbrev pub SameOr : (Option Text × disk.World → Type 0) → Option Text × disk.World → Type 0
  SameOr P r = (disk.read path r.1 ≡ disk.read path w) ⊎ P r

  renamed-SameOr :
      (raw out : Text) (prefs : List (Text × disk.Value)) (r : Option Text × disk.World)
      → disk.encode (with_clean_exit disk prefs) ≡ ok out
      → disk.read path r.1 ≡ disk.read path w
      → (r.0 ≡ none → disk.read (tmp_path path) r.1 ≡ content out)
      → SameOr (IsMarked raw prefs) (renamed disk path r)
  unfolding renamed
  renamed-SameOr raw out prefs (some e, w') en kept written = inl kept
  renamed-SameOr raw out prefs (none, w') en kept written =
      go (disk.rename (tmp_path path) path w') refl
    where
      go :
          (r : Option Text × disk.World)
          → disk.rename (tmp_path path) path w' ≡ r
          → SameOr (IsMarked raw prefs) r
      go (none, w2) e = inr (record {
        out = out;
        encodes = en;
        written =
            ap (λ x. disk.read path x.1) (sym e)
            ∙ (laws.rename_done (tmp_path path) path w' (ap (λ x. x.0) e) ∙ written refl);
        success = refl;
      })
      go (some x, w2) e = inl (
          ap (λ y. disk.read path y.1) (sym e)
          ∙ (laws.rename_failed (tmp_path path) path w' x (ap (λ y. y.0) e) ∙ kept))

  encoded-SameOr :
      (raw : Text) (prefs : List (Text × disk.Value)) (r : Result Text)
      → disk.encode (with_clean_exit disk prefs) ≡ r
      → SameOr (IsMarked raw prefs) (encoded disk path r w)
  unfolding encoded
  encoded-SameOr raw prefs (err e) en = inl refl
  encoded-SameOr raw prefs (ok out) en =
      renamed-SameOr raw out prefs (disk.write (tmp_path path) out w) en
        (laws.write_ne (tmp_path path) path out w (tmp_ne path))
        (laws.write_self (tmp_path path) out w)

  -- The file before was an object, and is now the same with the clean exit.
  pub record IsRewritten (r : Option Text × disk.World) : Type 0 where
    pub raw : Text
    pub prefs : List (Text × disk.Value)
    pub before : disk.read path w ≡ content raw
    pub decodes : disk.decode raw ≡ ok (some prefs)
    pub marked : IsMarked raw prefs r

  -- How a call ends: the file is the same or was rewritten; a panic, where it held a JSON `null`.
  abbrev pub Whole : Outcome (Option Text × disk.World) → Type 0
  Whole (done r) = SameOr IsRewritten r
  Whole panic = (raw : Text) × (disk.read path w ≡ content raw) × (disk.decode raw ≡ ok none)

  decoded-Whole :
      (raw : Text) (d : Result (Option (List (Text × disk.Value))))
      → disk.read path w ≡ content raw
      → disk.decode raw ≡ d
      → Whole (decoded disk path d w)
  unfolding decoded
  decoded-Whole raw (err e) before de = inl refl
  decoded-Whole raw (ok none) before de = (raw, before, de)
  decoded-Whole raw (ok (some prefs)) before de =
      elim (encoded-SameOr raw prefs (disk.encode (with_clean_exit disk prefs)) refl) [
        | inl same ↦ inl same
        | inr m ↦
            inr (record { raw = raw; prefs = prefs; before = before; decodes = de; marked = m })
      ]

  marked_file-Whole : (f : ReadFile) → disk.read path w ≡ f → Whole (marked_file disk path f w)
  unfolding marked_file
  marked_file-Whole missing e = inl refl
  marked_file-Whole (unreadable x) e = inl refl
  marked_file-Whole (content raw) e = decoded-Whole raw (disk.decode raw) e refl

-- On a disk that keeps its documented behaviour, marking a profile leaves its file of preferences
-- as it was, whatever fails on the way, or, with no error, replaces it by the same object with the
-- clean exit in it. It panics only if the file holds a JSON `null`.
pub mark_profile_exited_cleanly-Whole :
    (disk : Disk) (laws : IsDisk disk) (dir : Text) (w : disk.World)
    → Whole disk laws (prefs_path disk dir) w (mark_profile_exited_cleanly disk dir w)
unfolding mark_profile_exited_cleanly
mark_profile_exited_cleanly-Whole disk laws dir w =
    marked_file-Whole disk laws (prefs_path disk dir) w (disk.read (prefs_path disk dir) w) refl
