-- ===== src/Filesystem/Manager/Calls.antt =====
-- The file operations of internal/filesystem/manager.go behind the resolved path.
use mathlib.Core.Path.{ap₂}
use cloudnan_agent.Base.{
  ℕ, Bool, false, sym, subst, true, Bytes, Outcome, ok, err, ◌≡◌, ◌⊎◌, inl, inr, refl, ap, ◌∙◌,
}
use cloudnan_agent.Filesystem.Manager.Confinement.{
  Confined, Resolves, resolve_path-Resolves, refused, resolved,
}
use cloudnan_agent.Filesystem.Manager.{
  Os, FileError, access_denied, resolve_path, write_bytes, delete, mkdir, copy, copy_paths,
  copy_mode, copy_into, copy_stat, directory_copy, os_error, report, on_path, on_paths,
}
use cloudnan_agent.Text.FilePath.{clean, is_abs}

module _ {State OsError : Type 0} (os : Os State OsError) (root : Bytes)
    (abs_root : is_abs root ≡ true) where
  -- The operation is refused and leaves the state, or is the system's call on a confined path.
  pub OneCall :
      (State × Outcome (FileError OsError) (Unit {0}))
      → (Bytes → State × Outcome OsError (Unit {0}))
      → State
      → Type 0
  OneCall result call s =
      (result ≡ (s, err access_denied))
      ⊎ ((q : Bytes) × Confined (clean root) q × (result ≡ report os root (call q)))

  on_path-OneCall :
      (path : Bytes) (call : Bytes → State × Outcome OsError (Unit {0})) (s : State)
      → OneCall (on_path os root (resolve_path os root path) call s) call s
  unfolding OneCall
  on_path-OneCall path call s = by_path (resolve_path-Resolves os root path abs_root)
    where
      by_path :
          Resolves os root path
          → OneCall (on_path os root (resolve_path os root path) call s) call s
      by_path (refused e) = inl (ap (λ r. on_path os root r call s) e)
      by_path (resolved q e c) = inr (q, c, ap (λ r. on_path os root r call s) e)

  -- Under an absolute root, writing, deleting and making a directory are refused without effect,
  -- or are one call of the system with the content and the mode given, on a path confined to the
  -- root.
  pub changes_confined :
      (path content : Bytes) (s : State)
      → OneCall (write_bytes os root path content s) (λ q. os.write_file q content 0o644 s) s
        × OneCall (delete os root path s) (λ q. os.remove_all q s) s
        × OneCall (mkdir os root path s) (λ q. os.mkdir_all q 0o755 s) s
  unfolding write_bytes delete mkdir
  changes_confined path content s = (
    on_path-OneCall path (λ q. os.write_file q content 0o644 s) s,
    on_path-OneCall path (λ q. os.remove_all q s) s,
    on_path-OneCall path (λ q. os.mkdir_all q 0o755 s) s,
  )

  -- How a copy goes: the source is opened and looked at, the destination is created, the contents are
  -- copied and the mode is set; the first call that fails ends it with its error.
  pub data Copied (p q : Bytes) (s : State)
      (result : State × Outcome (FileError OsError) (Unit {0})) : Type 0 where
    not_opened :
        (e : OsError)
        → os.open_file p s ≡ err e
        → result ≡ (s, err (os_error e))
        → Copied p q s result
    not_looked_at :
        (e : OsError)
        → os.open_file p s ≡ ok tt
        → os.stat_file p s ≡ err e
        → result ≡ (s, err (os_error e))
        → Copied p q s result
    is_directory :
        (mode : ℕ)
        → os.open_file p s ≡ ok tt
        → os.stat_file p s ≡ ok (true, mode)
        → result ≡ (s, err directory_copy)
        → Copied p q s result
    not_created :
        (mode : ℕ) (t : State) (e : OsError)
        → os.open_file p s ≡ ok tt
        → os.stat_file p s ≡ ok (false, mode)
        → os.create q s ≡ (t, err e)
        → result ≡ (t, err (os_error e))
        → Copied p q s result
    not_copied :
        (mode : ℕ) (t u : State) (e : OsError)
        → os.open_file p s ≡ ok tt
        → os.stat_file p s ≡ ok (false, mode)
        → os.create q s ≡ (t, ok tt)
        → os.copy_contents q p t ≡ (u, err e)
        → result ≡ (u, err (os_error e))
        → Copied p q s result
    copied :
        (mode : ℕ) (t u : State)
        → os.open_file p s ≡ ok tt
        → os.stat_file p s ≡ ok (false, mode)
        → os.create q s ≡ (t, ok tt)
        → os.copy_contents q p t ≡ (u, ok tt)
        → result ≡ report os root (os.chmod q mode u)
        → Copied p q s result

  module _ (p q : Bytes) (s : State) (opens : os.open_file p s ≡ ok tt) where
    copy_mode-Copied :
        (mode : ℕ) (t : State) (o : State × Outcome OsError (Unit {0}))
        → os.stat_file p s ≡ ok (false, mode)
        → os.create q s ≡ (t, ok tt)
        → os.copy_contents q p t ≡ o
        → Copied p q s (copy_mode os root q mode o)
    copy_mode-Copied mode t (u, ok _) g h k = copied mode t u opens g h k refl
    copy_mode-Copied mode t (u, err e) g h k = not_copied mode t u e opens g h k refl

    copy_into-Copied :
        (mode : ℕ) (o : State × Outcome OsError (Unit {0}))
        → os.stat_file p s ≡ ok (false, mode)
        → os.create q s ≡ o
        → Copied p q s (copy_into os root p q mode o)
    copy_into-Copied mode (t, ok _) g h = copy_mode-Copied mode t (os.copy_contents q p t) g h refl
    copy_into-Copied mode (t, err e) g h = not_created mode t e opens g h refl

    copy_stat-Copied :
        (o : Outcome OsError (Bool × ℕ))
        → os.stat_file p s ≡ o
        → Copied p q s (copy_stat os root p q s o)
    copy_stat-Copied (err e) g = not_looked_at e opens g refl
    copy_stat-Copied (ok (true, mode)) g = is_directory mode opens g refl
    copy_stat-Copied (ok (false, mode)) g = copy_into-Copied mode (os.create q s) g refl

  copy_paths_lem :
      (p q : Bytes) (s : State)
      → copy_paths os root p q s ≡ elim (os.open_file p s) [
        | err e ↦ (s, err (os_error e))
        | ok _ ↦ copy_stat os root p q s (os.stat_file p s)
      ]
  unfolding copy_paths
  copy_paths_lem p q s = refl

  copy_paths-Copied : (p q : Bytes) (s : State) → Copied p q s (copy_paths os root p q s)
  copy_paths-Copied p q s =
      subst (Copied p q s) (sym (copy_paths_lem p q s)) (by_opened (os.open_file p s) refl)
    where
      by_opened :
          (o : Outcome OsError (Unit {0}))
          → os.open_file p s ≡ o
          → Copied p q s (elim o [
            | err e ↦ (s, err (os_error e))
            | ok _ ↦ copy_stat os root p q s (os.stat_file p s)
          ])
      by_opened (err e) h = not_opened e h refl
      by_opened (ok _) h = copy_stat-Copied p q s h (os.stat_file p s) refl

  copy_by :
      (source dest : Bytes) (s : State) {a b : Outcome (FileError OsError) Bytes}
      → resolve_path os root source ≡ a
      → resolve_path os root dest ≡ b
      → copy os root source dest s ≡ on_paths os root a b s
  unfolding copy
  copy_by source dest s e f = ap₂ (λ x y. on_paths os root x y s) e f

  on_paths-err :
      (e : FileError OsError) (b : Outcome (FileError OsError) Bytes) (s : State)
      → on_paths os root (err e) b s ≡ (s, err e)
  unfolding on_paths
  on_paths-err e b s = refl

  on_paths-ok :
      (p : Bytes) (b : Outcome (FileError OsError) Bytes) (s : State)
      → on_paths os root (ok p) b s
        ≡ elim b [ err e ↦ (s, err e) | ok q ↦ copy_paths os root p q s ]
  unfolding on_paths
  on_paths-ok p (ok q) s = refl
  on_paths-ok p (err e) s = refl

  -- Under an absolute root, a copy is refused without effect, or works on two paths confined to
  -- the root and no other: the source is opened and looked at, the destination is created, takes
  -- the contents and then the mode of the source, and the first call that fails ends the copy with
  -- its error; a directory is not copied.
  pub copy-Copied :
      (source dest : Bytes) (s : State)
      → (copy os root source dest s ≡ (s, err access_denied))
        ⊎ ((p q : Bytes) × Confined (clean root) p
            × Confined (clean root) q
            × (resolve_path os root source ≡ ok p)
            × (resolve_path os root dest ≡ ok q)
            × Copied p q s (copy os root source dest s))
  copy-Copied source dest s =
      by_paths (resolve_path-Resolves os root source abs_root)
        (resolve_path-Resolves os root dest abs_root)
    where
      by_paths :
          Resolves os root source
          → Resolves os root dest
          → (copy os root source dest s ≡ (s, err access_denied))
            ⊎ ((p q : Bytes) × Confined (clean root) p
                × Confined (clean root) q
                × (resolve_path os root source ≡ ok p)
                × (resolve_path os root dest ≡ ok q)
                × Copied p q s (copy os root source dest s))
      by_paths (refused e) r =
          inl (
            copy_by source dest s e refl ∙ on_paths-err access_denied (resolve_path os root dest) s)
      by_paths (resolved p e c) (refused f) =
          inl (copy_by source dest s e f ∙ on_paths-ok p (err access_denied) s)
      by_paths (resolved p e c) (resolved q f d) = inr (
        p,
        q,
        c,
        d,
        e,
        f,
        subst (Copied p q s) (sym (copy_by source dest s e f ∙ on_paths-ok p (ok q) s))
            (copy_paths-Copied p q s),
      )
