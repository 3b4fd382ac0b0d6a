-- ===== src/Ssh/Keys/Removed.antt =====
-- `RemoveKey` of internal/ssh/authorized_keys.go, against the list of lines without the mark.
use cloudnan_agent.Base.{
  Every, false, List, [], ◌∷◌, none, Bytes, Outcome, ok, err, ◌≡◌, inl, inr, refl, sym, ap, ◌∙◌,
  Bool-cases,
}
use cloudnan_agent.Ssh.Host.{Host, scan_file, FileLaws}
use cloudnan_agent.Ssh.Keys.{
  AuthorizedKeysManager, file_content, lines_without, id_mark, get_authorized_keys_path,
  write_keys_file, report, remove_scanned, remove_at, remove_key,
}
use cloudnan_agent.Ssh.Keys.Kept.{write_keys_file-Kept}
use cloudnan_agent.Ssh.Keys.Unique.{Represents}
use cloudnan_agent.Text.Search.{contains}

lines_without-Every :
    (mark : Bytes) (lines : List Bytes)
    → Every (λ l. contains l mark ≡ false) (lines_without mark lines)
unfolding lines_without
lines_without-Every mark [] = tt
lines_without-Every mark (line ∷ lines) = elim (Bool-cases (contains line mark)) [
  | inl e ↦ rw e (lines_without-Every mark lines)
  | inr e ↦ rw e (e, lines_without-Every mark lines)
]

module _ {State OsError : Type 0} (host : Host State OsError) (m : AuthorizedKeysManager)
    {path : Bytes} (laws : FileLaws host path) where
  report-ok :
      (o : State × Outcome OsError (Unit {0}))
      → (report host m o).1 ≡ ok tt
      → (o.1 ≡ ok tt) × ((report host m o).0 ≡ o.0)
  report-ok (s, ok _) h = (refl, refl)
  report-ok (s, err e) h = absurd (cc)

  -- What is written stands for the lines that the code leaves.
  pub remove_key-Represents :
      (id target_user : Bytes) (s : State) (lines : List Bytes)
      → get_authorized_keys_path host m target_user ≡ ok path
      → scan_file host path s ≡ ok lines
      → (remove_key host m id target_user s).1 ≡ ok tt
      → (kept : List Bytes) × (host.open_file path (remove_key host m id target_user s).0
          ≡ ok (file_content kept, none))
        × Every (λ l. contains l (id_mark id) ≡ false) kept
        × Represents kept (lines_without (id_mark id) lines)
  unfolding remove_key
  remove_key-Represents id target_user s lines at scan h =
      let written = write_keys_file host m path (lines_without (id_mark id) lines) s in
      let step : remove_key host m id target_user s ≡ report host m written =
        ap (λ o. remove_at host m id o s) at ∙ ap (λ o. remove_scanned host m id path o s) scan in
      let (done, same) = report-ok written (ap (λ o. o.1) (sym step) ∙ h) in
      let (kept, opened, rep) =
        write_keys_file-Kept host m laws (lines_without (id_mark id) lines) s done in
      (
        kept,
        ap (λ o. host.open_file path o.0) step ∙ ap (host.open_file path) same ∙ opened,
        rep.among (λ l. contains l (id_mark id) ≡ false) (lines_without-Every (id_mark id) lines),
        rep,
      )
