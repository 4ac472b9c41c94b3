-- ===== src/Web/Backups.antt =====
-- backup_handler.go of src/internal/presentation, and src/internal/application/backup_service.go, whose
-- methods call those of the repository.
use contribution_tracker.Prelude.{ℕ, String, Option, none, some, List}
use contribution_tracker.Domain.{BackupFile}
use contribution_tracker.Database.Session.{Sql}
use contribution_tracker.Database.Backups
use contribution_tracker.Database.Backups.{Base64}
use contribution_tracker.Web.Responses.{
  Handler, write_json, write_error, or_error, backup, status_text,
}

-- `BackupService.Export` and `Restore`
abbrev pub export_service : Base64 → ℕ → Sql BackupFile
export_service b now = Backups.export b now

abbrev pub restore_service :
    Base64 → (List (String × String) → List (String × String)) → BackupFile → Sql (Unit {0})
restore_service b visit f = Backups.restore b visit f

unfoldable pub export : Base64 → ℕ → Handler
export b now =
    or_error (export_service b now) 500 "failed to export backup" λ f. write_json 200 (backup f)

unfoldable pub restore :
    Base64 → (List (String × String) → List (String × String)) → Option BackupFile → Handler
restore b visit none = write_error 400 "invalid backup data"
restore b visit (some f) =
    or_error (restore_service b visit f) 500 "failed to restore backup"
      λ _. write_json 200 (status_text "restored")
