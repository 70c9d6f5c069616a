-- ===== src/Workers/Batches.antt =====
-- What an acknowledged message has left in the table of notifications.
use bantam_bank.Prelude.Text.{Text}
use bantam_bank.Db.{Db}
use bantam_bank.Workers.Notifications
use bantam_bank.Workers.Notifications.{same_direction}
