-- ===== src/Client/Pushing/Pending.antt =====
-- The requests that `runSyncUnlocked` makes of the pending records, and the checks of the push route.
use author.Common.{◌≤◌, ◌<◌, ◌≡◌, true, text_eq, All}
use author.Schema.{Note, Notebook, Device}
use author.ApiTypes.{EntityChange, PushRequest}
use author.Client.Store.{Fields, note_fields, notebook_fields}
use author.Client.Batches.{Batch}
use author.Server.Payloads.{records_belong_to_device, push_change_count}
use author.Server.PushRoute.{max_sync_changes_per_push}

module _ {T : Type 0} (F : Fields T) (device : Device) where
  -- The change is this device's, and its version is past the one that it is based on.
  abbrev pub IsOwnChange : EntityChange T → Type 0
  IsOwnChange c =
      (text_eq (F.device_id c.entity) device.id ≡ true) × (c.base_version < F.version c.entity)

module _ (device : Device) where
  abbrev ABatch : Type 0
  ABatch = Batch (EntityChange Note) (EntityChange Notebook)

  abbrev request_of : ABatch → PushRequest
  request_of batch = record { device = device; notes = batch.notes; notebooks = batch.notebooks }

  -- A request that the push route takes, as to its size and its device, and that has a record at least.
  abbrev pub IsTaken : PushRequest → Type 0
  IsTaken request =
      (0 < push_change_count request)
      × (push_change_count request ≤ max_sync_changes_per_push)
      × (records_belong_to_device request ≡ true)
      × All (IsOwnChange note_fields device) request.notes
      × All (IsOwnChange notebook_fields device) request.notebooks
