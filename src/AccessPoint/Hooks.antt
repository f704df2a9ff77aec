-- ===== src/AccessPoint/Hooks.antt =====
-- Updates of an AccessPoint (pkg/resource/access_point/hooks.go): the tags, and a condition for a
-- drift of the fields that cannot be changed. The hook sets the condition on `desired` and returns
-- it.
use ack_ws_s3files_controlle.Prelude.{Bool, ◌||◌, none, some, elements, if◌then◌else◌}
use ack_ws_s3files_controlle.Ack.{Delta, status_true, Exec, pure, ◌>>◌, when}
use ack_ws_s3files_controlle.Tags.{convert_to_ordered_ack_tags}
use ack_ws_s3files_controlle.TagSync.{sync_tags}
use ack_ws_s3files_controlle.Manager.{ResourceManager}
use ack_ws_s3files_controlle.AccessPoint.Types.{AccessPoint}

module _ {S E : Type 0} (rm : ResourceManager S E) where
  unfoldable pub drifted : Delta → Bool
  drifted delta =
      rm.runtime.different_at delta "Spec.FileSystemID"
      || rm.runtime.different_at delta "Spec.PosixUser"
      || rm.runtime.different_at delta "Spec.RootDirectory"

  unfoldable pub surface_drift : AccessPoint → Delta → AccessPoint
  surface_drift desired delta =
      let cs =
        rm.runtime.set_terminal (elements desired.status.conditions) status_true
          (some
            "Spec drift detected in immutable field(s). S3 Files provides no UpdateAccessPoint API — to change FileSystemId, PosixUser, or RootDirectory, delete and recreate the resource.")
          none in
      if drifted delta
      then record desired { status = record (desired.status) { conditions = some cs } }
      else desired

  unfoldable pub update_tags : AccessPoint → AccessPoint → Delta → Exec S E Unit
  update_tags desired latest delta = when (rm.runtime.different_at delta "Spec.Tags") (
      sync_tags rm.runtime rm.sdkapi convert_to_ordered_ack_tags desired.spec.tags latest.spec.tags
        latest.status.id)

  unfoldable pub custom_update_access_point :
      AccessPoint → AccessPoint → Delta → Exec S E AccessPoint
  custom_update_access_point desired latest delta =
      update_tags desired latest delta >> pure (surface_drift desired delta)
