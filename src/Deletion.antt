-- ===== src/Deletion.antt =====
-- What `Delete` of the three kinds does (the `manager.go` and `sdk.go` files of pkg/resource).
use ack_ws_s3files_controlle.Prelude.{String, ◌≡◌, refl, [], ◌∷◌, ◌++◌}
use ack_ws_s3files_controlle.Ack.{Returned, World, outcome_of}
use ack_ws_s3files_controlle.Aws.{Operation}
use ack_ws_s3files_controlle.Conditions.Mark.{IsTidy}
use ack_ws_s3files_controlle.Kinds
use ack_ws_s3files_controlle.Kinds.{Kind, listed}
use ack_ws_s3files_controlle.Kinds.Laws.{IsDeleted, on_deleted_lem}
use ack_ws_s3files_controlle.Manager.{ResourceManager}
use ack_ws_s3files_controlle.FileSystem.Types.{
  FileSystem, file_system_kind, file_system_kind-IsKind,
}
use ack_ws_s3files_controlle.AccessPoint.Types.{
  AccessPoint, access_point_kind, access_point_kind-IsKind,
}
use ack_ws_s3files_controlle.MountTarget.Types.{
  MountTarget, mount_target_kind, mount_target_kind-IsKind,
}
use ack_ws_s3files_controlle.FileSystem.Sdk.{
  sdk_delete as sdk_delete_file_system, new_delete_request_payload as file_system_id,
}
use ack_ws_s3files_controlle.AccessPoint.Sdk.{sdk_delete as sdk_delete_access_point}
use ack_ws_s3files_controlle.MountTarget.Sdk.{
  sdk_delete as sdk_delete_mount_target, new_delete_request_payload as mount_target_id,
}
use ack_ws_s3files_controlle.FileSystem.Manager.{delete as delete_file_system}
use ack_ws_s3files_controlle.AccessPoint.Manager.{delete as delete_access_point}
use ack_ws_s3files_controlle.MountTarget.Manager.{delete as delete_mount_target}

module _ {R Spec S E : Type 0} (k : Kind R Spec) (rm : ResourceManager S E) where
  -- A deletion makes one call of the operation, which is recorded, and reports its response.
  pub record IsDeletion (op_id : String) (operation : Operation S E Unit) (r : R) (w : World S E)
      (out : Returned E R × World S E) : Type 0 where
    pub reported : IsDeleted k rm r (operation w.cloud).0 out.0
    pub called : out.1 ≡ record {
      cloud = (operation w.cloud).1;
      calls =
          w.calls
          ++ record {
            op_type = "DELETE";
            op_id = op_id;
            outcome = outcome_of (operation w.cloud).0;
          }
            ∷ [];
    }

module _ {S E : Type 0} (rm : ResourceManager S E) where
  -- A deletion of a file system, of an access point and of a mount target makes one call of the
  -- operation for it, with the id of the resource, and records it; it returns neither a resource nor
  -- an error where the service took it, and reports the error on the resource where it did not.
  pub delete-IsDeletion :
      (fs : FileSystem) (ap : AccessPoint) (mt : MountTarget) (w : World S E)
      → IsTidy (listed file_system_kind fs)
      → IsTidy (listed access_point_kind ap)
      → IsTidy (listed mount_target_kind mt)
      → IsDeletion file_system_kind rm "DeleteFileSystem"
          (rm.sdkapi.delete_file_system fs.status.file_system_id)
          fs
          w
          (delete_file_system rm fs w)
        × IsDeletion access_point_kind rm "DeleteAccessPoint"
            (rm.sdkapi.delete_access_point ap.status.id)
            ap
            w
            (delete_access_point rm ap w)
        × IsDeletion mount_target_kind rm "DeleteMountTarget"
            (rm.sdkapi.delete_mount_target mt.status.id)
            mt
            w
            (delete_mount_target rm mt w)
  unfolding delete_file_system delete_access_point delete_mount_target Kinds.delete_by
      sdk_delete_file_system sdk_delete_access_point sdk_delete_mount_target file_system_id
      mount_target_id
  delete-IsDeletion fs ap mt w hf ha hm = (
    record {
      reported = on_deleted_lem file_system_kind rm fs _ file_system_kind-IsKind hf;
      called = refl;
    },
    record {
      reported = on_deleted_lem access_point_kind rm ap _ access_point_kind-IsKind ha;
      called = refl;
    },
    record {
      reported = on_deleted_lem mount_target_kind rm mt _ mount_target_kind-IsKind hm;
      called = refl;
    },
  )
