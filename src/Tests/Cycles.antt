-- ===== src/Tests/Cycles.antt =====
-- The theorems about an update with the read after it, and about reads, at concrete inputs.
use ack_ws_s3files_controlle.Prelude.{◌≡◌, false, refl, some, eq_refl, lookup, insert, delete}
use ack_ws_s3files_controlle.Ack.{done, World}
use ack_ws_s3files_controlle.Kinds
use ack_ws_s3files_controlle.Tags.{convert_to_ordered_ack_tags}
use ack_ws_s3files_controlle.Tags.View.{lookup-convert_to_ordered_ack_tags}
use ack_ws_s3files_controlle.TagSync.{sync_tags}
use ack_ws_s3files_controlle.FileSystem.Types.{file_system_kind, FileSystem}
use ack_ws_s3files_controlle.AccessPoint.Types.{access_point_kind}
use ack_ws_s3files_controlle.MountTarget.Types.{mount_target_kind}
use ack_ws_s3files_controlle.Deletion.{IsDeletion, delete-IsDeletion}
use ack_ws_s3files_controlle.FileSystem.Delta.{field_delta}
use ack_ws_s3files_controlle.FileSystem.Hooks.{
  sub_resource_changed, update_tags, check_available, update_policy, update_sub_resources,
  custom_update_file_system,
}
use ack_ws_s3files_controlle.FileSystem.Sdk.{
  sdk_find, required_fields_missing_from_read_one_input, new_describe_request_payload, set_output,
  read_sub_resources, fetch_file_system_policy, fetch_synchronization_configuration,
}
use ack_ws_s3files_controlle.Compare.{pointer_differs}
use ack_ws_s3files_controlle.FileSystem.Policy.Settled.{
  IsDocumentEqual, update_then_read_settles_policy,
}
use ack_ws_s3files_controlle.FileSystem.Settled.{update_then_read_settles}
use ack_ws_s3files_controlle.FileSystem.Manager.{
  delete as delete_file_system, read_one as read_file_system,
}
use ack_ws_s3files_controlle.AccessPoint.Manager.{
  delete as delete_access_point, read_one as read_access_point,
}
use ack_ws_s3files_controlle.MountTarget.Manager.{
  delete as delete_mount_target, read_one as read_mount_target,
}
use ack_ws_s3files_controlle.ReadOnly.{read_one-Keeps}
use ack_ws_s3files_controlle.Tests.Fixture.{
  Fault, runtime, ranging, comparing, equal_maps, tags_difference,
}
use ack_ws_s3files_controlle.Tests.Cloud.{
  Cloud, manager, tagging, tags_at, tagging_tags, showing, reading, holds_policy, showing_policy,
}
use ack_ws_s3files_controlle.Tests.FileSystems.{resource, old_tags, world}
use ack_ws_s3files_controlle.Tests.AccessPoints.{point}
use ack_ws_s3files_controlle.Tests.MountTargets.{mounted}

-- The file system as it was, with the old tags.
abbrev before : FileSystem
before = record resource { spec = record (resource.spec) { tags = old_tags } }

record Updated : Type 0 where
  returned : FileSystem
  world_after : World Cloud Fault
  proof :
      custom_update_file_system tagging resource before (field_delta runtime resource before) world
      ≡ (done returned, world_after)

abbrev updated : Updated
unfolding custom_update_file_system update_tags field_delta convert_to_ordered_ack_tags insert
    lookup sync_tags delete sub_resource_changed
updated = record { returned = _; world_after = _; proof = refl }

record Reread : Type 0 where
  shown : FileSystem
  world_after : World Cloud Fault
  proof : sdk_find tagging resource updated.world_after ≡ (done shown, world_after)

abbrev reread : Reread
unfolding sdk_find required_fields_missing_from_read_one_input new_describe_request_payload
    set_output Kinds.set_status_defaults read_sub_resources fetch_file_system_policy
    fetch_synchronization_configuration updated
reread = record { shown = _; world_after = _; proof = refl }

update_then_read_settles_example :
    runtime.different_at (field_delta runtime resource reread.shown) "Spec.Tags" ≡ false
update_then_read_settles_example =
    update_then_read_settles tagging ranging comparing equal_maps tags_difference tags_at
      tagging_tags showing resource before resource world
      (λ k. lookup-convert_to_ordered_ack_tags k old_tags) updated.proof refl refl reread.proof

read_one-Keeps_example :
    ((read_file_system manager resource world).1.cloud ≡ world.cloud)
    × ((read_access_point manager point world).1.cloud ≡ world.cloud)
    × ((read_mount_target manager mounted world).1.cloud ≡ world.cloud)
read_one-Keeps_example = read_one-Keeps manager reading resource point mounted world

delete-IsDeletion_example :
    IsDeletion file_system_kind manager "DeleteFileSystem"
      (manager.sdkapi.delete_file_system resource.status.file_system_id)
      resource
      world
      (delete_file_system manager resource world)
    × IsDeletion access_point_kind manager "DeleteAccessPoint"
        (manager.sdkapi.delete_access_point point.status.id)
        point
        world
        (delete_access_point manager point world)
    × IsDeletion mount_target_kind manager "DeleteMountTarget"
        (manager.sdkapi.delete_mount_target mounted.status.id)
        mounted
        world
        (delete_mount_target manager mounted world)
delete-IsDeletion_example =
    delete-IsDeletion manager resource point mounted world
      (record { terminal_once = tt; recoverable_once = tt })
      (record { terminal_once = tt; recoverable_once = tt })
      (record { terminal_once = tt; recoverable_once = tt })

-- A file system that is available, and the one that has another policy.
abbrev available : FileSystem
available = record resource { status = record (resource.status) { status = some "available" } }

abbrev asked : FileSystem
asked = record resource { spec = record (resource.spec) { policy = some "{\"Statement\":[]}" } }

record PolicyUpdated : Type 0 where
  returned : FileSystem
  world_after : World Cloud Fault
  proof :
      custom_update_file_system manager asked available (field_delta runtime asked available) world
      ≡ (done returned, world_after)

abbrev policy_updated : PolicyUpdated
unfolding custom_update_file_system update_tags field_delta pointer_differs
    convert_to_ordered_ack_tags insert lookup sync_tags delete sub_resource_changed
    update_sub_resources check_available update_policy
policy_updated = record { returned = _; world_after = _; proof = refl }

record PolicyReread : Type 0 where
  shown : FileSystem
  world_after : World Cloud Fault
  proof : sdk_find manager asked policy_updated.world_after ≡ (done shown, world_after)

abbrev policy_reread : PolicyReread
unfolding sdk_find required_fields_missing_from_read_one_input new_describe_request_payload
    set_output Kinds.set_status_defaults read_sub_resources fetch_file_system_policy
    fetch_synchronization_configuration policy_updated
policy_reread = record { shown = _; world_after = _; proof = refl }

documents : IsDocumentEqual runtime.iam_policy_document_equal
documents = record { reflexive = λ p. rw (eq_refl p) refl }

update_then_read_settles_policy_example :
    runtime.different_at (field_delta runtime asked policy_reread.shown) "Spec.Policy" ≡ false
unfolding policy_updated
update_then_read_settles_policy_example =
    update_then_read_settles_policy manager comparing documents (λ c id. c.policy) holds_policy
      showing_policy asked available asked "fs-1" world refl refl refl policy_updated.proof refl
      refl policy_reread.proof
