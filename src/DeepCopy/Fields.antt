-- ===== src/DeepCopy/Fields.antt =====
-- The copies that the generator writes out for the fields of a structure
-- (apis/v1alpha1/zz_generated.deepcopy.go).
use ack_ws_s3files_controlle.Prelude.{none, some}
use ack_ws_s3files_controlle.Memory.{Pointer, Slot, pure, deep_copy_pointer, copy_each}
use ack_ws_s3files_controlle.DeepCopy.Structs.{RuntimeTypes, Cell, Copying}
use ack_ws_s3files_controlle.DeepCopy.Slots.{
  string_slot, int64_slot, bool_slot, pointers_slot, reference_slot, metadata_slot, condition_slot,
}

-- The functions of the ACK runtime and of Kubernetes that copy their own structures; a time is
-- copied by `(*Time).DeepCopy`, which makes a new one.
pub record RuntimeCopies (T : RuntimeTypes) : Type 0 where
  pub into_reference : T.Reference → Copying T T.Reference
  pub into_metadata : T.ResourceMetadata → Copying T T.ResourceMetadata
  pub into_condition : T.Condition → Copying T T.Condition
  pub into_object_meta : T.ObjectMeta → Copying T T.ObjectMeta
  pub into_list_meta : T.ListMeta → Copying T T.ListMeta
  pub time : Pointer → Copying T Pointer

module _ {T : RuntimeTypes} where
  abbrev pub deep_copy_string : Pointer → Copying T Pointer
  deep_copy_string = deep_copy_pointer string_slot pure

  abbrev pub deep_copy_int64 : Pointer → Copying T Pointer
  deep_copy_int64 = deep_copy_pointer int64_slot pure

  abbrev pub deep_copy_bool : Pointer → Copying T Pointer
  deep_copy_bool = deep_copy_pointer bool_slot pure

  -- A slice of pointers: a new slice, and a new element for each pointer that is not nil.
  abbrev pub deep_copy_items :
      {A : Type 0} → Slot (Cell T) A → (A → Copying T A) → Pointer → Copying T Pointer
  deep_copy_items slot copy =
      deep_copy_pointer pointers_slot (copy_each (deep_copy_pointer slot copy))

  abbrev pub deep_copy_strings : Pointer → Copying T Pointer
  deep_copy_strings = deep_copy_items string_slot pure

  abbrev pub deep_copy_int64s : Pointer → Copying T Pointer
  deep_copy_int64s = deep_copy_items int64_slot pure

  module _ (rc : RuntimeCopies T) where
    abbrev pub deep_copy_reference : Pointer → Copying T Pointer
    deep_copy_reference = deep_copy_pointer reference_slot rc.into_reference

    abbrev pub deep_copy_references : Pointer → Copying T Pointer
    deep_copy_references = deep_copy_items reference_slot rc.into_reference

    abbrev pub deep_copy_metadata : Pointer → Copying T Pointer
    deep_copy_metadata = deep_copy_pointer metadata_slot rc.into_metadata

    abbrev pub deep_copy_conditions : Pointer → Copying T Pointer
    deep_copy_conditions = deep_copy_items condition_slot rc.into_condition

    -- `if in.CreationTime != nil { *out = (*in).DeepCopy() }`
    unfoldable pub deep_copy_time : Pointer → Copying T Pointer
    deep_copy_time none = pure none
    deep_copy_time (some p) = rc.time (some p)
