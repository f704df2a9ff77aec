-- ===== src/DeepCopy/Resources.antt =====
-- The copy of a custom resource and of a list of them, which the generator writes out for each kind
-- with the same text (apis/v1alpha1/zz_generated.deepcopy.go).
use ack_ws_s3files_controlle.Prelude.{none, some, List}
use ack_ws_s3files_controlle.Memory.{Pointer, Slot, pure, ◌>>=◌, deep_copy_pointer, copy_each}
use ack_ws_s3files_controlle.DeepCopy.Structs.{
  RuntimeTypes, ResourceStruct, ListStruct, Cell, Copying,
}
use ack_ws_s3files_controlle.DeepCopy.Fields.{RuntimeCopies}

module _ {T : RuntimeTypes} (rc : RuntimeCopies T) {Spec Status : Type 0}
    (into_spec : Spec → Copying T Spec) (into_status : Status → Copying T Status) where
  unfoldable pub deep_copy_into_resource :
      ResourceStruct T Spec Status → Copying T (ResourceStruct T Spec Status)
  deep_copy_into_resource s = do
    object_meta ← rc.into_object_meta s.object_meta
    spec ← into_spec s.spec
    status ← into_status s.status
    pure (record {
      type_meta = s.type_meta;
      object_meta = object_meta;
      spec = spec;
      status = status;
    })

  -- The elements of the slice are the structures themselves.
  unfoldable pub deep_copy_into_list :
      Slot (Cell T) (List (ResourceStruct T Spec Status)) → ListStruct T → Copying T (ListStruct T)
  deep_copy_into_list slot s = do
    list_meta ← rc.into_list_meta s.list_meta
    items ← deep_copy_pointer slot (copy_each deep_copy_into_resource) s.items
    pure (record { type_meta = s.type_meta; list_meta = list_meta; items = items })

-- A `runtime.Object`: the nil interface, or a pointer in it.
pub data RuntimeObject : Type 0 where
  nil_object : RuntimeObject
  object_at : Pointer → RuntimeObject

-- A nil pointer gives the nil interface, and not an interface with a nil pointer in it.
unfoldable pub deep_copy_object :
    {T : RuntimeTypes} → (Pointer → Copying T Pointer) → Pointer → Copying T RuntimeObject
deep_copy_object copy p = do
  c ← copy p
  pure (elim c [ none ↦ nil_object | some q ↦ object_at (some q) ])
