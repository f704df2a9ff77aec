-- ===== src/Objects.antt =====
-- The views that the runtime has of a custom resource, and that the generator writes out for each
-- kind with the same text: the `resource.go` and `descriptor.go` files of pkg/resource. A setter
-- returns the resource, and its error if it has one.
pub mod Laws
use ack_ws_s3files_controlle.Prelude.{
  String, Bool, Option, none, some, List, [], is_some, contains, ◌==◌, if◌then◌else◌, GoMap, lookup,
  insert,
}
use Prim.Native.String.{◌++◌}
use ack_ws_s3files_controlle.Ack.{ObjectMeta, Runtime}

-- The parts of a kind that these functions work on. `id_field` is the key of the id in an adoption
-- annotation, and `with_id` the assignment of the id.
pub record Object (R Status : Type 0) : Type 0 where
  pub finalizer_string : String
  pub id_field : String
  pub metadata : R → ObjectMeta
  pub with_metadata : R → ObjectMeta → R
  pub status : R → Status
  pub with_status : R → Status → R
  pub with_id : R → String → R

-- `k8sctrlutil.AddFinalizer` and `RemoveFinalizer`, on the list of finalizers.
pub record ControllerUtil : Type 0 where
  pub add_finalizer : List String → String → List String
  pub remove_finalizer : List String → String → List String

abbrev annotations_of : Option GoMap → GoMap
annotations_of none = []
annotations_of (some curr) = curr

module _ {R Status : Type 0} (o : Object R Status) where
  abbrev pub is_being_deleted : R → Bool
  is_being_deleted r = is_some (o.metadata r).deletion_timestamp

  abbrev pub set_object_meta : ObjectMeta → R → R
  set_object_meta meta r = o.with_metadata r meta

  abbrev pub set_status : R → R → R
  set_status desired r = o.with_status r (o.status desired)

  module _ {E : Type 0} (rt : Runtime E) where
    unfoldable pub set_identifiers : String → R → R × Option E
    set_identifiers name_or_id r =
        if name_or_id == ""
        then (r, some rt.missing_name_identifier)
        else (o.with_id r name_or_id, none)

    unfoldable pub populate_resource_from_annotation : GoMap → R → R × Option E
    populate_resource_from_annotation fields r = elim (lookup o.id_field fields) [
      | none ↦ (
        r,
        some (rt.new_terminal_error (rt.errorf ("required field missing: " ++ o.id_field) [])),
      )
      | some id ↦ (o.with_id r id, none)
    ]

  -- The loop of `containsFinalizer`.
  unfoldable pub contains_finalizer : R → String → Bool
  contains_finalizer obj finalizer = contains finalizer (o.metadata obj).finalizers

  unfoldable pub is_managed : R → Bool
  unfolding contains_finalizer
  is_managed res = contains_finalizer res o.finalizer_string

  abbrev with_finalizers : List String → R → R
  with_finalizers finalizers r =
      o.with_metadata r (record (o.metadata r) { finalizers = finalizers })

  module _ (util : ControllerUtil) where
    unfoldable pub mark_managed : R → R
    mark_managed res =
        with_finalizers (util.add_finalizer (o.metadata res).finalizers o.finalizer_string) res

    unfoldable pub mark_unmanaged : R → R
    mark_unmanaged res =
        with_finalizers (util.remove_finalizer (o.metadata res).finalizers o.finalizer_string) res

  -- The key is `ackv1alpha1.AnnotationAdopted`.
  unfoldable pub mark_adopted : String → R → R
  mark_adopted annotation_adopted res =
      let meta = o.metadata res in
      o.with_metadata res (record meta {
        annotations = some (insert annotation_adopted "true" (annotations_of meta.annotations));
      })
