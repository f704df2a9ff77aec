-- ===== src/References.antt =====
-- References to resources of other controllers (the `references.go` files of pkg/resource): the
-- steps that every reference field repeats, over the object that the API reader returns.
pub mod Fields
pub mod Laws
use ack_ws_s3files_controlle.Prelude.{
  String, Bool, true, false, ◌||◌, Option, none, some, List, [], ◌==◌, is_some, if◌then◌else◌,
}
use Prim.Native.String.{◌++◌}
use ack_ws_s3files_controlle.Ack.{
  Condition, ResourceMetadata, terminal, resource_synced, Reference, ReferenceFrom, Runtime, Reply,
  done, failed,
}
use ack_ws_s3files_controlle.Conditions.{holds}

-- A kind of object that a field may refer to: the parts of its status that the controller reads.
-- `path` is where `target` stands.
pub record Target (Obj : Type 0) : Type 0 where
  pub kind : String
  pub path : String
  pub conditions : Obj → List Condition
  pub target : Obj → Option String

-- The status of an object of another controller that is referred to by its ARN.
pub record ArnObject : Type 0 where
  pub ack_resource_metadata : Option ResourceMetadata
  pub conditions : List Condition

-- `obj.Status.ACKResourceMetadata.ARN`, where nil metadata has none.
abbrev pub arn_of : ArnObject → Option String
arn_of obj = elim obj.ack_resource_metadata [ none ↦ none | some md ↦ md.arn ]

abbrev pub arn_target : String → Target ArnObject
arn_target kind = record {
  kind = kind;
  path = "Status.ACKResourceMetadata.ARN";
  conditions = λ obj. obj.conditions;
  target = arn_of;
}

-- The status of an object of another controller that is referred to by its id.
pub record IdObject : Type 0 where
  pub id : Option String
  pub conditions : List Condition

abbrev pub id_target : String → String → Target IdObject
id_target kind path = record {
  kind = kind;
  path = path;
  conditions = λ obj. obj.conditions;
  target = λ obj. obj.id;
}

-- `apiReader.Get` of one kind, by namespace and name.
abbrev pub Getter : Type 0 → Type 0 → Type 0
Getter E Obj = String → String → Reply E Obj

-- `ref != nil && ref.From != nil`
abbrev pub source_of : Option Reference → Option ReferenceFrom
source_of none = none
source_of (some ref) = ref.from

-- Whether a field refers to another object.
abbrev pub refers : Option Reference → Bool
refers ref = is_some (source_of ref)

-- What `ResolveReferences`, and the resolution of one field, return.
pub record Resolution (E A : Type 0) : Type 0 where
  pub resource : A
  pub has_references : Bool
  pub error : Option E

module _ {E : Type 0} (rt : Runtime E) where
  module _ {Obj : Type 0} (t : Target Obj) where
    -- The checks of an object that is there, in their order.
    unfoldable pub referenced_error : String → String → Obj → Option E
    referenced_error namespace name obj =
        if holds terminal (t.conditions obj)
        then some (rt.reference_terminal_for t.kind namespace name)
        else if holds resource_synced (t.conditions obj)
        then (if is_some (t.target obj)
            then none
            else some (rt.reference_missing_target_field_for t.kind namespace name t.path))
        else some (rt.reference_not_synced_for t.kind namespace name)

    -- `getReferencedResourceState`, with the object that it fills.
    unfoldable pub get_referenced_resource_state : Getter E Obj → String → String → Reply E Obj
    unfolding referenced_error
    get_referenced_resource_state get name namespace = elim (get namespace name) [
      | failed err ↦ failed err
      | done obj ↦ elim (referenced_error namespace name obj) [
        | none ↦ done obj
        | some err ↦ failed err
      ]
    ]

  -- The settings of a resolution: `EnableCrossNamespace`, the namespace of the resource and the
  -- name of the reference field. `state` takes the name and the namespace.
  module _ (enable_cross_namespace : Bool) (own_namespace field : String) {Obj : Type 0}
      (state : String → String → Reply E Obj) where
    -- The reading of the object that a reference names.
    unfoldable pub read_reference : ReferenceFrom → Reply E Obj
    read_reference from = elim from.name [
      | none ↦ failed (rt.errorf ("provided resource reference is nil or empty: " ++ field) [])
      | some name ↦
          if name == ""
          then failed (rt.errorf ("provided resource reference is nil or empty: " ++ field) [])
          else elim (rt.validate_cross_namespace_reference enable_cross_namespace own_namespace
              from.namespace name) [
                | done namespace ↦ state name namespace
                | failed err ↦ failed err
              ]
    ]

    -- `resolveReferenceFor...` of one field: an error leaves the resource as it is, and an object
    -- is read for its `target`, which `set` assigns.
    unfoldable pub resolve_reference :
        {A : Type 0}
        → (Obj → Option String)
        → (A → Option String → A)
        → Option Reference
        → A
        → Resolution E A
    resolve_reference target set ref ko = elim (source_of ref) [
      | none ↦ record { resource = ko; has_references = false; error = none }
      | some from ↦ elim (read_reference from) [
        | done obj ↦ record { resource = set ko (target obj); has_references = true; error = none }
        | failed err ↦ record { resource = ko; has_references = true; error = some err }
      ]
    ]

  -- Both the reference and the value, and neither where one is required.
  abbrev pub both_error : String → String → Bool → Bool → Option E → Option E
  both_error id field has_ref has_value rest =
      if has_ref
      then (if has_value then some (rt.reference_and_id_not_supported_for id field) else rest)
      else rest

  abbrev pub neither_error : String → String → Bool → Bool → Option E → Option E
  neither_error id field has_ref has_value rest =
      if has_ref || has_value then rest else some (rt.reference_or_id_required_for id field)

-- One field of `ResolveReferences`, and what follows: an error ends it with the resource as the
-- field left it.
unfoldable pub resolve_field :
    {E A : Type 0} → (A → Resolution E A) → (A → Bool → Resolution E A) → A → Bool → Resolution E A
resolve_field resolve next r has =
    let out = resolve r in
    elim out.error [
      | none ↦ next out.resource (has || out.has_references)
      | some err ↦ record {
        resource = out.resource;
        has_references = has || out.has_references;
        error = some err;
      }
    ]
