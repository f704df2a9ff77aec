-- ===== src/DeepCopy/Separate/Fields.antt =====
-- The copy of a field shows what the field showed, by new cells only
-- (apis/v1alpha1/zz_generated.deepcopy.go).
use ack_ws_s3files_controlle.Prelude.{ℕ, Option, none, some, List}
use ack_ws_s3files_controlle.Memory.{
  Pointer, Slot, pure, deep_copy_pointer, ShowsPointer, ShowsEach,
}
use ack_ws_s3files_controlle.Memory.Laws.{Copied, DeepCopies, finish, Runs-Copied}
use ack_ws_s3files_controlle.Memory.Copies.{pure-DeepCopies, pointer-DeepCopies, each-DeepCopies}
use ack_ws_s3files_controlle.DeepCopy.Structs.{RuntimeTypes, Cell, Copying}
use ack_ws_s3files_controlle.DeepCopy.Slots.{
  string_slot, int64_slot, bool_slot, pointers_slot, reference_slot, metadata_slot, condition_slot,
}
use ack_ws_s3files_controlle.DeepCopy.Fields.{
  deep_copy_string, deep_copy_int64, deep_copy_bool, deep_copy_items, deep_copy_strings,
  deep_copy_int64s, RuntimeCopies, deep_copy_reference, deep_copy_metadata, deep_copy_time,
  deep_copy_conditions, deep_copy_references,
}
use ack_ws_s3files_controlle.DeepCopy.Shows.{
  RuntimeShows, ShowsString, ShowsInt64, ShowsBool, ShowsTime, ShowsItems, ShowsStrings,
  ShowsInt64S, ShowsReference, ShowsMetadata, ShowsConditions, ShowsReferences, ShowsPresent,
}

-- What the functions of the runtime and of Kubernetes promise of their own structures.
pub record RuntimeLaws {T : RuntimeTypes} (rc : RuntimeCopies T) (rs : RuntimeShows T)
    : Type 0 where
  pub reference : DeepCopies rs.reference rc.into_reference
  pub metadata : DeepCopies rs.metadata rc.into_metadata
  pub condition : DeepCopies rs.condition rc.into_condition
  pub object_meta : DeepCopies rs.object_meta rc.into_object_meta
  pub list_meta : DeepCopies rs.list_meta rc.into_list_meta
  pub time : DeepCopies ShowsTime rc.time

module _ {T : RuntimeTypes} where
  pub string-DeepCopies : DeepCopies {Cell = Cell T} ShowsString deep_copy_string
  string-DeepCopies = pointer-DeepCopies string_slot pure-DeepCopies

  pub int64-DeepCopies : DeepCopies {Cell = Cell T} ShowsInt64 deep_copy_int64
  int64-DeepCopies = pointer-DeepCopies int64_slot pure-DeepCopies

  pub bool-DeepCopies : DeepCopies {Cell = Cell T} ShowsBool deep_copy_bool
  bool-DeepCopies = pointer-DeepCopies bool_slot pure-DeepCopies

  module _ {A V : Type 0} (slot : Slot (Cell T) A) {R : List (Cell T) → A → V → Type 0}
      {copy : A → Copying T A} (d : DeepCopies R copy) where
    present-DeepCopies : DeepCopies (ShowsPresent slot R) (deep_copy_pointer slot copy)
    present-DeepCopies =
        let p = pointer-DeepCopies slot d in
        record {
          stable = λ h k a v. p.stable h k a (some v);
          copies = λ h a v s.
              let c = p.copies h a (some v) s in
              record { copy = c.copy; new = c.new; ran = c.ran; shown = c.shown };
        }

    pub items-DeepCopies : DeepCopies (ShowsItems slot R) (deep_copy_items slot copy)
    items-DeepCopies = pointer-DeepCopies pointers_slot (each-DeepCopies present-DeepCopies)

    -- A slice of pointers that may be nil.
    pub pointers-DeepCopies :
        DeepCopies
          (ShowsPointer pointers_slot (ShowsEach (ShowsPointer slot R)))
          (deep_copy_items slot copy)
    pointers-DeepCopies =
        pointer-DeepCopies pointers_slot (each-DeepCopies (pointer-DeepCopies slot d))

  pub strings-DeepCopies : DeepCopies {Cell = Cell T} ShowsStrings deep_copy_strings
  strings-DeepCopies = pointers-DeepCopies string_slot pure-DeepCopies

  pub int64s-DeepCopies : DeepCopies {Cell = Cell T} ShowsInt64S deep_copy_int64s
  int64s-DeepCopies = pointers-DeepCopies int64_slot pure-DeepCopies

  module _ {rc : RuntimeCopies T} (rs : RuntimeShows T) (laws : RuntimeLaws rc rs) where
    pub reference-DeepCopies : DeepCopies (ShowsReference rs) (deep_copy_reference rc)
    reference-DeepCopies = pointer-DeepCopies reference_slot laws.reference

    pub references-DeepCopies : DeepCopies (ShowsReferences rs) (deep_copy_references rc)
    references-DeepCopies = pointers-DeepCopies reference_slot laws.reference

    pub metadata-DeepCopies : DeepCopies (ShowsMetadata rs) (deep_copy_metadata rc)
    metadata-DeepCopies = pointer-DeepCopies metadata_slot laws.metadata

    pub conditions-DeepCopies : DeepCopies (ShowsConditions rs) (deep_copy_conditions rc)
    conditions-DeepCopies = items-DeepCopies condition_slot laws.condition

    time_copies :
        (h : List (Cell T)) (p : Pointer) (v : Option ℕ)
        → ShowsTime h p v
        → Copied ShowsTime h v (deep_copy_time rc p)
    unfolding deep_copy_time
    time_copies h none v s = pure_nil h v s
      where
        pure_nil :
            (h : List (Cell T)) (v : Option ℕ)
            → ShowsTime h none v
            → Copied ShowsTime h v (pure none)
        pure_nil h none u = Runs-Copied (finish ShowsTime none λ g k e. tt)
        pure_nil h (some t) u = elim u [ ]
    time_copies h (some p) v s = laws.time.copies h (some p) v s

    pub time-DeepCopies : DeepCopies ShowsTime (deep_copy_time rc)
    time-DeepCopies = record { stable = laws.time.stable; copies = time_copies }
