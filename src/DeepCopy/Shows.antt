-- ===== src/DeepCopy/Shows.antt =====
-- What a structure in memory shows: the value that the other modules work on (apis/v1alpha1).
pub mod Structs
use ack_ws_s3files_controlle.Prelude.{ℕ, String, Bool, Option, none, some, List}
use ack_ws_s3files_controlle.Ack.{Reference, ResourceMetadata, Condition, ObjectMeta}
use ack_ws_s3files_controlle.Memory.{Pointer, Slot, ShowsPointer, ShowsEach}
use ack_ws_s3files_controlle.Memory.Copies.{ShowsSame}
use ack_ws_s3files_controlle.DeepCopy.Structs.{RuntimeTypes, Cell}
use ack_ws_s3files_controlle.DeepCopy.Slots.{
  string_slot, int64_slot, bool_slot, time_slot, pointers_slot, reference_slot, metadata_slot,
  condition_slot,
}

-- What the structures of the runtime show, and the parts of `metav1.ListMeta` that a list shows.
pub record RuntimeShows (T : RuntimeTypes) : Type 1 where
  pub reference : List (Cell T) → T.Reference → Reference → Type 0
  pub metadata : List (Cell T) → T.ResourceMetadata → ResourceMetadata → Type 0
  pub condition : List (Cell T) → T.Condition → Condition → Type 0
  pub object_meta : List (Cell T) → T.ObjectMeta → ObjectMeta → Type 0
  pub ListMetaView : Type 0
  pub list_meta : List (Cell T) → T.ListMeta → ListMetaView → Type 0

module _ {T : RuntimeTypes} where
  abbrev pub ShowsString : List (Cell T) → Pointer → Option String → Type 0
  ShowsString = ShowsPointer string_slot ShowsSame

  abbrev pub ShowsInt64 : List (Cell T) → Pointer → Option ℕ → Type 0
  ShowsInt64 = ShowsPointer int64_slot ShowsSame

  abbrev pub ShowsBool : List (Cell T) → Pointer → Option Bool → Type 0
  ShowsBool = ShowsPointer bool_slot ShowsSame

  abbrev pub ShowsTime : List (Cell T) → Pointer → Option ℕ → Type 0
  ShowsTime = ShowsPointer time_slot ShowsSame

  -- An element that is not nil.
  abbrev pub ShowsPresent :
      {A V : Type 0}
      → Slot (Cell T) A
      → (List (Cell T) → A → V → Type 0)
      → List (Cell T)
      → Pointer
      → V
      → Type 0
  ShowsPresent slot R h p v = ShowsPointer slot R h p (some v)

  -- A slice of pointers, none of them nil, as the model's lists have it.
  abbrev pub ShowsItems :
      {A V : Type 0}
      → Slot (Cell T) A
      → (List (Cell T) → A → V → Type 0)
      → List (Cell T)
      → Pointer
      → Option (List V)
      → Type 0
  ShowsItems slot R = ShowsPointer pointers_slot (ShowsEach (ShowsPresent slot R))

  -- A slice of pointers that may be nil.
  abbrev pub ShowsStrings : List (Cell T) → Pointer → Option (List (Option String)) → Type 0
  ShowsStrings = ShowsPointer pointers_slot (ShowsEach ShowsString)

  abbrev pub ShowsInt64S : List (Cell T) → Pointer → Option (List (Option ℕ)) → Type 0
  ShowsInt64S = ShowsPointer pointers_slot (ShowsEach ShowsInt64)

  module _ (rs : RuntimeShows T) where
    abbrev pub ShowsReference : List (Cell T) → Pointer → Option Reference → Type 0
    ShowsReference = ShowsPointer reference_slot rs.reference

    abbrev pub ShowsReferences : List (Cell T) → Pointer → Option (List (Option Reference)) → Type 0
    ShowsReferences = ShowsPointer pointers_slot (ShowsEach ShowsReference)

    abbrev pub ShowsMetadata : List (Cell T) → Pointer → Option ResourceMetadata → Type 0
    ShowsMetadata = ShowsPointer metadata_slot rs.metadata

    abbrev pub ShowsConditions : List (Cell T) → Pointer → Option (List Condition) → Type 0
    ShowsConditions = ShowsItems condition_slot rs.condition
