-- ===== src/DeepCopy/Slots/Values.antt =====
-- The cells of texts, numbers, slices of pointers and the structures of the runtime (apis/v1alpha1).
use ack_ws_s3files_controlle.Prelude.{ℕ, String, Bool, refl, Option, none, some, List}
use ack_ws_s3files_controlle.Memory.{Pointer, Slot}
use ack_ws_s3files_controlle.DeepCopy.Structs.{RuntimeTypes, Cell}

module _ {T : RuntimeTypes} where
  abbrev as_string : Cell T → Option (String)
  as_string (Cell.string x) = some x
  as_string _ = none

  abbrev pub string_slot : Slot (Cell T) (String)
  string_slot = record { put = Cell.string; get = as_string; get-put = λ x. refl }

  abbrev as_int64 : Cell T → Option (ℕ)
  as_int64 (Cell.int64 x) = some x
  as_int64 _ = none

  abbrev pub int64_slot : Slot (Cell T) (ℕ)
  int64_slot = record { put = Cell.int64; get = as_int64; get-put = λ x. refl }

  abbrev as_bool : Cell T → Option (Bool)
  as_bool (Cell.bool x) = some x
  as_bool _ = none

  abbrev pub bool_slot : Slot (Cell T) (Bool)
  bool_slot = record { put = Cell.bool; get = as_bool; get-put = λ x. refl }

  abbrev as_time : Cell T → Option (ℕ)
  as_time (Cell.time x) = some x
  as_time _ = none

  abbrev pub time_slot : Slot (Cell T) (ℕ)
  time_slot = record { put = Cell.time; get = as_time; get-put = λ x. refl }

  abbrev as_pointers : Cell T → Option (List Pointer)
  as_pointers (Cell.pointers x) = some x
  as_pointers _ = none

  abbrev pub pointers_slot : Slot (Cell T) (List Pointer)
  pointers_slot = record { put = Cell.pointers; get = as_pointers; get-put = λ x. refl }

  abbrev as_reference : Cell T → Option (T.Reference)
  as_reference (Cell.reference x) = some x
  as_reference _ = none

  abbrev pub reference_slot : Slot (Cell T) (T.Reference)
  reference_slot = record { put = Cell.reference; get = as_reference; get-put = λ x. refl }

  abbrev as_metadata : Cell T → Option (T.ResourceMetadata)
  as_metadata (Cell.metadata x) = some x
  as_metadata _ = none

  abbrev pub metadata_slot : Slot (Cell T) (T.ResourceMetadata)
  metadata_slot = record { put = Cell.metadata; get = as_metadata; get-put = λ x. refl }

  abbrev as_condition : Cell T → Option (T.Condition)
  as_condition (Cell.condition x) = some x
  as_condition _ = none

  abbrev pub condition_slot : Slot (Cell T) (T.Condition)
  condition_slot = record { put = Cell.condition; get = as_condition; get-put = λ x. refl }
