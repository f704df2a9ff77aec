-- ===== src/DeepCopy/Separate/Resources.antt =====
-- The copy of a custom resource, and of a list of them, shows what it showed, by new cells only
-- (apis/v1alpha1/zz_generated.deepcopy.go).
use ack_ws_s3files_controlle.Prelude.{List, [], ◌++◌}
use ack_ws_s3files_controlle.Memory.{Slot, deep_copy_pointer, ShowsPointer, copy_each, ShowsEach}
use ack_ws_s3files_controlle.Memory.Laws.{Copied, DeepCopies, start, step, finish, Runs-Copied}
use ack_ws_s3files_controlle.Memory.Copies.{pointer-DeepCopies, each-DeepCopies}
use ack_ws_s3files_controlle.DeepCopy.Structs.{
  RuntimeTypes, ResourceStruct, ListStruct, Cell, Copying,
}
use ack_ws_s3files_controlle.DeepCopy.Fields.{RuntimeCopies}
use ack_ws_s3files_controlle.DeepCopy.Shows.{RuntimeShows}
use ack_ws_s3files_controlle.DeepCopy.Shows.Structs.{
  ShowsResource, ShowsList, ResourceView, ListView,
}
use ack_ws_s3files_controlle.DeepCopy.Separate.Fields.{RuntimeLaws}
use ack_ws_s3files_controlle.DeepCopy.Resources.{deep_copy_into_resource, deep_copy_into_list}

module _ {T : RuntimeTypes} {rc : RuntimeCopies T} (rs : RuntimeShows T) (laws : RuntimeLaws rc rs)
    {Spec SpecV Status StatusV : Type 0} {ShowsSpec : List (Cell T) → Spec → SpecV → Type 0}
    {ShowsStatus : List (Cell T) → Status → StatusV → Type 0} {into_spec : Spec → Copying T Spec}
    {into_status : Status → Copying T Status} (spec : DeepCopies ShowsSpec into_spec)
    (status : DeepCopies ShowsStatus into_status) where
  abbrev Shown :
      List (Cell T) → ResourceStruct T Spec Status → ResourceView T SpecV StatusV → Type 0
  Shown = ShowsResource rs ShowsSpec ShowsStatus

  resource_stable :
      (h k : List (Cell T)) (s : ResourceStruct T Spec Status) (v : ResourceView T SpecV StatusV)
      → Shown h s v
      → Shown (h ++ k) s v
  resource_stable h k s v w = record {
    type_meta = w.type_meta;
    object_meta = laws.object_meta.stable h k s.object_meta v.metadata w.object_meta;
    spec = spec.stable h k s.spec v.spec w.spec;
    status = status.stable h k s.status v.status w.status;
  }

  resource_copies :
      (h : List (Cell T)) (s : ResourceStruct T Spec Status) (v : ResourceView T SpecV StatusV)
      → Shown h s v
      → Copied Shown h v (deep_copy_into_resource rc into_spec into_status s)
  unfolding deep_copy_into_resource
  resource_copies h s v w = Runs-Copied (
      step laws.object_meta s.object_meta v.metadata w.object_meta (start []) λ n1 object_meta c1.
        step spec s.spec v.spec w.spec c1 λ n2 spec_copy c2.
          step status s.status v.status w.status c2 λ n3 status_copy c3.
            finish Shown
              (record {
                type_meta = s.type_meta;
                object_meta = object_meta;
                spec = spec_copy;
                status = status_copy;
              })
              λ g k e. record {
                type_meta = w.type_meta;
                object_meta = c3.holds.0.0.1 g k e;
                spec = c3.holds.0.1 g k e;
                status = c3.holds.1 g k e;
              })

  pub resource-DeepCopies :
      DeepCopies {Cell = Cell T} Shown (deep_copy_into_resource rc into_spec into_status)
  resource-DeepCopies = record { stable = resource_stable; copies = resource_copies }

  module _ (slot : Slot (Cell T) (List (ResourceStruct T Spec Status))) where
    abbrev ShownList :
        List (Cell T)
        → ListStruct T
        → ListView T rs.ListMetaView (ResourceView T SpecV StatusV)
        → Type 0
    ShownList = ShowsList rs ShowsSpec ShowsStatus slot

    items :
        DeepCopies
          (ShowsPointer slot (ShowsEach Shown))
          (deep_copy_pointer slot (copy_each (deep_copy_into_resource rc into_spec into_status)))
    items = pointer-DeepCopies slot (each-DeepCopies resource-DeepCopies)

    list_stable :
        (h k : List (Cell T)) (s : ListStruct T)
        (v : ListView T rs.ListMetaView (ResourceView T SpecV StatusV))
        → ShownList h s v
        → ShownList (h ++ k) s v
    list_stable h k s v w = record {
      type_meta = w.type_meta;
      list_meta = laws.list_meta.stable h k s.list_meta v.metadata w.list_meta;
      items = items.stable h k s.items v.items w.items;
    }

    list_copies :
        (h : List (Cell T)) (s : ListStruct T)
        (v : ListView T rs.ListMetaView (ResourceView T SpecV StatusV))
        → ShownList h s v
        → Copied ShownList h v (deep_copy_into_list rc into_spec into_status slot s)
    unfolding deep_copy_into_list
    list_copies h s v w = Runs-Copied (
        step laws.list_meta s.list_meta v.metadata w.list_meta (start []) λ n1 list_meta c1.
          step items s.items v.items w.items c1 λ n2 items_copy c2.
            finish ShownList
              (record { type_meta = s.type_meta; list_meta = list_meta; items = items_copy })
              λ g k e. record {
                type_meta = w.type_meta;
                list_meta = c2.holds.0.1 g k e;
                items = c2.holds.1 g k e;
              })

    pub list-DeepCopies :
        DeepCopies {Cell = Cell T} ShownList (deep_copy_into_list rc into_spec into_status slot)
    list-DeepCopies = record { stable = list_stable; copies = list_copies }
