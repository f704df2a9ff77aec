-- ===== src/Lib.antt =====
-- The ACK controller for Amazon S3 Files: a Kubernetes controller that keeps the file systems, the
-- access points and the mount targets of the service as custom resources describe them.
--
-- The parts of the program, and the files that model them:
-- * Tags of a resource (pkg/resource/file_system/tags.go): Tags, with the value that a key has
--   (Tags/View), the round trip through the tag map (Tags/Order) and the system tags (Tags/System).
--   A Go map is an association list (Prelude/Maps); the order of `range` is a parameter.
-- * Synchronisation of tags with the service (pkg/tags/tags.go): TagSync (its laws in
--   TagSync/Converge).
-- * Conditions (`updateConditions` of pkg/resource/file_system/sdk.go, which the other kinds repeat):
--   Conditions, with its laws on the list (Conditions/Laws) and on a whole update (Conditions/Mark).
-- * What the generator repeats in the three kinds: Kinds (`setStatusDefaults`, `updateConditions`,
--   `onError`, `onSuccess`, `ReadOne`, `Create`, `Update`, `Delete` and `LateInitialize` of sdk.go and
--   manager.go, over a record of the places that a kind has; laws in Kinds/Laws), Objects (the views
--   and marks of resource.go and descriptor.go; laws in Objects/Laws), References (the steps of a
--   reference field of references.go, over the kind of object that it names; laws in
--   References/Laws, and in References/Fields how the fields follow one another) and Compare (the
--   comparisons of delta.go). The kinds instantiate them, each name of the source once for each kind.
-- * The file system: the custom resource (FileSystem/Types, apis/v1alpha1/file_system.go), the calls
--   of the service (FileSystem/Sdk, sdk.go), the updates (FileSystem/Hooks, hooks.go), the comparison
--   (FileSystem/Delta, delta.go), the manager's methods (FileSystem/Manager, manager.go), the
--   references to a bucket, a key and a role (FileSystem/References, references.go) and what the
--   runtime sees (FileSystem/Resource, resource.go, identifiers.go, descriptor.go), all of
--   pkg/resource/file_system. The proofs are in FileSystem/Outcome (what the manager reports), Read
--   (what a read returns), Update (the branches of an update), Rules (the synchronization
--   configuration), Drift (which differences are seen), Ignored (what never reaches the service), Settled
--   and Policy (an update and the read after it: the tags and the policy), TagOps (the tags of a
--   resource), Resolve (the references) and Managed (the marks and the adoption).
-- * The factory of the managers (manager_factory.go, and the constructor in manager.go, the same for
--   each kind): Factory has a call as one step, Factory/Requests several calls at the same time, as a
--   step relation in which a request takes the read lock, looks into the cache, gives the lock back,
--   takes the write lock, stores a manager and gives that back. The proofs are in Factory/Ids (the
--   keys of the cache), Twice (a call after another), Sound (whom the managers are for), Locks and
--   Bounded (who holds the lock, and that all come to an end) and Alone (a call on its own). The
--   identifiers of a resource (identifiers.go, the same for each kind) are in Identifiers. The kinds
--   have them under FileSystem/Factory and FileSystem/Resource, and so on.
-- * The access point (pkg/resource/access_point, apis/v1alpha1/access_point.go): AccessPoint/Types,
--   Sdk, Hooks, Delta, Manager, References and Resource model the files of those names;
--   AccessPoint/Outcome has what becomes of the condition that the custom update sets, AccessPoint/Seen
--   which differences the delta shows, AccessPoint/Created what a create returns, AccessPoint/Resolve
--   the reference to a file system.
-- * The mount target (pkg/resource/mount_target, apis/v1alpha1/mount_target.go): MountTarget/Types,
--   Sdk, Delta, Manager, References and Resource; MountTarget/Read has what reads show,
--   MountTarget/Outcome what updates report, MountTarget/Seen what the delta shows, MountTarget/Settled
--   when a read leaves nothing to update, MountTarget/Groups the loop over the security groups,
--   MountTarget/Resolve the whole resolution.
-- * The deep copies (apis/v1alpha1/zz_generated.deepcopy.go): DeepCopy, over the memory of cells and
--   pointers of Memory (its laws in Memory/Laws, Copies and Writes). DeepCopy/Structs has the
--   structures as they lie in memory and DeepCopy/Slots the cells that they lie in, DeepCopy/Fields,
--   Parts, Resources, FileSystem, AccessPoint, MountTarget and Descriptions the copies
--   (`deep_copy_into_tag` is `(*Tag).DeepCopyInto`; Descriptions has the types of apis/v1alpha1/types.go
--   that nothing else uses), DeepCopy/Shows the value of the model that a structure shows, and
--   DeepCopy/Separate the proofs, the kinds together in its Kinds. `DeepCopyInto` returns what the
--   source writes through `out`.
-- * Over the three kinds: ReadOnly (what a read leaves) and Deletion (what a deletion does).
--
-- What is not part of the repository is a parameter: the ACK runtime is the record `Runtime` of Ack,
-- the SDK client the record `Service` of Aws over a state of the service of any type. A handler is a
-- function of `World`, the state of the service and the recorded calls, that returns a value or an
-- error (`Exec` of Ack); where the source returns a resource and an error, both are there
-- (`Returned`). What the theorems assume of the runtime and the service are records of laws
-- (`Ranging`, `IsTagsDifference`, `HoldsTags`, `IsSetTerminal`, `IsComparing`, `IsMerge`,
-- `HoldsPolicy`, `IsFinalizing`, `IsMapEqual`, `ShowsTags`, `ShowsPolicy`, `IsDocumentEqual`,
-- `IsReadOnly`, `IsReflexive`, `IsSliceEqual`, `IsInt64Slice`, `RuntimeLaws`); Tests/Fixture, Tests/Cloud and
-- Tests/Memory are concrete functions that keep them. A nil pointer is `none`. An int64 or an int32 is
-- its bit pattern, a natural number below 2 ^ 64 or 2 ^ 32. No definition needs fuel: every loop of the
-- program runs over a slice or a map.
--
-- Only DeepCopy works on memory. The other modules work on values, which nothing shares: where the
-- source copies a resource before it changes it, they change the value.
--
-- Not modelled: the wiring and the flags of cmd/controller/main.go, logging, the panics on a nil custom
-- resource, and the generated registration and enum files.
pub mod Prelude
pub mod Tags
pub mod Ack
pub mod Aws
pub mod Conditions
pub mod TagSync
pub mod Compare
pub mod Kinds
pub mod Memory
pub mod DeepCopy
pub mod Objects
pub mod Identifiers
pub mod Descriptions
pub mod Manager
pub mod Factory
pub mod References
pub mod FileSystem
pub mod AccessPoint
pub mod MountTarget
pub mod ReadOnly
pub mod Deletion
mod Tests
