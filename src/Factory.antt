-- ===== src/Factory.antt =====
-- The factory of the resource managers, which the generator writes out for each kind with the same
-- text: the `manager_factory.go` files of pkg/resource and the constructor in `manager.go`. It keeps
-- one manager for each account, region and role. Here a call is one step; its steps under the locks,
-- with those of other calls between them, are those of Requests.
pub mod Ids
pub mod Twice
pub mod Requests
pub mod Sound
pub mod Locks
pub mod Bounded
pub mod Alone
use ack_ws_s3files_controlle.Prelude.{
  String, Bool, ◌≡◌, refl, arith, ◌∙◌, Option, none, some, List, [], ◌∷◌, ◌==◌, eq_refl, eq_iff,
  if◌then◌else◌, Option-cases, inl, inr,
}
use Prim.Native.String.{◌++◌}
use ack_ws_s3files_controlle.Ack.{Runtime}
use ack_ws_s3files_controlle.Aws.{Service}
use ack_ws_s3files_controlle.Manager.{ResourceManager}

-- The parts of the configurations that the constructor takes.
pub record Config : Type 0 where
  pub enable_cross_namespace : Bool
  pub partition : String

-- `rmCache`
abbrev pub Cache : Type 0 → Type 0 → Type 0
Cache S E = List (String × ResourceManager S E)

-- `fmt.Sprintf("%s/%s/%s", id, region, roleARN)`
abbrev pub manager_id : String → String → String → String
manager_id id region role_arn = id ++ ("/" ++ (region ++ ("/" ++ role_arn)))

module _ {S E : Type 0} where
  unfoldable pub cached : String → Cache S E → Option (ResourceManager S E)
  cached rm_id [] = none
  cached rm_id ((k, rm) ∷ cache) = if k == rm_id then some rm else cached rm_id cache

  unfoldable pub store : String → ResourceManager S E → Cache S E → Cache S E
  store rm_id rm [] = (rm_id, rm) ∷ []
  store rm_id rm ((k, old) ∷ cache) =
      if k == rm_id then (k, rm) ∷ cache else (k, old) ∷ store rm_id rm cache

  pub cached-store :
      (rm_id j : String) (rm : ResourceManager S E) (cache : Cache S E)
      → cached j (store rm_id rm cache) ≡ (if rm_id == j then some rm else cached j cache)
  unfolding cached store
  cached-store rm_id j rm [] = refl
  cached-store rm_id j rm ((k, old) ∷ cache) =
      ground (arith, cached-store rm_id j rm cache, eq_iff k rm_id, eq_iff k j, eq_iff rm_id j)

  module _ {Client : Type 0} (rt : Runtime E) (new_from_config : Client → Service S E) where
    unfoldable pub new_resource_manager : Config → Client → String → String → ResourceManager S E
    new_resource_manager cfg clientcfg id region = record {
      runtime = rt;
      sdkapi = new_from_config clientcfg;
      enable_cross_namespace = cfg.enable_cross_namespace;
      aws_account_id = id;
      aws_region = region;
      aws_partition = cfg.partition;
    }

    unfoldable pub manager_for :
        Config → Client → String → String → String → Cache S E → ResourceManager S E × Cache S E
    manager_for cfg clientcfg id region role_arn cache =
        let rm_id = manager_id id region role_arn in
        elim (cached rm_id cache) [
          | some rm ↦ (rm, cache)
          | none ↦
              let rm = new_resource_manager cfg clientcfg id region in (rm, store rm_id rm cache)
        ]
