-- ===== src/Factory/Sound.antt =====
-- Whom the managers are for that requests get at the same time (`ManagerFor` of pkg/resource/
-- file_system/manager_factory.go).
use ack_ws_s3files_controlle.Prelude.{false, ◌≡◌, none, some, List, [], ◌∷◌}
use ack_ws_s3files_controlle.Ack.{Runtime}
use ack_ws_s3files_controlle.Aws.{Service}
use ack_ws_s3files_controlle.Manager.{ResourceManager}
use ack_ws_s3files_controlle.Factory.{Cache, cached}
use ack_ws_s3files_controlle.Factory.Ids.{has_slash}
use ack_ws_s3files_controlle.Factory.Requests.{
  Request, id_of, Stage, asking, reading, missed, making, looked, stored, served,
}

module _ {S E Client : Type 0} (rt : Runtime E) (new_from_config : Client → Service S E) where
  -- A manager for the account, the region and the role of a request: it was made of the
  -- configurations of a request with the same three.
  pub record IsFor (q : Request Client) (rm : ResourceManager S E) : Type 0 where
    pub maker : Request Client
    pub same_id : maker.id ≡ q.id
    pub same_region : maker.region ≡ q.region
    pub same_role : maker.role_arn ≡ q.role_arn
    pub aws_account_id : rm.aws_account_id ≡ q.id
    pub aws_region : rm.aws_region ≡ q.region
    pub aws_partition : rm.aws_partition ≡ maker.config.partition
    pub enable_cross_namespace : rm.enable_cross_namespace ≡ maker.config.enable_cross_namespace
    pub sdkapi : rm.sdkapi ≡ new_from_config maker.client_config

  -- Accounts and regions have no slash.
  abbrev pub HasKey : Request Client → Type 0
  HasKey q = (has_slash q.id ≡ false) × (has_slash q.region ≡ false)

  abbrev pub IsSoundCache : Cache S E → Type 0
  IsSoundCache cache =
      (q : Request Client) (rm : ResourceManager S E)
      → HasKey q
      → cached (id_of q) cache ≡ some rm
      → IsFor q rm

  abbrev pub IsSoundStage : Stage S E Client → Type 0
  IsSoundStage (looked q (some rm)) = HasKey q × IsFor q rm
  IsSoundStage (looked q none) = HasKey q
  IsSoundStage (stored q rm) = HasKey q × IsFor q rm
  IsSoundStage (served q rm) = HasKey q × IsFor q rm
  IsSoundStage (asking q) = HasKey q
  IsSoundStage (reading q) = HasKey q
  IsSoundStage (missed q) = HasKey q
  IsSoundStage (making q) = HasKey q

  abbrev pub AreSound : List (Stage S E Client) → Type 0
  AreSound [] = Unit
  AreSound (t ∷ stages) = IsSoundStage t × AreSound stages
