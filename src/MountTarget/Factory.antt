-- ===== src/MountTarget/Factory.antt =====
-- The factory of the managers (pkg/resource/mount_target/manager_factory.go, and the constructor in
-- manager.go), with the text of the other kinds.
use ack_ws_s3files_controlle.Prelude.{ℕ, String, Bool, true, []}
use ack_ws_s3files_controlle.Ack.{Runtime}
use ack_ws_s3files_controlle.Aws.{Service}
use ack_ws_s3files_controlle.Manager.{ResourceManager}
use ack_ws_s3files_controlle.Factory
use ack_ws_s3files_controlle.Factory.{Config, Cache}

module _ {S E : Type 0} where
  abbrev pub new_resource_manager_factory : Cache S E
  new_resource_manager_factory = []

  module _ {Client : Type 0} (rt : Runtime E) (new_from_config : Client → Service S E) where
    abbrev pub new_resource_manager : Config → Client → String → String → ResourceManager S E
    new_resource_manager = Factory.new_resource_manager rt new_from_config

    abbrev pub manager_for :
        Config → Client → String → String → String → Cache S E → ResourceManager S E × Cache S E
    manager_for = Factory.manager_for rt new_from_config

abbrev pub is_adoptable : Bool
is_adoptable = true

abbrev pub requeue_on_success_seconds : ℕ
requeue_on_success_seconds = 0
