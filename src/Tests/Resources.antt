-- ===== src/Tests/Resources.antt =====
-- The theorems about the marks, the adoption and the factory at concrete inputs.
use ack_ws_s3files_controlle.Prelude.{
  ℕ, ◌&&◌, ◌≤◌, ◌*◌, ◌⊎◌, true, false, ◌≡◌, refl, List, [], ◌∷◌, ◌==◌, if◌then◌else◌, GoMap, lookup,
}
use ack_ws_s3files_controlle.Objects
use ack_ws_s3files_controlle.Objects.{ControllerUtil}
use ack_ws_s3files_controlle.FileSystem.Resource.{populate_resource_from_annotation}
use ack_ws_s3files_controlle.FileSystem.Managed.{
  IsAdopted, populate_resource_from_annotation-IsAdopted,
}
use ack_ws_s3files_controlle.Aws.{Service}
use ack_ws_s3files_controlle.Factory.{Config, cached, store, manager_for}
use ack_ws_s3files_controlle.Factory.Twice.{manager_for-manager_for}
use ack_ws_s3files_controlle.Factory.Requests.{
  Request, Shared, Stage, asking, served, Run, read_lock, look, read_unlock, lock, make, unlock,
  here, there, stop, step,
}
use ack_ws_s3files_controlle.Factory.Alone.{steps_alone, manager_for-Run}
use ack_ws_s3files_controlle.Factory.Locks.{IsLocked, unlocked}
use ack_ws_s3files_controlle.Factory.Bounded.{all_asking, AllServed, CanStep, Run-IsBounded}
use ack_ws_s3files_controlle.Tests.Fixture.{Fault, runtime}
use ack_ws_s3files_controlle.Tests.Cloud.{Cloud, service}
use ack_ws_s3files_controlle.Tests.FileSystems.{resource}

abbrev fields : GoMap
fields = ("fileSystemID", "fs-2") ∷ []

populate_resource_from_annotation-IsAdopted_example :
    IsAdopted fields (populate_resource_from_annotation runtime fields resource).0
unfolding Objects.populate_resource_from_annotation lookup
populate_resource_from_annotation-IsAdopted_example =
    populate_resource_from_annotation-IsAdopted runtime fields resource refl

abbrev config : Config
config = record { enable_cross_namespace = true; partition = "aws" }

abbrev gov : Config
gov = record { enable_cross_namespace = false; partition = "aws-us-gov" }

-- A client configuration is here a number, and each connects to the same service.
abbrev connect : ℕ → Service Cloud Fault
connect n = service

manager_for-manager_for_example :
    let later = manager_for runtime connect gov 2 in
    let first = manager_for runtime connect config 1 "123456789012" "us-west-2" "reader" [] in
    ((later "123456789012" "us-west-2" "writer" first.1).0 ≡ (
      if "123456789012" == "123456789012" && ("us-west-2" == "us-west-2" && "reader" == "writer")
      then first.0
      else (later "123456789012" "us-west-2" "writer" []).0))
    × (later "123456789012" "us-west-2" "reader" first.1 ≡ first)
manager_for-manager_for_example =
    manager_for-manager_for runtime connect config gov 1 2 "123456789012" "123456789012" "us-west-2"
      "us-west-2" "reader" "writer" [] refl refl refl refl

abbrev request : Request ℕ
request = record {
  config = config;
  client_config = 1;
  id = "123456789012";
  region = "us-west-2";
  role_arn = "reader";
}

-- The same account, region and role with other configurations.
abbrev again : Request ℕ
again = record request { config = gov; client_config = 2 }

record Ran : Type 0 where
  shared_after : Shared Cloud Fault
  stages_after : List (Stage Cloud Fault ℕ)
  run :
      Run runtime connect 12
        (unlocked [])
        (all_asking (request ∷ again ∷ []))
        shared_after
        stages_after

-- Two requests that both find nothing, and both make a manager, one after the other.
abbrev both_miss : Ran
unfolding cached store
both_miss = record {
  shared_after = _;
  stages_after = _;
  run = step (here read_lock) (
      step (there (here read_lock)) (
        step (here look) (
          step (there (here look)) (
            step (here read_unlock) (
              step (there (here read_unlock)) (
                step (here lock) (
                  step (here make) (
                    step (here unlock) (
                      step (there (here lock))
                        (step (there (here make)) (step (there (here unlock)) stop)))))))))));
}

Run-IsBounded_example :
    (12 ≤ 6 * 2)
    × IsLocked both_miss.shared_after both_miss.stages_after
    × (AllServed both_miss.stages_after
        ⊎ CanStep runtime connect both_miss.shared_after both_miss.stages_after)
Run-IsBounded_example = Run-IsBounded runtime connect (request ∷ again ∷ []) both_miss.run

manager_for-Run_example :
    let out = manager_for runtime connect config 1 "123456789012" "us-west-2" "reader" [] in
    Run runtime connect
      (steps_alone runtime connect (cached "123456789012/us-west-2/reader" []))
      (unlocked [])
      (asking request ∷ [])
      (unlocked out.1)
      (served request out.0 ∷ [])
manager_for-Run_example = manager_for-Run runtime connect request []
