-- ===== src/FileSystem/Outcome.antt =====
-- What the manager of FileSystems reports: the error it returns and the conditions it leaves.
use ack_ws_s3files_controlle.Prelude.{◌≡◌, some}
use ack_ws_s3files_controlle.Ack.{done, World}
use ack_ws_s3files_controlle.Conditions.Mark.{IsTidy}
use ack_ws_s3files_controlle.Kinds.Laws.{IsReported, IsClean, on_error_lem, read_one_by_lem}
use ack_ws_s3files_controlle.Manager.{ResourceManager}
use ack_ws_s3files_controlle.FileSystem.Types.{
  file_system_kind, file_system_kind-IsKind, FileSystem,
}
use ack_ws_s3files_controlle.FileSystem.Sdk.{sdk_find}
use ack_ws_s3files_controlle.FileSystem.Manager.{conditions_of, on_error, read_one, mirror_aws_tags}

module _ {S E : Type 0} (rm : ResourceManager S E) where
  -- From tidy conditions an error is reported with its condition: a terminal error as Terminal, with
  -- the terminal condition True, and any other as it is, with the recoverable one True; conditions of
  -- other types and the spec stay as they are.
  pub on_error-IsReported :
      (r : FileSystem) (err : E)
      → IsTidy (conditions_of r)
      → IsReported file_system_kind rm r err (on_error rm (some r) err)
  on_error-IsReported = on_error_lem file_system_kind rm file_system_kind-IsKind

  -- A read that finds the file system reports no error and no terminal condition, even where the
  -- condition of the error state was set.
  pub read_one-IsClean :
      (r : FileSystem) {observed : FileSystem} {w' : World S E} (w : World S E)
      → sdk_find rm r w ≡ (done observed, w')
      → IsTidy (conditions_of observed)
      → IsClean file_system_kind rm observed (read_one rm r w).0.1 × ((read_one rm r w).1 ≡ w')
  unfolding read_one
  read_one-IsClean r w e h =
      read_one_by_lem file_system_kind rm file_system_kind-IsKind (sdk_find rm)
        (mirror_aws_tags rm.runtime) r w e h
