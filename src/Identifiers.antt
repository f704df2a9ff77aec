-- ===== src/Identifiers.antt =====
-- The identifiers that the runtime asks a resource for, which the generator writes out for each kind
-- with the same text: the `identifiers.go` files of pkg/resource.
use ack_ws_s3files_controlle.Prelude.{String, Option, none, some}
use ack_ws_s3files_controlle.Ack.{ResourceMetadata}

-- `resourceIdentifiers`: the metadata, if there is any.
abbrev pub ResourceIdentifiers : Type 0
ResourceIdentifiers = Option ResourceMetadata

abbrev field_of : (ResourceMetadata → Option String) → ResourceIdentifiers → Option String
field_of field none = none
field_of field (some meta) = field meta

unfoldable pub arn : ResourceIdentifiers → Option String
arn = field_of (λ meta. meta.arn)

unfoldable pub owner_account_id : ResourceIdentifiers → Option String
owner_account_id = field_of (λ meta. meta.owner_account_id)

unfoldable pub region : ResourceIdentifiers → Option String
region = field_of (λ meta. meta.region)

unfoldable pub partition : ResourceIdentifiers → Option String
partition = field_of (λ meta. meta.partition)
