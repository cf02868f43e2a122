-- ===== src/ExecSql/Types.antt =====
-- protos/core.proto, configs.proto and db_adapter.proto: what the SQL generators read of an action,
-- of the run and of the warehouse. A field that a message does not set has its default.
use sqlanvil.Base.{ℕ, Text, Option, Bool, true, false, List, [], ◌∷◌, if◌then◌else◌}
use sqlanvil.Targets.{Target}
use sqlanvil.CompilationSql.{Warehouse, resolve_target}
use sqlanvil.Paths.{is_empty}

pub data TableType : Type 0 where
  unknown_type table incremental view : TableType

-- `TableMetadata.Type`
pub data MetadataType : Type 0 where
  unknown table view materialized_view : MetadataType

pub record TableMetadata : Type 0 where
  pub target : Target
  pub type : MetadataType
  pub fields : List Text

pub data OnSchemaChange : Type 0 where
  ignore fail extend synchronize : OnSchemaChange

pub data IncrementalStrategy : Type 0 where
  unspecified merge insert_overwrite : IncrementalStrategy

pub data PartitionKind : Type 0 where
  range list hash key : PartitionKind

-- `PostgresOptions.Partition` with its bounds, and the `subPartition` of a cons.
mutual
  pub data Partition : Type 0 where
    partition :
        PartitionKind → (columns : List Text) → Bounds → (include_default : Bool) → Partition

  pub data Bounds : Type 0 where
    nil : Bounds
    cons : (name values : Text) → SubPartition → Bounds → Bounds

  pub data SubPartition : Type 0 where
    no_sub : SubPartition
    sub : Partition → SubPartition

pub data IndexMethod : Type 0 where
  btree hash gist gin brin : IndexMethod

pub record Index : Type 0 where
  pub name : Text
  pub columns : List Text
  pub method : IndexMethod
  pub unique : Bool
  pub where_ : Text
  pub include : List Text
  pub opclass : Text

pub record PostgresOptions : Type 0 where
  pub tablespace : Text
  pub fillfactor : ℕ
  pub unlogged : Bool
  pub partition : Option Partition
  pub indexes : List Index
  pub on_dependency_change : Bool
  pub no_data : Bool

pub data IndexType : Type 0 where
  ivfflat hnsw : IndexType

pub record VectorConfig : Type 0 where
  pub column : Text
  pub index_type : IndexType
  pub params : List (Text × Text)

pub record SupabaseOptions : Type 0 where
  pub postgres : Option PostgresOptions
  pub publish_to_realtime : Bool
  pub enable_rls : Bool
  pub owner_role : Text
  pub vectors : List VectorConfig

pub record MysqlIndex : Type 0 where
  pub name : Text
  pub columns : List Text
  pub unique : Bool
  pub type : Text

pub record MysqlPartition : Type 0 where
  pub kind : PartitionKind
  pub expression : Text
  pub count : ℕ
  pub partitions : List (Text × Text)

pub record MysqlOptions : Type 0 where
  pub engine : Text
  pub charset : Text
  pub collation : Text
  pub row_format : Text
  pub indexes : List MysqlIndex
  pub partition : Option MysqlPartition

pub record BigqueryOptions : Type 0 where
  pub partition_by : Text
  pub cluster_by : List Text
  pub update_partition_filter : Text
  pub partition_expiration_days : ℕ
  pub require_partition_filter : Bool
  pub additional_options : List (Text × Text)
  pub incremental_predicates : List Text

pub record Table : Type 0 where
  pub target : Target
  pub enum_type : TableType
  pub type : Text
  pub disabled : Bool
  pub query : Text
  pub protected : Bool
  pub materialized : Bool
  pub where_ : Text
  pub incremental_query : Text
  pub unique_key : List Text
  pub on_schema_change : OnSchemaChange
  pub incremental_strategy : IncrementalStrategy
  pub pre_ops : List Text
  pub post_ops : List Text
  pub incremental_pre_ops : List Text
  pub incremental_post_ops : List Text
  pub bigquery : Option BigqueryOptions
  pub postgres : Option PostgresOptions
  pub supabase : Option SupabaseOptions
  pub mysql : Option MysqlOptions

pub record Operation : Type 0 where
  pub target : Target
  pub disabled : Bool
  pub queries : List Text

pub record Assertion : Type 0 where
  pub target : Target
  pub disabled : Bool
  pub query : Text

-- `Export` and `Import`; `filename` is empty where none is given.
pub record Export : Type 0 where
  pub target : Target
  pub disabled : Bool
  pub query : Text
  pub location : Text
  pub format : Text
  pub overwrite : Bool
  pub filename : Text

pub record Import : Type 0 where
  pub target : Target
  pub disabled : Bool
  pub location : Text
  pub format : Text
  pub overwrite : Bool

-- The fields of a generator: the project's configuration and the version of the core. `semver_gt` is
-- the `gt` of the semver package, `unique_id` what the generator of unique ids returns and `stringify`
-- the runtime's `JSON.stringify` of an array of texts.
pub record Generator : Type 0 where
  pub warehouse : Warehouse
  pub default_database : Option Text
  pub default_schema : Option Text
  pub version : Text
  pub semver_gt : Text → Text → Bool
  pub unique_id : Text
  pub stringify : List Text → Text

-- `resolveTarget`
unfoldable pub target_sql : Generator → Target → Text
unfolding resolve_target
target_sql g t = resolve_target g.warehouse g.default_database g.default_schema t

-- An error that a generator throws.
pub data SqlError : Type 0 where
  unexpected_table_type : TableType → SqlError
  unexpected_type_text : Text → SqlError
  types_not_equivalent : Text → TableType → SqlError
  compilation_errors : SqlError
  unrecognized_selection : SqlError
  unexpected_metadata_type : MetadataType → SqlError
  unsupported_action : Text → SqlError
  bad_index_type : Text → SqlError
  fulltext_index_is_unique : Text → SqlError

pub data Result {ℓ} (A : Type ℓ) : Type ℓ where
  ok : A → Result A
  error : SqlError → Result A

infixl 5 ◌>>=◌
abbrev pub ◌>>=◌ {ℓ κ} : {A : Type ℓ} {B : Type κ} → Result A → (A → Result B) → Result B
ok a >>= f = f a
error e >>= f = error e

-- `a || b` on texts, where an empty text is false.
abbrev pub or_text : Text → Text → Text
or_text a b = if is_empty a then b else a

abbrev pub is_incremental : TableType → Bool
is_incremental TableType.incremental = true
is_incremental _ = false

abbrev pub is_view : MetadataType → Bool
is_view MetadataType.view = true
is_view _ = false

abbrev pub has_items : List Text → Bool
has_items [] = false
has_items (_ ∷ _) = true

-- `baseTableType`
unfoldable pub base_table_type : TableType → Result MetadataType
base_table_type TableType.table = ok MetadataType.table
base_table_type TableType.incremental = ok MetadataType.table
base_table_type TableType.view = ok MetadataType.view
base_table_type TableType.unknown_type = error (unexpected_table_type TableType.unknown_type)

-- `tableTypeAsSql`
unfoldable pub table_type_as_sql : MetadataType → Result Text
table_type_as_sql MetadataType.table = ok (b't' ∷ b'a' ∷ b'b' ∷ b'l' ∷ b'e' ∷ [])
table_type_as_sql MetadataType.view = ok (b'v' ∷ b'i' ∷ b'e' ∷ b'w' ∷ [])
table_type_as_sql t = error (unexpected_metadata_type t)

abbrev pub metadata_beq : MetadataType → MetadataType → Bool
metadata_beq MetadataType.unknown MetadataType.unknown = true
metadata_beq MetadataType.table MetadataType.table = true
metadata_beq MetadataType.view MetadataType.view = true
metadata_beq MetadataType.materialized_view MetadataType.materialized_view = true
metadata_beq _ _ = false

-- `table.incrementalQuery || table.query`
unfoldable pub get_incremental_query : Table → Text
get_incremental_query t = or_text t.incremental_query t.query
