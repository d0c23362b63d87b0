-- ===== src/Contract/Keys.antt =====
-- internal/contract/contract.go: the constructors and the parsers of the join keys.
pub mod RoundTrip
use ragota.Base.{Bool, Option, [], false, if◌then◌else◌, none, not, some, ℕ, ◌++◌, ◌==◌, ◌||◌, ◌∷◌}
use ragota.Base.Text.{
  Str, codes, cut, cut_last, cut_prefix, has_prefix, has_suffix, str_eq, to_upper, trim,
  trim_prefix, trim_space, trim_suffix,
}
use ragota.Contract.Reduce.{reduce_path, trim_query}

pub data Kind : Type 0 where
  grpc http topic db config : Kind

abbrev pub name : Kind → Str
name grpc = codes "grpc"
name http = codes "http"
name topic = codes "topic"
name db = codes "db"
name config = codes "config"

-- `Kind.prefix`
abbrev pub prefix : Kind → Str
prefix k = name k ++ b':' ∷ []

abbrev pub topic_ref_prefix : Str
topic_ref_prefix = codes "topic:${"

unfoldable pub grpc_key : Str → Str → Str
grpc_key service method = name grpc ++ b':' ∷ service ++ b'/' ∷ method

abbrev pub is_slash : ℕ → Bool
is_slash c = c == b'/'

-- the method and the path that `HTTP` writes
unfoldable pub key_method : Str → Str
unfolding trim to_upper
key_method method = elim (to_upper (trim_space method)) [ [] ↦ codes "ANY" | c ∷ m ↦ c ∷ m ]

unfoldable pub key_path : Str → Str
unfolding trim trim_query reduce_path
key_path path = reduce_path (b'/' ∷ trim is_slash (trim_query (trim_space path)))

unfoldable pub http_key : Str → Str → Str
unfolding key_method key_path
http_key method path = name http ++ b':' ∷ key_method method ++ 32 ∷ key_path path

unfoldable pub topic_key : Str → Str
topic_key n = name topic ++ b':' ∷ n

unfoldable pub topic_ref_key : Str → Str
topic_ref_key ref = topic_ref_prefix ++ ref ++ b'}' ∷ []

unfoldable pub db_key : Str → Str
db_key table = name db ++ b':' ∷ table

unfoldable pub config_key : Str → Str
config_key path = name config ++ b':' ∷ path

-- The results of a parser whose `ok` can be false beside a component: service, method, ok.
unfoldable pub parse_grpc : Str → Str × Str × Bool
unfolding cut_prefix cut_last
parse_grpc key = elim (cut_prefix key (prefix grpc)) [
  | none ↦ ([], [], false)
  | some rest ↦ elim (cut_last b'/' rest) [
    | none ↦ ([], rest, not (str_eq rest []))
    | some (service, method) ↦ (service, method, not (str_eq method []))
  ]
]

unfoldable pub parse_http : Str → Option (Str × Str)
unfolding cut_prefix cut trim_query
parse_http key = elim (cut_prefix key (prefix http)) [
  | none ↦ none
  | some rest ↦ elim (cut 32 rest) [
    | none ↦ none
    | some (method, path) ↦ some (method, trim_query path)
  ]
]

-- `cutPrefix`
abbrev pub cut_kind : Str → Kind → Option Str
cut_kind key k = cut_prefix key (prefix k)

unfoldable pub parse_topic : Str → Option Str
unfolding cut_prefix
parse_topic key = cut_kind key topic

unfoldable pub parse_topic_ref : Str → Option Str
unfolding has_prefix has_suffix trim_prefix trim_suffix
parse_topic_ref key =
    if not (has_prefix key topic_ref_prefix) || not (has_suffix key (b'}' ∷ []))
    then none
    else some (trim_suffix (trim_prefix key topic_ref_prefix) (b'}' ∷ []))

unfoldable pub parse_db : Str → Option Str
unfolding cut_prefix
parse_db key = cut_kind key db

unfoldable pub parse_config : Str → Option Str
unfolding cut_prefix
parse_config key = cut_kind key config

unfoldable pub is_kind : Str → Kind → Bool
unfolding has_prefix
is_kind key k = has_prefix key (prefix k)

unfoldable pub trim_kind : Str → Kind → Str
unfolding trim_prefix
trim_kind key k = trim_prefix key (prefix k)
