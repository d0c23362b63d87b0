-- ===== src/Contract/Keys/RoundTrip.antt =====
-- The parsers of internal/contract/contract.go on the keys that the constructors build.
use mathlib.Core.Logic.{ite}
use ragota.Base.{[], any, arith, false, none, not, refl, some, ◌++◌, ◌∷◌, ◌≡◌, ◌≢◌}
use ragota.Base.Text.{Str, before, codes, cut_prefix, has_byte, str_eq, trim, trim_space}
use ragota.Base.Text.Bytes.{any-trim}
use ragota.Base.Text.Laws.{
  any-before, before_absent, cut-append, cut_last-append, cut_prefix-append, has_prefix-append,
  has_suffix-append, trim_prefix-append, trim_suffix-append,
}
use ragota.Contract.Keys.{
  Kind, config, config_key, cut_kind, db, db_key, grpc, grpc_key, http, http_key, is_slash,
  key_method, key_path, parse_config, parse_db, parse_grpc, parse_http, parse_topic,
  parse_topic_ref, prefix, topic, topic_key, topic_ref_key, topic_ref_prefix,
}
use ragota.Contract.Reduce.{ends_path, trim_query}
use ragota.Contract.Reduce.Bytes.{any-reduce_path}

pub Kind-discrete : Discrete Kind
Kind-discrete = hlevel

-- Two prefixes of different kinds are told apart by a byte that both have.
cut_kind_ne : (j k : Kind) (s : Str) → j ≢ k → cut_kind (prefix k ++ s) j ≡ none
unfolding cut_prefix
cut_kind_ne grpc grpc s h = absurd (h refl)
cut_kind_ne http http s h = absurd (h refl)
cut_kind_ne topic topic s h = absurd (h refl)
cut_kind_ne db db s h = absurd (h refl)
cut_kind_ne config config s h = absurd (h refl)
cut_kind_ne grpc http s h = refl
cut_kind_ne _ _ s h = refl

pub cut_kind-prefix :
    (j k : Kind) (s : Str) → cut_kind (prefix k ++ s) j ≡ ite (Kind-discrete j k) (some s) none
cut_kind-prefix j k s =
    elim (Kind-discrete j k) as (λ d. cut_kind (prefix k ++ s) j ≡ ite d (some s) none) [
      | yes e ↦ rw e (cut_prefix-append (prefix k) s)
      | no ne ↦ cut_kind_ne j k s ne
    ]

-- `topic`, `db` and `config` keys are read back whole, and by no parser of another kind.
pub plain_keys :
    (s : Str)
    → (parse_topic (topic_key s) ≡ some s)
      × (parse_db (db_key s) ≡ some s)
      × (parse_config (config_key s) ≡ some s)
      × (parse_topic (db_key s) ≡ none)
      × (parse_topic (config_key s) ≡ none)
      × (parse_db (topic_key s) ≡ none)
      × (parse_db (config_key s) ≡ none)
      × (parse_config (topic_key s) ≡ none)
      × (parse_config (db_key s) ≡ none)
unfolding topic_key db_key config_key parse_topic parse_db parse_config
plain_keys s = (
  cut_prefix-append (prefix topic) s,
  cut_prefix-append (prefix db) s,
  cut_prefix-append (prefix config) s,
  refl,
  refl,
  refl,
  refl,
  refl,
  refl,
)

-- A gRPC key is read back as its service and its method, if the method has no slash.
pub parse_grpc-grpc_key :
    (service method : Str)
    → has_byte b'/' method ≡ false
    → parse_grpc (grpc_key service method) ≡ (service, method, not (str_eq method []))
unfolding parse_grpc grpc_key
parse_grpc-grpc_key service method h = ground (
  arith,
  cut_prefix-append (prefix grpc) (service ++ b'/' ∷ method),
  cut_last-append b'/' service method h,
)

-- The path of a key has no query, whatever path it was built from.
key_path_plain : (path : Str) → any ends_path (key_path path) ≡ false
unfolding key_path trim_query
key_path_plain path =
    let shown = before ends_path (trim_space path) in
    any-reduce_path ends_path refl refl (b'/' ∷ trim is_slash shown) refl
      (any-trim ends_path is_slash shown (any-before ends_path (trim_space path)))

-- An HTTP key is read back as its normalised method and path, if the method has no space.
pub parse_http-http_key :
    (method path : Str)
    → has_byte 32 (key_method method) ≡ false
    → parse_http (http_key method path) ≡ some (key_method method, key_path path)
unfolding parse_http http_key trim_query
parse_http-http_key method path h = ground (
  arith,
  cut_prefix-append (prefix http) (key_method method ++ 32 ∷ key_path path),
  cut-append 32 (key_method method) (key_path path) h,
  before_absent ends_path (key_path path) (key_path_plain path),
)

-- A reference key is read back as its reference, and as the literal name "${REF}" of a topic.
pub parse_topic_ref-topic_ref_key :
    (ref : Str)
    → (parse_topic_ref (topic_ref_key ref) ≡ some ref)
      × (parse_topic (topic_ref_key ref) ≡ some (codes "${" ++ ref ++ b'}' ∷ []))
unfolding parse_topic_ref topic_ref_key parse_topic
parse_topic_ref-topic_ref_key ref = (
  ground (
    arith,
    has_prefix-append topic_ref_prefix (ref ++ b'}' ∷ []),
    has_suffix-append (topic_ref_prefix ++ ref) (b'}' ∷ []),
    trim_prefix-append topic_ref_prefix (ref ++ b'}' ∷ []),
    trim_suffix-append ref (b'}' ∷ []),
  ),
  refl,
)
