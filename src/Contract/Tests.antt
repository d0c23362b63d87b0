-- ===== src/Contract/Tests.antt =====
-- Runs of the contract functions, and the theorems at concrete inputs.

use ragota.Base.{All, [], false, refl, some, true, ◌∷◌, ◌≡◌}
use ragota.Base.Text.{codes, has_byte, split, str_eq}
use ragota.Contract.Ident.{word_components}
use ragota.Contract.Keys.{http_key, key_method, key_path, parse_grpc, parse_http}
use ragota.Contract.Keys.RoundTrip.{parse_http-http_key}
use ragota.Contract.Reduce.{reduce_path}
use ragota.Contract.Reduce.Idempotent.{reduce_path_idem, starts_stray}
use ragota.Contract.Split.{param_names}
use ragota.Contract.Table.{table_name}

http_runs :
    http_key (codes " post ") (codes "/users/:id/x{a:[0-9]{2}}y/?q=1")
    ≡ codes "http:POST /users/{}/x{}y"
unfolding http_key
http_runs = refl

grpc_runs : parse_grpc (codes "grpc:pkg.Svc/Do") ≡ (codes "pkg.Svc", codes "Do", true)
unfolding parse_grpc str_eq
grpc_runs = refl

words_run :
    word_components (codes "HTTPServer.order_ItemRepo2")
    ≡ codes "http" ∷ codes "server" ∷ codes "order" ∷ codes "item" ∷ codes "repo2" ∷ []
unfolding word_components
words_run = refl

table_runs : table_name (codes "*models.User_Category") ≡ codes "user_categories"
unfolding table_name
table_runs = refl

params_run :
    param_names (codes "go") (codes "(ctx context.Context, m map[string]int, opts ...Opt)")
    ≡ codes "ctx" ∷ codes "m" ∷ codes "opts" ∷ []
unfolding param_names
params_run = refl

java_run :
    param_names (codes "java") (codes "(final Map<String, Int> m, int x = 5)")
    ≡ codes "m" ∷ codes "x" ∷ []
unfolding param_names
java_run = refl

python_run : param_names (codes "python") (codes "(self, user_id)") ≡ codes "user_id" ∷ []
unfolding param_names
python_run = refl

parse_http-http_key_example :
    parse_http (http_key (codes "get") (codes "/a/:id?x=1"))
    ≡ some (key_method (codes "get"), key_path (codes "/a/:id?x=1"))
parse_http-http_key_example = parse_http-http_key (codes "get") (codes "/a/:id?x=1") no_space
  where
    no_space : has_byte 32 (key_method (codes "get")) ≡ false
    no_space = unfold key_method in refl

reduce_path_idem_example :
    reduce_path (reduce_path (codes "/a/:id/x{b}")) ≡ reduce_path (codes "/a/:id/x{b}")
reduce_path_idem_example = reduce_path_idem (codes "/a/:id/x{b}") segments
  where
    segments : All (λ seg. starts_stray seg ≡ false) (split b'/' (codes "/a/:id/x{b}"))
    segments = unfold split in (refl, (refl, (refl, (refl, tt))))
