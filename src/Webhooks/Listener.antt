-- ===== src/Webhooks/Listener.antt =====
-- The listener of src/webhooks/server.rs: the routes, and the server with its errors. Loading the
-- certificates and serving belong to `axum_server`, and are the parameter `Tls`.
use k8s_operator_template.Prelude.{ℕ, String, List, [], ◌∷◌, format}
use k8s_operator_template.Prelude.Result.{Result, map_err, ◌>>=◌}
use k8s_operator_template.Webhooks.Server.{StatusCode, Admission, validate_myresource}

abbrev pub webhook_cert_path : String
webhook_cert_path = "/etc/webhook/certs/tls.crt"

abbrev pub webhook_key_path : String
webhook_key_path = "/etc/webhook/certs/tls.key"

abbrev pub webhook_port : ℕ
webhook_port = 9443

pub data Method : Type 0 where
  get post : Method

-- A route of an axum router.
pub record Route (Handler : Type 0) : Type 0 where
  pub path : String
  pub method : Method
  pub handler : Handler

unfoldable pub create_webhook_router :
    (a : Admission) → List (Route (a.Review → StatusCode × a.ResponseReview))
create_webhook_router a =
    record { path = "/validate-myresource"; method = post; handler = validate_myresource a } ∷ []

pub data WebhookError : Type 0 where
  tls_config : String → WebhookError
  server : String → WebhookError

unfoldable pub display : WebhookError → String
display (tls_config msg) = format ("TLS configuration error: " ∷ msg ∷ [])
display (server msg) = format ("Webhook server error: " ∷ msg ∷ [])

-- The address that a server binds to.
pub record SocketAddr : Type 0 where
  pub octets : List ℕ
  pub port : ℕ

-- Both calls fail with an error that has a text; `serve` returns when the server ends.
pub record Tls (Handler : Type 0) : Type 1 where
  pub Config : Type 0
  pub from_pem_file : String → String → Result Config String
  pub serve : SocketAddr → Config → List (Route Handler) → Result (Unit {0}) String

unfoldable pub run_webhook_server :
    (a : Admission)
    → Tls (a.Review → StatusCode × a.ResponseReview)
    → String
    → String
    → Result (Unit {0}) WebhookError
unfolding create_webhook_router
run_webhook_server a tls cert_path key_path =
    let app = create_webhook_router a in
    let addr : SocketAddr = record { octets = 0 ∷ 0 ∷ 0 ∷ 0 ∷ []; port = webhook_port } in
    map_err tls_config (tls.from_pem_file cert_path key_path) >>= λ config.
    map_err server (tls.serve addr config app)
