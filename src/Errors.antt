-- ===== src/Errors.antt =====
-- src/controller/error.rs: the errors of the controller and their classification for retries.
-- `kube::Error` and `serde_json::Error` belong to libraries: of the first the code tells apart a
-- status from the API server, a service error and the rest, and reads the status's code. Its test
-- `is_not_found` on a status is a parameter.
pub mod Retry
use k8s_operator_template.Prelude.{
  ℕ, String, Bool, true, false, ◌||◌, ◌==◌, leb, ◌<>◌, if◌then◌else◌,
}

-- What the API server answers with an error.
pub record ErrorStatus : Type 0 where
  pub code : ℕ  -- u16
  pub reason : String
  pub message : String

pub data KubeError : Type 0 where
  api : ErrorStatus → KubeError
  service : String → KubeError
  other : String → KubeError

-- An error of `serde_json`, by its text.
pub record JsonError : Type 0 where
  pub text : String

pub data Error : Type 0 where
  kube : KubeError → Error
  missing_field : String → Error
  validation : String → Error
  transient : String → Error
  permanent : String → Error
  serialization : JsonError → Error

-- A duration in seconds.
pub record Duration : Type 0 where
  pub secs : ℕ

abbrev pub from_secs : ℕ → Duration
from_secs n = record { secs = n }

-- `Display` of an error, with the library's text of a kube error.
unfoldable pub display : (KubeError → String) → Error → String
display show_kube (kube e) = "Kubernetes API error: " <> show_kube e
display show_kube (missing_field s) = "Missing required field: " <> s
display show_kube (validation s) = "Validation error: " <> s
display show_kube (transient s) = "Transient error: " <> s
display show_kube (permanent s) = "Permanent error: " <> s
display show_kube (serialization e) = "Serialization error: " <> e.text

unfoldable pub is_not_found : (ErrorStatus → Bool) → Error → Bool
is_not_found status_not_found (kube (api s)) = status_not_found s
is_not_found status_not_found (kube _) = false
is_not_found status_not_found _ = false

unfoldable pub is_retryable : Error → Bool
is_retryable (kube (api s)) = leb 500 s.code || s.code == 429
is_retryable (kube (service _)) = true
is_retryable (kube (other _)) = false
is_retryable (transient _) = true
is_retryable (validation _) = false
is_retryable (permanent _) = false
is_retryable (missing_field _) = false
is_retryable (serialization _) = false

unfoldable pub requeue_after : Error → Duration
unfolding is_retryable
requeue_after e = if is_retryable e then from_secs 30 else from_secs 3600
