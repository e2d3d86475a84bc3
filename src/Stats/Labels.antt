-- ===== src/Stats/Labels.antt =====
-- The standard dimensions of extensions/stats/plugin.h, in the order of `STD_ISTIO_DIMENSIONS`, and
-- the vector `IstioDimensions` with its `operator[]`.
use wasm_extensions.Prelude.{ℕ, zero, suc, ◌+◌, Bytes, codes, List, [], ◌∷◌, length, ◌≡◌, refl, ap}

-- The constants of `StandardLabels`.
abbrev pub reporter : ℕ
reporter = 0

abbrev pub source_workload : ℕ
source_workload = 1

abbrev pub source_workload_namespace : ℕ
source_workload_namespace = 2

abbrev pub source_principal : ℕ
source_principal = 3

abbrev pub source_app : ℕ
source_app = 4

abbrev pub source_version : ℕ
source_version = 5

abbrev pub source_canonical_service : ℕ
source_canonical_service = 6

abbrev pub source_canonical_revision : ℕ
source_canonical_revision = 7

abbrev pub source_cluster : ℕ
source_cluster = 8

abbrev pub destination_workload : ℕ
destination_workload = 9

abbrev pub destination_workload_namespace : ℕ
destination_workload_namespace = 10

abbrev pub destination_principal : ℕ
destination_principal = 11

abbrev pub destination_app : ℕ
destination_app = 12

abbrev pub destination_version : ℕ
destination_version = 13

abbrev pub destination_service : ℕ
destination_service = 14

abbrev pub destination_service_name : ℕ
destination_service_name = 15

abbrev pub destination_service_namespace : ℕ
destination_service_namespace = 16

abbrev pub destination_canonical_service : ℕ
destination_canonical_service = 17

abbrev pub destination_canonical_revision : ℕ
destination_canonical_revision = 18

abbrev pub destination_cluster : ℕ
destination_cluster = 19

abbrev pub request_protocol : ℕ
request_protocol = 20

abbrev pub response_flags : ℕ
response_flags = 21

abbrev pub connection_security_policy : ℕ
connection_security_policy = 22

abbrev pub response_code : ℕ
response_code = 23

abbrev pub grpc_response_status : ℕ
grpc_response_status = 24

-- `count_standard_labels`, `count_peer_labels` and `count_tcp_labels`
abbrev pub count_standard_labels : ℕ
count_standard_labels = 25

abbrev pub count_peer_labels : ℕ
count_peer_labels = destination_cluster + 1

abbrev pub count_tcp_labels : ℕ
count_tcp_labels = connection_security_policy + 1

-- The names of `defaultTags`.
unfoldable pub default_tags : List Bytes
default_tags =
    codes "reporter"
    ∷ codes "source_workload"
    ∷ codes "source_workload_namespace"
    ∷ codes "source_principal"
    ∷ codes "source_app"
    ∷ codes "source_version"
    ∷ codes "source_canonical_service"
    ∷ codes "source_canonical_revision"
    ∷ codes "source_cluster"
    ∷ codes "destination_workload"
    ∷ codes "destination_workload_namespace"
    ∷ codes "destination_principal"
    ∷ codes "destination_app"
    ∷ codes "destination_version"
    ∷ codes "destination_service"
    ∷ codes "destination_service_name"
    ∷ codes "destination_service_namespace"
    ∷ codes "destination_canonical_service"
    ∷ codes "destination_canonical_revision"
    ∷ codes "destination_cluster"
    ∷ codes "request_protocol"
    ∷ codes "response_flags"
    ∷ codes "connection_security_policy"
    ∷ codes "response_code"
    ∷ codes "grpc_response_status"
    ∷ []

-- `instance[i] = value`, for an index of the vector.
abbrev pub set_at {ℓ} : {A : Type ℓ} → ℕ → A → List A → List A
set_at i v [] = []
set_at zero v (x ∷ xs) = v ∷ xs
set_at (suc i) v (x ∷ xs) = x ∷ set_at i v xs

-- The assignments, one after the other.
abbrev pub set_all {ℓ} : {A : Type ℓ} → List (ℕ × A) → List A → List A
set_all [] xs = xs
set_all ((i, v) ∷ vs) xs = set_all vs (set_at i v xs)

pub length-set_at : (i : ℕ) (v : Bytes) (xs : List Bytes) → length (set_at i v xs) ≡ length xs
length-set_at i v [] = refl
length-set_at zero v (x ∷ xs) = refl
length-set_at (suc i) v (x ∷ xs) = ap suc (length-set_at i v xs)
