-- ===== src/Store/PubSub/Types.antt =====
-- The rows and the database of internal/store/pubsub.go (internal/store/schema.go has the tables).
-- A JSON column of a string map is kept as the map.
use noctaxris_gcp.Base.{ℕ, String, Bool, List, [], ◌∷◌, Option, none, some, ◌==◌, if◌then◌else◌}
use noctaxris_gcp.Store.Stamps.{Stamp}

-- A Go `map[string]string`.
abbrev pub StringMap : Type 0
StringMap = List (String × String)

-- `m[k]`: the empty text where the key is missing.
unfoldable pub map_get : StringMap → String → String
map_get [] k = ""
map_get ((j, v) ∷ m) k = let rest = map_get m k in if j == k then v else rest

-- `m[k] = v`
unfoldable pub map_put : String → String → StringMap → StringMap
map_put k v [] = (k, v) ∷ []
map_put k v ((j, u) ∷ m) = let rest = map_put k v m in if j == k then (k, v) ∷ m else (j, u) ∷ rest

-- `if labels == nil { labels = map[string]string{} }`
abbrev pub or_empty_map : Option StringMap → StringMap
or_empty_map none = []
or_empty_map (some m) = m

pub record PubSubTopic : Type 0 where
  pub name : String
  pub project_id : String
  pub labels : StringMap
  pub created_at : Stamp

pub record PubSubSubscription : Type 0 where
  pub name : String
  pub topic : String
  pub project_id : String
  pub ack_deadline_seconds : ℕ
  pub push_endpoint : String
  pub labels : StringMap
  pub filter : String
  pub dead_letter_topic : String
  pub max_delivery_attempts : ℕ
  pub enable_exactly_once_delivery : Bool
  pub oidc_service_account_email : String
  pub oidc_audience : String
  pub created_at : Stamp

-- `ack_deadline` is `none` for NULL.
pub record PubSubMessage : Type 0 where
  pub id : String
  pub subscription : String
  pub topic : String
  pub payload : List ℕ
  pub attributes : StringMap
  pub publish_time : Stamp
  pub ack_id : String
  pub ack_deadline : Option Stamp
  pub delivered : Bool
  pub delivery_attempts : ℕ

pub record PubSubSnapshot : Type 0 where
  pub name : String
  pub project_id : String
  pub topic : String
  pub subscription : String
  pub labels : StringMap
  pub expire_time : Stamp
  pub created_at : Stamp

-- The tables, and how many identifiers have been drawn.
pub record Db : Type 0 where
  pub topics : List PubSubTopic
  pub subscriptions : List PubSubSubscription
  pub messages : List PubSubMessage
  pub snapshots : List PubSubSnapshot
  pub drawn : ℕ

-- `uuid.NewString`: the n-th identifier that is drawn.
pub record Uuids : Type 0 where
  pub new_string : ℕ → String
