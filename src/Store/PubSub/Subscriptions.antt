-- ===== src/Store/PubSub/Subscriptions.antt =====
-- Subscriptions (internal/store/pubsub.go). Go's `int` arguments are taken not to be negative.
use noctaxris_gcp.Base.{
  ℕ, String, Bool, false, ◌||◌, ◌==◌, List, [], ◌∷◌, ◌++◌, Option, none, some, Result, ok, err,
  message, annotate, ◌>>=◌, trim_space, select_where, select_one, exists_row, delete_where,
  update_where, order_by, ltb, eqb, if◌then◌else◌,
}
use noctaxris_gcp.Store.Stamps.{format}
use noctaxris_gcp.Store.PubSub.Types.{Db, PubSubSubscription, StringMap, or_empty_map}
use noctaxris_gcp.Store.PubSub.Filter.{parse_attribute_equality_filter}
use noctaxris_gcp.Store.PubSub.Topics.{name_le, get_topic}

abbrev pub subscription_named : String → PubSubSubscription → Bool
subscription_named name s = s.name == name

-- The arguments of `CreateSubscriptionFull`.
pub record SubscriptionArgs : Type 0 where
  pub name : String
  pub topic : String
  pub project_id : String
  pub ack_deadline_seconds : ℕ
  pub push_endpoint : String
  pub labels : Option StringMap
  pub filter : String
  pub dead_letter_topic : String
  pub max_delivery_attempts : ℕ
  pub enable_exactly_once : Bool
  pub oidc_service_account_email : String
  pub oidc_audience : String

abbrev pub ack_deadline_or_default : ℕ → ℕ
ack_deadline_or_default seconds = if eqb seconds 0 then 10 else seconds

-- A filter that is not blank has to parse.
unfoldable pub check_filter : String → Result String
check_filter filter =
    if filter == ""
    then ok filter
    else do _ ← annotate "invalid filter" (parse_attribute_equality_filter filter); ok filter

-- The dead-letter topic and the attempts that are stored for a trimmed topic name.
unfoldable pub check_dead_letter : Db → String → ℕ → Result (String × ℕ)
check_dead_letter db topic attempts =
    if topic == "" then ok ("", 0) else elim (get_topic db topic) [
      | none ↦ err (message "dead letter topic not found")
      | some t ↦
          let effective = if eqb attempts 0 then 5 else attempts in
          if ltb effective 5 || ltb 100 effective
          then err (message "maxDeliveryAttempts must be between 5 and 100")
          else ok (topic, effective)
    ]

-- The row that is inserted, where the arguments pass the checks.
unfoldable pub checked_subscription : ℕ → Db → SubscriptionArgs → Result PubSubSubscription
checked_subscription now db args =
    let name = trim_space args.name in
    let topic = trim_space args.topic in
    let project_id = trim_space args.project_id in
    if name == "" || topic == "" || project_id == ""
    then err (message "subscription name, topic, and project required")
    else do
      filter ← check_filter (trim_space args.filter)
      policy ← check_dead_letter db (trim_space args.dead_letter_topic) args.max_delivery_attempts
      elim (get_topic db topic) [
        | none ↦ err (message "topic not found")
        | some t ↦ ok (record {
          name = name;
          topic = topic;
          project_id = project_id;
          ack_deadline_seconds = ack_deadline_or_default args.ack_deadline_seconds;
          push_endpoint = trim_space args.push_endpoint;
          labels = or_empty_map args.labels;
          filter = filter;
          dead_letter_topic = policy.0;
          max_delivery_attempts = policy.1;
          enable_exactly_once_delivery = args.enable_exactly_once;
          oidc_service_account_email = trim_space args.oidc_service_account_email;
          oidc_audience = trim_space args.oidc_audience;
          created_at = format now;
        })
      ]

-- `none` says that the subscription is there already.
unfoldable pub create_subscription_full :
    ℕ → Db → SubscriptionArgs → Db × Result (Option PubSubSubscription)
create_subscription_full now db args = elim (checked_subscription now db args) [
  | err e ↦ (db, err e)
  | ok s ↦
      if exists_row (subscription_named s.name) db.subscriptions
      then (db, ok none)
      else (record db { subscriptions = db.subscriptions ++ s ∷ [] }, ok (some s))
]

unfoldable pub create_subscription :
    ℕ → Db → String → String → String → ℕ → Db × Result (Option PubSubSubscription)
create_subscription now db name topic project_id seconds = create_subscription_full now db (record {
  name = name;
  topic = topic;
  project_id = project_id;
  ack_deadline_seconds = seconds;
  push_endpoint = "";
  labels = none;
  filter = "";
  dead_letter_topic = "";
  max_delivery_attempts = 0;
  enable_exactly_once = false;
  oidc_service_account_email = "";
  oidc_audience = "";
})

unfoldable pub get_subscription : Db → String → Option PubSubSubscription
get_subscription db name = select_one (subscription_named name) db.subscriptions

pub record PubSubDeadLetterPolicy : Type 0 where
  pub dead_letter_topic : String
  pub max_delivery_attempts : ℕ

pub record PubSubOidcToken : Type 0 where
  pub service_account_email : String
  pub audience : String

-- The pointer arguments of `UpdateSubscription`; a nil pointer leaves its field.
pub record SubscriptionUpdate : Type 0 where
  pub ack_deadline : Option ℕ
  pub push_endpoint : Option String
  pub labels : Option (Option StringMap)
  pub filter : Option String
  pub dead_letter : Option PubSubDeadLetterPolicy
  pub enable_exactly_once : Option Bool
  pub oidc : Option PubSubOidcToken

abbrev given {ℓ κ} : {A : Type ℓ} {B : Type κ} → Option A → B → (A → B) → B
given none b f = b
given (some a) b f = f a

-- The subscription after the update, where the arguments pass the checks.
unfoldable pub updated_subscription :
    Db → PubSubSubscription → SubscriptionUpdate → Result PubSubSubscription
updated_subscription db sub u = do
  filter ← given u.filter (ok sub.filter) (λ f. check_filter (trim_space f))
  policy ←
      given u.dead_letter (ok (sub.dead_letter_topic, sub.max_delivery_attempts))
        (λ p. check_dead_letter db (trim_space p.dead_letter_topic) p.max_delivery_attempts)
  ok (record sub {
    ack_deadline_seconds = given u.ack_deadline sub.ack_deadline_seconds ack_deadline_or_default;
    push_endpoint = given u.push_endpoint sub.push_endpoint trim_space;
    labels = given u.labels sub.labels or_empty_map;
    filter = filter;
    dead_letter_topic = policy.0;
    max_delivery_attempts = policy.1;
    enable_exactly_once_delivery =
        given u.enable_exactly_once sub.enable_exactly_once_delivery (λ b. b);
    oidc_service_account_email =
        given u.oidc sub.oidc_service_account_email (λ o. trim_space o.service_account_email);
    oidc_audience = given u.oidc sub.oidc_audience (λ o. trim_space o.audience);
  })

-- The columns that the UPDATE sets; the key and the topic stay.
unfoldable pub set_subscription : PubSubSubscription → PubSubSubscription → PubSubSubscription
set_subscription new old = record old {
  ack_deadline_seconds = new.ack_deadline_seconds;
  push_endpoint = new.push_endpoint;
  labels = new.labels;
  filter = new.filter;
  dead_letter_topic = new.dead_letter_topic;
  max_delivery_attempts = new.max_delivery_attempts;
  enable_exactly_once_delivery = new.enable_exactly_once_delivery;
  oidc_service_account_email = new.oidc_service_account_email;
  oidc_audience = new.oidc_audience;
}

unfoldable pub update_subscription :
    Db → String → SubscriptionUpdate → Db × Result PubSubSubscription
update_subscription db name u = elim (get_subscription db name) [
  | none ↦ (db, err (message "subscription not found"))
  | some sub ↦ elim (updated_subscription db sub u) [
    | err e ↦ (db, err e)
    | ok new ↦ (
      record db {
        subscriptions =
            update_where (subscription_named name) (set_subscription new) db.subscriptions;
      },
      ok new,
    )
  ]
]

unfoldable pub list_subscriptions : Db → String → List PubSubSubscription
list_subscriptions db project_id =
    order_by (λ a b. name_le a.name b.name)
      (select_where (λ s. s.project_id == project_id) db.subscriptions)

unfoldable pub list_subscriptions_for_topic : Db → String → List PubSubSubscription
list_subscriptions_for_topic db topic =
    order_by (λ a b. name_le a.name b.name) (select_where (λ s. s.topic == topic) db.subscriptions)

-- The subscription goes with its messages.
unfoldable pub delete_subscription : Db → String → Db × Bool
delete_subscription db name = (
  record db {
    messages = delete_where (λ m. m.subscription == name) db.messages;
    subscriptions = delete_where (subscription_named name) db.subscriptions;
  },
  exists_row (subscription_named name) db.subscriptions,
)
