-- ===== src/Store/Lab.antt =====
-- A concrete lab: a topic with a plain subscription and one with a dead-letter topic.
use noctaxris_gcp.Base.{
  ℕ, zero, suc, String, false, ◌≡◌, refl, ap, subst, [], ◌∷◌, none, arith, select_where, select_one,
  exists_row, insert_by, order_by, trim_space,
}
use noctaxris_gcp.Store.Stamps.{second, format}
use noctaxris_gcp.Store.PubSub.Types.{Db, PubSubTopic, PubSubSubscription, PubSubMessage, Uuids}
use noctaxris_gcp.Store.PubSub.Filter.{
  parse_attribute_equality_filter, message_matches_filter, all_wanted,
}
use noctaxris_gcp.Store.PubSub.Topics.{get_topic, create_topic, create_topic_with_labels}
use noctaxris_gcp.Store.PubSub.Subscriptions.{
  SubscriptionArgs, create_subscription, create_subscription_full, checked_subscription,
  check_filter, check_dead_letter, list_subscriptions_for_topic,
}
use noctaxris_gcp.Store.PubSub.Publish.{insert_message, fan_out, publish_fanout, publish}
use noctaxris_gcp.Store.PubSub.Calls.{Call}
use noctaxris_gcp.Store.PubSub.Steps.{empty_db, perform, Reachable, start, step}

-- Identifiers of growing length.
unfoldable pub letters : ℕ → String
letters zero = ""
letters (suc n) = String.◌∷◌ "a" (letters n)

pub letters-injective : (i j : ℕ) → letters i ≡ letters j → i ≡ j
unfolding letters
letters-injective zero zero h = refl
letters-injective zero (suc j) h = cc
letters-injective (suc i) zero h = cc
letters-injective (suc i) (suc j) h = ap suc (letters-injective i j (ground arith))

abbrev pub uuids : Uuids
uuids = record { new_string = letters }

abbrev with_dead_letter : SubscriptionArgs
with_dead_letter = record {
  name = "s";
  topic = "t";
  project_id = "p";
  ack_deadline_seconds = 0;
  push_endpoint = "";
  labels = none;
  filter = "";
  dead_letter_topic = "dl";
  max_delivery_attempts = 5;
  enable_exactly_once = false;
  oidc_service_account_email = "";
  oidc_audience = "";
}

-- The states of the lab, one call after the other.
abbrev lab_one : Db
lab_one = perform uuids 0 empty_db (Call.create_topic "t" "p")

abbrev lab_two : Db
lab_two = perform uuids 0 lab_one (Call.create_topic "dl" "p")

abbrev lab_three : Db
lab_three = perform uuids 0 lab_two (Call.create_subscription "plain" "t" "p" 20)

abbrev lab_four : Db
lab_four = perform uuids 0 lab_three (Call.create_subscription_full with_dead_letter)

-- What the publication left for a subscription.
abbrev copy_of : String → String → PubSubMessage
copy_of subscription ack_id = record {
  id = letters 0;
  subscription = subscription;
  topic = "t";
  payload = 1 ∷ 2 ∷ [];
  attributes = [];
  publish_time = format second;
  ack_id = ack_id;
  ack_deadline = none;
  delivered = false;
  delivery_attempts = 0;
}

abbrev pub plain_copy : PubSubMessage
plain_copy = copy_of "plain" (letters 1)

abbrev pub dead_letter_copy : PubSubMessage
dead_letter_copy = copy_of "s" (letters 2)

-- The subscriptions as they are stored.
abbrev pub plain : PubSubSubscription
plain = record {
  name = "plain";
  topic = "t";
  project_id = "p";
  ack_deadline_seconds = 20;
  push_endpoint = "";
  labels = [];
  filter = "";
  dead_letter_topic = "";
  max_delivery_attempts = 0;
  enable_exactly_once_delivery = false;
  oidc_service_account_email = "";
  oidc_audience = "";
  created_at = format 0;
}

abbrev pub strict : PubSubSubscription
strict = record plain {
  name = "s";
  ack_deadline_seconds = 10;
  dead_letter_topic = "dl";
  max_delivery_attempts = 5;
}

abbrev pub topic_row : String → PubSubTopic
topic_row name = record { name = name; project_id = "p"; labels = []; created_at = format 0 }

abbrev pub lab_db : Db
lab_db = record {
  topics = topic_row "t" ∷ topic_row "dl" ∷ [];
  subscriptions = plain ∷ strict ∷ [];
  messages = plain_copy ∷ dead_letter_copy ∷ [];
  snapshots = [];
  drawn = 3;
}

lab_topics : lab_two ≡ record empty_db { topics = topic_row "t" ∷ topic_row "dl" ∷ [] }
unfolding perform create_topic create_topic_with_labels exists_row trim_space
lab_topics = refl

lab_subscriptions : lab_four ≡ record lab_db { messages = []; drawn = 0 }
unfolding perform create_subscription create_subscription_full checked_subscription check_filter
    check_dead_letter get_topic select_one exists_row trim_space
lab_subscriptions = rw lab_topics refl

lab_published :
    perform uuids second
      (record lab_db { messages = []; drawn = 0 })
      (Call.publish "t" (1 ∷ 2 ∷ []) none)
    ≡ lab_db
unfolding perform publish publish_fanout get_topic select_one list_subscriptions_for_topic order_by
    insert_by select_where fan_out message_matches_filter parse_attribute_equality_filter trim_space
    all_wanted insert_message exists_row letters
lab_published = refl

pub lab-Reachable : Reachable uuids lab_db
lab-Reachable = subst (Reachable uuids) lab_published (
    step second (record lab_db { messages = []; drawn = 0 }) (Call.publish "t" (1 ∷ 2 ∷ []) none)
      (subst (Reachable uuids) lab_subscriptions (
        step 0 lab_three (Call.create_subscription_full with_dead_letter) (
          step 0 lab_two (Call.create_subscription "plain" "t" "p" 20) (
            step 0 lab_one (Call.create_topic "dl" "p")
              (step 0 empty_db (Call.create_topic "t" "p") start))))))
