-- ===== src/Store/Tests.antt =====
-- The theorems on the tables at a concrete lab.
use noctaxris_gcp.Base.{
  ◌*◌, String, true, false, ◌≡◌, refl, ◌≢◌, ◌↔◌, List, [], ◌∷◌, ◌++◌, map, Memᴰ, none, some, ok,
  take, arith, select_where, select_one, exists_row, update_where, insert_by, order_by, trim_space,
  if◌then◌else◌,
}
use noctaxris_gcp.Base.{all_pass, ℕ}
use noctaxris_gcp.Store.Stamps.{bytes_ltb, fraction, second, format, stamp_ltb}
use noctaxris_gcp.Store.PubSub.Types.{Db, PubSubMessage, StringMap}
use noctaxris_gcp.Store.PubSub.Filter.{
  parse_attribute_equality_filter, message_matches_filter, all_wanted,
}
use noctaxris_gcp.Store.PubSub.Matching.{HasAll, message_matches_filter_iff}
use noctaxris_gcp.Store.PubSub.Topics.{get_topic}
use noctaxris_gcp.Store.PubSub.Subscriptions.{get_subscription, list_subscriptions_for_topic}
use noctaxris_gcp.Store.PubSub.Publish.{insert_message, fan_out, publish_fanout, publish}
use noctaxris_gcp.Store.PubSub.Published.{IsPublished, publish_fanout_copies}
use noctaxris_gcp.Store.PubSub.Pull.{
  lease_end, fetch_limit, expired, available, candidates, is_dead_letter, leased,
  move_to_dead_letter, lease_loop, pull, record_push_delivery_failure,
}
use noctaxris_gcp.Store.PubSub.Leases.{modified_deadline, acknowledge, modify_ack_deadline}
use noctaxris_gcp.Store.PubSub.LeaseLaws.{
  concerns, with_deadline, acknowledge_iff, modify_ack_deadline_iff, zero_deadline_available,
}
use noctaxris_gcp.Store.PubSub.Exclusive.{at_most}
use noctaxris_gcp.Store.PubSub.Quiet.{passes_by}
use noctaxris_gcp.Store.PubSub.LeaseHeld.{run_calls, lease_exclusive}
use noctaxris_gcp.Store.PubSub.Calls.{Call}
use noctaxris_gcp.Store.PubSub.DeadLetter.{IsDeadLettered, dead_lettered}
use noctaxris_gcp.Store.PubSub.PullTotal.{in_line, pull_returns, pull_total}
use noctaxris_gcp.Store.PubSub.Valid.{IsValid}
use noctaxris_gcp.Store.PubSub.Steps.{perform, Reachable-IsValid, Reachable-publish}
use noctaxris_gcp.Store.Lab.{
  letters, letters-injective, uuids, plain_copy, dead_letter_copy, plain, strict, topic_row, lab_db,
  lab-Reachable,
}

-- The lab keeps what the tables promise.
Reachable-IsValid_example : IsValid uuids lab_db
Reachable-IsValid_example = Reachable-IsValid uuids lab_db lab-Reachable

get_plain : get_subscription lab_db "plain" ≡ some plain
unfolding get_subscription select_one
get_plain = refl

abbrev leased_plain : PubSubMessage
leased_plain = record plain_copy {
  delivered = true;
  ack_deadline = some (format (22 * second));
  delivery_attempts = 1;
}

abbrev lab_pulled : Db
lab_pulled = record lab_db { messages = leased_plain ∷ dead_letter_copy ∷ [] }

pull_plain : pull uuids (2 * second) lab_db "plain" 10 ≡ (lab_pulled, ok (leased_plain ∷ []))
unfolding pull lease_end get_subscription select_one lease_loop is_dead_letter candidates order_by
    insert_by select_where available expired fetch_limit update_where leased letters format
pull_plain = refl

pull_returns_example :
    (pull uuids (2 * second) lab_db "plain" 10).1
    ≡ ok (
        map
          (leased (format (lease_end (2 * second) 20)))
          (take (at_most 10) (in_line lab_db "plain" (2 * second))))
pull_returns_example = pull_returns uuids (2 * second) lab_db "plain" 10 plain get_plain refl

get_strict_first : get_subscription lab_db "s" ≡ some strict
unfolding get_subscription select_one
get_strict_first = refl

get_dead_letter : get_topic lab_db "dl" ≡ some (topic_row "dl")
unfolding get_topic select_one
get_dead_letter = refl

get_topic_row : get_topic lab_db "t" ≡ some (topic_row "t")
unfolding get_topic select_one
get_topic_row = refl

pull_total_example :
    (out : List PubSubMessage) × ((pull uuids (2 * second) lab_db "s" 3).1 ≡ ok out)
pull_total_example =
    pull_total uuids (2 * second) lab_db "s" 3 strict (topic_row "dl") letters-injective
      Reachable-IsValid_example get_strict_first get_dead_letter

Reachable-publish_example :
    (db' : Db) × (id : String) × (publish uuids (5 * second) lab_db "t" [] none ≡ (db', ok id))
Reachable-publish_example =
    Reachable-publish uuids (5 * second) lab_db "t" [] none (topic_row "t") letters-injective
      lab-Reachable get_topic_row

abbrev later_copy : String → String → PubSubMessage
later_copy subscription ack_id = record plain_copy {
  id = letters 3;
  subscription = subscription;
  payload = [];
  publish_time = format (5 * second);
  ack_id = ack_id;
}

abbrev later_copies : List PubSubMessage
later_copies = later_copy "plain" (letters 4) ∷ later_copy "s" (letters 5) ∷ []

abbrev lab_republished : Db
lab_republished = record lab_db { messages = lab_db.messages ++ later_copies; drawn = 6 }

publish_again :
    publish_fanout uuids (5 * second) lab_db "t" [] none
    ≡ (lab_republished, ok (letters 3, later_copies))
unfolding publish_fanout get_topic select_one list_subscriptions_for_topic order_by insert_by
    select_where fan_out message_matches_filter parse_attribute_equality_filter trim_space
    all_wanted insert_message exists_row letters
publish_again = refl

publish_fanout_copies_example :
    IsPublished (5 * second) lab_db "t" [] [] lab_republished later_copies
publish_fanout_copies_example =
    publish_fanout_copies uuids (5 * second) lab_db "t" [] none publish_again

abbrev pulled_again : PubSubMessage
pulled_again = record (later_copy "plain" (letters 4)) {
  delivered = true;
  ack_deadline = some (format (26 * second));
  delivery_attempts = 1;
}

abbrev between : List (ℕ × Call)
between = (5 * second, Call.publish "t" [] none) ∷ []

between_run :
    run_calls uuids lab_pulled between
    ≡ record lab_pulled { messages = leased_plain ∷ dead_letter_copy ∷ later_copies; drawn = 6 }
unfolding run_calls perform publish publish_fanout get_topic select_one list_subscriptions_for_topic
    order_by insert_by select_where fan_out message_matches_filter parse_attribute_equality_filter
    trim_space all_wanted insert_message exists_row letters
between_run = refl

get_plain_later : get_subscription (run_calls uuids lab_pulled between) "plain" ≡ some plain
get_plain_later = rw between_run (unfold get_subscription select_one in refl)

pull_plain_later : pull uuids (6 * second) (run_calls uuids lab_pulled between) "plain" 5 ≡ (
  record lab_pulled {
    messages = leased_plain ∷ dead_letter_copy ∷ pulled_again ∷ later_copy "s" (letters 5) ∷ [];
    drawn = 6;
  },
  ok (pulled_again ∷ []),
)
unfolding pull lease_end get_subscription select_one lease_loop is_dead_letter candidates order_by
    insert_by select_where available expired fetch_limit update_where leased letters format fraction
    stamp_ltb bytes_ltb
pull_plain_later = rw between_run refl

lease_exclusive_example : leased_plain.ack_id ≢ pulled_again.ack_id
unfolding lease_end
lease_exclusive_example =
    lease_exclusive uuids (2 * second) (6 * second) lab_db "plain" "plain" 10 5 plain plain between
      Reachable-IsValid_example get_plain pull_plain (Memᴰ.head refl)
      (unfold all_pass passes_by in refl) get_plain_later pull_plain_later (omega arith)
      (Memᴰ.head refl)

acknowledge_iff_example :
    Memᴰ plain_copy (acknowledge lab_db "plain" (letters 1 ∷ [])).messages
    ↔ (Memᴰ plain_copy lab_db.messages × (concerns "plain" (letters 1 ∷ []) plain_copy ≡ false))
acknowledge_iff_example = acknowledge_iff lab_db "plain" (letters 1 ∷ []) plain_copy

modify_ack_deadline_iff_example :
    Memᴰ plain_copy (modify_ack_deadline (3 * second) lab_db "plain" (letters 1 ∷ []) 30).messages
    ↔ ((m : PubSubMessage) × Memᴰ m lab_db.messages
        × (plain_copy ≡ (
            if concerns "plain" (letters 1 ∷ []) m
            then with_deadline (modified_deadline (3 * second) 30) m
            else m)))
modify_ack_deadline_iff_example =
    modify_ack_deadline_iff (3 * second) lab_db "plain" (letters 1 ∷ []) 30 plain_copy

zero_deadline_available_example :
    available "plain"
      (format (4 * second))
      (with_deadline (modified_deadline (3 * second) 0) leased_plain)
    ≡ true
zero_deadline_available_example =
    zero_deadline_available (3 * second) (4 * second) "plain" leased_plain (omega arith)
      (omega arith) refl

-- A message that has had four of the five deliveries that its subscription allows.
abbrev tired : Db
tired = record lab_db { messages = record dead_letter_copy { delivery_attempts = 4 } ∷ [] }

last_failure :
    record_push_delivery_failure uuids (6 * second) tired "s" (letters 2)
    ≡ ((record_push_delivery_failure uuids (6 * second) tired "s" (letters 2)).0, ok true)
unfolding record_push_delivery_failure get_subscription select_one is_dead_letter
    move_to_dead_letter publish publish_fanout get_topic list_subscriptions_for_topic select_where
    order_by fan_out letters
last_failure = refl

dead_lettered_example :
    IsDeadLettered
      (6 * second)
      tired
      (record_push_delivery_failure uuids (6 * second) tired "s" (letters 2)).0
      "s"
      (letters 2)
dead_lettered_example = dead_lettered uuids (6 * second) tired "s" (letters 2) last_failure

message_matches_filter_iff_example :
    (message_matches_filter "attributes.a = \"x\"" (("a", "x") ∷ []) ≡ true) ↔ (
      (want : StringMap) × (parse_attribute_equality_filter "attributes.a = \"x\"" ≡ ok want)
      × HasAll (("a", "x") ∷ []) want)
message_matches_filter_iff_example =
    message_matches_filter_iff "attributes.a = \"x\"" (("a", "x") ∷ [])
