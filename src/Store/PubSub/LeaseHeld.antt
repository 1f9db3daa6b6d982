-- ===== src/Store/PubSub/LeaseHeld.antt =====
-- A lease is exclusive through any other calls: it holds until its deadline, unless a call is about it.
use noctaxris_gcp.Base.{
  ℕ, ◌+◌, ◌≤◌, String, Bool, true, ◌&&◌, ◌≡◌, refl, sym, ap, subst, ◌∙◌, ◌≢◌, List, [], ◌∷◌, Memᴰ,
  Option, none, some, Result, ok, arith, eq_iff, all_pass, Unique-mem, leb,
}
use noctaxris_gcp.Store.Stamps.{second, format}
use noctaxris_gcp.Store.PubSub.Types.{Db, PubSubSubscription, PubSubMessage, StringMap, Uuids}
use noctaxris_gcp.Store.PubSub.Topics.{create_topic, delete_topic}
use noctaxris_gcp.Store.PubSub.Subscriptions.{create_subscription, get_subscription}
use noctaxris_gcp.Store.PubSub.Snapshots.{create_snapshot, delete_snapshot}
use noctaxris_gcp.Store.PubSub.Copies.{ack}
use noctaxris_gcp.Store.PubSub.Pull.{lease_end, available, leased, pull}
use noctaxris_gcp.Store.PubSub.LeaseLaws.{acknowledge_iff}
use noctaxris_gcp.Store.PubSub.ValidPull.{pull-IsValid}
use noctaxris_gcp.Store.PubSub.Exclusive.{pull_leases}
use noctaxris_gcp.Store.PubSub.Moves.{ack-leased}
use noctaxris_gcp.Store.PubSub.Undisturbed.{
  publish_fanout_keeps, publish-messages, pull_keeps, failure_keeps,
}
use noctaxris_gcp.Store.PubSub.Valid.{IsValid}
use noctaxris_gcp.Store.PubSub.Calls.{Call}
use noctaxris_gcp.Store.PubSub.ValidNames.{create-SnapshotStep, SnapshotStep}
use noctaxris_gcp.Store.PubSub.Steps.{perform, perform-IsValid}
use noctaxris_gcp.Store.PubSub.Quiet.{
  passes_by, topic_messages, label_messages, subscription_messages, update_messages, seek_keeps,
  modify_keeps, subscription_keeps, leased_unavailable,
}

module _ (uuids : Uuids) where
  snapshot_messages :
      (now : ℕ) (db : Db) (name subscription : String) (labels : Option StringMap)
      → (create_snapshot now db name subscription labels).0.messages ≡ db.messages
  snapshot_messages now db name subscription labels =
      elim (create-SnapshotStep uuids now db name subscription labels) [
        | SnapshotStep.kept e ↦ ap (λ (d : Db). d.messages) e
        | SnapshotStep.added s absent e ↦ ap (λ (d : Db). d.messages) e
      ]

  held_step :
      (now deadline : ℕ) (db : Db) (call : Call) (x : PubSubMessage)
      → IsValid uuids db
      → Memᴰ x db.messages
      → x.delivered ≡ true
      → x.ack_deadline ≡ some (format deadline)
      → now + second ≤ deadline
      → passes_by x call ≡ true
      → Memᴰ x (perform uuids now db call).messages
  unfolding perform passes_by create_topic create_subscription
  held_step now deadline db (Call.create_topic name project) x v i d e l p =
      subst (Memᴰ x) (sym (topic_messages now db name project none)) i
  held_step now deadline db (Call.create_topic_with_labels name project labels) x v i d e l p =
      subst (Memᴰ x) (sym (topic_messages now db name project labels)) i
  held_step now deadline db (Call.update_topic_labels name labels) x v i d e l p =
      subst (Memᴰ x) (sym (label_messages db name labels)) i
  held_step now deadline db (Call.delete_topic name) x v i d e l p = unfold delete_topic in i
  held_step now deadline db (Call.create_subscription name topic project seconds) x v i d e l p =
      subst (Memᴰ x) (sym (subscription_messages now db _)) i
  held_step now deadline db (Call.create_subscription_full args) x v i d e l p =
      subst (Memᴰ x) (sym (subscription_messages now db args)) i
  held_step now deadline db (Call.update_subscription name u) x v i d e l p =
      subst (Memᴰ x) (sym (update_messages db name u)) i
  held_step now deadline db (Call.delete_subscription name) x v i d e l p =
      subscription_keeps db name x i (ground arith)
  held_step now deadline db (Call.publish topic payload attributes) x v i d e l p =
      publish-messages uuids now db topic payload attributes x i
  held_step now deadline db (Call.publish_fanout topic payload attributes) x v i d e l p =
      publish_fanout_keeps uuids now db topic payload attributes x i
  held_step now deadline db (Call.pull subscription requested) x v i d e l p =
      pull_keeps uuids now db subscription requested x v.acks i
        (leased_unavailable subscription now deadline x d e l)
  held_step now deadline db (Call.record_push_delivery_failure subscription ack_id) x v i d e l p =
      failure_keeps uuids now db subscription ack_id x i
        (λ same. cc (p, (eq_iff x.ack_id ack_id).1 same))
  held_step now deadline db (Call.acknowledge subscription ids) x v i d e l p =
      (acknowledge_iff db subscription ids x).1 (i, ground arith)
  held_step now deadline db (Call.modify_ack_deadline subscription ids seconds) x v i d e l p =
      modify_keeps now db subscription ids seconds x i (ground arith)
  held_step now deadline db (Call.seek_to_time subscription time) x v i d e l p =
      seek_keeps db subscription time x i (ground arith)
  held_step now deadline db (Call.create_snapshot name subscription labels) x v i d e l p =
      subst (Memᴰ x) (sym (snapshot_messages now db name subscription labels)) i
  held_step now deadline db (Call.delete_snapshot name) x v i d e l p = unfold delete_snapshot in i

  -- Calls at their times, one after the other.
  unfoldable pub run_calls : Db → List (ℕ × Call) → Db
  run_calls db [] = db
  run_calls db ((now, call) ∷ calls) = run_calls (perform uuids now db call) calls

  -- A call a second before the deadline or earlier that is not about the message.
  abbrev pub is_quiet : PubSubMessage → ℕ → ℕ × Call → Bool
  is_quiet x deadline (now, call) = leb (now + second) deadline && passes_by x call

  held_run :
      (deadline : ℕ) (db : Db) (calls : List (ℕ × Call)) (x : PubSubMessage)
      → IsValid uuids db
      → Memᴰ x db.messages
      → x.delivered ≡ true
      → x.ack_deadline ≡ some (format deadline)
      → all_pass (is_quiet x deadline) calls ≡ true
      → IsValid uuids (run_calls db calls) × Memᴰ x (run_calls db calls).messages
  unfolding run_calls all_pass
  held_run deadline db [] x v i d e q = (v, i)
  held_run deadline db ((now, call) ∷ calls) x v i d e q =
      held_run deadline (perform uuids now db call) calls x (perform-IsValid uuids now db call v)
        (held_step now deadline db call x v i d e (ground arith) (ground arith)) d e (ground arith)

  -- A lease is exclusive through other calls: from valid tables on, a message that a pull returns is
  -- returned by no later pull, on any subscription, after any sequence of calls that are not about
  -- the message, as long as all of it happens at least a second before its deadline, which is
  -- `lease_end` of the time of the first pull.
  pub lease_exclusive :
      (t u : ℕ) (db : Db) (subscription other : String) (n k : ℕ) (sub sub' : PubSubSubscription)
      (calls : List (ℕ × Call)) {db' db'' : Db} {out out' : List PubSubMessage}
      {a b : PubSubMessage}
      → IsValid uuids db
      → get_subscription db subscription ≡ some sub
      → pull uuids t db subscription n ≡ (db', ok out)
      → Memᴰ a out
      → all_pass (is_quiet a (lease_end t sub.ack_deadline_seconds)) calls ≡ true
      → get_subscription (run_calls db' calls) other ≡ some sub'
      → pull uuids u (run_calls db' calls) other k ≡ (db'', ok out')
      → u + second ≤ lease_end t sub.ack_deadline_seconds
      → Memᴰ b out'
      → a.ack_id ≢ b.ack_id
  lease_exclusive t u db subscription other n k sub sub' calls {db'} {db''} {out} {out'} {a} {b} v p
        h i quiet p' h' l j same =
      let deadline = lease_end t sub.ack_deadline_seconds in
      let x = (pull_leases uuids t db subscription n sub v.acks p h).2 a i in
      let valid : IsValid uuids db' =
        subst (IsValid uuids) (ap (λ (r : Db × Result (List PubSubMessage)). r.0) h)
          (pull-IsValid uuids t db subscription n v) in
      let delivered : a.delivered ≡ true = rw x.lease (unfold leased in refl) in
      let leased_to : a.ack_deadline ≡ some (format deadline) =
        rw x.lease (unfold leased in refl) in
      let (valid', held) = held_run deadline db' calls a valid x.stands delivered leased_to quiet in
      let y = (pull_leases uuids u (run_calls db' calls) other k sub' valid'.acks p' h').2 b j in
      let row : a ≡ y.row =
        Unique-mem ack (run_calls db' calls).messages valid'.acks held y.was_there (
          same
          ∙ ap ack y.lease
          ∙ ack-leased (format (lease_end u sub'.ack_deadline_seconds)) y.row) in
      cc (
        y.was_available,
        leased_unavailable other u deadline a delivered leased_to l,
        ap (available other (format u)) row,
      )
