-- ===== src/Sqlite/Logs.antt =====
-- The logs, the templates and the webhook deliveries in pacinet-server/src/storage/sqlite.rs. How `ORDER BY`
-- places rows of the same time is SQLite's, and so the order is an argument. The texts of two times are in
-- the order of the times.
pub mod Newest
use pacinet.Prelude.{
  ℕ, ◌-◌, String, ◌==◌, Bool, true, Option, List, [], ◌∷◌, ◌++◌, ◌&&◌, ok, err, leb, length, take,
  keep, any, is_some, is_none_or, if◌then◌else◌,
}
use pacinet.HashMap.{get, insert, remove, values}
use pacinet.Error.{internal}
use pacinet.Model.{DateTime, PersistentEvent, AuditEntry, PolicyTemplate, WebhookDelivery}
use pacinet.Storage.State.{Answer}
use pacinet.Sqlite.{SqliteStorage, SqlMethod, Constraints}

-- `ORDER BY key DESC`, and `ORDER BY key` on texts.
pub record OrderBy : Type 1 where
  pub descending : {A : Type 0} → (A → ℕ) → List A → List A
  pub ascending : {A : Type 0} → (A → String) → List A → List A

-- A statement that inserts a row whose key must be new.
abbrev pub inserting :
    {A : Type 0}
    → Constraints
    → (A → String)
    → A
    → List A
    → SqliteStorage
    → SqliteStorage
    → Answer (Unit {0}) × SqliteStorage
inserting texts key row table after s =
    if any (λ r. key r == key row) table
    then (err (internal texts.primary_key), s)
    else (ok tt, after)

unfoldable pub store_event : Constraints → PersistentEvent → SqlMethod (Unit {0})
store_event texts event s =
    inserting texts (λ e. e.id) event s.events (record s { events = s.events ++ event ∷ [] }) s

-- `WHERE` with the conditions that are there.
unfoldable pub is_wanted :
    Option String → Option String → Option DateTime → Option DateTime → PersistentEvent → Bool
is_wanted event_type source since until e =
    is_none_or event_type (λ t. e.event_type == t)
    && is_none_or source (λ r. e.source == r)
    && is_none_or since (λ t. leb t e.timestamp)
    && is_none_or until (λ u. leb e.timestamp u)

unfoldable pub query_events :
    OrderBy
    → Option String
    → Option String
    → Option DateTime
    → Option DateTime
    → ℕ
    → SqliteStorage
    → Answer (List PersistentEvent)
unfolding is_wanted
query_events order event_type source since until limit s = ok (
    take limit (
      order.descending (λ e. e.timestamp)
        (keep (is_wanted event_type source since until) s.events)))

unfoldable pub prune_events : DateTime → SqlMethod ℕ
prune_events older_than s =
    let kept = keep (λ e. leb older_than e.timestamp) s.events in
    (ok (length s.events - length kept), record s { events = kept })

unfoldable pub count_events : SqliteStorage → Answer ℕ
count_events s = ok (length s.events)

unfoldable pub store_audit : Constraints → AuditEntry → SqlMethod (Unit {0})
store_audit texts entry s =
    inserting texts (λ e. e.id) entry s.audit_log
      (record s { audit_log = s.audit_log ++ entry ∷ [] }) s

unfoldable pub query_audit :
    OrderBy
    → Option String
    → Option String
    → Option String
    → Option DateTime
    → ℕ
    → SqliteStorage
    → Answer (List AuditEntry)
query_audit order action resource_type resource_id since limit s = ok (
    take limit (
      order.descending (λ e. e.timestamp)
        (keep
          (λ e.
            is_none_or action (λ a. e.action == a)
            && is_none_or resource_type (λ r. e.resource_type == r)
            && is_none_or resource_id (λ r. e.resource_id == r)
            && is_none_or since (λ t. leb t e.timestamp))
          s.audit_log)))

-- `INSERT OR REPLACE`
unfoldable pub store_template : PolicyTemplate → SqlMethod (Unit {0})
store_template template s =
    (ok tt, record s { templates = insert template.name template s.templates })

unfoldable pub get_template : String → SqliteStorage → Answer (Option PolicyTemplate)
get_template name s = ok (get name s.templates)

unfoldable pub list_templates :
    OrderBy → Option String → SqliteStorage → Answer (List PolicyTemplate)
list_templates order tag s = ok (
    keep (λ t. is_none_or tag (λ g. any (λ x. x == g) t.tags))
      (order.ascending (λ t. t.name) (values s.templates)))

unfoldable pub delete_template : String → SqlMethod Bool
delete_template name s =
    (ok (is_some (get name s.templates)), record s { templates = remove name s.templates })

unfoldable pub store_webhook_delivery : Constraints → WebhookDelivery → SqlMethod (Unit {0})
store_webhook_delivery texts delivery s =
    inserting texts (λ d. d.id) delivery s.webhook_deliveries
      (record s { webhook_deliveries = s.webhook_deliveries ++ delivery ∷ [] }) s

unfoldable pub query_webhook_deliveries :
    OrderBy → Option String → ℕ → SqliteStorage → Answer (List WebhookDelivery)
query_webhook_deliveries order instance_id limit s = ok (
    take limit (
      order.descending (λ d. d.timestamp)
        (keep (λ d. is_none_or instance_id (λ i. d.instance_id == i)) s.webhook_deliveries)))
