-- ===== src/Storage/Logs.antt =====
-- The bounded logs of `MemoryStorage`, its templates and its webhook deliveries.
pub mod Bounds
pub mod Queries
use mathlib.Core.List.{reverse}
use pacinet.Prelude.{
  ℕ, ◌-◌, String, ◌==◌, Bool, Option, none, some, List, [], ◌∷◌, ◌++◌, ok, leb, ltb, length, take,
  drop, keep, any, is_some, is_none_or, if◌then◌else◌,
}
use pacinet.HashMap.{get, insert, remove, values}
use pacinet.Model.{DateTime, PersistentEvent, AuditEntry, PolicyTemplate, WebhookDelivery}
use pacinet.Storage.State.{MemoryStorage, Answer, Method, max_memory_events, max_memory_audit}

-- `push`, and `drain` from the front what passes the limit.
unfoldable pub push_bounded : {A : Type 0} → ℕ → A → List A → List A
push_bounded limit x xs =
    let pushed = xs ++ x ∷ [] in
    if ltb limit (length pushed) then drop (length pushed - limit) pushed else pushed

unfoldable pub store_event : PersistentEvent → Method (Unit {0})
unfolding push_bounded
store_event event s = (ok tt, record s { events = push_bounded max_memory_events event s.events })

unfoldable pub query_events :
    Option String
    → Option String
    → Option DateTime
    → Option DateTime
    → ℕ
    → MemoryStorage
    → Answer (List PersistentEvent)
query_events event_type source since until limit s = ok (
    take limit (
      keep (λ e. is_none_or until (λ u. leb e.timestamp u))
        (keep (λ e. is_none_or since (λ t. leb t e.timestamp))
          (keep (λ e. is_none_or source (λ r. e.source == r))
            (keep (λ e. is_none_or event_type (λ t. e.event_type == t)) (reverse s.events))))))

unfoldable pub prune_events : DateTime → Method ℕ
prune_events older_than s =
    let kept = keep (λ e. leb older_than e.timestamp) s.events in
    (ok (length s.events - length kept), record s { events = kept })

unfoldable pub count_events : MemoryStorage → Answer ℕ
count_events s = ok (length s.events)

unfoldable pub store_audit : AuditEntry → Method (Unit {0})
unfolding push_bounded
store_audit entry s =
    (ok tt, record s { audit_log = push_bounded max_memory_audit entry s.audit_log })

unfoldable pub query_audit :
    Option String
    → Option String
    → Option String
    → Option DateTime
    → ℕ
    → MemoryStorage
    → Answer (List AuditEntry)
query_audit action resource_type resource_id since limit s = ok (
    take limit (
      keep (λ e. is_none_or since (λ t. leb t e.timestamp))
        (keep (λ e. is_none_or resource_id (λ r. e.resource_id == r))
          (keep (λ e. is_none_or resource_type (λ r. e.resource_type == r))
            (keep (λ e. is_none_or action (λ a. e.action == a)) (reverse s.audit_log))))))

unfoldable pub store_template : PolicyTemplate → Method (Unit {0})
store_template template s =
    (ok tt, record s { templates = insert template.name template s.templates })

unfoldable pub get_template : String → MemoryStorage → Answer (Option PolicyTemplate)
get_template name s = ok (get name s.templates)

unfoldable pub list_templates : Option String → MemoryStorage → Answer (List PolicyTemplate)
list_templates tag s =
    ok (keep (λ t. is_none_or tag (λ g. any (λ x. x == g) t.tags)) (values s.templates))

unfoldable pub delete_template : String → Method Bool
delete_template name s =
    (ok (is_some (get name s.templates)), record s { templates = remove name s.templates })

unfoldable pub store_webhook_delivery : WebhookDelivery → Method (Unit {0})
store_webhook_delivery delivery s =
    (ok tt, record s { webhook_deliveries = s.webhook_deliveries ++ delivery ∷ [] })

unfoldable pub query_webhook_deliveries :
    Option String → ℕ → MemoryStorage → Answer (List WebhookDelivery)
query_webhook_deliveries instance_id limit s = ok (
    take limit
      (keep (λ d. is_none_or instance_id (λ i. d.instance_id == i)) (reverse s.webhook_deliveries)))
