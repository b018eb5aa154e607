-- ===== src/Service/Logs.antt =====
-- The calls of `ManagementService` in pacinet-server/src/service.rs about the audit log, the policy templates
-- and the webhook deliveries. An answer that is a message with the fields of a record of the data model is
-- given as that record.
use pacinet.Prelude.{ℕ, String, Bool, Option, List, ok, err, ◌>>=◌, if◌then◌else◌}
use pacinet.Text.{◌<>◌}
use pacinet.Error.{PaciNetError}
use pacinet.Model.{DateTime, AuditEntry, PolicyTemplate, WebhookDelivery}
use pacinet.Storage.State.{MemoryStorage}
use pacinet.Storage.Logs
use pacinet.Service.{Reply, blocking, or_not_found, unless_empty}
use pacinet.Service.Nodes.{limit_or}

module _ (error_text : PaciNetError → String) where
  unfoldable pub query_audit_log :
      String → String → String → Option DateTime → ℕ → MemoryStorage → Reply (List AuditEntry)
  unfolding blocking
  query_audit_log action resource_type resource_id since limit s = blocking error_text (
      Logs.query_audit (unless_empty action) (unless_empty resource_type) (unless_empty resource_id)
        since (limit_or limit 50) s)

  -- The answer is the template's name and the message.
  unfoldable pub create_policy_template :
      DateTime
      → String
      → String
      → String
      → List String
      → MemoryStorage
      → Reply (String × String) × MemoryStorage
  unfolding blocking
  create_policy_template now name description rules_yaml tags s =
      let (stored, t) =
        Logs.store_template
          (record {
            name = name;
            description = description;
            rules_yaml = rules_yaml;
            tags = tags;
            created_at = now;
            updated_at = now;
          })
          s in
      (
        elim (blocking error_text stored) [
          | err e ↦ err e
          | ok _ ↦ ok (name, "Template '" <> name <> "' created")
        ],
        t,
      )

  unfoldable pub get_policy_template : String → MemoryStorage → Reply PolicyTemplate
  unfolding blocking
  get_policy_template name s = do
    found ← blocking error_text (Logs.get_template name s)
    or_not_found ("Template '" <> name <> "' not found") found

  unfoldable pub list_policy_templates : String → MemoryStorage → Reply (List PolicyTemplate)
  unfolding blocking
  list_policy_templates tag s = blocking error_text (Logs.list_templates (unless_empty tag) s)

  unfoldable pub delete_policy_template :
      String → MemoryStorage → Reply (Bool × String) × MemoryStorage
  unfolding blocking
  delete_policy_template name s =
      let (answer, t) = Logs.delete_template name s in
      (
        elim (blocking error_text answer) [
          | err e ↦ err e
          | ok deleted ↦
              ok (deleted, "Template '" <> name <> (if deleted then "' deleted" else "' not found"))
        ],
        t,
      )

  unfoldable pub query_webhook_deliveries :
      String → ℕ → MemoryStorage → Reply (List WebhookDelivery)
  unfolding blocking
  query_webhook_deliveries instance_id limit s =
      blocking error_text
        (Logs.query_webhook_deliveries (unless_empty instance_id) (limit_or limit 50) s)
