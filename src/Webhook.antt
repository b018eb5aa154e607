-- ===== src/Webhook.antt =====
-- pacinet-server/src/webhook.rs: the delivery of an alert, with its retries. The HTTP client is `reqwest`'s
-- and an argument, and so are the clock and the fresh identifiers; the metrics are left out. The
-- deliveries stand in the order in which they are handed to the storage.
pub mod Laws
use pacinet.Prelude.{
  ℕ, zero, suc, ◌+◌, ◌*◌, ◌%◌, ◌^◌, String, ◌==◌, Bool, true, false, ◌&&◌, Option, none, some, List,
  [], ◌∷◌, ◌++◌, ltb, leb, if◌then◌else◌,
}
use pacinet.Text.{◌<>◌, to_uppercase}
use pacinet.HashMap.{HashMap}
use pacinet.Model.{DateTime, WebhookDelivery}
use pacinet.Fsm.Definition.{WebhookConfig, BasicAuth}

pub record WebhookPayload : Type 0 where
  pub event : String
  pub instance_id : String
  pub definition_name : String
  pub current_state : String
  pub message : String
  pub timestamp : DateTime
  pub deployed_nodes : List String

pub data Method : Type 0 where
  post put patch : Method

unfoldable pub method_of : String → Method
method_of text =
    let t = to_uppercase text in if t == "PUT" then put else if t == "PATCH" then patch else post

pub record WebhookRequest : Type 0 where
  pub method : Method
  pub url : String
  pub bearer_auth : Option String
  pub basic_auth : Option BasicAuth
  pub headers : HashMap String
  pub body : WebhookPayload

-- What `send` comes to: a response with its status, or a failure with its text.
pub data SendResult : Type 0 where
  responded : ℕ → SendResult
  failed : String → SendResult

-- What a delivery takes from outside, by the number of the attempt where it can differ; `build_error` is
-- the failure to build a client with the time limit.
pub record Client : Type 0 where
  pub build_error : ℕ → Option String
  pub send : ℕ → WebhookRequest → SendResult
  pub duration_ms : ℕ → ℕ
  pub status_text : ℕ → String
  pub uuid : ℕ → String
  pub now : ℕ → DateTime

-- `StatusCode::is_success`
abbrev pub is_success : ℕ → Bool
is_success status = leb 200 status && ltb status 300

abbrev pub unwrap_or : {A : Type 0} → Option A → A → A
unwrap_or none a = a
unwrap_or (some b) a = b

unfoldable pub request_of : WebhookConfig → WebhookPayload → WebhookRequest
unfolding method_of
request_of config payload = record {
  method = method_of (unwrap_or config.method "POST");
  url = config.url;
  bearer_auth = config.bearer_token;
  basic_auth = config.basic_auth;
  headers = config.headers;
  body = payload;
}

-- The answer that is recorded: the status, whether it is a success, and the error.
unfoldable pub read_result : Client → SendResult → Option ℕ × Bool × Option String
read_result c (responded status) =
    if is_success status
    then (some status, true, none)
    else (some status, false, some ("HTTP " <> c.status_text status))
read_result c (failed e) = (none, false, some e)

-- The struct of `record_delivery`.
unfoldable pub delivery_of :
    Client → WebhookConfig → String → ℕ → Option ℕ × Bool × Option String → WebhookDelivery
delivery_of c config instance_id attempt (status, success, error) = record {
  id = c.uuid attempt;
  instance_id = instance_id;
  url = config.url;
  method = unwrap_or config.method "POST";
  status_code = status;
  success = success;
  duration_ms = c.duration_ms attempt;
  error = error;
  attempt = attempt;
  timestamp = c.now attempt;
}

-- `500 * 2u64.pow(attempt)` milliseconds, in a `u64` that wraps around.
unfoldable pub backoff : ℕ → ℕ
backoff attempt = (500 * (2 ^ attempt % 2 ^ 64)) % 2 ^ 64

-- The label of the metric at the end.
pub data DeliveryResult : Type 0 where
  success exhausted client_error : DeliveryResult

-- What a delivery does: the attempts that it records, the delays between them, and how it ends.
pub record Delivery : Type 0 where
  pub deliveries : List WebhookDelivery
  pub delays : List ℕ
  pub result : DeliveryResult

abbrev pub then_attempt : WebhookDelivery → List ℕ → Delivery → Delivery
then_attempt d waits rest = record {
  deliveries = d ∷ rest.deliveries;
  delays = waits ++ rest.delays;
  result = rest.result;
}

module _ (c : Client) (config : WebhookConfig) (payload : WebhookPayload) (instance_id : String)
    (max_retries : ℕ) where
  -- The loop over `attempt..=max_retries`, of which `n` turns are left.
  unfoldable pub deliver_from : ℕ → ℕ → Delivery
  unfolding request_of read_result delivery_of backoff
  deliver_from zero attempt = record { deliveries = []; delays = []; result = exhausted }
  deliver_from (suc n) attempt =
      let rest = deliver_from n (suc attempt) in
      let answer = read_result c (c.send attempt (request_of config payload)) in
      let d = delivery_of c config instance_id attempt answer in
      if answer.1
      then record { deliveries = d ∷ []; delays = []; result = success }
      else then_attempt d (if ltb attempt max_retries then backoff attempt ∷ [] else []) rest

-- `deliver_webhook`; without a storage the attempts are made but not recorded.
unfoldable pub deliver_webhook : Client → WebhookConfig → WebhookPayload → String → Delivery
unfolding deliver_from
deliver_webhook c config payload instance_id =
    let max_retries = unwrap_or config.max_retries 2 in
    elim (c.build_error (unwrap_or config.timeout_seconds 10)) [
      | some e ↦ record { deliveries = []; delays = []; result = client_error }
      | none ↦ deliver_from c config payload instance_id max_retries (suc max_retries) 0
    ]
