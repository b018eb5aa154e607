-- ===== src/Webhook/Laws.antt =====
-- The attempts of a delivery and the time between them.
use pacinet.Prelude.{
  ℕ, zero, suc, ◌+◌, ◌-◌, ◌*◌, ◌^◌, ◌≤◌, ◌<◌, String, ◌≡◌, ap, refl, ◌∙◌, true, false, none, List,
  [], ◌∷◌, length, arith, Bool-cases, inl, inr, ◌⊎◌, lt→ltb,
}
use native.Mathlib.Nat.{pow-le-pow_right}
use native.Mathlib.Omega.{pow_step}
use pacinet.Model.{WebhookDelivery}
use pacinet.Fsm.Definition.{WebhookConfig}
use pacinet.Webhook.{
  WebhookPayload, Client, DeliveryResult, success, exhausted, request_of, read_result, delivery_of,
  backoff, deliver_from, deliver_webhook, unwrap_or,
}

-- The attempts are numbered from `k`, and all but the last failed; the last is a success exactly if the
-- delivery is one.
abbrev pub IsSequence : DeliveryResult → ℕ → List WebhookDelivery → Type 0
IsSequence r k [] = r ≡ exhausted
IsSequence r k (d ∷ []) =
    (d.attempt ≡ k)
    × (((d.success ≡ true) × (r ≡ success)) ⊎ ((d.success ≡ false) × (r ≡ exhausted)))
IsSequence r k (d ∷ e ∷ ds) = (d.attempt ≡ k) × (d.success ≡ false) × IsSequence r (suc k) (e ∷ ds)

IsSequence-cons :
    (r : DeliveryResult) (k : ℕ) (d : WebhookDelivery) (ds : List WebhookDelivery)
    → d.attempt ≡ k
    → d.success ≡ false
    → IsSequence r (suc k) ds
    → IsSequence r k (d ∷ ds)
IsSequence-cons r k d [] a f h = (a, inr (f, h))
IsSequence-cons r k d (e ∷ ds) a f h = (a, f, h)

-- `n` numbers, each twice the one before.
unfoldable pub doubling : ℕ → ℕ → List ℕ
doubling first zero = []
doubling first (suc n) = first ∷ doubling (2 * first) n

backoff_small : (k : ℕ) → k < 56 → backoff k ≡ 500 * 2 ^ k
unfolding backoff
backoff_small k h =
    let bound = pow-le-pow_right {n = 2} (omega arith) {i = k} {j = 55} (omega (arith, h)) in
    omega (arith, bound)

delays_step :
    (k : ℕ) (ds : List ℕ)
    → backoff k ≡ 500 * 2 ^ k
    → ds ≡ doubling (500 * 2 ^ suc k) (length ds)
    → backoff k ∷ ds ≡ doubling (500 * 2 ^ k) (suc (length ds))
unfolding doubling
delays_step k ds b h =
    let twice : 500 * 2 ^ suc k ≡ 2 * (500 * 2 ^ k) = omega (arith, pow_step 2 k) in
    let tail = h ∙ ap (λ first. doubling first (length ds)) twice in
    ap (λ d. d ∷ ds) b ∙ ap (λ rest. (500 * 2 ^ k) ∷ rest) tail

module _ (c : Client) (config : WebhookConfig) (payload : WebhookPayload) (instance_id : String)
    (max : ℕ) where
  IsSequence-deliver_from :
      (n k : ℕ)
      → let r = deliver_from c config payload instance_id max n k in
        IsSequence r.result k r.deliveries
  unfolding deliver_from delivery_of
  IsSequence-deliver_from zero k = refl
  IsSequence-deliver_from (suc n) k =
      let answer = read_result c (c.send k (request_of config payload)) in
      let rest = deliver_from c config payload instance_id max n (suc k) in
      elim (Bool-cases answer.1) [
        | inl e ↦ rw e (refl, inl (refl, refl))
        | inr e ↦ rw e (
            IsSequence-cons rest.result k
              (delivery_of c config instance_id k (answer.0, false, answer.2)) rest.deliveries refl
              refl (IsSequence-deliver_from n (suc k)))
      ]

  length-deliver_from :
      (n k : ℕ)
      → let r = deliver_from c config payload instance_id max n k in
        ((r.result ≡ success) × (length r.deliveries ≤ n))
        ⊎ ((r.result ≡ exhausted) × (length r.deliveries ≡ n))
  unfolding deliver_from
  length-deliver_from zero k = inr (refl, refl)
  length-deliver_from (suc n) k = ground (arith, length-deliver_from n (suc k))

  delivered :
      (n k : ℕ) → 1 ≤ length (deliver_from c config payload instance_id max (suc n) k).deliveries
  unfolding deliver_from
  delivered n k = ground arith

  -- One delay between each two attempts.
  delays-deliver_from :
      (n k : ℕ)
      → n + k ≡ suc max
      → let r = deliver_from c config payload instance_id max n k in
        length r.delays ≡ length r.deliveries - 1
  unfolding deliver_from
  delays-deliver_from zero k h = refl
  delays-deliver_from (suc zero) k h = ground (arith, h)
  delays-deliver_from (suc (suc n)) k h =
      let ih = delays-deliver_from (suc n) (suc k) (omega (arith, h)) in
      let some_left = delivered n (suc k) in ground (arith, h, ih, some_left)

  doubling-deliver_from :
      (n k : ℕ)
      → n + k ≡ suc max
      → max ≤ 56
      → let r = deliver_from c config payload instance_id max n k in
        r.delays ≡ doubling (500 * 2 ^ k) (length r.delays)
  unfolding deliver_from doubling
  doubling-deliver_from zero k h small = refl
  doubling-deliver_from (suc zero) k h small = ground (arith, h)
  doubling-deliver_from (suc (suc n)) k h small =
      let rest = deliver_from c config payload instance_id max (suc n) (suc k) in
      let ih = doubling-deliver_from (suc n) (suc k) (omega (arith, h)) small in
      let first = backoff_small k (omega (arith, h, small)) in
      elim (Bool-cases (read_result c (c.send k (request_of config payload))).1) [
        | inl e ↦ rw e refl
        | inr e ↦ rw (e, lt→ltb k max (omega (arith, h))) (delays_step k rest.delays first ih)
      ]

-- If the client can be built, a delivery comes to an end after at most `max_retries + 1` attempts, 3 if the
-- configuration names no number: they are numbered from 0, each but the last failed, and it
-- ends as a success with the first attempt that is one and otherwise after the last attempt.
pub deliver_webhook_lem :
    (c : Client) (config : WebhookConfig) (payload : WebhookPayload) (instance_id : String)
    → c.build_error (unwrap_or config.timeout_seconds 10) ≡ none
    → let r = deliver_webhook c config payload instance_id in
      let n = suc (unwrap_or config.max_retries 2) in
      IsSequence r.result 0 r.deliveries
      × (((r.result ≡ success) × (length r.deliveries ≤ n))
          ⊎ ((r.result ≡ exhausted) × (length r.deliveries ≡ n)))
unfolding deliver_webhook
deliver_webhook_lem c config payload instance_id h =
    let max = unwrap_or config.max_retries 2 in
    rw (h, deliver_webhook)
      (
        IsSequence-deliver_from c config payload instance_id max (suc max) 0,
        length-deliver_from c config payload instance_id max (suc max) 0,
      )

-- If the client can be built, there is one delay between each two attempts and none after the last; with
-- at most 56 retries, for which no delay wraps around, the first one is of 500 milliseconds and each further one
-- twice the one before. REQUIREMENTS.md has them begin with one second.
pub deliver_webhook-delays :
    (c : Client) (config : WebhookConfig) (payload : WebhookPayload) (instance_id : String)
    → c.build_error (unwrap_or config.timeout_seconds 10) ≡ none
    → unwrap_or config.max_retries 2 ≤ 56
    → let r = deliver_webhook c config payload instance_id in
      r.delays ≡ doubling 500 (length r.deliveries - 1)
unfolding deliver_webhook
deliver_webhook-delays c config payload instance_id h small =
    let max = unwrap_or config.max_retries 2 in
    let delays =
      doubling-deliver_from c config payload instance_id max (suc max) 0 (omega arith) small in
    let count = delays-deliver_from c config payload instance_id max (suc max) 0 (omega arith) in
    rw (h, deliver_webhook) (delays ∙ ap (doubling 500) count)
