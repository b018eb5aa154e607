-- ===== src/Engine/Transitions/Cancel.antt =====
-- A cancelled instance over the memory storage.
use pacinet.Prelude.{
  String, ◌≡◌, ◌∙◌, ap, refl, eq_iff, eq_refl, true, false, Option, some, arith, ok, err, is_some,
}
use pacinet.HashMap.{get}
use pacinet.HashMap.Laws.{get-insert, contains_key-eq-is_some}
use pacinet.HashMap.Keyed.{name_of_get}
use pacinet.Error.{PaciNetError, FsmError}
use pacinet.Fsm.Instance.{FsmInstance, is_running}
use pacinet.Storage.State.{MemoryStorage}
use pacinet.Storage.Interface.{memory}
use pacinet.Storage.Machines.{get_fsm_instance, update_fsm_instance}
use pacinet.Storage.Run.Invariant.{IsValid}
use pacinet.Engine.Transitions.{
  World, internally, find_instance, cancelled_instance, cancel_instance, advance_instance,
}

found :
    (w : World) (id : String) (i : FsmInstance) (s : MemoryStorage)
    → get id s.fsm_instances ≡ some i
    → find_instance memory w id s ≡ ok i
unfolding find_instance get_fsm_instance
found w id i s e = rw e refl

finished :
    (v : World) (id again : String) (target : Option String) (j : FsmInstance) (t : MemoryStorage)
    → get id t.fsm_instances ≡ some j
    → is_running j ≡ false
    → (advance_instance memory v id target t
        ≡ (err (PaciNetError.fsm FsmError.already_completed), t))
      × (cancel_instance memory v id again t
          ≡ (err (PaciNetError.fsm FsmError.already_completed), t))
unfolding advance_instance cancel_instance
finished v id again target j t e r = (
  rw (found v id j t e, r, advance_instance) refl,
  rw (found v id j t e, r, cancel_instance) refl,
)

cancel_running :
    (w : World) (id reason : String) (i : FsmInstance) (s : MemoryStorage)
    → get id s.fsm_instances ≡ some i
    → is_running i ≡ true
    → let u = update_fsm_instance (cancelled_instance w.evaluation.now reason i) s in
      cancel_instance memory w id reason s ≡ (internally w u.0, u.1)
unfolding cancel_instance
cancel_running w id reason i s e r = rw (found w id i s e, r, cancel_instance) refl

updated :
    (w : World) (id : String) (j : FsmInstance) (s : MemoryStorage)
    → j.instance_id ≡ id
    → is_some (get id s.fsm_instances) ≡ true
    → let u = update_fsm_instance j s in
      (internally w u.0 ≡ ok tt) × (get id u.1.fsm_instances ≡ some j)
unfolding update_fsm_instance
updated w id j s n e = ground (
  arith,
  contains_key-eq-is_some j.instance_id s.fsm_instances,
  get-insert j.instance_id id j s.fsm_instances,
  eq_refl id,
  eq_iff j.instance_id id,
)

-- In a valid state, cancelling a running instance succeeds and puts the cancelled instance into the store; afterwards
-- it can be neither advanced nor cancelled again, and these calls change nothing.
pub cancel_instance_lem :
    (w v : World) (id reason again : String) (target : Option String) (i : FsmInstance)
    (s : MemoryStorage)
    → IsValid s
    → get id s.fsm_instances ≡ some i
    → is_running i ≡ true
    → let t = (cancel_instance memory w id reason s).1 in
      ((cancel_instance memory w id reason s).0 ≡ ok tt)
      × (get id t.fsm_instances ≡ some (cancelled_instance w.evaluation.now reason i))
      × (advance_instance memory v id target t
          ≡ (err (PaciNetError.fsm FsmError.already_completed), t))
      × (cancel_instance memory v id again t
          ≡ (err (PaciNetError.fsm FsmError.already_completed), t))
unfolding is_running
cancel_instance_lem w v id reason again target i s h e r =
    let j = cancelled_instance w.evaluation.now reason i in
    let n : j.instance_id ≡ id =
      name_of_get (λ (x : FsmInstance). x.instance_id) id i s.fsm_instances h.instances e in
    let (a, b) = updated w id j s n (ap is_some e) in
    let c = cancel_running w id reason i s e r in
    let g = ap (λ x. get id x.1.fsm_instances) c ∙ b in
    let (p, q) =
      finished v id again target j (cancel_instance memory w id reason s).1 g not_running in
    (ap (λ x. x.0) c ∙ a, g, p, q)
  where
    not_running : is_running (cancelled_instance w.evaluation.now reason i) ≡ false
    not_running = refl
