-- ===== src/Leader/Attempts.antt =====
-- One attempt at the lease, and any sequence of attempts while it is held.
use pacinet.Prelude.{
  ℕ, ◌+◌, ◌*◌, ◌≤◌, ◌<◌, String, ◌≡◌, ◌≢◌, ◌↔◌, ◌⊎◌, inl, inr, refl, Bool, true, false, Option,
  none, some, List, [], ◌∷◌, ok, arith, eq_iff, Bool-cases, OptionAll, All,
}
use pacinet.Model.{DateTime, nanos_per_second}
use pacinet.Leader.{
  LeaderLease, Faults, checked, lease_of, is_granted, decide, committed, try_acquire_lease,
  get_leader,
}

abbrev pub sound : Faults
sound = record { begin = none; query = none; write = none; commit = none }

-- The lease is free for the controller at the time.
abbrev pub IsFreeFor : DateTime → String → LeaderLease → Type 0
IsFreeFor now id l = (l.controller_id ≡ id) ⊎ (l.lease_expires_at < now)

is_granted_iff :
    (now : DateTime) (id : String) (row : Option LeaderLease)
    → (is_granted now id row ≡ true) ↔ OptionAll (IsFreeFor now id) row
unfolding is_granted
is_granted_iff now id none = (λ h. tt, λ h. refl)
is_granted_iff now id (some l) = ground (arith, eq_iff l.controller_id id)

-- If no statement fails, a controller gets the lease exactly if nobody has it, if it has it itself, or if
-- the one that has it let it expire; then it is the leader until the duration has passed, and
-- otherwise the row is as it was.
pub try_acquire_lease_iff :
    (now : DateTime) (id : String) (secs : ℕ) (row : Option LeaderLease)
    → let (answer, left) = try_acquire_lease sound now id secs row in
      ((answer ≡ ok true) ↔ OptionAll (IsFreeFor now id) row)
      × (((answer ≡ ok true)
            × (left ≡ some (lease_of now id secs))
            × (get_leader sound left ≡ ok (some (id, now + secs * nanos_per_second))))
          ⊎ ((answer ≡ ok false) × (left ≡ row)))
unfolding try_acquire_lease decide committed checked get_leader lease_of
try_acquire_lease_iff now id secs row = elim (Bool-cases (is_granted now id row)) [
  | inl e ↦
      rw (e, decide) ((λ h. (is_granted_iff now id row).0 e, λ h. refl), inl (refl, refl, refl))
  | inr e ↦
      rw (e, decide)
        (
          (λ h. cc, λ h. absurd (true_and_false ((is_granted_iff now id row).1 h) e)),
          inr (refl, refl),
        )
]
  where
    true_and_false : {b : Bool} → b ≡ true → b ≡ false → ⊥
    true_and_false h k = cc

-- Whatever fails, an attempt that does not answer that the lease was acquired leaves the row as it was;
-- one that does has found it free, and leaves the caller's own lease from now on.
pub try_acquire_lease_outcome :
    (f : Faults) (now : DateTime) (id : String) (secs : ℕ) (row : Option LeaderLease)
    → let (answer, left) = try_acquire_lease f now id secs row in
      ((answer ≡ ok true) × OptionAll (IsFreeFor now id) row × (left ≡ some (lease_of now id secs)))
      ⊎ ((answer ≢ ok true) × (left ≡ row))
unfolding try_acquire_lease decide committed checked
try_acquire_lease_outcome f now id secs row = ground (arith, is_granted_iff now id row)

-- The lease is the controller's, for at least as long.
abbrev pub IsHeldBy : String → DateTime → Option LeaderLease → Type 0
IsHeldBy id until none = ⊥
IsHeldBy id until (some l) = (l.controller_id ≡ id) × (until ≤ l.lease_expires_at)

pub record Attempt : Type 0 where
  pub id : String
  pub duration_secs : ℕ
  pub now : DateTime
  pub faults : Faults

-- An attempt that comes while the lease lasts, and that does not ask for a shorter one if it is the
-- holder's own.
abbrev pub IsWithin : String → DateTime → Attempt → Type 0
IsWithin id until a =
    (a.now ≤ until) × ((a.id ≢ id) ⊎ (until ≤ a.now + a.duration_secs * nanos_per_second))

-- The attempts of any number of controllers one after another: those that were granted, and the row.
unfoldable pub attempt_all : List Attempt → Option LeaderLease → List Attempt × Option LeaderLease
unfolding try_acquire_lease
attempt_all [] row = ([], row)
attempt_all (a ∷ rest) row =
    let (answer, left) = try_acquire_lease a.faults a.now a.id a.duration_secs row in
    let (granted, last) = attempt_all rest left in
    (elim answer [ ok true ↦ a ∷ granted | _ ↦ granted ], last)

attempt-IsHeldBy :
    (id : String) (until : DateTime) (a : Attempt) (row : Option LeaderLease)
    → IsWithin id until a
    → IsHeldBy id until row
    → let (answer, left) = try_acquire_lease a.faults a.now a.id a.duration_secs row in
      IsHeldBy id until left × ((answer ≢ ok true) ⊎ (a.id ≡ id))
unfolding lease_of
attempt-IsHeldBy id until a none w h = elim h [ ]
attempt-IsHeldBy id until a (some l) w h =
    elim (try_acquire_lease_outcome a.faults a.now a.id a.duration_secs (some l)) [
      | inl (granted, free, left) ↦ rw left (ground arith)
      | inr (refused, left) ↦ rw left (h, inl refused)
    ]

-- While a controller holds the lease, nobody else is granted it: over any sequence of attempts, by any
-- controllers and with any failures, that come before it expires and of which the holder's own do not
-- shorten it, the holder keeps it, and each attempt that was granted was the holder's.
pub attempt_all-exclusive :
    (id : String) (until : DateTime) (attempts : List Attempt) (row : Option LeaderLease)
    → All (IsWithin id until) attempts
    → IsHeldBy id until row
    → IsHeldBy id until (attempt_all attempts row).1
      × All (λ a. a.id ≡ id) (attempt_all attempts row).0
unfolding attempt_all
attempt_all-exclusive id until [] row w h = (h, tt)
attempt_all-exclusive id until (a ∷ rest) row w h =
    let (held, who) = attempt-IsHeldBy id until a row w.0 h in
    let ih =
      attempt_all-exclusive id until rest
        (try_acquire_lease a.faults a.now a.id a.duration_secs row).1 w.1 held in
    ground (arith, ih, who)
