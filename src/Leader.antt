-- ===== src/Leader.antt =====
-- The leader lease: `try_acquire_lease` and `get_leader` of pacinet-server/src/storage/sqlite.rs on the
-- one row of the table `leader_lease`, and the election of pacinet-server/src/leader.rs. The storage is a
-- shared file, so that the controllers are separate processes: a cluster is the row with the elections
-- of all of them. The transaction begins with BEGIN IMMEDIATE, which makes each attempt one step.
pub mod Attempts
pub mod Cluster
use pacinet.Prelude.{
  ℕ, ◌+◌, ◌*◌, ◌/◌, String, ◌==◌, Bool, true, false, Option, none, some, Result, ok, err, ltb,
  if◌then◌else◌,
}
use pacinet.Model.{DateTime, Duration, nanos_per_second}
use pacinet.Error.{PaciNetError, internal}
use pacinet.Storage.State.{Answer}

-- The row of the table, whose key is always 1. The times stand in RFC 3339, which `chrono` writes and
-- reads back.
pub record LeaderLease : Type 0 where
  pub controller_id : String
  pub lease_expires_at : DateTime
  pub acquired_at : DateTime

-- The statements of one attempt that fail, each with the text of its error. A transaction that fails
-- is rolled back or not committed, and leaves the row as it was.
pub record Faults : Type 0 where
  pub begin : Option String
  pub query : Option String
  pub write : Option String
  pub commit : Option String

-- `map_err(|e| PaciNetError::Internal(e.to_string()))?`
unfoldable pub checked : {A : Type 0} → Option String → Answer A → Answer A
checked none a = a
checked (some e) a = err (internal e)

unfoldable pub lease_of : DateTime → String → ℕ → LeaderLease
lease_of now controller_id duration_secs = record {
  controller_id = controller_id;
  lease_expires_at = now + duration_secs * nanos_per_second;
  acquired_at = now;
}

-- The closure: whether the caller has the lease, by what the row says.
unfoldable pub is_granted : DateTime → String → Option LeaderLease → Bool
is_granted now controller_id none = true
is_granted now controller_id (some existing) =
    if existing.controller_id == controller_id then true else ltb existing.lease_expires_at now

unfoldable pub decide : Faults → DateTime → String → Option LeaderLease → Answer Bool
unfolding checked is_granted
decide f now controller_id existing =
    checked f.query
      (if is_granted now controller_id existing then checked f.write (ok true) else ok false)

-- What the transaction leaves: the new row if it was granted and committed.
unfoldable pub committed :
    Faults → LeaderLease → Option LeaderLease → Answer Bool → Answer Bool × Option LeaderLease
committed f l row (err e) = (err e, row)
committed f l row (ok granted) = elim f.commit [
  | some e ↦ (err (internal e), row)
  | none ↦ (ok granted, if granted then some l else row)
]

unfoldable pub try_acquire_lease :
    Faults → DateTime → String → ℕ → Option LeaderLease → Answer Bool × Option LeaderLease
unfolding decide committed lease_of
try_acquire_lease f now controller_id duration_secs row = elim f.begin [
  | some e ↦ (err (internal e), row)
  | none ↦
      committed f (lease_of now controller_id duration_secs) row (decide f now controller_id row)
]

unfoldable pub get_leader : Faults → Option LeaderLease → Answer (Option (String × DateTime))
unfolding checked
get_leader f none = checked f.query (ok none)
get_leader f (some l) = checked f.query (ok (some (l.controller_id, l.lease_expires_at)))

pub record LeaderElection : Type 0 where
  pub controller_id : String
  pub lease_duration : Duration
  pub is_leader : Bool

-- `LeaderElection::new`
unfoldable pub new : String → Duration → LeaderElection
new controller_id lease_duration = record {
  controller_id = controller_id;
  lease_duration = lease_duration;
  is_leader = false;
}

-- `flag.swap(acquired)` on an answer; an error leaves the flag.
unfoldable pub swap : Answer Bool → LeaderElection → Bool × LeaderElection
swap (ok acquired) e = (acquired, record e { is_leader = acquired })
swap (err x) e = (false, e)

-- `LeaderElection::try_acquire`, and one turn of the loop of `run`, which leaves the Boolean.
unfoldable pub try_acquire :
    Faults
    → DateTime
    → LeaderElection
    → Option LeaderLease
    → (Bool × LeaderElection) × Option LeaderLease
unfolding try_acquire_lease swap
try_acquire f now e row =
    let (answer, left) =
      try_acquire_lease f now e.controller_id (e.lease_duration / nanos_per_second) row in
    (swap answer e, left)
