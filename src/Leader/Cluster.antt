-- ===== src/Leader/Cluster.antt =====
-- A cluster of controllers that share one lease, by its steps: at a time that is not before the last
-- one, some controller makes one attempt, whatever of it fails.
use pacinet.Prelude.{
  ◌+◌, ◌*◌, ◌/◌, ◌≤◌, ◌<◌, String, ◌≡◌, ◌≢◌, ◌⊎◌, inl, inr, refl, sym, ◌∙◌, Bool, true, false,
  Option, none, some, OptionAll, [], ok, err, arith, ne_test, ap, false≢true,
}
use mathlib.Core.Path.{subst}
use native.Mathlib.Decide.{dec_lt}
use pacinet.HashMap.{HashMap, get, insert}
use pacinet.HashMap.Laws.{get-insert, get-insert_source, get-insert_self}
use pacinet.Model.{DateTime, nanos_per_second}
use pacinet.Storage.State.{Answer}
use pacinet.Leader.{
  LeaderLease, Faults, LeaderElection, new, swap, lease_of, try_acquire_lease, try_acquire,
}
use pacinet.Leader.Attempts.{try_acquire_lease_outcome, IsFreeFor}

-- The elections by their controllers, the shared row, and the latest time. `granted` is what the last
-- granted attempt of each controller was told about the end of its lease, which the code does not keep.
pub record Cluster : Type 0 where
  pub elections : HashMap LeaderElection
  pub row : Option LeaderLease
  pub clock : DateTime
  pub granted : HashMap DateTime

unfoldable pub told : Answer Bool → String → DateTime → HashMap DateTime → HashMap DateTime
told (ok true) id until m = insert id until m
told (ok false) id until m = m
told (err e) id until m = m

-- The attempt of one election.
unfoldable pub attempted : Faults → DateTime → LeaderElection → Cluster → Cluster
unfolding try_acquire told
attempted f now e c = record {
  elections = insert e.controller_id (try_acquire f now e c.row).0.1 c.elections;
  row = (try_acquire f now e c.row).1;
  clock = now;
  granted =
      told (try_acquire_lease f now e.controller_id (e.lease_duration / nanos_per_second) c.row).0
        e.controller_id (now + (e.lease_duration / nanos_per_second) * nanos_per_second) c.granted;
}

-- A controller comes up, or comes up again after a crash with its flag down, or makes an attempt.
pub data Step (c : Cluster) : Cluster → Type 0 where
  join :
      (id : String) (d : DateTime)
      → Step c (record c { elections = insert id (new id d) c.elections })
  attempt :
      (f : Faults) (now : DateTime) (id : String) (e : LeaderElection)
      → get id c.elections ≡ some e
      → c.clock ≤ now
      → Step c (attempted f now e c)

-- No controller has come up, and nobody has the lease.
abbrev pub initial : Cluster
initial = record { elections = []; row = none; clock = 0; granted = [] }

pub data Reach : Cluster → Type 0 where
  start : Reach initial
  later : {c d : Cluster} → Reach c → Step c d → Reach d

-- The row is the controller's, until the time.
abbrev pub IsRowOf : String → DateTime → Option LeaderLease → Type 0
IsRowOf id t none = ⊥
IsRowOf id t (some l) = (l.controller_id ≡ id) × (l.lease_expires_at ≡ t)

record IsLeased (c : Cluster) : Type 0 where
  keyed : (id : String) (e : LeaderElection) → get id c.elections ≡ some e → e.controller_id ≡ id
  leads :
      (id : String) (e : LeaderElection)
      → get id c.elections ≡ some e
      → e.is_leader ≡ true
      → (t : DateTime) × (get id c.granted ≡ some t)
  current :
      (id : String) (t : DateTime) → get id c.granted ≡ some t → c.clock ≤ t → IsRowOf id t c.row

-- A row that the attempt finds free and that is current at its time is the attempt's own.
own_row :
    (now : DateTime) (a id : String) (t : DateTime) (row : Option LeaderLease)
    → OptionAll (IsFreeFor now a) row
    → IsRowOf id t row
    → now ≤ t
    → a ≡ id
own_row now a id t none free r h = elim r [ ]
own_row now a id t (some l) (inl e) r h = cc
own_row now a id t (some l) (inr e) r h = absurd (ground arith)

insert-keyed :
    (e : LeaderElection) (m : HashMap LeaderElection)
    → ((i : String) (x : LeaderElection) → get i m ≡ some x → x.controller_id ≡ i)
    → (j : String) (k : LeaderElection) → get j (insert e.controller_id e m) ≡ some k
    → k.controller_id ≡ j
insert-keyed e m h j k q = elim (get-insert_source e.controller_id j e k m q) [
  | inl (same, v) ↦ ap (λ x. x.controller_id) (sym v) ∙ same
  | inr (other, old) ↦ h j k old
]

module _ (e : LeaderElection) (now t : DateTime) (l : LeaderLease) (c : Cluster) where
  -- The cluster after an answer to the election `e`.
  answered : Answer Bool → Option LeaderLease → Cluster
  answered a row = record {
    elections = insert e.controller_id (swap a e).1 c.elections;
    row = row;
    clock = now;
    granted = told a e.controller_id t c.granted;
  }

  granted-IsLeased :
      IsLeased c
      → c.clock ≤ now
      → OptionAll (IsFreeFor now e.controller_id) c.row
      → l.controller_id ≡ e.controller_id
      → l.lease_expires_at ≡ t
      → IsLeased (answered (ok true) (some l))
  unfolding answered swap told
  granted-IsLeased h le free own ends = record {
    keyed = insert-keyed _ c.elections h.keyed;
    leads = λ j k q m. elim (get-insert_source e.controller_id j _ k c.elections q) [
      | inl (same, v) ↦ (t, rw (sym same) (get-insert_self e.controller_id t c.granted))
      | inr (other, old) ↦ simp (get-insert, ne_test e.controller_id j other) (h.leads j k old m)
    ];
    current = λ j u q m. elim (get-insert_source e.controller_id j t u c.granted q) [
      | inl (same, v) ↦ (own ∙ same, ends ∙ v)
      | inr (other, old) ↦ absurd (
          other (
            own_row now e.controller_id j u c.row free (h.current j u old (omega (arith, le, m)))
              m))
    ];
  }

  refused-IsLeased :
      (a : Answer Bool)
      → a ≢ ok true
      → IsLeased c
      → get e.controller_id c.elections ≡ some e
      → c.clock ≤ now
      → IsLeased (answered a c.row)
  unfolding answered swap told
  refused-IsLeased (ok true) refused h g le = absurd (refused refl)
  refused-IsLeased (ok false) refused h g le = record {
    keyed = insert-keyed _ c.elections h.keyed;
    leads = λ j k q m. elim (get-insert_source e.controller_id j _ k c.elections q) [
      | inl (same, v) ↦ absurd (false≢true (ap (λ x. x.is_leader) v ∙ m))
      | inr (other, old) ↦ h.leads j k old m
    ];
    current = λ j u q m. h.current j u q (omega (arith, le, m));
  }
  refused-IsLeased (err x) refused h g le = record {
    keyed = insert-keyed _ c.elections h.keyed;
    leads = λ j k q m. elim (get-insert_source e.controller_id j _ k c.elections q) [
      | inl (same, v) ↦ h.leads j k (subst (λ i. get i c.elections ≡ some k) same (g ∙ ap some v)) m
      | inr (other, old) ↦ h.leads j k old m
    ];
    current = λ j u q m. h.current j u q (omega (arith, le, m));
  }

Step-IsLeased : {c d : Cluster} → Step c d → IsLeased c → IsLeased d
unfolding attempted try_acquire lease_of new answered
Step-IsLeased {c} (join id d) h = record {
  keyed = insert-keyed (new id d) c.elections h.keyed;
  leads = λ j k q m. elim (get-insert_source id j _ k c.elections q) [
    | inl (same, v) ↦ absurd (false≢true (ap (λ x. x.is_leader) v ∙ m))
    | inr (other, old) ↦ h.leads j k old m
  ];
  current = h.current;
}
Step-IsLeased {c} (attempt f now id e g le) h =
    let secs = e.lease_duration / nanos_per_second in
    let own = subst (λ i. get i c.elections ≡ some e) (sym (h.keyed id e g)) g in
    elim (try_acquire_lease_outcome f now e.controller_id secs c.row) [
      | inl (granted, free, left) ↦
          rw (granted, left)
            (granted-IsLeased e now (now + secs * nanos_per_second)
              (lease_of now e.controller_id secs) c h le free refl refl)
      | inr (refused, left) ↦ rw left (
          refused-IsLeased e now (now + secs * nanos_per_second) (lease_of now e.controller_id secs)
            c _ refused h own le)
    ]

none≢some : {A : Type 0} {a : A} → none ≡ some a → ⊥
none≢some h = cc

Reach-IsLeased : {c : Cluster} → Reach c → IsLeased c
unfolding get
Reach-IsLeased start = record {
  keyed = λ j k q. absurd (none≢some q);
  leads = λ j k q m. absurd (none≢some q);
  current = λ j t q m. absurd (none≢some q);
}
Reach-IsLeased (later r st) = Step-IsLeased st (Reach-IsLeased r)

IsRowOf-unique :
    (a b : String) (t u : DateTime) (row : Option LeaderLease)
    → IsRowOf a t row
    → IsRowOf b u row
    → a ≡ b
IsRowOf-unique a b t u none p q = elim p [ ]
IsRowOf-unique a b t u (some l) p q = sym p.0 ∙ q.0

-- In every cluster that comes about from the empty one, by controllers that come up or crash and
-- by attempts of which any statement fails: a controller whose flag is up was granted the lease until some
-- time, and of two different controllers whose flags are up one has let that time pass.
pub Reach-one_leader :
    {c : Cluster} (a b : String) (e k : LeaderElection)
    → Reach c
    → get a c.elections ≡ some e
    → get b c.elections ≡ some k
    → e.is_leader ≡ true
    → k.is_leader ≡ true
    → (t u : DateTime) × (get a c.granted ≡ some t)
      × (get b c.granted ≡ some u)
      × ((a ≡ b) ⊎ (t < c.clock) ⊎ (u < c.clock))
Reach-one_leader {c} a b e k r ga gb fa fb =
    let h = Reach-IsLeased r in
    let (t, gt) = h.leads a e ga fa in
    let (u, gu) = h.leads b k gb fb in
    (
      t,
      u,
      gt,
      gu,
      elim (dec_lt t c.clock) [
        | yes p ↦ inr (inl p)
        | no p ↦ elim (dec_lt u c.clock) [
          | yes q ↦ inr (inr q)
          | no q ↦ inl (
              IsRowOf-unique a b t u c.row (h.current a t gt (omega (arith, p)))
                (h.current b u gu (omega (arith, q))))
        ]
      ],
    )
