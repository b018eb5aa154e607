-- ===== src/Deploy/Options/Laws.antt =====
-- What the options of a request come to.
use mathlib.Core.Path.{subst}
use pacinet.Prelude.{
  and_true, eq_refl, sym, ap, refl, ◌∙◌, Bool-cases, Option-cases, none, some, both, ℕ, ◌<◌, String,
  ◌==◌, ◌≡◌, ◌≢◌, ◌↔◌, ◌⊎◌, inl, inr, eq_iff, Bool, true, not, ◌&&◌, arith, ok, ltb, eqb,
}
use pacinet.Text.{to_lowercase}
use pacinet.HashMap.{get}
use pacinet.Model.{Node, Policy, DateTime}
use pacinet.Deploy.Options.{
  CompileOptions, normalize_options, capability_true, require, ensure_node_capabilities,
  policy_matches_request, requested_policy, same_bool,
}

-- Options that a deployment can be made with: no number that has a default is 0, no target is empty.
pub record IsNormal (o : CompileOptions) : Type 0 where
  pub ports : 0 < o.ports
  pub dynamic_entries : 0 < o.dynamic_entries
  pub width : 0 < o.width
  pub rss_queues : 0 < o.rss_queues
  pub target : o.target ≢ ""

-- Normalising fills every missing value, and changes nothing where no value is missing.
pub normalize_options_lem :
    (o : CompileOptions) → IsNormal (normalize_options o) × (IsNormal o ↔ (normalize_options o ≡ o))
unfolding normalize_options
normalize_options_lem o = (
  ground (arith, eq_iff o.target "", eq_iff "standalone" ""),
  (ground (arith, eq_iff o.target ""), ground (arith, eq_iff o.target "", eq_iff "standalone" "")),
)

-- The node advertises the capability with a value that is `true` but for its letters' case, if the request
-- needs it.
abbrev pub Advertises : Node → Type 0 → String → Type 0
Advertises node Needed key =
    (¬ Needed) ⊎ ((v : String) × (get key node.capabilities ≡ some v) × (to_lowercase v ≡ "true"))

-- What a node must advertise for the options of a request.
pub record IsCapable (node : Node) (o : CompileOptions) : Type 0 where
  pub axi : Advertises node (o.axi ≡ true) "compile.axi"
  pub ports : Advertises node (1 < o.ports) "compile.ports"
  pub dynamic : Advertises node (o.dynamic ≡ true) "compile.dynamic"
  pub width : Advertises node (8 < o.width) "compile.width"
  pub target : Advertises node ((o.target ≢ "") × (o.target ≢ "standalone")) "compile.target"
  pub ptp : Advertises node (o.ptp ≡ true) "compile.ptp"
  pub rss : Advertises node (o.rss ≡ true) "compile.rss"
  pub rss_queues : Advertises node (o.rss_queues ≢ 4) "compile.rss_queues"
  pub int_enabled : Advertises node (o.int_enabled ≡ true) "compile.int"
  pub int_switch_id : Advertises node (o.int_switch_id ≢ 0) "compile.int_switch_id"

capability_true_iff :
    (node : Node) (key : String)
    → (capability_true node key ≡ true)
      ↔ ((v : String) × (get key node.capabilities ≡ some v) × (to_lowercase v ≡ "true"))
unfolding capability_true
capability_true_iff node key = elim (Option-cases (get key node.capabilities)) [
  | inl e ↦ rw (e, capability_true) (λ h. ground (arith, h), λ w. ground (arith, w.1))
  | inr (v, e) ↦
      rw (e, capability_true)
        (
          λ h. (v, refl, (eq_iff (to_lowercase v) "true").0 h),
          λ w.
              (eq_iff (to_lowercase v) "true").1
                (ap (λ o. to_lowercase (elim o [ none ↦ v | some x ↦ x ])) w.1 ∙ w.2),
        )
]

require_iff :
    (node : Node) (needed : Bool) (key : String)
    → (require node needed key ≡ ok tt) ↔ Advertises node (needed ≡ true) key
unfolding require
require_iff node needed key =
    let c = capability_true_iff node key in
    elim (Bool-cases (capability_true node key)) [
      | inl e ↦ (λ h. inr (c.0 e), λ h. rw (e, require) (ground arith))
      | inr e ↦ (
        λ h. inl (λ n. ground (arith, e, n, h)),
        λ h. elim h [ inl n ↦ ground (arith, n) | inr w ↦ absurd (ground (arith, e, c.1 w)) ],
      )
    ]

Advertises-iff :
    (node : Node) (key : String) {P Q : Type 0}
    → P ↔ Q
    → Advertises node P key ↔ Advertises node Q key
Advertises-iff node key e = (
  λ h. elim h [ inl n ↦ inl (λ q. n (e.1 q)) | inr c ↦ inr c ],
  λ h. elim h [ inl n ↦ inl (λ p. n (e.0 p)) | inr c ↦ inr c ],
)

trans_iff : {P Q R : Type 0} → P ↔ Q → Q ↔ R → P ↔ R
trans_iff e f = (λ p. f.0 (e.0 p), λ r. e.1 (f.1 r))

module _ (node : Node) where
  needs :
      (b : Bool) (key : String) {P : Type 0}
      → (b ≡ true) ↔ P
      → (require node b key ≡ ok tt) ↔ Advertises node P key
  needs b key e = trans_iff (require_iff node b key) (Advertises-iff node key e)

more_iff : (k n : ℕ) → (ltb k n ≡ true) ↔ (k < n)
more_iff k n = (ground arith, ground arith)

other_iff : (n k : ℕ) → (not (eqb n k) ≡ true) ↔ (n ≢ k)
other_iff n k = (ground arith, ground arith)

same_iff : (b : Bool) → (b ≡ true) ↔ (b ≡ true)
same_iff b = (λ h. h, λ h. h)

target_iff :
    (t : String)
    → (not (t == "") && not (t == "standalone") ≡ true) ↔ ((t ≢ "") × (t ≢ "standalone"))
target_iff t = (
  ground (arith, eq_iff t "", eq_iff t "standalone"),
  ground (arith, eq_iff t "", eq_iff t "standalone"),
)

-- A node may be sent a request exactly when it advertises, as true in any letters' case, every capability
-- that the request's options need.
pub ensure_node_capabilities_iff :
    (node : Node) (o : CompileOptions)
    → (ensure_node_capabilities node o ≡ ok tt) ↔ IsCapable node o
unfolding ensure_node_capabilities
ensure_node_capabilities_iff node o =
    let c = λ (b : Bool) (key : String). require node b key in
    let parts = both (c o.axi "compile.axi") _ (needs node o.axi "compile.axi" (same_iff o.axi)) (
      both (c (ltb 1 o.ports) "compile.ports") _ (needs node _ "compile.ports" (more_iff 1 o.ports))
        (both (c o.dynamic "compile.dynamic") _
          (needs node _ "compile.dynamic" (same_iff o.dynamic))
          (both (c (ltb 8 o.width) "compile.width") _
            (needs node _ "compile.width" (more_iff 8 o.width))
            (both (c (not (o.target == "") && not (o.target == "standalone")) "compile.target") _
              (needs node _ "compile.target" (target_iff o.target))
              (both (c o.ptp "compile.ptp") _ (needs node _ "compile.ptp" (same_iff o.ptp)) (
                both (c o.rss "compile.rss") _ (needs node _ "compile.rss" (same_iff o.rss)) (
                  both (c (not (eqb o.rss_queues 4)) "compile.rss_queues") _
                    (needs node _ "compile.rss_queues" (other_iff o.rss_queues 4))
                    (both (c o.int_enabled "compile.int")
                      (c (not (eqb o.int_switch_id 0)) "compile.int_switch_id")
                      (needs node _ "compile.int" (same_iff o.int_enabled))
                      (needs node _ "compile.int_switch_id"
                        (other_iff o.int_switch_id 0)))))))))) in
    (
      λ h.
          let r = parts.0 h in
          record {
            axi = r.0;
            ports = r.1.0;
            dynamic = r.1.1.0;
            width = r.1.1.1.0;
            target = r.1.1.1.1.0;
            ptp = r.1.1.1.1.1.0;
            rss = r.1.1.1.1.1.1.0;
            rss_queues = r.1.1.1.1.1.1.1.0;
            int_enabled = r.1.1.1.1.1.1.1.1.0;
            int_switch_id = r.1.1.1.1.1.1.1.1.1;
          },
      λ h. parts.1 (
        h.axi,
        (
          h.ports,
          (
            h.dynamic,
            (
              h.width,
              (h.target, (h.ptp, (h.rss, (h.rss_queues, (h.int_enabled, h.int_switch_id))))),
            ),
          ),
        ),
      ),
    )

same_true : (a b : Bool) → same_bool a b ≡ true → a ≡ b
same_true a b h = ground arith

eqb-true : (a b : ℕ) → eqb a b ≡ true → a ≡ b
eqb-true a b h = ground arith

matches_request :
    (p : Policy) (y h : String) (o : CompileOptions)
    → policy_matches_request p y h o ≡ true
    → p ≡ requested_policy p.node_id y h p.deployed_at o
unfolding policy_matches_request requested_policy
matches_request p y h o m =
    let (m1, f0) = and_true _ _ m in
    let (m2, f1) = and_true _ _ m1 in
    let (m3, f2) = and_true _ _ m2 in
    let (m4, f3) = and_true _ _ m3 in
    let (m5, f4) = and_true _ _ m4 in
    let (m6, f5) = and_true _ _ m5 in
    let (m7, f6) = and_true _ _ m6 in
    let (m8, f7) = and_true _ _ m7 in
    let (m9, f8) = and_true _ _ m8 in
    let (m10, f9) = and_true _ _ m9 in
    let (m11, f10) = and_true _ _ m10 in
    let (m12, f11) = and_true _ _ m11 in
    let (m13, f12) = and_true _ _ m12 in
    let (m14, f13) = and_true _ _ m13 in
    let (m15, f14) = and_true _ _ m14 in
    λ i. record {
      node_id = p.node_id;
      rules_yaml = ((eq_iff p.rules_yaml y).0 m15) i;
      policy_hash = ((eq_iff p.policy_hash h).0 f14) i;
      deployed_at = p.deployed_at;
      counters_enabled = (same_true p.counters_enabled o.counters f13) i;
      rate_limit_enabled = (same_true p.rate_limit_enabled o.rate_limit f12) i;
      conntrack_enabled = (same_true p.conntrack_enabled o.conntrack f11) i;
      axi_enabled = (same_true p.axi_enabled o.axi f10) i;
      ports = (eqb-true p.ports o.ports f9) i;
      target = ((eq_iff p.target o.target).0 f8) i;
      dynamic = (same_true p.dynamic o.dynamic f7) i;
      dynamic_entries = (eqb-true p.dynamic_entries o.dynamic_entries f6) i;
      width = (eqb-true p.width o.width f5) i;
      ptp = (same_true p.ptp o.ptp f4) i;
      rss = (same_true p.rss o.rss f3) i;
      rss_queues = (eqb-true p.rss_queues o.rss_queues f2) i;
      int = (same_true p.int o.int_enabled f1) i;
      int_switch_id = (eqb-true p.int_switch_id o.int_switch_id f0) i;
    }

same_self : (b : Bool) → same_bool b b ≡ true
same_self b = ground arith

eqb_self : (n : ℕ) → eqb n n ≡ true
eqb_self n = ground arith

pub matches_self :
    (n y h : String) (t : DateTime) (o : CompileOptions)
    → policy_matches_request (requested_policy n y h t o) y h o ≡ true
unfolding policy_matches_request requested_policy
matches_self n y h t o = simp (eq_refl, same_self, eqb_self)

-- A policy matches a request exactly if it is, but for its time, the policy that the request would store for the node.
pub policy_matches_request_iff :
    (p : Policy) (rules_yaml policy_hash : String) (o : CompileOptions)
    → (policy_matches_request p rules_yaml policy_hash o ≡ true)
      ↔ (p ≡ requested_policy p.node_id rules_yaml policy_hash p.deployed_at o)
policy_matches_request_iff p y h o = (
  matches_request p y h o,
  λ e.
      subst (λ q. policy_matches_request q y h o ≡ true) (sym e)
        (matches_self p.node_id y h p.deployed_at o),
)
