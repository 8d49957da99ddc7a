-- ===== src/Control/Handover/Leased.antt =====
-- crates/hull-ci-control/src/control.rs: a step that is handed to a node, and its report.
use hull_ci.Base.{
  ℕ, suc, ◌+◌, ◌≤◌, max, ◌≡◌, refl, inl, inr, true, false, ◌&&◌, some, Text, text_eq, text_eq_refl,
  text_keys, get, arith, Bool-cases, Option-cases, if◌then◌else◌, ap, ◌∙◌, subst, some_inj,
}
use hull_ci.Control.StepState.{leased, can_transition_to}
use hull_ci.Control.Step.{Step, transition}
use hull_ci.Control.Job.{step_of}
use hull_ci.Control.Lease.{
  Jobs, StepReport, accepted, Reported, on_node, held_by, lapsed, record_step_report,
}
use hull_ci.Control.Lease.Once.{record_step_report-accepts, own_step}
use hull_ci.Control.Lease.Report.{step_at, step_in, step_at-put}
use hull_ci.Control.Handover.{
  Clocks, node, settle_assignment, settle_in, settled_with, assign_in, assign_step, moved_to,
  leased_to,
}

-- What a step that a node took has become.
pub record Held (s t : Step) (id : Text) (clocks : Clocks) (now : ℕ) : Type 0 where
  pub state : t.state ≡ leased
  pub holder : t.node_id ≡ some id
  pub attempts : t.attempt ≡ suc s.attempt
  pub started : t.started_at ≡ some now
  pub expires : t.lease_expires_at ≡ some (now + max clocks.lease_ttl clocks.step_timeout)
  pub same_id : t.id ≡ s.id

assign_step-Held :
    (id : Text) (clocks : Clocks) (now : ℕ) (s t : Step)
    → assign_step (node id) clocks now s ≡ some t
    → (can_transition_to s.state leased ≡ true) × Held s t id clocks now
unfolding assign_step transition leased_to
assign_step-Held id clocks now s t h = elim (Bool-cases (can_transition_to s.state leased)) [
  | inr e ↦ let bad = rw (e, moved_to) at h in absurd (ground arith)
  | inl e ↦
      let same = rw (e, moved_to) at h in
      (
        e,
        subst (λ u. Held s u id clocks now) (some_inj same)
            (record {
              state = refl;
              holder = refl;
              attempts = refl;
              started = refl;
              expires = refl;
              same_id = refl;
            }),
      )
]

-- What became of the jobs where a node took a step.
pub record Handed (jobs out : Jobs) (job_id step_id id : Text) (clocks : Clocks) (now : ℕ)
    : Type 0 where
  pub before : Step
  pub after : Step
  pub found : step_at jobs job_id step_id ≡ some before
  pub was_ready : can_transition_to before.state leased ≡ true
  pub held : Held before after id clocks now
  pub only :
      (other_job other : Text)
      → step_at out other_job other ≡ (
          if text_eq job_id other_job && text_eq step_id other
          then some after
          else step_at jobs other_job other)

-- Where a node took a step and the step moved, the step was ready and is leased now to that node, with
-- one more attempt and a lease from this instant; every other step of every job is as it was.
pub settle_assignment-Handed :
    (jobs : Jobs) (job_id step_id id : Text) (clocks : Clocks) (now : ℕ)
    → (settle_assignment jobs job_id step_id (node id) clocks now).moved ≡ true
    → Handed jobs
        (settle_assignment jobs job_id step_id (node id) clocks now).jobs
        job_id
        step_id
        id
        clocks
        now
unfolding settle_assignment step_at
settle_assignment-Handed jobs job_id step_id id clocks now h =
    elim (Option-cases (get job_id jobs)) [
      | inl e ↦ let bad = rw (e, settle_in) at h in absurd (ground arith)
      | inr (j, e) ↦ elim (Option-cases (step_of j step_id)) [
        | inl f ↦
            let bad = rw (e, settle_in, f, assign_in, settled_with) at h in absurd (ground arith)
        | inr (s, f) ↦ elim (Option-cases (assign_step (node id) clocks now s)) [
          | inl g ↦
              let bad = rw (e, settle_in, f, assign_in, g, settled_with) at h in
              absurd (ground arith)
          | inr (t, g) ↦
              let (ready, held) = assign_step-Held id clocks now s t g in
              rw (e, settle_in, f, assign_in, g, settled_with)
                (record {
                  before = s;
                  after = t;
                  found = rw (e, step_in) f;
                  was_ready = ready;
                  held = held;
                  only = step_at-put jobs job_id step_id j s t e f held.same_id;
                })
        ]
      ]
    ]

in_time : (expires later : ℕ) → later ≤ expires → lapsed (some expires) later ≡ false
unfolding lapsed
in_time expires later h = ground arith

-- A step that was handed to a node is done by that node's report, whatever its outcome, where it comes
-- before the lease ends and nothing else has happened to the step.
pub handed_report_counts :
    (jobs : Jobs) (r : StepReport) (id : Text) (clocks : Clocks) (now later : ℕ)
    → let out = settle_assignment jobs r.job_id r.step_id (node id) clocks now in
      out.moved ≡ true
      → later ≤ now + max clocks.lease_ttl clocks.step_timeout
      → (done : Reported) × (record_step_report out.jobs r id later ≡ accepted done)
unfolding on_node held_by
handed_report_counts jobs r id clocks now later moved timely =
    let h = settle_assignment-Handed jobs r.job_id r.step_id id clocks now moved in
    record_step_report-accepts _ r id later h.after
      (h.only r.job_id r.step_id ∙ own_step r h.after _) (ap on_node h.held.state)
      (rw h.held.holder (text_eq_refl id))
      (ap (λ o. lapsed o later) h.held.expires ∙ in_time _ later timely)
