-- ===== src/Control/Lease/Once.antt =====
-- crates/hull-ci-control/src/control.rs: a step has one report that counts.
use hull_ci.Base.{
  ℕ, ◌≡◌, refl, inl, inr, ◌⊎◌, true, false, ◌&&◌, Option, some, Text, text_eq, text_eq_refl,
  text_keys, get, arith, Option-cases, if◌then◌else◌, subst,
}
use hull_ci.Proto.Paths.{tenant_of}
use hull_ci.Control.Step.{Step}
use hull_ci.Control.Job.{Job, step_of}
use hull_ci.Control.Lease.{
  Jobs, StepReport, Answer, accepted, rejected, ReportRejected, on_node, held_by, lapsed,
  log_prefix, report_step, record_step_report, report_to, report_in_job, put_reported, Reported,
  memo_outcome, memo_write,
}
use hull_ci.Control.Lease.Report.{
  Counted, report_step-Counted, step_at, step_in, step_at-put, accepted_inj, report_step-accepts,
}

-- What a report that counts found, and what it leaves.
pub record Accepted (jobs : Jobs) (r : StepReport) (from : Text) (now : ℕ) (out : Reported)
    : Type 0 where
  pub job : Job
  pub before : Step
  pub after : Step
  pub known : get r.job_id jobs ≡ some job
  pub found : step_of job r.step_id ≡ some before
  pub counted : Counted r from (log_prefix job.dispatch) now before after
  pub only :
      (job_id id : Text)
      → step_at out.0 job_id id ≡ (
          if text_eq r.job_id job_id && text_eq r.step_id id
          then some after
          else step_at jobs job_id id)
  pub memo :
      out.1 ≡ memo_write (tenant_of job.dispatch.repo) after.memo_key (memo_outcome after.state)

Answer-cases {ℓ} :
    {A : Type ℓ} (a : Answer A)
    → ((e : ReportRejected) × (a ≡ rejected e)) ⊎ ((x : A) × (a ≡ accepted x))
Answer-cases (accepted x) = inr (x, refl)
Answer-cases (rejected e) = inl (e, refl)

-- A report that counts is the report of the node that holds the step's lease, in time, of a step that
-- is on a node. It gives that step the state of its outcome, and a log key only if that was reported,
-- is a path of names and stands under the job's prefix; every other step of every job is as it was.
pub record_step_report-Accepted :
    (jobs : Jobs) (r : StepReport) (from : Text) (now : ℕ) (out : Reported)
    → record_step_report jobs r from now ≡ accepted out
    → Accepted jobs r from now out
unfolding record_step_report put_reported
record_step_report-Accepted jobs r from now out h = elim (Option-cases (get r.job_id jobs)) [
  | inl e ↦ absurd (ground arith)
  | inr (j, e) ↦ elim (Option-cases (step_of j r.step_id)) [
    | inl f ↦ absurd (ground arith)
    | inr (s, f) ↦
        let h' = rw (e, report_to, f, report_in_job) at h in
        elim (Answer-cases (report_step r from (log_prefix j.dispatch) now s)) [
          | inl (x, g) ↦ let bad = rw (g, put_reported) at h' in absurd (ground arith)
          | inr (t, g) ↦
              let c = report_step-Counted r from (log_prefix j.dispatch) now s t g in
              subst (Accepted jobs r from now) (accepted_inj (rw (g, put_reported) at h')) (record {
                job = j;
                before = s;
                after = t;
                known = e;
                found = f;
                counted = c;
                only = step_at-put jobs r.job_id r.step_id j s t e f c.same_id;
                memo = refl;
              })
        ]
  ]
]

pub own_step :
    (r : StepReport) (t : Step) (o : Option Step)
    → (if text_eq r.job_id r.job_id && text_eq r.step_id r.step_id then some t else o) ≡ some t
own_step r t o = rw (text_eq_refl r.job_id, text_eq_refl r.step_id) refl

-- The report of the node that holds the lease of a step on it counts while the lease lasts.
pub record_step_report-accepts :
    (jobs : Jobs) (r : StepReport) (from : Text) (now : ℕ) (s : Step)
    → step_at jobs r.job_id r.step_id ≡ some s
    → on_node s.state ≡ true
    → held_by s.node_id from ≡ true
    → lapsed s.lease_expires_at now ≡ false
    → (out : Reported) × (record_step_report jobs r from now ≡ accepted out)
unfolding record_step_report step_at put_reported
record_step_report-accepts jobs r from now s h placed holder timely =
    elim (Answer-cases (record_step_report jobs r from now)) [
      | inr done ↦ done
      | inl (x, refused) ↦ elim (Option-cases (get r.job_id jobs)) [
        | inl e ↦ let bad = rw (e, step_in) at h in absurd (ground arith)
        | inr (j, e) ↦
            let found = rw (e, step_in) at h in
            let g = report_step-accepts r from (log_prefix j.dispatch) now s placed holder timely in
            let bad = rw (e, report_to, found, report_in_job, g, put_reported) at refused in
            absurd (ground arith)
      ]
    ]
