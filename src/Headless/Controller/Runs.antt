-- ===== src/Headless/Controller/Runs.antt =====
-- How `run_task` of scripts/headless_orchestrator/controller.py ends.
use cine_forge.Prelude.{
  ℕ, zero, suc, String, str_eq, refl, inl, inr, Bool, true, false, ◌||◌, not, Option, none, some,
  List, [], if◌then◌else◌,
}
use cine_forge.Headless.Tasks.{TaskStatus, TaskSpec, allowed}
use cine_forge.Headless.Ledger.{
  ProcessLease, Error, Call, pure, raise, ◌>>◌, record_event, transition, task_failed,
}
use cine_forge.Headless.Controller.{
  WorkerResult, ImplementationResult, World, require, obtain, is_zero, on_started, beats, verify,
  settle_report, settle_answer, attempt, is_read_only, artifact_of, test,
}
use cine_forge.Headless.Controller.Steps.{
  Unfinished, Keeps, Keeps-bind, Keeps-next, Keeps-transition, Keeps-complete, Keeps-attach,
  Keeps-heartbeat,
}

module _ (t : String) (held : List ProcessLease) (q : TaskStatus) where
  Keeps-pure : {A : Type 0} (a : A) → Keeps t held q q (pure a)
  Keeps-pure a = record { run = λ l here. here }

  Keeps-event :
      (r i event_type : String) (qs : List TaskStatus)
      → Keeps t held q q (record_event r i event_type qs)
  unfolding record_event
  Keeps-event r i event_type qs = record { run = λ l here. here }

  -- What may raise does so where the failure can be recorded.
  Keeps-raise :
      {A : Type 0} (e : Error) (q' : TaskStatus)
      → Unfinished q
      → Keeps t held q q' (raise {A = A} e)
  Keeps-raise e q' u = record { run = λ l here. (q, (here, u)) }

  Keeps-require : (b : Bool) (m : String) → Unfinished q → Keeps t held q q (require b m)
  Keeps-require true m u = Keeps-pure tt
  Keeps-require false m u = Keeps-raise _ q u

  Keeps-obtain :
      {A : Type 0} (o : Option A) (m : String) → Unfinished q → Keeps t held q q (obtain o m)
  Keeps-obtain none m u = Keeps-raise _ q u
  Keeps-obtain (some a) m u = Keeps-pure a

  Keeps-if :
      {A : Type 0} (b : Bool) (q' : TaskStatus) (m k : Call A)
      → Keeps t held q q' m
      → Keeps t held q q' k
      → Keeps t held q q' (if b then m else k)
  Keeps-if true q' m k h h' = h
  Keeps-if false q' m k h h' = h'

Unfinished-running : Unfinished TaskStatus.running
unfolding allowed
Unfinished-running = inr (inr (refl, refl))

Unfinished-received : Unfinished TaskStatus.result_received
unfolding allowed
Unfinished-received = inr (inr (refl, refl))

Unfinished-verifying : Unfinished TaskStatus.verifying
unfolding allowed
Unfinished-verifying = inr (inr (refl, refl))

module _ (w : World) (now : ℕ) (spec : TaskSpec) (held : List ProcessLease) where
  Keeps-test :
      (result : WorkerResult)
      → Keeps spec.task_id held TaskStatus.verifying TaskStatus.passed (test w now spec result)
  unfolding test
  Keeps-test result =
      let t = spec.task_id in
      let v = TaskStatus.verifying in
      let u = Unfinished-verifying in
      Keeps-bind (Keeps-obtain t held v w.tests _ u) (λ tests.
        Keeps-next (Keeps-complete t held now v result.exit_code _) (
          Keeps-next (Keeps-require t held v _ _ u) (
            Keeps-next
              (Keeps-transition t held now spec.run_id v TaskStatus.passed (unfold allowed in refl))
              (Keeps-pure t held TaskStatus.passed (artifact_of spec)))))

  Keeps-verify :
      (result : WorkerResult) (report : ImplementationResult)
      → Keeps spec.task_id held TaskStatus.verifying TaskStatus.passed
          (verify w now spec result report)
  unfolding verify
  Keeps-verify result report =
      let t = spec.task_id in
      let v = TaskStatus.verifying in
      let u = Unfinished-verifying in
      Keeps-next (Keeps-require t held v _ _ u) (
        Keeps-bind
          (Keeps-if t held v (is_read_only spec.tool_profile) v (pure [])
            (obtain w.applied "patches") (Keeps-pure t held v [])
            (Keeps-obtain t held v w.applied "patches" u))
          (λ applied. Keeps-next (Keeps-require t held v _ _ u) (
            Keeps-bind (Keeps-obtain t held v w.changed _ u) (λ changed.
              Keeps-next (Keeps-require t held v _ _ u)
                (Keeps-next (Keeps-event t held v _ _ _ _) (Keeps-test result))))))

  Keeps-settle_report :
      (result : WorkerResult) (report : ImplementationResult)
      → Keeps spec.task_id held TaskStatus.running TaskStatus.passed
          (settle_report w now spec result report)
  unfolding settle_report
  Keeps-settle_report result report =
      let t = spec.task_id in
      let r = TaskStatus.result_received in
      let p = TaskStatus.passed in
      Keeps-next (Keeps-complete t held now TaskStatus.running result.exit_code _) (
        Keeps-next
          (Keeps-transition t held now spec.run_id TaskStatus.running r (unfold allowed in refl))
          (Keeps-if t held r (str_eq report.status "completed") p _ _
            (Keeps-next
              (Keeps-transition t held now spec.run_id r TaskStatus.verifying
                (unfold allowed in refl))
              (Keeps-verify result report))
            (reported (str_eq report.status "blocked"))))
    where
      reported :
          (b : Bool)
          → Keeps {A = String × String} spec.task_id held TaskStatus.result_received
              TaskStatus.passed
              (transition now spec.run_id spec.task_id
                  (if b then TaskStatus.blocked else TaskStatus.failed)
                >> raise (task_failed "Grok reported"))
      reported true =
          Keeps-next
            (Keeps-transition spec.task_id held now spec.run_id TaskStatus.result_received
              TaskStatus.blocked (unfold allowed in refl))
            (Keeps-raise spec.task_id held TaskStatus.blocked _ TaskStatus.passed (inl refl))
      reported false =
          Keeps-next
            (Keeps-transition spec.task_id held now spec.run_id TaskStatus.result_received
              TaskStatus.failed (unfold allowed in refl))
            (Keeps-raise spec.task_id held TaskStatus.failed _ TaskStatus.passed (inr (inl refl)))

  Keeps-settle_answer :
      (result : WorkerResult) (o : Option ImplementationResult)
      → Keeps spec.task_id held TaskStatus.running TaskStatus.passed
          (settle_answer w now spec result o)
  Keeps-settle_answer result none =
      Keeps-next (Keeps-complete spec.task_id held now TaskStatus.running result.exit_code _)
        (Keeps-raise spec.task_id held TaskStatus.running _ TaskStatus.passed Unfinished-running)
  Keeps-settle_answer result (some report) = Keeps-settle_report result report

  Keeps-started :
      (o : Option ℕ)
      → Keeps spec.task_id held TaskStatus.running TaskStatus.running (on_started now spec o)
  Keeps-started none = Keeps-pure spec.task_id held TaskStatus.running tt
  Keeps-started (some pid) = Keeps-attach spec.task_id held now TaskStatus.running pid

  Keeps-beats :
      (n : ℕ) → Keeps spec.task_id held TaskStatus.running TaskStatus.running (beats now spec n)
  unfolding beats
  Keeps-beats zero = Keeps-pure spec.task_id held TaskStatus.running tt
  Keeps-beats (suc n) =
      Keeps-next (Keeps-heartbeat spec.task_id held now TaskStatus.running) (Keeps-beats n)

  pub Keeps-attempt :
      Keeps spec.task_id held TaskStatus.leased TaskStatus.passed (attempt w now spec)
  unfolding attempt
  Keeps-attempt =
      let t = spec.task_id in
      let r = TaskStatus.running in
      let p = TaskStatus.passed in
      Keeps-next
        (Keeps-transition t held now spec.run_id TaskStatus.leased r (unfold allowed in refl))
        (Keeps-next (Keeps-require t held r w.snapshot_before _ Unfinished-running) (
          Keeps-next (Keeps-started w.pid) (
            Keeps-next (Keeps-beats w.heartbeats) (
              Keeps-bind (Keeps-obtain t held r w.worker _ Unfinished-running) (λ result.
                Keeps-if t held r (not (is_zero result.exit_code) || result.timed_out) p _ _
                  (Keeps-next (Keeps-complete t held now r result.exit_code _) (
                    Keeps-next
                      (Keeps-transition t held now spec.run_id r TaskStatus.failed
                        (unfold allowed in refl))
                      (Keeps-raise t held TaskStatus.failed _ p (inr (inl refl)))))
                  (Keeps-settle_answer result w.report))))))
