-- ===== src/Examples/Sessions.antt =====
-- The operations of a session on a concrete one.
use factory_test.Common.{
  true, false, String, ◌⊎◌, [], some, ◌≡◌, ◌↔◌, ◌≤◌, refl, inr, arith, length, All,
}
use factory_test.Session.Types.{fail}
use factory_test.Session.Document.{print_json, all_allocate, build_result_json, session_passed}
use factory_test.Session.Manager.{
  reply, set_error, next_incomplete_index, next_incomplete, active_test, find_test, update_test,
  attempt_begun, abandon, begin_test, persist, or_restore, write_result, session_document,
}
use factory_test.Files.{write_text_file_atomic, check, require, attempt}
use factory_test.Session.Progress.{
  first_attempt, evidence_added, is_valid_evidence, record_evidence, finalize, complete_test,
}
use factory_test.Session.Start.{default_session_directory, is_valid_plan, open_session, start_new}
use factory_test.Session.Saving.{Outcome, persist-Outcome}
use factory_test.Session.Effects.{Effect, Undone, begin_test-Effect, record_evidence-Effect}
use factory_test.Session.Endings.{SessionApart, Finalized}
use factory_test.Session.Finish.{PathsApart, finalize-End, finalize-result}
use factory_test.Session.Completion.{with_completed, Completion, complete_test-Completion}
use factory_test.Session.Summary.{AllPassed, session_passed_iff}
use factory_test.Session.Calls.{begins, Changes, apply, run}
use factory_test.Session.Changes.{apply-Changes}
use factory_test.Session.Soundness.{IsSound}
use factory_test.Session.Histories.{run-IsSound}
use factory_test.Session.Plans.{
  IsNamed, AllDifferent, IsStarted, plan_ids, start_new-IsStarted, IsPlan, replace_session,
  start_new-IsPlan,
}
use factory_test.Examples.Disk.{host, disk_laws}
use factory_test.Examples.Inputs.{
  world, plan, metadata, lcd_done, ir_open, under_way, at_end, observed, calls,
}

under_way-IsSound : IsSound under_way
unfolding find_test active_test
under_way-IsSound = record {
  records = ((λ e. cc, λ e. cc), ((λ e. (refl, refl), λ e. (refl, refl, refl)), tt));
  done = λ e. cc;
  current = inr (lcd_done, refl);
}

ir-found : active_test under_way "ir" ≡ some ir_open
unfolding find_test active_test
ir-found = refl

paths-apart : PathsApart at_end
paths-apart = (λ e. cc, λ e. cc)

session-apart : SessionApart at_end
session-apart = (λ e. cc, λ e. cc)

under_way-apart : SessionApart under_way
under_way-apart = (λ e. cc, λ e. cc)

at_end-all : length at_end.tests ≤ next_incomplete_index at_end
unfolding next_incomplete
at_end-all = omega arith

finalized : (finalize host at_end world).success ≡ true
unfolding finalize next_incomplete or_restore write_result build_result_json write_text_file_atomic
    check require attempt persist session_document all_allocate
finalized = refl

observed-valid : is_valid_evidence host observed ≡ true
unfolding is_valid_evidence
observed-valid = refl

run-IsSound_example : IsSound (run host under_way calls world).0
run-IsSound_example = run-IsSound host disk_laws under_way calls world under_way-IsSound

apply-Changes_example :
    Changes host (begins "ir") under_way (apply host under_way (begins "ir") world).session
apply-Changes_example = apply-Changes host disk_laws under_way (begins "ir") world

begin_test-Effect_example :
    (time : String) × Effect host under_way
      (record under_way {
        current_test_id = "ir";
        tests = update_test "ir" (attempt_begun host time) under_way.tests;
        updated_at = time;
      })
      world
      (begin_test host under_way "ir" world)
begin_test-Effect_example =
    begin_test-Effect host disk_laws under_way "ir" world {test = ir_open} ir-found refl

record_evidence-Effect_example :
    (time : String) × Effect host under_way
      (record under_way {
        tests =
            update_test "ir"
              (λ t. evidence_added host observed ((first_attempt host ir_open world).0 t))
              under_way.tests;
        updated_at = time;
      })
      world
      (record_evidence host under_way "ir" observed world)
record_evidence-Effect_example =
    record_evidence-Effect host disk_laws under_way "ir" observed world {test = ir_open} ir-found
      refl refl observed-valid

complete_test-Completion_example :
    Completion host under_way
      (with_completed host under_way "ir" fail [] "2026-01-01T00:00:00.000Z")
      world
      (complete_test host under_way "ir" fail [] world)
complete_test-Completion_example =
    complete_test-Completion host disk_laws under_way "ir" fail [] world {test = ir_open}
      under_way-apart ir-found

finalize-End_example :
    Finalized host at_end (finalize host at_end world)
    ⊎ Undone host at_end world (finalize host at_end world)
finalize-End_example = finalize-End host disk_laws at_end world session-apart refl at_end-all

finalize-result_example :
    host.contents (finalize host at_end world).world at_end.result_path
    ≡ some (build_result_json host (finalize host at_end world).session true)
finalize-result_example =
    finalize-result host disk_laws at_end world paths-apart refl at_end-all finalized

session_passed_iff_example : (session_passed under_way ≡ true) ↔ AllPassed under_way.tests
session_passed_iff_example = session_passed_iff under_way

start_new-IsPlan_example :
    (IsPlan host disk_laws plan
      × (start_new host under_way plan metadata world
          ≡ replace_session host disk_laws under_way plan metadata world))
    ⊎ ((¬ IsPlan host disk_laws plan)
        × (error : String) × (start_new host under_way plan metadata world
            ≡ reply host false (set_error under_way error) world))
start_new-IsPlan_example = start_new-IsPlan host disk_laws under_way plan metadata world

started : (start_new host under_way plan metadata world).success ≡ true
unfolding start_new is_valid_plan abandon open_session or_restore write_text_file_atomic check
    require attempt persist session_document all_allocate print_json default_session_directory
started = refl

start_new-IsStarted_example :
    All IsNamed plan
    × AllDifferent (plan_ids plan)
    × IsStarted host disk_laws plan (start_new host under_way plan metadata world)
start_new-IsStarted_example =
    start_new-IsStarted host disk_laws under_way plan metadata world started

persist-Outcome_example : Outcome host under_way world (persist host under_way world)
persist-Outcome_example = persist-Outcome host disk_laws under_way world
