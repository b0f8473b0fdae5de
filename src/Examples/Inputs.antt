-- ===== src/Examples/Inputs.antt =====
-- A session with two tests, the first one completed, and what is called on it.
use factory_test.Common.{true, false, ℕ, List, [], ◌∷◌}
use factory_test.Session.Types.{
  pass, fail, TestDefinition, SessionMetadata, EvidenceValue, TestEvidence, TestRecord,
  SessionState, SessionManager,
}
use factory_test.Session.Calls.{Call, begins, records, completes, abandons}
use factory_test.Examples.Disk.{Disk}

abbrev pub world : ℕ × Disk
world = (7, [])

abbrev pub plan : List TestDefinition
plan = record { id = "lcd"; name = "LCD test" } ∷ record { id = "ir"; name = "IR test" } ∷ []

abbrev pub metadata : SessionMetadata
metadata = record {
  sku = "CP0";
  serial_number = "1";
  station = "";
  firmware = "1.0";
  commit = "0123456789";
}

abbrev pub lcd_done : TestRecord ℕ
lcd_done = record {
  id = "lcd";
  name = "LCD test";
  completed = true;
  result = pass;
  attempted = true;
  attempt_count = 1;
  attempt_started_at = "2026-01-01T00:00:00.000Z";
  attempt_finished_at = "2026-01-01T00:00:01.000Z";
  completed_at = "2026-01-01T00:00:01.000Z";
  evidence = ("confirmed", EvidenceValue.boolean true) ∷ [];
  details = record { test_name = "red"; result = pass } ∷ [];
}

abbrev pub ir_open : TestRecord ℕ
ir_open = record {
  id = "ir";
  name = "IR test";
  completed = false;
  result = fail;
  attempted = false;
  attempt_count = 0;
  attempt_started_at = "";
  attempt_finished_at = "";
  completed_at = "";
  evidence = [];
  details = [];
}

abbrev pub ir_done : TestRecord ℕ
ir_done = record ir_open {
  completed = true;
  result = pass;
  completed_at = "2026-01-01T00:00:02.000Z";
}

abbrev pub session_with : TestRecord ℕ → SessionManager ℕ
session_with second = record {
  state = SessionState.in_progress;
  session_id = "factorytest-1";
  sequence_number = 1;
  started_at = "2026-01-01T00:00:00.000Z";
  updated_at = "2026-01-01T00:00:01.000Z";
  completed_at = "";
  current_test_id = "lcd";
  session_path = "/tmp/factorytest-1.session.json";
  result_path = "/tmp/factorytest-1.result.json";
  last_error = "";
  metadata = metadata;
  tests = lcd_done ∷ second ∷ [];
}

-- The session while its second test is open, and with both tests completed.
abbrev pub under_way : SessionManager ℕ
under_way = session_with ir_open

abbrev pub at_end : SessionManager ℕ
at_end = session_with ir_done

abbrev pub observed : TestEvidence ℕ
observed = ("frames", EvidenceValue.number 3) ∷ []

abbrev pub calls : List (Call ℕ)
calls = begins "ir" ∷ records "ir" observed ∷ completes "ir" fail [] ∷ abandons ∷ []
