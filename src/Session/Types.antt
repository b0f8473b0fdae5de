-- ===== src/Session/Types.antt =====
-- src/model/test_session.h, the data of a session. `D` is the type double. std::map from keys to
-- evidence is a list in the order of the keys; std::size_t is a number below `size_mod`.
use factory_test.Common.{Bool, true, false, ℕ, String, List, [], ◌∷◌, str_eq, str_lt, if◌then◌else◌}

pub data TestResult : Type 0 where
  pass fail : TestResult

pub record NamedTestResult : Type 0 where
  pub test_name : String
  pub result : TestResult

pub record TestDefinition : Type 0 where
  pub id : String
  pub name : String

pub record SessionMetadata : Type 0 where
  pub sku : String
  pub serial_number : String
  pub station : String
  pub firmware : String
  pub commit : String

-- The struct is built by its three factories only: one constructor for each.
pub data EvidenceValue (D : Type 0) : Type 0 where
  boolean : Bool → EvidenceValue D
  number : D → EvidenceValue D
  string : String → EvidenceValue D

abbrev pub TestEvidence : Type 0 → Type 0
TestEvidence D = List (String × EvidenceValue D)

pub record TestRecord (D : Type 0) : Type 0 where
  pub id : String
  pub name : String
  pub completed : Bool
  pub result : TestResult
  pub attempted : Bool
  pub attempt_count : ℕ
  pub attempt_started_at : String
  pub attempt_finished_at : String
  pub completed_at : String
  pub evidence : TestEvidence D
  pub details : List NamedTestResult

pub data SessionState : Type 0 where
  none in_progress completed abandoned : SessionState

pub record SessionSummary : Type 0 where
  pub state : SessionState
  pub total : ℕ
  pub completed : ℕ
  pub passed : ℕ
  pub failed : ℕ
  pub missing_evidence : ℕ

-- The fields of the class; the trailing underscores are left out.
pub record SessionManager (D : Type 0) : Type 0 where
  pub state : SessionState
  pub session_id : String
  pub sequence_number : ℕ
  pub started_at : String
  pub updated_at : String
  pub completed_at : String
  pub current_test_id : String
  pub session_path : String
  pub result_path : String
  pub last_error : String
  pub metadata : SessionMetadata
  pub tests : List (TestRecord D)

abbrev pub size_mod : ℕ
size_mod = 18446744073709551616

abbrev pub is_nil {ℓ} : {A : Type ℓ} → List A → Bool
is_nil [] = true
is_nil (_ ∷ _) = false

abbrev pub is_pass : TestResult → Bool
is_pass pass = true
is_pass fail = false

abbrev pub is_in_progress : SessionState → Bool
is_in_progress in_progress = true
is_in_progress _ = false

abbrev pub is_completed : SessionState → Bool
is_completed completed = true
is_completed _ = false

module _ {D : Type 0} where
  -- evidence[key] = value.
  unfoldable pub assign : String → EvidenceValue D → TestEvidence D → TestEvidence D
  assign key value [] = (key, value) ∷ []
  assign key value ((k, v) ∷ rest) =
      if str_eq k key
      then (key, value) ∷ rest
      else if str_lt key k
      then (key, value) ∷ (k, v) ∷ rest
      else (k, v) ∷ assign key value rest

  -- evidence.emplace(key, value), which keeps a value that is there.
  unfoldable pub emplace : String → EvidenceValue D → TestEvidence D → TestEvidence D
  emplace key value [] = (key, value) ∷ []
  emplace key value ((k, v) ∷ rest) =
      if str_eq k key
      then (k, v) ∷ rest
      else if str_lt key k
      then (key, value) ∷ (k, v) ∷ rest
      else (k, v) ∷ emplace key value rest

  abbrev pub has_evidence : TestRecord D → Bool
  has_evidence test = elim test.evidence [ [] ↦ false | _ ∷ _ ↦ true ]
