-- ===== src/Lib.antt =====
-- The factory test application of CardputerZero: its test session, its infrared codec, the factory precheck,
-- the tests of the CAP fixture and of the infrared fixture, the start menu and the configuration.
--
-- The program and the files here
--   src/model/test_session.h and .cpp, class SessionManager: the record of a test run. A session goes
--     from a start through selecting, beginning, observing and completing its tests to its end, and
--     every operation writes the whole session to its file before it reports success. The user
--     interface calls the operations; after a restart the file is what is left of the session.
--     Session/Types: the data of the header. Session/Document: the JSON documents, summary, and the
--     texts that are uploaded. Session/Manager: reset_, set_error_, find_test_, persist_,
--     write_result_, abandon, set_current_test, begin_test. Session/Progress: record_evidence,
--     complete_test, finalize. Session/Start: start_new. Session/Load and Session/Latest:
--     parse_session_document and load_latest_recoverable. The other children of Session hold proofs.
--   The same file, write_text_file_atomic: Files, as actions on the outside world that can fail, with
--     its proofs in Files/Rules and Files/Atomic.
--   src/platform/ir_service.cpp, the NEC functions: Nec, with proofs in its children; and
--     finalize_receive, with what a receiver reports: Nec/Receiving.
--   src/factory_precheck/precheck_model.h and .cpp, class PrecheckModel: Precheck, with the list of
--     checks, start, retry_failed and the worker run_. Precheck/Devices: the services that the checks
--     ask. Watches: the checks of the USB ports and of the two fixtures, whose items they mirror.
--     Checks: the others, and run_check_. Power: the constructor, cancel and the power commands. The
--     other children hold proofs.
--   src/model/cap_fixture_test_model.h and .cpp, class CapFixtureTestModel: CapFixture. Constants and
--     Types: the data and Rig, the platform's services that the test calls. Frames: the UART frames.
--     Stage: what stages are made of, with publish_, begin_item_, pass_item_ and fail_. Steps: delay_,
--     write_reg_, read_reg_ and other shared steps. Buses: the stages Power, I2C, Grove I2C and SPI.
--     Uart: UART and Grove UART. Lines: USB and GPIO. Run: the constructor, run_, cleanup_, start and
--     cancel. Outcomes, Moved, Items, Staged, Serial and the children of Frames, Steps, Uart and Run hold
--     proofs.
--   src/model/ir_fixture_test_model.h and .cpp, class IrFixtureTestModel: IrFixture. Types: the data, the
--     constants and IrRig, the services that the test calls. Steps: fail_, delay_, the random address and
--     commands, the loop that sends, and the judgement of one reply. Model: the loop that listens, the
--     rest of run_, and start. Judging, Calls, Heard, Outcomes, Replies, Shown and Ends hold proofs.
--   src/model/start_menu_model.h and .cpp, class StartMenuModel: StartMenu, with proofs in its children.
--   src/model/app_config.h and .cpp: AppConfig. Types: the data, the constants and ConfigHost, what the code
--     uses and does not implement. Reading: the readers of the fields. Atomic: write_all and write_atomic.
--     Store: class AppConfigStore with load and save. Its other children hold proofs.
--   src/serialization/serialization.h and .cpp: Serialization, the values and both printers, which
--     AppConfig uses; a text that is printed is the list of its bytes.
--   Host: what the session uses and does not implement. Json: JSON trees. Common: shared names.
--   Examples: the statements at concrete inputs, on a concrete disk (Examples/Disk) and a
--     concrete fixture (Examples/Fixture), a system for the configuration (Examples/ConfigDisk), an
--     infrared rig (Examples/IrRuns) and the precheck's services (Examples/Hardware).
--
-- How the code is read
--   An operation takes the session and the outside world and replies with its Boolean result, the
--   session and the world after it (Reply). The fields of SessionManager keep their names without the
--   trailing underscore. A null pointer from find_test_ is `none`, and a write through that pointer is
--   update_test, which changes the first test with the id. std::map is a list in the order of its keys.
--   std::size_t attempt_count wraps at 2 ^ 64. Texts are UTF-8 and compared whole: c_str() is assumed
--   to cut nothing off, and short_commit to cut between characters; a std::size_t has 64 bits. Logging is left out.
--   The clock with the texts made of an instant, double, cJSON, std::filesystem, the streams and the
--   calls of sync_file are the fields of Host. The proofs about files use FileLaws: a call changes no
--   other file, a whole write leaves its text, a rename moves or changes nothing. `allocates` says
--   whether cJSON has the memory for a tree: persist_ asks for the document and then for each test.
--   std::filesystem's exceptions are not modelled, nor the Windows branches.
--   AppConfigStore's operations take the store and the rest of the state: the number of the next
--   temporary file and the outside world. DoubleLaws are what the readers need of IEEE 754 doubles, and
--   ConfigLaws what write_atomic needs of the file system; that cJSON reads a printed document back is
--   the hypothesis Parses. The loop of write_all goes over the bytes of the text. The settings are
--   natural numbers, so a program that sets a negative one by config() is not covered. A descriptor is
--   the path that it was opened at.
--   The NEC durations are numbers below 2 ^ 32 in the code; the additions of `approx` wrap there in
--   the model too. The decoder's loops run over the four bytes, their eight bits and the start
--   indices, by structural recursion; none of them needs more rounds than it is given.
--   The precheck's operations join the worker before they do anything, so an operation is modelled up
--   to the end of the worker that it starts. Another thread can cancel at any time: each load of the
--   flag is a call of Bench that may answer either way. For run_, run_check_ is a call of Bench as well,
--   which gives the result and the details of an item; it is modelled by itself over Devices. The two
--   loops that watch a fixture have no bound in the code: they take a number of rounds, and have no
--   result after them. The wait for the camera has a round for each millisecond and one more.
--   A stage of the CAP fixture test gives `none` where the code returns false. `start` goes on to the end
--   of the worker; another thread can set the cancellation flag at any time, so that each load of it is
--   a call of Rig, as are the clock, the sleeps and the services. The loops that wait for a deadline run
--   on fuel, one round for each millisecond of the time-out and one more: a round of each sleeps or
--   delays ten milliseconds or more before the next. A loop that is out of rounds sets `overrun` of the
--   Machine, which is no state of the program. CapFixture/Timely follows the clock through a run. The infrared test is modelled in the same way: its loop that listens has a
--   round for each millisecond of the time-out and two more, delay_ one for each millisecond, and the
--   search for a random address as many draws as `start` is given, with no result after them. The
--   sockets' and ports' handles are part of the world.
--
-- Not modelled
--   The YAML reader of serialization.cpp, and the Windows branches of app_config.cpp.
--   The threads and the mutexes of the two fixture tests, and their destructors, which cancel and join.
--   The lirc devices and threads of ir_service.cpp, the views, the view models, the other models and
--   services, which are glue around hardware, processes and LVGL.
pub mod Common
pub mod Json
pub mod Serialization
pub mod Host
pub mod Files
pub mod Nec
pub mod Session
pub mod Precheck
pub mod StartMenu
pub mod AppConfig
pub mod IrFixture
pub mod CapFixture
pub mod Examples
