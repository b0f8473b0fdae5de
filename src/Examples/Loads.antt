-- ===== src/Examples/Loads.antt =====
-- A session file that is found, read and resumed.
use factory_test.Common.{true, ℕ, [], ◌∷◌, map, some, ◌≡◌, refl}
use factory_test.Host.{Host, Entry}
use factory_test.Session.Document.{document, test_json}
use factory_test.Session.Start.{default_session_directory, has_suffix}
use factory_test.Session.Load.{
  parse_session_document, parse_tests, parse_test, parse_fields, parse_items,
}
use factory_test.Session.Latest.{candidate, latest_entry, adopt, load_latest_recoverable}
use factory_test.Session.Reading.{AllReadable, IsResumed, load_latest_recoverable-IsResumed}
use factory_test.Examples.Disk.{Disk, disk_host}
use factory_test.Examples.Inputs.{plan, under_way}

abbrev file : Entry
file = record {
  path = "/tmp/factorytest-1.session.json";
  filename = "factorytest-1.session.json";
  is_regular_file = some true;
  last_write_time = some 5;
}

-- A disk with one session file, whose text is read as the document of a session.
abbrev loading_host : Host
loading_host = record (disk_host true) {
  entries = λ w path. file ∷ [];
  parse = λ text.
      some (document (disk_host true) under_way (map (test_json (disk_host true)) under_way.tests));
}

abbrev stored : ℕ × Disk
stored = (7, ("/tmp/factorytest-1.session.json", some "{ }") ∷ [])

readable : AllReadable (loading_host.entries stored (default_session_directory loading_host))
readable = (refl, tt)

loaded : (load_latest_recoverable loading_host plan stored).success ≡ true
unfolding load_latest_recoverable latest_entry candidate has_suffix adopt parse_session_document
    parse_tests parse_test parse_fields parse_items
loaded = refl

load_latest_recoverable-IsResumed_example :
    IsResumed loading_host plan stored (load_latest_recoverable loading_host plan stored)
load_latest_recoverable-IsResumed_example =
    load_latest_recoverable-IsResumed loading_host plan stored readable loaded
