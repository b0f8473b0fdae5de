-- ===== src/Examples/Written.antt =====
-- Files that are written to a concrete disk.
use factory_test.Common.{
  ℕ, String, ◌∷◌, [], some, true, false, ◌≡◌, ◌≢◌, refl, sym, ◌∙◌, str_eq, str_eq_iff,
}
use factory_test.Files.{ok, err, write_text_file_atomic, check, require, attempt}
use factory_test.Files.Atomic.{write_text_file_atomic-error}
use factory_test.Examples.Disk.{Disk, host, full_host, full_laws}

differ : (s t : String) → str_eq s t ≡ false → s ≢ t
differ s t e same = (let bad : false ≡ true = sym e ∙ (str_eq_iff s t).1 same in cc)

abbrev old : ℕ × Disk
old = (7, ("a.json", some "old") ∷ [])

written : (write_text_file_atomic host "a.json" "new" old).0 ≡ ok tt
unfolding write_text_file_atomic check require attempt
written = refl

full :
    (write_text_file_atomic full_host "a.json" "new" old).0
    ≡ err "failed to write temporary session file"
unfolding write_text_file_atomic check require attempt
full = refl

write_text_file_atomic-error_example :
    full_host.contents (write_text_file_atomic full_host "a.json" "new" old).1 "a.json"
    ≡ full_host.contents old "a.json"
write_text_file_atomic-error_example =
    write_text_file_atomic-error full_host full_laws "a.json" "new" old
      "failed to write temporary session file" full
