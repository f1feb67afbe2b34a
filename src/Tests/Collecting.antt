-- ===== src/Tests/Collecting.antt =====
-- A directory with a firmware of build output, and one with a surprise: services/worker/src/collect-artifact.ts.
use Prim.Native.String.{◌++◌ as append}
use qmk_web_app.Common.{ℕ, String, String-discrete, true, false, List, [], ◌∷◌, ◌≡◌, refl}
use qmk_web_app.Common.Attempt.{done, thrown}
use qmk_web_app.Common.Texts.{text_length}
use qmk_web_app.Worker.Collect.{
  CollectedArtifact, Entry, unexpected_files, not_produced, multiple_files, empty_file, underscored,
  expected_target_name, ends_with, expected_extension, is_firmware_name, sort_out, read_artifact,
  sole_artifact, collect_artifact,
}
use qmk_web_app.Worker.Collect.Sole.{IsExpected, IsReadFrom, firmware_files, collect_artifact-Sole}

abbrev digest_of : String → String
digest_of contents = append "sha-" contents

abbrev file : (name contents : String) (size : ℕ) → Entry
file name contents size = record { name = name; is_file = true; size = size; contents = contents }

abbrev a_directory : List Entry
a_directory =
    record { name = "keyboards"; is_file = false; size = 64; contents = "" }
    ∷ file "qmk.json" "{}" 2
    ∷ file "acme_k1_web.uf2" "UF2" 3
    ∷ file "make.log" "ok" 2
    ∷ []

abbrev the_firmware : CollectedArtifact
the_firmware = record {
  filename = "acme_k1_web.uf2";
  extension = "uf2";
  byte_size = 3;
  sha256 = "sha-UF2";
  content_type = "application/octet-stream";
  contents = "UF2";
}

collected : collect_artifact text_length digest_of a_directory "acme/k1" "web" ≡ done the_firmware
unfolding collect_artifact sole_artifact read_artifact sort_out expected_extension is_firmware_name
    ends_with expected_target_name underscored text_length String-discrete
collected = refl

-- A second firmware under another name is refused, and so is a second format, none, or an empty one.
surprise :
    collect_artifact text_length digest_of (file "other.hex" "x" 1 ∷ a_directory) "acme/k1" "web"
    ≡ thrown (unexpected_files ("other.hex" ∷ []))
unfolding collect_artifact sole_artifact read_artifact sort_out expected_extension is_firmware_name
    ends_with expected_target_name underscored text_length String-discrete
surprise = refl

two_formats :
    collect_artifact text_length digest_of
      (file "acme_k1_web.hex" "x" 1 ∷ a_directory)
      "acme/k1"
      "web"
    ≡ thrown (multiple_files ("acme_k1_web.hex" ∷ "acme_k1_web.uf2" ∷ []))
unfolding collect_artifact sole_artifact read_artifact sort_out expected_extension is_firmware_name
    ends_with expected_target_name underscored text_length String-discrete
two_formats = refl

nothing :
    collect_artifact text_length digest_of [] "acme/k1" "web" ≡ thrown (not_produced "acme_k1_web")
unfolding collect_artifact sole_artifact sort_out expected_target_name underscored
nothing = refl

an_empty_file :
    collect_artifact text_length digest_of (file "k_web.bin" "" 0 ∷ []) "k" "web"
    ≡ thrown empty_file
unfolding collect_artifact sole_artifact read_artifact sort_out expected_extension is_firmware_name
    ends_with expected_target_name underscored String-discrete
an_empty_file = refl

collect_artifact-Sole_example :
    (e : Entry) × (firmware_files a_directory ≡ e ∷ [])
    × IsExpected (expected_target_name "acme/k1" "web") "uf2" "acme_k1_web.uf2"
    × IsReadFrom text_length digest_of e the_firmware
collect_artifact-Sole_example =
    collect_artifact-Sole text_length digest_of a_directory "acme/k1" "web" the_firmware collected
