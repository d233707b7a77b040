-- ===== src/Report/Native/Tests.antt =====
-- A native run of a calibration with one true and one false assertion.
use fragma.Prelude.{
  ℕ, Bool, str_eq, if◌then◌else◌, ◌≡◌, refl, true, false, List, [], ◌∷◌, none, some, ok, err,
  String,
}
use fragma.Prelude.Json.{Json, bool, int, str, arr, obj, nil, cons, pos, end, field}
use fragma.Report.Rows.{Property}
use fragma.Report.Target.{Target}
use fragma.Report.Native.{
  Surroundings, review_path, sole_row, compared, observation, observations, validated_native,
}
use fragma.Report.Native.Corroborated.{NativeSound, validated_native-NativeSound}

abbrev target : Target
target = record {
  id = "calibration_main";
  profile = some "x86_64";
  source = some "calibration.c";
  role = some "calibration";
  analysis = some "eva";
  functions = some (some "main" ∷ []);
  analysis_functions = none;
  required_properties = some (some "holds" ∷ some "fails" ∷ []);
  required_goals = [];
  expected_unresolved = [];
  expected_invalid = "fails" ∷ [];
  required_companion = none;
  companion_property_map = [];
  companion_mapping_reason = none;
  entry = some "main";
  claims = [];
  require_smoke = false;
}

abbrev assertion : String → ℕ → String → String → Property
assertion name line status outcome = record {
  path = "/src/calibration.c";
  line = line;
  function = "main";
  kind = "user assertion";
  status = status;
  outcome = outcome;
  property = name;
  names = name ∷ [];
  report_row = 1;
  exported_identity_ambiguous = false;
  exported_occurrences = [];
}

abbrev properties : List Property
properties =
    assertion "holds" 3 "Valid" "valid"
    ∷ (assertion "fails" 4 "Invalid or unreachable" "unreachable" ∷ [])

abbrev surroundings : Surroundings
surroundings = record {
  resolve = λ path. path;
  join = λ root name.
      if str_eq name "calibration.c" then "/src/calibration.c" else "/src/receipt.json";
  is_under = λ path root. true;
  target_sha256 = λ declaration. "digest";
}

abbrev seen : String → ℕ → Bool → Json
seen name line value = obj (
    field "name" (str name) (
      field "expected" (bool value) (
        field "observed" (bool value) (
          field "reached" (bool true) (
            field "function" (str "main") (
              field "line" (int (pos line)) (
                field "file" (str "calibration.c") (
                  field "acsl" (str "x == 1") (field "native_expression" (str "x == 1") end)))))))))

abbrev declaration : Json
declaration = obj (field "harness" (str "calibration.c") end)

abbrev envelope : Json
envelope = obj (
    field "status" (str "passed") (
      field "kind" (str "native-specification-calibration") (
        field "target_id" (str "calibration_main") (
          field "profile" (str "x86_64") (
            field "source" (str "calibration.c") (
              field "entry" (str "main") (
                field "target_sha256" (str "digest") (
                  field "kernel_revision" (str "b9b3e33b70b71e516930117e21de3ad2a7723747") (
                    field "source_root" (str "/src") (
                      field "receipt"
                        (obj (
                          field "path" (str "receipt.json") (
                            field "sha256"
                              (str
                                "15f94aa6220215d31f238a9f9713aea53a396186f17be7a3a0f7ed8ba4724456")
                              end)))
                        (field "properties"
                          (arr (cons (seen "holds" 3 true) (cons (seen "fails" 4 false) nil)))
                          end)))))))))))

corroborated :
    validated_native surroundings declaration target
      ("holds" ∷ ("fails" ∷ []))
      (some envelope)
      properties
    ≡ ok (("fails", assertion "fails" 4 "Invalid or unreachable" "unreachable") ∷ [])
unfolding validated_native review_path sole_row compared observation observations
corroborated = refl

-- EVA proves what the native run found to be false.
contradicted :
    validated_native surroundings declaration target
      ("holds" ∷ ("fails" ∷ []))
      (some envelope)
      (assertion "holds" 3 "Valid" "valid" ∷ (assertion "fails" 4 "Valid" "valid" ∷ []))
    ≡ err "Native false observation does not match an EVA invalid/ambiguous assertion"
unfolding validated_native review_path sole_row compared observation observations
contradicted = refl

validated_native-NativeSound_example :
    NativeSound properties
      ("fails" ∷ [])
      "main"
      ("holds" ∷ ("fails" ∷ []))
      (("fails", assertion "fails" 4 "Invalid or unreachable" "unreachable") ∷ [])
validated_native-NativeSound_example =
    validated_native-NativeSound surroundings declaration target ("holds" ∷ ("fails" ∷ [])) envelope
      properties (("fails", assertion "fails" 4 "Invalid or unreachable" "unreachable") ∷ []) "main"
      corroborated refl
