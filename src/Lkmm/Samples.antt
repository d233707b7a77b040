-- ===== src/Lkmm/Samples.antt =====
-- The declaration config/concurrency-c3-lkmm.json with shorter paths and scope and one digest, and a run of it: data for the
-- tests of fragma/concurrency_c3_lkmm.py.
use fragma.Prelude.{true, false, List, [], ◌∷◌, map, String, codes, text_eq, if◌then◌else◌}
use fragma.Prelude.Json.{Json, Items, Fields, bool, int, str, arr, obj, pos, nil, cons, end, field}
use fragma.Lkmm.Values.{Text}
use fragma.Lkmm.Paths.{Files, parts_of, posix}
use fragma.Lkmm.Cases.{Case}
use fragma.Lkmm.Kernel.{Pinned}
use fragma.Lkmm.Manifest.{Manifest}
use fragma.Lkmm.Run.{World, Process}
use fragma.Lkmm.Inventory.{Host}

abbrev pub sha : String
sha = "15f94aa6220215d31f238a9f9713aea53a396186f17be7a3a0f7ed8ba4724456"

abbrev pinned_file : String → Pinned
pinned_file name = record { name = name; path = parts_of (codes name); sha256 = sha }

abbrev items : List Json → Items
items [] = nil
items (value ∷ values) = cons value (items values)

abbrev fields : List (String × Json) → Fields
fields [] = end
fields ((name, value) ∷ rest) = field name value (fields rest)

abbrev texts : List String → Json
texts names = arr (items (map (λ s. str s) names))

abbrev entries : List (String × String) → Json
entries rows = obj (fields (map (λ r. (r.0, str r.1)) rows))

abbrev revision : String
revision = "b9b3e33b70b71e516930117e21de3ad2a7723747"

abbrev pub mp_once_once_json : Json
mp_once_once_json = obj (
    fields (
      ("id", (str "mp_once_once"))
      ∷ ("path", (str "litmus-tests/MP+poonceonces.litmus"))
      ∷ ("sha256", (str sha))
      ∷ ("role", (str "weakened_control"))
      ∷ ("required_operations", (texts ("READ_ONCE" ∷ "WRITE_ONCE" ∷ [])))
      ∷ ("forbidden_operations", (texts ("smp_store_release" ∷ "smp_load_acquire" ∷ "smp_mb" ∷ [])))
      ∷ (
        "expected",
        (obj (
            fields (
              ("test", (str "MP+poonceonces"))
              ∷ ("disposition", (str "Allowed"))
              ∷ ("states", (int (pos 4)))
              ∷ ("marker", (str "Ok"))
              ∷ ("positive", (int (pos 1)))
              ∷ ("negative", (int (pos 3)))
              ∷ ("flags", (arr (items ([]))))
              ∷ ("condition", (str "exists (1:r0=1 /\\ 1:r1=0)"))
              ∷ ("observation", (str "Sometimes"))
              ∷ ("hash", (str "c0ebd8ca556580d772ac73303c4c4f84"))
              ∷ []))),
      )
      ∷ []))

abbrev pub mp_release_acquire_json : Json
mp_release_acquire_json = obj (
    fields (
      ("id", (str "mp_release_acquire"))
      ∷ ("path", (str "litmus-tests/MP+pooncerelease+poacquireonce.litmus"))
      ∷ ("sha256", (str sha))
      ∷ ("role", (str "ordered_calibration"))
      ∷ (
        "required_operations",
        (texts ("READ_ONCE" ∷ "WRITE_ONCE" ∷ "smp_store_release" ∷ "smp_load_acquire" ∷ [])),
      )
      ∷ ("forbidden_operations", (texts ("smp_mb" ∷ [])))
      ∷ (
        "expected",
        (obj (
            fields (
              ("test", (str "MP+pooncerelease+poacquireonce"))
              ∷ ("disposition", (str "Allowed"))
              ∷ ("states", (int (pos 3)))
              ∷ ("marker", (str "No"))
              ∷ ("positive", (int (pos 0)))
              ∷ ("negative", (int (pos 3)))
              ∷ ("flags", (arr (items ([]))))
              ∷ ("condition", (str "exists (1:r0=1 /\\ 1:r1=0)"))
              ∷ ("observation", (str "Never"))
              ∷ ("hash", (str "f259d8efc86e0b40c7168bf58524ab49"))
              ∷ []))),
      )
      ∷ []))

abbrev pub sb_once_once_json : Json
sb_once_once_json = obj (
    fields (
      ("id", (str "sb_once_once"))
      ∷ ("path", (str "litmus-tests/SB+poonceonces.litmus"))
      ∷ ("sha256", (str sha))
      ∷ ("role", (str "weakened_control"))
      ∷ ("required_operations", (texts ("READ_ONCE" ∷ "WRITE_ONCE" ∷ [])))
      ∷ ("forbidden_operations", (texts ("smp_store_release" ∷ "smp_load_acquire" ∷ "smp_mb" ∷ [])))
      ∷ (
        "expected",
        (obj (
            fields (
              ("test", (str "SB+poonceonces"))
              ∷ ("disposition", (str "Allowed"))
              ∷ ("states", (int (pos 4)))
              ∷ ("marker", (str "Ok"))
              ∷ ("positive", (int (pos 1)))
              ∷ ("negative", (int (pos 3)))
              ∷ ("flags", (arr (items ([]))))
              ∷ ("condition", (str "exists (0:r0=0 /\\ 1:r0=0)"))
              ∷ ("observation", (str "Sometimes"))
              ∷ ("hash", (str "d2b6ca86cddfad6178a05767f57fafbf"))
              ∷ []))),
      )
      ∷ []))

abbrev pub sb_full_barrier_json : Json
sb_full_barrier_json = obj (
    fields (
      ("id", (str "sb_full_barrier"))
      ∷ ("path", (str "litmus-tests/SB+fencembonceonces.litmus"))
      ∷ ("sha256", (str sha))
      ∷ ("role", (str "ordered_calibration"))
      ∷ ("required_operations", (texts ("READ_ONCE" ∷ "WRITE_ONCE" ∷ "smp_mb" ∷ [])))
      ∷ ("forbidden_operations", (texts ("smp_store_release" ∷ "smp_load_acquire" ∷ [])))
      ∷ (
        "expected",
        (obj (
            fields (
              ("test", (str "SB+fencembonceonces"))
              ∷ ("disposition", (str "Allowed"))
              ∷ ("states", (int (pos 3)))
              ∷ ("marker", (str "No"))
              ∷ ("positive", (int (pos 0)))
              ∷ ("negative", (int (pos 3)))
              ∷ ("flags", (arr (items ([]))))
              ∷ ("condition", (str "exists (0:r0=0 /\\ 1:r0=0)"))
              ∷ ("observation", (str "Never"))
              ∷ ("hash", (str "d66d99523e2cac6b06e66f4c995ebb48"))
              ∷ []))),
      )
      ∷ []))

abbrev pub pairs_json : Json
pairs_json = arr (
    items (
      (obj (
        fields (
          ("id", (str "message_passing_release_acquire"))
          ∷ ("weakened_control", (str "mp_once_once"))
          ∷ ("ordered_calibration", (str "mp_release_acquire"))
          ∷ ("ordering_primitives", (texts ("smp_store_release" ∷ "smp_load_acquire" ∷ [])))
          ∷ ("expected_transition", (str "Sometimes->Never"))
          ∷ [])))
      ∷ (obj (
          fields (
            ("id", (str "store_buffering_full_barrier"))
            ∷ ("weakened_control", (str "sb_once_once"))
            ∷ ("ordered_calibration", (str "sb_full_barrier"))
            ∷ ("ordering_primitives", (texts ("smp_mb" ∷ [])))
            ∷ ("expected_transition", (str "Sometimes->Never"))
            ∷ [])))
      ∷ []))

abbrev pub kernel_json : Json
kernel_json = obj (
    fields (
      ("revision", (str revision))
      ∷ ("git_tree", (str revision))
      ∷ ("source_root", (str "build/linux"))
      ∷ ("source_receipt", (str "build/linux/.fragma-source.json"))
      ∷ ("model_directory", (str "build/linux/tools/memory-model"))
      ∷ ("minimum_herdtools_version", (str "7.58"))
      ∷ (
        "source_identities",
        (entries (
            ("build/linux/.fragma-source.json", sha)
            ∷ ("build/linux/tools/memory-model/README", sha)
            ∷ ("build/linux/tools/memory-model/Documentation/litmus-tests.txt", sha)
            ∷ ("build/linux/tools/memory-model/linux-kernel.cat", sha)
            ∷ ("build/linux/tools/memory-model/linux-kernel.bell", sha)
            ∷ ("build/linux/tools/memory-model/linux-kernel.cfg", sha)
            ∷ ("build/linux/tools/memory-model/linux-kernel.def", sha)
            ∷ ("build/linux/tools/memory-model/lock.cat", sha)
            ∷ [])),
      )
      ∷ []))

abbrev pub provider_json : Json
provider_json = obj (
    fields (
      ("binary", (str "/usr/bin/herd7"))
      ∷ ("binary_realpath", (str "/usr/bin/herd7"))
      ∷ ("binary_sha256", (str sha))
      ∷ ("expected_version", (str "7.58, Rev: exported"))
      ∷ ("library_directory", (str "third_party/herd/libdir"))
      ∷ (
        "library_upstream",
        (entries (
            ("repository", "https://github.com/herd/herdtools7")
            ∷ ("tag", "7.58")
            ∷ ("commit", revision)
            ∷ ("git_tree", revision)
            ∷ ("license", "CeCILL-B")
            ∷ [])),
      )
      ∷ (
        "library_identities",
        (entries (
            ("third_party/herd/LICENSE.txt", sha)
            ∷ ("third_party/herd/README.md", sha)
            ∷ ("third_party/herd/libdir/stdlib.cat", sha)
            ∷ ("third_party/herd/libdir/cross.cat", sha)
            ∷ ("third_party/herd/libdir/cos-opt.cat", sha)
            ∷ [])),
      )
      ∷ (
        "fixed_arguments",
        (texts ("-set-libdir" ∷ "{library_directory}" ∷ "-conf" ∷ "linux-kernel.cfg" ∷ [])),
      )
      ∷ []))

abbrev pub scope_json : Json
scope_json = obj (
    fields (
      ("evidence_kind", (str "semantic_calibration"))
      ∷ ("accepted_capabilities", (texts ("calibration" ∷ [])))
      ∷ (
        "exclusions",
        (texts (
            "No production function, lifetime or architecture claim, no whole-kernel proof."
            ∷ "No KLITMUS7 module." ∷ [])),
      )
      ∷ []))

abbrev pub declaration : Json
declaration = obj (
    fields (
      ("schema_version", int (pos 1))
      ∷ ("id", str "linux-lkmm-herd7-c3-calibration")
      ∷ ("kernel", kernel_json)
      ∷ ("provider", provider_json)
      ∷ ("scope", scope_json)
      ∷ ("pairs", pairs_json)
      ∷ (
        "cases",
        arr (
            items (
              mp_once_once_json ∷ mp_release_acquire_json ∷ sb_once_once_json ∷ sb_full_barrier_json
              ∷ [])),
      )
      ∷ []))

abbrev pub mp_once_once : Case
mp_once_once = record {
  id = "mp_once_once";
  path = parts_of (codes "build/linux/tools/memory-model/litmus-tests/MP+poonceonces.litmus");
  sha256 = sha;
  role = "weakened_control";
  required = ("READ_ONCE" ∷ "WRITE_ONCE" ∷ []);
  forbidden = ("smp_store_release" ∷ "smp_load_acquire" ∷ "smp_mb" ∷ []);
  expected = record {
    test = "MP+poonceonces";
    disposition = "Allowed";
    states = 4;
    marker = "Ok";
    positive = 1;
    negative = 3;
    flags = [];
    condition = "exists (1:r0=1 /\\ 1:r1=0)";
    observation = "Sometimes";
    hash = "c0ebd8ca556580d772ac73303c4c4f84";
  };
}

abbrev pub mp_release_acquire : Case
mp_release_acquire = record {
  id = "mp_release_acquire";
  path =
      parts_of
        (codes "build/linux/tools/memory-model/litmus-tests/MP+pooncerelease+poacquireonce.litmus");
  sha256 = sha;
  role = "ordered_calibration";
  required = ("READ_ONCE" ∷ "WRITE_ONCE" ∷ "smp_store_release" ∷ "smp_load_acquire" ∷ []);
  forbidden = ("smp_mb" ∷ []);
  expected = record {
    test = "MP+pooncerelease+poacquireonce";
    disposition = "Allowed";
    states = 3;
    marker = "No";
    positive = 0;
    negative = 3;
    flags = [];
    condition = "exists (1:r0=1 /\\ 1:r1=0)";
    observation = "Never";
    hash = "f259d8efc86e0b40c7168bf58524ab49";
  };
}

abbrev pub sb_once_once : Case
sb_once_once = record {
  id = "sb_once_once";
  path = parts_of (codes "build/linux/tools/memory-model/litmus-tests/SB+poonceonces.litmus");
  sha256 = sha;
  role = "weakened_control";
  required = ("READ_ONCE" ∷ "WRITE_ONCE" ∷ []);
  forbidden = ("smp_store_release" ∷ "smp_load_acquire" ∷ "smp_mb" ∷ []);
  expected = record {
    test = "SB+poonceonces";
    disposition = "Allowed";
    states = 4;
    marker = "Ok";
    positive = 1;
    negative = 3;
    flags = [];
    condition = "exists (0:r0=0 /\\ 1:r0=0)";
    observation = "Sometimes";
    hash = "d2b6ca86cddfad6178a05767f57fafbf";
  };
}

abbrev pub sb_full_barrier : Case
sb_full_barrier = record {
  id = "sb_full_barrier";
  path = parts_of (codes "build/linux/tools/memory-model/litmus-tests/SB+fencembonceonces.litmus");
  sha256 = sha;
  role = "ordered_calibration";
  required = ("READ_ONCE" ∷ "WRITE_ONCE" ∷ "smp_mb" ∷ []);
  forbidden = ("smp_store_release" ∷ "smp_load_acquire" ∷ []);
  expected = record {
    test = "SB+fencembonceonces";
    disposition = "Allowed";
    states = 3;
    marker = "No";
    positive = 0;
    negative = 3;
    flags = [];
    condition = "exists (0:r0=0 /\\ 1:r0=0)";
    observation = "Never";
    hash = "d66d99523e2cac6b06e66f4c995ebb48";
  };
}

abbrev pub manifest : Manifest
manifest = record {
  kernel = record {
    revision = revision;
    git_tree = revision;
    source_receipt = parts_of (codes "build/linux/.fragma-source.json");
    model_directory = parts_of (codes "build/linux/tools/memory-model");
    minimum_version = 7 ∷ 58 ∷ [];
    source_identities = map pinned_file (
        "build/linux/.fragma-source.json" ∷ "build/linux/tools/memory-model/README"
        ∷ "build/linux/tools/memory-model/Documentation/litmus-tests.txt"
        ∷ "build/linux/tools/memory-model/linux-kernel.cat"
        ∷ "build/linux/tools/memory-model/linux-kernel.bell"
        ∷ "build/linux/tools/memory-model/linux-kernel.cfg"
        ∷ "build/linux/tools/memory-model/linux-kernel.def"
        ∷ "build/linux/tools/memory-model/lock.cat" ∷ []);
  };
  provider = record {
    binary = "/usr/bin/herd7";
    binary_realpath = "/usr/bin/herd7";
    binary_sha256 = sha;
    expected_version = "7.58, Rev: exported";
    library_directory = parts_of (codes "third_party/herd/libdir");
    library_identities = map pinned_file (
        "third_party/herd/LICENSE.txt" ∷ "third_party/herd/README.md"
        ∷ "third_party/herd/libdir/stdlib.cat" ∷ "third_party/herd/libdir/cross.cat"
        ∷ "third_party/herd/libdir/cos-opt.cat" ∷ []);
  };
  cases = mp_once_once ∷ mp_release_acquire ∷ sb_once_once ∷ sb_full_barrier ∷ [];
  pairs =
      record {
        id = "message_passing_release_acquire";
        weakened_control = "mp_once_once";
        ordered_calibration = "mp_release_acquire";
        ordering_primitives = ("smp_store_release" ∷ "smp_load_acquire" ∷ []);
        expected_transition = "Sometimes->Never";
      }
      ∷ record {
        id = "store_buffering_full_barrier";
        weakened_control = "sb_once_once";
        ordered_calibration = "sb_full_barrier";
        ordering_primitives = ("smp_mb" ∷ []);
        expected_transition = "Sometimes->Never";
      }
      ∷ [];
}

abbrev pub outputs : List (String × String)
outputs =
    (
      "mp_once_once",
      "Test MP+poonceonces Allowed\nStates 4\n1:r0=0; 1:r1=0;\n1:r0=0; 1:r1=1;\n1:r0=1; 1:r1=0;\n1:r0=1; 1:r1=1;\nOk\nWitnesses\nPositive: 1 Negative: 3\nCondition exists (1:r0=1 /\\ 1:r1=0)\nObservation MP+poonceonces Sometimes 1 3\nTime MP+poonceonces 0.01\nHash=c0ebd8ca556580d772ac73303c4c4f84\n\n",
    )
    ∷ (
      "mp_release_acquire",
      "Test MP+pooncerelease+poacquireonce Allowed\nStates 3\n1:r0=0; 1:r1=0;\n1:r0=0; 1:r1=1;\n1:r0=1; 1:r1=0;\nNo\nWitnesses\nPositive: 0 Negative: 3\nCondition exists (1:r0=1 /\\ 1:r1=0)\nObservation MP+pooncerelease+poacquireonce Never 0 3\nTime MP+pooncerelease+poacquireonce 0.01\nHash=f259d8efc86e0b40c7168bf58524ab49\n\n",
    )
    ∷ (
      "sb_once_once",
      "Test SB+poonceonces Allowed\nStates 4\n1:r0=0; 1:r1=0;\n1:r0=0; 1:r1=1;\n1:r0=1; 1:r1=0;\n1:r0=1; 1:r1=1;\nOk\nWitnesses\nPositive: 1 Negative: 3\nCondition exists (0:r0=0 /\\ 1:r0=0)\nObservation SB+poonceonces Sometimes 1 3\nTime SB+poonceonces 0.01\nHash=d2b6ca86cddfad6178a05767f57fafbf\n\n",
    )
    ∷ (
      "sb_full_barrier",
      "Test SB+fencembonceonces Allowed\nStates 3\n1:r0=0; 1:r1=0;\n1:r0=0; 1:r1=1;\n1:r0=1; 1:r1=0;\nNo\nWitnesses\nPositive: 0 Negative: 3\nCondition exists (0:r0=0 /\\ 1:r0=0)\nObservation SB+fencembonceonces Never 0 3\nTime SB+fencembonceonces 0.01\nHash=d66d99523e2cac6b06e66f4c995ebb48\n\n",
    )
    ∷ []

abbrev pub sources : List (String × String)
sources =
    (
      "build/linux/tools/memory-model/litmus-tests/MP+poonceonces.litmus",
      "C x\n/* smp_mb() is not called: smp_store_release(x) // */ {}\nP0 {\n\tREAD_ONCE (x, 1); // smp_mb()\n\tWRITE_ONCE (x, 1); // smp_mb()\n}\n",
    )
    ∷ (
      "build/linux/tools/memory-model/litmus-tests/MP+pooncerelease+poacquireonce.litmus",
      "C x\n/* smp_mb() is not called: smp_store_release(x) // */ {}\nP0 {\n\tREAD_ONCE (x, 1); // smp_mb()\n\tWRITE_ONCE (x, 1); // smp_mb()\n\tsmp_store_release (x, 1); // smp_mb()\n\tsmp_load_acquire (x, 1); // smp_mb()\n}\n",
    )
    ∷ (
      "build/linux/tools/memory-model/litmus-tests/SB+poonceonces.litmus",
      "C x\n/* smp_mb() is not called: smp_store_release(x) // */ {}\nP0 {\n\tREAD_ONCE (x, 1); // smp_mb()\n\tWRITE_ONCE (x, 1); // smp_mb()\n}\n",
    )
    ∷ (
      "build/linux/tools/memory-model/litmus-tests/SB+fencembonceonces.litmus",
      "C x\n/* smp_mb() is not called: smp_store_release(x) // */ {}\nP0 {\n\tREAD_ONCE (x, 1); // smp_mb()\n\tWRITE_ONCE (x, 1); // smp_mb()\n\tsmp_mb (x, 1); // smp_mb()\n}\n",
    )
    ∷ (
      "build/linux/tools/memory-model/README",
      "Version 7.58 or higher. It exhaustively explores\nthe state space of small litmus tests.",
    )
    ∷ (
      "build/linux/tools/memory-model/linux-kernel.cfg",
      "macros linux-kernel.def\nbell linux-kernel.bell\nmodel linux-kernel.cat\n",
    )
    ∷ (
      "build/linux/tools/memory-model/linux-kernel.cat",
      "include \"lock.cat\"\nlet acq-po = x\nlet po-rel = y\nlet mb = z\n",
    )
    ∷ []

abbrev pub receipt_json : Json
receipt_json = obj (
    fields (
      ("revision", (str revision))
      ∷ ("git_tree", (str revision))
      ∷ ("contents_must_be_rechecked", (bool true))
      ∷ []))

abbrev entry : List (String × String) → Text → String
entry [] key = ""
entry ((name, value) ∷ rest) key =
    let found = entry rest key in if text_eq (codes name) key then value else found

abbrev pub files : Files
files = record {
  within = λ path other. true;
  is_dir = λ path. true;
  is_file = λ path. true;
  is_symlink = λ path. false;
  is_outer_file = λ path. true;
}

abbrev process : String → Process
process stdout = record { exit_ok = true; stdout = codes stdout; stderr = []; timed_out = false }

abbrev pub world : World
world = record {
  letter = λ c. false;
  read = λ path. codes (entry sources (posix path));
  sha256 = λ path. sha;
  herd = λ c. process (entry outputs (codes c.id));
}

abbrev pub host : Host
host = record {
  root = codes "/srv/fragma";
  receipt = receipt_json;
  version = process "7.58, Rev: exported\n";
  libdir = process "/usr/share/herdtools7/herd\n";
  binary_realpath = codes "/usr/bin/herd7";
  binary_sha256 = sha;
  same_place = λ directory path. false;
}
