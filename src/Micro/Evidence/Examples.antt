-- ===== src/Micro/Evidence/Examples.antt =====
-- A task whose card asks for one token, with and without a citation.
use deviatdd.Prelude.{String, none, some, [], ◌∷◌, ◌≡◌, refl}
use deviatdd.Prelude.Text.{codes, text_eq}
use deviatdd.Ledger.Rows.{str, null, get, lookup}
use deviatdd.Micro.Fixtures.{task, blank, start}
use deviatdd.Micro.Action.{State}
use deviatdd.Micro.Evidence.{
  Proof, missing_evidence, test_path_not_found, bundle_of, require_tdd_completed_evidence,
  completed_evidence_bundle, Bundle, validate_item, check_paths,
}

abbrev proof : Proof (Unit {0})
proof = record {
  task_row = λ t. ("id", str t.id) ∷ [];
  task_card_text = λ t s. codes "- TSK-001-01: parse\n  - **Acceptance Criteria**: AC-PLAN-001";
  rev_parse_head = λ s. codes "def";
  is_file = λ path s. text_eq path (codes "tests/test_a.py");
  bundle_json = λ b. null;
}

abbrev citing : String → State (Unit {0})
citing path = record start {
  session = record blank {
    validated_evidence = (("ac", str "AC-PLAN-001") ∷ ("test_path", str path) ∷ []) ∷ [];
  };
}

abbrev cited : State (Unit {0})
cited = citing "tests/test_a.py"

abbrev one : Bundle
one = record {
  items =
      record {
        ac = codes "AC-PLAN-001";
        test_path = codes "tests/test_a.py";
        test_quote = [];
        impl_path = [];
        impl_quote = [];
      }
      ∷ [];
  red = codes "abc";
  green = codes "def";
  head = codes "def";
}

test_bundle : bundle_of proof task cited ≡ some (some one)
unfolding completed_evidence_bundle get lookup
test_bundle = refl

-- An item without the required `ac`
test_invalid : validate_item (("test_path", str "tests/test_a.py") ∷ []) ≡ none
unfolding validate_item
test_invalid = refl

test_uncited :
    require_tdd_completed_evidence proof task none start
    ≡ some (missing_evidence (codes "AC-PLAN-001" ∷ []))
unfolding require_tdd_completed_evidence get
test_uncited = refl

test_outside :
    check_paths proof start (
      record {
        ac = codes "AC-PLAN-001";
        test_path = codes "../tests/x.py";
        test_quote = [];
        impl_path = [];
        impl_quote = [];
      }
      ∷ [])
    ≡ some (test_path_not_found (codes "../tests/x.py"))
unfolding check_paths
test_outside = refl

test_cited : require_tdd_completed_evidence proof task (some one) cited ≡ none
unfolding require_tdd_completed_evidence get
test_cited = refl
