-- ===== src/Dag/Samples.antt =====
-- Small workflows for the tests.
use agent_exec_engine.Prelude.{IsOrder, String, refl, List, [], ◌∷◌, none}
use agent_exec_engine.Prelude.Int.{pos}
use agent_exec_engine.Types.{StepType, llm_call, Step}

abbrev pub step_of : String → StepType → List String → Step
step_of id type deps = record {
  id = id;
  name = id;
  type = type;
  depends_on = deps;
  config = [];
  tool_name = "";
  timeout = pos 0;
  retry = none;
  condition = "";
  metadata = [];
}

-- `c` depends on `a` and on `b`, which depends on `a`.
abbrev pub triangle : List Step
triangle =
    step_of "c" llm_call ("a" ∷ "b" ∷ [])
    ∷ step_of "a" llm_call []
    ∷ step_of "b" llm_call ("a" ∷ [])
    ∷ []

abbrev pub loop : List Step
loop = step_of "a" llm_call ("b" ∷ []) ∷ step_of "b" llm_call ("a" ∷ []) ∷ []

-- The entries of a map in the order of their insertion.
abbrev pub in_order : List String → List String
in_order xs = xs

pub in_order-IsOrder : IsOrder in_order
in_order-IsOrder = record { counts = λ xs k. refl }
