-- ===== src/Model/History/Tree.antt =====
-- The tree of spans over histories of a trace.
use oida.Prelude.{Text, ℕ, List}
use oida.Model.Data.{Value, Trace, TraceOptions}
use oida.Model.Recording.{new_trace}
use oida.Model.History.{
  Call, enters, fails, starts, ends, fails_span, marks_debug, writes, responds, details,
  details_span, finishes, step, run, run-keeps,
}
use oida.Model.History.Shape.{IsTree}
use oida.Model.History.Keeping.{
  Apart-Keeps, set_state-Apart, record_error-Apart, append_log-Apart, end_span-Keeps, finish-Keeps,
  record_span_error-Keeps, set_debug-Keeps, set_response-Apart, describe-Apart, describe_span-Keeps,
}
use oida.Model.History.Growing.{Keeps-IsTree, append_span-IsTree, new_trace-IsTree}

module _ (sprint : Value → Text) where
  -- Every call keeps the spans a tree.
  step-IsTree : (raw : ℕ) (c : Call) (t : Trace) → IsTree t → IsTree (step sprint raw c t)
  unfolding step
  step-IsTree raw (enters s) t v = Keeps-IsTree (Apart-Keeps (set_state-Apart raw s t)) v
  step-IsTree raw (fails e) t v = Keeps-IsTree (Apart-Keeps (record_error-Apart raw e t)) v
  step-IsTree raw (starts parent name kind) t v = append_span-IsTree raw parent name kind t v
  step-IsTree raw (ends i) t v = Keeps-IsTree (end_span-Keeps raw i t) v
  step-IsTree raw (fails_span e i) t v = Keeps-IsTree (record_span_error-Keeps raw e i t) v
  step-IsTree raw (marks_debug i) t v = Keeps-IsTree (set_debug-Keeps i t) v
  step-IsTree raw (writes level i message args) t v =
      Keeps-IsTree (Apart-Keeps (append_log-Apart sprint raw level i message args t)) v
  step-IsTree raw (responds status bytes route) t v =
      Keeps-IsTree (Apart-Keeps (set_response-Apart raw status bytes route t)) v
  step-IsTree raw (details d) t v = Keeps-IsTree (Apart-Keeps (describe-Apart d t)) v
  step-IsTree raw (details_span d i) t v = Keeps-IsTree (describe_span-Keeps d i t) v
  step-IsTree raw (finishes answers) t v = Keeps-IsTree (finish-Keeps raw answers t) v

  pub run-IsTree :
      (now : ℕ) (id name : Text) (opts : TraceOptions) (cs : List (ℕ × Call))
      → IsTree (run sprint cs (new_trace now id name opts))
  run-IsTree now id name opts cs =
      run-keeps sprint IsTree step-IsTree cs (new_trace now id name opts)
        (new_trace-IsTree now id name opts)
