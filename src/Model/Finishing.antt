-- ===== src/Model/Finishing.antt =====
-- Completing a trace and the time per state, model/trace.go.
use oida.Prelude.{if◌then◌else◌, ℤ, pos, sub_ℕ, ◌+ℤ◌, ℕ, suc, true, List, [], ◌∷◌, reverse}
use oida.Model.State.{state_index}
use oida.Model.Data.{Trace}
use oida.Model.Clock.{time, peek}
use oida.Model.Recording.{add_at}
use oida.Model.Spans.{end_span}

-- End on each span of the list in turn; the k-th call reads the k-th answer.
unfoldable pub end_each : (ℕ → ℕ) → List ℕ → Trace → Trace
unfolding end_span
end_each answers [] t = t
end_each answers (i ∷ is) t = end_each (λ k. answers (suc k)) is (end_span (answers 0) i t)

-- What Finish writes under the lock.
unfoldable pub complete : ℕ → Trace → Trace
unfolding time
complete raw t =
    let (now, t') = time raw t in
    record t' {
      state_time = add_at (state_index t.state) (sub_ℕ now t.changed_at) t.state_time;
      changed_at = now;
      updated_at = now;
      duration = sub_ℕ now t.started_at;
      finished = true;
    }

-- The spans recorded by then are ended from the last to the first.
unfoldable pub finish : ℕ → (ℕ → ℕ) → Trace → Trace
unfolding complete end_each
finish raw answers t = if t.finished then t else end_each answers (reverse t.spans) (complete raw t)

unfoldable pub state_times : ℕ → Trace → List ℤ
unfolding peek
state_times raw t =
    if t.finished
    then t.state_time
    else add_at (state_index t.state) (sub_ℕ (peek raw t) t.changed_at) t.state_time

-- The sum of the timing array.
unfoldable pub total : List ℤ → ℤ
total [] = pos 0
total (x ∷ xs) = x +ℤ total xs
