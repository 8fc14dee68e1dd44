-- ===== src/Process.antt =====
-- workers/evaluator/process.py: a process of the worker with its two pipes, which are drained under
-- a cap, and the loop that waits for its end. What the process writes and when it ends is a script;
-- process groups and signals are the operating system's.
pub mod Cap
use agent_bench_x.Prelude.{
  ℕ, zero, suc, ◌+◌, ◌-◌, String, Bool, true, false, ◌||◌, Option, none, some, List, [], ◌∷◌, ◌++◌,
  ltb, leb, if◌then◌else◌, length,
}
use agent_bench_x.Junit.Text.{append}
use agent_bench_x.Models.{Moment}
use agent_bench_x.Evaluator.{Outcome}

-- `chunk[:room]`
unfoldable pub take {ℓ} : {A : Type ℓ} → ℕ → List A → List A
take zero xs = []
take (suc n) [] = []
take (suc n) (x ∷ xs) = x ∷ take n xs

-- One of `buffers` with its flag in `truncated`.
pub record Buffer : Type 0 where
  pub bytes : List ℕ
  pub truncated : Bool

abbrev pub no_bytes : Buffer
no_bytes = record { bytes = []; truncated = false }

-- `max(0, limit - len(buffer))` is the difference of ℕ.
unfoldable pub drain_chunk : ℕ → Buffer → List ℕ → Buffer
drain_chunk limit b chunk =
    let room = limit - length b.bytes in
    record {
      bytes = b.bytes ++ take room chunk;
      truncated = b.truncated || ltb room (length chunk);
    }

-- The chunks are those that `read` returned until the reader was joined.
unfoldable pub drain : ℕ → Buffer → List (List ℕ) → Buffer
drain limit b [] = b
drain limit b (chunk ∷ chunks) = drain limit (drain_chunk limit b chunk) chunks

-- One round of the waiting loop: what `poll` returned, whether `cancel` is set, and the time since
-- the start.
pub record Poll : Type 0 where
  pub exited : Bool
  pub cancel : Bool
  pub elapsed : Moment

-- The flags `timed_out` and `cancelled` when the loop ends; `none` while it has not ended.
unfoldable pub wait : Moment → List Poll → Option (Bool × Bool)
wait timeout [] = none
wait timeout (p ∷ polls) =
    let rest = wait timeout polls in
    if p.exited
    then some (false, false)
    else if p.cancel || leb timeout p.elapsed
    then some (leb timeout p.elapsed, p.cancel)
    else rest

-- `b.decode("utf-8", errors="replace")` with its note.
abbrev pub text_of : (List ℕ → String) → Buffer → String
text_of decode b = append (decode b.bytes) (if b.truncated then "\n[output truncated]" else "")

-- A run that has not ended yet, the `TimeoutExpired` of a process that is still there five seconds
-- after it was killed, or the outcome.
pub data Ending : Type 0 where
  still_runs timeout_expired : Ending
  returns : Outcome → Ending

-- `is_reaped` says whether `wait(timeout=5)` returns after the process group was killed.
abbrev pub outcome_of :
    (List ℕ → String) → ℕ → Bool → Buffer → Buffer → Option (Bool × Bool) → Ending
outcome_of decode exit_code is_reaped out error none = still_runs
outcome_of decode exit_code is_reaped out error (some (timed_out, cancelled)) =
    if is_reaped
    then returns (record {
      exit_code = exit_code;
      stdout = text_of decode out;
      stderr = text_of decode error;
      timed_out = timed_out;
      cancelled = cancelled;
    })
    else timeout_expired

unfoldable pub run :
    (List ℕ → String) → ℕ → Moment → ℕ → Bool → List Poll → List (List ℕ) → List (List ℕ) → Ending
run decode limit timeout exit_code is_reaped polls out error =
    outcome_of decode exit_code is_reaped (drain limit no_bytes out) (drain limit no_bytes error)
      (wait timeout polls)
