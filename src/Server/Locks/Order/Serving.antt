-- ===== src/Server/Locks/Order/Serving.antt =====
-- Which of the functions of src/server/mod.rs keep the discipline, and that those never block each
-- other.
use seabird_core.Prelude.{
  arith, ℕ, ◌≡◌, ◌≢◌, refl, Bool, true, false, none, some, List, [], ◌∷◌, ◌++◌,
}
use seabird_core.Server.State.{Sender}
use seabird_core.Server.Locks
use seabird_core.Server.Locks.{
  Locks, Op, Reach, Step, list_channels_ops, update_channels_ops, commands_ops, issue_request_ops,
  get_backend_info_ops, list_backends_ops, register_backend_ops, respond_ops, answer_ops,
  pass_on_ops, Way, id_taken, unknown_backend, send_fails, issued, pause,
}
use seabird_core.Server.Locks.Order.{out, IsOrdered, IsOrderly}
use seabird_core.Server.Locks.Order.Standing.{Step-IsOrderly}
use seabird_core.Server.Locks.Order.Places.{IsBusy}
use seabird_core.Server.Locks.Order.Progress.{Progress, some_goes}

-- A task that calls these functions, one after the other: all handlers but a `get_backend_info` that
-- finds its backend, and the tasks of connections and of the cleanup.
pub data Serves : List Op → Type 0 where
  finished : Serves []
  waits : {ops : List Op} → Serves ops → Serves (pause ∷ ops)
  issues_request :
      {ops : List Op} (way : Way) (k : Sender)
      → Serves ops
      → Serves (issue_request_ops way k ++ ops)
  finds_no_backend :
      {ops : List Op} (k : Sender) → Serves ops → Serves (get_backend_info_ops none k ++ ops)
  lists : {ops : List Op} → Serves ops → Serves (list_backends_ops ++ ops)
  lists_channels :
      {ops : List Op} (found : Bool) → Serves ops → Serves (list_channels_ops found ++ ops)
  updates_channels : {ops : List Op} → Serves ops → Serves (update_channels_ops ++ ops)
  uses_commands : {ops : List Op} → Serves ops → Serves (commands_ops ++ ops)
  registers : {ops : List Op} → Serves ops → Serves (register_backend_ops ++ ops)
  responds : {ops : List Op} → Serves ops → Serves (respond_ops ++ ops)
  answers : {ops : List Op} → Serves ops → Serves (answer_ops ++ ops)
  passes_on : {ops : List Op} (k : Sender) → Serves ops → Serves (pass_on_ops k ++ ops)

Serves-IsOrdered : (ops : List Op) → Serves ops → IsOrdered false out ops
Serves-IsOrdered _ finished = (refl, refl)
Serves-IsOrdered _ (waits {ops = ops} s) = (refl, refl, Serves-IsOrdered ops s)
Serves-IsOrdered _ (finds_no_backend {ops = ops} k s) =
    (refl, (refl, (refl, Serves-IsOrdered ops s)))
Serves-IsOrdered _ (issues_request {ops = ops} id_taken k s) =
    (refl, refl, (refl, refl, Serves-IsOrdered ops s))
Serves-IsOrdered _ (issues_request {ops = ops} unknown_backend k s) =
    (refl, refl, (refl, (refl, (refl, (refl, refl, Serves-IsOrdered ops s)))))
Serves-IsOrdered _ (issues_request {ops = ops} send_fails k s) =
    (refl, refl, (refl, (refl, (refl, (refl, refl, Serves-IsOrdered ops s)))))
Serves-IsOrdered _ (issues_request {ops = ops} issued k s) =
    (refl, refl, (refl, (refl, (refl, (refl, (refl, refl, (refl, refl, Serves-IsOrdered ops s)))))))
Serves-IsOrdered _ (lists {ops = ops} s) = (refl, (refl, (refl, Serves-IsOrdered ops s)))
Serves-IsOrdered _ (lists_channels {ops = ops} false s) =
    (refl, (refl, (refl, Serves-IsOrdered ops s)))
Serves-IsOrdered _ (lists_channels {ops = ops} true s) =
    (refl, (refl, (refl, (refl, Serves-IsOrdered ops s))))
Serves-IsOrdered _ (updates_channels {ops = ops} s) = (refl, Serves-IsOrdered ops s)
Serves-IsOrdered _ (uses_commands {ops = ops} s) = (refl, Serves-IsOrdered ops s)
Serves-IsOrdered _ (registers {ops = ops} s) = (refl, (refl, (refl, Serves-IsOrdered ops s)))
Serves-IsOrdered _ (responds {ops = ops} s) = (refl, refl, (refl, refl, Serves-IsOrdered ops s))
Serves-IsOrdered _ (answers {ops = ops} s) =
    (refl, refl, (refl, refl, (refl, refl, Serves-IsOrdered ops s)))
Serves-IsOrdered _ (passes_on {ops = ops} k s) = (refl, refl, (refl, refl, Serves-IsOrdered ops s))

-- `get_backend_info` does not keep it when it finds the backend.
get_backend_info_breaks :
    (way : Way) (k : Sender) (ops : List Op)
    → ¬ IsOrdered false out (get_backend_info_ops (some way) k ++ ops)
get_backend_info_breaks id_taken k ops v = cc (v.1.1.1)
get_backend_info_breaks unknown_backend k ops v = cc (v.1.1.1)
get_backend_info_breaks send_fails k ops v = cc (v.1.1.1)
get_backend_info_breaks issued k ops v = cc (v.1.1.1)

-- Tasks that start, with both locks free.
pub record IsFresh (σ : Locks) : Type 0 where
  pub unlocked : σ.mutex ≡ none
  pub unread : σ.readers ≡ []
  pub unwritten : σ.writing ≡ none
  pub unasked : σ.queue ≡ []
  pub serves : (i : ℕ) → Serves (σ.tasks i)

fresh-IsOrderly : (σ : Locks) → IsFresh σ → (i : ℕ) → IsOrderly σ i
fresh-IsOrderly σ f i = record {
  holds = false;
  stands = out;
  mutex = λ q. cc (q, f.unlocked);
  exactly = ground (arith, f.unread, f.unwritten, f.unasked);
  ordered = Serves-IsOrdered (σ.tasks i) (f.serves i);
}

Reach-IsOrderly : (σ τ : Locks) → ((i : ℕ) → IsOrderly σ i) → Reach σ τ → (i : ℕ) → IsOrderly τ i
Reach-IsOrderly σ τ v Locks.here = v
Reach-IsOrderly σ τ v (Locks.next {τ = υ} r s) = Step-IsOrderly υ τ (Reach-IsOrderly σ υ v r) s

-- No other deadlocks than those of a full channel and of `get_backend_info`: whatever tasks that call
-- the functions of `Serves` have done since both locks were free, if every channel has room now, then
-- as long as some task holds a lock, waits for one or sends, some such task can do its next operation.
pub served_tasks_go_on :
    (σ τ : Locks)
    → IsFresh σ
    → Reach σ τ
    → ((k : Sender) → τ.room k ≢ 0)
    → (i : ℕ) → IsBusy (τ.tasks i)
    → Progress τ
served_tasks_go_on σ τ f r room i busy =
    some_goes τ (Reach-IsOrderly σ τ (fresh-IsOrderly σ f) r) room i busy
