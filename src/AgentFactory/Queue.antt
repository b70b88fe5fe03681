-- ===== src/AgentFactory/Queue.antt =====
-- agents/factory.rs: the channel of an agent and its worker, against a plain queue of tasks.
use pagi_digital_twin.Base.Results.{Result, err, ok}
use pagi_digital_twin.Base.{
  ℕ, suc, ◌-◌, ◌≤◌, ◌*◌, String, List, [], ◌∷◌, ◌++◌, length, ltb, ◌≡◌, refl, ap, sym, ◌∙◌,
  if◌then◌else◌, arith, Bool-cases, inl, inr,
}
use pagi_digital_twin.Bus.{Stamps}
use pagi_digital_twin.AgentFactory.{
  Worker, starting, waiting, busy, AgentHandle, Posted, posted, refused, blocked, send_task,
  capacity,
}
use pagi_digital_twin.AgentFactory.WorkerLoop.{
  Format, Answer, push_log, boot, receive, finish, work, openrouter_chat,
}
use mathlib.Core.List.{append_assoc, append-nil}

-- What happens to one agent: a task is sent to it, or its worker runs.
pub data Happening : Type 0 where
  sends : (task : String) → Happening
  runs : Stamps → Answer → Happening

abbrev pub next : Format → AgentHandle → Happening → AgentHandle
next fmt h (sends task) = (send_task h task).1
next fmt h (runs now answer) = (work fmt h now answer h.worker).0

abbrev pub after : Format → AgentHandle → List Happening → AgentHandle
after fmt h [] = h
after fmt h (x ∷ xs) = after fmt (next fmt h x) xs

abbrev pub if_posted : Posted → String → List String
if_posted posted task = task ∷ []
if_posted (refused e) task = []
if_posted blocked task = []

-- The tasks that the channel took, in order.
abbrev pub taken : Format → AgentHandle → List Happening → List String
taken fmt h [] = []
taken fmt h (sends task ∷ xs) =
    if_posted (send_task h task).0 task ++ taken fmt (next fmt h (sends task)) xs
taken fmt h (runs now answer ∷ xs) = taken fmt (next fmt h (runs now answer)) xs

abbrev pub current : Worker → List String
current starting = []
current waiting = []
current (busy task) = task ∷ []

-- The tasks that the worker brought to an end, with a report, in order.
abbrev pub ended : Format → AgentHandle → List Happening → List String
ended fmt h [] = []
ended fmt h (sends task ∷ xs) = ended fmt (next fmt h (sends task)) xs
ended fmt h (runs now answer ∷ xs) = current h.worker ++ ended fmt (next fmt h (runs now answer)) xs

-- The abstract queue of an agent: what it works on, then what waits.
abbrev pub pending : AgentHandle → List String
pending h = current h.worker ++ h.tasks

pending-send_task :
    (h : AgentHandle) (task : String)
    → pending (send_task h task).1 ≡ pending h ++ if_posted (send_task h task).0 task
unfolding send_task
pending-send_task h task = elim (Bool-cases (ltb (length h.tasks) capacity)) [
  | inl b ↦ rw (b, if◌then◌else◌) (sym (append_assoc (current h.worker) h.tasks (task ∷ [])))
  | inr b ↦ rw (b, if◌then◌else◌) (sym (append-nil (pending h)))
]

pending-receive :
    (h : AgentHandle) (now : Stamps) (tasks : List String)
    → h.worker ≡ waiting
    → h.tasks ≡ tasks
    → pending (receive h now tasks).0 ≡ tasks
unfolding receive push_log
pending-receive h now [] w e = rw (w, e) refl
pending-receive h now (t ∷ ts) w e = refl

pending-finish :
    (fmt : Format) (h : AgentHandle) (now : Stamps) (task : String) (r : Result String)
    → pending (finish fmt h now task r).0 ≡ h.tasks
unfolding finish push_log
pending-finish fmt h now task (ok raw) = refl
pending-finish fmt h now task (err e) = refl

pending-work :
    (fmt : Format) (h : AgentHandle) (now : Stamps) (answer : Answer) (w : Worker)
    → h.worker ≡ w
    → current w ++ pending (work fmt h now answer w).0 ≡ current w ++ h.tasks
unfolding work boot
pending-work fmt h now answer starting e = refl
pending-work fmt h now answer waiting e = pending-receive h now h.tasks e refl
pending-work fmt h now answer (busy task) e =
    ap (λ l. task ∷ l) (pending-finish fmt h now task (openrouter_chat answer))

-- The channel and the worker are a plain queue: whatever is sent and whenever the worker runs, the
-- tasks brought to an end followed by those still pending are those pending at first followed by the
-- tasks that the channel took. No task is lost, repeated or overtaken.
pub queue_in_order :
    (fmt : Format) (h : AgentHandle) (xs : List Happening)
    → ended fmt h xs ++ pending (after fmt h xs) ≡ pending h ++ taken fmt h xs
queue_in_order fmt h [] = sym (append-nil (pending h))
queue_in_order fmt h (sends task ∷ xs) =
    queue_in_order fmt (next fmt h (sends task)) xs
    ∙ ap (λ l. l ++ taken fmt (next fmt h (sends task)) xs) (pending-send_task h task)
    ∙ append_assoc (pending h) (if_posted (send_task h task).0 task)
        (taken fmt (next fmt h (sends task)) xs)
queue_in_order fmt h (runs now answer ∷ xs) =
    let h' = next fmt h (runs now answer) in
    append_assoc (current h.worker) (ended fmt h' xs) (pending (after fmt h' xs))
    ∙ ap (λ l. current h.worker ++ l) (queue_in_order fmt h' xs)
    ∙ sym (append_assoc (current h.worker) (pending h') (taken fmt h' xs))
    ∙ ap (λ l. l ++ taken fmt h' xs) (pending-work fmt h now answer h.worker refl)

-- The runs of the worker that bring everything pending to an end.
abbrev pub runs_of : Worker → ℕ → ℕ
runs_of starting n = suc (n * 2)
runs_of waiting n = n * 2
runs_of (busy task) n = suc (n * 2)

abbrev pub runs_needed : AgentHandle → ℕ
runs_needed h = runs_of h.worker (length h.tasks)

abbrev pub all_runs : List (Stamps × Answer) → List Happening
all_runs [] = []
all_runs (r ∷ rs) = runs r.0 r.1 ∷ all_runs rs

runs_needed-receive :
    (h : AgentHandle) (now : Stamps) (tasks : List String)
    → h.worker ≡ waiting
    → h.tasks ≡ tasks
    → runs_needed (receive h now tasks).0 ≡ length tasks * 2 - 1
unfolding receive push_log
runs_needed-receive h now [] w e = rw (w, e) refl
runs_needed-receive h now (t ∷ ts) w e = omega arith

runs_needed-finish :
    (fmt : Format) (h : AgentHandle) (now : Stamps) (task : String) (r : Result String)
    → runs_needed (finish fmt h now task r).0 ≡ length h.tasks * 2
unfolding finish push_log
runs_needed-finish fmt h now task (ok raw) = refl
runs_needed-finish fmt h now task (err e) = refl

runs_needed-work :
    (fmt : Format) (h : AgentHandle) (now : Stamps) (answer : Answer) (w : Worker)
    → h.worker ≡ w
    → runs_needed (work fmt h now answer w).0 ≡ runs_of w (length h.tasks) - 1
unfolding work boot
runs_needed-work fmt h now answer starting e = omega arith
runs_needed-work fmt h now answer waiting e = runs_needed-receive h now h.tasks e refl
runs_needed-work fmt h now answer (busy task) e =
    omega (arith, runs_needed-finish fmt h now task (openrouter_chat answer))

runs_needed-after :
    (fmt : Format) (h : AgentHandle) (rs : List (Stamps × Answer))
    → runs_needed (after fmt h (all_runs rs)) ≡ runs_needed h - length rs
runs_needed-after fmt h [] = omega arith
runs_needed-after fmt h (r ∷ rs) =
    let h' = next fmt h (runs r.0 r.1) in
    omega (arith, runs_needed-after fmt h' rs, runs_needed-work fmt h r.0 r.1 h.worker refl)

taken-all_runs :
    (fmt : Format) (h : AgentHandle) (rs : List (Stamps × Answer)) → taken fmt h (all_runs rs) ≡ []
taken-all_runs fmt h [] = refl
taken-all_runs fmt h (r ∷ rs) = taken-all_runs fmt (next fmt h (runs r.0 r.1)) rs

nothing_pending :
    (w : Worker) (tasks : List String) → runs_of w (length tasks) ≡ 0 → current w ++ tasks ≡ []
nothing_pending starting ts e = ground (arith, e)
nothing_pending waiting [] e = refl
nothing_pending waiting (t ∷ ts) e = ground (arith, e)
nothing_pending (busy task) ts e = ground (arith, e)

-- The worker gets to the end of its queue: left to run often enough (once to start, once to take each
-- task and once to end it), it ends every pending task, in order, whatever the model answers.
pub worker_drains :
    (fmt : Format) (h : AgentHandle) (rs : List (Stamps × Answer))
    → runs_needed h ≤ length rs
    → ended fmt h (all_runs rs) ≡ pending h
worker_drains fmt h rs enough =
    let done = after fmt h (all_runs rs) in
    sym (append-nil (ended fmt h (all_runs rs)))
    ∙ ap (λ l. ended fmt h (all_runs rs) ++ l)
        (sym (
          nothing_pending done.worker done.tasks
            (omega (arith, enough, runs_needed-after fmt h rs))))
    ∙ queue_in_order fmt h (all_runs rs)
    ∙ ap (λ l. pending h ++ l) (taken-all_runs fmt h rs)
    ∙ append-nil (pending h)
