-- ===== src/Kernel/Interleaving.antt =====
-- The executor's loop, the keyboard task within it and the interrupt handlers, step by step.
pub mod Invariant
pub mod Steps
pub mod Drained
pub mod Display
pub mod Prints
pub mod Shown
pub mod Answered
pub mod Flood
pub mod Overflow
mod Tests
use taijios.Common.{ℕ, ◌≡◌, ◌≢◌, Bool, true, Option, none, some, List, [], ◌∷◌, ◌++◌, ok}
use taijios.Task.{Task, pending}
use taijios.Task.Keyboard as Keyboard
use taijios.Task.Keyboard.Race as Race
use taijios.Task.Executor.Sleep as Sleep
use taijios.Task.Executor.{TaskWaker, Runtime, Executor, cached, settle, wake_all, run_one}
use taijios.Kernel.{Platform, crates}

-- The loop of `run` at a stage of `sleep_if_idle` or before a pop of `run_ready_tasks`, which is
-- `running`, or a poll of the keyboard task.
pub data Stage : Type 0 where
  in_loop : Sleep.Stage → Stage
  polling : Stage

-- The other tasks are those of the runtime. Their futures do not use the keyboard's statics.
module _ (P : Platform) (R : Runtime) where
  pub record Machine : Type 0 where
    pub stage : Stage
    pub interrupts : Bool
    pub keyboard : Race.Machine (crates P)
    pub executor : Executor R
    pub world : R.World

  -- the wakers that `add_scancode` wakes
  unfoldable pub woken_by : Keyboard.Effect (crates P) → List TaskWaker
  woken_by (Keyboard.warns warning) = []
  woken_by (Keyboard.wakes none) = []
  woken_by (Keyboard.wakes (some w)) = w ∷ []

  -- Where the loop goes on after an interrupt.
  unfoldable pub resumed : Stage → Stage
  resumed (in_loop stage) = in_loop (Sleep.resumed R stage)
  resumed polling = polling

  -- `task_id` is the keyboard task's. An interrupt during another task's poll counts as one before
  -- or after it.
  pub data Step (task_id : ℕ) (s t : Machine) : Type 0 where
    polls :
        (task : Task R.Future) (q : R.queue.Queue)
        → s.stage ≡ in_loop Sleep.running
        → R.queue.pop s.executor.task_queue ≡ some (task_id, q)
        → s.executor.tasks task_id ≡ some task
        → t ≡ record s {
          stage = polling;
          keyboard = record s.keyboard { stage = Keyboard.called };
          executor = record s.executor { task_queue = q };
        }
        → Step task_id s t
    serves :
        (id : ℕ) (q : R.queue.Queue) (after : Executor R) (later : R.World)
        → s.stage ≡ in_loop Sleep.running
        → R.queue.pop s.executor.task_queue ≡ some (id, q)
        → id ≢ task_id
        → run_one R id (record s.executor { task_queue = q }) s.world ≡ ok (after, later)
        → t ≡ record s { executor = after; world = later }
        → Step task_id s t
    drains :
        s.stage ≡ in_loop Sleep.running
        → R.queue.pop s.executor.task_queue ≡ none
        → t ≡ record s { stage = in_loop Sleep.disabling }
        → Step task_id s t
    goes :
        (to : Keyboard.Stage (crates P)) (statics : Keyboard.Statics (crates P))
        → s.stage ≡ polling
        → ((r : Keyboard.Polled) → s.keyboard.stage ≢ Keyboard.returned r)
        → Keyboard.poll_step
            (crates P)
            (cached s.executor.waker_cache task_id)
            s.keyboard.stage
            s.keyboard.statics
          ≡ ok (to, statics)
        → t ≡ record s {
          keyboard = record {
            statics = statics;
            stage = to;
            accepted = s.keyboard.accepted;
            delivered = s.keyboard.delivered ++ Race.result (crates P) to;
            notified = Race.notice (crates P) s.keyboard.stage s.keyboard.notified;
          };
        }
        → Step task_id s t
    loops :
        (scancode : ℕ)
        → s.stage ≡ polling
        → s.keyboard.stage ≡ Keyboard.returned (Keyboard.ready scancode)
        → t ≡ record s { keyboard = record s.keyboard { stage = Keyboard.called } }
        → Step task_id s t
    waits :
        (task : Task R.Future)
        → s.stage ≡ polling
        → s.keyboard.stage ≡ Keyboard.returned Keyboard.pending
        → t ≡ record s {
          stage = in_loop Sleep.running;
          executor = record s.executor {
            tasks = settle pending s.executor.tasks task_id task;
            waker_cache =
                settle pending s.executor.waker_cache task_id
                  (cached s.executor.waker_cache task_id);
          };
        }
        → Step task_id s t
    sleeps :
        (stage : Sleep.Stage)
        → s.stage ≡ in_loop stage
        → stage ≢ Sleep.running
        → stage ≢ Sleep.asleep
        → t ≡ record s {
          stage = in_loop (Sleep.sleep_step R stage s.executor).0;
          interrupts = (Sleep.sleep_step R stage s.executor).1;
        }
        → Step task_id s t
    key :
        (scancode : ℕ) (statics : Keyboard.Statics (crates P)) (effect : Keyboard.Effect (crates P))
        (q : R.queue.Queue)
        → s.interrupts ≡ true
        → Keyboard.add_scancode (crates P) s.keyboard.statics scancode ≡ (statics, effect)
        → wake_all R (woken_by effect) s.executor.task_queue ≡ ok q
        → t ≡ record s {
          stage = resumed s.stage;
          keyboard = record s.keyboard {
            statics = statics;
            accepted = s.keyboard.accepted ++ Race.taken (crates P) effect scancode;
            notified = Race.heard (crates P) effect s.keyboard.notified;
          };
          executor = record s.executor { task_queue = q };
        }
        → Step task_id s t
    timer : s.interrupts ≡ true → t ≡ record s { stage = resumed s.stage } → Step task_id s t

  pub data Reach (task_id : ℕ) (initial : Machine) : Machine → Type 0 where
    start : {s : Machine} → s ≡ initial → Reach task_id initial s
    later : {s t : Machine} → Reach task_id initial s → Step task_id s t → Reach task_id initial t
