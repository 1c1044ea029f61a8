-- ===== src/Worker/Loop.antt =====
-- `worker_loop` of worker/worker.py: one pass of the main loop. `Inputs` is what the pass asks of the
-- outside, task by task.
use all_debrid_proxy.Base.{ℕ, Bool, not, ◌&&◌, List, [], ◌∷◌, if◌then◌else◌, Text, filter}
use all_debrid_proxy.Base.Unicode.{Unicode}
use all_debrid_proxy.Constants.{Status, in_active_statuses, status_eq}
use all_debrid_proxy.Models.{Task}
use all_debrid_proxy.World.{World}
use all_debrid_proxy.Scheduler.{Settings, can_start_task}
use all_debrid_proxy.Worker.Client.{Client}
use all_debrid_proxy.Worker.Resolve.{resolve_task}
use all_debrid_proxy.Worker.Start.{start_next_files}

pub record Inputs : Type 0 where
  pub unicode : Unicode
  pub settings : Settings
  pub client : Client
  pub new_id : Text → ℕ → Text
  pub elsewhere : Text → ℕ → World → World
  pub free : Text → ℕ
  pub writable : Text → Bool
  pub now : ℕ

-- 1) Resolve the queued tasks.
unfoldable pub resolve_queued : Inputs → List Task → World → World
unfolding resolve_task
resolve_queued i [] w = w
resolve_queued i (t ∷ ts) w =
    resolve_queued i ts (resolve_task i.unicode (i.new_id t.id) i.client (i.elsewhere t.id) t w)

-- 2) Start downloads for the active tasks that do not wait for a selection.
unfoldable pub start_active : Inputs → List Task → World → World
unfolding start_next_files can_start_task
start_active i [] w = w
start_active i (t ∷ ts) w = start_active i ts (
    if not (status_eq t.status Status.waiting_selection)
      && can_start_task i.settings (i.free t.id) t.id w.db
    then start_next_files i.settings i.client (i.writable t.id) i.now t w
    else w)

unfoldable pub worker_pass : Inputs → World → World
unfolding resolve_queued start_active
worker_pass i w =
    let w1 = resolve_queued i (filter (λ t. status_eq t.status Status.queued) w.db.tasks) w in
    start_active i (filter (λ t. in_active_statuses t.status) w1.db.tasks) w1
