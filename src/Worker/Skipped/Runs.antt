-- ===== src/Worker/Skipped/Runs.antt =====
-- Tasks with a file that nobody selected, over whole runs of worker/worker.py.
use all_debrid_proxy.Base.{
  arith, ℕ, zero, suc, ◌+◌, ◌≡◌, Bool, true, false, Option, none, some, List, [], ◌∷◌,
  if◌then◌else◌, Text, text_eq, All,
}
use all_debrid_proxy.Base.Unicode.{Unicode}
use all_debrid_proxy.Constants.{Status, SourceType, max_resolve_attempts}
use all_debrid_proxy.Models.{Task, TaskFile, files_of}
use all_debrid_proxy.World.{World, Reason, move_task}
use all_debrid_proxy.Worker.Client.{Client, FileInfo}
use all_debrid_proxy.Worker.Resolve.{
  set_provider_ref, no_files, list_found, polled, poll, finish_resolve, after_poll, wait_out,
  upload_ref, store_ref, resolve_magnet, link_name, list_link, resolve_link, resolve_task,
}
use all_debrid_proxy.Worker.Monitor.Laws.{monitor_file-SameBut}
use all_debrid_proxy.Worker.Skipped.{
  IsBehind, IsStuck, NotReady, Step, Run, start, monitor, cancel, resolve, here, next,
  move_task-IsBehind, move_task-IsStuck, start-IsStuck, IsStuck-SameBut,
}
use all_debrid_proxy.Worker.Skipped.Resolved.{
  IsLeft-append, list_found-IsBehind, set_provider_ref-IsBehind, set_provider_ref-IsStuck,
  finish_resolve-IsBehind, safe,
}

module _ (k id : Text) (U : Unicode) (new_id : ℕ → Text) (client : Client)
    (elsewhere : ℕ → World → World) (task : Task) (apart : text_eq task.id id ≡ false)
    (others : (n : ℕ) (v : World) → IsStuck k id v → IsStuck k id (elsewhere n v)) where
  -- Where the polling finds files, the row is still left; where it does not, so it is after the last round.
  poll-IsBehind :
      (ref : Option Text) (round left : ℕ) (w : World)
      → IsStuck k id w
      → IsBehind k id (
          after_poll task
            (wait_out elsewhere round left w)
            (poll U new_id client elsewhere task.id ref round left w))
  unfolding poll wait_out finish_resolve
  poll-IsBehind ref round zero w h =
      move_task-IsBehind k id task.id Status.failed (some Reason.timeout_no_files) w
        (safe k id U new_id task apart Status.failed) h.behind
  poll-IsBehind ref round (suc left) w h =
      found (no_files files)
        (poll-IsBehind ref (round + 1) left (elsewhere round w) (others round w h))
    where
      files : List FileInfo
      files = polled (client.get_magnet_status round ref)

      later : Option World
      later = poll U new_id client elsewhere task.id ref (round + 1) left (elsewhere round w)

      last : World
      last = wait_out elsewhere (round + 1) left (elsewhere round w)

      found :
          (none_found : Bool)
          → IsBehind k id (after_poll task last later)
          → IsBehind k id (
              after_poll task last
                (if none_found then later else some (list_found U new_id task.id files w)))
      found true rest = rest
      found false rest =
          finish_resolve-IsBehind k id U new_id task apart (list_found U new_id task.id files w)
            (list_found-IsBehind k id U new_id task apart files w h.behind)

  store_ref-IsStuck :
      (ref : Text) (w : World) → IsStuck k id w → IsStuck k id (store_ref task ref w)
  unfolding store_ref
  store_ref-IsStuck ref w h = by_ref task.provider_ref
    where
      stored : IsStuck k id (set_provider_ref task.id ref w)
      stored = set_provider_ref-IsStuck k id U new_id task apart ref w h

      by_ref :
          (o : Option Text)
          → IsStuck k id (elim o [ some (c ∷ r) ↦ w | _ ↦ set_provider_ref task.id ref w ])
      by_ref none = stored
      by_ref (some []) = stored
      by_ref (some (c ∷ r)) = h

  resolve_magnet-IsBehind :
      (attempts : ℕ) (w : World)
      → IsStuck k id w
      → IsBehind k id (resolve_magnet U new_id client elsewhere attempts task w)
  unfolding resolve_magnet
  resolve_magnet-IsBehind attempts w h = by_upload (upload_ref client task)
    where
      w1 : Text → World
      w1 ref = move_task task.id Status.resolving none (store_ref task ref w)

      by_upload :
          (o : Option Text)
          → IsBehind k id (elim o [
            | none ↦ move_task task.id Status.failed (some Reason.magnet_upload_failed) w
            | some ref ↦
                after_poll task
                  (wait_out elsewhere 0 attempts (w1 ref))
                  (poll U new_id client elsewhere task.id (some ref) 0 attempts (w1 ref))
          ])
      by_upload none =
          move_task-IsBehind k id task.id Status.failed (some Reason.magnet_upload_failed) w
            (safe k id U new_id task apart Status.failed) h.behind
      by_upload (some ref) = poll-IsBehind (some ref) 0 attempts (w1 ref) (
          move_task-IsStuck k id task.id Status.resolving none (store_ref task ref w)
            (safe k id U new_id task apart Status.resolving) (store_ref-IsStuck ref w h))

  list_link-IsBehind :
      (i name : Text) (size : ℕ) (existing : List TaskFile) (w : World)
      → IsBehind k id w
      → IsBehind k id (list_link i task.id name size existing w)
  list_link-IsBehind i name size [] w h = record {
    left = IsLeft-append k id U new_id task apart w.db.files _ h.left;
    not_ready = h.not_ready;
  }
  list_link-IsBehind i name size (f ∷ fs) w h = h

  resolve_link-IsBehind :
      (w : World) → IsBehind k id w → IsBehind k id (resolve_link U new_id client task w)
  unfolding resolve_link
  resolve_link-IsBehind w h = by_info (client.get_link_info task.source)
    where
      w1 : World
      w1 = move_task task.id Status.resolving none w

      h1 : IsBehind k id w1
      h1 =
          move_task-IsBehind k id task.id Status.resolving none w
            (safe k id U new_id task apart Status.resolving) h

      listed : FileInfo → World
      listed info =
          list_link (new_id 0) task.id (link_name U task.id info.name) info.size
            (files_of task.id w1.db) w1

      by_info :
          (o : Option FileInfo)
          → IsBehind k id (elim o [
            | none ↦ move_task task.id Status.failed (some Reason.link_info_failed) w1
            | some info ↦ finish_resolve task (set_provider_ref task.id task.source (listed info))
          ])
      by_info none =
          move_task-IsBehind k id task.id Status.failed (some Reason.link_info_failed) w1
            (safe k id U new_id task apart Status.failed) h1
      by_info (some info) =
          finish_resolve-IsBehind k id U new_id task apart
            (set_provider_ref task.id task.source (listed info))
            (set_provider_ref-IsBehind k id U new_id task apart task.source (listed info) (
              list_link-IsBehind (new_id 0) (link_name U task.id info.name) info.size
                (files_of task.id w1.db) w1 h1))

  -- Resolving a task leaves the row of another one behind.
  resolve_task-IsBehind :
      (w : World) → IsStuck k id w → IsBehind k id (resolve_task U new_id client elsewhere task w)
  unfolding resolve_task
  resolve_task-IsBehind w h = by_type task.source_type
    where
      by_type :
          (t : SourceType)
          → IsBehind k id (elim t [
            | SourceType.magnet ↦
                resolve_magnet U new_id client elsewhere max_resolve_attempts task w
            | SourceType.link ↦ resolve_link U new_id client task w
            | SourceType.upload ↦
                move_task task.id Status.failed (some Reason.unknown_source_type) w
          ])
      by_type SourceType.magnet = resolve_magnet-IsBehind max_resolve_attempts w h
      by_type SourceType.link = resolve_link-IsBehind w h.behind
      by_type SourceType.upload =
          move_task-IsBehind k id task.id Status.failed (some Reason.unknown_source_type) w
            (safe k id U new_id task apart Status.failed) h.behind

mutual
  Step-IsStuck : {k id : Text} {w w' : World} → Step id w w' → IsStuck k id w → IsStuck k id w'
  Step-IsStuck {k} {id} (start w settings client writable now task) h =
      start-IsStuck k id settings client writable now task w h
  Step-IsStuck {k} {id} (monitor w U fl seen i) h =
      IsStuck-SameBut
        (monitor_file-SameBut U fl seen i k w h.behind.left.row h.behind.left.found
          h.behind.left.not_downloading)
        h
  Step-IsStuck {k} {id} (cancel w i) h =
      move_task-IsStuck k id i Status.canceled none w (ground arith) h
  Step-IsStuck {k} {id} (resolve w U new_id client elsewhere task apart others unique) h = record {
    behind =
        resolve_task-IsBehind k id U new_id client elsewhere task apart
          (λ n v g. Run-IsStuck (others n v) g) w h;
    unique = unique;
  }

  Run-IsStuck : {k id : Text} {u w : World} → Run id u w → IsStuck k id u → IsStuck k id w
  Run-IsStuck here h = h
  Run-IsStuck (next r st) h = Step-IsStuck st (Run-IsStuck r h)

-- A task that is neither READY nor QUEUED, and has a file that is neither selected nor downloading nor done, never
-- becomes READY, and not QUEUED either, so that the worker never takes it up to resolve it: not by any run in which
-- the worker starts files of any task and resolves other tasks, the monitor looks at any file, users cancel tasks,
-- and these go on between two polls of the worker.
pub never_ready :
    {k id : Text} {u w : World} → Run id u w → IsStuck k id u → All (NotReady id) w.db.tasks
never_ready run h = (Run-IsStuck run h).behind.not_ready
