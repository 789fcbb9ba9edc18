-- ===== src/Tasks/Runs.antt =====
-- What holds of the tables of `TaskRuntime` in groupmate/social_runtime/tasks/runtime.py whatever
-- workers do, in any order.
use astrbot_plugin_groupmate.Prelude.{
  ℕ, pos, ◌+ℤ◌, String, ◌==◌, text_eq_refl, ◌≡◌, ◌≢◌, refl, sym, ap, ◌∙◌, true, some, [], find,
  length, keep, arith,
}
use astrbot_plugin_groupmate.Result.{Result, ok}
use astrbot_plugin_groupmate.Tasks.Contracts.{Library, requires_confirmation}
use astrbot_plugin_groupmate.Tasks.TaskRun.{TaskRun}
use astrbot_plugin_groupmate.Tasks.Store.{TaskRow, TaskStore, find_task, load, event_count}
use astrbot_plugin_groupmate.Tasks.Runtime.{task_row, is_terminal}
use astrbot_plugin_groupmate.Tasks.Sound.{is_past_confirmation, grows, Moves}
use astrbot_plugin_groupmate.Tasks.Normal.{IsLower}
use astrbot_plugin_groupmate.Tasks.Acts.{Acts, stays, saves}
use astrbot_plugin_groupmate.Tasks.History.{
  History, History-terminal, Keeps, History-Keeps, History-progress,
}
use astrbot_plugin_groupmate.Tasks.Consistent.{version_of, IsConsistent, IsPast}
use astrbot_plugin_groupmate.Tasks.Saved.{Saved, refused, saved, save-Saved}
use astrbot_plugin_groupmate.Tasks.Loaded.{load-found, found-IsRow}
use astrbot_plugin_groupmate.Tasks.Listed.{IsHeld}
use astrbot_plugin_groupmate.Tasks.Proposed.{IsDigest}
use astrbot_plugin_groupmate.Tasks.Workers.{
  Use, run_use, IsFit, use-Acts, World, In, in-All, Step, Reaches, Fits, Reaches-Fits,
}

abbrev pub empty_world : World
empty_world = record { store = record { tasks = []; task_events = [] }; held = [] }

empty-Fits : (lib : Library) → Fits lib empty_world
empty-Fits lib = record {
  consistent = record { keyed = tt; rows = tt; counted = λ id. unfold find_task find keep in refl };
  held = tt;
}

-- A stored task: it repeats its JSON, it is read back, and its version counts its events.
pub record IsStored (lib : Library) (s : TaskStore) (id : String) (r : TaskRow) : Type 0 where
  pub repeats : r ≡ task_row r.task_json
  pub task_id : r.task_id ≡ id
  pub loads : load lib id s ≡ (ok r.task_json, s)
  pub counted : (n : ℕ) × (event_count id s ≡ (ok n, s)) × (r.version ≡ pos n)

consistent-IsStored :
    (lib : Library) (s : TaskStore) (id : String) (r : TaskRow)
    → IsConsistent lib s
    → find_task id s ≡ some r
    → IsStored lib s id r
unfolding event_count
consistent-IsStored lib s id r c e =
    let (row, key) = found-IsRow lib s c id r e in
    record {
      repeats = row.repeats;
      task_id = key;
      loads = load-found lib s c id r e;
      counted = (
        length (keep (λ x. x.task_id == id) s.task_events),
        refl,
        sym (c.counted id ∙ ap version_of e),
      );
    }

module _ (lib : Library) (law : IsLower lib) (digest : IsDigest lib) {w : World}
    (run : Reaches lib empty_world w) where
  pub fits : Fits lib w
  fits = (Reaches-Fits lib law digest (empty-Fits lib) run).0

  -- Whatever workers have done from empty tables on, in any order of their transactions, a task that is
  -- found repeats its JSON in its row, is loaded as that JSON, and has as many events as its version says.
  pub Reaches-IsStored :
      (id : String) (r : TaskRow) → find_task id w.store ≡ some r → IsStored lib w.store id r
  Reaches-IsStored id r e = consistent-IsStored lib w.store id r fits.consistent e

  -- Whatever workers have done from empty tables on, a found task that was queued, has run, or ended as
  -- succeeded, failed or unknown, and whose capability requires confirmation, was confirmed by its
  -- requester.
  pub confirmed_before_queued :
      (id : String) (r : TaskRow)
      → find_task id w.store ≡ some r
      → is_past_confirmation r.status ≡ true
      → requires_confirmation r.task_json.descriptor ≡ true
      → r.task_json.confirmed_by ≡ some r.task_json.request.requester_id
  confirmed_before_queued id r e past req =
      let (row, key) = found-IsRow lib w.store fits.consistent id r e in
      row.sound.confirmed (rw (← ap (λ (x : TaskRow). x.status) row.repeats) past) req

  -- Whatever workers do from reachable tables on, a found task stays found, and has become what it is by
  -- saved changes, each along an edge of the transition diagram and to the next version; its id, its
  -- descriptor and its request are as before, and its progress is not less.
  pub stored_task_moves :
      {w' : World}
      → Reaches lib w w'
      → (id : String) (r : TaskRow) → find_task id w.store ≡ some r
      → (q : TaskRow) × (find_task id w'.store ≡ some q)
        × History lib r.task_json q.task_json
        × Keeps r.task_json q.task_json
        × (grows r.task_json.progress q.task_json.progress ≡ true)
  stored_task_moves more id r e =
      let (q, found, p) = (Reaches-Fits lib law digest fits more).1.histories id r e in
      (q, found, p, History-Keeps p, History-progress p)

  -- Whatever workers do from reachable tables on, a found task that succeeded, failed, was canceled,
  -- expired or became unknown keeps its row.
  pub ended_task_stays :
      {w' : World}
      → Reaches lib w w'
      → (id : String) (r : TaskRow) → find_task id w.store ≡ some r
      → is_terminal r.status ≡ true
      → find_task id w'.store ≡ some r
  ended_task_stays {w'} more id r e done =
      let (later, x) = Reaches-Fits lib law digest fits more in
      let (q, found, p) = x.histories id r e in
      let row = (found-IsRow lib w.store fits.consistent id r e).0 in
      let row' = (found-IsRow lib w'.store later.consistent id q found).0 in
      let same : q.task_json ≡ r.task_json =
        History-terminal p (sym (ap (λ (x : TaskRow). is_terminal x.status) row.repeats) ∙ done) in
      found ∙ ap (λ z. some z) (row'.repeats ∙ ap task_row same ∙ sym row.repeats)

-- A use that wrote has found the held task in its row, and has left its change there.
pub data Wrote (lib : Library) (t : TaskRun) (s : TaskStore) (x : Result TaskRun × TaskStore)
    : Type 0 where
  nothing : x.1 ≡ s → Wrote lib t s x
  change :
      (v : TaskRun)
      → x.0 ≡ ok v
      → Moves lib t v
      → find_task t.task_id s ≡ some (task_row t)
      → find_task t.task_id x.1 ≡ some (task_row v)
      → Wrote lib t s x

Acts-Wrote :
    (lib : Library) (t : TaskRun) (s : TaskStore) (x : Result TaskRun × TaskStore)
    → IsConsistent lib s
    → IsPast lib s t
    → Acts lib t s x
    → Wrote lib t s x
Acts-Wrote lib t s x c past (stays r e) = nothing (ap (λ (y : Result TaskRun × TaskStore). y.1) e)
Acts-Wrote lib t s x c past (saves v event_id event_type event_json at m e) =
    rw e (by_outcome (save-Saved lib t v s c m past event_id event_type event_json at))
  where
    by_outcome : {y : Result TaskRun × TaskStore} → Saved lib t v s y → Wrote lib t s y
    by_outcome (refused x e) = nothing (ap (λ (y : Result TaskRun × TaskStore). y.1) e)
    by_outcome (saved s' e held rows more) =
        change v (ap (λ (y : Result TaskRun × TaskStore). y.0) e) m held (
          ap (λ (y : Result TaskRun × TaskStore). find_task t.task_id y.1) e
          ∙ rows t.task_id
          ∙ rw text_eq_refl refl)

other_version : (t v : TaskRun) → v.version ≡ t.version +ℤ pos 1 → task_row v ≡ task_row t → ⊥
unfolding ◌+ℤ◌
other_version t v e h =
    let same : v.version ≡ t.version = ap (λ (r : TaskRow). r.version) h in ground arith

module _ (lib : Library) (law : IsLower lib) (digest : IsDigest lib) {w : World}
    (run : Reaches lib empty_world w) (t : TaskRun) (there : In t w.held) where
  held : IsHeld lib w.store t
  held = in-All (IsHeld lib w.store) t w.held (fits lib law digest run).held there

  pub use-Wrote : (u : Use) → IsFit lib t u → Wrote lib t w.store (run_use t u w.store)
  use-Wrote u fit =
      Acts-Wrote lib t w.store _ (fits lib law digest run).consistent held.1
        (use-Acts lib t w.store u held.0 fit)

second_use :
    (lib : Library) (t v : TaskRun) (s : TaskStore) (x : Result TaskRun × TaskStore)
    → Moves lib t v
    → find_task t.task_id s ≡ some (task_row v)
    → Wrote lib t s x
    → x.1 ≡ s
second_use lib t v s x m new (nothing e) = e
second_use lib t v s x m new (change v' out m' old' new') =
    absurd (other_version t v m.version (cc))

-- When two workers hold one task, at any point of their work, and the one changes the tables, the other
-- does not: whatever it then does with the task it holds leaves the tables.
pub only_one_saves :
    (lib : Library)
    → IsLower lib
    → IsDigest lib
    → {w : World} → Reaches lib empty_world w
    → (t : TaskRun) → In t w.held
    → (u u' : Use) → IsFit lib t u
    → IsFit lib t u'
    → (run_use t u w.store).1 ≢ w.store
    → (run_use t u' (run_use t u w.store).1).1 ≡ (run_use t u w.store).1
only_one_saves lib law digest {w} run t there u u' fit fit' wrote =
    after_first (use-Wrote lib law digest run t there u fit)
  where
    after_first :
        Wrote lib t w.store (run_use t u w.store)
        → (run_use t u' (run_use t u w.store).1).1 ≡ (run_use t u w.store).1
    after_first (nothing e) = absurd (wrote e)
    after_first (change v out m old new) =
        let next_world = Reaches.next run (Step.uses t u there fit) in
        second_use lib t v _ _ m new (use-Wrote lib law digest next_world t there u' fit')
