-- ===== src/Tasks/Consistent.antt =====
-- Tables of tasks that agree: a row repeats its JSON, which is sound, no two rows share an id, and a
-- task's version is the number of its events. `_save` of a task whose past the tables hold keeps that.
use astrbot_plugin_groupmate.Prelude.{
  ℕ, ℤ, pos, int_eq, String, ◌==◌, ◌≡◌, true, ◌&&◌, Option, none, some, List, [], ◌∷◌, keep, length,
  All, Bool-cases, inl, inr, arith, IsKeyed,
}
use astrbot_plugin_groupmate.Tasks.Contracts.{Library}
use astrbot_plugin_groupmate.Tasks.TaskRun.{TaskRun}
use astrbot_plugin_groupmate.Tasks.Store.{TaskRow, TaskStore, find_task, is_one}
use astrbot_plugin_groupmate.Tasks.Runtime.{task_row}
use astrbot_plugin_groupmate.Tasks.Sound.{IsSound}
use astrbot_plugin_groupmate.Tasks.History.{History, start, History-trans}

pub record IsRow (lib : Library) (row : TaskRow) : Type 0 where
  pub repeats : row ≡ task_row row.task_json
  pub sound : IsSound lib row.task_json

-- the number of a task's events
abbrev pub events_of : String → TaskStore → ℕ
events_of id s = length (keep (λ row. row.task_id == id) s.task_events)

abbrev pub version_of : Option TaskRow → ℤ
version_of none = pos 0
version_of (some row) = row.version

pub record IsConsistent (lib : Library) (s : TaskStore) : Type 0 where
  pub keyed : IsKeyed (λ r. r.task_id) s.tasks
  pub rows : All (IsRow lib) s.tasks
  pub counted : (id : String) → pos (events_of id s) ≡ version_of (find_task id s)

-- Each task that is found is found again, behind changes.
abbrev pub Histories : Library → TaskStore → TaskStore → Type 0
Histories lib s s' =
    (id : String) (r : TaskRow)
    → find_task id s ≡ some r
    → (q : TaskRow) × (find_task id s' ≡ some q) × History lib r.task_json q.task_json

pub record Extends (lib : Library) (s s' : TaskStore) : Type 0 where
  pub consistent : IsConsistent lib s'
  pub histories : Histories lib s s'

pub Extends-refl : (lib : Library) (s : TaskStore) → IsConsistent lib s → Extends lib s s
Extends-refl lib s c = record { consistent = c; histories = λ id r e. (r, e, start) }

pub Extends-trans :
    (lib : Library) (s s' s'' : TaskStore)
    → Extends lib s s'
    → Extends lib s' s''
    → Extends lib s s''
Extends-trans lib s s' s'' a b = record {
  consistent = b.consistent;
  histories = λ id r e.
      let (q, found, p) = a.histories id r e in
      let (o, there, p') = b.histories id q found in (o, there, History-trans p p');
}

-- A held task whose row has not been changed, or was changed since.
abbrev pub IsPast : Library → TaskStore → TaskRun → Type 0
IsPast lib s t = (r : TaskRow) × (find_task t.task_id s ≡ some r) × History lib t r.task_json

pub Extends-IsPast :
    (lib : Library) (s s' : TaskStore) (t : TaskRun)
    → Extends lib s s'
    → IsPast lib s t
    → IsPast lib s' t
Extends-IsPast lib s s' t x (r, found, p) =
    let (q, there, p') = x.histories t.task_id r found in (q, there, History-trans p p')

-- `rowcount == 1` says that a row with the id has the version.
pub current_row :
    (t u : TaskRun) (rows : List TaskRow) (r : TaskRow)
    → All (λ x. (x.task_id == u.task_id) ≡ true → x ≡ r) rows
    → is_one (keep (λ row. row.task_id == u.task_id && int_eq row.version t.version) rows) ≡ true
    → int_eq r.version t.version ≡ true
unfolding keep
current_row t u [] r h e = absurd (cc)
current_row t u (x ∷ xs) r h e =
    elim (Bool-cases (x.task_id == u.task_id && int_eq x.version t.version)) [
      | inl hit ↦ rw (← h.0 (ground arith)) (ground arith)
      | inr miss ↦ current_row t u xs r h.1 (rw miss at e)
    ]
