-- ===== src/Tasks/History.antt =====
-- What a task may become by several saved changes.
use astrbot_plugin_groupmate.Prelude.{
  ℤ, pos, ◌+ℤ◌, ltb_ℤ, leb_ℤ, ◌≡◌, refl, ap, ◌∙◌, true, false, Option, none, some, inl, inr, ◌⊎◌,
  arith,
}
use astrbot_plugin_groupmate.Tasks.Contracts.{
  Library, TaskStatus, proposed, awaiting_confirmation, queued, running, succeeded, failed,
  canceled, expired, unknown,
}
use astrbot_plugin_groupmate.Tasks.TaskRun.{TaskRun}
use astrbot_plugin_groupmate.Tasks.Runtime.{is_terminal}
use astrbot_plugin_groupmate.Tasks.Sound.{follows, grows, Moves}

pub data History (lib : Library) (t : TaskRun) : TaskRun → Type 0 where
  start : History lib t t
  next : {u v : TaskRun} → History lib t u → Moves lib u v → History lib t v

pub History-trans :
    {lib : Library} {t u v : TaskRun} → History lib t u → History lib u v → History lib t v
History-trans p start = p
History-trans p (next q m) = next (History-trans p q) m

above : (a b c : ℤ) → leb_ℤ a b ≡ true → c ≡ b +ℤ pos 1 → ltb_ℤ a c ≡ true
unfolding ◌+ℤ◌
above a b c h e = ground arith

-- The version grows with every change.
pub History-version :
    {lib : Library} {t u : TaskRun} → History lib t u → (u ≡ t) ⊎ (ltb_ℤ t.version u.version ≡ true)
History-version start = inl refl
History-version {t = t} (next {u = u} {v = v} p m) = elim (History-version p) [
  | inl same ↦ inr (above t.version u.version v.version (rw same (ground arith)) m.version)
  | inr less ↦ inr (above t.version u.version v.version (ground arith) m.version)
]

irreflexive : (a : ℤ) → ltb_ℤ a a ≡ true → ⊥
irreflexive a h = ground arith

-- Tasks of one history and one version are the same.
pub History-same : {lib : Library} {t u : TaskRun} → History lib t u → u.version ≡ t.version → u ≡ t
History-same {t = t} {u = u} p e = elim (History-version p) [
  | inl same ↦ same
  | inr less ↦ absurd (irreflexive t.version (rw e at less))
]

pub record Keeps (t u : TaskRun) : Type 0 where
  pub task_id : u.task_id ≡ t.task_id
  pub descriptor : u.descriptor ≡ t.descriptor
  pub request : u.request ≡ t.request

pub History-Keeps : {lib : Library} {t u : TaskRun} → History lib t u → Keeps t u
History-Keeps start = record { task_id = refl; descriptor = refl; request = refl }
History-Keeps (next p m) =
    let k = History-Keeps p in
    record {
      task_id = m.task_id ∙ k.task_id;
      descriptor = m.descriptor ∙ k.descriptor;
      request = m.request ∙ k.request;
    }

ends : (st su : TaskStatus) → follows st su ≡ true → is_terminal st ≡ false
ends proposed su h = refl
ends awaiting_confirmation su h = refl
ends queued su h = refl
ends running su h = refl
ends succeeded su h = absurd (cc)
ends failed su h = absurd (cc)
ends canceled su h = absurd (cc)
ends expired su h = absurd (cc)
ends unknown su h = absurd (cc)

-- Nothing follows a task that has ended.
pub History-terminal :
    {lib : Library} {t u : TaskRun} → History lib t u → is_terminal t.status ≡ true → u ≡ t
History-terminal start h = refl
History-terminal {t = t} (next {u = u} p m) h =
    let same = History-terminal p h in
    absurd (cc (h, ends _ _ m.edge, ap (λ (x : TaskRun). is_terminal x.status) same))

grows_trans : (a b c : Option ℤ) → grows a b ≡ true → grows b c ≡ true → grows a c ≡ true
grows_trans none b c h k = refl
grows_trans (some a) none c h k = absurd (cc)
grows_trans (some a) (some b) none h k = absurd (cc)
grows_trans (some a) (some b) (some c) h k = ground arith

grows_start : (a : Option ℤ) → grows a a ≡ true
grows_start none = refl
grows_start (some a) = ground arith

-- Progress does not go back.
pub History-progress :
    {lib : Library} {t u : TaskRun} → History lib t u → grows t.progress u.progress ≡ true
History-progress {t = t} start = grows_start t.progress
History-progress {t = t} (next {u = u} {v = v} p m) =
    grows_trans t.progress u.progress v.progress (History-progress p) m.progress
