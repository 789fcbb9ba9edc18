-- ===== src/Tasks/Workers.antt =====
-- Workers that share the tables of `TaskRuntime` in groupmate/social_runtime/tasks/runtime.py: each
-- transaction is one step, and between the load of a task and its save any other step may come.
use astrbot_plugin_groupmate.Prelude.{
  ℕ, pos, String, ◌≡◌, ap, ◌⊎◌, inl, inr, true, some, List, [], ◌∷◌, ◌++◌, All, All-append,
  All-map_of,
}
use astrbot_plugin_groupmate.Result.{Result, ok}
use astrbot_plugin_groupmate.Exec.{Exec}
use astrbot_plugin_groupmate.Delivery.Contracts.{optional_text}
use astrbot_plugin_groupmate.Tasks.Contracts.{
  Library, CapabilityDescriptor, CapabilityRequest, ProviderEvent, TaskStatus,
}
use astrbot_plugin_groupmate.Tasks.TaskRun.{TaskRun}
use astrbot_plugin_groupmate.Tasks.Store.{TaskStore, load, list_status}
use astrbot_plugin_groupmate.Tasks.Runtime.{propose, start_loaded, confirm_loaded}
use astrbot_plugin_groupmate.Tasks.Events.{is_running, apply_loaded, cancel_loaded, expire_loaded}
use astrbot_plugin_groupmate.Tasks.Recover.{mark_unknown}
use astrbot_plugin_groupmate.Tasks.Sound.{IsSound}
use astrbot_plugin_groupmate.Tasks.Normal.{IsLower}
use astrbot_plugin_groupmate.Tasks.Acts.{
  Acts, stays, saves, start_loaded-Acts, confirm_loaded-Acts, cancel_loaded-Acts,
  expire_loaded-Acts, mark_unknown-Acts,
}
use astrbot_plugin_groupmate.Tasks.Applies.{IsBuilt, apply_loaded-Acts}
use astrbot_plugin_groupmate.Tasks.Consistent.{
  IsConsistent, Extends, Extends-refl, Extends-trans, IsPast, Extends-IsPast,
}
use astrbot_plugin_groupmate.Tasks.Saved.{Saved, refused, saved, save-Saved}
use astrbot_plugin_groupmate.Tasks.Loaded.{load-IsPast}
use astrbot_plugin_groupmate.Tasks.Listed.{IsHeld, list_status-IsHeld}
use astrbot_plugin_groupmate.Tasks.Proposed.{HasFields, IsDigest, propose-Extends}

-- What a method does with a task that it holds.
pub data Use : Type 0 where
  to_start : ℕ → Use
  to_confirm : String → ℕ → Use
  to_apply : ProviderEvent → Use
  to_cancel to_expire : ℕ → Use
  to_mark : String → ℕ → Use

abbrev pub run_use : TaskRun → Use → Exec TaskStore TaskRun
run_use t (to_start now) = start_loaded t (pos now)
run_use t (to_confirm confirmer_id now) = confirm_loaded t confirmer_id (pos now)
run_use t (to_apply e) = apply_loaded t e
run_use t (to_cancel now) = cancel_loaded t (pos now)
run_use t (to_expire now) = expire_loaded t (pos now)
run_use t (to_mark code now) = mark_unknown t (pos now) code

-- An event is one that was built; only a running task is marked, with a code that is a text.
abbrev pub IsFit : Library → TaskRun → Use → Type 0
IsFit lib t (to_apply e) = IsBuilt lib e
IsFit lib t (to_mark code now) =
    (is_running t.status ≡ true) × (optional_text (some code) ≡ ok (some code))
IsFit lib t _ = Unit

pub use-Acts :
    (lib : Library) (t : TaskRun) (s : TaskStore) (u : Use)
    → IsSound lib t
    → IsFit lib t u
    → Acts lib t s (run_use t u s)
use-Acts lib t s (to_start now) sound fit = start_loaded-Acts lib t sound now s
use-Acts lib t s (to_confirm confirmer_id now) sound fit =
    confirm_loaded-Acts lib t sound now s confirmer_id
use-Acts lib t s (to_apply e) sound fit = apply_loaded-Acts lib t sound e fit s
use-Acts lib t s (to_cancel now) sound fit = cancel_loaded-Acts lib t sound now s
use-Acts lib t s (to_expire now) sound fit = expire_loaded-Acts lib t sound now s
use-Acts lib t s (to_mark code now) sound fit = mark_unknown-Acts lib t sound now s code fit.0 fit.1

pub Acts-Extends :
    (lib : Library) (t : TaskRun) (s : TaskStore) (x : Result TaskRun × TaskStore)
    → IsConsistent lib s
    → IsPast lib s t
    → Acts lib t s x
    → Extends lib s x.1
Acts-Extends lib t s x c past (stays r e) =
    rw (ap (λ (y : Result TaskRun × TaskStore). y.1) e) (Extends-refl lib s c)
Acts-Extends lib t s x c past (saves u event_id event_type event_json at m e) =
    rw e (by_outcome (save-Saved lib t u s c m past event_id event_type event_json at))
  where
    by_outcome : {y : Result TaskRun × TaskStore} → Saved lib t u s y → Extends lib s y.1
    by_outcome (refused x e) =
        rw (ap (λ (y : Result TaskRun × TaskStore). y.1) e) (Extends-refl lib s c)
    by_outcome (saved s' e held rows more) =
        rw (ap (λ (y : Result TaskRun × TaskStore). y.1) e) more

pub record World : Type 0 where
  pub store : TaskStore
  pub held : List TaskRun

abbrev pub In : TaskRun → List TaskRun → Type 0
In t [] = ⊥
In t (x ∷ xs) = (x ≡ t) ⊎ In t xs

pub data Step (lib : Library) (w : World) : World → Type 0 where
  proposes :
      (d : CapabilityDescriptor) (r : CapabilityRequest) (now : ℕ)
      → HasFields lib d
      → Step lib w (record w { store = (propose lib d r (pos now) w.store).1 })
  loads :
      (id : String) (t : TaskRun) (s : TaskStore)
      → load lib id w.store ≡ (ok t, s)
      → Step lib w (record w { held = t ∷ w.held })
  lists :
      (status : TaskStatus) (ts : List TaskRun) (s : TaskStore)
      → list_status lib status w.store ≡ (ok ts, s)
      → Step lib w (record w { held = ts ++ w.held })
  uses :
      (t : TaskRun) (u : Use)
      → In t w.held
      → IsFit lib t u
      → Step lib w (record w { store = (run_use t u w.store).1 })

pub data Reaches (lib : Library) (start : World) : World → Type 0 where
  here : Reaches lib start start
  next : {w w' : World} → Reaches lib start w → Step lib w w' → Reaches lib start w'

-- Consistent tables, and held tasks that are of their past.
pub record Fits (lib : Library) (w : World) : Type 0 where
  pub consistent : IsConsistent lib w.store
  pub held : All (IsHeld lib w.store) w.held

pub in-All : (P : TaskRun → Type 0) (t : TaskRun) (ts : List TaskRun) → All P ts → In t ts → P t
in-All P t [] h m = absurd m
in-All P t (x ∷ xs) h (inl e) = rw (← e) h.0
in-All P t (x ∷ xs) h (inr m) = in-All P t xs h.1 m

still_held :
    (lib : Library) (s s' : TaskStore) (ts : List TaskRun)
    → Extends lib s s'
    → All (IsHeld lib s) ts
    → All (IsHeld lib s') ts
still_held lib s s' ts x h = All-map_of (λ t k. (k.0, Extends-IsPast lib s s' t x k.1)) ts h

module _ (lib : Library) (law : IsLower lib) (digest : IsDigest lib) where
  pub Step-Fits :
      {w w' : World} → Step lib w w' → Fits lib w → Fits lib w' × Extends lib w.store w'.store
  Step-Fits {w} (proposes d r now fields) f =
      let x = propose-Extends lib law digest d r now w.store fields f.consistent in
      (record { consistent = x.consistent; held = still_held lib w.store _ w.held x f.held }, x)
  Step-Fits {w} (loads id t s h) f =
      let (same, sound, past, key) = load-IsPast lib w.store f.consistent id t s h in
      (
        record { consistent = f.consistent; held = ((sound, past), f.held) },
        Extends-refl lib w.store f.consistent,
      )
  Step-Fits {w} (lists status ts s h) f =
      let (same, listed) = list_status-IsHeld lib status w.store s ts f.consistent h in
      (
        record {
          consistent = f.consistent;
          held =
              All-append (IsHeld lib w.store) ts w.held (All-map_of (λ t k. k.0) ts listed) f.held;
        },
        Extends-refl lib w.store f.consistent,
      )
  Step-Fits {w} (uses t u there fit) f =
      let (sound, past) = in-All (IsHeld lib w.store) t w.held f.held there in
      let x = Acts-Extends lib t w.store _ f.consistent past (use-Acts lib t w.store u sound fit) in
      (record { consistent = x.consistent; held = still_held lib w.store _ w.held x f.held }, x)

  pub Reaches-Fits :
      {w w' : World} → Fits lib w → Reaches lib w w' → Fits lib w' × Extends lib w.store w'.store
  Reaches-Fits {w} f here = (f, Extends-refl lib w.store f.consistent)
  Reaches-Fits {w} f (next {w = v} {w' = v'} run step) =
      let (g, x) = Reaches-Fits f run in
      let (k, y) = Step-Fits step g in (k, Extends-trans lib w.store v.store v'.store x y)
