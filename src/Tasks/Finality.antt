-- ===== src/Tasks/Finality.antt =====
-- Sequences of saves through a guarded store of src/opencode_a2a/server/task_store.py, and its errors.
use opencode_a2a_serve.Base.Names.{
  String, true, Option, some, List, [], ◌∷◌, ◌≡◌, ◌⊎◌, inl, inr, refl, arith, ap, ◌∙◌, sym,
}
use opencode_a2a_serve.Base.Equality.{string_eq, Bool-cases}
use opencode_a2a_serve.Tasks.Sdk.{
  Sdk, TaskStore, operation_error, other_error, Outcome, returned, raised,
}
use opencode_a2a_serve.Tasks.Policy.{TaskWritePolicy, is_terminal, first_terminal_state_wins}
use opencode_a2a_serve.Tasks.Store.{
  wrap_failure, wrapping, after_read, save_with_read_before_write, policy_aware, guarded,
}

-- What the code relies on of an inner store whose calls may fail: a read tells what is held, and a
-- save changes at most the saved task, also when it raises.
pub record IsLawful (K : Sdk) (S : TaskStore K) : Type 0 where
  pub holds : S.State → String → Option K.Task
  pub get_lem :
      (i : String) (c : K.Context) (s : S.State) (o : Option K.Task)
      → (S.get i c s).0 ≡ returned o
      → o ≡ holds s i
  pub holds-get : (i j : String) (c : K.Context) (s : S.State) → holds (S.get j c s).1 i ≡ holds s i
  pub holds-save :
      (i : String) (t : K.Task) (c : K.Context) (s : S.State)
      → (holds (S.save t c s).1 i ≡ holds s i)
        ⊎ ((i ≡ K.id t) × (holds (S.save t c s).1 i ≡ some t))

-- A failed call of the wrapped store raises `TaskStoreOperationError`, that of an inner store as it
-- is, any other exception as one for this operation and this task.
abbrev pub IsOperationError {ℓ} : {A : Type ℓ} → Outcome A → Type 0
IsOperationError (returned a) = Unit
IsOperationError (raised (operation_error o t)) = Unit
IsOperationError (raised (other_error n)) = ⊥

wrap_failure-IsOperationError {ℓ} :
    {A : Type ℓ} (o : String) (t : Option String) (r : Outcome A)
    → IsOperationError (wrap_failure o t r)
unfolding wrap_failure
wrap_failure-IsOperationError o t (returned a) = tt
wrap_failure-IsOperationError o t (raised (operation_error p u)) = tt
wrap_failure-IsOperationError o t (raised (other_error n)) = tt

wrap_failure-returned {ℓ} :
    {A : Type ℓ} (o : String) (t : Option String) (r : Outcome A) (a : A)
    → wrap_failure o t r ≡ returned a
    → r ≡ returned a
unfolding wrap_failure
wrap_failure-returned o t (returned b) a h = h
wrap_failure-returned o t (raised (operation_error p u)) a h = cc
wrap_failure-returned o t (raised (other_error n)) a h = cc

module _ (K : Sdk) where
  wrapping-IsLawful : (S : TaskStore K) → IsLawful K S → IsLawful K (wrapping K S)
  wrapping-IsLawful S L = record {
    holds = L.holds;
    get_lem =
        λ i c s o h. L.get_lem i c s o (wrap_failure-returned "get" (some i) (S.get i c s).0 o h);
    holds-get = L.holds-get;
    holds-save = L.holds-save;
  }

  -- Only a copy of a terminal task passes the policy.
  judged :
      (existing incoming : K.Task)
      → is_terminal K (K.state existing) ≡ true
      → (first_terminal_state_wins K (some existing) incoming).persist ≡ true
      → (K.state incoming ≡ K.state existing) × (K.model_dump incoming ≡ K.model_dump existing)
  unfolding first_terminal_state_wins
  judged existing incoming t h = ground arith

  module _ (S : TaskStore K) (L : IsLawful K S) where
    -- The store holds a task under the id, in the state and with the contents of `final`.
    pub record HoldsCopy (final : K.Task) (i : String) (s : S.State) : Type 0 where
      pub task : K.Task
      pub is_held : L.holds s i ≡ some task
      pub same_state : K.state task ≡ K.state final
      pub same_dump : K.model_dump task ≡ K.model_dump final

    moved :
        (final : K.Task) (i : String) (s s' : S.State)
        → L.holds s' i ≡ L.holds s i
        → HoldsCopy final i s
        → HoldsCopy final i s'
    moved final i s s' e h = record {
      task = h.task;
      is_held = e ∙ h.is_held;
      same_state = h.same_state;
      same_dump = h.same_dump;
    }

    module _ (final : K.Task) (terminal : is_terminal K (K.state final) ≡ true) (i : String)
        (task : K.Task) (c : K.Context) where
      overwritten :
          (s : S.State) (t0 : K.Task)
          → K.state t0 ≡ K.state final
          → K.model_dump t0 ≡ K.model_dump final
          → (first_terminal_state_wins K (some t0) task).persist ≡ true
          → L.holds s i ≡ some task
          → HoldsCopy final i s
      overwritten s t0 es ed p e =
          let j = judged t0 task (rw es terminal) p in
          record { task = task; is_held = e; same_state = j.0 ∙ es; same_dump = j.1 ∙ ed }

      written :
          (s s' : S.State) (existing : Option K.Task)
          → existing ≡ L.holds s (K.id task)
          → (first_terminal_state_wins K existing task).persist ≡ true
          → (L.holds s' i ≡ L.holds s i) ⊎ ((i ≡ K.id task) × (L.holds s' i ≡ some task))
          → HoldsCopy final i s
          → HoldsCopy final i s'
      written s s' existing e p (inl same) h = moved final i s s' same h
      written s s' existing e p (inr (ei, new)) h =
          let e' : existing ≡ some h.task = e ∙ ap (L.holds s) (sym ei) ∙ h.is_held in
          overwritten s' h.task h.same_state h.same_dump (rw e' at p) new

      after_read-HoldsCopy :
          (r : Outcome (Option K.Task) × S.State) (s : S.State)
          → S.get (K.id task) c s ≡ r
          → HoldsCopy final i s
          → HoldsCopy final i (after_read K S (first_terminal_state_wins K) task c r).1
      unfolding after_read
      after_read-HoldsCopy (raised f, s') s e h =
          moved final i s s'
            (sym (ap (λ (r : Outcome (Option K.Task) × S.State). L.holds r.1 i) e)
              ∙ L.holds-get i (K.id task) c s)
            h
      after_read-HoldsCopy (returned existing, s') s e h =
          let same : L.holds s' (K.id task) ≡ L.holds s (K.id task) =
            sym (ap (λ (r : Outcome (Option K.Task) × S.State). L.holds r.1 (K.id task)) e)
            ∙ L.holds-get (K.id task) (K.id task) c s in
          let h' =
            moved final i s s'
              (sym (ap (λ (r : Outcome (Option K.Task) × S.State). L.holds r.1 i) e)
                ∙ L.holds-get i (K.id task) c s)
              h in
          let reads =
            L.get_lem (K.id task) c s existing
              (ap (λ (r : Outcome (Option K.Task) × S.State). r.0) e) in
          elim (Bool-cases (first_terminal_state_wins K existing task).persist) [
            | inl yes_ ↦ rw yes_ (
                written s' (S.save task c s').1 existing (reads ∙ sym same) yes_
                  (L.holds-save i task c s') h')
            | inr no_ ↦ rw no_ h'
          ]

      save-HoldsCopy :
          (s : S.State)
          → HoldsCopy final i s
          → HoldsCopy final i
              (save_with_read_before_write K S (first_terminal_state_wins K) task c s).1
      unfolding save_with_read_before_write
      save-HoldsCopy s h = after_read-HoldsCopy (S.get (K.id task) c s) s refl h

  -- A sequence of calls of `save`, whatever each one returns or raises.
  unfoldable pub save_all : (S : TaskStore K) → List (K.Task × K.Context) → S.State → S.State
  save_all S [] s = s
  save_all S ((task, c) ∷ rest) s = save_all S rest (S.save task c s).1

  save_all-HoldsCopy :
      (S : TaskStore K) (L : IsLawful K S) (final : K.Task) (i : String)
      → is_terminal K (K.state final) ≡ true
      → (saves : List (K.Task × K.Context)) (s : S.State) → HoldsCopy S L final i s
      → HoldsCopy S L final i (save_all (policy_aware K S (first_terminal_state_wins K)) saves s)
  unfolding save_all
  save_all-HoldsCopy S L final i terminal [] s h = h
  save_all-HoldsCopy S L final i terminal ((task, c) ∷ rest) s h =
      save_all-HoldsCopy S L final i terminal rest _
        (save-HoldsCopy S L final terminal i task c s h)

  -- Once a guarded store over any lawful inner store that is no `DatabaseTaskStore` holds a task
  -- in a terminal state, every later sequence of saves, of any tasks and with any failures, leaves
  -- under its id a task in the same state with the same contents.
  pub terminal_task_is_final :
      (S : TaskStore K) (L : IsLawful K S) (final : K.Task) (i : String)
      (saves : List (K.Task × K.Context)) (s : S.State)
      → is_terminal K (K.state final) ≡ true
      → L.holds s i ≡ some final
      → HoldsCopy S L final i (save_all (guarded K S (first_terminal_state_wins K)) saves s)
  unfolding wrapping-IsLawful
  terminal_task_is_final S L final i saves s terminal h =
      let r =
        save_all-HoldsCopy (wrapping K S) (wrapping-IsLawful S L) final i terminal saves s
          (record { task = final; is_held = h; same_state = refl; same_dump = refl }) in
      record {
        task = r.task;
        is_held = r.is_held;
        same_state = r.same_state;
        same_dump = r.same_dump;
      }

  after_read-IsOperationError :
      (S : TaskStore K) (policy : TaskWritePolicy K) (task : K.Task) (c : K.Context)
      (r : Outcome (Option K.Task) × S.State)
      → IsOperationError r.0
      → IsOperationError (after_read K (wrapping K S) policy task c r).0
  unfolding after_read
  after_read-IsOperationError S policy task c (raised (operation_error o t), s) h = tt
  after_read-IsOperationError S policy task c (raised (other_error n), s) h = absurd h
  after_read-IsOperationError S policy task c (returned existing, s) h =
      elim (Bool-cases (policy existing task).persist) [
        | inl persists ↦
            rw persists
              (wrap_failure-IsOperationError "save" (some (K.id task)) (S.save task c s).0)
        | inr refuses ↦ rw refuses tt
      ]

  -- A call of a guarded store over an inner store that is no `DatabaseTaskStore`, if it fails,
  -- raises a `TaskStoreOperationError`, whatever the inner store raises and whatever the policy
  -- decides.
  pub guarded_errors :
      (S : TaskStore K) (policy : TaskWritePolicy K) (task : K.Task) (i : String) (c : K.Context)
      (s : S.State)
      → IsOperationError ((guarded K S policy).save task c s).0
        × IsOperationError ((guarded K S policy).get i c s).0
        × IsOperationError ((guarded K S policy).delete i c s).0
  guarded_errors S policy task i c s = (
    unfold save_with_read_before_write in
        after_read-IsOperationError S policy task c ((wrapping K S).get (K.id task) c s)
          (wrap_failure-IsOperationError "get" (some (K.id task)) (S.get (K.id task) c s).0),
    wrap_failure-IsOperationError "get" (some i) (S.get i c s).0,
    wrap_failure-IsOperationError "delete" (some i) (S.delete i c s).0,
  )
