-- ===== src/Agent/Processes/Stop/Laws.antt =====
-- What the stop of an instance, agent/src/tasks/process.rs, promises.
use lightai_platform.Prelude.{
  ℕ, String, ◌≡◌, refl, ◌∙◌, true, Option, none, some, List, ◌∷◌, arith, Bool-cases, Option-cases,
  inl, inr, ◌⊎◌, ◌==◌, eq_refl,
}
use lightai_platform.Agent.Launch.{Outcome, ok, err}
use lightai_platform.Agent.Processes.{
  is_docker, container_ref, same_start, check_record, ManagedProcessRecord, ProcessHandle,
  AgentNode, Commands, StoreFile,
}
use lightai_platform.Prelude.Rows.{select_one}
use lightai_platform.Agent.Processes.Store.{find, remove}
use lightai_platform.Agent.Processes.Store.Laws.{removed_is_not_found}
use lightai_platform.Agent.Processes.Stop.{
  stop_container, kill_managed, stop_docker_instance, after_kill, stop_by_record, stop_unregistered,
  stopped, instance_failure, after_child, stop_registered, stop_stored, stop_with,
  stop_model_instance_with_store,
}

module _ (os : Commands) where
  -- The process of the record is alive, and started when the record says, if it says when.
  abbrev pub Confirmed : ManagedProcessRecord → Type 0
  Confirmed r =
      (t : ℕ) × (os.process_start_time r.process_id ≡ some t)
      × (same_start os r.process_start_time t ≡ true)

  kill_managed_sound :
      (r : ManagedProcessRecord) (signals : List ℕ)
      → ((kill_managed os r signals).1 ≡ signals)
        ⊎ (((kill_managed os r signals).1 ≡ r.process_id ∷ signals) × Confirmed r)
  unfolding kill_managed check_record
  kill_managed_sound r signals = elim (Bool-cases (is_docker r)) [
    | inl e ↦ inl (ground (arith, e))
    | inr e ↦ elim (Option-cases (os.process_start_time r.process_id)) [
      | inl gone ↦ inl (ground (arith, e, gone))
      | inr (t, live) ↦ elim (Bool-cases (same_start os r.process_start_time t)) [
        | inl same ↦ inr (ground (arith, e, live, same), (t, live, same))
        | inr other ↦ inl (ground (arith, e, live, other))
      ]
    ]
  ]

  after_kill_signals :
      (id : String) (r : ManagedProcessRecord) (file : StoreFile) (node : AgentNode)
      (x : Option String × List ℕ)
      → (after_kill os id r file node x).1.signals ≡ x.1
  after_kill_signals id r file node (none, signals) = refl
  after_kill_signals id r file node (some e, signals) = refl

  -- /bin/kill was not run, or it was on the process of the record that the store has for the instance
  abbrev pub Signalled : String → AgentNode → AgentNode → Type 0
  Signalled id node after =
      (after.signals ≡ node.signals)
      ⊎ ((file : StoreFile) × (r : ManagedProcessRecord) × (node.store ≡ some file)
          × (find file id ≡ ok (some r))
          × (after.signals ≡ r.process_id ∷ node.signals)
          × Confirmed r)

  by_record-Signalled :
      (id : String) (file : StoreFile) (node : AgentNode)
      (o : Outcome (Option ManagedProcessRecord))
      → node.store ≡ some file
      → find file id ≡ o
      → Signalled id node (stop_by_record os id file node o).1
  by_record-Signalled id file node (err e) s f = inl refl
  by_record-Signalled id file node (ok none) s f = inl refl
  by_record-Signalled id file node (ok (some r)) s f =
      let x = kill_managed os r node.signals in
      elim (kill_managed_sound r node.signals) [
        | inl e ↦ inl (after_kill_signals id r file node x ∙ e)
        | inr (e, c) ↦ inr (file, r, s, f, after_kill_signals id r file node x ∙ e, c)
      ]

  unregistered-Signalled :
      (id : String) (node : AgentNode) (o : Option StoreFile)
      → node.store ≡ o
      → Signalled id node (stop_unregistered os id node o).1
  unregistered-Signalled id node none s = inl refl
  unregistered-Signalled id node (some file) s =
      by_record-Signalled id file node (find file id) s refl

  after_child-signals :
      (id : String) (handle : ProcessHandle) (node : AgentNode) (file : Option StoreFile)
      (o : Option String)
      → (after_child os id handle node file o).1.signals ≡ node.signals
  after_child-signals id handle node file (some e) = refl
  after_child-signals id handle node none none = refl
  after_child-signals id handle node (some file) none = refl

  registered-Signalled :
      (id : String) (node : AgentNode) (o : Option ProcessHandle)
      → Signalled id node (stop_registered os id node o).1
  registered-Signalled id node none = unregistered-Signalled id node node.store refl
  registered-Signalled id node (some handle) = inl (after_child-signals id handle _ _ _)

  stored-Signalled :
      (id : String) (node : AgentNode) (file : StoreFile) (o : Option ManagedProcessRecord)
      → Signalled id node (stop_stored os id node file o).1
  stored-Signalled id node file none = registered-Signalled id node _
  stored-Signalled id node file (some r) = inl (quiet (stop_container os (container_ref r)))
    where
      quiet :
          (o : Option String) → (stop_docker_instance os id r file node o).1.signals ≡ node.signals
      quiet none = refl
      quiet (some e) = refl

  with-Signalled :
      (id : String) (node : AgentNode) (o : Option StoreFile)
      → Signalled id node (stop_with os id node o).1
  with-Signalled id node none = registered-Signalled id node _
  with-Signalled id node (some file) = stored-Signalled id node file _

  -- The stop of an instance runs /bin/kill on no process, or on that of the record which the store has
  -- for the instance, and only while a process of that number is alive which started when the record
  -- says, if it says when.
  pub stop-Signalled :
      (id : String) (node : AgentNode)
      → Signalled id node (stop_model_instance_with_store os id node).1
  unfolding stop_model_instance_with_store
  stop-Signalled id node = with-Signalled id node node.store

  unknown_is_refused :
      (id : String) (file : StoreFile) (node : AgentNode)
      → node.store ≡ some file
      → find file id ≡ ok none
      → select_one (λ h. h.instance_id == id) node.registry ≡ none
      → (stop_model_instance_with_store os id node).0
        ≡ instance_failure
            "no platform managed process record found; refusing to stop this instance"
  unfolding stop_model_instance_with_store
  unknown_is_refused id file node s f n = rw (s, f, n, f) refl

  -- A container that docker fails to stop is answered as stopped, with the error as the message. Where
  -- the store can be written, its record is gone from the store then, and, with no child of that
  -- instance in the registry, a second stop is refused because it finds none.
  pub failed_stop_is_forgotten :
      (id ref message : String) (r : ManagedProcessRecord) (file : StoreFile) (node : AgentNode)
      → node.store ≡ some file
      → find file id ≡ ok (some r)
      → r.deploy_type ≡ some "docker"
      → container_ref r ≡ some ref
      → os.docker_stop ref ≡ some message
      → ((records : List ManagedProcessRecord) → os.write records ≡ none)
      → select_one (λ h. h.instance_id == id) node.registry ≡ none
      → let first = stop_model_instance_with_store os id node in
        (first.0 ≡ stopped message r.command)
        × ((left : StoreFile) × (first.1.store ≡ some left) × (find left id ≡ ok none))
        × ((stop_model_instance_with_store os id first.1).0
            ≡ instance_failure
                "no platform managed process record found; refusing to stop this instance")
  unfolding stop_model_instance_with_store
  failed_stop_is_forgotten id ref message r file node s f d c e writable no_child =
      let left = (remove os file id).1 in
      let gone = removed_is_not_found os id file r f writable in
      let docker : is_docker r ≡ true = rw d (eq_refl "docker") in
      let stopping : stop_container os (container_ref r) ≡ some message = rw (c, e) refl in
      let first : stop_model_instance_with_store os id node
          ≡ (stopped message r.command, record node { store = some left }) =
        rw (s, f, docker, stopping) refl in
      rw first (
        refl,
        (left, refl, gone),
        unknown_is_refused id left (record node { store = some left }) refl gone no_child,
      )
