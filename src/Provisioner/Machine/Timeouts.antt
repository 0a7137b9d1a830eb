-- ===== src/Provisioner/Machine/Timeouts.antt =====
-- Set requests of esp_ble_mesh/provisioner/main/main.c that time out.
use esp32_ble_mesh.Base.{
  ==_iff, [], ap, arith, false, inl, inr, refl, replicate, some, suc, true, update, zero, ℕ, ◌+◌,
  ◌-◌, ◌<◌, ◌==◌, ◌∙◌, ◌∷◌, ◌≡◌, ◌≤◌, ◌⊎◌,
}
use esp32_ble_mesh.Provisioner.Commands.{clear_pending}
use esp32_ble_mesh.Provisioner.GenericClient.{
  GenericEvent, GenericReply, generic_client_cb, is_set_unack, on_generic_event, on_set_timeout,
  resend_onoff,
}
use esp32_ble_mesh.Provisioner.Invariant.Defs.{Inv}
use esp32_ble_mesh.Provisioner.Machine.{Step, generic, run, step}
use esp32_ble_mesh.Provisioner.Nodes.{get_node_info}
use esp32_ble_mesh.Provisioner.Nodes.Lookup.{get_node_info-lt}
use esp32_ble_mesh.Provisioner.Requests.{send_onoff_request}
use esp32_ble_mesh.Provisioner.State.{
  Env, Log, Provisioner, farmely_max_retries, gen_onoff_set, no_command, sent,
}

-- The requests that were sent.
abbrev pub requests : Log → ℕ
requests [] = 0
requests (sent _ ∷ es) = suc (requests es)
requests (_ ∷ es) = requests es

module _ (env : Env) (i : ℕ) (s : Provisioner) where
  -- The state after a time-out of a set.
  abbrev after : Provisioner
  after = (on_set_timeout env i s).1

  nodes-on_set_timeout : after.nodes ≡ s.nodes
  unfolding on_set_timeout resend_onoff send_onoff_request clear_pending
  nodes-on_set_timeout = ground arith

  module _ (inside : i < env.max_nodes) (flying : (s.pending i).in_flight ≡ true) where
    -- The last time-out.
    timeout_last :
        3 ≤ (s.pending i).retries
        → (after.pending i ≡ no_command) × (requests after.log ≡ requests s.log)
    unfolding on_set_timeout clear_pending update
    timeout_last h = ground arith

    -- The others: either the request is sent once more, or it fails and the command is given up.
    timeout_next :
        (s.pending i).retries < 3
        → (requests after.log ≡ requests s.log + 1)
          × ((after.pending i ≡ no_command)
              ⊎ (((after.pending i).in_flight ≡ true)
                  × ((after.pending i).retries ≡ (s.pending i).retries + 1)))
    unfolding on_set_timeout resend_onoff send_onoff_request clear_pending update
    timeout_next h = ground arith

-- A time-out of a set request to the node `i`.
pub record IsSetTimeout (env : Env) (reply : GenericReply) (i : ℕ) (s : Provisioner) : Type 0 where
  pub is_set : reply.opcode ≡ gen_onoff_set
  pub no_error : reply.error_code ≡ 0
  pub from_node : get_node_info env s.nodes reply.addr ≡ some i

module _ (env : Env) (reply : GenericReply) (i : ℕ) where
  abbrev timeout : Step
  timeout = generic GenericEvent.timeout_event reply

  -- The reply reaches the switch over the events.
  handle :
      (ev : GenericEvent) (s : Provisioner)
      → is_set_unack reply.opcode ≡ false
      → (reply.error_code == 0) ≡ true
      → get_node_info env s.nodes reply.addr ≡ some i
      → (generic_client_cb env ev reply s).1 ≡ (on_generic_event env i reply ev reply.opcode s).1
  unfolding generic_client_cb
  handle ev s e f g = rw (e, f, g)

  step-timeout :
      (s : Provisioner)
      → IsSetTimeout env reply i s
      → step env timeout s ≡ (on_set_timeout env i s).1
  unfolding step on_generic_event
  step-timeout s h =
      handle GenericEvent.timeout_event s (ap is_set_unack h.is_set)
        ((==_iff reply.error_code 0).1 h.no_error) h.from_node
      ∙ ap (λ op. (on_generic_event env i reply GenericEvent.timeout_event op s).1) h.is_set

  run_none : (s : Provisioner) → run env [] s ≡ s
  unfolding run
  run_none s = refl

  run-timeout :
      (n : ℕ) (s : Provisioner)
      → IsSetTimeout env reply i s
      → run env (replicate (suc n) timeout) s
        ≡ run env (replicate n timeout) (on_set_timeout env i s).1
  unfolding run
  run-timeout n s h = ap (run env (replicate n timeout)) (step-timeout s h)

  next_timeout :
      (s : Provisioner) → IsSetTimeout env reply i s → IsSetTimeout env reply i (step env timeout s)
  next_timeout s h = record {
    is_set = h.is_set;
    no_error = h.no_error;
    from_node = rw (step-timeout s h, nodes-on_set_timeout env i s) h.from_node;
  }

  -- A cleared entry stays cleared, and nothing is sent.
  timeout_idle :
      (s : Provisioner) → (s.pending i).in_flight ≡ false → on_set_timeout env i s ≡ (tt, s)
  unfolding on_set_timeout
  timeout_idle s h = ground arith

  idle_run :
      (n : ℕ) (s : Provisioner)
      → IsSetTimeout env reply i s
      → (s.pending i).in_flight ≡ false
      → run env (replicate n timeout) s ≡ s
  unfolding run
  idle_run zero s h e = refl
  idle_run (suc n) s h e =
      run-timeout n s h
      ∙ (ap (run env (replicate n timeout)) (ap (λ p. p.1) (timeout_idle s e)) ∙ idle_run n s h e)

  -- One time-out more, while the command is in flight.
  module _ (inside : i < env.max_nodes) where
    -- The command is given up after as many time-outs as it has retries left, and one.
    give_up :
        (k : ℕ) (t : Provisioner)
        → IsSetTimeout env reply i t
        → (t.pending i).in_flight ≡ true
        → (t.pending i).retries + k ≡ 3
        → ((run env (replicate (suc k) timeout) t).pending i ≡ no_command)
          × (requests (run env (replicate (suc k) timeout) t).log ≤ requests t.log + k)
    give_up zero t ht flying budget =
        rw (run-timeout 0 t ht, run_none) (ground (arith, timeout_last env i t inside flying))
    give_up (suc k) t ht flying budget =
        let u : Provisioner = (on_set_timeout env i t).1 in
        let next : IsSetTimeout env reply i u = rw (step-timeout t ht) at (next_timeout t ht) in
        let (once, outcome) = timeout_next env i t inside flying (omega arith) in
        rw (run-timeout (suc k) t ht) (elim outcome [
          | inl cleared ↦
              let same : run env (replicate (suc k) timeout) u ≡ u =
                idle_run (suc k) u next (rw cleared) in
              rw same (cleared, omega arith)
          | inr (again, counted) ↦
              let rest = give_up k u next again (omega arith) in (rest.0, omega arith)
        ])

-- From any state that keeps the invariant, a command in flight whose set requests time out again and
-- again is sent again at most as often as it has retries left, and the time-out after the last one
-- clears its entry, whatever the stack answers in between: a retry that cannot be sent gives it up at
-- once.
pub set_timeouts_give_up :
    (env : Env) (reply : GenericReply) (i : ℕ) (s : Provisioner)
    → Inv s
    → IsSetTimeout env reply i s
    → (s.pending i).in_flight ≡ true
    → let left : ℕ = farmely_max_retries - (s.pending i).retries in
      let t = run env (replicate (suc left) (generic GenericEvent.timeout_event reply)) s in
      (t.pending i ≡ no_command) × (requests t.log ≤ requests s.log + left)
set_timeouts_give_up env reply i s v h flying =
    give_up env reply i (get_node_info-lt env s.nodes reply.addr h.from_node) _ s h flying
      (omega (arith, (v.commands i).retries_capped))
