-- ===== src/Provisioner/Machine/GetRetries.antt =====
-- State requests that time out, in `example_ble_mesh_generic_client_cb` of
-- esp_ble_mesh/provisioner/main/main.c.
use mathlib.Core.Path.{subst}
use esp32_ble_mesh.Base.{
  List, [], ap, arith, false, refl, replicate, replicate-snoc, some, suc, sym, update, zero, ℕ,
  ◌++◌, ◌+◌, ◌-◌, ◌<◌, ◌∙◌, ◌∷◌, ◌≡◌, ◌≤◌,
}
use esp32_ble_mesh.Provisioner.GenericClient.{
  GenericEvent, GenericReply, generic_client_cb, on_generic_event, on_get_timeout, resend_get,
}
use esp32_ble_mesh.Provisioner.Invariant.Defs.{Inv}
use esp32_ble_mesh.Provisioner.Machine.{Step, generic, run, step}
use esp32_ble_mesh.Provisioner.Machine.Setup.{Asked, asked}
use esp32_ble_mesh.Provisioner.Nodes.{get_node_info}
use esp32_ble_mesh.Provisioner.Nodes.Lookup.{get_node_info-lt}
use esp32_ble_mesh.Provisioner.Requests.{send_get}
use esp32_ble_mesh.Provisioner.State.{Env, Opcode, Provisioner, farmely_max_retries, gen_onoff_get}

-- From `s` to `t` the requests `l` were sent, `n` is the retry counter of the node `i` for its state,
-- and no command is in flight for it.
abbrev pub GetCounted : ℕ → ℕ → List (Opcode × ℕ) → Provisioner → Provisioner → Type 0
GetCounted i n l s t = Asked l s t × (t.get_retries i ≡ n) × ((t.pending i).in_flight ≡ false)

module _ (env : Env) (i : ℕ) (inside : i < env.max_nodes) (s : Provisioner)
    (idle : (s.pending i).in_flight ≡ false) where
  get_next :
      s.get_retries i < 3
      → GetCounted i
          (s.get_retries i + 1)
          ((gen_onoff_get, (s.nodes i).unicast) ∷ [])
          s
          (on_get_timeout env i s).1
  unfolding on_get_timeout resend_get send_get update
  get_next h = ground arith

  get_last : 3 ≤ s.get_retries i → GetCounted i 0 [] s (on_get_timeout env i s).1
  unfolding on_get_timeout update
  get_last h = ground arith

abbrev get_reply : ℕ → GenericReply
get_reply addr = record { error_code = 0; opcode = gen_onoff_get; addr = addr; present_onoff = 0 }

-- A time-out of a state request.
abbrev pub get_timeout : ℕ → Step
get_timeout addr = generic GenericEvent.timeout_event (get_reply addr)

module _ (env : Env) (i addr : ℕ) where
  get_timeout_handled :
      (s : Provisioner)
      → get_node_info env s.nodes addr ≡ some i
      → (generic_client_cb env GenericEvent.timeout_event (get_reply addr) s).1
        ≡ (on_get_timeout env i s).1
  unfolding generic_client_cb on_generic_event
  get_timeout_handled s e = rw e refl

  step-get_timeout :
      (s : Provisioner)
      → get_node_info env s.nodes addr ≡ some i
      → step env (get_timeout addr) s ≡ (on_get_timeout env i s).1
  unfolding step
  step-get_timeout s e = get_timeout_handled s e

  -- With `k` retries left.
  repeat_get :
      (k : ℕ) (s : Provisioner)
      → get_node_info env s.nodes addr ≡ some i
      → (s.pending i).in_flight ≡ false
      → s.get_retries i + k ≡ 3
      → GetCounted i 0
          (replicate k (gen_onoff_get, (s.nodes i).unicast))
          s
          (run env (replicate (suc k) (get_timeout addr)) s)
  unfolding run
  repeat_get zero s e idle budget =
      subst (GetCounted i 0 [] s) (sym (step-get_timeout s e))
        (get_last env i (get_node_info-lt env s.nodes addr e) s idle (omega arith))
  repeat_get (suc k) s e idle budget =
      let u : Provisioner = step env (get_timeout addr) s in
      let (once, counted, quiet) =
        subst (GetCounted i (s.get_retries i + 1) ((gen_onoff_get, (s.nodes i).unicast) ∷ []) s)
          (sym (step-get_timeout s e))
          (get_next env i (get_node_info-lt env s.nodes addr e) s idle (omega arith)) in
      let (rest, done, still) =
        repeat_get k u (ap (λ nodes. get_node_info env nodes addr) once.1 ∙ e) quiet
          (omega (arith, counted)) in
      let request : Opcode × ℕ = (gen_onoff_get, (s.nodes i).unicast) in
      (
        (
          rest.0
              ∙ ((λ j. replicate k (gen_onoff_get, (once.1 j i).unicast) ++ asked u.log)
                  ∙ (ap (λ l. replicate k request ++ l) once.0
                      ∙ replicate-snoc k request (asked s.log))),
          rest.1 ∙ once.1,
        ),
        done,
        still,
      )

-- A request for the state of a node without a command in flight that keeps timing out is repeated
-- exactly as often as the node has retries left, whatever the stack answers; the time-out after that
-- sends nothing, and starts the counter anew.
pub get_timeouts_repeat :
    (env : Env) (i addr : ℕ) (s : Provisioner)
    → get_node_info env s.nodes addr ≡ some i
    → (s.pending i).in_flight ≡ false
    → Inv s
    → let left : ℕ = farmely_max_retries - s.get_retries i in
      GetCounted i 0
        (replicate left (gen_onoff_get, (s.nodes i).unicast))
        s
        (run env (replicate (suc left) (get_timeout addr)) s)
get_timeouts_repeat env i addr s e idle v =
    repeat_get env i addr (farmely_max_retries - s.get_retries i) s e idle
      (omega (arith, v.gets_capped i))
