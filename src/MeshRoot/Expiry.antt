-- ===== src/MeshRoot/Expiry.antt =====
-- `root_expire_stale_nodes` of internal_communication/main/mesh_main.c.
use mathlib.Core.Path.{subst}
use native.Mathlib.Decide.{ℕ_discrete}
use esp32_ble_mesh.Base.{
  Bool, Bool-cases, ap, arith, false, if◌then◌else◌, inl, inr, leb, ltb, refl, suc, true, update,
  update_lem, zero, ℕ, ◌&&◌, ◌+◌, ◌<◌, ◌==◌, ◌∙◌, ◌≡◌,
}
use esp32_ble_mesh.MeshRoot.Lookup.{nodes-root_publish_node_status}
use esp32_ble_mesh.MeshRoot.Reports.{expire, expire_from, is_stale, root_expire_stale_nodes}
use esp32_ble_mesh.MeshRoot.State.{Config, NodeEntry, Root}

-- What becomes of an entry.
abbrev pub expired : ℕ → NodeEntry → NodeEntry
expired now_us n = if is_stale now_us n then record n { online = false } else n

module _ (config : Config) (now now_us : ℕ) where
  -- One round, at the entry `i`.
  nodes-expire_silent :
      (i : ℕ) (s : Root)
      → is_stale now_us (s.nodes i) ≡ true
      → (expire config now now_us i s).1.nodes
        ≡ update s.nodes i (record (s.nodes i) { online = false })
  unfolding expire
  nodes-expire_silent i s e = rw e (nodes-root_publish_node_status config now _ _)

  nodes-expire_fresh :
      (i : ℕ) (s : Root)
      → is_stale now_us (s.nodes i) ≡ false
      → (expire config now now_us i s).1.nodes ≡ s.nodes
  unfolding expire
  nodes-expire_fresh i s e = rw e refl

  nodes-expire :
      (i : ℕ) (s : Root) (j : ℕ)
      → (expire config now now_us i s).1.nodes j
        ≡ (if i == j then expired now_us (s.nodes j) else s.nodes j)
  nodes-expire i s j = elim (Bool-cases (is_stale now_us (s.nodes i))) [
    | inl e ↦
        ap (λ nodes. nodes j) (nodes-expire_silent i s e)
        ∙ (update_lem s.nodes i (record (s.nodes i) { online = false }) j ∙ elim (ℕ_discrete i j) [
          | yes same ↦
              subst
                (λ x.
                  (if i == x then record (s.nodes i) { online = false } else s.nodes x)
                  ≡ (if i == x then expired now_us (s.nodes x) else s.nodes x))
                same (ground (arith, e))
          | no apart ↦ ground arith
        ])
    | inr e ↦ ap (λ nodes. nodes j) (nodes-expire_fresh i s e) ∙ elim (ℕ_discrete i j) [
      | yes same ↦
          subst (λ x. s.nodes x ≡ (if i == x then expired now_us (s.nodes x) else s.nodes x)) same
            (ground (arith, e))
      | no apart ↦ ground arith
    ]
  ]

  abbrev in_range : ℕ → ℕ → ℕ → Bool
  in_range k i j = leb i j && ltb j (i + k)

  nodes-expire_from :
      (k i : ℕ) (s : Root) (j : ℕ)
      → (expire_from config now now_us k i s).1.nodes j
        ≡ (if in_range k i j then expired now_us (s.nodes j) else s.nodes j)
  unfolding expire_from
  nodes-expire_from zero i s j = ground arith
  nodes-expire_from (suc k) i s j =
      ground
        (arith, nodes-expire i s j, nodes-expire_from k (suc i) (expire config now now_us i s).1 j)

-- An entry in use that is online, not the root's, and silent for more than 30 seconds.
abbrev pub Silent : ℕ → NodeEntry → Type 0
Silent now_us n =
    (n.used ≡ true) × (n.online ≡ true) × (n.is_root ≡ 0) × (n.last_seen_us + 30000000 < now_us)

expired-Silent :
    (now_us : ℕ) (n : NodeEntry) → Silent now_us n → expired now_us n ≡ record n { online = false }
expired-Silent now_us n h = ground arith

is_stale-Silent : (now_us : ℕ) (n : NodeEntry) → is_stale now_us n ≡ true → Silent now_us n
is_stale-Silent now_us n h = (ground arith, ground arith, ground arith, ground arith)

expired-other : (now_us : ℕ) (n : NodeEntry) → ¬ Silent now_us n → expired now_us n ≡ n
expired-other now_us n h = elim (Bool-cases (is_stale now_us n)) [
  | inl e ↦ absurd (h (is_stale-Silent now_us n e))
  | inr e ↦ rw e refl
]

-- An expiry marks each entry that is in use, online, not the root's and silent for more than
-- 30 seconds as offline, and changes nothing else of it; every other entry stays as it was.
pub nodes-root_expire_stale_nodes :
    (config : Config) (now now_us : ℕ) (s : Root) (i : ℕ)
    → i < config.max_nodes
    → let t = (root_expire_stale_nodes config now now_us s).1 in
      (Silent now_us (s.nodes i) → t.nodes i ≡ record (s.nodes i) { online = false })
      × (¬ Silent now_us (s.nodes i) → t.nodes i ≡ s.nodes i)
unfolding root_expire_stale_nodes
nodes-root_expire_stale_nodes config now now_us s i inside =
    let whole : (root_expire_stale_nodes config now now_us s).1.nodes i
        ≡ expired now_us (s.nodes i) =
      ground (arith, nodes-expire_from config now now_us config.max_nodes 0 s i) in
    (
      λ h. whole ∙ expired-Silent now_us (s.nodes i) h,
      λ h. whole ∙ expired-other now_us (s.nodes i) h,
    )
