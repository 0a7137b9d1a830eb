-- ===== src/Ota/Verified/Hashed.antt =====
-- The data that internal_communication/main/mesh_ota.c feeds to the hash.
use esp32_ble_mesh.Base.{
  Bool-cases, List, Option, [], ap, arith, false, if◌then◌else◌, inl, inr, none, refl, some, sym,
  true, ℕ, ◌++◌, ◌==◌, ◌||◌, ◌∙◌, ◌∷◌, ◌≡◌,
}
use esp32_ble_mesh.Ota.State.{Codes, Psa}
use esp32_ble_mesh.Ota.Task.{
  Call, Download, Hash, HttpEvent, download, handle_events, hash_piece, http_event_handler, on_data,
  other_event, perform_loop,
}

-- The pieces of data that the events bring, those that are not empty.
abbrev pub pieces : List HttpEvent → List (List ℕ)
pieces [] = []
pieces (on_data none ∷ es) = pieces es
pieces (on_data (some []) ∷ es) = pieces es
pieces (on_data (some (b ∷ bs)) ∷ es) = (b ∷ bs) ∷ pieces es
pieces (other_event ∷ es) = pieces es

-- The events of the loop: of the calls up to the first that does not say "in progress".
abbrev pub loop_events : ℕ → List Call → List HttpEvent
loop_events in_progress [] = []
loop_events in_progress (c ∷ cs) =
    let rest = loop_events in_progress cs in c.events ++ (if c.err == in_progress then rest else [])

pieces-append : (xs ys : List HttpEvent) → pieces (xs ++ ys) ≡ pieces xs ++ pieces ys
pieces-append [] ys = refl
pieces-append (on_data none ∷ es) ys = pieces-append es ys
pieces-append (on_data (some []) ∷ es) ys = pieces-append es ys
pieces-append (on_data (some (b ∷ bs)) ∷ es) ys = ap (λ l. (b ∷ bs) ∷ l) (pieces-append es ys)
pieces-append (other_event ∷ es) ys = pieces-append es ys

module _ {H : Type 0} (psa : Psa H) where
  -- The operation after the hash of the pieces in order; `none` if a call fails.
  abbrev pub hash_all : H → List (List ℕ) → Option H
  hash_all op [] = some op
  hash_all op (b ∷ bs) =
      let rest = hash_all (psa.hash_update op b).1 bs in
      if (psa.hash_update op b).0 == 0 then rest else none

  hash_all-append :
      (xs ys : List (List ℕ)) (op : H) {mid : H}
      → hash_all op xs ≡ some mid
      → hash_all op (xs ++ ys) ≡ hash_all mid ys
  hash_all-append [] ys op h = ground arith
  hash_all-append (b ∷ bs) ys op {mid} h = elim (Bool-cases ((psa.hash_update op b).0 == 0)) [
    | inl e ↦ rw e (hash_all-append bs ys (psa.hash_update op b).1 {mid = mid} (ground arith))
    | inr e ↦ absurd (ground arith)
  ]

  -- From `h` to `t` the events were hashed without a failure.
  abbrev pub Fed : Hash H → List HttpEvent → Hash H → Type 0
  Fed h es t =
      (hash_all h.sha_op (pieces es) ≡ some t.sha_op)
      × (h.sha_failed ≡ false)
      × (t.sha_started ≡ true)

  event-Fed :
      (e : HttpEvent) (h : Hash H)
      → h.sha_started ≡ true
      → (http_event_handler psa e h).sha_failed ≡ false
      → Fed h (e ∷ []) (http_event_handler psa e h)
  unfolding http_event_handler hash_piece
  event-Fed (on_data none) h started clean = (refl, clean, started)
  event-Fed other_event h started clean = (refl, clean, started)
  event-Fed (on_data (some [])) h started clean = (ground arith, ground arith, ground arith)
  event-Fed (on_data (some (b ∷ bs))) h started clean = (ground arith, ground arith, ground arith)

  event-started :
      (e : HttpEvent) (h : Hash H)
      → h.sha_started ≡ true
      → (http_event_handler psa e h).sha_started ≡ true
  unfolding http_event_handler hash_piece
  event-started (on_data none) h started = started
  event-started other_event h started = started
  event-started (on_data (some [])) h started = ground arith
  event-started (on_data (some (b ∷ bs))) h started = ground arith

  Fed-trans :
      (xs ys : List HttpEvent) (h m t : Hash H) → Fed h xs m → Fed m ys t → Fed h (xs ++ ys) t
  Fed-trans xs ys h m t (first, clean, started) (second, still, end) = (
    rw (pieces-append xs ys) (hash_all-append (pieces xs) (pieces ys) h.sha_op first ∙ second),
    clean,
    end,
  )

  pub handle_events-Fed :
      (es : List HttpEvent) (h : Hash H)
      → h.sha_started ≡ true
      → (handle_events psa es h).sha_failed ≡ false
      → Fed h es (handle_events psa es h)
  unfolding handle_events
  handle_events-Fed [] h started clean = (refl, clean, started)
  handle_events-Fed (e ∷ es) h started clean =
      let next = http_event_handler psa e h in
      let rest = handle_events-Fed es next (event-started e h started) clean in
      Fed-trans (e ∷ []) es h next (handle_events psa es next) (event-Fed e h started rest.1) rest

  handle_events-started :
      (es : List HttpEvent) (h : Hash H)
      → h.sha_started ≡ true
      → (handle_events psa es h).sha_started ≡ true
  unfolding handle_events
  handle_events-started [] h started = started
  handle_events-started (e ∷ es) h started =
      handle_events-started es (http_event_handler psa e h) (event-started e h started)

  -- The events of a call that ends the loop.
  last-Fed :
      (es : List HttpEvent) (h t : Hash H)
      → h.sha_started ≡ true
      → handle_events psa es h ≡ t
      → t.sha_failed ≡ false
      → Fed h (es ++ []) t
  last-Fed es h t started same clean =
      let after = handle_events psa es h in
      let unfailed : after.sha_failed ≡ false = ap (λ (k : Hash H). k.sha_failed) same ∙ clean in
      let begun = handle_events-started es h started in
      Fed-trans es [] h after t (handle_events-Fed es h started unfailed) (
        ap (λ (k : Hash H). some k.sha_op) same,
        unfailed,
        sym (ap (λ (k : Hash H). k.sha_started) same) ∙ begun,
      )

  pub perform_loop-Fed :
      (codes_of : Codes) (cs : List Call) (h : Hash H) {err : ℕ} {t : Hash H}
      → h.sha_started ≡ true
      → perform_loop psa codes_of cs h ≡ some (err, t)
      → t.sha_failed ≡ false
      → Fed h (loop_events codes_of.in_progress cs) t
  unfolding perform_loop
  perform_loop-Fed codes_of [] h started ends clean = cc
  perform_loop-Fed codes_of (c ∷ cs) h {err} {t} started ends clean =
      let after = handle_events psa c.events h in
      let begun = handle_events-started c.events h started in
      elim (Bool-cases (c.err == codes_of.in_progress)) [
        | inl e ↦
            let rest =
              perform_loop-Fed codes_of cs after {err = err} {t = t} begun (ground arith) clean in
            rw e (
              Fed-trans c.events (loop_events codes_of.in_progress cs) h after t
                (handle_events-Fed c.events h started rest.1) rest)
        | inr e ↦ rw e (last-Fed c.events h t started (ground arith) clean)
      ]

  -- The events of the whole download.
  abbrev pub all_events : ℕ → Download → List HttpEvent
  all_events in_progress d = d.begin.events ++ loop_events in_progress d.performs

  pub download-Fed :
      (codes_of : Codes) (d : Download) (h : Hash H) {t : Hash H}
      → h.sha_started ≡ true
      → download psa codes_of d h ≡ some (0, t)
      → t.sha_failed ≡ false
      → Fed h (all_events codes_of.in_progress d) t
  unfolding download
  download-Fed codes_of d h {t} started ends clean =
      let begun = handle_events psa d.begin.events h in
      let open_ = handle_events-started d.begin.events h started in
      elim (Bool-cases (d.begin.err == 0 || d.begin.err == codes_of.in_progress)) [
        | inl e ↦
            let rest =
              perform_loop-Fed codes_of d.performs begun {err = 0} {t = t} open_ (ground arith)
                clean in
            Fed-trans d.begin.events (loop_events codes_of.in_progress d.performs) h begun t
              (handle_events-Fed d.begin.events h started rest.1) rest
        | inr e ↦ absurd (ground arith)
      ]
