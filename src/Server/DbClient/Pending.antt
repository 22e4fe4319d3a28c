-- ===== src/Server/DbClient/Pending.antt =====
-- Runs of the calls in flight (server/common/src/db_client.cpp): which handlers are invoked.
use mathlib.Core.List.Perm
use mathlib.Core.List.{Perm}
use untitled.Base.{ℕ, ◌+◌, ◌%◌, ◌^◌, ◌≤◌, ◌<◌, ◌≡◌, refl, sym, arith, subst}
use untitled.Base.{List, [], ◌∷◌, ◌++◌, length, All, true, false, some}
use untitled.Base.{
  ◌==◌, append_assoc, append-nil, All-append, Option-cases, inl, inr, ◌⊎◌, Bool-cases,
}
use untitled.Net.Bytes.Reader
use untitled.Net.Bytes.Reader.{reader}
use untitled.Server.DbClient.Calls.{
  emplace, extract, Client, begin_call, on_reply, on_drop, Input, Effect, step, run,
}

-- Every key is an id that was given out before `n`.
abbrev pub Below : {H : Type 0} → ℕ → List (ℕ × H) → Type 0
Below {H = H} n ps = All (λ (p : ℕ × H). p.0 < n) ps

module _ {H : Type 0} where
  Below-suc : (n : ℕ) (ps : List (ℕ × H)) → Below n ps → Below (n + 1) ps
  Below-suc n [] b = tt
  Below-suc n (p ∷ ps) (b, bs) = (omega arith, Below-suc n ps bs)

  -- A new id goes behind all that are pending.
  emplace-last :
      (n : ℕ) (h : H) (ps : List (ℕ × H)) → Below n ps → emplace n h ps ≡ ps ++ ((n, h) ∷ [])
  unfolding emplace
  emplace-last n h [] b = refl
  emplace-last n h ((k, h') ∷ ps) (b, bs) = ground (arith, emplace-last n h ps bs)

  -- Where a handler was found: at the head or behind it.
  extract-cons_cases :
      (k k' : ℕ) (h' : H) (ps : List (ℕ × H)) (h : H) (left : List (ℕ × H))
      → extract k ((k', h') ∷ ps) ≡ some (h, left)
      → ((k' ≡ k) × (h' ≡ h) × (ps ≡ left))
        ⊎ ((rest : List (ℕ × H)) × (extract k ps ≡ some (h, rest)) × ((k', h') ∷ rest ≡ left))
  unfolding extract
  extract-cons_cases k k' h' ps h left e = elim (Bool-cases (k == k')) [
    | inl same ↦ inl (ground (arith, e, same))
    | inr other ↦ elim (Option-cases (extract k ps)) [
      | inl none' ↦ absurd (ground (arith, e, other, none'))
      | inr ((h2, rest), found) ↦
          let same : h2 ≡ h = ground (arith, e, other, found) in
          inr (
            rest,
            subst (λ (t : H). extract k ps ≡ some (t, rest)) same found,
            ground (arith, e, other, found),
          )
    ]
  ]

  extract-Perm :
      (k : ℕ) (ps : List (ℕ × H)) (h : H) (left : List (ℕ × H))
      → extract k ps ≡ some (h, left)
      → Perm ps ((k, h) ∷ left)
  unfolding extract
  extract-Perm k [] h left e = cc
  extract-Perm k ((k', h') ∷ ps) h left e = elim (extract-cons_cases k k' h' ps h left e) [
    | inl (ek, eh, el) ↦ rw (ek, eh, el) (Perm.refl _)
    | inr (rest, found, el) ↦
        subst (λ t. Perm ((k', h') ∷ ps) ((k, h) ∷ t)) el
          (Perm.trans (Perm.cons (k', h') (extract-Perm k ps h rest found))
            (Perm.swap (k, h) (k', h') rest))
  ]

  extract-Below :
      (k n : ℕ) (ps : List (ℕ × H)) (h : H) (left : List (ℕ × H))
      → extract k ps ≡ some (h, left)
      → Below n ps
      → Below n left
  unfolding extract
  extract-Below k n [] h left e b = cc
  extract-Below k n ((k', h') ∷ ps) h left e (b, bs) =
      elim (extract-cons_cases k k' h' ps h left e) [
        | inl (ek, eh, el) ↦ subst (Below n) el bs
        | inr (rest, found, el) ↦ subst (Below n) el (b, extract-Below k n ps h rest found bs)
      ]

  -- A reply does nothing, or invokes the one handler that was waiting for it.
  step-reply_cases :
      (bytes : List ℕ) (c : Client H)
      → (step (Input.reply bytes) c ≡ record { issued = []; invoked = []; client = c })
        ⊎ ((id : ℕ) × (h : H) × (left : List (ℕ × H)) × (extract id c.pending ≡ some (h, left))
            × (step (Input.reply bytes) c ≡ record {
              issued = [];
              invoked = (id, h) ∷ [];
              client = record c { pending = left };
            }))
  unfolding step on_reply
  step-reply_cases bytes c = elim (Bool-cases c.connected) [
    | inr off ↦ inl (ground (arith, off))
    | inl on ↦ elim (Bool-cases (Reader.u32 (reader bytes)).1.failed) [
      | inl short ↦ inl (ground (arith, on, short))
      | inr whole ↦ elim (Option-cases (extract (Reader.u32 (reader bytes)).0 c.pending)) [
        | inl unknown ↦ inl (ground (arith, on, whole, unknown))
        | inr ((h, left), found) ↦
            inr ((Reader.u32 (reader bytes)).0, h, left, found, ground (arith, on, whole, found))
      ]
    ]
  ]

  -- What was pending and what is added is what comes out and what is pending then.
  abbrev Balanced : Client H → Effect H → Type 0
  Balanced c e = Perm (c.pending ++ e.issued) (e.invoked ++ e.client.pending)

  step-Perm :
      (i : Input H) (c : Client H) → Below c.next_request_id c.pending → Balanced c (step i c)
  unfolding step begin_call on_reply
  step-Perm (Input.call h) c b = elim (Bool-cases c.connected) [
    | inl on ↦ rw (on, emplace-last c.next_request_id h c.pending b) (Perm.refl _)
    | inr off ↦ rw (off, append-nil c.pending) (Perm.refl _)
  ]
  step-Perm (Input.reply bytes) c b = elim (step-reply_cases bytes c) [
    | inl same ↦ subst (Balanced c) (sym same) (rw (append-nil c.pending) (Perm.refl _))
    | inr (id, h, left, found, e) ↦
        subst (Balanced c) (sym e)
          (rw (append-nil c.pending) (extract-Perm id c.pending h left found))
  ]
  step-Perm Input.drop c b = elim (Bool-cases c.connected) [
    | inl on ↦ rw on (Perm.refl _)
    | inr off ↦ rw (off, append-nil c.pending) (Perm.refl _)
  ]

  step-Below :
      (i : Input H) (c : Client H)
      → Below c.next_request_id c.pending
      → c.next_request_id + 1 < 2 ^ 32
      → let c' = (step i c).client in
        Below c'.next_request_id c'.pending × (c'.next_request_id ≤ c.next_request_id + 1)
  unfolding step begin_call
  step-Below (Input.call h) c b room = elim (Bool-cases c.connected) [
    | inl on ↦
        let exact : (c.next_request_id + 1) % 2 ^ 32 ≡ c.next_request_id + 1 = omega arith in
        rw (on, emplace-last c.next_request_id h c.pending b, exact)
          (
            All-append (λ (p : ℕ × H). p.0 < c.next_request_id + 1) c.pending _
                (Below-suc c.next_request_id c.pending b) (omega arith, tt),
            omega arith,
          )
    | inr off ↦ rw off (b, omega arith)
  ]
  step-Below (Input.reply bytes) c b room = elim (step-reply_cases bytes c) [
    | inl same ↦ rw same (b, omega arith)
    | inr (id, h, left, found, e) ↦
        rw e (extract-Below id c.next_request_id c.pending h left found b, omega arith)
  ]
  step-Below Input.drop c b room = elim (Bool-cases c.connected) [
    | inl on ↦ rw on (tt, omega arith)
    | inr off ↦ rw off (b, omega arith)
  ]

  -- From a client whose pending ids are all below its next id, in a run too short for the ids to
  -- wrap: the calls that were pending or that got an id are, in some order, those whose handlers
  -- were invoked and those that are pending then. No handler is lost, and none is invoked twice.
  pub run-Perm :
      (is : List (Input H)) (c : Client H)
      → Below c.next_request_id c.pending
      → c.next_request_id + length is < 2 ^ 32
      → let e = run is c in Perm (c.pending ++ e.issued) (e.invoked ++ e.client.pending)
  unfolding run
  run-Perm [] c b room = rw (append-nil c.pending) (Perm.refl _)
  run-Perm (i ∷ is) c b room =
      let e = step i c in
      let more = run is e.client in
      let (b', close) = step-Below i c b (omega arith) in
      let rest = run-Perm is e.client b' (omega arith) in
      rw
        (
          ← append_assoc c.pending e.issued more.issued,
          append_assoc e.invoked more.invoked more.client.pending,
        )
        (Perm.trans (Perm.append_right more.issued (step-Perm i c b)) (
          rw (append_assoc e.invoked e.client.pending more.issued)
            (Perm.append_left e.invoked rest)))

  step_off :
      (i : Input H) (c : Client H)
      → c.connected ≡ false
      → step i c ≡ record { issued = []; invoked = []; client = c }
  unfolding step begin_call
  step_off (Input.call h) c off = ground (arith, off)
  step_off (Input.reply bytes) c off = ground (arith, off)
  step_off Input.drop c off = ground (arith, off)

  run_off :
      (is : List (Input H)) (c : Client H)
      → c.connected ≡ false
      → run is c ≡ record { issued = []; invoked = []; client = c }
  unfolding run
  run_off [] c off = refl
  run_off (i ∷ is) c off = rw (step_off i c off, run_off is c off) refl

  -- Once the link of a connected client drops, every pending handler is invoked, nothing is
  -- pending any more, and whatever comes later invokes nothing.
  pub run-drop :
      (is : List (Input H)) (c : Client H)
      → c.connected ≡ true
      → let e = run (Input.drop ∷ is) c in
        (e.invoked ≡ c.pending) × (e.client.pending ≡ []) × (e.issued ≡ [])
  unfolding run step
  run-drop is c on = rw (on, run_off is (on_drop c).1 refl) (append-nil c.pending, refl, refl)
