-- ===== src/Lsp/Pending/Safe.antt =====
-- No channel is sent to or closed twice, and no call is forgotten.
use codesight.Prelude.{
  ℕ, suc, ◌+◌, ◌≤◌, ◌<◌, ◌≡◌, ◌⊎◌, inl, inr, refl, sym, subst, ap, Bool, true, false, List, [], ◌∷◌,
  any, arith, ◌==◌, ==_iff, if◌then◌else◌, Bool-cases, if_both, ◌∙◌,
}
use codesight.Text.{Text}
use codesight.Lsp.Pending.{
  Phase, unborn, allocated, waiting, returned, Reader, reading, sending, closing, failing, stopped,
  ClientState, with_phase, is_pending, without, new_call, register_pending, remove_pending, receive,
  route_response, send_response, close_response, fail_pending, close_failed, stop, Step, allocates,
  registers, gives_up, receives, routes, sends_response, closes_response, fails, closes_failed,
  stops, Reachable, begins, then_step,
}

abbrev pub times : ℕ → List ℕ → ℕ
times id [] = 0
times id (j ∷ js) = (if j == id then 1 else 0) + times id js

-- How many sends to a channel are to come, at most.
abbrev pub unsent_by : ℕ → Reader → ℕ
unsent_by id (sending j) = if j == id then 1 else 0
unsent_by id (failing js) = times id js
unsent_by id _ = 0

abbrev pub closing_by : ℕ → Reader → ℕ
closing_by id (closing j) = if j == id then 1 else 0
closing_by id _ = 0

abbrev pub sending_by : ℕ → Reader → ℕ
sending_by id (sending j) = if j == id then 1 else 0
sending_by id _ = 0

abbrev pub stage : Phase → ℕ
stage unborn = 0
stage allocated = 1
stage waiting = 2
stage returned = 3

abbrev pub one_if_waiting : Phase → ℕ
one_if_waiting waiting = 1
one_if_waiting _ = 0

-- The numbers of one call: whether its id is given out, who may still send to its channel or close it,
-- and what was done to it.
abbrev Fine : ℕ → ℕ → ℕ → ℕ → ℕ → ℕ → ℕ → ℕ → Type 0
Fine next id at_stage listed unsent to_close sends closes =
    ((id < next) ⊎ (at_stage ≡ 0))
    × ((2 ≤ at_stage) ⊎ (listed + unsent + to_close + sends + closes ≡ 0))
    × (listed + unsent + sends ≤ 1)
    × (listed + unsent + to_close + closes ≤ 1)
    × ((if at_stage == 2 then 1 else 0) ≤ listed + unsent + to_close + closes)

abbrev FineAt : ClientState → ℕ → Type 0
FineAt s id =
    Fine s.next_id id (stage (s.calls id).phase) (times id s.pending) (unsent_by id s.reader)
      (closing_by id s.reader) (s.calls id).sends (s.calls id).closes

eq_self : (id : ℕ) → (id == id) ≡ true
eq_self id = ground arith

other_way : (id j : ℕ) → (j == id) ≡ false → (id == j) ≡ false
other_way id j e = ground arith

own : (id : ℕ) → unsent_by id (sending id) ≡ 1
own id = ground arith

other : (j id : ℕ) → (id == j) ≡ false → unsent_by j (sending id) ≡ 0
other j id e = ground arith

times-without : (id : ℕ) (ids : List ℕ) → times id (without id ids) ≡ 0
times-without id [] = refl
times-without id (j ∷ js) = ground (arith, times-without id js)

times-without_other :
    (j id : ℕ) (ids : List ℕ) → (j == id) ≡ false → times j (without id ids) ≡ times j ids
times-without_other j id [] h = refl
times-without_other j id (k ∷ ks) h = ground (arith, times-without_other j id ks h)

times-none : (id : ℕ) (ids : List ℕ) → any (λ j. j == id) ids ≡ false → times id ids ≡ 0
times-none id [] h = refl
times-none id (j ∷ js) h = ground (arith, times-none id js)

times-some : (id : ℕ) (ids : List ℕ) → any (λ j. j == id) ids ≡ true → 1 ≤ times id ids
times-some id [] h = cc
times-some id (j ∷ js) h = ground (arith, times-some id js)

-- A call, and any other.
by_id : (P : ℕ → Type 0) (id : ℕ) → P id → ((j : ℕ) → (j == id) ≡ false → P j) → (j : ℕ) → P j
by_id P id self others j = elim (Bool-cases (j == id)) [
  | inl e ↦ subst P (sym ((==_iff j id).0 e)) self
  | inr e ↦ others j e
]

module _ (s : ClientState) (inv : (id : ℕ) → FineAt s id) where
  new_call-Fine : (id : ℕ) → FineAt (new_call s) id
  unfolding new_call
  new_call-Fine =
      by_id (FineAt (new_call s)) s.next_id (rw (eq_self s.next_id) (omega (arith, inv s.next_id)))
        (λ j e. rw e (omega (arith, inv j)))

  -- A call that returns.
  returned-Fine :
      (id : ℕ)
      → (1 ≤ stage (s.calls id).phase)
      → (j : ℕ) → FineAt (record s { calls = with_phase s id returned }) j
  returned-Fine id born =
      by_id (FineAt (record s { calls = with_phase s id returned })) id
        (rw (eq_self id) (omega (arith, inv id))) (λ j e. rw e (omega (arith, inv j)))

  accepted-Fine :
      (id : ℕ)
      → stage (s.calls id).phase ≡ 1
      → (j : ℕ) → FineAt (record s { pending = id ∷ s.pending; calls = with_phase s id waiting }) j
  accepted-Fine id born =
      by_id (FineAt (record s { pending = id ∷ s.pending; calls = with_phase s id waiting })) id
        (rw (eq_self id) (omega (arith, inv id)))
        (λ j e. rw e (rw (other_way id j e) (omega (arith, inv j))))

  register-Fine :
      (id : ℕ) → (s.calls id).phase ≡ allocated → (j : ℕ) → FineAt (register_pending s id) j
  unfolding register_pending
  register-Fine id p j =
      let born = ap stage p in
      let refused = returned-Fine id (omega arith) j in
      if_both (λ t. FineAt t j) s.done refused
        (if_both (λ t. FineAt t j) (is_pending s id) refused (accepted-Fine id born j))

  remove-Fine : (id : ℕ) → (s.calls id).phase ≡ waiting → (j : ℕ) → FineAt (remove_pending s id) j
  unfolding remove_pending
  remove-Fine id p =
      let born = ap stage p in
      by_id (FineAt (remove_pending s id)) id
        (rw (eq_self id) (rw (times-without id s.pending) (omega (arith, inv id))))
        (λ j e. rw e (rw (times-without_other j id s.pending e) (omega (arith, inv j))))

  receive-Fine : (id : ℕ) → (s.calls id).phase ≡ waiting → (j : ℕ) → FineAt (receive s id) j
  unfolding receive
  receive-Fine id p = let born = ap stage p in returned-Fine id (omega arith)

  taken-Fine :
      (id : ℕ)
      → is_pending s id ≡ true
      → s.reader ≡ reading
      → (j : ℕ) → FineAt (record s { pending = without id s.pending; reader = sending id }) j
  taken-Fine id h r =
      by_id (FineAt (record s { pending = without id s.pending; reader = sending id })) id
        (rw (times-without id s.pending) (
          rw (eq_self id) (
            omega (
              arith,
              inv id,
              times-some id s.pending h,
              ap (unsent_by id) r,
              ap (closing_by id) r,
            ))))
        (λ j e.
          rw (times-without_other j id s.pending e)
            (rw (other_way id j e) (omega (arith, inv j, ap (unsent_by j) r, ap (closing_by j) r))))

  route-Fine : (id : ℕ) → s.reader ≡ reading → (j : ℕ) → FineAt (route_response s id) j
  unfolding route_response
  route-Fine id r j = elim (Bool-cases (is_pending s id)) [
    | inl h ↦ rw h (taken-Fine id h r j)
    | inr h ↦ rw h (inv j)
  ]

  send-Fine : (id : ℕ) → s.reader ≡ sending id → (j : ℕ) → FineAt (send_response s id) j
  unfolding send_response
  send-Fine id r =
      by_id (FineAt (send_response s id)) id
        (rw (eq_self id)
          (omega (arith, inv id, ap (unsent_by id) r ∙ own id, ap (closing_by id) r)))
        (λ j e. rw e (
          rw (other_way id j e) (
            omega (
              arith,
              inv j,
              ap (unsent_by j) r ∙ other j id (other_way id j e),
              ap (closing_by j) r,
            ))))

  close-Fine : (id : ℕ) → s.reader ≡ closing id → (j : ℕ) → FineAt (close_response s id) j
  unfolding close_response
  close-Fine id r =
      by_id (FineAt (close_response s id)) id
        (rw (eq_self id)
          (omega (arith, inv id, ap (unsent_by id) r, ap (closing_by id) r ∙ own id)))
        (λ j e. rw e (
          omega (
            arith,
            inv j,
            ap (unsent_by j) r,
            ap (closing_by j) r ∙ other j id (other_way id j e),
          )))

  fail-Fine : (message : Text) → s.reader ≡ reading → (j : ℕ) → FineAt (fail_pending s message) j
  unfolding fail_pending
  fail-Fine message r j = omega (arith, inv j, ap (unsent_by j) r, ap (closing_by j) r)

  close_failed-Fine :
      (id : ℕ) (ids : List ℕ)
      → s.reader ≡ failing (id ∷ ids)
      → (j : ℕ) → FineAt (close_failed s id ids) j
  unfolding close_failed
  close_failed-Fine id ids r =
      by_id (FineAt (close_failed s id ids)) id
        (rw (eq_self id) (omega (arith, inv id, ap (unsent_by id) r, own id, ap (closing_by id) r)))
        (λ j e. rw e (
          omega
            (arith, inv j, ap (unsent_by j) r, other j id (other_way id j e), ap (closing_by j) r)))

  stop-Fine : s.reader ≡ failing [] → (j : ℕ) → FineAt (stop s) j
  unfolding stop
  stop-Fine r j = omega (arith, inv j, ap (unsent_by j) r, ap (closing_by j) r)

abbrev pub is_stopped : Reader → Bool
is_stopped stopped = true
is_stopped _ = false

record Kept (s : ClientState) : Type 0 where
  fine : (id : ℕ) → FineAt s id
  done_fits : s.done ≡ is_stopped s.reader

Step-Kept : (s t : ClientState) → Step s t → Kept s → Kept t
unfolding new_call register_pending remove_pending receive route_response send_response
    close_response fail_pending close_failed stop
Step-Kept s _ allocates k = record { fine = new_call-Fine s k.fine; done_fits = k.done_fits }
Step-Kept s _ (registers id p) k = record {
  fine = register-Fine s k.fine id p;
  done_fits =
      if_both (λ (t : ClientState). t.done ≡ is_stopped t.reader) s.done k.done_fits
        (if_both (λ (t : ClientState). t.done ≡ is_stopped t.reader) (is_pending s id) k.done_fits
          k.done_fits);
}
Step-Kept s _ (gives_up id p) k = record {
  fine = remove-Fine s k.fine id p;
  done_fits = k.done_fits;
}
Step-Kept s _ (receives id p e) k = record {
  fine = receive-Fine s k.fine id p;
  done_fits = k.done_fits;
}
Step-Kept s _ (routes id r) k = record {
  fine = route-Fine s k.fine id r;
  done_fits =
      if_both (λ (t : ClientState). t.done ≡ is_stopped t.reader) (is_pending s id)
        (k.done_fits ∙ ap is_stopped r) k.done_fits;
}
Step-Kept s _ (sends_response id r) k = record {
  fine = send-Fine s k.fine id r;
  done_fits = k.done_fits ∙ ap is_stopped r;
}
Step-Kept s _ (closes_response id r) k = record {
  fine = close-Fine s k.fine id r;
  done_fits = k.done_fits ∙ ap is_stopped r;
}
Step-Kept s _ (fails message r) k = record {
  fine = fail-Fine s k.fine message r;
  done_fits = k.done_fits ∙ ap is_stopped r;
}
Step-Kept s _ (closes_failed id ids r) k = record {
  fine = close_failed-Fine s k.fine id ids r;
  done_fits = k.done_fits ∙ ap is_stopped r;
}
Step-Kept s _ (stops r) k = record { fine = stop-Fine s k.fine r; done_fits = refl }

Reachable-Kept : (s : ClientState) → Reachable s → Kept s
Reachable-Kept _ begins = record { fine = λ id. omega arith; done_fits = refl }
Reachable-Kept _ (then_step {s} {t} before step) = Step-Kept s t step (Reachable-Kept s before)

-- One call, in a state of the client. `owned` is how often its channel stands in the table or with the
-- reading goroutine.
pub record IsSafe (s : ClientState) (id : ℕ) : Type 0 where
  pub send_finds_room : sending_by id s.reader + (s.calls id).sends ≤ 1
  pub owner_finds_open :
      times id s.pending + unsent_by id s.reader + closing_by id s.reader + (s.calls id).closes ≤ 1
  pub not_forgotten :
      one_if_waiting (s.calls id).phase
      ≤ times id s.pending + unsent_by id s.reader + closing_by id s.reader + (s.calls id).closes
  pub fresh : (id < s.next_id) ⊎ ((s.calls id).phase ≡ unborn)
  pub done_fits : s.done ≡ is_stopped s.reader

sending-unsent : (id : ℕ) (r : Reader) → sending_by id r ≤ unsent_by id r
sending-unsent id reading = omega arith
sending-unsent id (sending j) = omega arith
sending-unsent id (closing j) = omega arith
sending-unsent id (failing js) = omega arith
sending-unsent id stopped = omega arith

one-ne-zero : {n : ℕ} → suc n ≡ 0 → ⊥
one-ne-zero h = omega arith

stage-unborn : (p : Phase) → stage p ≡ 0 → p ≡ unborn
stage-unborn unborn h = refl
stage-unborn allocated h = elim (one-ne-zero h) [ ]
stage-unborn waiting h = elim (one-ne-zero h) [ ]
stage-unborn returned h = elim (one-ne-zero h) [ ]

waiting-stage : (p : Phase) → one_if_waiting p ≡ (if stage p == 2 then 1 else 0)
waiting-stage unborn = refl
waiting-stage allocated = refl
waiting-stage waiting = refl
waiting-stage returned = refl

-- In every state that a client can come to, and for every call: its channel is sent to and closed at
-- most once, and the reading goroutine never sends to a full or closed channel nor closes a closed one;
-- a waiting call still stands in the table or with the goroutine, or its channel is closed; an id that
-- is not given out has no call; and the client is done exactly once the goroutine has stopped.
pub Reachable-IsSafe : (s : ClientState) → Reachable s → (id : ℕ) → IsSafe s id
Reachable-IsSafe s h id =
    let k = Reachable-Kept s h in
    let (old, untouched, once_sent, once_closed, waits) = k.fine id in
    record {
      send_finds_room = omega (arith, once_sent, sending-unsent id s.reader);
      owner_finds_open = once_closed;
      not_forgotten = omega (arith, waits, waiting-stage (s.calls id).phase);
      fresh = elim old [ inl l ↦ inl l | inr e ↦ inr (stage-unborn (s.calls id).phase e) ];
      done_fits = k.done_fits;
    }
