-- ===== src/Lsp/Pending.antt =====
-- pkg/lsp/client.go: the calls of a client that wait for their responses, and the goroutine that reads
-- them. A step is what one goroutine does at once: a section under pendingMu, or one operation on a
-- channel. The channel of a call is known by the id of the call; it is counted how often it is sent to
-- and closed. What is in a message, and the handlers of notifications, are left out.
pub mod Safe
mod Examples
use codesight.Prelude.{
  ℕ, zero, suc, ◌+◌, ◌≤◌, ◌<◌, ◌≡◌, Bool, true, false, not, List, [], ◌∷◌, any, keep, ◌==◌,
  if◌then◌else◌, Option, none, some,
}
use codesight.Text.{Text}

-- A call has no id yet, has one, waits for its response, or has returned.
pub data Phase : Type 0 where
  unborn : Phase
  allocated : Phase
  waiting : Phase
  returned : Phase

pub record CallState : Type 0 where
  pub phase : Phase
  pub sends : ℕ
  pub closes : ℕ

-- The reading goroutine: it reads, has a response to send, has a channel to close behind it, has the
-- channels to close after a failure, or is at its end.
pub data Reader : Type 0 where
  reading : Reader
  sending : ℕ → Reader
  closing : ℕ → Reader
  failing : List ℕ → Reader
  stopped : Reader

pub record ClientState : Type 0 where
  pub next_id : ℕ
  pub pending : List ℕ
  pub calls : ℕ → CallState
  pub read_err : Option Text
  pub done : Bool
  pub reader : Reader

abbrev pub new_client : ClientState
new_client = record {
  next_id = 1;
  pending = [];
  calls = λ id. record { phase = unborn; sends = 0; closes = 0 };
  read_err = none;
  done = false;
  reader = reading;
}

abbrev pub set_call : (ℕ → CallState) → ℕ → CallState → ℕ → CallState
set_call calls id call j = if j == id then call else calls j

abbrev pub with_phase : ClientState → ℕ → Phase → ℕ → CallState
with_phase s id phase = set_call s.calls id (record (s.calls id) { phase = phase })

abbrev pub is_pending : ClientState → ℕ → Bool
is_pending s id = any (λ j. j == id) s.pending

abbrev pub without : ℕ → List ℕ → List ℕ
without id ids = keep (λ j. not (j == id)) ids

-- nextID.Add and the new channel
unfoldable pub new_call : ClientState → ClientState
new_call s = record s {
  next_id = suc s.next_id;
  calls = set_call s.calls s.next_id (record { phase = allocated; sends = 0; closes = 0 });
}

-- A client that is done, or an id that is taken, is an error of the call.
unfoldable pub register_pending : ClientState → ℕ → ClientState
register_pending s id =
    if s.done
    then record s { calls = with_phase s id returned }
    else if is_pending s id
    then record s { calls = with_phase s id returned }
    else record s { pending = id ∷ s.pending; calls = with_phase s id waiting }

-- The call gives up: its message is not sent, its time is over, or the client is done.
unfoldable pub remove_pending : ClientState → ℕ → ClientState
remove_pending s id = record s { pending = without id s.pending; calls = with_phase s id returned }

-- The call takes what is in its channel, or finds it closed.
unfoldable pub receive : ClientState → ℕ → ClientState
receive s id = record s { calls = with_phase s id returned }

-- A response for which no call waits is dropped.
unfoldable pub route_response : ClientState → ℕ → ClientState
route_response s id =
    if is_pending s id then record s { pending = without id s.pending; reader = sending id } else s

unfoldable pub send_response : ClientState → ℕ → ClientState
send_response s id = record s {
  calls = set_call s.calls id (record (s.calls id) { sends = suc (s.calls id).sends });
  reader = closing id;
}

abbrev pub close_channel : ClientState → ℕ → ℕ → CallState
close_channel s id = set_call s.calls id (record (s.calls id) { closes = suc (s.calls id).closes })

unfoldable pub close_response : ClientState → ℕ → ClientState
close_response s id = record s { calls = close_channel s id; reader = reading }

-- The first error stays.
abbrev pub set_read_err : Text → Option Text → Option Text
set_read_err message none = some message
set_read_err message (some first) = some first

-- The table of pending calls is swapped for an empty one.
unfoldable pub fail_pending : ClientState → Text → ClientState
fail_pending s message = record s {
  read_err = set_read_err message s.read_err;
  pending = [];
  reader = failing s.pending;
}

unfoldable pub close_failed : ClientState → ℕ → List ℕ → ClientState
close_failed s id ids = record s { calls = close_channel s id; reader = failing ids }

-- The reading goroutine returns, and `done` is closed.
unfoldable pub stop : ClientState → ClientState
stop s = record s { done = true; reader = stopped }

pub data Step (s : ClientState) : ClientState → Type 0 where
  allocates : Step s (new_call s)
  registers : (id : ℕ) → (s.calls id).phase ≡ allocated → Step s (register_pending s id)
  gives_up : (id : ℕ) → (s.calls id).phase ≡ waiting → Step s (remove_pending s id)
  receives :
      (id : ℕ)
      → (s.calls id).phase ≡ waiting
      → 0 < (s.calls id).sends + (s.calls id).closes
      → Step s (receive s id)
  routes : (id : ℕ) → s.reader ≡ reading → Step s (route_response s id)
  sends_response : (id : ℕ) → s.reader ≡ sending id → Step s (send_response s id)
  closes_response : (id : ℕ) → s.reader ≡ closing id → Step s (close_response s id)
  fails : (message : Text) → s.reader ≡ reading → Step s (fail_pending s message)
  closes_failed :
      (id : ℕ) (ids : List ℕ) → s.reader ≡ failing (id ∷ ids) → Step s (close_failed s id ids)
  stops : s.reader ≡ failing [] → Step s (stop s)

-- What a client can come to.
pub data Reachable : ClientState → Type 0 where
  begins : Reachable new_client
  then_step : {s t : ClientState} → Reachable s → Step s t → Reachable t
