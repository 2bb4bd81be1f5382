-- ===== src/Lsp/Pending/Examples.antt =====
-- A run of a client: one call is answered, and the theorem at its end.
use codesight.Prelude.{refl, arith}
use codesight.Text.{str}
use codesight.Lsp.Pending.{
  ClientState, new_client, new_call, register_pending, route_response, send_response,
  close_response, receive, fail_pending, stop, allocates, registers, receives, routes,
  sends_response, closes_response, fails, stops, Reachable, begins, then_step,
}
use codesight.Lsp.Pending.Safe.{IsSafe, Reachable-IsSafe}

abbrev registered : ClientState
registered = register_pending (new_call new_client) 1

abbrev responded : ClientState
responded = close_response (send_response (route_response registered 1) 1) 1

abbrev finished : ClientState
finished = stop (fail_pending (receive responded 1) (str "EOF"))

finished-Reachable : Reachable finished
unfolding new_call register_pending route_response send_response close_response receive fail_pending
    stop
finished-Reachable =
    then_step
      (then_step
        (then_step
          (then_step
            (then_step
              (then_step (then_step (then_step begins allocates) (registers 1 refl))
                (routes 1 refl))
              (sends_response 1 refl))
            (closes_response 1 refl))
          (receives 1 refl (omega arith)))
        (fails (str "EOF") refl))
      (stops refl)

Reachable-IsSafe_example : IsSafe finished 1
Reachable-IsSafe_example = Reachable-IsSafe finished finished-Reachable 1
