-- ===== src/Bridge/Start/Closing.antt =====
-- How `main` ends.
use Prim.Native.String.{String}
use teensy_io.Base.{ℕ, Option, List, ◌≡◌, ap, ◌∙◌, All}
use mathlib.Core.List.{flatten}
use teensy_io.Base.Floats.{Float}
use teensy_io.Base.Int.{ℤ}
use teensy_io.Protocol.Errors.{Error, Result, ok, err}
use teensy_io.Protocol.Exec.{lift, bind_step, bind_raise, ◌>>◌}
use teensy_io.Transport.{Transport}
use teensy_io.Client.Outbox.Chunks.{IsChunk}
use teensy_io.Client.Outbox.Flush.{IsCounted, send}
use teensy_io.Client.Session.{on_link}
use teensy_io.Client.Lifecycle.{Running, Joins, in_session, close}
use teensy_io.Client.Lifecycle.Closing.{close-flushes, on_sender, stopped}
use teensy_io.Bridge.Start.{
  Parameters, App, Ros, running, with_running, in_running, ended, try_finally, start, main,
}

-- What `io.close()` did, and then the end of the node and of ROS.
unfoldable pub node_closed :
    {T : Type 0} → Ros T → App T → Result (Unit {0}) × Running T → Result (Unit {0}) × App T
node_closed ros app (r, last) =
    ((λ (a : App _). (r, with_running a last)) >> lift ros.destroy_node >> lift ros.shutdown) app

module _ {T : Type 0} (io : Transport T) (joins : Joins T) (parse_int : String → Option ℤ)
    (parse_float : String → Option Float) (parameters : Parameters) (ros : Ros T)
    (app : App T) where
  abbrev pub started : App T
  started = (start io joins parse_int parse_float parameters app).1

  -- The application after the spinning, and its client when both threads were told to stop and joined.
  abbrev pub spun : App T
  spun = (ros.spin started).1

  abbrev pub joined : Running T
  joined = stopped joins (running spun)

  -- After a start that returned, and however the spinning ends: `main` tells both threads to stop and
  -- waits for them for a while, it writes the packets that are queued then, each once, whole and in order,
  -- and after the last write it closes the link, the node and ROS, in this order; the first of these calls
  -- that raises ends it. It raises what such a call raised, or else ends as the spinning did.
  pub main-closes :
      (start io joins parse_int parse_float parameters app).0 ≡ ok tt
      → IsCounted joined.session.outbox
      → (groups : List (List (List ℕ))) × (flatten groups ≡ joined.session.outbox.queued)
        × All (IsChunk joined.session.outbox.flush_chunk_size) groups
        × (main io joins parse_int parse_float parameters ros app
            ≡ ended (ros.spin started).0 (
                node_closed ros spun (
                  (in_session (on_sender (send io groups)) >> in_session (on_link io.close_link))
                    joined)))
  unfolding main try_finally node_closed
  main-closes h counted =
      let (groups, same, chunks, closed) = close-flushes io joins (running spun) counted in
      (
        groups,
        same,
        chunks,
        bind_step (start io joins parse_int parse_float parameters)
              (λ _.
                try_finally ros.spin
                  (in_running (close io joins) >> lift ros.destroy_node >> lift ros.shutdown))
              app tt h
            ∙ ap (λ x. ended (ros.spin started).0 (node_closed ros spun x)) closed,
      )

  -- A start that raises is not undone: nothing closes the link that `connect` opened.
  pub main_raises :
      (x : Error)
      → (start io joins parse_int parse_float parameters app).0 ≡ err x
      → main io joins parse_int parse_float parameters ros app ≡ (err x, started)
  unfolding main
  main_raises x h =
      bind_raise (start io joins parse_int parse_float parameters)
        (λ _.
          try_finally ros.spin
            (in_running (close io joins) >> lift ros.destroy_node >> lift ros.shutdown))
        app x h
