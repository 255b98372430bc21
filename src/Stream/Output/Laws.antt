-- ===== src/Stream/Output/Laws.antt =====
-- What `_StreamOutputState` of src/opencode_a2a/execution/stream_state.py tracks.
use opencode_a2a_serve.Base.Names.{String, true, false, not, ◌&&◌, List, [], ◌∷◌, ◌≡◌, refl, arith}
use opencode_a2a_serve.Base.Equality.{◌==◌, string_eq, contains, if◌then◌else◌}
use opencode_a2a_serve.Base.Text.{strip, is_truthy}
use opencode_a2a_serve.Stream.Output.{
  StreamOutputState, mark_interrupt_pending, clear_interrupt_pending, discard,
}

contains-discard :
    (x y : String) (ys : List String) → contains (discard x ys) y ≡ (contains ys y && not (x == y))
unfolding discard
contains-discard x y [] = refl
contains-discard x y (z ∷ zs) = ground (arith, contains-discard x y zs)

-- After a request to mark an id, a request to mark the same id fails, and a request to mark
-- another id does what it would have done before.
pub mark-mark :
    (i j : String) (s : StreamOutputState)
    → (mark_interrupt_pending j (mark_interrupt_pending i s).1).0
      ≡ (if strip i == strip j then false else (mark_interrupt_pending j s).0)
unfolding mark_interrupt_pending
mark-mark i j s = ground arith

-- After a request to clear an id, a request to mark any id succeeds exactly if the id is not blank
-- and it either is the cleared one or was not pending.
pub mark-clear :
    (i j : String) (s : StreamOutputState)
    → (mark_interrupt_pending j (clear_interrupt_pending i s).1).0 ≡ (
        is_truthy (strip j)
        && (if strip i == strip j
            then true
            else not (contains s.pending_interrupt_request_ids (strip j))))
unfolding mark_interrupt_pending clear_interrupt_pending
mark-clear i j s =
    ground (arith, contains-discard (strip i) (strip j) s.pending_interrupt_request_ids)
