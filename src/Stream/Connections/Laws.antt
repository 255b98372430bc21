-- ===== src/Stream/Connections/Laws.antt =====
-- Updates and delays over all connections of src/opencode_a2a/execution/stream_runtime.py.
use opencode_a2a_serve.Base.Names.{
  ℕ, zero, suc, ◌≤◌, Bool, true, false, not, List, [], ◌∷◌, ◌++◌, ◌≡◌, ◌∙◌, sym, ap, refl, arith,
}
use opencode_a2a_serve.Base.Equality.{if◌then◌else◌}
use opencode_a2a_serve.Base.Lists.{length, take}
use opencode_a2a_serve.Stream.Emission.Sequences.{Mark, mark, IsOrdered, IsOrdered-append}
use opencode_a2a_serve.Stream.SessionEvents.{StreamState, Setting}
use opencode_a2a_serve.Stream.Runtime.{handle_events}
use opencode_a2a_serve.Stream.Runtime.Order.{handle_events-IsOrdered}
use opencode_a2a_serve.Stream.Connections.{
  Connection, Consumed, next_backoff, consume_from, consume,
}

abbrev pub IsOrderedFrom : Mark → Consumed → Type 0
IsOrderedFrom m c = IsOrdered m c.effects (mark c.state.output)

choose :
    (b : Bool) (m : Mark) (x y : Consumed)
    → IsOrderedFrom m x
    → IsOrderedFrom m y
    → IsOrderedFrom m (if b then x else y)
choose true m x y p q = p
choose false m x y p q = q

-- The delays that follow a delay.
abbrev backoffs : ℕ → ℕ → List ℕ
backoffs backoff zero = []
backoffs backoff (suc n) = backoff ∷ backoffs (next_backoff backoff) n

-- Some delays of five seconds.
abbrev pub fives : ℕ → List ℕ
fives zero = []
fives (suc n) = 10 ∷ fives n

backoffs_ten : (n : ℕ) → backoffs 10 n ≡ fives n
backoffs_ten zero = refl
backoffs_ten (suc n) = ap (λ (t : List ℕ). 10 ∷ t) (backoffs_ten n)

take-fives : (n k : ℕ) → n ≤ k → take n (fives k) ≡ fives n
take-fives zero k h = refl
take-fives (suc n) zero h = absurd (omega arith)
take-fives (suc n) (suc k) h = ap (λ (t : List ℕ). 10 ∷ t) (take-fives n k (omega arith))

schedule : (n : ℕ) → backoffs 1 n ≡ take n (1 ∷ 2 ∷ 4 ∷ 8 ∷ fives n)
schedule zero = refl
schedule (suc zero) = refl
schedule (suc (suc zero)) = refl
schedule (suc (suc (suc zero))) = refl
schedule (suc (suc (suc (suc n)))) =
    ap (λ (t : List ℕ). 1 ∷ 2 ∷ 4 ∷ 8 ∷ t)
      (backoffs_ten n ∙ sym (take-fives n (suc (suc (suc (suc n)))) (omega arith)))

module _ (k : Setting) where
  consume_from-IsOrdered :
      (connections : List Connection) (backoff : ℕ) (st : StreamState)
      → IsOrderedFrom (mark st.output) (consume_from k connections backoff st)
  unfolding consume_from
  consume_from-IsOrdered [] backoff st = refl
  consume_from-IsOrdered (connection ∷ connections) backoff st =
      let (effects, st') = handle_events k connection.events st in
      let later = consume_from k connections (next_backoff backoff) st' in
      let m = mark st.output in
      let first = handle_events-IsOrdered k connection.events st in
      let unstarted : Consumed = record { effects = []; delays = []; state = st } in
      let ended : Consumed = record { effects = effects; delays = []; state = st' } in
      let whole : Consumed = record {
        effects = effects ++ later.effects;
        delays = backoff ∷ later.delays;
        state = later.state;
      } in
      let all =
        IsOrdered-append effects later.effects m (mark st'.output) (mark later.state.output) first
          (consume_from-IsOrdered connections (next_backoff backoff) st') in
      choose st.stop m unstarted
        (if not connection.breaks then ended else (if st'.stop then ended else whole)) refl
        (choose (not connection.breaks) m ended (if st'.stop then ended else whole) first
          (choose st'.stop m ended whole first all))

  -- For any connections that deliver any events of any sessions, and break or not, what the stream
  -- sends is in order: every status and artifact update carries the next sequence number, starting
  -- after the number that the state holds, also across connections, and an artifact update has
  -- `append` false exactly if no chunk was sent before it.
  pub consume-IsOrdered :
      (connections : List Connection) (st : StreamState)
      → IsOrdered
          (mark st.output)
          (consume k connections st).effects
          (mark (consume k connections st).state.output)
  unfolding consume
  consume-IsOrdered connections st = consume_from-IsOrdered connections 1 st

  consume_from-delays :
      (connections : List Connection) (backoff : ℕ) (st : StreamState)
      → (consume_from k connections backoff st).delays
        ≡ backoffs backoff (length (consume_from k connections backoff st).delays)
  unfolding consume_from
  consume_from-delays [] backoff st = refl
  consume_from-delays (connection ∷ connections) backoff st = ground (
    arith,
    consume_from-delays connections (next_backoff backoff) (handle_events k connection.events st).1,
  )

  -- The delays before the connections that follow broken ones are 0.5, 1, 2 and 4 seconds, and
  -- then always 5 seconds.
  pub consume-delays :
      (connections : List Connection) (st : StreamState)
      → (consume k connections st).delays
        ≡ take
            (length (consume k connections st).delays)
            (1 ∷ 2 ∷ 4 ∷ 8 ∷ fives (length (consume k connections st).delays))
  unfolding consume
  consume-delays connections st =
      consume_from-delays connections 1 st
      ∙ schedule (length (consume_from k connections 1 st).delays)
