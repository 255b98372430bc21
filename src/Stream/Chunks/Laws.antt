-- ===== src/Stream/Chunks/Laws.antt =====
-- The text of a part that src/opencode_a2a/execution/stream_runtime.py sends, against its buffer.
use text.Mathlib.TextLemmas.{nil-append, cons-append, append-nil, append_assoc, tail-eq_of_cons-eq}
use opencode_a2a_serve.Base.Names.{
  String, ◌<>◌, Option, some, List, [], ◌∷◌, ◌++◌, ◌≡◌, arith, ap, sym, ◌∙◌,
}
use opencode_a2a_serve.Base.Equality.{string_eq, nat_eq}
use opencode_a2a_serve.Stream.Chunks.{
  NormalizedStreamChunk, StreamPartState, note_message_id, delta_chunks, snapshot_chunks,
  after_prefix,
}

-- The contents of chunks, one after the other.
abbrev pub contents : List NormalizedStreamChunk → String
contents [] = ""
contents (chunk ∷ chunks) = chunk.content_key <> contents chunks

contents-append : (a b : List NormalizedStreamChunk) → contents (a ++ b) ≡ contents a <> contents b
contents-append [] b = sym (nil-append (contents b))
contents-append (chunk ∷ a) b =
    ap (λ (t : String). chunk.content_key <> t) (contents-append a b)
    ∙ sym (append_assoc chunk.content_key (contents a) (contents b))

after_prefix_lem : (p r : String) → after_prefix p (p <> r) ≡ some r
unfolding after_prefix
after_prefix_lem String.[] r = ap (λ (t : String). some t) (nil-append r)
after_prefix_lem (String.◌∷◌ c p) r = rw (cons-append c p r) (ground (arith, after_prefix_lem p r))

append_same : (p r : String) → p <> r ≡ p → r ≡ ""
append_same String.[] r h = sym (nil-append r) ∙ h
append_same (String.◌∷◌ c p) r h =
    append_same p r (tail-eq_of_cons-eq (sym (cons-append c p r) ∙ h))

buffer-note_message_id :
    (m : Option String) (st : StreamPartState) → (note_message_id m st).buffer ≡ st.buffer
buffer-note_message_id m st = ground arith

-- A snapshot that continues what was sent sends the rest, and only that.
pub snapshot_chunks_lem :
    (rest : String) (m : Option String) (st : StreamPartState)
    → (contents (snapshot_chunks (st.buffer <> rest) m st).0 ≡ rest)
      × ((snapshot_chunks (st.buffer <> rest) m st).1.buffer ≡ st.buffer <> rest)
unfolding snapshot_chunks
snapshot_chunks_lem rest m st = rw (buffer-note_message_id m st) (
    ground (
      arith,
      after_prefix_lem st.buffer rest,
      append_same st.buffer rest,
      append-nil st.buffer,
      append-nil rest,
      buffer-note_message_id m st,
    ))

-- What an event says of the text of a part: more text, or all of it.
pub data PartText : Type 0 where
  more : String → PartText
  all : String → PartText

abbrev pub chunks_of :
    PartText → Option String → StreamPartState → List NormalizedStreamChunk × StreamPartState
chunks_of (more delta_text) m st = delta_chunks delta_text m "delta" st
chunks_of (all snapshot) m st = snapshot_chunks snapshot m st

unfoldable pub send_texts :
    List (PartText × Option String) → StreamPartState → List NormalizedStreamChunk × StreamPartState
send_texts [] st = ([], st)
send_texts ((t, m) ∷ texts) st =
    let (chunks, st') = chunks_of t m st in
    let (later, st'') = send_texts texts st' in (chunks ++ later, st'')

-- Every snapshot continues the buffer that it meets.
abbrev pub IsContinued : List (PartText × Option String) → StreamPartState → Type 0
IsContinued [] st = Unit
IsContinued ((more delta_text, m) ∷ texts) st =
    IsContinued texts (chunks_of (more delta_text) m st).1
IsContinued ((all snapshot, m) ∷ texts) st =
    ((rest : String) × (snapshot ≡ st.buffer <> rest))
    × IsContinued texts (chunks_of (all snapshot) m st).1

delta_chunks_lem :
    (delta_text : String) (m : Option String) (source : String) (st : StreamPartState)
    → st.buffer <> contents (delta_chunks delta_text m source st).0
      ≡ (delta_chunks delta_text m source st).1.buffer
unfolding delta_chunks
delta_chunks_lem String.[] m source st = append-nil st.buffer
delta_chunks_lem (String.◌∷◌ c s) m source st =
    rw (append-nil (String.◌∷◌ c s))
      (ap (λ (t : String). t <> String.◌∷◌ c s) (sym (buffer-note_message_id m st)))

send_step :
    (a b : List NormalizedStreamChunk) (x y z : String)
    → x <> contents a ≡ y
    → y <> contents b ≡ z
    → x <> contents (a ++ b) ≡ z
send_step a b x y z p q =
    ap (λ (t : String). x <> t) (contents-append a b)
    ∙ sym (append_assoc x (contents a) (contents b))
    ∙ ap (λ (t : String). t <> contents b) p
    ∙ q

-- A part that receives any deltas, and snapshots that each continue its buffer, sends chunks whose
-- contents lead from the old buffer exactly to the new one: nothing is lost or sent twice.
pub contents-send_texts :
    (texts : List (PartText × Option String)) (st : StreamPartState)
    → IsContinued texts st
    → st.buffer <> contents (send_texts texts st).0 ≡ (send_texts texts st).1.buffer
unfolding send_texts
contents-send_texts [] st h = append-nil st.buffer
contents-send_texts ((more d, m) ∷ texts) st h =
    let next = (delta_chunks d m "delta" st).1 in
    send_step (delta_chunks d m "delta" st).0 (send_texts texts next).0 st.buffer next.buffer _
      (delta_chunks_lem d m "delta" st) (contents-send_texts texts next h)
contents-send_texts ((all snapshot, m) ∷ texts) st ((rest, continued), h) =
    let next = (snapshot_chunks snapshot m st).1 in
    send_step (snapshot_chunks snapshot m st).0 (send_texts texts next).0 st.buffer next.buffer _
      (rw continued (
        ap (λ (t : String). st.buffer <> t) (snapshot_chunks_lem rest m st).0
        ∙ sym (snapshot_chunks_lem rest m st).1))
      (contents-send_texts texts next h)
