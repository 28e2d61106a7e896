-- ===== src/Connector/Delivery.antt =====
-- Messages of one connection, however the bytes are cut into chunks and whenever they are read.
use wallaroo.Base.{
  ℕ, suc, ◌+◌, ◌<◌, ◌≡◌, inl, inr, true, refl, sym, ap, ◌∙◌, arith, Option, none, some,
}
use wallaroo.Base.{List, [], ◌∷◌, ◌++◌, length, take, drop, length-append, append_assoc}
use wallaroo.Base.{Result, ok, err, All}
use wallaroo.Base.{take-eq_of_append, take-append-drop}
use wallaroo.Base.Dict.{lookup, insert, lookup-insert, nat_eq, same_refl, contains}
use mathlib.Core.Path.{subst}
use native.Mathlib.Decide.{dec_lt}
use wallaroo.Struct.{Bytes}
use wallaroo.Codec.{Decoder}
use wallaroo.Connector.{Sink, pop, read_one, store, receive, receives, deliver}
use wallaroo.Connector.Pending.{IsPending, append-contains, read_one-delivers}
use wallaroo.Connector.Framing.{IsFrame, pop_frame, pop_part, pop_nothing}

-- What happens to a connection: a chunk of bytes arrives, or `_read_one` is called.
pub data Event : Type 0 where
  arrive : Bytes → Event
  poll : Event

abbrev pub arrivals : List Event → Bytes
arrivals [] = []
arrivals (arrive bs ∷ evs) = bs ++ arrivals evs
arrivals (poll ∷ evs) = arrivals evs

-- A message on the wire.
pub record Message (A : Type 0) : Type 0 where
  pub header : Bytes
  pub payload : Bytes
  pub value : A

module _ {A : Type 0} where
  abbrev pub wire : List (Message A) → Bytes
  wire [] = []
  wire (m ∷ ms) = (m.header ++ m.payload) ++ wire ms

  abbrev pub values : List (Message A) → List A
  values [] = []
  values (m ∷ ms) = m.value ∷ values ms

module _ {A : Type 0} (d : Decoder A) where
  pub record IsMessage (m : Message A) : Type 0 where
    pub frame : IsFrame d m.header m.payload
    pub decodes : d.decode m.payload ≡ ok m.value

  abbrev after_poll : Result (Option A) × Sink → (Sink → List A × Sink) → List A × Sink
  after_poll (err e, s) go = ([], s)
  after_poll (ok none, s) go = go s
  after_poll (ok (some m), s) go = let (ms, s') = go s in (m ∷ ms, s')

  -- The messages that the events deliver on a connection, up to a raise.
  unfoldable pub run : ℕ → List Event → Sink → List A × Sink
  run k [] s = ([], s)
  run k (arrive bs ∷ evs) s = elim (receive (receives k bs) s) [
    | err e ↦ ([], s)
    | ok s' ↦ run k evs s'
  ]
  run k (poll ∷ evs) s = after_poll (read_one d k s) (run k evs)

  lookup-insert_self : (k : ℕ) (v : Bytes) (s : Sink) → lookup k (insert k v s.buffers) ≡ some v
  lookup-insert_self k v s = lookup-insert k k v s.buffers ∙ rw (same_refl k)

  receive_lem :
      (k : ℕ) (bs : Bytes) (s : Sink) (buf : Bytes)
      → lookup k s.buffers ≡ some buf
      → receive (receives k bs) s
        ≡ ok (record s { buffers = insert k (buf ++ bs) s.buffers; pending = s.pending ++ k ∷ [] })
  unfolding receive
  receive_lem k bs s buf h = rw (h, receive)

  read_one_lem :
      (k : ℕ) (s : Sink) (buf : Bytes)
      → lookup k s.buffers ≡ some buf
      → read_one d k s ≡ deliver d k buf s (pop d buf)
  unfolding read_one
  read_one_lem k s buf h = rw (h, read_one)

  run-arrive :
      (k : ℕ) (bs : Bytes) (evs : List Event) (s : Sink) (buf : Bytes)
      → lookup k s.buffers ≡ some buf
      → run k (arrive bs ∷ evs) s
        ≡ run k evs
            (record s { buffers = insert k (buf ++ bs) s.buffers; pending = s.pending ++ k ∷ [] })
  unfolding run
  run-arrive k bs evs s buf h = rw (receive_lem k bs s buf h, run)

  run-poll_waits :
      (k : ℕ) (evs : List Event) (s : Sink) (buf : Bytes)
      → lookup k s.buffers ≡ some buf
      → pop d buf ≡ ok none
      → run k (poll ∷ evs) s ≡ run k evs (store k buf s)
  unfolding run deliver
  run-poll_waits k evs s buf h w =
      ap (λ o. after_poll o (run k evs)) (read_one_lem k s buf h ∙ ap (deliver d k buf s) w)

  run-poll_delivers :
      (k : ℕ) (evs : List Event) (s s' : Sink) (m : A)
      → read_one d k s ≡ (ok (some m), s')
      → run k (poll ∷ evs) s ≡ (m ∷ (run k evs s').0, (run k evs s').1)
  unfolding run
  run-poll_delivers k evs s s' m e = ap (λ o. after_poll o (run k evs)) e

  -- What the events leave to be proved of the messages after them.
  pub record Delivered (k : ℕ) (later : Bytes) (ms : List (Message A)) (out : List A × Sink)
      : Type 0 where
    pub count : ℕ
    pub rest : Bytes
    pub messages : out.0 ≡ take count (values ms)
    pub buffer : lookup k out.1.buffers ≡ some rest
    pub stream : rest ++ later ≡ wire (drop count ms)

  -- What is to be shown of the events, from any buffer whose bytes and the bytes to come are the
  -- messages.
  abbrev Holds : ℕ → Bytes → List Event → Type 0
  Holds k later evs =
      (s : Sink) (buf : Bytes) (ms : List (Message A))
      → All IsMessage ms
      → IsPending d.header_length k buf s
      → lookup k s.buffers ≡ some buf
      → buf ++ (arrivals evs ++ later) ≡ wire ms
      → Delivered k later ms (run k evs s)

  nil_of_append : (xs ys : Bytes) → xs ++ ys ≡ [] → xs ≡ []
  nil_of_append [] ys e = refl
  nil_of_append (x ∷ xs) ys e = cc

  module _ (k : ℕ) (later : Bytes) (evs : List Event) (holds : Holds k later evs) where
    arrive-Holds : (bs : Bytes) → Holds k later (arrive bs ∷ evs)
    arrive-Holds bs s buf ms good q h e =
        subst (Delivered k later ms) (sym (run-arrive k bs evs s buf h)) (
          holds _ (buf ++ bs) ms good (inr (append-contains k s.pending))
            (lookup-insert_self k (buf ++ bs) s)
            (append_assoc buf bs (arrivals evs ++ later)
              ∙ ap (λ t. buf ++ t) (sym (append_assoc bs (arrivals evs) later))
              ∙ e))

    waits :
        (s : Sink) (buf : Bytes) (ms : List (Message A))
        → All IsMessage ms
        → IsPending d.header_length k buf s
        → lookup k s.buffers ≡ some buf
        → buf ++ (arrivals evs ++ later) ≡ wire ms
        → pop d buf ≡ ok none
        → Delivered k later ms (run k (poll ∷ evs) s)
    waits s buf ms good q h e w =
        subst (Delivered k later ms) (sym (run-poll_waits k evs s buf h w))
          (holds _ buf ms good q (lookup-insert_self k buf s) e)

    delivers :
        (s : Sink) (buf rest : Bytes) (m : Message A) (ms : List (Message A))
        → IsMessage m
        → All IsMessage ms
        → IsPending d.header_length k buf s
        → lookup k s.buffers ≡ some buf
        → buf ≡ (m.header ++ m.payload) ++ rest
        → rest ++ (arrivals evs ++ later) ≡ wire ms
        → Delivered k later (m ∷ ms) (run k (poll ∷ evs) s)
    delivers s buf rest m ms g good q h e f =
        let popped : pop d buf ≡ ok (some (m.payload, rest)) =
          ap (pop d) (e ∙ append_assoc m.header m.payload rest)
          ∙ pop_frame d m.header m.payload rest g.frame in
        let (s', given, stored, pending) =
          read_one-delivers d k s buf m.payload rest m.value h (is_pending q) popped g.decodes in
        let after = holds s' rest ms good pending stored f in
        subst (Delivered k later (m ∷ ms)) (sym (run-poll_delivers k evs s s' m.value given))
          (record {
            count = suc after.count;
            rest = after.rest;
            messages = ap (λ t. m.value ∷ t) after.messages;
            buffer = after.buffer;
            stream = after.stream;
          })
      where
        -- A buffer with a whole message can hold a header.
        is_pending : IsPending d.header_length k buf s → contains s.pending k ≡ true
        is_pending (inr there) = there
        is_pending (inl short) = absurd (
            omega (
              arith,
              short,
              ap length e,
              length-append {0} (m.header ++ m.payload) rest,
              length-append {0} m.header m.payload,
              g.frame.header_fits,
            ))

    poll-Holds : 0 < d.header_length → Holds k later (poll ∷ evs)
    poll-Holds pos s buf [] good q h e =
        waits s buf [] good q h e
          (ap (pop d) (nil_of_append buf (arrivals evs ++ later) e) ∙ pop_nothing d pos)
    poll-Holds pos s buf (m ∷ ms) (g, good) q h e =
        elim (dec_lt (length buf) (length m.header + length m.payload)) [
          | yes short ↦
              waits s buf (m ∷ ms) (g, good) q h e
                (pop_part d buf (arrivals evs ++ later) m.header m.payload (wire ms) g.frame
                  (e ∙ append_assoc m.header m.payload (wire ms)) short)
          | no long ↦
              let frame : Bytes = m.header ++ m.payload in
              let cut =
                take-eq_of_append buf (arrivals evs ++ later) frame (wire ms) e
                  (omega (arith, length-append {0} m.header m.payload)) in
              delivers s buf (drop (length frame) buf) m ms g good q h
                (sym (take-append-drop (length frame) buf)
                  ∙ ap (λ t. t ++ drop (length frame) buf) cut.0)
                cut.1
        ]

  -- Of messages sent on a connection, in whatever chunks their bytes arrive and whenever
  -- `_read_one` is called, the first ones are delivered, each once and in order, and the buffer
  -- with the bytes still to come is the rest; at first, a buffer that may hold a header belongs to
  -- a pending connection.
  pub delivery :
      (k : ℕ) (evs : List Event) (s : Sink) (buf later : Bytes) (ms : List (Message A))
      → 0 < d.header_length
      → All IsMessage ms
      → IsPending d.header_length k buf s
      → lookup k s.buffers ≡ some buf
      → buf ++ (arrivals evs ++ later) ≡ wire ms
      → Delivered k later ms (run k evs s)
  unfolding run
  delivery k [] s buf later ms pos good q h e = record {
    count = 0;
    rest = buf;
    messages = refl;
    buffer = h;
    stream = e;
  }
  delivery k (arrive bs ∷ evs) s buf later ms pos good q h e =
      arrive-Holds k later evs
        (λ s' buf' ms' good' q' h' e'. delivery k evs s' buf' later ms' pos good' q' h' e') bs s buf
        ms good q h e
  delivery k (poll ∷ evs) s buf later ms pos good q h e =
      poll-Holds k later evs
        (λ s' buf' ms' good' q' h' e'. delivery k evs s' buf' later ms' pos good' q' h' e') pos s
        buf ms good q h e
