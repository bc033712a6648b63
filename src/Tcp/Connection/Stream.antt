-- ===== src/Tcp/Connection/Stream.antt =====
-- The bytes that TcpConnection.cc was handed, and those that the socket took.
pub mod Sending
pub mod Draining
use atc2025_poby.Base.{
  ℕ, ◌+◌, ◌^◌, ◌≤◌, ◌<◌, ◌≡◌, refl, sym, ap, subst, subst₂, ◌∙◌, Bool, true, false, ◌||◌, Option,
  some, List, [], ◌∷◌, ◌++◌, append_assoc, append-nil, arith, length, take, drop, ltb, ltb→lt,
  ltb→le, lt→ltb, Bool-cases, inl, inr, ◌>>=◌, if◌then◌else◌, ◌==◌, length-append, length-drop,
  take-append-drop, drop_all, drop-nil, ◌&&◌,
}
use atc2025_poby.Tcp.Buffer.{readable_bytes, peek}
use atc2025_poby.Tcp.Buffer.Queue.{Holds, readable_bytes-eq, peek-eq, retrieve-Holds}
use atc2025_poby.Tcp.Buffer.Queue.Growth.{append-Holds}
use atc2025_poby.Tcp.Connection.{
  State, TcpConnection, Callback, Written, is_connected, is_disconnected, is_disconnecting,
  is_fault, count_of, waits, call, warned, enqueue, try_write, after_write, send_in_loop, send,
  shutdown_in_loop, shutdown, handle_write, drained, write_more,
}

-- `sent` is all that was handed to `send` while connected: a part is written, the rest waits, and the
-- socket is watched for writing just where something waits.
pub record Streams (t : TcpConnection) (sent : List ℕ) : Type 0 where
  pub queue : List ℕ
  pub holds : Holds t.output_buffer queue
  pub whole : t.written ++ queue ≡ sent
  pub watched : is_disconnected t.state ≡ false → t.channel_writing ≡ ltb 0 (length queue)
  pub shut : t.write_shut ≡ true → (queue ≡ []) × (is_connected t.state ≡ false)

-- The two differ in the callbacks alone.
record Same (t t' : TcpConnection) : Type 0 where
  state : t'.state ≡ t.state
  written : t'.written ≡ t.written
  output : t'.output_buffer ≡ t.output_buffer
  writing : t'.channel_writing ≡ t.channel_writing
  shut : t'.write_shut ≡ t.write_shut

call-Same : (t : TcpConnection) (b : Bool) (k : Callback) → Same t (call t b k)
call-Same t true k = record {
  state = refl;
  written = refl;
  output = refl;
  writing = refl;
  shut = refl;
}
call-Same t false k = record {
  state = refl;
  written = refl;
  output = refl;
  writing = refl;
  shut = refl;
}

record Enqueued (t : TcpConnection) (queue : List ℕ) (o : Option TcpConnection) : Type 0 where
  made : TcpConnection
  returned : o ≡ some made
  holds : Holds made.output_buffer queue
  state : made.state ≡ t.state
  written : made.written ≡ t.written
  writing : made.channel_writing ≡ true
  shut : made.write_shut ≡ t.write_shut

enqueue-Enqueued :
    (t : TcpConnection) (queue rest : List ℕ)
    → Holds t.output_buffer queue
    → length t.output_buffer.bytes + length rest < 2 ^ 63
    → Enqueued t (queue ++ rest) (enqueue t rest)
enqueue-Enqueued t queue rest h room =
    let (b, r, h', g) = append-Holds t.output_buffer queue rest h room in
    let same = call-Same t _ _ in
    record {
      made = record (warned t (length rest)) { output_buffer = b; channel_writing = true };
      returned =
          ap
            (λ o. o >>= λ b.
              some (record (warned t (length rest)) { output_buffer = b; channel_writing = true }))
            r;
      holds = h';
      state = same.state;
      written = same.written;
      writing = refl;
      shut = same.shut;
    }

-- The bytes of `bs` behind the first `n` wait, where there are any.
after_write-Enqueued :
    (t : TcpConnection) (queue bs : List ℕ) (n : ℕ)
    → Holds t.output_buffer queue
    → length t.output_buffer.bytes + length bs < 2 ^ 63
    → n < length bs
    → Enqueued t (queue ++ drop n bs) (after_write t bs false n)
after_write-Enqueued t queue bs n h room lt =
    let e = enqueue-Enqueued t queue (drop n bs) h (omega (arith, length-drop n bs)) in
    record {
      made = e.made;
      returned = ground (arith, e.returned);
      holds = e.holds;
      state = e.state;
      written = e.written;
      writing = e.writing;
      shut = e.shut;
    }

-- A connection in use, where `rest` follows what waits.
record Open (t : TcpConnection) (queue rest sent : List ℕ) : Type 0 where
  holds : Holds t.output_buffer queue
  whole : t.written ++ (queue ++ rest) ≡ sent
  watched : t.channel_writing ≡ ltb 0 (length queue)
  up : is_connected t.state ≡ true
  not_shut : t.write_shut ≡ false

true≢false : {P : Type 0} → true ≡ false → P
true≢false e = cc
