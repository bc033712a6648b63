-- ===== src/Tcp/Connection.antt =====
-- src/network/tcp/TcpConnection.cc: the sending and the closing of a connection, in its event loop. A call
-- from another thread runs the same in the loop. `none` is a fault: a failed assertion.
pub mod Stream
pub mod Run
use atc2025_poby.Base.{
  ℕ, ◌+◌, ◌-◌, Bool, true, false, not, ◌&&◌, ◌||◌, Option, none, some, List, [], ◌∷◌, ◌++◌, ltb,
  leb, ◌==◌, if◌then◌else◌, ◌>>=◌, assert, length, take, drop,
}
use atc2025_poby.Tcp.Buffer.{
  Buffer, readable_bytes, peek, append, retrieve, retrieve_all, read_fd, new_buffer, initial_size,
}

pub data State : Type 0 where
  disconnected connecting connected disconnecting : State

-- A callback that was queued in the loop or run.
pub data Callback : Type 0 where
  write_complete connection close message : Callback
  high_water_mark : ℕ → Callback

-- The result of `write`: the number of bytes taken, or -1 with an `errno`.
pub data Written : Type 0 where
  wrote : ℕ → Written
  would_block broken_pipe connection_reset other_error : Written

-- `written` holds the bytes that the socket took; `write_shut` is set by `shutdownWrite`.
pub record TcpConnection : Type 0 where
  pub state : State
  pub reading : Bool
  pub channel_reading : Bool
  pub channel_writing : Bool
  pub input_buffer : Buffer
  pub output_buffer : Buffer
  pub high_water_mark : ℕ
  pub has_high_water_mark_callback : Bool
  pub has_write_complete_callback : Bool
  pub written : List ℕ
  pub write_shut : Bool
  pub callbacks : List Callback

-- The constructor. The callbacks are set before the connection is established.
unfoldable pub new_connection : Bool → Bool → ℕ → TcpConnection
unfolding new_buffer
new_connection high_water complete mark = record {
  state = connecting;
  reading = true;
  channel_reading = false;
  channel_writing = false;
  input_buffer = new_buffer initial_size;
  output_buffer = new_buffer initial_size;
  high_water_mark = mark;
  has_high_water_mark_callback = high_water;
  has_write_complete_callback = complete;
  written = [];
  write_shut = false;
  callbacks = [];
}

abbrev pub is_connected : State → Bool
is_connected connected = true
is_connected _ = false

abbrev pub is_disconnected : State → Bool
is_disconnected disconnected = true
is_disconnected _ = false

abbrev pub is_disconnecting : State → Bool
is_disconnecting disconnecting = true
is_disconnecting _ = false

abbrev pub is_connecting : State → Bool
is_connecting connecting = true
is_connecting _ = false

abbrev pub call : TcpConnection → Bool → Callback → TcpConnection
call t registered callback =
    if registered then record t { callbacks = t.callbacks ++ callback ∷ [] } else t

-- `nwrote`
abbrev pub count_of : Written → ℕ
count_of (wrote n) = n
count_of _ = 0

-- `faultError`
abbrev pub is_fault : Written → Bool
is_fault broken_pipe = true
is_fault connection_reset = true
is_fault _ = false

-- The first write, which is tried only where nothing waits.
abbrev pub try_write : TcpConnection → List ℕ → Written → TcpConnection
try_write t bs (wrote n) =
    call (record t { written = t.written ++ take n bs })
      (t.has_write_complete_callback && (length bs - n == 0)) write_complete
try_write t bs _ = t

abbrev pub waits : TcpConnection → Bool
waits t = t.channel_writing || not (readable_bytes t.output_buffer == 0)

-- The test of the high water mark, where `count` bytes are to be appended.
abbrev pub warned : TcpConnection → ℕ → TcpConnection
warned t count =
    let old_len = readable_bytes t.output_buffer in
    call t
      (leb t.high_water_mark (old_len + count)
        && ltb old_len t.high_water_mark
        && t.has_high_water_mark_callback)
      (high_water_mark (old_len + count))

abbrev pub enqueue : TcpConnection → List ℕ → Option TcpConnection
enqueue t rest = append t.output_buffer rest >>= λ b.
    some (record (warned t (length rest)) { output_buffer = b; channel_writing = true })

abbrev pub after_write : TcpConnection → List ℕ → Bool → ℕ → Option TcpConnection
after_write t bs fault n =
    assert (leb (length bs - n) (length bs))
      (if not fault && ltb 0 (length bs - n) then enqueue t (drop n bs) else some t)

-- `w` is what `write` gives, if it is called.
unfoldable pub send_in_loop : TcpConnection → List ℕ → Written → Option TcpConnection
unfolding append
send_in_loop t bs w =
    if is_disconnected t.state
    then some t
    else if waits t
    then after_write t bs false 0
    else after_write (try_write t bs w) bs (is_fault w) (count_of w)

unfoldable pub send : TcpConnection → List ℕ → Written → Option TcpConnection
unfolding send_in_loop
send t bs w = if is_connected t.state then send_in_loop t bs w else some t

unfoldable pub shutdown_in_loop : TcpConnection → TcpConnection
shutdown_in_loop t = if t.channel_writing then t else record t { write_shut = true }

unfoldable pub shutdown : TcpConnection → TcpConnection
unfolding shutdown_in_loop
shutdown t =
    if is_connected t.state then shutdown_in_loop (record t { state = disconnecting }) else t

unfoldable pub handle_close : TcpConnection → Option TcpConnection
handle_close t = assert (is_connected t.state || is_disconnecting t.state) (
    some (record t {
      state = disconnected;
      channel_reading = false;
      channel_writing = false;
      callbacks = t.callbacks ++ connection ∷ close ∷ [];
    }))

-- `forceClose`, with the `forceCloseInLoop` that it queues.
unfoldable pub force_close : TcpConnection → Option TcpConnection
unfolding handle_close
force_close t =
    if is_connected t.state || is_disconnecting t.state
    then handle_close (record t { state = disconnecting })
    else some t

unfoldable pub start_read : TcpConnection → TcpConnection
start_read t =
    if not t.reading || not t.channel_reading
    then record t { channel_reading = true; reading = true }
    else t

unfoldable pub stop_read : TcpConnection → TcpConnection
stop_read t =
    if t.reading || t.channel_reading
    then record t { channel_reading = false; reading = false }
    else t

unfoldable pub connect_established : TcpConnection → Option TcpConnection
connect_established t = assert (is_connecting t.state) (
    some (record t {
      state = connected;
      channel_reading = true;
      callbacks = t.callbacks ++ connection ∷ [];
    }))

-- The removal of the channel from the loop follows.
unfoldable pub connect_destroyed : TcpConnection → TcpConnection
connect_destroyed t =
    if is_connected t.state
    then record t {
      state = disconnected;
      channel_reading = false;
      channel_writing = false;
      callbacks = t.callbacks ++ connection ∷ [];
    }
    else t

-- By the bytes that `readv` stored, or `none` where it failed.
unfoldable pub handle_read : TcpConnection → Option (List ℕ) → Option TcpConnection
unfolding handle_close read_fd
handle_read t none = some t
handle_read t (some []) = handle_close t
handle_read t (some (x ∷ xs)) = read_fd t.input_buffer (some (x ∷ xs)) >>= λ b.
    some (record t { input_buffer = b; callbacks = t.callbacks ++ message ∷ [] })

-- When the last byte was taken.
abbrev pub drained : TcpConnection → TcpConnection
drained t =
    let stopped =
      call (record t { channel_writing = false }) t.has_write_complete_callback write_complete in
    if is_disconnecting stopped.state then shutdown_in_loop stopped else stopped

abbrev pub write_more : TcpConnection → ℕ → Option TcpConnection
write_more t n = retrieve t.output_buffer n >>= λ b.
    let taken = record t { output_buffer = b; written = t.written ++ peek t.output_buffer n } in
    some (if readable_bytes b == 0 then drained taken else taken)

unfoldable pub handle_write : TcpConnection → Written → Option TcpConnection
unfolding shutdown_in_loop retrieve
handle_write t w =
    if t.channel_writing && ltb 0 (count_of w) then write_more t (count_of w) else some t
