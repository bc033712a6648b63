-- ===== src/Tcp/Connection/Run.antt =====
-- The life of a connection up to its closing, as steps of its event loop.
use atc2025_poby.Base.{
  ℕ, ◌+◌, ◌^◌, ◌≤◌, ◌<◌, ◌≡◌, refl, sym, subst, ◌∙◌, Bool, true, false, some, List, [], ◌++◌, arith,
  length, if◌then◌else◌, some_eq,
}
use atc2025_poby.Tcp.Buffer.{readable_bytes}
use atc2025_poby.Tcp.Buffer.Queue.{new_buffer-Holds, readable_bytes-eq}
use atc2025_poby.Tcp.Connection.{
  TcpConnection, Written, new_connection, connect_established, send, shutdown, handle_write,
  is_connected, is_disconnected, is_fault, count_of,
}
use atc2025_poby.Tcp.Connection.Stream.{Streams}
use atc2025_poby.Tcp.Connection.Stream.Sending.{send-Streams}
use atc2025_poby.Tcp.Connection.Stream.Draining.{shutdown-Streams, handle_write-Streams}

-- From a new connection, with what was sent while it was connected. The socket takes at most what it is
-- given and is not broken, and the vector of the output does not reach its `max_size`.
pub data Run (high_water complete : Bool) (mark : ℕ) : TcpConnection → List ℕ → Type 0 where
  established :
      (t : TcpConnection)
      → connect_established (new_connection high_water complete mark) ≡ some t
      → Run high_water complete mark t []
  sending :
      (t u : TcpConnection) (sent bs : List ℕ) (w : Written)
      → Run high_water complete mark t sent
      → length t.output_buffer.bytes + length bs < 2 ^ 63
      → is_fault w ≡ false
      → count_of w ≤ length bs
      → send t bs w ≡ some u
      → Run high_water complete mark u (if is_connected t.state then sent ++ bs else sent)
  shutting :
      (t : TcpConnection) (sent : List ℕ)
      → Run high_water complete mark t sent
      → Run high_water complete mark (shutdown t) sent
  writable :
      (t u : TcpConnection) (sent : List ℕ) (w : Written)
      → Run high_water complete mark t sent
      → is_disconnected t.state ≡ false
      → count_of w ≤ readable_bytes t.output_buffer
      → handle_write t w ≡ some u
      → Run high_water complete mark u sent

module _ (high_water complete : Bool) (mark : ℕ) where
  established-Streams :
      (t : TcpConnection)
      → connect_established (new_connection high_water complete mark) ≡ some t
      → Streams t []
  unfolding connect_established new_connection
  established-Streams t e =
      subst (λ u. Streams u []) (some_eq e)
        (record {
          queue = [];
          holds = new_buffer-Holds 1024 (omega arith);
          whole = refl;
          watched = λ d. refl;
          shut = λ d. cc;
        })

  Run-Streams :
      (t : TcpConnection) (sent : List ℕ) → Run high_water complete mark t sent → Streams t sent
  Run-Streams t sent (Run.established t' e) = established-Streams t e
  Run-Streams u sent (Run.sending t u' sent' bs w r room fine le e) =
      let (t', e', s) = send-Streams t sent' bs w (Run-Streams t sent' r) room fine le in
      subst (λ v. Streams v (if is_connected t.state then sent' ++ bs else sent'))
        (some_eq (sym e' ∙ e)) s
  Run-Streams u sent (Run.shutting t sent' r) = shutdown-Streams t sent (Run-Streams t sent r)
  Run-Streams u sent (Run.writable t u' sent' w r live le e) =
      let s = Run-Streams t sent r in
      let (t', e', s') =
        handle_write-Streams t sent w s live
          (omega (arith, readable_bytes-eq t.output_buffer s.queue s.holds)) in
      subst (λ v. Streams v sent) (some_eq (sym e' ∙ e)) s'

  -- In every run, what the socket took is the front of what was sent, and the socket is shut for
  -- writing only where it took all of it.
  pub written_in_order :
      (t : TcpConnection) (sent : List ℕ)
      → Run high_water complete mark t sent
      → (rest : List ℕ) × (t.written ++ rest ≡ sent) × (t.write_shut ≡ true → rest ≡ [])
  written_in_order t sent r = let s = Run-Streams t sent r in (s.queue, s.whole, λ d. (s.shut d).0)
