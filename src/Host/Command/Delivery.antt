-- ===== src/Host/Command/Delivery.antt =====
-- The command server on a request that TCP delivers in chunks.
use atc2025_poby.Base.{
  ℕ, ◌+◌, ◌^◌, ◌<◌, ◌≡◌, refl, sym, ap, subst, ◌∙◌, some, List, [], ◌∷◌, ◌++◌, append_assoc,
  append-nil, arith, length, All, length-append,
}
use atc2025_poby.Wire.Codec.{Codec}
use atc2025_poby.Tcp.Buffer.{Buffer}
use atc2025_poby.Tcp.Buffer.Queue.{Holds}
use atc2025_poby.Tcp.Buffer.Queue.Growth.{read_fd-Holds}
use atc2025_poby.Wire.TcpFrame.Delivery.{
  tcp_frame, concat, receive_tcp_pb_msg-frame, receive_tcp_pb_msg-part,
}
use atc2025_poby.Host.Command.{
  CreateContainerRequest, OffloadElement, pull_image, on_message, read_chunks,
}

module _ (requests : Codec CreateContainerRequest) where
  on_message-part :
      (conn : ℕ) (b : Buffer) (offloaded : List OffloadElement) (bytes part more : List ℕ)
      → Holds b part
      → part ++ more ≡ tcp_frame bytes
      → 0 < length more
      → 4 + length bytes < 2 ^ 31
      → on_message requests conn b offloaded ≡ some (offloaded, b)
  unfolding on_message
  on_message-part conn b offloaded bytes part more h e missing small =
      rw (receive_tcp_pb_msg-part requests b requests.blank bytes part more h e missing small) refl

  -- The chunk that completes the frame.
  last_chunk :
      (conn : ℕ) (chunk : List ℕ) (b : Buffer) (offloaded : List OffloadElement)
      (request : CreateContainerRequest) (bytes part : List ℕ)
      → requests.serialize request ≡ some bytes
      → 4 + length bytes < 2 ^ 31
      → length b.bytes + length chunk < 2 ^ 63
      → Holds b part
      → part ++ chunk ≡ tcp_frame bytes
      → (b' : Buffer) × (read_chunks requests conn (chunk ∷ []) b offloaded
          ≡ some (pull_image offloaded request.image_name_tag conn, b'))
        × Holds b' []
  unfolding read_chunks on_message
  last_chunk conn chunk b offloaded request bytes part e small room h whole =
      let (b1, r1, h1, g1) = read_fd-Holds b part chunk h room in
      let (b2, r2, h2) =
        receive_tcp_pb_msg-frame requests b1 request requests.blank bytes []
          (subst (Holds b1) (whole ∙ sym (append-nil (tcp_frame bytes))) h1) e small in
      (b2, rw (r1, r2) refl, h2)

  -- Whatever non-empty chunks the frame of a request arrives in, the request is offloaded once, after
  -- the last of them, and the buffer is empty again.
  pub read_chunks-request :
      (conn : ℕ) (chunks : List (List ℕ)) (b : Buffer) (offloaded : List OffloadElement)
      (request : CreateContainerRequest) (bytes part : List ℕ)
      → requests.serialize request ≡ some bytes
      → 4 + length bytes < 2 ^ 31
      → length b.bytes + length (concat chunks) < 2 ^ 63
      → Holds b part
      → 0 < length chunks
      → All (λ chunk. 0 < length chunk) chunks
      → part ++ concat chunks ≡ tcp_frame bytes
      → (b' : Buffer) × (read_chunks requests conn chunks b offloaded
          ≡ some (pull_image offloaded request.image_name_tag conn, b'))
        × Holds b' []
  unfolding read_chunks
  read_chunks-request conn [] b offloaded request bytes part e small room h nonempty full whole =
      absurd (omega arith)
  read_chunks-request conn (chunk ∷ []) b offloaded request bytes part e small room h nonempty full
        whole =
      last_chunk conn chunk b offloaded request bytes part e small
        (omega (arith, length-append chunk [])) h (ap (◌++◌ part) (sym (append-nil chunk)) ∙ whole)
  read_chunks-request conn (chunk ∷ next ∷ rest) b offloaded request bytes part e small room h
        nonempty full whole =
      let total = length-append chunk (next ++ concat rest) in
      let more = length-append next (concat rest) in
      let (b1, r1, h1, g1) = read_fd-Holds b part chunk h (omega (arith, total)) in
      let whole' : (part ++ chunk) ++ (next ++ concat rest) ≡ tcp_frame bytes =
        append_assoc part chunk (next ++ concat rest) ∙ whole in
      let r2 =
        on_message-part conn b1 offloaded bytes (part ++ chunk) (next ++ concat rest) h1 whole'
          (omega (arith, more, full.1.0)) small in
      let (b', r3, h3) =
        read_chunks-request conn (next ∷ rest) b1 offloaded request bytes (part ++ chunk) e small
          (omega (arith, g1, total)) h1 (omega arith) full.1 whole' in
      (b', rw (r1, r2) r3, h3)
