-- ===== src/Content/Session/Invariant/Answer.antt =====
-- An answer within a session.
use atc2025_poby.Base.{
  some_eq, ℕ, ◌+◌, ◌^◌, ◌≤◌, ◌<◌, ◌≡◌, refl, sym, ap, subst, ◌∙◌, Bool, true, Option, some, ◌>>=◌,
  List, [], ◌∷◌, ◌++◌, String, arith, length, length-append, length-le32, le32, get_or, All,
  All-append, All-prefix, All-suffix, All-map, eq_refl,
}
use atc2025_poby.Memory.{Memory, load}
use atc2025_poby.Wire.Codec.{Codec}
use atc2025_poby.Wire.RdmaFrame.RoundTrip.{Fits, frame}
use atc2025_poby.Rdma.Connection.{
  RdmaConnection, SendWr, Verbs, bufpair_at, null_bufpair, release_send_buf,
}
use atc2025_poby.BlobPool.{BlobPool, acquire_blob}
use atc2025_poby.BlobPool.Supply.{acquire_blob-Suffices}
use atc2025_poby.Content.Messages.{GetLayerRequest, GetLayerResponse}
use atc2025_poby.Content.Client.{ContentClient, deliver, requests_after, on_recv_success}
use atc2025_poby.Content.Client
use atc2025_poby.Content.Client.Sending.{Carry}
use atc2025_poby.Content.Client.Receiving.{segment_blob, on_recv_success-deliver}
use atc2025_poby.Content.Order.{asked, got, requests_after-All}
use atc2025_poby.Content.Order.Whole.{element, InOrder, answered-InOrder, InOrder-lt}
use atc2025_poby.Content.Server.{FileSystem, layer_response}
use atc2025_poby.Content.Server
use atc2025_poby.Content.Server.Answering.{response_to, on_recv_success-answer}
use atc2025_poby.Content.Session.{Session, known, bytes_of}
use atc2025_poby.Content.Session.Invariant.Registry.{Setting}
use atc2025_poby.Content.Session.Invariant.{Steady, Inv}
use atc2025_poby.Content.Session.Invariant.Settle.{settle}
use atc2025_poby.Content.Session.Invariant.Fetch.{key}

some_free : (l : List ℕ) → 0 < length l → (x : ℕ) × (xs : List ℕ) × (l ≡ x ∷ xs)
some_free [] h = absurd (omega arith)
some_free (x ∷ xs) h = (x, xs, refl)

module _ (v : Verbs) (requests : Codec GetLayerRequest) (responses : Codec GetLayerResponse)
    (fs : FileSystem) (layer_is_compressed : Bool) (registry_path : String) (g : Setting)
    (accepting : (q : List SendWr) → length q < g.bufs → v.send_accepted q ≡ true) where
  -- The head of the requests in flight is for a segment that its layer has.
  pub head_in_range :
      (s : Session) (conn : RdmaConnection) (r : GetLayerRequest) (fl : List GetLayerRequest)
      → Steady v requests responses fs layer_is_compressed registry_path g s conn (r ∷ fl)
      → r.index < g.segments r.layer
  unfolding asked
  head_in_range s conn r fl i =
      let k = key r.layer r.image_name_tag in
      let h : InOrder (known k s.fetched) (g.segments r.layer) (got k s.client.submitted)
          (r.index ∷ asked k (fl ++ s.client.unsend_reqs)) =
        subst (InOrder (known k s.fetched) (g.segments r.layer) (got k s.client.submitted))
          (ground (arith, eq_refl r.layer, eq_refl r.image_name_tag)) (i.ordered k) in
      InOrder-lt (known k s.fetched) (g.segments r.layer) r.index (got k s.client.submitted)
        (asked k (fl ++ s.client.unsend_reqs)) i.listed.0.0.some_segment h

  -- The connection once the oldest request is answered.
  abbrev pub conn_after : RdmaConnection → Memory → List SendWr → ℕ → RdmaConnection
  conn_after conn mem rest id = release_send_buf (record conn { mem = mem; sq = rest }) id

  abbrev pub reply_of : GetLayerRequest → GetLayerResponse
  reply_of r =
      response_to v requests responses fs layer_is_compressed registry_path r
        (length (g.content r.layer r.index))

  -- The client as `deliver` hands it to `trySendRequests`.
  abbrev pub client_after :
      Session → RdmaConnection → Memory → List SendWr → ℕ → List ℕ → GetLayerRequest → ContentClient
  client_after s conn mem rest id ids r = record s.client {
    conn = some (conn_after conn mem rest id);
    inflight_sends = ids;
    curr_image_tag = r.image_name_tag;
    submitted =
        s.client.submitted
        ++ element (reply_of r)
            (segment_blob v requests responses s.pool (g.content r.layer r.index))
          ∷ [];
    unsend_reqs = requests_after (reply_of r) s.client.unsend_reqs;
  }

  pub answered-Steady :
      (s : Session) (conn served : RdmaConnection) (r : GetLayerRequest) (fl : List GetLayerRequest)
      (mem : Memory) (wr : SendWr) (rest : List SendWr) (id : ℕ) (ids : List ℕ) (sid : ℕ)
      (sids : List ℕ)
      → Steady v requests responses fs layer_is_compressed registry_path g s conn (r ∷ fl)
      → conn.sq ≡ wr ∷ rest
      → s.client.inflight_sends ≡ id ∷ ids
      → s.server.free_bufpairs ≡ sid ∷ sids
      → served.free_bufpairs ≡ sids ++ sid ∷ []
      → served.bufpairs ≡ s.server.bufpairs
      → served.sq ≡ []
      → Steady v requests responses fs layer_is_compressed registry_path g
          (record {
            client = client_after s conn mem rest id ids r;
            pool = (acquire_blob s.pool (length (g.content r.layer r.index))).1;
            server = served;
            fetched = s.fetched;
          })
          (conn_after conn mem rest id)
          fl
  unfolding layer_response release_send_buf
  answered-Steady s conn served r fl mem wr rest id ids sid sids i sq inflight free free' same
        idle =
      let l = i.listed.0.0 in
      let blob = segment_blob v requests responses s.pool (g.content r.layer r.index) in
      let held = subst (All _) inflight i.room_back in
      record {
        connected = refl;
        carried = (subst (λ q. Carry v requests responses q (r ∷ fl)) sq i.carried).1;
        counted = omega (arith, i.counted, ap length inflight);
        room = All-append _ conn.free_bufpairs (id ∷ []) i.room (held.0, tt);
        room_back = held.1;
        bufs =
            omega (arith, i.bufs, ap length inflight, length-append conn.free_bufpairs (id ∷ []));
        listed = All-append _ fl _ (All-prefix _ fl s.client.unsend_reqs i.listed.1) (
            requests_after-All _ (reply_of r) s.client.unsend_reqs
              (λ index lt. (l, subst (λ n. index < n) l.counts lt, omega (arith, l.counts)))
              (All-suffix _ fl s.client.unsend_reqs i.listed.1));
        ordered = λ k.
            answered-InOrder g.segments (known k s.fetched) k r (reply_of r) blob s.client.submitted
              fl s.client.unsend_reqs refl refl refl l.counts
              (subst (λ n. 0 < n) (sym l.counts) l.some_segment)
              (subst (λ n. n < 2 ^ 31) (sym l.counts) l.few_segments) (i.ordered k);
        genuine =
            All-append _ s.client.submitted (element (reply_of r) blob ∷ []) i.genuine (refl, tt);
        blobs =
            (acquire_blob-Suffices g.limit (length (g.content r.layer r.index)) s.pool i.blobs
              (l.small r.index)).1;
        server_room =
            All-map (λ b. g.server_size ≤ (bufpair_at s.server b).send_cap)
              (λ b. g.server_size ≤ (bufpair_at served b).send_cap)
              (λ b h. subst (λ t. g.server_size ≤ (get_or t b null_bufpair).send_cap) (sym same) h)
              served.free_bufpairs
              (subst (All _) (sym free') (
                let h = subst (All _) free i.server_room in
                All-append _ sids (sid ∷ []) h.1 (h.0, tt)));
        server_idle = idle;
        server_free = omega (arith, ap length free', length-append sids (sid ∷ []));
      }

  abbrev Served : Session → Memory → ℕ → SendWr → RdmaConnection → Type 0
  Served s mem buf wr served =
      Server.on_recv_success v requests responses fs layer_is_compressed registry_path
        (record s.server { mem = mem }) buf (length wr.payload)
      ≡ some served

  -- What the registry makes of the oldest request in flight.
  pub record Reply (s : Session) (r : GetLayerRequest) (wr : SendWr) (mem : Memory) (buf : ℕ)
      : Type 0 where
    pub served : RdmaConnection
    pub reply : SendWr
    pub bytes : List ℕ
    pub sid : ℕ
    pub sids : List ℕ
    pub ran : Served s mem buf wr served
    pub posted : served.sq ≡ s.server.sq ++ reply ∷ []
    pub payload : reply.payload ≡ frame bytes ++ g.content r.layer r.index
    pub fits : Fits responses (reply_of r) bytes
    pub small : 4 + length bytes + length (g.content r.layer r.index) < 2 ^ 32
    pub free : s.server.free_bufpairs ≡ sid ∷ sids
    pub free_after : served.free_bufpairs ≡ sids ++ sid ∷ []
    pub bufpairs : served.bufpairs ≡ s.server.bufpairs
    pub kept : bytes_of served reply ≡ reply.payload
    pub request_fits : length wr.payload ≤ g.size
    pub answer_fits : length reply.payload ≤ g.server_size

  length-frame : (bytes : List ℕ) → length (frame bytes) ≡ 4 + length bytes
  length-frame bytes =
      omega (arith, length-append (le32 (length bytes)) bytes, length-le32 (length bytes))

  -- The registry answers the oldest request in flight, wherever it is received.
  pub server-Reply :
      (s : Session) (conn : RdmaConnection) (r : GetLayerRequest) (fl : List GetLayerRequest)
      (wr : SendWr) (rest : List SendWr) (mem : Memory) (buf : ℕ)
      → Steady v requests responses fs layer_is_compressed registry_path g s conn (r ∷ fl)
      → conn.sq ≡ wr ∷ rest
      → load mem buf (length wr.payload) ≡ wr.payload
      → Reply s r wr mem buf
  server-Reply s conn r fl wr rest mem buf i sq arrived =
      let l = i.listed.0.0 in
      let lt = head_in_range s conn r fl i in
      let content = g.content r.layer r.index in
      let (asked_bytes, qfits, sent) =
        (subst (λ q. Carry v requests responses q (r ∷ fl)) sq i.carried).0 in
      let n : length wr.payload ≡ 4 + length asked_bytes =
        ap length sent ∙ length-frame asked_bytes in
      let whole : load mem buf (4 + length asked_bytes) ≡ frame asked_bytes =
        ap (load mem buf) (sym n) ∙ arrived ∙ sent in
      let (bytes, fits, fit, small) = l.answerable r.index r.total_segments lt in
      let (sid, sids, free) = some_free s.server.free_bufpairs i.server_free in
      let room =
        (subst (All (λ b. g.server_size ≤ (bufpair_at s.server b).send_cap)) free
          i.server_room).0 in
      let (served, reply, ran, posted, payload, free', same, kept) =
        on_recv_success-answer v requests responses fs layer_is_compressed registry_path
          (record s.server { mem = mem }) buf r asked_bytes content bytes sid sids qfits whole
          (l.holds r.index r.total_segments lt) fits free (omega (arith, room, fit)) small
          (accepting s.server.sq (omega (arith, ap length i.server_idle, i.counted, i.bufs))) in
      record {
        served = served;
        reply = reply;
        bytes = bytes;
        sid = sid;
        sids = sids;
        ran =
            subst
              (λ k.
                Server.on_recv_success v requests responses fs layer_is_compressed registry_path
                  (record s.server { mem = mem }) buf k
                ≡ some served)
              (sym n) ran;
        posted = posted;
        payload = payload;
        fits = fits;
        small = small;
        free = free;
        free_after = free';
        bufpairs = same;
        kept = kept;
        request_fits =
            let (own_bytes, own, bound) =
              l.sendable r.index r.total_segments i.listed.0.1 i.listed.0.2 in
            let one : own_bytes ≡ asked_bytes = some_eq (sym own.encoded ∙ qfits.encoded) in
            omega (arith, n, bound, ap length one);
        answer_fits = omega (
          arith,
          fit,
          ap length payload,
          length-append (frame bytes) content,
          length-frame bytes,
        );
      }

  -- The client takes the reply in, and the session is in order again, with the segment delivered.
  pub take_in :
      (s : Session) (conn : RdmaConnection) (r : GetLayerRequest) (fl : List GetLayerRequest)
      (wr : SendWr) (rest : List SendWr) (server_mem mem : Memory) (server_buf buf : ℕ)
      → Steady v requests responses fs layer_is_compressed registry_path g s conn (r ∷ fl)
      → conn.sq ≡ wr ∷ rest
      → (y : Reply s r wr server_mem server_buf)
      → load mem buf (length y.reply.payload) ≡ y.reply.payload
      → (c' : ContentClient) × (conn' : RdmaConnection) × (fl' : List GetLayerRequest)
        × (Client.on_recv_success v requests responses
              (record s.client { conn = some (record conn { mem = mem; sq = rest }) })
              s.pool
              (record conn { mem = mem; sq = rest })
              buf
              (length y.reply.payload)
            ≡ some (c', (acquire_blob s.pool (length (g.content r.layer r.index))).1))
        × Inv v requests responses fs layer_is_compressed registry_path g
            (record {
              client = c';
              pool = (acquire_blob s.pool (length (g.content r.layer r.index))).1;
              server = record y.served { sq = s.server.sq };
              fetched = s.fetched;
            })
            conn'
            fl'
        × (c'.submitted
            ≡ s.client.submitted
              ++ element
                  (reply_of r)
                  (segment_blob v requests responses s.pool (g.content r.layer r.index))
                ∷ [])
  unfolding deliver layer_response
  take_in s conn r fl wr rest server_mem mem server_buf buf i sq y arrived =
      let l = i.listed.0.0 in
      let content = g.content r.layer r.index in
      let (id, ids, inflight) = some_free s.client.inflight_sends (omega (arith, i.counted)) in
      let n : length y.reply.payload ≡ 4 + length y.bytes + length content =
        omega (
          arith,
          ap length y.payload,
          length-append (frame y.bytes) content,
          length-frame y.bytes,
        ) in
      let whole : load mem buf (4 + length y.bytes + length content) ≡ frame y.bytes ++ content =
        ap (load mem buf) (sym n) ∙ arrived ∙ y.payload in
      let room =
        (acquire_blob-Suffices g.limit (length content) s.pool i.blobs (l.small r.index)).0 in
      let conn0 : RdmaConnection = record conn { mem = mem; sq = rest } in
      let run =
        on_recv_success-deliver v requests responses (record s.client { conn = some conn0 }) s.pool
          conn0 buf (reply_of r) y.bytes content id ids y.fits whole (omega (arith, y.small))
          y.small inflight room in
      let (c', conn', fl', e, j, kept) =
        settle v requests responses fs layer_is_compressed registry_path g accepting _ _ fl (
          answered-Steady s conn (record y.served { sq = s.server.sq }) r fl mem wr rest id ids
            y.sid y.sids i sq inflight y.free y.free_after y.bufpairs i.server_idle) in
      let pool' : BlobPool = (acquire_blob s.pool (length content)).1 in
      let done : Client.on_recv_success v requests responses (record s.client { conn = some conn0 })
            s.pool conn0 buf (4 + length y.bytes + length content)
          ≡ some (c', pool') =
        run
        ∙ ap {A = Option ContentClient} {B = Option (ContentClient × BlobPool)}
            (λ m. m >>= λ d. some (d, pool')) e in
      (
        c',
        conn',
        fl',
        subst
            (λ k.
              Client.on_recv_success v requests responses (record s.client { conn = some conn0 })
                s.pool conn0 buf k
              ≡ some (c', pool'))
            (sym n) done,
        j,
        kept,
      )
