-- ===== src/Lib.antt =====
-- Poby: container images are provisioned through a SmartNIC. A client asks the host for an image over
-- TCP; the host offloads the request to the DPU over RDMA; the DPU fetches the segments of the layers
-- from a registry over RDMA, decompresses them with DOCA into the memory of the host, and announces each;
-- the host unpacks the layers, and answers the client when the last one is there. Each handler runs in an
-- event loop, one at a time, so a model is a function on states, and an interleaving a sequence of steps.
--
-- Where the parts of the program are, with paths from the root of the repository:
--
-- Base: tests, lists, bytes and texts that the modules share. Memory: the bytes of a process, by address.
--
-- Wire.RdmaFrame and Wire.TcpFrame: src/utils/MsgFrame.h. parse_rdma_pb_msg and serialize_rdma_pb_msg are
--   parseRdmaPbMsg and serializeRdmaPbMsg, on the patterns of the ints; receive_tcp_pb_msg and
--   send_tcp_pb_msg are receiveTcpPbMsg and sendTcpPbMsg. What protoc generates is a parameter,
--   Wire.Codec: of a message type it assumes that a message parses from its serialization and that
--   ByteSizeLong is the length of it.
--
-- Tcp.Buffer: src/network/tcp/Buffer.h and Buffer.cc, the vector with its two indices, as sizes of 64
--   bits; Tcp.Buffer.Queue relates it to a queue of bytes. Tcp.Connection: TcpConnection.cc, with what the
--   socket took as a list of bytes. Tcp.Connector: TcpConnector.cc, with the functors and the timers that it
--   gives to the event loop; Tcp.Connector.Steps has its runs, Ledger where its sockets are, and Retries what
--   it does while it is refused.
--
-- Rdma: src/network/rdma. Rdma.Connection has the state of RdmaConnection, with the work requests posted to
--   the queue pair and the registered memory; Rdma.Create is create with its labels, Rdma.Layout the
--   constructor's buffers, Rdma.Setup connectQp and what follows, Rdma.Events handleRead. The verbs library
--   is a parameter: it says which calls succeed. Rdma.Connector is RdmaConnector.cc, which exchanges the
--   infos of two connections over TCP, and Rdma.Connector.Sides and Handshake have both sides of it.
--
-- BlobPool: src/utils/blob_pool.h.
--
-- Content: src/dpu/content_fetcher.cc (Content.Client) and src/host/server/content_server.cc
--   (Content.Server). Content.Session has a client, its pool and the registry, with the steps of fetching
--   a layer and of answering the oldest request in flight; Content.Session.Invariant is what every
--   sequence of steps keeps. The loop of trySendRequests runs on fuel, the number of requests that wait:
--   each round takes one, so it is enough. Memory is copied between the two sides by the step, which
--   stands for the network: it delivers in order, as a reliable connection does, what fits the receive
--   buffers. The registry gives its send buffer back at once: an answer leaves with what the memory has once
--   the handler is done, before the next request is handled.
--
-- Doca: src/doca. Doca.Core is core.cc, with the labels of its creation; Doca.Mmaps and Doca.Engine are the
--   creation, mapping, move and destruction of the engine of compress.cc, as the lists of what DOCA makes and
--   releases, which Doca.Objects counts. Doca.Pci: PCI addresses and the choice of a device, in common.cc and
--   common.h, on the devices that DOCA lists.
--
-- Doca.CompressEngine and Dpu.Decompress: src/doca/compress.h and src/dpu/decompress_client_epoll.cc. What
--   DOCA answers is a parameter. Dpu.Decompress.State has the messages and the state, and
--   Dpu.Decompress.Queueing is the order of the jobs.
--
-- Dpu.OffloadServer: src/dpu/offload_server_epoll.cc. Host.Decompress:
--   src/host/client/decompress_server_epoll.cc. Both write and read messages behind four bytes of type:
--   Wire.RdmaFrame.Typed.
--
-- Host.Command: src/host/client/command_server.cc and client_cli.cc. Host.Offload:
--   src/host/client/offload_client_epoll.cc, with the files of the metadata as a parameter. completeTask reads
--   the connection of a task that it has erased: what that gives is a parameter too, and Host.Offload.Intact
--   is the case that the memory is as before.
--
-- Host.Untar: src/host/client/untar_engine.cc, with the calls of untar and the threads of the executor as
--   steps, in any order. popen, fwrite and pclose answer by the step, and the threads are as many as the tasks.
--
-- ImageCompress: tool/image_compress.cc, the constructor and the callback of a job, over a folder. The rounds
--   of the engine are counted by what is left to read: one for each segment.
--
-- A fault (a failed assertion, an empty optional or queue that is read) is none. A mutex makes an operation
-- one step. Log lines and clocks are left out.
--
-- Not modelled: the event loop, threads, timers, sockets, servers and clients of src/network, which are an
-- adaptation of muduo over system calls; the command line of DOCA, and the export of memory maps, in src/doca;
-- src/image, which calls iSulad; and the programs' main functions.
pub mod Base
pub mod Memory
pub mod Wire
pub mod Rdma
pub mod BlobPool
pub mod Content
pub mod Tests
pub mod Tcp
pub mod Host
pub mod Doca
pub mod Dpu
pub mod ImageCompress
