-- ===== src/Lib.antt =====
-- The cluster library of this repository and the tables around it: a scheduler numbers the servers
-- and workers that register with it and watches their heartbeats (even-http/ps/core), messages go over
-- TCP in frames of a header, a protobuf meta and a payload, embedding tables are dealt out to the
-- servers by rank (mindspore/ps), and a hash ring spreads keys (consistent_hash).
--
-- Which file models what:
--   TcpMessageHandler    even-http/ps/core/tcp_message_handler.h and .cc: `receive_message` is
--                        ReceiveMessage, `round` the body of its loop, `fill_header`, `copy_body`
--                        and `deliver` its parts. TcpMessageHandler/Sender has `send_message`, that is
--                        SendMessage of tcp_client.cc and tcp_server.cc in the same directory.
--   Cluster              even-http/ps/core/node_info.h and the messages of protos/comm.proto.
--   NodeManager          even-http/ps/core/node_manager.h and .cc, each method under its name in snake
--                        case; `step` and `run` are histories of calls.
--   SchedulerNode        even-http/ps/core/scheduler_node.h and .cc: the handlers of its messages and its
--                        timer, `run` is any sequence of them.
--   AbstractNode         even-http/ps/core/abstract_node.h and .cc: AbstractNode/Collective has
--                        CollectiveReceiveAsync and RunReceiveCallback, AbstractNode/Requests the
--                        tracker of requests, Send with an output, and the handling of a response,
--                        AbstractNode/Sends all sends up to their Wait,
--                        AbstractNode/Member the handlers of the scheduler's answers.
--   CountDownLatch       even-http/ps/core/count_down_latch.h and .cc
--   Fsm                  even-http/ps/core/fsm.cpp, with Fsm/Runs any sequence of ticks and transitions
--   ClusterConfig        the settings of even-http/ps/core/cluster_config.h and .cc
--   HttpMessageHandler   even-http/ps/core/http_message_handler.h and .cc, each method under its name
--                        in snake case
--   HttpClient           even-http/ps/core/http_client.h and .cc: `get` and `post`; what libevent calls
--                        back while its loop runs is a list of events
--   NodeLife             what starting and finishing have in common in even-http/ps/core/server_node.cc and
--                        worker_node.cc; ServerNode and WorkerNode have the rest of each, ServerNode/Messages
--                        the messages that a server receives and its answers.
--   CommUtil             ValidateRankId and Retry of even-http/ps/core/comm_util.cc.
--   Shard                LocalShard and AllRankLocalShard of mindspore/ps/util.cc.
--   Worker               tables, keys and the slicing of lookups and, in Worker/Slicers, of updates and of
--                        keyed values of mindspore/ps/worker.cc.
--   ConsistentHash       consistent_hash/consistent_hash.h.
--   TcpServer            the table of connections and libevent's callbacks of
--                        even-http/ps/core/tcp_server.h and .cc; TcpServer/Runs is any sequence of them.
--   ThreadPool           even-http/ps/core/thread_pool.h and .cc: each critical section is a step, `run`
--                        is an interleaving.
--   TcpClient            even-http/ps/core/tcp_client.h and .cc; TcpClient/CommMessages its
--                        SendMessage of a CommMessage.
--   EventTcp             the frames of event-tcp/proto_utils.h and .cpp; EventTcp/Client is
--                        event-tcp/proto_client.h and .cpp, EventTcp/Server proto_server.h and .cpp there.
--   Relay                libevent-example/message.h and message.cpp; Relay/Decimal has inttostr.
--   Convert              the checked conversions of log/utils/convert_utils_base.h.
--   Common               names, tests, lists, machine words and dictionaries that all share.
--   Tests                the theorems at concrete inputs, and small runs.
-- The sender's frames are what the handler reads, and what the connections of TcpServer and TcpClient
-- feed to it; the node table is the scheduler's; the answers of ServerNode/Messages are those that
-- AbstractNode/Requests collects; Worker deals its ranges by Shard.
--
-- State is a record that an operation takes and returns. An exception is `none` or a `fault`, and so is
-- an access that C++ leaves undefined. Maps are association lists in the order of insertion (the
-- ordered map of the ring is kept sorted); no theorem depends on the order in which an unordered map
-- is walked. Unsigned numbers wrap where the source's do; the signed counters of ranks are
-- unbounded, and the theorems on them bound the number of calls by 2 ^ 31. The loop of ReceiveMessage
-- runs on fuel, one unit for each byte of input; every round takes a byte, and TcpMessageHandler/Bytewise
-- shows that the fuel never runs out. The loop of msgparser::parse runs on two units for each byte that it
-- has and one more: a round takes eight bytes, or ends a message whose header was taken before
-- (EventTcp/Parser).
--
-- Not modelled: protobuf (its parser and serializer are parameters), libevent and the sockets (what they
-- answer, such as whether a write is taken, is a parameter or a record of answers), the wall clock (an
-- argument), logging, and memory that cannot be allocated. A method is one step, with its lock held
-- throughout, but in ThreadPool and CountDownLatch, where each critical section is one, and in
-- AbstractNode/Collective, where RunReceiveCallback lets its lock go for the callback. Outside
-- ClusterConfig, the settings of cluster_config.cc are arguments.
-- The HTTP server, ssl_util.cc and the other programs of libevent-example are left out so far.
-- memcpy_s of log/utils is another project's: for collective messages and for responses, whose size nothing
-- bounds, whether it succeeds is a parameter; for the blocks that ReceiveMessage copies it is taken to succeed.
-- The thread of StartHeartbeatTimer is left out: the handler of the last heartbeat's answer sends a heartbeat
-- itself and waits for it on the event loop's thread, so the two do not run one after the other. The sends
-- to one rank and Broadcast take the bytes that their pointer and length name.
-- The histories of NodeManager have no calls of InitNodeNum or set_cluster_timeout, which touch no rank.
-- That SizeToInt throws for more than 2 ^ 31 - 1 finished nodes is left out of NodeManager.
pub mod AbstractNode
pub mod Cluster
pub mod ClusterConfig
pub mod CommUtil
pub mod Common
pub mod ConsistentHash
pub mod Convert
pub mod CountDownLatch
pub mod EventTcp
pub mod Fsm
pub mod HttpClient
pub mod HttpMessageHandler
pub mod NodeLife
pub mod NodeManager
pub mod Relay
pub mod SchedulerNode
pub mod ServerNode
pub mod Shard
pub mod TcpClient
pub mod TcpMessageHandler
pub mod TcpServer
pub mod Tests
pub mod ThreadPool
pub mod Worker
pub mod WorkerNode
