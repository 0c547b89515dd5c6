-- ===== src/Lib.antt =====
-- Booster balances the TCP connections of a SOCKS5 proxy over a network of nodes. A client's
-- request goes through the proxy's handshake, the dispatcher picks the node that dials the target,
-- the nodes count the tunnels that go through them, and the nodes of a network tell each other
-- what changed by packets on their connections and by the topics of a broker.
--
-- Common holds what the other files share: native numbers, lists under the library's names, byte
-- strings (a Go string or slice is the list of its bytes), 16-bit words, integers, maps, and the
-- result of fallible code. A map is an association list (Dict), and a range over a map goes in the
-- order of that list, where Go's order is open. Code that changes a state takes it and returns it
-- beside its result; what an early return leaves changed stays changed. A lock makes a method one
-- step of its state.
--
-- Packet is network/packet. Stream stands for the io and bufio calls: a reader is the bytes to
-- come and the error behind them, a writer the bytes written and the room left. Types is
-- packet.go, Tag is tag.go, Encoder is encoder.go and Decoder is decoder.go, function by function.
-- Wire is the wire format, written down apart from the code. `Encoder.Encode` ranges over a map, so
-- the order of the modules on the wire is that of the association list.
--
-- Node is node. State is node.go and tunnel.go: `Node` with its map of tunnels and the methods that
-- read or change it. Name resolution (net.ResolveTCPAddr) and SHA-1 are the parameter Environment.
-- Dispatcher is dispatcher.go: `get_node_balanced` for GetNodeBalanced, with the loop as `scan`, and
-- `dial_context` for DialContext with the ids that nodeFinderFunc collects. A World gives the
-- answers of Nodes(), of the dialers and of the set-up of a gateway's dialer, one for each round.
-- The loop of DialContext has no bound in Go; it runs on fuel here, and running out is the
-- outcome `stuck`. More fuel than there are node ids is enough. Gateway is DialContext of
-- socks5Dialer, as schedules of the call and the goroutine that dials.
--
-- PubSub is pubsub. Broker is pubsub.go and channel.go: a topic is the list of its places, a
-- subscriber is the channel at a place, and a cancel function is Unsub at an index. The hash of a
-- topic's name is a parameter. A call on the broker is one step there, and a message that a
-- subscriber does not take within a second is the step `expire`. Channels that are stopped and given
-- up are kept in `finished`. Pipeline takes one subscription apart: the goroutines of channel.run and
-- of Sub, and the calls of Pub and Unsub with the topic's lock, are actions on a Pipe, and a schedule
-- is a list of them. A timeout can come at any time.
--
-- Network is booster/network.go: the connections of a network (AddConn, Conn.Close,
-- Networks.Close, Nodes) with the events that they publish, and UpdateNode. Closing a handle is a
-- parameter. A network is registered under its id, so that the lookup in Conn.Close finds it. The
-- tunnels that a closed node and its successor share in Go are values here.
--
-- Protocol is protocol: the header (headers.go), the payloads (Payloads, payloads.go and the
-- constants of protocol.go), and the tables of encoders and decoders (Encoder, Decoder). Internal
-- has the generated structs and the parameters for the protobuf package; AreFaithful is what the
-- code relies on in it. RoundTrip puts the two tables together. Network.Messages is Encode, Decode
-- and ValidatePacket of booster/network.go on Packet and Protocol; the codecs of the values that
-- messages carry, in protobuf and in JSON, are the parameter Codecs there, and Exchanged puts the
-- encoders and decoders of Protocol in their place.
--
-- Link is network/network.go: a connection with its writer and its reader, Send, Recv and Consume.
-- The goroutine that Consume starts is its turns, one for each packet; run by itself it is
-- `consumed`, on fuel, for which one turn more than the bytes to come is enough (Termination).
-- Consumers has the calls and the turns as a step relation. Bandwidth is NetworkIO and its ticker.
--
-- Session is booster/booster.go, receivers.go, handlers.go and senders.go over all of these. A World
-- is the state of a node: its network, its connections by their handles, the time, the events of
-- tunnels, and the goroutines and signals that were started. Outside is what other packages give.
-- A call takes the World and returns it beside its result; `failing` and `deferred` are the local
-- functions `fail` and Go's `defer`. Wire is the connecting of a node, Handlers the loop of Handle
-- and its handlers, Senders the requests of a client. A peer is a bare connection or the entry of
-- Outgoing under an id. Services has what the goroutines of ServeStatus, ServeMonitor, UpdateRoot and
-- TraceNodes do for one event. Sending is Conn.Send when its IOTimeout comes first, Listening is the
-- loop of ListenAndServe, and Nets is the map of networks with New, whose panics are errors. Two parts
-- are schedules, as Pipeline is: Subscribed has UpdateRoot, serveNet, ServeStatus and TraceNodes, each
-- with its subscription, its context and its channel of errors; Running has Run, run, Close and
-- Restart, where the four routines of run return when they want to.
--
-- Commands is cmd/booster/commands: the arguments and the ctrl command. Gateway is
-- cmd/monitor-gateway/commands/start.go: the command, and the handler of a connection as a schedule of
-- its reads, the ticker and its pings, the goroutine of Monitor in booster/senders.go with its panic on
-- a nil packet, and the end of the wait.
--
-- Socks5 is socks5: Address is the reading and writing of addresses and ports, Server the handshake
-- (Negotiate, Connect, Bind, Associate and Handle) on a session of a reader, a writer, the published
-- updates and the calls of Close. The functions of net and strconv that parse and print addresses and numbers
-- are the parameter Environment; IsHost and IsPort say what the code relies on in them. The dialer
-- is a parameter, and Handle takes what ProxyData leaves as one. Proxy is ProxyData by itself: its two
-- goroutines and their channel as a step relation, in which a copy may have any outcome. Running is
-- Run, Close and ListenAndServe as schedules, in which net.Listen and Accept may answer anything; a
-- Handle that was started is only counted. Common.Steps has the schedules and what all of them share.
--
-- Tracer is tracer/tracer.go. Its channels have no buffer, so a call that sends waits in the state
-- until a loop of Run receives; the calls, the receiving and the ticks are a step relation. Run takes
-- two steps there, its test of the status and the rest.
--
-- Not modelled: New of socks5, serveNode's pair of subscriptions, and the timers of heartbeats; log;
-- the other commands under cmd, which parse flags and print; vendored and generated code. Deadlines
-- and the interleaving of goroutines are left out where no step above stands for them.
mod Common
pub mod Commands
pub mod Gateway
pub mod Link
pub mod Network
pub mod Node
pub mod Packet
pub mod Protocol
pub mod PubSub
pub mod Session
pub mod Socks5
pub mod Tracer
