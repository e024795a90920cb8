-- ===== src/Lib.antt =====
-- turbocookedrabbit, mainly its version 2 (v2/pkg/tcr): a RabbitMQ client library with a pool of
-- connections and a cache of channels that mend themselves, publishers, consumers and a topology
-- builder.
--
-- The parts. A service (Service.antt, rabbitservice.go) owns a pool, a publisher, a topologer and
-- consumers. The pool (Pool.antt, connectionpool.go) keeps connection hosts in a queue and channel
-- hosts in a Go channel (Pool/Channels.antt), is built and shut down in Pool/Lifecycle.antt, and
-- works on the hosts of Host.antt (connectionhost.go, channelhost.go). The publisher
-- (Publisher.antt, publisher.go) takes a channel host from the pool, publishes a letter
-- (Letter.antt, letter.go and letters.go), waits for a confirmation, makes a receipt
-- (message.go) and returns the channel host; the service retries the letter of a failed receipt.
-- The topologer (Topologer.antt over Topology.antt; topologer.go, topology.go) and the consumer's
-- Get and GetBatch (Consumer.antt, consumer.go) work over transient channels. Config.antt has the
-- settings (configs.go). Auto.antt has the publisher's auto-publishing, and Service/Setup.antt,
-- Service/Direct.antt and Service/Stop.antt the service's constructors, its direct publish, and its
-- Shutdown with a round of each monitor. A payload (Payload.antt, json.go) is compressed
-- (Compression.antt, compression.go) and then encrypted (Crypto.antt, crypto.go). Message.antt
-- settles received messages (message.go), Random.antt draws random strings (random.go), and
-- Files.antt reads settings and certificates (json.go, tls.go).
--
-- How the code is modelled. Operations bear the Go names in snake case. The stateful ones are
-- programs of a small state monad (Base/Run.antt) over the state `Sys` of State.antt: the pool, the
-- store of connection hosts that pointers name, the receipts handed over, and a log of what the
-- run has done to the outside. The AMQP library, the queue library and the file system are the
-- record `Env` of Amqp.antt, a parameter: an answer depends on the number of the call and on its
-- arguments, so that any behaviour of the outside along a run is some value of it. Errors are
-- values; Go channels are lists, oldest first, with their capacity. A call that blocks, panics or
-- has used up its rounds does not return: its result is `none`.
-- The libraries behind payloads are the record `Library` of Codec.antt, a parameter too, and
-- `IsDocumented` there says what their documentation promises.
--
-- Bounds. `fuel` bounds the rounds of the loops that wait for the broker (reconnecting, waiting for
-- a confirmation, publishing again). Two rounds are enough for the loop of the pool's Shutdown over
-- its queue (Pool/Close.antt). Nothing bounds the others in the code, so that theorems about them
-- speak of the runs that return; Publisher/Waiting.antt is about which do. A timer is the number of
-- the call before which it was started and its duration: it is over once the clock, an answer of
-- the outside, has gone on by as much. The uint32 counter of retries wraps; durations, identifiers
-- and the remaining sizes are unbounded numbers.
--
-- Interleaving. The methods of one caller run one after the other; goroutines that only send a
-- receipt or close a channel are folded into the call that starts them. A consumer's loops are a
-- step relation (Consumer/Loops.antt), and so is auto-publishing (Auto/Order.antt): starts, stops,
-- queued letters, rounds of the loop, and for each goroutine the end of its publish and the freeing
-- of its place in the semaphore, in any order. A monitor of the service is one round, a function
-- of what it finds.
--
-- Proofs. Pool/Frame.antt and its children say what calls on connections leave alone;
-- Pool/Cache.antt, Pool/Rotation.antt, Pool/Flags.antt, Pool/Startup.antt and Pool/Close.antt are
-- about the pool; Publisher/Sends.antt, Publisher/Outcomes.antt, Publisher/Direct.antt,
-- Publisher/Waiting.antt and Publisher/Together.antt about publishing; Topologer/Build.antt,
-- Consumer/Batch.antt, Consumer/Loops.antt and Service/Retry.antt about the topology, consumers and
-- retries; Auto/Order.antt, Auto/Line.antt, Auto/Places.antt and Auto/Restart.antt about auto-
-- publishing; Service/Headers.antt, Service/Ready.antt, Service/Stopping.antt and
-- Service/Collecting.antt about the service; Crypto/Aes.antt, Crypto/Argon.antt and
-- Payload/Roundtrip.antt about payloads; Random/Letters.antt and Random/Repeats.antt about the
-- rest. Examples.antt and its children run them on data.
--
-- Version 1 (v1/pkg), the older major version. V1/ChannelPool.antt and V1/Channels.antt model its
-- channel pool (pools/channelpool.go, with channelhost.go and connectionhost.go beside it), which
-- keeps plain and ackable channels in two queues. What it asks of its connection pool is the record
-- `Connections`, an interface that V1/ConnectionPool.antt (pools/connectionpool.go) fills; the
-- queue library and the AMQP client are the records `Outside` and `Wire`, and `IsQueue` says that
-- the queue is first in, first out. createChannelHost tries 4 connections, as
-- the code does; `fuel` bounds the loops that create a channel again until one can be made, which
-- nothing bounds in the code. V1/Frame.antt, V1/Startup.antt, V1/Taking.antt and
-- V1/Rotation.antt are about the channel pool, V1/Limits.antt about the connections.
--
-- Not modelled: RepeatedRandomString of random.go; utils.go, which reads the clock; logging; the
-- examples; the rest of version 1, which has the same parts as version 2.
pub mod Base
pub mod Config
pub mod Files
pub mod Letter
pub mod Amqp
pub mod State
pub mod Host
pub mod Pool
pub mod Publisher
pub mod Topology
pub mod Topologer
pub mod Consumer
pub mod Service
pub mod Auto
pub mod Codec
pub mod Compression
pub mod Crypto
pub mod Payload
pub mod Random
pub mod Message
pub mod V1
pub mod Examples
