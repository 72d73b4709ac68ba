-- ===== src/Lib.antt =====
-- A verification of goPass, a transparent proxy for Windows: a packet filter picks the TCP flows of
-- whitelisted programs, redirects them to a local proxy port and hands them to an upstream proxy,
-- while everything else passes unchanged.
--
-- The parts and how they interact. The packet loop (internal/engine/windivert.go) receives a batch
-- of packets from the WinDivert driver, cuts it up, and decides each packet in turn. The first packet
-- of a flow is decided by the process that owns it; the decision is kept in the flow policies
-- (flowpolicy.go), so that the flow is never rerouted later. A hijacked flow is registered in the
-- connection tracker (conntrack.go), which gives it a mapped port on the loopback; its packets are
-- rewritten to that port, and the answers of the local proxy are rewritten back by the tracker's
-- entry. Packets leave through a send queue (batch.go). The local proxy reads the host name from a
-- TLS ClientHello (sni.go, tproxy.go), dials the target through the upstream proxy (upstream.go), and
-- copies the stream. The process that owns a flow is found in the tables of Windows
-- (internal/process). The settings page (internal/api) changes the engine (engine.go) and its
-- configuration (internal/config) while all of this runs.
--
-- Files:
--   Base: numbers, lists, byte strings and association lists that the parts share.
--   Engine/Addr: the address scopes of windivert.go and what they use of package net.
--   Engine/ConnTrack: conntrack.go. A method is a function from the tracker to the new tracker; `Set`
--     is `set_target`, a tick of `startGC` is `gc_tick`.
--   Engine/FlowPolicy: flowpolicy.go; a tick of `sweepLoop` is `sweep_tick`.
--   Engine/Batch: packetLen, sendQueue and SendBatch of batch.go.
--   Engine/Intercept: windivert.go from processBatch down. `World` holds the fields of `Interceptor`
--     that the handlers use, the send queue and the calls made to the driver; `Env` is what the
--     surroundings answer. Its children Hijack, Tcp4, Udp4, Ipv6 and Dispatch hold the handlers, with
--     the names of the Go methods. Routes, Stays, Hijacks, Failures and Fallback are about single flows,
--     Packets and Batches about whole buffers.
--   Engine/Sni: ExtractSNI of sni.go.
--   Engine/Intercept/Reversed, Rewritten and Wrote: what reads of a packet find after the writes of the
--     handlers, and the round trip of a hijacked packet and the reply to it.
--   Engine/Capture: the receive loop of windivert.go (`Start`) and RecvBatch of batch.go. A Round is what
--     the driver answers to one receive and what the rest of the program did before it and meanwhile.
--   Engine/Lifecycle: New, Start and Stop of engine.go, NewTProxy of tproxy.go, and NewInterceptor,
--     preflight and Close of windivert.go.
--   Engine/Upstream: upstream.go. `dialer` takes the state that the second half of `Dialer` meets.
--     Reach has the states that goroutines can bring it to.
--   Engine/Whitelist, Engine/Control: engine.go, with SetWhitelist and SetProxyAddr of windivert.go and
--     UpdateUpstream of tproxy.go; the interceptor is the `World` of the packet handlers.
--   Engine/Stats: the connections counted by engine.go.
--   Engine/Tunnel: handleConn and readTLSClientHello of tproxy.go.
--   Engine/Connect: Dial of httpproxy.go.
--   Engine/Relay: Accept, relay and the pool of buffers of tproxy.go.
--   Engine/Statuses: ProcessStatuses of windivert.go and GetProcessStatuses of engine.go.
--   Process: internal/process. Flows has the keys, Table the reading of a table, Names the names of
--     processes and their cache, Rows the loop over rows and their layout, Resolver the IPv4 snapshots, Ipv6 the others.
--   Config: internal/config/config.go, with a store of files for `Save`.
--   Api: internal/api/api.go, the guard, the handlers that change settings, and the
--     status page in Api/Status.
--   Singleton: internal/singleton/singleton.go. Processes has the states of several processes that
--     take the lock and end.
--   Startup: cmd/gopass/main.go, with the loading of the configuration and its backup.
--
-- Conventions. Maps are association lists and time is a number of nanoseconds, given by the caller.
-- A method that runs under a lock is one step. An option result of a handler is none where Go would
-- panic on an index out of range. An IPv4 address is four bytes, an IPv6 address a list of 16. The
-- nil send queue of the path without batches is the absent queue, and the queue's capacity is the
-- constant `recv_buf_size`. The interval and TTL of the tracker are not negative here, 0 standing for
-- every value that falls back to the default.
--
-- Loops and fuel. The walk over the port pool has 28232 rounds, the size of the pool, as in the
-- source. The loops of ExtractSNI run on the length of their input and one more, and each round takes
-- three bytes or more. The other loops are recursions on their lists.
--
-- A name query doubles its buffer from 260 to 32768 and has 16 rounds of fuel; a table read has the
-- four attempts of the source.
--
-- Parameters. The answers of the process tables, the lowering of names, the checksum helper and the
-- driver's acceptance of a call are fields of `Env`; no law is assumed of them but
-- that the checksum helper keeps a packet's header (Sums). The calls of Windows
-- are fields of `Machine` and `Machine6` or functions of the size of a buffer. Package strings, the
-- lookup of addresses, the printing of JSON and the disk are fields of `Strings`, `Host`, `Disk` and
-- `Web`; what is assumed of them are the predicates IsAsciiStrings, IsTidy, IsReader and IsFresh. What the
-- named objects of Windows do is IsDocumented, what the driver does IsSensible.
--
-- Not modelled: loading the driver and its services, the text of the packet filter, logging, and the
-- copying inside package io. The order in which goroutines meet is modelled for the dialer, for the handling of one
-- connection, for the calls on a tracker, for processes that take the lock, and for the receive loop,
-- which meets in every round what the rest of the program did to the interceptor; elsewhere a method
-- is one step.
pub mod Api
pub mod Base
pub mod Config
pub mod Engine
pub mod Process
pub mod Singleton
pub mod Startup
