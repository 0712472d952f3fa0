-- ===== src/Lib.antt =====
-- proxygw: a gateway that lets targets sleep while nothing talks to them. A dataplane forwards the
-- traffic of a frontend's address to a target's endpoint; an engine warms a target when a frontend
-- asks for it and drains it when the dataplane has seen no flow for longer than its timeout.
--
-- The parts, and the files that model them:
--   Config    pkg/config. Protocol, Ttl and Namespace are its scalars (ParseProtocol, ParseTTL,
--             ParseNamespaceReference and their converses); Document is the document with
--             Config.Validate, whose loops are `check_each`; Document/Validity says what it accepts.
--   Netip     what the program uses of Go's net/netip: addresses, ports and comparison.
--   Dataplane pkg/dataplane/mapping.go: Mapping, Validate and Overlaps.
--   Connft    pkg/dataplane/connft. Encode and Rules are connft_nft_rules.go (keys, values, DNAT and
--             timeout rules); Nft is connft_nft.go over the kernel's connection; State and Group are
--             connft_group.go and Close of connft.go, Group with the operations that write; Stale is
--             StaleGroups of connft_ct.go. Rules/Machine describes how the kernel runs such rules on a
--             packet, Rules/Installed its maps with the elements of mappings, and Rules/Translate and
--             Rules/Mappings prove on both. The folder Group holds the proofs: Sync and Removal on the
--             two maps of one group, Conflicts on the check for overlaps, Atomic on failures, Abstract
--             on what the owner of a group sees, Disjoint on all groups of a dataplane, with its History
--             of any calls, its Closing, and Traffic on the packets that meet its mappings.
--   Target    pkg/target. Endpoints is endpoint.go; Target holds the operations of target.go under
--             its lock; Target/Loop is the event loop, cut where the lock is free, with the
--             interleavings of the loop and the callers.
--   Frontend  pkg/frontend, in the same way. New binds the mapping in the modelled dataplane.
--   Engine    pkg/engine/engine.go: the registries, NewTarget, NewFrontend and their opposites;
--             Engine/Poll is the polling loop with detectTimeouts, on which Rounds and Timeouts prove;
--             Invariant, Preserve and Creation hold what each call preserves, and History any sequence
--             of calls on the engine and steps of its targets and frontends.
--   Ipc       plugin/ctl/ipc. Method is the folder method (numbers, payloads, IsResponse); Packet is
--             packet.go with MakePacket and ParseRawBody; Server, Client and Peer are base_server.go,
--             base_client.go and base_peer.go, each a read loop and the calls of its owner, with Step
--             for any interleaving of them.
--   Ctl       plugin/ctl/server.go. Status is statusResponse on the modelled engine, Sorting the order
--             that it asks of slices.SortFunc, Serve the loop of Serve on the modelled server.
--   Plugin    internal/plugin/register.go: the registry and the two hooks of a plugin.
--   Static    plugin/static: Always, Http and Cmd are the handlers always.go, http.go and cmd.go, Static
--             is none.go and the plugin of init.go.
--   Daemon    cmd/proxygw/main.go: Daemon is registerKinds, loadPlugins and unloadPlugins, Apply is
--             applyConfig, and Run is run from the document to the end. The folder Apply holds what
--             becomes of each target and each frontend of a document, and Outcome on the whole.
--   Proxygwctl  cmd/proxygwctl: StatusRequest of client.go over the modelled client, and dialClient of
--             main.go; RoundTrip joins it to the server of Ctl, and Wire is a codec to try it with.
--   Prelude   Boolean tests, lists, maps and texts that the others share.
--
-- How state is modelled: a struct is a record, a map an association list in the order in which one
-- `range` happens to walk it, an error an element of a data type of the errors that the code tells
-- apart. Objects that are shared (groups, targets, frontends) stand in a store under a number, which
-- is what a pointer to them is. An operation that holds a lock from its first line to its last is one
-- function; one that lets it go in between is several, and `none` is a step that the loop does not
-- take there, or a send that blocks. What code outside the repository answers is an argument:
-- nftables as the record Nft, the dump of conntrack, the handlers' results, the clock, and the duration
-- that time.ParseDuration yields. Written out, besides Go's own packages, is only what the kernel makes
-- of the expressions of a rule: Rules/Machine has it from the documentation of nf_tables.
--
-- Bounds: a TTL is below 2^32 and its duration is taken modulo 2^64; ports are below 2^16 where a key
-- is made of them; a difference of times stops at 2^63 - 1. No definition runs on fuel: all loops go
-- over a list, but for the event loops, which are step relations.
--
-- Channels are queues, the oldest value first; those of plugin/ctl/ipc have 16 places, or one for a
-- response. What a connection reads, and whether a write to it succeeds, are arguments.
--
-- Not modelled: New of connft.go and ensureTableAdded (sockets, the table and its chains), snapshots of
-- the kinds, Wait, logging; net.Conn and net.Listener with what wraps them in plugin/ctl/ipc, the codecs,
-- plugin/ctl/init.go, the servers of net/http and the processes of os/exec, whose answers are arguments of
-- the model of plugin/static; the flags and the output of cmd/proxygwctl, and the code generator of
-- cmd/proxygw.
pub mod Prelude
pub mod Netip
pub mod Config
pub mod Dataplane
pub mod Connft
pub mod Target
pub mod Frontend
pub mod Engine
pub mod Ipc
pub mod Ctl
pub mod Plugin
pub mod Static
pub mod Daemon
pub mod Proxygwctl
