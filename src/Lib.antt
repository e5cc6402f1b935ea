-- ===== src/Lib.antt =====
-- wgpilot manages WireGuard networks on Linux: it keeps networks, peers and bridges in a
-- database, and writes interfaces, peers and firewall rules to the kernel. This library models
-- its core.
--
-- The parts and how they interact. The HTTP handlers (internal/server) allocate the addresses of
-- peers with the IP allocator, write networks and peers to the database, and call two managers:
-- the WireGuard manager for interfaces and peers, and the firewall manager for rules. At the
-- start the reconciliation reads the database and the kernel and calls the managers where the two
-- differ. The login rate limiter stands before the login handler, and the ring buffer keeps the
-- latest log entries for the diagnostics.
--
-- Base          what the other files share: texts as lists of bytes, lists, Go maps as association
--               lists (Base.Dict), decimal numerals, TrimSpace (Base.Space), lines, Go's int with Atoi
--               (Base.Int), arithmetic
-- Nft.Rules     internal/nft/rules.go: kinds of rules, their keys, the expansion of bridges
-- Nft.Manager   internal/nft/manager.go: AddNATMasquerade and its sisters as functions on the rule
--               table and the kernel; an Applier is the interface of that name, and RangeOrder the
--               order in which Go ranges over a map
-- Nft.Netlink   internal/nft/applier.go: Apply and the expressions it builds, as messages of a netlink
--               connection
-- IpAlloc       internal/wg/ip_alloc.go: NewIPAllocator, Allocate, Release and the arithmetic of IPv4
--               addresses
-- RateLimit     internal/auth/rate_limit.go: Allow, and one round of cleanup
-- Ring          internal/logging/ring.go: Write, Recent and Len
-- Wg.Types      internal/wg/interfaces.go: the records, with WireGuardController and LinkManager as
--               the record Host of operations on a world
-- Wg.Nets       splitAndTrim, parseAllowedIPs, allowedIPsMatch and formatIPNets of internal/wg
-- Wg.Manager    internal/wg/manager.go: createInterface, deleteInterface, AddPeer, UpdatePeer,
--               RemovePeer, as a state and error monad over the world of a Host
-- Wg.Reconcile  internal/wg/reconcile.go: Reconcile, syncPeers and ReconcileBridges; a step that fails
--               is passed over, as the code does
-- WgQuick       the wg-quick files of internal/wg: ParseWgQuickConfig of import.go (WgQuick.Import),
--               GenerateServerConfig of export.go and GenerateClientConfig of config_gen.go
--               (WgQuick.Export), and that the first reads what the others write
-- Expiry        internal/monitor/expiry.go: one round of the check for expired peers
-- Server.Types  the rows of internal/db, the replies, the record Database of the methods that the
--               handlers call, and the server: database, firewall, kernel and a source of keys
-- Server.Validate, Server.Subnets, Server.Names
--               the checks of internal/server/routes_networks.go: requests, overlapping subnets, and
--               nextInterfaceName
-- Server.Handlers
--               the steps that handlers are made of, as a monad that stops at the first reply
-- Server.Networks, Server.Networks.Lifecycle
--               handleCreateNetwork, handleUpdateNetwork; handleDeleteNetwork, handleEnableNetwork,
--               handleDisableNetwork
-- Server.Bridges
--               internal/server/routes_bridges.go: the create, update and delete handlers
-- Server.Peers  internal/server/routes_peers.go: the checks (Validate), the address of a new peer
--               (Lease), the handlers (Handlers, ConfigFile)
-- Server.Requests
--               the routes to these handlers, and a server that answers a list of requests
-- Server.Stored what the statements of internal/db do to the rows of networks, bridges and peers
-- Server.Steps, Server.Passes, Server.Keeps, Server.Quiet, Server.Frames
--               rules for what a step, a call of a manager and a whole handler leave of the database
-- Server.Plan, Server.Bridges.Pairs, Server.Peers.Histories
--               what any history of requests leaves of the networks, the bridges and the peers
-- Server.Firewall
--               what the steps of the handlers do to the abstract firewall of Nft.Manager.View
--
-- Conventions. A method that holds its mutex from its first to its last line is one step on the
-- state, and a history is a list of steps. An error is `none` for nil, or a value of an Error
-- type. A number is a natural number, and an address is the 32-bit value of its four octets, with
-- the wrap-around written out. Maps are association lists; where the order of a range loop could
-- matter, it is a parameter. The kernel, netlink, the parser of package net and the database are
-- parameters: records of operations, with what the code relies on as named hypotheses (Loads,
-- Linked, Peered, Accepts, Masks, ReadsAddresses, Stored, StoredPeers, PeerRows). A handler is one
-- step: requests that run at the same time are not modelled.
--
-- Bounds and fuel. The search of Allocate runs on fuel: as many rounds as the block of the subnet
-- has addresses, since each round moves to the next address and the loop stops outside the block.
-- A numeral takes at most one round more than its value. nextInterfaceName has one round more than
-- there are networks, and needs no more. The other loops are structural. The scanner of a wg-quick
-- file gives up on a line of 2^16 bytes, as bufio does; the round trips are about values of at most
-- 30,000 bytes, since the rules of NAT hold the name of an interface twice.
--
-- Not modelled: IPv6 in the allocator (the handlers accept IPv4 subnets only, and a stored subnet
-- of another kind is answered here as one that cannot be read), logging and the audit log, the
-- text of DumpRules, PeerStatus and DetectInterfaces, which only read, the netlink code of devices
-- and links, the handlers of the setup and most of those that only read, the QR code of a peer,
-- letters beyond ASCII in a wg-quick file, that a stored moment is cut to seconds, the statements
-- of internal/db beyond what Stored, StoredPeers and PeerRows say, the poller, authentication and
-- the frontend.
mod Base
pub mod IpAlloc
pub mod RateLimit
pub mod Ring
pub mod Wg
pub mod WgQuick
pub mod Server
pub mod Expiry
pub mod Nft
