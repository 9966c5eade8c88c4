-- ===== src/Lib.antt =====
-- The rep of Diego: the program that represents a cell to the BBS and to the auctioneer.
--
-- What the parts do and which file models them:
-- - resources.go: the state of a cell, its resources, and the filters by which the auctioneer places
--   work on it: Cell (CellState, AddLRP, AddTask, ResourceMatch, MatchVolumeDrivers,
--   MatchPlacementTags, MatchRootFS), with Cell/Matching, Cell/Capacity, Cell/Placement,
--   Cell/Identifier (Identifier), Cell/Problems (the text of its error) and Cell/Constructors (the
--   constructors and copies).
-- - rootfs_providers.go: Rootfs (RootFSProviders.Match and the two kinds of provider) and Rootfs/Json
--   (their JSON forms), with Rootfs/Read, Rootfs/Panics and Rootfs/Copy (Copy).
-- - scoring.go and ComputeScore of resources.go: Scoring, over an arithmetic that stands for float64, with
--   Scoring/Fit.
-- - conversion_helpers.go: Conversion/Tags (ActualLRPKeyFromTags, ActualLRPInstanceKeyFromContainer,
--   ActualLRPNetInfoFromContainer) and Conversion/Runs (NewRunRequestFromDesiredLRP,
--   NewRunRequestFromTask and what they convert), with Conversion/Mounts, Conversion/Binds and Conversion/Requests (what a
--   request for an LRP asks for, field by field).
-- - generator/internal: Delegate (container_delegate.go), Processor (lrp_processor.go),
--   Processor/Ordinary, Processor/Evacuation and Processor/Tasks (one per processor), with
--   Processor/Ordinary/Claiming (the calls for a reserved container).
-- - generator/operation.go: Operation (Key and Execute of the five operations).
-- - generator/generator.go: Generator (BatchOperations); its OperationStream is part of
--   Harmonizer/Stream.
-- - harmonizer: Harmonizer (bulker.go: Run by its rounds, sync), with Harmonizer/Bulk,
--   Harmonizer/Interval, Harmonizer/IterationOrder and Harmonizer/Convergence (a sync and the execution of
--   what it pushes) and Harmonizer/Drains (the same while the cell evacuates), and Harmonizer/Stream
--   (event_consumer.go and what feeds it), with Harmonizer/Delivery.
-- - auctioncellrep/auction_cell_rep.go: AuctionRep (New, PathForRootFS), AuctionRep/State (State) and
--   AuctionRep/Perform (Perform and its two translations), with AuctionRep/Perform/Requested (what it asks
--   of the executor for an LRP), AuctionRep/Perform/Refusals (what it returns) and AuctionRep/Perform/Placed
--   (what becomes of the containers that it asks for); helpers.go: AuctionRep/Guid (GenerateGuid).
-- - client.go: Client (pickURL, modifyTransport, CreateClient), with Client/Address, and Client/Requests
--   (the requests), with Client/Served, which puts the client and the handlers together.
-- - routes.go and handlers/handlers.go: Routes (NewRoutes, New, NewLegacy, getRoutes, getHandlers).
-- - evacuation/evacuation_context/evacuation_context.go: Evacuation (Evacuate as steps of goroutines), with
--   Evacuation/Panics, Evacuation/Leaves and Evacuation/Specified; Services/Latch is what the other parts rely on.
-- - evacuation/evacuation.go: Evacuator (Run and its polling goroutine), with Evacuator/Loop and
--   Evacuator/Outcomes and Evacuator/Drained (the executor that it empties, as an interface).
-- - evacuation/cleanup.go: Cleanup (Run), with Cleanup/Calls and Cleanup/Wait.
-- - handlers: Handlers (every handler, by status and calls), with Handlers/Evacuating, which puts the
--   evacuation endpoint and the parts that ask for evacuation together.
-- - maintain: Maintainer (maintain.go: Run, waitForExecutor, createHeartbeater, heartbeat), with
--   Maintainer/Run, Maintainer/Ready, Maintainer/Stops and Maintainer/Announces, and Presence (cell_presence_client.go), with
--   Presence/Found and Presence/Events (CellEvents).
-- - cmd/rep: Command/StackMap (config/config.go's StackMap) with Command/StackMaps, and
--   Command/Settings (RepConfig and the addresses of main.go) with Command/Announced and
--   Command/Presence, Command/Startup (the clients, servers and presence that main.go makes) and
--   Command/Main (main, up to the group of its members), with Command/Started.
--
-- A batch of the generator is a map of operations by guid. An operation looks its container up through
-- the delegate and hands it to the processor of its lifecycle, which reports to the BBS and runs, stops
-- or deletes the container. The rep of the auction asks the executor for new containers, whose tags
-- the processors read later. The bulker pushes the operations of a batch on the operation queue at an
-- interval, and the event consumer those of the executor's events; the maintainer announces the cell while
-- the executor answers; the evacuator waits, once the evacuation is noticed, until no container is left.
--
-- How the code is modelled:
-- - Models holds the data of bbs/models and executor, with the fields that the program mentions.
--   Messages that are only passed on stand as their encoding.
-- - Services holds the calls of the executor, the BBS and the evacuation reporter. A handler is a
--   function of a World, which keeps the state of everything outside the rep, of a type that the
--   theorems leave open, and the calls made so far, the newest first. Env answers a call in such a
--   state, in any way and with any error. Library holds the pure functions that the program calls:
--   url.Parse, strconv, the decoding of mount configs and the Validate methods of bbs/models.
-- - Logging is left out. Errors are values, by their kinds.
-- - int is a 64-bit integer, int32 a 32-bit one; sums and differences wrap around (Base/Int). Numbers
--   that are only compared or passed on are not wrapped again.
-- - A Go map is an association list (Base/GoMap). Go ranges over a map in any order; the loops here
--   follow the list, and the theorems speak of lookups, sets of keys or membership.
-- - The three goroutines of BatchOperations write different variables, and are received three times:
--   a run is given by the order of their calls and the order in which their errors arrive.
-- - What the rep relies on of the executor and of the evacuation context, where its parts are put together,
--   are interfaces (Evacuator/Drained.Executor and Services/Latch.Latches); Services/Only and Services/Stays
--   carry what an action calls, and what its calls keep, through its parts.
-- - A loop over a list is structural recursion. The two loops that poll (Services/Polling) take the number
--   of their rounds as fuel; the theorems on them hold for every fuel, and tell for which fuel they end.
-- - A process that selects on channels is a step relation, with a step for each case of its selects and
--   for each step of the goroutine or process beside it, in any interleaving.
--
-- Not modelled: the run of the group of members, which belongs to ifrit, what other libraries construct for
-- main.go, a call of the executor that hangs while the exit timer of the cleanup fires, the fakes, which
-- are generated, and the test helpers. encoding/json, net/http, rata, net/url, ifrit, locket, consul,
-- operationq and the clocks are parameters, or choices of a step.
--
-- Examples holds concrete services, and applies each theorem to them.
pub mod Base
pub mod Rootfs
pub mod Cell
pub mod Models
pub mod Services
pub mod Conversion
pub mod Delegate
pub mod Processor
pub mod Operation
pub mod Generator
pub mod AuctionRep
pub mod Evacuation
pub mod Maintainer
pub mod Presence
pub mod Command
pub mod Scoring
pub mod Harmonizer
pub mod Evacuator
pub mod Cleanup
pub mod Handlers
pub mod Client
pub mod Routes
pub mod Examples
