-- ===== src/Lib.antt =====
-- Mercury Farm: a farm of phones that are booked, watched and controlled through a browser.
--
-- Messages travel between the units as bytes on a stream, each behind its length
-- (lib/wire/messagestream.js), and what a browser sends to a device is put back in order by its
-- sequence numbers (lib/wire/seqqueue.js). A device's screen can be shared over VNC
-- (lib/units/device/plugins/vnc/util/connection.js). Devices are booked in groups, whose windows of
-- time are computed by lib/util/apiutil.js, kept apart by lib/db/models/group/model.js, and opened
-- and closed by lib/db/handlers/group/scheduler.js, which leaves a group alone while a build
-- (lib/db/models/build/model.js) still runs on its devices. What a group costs is charged to the quotas
-- of its owner (lib/db/models/user/model.js).
--
-- A provider watches the devices that ADB knows (lib/units/provider/ADBObserver.js) and runs a process
-- for each (lib/util/ProcessManager.js). The process of a device lets one group at a time own it
-- (lib/units/base-device/plugins/group.js), on a channel whose timeout the channel manager keeps
-- (lib/wire/channelmanager.js), gives remote debuggers a URL
-- (lib/units/base-device/support/connector.js), and passes touches on to a service on the device
-- (lib/units/device/plugins/touch/index.js).
--
-- Base: the names that all files share, lists, integers and texts over the native numbers.
--
-- Wire.MessageStream: `transform` is `_transform` of DelimitedStream, `turn` is one round of its
-- loop and `turns` the loop, on two rounds for a byte and two more; `delimit` is `_transform` of
-- DelimitingStream. Lengths are integers that `<<` and `>>` take to 32 bits. Fuel is about the
-- end of the loop; Lengths: the bytes of a length; Expects: what is still to be read; RoundTrip: both
-- streams together.
--
-- Wire.SeqQueue: `consume` is the loop of `maybeConsume`, which `waiting` bounds; each round but the
-- last takes one off it. A handler is a value, and to run it is to list it. Order: in-order
-- delivery; Skips: what giving up on a handler does.
--
-- Vnc.Connection: Types and Messages hold the state and what is written; `round` in Machine is one
-- round of the inner loop of `_unguardedRead`, `rounds` the loop, on fuel from `full_rounds`, and
-- `run` a connection under the events that reach it: chunks, and the outcomes of the check of a
-- password, which runs outside. Auth and Requests say what a client can bring about.
--
-- Groups: Types and Rules (constants, durations, permissions, locks), Dates (`computeGroupDates`),
-- Overlap (`checkDatesOverlaps`), Builds, and Scheduler, with Order and Timer on its queue and
-- Windows on the groups. A time is a number of milliseconds, and the current time is an argument:
-- what a pass of the scheduler does at several moments is modelled at one. The database is the
-- documents that are given and written.
--
-- Util.ProcessManager: ResourcePool and ProcessManager of lib/util/ProcessManager.js. A call that
-- awaits is two steps: `begin_remove` and `finish_remove` are `remove` before and after its `await`.
-- Calls puts calls one after another, and Reports is getStats and checkHealth. Ports and Twice are
-- about the pool, Exits about the end of a child, Health about the reports.
--
-- Util.TtlSet: lib/util/ttlset.js, with the linked items in a store; `rounds` is the loop of `check`,
-- on a round for each item of the store, and a round takes one off the list. Bumps is about a bump of
-- a value that is there.
--
-- Util.FailCounter and Util.StateQueue: lib/util/failcounter.js and statequeue.js. Screen.BroadcastSet:
-- who watches a screen (lib/units/device/plugins/screen/util/broadcastset.js).
-- Vnc.PointerTranslator: the pointer of a VNC client as touches
-- (lib/units/device/plugins/vnc/util/pointertranslator.js).
--
-- Wire.Transactions: lib/wire/transmanager.js. Once is about a router by channels, Crosstalk about one
-- by the types of messages.
--
-- Wire.ChannelManager: lib/wire/channelmanager.js, with the channel objects in a store that ids and
-- aliases point into.
--
-- Device.GroupPlugin: lib/units/base-device/plugins/group.js. One event of the router, the channel
-- manager or a timer is one `step`; the plugin shares the model of lib/wire/channelmanager.js. Owned,
-- Joins and Ownership are about who owns the device, Refusal about a join that is refused.
--
-- Provider: lib/units/provider/ADBObserver.js. Tracking, Told, Reconnects, Events and Reconnection
-- are about the map of devices and what is emitted of it, Settles and Promises about what becomes of a
-- request, Idle and InFlight about which is in flight, Responses and Tunnel about what a response
-- brings about.
-- AdbDevices is the map of devices, with polls, health checks and reconnections as steps before and
-- after the answer that they await; AdbWire is the reading of bytes; and AdbQueue the queue of requests
-- on the one connection. A promise is a number, and `settled` lists what `resolve` and `reject` were
-- called with. The lengths in hexadecimal are written on 8 digits of fuel, which a command of 16 ^ 8
-- bytes would need.
--
-- Device.Forward: the writer and the reader of lib/units/device/plugins/forward/util. `write` has a
-- round of fuel for each byte of the chunk and one more, and a round writes a byte at least, or ends;
-- `rounds` is the loop of the reader, which takes a byte in a round. Packets, Pieces and Cuts lead up to
-- RoundTrip; Bounds is about lengths, and ShortChunks about headers in pieces.
--
-- Device.Connector: lib/units/base-device/support/connector.js. A step is a request, or the end of a
-- start or of a stop; a start that is going on keeps the channels that wait for it.
--
-- Groups.Quotas: the quotas of a user (lib/db/models/user/model.js). Groups.Ledger: the users and the
-- groups of lib/db/models/group/model.js, as groups are made, changed and deleted, each call on the
-- group as it is then. Accounts, Balance, Owners, Handlers and Steps weigh what owners have consumed
-- against their groups, Refusals is about calls that are refused after the owner was charged.
--
-- Device.Touch: the touch consumer of lib/units/device/plugins/touch/index.js. An operation is split
-- where it awaits, and the steps are what it awaits, the calls, the timers and the ends of the streams,
-- in any order. State is the consumer and its writers; Locks is about the lock, Aims, Follows, Work and
-- Settles about what is asked for, Unwritten, Flush and Writes about the touches, Stays,
-- Failing, Underway and Broken about a start that fails; Service is about minitouch itself.
--
-- Groups.Membership: who is in a group, in the same files. Relation is what each update does to it by the
-- groups and by the users; Admins, Additions and Linked are about whether the two agree.
--
-- Not modelled: the wire protocol, which is generated; the servers, the command line, storage and
-- authentication, which are glue over libraries; the device bridges; logging.
pub mod Base
pub mod Wire
pub mod Vnc
pub mod Groups
pub mod Util
pub mod Screen
pub mod Device
pub mod Provider
